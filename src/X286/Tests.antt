-- ===== src/X286/Tests.antt =====
-- The segments at a small table.
use ibcs_us.Prelude.{
  ◌+◌, ◌-◌, ◌/◌, ◌^◌, ◌≤◌, ◌≡◌, ◌≢◌, inl, refl, true, false, bit_and, ◌==◌, arith,
}
use ibcs_us.Compat.{einval}
use ibcs_us.X286.{Segment, Machine, decode, verify_area, verify_read, verify_write, verify_exec}
use ibcs_us.X286.Area.{Accepts, verify_area-Accepts}
use ibcs_us.X286.Memory.{
  int_brkctl, increase, new_segment, resize, refused, registers, br_argseg, br_newseg, br_impseg,
  emu_stkgro, emu_brk,
}
use ibcs_us.X286.Memory.Limits.{AllFit, int_brkctl-AllFit}

abbrev near_data : Segment
near_data = record { base = 0x10000; limit = 0x1fff; type = 0x12; dpl = 3; rlimit = 0xdfff }

-- One segment, 8, for data and stack: its selector is 0x47.
abbrev small_model : Machine
small_model = record { ldt = λ i. near_data; last_desc = 8; base_desc = 8; xerrno = 0 }

verify_area-Accepts_example :
    (0x47 / 8 ≤ 8)
    × (near_data.base ≢ 0)
    × ((bit_and 0x12 0x10 == 0) ≡ false)
    × Accepts verify_write near_data 0x47 0x47 0xe000 0x100
unfolding verify_area
verify_area-Accepts_example =
    verify_area-Accepts small_model 0x47 verify_write 0x47 0xe000 0x100 (omega arith) (omega arith)
      (omega arith) refl

all_fit : AllFit small_model
all_fit i low high = record { word = omega arith; bound = omega arith; size = omega arith }

int_brkctl-AllFit_example : AllFit (int_brkctl false 0 small_model br_argseg 0x1000 8).1
int_brkctl-AllFit_example =
    int_brkctl-AllFit false 0 small_model br_argseg 0x1000 8 all_fit (omega arith)
      (λ e. absurd (omega arith)) (inl refl)

segment_runs :
    (decode 0x47 8 0x00001fff 0x0040f200
      ≡ record { base = 0; limit = 0x1fff; type = 0x12; dpl = 3; rlimit = 0x1fff })
    × (verify_area small_model 0x47 verify_read 0x47 0x1f00 0x100 ≡ (0, 0))
    × (verify_area small_model 0x47 verify_read 0x47 0x1f00 0x101 ≡ (einval, einval))
    × (verify_area small_model 0x47 verify_exec 0x47 0 1 ≡ (einval, einval))
    × ((int_brkctl false 0 small_model br_argseg 0x1000 8).0 ≡ registers 0x47 0x2000)
    × ((int_brkctl false 0 small_model br_argseg 0xd000 8).0 ≡ refused)
    × ((int_brkctl true 0x50000 small_model br_newseg 0x100 8).0 ≡ registers 0x4f 0)
    × ((emu_stkgro 0xfffe 0x1000 small_model 0x3000).0 ≡ true)
    × ((emu_brk false 0 small_model 0x2800 0x47).0 ≡ true)
unfolding decode verify_area int_brkctl increase new_segment resize emu_stkgro emu_brk
segment_runs = (refl, refl, refl, refl, refl, refl, refl, refl, refl)

-- An area that wraps around is accepted: it begins below the segment.
wrapped : verify_area small_model 0x47 verify_read 0x47 (2 ^ 32 - 16) 32 ≡ (0, 0)
unfolding verify_area
wrapped = refl

-- The least number is no amount that a segment is too small for.
least : ((int_brkctl false 0 small_model br_argseg (2 ^ 31) 8).1.ldt 8).limit ≡ 2 ^ 31 + 0x1fff
unfolding int_brkctl increase new_segment resize
least = refl

-- Through BR_IMPSEG a segment can shrink by more than its size.
shrunk :
    ((int_brkctl false 0 small_model br_impseg (2 ^ 32 - 0x3000) 8).1.ldt 8).limit ≡ 2 ^ 32 - 0x1001
unfolding int_brkctl increase new_segment resize
shrunk = refl
