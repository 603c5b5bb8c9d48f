-- ===== src/Format/Write.antt =====
-- ibcs_vfmt and ibcs_vwritef as a whole: what is in the buffer, and what is written.
use ibcs_us.Prelude.{
  ℕ, ◌+◌, ◌-◌, ◌%◌, ◌^◌, ◌≤◌, ◌<◌, ◌≡◌, refl, true, false, none, some, List, length, take, leb,
  arith,
}
use ibcs_us.Prelude.Take.{length-take, take_all}
use ibcs_us.Format.{Arg, ibcs_vfmt, ibcs_vwritef}
use ibcs_us.Format.Expand.{expand, fmt_loop-take}

-- A call with a buffer that has room for more than the NUL, of less than 2 ^ 31 bytes, leaves in it the part of the whole output
-- that fits, the NUL not counted, and returns the length of that part and one more. The format is shorter
-- than 2 ^ 31 bytes and its whole output is defined, in which each number is at most 20 bytes long.
pub ibcs_vfmt-expand :
    (size : ℕ) (fmt : List ℕ) (args : List Arg) (full : List ℕ)
    → 2 ≤ size
    → size < 2 ^ 31
    → length fmt < 2 ^ 31
    → expand (length fmt) fmt args ≡ some full
    → ibcs_vfmt false size fmt args
      ≡ some
          (record { out = some (take (size - 1) full); count = length (take (size - 1) full) + 1 })
unfolding ibcs_vfmt
ibcs_vfmt-expand size fmt args full h small short e =
    let loop = fmt_loop-take (length fmt) (size - 1) fmt args full e in
    let long : leb size 1 ≡ false = ground arith in
    let n = length-take (size - 1) full in
    let count : size - ((size - 1) - length (take (size - 1) full))
        ≡ length (take (size - 1) full) + 1 =
      ground arith in
    rw (long, loop, count) refl

-- Without a buffer and without a bound, a call returns the length of the whole output and one more,
-- which is at most 2 ^ 31 - 1.
pub ibcs_vfmt_measured :
    (fmt : List ℕ) (args : List Arg) (full : List ℕ)
    → length full < 0x7fffffff
    → expand (length fmt) fmt args ≡ some full
    → ibcs_vfmt true 0 fmt args ≡ some (record { out = none; count = length full + 1 })
unfolding ibcs_vfmt
ibcs_vfmt_measured fmt args full h e =
    let loop = fmt_loop-take (length fmt) (0x7fffffff - 1) fmt args full e in
    let all = take_all 0x7ffffffe full (omega arith) in
    let count : 0x7fffffff - (0x7ffffffe - length full) ≡ length full + 1 = omega arith in
    rw (loop, all, count) refl

-- ibcs_vwritef gives `write` the whole output of the format, exactly, when that is defined, each number at most
-- 20 bytes long, when there is any and it is shorter than 2 ^ 31 - 1 bytes, as the format is.
pub ibcs_vwritef-expand :
    (fmt : List ℕ) (args : List Arg) (full : List ℕ)
    → 1 ≤ length full
    → length full < 0x7fffffff
    → length fmt < 0x7fffffff
    → expand (length fmt) fmt args ≡ some full
    → ibcs_vwritef fmt args ≡ some (some full, length full)
unfolding ibcs_vwritef
ibcs_vwritef-expand fmt args full nonempty short short_fmt e =
    let measured = ibcs_vfmt_measured fmt args full short e in
    let printed =
      ibcs_vfmt-expand (length full + 1) fmt args full (omega arith) (omega arith) (omega arith)
        e in
    let less : length full + 1 - 1 ≡ length full = omega arith in
    let all = take_all (length full) full (omega arith) in
    let n : (length full + 1 + 2 ^ 32 - 1) % 2 ^ 32 ≡ length full = omega arith in
    rw (measured, printed, less, all, n) refl
