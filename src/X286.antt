-- ===== src/X286.antt =====
-- x286/ldt.c and x286/emu_memory.c: the segments of a program for the 80286, the test of an area of memory, and
-- the growing of segments and of the stack. Numbers are 32-bit words, those below 0 as
-- their complement; a segment's limit of -1 is that of an empty segment. The calls of modify_ldt, which tell the
-- kernel of a change, are left out.
pub mod Area
pub mod Memory
mod Tests
use ibcs_us.Prelude.{
  ℕ, ◌+◌, ◌-◌, ◌*◌, ◌/◌, ◌%◌, ◌^◌, ◌==◌, ◌!=◌, ◌&&◌, ◌||◌, Bool, true, false, not, leb, ltb,
  if◌then◌else◌, bit_and, bit_or,
}
use ibcs_us.Compat.Brk.{minus}
use ibcs_us.Compat.{einval}

abbrev pub is_less : ℕ → ℕ → Bool
is_less a b = ltb ((a + 2 ^ 31) % 2 ^ 32) ((b + 2 ^ 31) % 2 ^ 32)

-- `struct ldt_desc`
pub record Segment : Type 0 where
  pub base : ℕ
  pub limit : ℕ
  pub type : ℕ
  pub dpl : ℕ
  pub rlimit : ℕ

-- `struct segment_descriptor` as its two words, and what ldt_init reads of it for entry `i`.
unfoldable pub decode : ℕ → ℕ → ℕ → ℕ → Segment
decode init_ds i lo hi =
    let limit = bit_or (lo % 2 ^ 16) ((hi / 2 ^ 16 % 16) * 2 ^ 16) in
    record {
      base = bit_or (bit_or (lo / 2 ^ 16) ((hi % 2 ^ 8) * 2 ^ 16)) ((hi / 2 ^ 24) * 2 ^ 24);
      limit = limit;
      type = hi / 2 ^ 8 % 32;
      dpl = hi / 2 ^ 13 % 4;
      rlimit = if limit != 0 && leb (init_ds / 8) i then bit_or (limit % 2 ^ 16) 0x0fff else 0;
    }

-- The table, its last entry, the entry of the near data, and the error number.
pub record Machine : Type 0 where
  pub ldt : ℕ → Segment
  pub last_desc : ℕ
  pub base_desc : ℕ
  pub xerrno : ℕ

pub data Access : Type 0 where
  verify_write : Access
  verify_read : Access
  verify_exec : Access

abbrev pub is_readable : Segment → ℕ → ℕ → ℕ → ℕ → Bool
is_readable s init_ds seg add length =
    let end = minus ((add + length) % 2 ^ 32) 1 in
    if ltb s.limit end
    then seg == init_ds && not (leb add s.rlimit) && not (ltb 0xffff end)
    else true

abbrev pub is_writable_type : ℕ → Bool
is_writable_type type = bit_and type 0x02 != 0 && bit_and type 0x08 == 0

-- The `switch`: the case for writing goes on with that for reading.
abbrev pub is_allowed : Access → Segment → ℕ → ℕ → ℕ → ℕ → Bool
is_allowed verify_write s init_ds seg add length =
    is_writable_type s.type && is_readable s init_ds seg add length
is_allowed verify_read s init_ds seg add length = is_readable s init_ds seg add length
is_allowed verify_exec s init_ds seg add length = bit_and s.type 0x08 != 0 && not (ltb s.limit add)

-- The value returned and xerrno.
unfoldable pub verify_area : Machine → ℕ → Access → ℕ → ℕ → ℕ → ℕ × ℕ
verify_area m init_ds type seg add length =
    let s = m.ldt (seg / 8) in
    if ltb m.last_desc (seg / 8)
    then (einval, einval)
    else if s.base == 0 || bit_and s.type 0x10 == 0
    then (einval, einval)
    else if is_allowed type s init_ds seg add length
    then (0, m.xerrno)
    else (einval, einval)
