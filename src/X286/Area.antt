-- ===== src/X286/Area.antt =====
-- What the test of an area lets through.
use ibcs_us.Prelude.{
  ℕ, ◌+◌, ◌-◌, ◌/◌, ◌%◌, ◌^◌, ◌≤◌, ◌<◌, ◌≡◌, ◌≢◌, ◌⊎◌, inl, inr, ◌==◌, ◌!=◌, ◌&&◌, ◌||◌, true,
  false, not, leb, ltb, bit_and, Bool-cases, arith,
}
use ibcs_us.Compat.Brk.{minus}
use ibcs_us.Compat.{einval}
use ibcs_us.X286.{
  Machine, Segment, Access, verify_write, verify_read, verify_exec, is_readable, is_writable_type,
  is_allowed, verify_area,
}

-- The bytes of a segment: none, if its limit is -1.
abbrev pub size_of : Segment → ℕ
size_of s = (s.limit + 1) % 2 ^ 32

-- The bytes from `add` on stand up to the segment's size, or in the stack, above the data's bound in the
-- segment of the near data.
abbrev pub InSegment : Segment → ℕ → ℕ → ℕ → ℕ → Type 0
InSegment s init_ds seg add length =
    (add + length ≤ size_of s) ⊎ ((seg ≡ init_ds) × (s.rlimit < add) × (add + length ≤ 2 ^ 16))

is_readable-InSegment :
    (s : Segment) (init_ds seg add length : ℕ)
    → 1 ≤ length
    → add + length < 2 ^ 32
    → s.limit < 2 ^ 32 - 1
    → is_readable s init_ds seg add length ≡ true
    → InSegment s init_ds seg add length
is_readable-InSegment s init_ds seg add length some_bytes no_wrap full ok =
    let end : minus ((add + length) % 2 ^ 32) 1 ≡ add + length - 1 = omega arith in
    elim (Bool-cases (ltb s.limit (add + length - 1))) [
      | inr within ↦ inl (ground arith)
      | inl beyond ↦
          let k : (seg == init_ds && not (leb add s.rlimit) && not (ltb 0xffff (add + length - 1)))
              ≡ true =
            (rw (end, beyond) at ok) in
          inr (ground arith, ground arith, ground arith)
    ]

-- An area of a segment that verify_area may accept, by the kind of access: for writing, the segment is a
-- writable data segment and has the whole area; for reading, it has the whole area; for executing, it is a code
-- segment and has the first byte.
abbrev pub Accepts : Access → Segment → ℕ → ℕ → ℕ → ℕ → Type 0
Accepts verify_write s init_ds seg add length =
    (is_writable_type s.type ≡ true) × InSegment s init_ds seg add length
Accepts verify_read s init_ds seg add length = InSegment s init_ds seg add length
Accepts verify_exec s init_ds seg add length =
    ((bit_and s.type 0x08 != 0) ≡ true) × (add < size_of s)

is_allowed-Accepts :
    (type : Access) (s : Segment) (init_ds seg add length : ℕ)
    → 1 ≤ length
    → add + length < 2 ^ 32
    → s.limit < 2 ^ 32 - 1
    → is_allowed type s init_ds seg add length ≡ true
    → Accepts type s init_ds seg add length
is_allowed-Accepts verify_write s init_ds seg add length l w full ok =
    elim (Bool-cases (is_writable_type s.type)) [
      | inl writable ↦
          (writable, is_readable-InSegment s init_ds seg add length l w full (rw writable at ok))
      | inr fixed ↦ let z : false ≡ true = (rw fixed at ok) in absurd (cc z)
    ]
is_allowed-Accepts verify_read s init_ds seg add length l w full ok =
    is_readable-InSegment s init_ds seg add length l w full ok
is_allowed-Accepts verify_exec s init_ds seg add length l w full ok =
    elim (Bool-cases (bit_and s.type 0x08 != 0)) [
      | inl executable ↦
          let k : not (ltb s.limit add) ≡ true = (rw executable at ok) in (executable, ground arith)
      | inr data_only ↦ let z : false ≡ true = (rw data_only at ok) in absurd (cc z)
    ]

-- An area that verify_area accepts lies in a memory segment of the table, which is writable data if it is to be
-- written and code if it is to be executed. To be read or written, the whole area is within the segment's
-- size, or within the stack; to be executed, its first byte is within the size. For an area that is not empty
-- and does not wrap around, and a segment that was not emptied, whose limit is -1.
pub verify_area-Accepts :
    (m : Machine) (init_ds : ℕ) (type : Access) (seg add length : ℕ)
    → 1 ≤ length
    → add + length < 2 ^ 32
    → (m.ldt (seg / 8)).limit < 2 ^ 32 - 1
    → (verify_area m init_ds type seg add length).0 ≡ 0
    → (seg / 8 ≤ m.last_desc)
      × ((m.ldt (seg / 8)).base ≢ 0)
      × ((bit_and (m.ldt (seg / 8)).type 0x10 == 0) ≡ false)
      × Accepts type (m.ldt (seg / 8)) init_ds seg add length
unfolding verify_area
verify_area-Accepts m init_ds type seg add length l w full ok =
    let s = m.ldt (seg / 8) in
    elim (Bool-cases (ltb m.last_desc (seg / 8))) [
      | inl outside ↦ let z : einval ≡ 0 = (rw outside at ok) in absurd (omega arith)
      | inr inside ↦ elim (Bool-cases (s.base == 0 || bit_and s.type 0x10 == 0)) [
        | inl system ↦ let z : einval ≡ 0 = (rw (inside, system) at ok) in absurd (omega arith)
        | inr memory ↦ elim (Bool-cases (is_allowed type s init_ds seg add length)) [
          | inl allowed ↦ (
            ground arith,
            ground arith,
            ground arith,
            is_allowed-Accepts type s init_ds seg add length l w full allowed,
          )
          | inr refused ↦
              let z : einval ≡ 0 = (rw (inside, memory, refused) at ok) in absurd (omega arith)
        ]
      ]
    ]
