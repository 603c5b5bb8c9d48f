-- ===== src/Format/Field.antt =====
-- A field of ibcs_vfmt: what is written of it is the part of it that fits.
use ibcs_us.Prelude.{
  ℕ, zero, suc, ◌-◌, ◌≡◌, refl, List, ◌++◌, if◌then◌else◌, length, take, arith, Bool-cases, inl,
  inr,
}
use ibcs_us.Prelude.Take.{fitted, length-take, take-append, take-take}
use ibcs_us.Format.{Directive, padding_bytes, put_field}

-- The whole field, however much room there is.
abbrev pub field : Directive → List ℕ → List ℕ
field d b =
    let formatted_size = fitted (length b) d.max_width in
    let padding = padding_bytes (d.min_width - formatted_size) d.pad_char in
    let text = take formatted_size b in if d.left_justify then text ++ padding else padding ++ text

length-padding_bytes : (n c : ℕ) → length (padding_bytes n c) ≡ n
unfolding padding_bytes
length-padding_bytes zero c = refl
length-padding_bytes (suc n) c = omega (arith, length-padding_bytes n c)

take-padding_bytes : (n p c : ℕ) → take n (padding_bytes p c) ≡ padding_bytes (fitted p n) c
unfolding padding_bytes
take-padding_bytes zero p c = ground arith
take-padding_bytes (suc n) zero c = ground arith
take-padding_bytes (suc n) (suc p) c = ground (arith, take-padding_bytes n p c)

-- What is written of a field is the part of it that fits.
pub put_field-take :
    (d : Directive) (b : List ℕ) (size : ℕ) → put_field d b size ≡ take size (field d b)
unfolding put_field
put_field-take d b size =
    let fs = fitted (length b) d.max_width in
    let pads = padding_bytes (d.min_width - fs) d.pad_char in
    elim (Bool-cases d.left_justify) [
      | inl left ↦
          let short : length (take fs b) ≡ fs = ground (arith, length-take fs b) in
          let room : size - fitted fs size ≡ size - fs = ground arith in
          let e1 = take-take size fs b in
          let e2 = take-padding_bytes (size - fs) (d.min_width - fs) d.pad_char in
          rw (left, room, take-append size (take fs b) pads, e1, short, e2) refl
      | inr right ↦
          let long = length-padding_bytes (d.min_width - fs) d.pad_char in
          let room : size - fitted (d.min_width - fs) size ≡ size - (d.min_width - fs) =
            ground arith in
          let e1 = take-padding_bytes size (d.min_width - fs) d.pad_char in
          let e2 = take-take (size - (d.min_width - fs)) fs b in
          rw (right, room, take-append size pads (take fs b), e1, long, e2) refl
    ]
