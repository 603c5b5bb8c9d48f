-- ===== src/Options/Flags/Minus.antt =====
-- What separates the flags of an argument of ibcs/main.c.
use ibcs_us.Prelude.{
  ℕ, zero, suc, ◌+◌, ◌-◌, ◌*◌, ◌%◌, ◌^◌, ◌≤◌, ◌<◌, ◌≡◌, ◌≢◌, refl, ap, ◌∙◌, true, false, ◌&&◌, none,
  some, List, [], ◌∷◌, ◌==◌, if◌then◌else◌, length, take, drop, bit_or, arith, Bool-cases, inl, inr,
  Option-cases, length-drop-le, ==→eq, map,
}
use ibcs_us.Filemap.Normalise.{byte}
use ibcs_us.Options.Flags.{
  digit_value, digits, simple_strtoul, Flag, is_separator, from_end, word_value, is_rejected,
  add_flags, lookup_flag,
}

length-from_end : (arg : List ℕ) → length (from_end arg) ≤ length arg
unfolding from_end
length-from_end [] = omega arith
length-from_end (c ∷ arg) = ground (arith, length-from_end arg)

from_end_shorter : (c : ℕ) (arg : List ℕ) → length (drop 1 (from_end (c ∷ arg))) ≤ length arg
unfolding from_end
from_end_shorter c arg = ground (arith, length-from_end arg, length-drop-le 1 (from_end arg))

-- The loop of `lookup_flag` ends, with the length of the argument as fuel.
pub add_flags_total :
    (f : ℕ) (table : List Flag) (arg : List ℕ) (result : ℕ)
    → length arg ≤ f
    → add_flags f table arg result ≢ none
unfolding add_flags
add_flags_total f table [] result le h = cc
add_flags_total zero table (c ∷ arg) result le h = absurd (omega arith)
add_flags_total (suc f) table (c ∷ arg) result le h =
    let word : List ℕ = if c == b'~' then arg else c ∷ arg in
    let shorter : length (drop 1 (from_end word)) ≤ f =
      ground
        (arith, from_end_shorter c arg, length-from_end arg, length-drop-le 1 (from_end arg)) in
    elim (Bool-cases (is_rejected table word)) [
      | inl bad ↦ let e : some 0 ≡ none = (rw bad at h) in absurd (cc e)
      | inr good ↦ add_flags_total f table (drop 1 (from_end word)) _ shorter (rw good at h)
    ]

-- A `-` for a separator is a `+`.
abbrev pub plus : ℕ → ℕ
plus c = if c == b'-' then b'+' else c

length-map-plus : (s : List ℕ) → length (map plus s) ≡ length s
length-map-plus [] = refl
length-map-plus (c ∷ s) = omega (arith, length-map-plus s)

byte-map-plus : (s : List ℕ) (i : ℕ) → byte (map plus s) i ≡ plus (byte s i)
byte-map-plus [] i = refl
byte-map-plus (c ∷ s) zero = refl
byte-map-plus (c ∷ s) (suc i) = byte-map-plus s i

drop-map-plus : (n : ℕ) (s : List ℕ) → drop n (map plus s) ≡ map plus (drop n s)
drop-map-plus zero s = refl
drop-map-plus (suc n) [] = refl
drop-map-plus (suc n) (c ∷ s) = drop-map-plus n s

from_end-map-plus : (s : List ℕ) → from_end (map plus s) ≡ map plus (from_end s)
unfolding from_end
from_end-map-plus [] = refl
from_end-map-plus (c ∷ s) = ground (arith, from_end-map-plus s)

digit_value-plus : (c : ℕ) → digit_value (plus c) ≡ digit_value c
unfolding digit_value
digit_value-plus c = elim (Bool-cases (c == b'-')) [
  | inl dash ↦ let e : c ≡ b'-' = ==→eq c b'-' dash in rw e refl
  | inr other ↦ rw other refl
]

digits_stop :
    (base result c : ℕ) (s : List ℕ)
    → digit_value c ≡ none
    → digits base result (c ∷ s) ≡ (result, c ∷ s)
unfolding digits
digits_stop base result c s e = ground (arith, e)

digits_step :
    (base result c d : ℕ) (s : List ℕ)
    → digit_value c ≡ some d
    → digits base result (c ∷ s) ≡ digits base ((result * base + d) % 2 ^ 32) s
unfolding digits
digits_step base result c d s e = rw (e, digits) refl

digits-map-plus :
    (base result : ℕ) (s : List ℕ)
    → digits base result (map plus s)
      ≡ ((digits base result s).0, map plus (digits base result s).1)
digits-map-plus base result [] = unfold digits in refl
digits-map-plus base result (c ∷ s) = elim (Option-cases (digit_value c)) [
  | inl none_there ↦
      let e = digits_stop base result (plus c) (map plus s) (digit_value-plus c ∙ none_there) in
      rw (digits_stop base result c s none_there) e
  | inr (d, there) ↦
      let e = digits_step base result (plus c) d (map plus s) (digit_value-plus c ∙ there) in
      rw (digits_step base result c d s there)
        (e ∙ digits-map-plus base ((result * base + d) % 2 ^ 32) s)
]

zero_plus : (c : ℕ) → (plus c == b'0') ≡ (c == b'0')
zero_plus c = ground arith

letter_plus : (c l : ℕ) → b'-' < l → (bit_or (plus c) 0x20 == l) ≡ (bit_or c 0x20 == l)
letter_plus c l lt = elim (Bool-cases (c == b'-')) [
  | inl dash ↦ let e : c ≡ b'-' = ==→eq c b'-' dash in rw e (ground arith)
  | inr other ↦ rw other refl
]

simple_strtoul-map-plus :
    (s : List ℕ) (base : ℕ)
    → simple_strtoul (map plus s) base
      ≡ ((simple_strtoul s base).0, map plus (simple_strtoul s base).1)
unfolding simple_strtoul
simple_strtoul-map-plus s base =
    let b = if base == 0 then 10 else base in
    let zero_digit = zero_plus (byte s 0) in
    let hex = letter_plus (byte s 1) b'x' (omega arith) in
    let octal = letter_plus (byte s 1) b'o' (omega arith) in
    elim (Bool-cases (byte s 0 == b'0' && bit_or (byte s 1) 0x20 == b'x')) [
      | inl is_hex ↦
          rw (byte-map-plus s 0, byte-map-plus s 1, zero_digit, hex, is_hex, drop-map-plus 2 s)
            (digits-map-plus 16 0 (drop 2 s))
      | inr no_hex ↦ elim (Bool-cases (byte s 0 == b'0' && bit_or (byte s 1) 0x20 == b'o')) [
        | inl is_octal ↦
            rw
              (
                byte-map-plus s 0,
                byte-map-plus s 1,
                zero_digit,
                hex,
                octal,
                no_hex,
                is_octal,
                drop-map-plus 2 s,
              )
              (digits-map-plus 8 0 (drop 2 s))
        | inr no_octal ↦
            rw (byte-map-plus s 0, byte-map-plus s 1, zero_digit, hex, octal, no_hex, no_octal)
              (digits-map-plus b 0 s)
      ]
    ]

take_word-map-plus :
    (s : List ℕ)
    → take (length s - length (from_end s)) (map plus s) ≡ take (length s - length (from_end s)) s
unfolding from_end
take_word-map-plus [] = refl
take_word-map-plus (c ∷ s) = elim (Bool-cases (is_separator c)) [
  | inl sep ↦ let z : length (c ∷ s) - length (c ∷ s) ≡ 0 = omega arith in rw (sep, z) refl
  | inr other ↦
      let e : suc (length s) - length (from_end s) ≡ suc (length s - length (from_end s)) =
        omega (arith, length-from_end s) in
      let same : plus c ≡ c = ground arith in
      rw (other, e, same) (ap (λ r. c ∷ r) (take_word-map-plus s))
]

word_value-map-plus :
    (table : List Flag) (s : List ℕ) → word_value table (map plus s) ≡ word_value table s
unfolding word_value
word_value-map-plus table s =
    rw
      (
        simple_strtoul-map-plus s 16,
        from_end-map-plus s,
        length-map-plus s,
        length-map-plus (from_end s),
        length-map-plus (simple_strtoul s 16).1,
        take_word-map-plus s,
      )
      refl

is_rejected-map-plus :
    (table : List Flag) (s : List ℕ) → is_rejected table (map plus s) ≡ is_rejected table s
unfolding is_rejected
is_rejected-map-plus table s =
    rw
      (
        simple_strtoul-map-plus s 16,
        from_end-map-plus s,
        length-map-plus s,
        length-map-plus (from_end s),
        length-map-plus (simple_strtoul s 16).1,
        take_word-map-plus s,
      )
      refl

add_flags-map-plus :
    (f : ℕ) (table : List Flag) (arg : List ℕ) (result : ℕ)
    → add_flags f table (map plus arg) result ≡ add_flags f table arg result
unfolding add_flags
add_flags-map-plus f table [] result = refl
add_flags-map-plus zero table (c ∷ arg) result = refl
add_flags-map-plus (suc f) table (c ∷ arg) result = elim (Bool-cases (c == b'~')) [
  | inl tilde ↦
      let t : (plus c == b'~') ≡ true = ground arith in
      rw
        (
          tilde,
          t,
          is_rejected-map-plus table arg,
          word_value-map-plus table arg,
          from_end-map-plus arg,
          drop-map-plus 1 (from_end arg),
          add_flags-map-plus f table (drop 1 (from_end arg)),
        )
        refl
  | inr other ↦
      let t : (plus c == b'~') ≡ false = ground arith in
      rw
        (
          other,
          t,
          is_rejected-map-plus table (c ∷ arg),
          word_value-map-plus table (c ∷ arg),
          from_end-map-plus (c ∷ arg),
          drop-map-plus 1 (from_end (c ∷ arg)),
          add_flags-map-plus f table (drop 1 (from_end (c ∷ arg))),
        )
        refl
]

-- `lookup_flag` takes a `-` between two flags for a `+`: the flag behind it is added, not removed.
pub lookup_flag-map-plus :
    (f : ℕ) (table : List Flag) (arg : List ℕ)
    → lookup_flag f table (map plus arg) ≡ lookup_flag f table arg
unfolding lookup_flag
lookup_flag-map-plus f table arg = rw (lookup_flag, add_flags-map-plus f table arg 0) refl
