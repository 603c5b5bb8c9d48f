-- ===== src/Format/Numbers.antt =====
-- Numbers as ibcs_vfmt prints them: simple_strtoul's loop reads them back.
use ibcs_us.Prelude.{
  ℕ, zero, suc, ◌+◌, ◌-◌, ◌*◌, ◌/◌, ◌%◌, ◌^◌, ◌≤◌, ◌<◌, ◌≡◌, refl, ap, subst, ◌∙◌, some, List, [],
  ◌∷◌, ◌==◌, ◌!=◌, arith, Bool-cases, inl, inr,
}
use ibcs_us.Options.Flags.{digit_value, digits}
use ibcs_us.Format.{digit, to_base, number}

-- A predicate on the numbers below a bound, and one of them.
abbrev Each : (ℕ → Type 0) → ℕ → Type 0
Each P zero = Unit
Each P (suc n) = P n × Each P n

each : (P : ℕ → Type 0) (n : ℕ) → Each P n → (h : ℕ) → h < n → P h
each P zero p h less = absurd (omega arith)
each P (suc n) (p, ps) h less = elim (Bool-cases (h == n)) [
  | inl last ↦ let e : n ≡ h = ground arith in subst P e p
  | inr before ↦ each P n ps h (ground arith)
]

decimal_digits : Each (λ h. digit_value (digit 0 h) ≡ some h) 10
unfolding digit_value digit
decimal_digits = (refl, (refl, (refl, (refl, (refl, (refl, (refl, (refl, (refl, (refl, tt))))))))))

hex_digits : Each (λ h. digit_value (digit (b'a' - 10) h) ≡ some h) 16
unfolding digit_value digit
hex_digits = (
  refl,
  (
    refl,
    (
      refl,
      (
        refl,
        (
          refl,
          (
            refl,
            (refl, (refl, (refl, (refl, (refl, (refl, (refl, (refl, (refl, (refl, tt)))))))))),
          ),
        ),
      ),
    ),
  ),
)

module _ (base a : ℕ) (whole : (n : ℕ) → n / base * base + n % base ≡ n)
    (less : (n : ℕ) → n / base ≤ n - 1)
    (value : (n : ℕ) → digit_value (digit a (n % base)) ≡ some (n % base)) where
  digits-to_base :
      (f n : ℕ) (bb : List ℕ)
      → n < f
      → n < 2 ^ 32
      → digits base 0 (to_base f base a n bb) ≡ digits base n bb
  unfolding to_base digits
  digits-to_base zero n bb h w = absurd (omega arith)
  digits-to_base (suc f) n bb h w =
      let v = value n in
      let wh = whole n in
      let small : n % 2 ^ 32 ≡ n = omega arith in
      elim (Bool-cases (n / base != 0)) [
        | inl more ↦
            let nz : 1 ≤ n / base = ground arith in
            let ih =
              digits-to_base f (n / base) (digit a (n % base) ∷ bb) (omega (arith, less n))
                (omega (arith, less n)) in
            let e : (n / base * base + n % base) % 2 ^ 32 ≡ n = ap (λ x. x % 2 ^ 32) wh ∙ small in
            rw (more, ih, digits, v, e) refl
        | inr single ↦
            let z : n / base ≡ 0 = ground arith in
            let wz : 0 * base + n % base ≡ n = (rw z at wh) in
            let e : (0 * base + n % base) % 2 ^ 32 ≡ n = ap (λ x. x % 2 ^ 32) wz ∙ small in
            rw (single, digits, v, e) refl
      ]

-- `simple_strtoul` with base 10 reads every 32-bit number that `%u` prints.
pub digits-number_decimal : (n : ℕ) → n < 2 ^ 32 → digits 10 0 (number 10 0 n) ≡ (n, [])
unfolding number digits
digits-number_decimal n h =
    digits-to_base 10 0 (λ m. omega arith) (λ m. omega arith)
      (λ m. each (λ x. digit_value (digit 0 x) ≡ some x) 10 decimal_digits (m % 10) (omega arith))
      (suc n) n [] (omega arith) h

-- And with base 16, every 32-bit number that `%x` prints.
pub digits-number_hex : (n : ℕ) → n < 2 ^ 32 → digits 16 0 (number 16 (b'a' - 10) n) ≡ (n, [])
unfolding number digits
digits-number_hex n h =
    digits-to_base 16 (b'a' - 10) (λ m. omega arith) (λ m. omega arith)
      (λ m.
        each (λ x. digit_value (digit (b'a' - 10) x) ≡ some x) 16 hex_digits (m % 16) (omega arith))
      (suc n) n [] (omega arith) h
