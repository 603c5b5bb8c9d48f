-- ===== src/Prelude/Take.antt =====
-- The first items of a list.
use Prim.Native.Nat.{◌≤◌, ℕ, zero, suc, ◌-◌}
use mathlib.Core.Path.{◌≡◌, refl, ap}
use mathlib.Core.List.{List, [], ◌∷◌, ◌++◌}
use native.Mathlib.Omega.{arith}
use ibcs_us.Prelude.Tests.{ltb, if◌then◌else◌}
use ibcs_us.Prelude.Lists.{length, take}

-- The smaller of two numbers, as C writes it: `n > size ? size : n`.
abbrev pub fitted : ℕ → ℕ → ℕ
fitted n size = if ltb size n then size else n

module _ {ℓ} {A : Type ℓ} where
  pub take_all : (n : ℕ) (xs : List A) → length xs ≤ n → take n xs ≡ xs
  take_all zero [] h = refl
  take_all zero (x ∷ xs) h = absurd (omega arith)
  take_all (suc n) [] h = refl
  take_all (suc n) (x ∷ xs) h = ap (λ r. x ∷ r) (take_all n xs (omega arith))

  pub length-take : (n : ℕ) (xs : List A) → length (take n xs) ≡ fitted (length xs) n
  length-take zero [] = refl
  length-take zero (x ∷ xs) = ground arith
  length-take (suc n) [] = ground arith
  length-take (suc n) (x ∷ xs) = ground (arith, length-take n xs)

  pub take-append :
      (n : ℕ) (xs ys : List A) → take n (xs ++ ys) ≡ take n xs ++ take (n - length xs) ys
  take-append zero [] ys = refl
  take-append (suc n) [] ys = let e : suc n - 0 ≡ suc n = omega arith in rw e refl
  take-append zero (x ∷ xs) ys = let e : 0 - suc (length xs) ≡ 0 = omega arith in rw e refl
  take-append (suc n) (x ∷ xs) ys =
      let e : suc n - suc (length xs) ≡ n - length xs = omega arith in
      rw e (ap (λ r. x ∷ r) (take-append n xs ys))

  pub take-take : (n m : ℕ) (xs : List A) → take n (take m xs) ≡ take (fitted m n) xs
  take-take zero m xs = ground arith
  take-take (suc n) zero xs = ground arith
  take-take (suc n) (suc m) [] = ground arith
  take-take (suc n) (suc m) (x ∷ xs) = ground (arith, take-take n m xs)

  -- The bytes up to a bound do not change when the list goes on.
  pub take-within : (n : ℕ) (xs ys : List A) → n ≤ length xs → take n (xs ++ ys) ≡ take n xs
  take-within zero xs ys h = refl
  take-within (suc n) [] ys h = absurd (omega arith)
  take-within (suc n) (x ∷ xs) ys h = ap (λ r. x ∷ r) (take-within n xs ys (omega arith))
