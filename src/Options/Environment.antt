-- ===== src/Options/Environment.antt =====
-- `ibcs_getenv` of ibcs/main.c.
use ibcs_us.Prelude.{
  ℕ, suc, ◌+◌, ◌≡◌, refl, true, false, ◌&&◌, some, List, [], ◌∷◌, ◌++◌, ◌==◌, length, take, drop,
  All, arith,
}
use ibcs_us.Filemap.Normalise.{byte}
use ibcs_us.Options.{ibcs_getenv, same_bytes}

same_bytes_refl : (s : List ℕ) → same_bytes s s ≡ true
same_bytes_refl [] = refl
same_bytes_refl (c ∷ s) = ground (arith, same_bytes_refl s)

take-append : (s r : List ℕ) → take (length s) (s ++ r) ≡ s
take-append [] r = refl
take-append (c ∷ s) r = rw (take-append s r) refl

byte-append : (s r : List ℕ) → byte (s ++ r) (length s) ≡ byte r 0
byte-append [] r = refl
byte-append (c ∷ s) r = byte-append s r

drop-append : (s r : List ℕ) (c : ℕ) → drop (length s + 1) (s ++ (c ∷ r)) ≡ r
drop-append [] r c = refl
drop-append (d ∷ s) r c =
    let e : suc (length s) + 1 ≡ suc (length s + 1) = omega arith in rw e (drop-append s r c)

-- A string of the environment sets another variable.
abbrev pub IsOther : List ℕ → List ℕ → Type 0
IsOther name e = (same_bytes (take (length name) e) name && byte e (length name) == b'=') ≡ false

-- The first string of the environment that sets the variable gives its value, whatever stands in the
-- value.
pub ibcs_getenv-append :
    (front back : List (List ℕ)) (name v : List ℕ)
    → All (IsOther name) front
    → ibcs_getenv (front ++ ((name ++ (b'=' ∷ v)) ∷ back)) name ≡ some v
unfolding ibcs_getenv
ibcs_getenv-append [] back name v h =
    rw
      (
        take-append name (b'=' ∷ v),
        same_bytes_refl name,
        byte-append name (b'=' ∷ v),
        drop-append name v b'=',
      )
      refl
ibcs_getenv-append (e ∷ front) back name v (other, h) =
    rw other (ibcs_getenv-append front back name v h)
