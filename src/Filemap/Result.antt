-- ===== src/Filemap/Result.antt =====
-- What the functions of ibcs/filemap.c return: a value, or a negative error number.
use ibcs_us.Prelude.{ℕ, ◌≡◌, refl, ap, ◌⊎◌, inl, inr}

-- `too_long` is -ENAMETOOLONG, and `os` is an error of a system call. `stuck` is no error of the code:
-- it is that the fuel of a loop ran out.
pub data Error : Type 0 where
  too_long stuck : Error
  os : (errno : ℕ) → Error

pub data Result {ℓ} (A : Type ℓ) : Type ℓ where
  err : (number : Error) → Result A
  ok : (value : A) → Result A

-- `if (IBCS_IS_ERR(ret)) return ret;`
infixl 5 ◌>>=◌
abbrev pub ◌>>=◌ {ℓ κ} : {A : Type ℓ} {B : Type κ} (ret : Result A) (next : A → Result B) → Result B
ret >>= next = elim ret [ err number ↦ err number | ok value ↦ next value ]

module _ {ℓ} {A : Type ℓ} where
  -- What a call returned is an error number, or it is not.
  pub Result-cases :
      (ret : Result A) → ((a : A) × (ret ≡ ok a)) ⊎ ((number : Error) × (ret ≡ err number))
  Result-cases (err number) = inr (number, refl)
  Result-cases (ok value) = inl (value, refl)

  -- A call that returned no error has returned a value to what follows it.
  pub ok-next {κ} :
      {B : Type κ} (ret : Result A) (next : A → Result B) {b : B}
      → (ret >>= next) ≡ ok b
      → (a : A) × (ret ≡ ok a) × (next a ≡ ok b)
  ok-next (err number) next h = cc
  ok-next (ok value) next h = (value, refl, h)

  -- An error is that of what follows a call, or the call's own.
  pub err-next {κ} :
      {B : Type κ} (ret : Result A) (next : A → Result B) {e : Error}
      → (ret >>= next) ≡ err e
      → ((a : A) × (ret ≡ ok a) × (next a ≡ err e)) ⊎ (ret ≡ err e)
  err-next (err number) next {e} h = let same : number ≡ e = cc in inr (ap {B = Result A} err same)
  err-next (ok value) next h = inl (value, refl, h)
