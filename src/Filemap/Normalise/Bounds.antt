-- ===== src/Filemap/Normalise/Bounds.antt =====
-- The buffer of `normalise_path` of ibcs/filemap.c: nothing is written behind its end.
use ibcs_us.Prelude.{
  ℕ, zero, suc, ◌+◌, ◌-◌, ◌≤◌, ◌<◌, Bool, true, false, List, [], ◌∷◌, ◌==◌, ◌≡◌, sym, ◌∙◌, length,
  length-drop-le, arith, Bool-cases, inl, inr, drop,
}
use ibcs_us.Filemap.Result.{Result, ok, ok-next}
use ibcs_us.Filemap.Normalise.{
  byte, strip_name, erase_name, copy_name, dotdot, round, rounds, finish, start, normalise_path,
}
use ibcs_us.Filemap.Normalise.Names.{length-reverse}
use ibcs_us.Filemap.Normalise.Correct.{rounds_step, rounds_end}

length-strip_name : (out : List ℕ) → length (strip_name out) ≤ length out
unfolding strip_name
length-strip_name [] = omega arith
length-strip_name (c ∷ out) = ground (arith, length-strip_name out)

pub length-erase_name : (out : List ℕ) → length (erase_name out) ≤ length out
unfolding erase_name
length-erase_name out = omega (arith, length-strip_name (drop 1 out), length-drop-le 1 out)

copy_name_takes :
    (size : ℕ) (s out s' out' : List ℕ)
    → length out < size
    → copy_name size s out ≡ ok (s', out')
    → (length s' ≤ length s - 1) × (length out' < size)
unfolding copy_name
copy_name_takes size [] out s' out' lt h = ground arith
copy_name_takes size (c ∷ s) out s' out' lt h =
    ground (arith, copy_name_takes size s (c ∷ out) s' out')

dotdot_takes :
    (size c d : ℕ) (s out s' out' : List ℕ)
    → length out < size
    → dotdot size (c ∷ d ∷ s) out ≡ ok (s', out')
    → (length s' ≤ length s) × (length out' < size)
unfolding dotdot
dotdot_takes size c d [] out s' out' lt h = ground (arith, length-erase_name out)
dotdot_takes size c d (e ∷ s) out s' out' lt h = ground (arith, length-erase_name out)

-- A round takes a byte of the path at least, and keeps the buffer's place inside it.
pub round_takes :
    (size c : ℕ) (s out s' out' : List ℕ)
    → length out < size
    → round size (c ∷ s) out ≡ ok (s', out')
    → (length s' ≤ length s) × (length out' < size)
unfolding round
round_takes size c [] out s' out' lt h =
    ground (arith, copy_name_takes size (c ∷ []) out s' out' lt)
round_takes size c (d ∷ s) out s' out' lt h = ground (
  arith,
  copy_name_takes size (c ∷ d ∷ s) out s' out' lt,
  dotdot_takes size c d s out s' out' lt,
  length-drop-le 1 s,
)

pub rounds_bound :
    (fuel size : ℕ) (s out out' : List ℕ)
    → length out < size
    → rounds fuel size s out ≡ ok out'
    → length out' < size
rounds_bound fuel size [] out out' lt h =
    let e : ok out ≡ ok out' = sym (rounds_end fuel size out) ∙ h in ground arith
rounds_bound zero size (c ∷ s) out out' lt h = absurd (unfold rounds in cc)
rounds_bound (suc fuel) size (c ∷ s) out out' lt h =
    let (s', o, e1, e2) = rounds_step fuel size c s out out' h in
    rounds_bound fuel size s' o out' (round_takes size c s out s' o lt e1).1 e2

length-finish : (out : List ℕ) → (1 ≤ length (finish out)) × (length (finish out) ≤ length out + 1)
unfolding finish
length-finish [] = omega arith
length-finish (c ∷ []) = ground arith
length-finish (c ∷ d ∷ out) = ground arith

length-finish-lt :
    (size : ℕ) (out : List ℕ) → 2 ≤ size → length out < size → length (finish out) < size
unfolding finish
length-finish-lt size [] h lt = omega arith
length-finish-lt size (c ∷ out) h lt = ground arith

pub start_bound :
    (getcwd : ℕ → Result (List ℕ)) (size : ℕ) (src : List ℕ) (is_abs : Bool) (s out : List ℕ)
    → 2 ≤ size
    → start getcwd size src is_abs ≡ ok (s, out)
    → length out < size
unfolding start
start_bound getcwd size src true s out h e = elim (Bool-cases (byte src 0 == b'/')) [
  | inl slash ↦ ground arith
  | inr other ↦
      let (cwd, e1, e2) = ok-next (getcwd size) _ (rw other at e) in
      ground (arith, length-reverse cwd)
]
start_bound getcwd size src false s out h e = ground arith

-- With a buffer of two bytes or more, the path that `normalise_path` writes is not empty, and it and
-- its NUL fit in the buffer.
pub length-normalise_path :
    (getcwd : ℕ → Result (List ℕ)) (size : ℕ) (src : List ℕ) (is_abs : Bool) (p : List ℕ)
    → 2 ≤ size
    → normalise_path getcwd size src is_abs ≡ ok p
    → (1 ≤ length p) × (length p + 1 ≤ size)
unfolding normalise_path
length-normalise_path getcwd size src is_abs p h e =
    let (t, e1, e2) = ok-next (start getcwd size src is_abs) _ e in
    let (o, e3, e4) = ok-next (rounds (length t.0) size t.0 t.1) _ e2 in
    let lt =
      rounds_bound (length t.0) size t.0 t.1 o (start_bound getcwd size src is_abs t.0 t.1 h e1)
        e3 in
    ground (arith, length-reverse (finish o), length-finish o, length-finish-lt size o h lt)
