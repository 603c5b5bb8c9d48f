-- ===== src/Filemap/Normalise/Root.antt =====
-- `normalise_path` where the working directory is the root: the path of the directory ends in a
-- slash already, and the code adds another.
use mathlib.Core.List.{reverse, reverse-append, reverse-reverse}
use ibcs_us.Prelude.{
  ℕ, suc, ◌+◌, ◌≤◌, true, false, List, [], ◌∷◌, ◌++◌, ◌==◌, ◌≡◌, ◌≢◌, none, refl, ap, ◌∙◌, length,
  arith, leb,
}
use ibcs_us.Filemap.Result.{Result, ok}
use ibcs_us.Filemap.Normalise.{copy_name, rounds, finish, start, normalise_path}
use ibcs_us.Filemap.Normalise.Spec.{kind, name, NoSlash}
use ibcs_us.Filemap.Normalise.Names.{IsPlain, round_name, copy_name-unsplit, NoSlash-reverse}
use ibcs_us.Filemap.Normalise.Rounds.{NoSlash-of_plain, reverse_ne}
use ibcs_us.Filemap.Normalise.Correct.{rounds_go, rounds_end}
use ibcs_us.Filemap.Normalise.Total.{copy_name_fits}

copy_whole :
    (size : ℕ) (n out : List ℕ)
    → NoSlash n
    → length n + length out + 2 ≤ size
    → copy_name size n out ≡ ok ([], reverse n ++ out)
copy_whole size n out p h =
    let (s', out', e, le) = copy_name_fits size n out h in
    let (es, eo) = copy_name-unsplit size n none out s' out' p e in ground arith

finish_plain : (n out : List ℕ) → NoSlash n → n ≢ [] → finish (n ++ out) ≡ n ++ out
unfolding finish
finish_plain [] out p ne = absurd (ne refl)
finish_plain (c ∷ n) out (p, ps) ne = ground arith

rounds_name :
    (size c : ℕ) (n out : List ℕ)
    → IsPlain (c ∷ n)
    → kind (c ∷ n) ≡ name
    → suc (length n) + length out + 2 ≤ size
    → rounds (suc (length n)) size (c ∷ n) out ≡ ok (reverse (c ∷ n) ++ out)
rounds_name size c n out p k h =
    rounds_go (length n) size c n out [] (reverse (c ∷ n) ++ out) (
      round_name size (c ∷ n) none out p k
      ∙ copy_whole size (c ∷ n) out (NoSlash-of_plain (c ∷ n) p) h)
    ∙ rounds_end (length n) size (reverse (c ∷ n) ++ out)

-- In the root directory a plain file name becomes an absolute path with two slashes in front, though
-- the function is there to remove such slashes.
pub normalise_path_root :
    (getcwd : ℕ → Result (List ℕ)) (size : ℕ) (n : List ℕ)
    → getcwd size ≡ ok (b'/' ∷ [])
    → IsPlain n
    → kind n ≡ name
    → length n + 4 ≤ size
    → normalise_path getcwd size n true ≡ ok (b'/' ∷ b'/' ∷ n)
unfolding normalise_path start
normalise_path_root getcwd size [] e p k h = absurd (cc)
normalise_path_root getcwd size (c ∷ n) e ((ns, nz), p) k h =
    let room : leb size 3 ≡ false = ground arith in
    let other : (c == b'/') ≡ false = ground arith in
    let q = rounds_name size c n (b'/' ∷ b'/' ∷ []) ((ns, nz), p) k (omega arith) in
    let pl = NoSlash-reverse (c ∷ n) (NoSlash-of_plain (c ∷ n) ((ns, nz), p)) in
    rw (other, e, room, q)
      (ap (λ t. ok (reverse t))
          (finish_plain (reverse (c ∷ n)) (b'/' ∷ b'/' ∷ []) pl (reverse_ne (c ∷ n) (λ z. cc)))
        ∙ ap ok (
            reverse-append (reverse (c ∷ n)) (b'/' ∷ b'/' ∷ [])
            ∙ ap (λ t. b'/' ∷ b'/' ∷ t) (reverse-reverse (c ∷ n))))
