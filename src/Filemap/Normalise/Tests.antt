-- ===== src/Filemap/Normalise/Tests.antt =====
-- The unit tests of ibcs/filemap.c for `normalise_path`, and its theorems at concrete paths.
use ibcs_us.Prelude.{ℕ, ◌+◌, ◌≤◌, ◌≡◌, ◌≢◌, true, false, List, [], ◌∷◌, refl, arith, length}
use ibcs_us.Prelude.Text.{codes}
use ibcs_us.Filemap.Result.{Result, ok, err, stuck}
use ibcs_us.Filemap.Normalise.{normalise_path}
use ibcs_us.Filemap.Normalise.Correct.{CwdIs, expected, normalise_path-expected}
use ibcs_us.Filemap.Normalise.Bounds.{length-normalise_path}
use ibcs_us.Filemap.Normalise.Total.{normalise_path_total}
use ibcs_us.Filemap.Normalise.Twice.{normalise_path-twice}

-- A working directory.
abbrev in_xy : ℕ → Result (List ℕ)
in_xy size = ok (codes "/x/y")

abbrev xy : List (List ℕ)
xy = codes "y" ∷ codes "x" ∷ []

abbrev in_root : ℕ → Result (List ℕ)
in_root size = ok (codes "/")

-- The fourteen tests of `unit_test_ibcs_filemap_c`.
unit_tests_relative :
    (normalise_path in_xy 4096 (codes "") false ≡ ok (codes "."))
    × (normalise_path in_xy 4096 (codes "..") false ≡ ok (codes ".."))
    × (normalise_path in_xy 4096 (codes ".././..") false ≡ ok (codes "../.."))
    × (normalise_path in_xy 4096 (codes "x/..") false ≡ ok (codes "."))
    × (normalise_path in_xy 4096 (codes "x/.") false ≡ ok (codes "x"))
    × (normalise_path in_xy 4096 (codes "./x") false ≡ ok (codes "x"))
    × (normalise_path in_xy 4096 (codes "x//y/./../") false ≡ ok (codes "x"))
    × (normalise_path in_xy 4096 (codes "../../x") false ≡ ok (codes "../../x"))
unfolding normalise_path
unit_tests_relative = (refl, refl, refl, refl, refl, refl, refl, refl)

unit_tests_absolute :
    (normalise_path in_xy 4096 (codes "//../../x") false ≡ ok (codes "/x"))
    × (normalise_path in_xy 4096 (codes "/x/../../../a/./b///") false ≡ ok (codes "/a/b"))
    × (normalise_path in_xy 4096 (codes "") true ≡ ok (codes "/x/y"))
    × (normalise_path in_xy 4096 (codes "/a") true ≡ ok (codes "/a"))
    × (normalise_path in_xy 4096 (codes "./../b///") true ≡ ok (codes "/x/b"))
    × (normalise_path in_xy 4096 (codes "./../../../../b///") true ≡ ok (codes "/b"))
unfolding normalise_path
unit_tests_absolute = (refl, refl, refl, refl, refl, refl)

xy-CwdIs : (size : ℕ) → CwdIs in_xy size xy
xy-CwdIs size = (
  refl,
  λ e. cc,
  (omega arith, (λ e. cc), (λ e. absurd (cc)), (omega arith, (λ e. cc), (λ e. absurd (cc)), tt)),
)

normalise_path-expected_example : codes "/x/b" ≡ expected xy (codes "./../b///") true
normalise_path-expected_example =
    normalise_path-expected in_xy 64 xy (codes "./../b///") true (codes "/x/b") (xy-CwdIs 64)
      (omega arith) (unfold normalise_path in refl)

length-normalise_path_example : (1 ≤ length (codes "../..")) × (length (codes "../..") + 1 ≤ 9)
length-normalise_path_example =
    length-normalise_path in_xy 9 (codes ".././..") false (codes "../..") (omega arith)
      (unfold normalise_path in refl)

normalise_path_total_example :
    (normalise_path in_xy 16 (codes "a/../b") true ≢ err stuck)
    × (4 + 6 + 3 ≤ 16 → (p : List ℕ) × (normalise_path in_xy 16 (codes "a/../b") true ≡ ok p))
normalise_path_total_example =
    normalise_path_total in_xy 16 (codes "a/../b") true (codes "/x/y") (omega arith) refl

normalise_path-twice_example : codes "../x" ≡ codes "../x"
normalise_path-twice_example =
    normalise_path-twice in_xy in_xy 64 32 xy xy (codes "..//a/../x/.") (codes "../x")
      (codes "../x") false (xy-CwdIs 64) (xy-CwdIs 32) (omega arith) (omega arith)
      (unfold normalise_path in refl) (unfold normalise_path in refl)
