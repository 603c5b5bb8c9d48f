-- ===== src/Filemap/InPlace/Tests.antt =====
-- `normalise_path` and `filemap_map` in a buffer of 20 bytes at 1000.
use ibcs_us.Prelude.{
  ltb, if◌then◌else◌, ℕ, ◌+◌, ◌<◌, ◌≡◌, inl, List, [], ◌∷◌, some, refl, true, false, subst, arith,
}
use ibcs_us.Prelude.Text.{codes}
use ibcs_us.Memory.{Memory, holding, IsStringAt, IsStringAt-agree}
use ibcs_us.CString.Copy.{SameOutside}
use ibcs_us.Filemap.Result.{Result, ok}
use ibcs_us.Filemap.Parse.{Entry}
use ibcs_us.Filemap.Normalise.{normalise_path}
use ibcs_us.Filemap.Translate.{Slot, Outcome}
use ibcs_us.Filemap.Translate.Match.{HoldsEntries}
use ibcs_us.Filemap.InPlace.{
  normalise_path_at, filemap_map, start_at, rounds_at, round_at, dotdot_at, copy_name_at, finish_at,
  keeps_dotdot_at, strip_name_at,
}
use ibcs_us.Filemap.InPlace.Correct.{LeavesCwd, IsLeft, normalise_path_at-normalise_path}
use ibcs_us.Filemap.InPlace.Map.{IsMapping, filemap_map-first_match}

-- A map of one directory, below the buffer, which is empty.
abbrev with_map : Memory
with_map q =
    if ltb q 11
    then holding 1 (codes "/lib/") q
    else if ltb q 1000
    then holding 11 (codes "/emul/") q
    else 0

abbrev slots : List Slot
slots = record { from_at = 1; to_at = 11 } ∷ []

abbrev entries : List Entry
entries = record { from = codes "/lib/"; to = codes "/emul/" } ∷ []

-- The working directory, and the memory with it in the buffer.
abbrev in_lib : ℕ → Result (List ℕ)
in_lib size = ok (codes "/lib")

abbrev left : Memory
left q = if ltb q 1000 then with_map q else if ltb q 1020 then holding 1000 (codes "/lib") q else 0

lib_string : IsStringAt left 1000 (codes "/lib")
lib_string = ground arith

left-LeavesCwd : LeavesCwd in_lib 1000 20 with_map left
left-LeavesCwd = record {
  inside = λ q o. ground arith;
  string =
      λ cwd e. let same : codes "/lib" ≡ cwd = cc e in subst (IsStringAt left 1000) same lib_string;
}

map_strings : IsStringAt with_map 1 (codes "/lib/") × IsStringAt with_map 11 (codes "/emul/")
map_strings = ground arith

map_held :
    (m1 : Memory) → SameOutside 1000 20 with_map m1 → HoldsEntries 20 1000 20 m1 slots entries
map_held m1 same =
    let (a, b) = map_strings in
    let low : (q : ℕ) → q < 1000 → m1 q ≡ with_map q = λ q lt. same q (inl lt) in
    (
      IsStringAt-agree with_map m1 1 (codes "/lib/") (λ q lo hi. low q (omega arith)) a,
      (λ e. cc),
      omega arith,
      IsStringAt-agree with_map m1 11 (codes "/emul/") (λ q lo hi. low q (omega arith)) b,
      omega arith,
      omega arith,
      tt,
    )

normalise_path_at-normalise_path_example :
    SameOutside 1000 20 with_map
      (normalise_path_at in_lib left 1000 20 (codes "x/../c") true with_map).0
    × IsLeft 1000
        (normalise_path_at in_lib left 1000 20 (codes "x/../c") true with_map).0
        (normalise_path in_lib 20 (codes "x/../c") true)
        (normalise_path_at in_lib left 1000 20 (codes "x/../c") true with_map).1
normalise_path_at-normalise_path_example =
    normalise_path_at-normalise_path in_lib 1000 20 with_map left left-LeavesCwd (omega arith)
      (codes "x/../c") true (ground arith)

filemap_map-first_match_example :
    (m1 : Memory) × (o : Outcome) × SameOutside 1000 20 with_map m1
    × (filemap_map in_lib left 20 with_map 1000 20 (codes "x/../c") slots ≡ some o)
    × IsMapping m1 1000 20 entries (normalise_path in_lib 20 (codes "x/../c") true) o
filemap_map-first_match_example =
    filemap_map-first_match in_lib left 20 with_map 1000 20 (codes "x/../c") slots entries
      left-LeavesCwd (ground arith) (omega arith) (omega arith) map_held

-- The bytes from an address on.
abbrev bytes_at : Memory → ℕ → List ℕ
bytes_at m q = m q ∷ m (q + 1) ∷ m (q + 2) ∷ m (q + 3) ∷ m (q + 4) ∷ m (q + 5) ∷ []

-- Of a name that was erased the bytes behind the NUL stay.
erased_name :
    ((normalise_path_at in_lib left 1000 20 (codes "/abc/../d") false with_map).1 ≡ ok 3)
    × (bytes_at (normalise_path_at in_lib left 1000 20 (codes "/abc/../d") false with_map).0 1000
        ≡ codes "/d\0c/\0")
unfolding normalise_path_at start_at rounds_at round_at dotdot_at copy_name_at finish_at
    keeps_dotdot_at strip_name_at
erased_name = (refl, refl)
