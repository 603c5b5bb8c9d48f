-- ===== src/Filemap/Translate/Tests.antt =====
-- The lookup of `filemap_map` at a concrete memory and map.
use ibcs_us.Prelude.{ltb, if◌then◌else◌, ℕ, ◌<◌, ◌≡◌, inl, List, [], ◌∷◌, some, refl, arith}
use ibcs_us.Prelude.Text.{codes}
use ibcs_us.Memory.{Memory, holding, IsStringAt, IsStringAt-agree}
use ibcs_us.CString.Copy.{SameOutside}
use ibcs_us.Filemap.Result.{Result, ok}
use ibcs_us.Filemap.Parse.{Entry}
use ibcs_us.Filemap.Translate.{Slot, Outcome, lookup}
use ibcs_us.Filemap.Translate.Match.{first_match, HoldsEntries}
use ibcs_us.Filemap.Translate.Correct.{IsTranslation, lookup-first_match}

-- A directory and a file, below the buffer, which is at 1000.
abbrev entries : List Entry
entries =
    record { from = codes "/lib/"; to = codes "/emul/lib/" }
    ∷ record { from = codes "/a"; to = codes "/b" }
    ∷ []

abbrev slots : List Slot
slots = record { from_at = 1; to_at = 11 } ∷ record { from_at = 31; to_at = 41 } ∷ []

abbrev with_map : Memory
with_map q =
    if ltb q 11
    then holding 1 (codes "/lib/") q
    else if ltb q 31
    then holding 11 (codes "/emul/lib/") q
    else if ltb q 41
    then holding 31 (codes "/a") q
    else if ltb q 1000
    then holding 41 (codes "/b") q
    else holding 1000 (codes "/lib/c") q

map_strings :
    IsStringAt with_map 1 (codes "/lib/")
    × IsStringAt with_map 11 (codes "/emul/lib/")
    × IsStringAt with_map 31 (codes "/a")
    × IsStringAt with_map 41 (codes "/b")
map_strings = ground arith

path_string : IsStringAt with_map 1000 (codes "/lib/c")
path_string = ground arith

map_held :
    (m1 : Memory) → SameOutside 1000 20 with_map m1 → HoldsEntries 20 1000 20 m1 slots entries
map_held m1 same =
    let (a, b, c, d) = map_strings in
    let low : (q : ℕ) → q < 1000 → m1 q ≡ with_map q = λ q lt. same q (inl lt) in
    (
      IsStringAt-agree with_map m1 1 (codes "/lib/") (λ q lo hi. low q (omega arith)) a,
      (λ e. cc),
      omega arith,
      IsStringAt-agree with_map m1 11 (codes "/emul/lib/") (λ q lo hi. low q (omega arith)) b,
      omega arith,
      omega arith,
      (
        IsStringAt-agree with_map m1 31 (codes "/a") (λ q lo hi. low q (omega arith)) c,
        (λ e. cc),
        omega arith,
        IsStringAt-agree with_map m1 41 (codes "/b") (λ q lo hi. low q (omega arith)) d,
        omega arith,
        omega arith,
        tt,
      ),
    )

lookup-first_match_example :
    (o : Outcome) × (lookup 20 with_map 1000 20 slots ≡ some o)
    × IsTranslation with_map 1000 20 (codes "/lib/c") (first_match (codes "/lib/c") entries) o
lookup-first_match_example =
    lookup-first_match 20 with_map 1000 20 (codes "/lib/c") slots entries path_string (omega arith)
      (omega arith) (map_held with_map (λ q o. refl))

in_lib : ℕ → Result (List ℕ)
in_lib size = ok (codes "/lib")
