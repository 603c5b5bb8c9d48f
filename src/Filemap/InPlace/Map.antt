-- ===== src/Filemap/InPlace/Map.antt =====
-- `filemap_map` of ibcs/filemap.c as a whole: the path made absolute in the buffer, and its translation there.
use ibcs_us.Prelude.{ℕ, ◌+◌, ◌≤◌, ◌≡◌, refl, true, List, some, length, inl, inr}
use ibcs_us.Memory.{Memory, IsStringAt}
use ibcs_us.CString.Copy.{SameOutside}
use ibcs_us.Filemap.Result.{Result, ok, err, Result-cases}
use ibcs_us.Filemap.Normalise.{normalise_path}
use ibcs_us.Filemap.Normalise.Bounds.{length-normalise_path}
use ibcs_us.Filemap.Parse.{Entry}
use ibcs_us.Filemap.Translate.{Slot, Outcome, unmapped}
use ibcs_us.Filemap.Translate.Match.{first_match, HoldsEntries}
use ibcs_us.Filemap.Translate.Correct.{IsTranslation, lookup-first_match}
use ibcs_us.Filemap.InPlace.{normalise_path_at, filemap_map}
use ibcs_us.Filemap.InPlace.Refines.{NoNul}
use ibcs_us.Filemap.InPlace.Correct.{LeavesCwd, normalise_path_at-normalise_path}

-- What the call comes to, when the buffer's memory is `m1`: for a path that becomes absolute, the outcome for the
-- first entry that applies to it; for one that does not, that it is not mapped.
abbrev pub IsMapping : Memory → ℕ → ℕ → List Entry → Result (List ℕ) → Outcome → Type 0
IsMapping m1 dst size es (err e) o = o ≡ unmapped m1
IsMapping m1 dst size es (ok p) o =
    IsStringAt m1 dst p × IsTranslation m1 dst size p (first_match p es) o

-- With a buffer of two bytes or more, filemap_map ends. It first changes the buffer and nothing else. If the path
-- becomes absolute that stands in the buffer then, and the outcome is that of the first entry that applies
-- to it; if not, the answer is 0. The path has no NUL, getcwd does what it is documented to do, and the
-- entries stand in memory apart from the buffer.
pub filemap_map-first_match :
    (getcwd : ℕ → Result (List ℕ)) (left : Memory) (f : ℕ) (m : Memory) (dst size : ℕ)
    (path : List ℕ) (ss : List Slot) (es : List Entry)
    → LeavesCwd getcwd dst size m left
    → NoNul path
    → 2 ≤ size
    → size ≤ f
    → ((m1 : Memory) → SameOutside dst size m m1 → HoldsEntries f dst size m1 ss es)
    → (m1 : Memory) × (o : Outcome) × SameOutside dst size m m1
      × (filemap_map getcwd left f m dst size path ss ≡ some o)
      × IsMapping m1 dst size es (normalise_path getcwd size path true) o
unfolding filemap_map
filemap_map-first_match getcwd left f m dst size path ss es cwd nn two fuel holds =
    let x = normalise_path_at getcwd left dst size path true m in
    let (same, becomes) =
      normalise_path_at-normalise_path getcwd dst size m left cwd two path true nn in
    elim (Result-cases (normalise_path getcwd size path true)) [
      | inr (number, e) ↦
          let failed : x.1 ≡ err number = (rw e at becomes) in
          (x.0, unmapped x.0, same, (rw failed refl), (rw e refl))
      | inl (p, e) ↦
          let (count, w) : (x.1 ≡ ok (length p + 1)) × IsStringAt x.0 dst p = (rw e at becomes) in
          let fits = (length-normalise_path getcwd size path true p two e).1 in
          let (o, found, t) =
            lookup-first_match f x.0 dst size p ss es w fits fuel (holds x.0 same) in
          (x.0, o, same, (rw count found), (rw e (w, t)))
    ]
