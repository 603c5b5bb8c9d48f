-- ===== src/Filemap/Translate/Correct.antt =====
-- The lookup of `filemap_map` against what it promises: the first entry that applies to the absolute path is used,
-- a directory's name at the front of the path is replaced, a file's name replaces the whole path.
use ibcs_us.Prelude.{
  ℕ, ◌+◌, ◌<◌, ◌≤◌, true, List, [], ◌∷◌, ◌++◌, Option, none, some, ◌==◌, ◌!=◌, ◌≡◌, ◌≢◌, ◌⊎◌, inl,
  inr, refl, ◌∙◌, length, length-append, arith, Bool-cases, ==→eq, ==→ne, append-nil, leb,
}
use ibcs_us.Memory.{Memory, IsStringAt}
use ibcs_us.CString.{memcpy}
use ibcs_us.CString.Scan.{strlen-length}
use ibcs_us.CString.Copy.{SameOutside, strcpy_lem}
use ibcs_us.Filemap.Result.{too_long}
use ibcs_us.Filemap.Parse.{Entry}
use ibcs_us.Filemap.Translate.{Slot, Outcome, unmapped, mapped, failed, translate, lookup}
use ibcs_us.Filemap.Translate.Replace.{make_room_full, replace_lem}
use ibcs_us.Filemap.Translate.Match.{
  matches, first_match, last_byte, last_byte-at, HoldsEntries, matches-prefix,
  find_slot-first_match,
}

-- The call returns a length with its NUL, the buffer holds the string, and nothing else changed
-- outside the first `n` bytes of the buffer.
abbrev pub Leaves : Memory → ℕ → ℕ → List ℕ → Outcome → Type 0
Leaves m dst n bs o =
    (m' : Memory) × (o ≡ mapped m' (length bs + 1)) × IsStringAt m' dst bs × SameOutside dst n m m'

-- What the lookup of a path must come to, for the entry that applies to it.
abbrev pub IsTranslation : Memory → ℕ → ℕ → List ℕ → Option Entry → Outcome → Type 0
IsTranslation m dst size path none o = o ≡ unmapped m
IsTranslation m dst size path (some e) o =
    ((last_byte 0 e.from ≡ b'/')
      × ((rest : List ℕ) × (path ≡ e.from ++ rest)
          × (((size < length e.to + length rest + 1) × (o ≡ failed too_long m))
              ⊎ ((length e.to + length rest + 1 ≤ size) × Leaves m dst size (e.to ++ rest) o))))
    ⊎ ((last_byte 0 e.from ≢ b'/') × (path ≡ e.from) × Leaves m dst (length e.to + 1) e.to o)

module _ (f : ℕ) (m : Memory) (dst size : ℕ) (path : List ℕ) (s : Slot) (e : Entry)
    (at_dst : IsStringAt m dst path) (fits : length path + 1 ≤ size) (fuel : size ≤ f)
    (holds : HoldsEntries f dst size m (s ∷ []) (e ∷ [])) where
  translate_directory :
      (rest : List ℕ)
      → path ≡ e.from ++ rest
      → last_byte 0 e.from ≡ b'/'
      → (o : Outcome) × (translate f m dst size s (s.from_at + length e.from) ≡ some o)
        × (((size < length e.to + length rest + 1) × (o ≡ failed too_long m))
            ⊎ ((length e.to + length rest + 1 ≤ size) × Leaves m dst size (e.to ++ rest) o))
  unfolding translate
  translate_directory rest eq slash =
      let (hf, ne, lf, ht, lt, out, tt) = holds in
      let at_last = last_byte-at m s.from_at 0 e.from hf ne ∙ slash in
      let at_dst' : IsStringAt m dst (e.from ++ rest) = (rw eq at at_dst) in
      let fits' : length (e.from ++ rest) + 1 ≤ size = (rw eq at fits) in
      let from_len = strlen-length f m s.from_at e.from hf lf in
      let to_len = strlen-length f m s.to_at e.to ht lt in
      elim (Bool-cases (leb (length e.to + length rest + 1) size)) [
        | inl room ↦
            let (m', p, w, same) =
              replace_lem f m dst size e.from e.to rest at_dst' (omega arith) fits' s.to_at ht out
                (ground arith) in
            let n =
              strlen-length f (memcpy m' dst s.to_at (length e.to)) dst (e.to ++ rest) w
                (ground (arith, length-append e.to rest)) in
            (
              mapped (memcpy m' dst s.to_at (length e.to)) (length (e.to ++ rest) + 1),
              rw (at_last, from_len, to_len, p, n) refl,
              inr (ground arith, (memcpy m' dst s.to_at (length e.to), refl, w, same)),
            )
        | inr full ↦
            let p =
              make_room_full f m dst size e.from e.to rest at_dst' (omega arith) fits'
                (ground arith) in
            (failed too_long m, rw (at_last, from_len, to_len, p) refl, inl (ground arith, refl))
      ]

  translate_file :
      last_byte 0 e.from ≢ b'/'
      → (o : Outcome) × (translate f m dst size s (s.from_at + length e.from) ≡ some o)
        × Leaves m dst (length e.to + 1) e.to o
  unfolding translate
  translate_file no_slash =
      let (hf, ne, lf, ht, lt, out, tt) = holds in
      let at_last = last_byte-at m s.from_at 0 e.from hf ne in
      let (m', p, w, same) = strcpy_lem f m dst s.to_at e.to ht (omega arith) lt in
      let n = strlen-length f m' dst e.to w lt in
      let ns : (last_byte 0 e.from != b'/') ≡ true = ground arith in
      (mapped m' (length e.to + 1), rw (at_last, ns, p, n) refl, (m', refl, w, same))

  translate_match :
      matches 0 e.from path ≡ true
      → (o : Outcome) × (translate f m dst size s (s.from_at + length e.from) ≡ some o)
        × IsTranslation m dst size path (some e) o
  translate_match hit =
      let (rest, eq, or) = matches-prefix 0 e.from path hit in
      elim (Bool-cases (last_byte 0 e.from == b'/')) [
        | inl slash ↦
            let is_slash = ==→eq (last_byte 0 e.from) b'/' slash in
            let (o, p, w) = translate_directory rest eq is_slash in
            (o, p, inl (is_slash, (rest, eq, w)))
        | inr other ↦
            let no_slash = ==→ne (last_byte 0 e.from) b'/' other in
            let (o, p, w) = translate_file no_slash in
            let whole : path ≡ e.from = elim or [
              | inl none_left ↦ eq ∙ (rw none_left (append-nil e.from))
              | inr is_slash ↦ absurd (no_slash is_slash)
            ] in
            (o, p, inr (no_slash, whole, w))
      ]

-- With an absolute path in the buffer and the entries in memory, apart from the buffer, the lookup
-- ends and is decided by the first entry that applies to the path. With none it answers 0 and
-- changes nothing. With a directory (a path that ends in `/`) its name at the front of the path is
-- replaced, and the call fails exactly if the new path and its NUL are more than the buffer holds;
-- with a file the whole path is. What is returned is the new length, the NUL counted, and nothing
-- outside the buffer changes, but for a file whose new name is longer than the buffer.
pub lookup-first_match :
    (f : ℕ) (m : Memory) (dst size : ℕ) (path : List ℕ) (ss : List Slot) (es : List Entry)
    → IsStringAt m dst path
    → length path + 1 ≤ size
    → size ≤ f
    → HoldsEntries f dst size m ss es
    → (o : Outcome) × (lookup f m dst size ss ≡ some o)
      × IsTranslation m dst size path (first_match path es) o
unfolding lookup
lookup-first_match f m dst size path ss es at_dst fits fuel holds =
    elim (find_slot-first_match f m dst size path ss es at_dst holds) [
      | inl (no_entry, missed) ↦ (unmapped m, rw missed refl, rw no_entry refl)
      | inr (s, e, entry, found, hit, held) ↦
          let (o, p, w) = translate_match f m dst size path s e at_dst fits fuel held hit in
          (o, rw found p, rw entry w)
    ]
