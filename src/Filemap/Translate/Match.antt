-- ===== src/Filemap/Translate/Match.antt =====
-- The search for an entry of the map: what it finds in memory is what a search on lists of bytes finds.
use ibcs_us.Prelude.{
  ℕ, zero, suc, ◌+◌, ◌-◌, ◌<◌, Bool, true, false, List, [], ◌∷◌, ◌++◌, Option, none, some, ◌==◌,
  if◌then◌else◌, ◌≡◌, ◌≢◌, ◌⊎◌, inl, inr, refl, ap₂, sym, length, arith, Bool-cases, ◌∙◌, ==→eq,
}
use ibcs_us.Memory.{Memory, IsStringAt}
use ibcs_us.Filemap.Parse.{Entry}
use ibcs_us.Filemap.Translate.Replace.{OutsideBuffer}
use ibcs_us.Filemap.Translate.{Slot, common_prefix, stops, find_slot}

-- What an entry's path applies to: itself, and every path below it if it ends in `/`. `last` is the
-- byte before the rest of the entry's path.
abbrev pub matches : ℕ → List ℕ → List ℕ → Bool
matches last [] [] = true
matches last [] (p ∷ ps) = last == b'/'
matches last (c ∷ cs) [] = false
matches last (c ∷ cs) (p ∷ ps) = if c == p then matches c cs ps else false

-- The last byte of a list, or `last`.
abbrev pub last_byte : ℕ → List ℕ → ℕ
last_byte last [] = last
last_byte last (c ∷ cs) = last_byte c cs

-- The first entry that applies to a path.
abbrev pub first_match : List ℕ → List Entry → Option Entry
first_match path [] = none
first_match path (e ∷ es) = if matches 0 e.from path then some e else first_match path es

-- The slots of the chain hold the entries; each path is not empty, the strings are shorter than the
-- fuel, and what a path is mapped to lies outside the buffer.
abbrev pub HoldsEntries : ℕ → ℕ → ℕ → Memory → List Slot → List Entry → Type 0
HoldsEntries f dst size m [] [] = Unit {0}
HoldsEntries f dst size m [] (e ∷ es) = ⊥
HoldsEntries f dst size m (s ∷ ss) [] = ⊥
HoldsEntries f dst size m (s ∷ ss) (e ∷ es) =
    IsStringAt m s.from_at e.from
    × (e.from ≢ [])
    × (length e.from < f)
    × IsStringAt m s.to_at e.to
    × (length e.to < f)
    × OutsideBuffer s.to_at (length e.to) dst size
    × HoldsEntries f dst size m ss es

-- What applies to a path is a prefix of it, and the whole of it unless its last byte is `/`.
pub matches-prefix :
    (last : ℕ) (cs ps : List ℕ)
    → matches last cs ps ≡ true
    → (rest : List ℕ) × (ps ≡ cs ++ rest) × ((rest ≡ []) ⊎ (last_byte last cs ≡ b'/'))
matches-prefix last [] [] h = ([], refl, inl refl)
matches-prefix last [] (p ∷ ps) h = (p ∷ ps, refl, inr (==→eq last b'/' h))
matches-prefix last (c ∷ cs) [] h = absurd (cc h)
matches-prefix last (c ∷ cs) (p ∷ ps) h = elim (Bool-cases (c == p)) [
  | inl e ↦
      let h' : matches c cs ps ≡ true = (rw e at h) in
      let (rest, q, or) = matches-prefix c cs ps h' in (rest, ap₂ ◌∷◌ (sym (==→eq c p e)) q, or)
  | inr e ↦ let h' : false ≡ true = (rw e at h) in absurd (cc h')
]

common_prefix-matches :
    (f : ℕ) (m : Memory) (c d last : ℕ) (cs ps : List ℕ)
    → IsStringAt m c cs
    → IsStringAt m d ps
    → m (c - 1) ≡ last
    → length cs < f
    → (c' d' : ℕ) × (common_prefix f m c d ≡ some (c', d'))
      × (stops m c' d' ≡ matches last cs ps)
      × (matches last cs ps ≡ true → c' ≡ c + length cs)
unfolding common_prefix
common_prefix-matches zero m c d last cs ps hc hd e lt = absurd (omega arith)
common_prefix-matches (suc f) m c d last [] [] hc hd e lt =
    (c, d, ground arith, ground arith, λ h. omega arith)
common_prefix-matches (suc f) m c d last [] (p ∷ ps) hc (ed, nd, hd) e lt =
    (c, d, ground arith, ground arith, λ h. omega arith)
common_prefix-matches (suc f) m c d last (b ∷ cs) [] (ec, nc, hc) hd e lt =
    (c, d, ground arith, ground arith, λ h. absurd (cc h))
common_prefix-matches (suc f) m c d last (b ∷ cs) (p ∷ ps) (ec, nc, hc) (ed, nd, hd) e lt =
    elim (Bool-cases (b == p)) [
      | inl same ↦
          let before : m (c + 1 - 1) ≡ b = (let z : c + 1 - 1 ≡ c = omega arith in rw z ec) in
          let (c', d', q, st, at) =
            common_prefix-matches f m (c + 1) (d + 1) b cs ps hc hd before (omega arith) in
          (
            c',
            d',
            ground (arith, q),
            rw same st,
            λ h. (let h' : matches b cs ps ≡ true = (rw same at h) in omega (arith, at h')),
          )
      | inr differ ↦ (
        c,
        d,
        ground arith,
        ground arith,
        λ h. absurd (let h' : false ≡ true = (rw differ at h) in cc h'),
      )
    ]

matches-last : (l l' : ℕ) (cs ps : List ℕ) → cs ≢ [] → matches l cs ps ≡ matches l' cs ps
matches-last l l' [] ps ne = absurd (ne refl)
matches-last l l' (c ∷ cs) [] ne = refl
matches-last l l' (c ∷ cs) (p ∷ ps) ne = refl

-- The walk along the chain finds the first entry that applies to the path, and `c` is behind the
-- entry's path.
pub find_slot-first_match :
    (f : ℕ) (m : Memory) (dst size : ℕ) (path : List ℕ) (ss : List Slot) (es : List Entry)
    → IsStringAt m dst path
    → HoldsEntries f dst size m ss es
    → ((first_match path es ≡ none) × (find_slot f m dst ss ≡ some none))
      ⊎ ((s : Slot) × (e : Entry) × (first_match path es ≡ some e)
          × (find_slot f m dst ss ≡ some (some (s, s.from_at + length e.from)))
          × (matches 0 e.from path ≡ true)
          × HoldsEntries f dst size m (s ∷ []) (e ∷ []))
unfolding find_slot
find_slot-first_match f m dst size path [] [] hp h = inl (refl, refl)
find_slot-first_match f m dst size path [] (e ∷ es) hp h = absurd h
find_slot-first_match f m dst size path (s ∷ ss) [] hp h = absurd h
find_slot-first_match f m dst size path (s ∷ ss) (e ∷ es) hp (hf, ne, lf, ht, lt, out, h) =
    let (c, d, q, st, at) =
      common_prefix-matches f m s.from_at dst (m (s.from_at - 1)) e.from path hf hp refl lf in
    let l = matches-last (m (s.from_at - 1)) 0 e.from path ne in
    elim (Bool-cases (matches 0 e.from path)) [
      | inl hit ↦ inr (
        s,
        e,
        rw hit refl,
        rw (q, st, l, hit, at (l ∙ hit)) refl,
        hit,
        (hf, ne, lf, ht, lt, out, tt),
      )
      | inr miss ↦ elim (find_slot-first_match f m dst size path ss es hp h) [
        | inl (n, r) ↦ inl (rw miss n, rw (q, st, l, miss) r)
        | inr (s', e', n, r, y, w) ↦ inr (s', e', rw miss n, rw (q, st, l, miss) r, y, w)
      ]
    ]

-- The byte before the end of an entry's path.
pub last_byte-at :
    (m : Memory) (s l : ℕ) (cs : List ℕ)
    → IsStringAt m s cs
    → cs ≢ []
    → m (s + length cs - 1) ≡ last_byte l cs
last_byte-at m s l [] h ne = absurd (ne refl)
last_byte-at m s l (c ∷ []) (e, nz, h) ne = (let z : s + 1 - 1 ≡ s = omega arith in rw z e)
last_byte-at m s l (c ∷ d ∷ cs) (e, nz, h) ne =
    let z : s + suc (suc (length cs)) - 1 ≡ s + 1 + suc (length cs) - 1 = omega arith in
    rw z (last_byte-at m (s + 1) c (d ∷ cs) h (λ q. cc))
