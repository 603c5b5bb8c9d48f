-- ===== src/Malloc/Search.antt =====
-- The search for a free block: what it gives, and what it leaves alone.
use ibcs_us.Prelude.{
  ℕ, zero, suc, ◌+◌, ◌≤◌, ◌<◌, ◌≡◌, inl, inr, refl, subst, ◌==◌, true, false, Option, none, some,
  leb, Bool-cases, arith, ==→eq, ==→ne,
}
use ibcs_us.Malloc.{
  Arena, Found, block, no_block, clear_busy, is_busy, with_word, apart, take_block, try_block,
  go_on, search,
}
use ibcs_us.Malloc.Chain.{Leads, there, Leads_append, Leads_next, Leads_onward}
use ibcs_us.Malloc.Coalesce.{IsArena, KeepsBusy, KeepsBusy-trans, IsCoalesced, coalesce-IsCoalesced}
use ibcs_us.Malloc.Taken.{IsTaken, take_block-IsTaken}

-- A header of the arena is free.
abbrev pub WasFree : (ℕ → ℕ) → ℕ → ℕ → ℕ → Type 0
WasFree word first last q = Leads word first q → Leads word q last → is_busy (word q) ≡ false

-- What a search may end with: a block that was free, taken now, or none, with the search's start in the
-- arena; the ends of the arena are the same, and the busy blocks too.
abbrev pub Searched : (ℕ → ℕ) → ℕ → ℕ → ℕ → Option Found → Type 0
Searched word first last wanted none = Unit
Searched word first last wanted (some (block q m)) =
    (m.first ≡ first) × (m.last ≡ last) × IsTaken word m q wanted × WasFree word first last q
Searched word first last wanted (some (no_block m)) =
    (m.first ≡ first)
    × (m.last ≡ last)
    × IsArena m.word first last m.rover
    × KeepsBusy word m.word first last

Searched-trans :
    (word w : ℕ → ℕ) (first last wanted : ℕ) (r : Option Found)
    → KeepsBusy word w first last
    → Searched w first last wanted r
    → Searched word first last wanted r
Searched-trans word w first last wanted none k s = tt
Searched-trans word w first last wanted (some (block q m)) k (ef, el, t, was) =
    let k' : KeepsBusy word w m.first m.last = (rw (ef, el) k) in
    (
      ef,
      el,
      record {
        arena = t.arena;
        on = t.on;
        busy = t.busy;
        long = t.long;
        ends = t.ends;
        keeps = KeepsBusy-trans word w m.word m.first m.last k' t.keeps;
      },
      λ fq ql. elim (Bool-cases (is_busy (word q))) [
        | inr free ↦ free
        | inl busy ↦
            let (fq', ql', e) = k q fq ql busy in
            let b : is_busy (w q) ≡ true = (rw e busy) in
            let b' = was fq' ql' in absurd (ground arith)
      ],
    )
Searched-trans word w first last wanted (some (no_block m)) k (ef, el, a, k') =
    (ef, el, a, KeepsBusy-trans word w m.word first last k k')

next-IsArena :
    (word : ℕ → ℕ) (first last p : ℕ)
    → IsArena word first last p
    → IsArena word first last (clear_busy (word p))
next-IsArena word first last p a = elim (Bool-cases (p == last)) [
  | inl end ↦
      let e : p ≡ last = ==→eq p last end in
      let back : word p ≡ first + 1 = (rw e a.closed) in
      let al = a.aligned in
      let clear : clear_busy (word p) ≡ first = ground (arith, back, al) in
      rw clear (record {
        aligned = a.aligned;
        closed = a.closed;
        before = there first;
        after = Leads_append word first p last a.before a.after;
      })
  | inr more ↦
      let (up, even, l) = Leads_next word p last a.after (==→ne p last more) in
      let n = clear_busy (word p) in
      let to_n =
        Leads_append word first p n a.before (Leads_onward word p n n refl up even (there n)) in
      record { aligned = a.aligned; closed = a.closed; before = to_n; after = l }
]

module _ (wanted g : ℕ) (more : Arena → ℕ → Option Found)
    (ih : (m : Arena) (p : ℕ)
      → IsArena m.word m.first m.last p
      → m.last < g
      → Searched m.word m.first m.last wanted (more m p)) where
  go_on-Searched :
      (m : Arena) (p : ℕ)
      → IsArena m.word m.first m.last p
      → m.last < g
      → Searched m.word m.first m.last wanted (go_on more p m)
  go_on-Searched m p a h =
      let a' = next-IsArena m.word m.first m.last p a in
      elim (Bool-cases (clear_busy (m.word p) == m.rover)) [
        | inl round ↦
            let e : clear_busy (m.word p) ≡ m.rover = ==→eq (clear_busy (m.word p)) m.rover round in
            let at : IsArena m.word m.first m.last m.rover =
              subst (λ x. IsArena m.word m.first m.last x) e a' in
            rw round (refl, refl, at, λ q fq ql b. (fq, ql, refl))
        | inr on ↦ rw on (ih m (clear_busy (m.word p)) a' h)
      ]

  try_block-Searched :
      (m : Arena) (p : ℕ) (word : ℕ → ℕ)
      → IsCoalesced m.word word m.first m.last p
      → 1 ≤ wanted
      → m.last < g
      → Searched m.word m.first m.last wanted (try_block (go_on more p) m p wanted (some word))
  unfolding try_block
  try_block-Searched m p word c some_wanted h = elim (Bool-cases (leb wanted (apart p (word p)))) [
    | inl fits ↦
        let t = take_block-IsTaken m word p wanted c.arena c.free some_wanted fits in
        rw fits (
          Searched-trans m.word word m.first m.last wanted
            (some (block p (take_block m word p wanted))) c.keeps (refl, refl, t, λ fq ql. c.free))
    | inr short ↦ rw short (
        Searched-trans m.word word m.first m.last wanted (go_on more p (with_word m word)) c.keeps
          (go_on-Searched (with_word m word) p c.arena h))
  ]

-- What the search gives, if its fuel for the merging is above the last header: a free block, large enough,
-- that it made busy, or none; and the blocks that were busy are as they were.
pub search-Searched :
    (g f : ℕ) (m : Arena) (wanted p : ℕ)
    → IsArena m.word m.first m.last p
    → m.last < g
    → 1 ≤ wanted
    → Searched m.word m.first m.last wanted (search g f m wanted p)
unfolding search
search-Searched g zero m wanted p a h some_wanted = tt
search-Searched g (suc f) m wanted p a h some_wanted = elim (Bool-cases (is_busy (m.word p))) [
  | inl busy ↦ rw busy (
      go_on-Searched wanted g (λ m' p'. search g f m' wanted p')
        (λ m' p' a' h'. search-Searched g f m' wanted p' a' h' some_wanted) m p a h)
  | inr free ↦
      let (word, e, c) = coalesce-IsCoalesced g m.word m.first m.last p a free (omega arith) in
      rw (free, e)
        (try_block-Searched wanted g (λ m' p'. search g f m' wanted p')
          (λ m' p' a' h'. search-Searched g f m' wanted p' a' h' some_wanted) m p word c some_wanted
          h)
]
