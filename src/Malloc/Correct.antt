-- ===== src/Malloc/Correct.antt =====
-- ibcs_malloc and ibcs_free as a whole.
use ibcs_us.Prelude.{
  ℕ, ◌+◌, ◌-◌, ◌*◌, ◌^◌, ◌≤◌, ◌<◌, ◌≡◌, ◌≢◌, ◌⊎◌, inl, inr, refl, sym, ◌∙◌, true, Option, none,
  some, Option-cases, arith, ne→==,
}
use ibcs_us.Malloc.{
  Arena, block, no_block, Outcome, allocated, fatal, clear_busy, is_busy, headers, extend, search,
  after_search, ibcs_malloc,
}
use ibcs_us.Malloc.Chain.{Leads, Leads_le, Leads_linear, Leads_next}
use ibcs_us.Malloc.Coalesce.{IsArena, KeepsBusy}
use ibcs_us.Malloc.Taken.{IsTaken}
use ibcs_us.Malloc.Search.{Searched, WasFree, search-Searched}
use ibcs_us.Malloc.Extend.{IsGranted, extend-IsArena}

-- The block at `b` ends before the header at `p`, or begins behind that and the `wanted` bytes behind it.
abbrev pub Disjoint : (ℕ → ℕ) → ℕ → ℕ → ℕ → Type 0
Disjoint word b p wanted = (clear_busy (word b) ≤ p) ⊎ (p + 4 + wanted ≤ b)

-- The block at `p` is busy, `wanted` bytes fit between its header and the next, and the blocks that were busy are where they were, as long as
-- they were, and apart from it. The last header is no block.
pub record Serves (m m' : Arena) (p wanted : ℕ) : Type 0 where
  pub arena : IsArena m'.word m'.first m'.last m'.rover
  pub on : Leads m'.word m'.first p
  pub busy : is_busy (m'.word p) ≡ true
  pub long : p + 4 + wanted ≤ clear_busy (m'.word p)
  pub others :
      (b : ℕ)
      → Leads m.word m.first b
      → Leads m.word b m.last
      → b ≢ m.last
      → is_busy (m.word b) ≡ true
      → (m'.word b ≡ m.word b) × Disjoint m.word b p wanted

-- Whatever ibcs_malloc returns serves, if it returns and the process does not end.
abbrev pub Safe : Arena → ℕ → Option Outcome → Type 0
Safe m wanted none = Unit
Safe m wanted (some fatal) = Unit
Safe m wanted (some (allocated p m')) = Serves m m' p wanted

-- `brk` was not moved since the last call, and gives what is asked for.
pub record IsBreak (brk_now : ℕ) (brk_to : ℕ → ℕ) (m : Arena) (units : ℕ) : Type 0 where
  pub near : m.last + 4 ≡ brk_now
  pub small : brk_now ≤ 2 ^ 32 - 4096
  pub granted : IsGranted brk_to m.last units

taken-Serves :
    (m m' : Arena) (wanted units q : ℕ)
    → wanted + 4 ≤ 4 * units
    → m'.first ≡ m.first
    → m'.last ≡ m.last
    → IsTaken m.word m' q units
    → WasFree m.word m.first m.last q
    → Serves m m' q wanted
taken-Serves m m' wanted units q room ef el t was =
    let k : KeepsBusy m.word m'.word m.first m.last = (rw (← ef, ← el) t.keeps) in
    let on : Leads m'.word m.first q = (rw (← ef) t.on) in
    record {
      arena = t.arena;
      on = t.on;
      busy = t.busy;
      long = (let long = t.long in omega (arith, long, room));
      others = λ b fb bl ne busy.
          let (fb', bl', same) = k b fb bl busy in
          let ne_q : b ≢ q = λ e.
            let free = was (rw (← e) fb) (rw (← e) bl) in
            let busy' : is_busy (m.word q) ≡ true = (rw (← e) busy) in absurd (ground arith) in
          let clear : clear_busy (m'.word b) ≡ clear_busy (m.word b) = (rw same refl) in
          (
            same,
            (elim (Leads_linear m'.word m.first b q fb' on) [
              | inl bq ↦
                  let (up, even, l) = Leads_next m'.word b q bq ne_q in
                  let le = Leads_le m'.word (clear_busy (m'.word b)) q l in
                  inl (omega (arith, le, clear))
              | inr qb ↦
                  let (up, even, l) = Leads_next m'.word q b qb (λ e. ne_q (sym e)) in
                  let le = Leads_le m'.word (clear_busy (m'.word q)) b l in
                  let long = t.long in inr (omega (arith, le, long, room))
            ]),
          );
    }

extended-Safe :
    (brk_now : ℕ) (brk_to : ℕ → ℕ) (m m1 : Arena) (wanted units : ℕ)
    → wanted + 4 ≤ 4 * units
    → m1.first ≡ m.first
    → m1.last ≡ m.last
    → IsArena m1.word m1.first m1.last m1.rover
    → KeepsBusy m.word m1.word m.first m.last
    → 1 ≤ units
    → IsBreak brk_now brk_to m1 units
    → Safe m wanted (some (extend brk_now brk_to m1 units))
extended-Safe brk_now brk_to m m1 wanted units room ef el a k some_units br =
    let (m', e, a', on, busy, clear, same) =
      extend-IsArena brk_now brk_to m1 units a.aligned a.before a.after (inl br.near) br.small
        some_units br.granted in
    rw e (record {
      arena = a';
      on = on;
      busy = busy;
      long = omega (arith, clear, room);
      others = λ b fb bl ne b_busy.
          let (up, even, l) = Leads_next m.word b m.last bl ne in
          let le = Leads_le m.word (clear_busy (m.word b)) m.last l in
          let low : b < m1.last = omega (arith, up, le, el) in
          let (x, y, kept) = k b fb bl b_busy in (same b low ∙ kept, inl (omega (arith, le, el)));
    })

-- When ibcs_malloc returns a block, from a free one or from `brk`, the headers are still in order, the
-- block is busy, its `wanted` bytes end no later than the next header, and every block that was busy is
-- unchanged and does not overlap these bytes or their header; if the size is below 2 ^ 32 - 3, the break was not
-- moved by others, and for fuel above the last header.
pub ibcs_malloc-Safe :
    (f brk_now : ℕ) (brk_to : ℕ → ℕ) (m : Arena) (wanted : ℕ)
    → IsArena m.word m.first m.last m.rover
    → m.rover ≢ 0
    → m.last < f
    → wanted + 3 < 2 ^ 32
    → IsBreak brk_now brk_to m (headers wanted)
    → Safe m wanted (ibcs_malloc f brk_now brk_to m wanted)
unfolding ibcs_malloc after_search
ibcs_malloc-Safe f brk_now brk_to m wanted a ready enough size br =
    let units = headers wanted in
    let room : wanted + 4 ≤ 4 * units = omega arith in
    let some_units : 1 ≤ units = omega arith in
    let e = ne→== m.rover 0 ready in
    let s = search-Searched f f m units m.rover a enough some_units in
    elim (Option-cases (search f f m units m.rover)) [
      | inl endless ↦ rw (e, endless) tt
      | inr (block q m', found) ↦
          let (ef, el, t, was) : Searched m.word m.first m.last units (some (block q m')) =
            (rw found at s) in
          rw (e, found) (taken-Serves m m' wanted units q room ef el t was)
      | inr (no_block m1, found) ↦
          let (ef, el, a1, k) : Searched m.word m.first m.last units (some (no_block m1)) =
            (rw found at s) in
          let br1 : IsBreak brk_now brk_to m1 units = record {
            near = (rw el br.near);
            small = br.small;
            granted = (rw el br.granted);
          } in
          let a1' : IsArena m1.word m1.first m1.last m1.rover = (rw (ef, el) a1) in
          rw (e, found)
            (extended-Safe brk_now brk_to m m1 wanted units room ef el a1' k some_units br1)
    ]
