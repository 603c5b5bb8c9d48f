-- ===== src/Malloc/Coalesce.antt =====
-- The arena, and the merging of free blocks.
use ibcs_us.Prelude.{
  ℕ, zero, suc, ◌+◌, ◌%◌, ◌≤◌, ◌<◌, ◌≡◌, ◌≢◌, inl, inr, refl, ◌∙◌, subst, ◌==◌, true, false, some,
  Bool-cases, arith,
}
use ibcs_us.Malloc.{clear_busy, is_busy, write, coalesce}
use ibcs_us.Malloc.Chain.{
  Leads, there, Leads_le, Leads_append, Leads_linear, Leads-before, Leads-behind, Leads_next,
  Leads_onward,
}

-- The headers go up from the first over `p` to the last, which is busy and leads back to the first.
pub record IsArena (word : ℕ → ℕ) (first last p : ℕ) : Type 0 where
  pub aligned : first % 4 ≡ 0
  pub closed : word last ≡ first + 1
  pub before : Leads word first p
  pub after : Leads word p last

-- The busy blocks are where they were, and as long.
abbrev pub KeepsBusy : (ℕ → ℕ) → (ℕ → ℕ) → ℕ → ℕ → Type 0
KeepsBusy word word' first last =
    (q : ℕ)
    → Leads word first q
    → Leads word q last
    → is_busy (word q) ≡ true
    → Leads word' first q × Leads word' q last × (word' q ≡ word q)

-- A free header is not the last; the next one stands behind it.
pub next_header :
    (word : ℕ → ℕ) (first last p : ℕ)
    → IsArena word first last p
    → is_busy (word p) ≡ false
    → (p < word p) × (word p % 4 ≡ 0) × Leads word (word p) last
next_header word first last p a free =
    let ne : p ≢ last = λ e.
      let c : word p ≡ first + 1 = (rw e a.closed) in
      let al = a.aligned in absurd (ground (arith, c, al)) in
    let clear : clear_busy (word p) ≡ word p = ground arith in
    let (up, even, l) = Leads_next word p last a.after ne in
    (omega (arith, up, clear), omega (arith, even, clear), subst (λ x. Leads word x last) clear l)

-- A busy header that a free one leads to is behind that.
pub skip_free :
    (word : ℕ → ℕ) (p q : ℕ)
    → is_busy (word p) ≡ false
    → is_busy (word q) ≡ true
    → Leads word p q
    → Leads word (word p) q
skip_free word p q free busy l =
    let ne : p ≢ q = λ e. let b : is_busy (word p) ≡ true = (rw e busy) in absurd (ground arith) in
    let clear : clear_busy (word p) ≡ word p = ground arith in
    subst (λ x. Leads word x q) clear (Leads_next word p q l ne).2

-- What is behind a free block is linked to it as the last of the free blocks behind it was.
merge-IsArena :
    (word : ℕ → ℕ) (first last p : ℕ)
    → IsArena word first last p
    → is_busy (word p) ≡ false
    → is_busy (word (word p)) ≡ false
    → IsArena (write word p (word (word p))) first last p
      × KeepsBusy word (write word p (word (word p))) first last
      × (word p < word (word p))
      × (word (word p) % 4 ≡ 0)
merge-IsArena word first last p a free free' =
    let n = word p in
    let m = word n in
    let w = write word p m in
    let (up, even, l) = next_header word first last p a free in
    let clear : clear_busy (word p) ≡ n = ground arith in
    let to_n : Leads word first n =
      Leads_append word first p n a.before (Leads_onward word p n n clear up even (there n)) in
    let a' : IsArena word first last n = record {
      aligned = a.aligned;
      closed = a.closed;
      before = to_n;
      after = l;
    } in
    let (up', even', l') = next_header word first last n a' free' in
    let le = Leads_le word m last l' in
    let here : w p ≡ m = ground arith in
    let clear' : clear_busy (w p) ≡ m = ground (arith, here, even') in
    let last_same : w last ≡ word last =
      (let other : (last == p) ≡ false = ground arith in rw other refl) in
    let before = Leads-behind word p m first p (omega arith) a.before in
    let after =
      Leads_onward w p m last clear' (omega (arith, up, up')) even'
        (Leads-before word p m m last (omega (arith, up, up')) l') in
    (
      record { aligned = a.aligned; closed = last_same ∙ a.closed; before = before; after = after },
      (λ q fq ql busy.
          let ne : q ≢ p =
            λ e. let b : is_busy (word p) ≡ true = (rw (← e) busy) in absurd (ground arith) in
          elim (Leads_linear word first q p fq a.before) [
            | inl qp ↦
                let le_q = Leads_le word q p qp in
                let other : (q == p) ≡ false = ground arith in
                (
                  Leads-behind word p m first q le_q fq,
                  Leads_append w q p last (Leads-behind word p m q p (omega arith) qp) after,
                  (rw other refl),
                )
            | inr pq ↦
                let mq = skip_free word n q free' busy (skip_free word p q free busy pq) in
                let le_q = Leads_le word m q mq in
                let other : (q == p) ≡ false = ground (arith, up, up') in
                let to_q =
                  Leads_onward w p m q clear' (omega (arith, up, up')) even'
                    (Leads-before word p m m q (omega (arith, up, up')) mq) in
                (
                  Leads_append w first p q before to_q,
                  Leads-before word p m q last (omega (arith, up, up')) ql,
                  (rw other refl),
                )
          ]),
      up',
      even',
    )

pub KeepsBusy-trans :
    (w1 w2 w3 : ℕ → ℕ) (first last : ℕ)
    → KeepsBusy w1 w2 first last
    → KeepsBusy w2 w3 first last
    → KeepsBusy w1 w3 first last
KeepsBusy-trans w1 w2 w3 first last k l q fq ql busy =
    let (fq', ql', e) = k q fq ql busy in
    let busy' : is_busy (w2 q) ≡ true = (rw e busy) in
    let (fq'', ql'', e') = l q fq' ql' busy' in (fq'', ql'', e' ∙ e)

-- The block once coalesced: it is free, and the one behind it is not.
pub record IsCoalesced (word word' : ℕ → ℕ) (first last p : ℕ) : Type 0 where
  pub arena : IsArena word' first last p
  pub free : is_busy (word' p) ≡ false
  pub behind : is_busy (word' (word' p)) ≡ true
  pub keeps : KeepsBusy word word' first last
  pub grows : word p ≤ word' p

-- The merging of the free blocks behind a free block ends, as the headers go up to the last, and keeps
-- the busy blocks.
pub coalesce-IsCoalesced :
    (f : ℕ) (word : ℕ → ℕ) (first last p : ℕ)
    → IsArena word first last p
    → is_busy (word p) ≡ false
    → last < word p + f
    → (word' : ℕ → ℕ) × (coalesce f word p ≡ some word') × IsCoalesced word word' first last p
unfolding coalesce
coalesce-IsCoalesced zero word first last p a free enough =
    let (up, even, l) = next_header word first last p a free in
    let le = Leads_le word (word p) last l in absurd (omega arith)
coalesce-IsCoalesced (suc f) word first last p a free enough =
    elim (Bool-cases (is_busy (word (word p)))) [
      | inl busy ↦ (
        word,
        (rw busy refl),
        record {
          arena = a;
          free = free;
          behind = busy;
          keeps = λ q fq ql b. (fq, ql, refl);
          grows = omega arith;
        },
      )
      | inr free' ↦
          let m = word (word p) in
          let w = write word p m in
          let (a', k, up, even) = merge-IsArena word first last p a free free' in
          let here : w p ≡ m = ground arith in
          let still_free : is_busy (w p) ≡ false = ground (arith, here, even) in
          let (word', e, c) =
            coalesce-IsCoalesced f w first last p a' still_free (omega (arith, here, up, enough)) in
          (
            word',
            (rw free' e),
            record {
              arena = c.arena;
              free = c.free;
              behind = c.behind;
              keeps = KeepsBusy-trans word w word' first last k c.keeps;
              grows = omega (arith, c.grows, here, up);
            },
          )
    ]
