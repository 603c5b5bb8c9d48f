-- ===== src/Malloc/Taken.antt =====
-- The taking of a free block that is large enough.
use ibcs_us.Prelude.{
  ℕ, ◌+◌, ◌-◌, ◌*◌, ◌/◌, ◌%◌, ◌≤◌, ◌<◌, ◌≡◌, ◌≢◌, inl, inr, refl, ◌∙◌, ◌==◌, true, false, leb, ltb,
  Bool-cases, arith, ==→eq, ne→==,
}
use ibcs_us.Malloc.{Arena, clear_busy, set_busy, is_busy, write, apart, split, take_block}
use ibcs_us.Malloc.Chain.{
  Leads, there, Leads_le, Leads_append, Leads_same, Leads_linear, Leads-before, Leads-behind,
  Leads_onward, Leads_aligned,
}
use ibcs_us.Malloc.Coalesce.{IsArena, KeepsBusy, KeepsBusy-trans, next_header, skip_free}

-- The arena when the block at `p` has been made busy.
pub record IsTaken (word : ℕ → ℕ) (m : Arena) (p wanted : ℕ) : Type 0 where
  pub arena : IsArena m.word m.first m.last m.rover
  pub on : Leads m.word m.first p
  pub busy : is_busy (m.word p) ≡ true
  pub long : p + 4 * wanted ≤ clear_busy (m.word p)
  pub ends : clear_busy (m.word p) ≡ m.rover
  pub keeps : KeepsBusy word m.word m.first m.last

cut_block :
    (word : ℕ → ℕ) (first last p e : ℕ)
    → IsArena word first last p
    → is_busy (word p) ≡ false
    → p < e
    → e < word p
    → e % 4 ≡ 0
    → IsArena (write (write word e (word p)) p e) first last p
      × KeepsBusy word (write (write word e (word p)) p e) first last
cut_block word first last p e a free above below even_e =
    let n = word p in
    let w1 = write word e n in
    let w = write w1 p e in
    let (up, even, l) = next_header word first last p a free in
    let le = Leads_le word n last l in
    let last_same : w last ≡ word last =
      (let o1 : (last == e) ≡ false = ground (arith, le, below, up) in
        let o2 : (last == p) ≡ false = ground (arith, le, up) in rw (o2, o1) refl) in
    let behind : (x : ℕ) → x ≤ p → (y : ℕ) → Leads word y x → Leads w y x =
      λ x h y k. Leads-behind w1 p e y x h (Leads-behind word e n y x (omega arith) k) in
    let above_n : (z : ℕ) → Leads word n z → Leads w n z =
      λ z k. Leads-before w1 p e n z (omega (arith, up)) (Leads-before word e n n z below k) in
    let at_p : w p ≡ e = ground arith in
    let at_e : w e ≡ n =
      (let o : (e == p) ≡ false = ground arith in
        let s : (e == e) ≡ true = ground arith in rw (o, s) refl) in
    let clear_p : clear_busy (w p) ≡ e = ground (arith, at_p, even_e) in
    let clear_e : clear_busy (w e) ≡ n = ground (arith, at_e, even) in
    let through : (z : ℕ) → Leads word n z → Leads w p z = λ z k.
      Leads_onward w p e z clear_p above even_e
        (Leads_onward w e n z clear_e below even (above_n z k)) in
    let before = behind p (omega arith) first a.before in
    (
      record {
        aligned = a.aligned;
        closed = last_same ∙ a.closed;
        before = before;
        after = through last l;
      },
      λ q fq ql busy.
          let ne : q ≢ p =
            λ same. let b : is_busy (word p) ≡ true = (rw (← same) busy) in absurd (ground arith) in
          elim (Leads_linear word first q p fq a.before) [
            | inl qp ↦
                let le_q = Leads_le word q p qp in
                let o1 : (q == p) ≡ false = ground arith in
                let o2 : (q == e) ≡ false = ground (arith, le_q, above) in
                (
                  behind q le_q first fq,
                  Leads_append w q p last (behind p (omega arith) q qp) (through last l),
                  (rw (o1, o2) refl),
                )
            | inr pq ↦
                let nq = skip_free word p q free busy pq in
                let le_q = Leads_le word n q nq in
                let o1 : (q == p) ≡ false = ground arith in
                let o2 : (q == e) ≡ false = ground (arith, le_q, below) in
                (
                  Leads_append w first p q before (through q nq),
                  Leads-before w1 p e q last (omega (arith, up, le_q))
                      (Leads-before word e n q last (omega (arith, below, le_q)) ql),
                  (rw (o1, o2) refl),
                )
          ],
    )

-- What splitting leaves: the free block begins where it did, is long enough and ends no later.
record IsSplit (word word' : ℕ → ℕ) (first last p wanted : ℕ) : Type 0 where
  pub arena : IsArena word' first last p
  pub free : is_busy (word' p) ≡ false
  pub long : p + 4 * wanted ≤ word' p
  pub keeps : KeepsBusy word word' first last

split-IsSplit :
    (word : ℕ → ℕ) (first last p wanted : ℕ)
    → IsArena word first last p
    → is_busy (word p) ≡ false
    → 1 ≤ wanted
    → leb wanted (apart p (word p)) ≡ true
    → IsSplit word (split word p wanted) first last p wanted
split-IsSplit word first last p wanted a free some_wanted fits =
    let (up, even, l) = next_header word first last p a free in
    let size : apart p (word p) ≡ (word p - p) / 4 = ground (arith, up) in
    let fits' : wanted ≤ (word p - p) / 4 = ground (arith, size) in
    elim (Bool-cases (ltb wanted (apart p (word p)))) [
      | inl larger ↦
          let e = p + 4 * wanted in
          let larger' : wanted < (word p - p) / 4 = ground (arith, size) in
          let even_p = Leads_aligned word first p a.aligned a.before in
          let even_e : e % 4 ≡ 0 = omega (arith, even_p) in
          let (a', k) =
            cut_block word first last p e a free (omega arith) (omega (arith, larger')) even_e in
          let at_p : write (write word e (word p)) p e p ≡ e = ground arith in
          let free' : is_busy (write (write word e (word p)) p e p) ≡ false =
            ground (arith, at_p, even_e) in
          rw larger (record { arena = a'; free = free'; long = omega (arith, at_p); keeps = k })
      | inr exact ↦ rw exact (record {
        arena = a;
        free = free;
        long = omega (arith, fits', up);
        keeps = λ q fq ql b. (fq, ql, refl);
      })
    ]

mark_busy :
    (word : ℕ → ℕ) (first last p : ℕ)
    → IsArena word first last p
    → is_busy (word p) ≡ false
    → IsArena (write word p (set_busy (word p))) first last (word p)
      × Leads (write word p (set_busy (word p))) first p
      × KeepsBusy word (write word p (set_busy (word p))) first last
mark_busy word first last p a free =
    let n = word p in
    let w = write word p (set_busy n) in
    let (up, even, l) = next_header word first last p a free in
    let le = Leads_le word n last l in
    let same : (q : ℕ) → clear_busy (w q) ≡ clear_busy (word q) = λ q. elim (Bool-cases (q == p)) [
      | inl this ↦ let e : q ≡ p = ==→eq q p this in rw (this, e) (ground arith)
      | inr other ↦ rw other refl
    ] in
    let kept : (y z : ℕ) → Leads word y z → Leads w y z =
      λ y z k. Leads_same word w y z (λ q low high. same q) k in
    let last_same : w last ≡ word last =
      (let o : (last == p) ≡ false = ground (arith, le, up) in rw o refl) in
    let clear : clear_busy (word p) ≡ n = ground arith in
    let to_n =
      Leads_append word first p n a.before (Leads_onward word p n n clear up even (there n)) in
    (
      record {
        aligned = a.aligned;
        closed = last_same ∙ a.closed;
        before = kept first n to_n;
        after = kept n last l;
      },
      kept first p a.before,
      λ q fq ql busy.
          let ne : q ≢ p =
            λ e. let b : is_busy (word p) ≡ true = (rw (← e) busy) in absurd (ground arith) in
          let other : (q == p) ≡ false = ne→== q p ne in
          (kept first q fq, kept q last ql, (rw other refl)),
    )

-- A free block that is large enough is split and made busy, and what is behind it is where the next
-- search begins.
pub take_block-IsTaken :
    (m : Arena) (word : ℕ → ℕ) (p wanted : ℕ)
    → IsArena word m.first m.last p
    → is_busy (word p) ≡ false
    → 1 ≤ wanted
    → leb wanted (apart p (word p)) ≡ true
    → IsTaken word (take_block m word p wanted) p wanted
unfolding take_block
take_block-IsTaken m word p wanted a free some_wanted fits =
    let s = split-IsSplit word m.first m.last p wanted a free some_wanted fits in
    let w1 = split word p wanted in
    let (a', on, k) = mark_busy w1 m.first m.last p s.arena s.free in
    let here : write w1 p (set_busy (w1 p)) p ≡ set_busy (w1 p) = ground arith in
    let even : w1 p % 2 ≡ 0 = (let f = s.free in ground arith) in
    let end : clear_busy (write w1 p (set_busy (w1 p)) p) ≡ w1 p = omega (arith, here, even) in
    record {
      arena = a';
      on = on;
      busy = ground (arith, here, even);
      long = omega (arith, end, s.long);
      ends = end;
      keeps = KeepsBusy-trans word w1 (write w1 p (set_busy (w1 p))) m.first m.last s.keeps k;
    }
