-- ===== src/Malloc/Gap.antt =====
-- The block behind a gap: what was between the last header and the break belongs to others.
use ibcs_us.Prelude.{
  ℕ, ◌+◌, ◌-◌, ◌*◌, ◌%◌, ◌^◌, ◌≤◌, ◌<◌, ◌≡◌, inl, inr, ◌==◌, true, false, if◌then◌else◌, arith,
}
use ibcs_us.Malloc.{Arena, allocated, clear_busy, set_busy, write, add_block, extend}
use ibcs_us.Malloc.Chain.{Leads, Leads_le, Leads_linear, Leads-behind, Leads_next}
use ibcs_us.Malloc.Extend.{IsGranted, extend-IsGranted}

-- Where others have moved the break, the new block is not linked into the list: the last header leads
-- past it to the new last one.
pub extend_gap :
    (brk_now : ℕ) (brk_to : ℕ → ℕ) (m : Arena) (wanted : ℕ)
    → Leads m.word m.first m.last
    → m.last + 4 < brk_now
    → brk_now % 4 ≡ 0
    → brk_now ≤ 2 ^ 32 - 4096
    → 1 ≤ wanted
    → IsGranted brk_to brk_now wanted
    → (m' : Arena) × (extend brk_now brk_to m wanted ≡ allocated brk_now m')
      × (¬ Leads m'.word m'.first brk_now)
unfolding add_block
extend_gap brk_now brk_to m wanted chain gap aligned now some_wanted g =
    let p = brk_now in
    let n = p + 4 * wanted in
    let at : (if m.last + 4 == brk_now then m.last else brk_now) ≡ p = ground arith in
    let call = extend-IsGranted brk_now p brk_to m wanted at now g in
    let w1 = write m.word m.last (set_busy n) in
    let w2 = write w1 p (set_busy n) in
    let w = write w2 n (set_busy m.first) in
    let chain' = Leads-behind w2 n (set_busy m.first) m.first m.last (omega arith) (
      Leads-behind w1 p (set_busy n) m.first m.last (omega arith)
        (Leads-behind m.word m.last (set_busy n) m.first m.last (omega arith) chain)) in
    let o1 : (m.last == n) ≡ false = ground arith in
    let o2 : (m.last == p) ≡ false = ground arith in
    let s : (m.last == m.last) ≡ true = ground arith in
    let clear : clear_busy (w m.last) ≡ n = (rw (o1, o2, s) (omega (arith, aligned))) in
    (
      add_block m p n,
      call,
      λ reached. elim (Leads_linear w m.first m.last p chain' reached) [
        | inl l ↦
            let (up, even, l') = Leads_next w m.last p l (λ e. absurd (omega arith)) in
            let le = Leads_le w (clear_busy (w m.last)) p l' in
            absurd (omega (arith, clear, le, some_wanted))
        | inr l ↦ let le = Leads_le w p m.last l in absurd (omega arith)
      ],
    )
