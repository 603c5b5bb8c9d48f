-- ===== src/Malloc/Extend.antt =====
-- The block that `brk` gives room for.
use ibcs_us.Prelude.{
  ℕ, ◌+◌, ◌-◌, ◌*◌, ◌%◌, ◌^◌, ◌≤◌, ◌<◌, ◌≡◌, ◌⊎◌, inl, inr, refl, ◌==◌, true, false, ltb,
  if◌then◌else◌, arith,
}
use ibcs_us.Compat.Brk.{is_err, minus}
use ibcs_us.Malloc.{
  Arena, allocated, clear_busy, set_busy, is_busy, write, apart, add_block, extend,
}
use ibcs_us.Malloc.Chain.{
  Leads, there, Leads_le, Leads_append, Leads-behind, Leads_onward, Leads_aligned,
}
use ibcs_us.Malloc.Coalesce.{IsArena}

-- `brk` gives what is asked for, and that is no error number.
pub record IsGranted (brk_to : ℕ → ℕ) (p wanted : ℕ) : Type 0 where
  pub granted : brk_to (p + 4 * (wanted + 1)) ≡ p + 4 * (wanted + 1)
  pub small : p + 4 * (wanted + 1) ≤ 2 ^ 32 - 4096

-- The call, where `brk` gives what is asked for.
pub extend-IsGranted :
    (brk_now p : ℕ) (brk_to : ℕ → ℕ) (m : Arena) (wanted : ℕ)
    → (if m.last + 4 == brk_now then m.last else brk_now) ≡ p
    → brk_now ≤ 2 ^ 32 - 4096
    → IsGranted brk_to p wanted
    → extend brk_now brk_to m wanted ≡ allocated p (add_block m p (p + 4 * wanted))
unfolding extend
extend-IsGranted brk_now p brk_to m wanted at now g =
    let e = g.granted in
    let now_ok : is_err brk_now ≡ false = ground arith in
    let end_ok : is_err (p + 4 * (wanted + 1)) ≡ false = (let s = g.small in ground arith) in
    let n : minus (p + 4 * (wanted + 1)) 4 ≡ p + 4 * wanted =
      (let s = g.small in omega (arith, s)) in
    let size : apart p (p + 4 * wanted) ≡ wanted = ground arith in
    let enough : ltb wanted wanted ≡ false = ground arith in
    rw (at, e, now_ok, end_ok, n, size, enough) refl

-- A block right behind the last header becomes part of the chain, and the header behind it is the last.
pub extend-IsArena :
    (brk_now : ℕ) (brk_to : ℕ → ℕ) (m : Arena) (wanted : ℕ)
    → m.first % 4 ≡ 0
    → Leads m.word m.first m.rover
    → Leads m.word m.rover m.last
    → (m.last + 4 ≡ brk_now) ⊎ (m.last ≡ brk_now)
    → brk_now ≤ 2 ^ 32 - 4096
    → 1 ≤ wanted
    → IsGranted brk_to m.last wanted
    → (m' : Arena) × (extend brk_now brk_to m wanted ≡ allocated m.last m')
      × IsArena m'.word m'.first m'.last m'.rover
      × Leads m'.word m'.first m.last
      × (is_busy (m'.word m.last) ≡ true)
      × (clear_busy (m'.word m.last) ≡ m.last + 4 * wanted)
      × ((q : ℕ) → q < m.last → m'.word q ≡ m.word q)
unfolding add_block
extend-IsArena brk_now brk_to m wanted aligned before after near now some_wanted g =
    let p = m.last in
    let n = p + 4 * wanted in
    let at : (if m.last + 4 == brk_now then m.last else brk_now) ≡ p = (elim near [
      | inl e ↦ ground arith
      | inr e ↦ ground arith
    ]) in
    let call = extend-IsGranted brk_now p brk_to m wanted at now g in
    let even_p =
      Leads_aligned m.word m.first p aligned (Leads_append m.word m.first m.rover p before after) in
    let even_n : n % 4 ≡ 0 = omega (arith, even_p) in
    let w1 = write m.word p (set_busy n) in
    let w2 = write w1 p (set_busy n) in
    let w = write w2 n (set_busy m.first) in
    let kept : (y z : ℕ) → z ≤ p → Leads m.word y z → Leads w y z = λ y z h k.
      Leads-behind w2 n (set_busy m.first) y z (omega arith)
        (Leads-behind w1 p (set_busy n) y z h (Leads-behind m.word p (set_busy n) y z h k)) in
    let at_n : w n ≡ m.first + 1 = ground (arith, aligned) in
    let at_p : w p ≡ n + 1 =
      (let o : (p == n) ≡ false = ground (arith, some_wanted) in
        let s : (p == p) ≡ true = ground arith in rw (o, s) (omega (arith, even_n))) in
    let clear : clear_busy (w p) ≡ n = omega (arith, at_p, even_n) in
    let last_link = Leads_onward w p n n clear (omega (arith, some_wanted)) even_n (there n) in
    let le = Leads_le m.word m.rover p after in
    (
      add_block m p n,
      call,
      record {
        aligned = aligned;
        closed = at_n;
        before = kept m.first m.rover le before;
        after = Leads_append w m.rover p n (kept m.rover p (omega arith) after) last_link;
      },
      kept m.first p (omega arith) (Leads_append m.word m.first m.rover p before after),
      ground (arith, at_p, even_n),
      clear,
      λ q low.
          let o1 : (q == n) ≡ false = ground arith in
          let o2 : (q == p) ≡ false = ground arith in rw (o1, o2) refl,
    )
