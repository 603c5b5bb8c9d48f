-- ===== src/Malloc/Reuse.antt =====
-- ibcs_free, and the block that the next ibcs_malloc gives; and the first call.
use ibcs_us.Prelude.{
  ℕ, zero, suc, ◌+◌, ◌-◌, ◌*◌, ◌%◌, ◌^◌, ◌≤◌, ◌<◌, ◌≡◌, ◌≢◌, inl, inr, refl, sym, ◌∙◌, ◌==◌, true,
  false, some, leb, Bool-cases, arith, ==→eq, ne→==,
}
use ibcs_us.Malloc.{
  Arena, allocated, clear_busy, is_busy, write, headers, apart, search, after_search, take_block,
  try_block, ibcs_malloc, ibcs_free,
}
use ibcs_us.Malloc.Chain.{Leads, there, Leads_same}
use ibcs_us.Malloc.Coalesce.{IsArena, coalesce-IsCoalesced}
use ibcs_us.Malloc.Extend.{IsGranted, extend-IsArena}

-- ibcs_free of a block keeps the headers in order, makes the block free, and makes its header the one that the
-- next search begins at.
pub ibcs_free-IsArena :
    (m : Arena) (p : ℕ)
    → IsArena m.word m.first m.last m.rover
    → Leads m.word m.first p
    → Leads m.word p m.last
    → p ≢ m.last
    → IsArena (ibcs_free m p).word m.first m.last (ibcs_free m p).rover
      × ((ibcs_free m p).rover ≡ p)
      × (is_busy ((ibcs_free m p).word p) ≡ false)
unfolding ibcs_free
ibcs_free-IsArena m p a fp pl ne =
    let w = write m.word p (clear_busy (m.word p)) in
    let here : w p ≡ clear_busy (m.word p) = ground arith in
    let same : (q : ℕ) → clear_busy (w q) ≡ clear_busy (m.word q) = λ q.
      elim (Bool-cases (q == p)) [
        | inl this ↦ let e : q ≡ p = ==→eq q p this in rw (this, e) (omega arith)
        | inr other ↦ rw other refl
      ] in
    let kept : (y z : ℕ) → Leads m.word y z → Leads w y z =
      λ y z k. Leads_same m.word w y z (λ q low high. same q) k in
    let last_same : w m.last ≡ m.word m.last =
      (let o : (m.last == p) ≡ false = ne→== m.last p (λ e. ne (sym e)) in rw o refl) in
    (
      record {
        aligned = a.aligned;
        closed = last_same ∙ a.closed;
        before = kept m.first p fp;
        after = kept p m.last pl;
      },
      refl,
      ground (arith, here),
    )

-- A call of ibcs_malloc after the freeing of a block that has room for what is wanted returns, and gives that
-- block, for fuel above the last header.
pub ibcs_malloc-ibcs_free :
    (f brk_now : ℕ) (brk_to : ℕ → ℕ) (m : Arena) (p wanted : ℕ)
    → IsArena m.word m.first m.last m.rover
    → Leads m.word m.first p
    → Leads m.word p m.last
    → p ≢ m.last
    → p ≢ 0
    → m.last < f
    → p + 4 * headers wanted ≤ clear_busy (m.word p)
    → (m' : Arena) × (ibcs_malloc f brk_now brk_to (ibcs_free m p) wanted ≡ some (allocated p m'))
unfolding ibcs_malloc after_search search try_block ibcs_free
ibcs_malloc-ibcs_free zero brk_now brk_to m p wanted a fp pl ne nonnull enough room =
    absurd (omega arith)
ibcs_malloc-ibcs_free (suc f) brk_now brk_to m p wanted a fp pl ne nonnull enough room =
    let units = headers wanted in
    let w = write m.word p (clear_busy (m.word p)) in
    let (a', begins, free) = ibcs_free-IsArena m p a fp pl ne in
    let (w', e, c) =
      coalesce-IsCoalesced (suc f) w m.first m.last p a' free (omega (arith, enough)) in
    let here : w p ≡ clear_busy (m.word p) = ground arith in
    let grows = c.grows in
    let fits : leb units (apart p (w' p)) ≡ true = ground (arith, grows, here, room) in
    let ready = ne→== p 0 nonnull in
    (take_block (ibcs_free m p) w' p units, (rw (ready, free, e, fits) refl))

-- The first call, before which nothing is set up, begins the arena with its block.
pub ibcs_malloc_first :
    (f brk_now : ℕ) (brk_to : ℕ → ℕ) (m : Arena) (wanted : ℕ)
    → m.rover ≡ 0
    → brk_now % 4 ≡ 0
    → brk_now ≤ 2 ^ 32 - 4096
    → IsGranted brk_to brk_now (headers wanted)
    → (m' : Arena) × (ibcs_malloc f brk_now brk_to m wanted ≡ some (allocated brk_now m'))
      × IsArena m'.word m'.first m'.last m'.rover
unfolding ibcs_malloc
ibcs_malloc_first f brk_now brk_to m wanted unset aligned small granted =
    let new : Arena = record { word = m.word; first = brk_now; last = brk_now; rover = brk_now } in
    let (m', e, a, on, busy, clear, same) =
      extend-IsArena brk_now brk_to new (headers wanted) aligned (there brk_now) (there brk_now)
        (inr refl) small (omega arith) granted in
    (m', (rw (unset, e) refl), a)
