-- ===== src/Compat/Brk/Heap.antt =====
-- The area of the break: the break stays in it, and whether the system gave it makes no difference.
use ibcs_us.Prelude.{
  ℕ, ◌+◌, ◌-◌, ◌%◌, ◌^◌, ◌≤◌, ◌<◌, ◌≡◌, refl, ◌==◌, false, if◌then◌else◌, ltb, inl, inr, Bool-cases,
  arith,
}
use ibcs_us.Compat.Brk.{Mm, page_align, is_err, minus, do_brk, linux26_brk}

-- The break is in the area, from its start to its end, and the pages up to the break are.
pub record IsHeap (mm : Mm) : Type 0 where
  pub start : mm.brk_mmap_min ≤ mm.brk
  pub end : page_align mm.brk ≤ mm.brk_mmap_max

-- do_brk never looks at what mremap answered, unless its address is an error number: it returns the
-- address and sets the new end even where the system refused.
pub do_brk_unchecked :
    (mremap refused : ℕ → ℕ → ℕ → ℕ) (mm : Mm) (addr len : ℕ)
    → addr ≤ 2 ^ 32 - 4096
    → do_brk mremap mm addr len ≡ do_brk refused mm addr len
unfolding do_brk
do_brk_unchecked mremap refused mm addr len h =
    let ok : is_err addr ≡ false = ground arith in rw ok refl

page_align_above : (x : ℕ) → x + 4096 < 2 ^ 32 → x ≤ page_align x
unfolding page_align
page_align_above x h = omega arith

page_align_below : (x : ℕ) → x + 8192 < 2 ^ 32 → page_align x ≤ 2 ^ 32 - 8192
unfolding page_align
page_align_below x h = omega arith

page_align_twice : (x : ℕ) → page_align (page_align x % 2 ^ 32) ≡ page_align x
unfolding page_align
page_align_twice x = omega arith

page_align_word : (x : ℕ) → page_align x ≤ 2 ^ 32 - 4096
unfolding page_align
page_align_word x = omega arith

-- For an end that is in the area, do_brk returns its address, and the area reaches to the end.
do_brk_grows :
    (mremap : ℕ → ℕ → ℕ → ℕ) (mm : Mm) (addr len end : ℕ)
    → addr ≤ 2 ^ 32 - 4096
    → end ≤ 2 ^ 32 - 8192
    → page_align ((addr + len) % 2 ^ 32) ≡ end
    → mm.brk_mmap_min ≤ end
    → ((do_brk mremap mm addr len).0 ≡ addr)
      × (end ≤ (do_brk mremap mm addr len).1.brk_mmap_max)
      × ((do_brk mremap mm addr len).1.brk_mmap_min ≡ mm.brk_mmap_min)
unfolding do_brk
do_brk_grows mremap mm addr len end h w e l =
    let ok : is_err addr ≡ false = ground arith in
    let inside : ltb end mm.brk_mmap_min ≡ false = ground arith in
    elim (Bool-cases (end == mm.brk_mmap_max)) [
      | inl same ↦ let le : end ≤ mm.brk_mmap_max = ground arith in rw (e, same) (refl, le, refl)
      | inr other ↦
          let small : (mm.brk_mmap_min + 1) % 2 ^ 32 ≡ mm.brk_mmap_min + 1 = omega arith in
          let above = page_align_above (mm.brk_mmap_min + 1) (omega arith) in
          let le : end
              ≤ (if end == mm.brk_mmap_min then page_align (mm.brk_mmap_min + 1) else end) =
            ground (arith, above) in
          rw (e, other, inside, ok, small) (refl, le, refl)
    ]

-- linux26_brk keeps the break in its area, for a new break below the last two pages of addresses.
pub linux26_brk-IsHeap :
    (mremap : ℕ → ℕ → ℕ → ℕ) (mm : Mm) (new_brk : ℕ)
    → IsHeap mm
    → new_brk + 8192 < 2 ^ 32
    → IsHeap (linux26_brk mremap mm new_brk).1
unfolding linux26_brk
linux26_brk-IsHeap mremap mm new_brk h new =
    let old_page = page_align mm.brk in
    let new_page = page_align new_brk in
    let len = minus new_page old_page in
    let w = page_align_word mm.brk in
    let b = page_align_below new_brk new in
    let back : (old_page + len) % 2 ^ 32 ≡ new_page % 2 ^ 32 = omega arith in
    let e : page_align ((old_page + len) % 2 ^ 32) ≡ new_page =
      (rw back (page_align_twice new_brk)) in
    let above = page_align_above new_brk (omega arith) in
    elim (Bool-cases (ltb new_brk mm.brk_mmap_min)) [
      | inl refused ↦ rw refused h
      | inr inside ↦
          let l : mm.brk_mmap_min ≤ new_brk = ground arith in
          elim (Bool-cases (new_page == old_page)) [
            | inl same ↦
                let le : new_page ≤ mm.brk_mmap_max = ground (arith, h.end) in
                rw (inside, same) (record { start = l; end = le })
            | inr other ↦
                let (ret, reach, min) =
                  do_brk_grows mremap mm old_page len new_page w b e (omega (arith, l, above)) in
                let ok : is_err old_page ≡ false = ground (arith, w) in
                let start : (do_brk mremap mm old_page len).1.brk_mmap_min ≤ new_brk =
                  omega (arith, min, l) in
                rw (inside, other, ret, ok) (record { start = start; end = reach })
          ]
    ]
