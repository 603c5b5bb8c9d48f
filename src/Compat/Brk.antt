-- ===== src/Compat/Brk.antt =====
-- The break: init_brk, do_brk and linux26_brk, and the macros of linux/mm.h and ibcs/ibcs-lib.h that they use.
-- Addresses are 32-bit words. What `mmap` and `mremap` answer is a parameter.
pub mod Heap
use ibcs_us.Prelude.{ℕ, ◌+◌, ◌-◌, ◌%◌, ◌^◌, ◌==◌, ◌!=◌, ◌&&◌, Bool, true, false, if◌then◌else◌, ltb}
use ibcs_us.Compat.{enomem}

abbrev pub is_err : ℕ → Bool
is_err x = ltb (2 ^ 32 - 4096) x

abbrev pub minus : ℕ → ℕ → ℕ
minus a b = (a + (2 ^ 32 - b)) % 2 ^ 32

-- `x & PAGE_MASK`
abbrev pub page_start : ℕ → ℕ
page_start x = x - x % 4096

-- `PAGE_ALIGN`
unfoldable pub page_align : ℕ → ℕ
page_align x = page_start ((x + 4095) % 2 ^ 32)

-- The parts of `struct mm_struct` for the break.
pub record Mm : Type 0 where
  pub brk : ℕ
  pub brk_mmap_addr : ℕ
  pub brk_mmap_max : ℕ
  pub brk_mmap_min : ℕ
  pub bss_mmap_addr : ℕ
  pub bss_mmap_len : ℕ
  pub high_mmap_addr : ℕ
  pub high_mmap_len : ℕ

abbrev pub with_area : Mm → ℕ → ℕ → ℕ → Mm
with_area mm addr end start = record {
  brk = mm.brk;
  brk_mmap_addr = addr;
  brk_mmap_max = end;
  brk_mmap_min = start;
  bss_mmap_addr = mm.bss_mmap_addr;
  bss_mmap_len = mm.bss_mmap_len;
  high_mmap_addr = mm.high_mmap_addr;
  high_mmap_len = mm.high_mmap_len;
}

abbrev pub with_brk : Mm → ℕ → Mm
with_brk mm new_brk = record {
  brk = new_brk;
  brk_mmap_addr = mm.brk_mmap_addr;
  brk_mmap_max = mm.brk_mmap_max;
  brk_mmap_min = mm.brk_mmap_min;
  bss_mmap_addr = mm.bss_mmap_addr;
  bss_mmap_len = mm.bss_mmap_len;
  high_mmap_addr = mm.high_mmap_addr;
  high_mmap_len = mm.high_mmap_len;
}

-- `do_mmap` is given the address for a page.
unfoldable pub init_brk : (ℕ → ℕ) → Mm → Mm
unfolding page_align
init_brk do_mmap mm =
    let addr = page_align mm.brk in
    let new_addr = do_mmap addr in
    if ltb 0 mm.high_mmap_len && mm.bss_mmap_addr == mm.high_mmap_addr
    then with_area mm (page_start mm.bss_mmap_addr)
        (page_align ((mm.bss_mmap_addr + mm.bss_mmap_len) % 2 ^ 32)) mm.brk
    else if is_err new_addr
    then mm
    else with_area mm new_addr ((new_addr + 4096) % 2 ^ 32) new_addr

-- The end of the area that is asked for: a page at least.
abbrev pub end_for : Mm → ℕ → ℕ
end_for mm new_brk_end =
    if new_brk_end == mm.brk_mmap_min
    then page_align ((mm.brk_mmap_min + 1) % 2 ^ 32)
    else new_brk_end

-- `mremap` is given the address, the old size and the new one.
unfoldable pub do_brk : (ℕ → ℕ → ℕ → ℕ) → Mm → ℕ → ℕ → ℕ × Mm
unfolding page_align
do_brk mremap mm addr len =
    let new_brk_end = page_align ((addr + len) % 2 ^ 32) in
    let end = end_for mm new_brk_end in
    let new_addr =
      mremap mm.brk_mmap_addr (minus mm.brk_mmap_max mm.brk_mmap_addr)
        (minus end mm.brk_mmap_addr) in
    if new_brk_end == mm.brk_mmap_max
    then (addr, mm)
    else if ltb new_brk_end mm.brk_mmap_min
    then (2 ^ 32 - enomem, mm)
    else if is_err addr
    then (new_addr, mm)
    else (addr, with_area mm mm.brk_mmap_addr end mm.brk_mmap_min)

-- The new break, unless do_brk returned an error.
abbrev pub moved : ℕ → ℕ × Mm → ℕ × Mm
moved new_brk (retval, mm) = if is_err retval then (retval, mm) else (new_brk, with_brk mm new_brk)

unfoldable pub linux26_brk : (ℕ → ℕ → ℕ → ℕ) → Mm → ℕ → ℕ × Mm
linux26_brk mremap mm new_brk =
    let new_brk_page = page_align new_brk in
    let old_brk_page = page_align mm.brk in
    if ltb new_brk mm.brk_mmap_min
    then (2 ^ 32 - enomem, mm)
    else if new_brk_page == old_brk_page
    then (new_brk, with_brk mm new_brk)
    else moved new_brk (do_brk mremap mm old_brk_page (minus new_brk_page old_brk_page))
