-- ===== src/Compat/Tests.antt =====
-- The registries, the break and the table of files at concrete states.
use ibcs_us.Prelude.{
  ℕ, ◌-◌, ◌^◌, ◌≡◌, inl, inr, refl, subst, ◌<◌, true, Option, some, none, List, [], ◌∷◌, ◌==◌,
  if◌then◌else◌, arith,
}
use ibcs_us.Prelude.Text.{codes}
use ibcs_us.Compat.{success, failure, ebusy, einval, enoexec}
use ibcs_us.Compat.Domains.{
  Domains, lookup_exec_domain, lookup_from, register_exec_domain, is_listed, put_first,
  unregister_exec_domain, find_place, take_out, set_personality,
}
use ibcs_us.Compat.Domains.Chain.{
  Registered, chain_end, chain_link, Listed, IsFirstFor, lookup_exec_domain_lem,
}
use ibcs_us.Compat.Domains.Register.{register_exec_domain-Registered}
use ibcs_us.Compat.Domains.Unregister.{unregister_exec_domain-Registered}
use ibcs_us.Compat.Chrdev.{
  Slot, no_slot, register_chrdev, unregister_chrdev, find_chrdev, ask_drivers,
}
use ibcs_us.Compat.Chrdev.Slots.{register_chrdev-found, unregister_chrdev-is_empty}
use ibcs_us.Compat.Binfmt.{
  Links, linux_binfmts, unregister_binfmt, Retval, value, error, System, load_binfmt, try_binfmts,
  out,
}
use ibcs_us.Compat.Binfmt.Ring.{
  Follows, at_head, element, HasFormats, unregister_binfmt-up_to, Ends, load_binfmt-Ends,
}
use ibcs_us.Compat.Brk.{Mm, do_brk, linux26_brk, page_align, init_brk}
use ibcs_us.Compat.Brk.Heap.{IsHeap, do_brk_unchecked, linux26_brk-IsHeap}
use ibcs_us.Compat.Files.{File, Table, set_file, fget, fput, grow, linux26_fopen, linux26_fclose}
use ibcs_us.Compat.Files.Kept.{IsTable, InUse, none≢some, set_file-IsTable, fget-IsTable, fput-fget}

-- Domains at 40 and 60, for the personalities 3 to 4 and 5.
abbrev two_domains : Domains
two_domains = record {
  exec_domains = 40;
  next = λ p. if p == 40 then 60 else 0;
  pers_low = λ p. if p == 40 then 3 else 5;
  pers_high = λ p. if p == 40 then 4 else 5;
}

two-Registered : Registered two_domains (40 ∷ 60 ∷ [])
two-Registered = record {
  chain =
      chain_link 40 (60 ∷ []) (λ e. absurd (omega arith))
        (chain_link 60 [] (λ e. absurd (omega arith)) chain_end);
  different = ((λ l. elim l [ inl e ↦ absurd (omega arith) | inr n ↦ n ]), ((λ n. n), tt));
}

lookup_exec_domain_lem_example :
    (ep : ℕ) × (lookup_exec_domain 3 two_domains 0x4000005 ≡ some ep)
    × IsFirstFor two_domains 5 (40 ∷ 60 ∷ []) ep
lookup_exec_domain_lem_example =
    lookup_exec_domain_lem 3 two_domains 0x4000005 (40 ∷ 60 ∷ []) two-Registered (omega arith)

not-Listed : ¬ Listed 80 (40 ∷ 60 ∷ [])
not-Listed (inl e) = absurd (omega arith)
not-Listed (inr (inl e)) = absurd (omega arith)
not-Listed (inr (inr n)) = n

register_exec_domain-Registered_example :
    (s' : Domains) × (register_exec_domain 3 two_domains 80 ≡ some (success, s'))
    × Registered s' (80 ∷ 40 ∷ 60 ∷ [])
register_exec_domain-Registered_example =
    register_exec_domain-Registered 3 two_domains 80 (40 ∷ 60 ∷ []) two-Registered (omega arith)
      (λ e. absurd (omega arith)) refl not-Listed

unregister_exec_domain-Registered_example :
    (s' : Domains) × (unregister_exec_domain 3 two_domains 60 ≡ some (success, s'))
    × Registered s' (40 ∷ [])
    × (s'.next 60 ≡ 0)
unregister_exec_domain-Registered_example =
    unregister_exec_domain-Registered 3 two_domains 60 (40 ∷ 60 ∷ []) two-Registered (omega arith)
      (inr (inl refl))

domain_runs :
    (lookup_exec_domain 3 two_domains 0x4000005 ≡ some 60)
    × (lookup_exec_domain 3 two_domains 2 ≡ some 0)
    × (set_personality 3 two_domains 0x10004
        ≡ some (record { exec_domain = 40; personality = 0x10004 }))
    × (unregister_exec_domain 3 two_domains 80 ≡ some (failure einval, two_domains))
    × (register_exec_domain 3 two_domains 60 ≡ some (failure ebusy, two_domains))
unfolding set_personality lookup_exec_domain lookup_from unregister_exec_domain find_place take_out
    register_exec_domain is_listed put_first
domain_runs = (refl, refl, refl, refl, refl)

abbrev socksys : Slot
socksys = record { chrdev_major = 30; chrdev_name = some (codes "socksys"); chrdev_fops = 500 }

abbrev spx : Slot
spx = record { chrdev_major = 31; chrdev_name = some (codes "spx"); chrdev_fops = 700 }

register_chrdev-found_example :
    register_chrdev (no_slot ∷ no_slot ∷ socksys ∷ []) 31 (codes "spx") 700
    ≡ some (success, spx ∷ no_slot ∷ socksys ∷ [])
register_chrdev-found_example =
    register_chrdev-found (no_slot ∷ no_slot ∷ socksys ∷ []) 31 (codes "spx") 700
      (inl refl, (inl refl, (inr (codes "socksys", refl), tt)))

unregister_chrdev-is_empty_example :
    unregister_chrdev (no_slot ∷ socksys ∷ []) 30 (codes "socksys") ≡ none
unregister_chrdev-is_empty_example =
    unregister_chrdev-is_empty (no_slot ∷ socksys ∷ []) 30 (codes "socksys")
      (λ e. absurd (omega arith)) refl

abbrev take_spx : ℕ → List ℕ → ℕ → ℕ → Option ℕ
take_spx fops path mode flags = if fops == 700 then some 0x1f00 else none

device_runs :
    (find_chrdev take_spx (spx ∷ no_slot ∷ socksys ∷ []) (codes "/dev/spx") 2 0 ≡ some (0x1f00, 0))
    × (find_chrdev take_spx (spx ∷ []) (codes "/etc/spx") 2 0 ≡ none)
    × (unregister_chrdev (spx ∷ socksys ∷ []) 30 (codes "socksys") ≡ some (spx ∷ no_slot ∷ []))
unfolding find_chrdev ask_drivers unregister_chrdev
device_runs = (refl, refl, refl)

-- Formats at 7 and 8, 7 the newer.
abbrev two_links : Links
two_links = record { next = λ p. if p == 0 then 7 else if p == 7 then 8 else 0; prev = λ p. 0 }

two_formats : HasFormats two_links (7 ∷ 8 ∷ [])
two_formats = record {
  formats =
      element 7 (8 ∷ []) (λ e. absurd (omega arith))
        (element 8 [] (λ e. absurd (omega arith)) at_head);
  different = ((λ l. elim l [ inl e ↦ absurd (omega arith) | inr n ↦ n ]), ((λ n. n), tt));
}

not_format : ¬ Listed 9 (7 ∷ 8 ∷ [])
not_format (inl e) = absurd (omega arith)
not_format (inr (inl e)) = absurd (omega arith)
not_format (inr (inr n)) = n

unregister_binfmt-up_to_example :
    Follows
      (unregister_binfmt two_links 7).next
      ((unregister_binfmt two_links 7).next linux_binfmts)
      (7 ∷ [])
unregister_binfmt-up_to_example =
    unregister_binfmt-up_to two_links 7 (7 ∷ 8 ∷ []) two_formats (inl refl)

-- The format at 7 does not know the file, and that at 8 loads it.
abbrev old_binary : System
old_binary = record {
  access = value 0;
  fopen = value 3;
  fstat = value 0;
  is_regular = true;
  read = value 128;
  load_binary = λ p. if p == 7 then error enoexec else value 0;
}

load_binfmt-Ends_example :
    (r : Retval) × (load_binfmt old_binary 3 two_links ≡ some (out true r))
    × Ends old_binary.load_binary (7 ∷ 8 ∷ []) (value 128) r
load_binfmt-Ends_example =
    load_binfmt-Ends old_binary 3 two_links (7 ∷ 8 ∷ []) 0 3 0 two_formats (omega arith) refl refl
      refl refl refl

-- A format that fails ends the search; without formats the number of bytes read is the answer.
binfmt_runs :
    (load_binfmt old_binary 3 two_links ≡ some (out true (value 0)))
    × (load_binfmt (record old_binary { load_binary = λ p. error 12 }) 3 two_links
        ≡ some (out true (error 12)))
    × (load_binfmt old_binary 1 (record { next = λ p. 0; prev = λ p. 0 })
        ≡ some (out true (value 128)))
unfolding load_binfmt try_binfmts
binfmt_runs = (refl, refl, refl)

abbrev small_heap : Mm
small_heap = record {
  brk = 0x8001234;
  brk_mmap_addr = 0x8000000;
  brk_mmap_max = 0x8002000;
  brk_mmap_min = 0x8001000;
  bss_mmap_addr = 0x8001000;
  bss_mmap_len = 0x1000;
  high_mmap_addr = 0x8001000;
  high_mmap_len = 0x1000;
}

heap_lem : IsHeap small_heap
unfolding page_align
heap_lem = record { start = omega arith; end = omega arith }

abbrev grants : ℕ → ℕ → ℕ → ℕ
grants addr old_size new_size = addr

abbrev refuses : ℕ → ℕ → ℕ → ℕ
refuses addr old_size new_size = 2 ^ 32 - 12

do_brk_unchecked_example :
    do_brk grants small_heap 0x8002000 0x3000 ≡ do_brk refuses small_heap 0x8002000 0x3000
do_brk_unchecked_example = do_brk_unchecked grants refuses small_heap 0x8002000 0x3000 (omega arith)

linux26_brk-IsHeap_example : IsHeap (linux26_brk grants small_heap 0x8007777).1
linux26_brk-IsHeap_example = linux26_brk-IsHeap grants small_heap 0x8007777 heap_lem (omega arith)

heap_runs :
    ((linux26_brk grants small_heap 0x8007777).0 ≡ 0x8007777)
    × ((linux26_brk refuses small_heap 0x8007777).1.brk_mmap_max ≡ 0x8008000)
    × ((linux26_brk grants small_heap 0x8000fff).0 ≡ 2 ^ 32 - 12)
    × ((init_brk (λ p. p) small_heap).brk_mmap_min ≡ 0x8001234)
unfolding linux26_brk do_brk page_align init_brk
heap_runs = (refl, refl, refl, refl)

abbrev std_file : File
std_file = record { f_count = 1; f_isopen = true }

abbrev no_files : Table
no_files = record { has_fd = true; max_fds = 4; fd = λ q. none }

no_files-IsTable : IsTable no_files
no_files-IsTable = record {
  inside = λ q file e. absurd (none≢some file e);
  in_use = λ q file e. absurd (none≢some file e);
}

abbrev one_file : Table
one_file = set_file no_files 2 (some std_file)

std_file_used : (x : File) → some std_file ≡ some x → (2 < 4) × InUse x
std_file_used x e =
    let same : std_file ≡ x = cc e in
    (omega arith, subst InUse same (record { used = inr refl; small = omega arith }))

one_file-IsTable : IsTable one_file
one_file-IsTable = set_file-IsTable no_files 2 (some std_file) no_files-IsTable std_file_used

fget-IsTable_example :
    IsTable (fget (λ q. none) (λ q. true) one_file 9)
    × (9 < (fget (λ q. none) (λ q. true) one_file 9).max_fds)
fget-IsTable_example =
    fget-IsTable (λ q. none) (λ q. true) one_file 9 one_file-IsTable refl (omega arith)
      (λ file e. absurd (none≢some file e))

fput-fget_example : (fput (fget (λ q. none) (λ q. true) one_file 2) 2).fd 2 ≡ some std_file
fput-fget_example =
    fput-fget (λ q. none) (λ q. true) one_file 2 std_file one_file-IsTable refl refl (omega arith) 2

-- A second file needs a larger table; closing the first takes it out. For a descriptor of 2 ^ 29 - 1 the size of the
-- table wraps to 0.
file_runs :
    ((fget (λ q. none) (λ q. true) one_file 9).max_fds ≡ 20)
    × ((fget (λ q. none) (λ q. true) one_file 9).fd 9 ≡ some std_file)
    × ((linux26_fclose one_file 2).fd 2 ≡ none)
    × (linux26_fopen (λ q. none) (λ q. true) one_file none ≡ none)
    × ((fget (λ q. none) (λ q. true) one_file 0x1fffffff).max_fds ≡ 0)
unfolding fget grow linux26_fclose fput linux26_fopen
file_runs = (refl, refl, refl, refl, refl)
