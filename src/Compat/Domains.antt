-- ===== src/Compat/Domains.antt =====
-- The execution domains: a list linked through `next`, in memory. A domain is its address; 0 is NULL. A
-- loop along the list takes fuel.
pub mod Chain
pub mod Register
pub mod Unregister
use ibcs_us.Prelude.{
  ℕ, zero, suc, ◌+◌, ◌*◌, ◌==◌, ◌!=◌, ◌&&◌, Bool, true, false, Option, none, some, leb,
  if◌then◌else◌, bit_and,
}
use ibcs_us.Compat.{Outcome, success, failure, ebusy, einval}

-- The parts of `struct exec_domain` that are read, by the domain's address.
pub record Domains : Type 0 where
  pub exec_domains : ℕ
  pub next : ℕ → ℕ
  pub pers_low : ℕ → ℕ
  pub pers_high : ℕ → ℕ

abbrev pub accepts : Domains → ℕ → ℕ → Bool
accepts s pers ep = leb (s.pers_low ep) pers && leb pers (s.pers_high ep)

abbrev pub set_next : Domains → ℕ → ℕ → Domains
set_next s ep to = record {
  exec_domains = s.exec_domains;
  next = λ p. if p == ep then to else s.next p;
  pers_low = s.pers_low;
  pers_high = s.pers_high;
}

abbrev pub set_first : Domains → ℕ → Domains
set_first s to = record {
  exec_domains = to;
  next = s.next;
  pers_low = s.pers_low;
  pers_high = s.pers_high;
}

-- The loop of lookup_exec_domain, from `ep` on.
unfoldable pub lookup_from : ℕ → Domains → ℕ → ℕ → Option ℕ
lookup_from zero s pers ep = none
lookup_from (suc f) s pers ep =
    let more = lookup_from f s pers (s.next ep) in
    if ep == 0 then some 0 else if accepts s pers ep then some ep else more

unfoldable pub lookup_exec_domain : ℕ → Domains → ℕ → Option ℕ
unfolding lookup_from
lookup_exec_domain f s personality = lookup_from f s (bit_and personality 0xff) s.exec_domains

-- The loop of register_exec_domain: is the domain there from `tmp` on?
unfoldable pub is_listed : ℕ → Domains → ℕ → ℕ → Option Bool
is_listed zero s ep tmp = none
is_listed (suc f) s ep tmp =
    let more = is_listed f s ep (s.next tmp) in
    if tmp == 0 then some false else if tmp == ep then some true else more

-- The domain goes to the front, if it is not there.
unfoldable pub put_first : Domains → ℕ → Option Bool → Option (Outcome × Domains)
put_first s ep none = none
put_first s ep (some true) = some (failure ebusy, s)
put_first s ep (some false) = some (success, set_first (set_next s ep s.exec_domains) ep)

unfoldable pub register_exec_domain : ℕ → Domains → ℕ → Option (Outcome × Domains)
unfolding is_listed put_first
register_exec_domain f s ep =
    if ep == 0
    then some (failure einval, s)
    else if s.next ep != 0
    then some (failure ebusy, s)
    else put_first s ep (is_listed f s ep s.exec_domains)

-- Where the pointer to a domain stands: `epp` of unregister_exec_domain.
pub data Place : Type 0 where
  at_head : Place
  next_of : ℕ → Place

abbrev pub pointer_at : Domains → Place → ℕ
pointer_at s at_head = s.exec_domains
pointer_at s (next_of p) = s.next p

abbrev pub set_pointer : Domains → Place → ℕ → Domains
set_pointer s at_head to = set_first s to
set_pointer s (next_of p) to = set_next s p to

-- The loop of unregister_exec_domain: `some none` is its return of an error.
unfoldable pub find_place : ℕ → Domains → ℕ → Place → Option (Option Place)
find_place zero s ep epp = none
find_place (suc f) s ep epp =
    let more = find_place f s ep (next_of (pointer_at s epp)) in
    if ep == pointer_at s epp
    then some (some epp)
    else if pointer_at s epp == 0
    then some none
    else more

-- The domain is taken out at its place.
unfoldable pub take_out : Domains → ℕ → Option (Option Place) → Option (Outcome × Domains)
take_out s ep none = none
take_out s ep (some none) = some (failure einval, s)
take_out s ep (some (some epp)) = some (success, set_next (set_pointer s epp (s.next ep)) ep 0)

unfoldable pub unregister_exec_domain : ℕ → Domains → ℕ → Option (Outcome × Domains)
unfolding find_place take_out
unregister_exec_domain f s ep = take_out s ep (find_place f s ep at_head)

-- The task: the domain and the personality it runs with.
pub record Task : Type 0 where
  pub exec_domain : ℕ
  pub personality : ℕ

abbrev pub run_as : ℕ → Option ℕ → Option Task
run_as pers none = none
run_as pers (some ep) = some (record { exec_domain = ep; personality = pers })

unfoldable pub set_personality : ℕ → Domains → ℕ → Option Task
unfolding lookup_exec_domain
set_personality f s pers = run_as pers (lookup_exec_domain f s pers)
