-- ===== src/Compat/Domains/Chain.antt =====
-- The chain of domains as a list, and the search of it.
use ibcs_us.Prelude.{
  ℕ, zero, suc, ◌≤◌, ◌<◌, ◌≡◌, ◌≢◌, ◌⊎◌, inl, inr, refl, sym, ◌==◌, false, some, List, [], ◌∷◌,
  length, if◌then◌else◌, bit_and, Bool-cases, arith, ne→==,
}
use ibcs_us.Compat.Domains.{Domains, accepts, lookup_from, lookup_exec_domain, set_next, set_first}

-- The list of the domains from an address on.
pub data IsChain (s : Domains) : ℕ → List ℕ → Type 0 where
  chain_end : IsChain s 0 []
  chain_link :
      (ep : ℕ) (rest : List ℕ) → ep ≢ 0 → IsChain s (s.next ep) rest → IsChain s ep (ep ∷ rest)

-- The domain is in the list.
abbrev pub Listed : ℕ → List ℕ → Type 0
Listed ep [] = ⊥
Listed ep (x ∷ xs) = (ep ≡ x) ⊎ Listed ep xs

-- The domains of a list are different.
abbrev pub AllDifferent : List ℕ → Type 0
AllDifferent [] = Unit
AllDifferent (x ∷ xs) = (¬ Listed x xs) × AllDifferent xs

-- What is registered: the list from the first domain on, without repetition.
pub record Registered (s : Domains) (xs : List ℕ) : Type 0 where
  pub chain : IsChain s s.exec_domains xs
  pub different : AllDifferent xs

-- The personality is one of those the domain is for.
abbrev pub InRange : Domains → ℕ → ℕ → Type 0
InRange s pers ep = (s.pers_low ep ≤ pers) × (pers ≤ s.pers_high ep)

-- A domain is the first of a list that is for a personality; it is 0 if none is.
abbrev pub IsFirstFor : Domains → ℕ → List ℕ → ℕ → Type 0
IsFirstFor s pers [] ep = ep ≡ 0
IsFirstFor s pers (x ∷ xs) ep =
    (InRange s pers x × (ep ≡ x)) ⊎ ((¬ InRange s pers x) × IsFirstFor s pers xs ep)

lookup_from_chain :
    (f : ℕ) (s : Domains) (pers tmp : ℕ) (xs : List ℕ)
    → IsChain s tmp xs
    → length xs < f
    → (ep : ℕ) × (lookup_from f s pers tmp ≡ some ep) × IsFirstFor s pers xs ep
unfolding lookup_from
lookup_from_chain zero s pers tmp xs c h = absurd (omega arith)
lookup_from_chain (suc f) s pers tmp xs chain_end h = (0, refl, refl)
lookup_from_chain (suc f) s pers tmp xs (chain_link tmp' rest nonnull c) h =
    let (ep, found, first) = lookup_from_chain f s pers (s.next tmp) rest c (omega arith) in
    let e : (tmp == 0) ≡ false = ne→== tmp 0 nonnull in
    elim (Bool-cases (accepts s pers tmp)) [
      | inl yes_it ↦ (tmp, (rw (e, yes_it) refl), inl ((ground arith, ground arith), refl))
      | inr no_it ↦ (ep, (rw (e, no_it) found), inr ((λ r. ground (arith, r.0, r.1)), first))
    ]

-- lookup_exec_domain returns the first domain registered that has pers_low ≤ p and p ≤ pers_high for p the low
-- byte of the personality, and NULL where there is none, if the fuel is more than the domains registered.
pub lookup_exec_domain_lem :
    (f : ℕ) (s : Domains) (personality : ℕ) (xs : List ℕ)
    → Registered s xs
    → length xs < f
    → (ep : ℕ) × (lookup_exec_domain f s personality ≡ some ep)
      × IsFirstFor s (bit_and personality 0xff) xs ep
unfolding lookup_exec_domain
lookup_exec_domain_lem f s personality xs r h =
    lookup_from_chain f s (bit_and personality 0xff) s.exec_domains xs r.chain h

-- The chain does not change when `next` is set for a domain that is not in it.
pub set_next-IsChain :
    (s : Domains) (p to ep : ℕ) (xs : List ℕ)
    → ¬ Listed p xs
    → IsChain s ep xs
    → IsChain (set_next s p to) ep xs
set_next-IsChain s p to ep xs out chain_end = chain_end
set_next-IsChain s p to ep xs out (chain_link ep' rest nonnull c) =
    let ih = set_next-IsChain s p to (s.next ep) rest (λ l. out (inr l)) c in
    let ne : ep ≢ p = λ e. out (inl (sym e)) in
    let same : (if ep == p then to else s.next ep) ≡ s.next ep = (rw (ne→== ep p ne) refl) in
    chain_link ep rest nonnull (rw same ih)

-- Nor when the first domain is.
pub set_first-IsChain :
    (s : Domains) (to ep : ℕ) (xs : List ℕ) → IsChain s ep xs → IsChain (set_first s to) ep xs
set_first-IsChain s to ep xs chain_end = chain_end
set_first-IsChain s to ep xs (chain_link ep' rest nonnull c) =
    chain_link ep rest nonnull (set_first-IsChain s to (s.next ep) rest c)
