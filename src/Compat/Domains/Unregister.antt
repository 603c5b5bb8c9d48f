-- ===== src/Compat/Domains/Unregister.antt =====
-- unregister_exec_domain on the list of the domains.
use ibcs_us.Prelude.{
  ℕ, zero, suc, ◌<◌, ◌≡◌, ◌≢◌, ◌⊎◌, inl, inr, refl, sym, ◌==◌, true, false, some, none, List, [],
  ◌∷◌, length, if◌then◌else◌, Bool-cases, arith, ==→eq, ==→ne, eq→==, ne→==,
}
use ibcs_us.Compat.{success, failure, einval}
use ibcs_us.Compat.Domains.{
  Domains, Place, at_head, next_of, pointer_at, set_pointer, find_place, take_out,
  unregister_exec_domain, set_next,
}
use ibcs_us.Compat.Domains.Chain.{
  IsChain, chain_end, chain_link, Listed, AllDifferent, Registered, set_next-IsChain,
  set_first-IsChain,
}

-- The list without a domain.
abbrev pub without : ℕ → List ℕ → List ℕ
without ep [] = []
without ep (x ∷ xs) = if x == ep then xs else x ∷ without ep xs

Listed-without : (y ep : ℕ) (xs : List ℕ) → Listed y (without ep xs) → Listed y xs
Listed-without y ep [] l = l
Listed-without y ep (x ∷ xs) l = elim (Bool-cases (x == ep)) [
  | inl gone ↦ let l' : Listed y xs = (rw gone at l) in inr l'
  | inr stays ↦
      let l' : (y ≡ x) ⊎ Listed y (without ep xs) = (rw stays at l) in
      elim l' [ inl here ↦ inl here | inr there ↦ inr (Listed-without y ep xs there) ]
]

AllDifferent-without : (ep : ℕ) (xs : List ℕ) → AllDifferent xs → AllDifferent (without ep xs)
AllDifferent-without ep [] d = d
AllDifferent-without ep (x ∷ xs) (out, d) = elim (Bool-cases (x == ep)) [
  | inl gone ↦ rw gone d
  | inr stays ↦ rw stays ((λ l. out (Listed-without x ep xs l)), AllDifferent-without ep xs d)
]

Listed-without_same : (ep : ℕ) (xs : List ℕ) → AllDifferent xs → ¬ Listed ep (without ep xs)
Listed-without_same ep [] d l = l
Listed-without_same ep (x ∷ xs) (out, d) l = elim (Bool-cases (x == ep)) [
  | inl gone ↦
      let l' : Listed ep xs = (rw gone at l) in let e : x ≡ ep = ==→eq x ep gone in out (rw e l')
  | inr stays ↦
      let l' : (ep ≡ x) ⊎ Listed ep (without ep xs) = (rw stays at l) in
      elim l' [
        | inl here ↦ ==→ne x ep stays (sym here)
        | inr there ↦ Listed-without_same ep xs d there
      ]
]

-- The place is not in a domain of the list.
abbrev Outside : Place → List ℕ → Type 0
Outside at_head xs = Unit
Outside (next_of p) xs = ¬ Listed p xs

-- What the loop finds: the place itself or one in a domain of the list.
abbrev Within : Place → Place → List ℕ → Type 0
Within q place xs = (q ≡ place) ⊎ ((y : ℕ) × (q ≡ next_of y) × Listed y xs)

pointer_at-Outside :
    (s : Domains) (place : Place) (y to : ℕ) (xs : List ℕ)
    → Outside place xs
    → Listed y xs
    → pointer_at (set_next s y to) place ≡ pointer_at s place
pointer_at-Outside s at_head y to xs o l = refl
pointer_at-Outside s (next_of p) y to xs o l =
    let ne : p ≢ y = λ e. o (rw e l) in rw (ne→== p y ne) refl

set_pointer-IsChain :
    (s : Domains) (place : Place) (to ep : ℕ) (xs : List ℕ)
    → Outside place xs
    → IsChain s ep xs
    → IsChain (set_pointer s place to) ep xs
set_pointer-IsChain s at_head to ep xs o c = set_first-IsChain s to ep xs c
set_pointer-IsChain s (next_of p) to ep xs o c = set_next-IsChain s p to ep xs o c

pointer_at-set_pointer :
    (s : Domains) (place : Place) (to : ℕ) → pointer_at (set_pointer s place to) place ≡ to
pointer_at-set_pointer s at_head to = refl
pointer_at-set_pointer s (next_of p) to = ground arith

Outside-rest : (place : Place) (x : ℕ) (xs : List ℕ) → Outside place (x ∷ xs) → Outside place xs
Outside-rest at_head x xs o = o
Outside-rest (next_of p) x xs o = λ l. o (inr l)

-- A place in the domains of a list leaves alone what is outside of it.
pointer_at-Within :
    (s : Domains) (place q : Place) (x to : ℕ) (xs : List ℕ)
    → Outside place (x ∷ xs)
    → Within q (next_of x) xs
    → pointer_at (set_pointer s q to) place ≡ pointer_at s place
pointer_at-Within s place q x to xs o (inl e) =
    rw e (pointer_at-Outside s place x to (x ∷ xs) o (inl refl))
pointer_at-Within s place q x to xs o (inr (y, e, l)) =
    rw e (pointer_at-Outside s place y to (x ∷ xs) o (inr l))

-- The chain from the place on, once the pointer that the loop stops at is set.
abbrev Removed : Domains → ℕ → Place → Place → List ℕ → Type 0
Removed s ep place q xs =
    IsChain (set_pointer s q (s.next ep)) (pointer_at (set_pointer s q (s.next ep)) place)
      (without ep xs)

find_place-Removed :
    (f : ℕ) (s : Domains) (ep tmp : ℕ) (place : Place) (xs : List ℕ)
    → Outside place xs
    → pointer_at s place ≡ tmp
    → IsChain s tmp xs
    → AllDifferent xs
    → length xs < f
    → Listed ep xs
    → (q : Place) × (find_place f s ep place ≡ some (some q))
      × Within q place xs
      × Removed s ep place q xs
unfolding find_place
find_place-Removed zero s ep tmp place xs o at c d h l = absurd (omega arith)
find_place-Removed (suc f) s ep tmp place xs o at chain_end d h l = absurd l
find_place-Removed (suc f) s ep tmp place xs o at (chain_link tmp' rest nonnull c) (out, d) h l =
    elim (Bool-cases (ep == tmp)) [
      | inl this_one ↦
          let e : ep ≡ tmp = ==→eq ep tmp this_one in
          let e' : (tmp == ep) ≡ true = eq→== tmp ep (sym e) in
          let c' : IsChain s (s.next ep) rest = (rw e c) in
          let removed =
            set_pointer-IsChain s place (s.next ep) (s.next ep) rest (Outside-rest place tmp rest o)
              c' in
          let to = pointer_at-set_pointer s place (s.next ep) in
          (place, (rw (at, this_one) refl), inl refl, (rw (e', to) removed))
      | inr other ↦
          let ne = ==→ne ep tmp other in
          let e' : (tmp == ep) ≡ false = ne→== tmp ep (λ same. ne (sym same)) in
          let l' : Listed ep rest = (elim l [ inl here ↦ absurd (ne here) | inr there ↦ there ]) in
          let (q, found, w, r) =
            find_place-Removed f s ep (s.next tmp) (next_of tmp) rest out refl c d (omega arith)
              l' in
          let w' : (y : ℕ) × (q ≡ next_of y) × Listed y (tmp ∷ rest) = (elim w [
            | inl e ↦ (tmp, e, inl refl)
            | inr (y, e, m) ↦ (y, e, inr m)
          ]) in
          let start = pointer_at-Within s place q tmp (s.next ep) rest o w in
          let nn = ne→== tmp 0 nonnull in
          (
            q,
            (rw (at, other, nn) found),
            inr w',
            (rw (e', start, at) (chain_link tmp (without ep rest) nonnull r)),
          )
    ]

-- A domain that is registered is taken out of the list, and is linked to no other then.
pub unregister_exec_domain-Registered :
    (f : ℕ) (s : Domains) (ep : ℕ) (xs : List ℕ)
    → Registered s xs
    → length xs < f
    → Listed ep xs
    → (s' : Domains) × (unregister_exec_domain f s ep ≡ some (success, s'))
      × Registered s' (without ep xs)
      × (s'.next ep ≡ 0)
unfolding unregister_exec_domain take_out
unregister_exec_domain-Registered f s ep xs r h l =
    let (q, found, w, c) =
      find_place-Removed f s ep s.exec_domains at_head xs tt refl r.chain r.different h l in
    let s1 = set_pointer s q (s.next ep) in
    let gone = Listed-without_same ep xs r.different in
    let c' = set_next-IsChain s1 ep 0 s1.exec_domains (without ep xs) gone c in
    (
      set_next s1 ep 0,
      (rw found refl),
      record { chain = c'; different = AllDifferent-without ep xs r.different },
      ground arith,
    )

find_place_missing :
    (f : ℕ) (s : Domains) (ep tmp : ℕ) (place : Place) (xs : List ℕ)
    → ep ≢ 0
    → pointer_at s place ≡ tmp
    → IsChain s tmp xs
    → length xs < f
    → ¬ Listed ep xs
    → find_place f s ep place ≡ some none
unfolding find_place
find_place_missing zero s ep tmp place xs n at c h l = absurd (omega arith)
find_place_missing (suc f) s ep tmp place xs n at chain_end h l = rw (at, ne→== ep 0 n) refl
find_place_missing (suc f) s ep tmp place xs n at (chain_link tmp' rest nonnull c) h l =
    let ne = ne→== ep tmp (λ e. l (inl e)) in
    let nn = ne→== tmp 0 nonnull in
    let ih =
      find_place_missing f s ep (s.next tmp) (next_of tmp) rest n refl c (omega arith)
        (λ m. l (inr m)) in
    rw (at, ne, nn) ih

-- A domain that is not registered is an error, and nothing changes.
pub unregister_exec_domain_missing :
    (f : ℕ) (s : Domains) (ep : ℕ) (xs : List ℕ)
    → Registered s xs
    → length xs < f
    → ep ≢ 0
    → ¬ Listed ep xs
    → unregister_exec_domain f s ep ≡ some (failure einval, s)
unfolding unregister_exec_domain take_out
unregister_exec_domain_missing f s ep xs r h n l =
    rw (find_place_missing f s ep s.exec_domains at_head xs n refl r.chain h l) refl
