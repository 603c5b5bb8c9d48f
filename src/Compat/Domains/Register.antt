-- ===== src/Compat/Domains/Register.antt =====
-- register_exec_domain on the list of the domains.
use ibcs_us.Prelude.{
  ℕ, zero, suc, ◌<◌, ◌≡◌, ◌≢◌, inl, inr, refl, sym, ◌==◌, ◌!=◌, true, false, some, List, ◌∷◌,
  length, if◌then◌else◌, Bool-cases, arith, eq→==, ne→==,
}
use ibcs_us.Compat.{success, failure, ebusy}
use ibcs_us.Compat.Domains.{
  Domains, is_listed, put_first, register_exec_domain, set_next, set_first,
}
use ibcs_us.Compat.Domains.Chain.{
  IsChain, chain_end, chain_link, Listed, Registered, set_next-IsChain, set_first-IsChain,
}

is_listed-true :
    (f : ℕ) (s : Domains) (ep tmp : ℕ) (xs : List ℕ)
    → IsChain s tmp xs
    → length xs < f
    → Listed ep xs
    → is_listed f s ep tmp ≡ some true
unfolding is_listed
is_listed-true zero s ep tmp xs c h l = absurd (omega arith)
is_listed-true (suc f) s ep tmp xs chain_end h l = absurd l
is_listed-true (suc f) s ep tmp xs (chain_link tmp' rest nonnull c) h l =
    let e = ne→== tmp 0 nonnull in
    elim l [
      | inl here ↦ let e' : (tmp == ep) ≡ true = eq→== tmp ep (sym here) in rw (e, e') refl
      | inr there ↦
          let ih = is_listed-true f s ep (s.next tmp) rest c (omega arith) there in
          elim (Bool-cases (tmp == ep)) [
            | inl this_one ↦ rw (e, this_one) refl
            | inr other ↦ rw (e, other) ih
          ]
    ]

is_listed-false :
    (f : ℕ) (s : Domains) (ep tmp : ℕ) (xs : List ℕ)
    → IsChain s tmp xs
    → length xs < f
    → ¬ Listed ep xs
    → is_listed f s ep tmp ≡ some false
unfolding is_listed
is_listed-false zero s ep tmp xs c h l = absurd (omega arith)
is_listed-false (suc f) s ep tmp xs chain_end h l = refl
is_listed-false (suc f) s ep tmp xs (chain_link tmp' rest nonnull c) h l =
    let e = ne→== tmp 0 nonnull in
    let e' : (tmp == ep) ≡ false = ne→== tmp ep (λ same. l (inl (sym same))) in
    let ih = is_listed-false f s ep (s.next tmp) rest c (omega arith) (λ there. l (inr there)) in
    rw (e, e') ih

-- A domain that is registered is refused, the last of the list too, whose `next` is NULL.
pub register_exec_domain-Listed :
    (f : ℕ) (s : Domains) (ep : ℕ) (xs : List ℕ)
    → Registered s xs
    → length xs < f
    → ep ≢ 0
    → Listed ep xs
    → register_exec_domain f s ep ≡ some (failure ebusy, s)
unfolding register_exec_domain put_first
register_exec_domain-Listed f s ep xs r h nonnull l =
    let e = ne→== ep 0 nonnull in
    let found = is_listed-true f s ep s.exec_domains xs r.chain h l in
    elim (Bool-cases (s.next ep != 0)) [
      | inl linked ↦ rw (e, linked) refl
      | inr last ↦ rw (e, last, found) refl
    ]

-- A domain that is not registered and is linked to no other goes in front of those that are.
pub register_exec_domain-Registered :
    (f : ℕ) (s : Domains) (ep : ℕ) (xs : List ℕ)
    → Registered s xs
    → length xs < f
    → ep ≢ 0
    → s.next ep ≡ 0
    → ¬ Listed ep xs
    → (s' : Domains) × (register_exec_domain f s ep ≡ some (success, s')) × Registered s' (ep ∷ xs)
unfolding register_exec_domain put_first
register_exec_domain-Registered f s ep xs r h nonnull unlinked l =
    let e = ne→== ep 0 nonnull in
    let e' : (s.next ep != 0) ≡ false = ground arith in
    let missing = is_listed-false f s ep s.exec_domains xs r.chain h l in
    let s' = set_first (set_next s ep s.exec_domains) ep in
    let c : IsChain s' s.exec_domains xs =
      set_first-IsChain (set_next s ep s.exec_domains) ep s.exec_domains xs
        (set_next-IsChain s ep s.exec_domains s.exec_domains xs l r.chain) in
    let here : (if ep == ep then s.exec_domains else s.next ep) ≡ s.exec_domains = ground arith in
    let c' : IsChain s' (s'.next ep) xs = (rw here c) in
    (
      s',
      (rw (e, e', missing) refl),
      record { chain = chain_link ep xs nonnull c'; different = (l, r.different) },
    )
