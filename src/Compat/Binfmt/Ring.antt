-- ===== src/Compat/Binfmt/Ring.antt =====
-- The formats in the order of the list, what registering does to it, and what loading makes of it.
use ibcs_us.Prelude.{
  ℕ, zero, suc, ◌<◌, ◌≡◌, ◌≢◌, ◌⊎◌, inl, inr, refl, sym, ◌==◌, true, some, List, [], ◌∷◌, length,
  if◌then◌else◌, Bool-cases, arith, ne→==, eq→==, ==→ne, ==→eq,
}
use ibcs_us.Compat.Domains.Chain.{Listed, AllDifferent}
use ibcs_us.Compat.Binfmt.{
  Links, linux_binfmts, set, register_binfmt, unregister_binfmt, Retval, value, error, try_binfmts,
  System, out, load_binfmt,
}

-- The elements from an address on, up to the head.
pub data Follows (next : ℕ → ℕ) : ℕ → List ℕ → Type 0 where
  at_head : Follows next linux_binfmts []
  element :
      (p : ℕ) (rest : List ℕ)
      → p ≢ linux_binfmts
      → Follows next (next p) rest
      → Follows next p (p ∷ rest)

-- The formats registered, in the order of the list.
pub record HasFormats (l : Links) (xs : List ℕ) : Type 0 where
  pub formats : Follows l.next (l.next linux_binfmts) xs
  pub different : AllDifferent xs

Follows-set :
    (next : ℕ → ℕ) (p to q : ℕ) (xs : List ℕ)
    → ¬ Listed p xs
    → Follows next q xs
    → Follows (set next p to) q xs
Follows-set next p to q xs o at_head = at_head
Follows-set next p to q xs o (element q' rest n c) =
    let ne : q ≢ p = λ e. o (inl (sym e)) in
    let same : set next p to q ≡ next q = (rw (ne→== q p ne) refl) in
    element q rest n (rw same (Follows-set next p to (next q) rest (λ l. o (inr l)) c))

-- The head is no element.
Follows-not_head :
    (next : ℕ → ℕ) (p : ℕ) (xs : List ℕ) → Follows next p xs → ¬ Listed linux_binfmts xs
Follows-not_head next p xs at_head l = l
Follows-not_head next p xs (element p' rest n c) (inl here) = n (sym here)
Follows-not_head next p xs (element p' rest n c) (inr there) =
    Follows-not_head next (next p) rest c there

-- A new format comes before those that are registered.
pub register_binfmt-HasFormats :
    (l : Links) (binfmt : ℕ) (xs : List ℕ)
    → HasFormats l xs
    → binfmt ≢ linux_binfmts
    → ¬ Listed binfmt xs
    → HasFormats (register_binfmt l binfmt) (binfmt ∷ xs)
unfolding register_binfmt
register_binfmt-HasFormats l binfmt xs h n new =
    let first = l.next linux_binfmts in
    let c = Follows-set l.next binfmt first first xs new h.formats in
    let c' =
      Follows-set (set l.next binfmt first) linux_binfmts binfmt first xs
        (Follows-not_head l.next first xs h.formats) c in
    let e1 = ne→== binfmt linux_binfmts n in
    let e2 : (binfmt == binfmt) ≡ true = eq→== binfmt binfmt refl in
    let c'' : Follows (register_binfmt l binfmt).next ((register_binfmt l binfmt).next binfmt) xs =
      (rw (e1, e2) c') in
    record { formats = element binfmt xs n c''; different = (new, h.different) }

-- The list up to an element, with that.
abbrev pub up_to : ℕ → List ℕ → List ℕ
up_to p [] = []
up_to p (x ∷ xs) = if x == p then x ∷ [] else x ∷ up_to p xs

Follows-up_to :
    (next : ℕ → ℕ) (p q : ℕ) (xs : List ℕ)
    → Follows next q xs
    → Listed p xs
    → Follows (set next p linux_binfmts) q (up_to p xs)
Follows-up_to next p q xs at_head l = absurd l
Follows-up_to next p q xs (element q' rest n c) l = elim (Bool-cases (q == p)) [
  | inl here ↦
      let cut : Follows (set next p linux_binfmts) (set next p linux_binfmts q) [] =
        (rw here at_head) in
      rw here (element q [] n cut)
  | inr other ↦
      let l' : Listed p rest = (elim l [
        | inl e ↦ absurd (==→ne q p other (sym e))
        | inr there ↦ there
      ]) in
      let same : set next p linux_binfmts q ≡ next q = (rw other refl) in
      let ih : Follows (set next p linux_binfmts) (set next p linux_binfmts q) (up_to p rest) =
        (rw same (Follows-up_to next p (next q) rest c l')) in
      rw other (element q (up_to p rest) n ih)
]

-- unregister_binfmt leaves the format in the list, and takes out those that were registered before it.
pub unregister_binfmt-up_to :
    (l : Links) (binfmt : ℕ) (xs : List ℕ)
    → HasFormats l xs
    → Listed binfmt xs
    → Follows
        (unregister_binfmt l binfmt).next
        ((unregister_binfmt l binfmt).next linux_binfmts)
        (up_to binfmt xs)
unfolding unregister_binfmt
unregister_binfmt-up_to l binfmt xs h m =
    let ne : linux_binfmts ≢ binfmt =
      λ e. Follows-not_head l.next (l.next linux_binfmts) xs h.formats (rw e m) in
    let e = ne→== linux_binfmts binfmt ne in
    rw e (Follows-up_to l.next binfmt (l.next linux_binfmts) xs h.formats m)

Retval-cases : (r : Retval) → ((n : ℕ) × (r ≡ value n)) ⊎ ((n : ℕ) × (r ≡ error n))
Retval-cases (value n) = inl (n, refl)
Retval-cases (error n) = inr (n, refl)

-- What load_binfmt makes of the answers of the formats, in their order, after it had `retval`: it goes on
-- past the error 8, which is ENOEXEC, to the next format, and ends with any other answer.
pub data Ends (load_binary : ℕ → Retval) : List ℕ → Retval → Retval → Type 0 where
  no_more : (retval : Retval) → Ends load_binary [] retval retval
  gone_on :
      (x : ℕ) (xs : List ℕ) (retval r : Retval)
      → load_binary x ≡ error 8
      → Ends load_binary xs (error 8) r
      → Ends load_binary (x ∷ xs) retval r
  loaded :
      (x : ℕ) (xs : List ℕ) (retval : Retval) (n : ℕ)
      → load_binary x ≡ value n
      → Ends load_binary (x ∷ xs) retval (value n)
  failed :
      (x : ℕ) (xs : List ℕ) (retval : Retval) (n : ℕ)
      → load_binary x ≡ error n
      → n ≢ 8
      → Ends load_binary (x ∷ xs) retval (error n)

try_binfmts-Ends :
    (load_binary : ℕ → Retval) (f : ℕ) (l : Links) (pos : ℕ) (retval : Retval) (xs : List ℕ)
    → Follows l.next pos xs
    → length xs < f
    → (r : Retval) × (try_binfmts load_binary f l pos retval ≡ some r)
      × Ends load_binary xs retval r
unfolding try_binfmts
try_binfmts-Ends load_binary zero l pos retval xs c h = absurd (omega arith)
try_binfmts-Ends load_binary (suc f) l pos retval xs at_head h = (retval, refl, no_more retval)
try_binfmts-Ends load_binary (suc f) l pos retval xs (element p' rest n c) h =
    let e = ne→== pos linux_binfmts n in
    elim (Retval-cases (load_binary pos)) [
      | inl (v, is_value) ↦ (value v, (rw (e, is_value) refl), loaded pos rest retval v is_value)
      | inr (v, is_error) ↦ elim (Bool-cases (v == 8)) [
        | inl next_one ↦
            let enoexec_there : load_binary pos ≡ error 8 =
              (rw is_error (rw (==→eq v 8 next_one) refl)) in
            let (r, eq, ends) =
              try_binfmts-Ends load_binary f l (l.next pos) (error 8) rest c (omega arith) in
            (r, (rw (e, enoexec_there) eq), gone_on pos rest retval r enoexec_there ends)
        | inr this_one ↦ (
          error v,
          (rw (e, is_error, this_one) refl),
          failed pos rest retval v is_error (==→ne v 8 this_one),
        )
      ]
    ]

-- Once the file was opened and its first 128 bytes were read, load_binfmt goes through the formats, the newest
-- first, past each that answers ENOEXEC; it closes the file and returns the first other answer, a value or
-- an error. It returns ENOEXEC if all answer that, and the 128 that were read if there is no format.
pub load_binfmt-Ends :
    (sys : System) (f : ℕ) (l : Links) (xs : List ℕ) (a o s : ℕ)
    → HasFormats l xs
    → length xs < f
    → sys.access ≡ value a
    → sys.fopen ≡ value o
    → sys.fstat ≡ value s
    → sys.is_regular ≡ true
    → sys.read ≡ value 128
    → (r : Retval) × (load_binfmt sys f l ≡ some (out true r))
      × Ends sys.load_binary xs (value 128) r
unfolding load_binfmt
load_binfmt-Ends sys f l xs a o s h enough ea eo es er ed =
    let (r, e, ends) =
      try_binfmts-Ends sys.load_binary f l (l.next linux_binfmts) (value 128) xs h.formats enough in
    (r, (rw (ea, eo, es, ed, er, e) refl), ends)
