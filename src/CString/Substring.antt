-- ===== src/CString/Substring.antt =====
-- `strstr` of ibcs/ibcs-lib.c: where one string stands in another.
use ibcs_us.Prelude.{
  ℕ, zero, suc, ◌+◌, ◌<◌, ◌≡◌, ◌≢◌, refl, List, [], ◌∷◌, ◌++◌, Option, none, some, if◌then◌else◌,
  ◌==◌, length, arith, ap, Bool, true, false, ◌&&◌, inl, inr, Bool-cases, Option-cases, ◌⊎◌, ◌∙◌,
  length-append,
}
use ibcs_us.Memory.{Memory, IsStringAt}
use ibcs_us.CString.{match_length, strstr}

-- Whether `ns` begins `bs`.
abbrev pub is_prefix : List ℕ → List ℕ → Bool
is_prefix [] bs = true
is_prefix (n ∷ ns) [] = false
is_prefix (n ∷ ns) (b ∷ bs) = n == b && is_prefix ns bs

-- The first place, counted from `i`, at which `ns` begins what is left of a string; the end of the
-- string is no such place.
abbrev pub substring_from : ℕ → List ℕ → List ℕ → Option ℕ
substring_from i ns [] = none
substring_from i ns (b ∷ bs) =
    if is_prefix ns (b ∷ bs) then some i else substring_from (i + 1) ns bs

-- The inner loop of `strstr` stops at the needle's NUL exactly if the needle is a prefix.
match_length_lem :
    (f : ℕ) (m : Memory) (s n i si ni : ℕ) (bs ns : List ℕ)
    → si ≡ s + i
    → ni ≡ n + i
    → IsStringAt m si bs
    → IsStringAt m ni ns
    → length ns < f
    → (j : ℕ) × (match_length f m s n i ≡ some j) × ((m (n + j) == 0) ≡ is_prefix ns bs)
unfolding match_length
match_length_lem zero m s n i si ni bs ns es en hb hn lt = absurd (omega arith)
match_length_lem (suc f) m s n i si ni bs [] es en hb hn lt = (i, ground arith, ground arith)
match_length_lem (suc f) m s n i si ni [] (c ∷ ns) es en hb (e, nz, hn) lt =
    (i, ground arith, ground arith)
match_length_lem (suc f) m s n i si ni (b ∷ bs) (c ∷ ns) es en (eb, nzb, hb) (e, nz, hn) lt =
    let es' : si + 1 ≡ s + (i + 1) = omega arith in
    let en' : ni + 1 ≡ n + (i + 1) = omega arith in
    let lt' : length ns < f = omega arith in
    let (j, p, q) = match_length_lem f m s n (i + 1) (si + 1) (ni + 1) bs ns es' en' hb hn lt' in
    elim (Bool-cases (c == b)) [
      | inl same ↦ (j, ground arith, ground arith)
      | inr differ ↦ (i, ground arith, ground arith)
    ]

-- On two strings `strstr` ends, with fuel above their lengths, and returns the address of the first
-- place of the haystack, its end excluded, at which the needle begins; or the null pointer.
pub strstr-substring :
    (f k : ℕ) (m : Memory) (s n : ℕ) (bs ns : List ℕ)
    → IsStringAt m s bs
    → IsStringAt m n ns
    → length bs < f
    → length ns < k
    → strstr f k m s n ≡ some (substring_from s ns bs)
unfolding strstr
strstr-substring zero k m s n bs ns hb hn lf lk = absurd (omega arith)
strstr-substring (suc f) k m s n [] ns hb hn lf lk = ground arith
strstr-substring (suc f) k m s n (b ∷ bs) ns (eb, nzb, hb) hn lf lk =
    let es : s ≡ s + 0 = omega arith in
    let en : n ≡ n + 0 = omega arith in
    let (j, p, q) = match_length_lem k m s n 0 s n (b ∷ bs) ns es en (eb, nzb, hb) hn lk in
    ground (arith, strstr-substring f k m (s + 1) n bs ns hb hn)

-- What the specification of `strstr` says: at the place that is found the needle stands, and where
-- none is found the needle stands nowhere before the end.
pub is_prefix-append : (ns rest : List ℕ) → is_prefix ns (ns ++ rest) ≡ true
is_prefix-append [] rest = refl
is_prefix-append (n ∷ ns) rest = ground (arith, is_prefix-append ns rest)

pub is_prefix→append :
    (ns bs : List ℕ) → is_prefix ns bs ≡ true → (rest : List ℕ) × (bs ≡ ns ++ rest)
is_prefix→append [] bs h = (bs, refl)
is_prefix→append (n ∷ ns) [] h = absurd (cc)
is_prefix→append (n ∷ ns) (b ∷ bs) h =
    let t : is_prefix ns bs ≡ true = ground arith in
    let (rest, e) = is_prefix→append ns bs t in (rest, ground arith)

pub substring_from_found :
    (i p : ℕ) (ns bs : List ℕ)
    → substring_from i ns bs ≡ some p
    → (front back : List ℕ) × (bs ≡ front ++ (ns ++ back)) × (p ≡ i + length front)
substring_from_found i p ns [] h = absurd (cc)
substring_from_found i p ns (b ∷ bs) h = elim (Bool-cases (is_prefix ns (b ∷ bs))) [
  | inl here ↦ let (rest, e) = is_prefix→append ns (b ∷ bs) here in ([], rest, e, ground arith)
  | inr later ↦
      let t : substring_from (i + 1) ns bs ≡ some p = ground arith in
      let (front, back, e, q) = substring_from_found (i + 1) p ns bs t in
      (b ∷ front, back, ap (λ r. b ∷ r) e, omega arith)
]

substring_from_here :
    (i : ℕ) (ns bs : List ℕ) → bs ≢ [] → is_prefix ns bs ≡ true → substring_from i ns bs ≡ some i
substring_from_here i ns [] ne h = absurd (ne refl)
substring_from_here i ns (b ∷ bs) ne h = ground arith

pub substring_from-none :
    (i : ℕ) (ns front back : List ℕ)
    → ns ++ back ≢ []
    → substring_from i ns (front ++ (ns ++ back)) ≢ none
substring_from-none i ns [] back ne h =
    cc (substring_from_here i ns (ns ++ back) ne (is_prefix-append ns back))
substring_from-none i ns (b ∷ front) back ne h =
    ground (arith, substring_from-none (i + 1) ns front back ne)

-- `ns` stands in `bs`, `i` bytes from its start.
abbrev pub OccursAt : List ℕ → List ℕ → ℕ → Type 0
OccursAt ns bs i =
    (front : List ℕ) × (back : List ℕ) × (bs ≡ front ++ (ns ++ back)) × (i ≡ length front)

nowhere :
    (s : ℕ) (ns bs : List ℕ)
    → substring_from s ns bs ≡ none
    → (¬ ((p : ℕ) × OccursAt ns bs p)) ⊎ ((bs ≡ []) × (ns ≡ []))
nowhere s [] [] h = inr (refl, refl)
nowhere s (n ∷ ns) [] h = inl (λ (p, (front, back, split, at)).
    let l = length-append front (n ∷ (ns ++ back)) in
    let z : 0 ≡ length (front ++ (n ∷ (ns ++ back))) = ap length split in omega (arith, l))
nowhere s [] (b ∷ bs) h = absurd (cc)
nowhere s (n ∷ ns) (b ∷ bs) h = inl (λ (p, (front, back, split, at)).
    substring_from-none s (n ∷ ns) front back (λ e. cc) (rw (← split) h))

-- `strstr` on two strings, said of the strings alone. With fuel above their lengths it ends. It
-- returns an address at which the needle stands in the haystack; or it returns the null pointer,
-- and then the needle stands nowhere in the haystack, or both are empty.
pub strstr_correct :
    (f k : ℕ) (m : Memory) (s n : ℕ) (bs ns : List ℕ)
    → IsStringAt m s bs
    → IsStringAt m n ns
    → length bs < f
    → length ns < k
    → ((p : ℕ) × (strstr f k m s n ≡ some (some (s + p))) × OccursAt ns bs p)
      ⊎ ((strstr f k m s n ≡ some none)
          × ((¬ ((p : ℕ) × OccursAt ns bs p)) ⊎ ((bs ≡ []) × (ns ≡ []))))
strstr_correct f k m s n bs ns hb hn lf lk =
    let e = strstr-substring f k m s n bs ns hb hn lf lk in
    elim (Option-cases (substring_from s ns bs)) [
      | inl missing ↦ inr (e ∙ ap some missing, nowhere s ns bs missing)
      | inr (q, found) ↦
          let (front, back, split, at) = substring_from_found s q ns bs found in
          inl (length front, e ∙ ap some (found ∙ ap some at), (front, back, split, refl))
    ]
