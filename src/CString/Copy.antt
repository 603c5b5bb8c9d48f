-- ===== src/CString/Copy.antt =====
-- The functions of ibcs/ibcs-lib.c that write: memcpy, mempcpy, memset, strcpy, strcat. Each theorem says what the written area holds and that nothing else changes.
use ibcs_us.Prelude.{
  ℕ, zero, suc, ◌+◌, ◌-◌, ◌%◌, ◌≤◌, ◌<◌, ◌≡◌, refl, List, [], ◌∷◌, ◌++◌, some, if◌then◌else◌,
  length, arith, ◌&&◌, ◌⊎◌, inl, inr, Bool-cases, ap, ltb, leb, ◌∙◌, subst,
}
use ibcs_us.Memory.{Memory, store, IsStringAt, IsStringAt-agree}
use ibcs_us.CString.{memcpy, mempcpy, fill, memset, strcpy, strcat}
use ibcs_us.CString.Scan.{strchr_end}

-- Outside `[d, d + n)` two memories are equal.
abbrev pub SameOutside : ℕ → ℕ → Memory → Memory → Type 0
SameOutside d n m m' = (q : ℕ) → (q < d) ⊎ (d + n ≤ q) → m' q ≡ m q

-- No byte of `[s, s + n)` lies in `[d, d + n)` above its own place: a forward copy reads each byte
-- before it is overwritten.
abbrev pub ForwardSafe : ℕ → ℕ → ℕ → Type 0
ForwardSafe d s n = (d ≤ s) ⊎ (s + n ≤ d)

memcpy_outside : (m : Memory) (d s c q : ℕ) → (q < d) ⊎ (d + c ≤ q) → memcpy m d s c q ≡ m q
unfolding memcpy
memcpy_outside m d s zero q h = refl
memcpy_outside m d s (suc c) q h =
    ground (arith, memcpy_outside (store m d (m s)) (d + 1) (s + 1) c q)

memcpy_inside :
    (m : Memory) (d s c i : ℕ) → ForwardSafe d s c → i < c → memcpy m d s c (d + i) ≡ m (s + i)
unfolding memcpy
memcpy_inside m d s zero i safe h = absurd (omega arith)
memcpy_inside m d s (suc c) zero safe h =
    ground (arith, memcpy_outside (store m d (m s)) (d + 1) (s + 1) c (d + 0))
memcpy_inside m d s (suc c) (suc i) safe h =
    let e : d + suc i ≡ d + 1 + i = omega arith in
    let e' : s + suc i ≡ s + 1 + i = omega arith in
    let safe' : ForwardSafe (d + 1) (s + 1) c = omega arith in
    let ih = memcpy_inside (store m d (m s)) (d + 1) (s + 1) c i safe' (omega arith) in
    ground (arith, ih)

-- What `memcpy` writes, and that it writes nothing else.
pub memcpy_inside_outside :
    (m : Memory) (d s c : ℕ)
    → ForwardSafe d s c
    → ((i : ℕ) → i < c → memcpy m d s c (d + i) ≡ m (s + i)) × SameOutside d c m (memcpy m d s c)
memcpy_inside_outside m d s c safe = (λ i h. memcpy_inside m d s c i safe h, memcpy_outside m d s c)

-- `memcpy` copies the source as it was before the call, and changes nothing else, if the areas are
-- disjoint or the destination starts no later than the source.
pub memcpy_lem :
    (m : Memory) (d s c q : ℕ)
    → ForwardSafe d s c
    → memcpy m d s c q ≡ (if leb d q && ltb q (d + c) then m (s + (q - d)) else m q)
memcpy_lem m d s c q safe = elim (Bool-cases (leb d q && ltb q (d + c))) [
  | inl inside ↦
      let e : d + (q - d) ≡ q = ground arith in
      rw inside (
        subst (λ (p : ℕ). memcpy m d s c p ≡ m (s + (q - d))) e
          (memcpy_inside m d s c (q - d) safe (ground arith)))
  | inr outside ↦ rw outside (memcpy_outside m d s c q (ground arith))
]

-- `mempcpy` leaves the memory of `memcpy` and returns the address behind the copy.
pub mempcpy-memcpy : (m : Memory) (d s c : ℕ) → mempcpy m d s c ≡ (memcpy m d s c, d + c)
unfolding mempcpy memcpy
mempcpy-memcpy m d s zero = ground arith
mempcpy-memcpy m d s (suc c) =
    mempcpy-memcpy (store m d (m s)) (d + 1) (s + 1) c
    ∙ ap (λ (n : ℕ). (memcpy (store m d (m s)) (d + 1) (s + 1) c, n)) (omega arith)

fill_value :
    (m : Memory) (d b c q : ℕ) → fill m d b c q ≡ (if leb d q && ltb q (d + c) then b else m q)
unfolding fill
fill_value m d b zero q = ground arith
fill_value m d b (suc c) q = ground (arith, fill_value (store m d b) (d + 1) b c q)

-- After `memset` the area holds `(unsigned char)b` everywhere, and the rest is as before.
pub memset_lem :
    (m : Memory) (d b c q : ℕ)
    → memset m d b c q ≡ (if leb d q && ltb q (d + c) then b % 256 else m q)
unfolding memset
memset_lem m d b c q = fill_value m d (b % 256) c q

-- The string at `s` does not meet the area that is written at `d`, `n` bytes long.
abbrev pub Apart : ℕ → ℕ → ℕ → ℕ → Type 0
Apart s k d n = (s + k ≤ d) ⊎ (d + n ≤ s)

strcpy_forward :
    (f : ℕ) (m : Memory) (d s : ℕ) (bs : List ℕ)
    → IsStringAt m s bs
    → ForwardSafe d s (length bs + 1)
    → length bs < f
    → (m' : Memory) × (strcpy f m d s ≡ some m')
      × IsStringAt m' d bs
      × SameOutside d (length bs + 1) m m'
unfolding strcpy
strcpy_forward zero m d s bs h a lt = absurd (omega arith)
strcpy_forward (suc f) m d s [] h a lt =
    (store m d (m s), ground arith, ground arith, λ q out. ground arith)
strcpy_forward (suc f) m d s (b ∷ bs) (e, nz, h) a lt =
    let m1 : Memory = store m d (m s) in
    let a' : ForwardSafe (d + 1) (s + 1) (length bs + 1) = omega arith in
    let h1 : IsStringAt m1 (s + 1) bs =
      IsStringAt-agree m m1 (s + 1) bs (λ q lo hi. ground arith) h in
    let (m', p, w, same) = strcpy_forward f m1 (d + 1) (s + 1) bs h1 a' (omega arith) in
    (m', ground (arith, p), (ground (arith, same d), nz, w), λ q out. ground (arith, same q))

-- On a string, `strcpy` ends with fuel above the string's length; the destination then holds the
-- string, and nothing outside its bytes and NUL has changed. The areas are disjoint, or the
-- destination starts no later than the source.
pub strcpy_lem :
    (f : ℕ) (m : Memory) (d s : ℕ) (bs : List ℕ)
    → IsStringAt m s bs
    → ForwardSafe d s (length bs + 1)
    → length bs < f
    → (m' : Memory) × (strcpy f m d s ≡ some m')
      × IsStringAt m' d bs
      × SameOutside d (length bs + 1) m m'
strcpy_lem f m d s bs h a lt = strcpy_forward f m d s bs h a lt

pub IsStringAt-append :
    (m m' : Memory) (s t : ℕ) (xs ys : List ℕ)
    → t ≡ s + length xs
    → IsStringAt m s xs
    → ((q : ℕ) → q < t → m' q ≡ m q)
    → IsStringAt m' t ys
    → IsStringAt m' s (xs ++ ys)
IsStringAt-append m m' s t [] ys e hx same hy = let e' : t ≡ s = omega arith in rw e' at hy
IsStringAt-append m m' s t (x ∷ xs) ys e (ex, nz, hx) same hy =
    (ground (arith, same s), nz, IsStringAt-append m m' (s + 1) t xs ys (omega arith) hx same hy)

-- On two strings, `strcat` ends with fuel above their lengths and leaves the first followed by the
-- second, if the second is apart from the bytes that are written; nothing else changes.
pub strcat_lem :
    (f : ℕ) (m : Memory) (c1 c2 : ℕ) (xs ys : List ℕ)
    → IsStringAt m c1 xs
    → IsStringAt m c2 ys
    → Apart c2 (length ys + 1) (c1 + length xs) (length ys + 1)
    → length xs < f
    → length ys < f
    → (m' : Memory) × (strcat f m c1 c2 ≡ some m')
      × IsStringAt m' c1 (xs ++ ys)
      × SameOutside (c1 + length xs) (length ys + 1) m m'
unfolding strcat
strcat_lem f m c1 c2 xs ys hx hy a lx ly =
    let (m', p, w, same) = strcpy_forward f m (c1 + length xs) c2 ys hy (omega arith) ly in
    (
      m',
      rw (strchr_end f m c1 xs hx lx) p,
      IsStringAt-append m m' c1 (c1 + length xs) xs ys refl hx (λ q lt. same q (inl lt)) w,
      same,
    )
