-- ===== src/CString/Bounded.antt =====
-- The functions of ibcs/ibcs-lib.c that write a counted string: strncpy, strncat.
use ibcs_us.Prelude.{
  ℕ, zero, suc, ◌+◌, ◌-◌, ◌≤◌, ◌<◌, ◌≡◌, ◌≢◌, refl, List, [], ◌∷◌, ◌++◌, some, if◌then◌else◌,
  length, arith, ◌&&◌, ◌⊎◌, inl, inr, Bool-cases, ltb, leb, ne→==, sym, subst,
}
use ibcs_us.Memory.{Memory, store, IsStringAt, IsStringAt-agree}
use ibcs_us.CString.{strncpy, strncat}
use ibcs_us.CString.Scan.{strchr_end}
use ibcs_us.CString.Copy.{SameOutside, Apart, IsStringAt-append}

strncpy_outside : (m : Memory) (d s n q : ℕ) → (q < d) ⊎ (d + n ≤ q) → strncpy m d s n q ≡ m q
unfolding strncpy
strncpy_outside m d s zero q h = refl
strncpy_outside m d s (suc n) q h =
    ground (arith, strncpy_outside (store m d (m s)) (d + 1) (s + 1) n q)

strncpy_more :
    (m : Memory) (d s n : ℕ)
    → m s ≢ 0
    → strncpy m d s (suc n) ≡ strncpy (store m d (m s)) (d + 1) (s + 1) n
unfolding strncpy
strncpy_more m d s n nz = rw (ne→== (m s) 0 nz)

-- `strncpy` of a string with room for `n` bytes, apart from them: the bytes of the string, its NUL
-- included, are copied as far as they fit. What follows a NUL that was copied is left as it was,
-- where ISO C has the rest of the `n` bytes filled with NULs.
pub strncpy_lem :
    (m : Memory) (d s n : ℕ) (bs : List ℕ)
    → IsStringAt m s bs
    → Apart s (length bs + 1) d n
    → (i : ℕ)
    → strncpy m d s n (d + i) ≡ (if ltb i n && leb i (length bs) then m (s + i) else m (d + i))
unfolding strncpy
strncpy_lem m d s zero bs h a i = ground arith
strncpy_lem m d s (suc n) [] h a i = ground arith
strncpy_lem m d s (suc n) (b ∷ bs) (e, nz, h) a zero =
    ground (arith, strncpy_outside (store m d (m s)) (d + 1) (s + 1) n (d + 0))
strncpy_lem m d s (suc n) (b ∷ bs) (e, nz, h) a (suc i) =
    let m1 : Memory = store m d (m s) in
    let h1 : IsStringAt m1 (s + 1) bs =
      IsStringAt-agree m m1 (s + 1) bs (λ q lo hi. ground arith) h in
    let a' : Apart (s + 1) (length bs + 1) (d + 1) n = omega arith in
    let ih = strncpy_lem m1 (d + 1) (s + 1) n bs h1 a' i in
    let e1 : d + suc i ≡ d + 1 + i = omega arith in
    let e2 : s + suc i ≡ s + 1 + i = omega arith in
    rw (strncpy_more m d s n (rw e nz), e1, e2, ih) (ground arith)

strncpy-IsStringAt :
    (m : Memory) (d s n : ℕ) (bs : List ℕ)
    → IsStringAt m s bs
    → Apart s (length bs + 1) d n
    → length bs < n
    → IsStringAt (strncpy m d s n) d bs
unfolding strncpy
strncpy-IsStringAt m d s zero bs h a lt = absurd (omega arith)
strncpy-IsStringAt m d s (suc n) [] h a lt = ground arith
strncpy-IsStringAt m d s (suc n) (b ∷ bs) (e, nz, h) a lt =
    let m1 : Memory = store m d (m s) in
    let h1 : IsStringAt m1 (s + 1) bs =
      IsStringAt-agree m m1 (s + 1) bs (λ q lo hi. ground arith) h in
    let a' : Apart (s + 1) (length bs + 1) (d + 1) n = omega arith in
    let ih = strncpy-IsStringAt m1 (d + 1) (s + 1) n bs h1 a' (omega arith) in
    subst (λ m'. IsStringAt m' d (b ∷ bs)) (sym (strncpy_more m d s n (rw e nz)))
      (ground (arith, strncpy_outside m1 (d + 1) (s + 1) n d), nz, ih)

strncat_step :
    (f : ℕ) (m : Memory) (c1 c2 c : ℕ) (xs : List ℕ)
    → IsStringAt m c1 xs
    → length xs < f
    → strncat f m c1 c2 c ≡ some (strncpy m (c1 + length xs) c2 (c - length xs))
unfolding strncat
strncat_step f m c1 c2 c xs hx lx =
    let e : c1 + length xs - c1 ≡ length xs = omega arith in
    rw (strchr_end f m c1 xs hx lx, e)
      (elim (Bool-cases (ltb (length xs) c)) [
        | inl room ↦ rw room
        | inr full ↦
            let z : c - length xs ≡ 0 = ground arith in rw (full, z) (unfold strncpy in refl)
      ])

-- `strncat` takes its count for the size of the whole destination. On two strings it ends with fuel
-- above the first's length, and writes only between the end of the first string and that size: with
-- no room, nothing.
pub strncat_bounded :
    (f : ℕ) (m : Memory) (c1 c2 c : ℕ) (xs : List ℕ)
    → IsStringAt m c1 xs
    → length xs < f
    → (m' : Memory) × (strncat f m c1 c2 c ≡ some m')
      × SameOutside (c1 + length xs) (c - length xs) m m'
strncat_bounded f m c1 c2 c xs hx lx = (
  strncpy m (c1 + length xs) c2 (c - length xs),
  strncat_step f m c1 c2 c xs hx lx,
  strncpy_outside m (c1 + length xs) c2 (c - length xs),
)

-- If both strings and a NUL fit in the count, `strncat` leaves the first string followed by the
-- second. The second is apart from the bytes that may be written.
pub strncat_lem :
    (f : ℕ) (m : Memory) (c1 c2 c : ℕ) (xs ys : List ℕ)
    → IsStringAt m c1 xs
    → IsStringAt m c2 ys
    → Apart c2 (length ys + 1) (c1 + length xs) (c - length xs)
    → length xs < f
    → length xs + length ys < c
    → (m' : Memory) × (strncat f m c1 c2 c ≡ some m') × IsStringAt m' c1 (xs ++ ys)
strncat_lem f m c1 c2 c xs ys hx hy a lx fits = (
  strncpy m (c1 + length xs) c2 (c - length xs),
  strncat_step f m c1 c2 c xs hx lx,
  IsStringAt-append m (strncpy m (c1 + length xs) c2 (c - length xs)) c1 (c1 + length xs) xs ys refl
      hx (λ q lt. strncpy_outside m (c1 + length xs) c2 (c - length xs) q (inl lt))
      (strncpy-IsStringAt m (c1 + length xs) c2 (c - length xs) ys hy a (omega arith)),
)
