-- ===== src/CString/Compare.antt =====
-- The functions of ibcs/ibcs-lib.c that compare: memcmp, strcmp, strncmp, strcasecmp, strncasecmp.
use ibcs_us.Prelude.{
  ℕ, zero, suc, ◌+◌, ◌<◌, ◌≡◌, ◌≢◌, refl, List, [], ◌∷◌, some, if◌then◌else◌, length, arith, true,
  inl, inr, Bool-cases, map, take, All, ◌∙◌, ◌↔◌, ap, ap₂,
}
use ibcs_us.Prelude.Int.{ℤ, pos, negsuc, is_zero, neg}
use ibcs_us.Memory.{Memory, IsStringAt, HasBytes}
use ibcs_us.CString.{char_diff, memcmp, to_upper, strcmp, strcasecmp, strncmp, strncasecmp}

abbrev pub IsByte : ℕ → Type 0
IsByte b = b < 256

-- The lexicographic order of two strings, by the difference of their first differing `char`s. The
-- end of a string counts as a NUL.
abbrev pub compare_strings : List ℕ → List ℕ → ℤ
compare_strings [] [] = pos 0
compare_strings [] (b ∷ bs) = char_diff 0 b
compare_strings (a ∷ as') [] = char_diff a 0
compare_strings (a ∷ as') (b ∷ bs) =
    let ret = char_diff a b in if is_zero ret then compare_strings as' bs else ret

char_diff_zero : (a b : ℕ) → a < 256 → b < 256 → is_zero (char_diff a b) ≡ true → a ≡ b
char_diff_zero a b ha hb h = ground arith

char_diff_self : (a : ℕ) → is_zero (char_diff a a) ≡ true
char_diff_self a = ground arith

is_zero_eq : (z : ℤ) → is_zero z ≡ true → z ≡ pos 0
is_zero_eq (pos n) h = ground arith
is_zero_eq (negsuc n) h = absurd (cc)

strcmp-compare_strings :
    (f : ℕ) (m : Memory) (c1 c2 : ℕ) (xs ys : List ℕ)
    → IsStringAt m c1 xs
    → IsStringAt m c2 ys
    → All IsByte xs
    → All IsByte ys
    → length xs < f
    → strcmp f m c1 c2 ≡ some (compare_strings xs ys)
unfolding strcmp
strcmp-compare_strings zero m c1 c2 xs ys hx hy bx by lt = absurd (omega arith)
strcmp-compare_strings (suc f) m c1 c2 [] [] hx hy bx by lt = ground arith
strcmp-compare_strings (suc f) m c1 c2 [] (y ∷ ys) hx (e, nz, hy) bx (by, bys) lt = ground arith
strcmp-compare_strings (suc f) m c1 c2 (x ∷ xs) [] (e, nz, hx) hy (bx, bxs) by lt = ground arith
strcmp-compare_strings (suc f) m c1 c2 (x ∷ xs) (y ∷ ys) (ex, nx, hx) (ey, ny, hy) (bx, bxs)
      (by, bys) lt =
    let ih = strcmp-compare_strings f m (c1 + 1) (c2 + 1) xs ys hx hy bxs bys (omega arith) in
    ground (arith, ih)

-- A byte that can stand in a string.
abbrev pub IsChar : ℕ → Type 0
IsChar b = (b ≢ 0) × (b < 256)

chars : (m : Memory) (s : ℕ) (bs : List ℕ) → IsStringAt m s bs → All IsByte bs → All IsChar bs
chars m s [] h k = tt
chars m s (b ∷ bs) (e, nz, h) (lt, k) = ((nz, lt), chars m (s + 1) bs h k)

compare_strings_self : (xs : List ℕ) → compare_strings xs xs ≡ pos 0
compare_strings_self [] = refl
compare_strings_self (x ∷ xs) = ground (arith, compare_strings_self xs)

pub compare_strings_eq :
    (xs ys : List ℕ) → All IsChar xs → All IsChar ys → compare_strings xs ys ≡ pos 0 → xs ≡ ys
compare_strings_eq [] [] hx hy e = refl
compare_strings_eq [] (y ∷ ys) hx ((ny, by), hy) e = absurd (ground arith)
compare_strings_eq (x ∷ xs) [] ((nx, bx), hx) hy e = absurd (ground arith)
compare_strings_eq (x ∷ xs) (y ∷ ys) ((nx, bx), hx) ((ny, by), hy) e =
    elim (Bool-cases (is_zero (char_diff x y))) [
      | inl same ↦
          let t : compare_strings xs ys ≡ pos 0 = ground arith in
          ap₂ ◌∷◌ (char_diff_zero x y bx by same) (compare_strings_eq xs ys hx hy t)
      | inr differ ↦ absurd (ground arith)
    ]

pub compare_strings_swap : (xs ys : List ℕ) → compare_strings ys xs ≡ neg (compare_strings xs ys)
compare_strings_swap [] [] = refl
compare_strings_swap [] (y ∷ ys) = ground arith
compare_strings_swap (x ∷ xs) [] = ground arith
compare_strings_swap (x ∷ xs) (y ∷ ys) = ground (arith, compare_strings_swap xs ys)

-- On two strings `strcmp` ends, with fuel above their lengths; it returns 0 exactly if the strings
-- are equal; and the two orders of its arguments give opposite results.
pub strcmp_correct :
    (f : ℕ) (m : Memory) (c1 c2 : ℕ) (xs ys : List ℕ)
    → IsStringAt m c1 xs
    → IsStringAt m c2 ys
    → All IsByte xs
    → All IsByte ys
    → length xs < f
    → length ys < f
    → (r : ℤ) × (strcmp f m c1 c2 ≡ some r)
      × (strcmp f m c2 c1 ≡ some (neg r))
      × ((r ≡ pos 0) ↔ (xs ≡ ys))
strcmp_correct f m c1 c2 xs ys hx hy bx by lx ly = (
  compare_strings xs ys,
  strcmp-compare_strings f m c1 c2 xs ys hx hy bx by lx,
  strcmp-compare_strings f m c2 c1 ys xs hy hx by bx ly ∙ ap some (compare_strings_swap xs ys),
  (
    compare_strings_eq xs ys (chars m c1 xs hx bx) (chars m c2 ys hy by),
    λ e. rw (← e) (compare_strings_self xs),
  ),
)

-- `strncmp` compares the first `n` bytes of two strings, and stops at their ends.
pub strncmp-take :
    (n : ℕ) (m : Memory) (c1 c2 : ℕ) (xs ys : List ℕ)
    → IsStringAt m c1 xs
    → IsStringAt m c2 ys
    → All IsByte xs
    → All IsByte ys
    → strncmp m c1 c2 n ≡ compare_strings (take n xs) (take n ys)
unfolding strncmp
strncmp-take zero m c1 c2 xs ys hx hy bx by = refl
strncmp-take (suc n) m c1 c2 [] [] hx hy bx by = ground arith
strncmp-take (suc n) m c1 c2 [] (y ∷ ys) hx (e, nz, hy) bx (by, bys) = ground arith
strncmp-take (suc n) m c1 c2 (x ∷ xs) [] (e, nz, hx) hy (bx, bxs) by = ground arith
strncmp-take (suc zero) m c1 c2 (x ∷ xs) (y ∷ ys) (ex, nx, hx) (ey, ny, hy) (bx, bxs) (by, bys) =
    ground (arith, is_zero_eq (char_diff x y))
strncmp-take (suc (suc n)) m c1 c2 (x ∷ xs) (y ∷ ys) (ex, nx, hx) (ey, ny, hy) (bx, bxs) (by, bys) =
    ground (arith, strncmp-take (suc n) m (c1 + 1) (c2 + 1) xs ys hx hy bxs bys)

-- The upper-case form of a byte of a string is a byte of a string.
to_upper-IsChar : (c : ℕ) → IsChar c → IsChar (to_upper c)
unfolding to_upper
to_upper-IsChar c h = ground arith

to_upper_nul : to_upper 0 ≡ 0
unfolding to_upper
to_upper_nul = refl

-- `strcasecmp` is the comparison of the strings with every ASCII lower-case letter made a capital.
pub strcasecmp-to_upper :
    (f : ℕ) (m : Memory) (c1 c2 : ℕ) (xs ys : List ℕ)
    → IsStringAt m c1 xs
    → IsStringAt m c2 ys
    → All IsByte xs
    → All IsByte ys
    → length xs < f
    → strcasecmp f m c1 c2 ≡ some (compare_strings (map to_upper xs) (map to_upper ys))
unfolding strcasecmp
strcasecmp-to_upper zero m c1 c2 xs ys hx hy bx by lt = absurd (omega arith)
strcasecmp-to_upper (suc f) m c1 c2 [] [] hx hy bx by lt = ground (arith, to_upper_nul)
strcasecmp-to_upper (suc f) m c1 c2 [] (y ∷ ys) hx (e, nz, hy) bx (by, bys) lt =
    ground (arith, to_upper-IsChar y (nz, by), to_upper_nul)
strcasecmp-to_upper (suc f) m c1 c2 (x ∷ xs) [] (e, nz, hx) hy (bx, bxs) by lt =
    ground (arith, to_upper-IsChar x (nz, bx), to_upper_nul)
strcasecmp-to_upper (suc f) m c1 c2 (x ∷ xs) (y ∷ ys) (ex, nx, hx) (ey, ny, hy) (bx, bxs) (by, bys)
      lt =
    let ih = strcasecmp-to_upper f m (c1 + 1) (c2 + 1) xs ys hx hy bxs bys (omega arith) in
    ground (arith, ih, to_upper-IsChar x (nx, bx), to_upper-IsChar y (ny, by))

pub strncasecmp-to_upper :
    (n : ℕ) (m : Memory) (c1 c2 : ℕ) (xs ys : List ℕ)
    → IsStringAt m c1 xs
    → IsStringAt m c2 ys
    → All IsByte xs
    → All IsByte ys
    → strncasecmp m c1 c2 n ≡ compare_strings (take n (map to_upper xs)) (take n (map to_upper ys))
unfolding strncasecmp
strncasecmp-to_upper zero m c1 c2 xs ys hx hy bx by = refl
strncasecmp-to_upper (suc n) m c1 c2 [] [] hx hy bx by = ground (arith, to_upper_nul)
strncasecmp-to_upper (suc n) m c1 c2 [] (y ∷ ys) hx (e, nz, hy) bx (by, bys) =
    ground (arith, to_upper-IsChar y (nz, by), to_upper_nul)
strncasecmp-to_upper (suc n) m c1 c2 (x ∷ xs) [] (e, nz, hx) hy (bx, bxs) by =
    ground (arith, to_upper-IsChar x (nz, bx), to_upper_nul)
strncasecmp-to_upper (suc zero) m c1 c2 (x ∷ xs) (y ∷ ys) (ex, nx, hx) (ey, ny, hy) (bx, bxs)
      (by, bys) =
    ground (arith, is_zero_eq (char_diff (to_upper x) (to_upper y)))
strncasecmp-to_upper (suc (suc n)) m c1 c2 (x ∷ xs) (y ∷ ys) (ex, nx, hx) (ey, ny, hy) (bx, bxs)
      (by, bys) =
    ground (
      arith,
      strncasecmp-to_upper (suc n) m (c1 + 1) (c2 + 1) xs ys hx hy bxs bys,
      to_upper-IsChar x (nx, bx),
      to_upper-IsChar y (ny, by),
    )

-- `memcmp` of two areas of one length is 0 exactly if they hold the same bytes.
pub memcmp_eq :
    (m : Memory) (p q : ℕ) (xs ys : List ℕ)
    → HasBytes m p xs
    → HasBytes m q ys
    → length xs ≡ length ys
    → (memcmp m p q (length xs) ≡ pos 0) ↔ (xs ≡ ys)
unfolding memcmp
memcmp_eq m p q [] [] hx hy e = (λ h. refl, λ h. refl)
memcmp_eq m p q [] (y ∷ ys) hx hy e = absurd (omega arith)
memcmp_eq m p q (x ∷ xs) [] hx hy e = absurd (omega arith)
memcmp_eq m p q (x ∷ xs) (y ∷ ys) (ex, hx) (ey, hy) e =
    let ih = memcmp_eq m (p + 1) (q + 1) xs ys hx hy (omega arith) in
    (λ h. ground (arith, ih), λ h. ground (arith, ih))
