-- ===== src/CString/Scan.antt =====
-- The functions of ibcs/ibcs-lib.c that look for a byte: memchr, strchr, strlen, strrchr.
use ibcs_us.Prelude.{
  ℕ, zero, suc, ◌+◌, ◌%◌, ◌<◌, ◌≡◌, refl, List, [], ◌∷◌, ◌++◌, Option, none, some, if◌then◌else◌,
  ◌==◌, length, arith,
}
use ibcs_us.Memory.{Memory, IsStringAt, HasBytes}
use ibcs_us.CString.{find_byte, memchr, find_char, strchr, strlen, find_last, strrchr}

-- The first index of `c` in a list, counted from `i`.
abbrev pub position_from : ℕ → ℕ → List ℕ → Option ℕ
position_from i c [] = none
position_from i c (b ∷ bs) = if b == c then some i else position_from (i + 1) c bs

-- The last index of `c` in a list counted from `i`, or `r` where it has none.
abbrev pub last_position_from : ℕ → ℕ → List ℕ → Option ℕ → Option ℕ
last_position_from i c [] r = r
last_position_from i c (b ∷ bs) r = last_position_from (i + 1) c bs (if b == c then some i else r)

find_byte_lem :
    (m : Memory) (s c : ℕ) (bs : List ℕ)
    → HasBytes m s bs
    → find_byte m s c (length bs) ≡ position_from s c bs
unfolding find_byte
find_byte_lem m s c [] h = refl
find_byte_lem m s c (b ∷ bs) (e, h) = ground (arith, find_byte_lem m (s + 1) c bs h)

-- `memchr` returns the address of the first byte of the area that is equal to `(unsigned char)b`,
-- and the null pointer where there is none.
pub memchr-position :
    (m : Memory) (s b : ℕ) (bs : List ℕ)
    → HasBytes m s bs
    → memchr m s b (length bs) ≡ position_from s (b % 256) bs
unfolding memchr
memchr-position m s b bs h = find_byte_lem m s (b % 256) bs h

find_char_lem :
    (f : ℕ) (m : Memory) (s c : ℕ) (bs : List ℕ)
    → IsStringAt m s bs
    → length bs < f
    → find_char f m s c ≡ some (position_from s c (bs ++ (0 ∷ [])))
unfolding find_char
find_char_lem zero m s c bs h lt = absurd (omega arith)
find_char_lem (suc f) m s c [] h lt = ground arith
find_char_lem (suc f) m s c (b ∷ bs) (e, nz, h) lt =
    ground (arith, find_char_lem f m (s + 1) c bs h)

-- On a string, `strchr` ends with fuel above the string's length, and returns the address of the
-- first byte equal to `(char)c`; the string's NUL counts as its last byte.
pub strchr-position :
    (f : ℕ) (m : Memory) (s c : ℕ) (bs : List ℕ)
    → IsStringAt m s bs
    → length bs < f
    → strchr f m s c ≡ some (position_from s (c % 256) (bs ++ (0 ∷ [])))
unfolding strchr
strchr-position f m s c bs h lt = find_char_lem f m s (c % 256) bs h lt

position_from-nul :
    (m : Memory) (s : ℕ) (bs : List ℕ)
    → IsStringAt m s bs
    → position_from s 0 (bs ++ (0 ∷ [])) ≡ some (s + length bs)
position_from-nul m s [] h = ground arith
position_from-nul m s (b ∷ bs) (e, nz, h) = ground (arith, position_from-nul m (s + 1) bs h)

-- The NUL is found at the string's end.
pub strchr_end :
    (f : ℕ) (m : Memory) (s : ℕ) (bs : List ℕ)
    → IsStringAt m s bs
    → length bs < f
    → strchr f m s 0 ≡ some (some (s + length bs))
strchr_end f m s bs h lt =
    ground (arith, strchr-position f m s 0 bs h lt, position_from-nul m s bs h)

-- `strlen` is the length of the string.
pub strlen-length :
    (f : ℕ) (m : Memory) (s : ℕ) (bs : List ℕ)
    → IsStringAt m s bs
    → length bs < f
    → strlen f m s ≡ some (length bs)
unfolding strlen
strlen-length f m s bs h lt = ground (arith, strchr_end f m s bs h lt)

find_last_lem :
    (f : ℕ) (m : Memory) (s c : ℕ) (bs : List ℕ) (r : Option ℕ)
    → IsStringAt m s bs
    → length bs < f
    → find_last f m s c r ≡ some (last_position_from s c (bs ++ (0 ∷ [])) r)
unfolding find_last
find_last_lem zero m s c bs r h lt = absurd (omega arith)
find_last_lem (suc f) m s c [] r h lt = ground arith
find_last_lem (suc f) m s c (b ∷ bs) r (e, nz, h) lt =
    ground (arith, find_last_lem f m (s + 1) c bs (if m s == c then some s else r) h)

-- On a string, `strrchr` ends with fuel above the string's length, and returns the address of the
-- last byte equal to `(char)c`, the NUL included, or the null pointer.
pub strrchr-position :
    (f : ℕ) (m : Memory) (s c : ℕ) (bs : List ℕ)
    → IsStringAt m s bs
    → length bs < f
    → strrchr f m s c ≡ some (last_position_from s (c % 256) (bs ++ (0 ∷ [])) none)
unfolding strrchr
strrchr-position f m s c bs h lt = find_last_lem f m s (c % 256) bs none h lt
