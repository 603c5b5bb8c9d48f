-- ===== src/CString.antt =====
-- ibcs/ibcs-lib.c: the memory and string functions that ibcs-us brings instead of those of libc.
-- A counted loop recurs on its count. A loop that runs to a NUL takes fuel, and answers `none`
-- when the fuel is spent; a string's length and one more is always enough. `char` is signed, as on
-- the i386 the program is compiled for, and `unsigned char` is not. A function that returns its
-- first argument returns the memory alone.
pub mod Scan
pub mod Compare
pub mod Copy
pub mod Bounded
pub mod Substring
mod Tests
use ibcs_us.Prelude.{
  ℕ, zero, suc, ◌+◌, ◌-◌, ◌%◌, ◌&&◌, ◌||◌, Option, none, some, ltb, if◌then◌else◌, ◌==◌, ◌!=◌,
}
use ibcs_us.Prelude.Int.{ℤ, pos, sub_ℕ, is_zero}
use ibcs_us.Memory.{Memory, store}

infixl 5 ◌>>=◌
abbrev pub ◌>>=◌ {ℓ κ} : {A : Type ℓ} {B : Type κ} → Option A → (A → Option B) → Option B
none >>= f = none
some a >>= f = f a

-- The difference of two `unsigned char`s, which `int` holds.
abbrev pub byte_diff : ℕ → ℕ → ℤ
byte_diff a b = sub_ℕ a b

-- The difference of two `char`s: a byte from 128 on stands for itself less 256.
abbrev pub char_diff : ℕ → ℕ → ℤ
char_diff a b = sub_ℕ ((a + 128) % 256) ((b + 128) % 256)

-- The loop of `memchr`.
pub find_byte : Memory → ℕ → ℕ → ℕ → Option ℕ
find_byte m cs cb zero = none
find_byte m cs cb (suc c) =
    let rest = find_byte m (cs + 1) cb c in if m cs == cb then some cs else rest

pub memchr : Memory → ℕ → ℕ → ℕ → Option ℕ
unfolding find_byte
memchr m s b c = find_byte m s (b % 256) c

pub memcmp : Memory → ℕ → ℕ → ℕ → ℤ
memcmp m cs1 cs2 zero = pos 0
memcmp m cs1 cs2 (suc c) =
    let ret = byte_diff (m cs1) (m cs2) in
    let rest = memcmp m (cs1 + 1) (cs2 + 1) c in if is_zero ret then rest else ret

-- The new memory, and the address behind the copy.
unfoldable pub mempcpy : Memory → ℕ → ℕ → ℕ → Memory × ℕ
mempcpy m cd cs zero = (m, cd)
mempcpy m cd cs (suc c) = mempcpy (store m cd (m cs)) (cd + 1) (cs + 1) c

pub memcpy : Memory → ℕ → ℕ → ℕ → Memory
memcpy m cd cs zero = m
memcpy m cd cs (suc c) = memcpy (store m cd (m cs)) (cd + 1) (cs + 1) c

-- The loop of `memset`.
pub fill : Memory → ℕ → ℕ → ℕ → Memory
fill m cd cb zero = m
fill m cd cb (suc c) = fill (store m cd cb) (cd + 1) cb c

pub memset : Memory → ℕ → ℕ → ℕ → Memory
unfolding fill
memset m d b c = fill m d (b % 256) c

-- `*c < 'a' || *c > 'z' ? *c : *c - ('a' - 'A')`
pub to_upper : ℕ → ℕ
to_upper c = if ltb c b'a' || ltb b'z' c then c else c - 32

pub strcasecmp : ℕ → Memory → ℕ → ℕ → Option ℤ
unfolding to_upper
strcasecmp zero m c1 c2 = none
strcasecmp (suc f) m c1 c2 =
    let ret = char_diff (to_upper (m c1)) (to_upper (m c2)) in
    let rest = strcasecmp f m (c1 + 1) (c2 + 1) in
    if is_zero ret && m c1 != 0 && m c2 != 0 then rest else some ret

unfoldable pub strcpy : ℕ → Memory → ℕ → ℕ → Option Memory
strcpy zero m cs s = none
strcpy (suc f) m cs s =
    let m' = store m cs (m s) in
    let rest = strcpy f m' (cs + 1) (s + 1) in if m s == 0 then some m' else rest

-- The loop of `strchr`.
pub find_char : ℕ → Memory → ℕ → ℕ → Option (Option ℕ)
find_char zero m s cb = none
find_char (suc f) m s cb =
    let rest = find_char f m (s + 1) cb in
    if m s == cb then some (some s) else if m s == 0 then some none else rest

pub strchr : ℕ → Memory → ℕ → ℕ → Option (Option ℕ)
unfolding find_char
strchr f m s c = find_char f m s (c % 256)

-- A null pointer from `strchr` is not followed: a string has its NUL.
pub strcat : ℕ → Memory → ℕ → ℕ → Option Memory
strcat f m c1 c2 = do p ← strchr f m c1 0; d ← p; strcpy f m d c2

pub strcmp : ℕ → Memory → ℕ → ℕ → Option ℤ
strcmp zero m c1 c2 = none
strcmp (suc f) m c1 c2 =
    let ret = char_diff (m c1) (m c2) in
    let rest = strcmp f m (c1 + 1) (c2 + 1) in
    if is_zero ret && m c1 != 0 && m c2 != 0 then rest else some ret

pub strlen : ℕ → Memory → ℕ → Option ℕ
strlen f m s = do p ← strchr f m s 0; d ← p; some (d - s)

pub strncasecmp : Memory → ℕ → ℕ → ℕ → ℤ
unfolding to_upper
strncasecmp m c1 c2 zero = pos 0
strncasecmp m c1 c2 (suc c) =
    let ret = char_diff (to_upper (m c1)) (to_upper (m c2)) in
    let rest = strncasecmp m (c1 + 1) (c2 + 1) c in
    if is_zero ret && m c1 != 0 && m c2 != 0 && c != 0 then rest else ret

pub strncpy : Memory → ℕ → ℕ → ℕ → Memory
strncpy m cd s zero = m
strncpy m cd s (suc c) =
    let m' = store m cd (m s) in
    let rest = strncpy m' (cd + 1) (s + 1) c in if m s == 0 then m' else rest

pub strncat : ℕ → Memory → ℕ → ℕ → ℕ → Option Memory
strncat f m c1 c2 c = do
  p ← strchr f m c1 0
  d ← p
  some (if ltb (d - c1) c then strncpy m d c2 (c - (d - c1)) else m)

pub strncmp : Memory → ℕ → ℕ → ℕ → ℤ
strncmp m c1 c2 zero = pos 0
strncmp m c1 c2 (suc c) =
    let ret = char_diff (m c1) (m c2) in
    let rest = strncmp m (c1 + 1) (c2 + 1) c in
    if is_zero ret && m c1 != 0 && m c2 != 0 && c != 0 then rest else ret

-- The loop of `strrchr`; `r` is the last place where the character was seen.
pub find_last : ℕ → Memory → ℕ → ℕ → Option ℕ → Option (Option ℕ)
find_last zero m s cb r = none
find_last (suc f) m s cb r =
    let r' = if m s == cb then some s else r in
    let rest = find_last f m (s + 1) cb r' in if m s == 0 then some r' else rest

pub strrchr : ℕ → Memory → ℕ → ℕ → Option (Option ℕ)
unfolding find_last
strrchr f m s c = find_last f m s (c % 256) none

-- The inner loop of `strstr`: the first `i` at which `n[i] == s[i] && n[i]` fails.
pub match_length : ℕ → Memory → ℕ → ℕ → ℕ → Option ℕ
match_length zero m s n i = none
match_length (suc f) m s n i =
    let rest = match_length f m s n (i + 1) in
    if m (n + i) == m (s + i) && m (n + i) != 0 then rest else some i

-- `k` is the fuel of the inner loop.
pub strstr : ℕ → ℕ → Memory → ℕ → ℕ → Option (Option ℕ)
unfolding match_length
strstr zero k m s n = none
strstr (suc f) k m s n =
    let rest = strstr f k m (s + 1) n in
    let found = (do i ← match_length k m s n 0; if m (n + i) == 0 then some (some s) else rest) in
    if m s == 0 then some none else found
