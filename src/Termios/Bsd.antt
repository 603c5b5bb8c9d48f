-- ===== src/Termios/Bsd.antt =====
-- per-svr4/termios.c: bsd_to_linux_termios and linux_to_bsd_termios, the settings of a terminal between BSD and
-- Linux.
use ibcs_us.Prelude.{
  ℕ, ◌*◌, ◌/◌, ◌%◌, ◌^◌, ◌≡◌, refl, ◌==◌, ◌!=◌, Bool, Option, some, List, [], ◌∷◌, if◌then◌else◌,
  bit_and, bit_or,
}
use ibcs_us.CString.{◌>>=◌}
use ibcs_us.Termios.{efault, clear, Termios, Settings, failed, settings}
use ibcs_us.Termios.Speed.{bsd_to_linux_speed, linux_to_bsd_speed}

-- `struct bsd_termios`
pub record BsdTermios : Type 0 where
  pub flags : Termios
  pub c_ispeed : ℕ
  pub c_ospeed : ℕ

-- `(x & mask) << n` and `(x & mask) >> n`, on 32 bits
abbrev pub up : ℕ → ℕ → ℕ → ℕ
up mask n x = bit_and x mask * 2 ^ n % 2 ^ 32

abbrev pub down : ℕ → ℕ → ℕ → ℕ
down mask n x = bit_and x mask / 2 ^ n

abbrev pub all_of : List ℕ → ℕ
all_of [] = 0
all_of (x ∷ xs) = bit_or x (all_of xs)

pub linux_iflag : ℕ → ℕ
linux_iflag i = all_of (clear 0xc00 i ∷ up 0x400 1 i ∷ down 0x800 1 i ∷ [])

pub linux_oflag : ℕ → ℕ → ℕ
linux_oflag old o = all_of (clear 0x1805 old ∷ bit_and o 9 ∷ up 2 1 o ∷ up 4 10 o ∷ up 4 9 o ∷ [])

unfoldable pub linux_speeds : ℕ → ℕ → ℕ → ℕ → ℕ
linux_speeds old c ospeed ispeed =
    let c1 = bit_or (clear 0xfff old) (down 0xff00 4 c) in
    let c2 = if bit_and c1 0x30000 != 0 then bit_or c1 (2 ^ 31) else c1 in
    all_of (c2 ∷ bsd_to_linux_speed ospeed ∷ bsd_to_linux_speed ispeed * 2 ^ 16 ∷ [])

pub linux_local : ℕ → ℕ → ℕ
linux_local old l = all_of (
    clear 0xdfb3 old
    ∷ up 1 12 l
    ∷ up 0x46 3 l
    ∷ up 0x420 5 l
    ∷ down 0x180 7 l
    ∷ down 0x400000 14 l
    ∷ down 0x2800000 11 l
    ∷ down 0x80000000 24 l
    ∷ [])

-- By the Linux indices, VINTR to VEOL2.
pub linux_chars : (ℕ → ℕ) → (ℕ → ℕ) → ℕ → ℕ
linux_chars old bsd_cc i =
    if i == 0
    then bsd_cc 8
    else if i == 1
    then bsd_cc 9
    else if i == 2
    then bsd_cc 3
    else if i == 3
    then bsd_cc 5
    else if i == 4
    then bsd_cc 0
    else if i == 5
    then bsd_cc 17
    else if i == 6
    then bsd_cc 16
    else if i == 7
    then bsd_cc 7
    else if i == 8
    then bsd_cc 12
    else if i == 9
    then bsd_cc 13
    else if i == 10
    then bsd_cc 10
    else if i == 11
    then bsd_cc 1
    else if i == 12
    then bsd_cc 6
    else if i == 13
    then bsd_cc 15
    else if i == 14
    then bsd_cc 4
    else if i == 15
    then bsd_cc 14
    else if i == 16
    then bsd_cc 2
    else old i

pub bsd_to_linux_termios : Bool → Settings → BsdTermios → Settings
unfolding linux_iflag linux_oflag linux_speeds linux_local linux_chars
bsd_to_linux_termios is_readable (failed e) it = if is_readable then failed e else failed efault
bsd_to_linux_termios is_readable (settings t) it =
    if is_readable
    then settings (record {
      c_iflag = linux_iflag it.flags.c_iflag;
      c_oflag = linux_oflag t.c_oflag it.flags.c_oflag;
      c_cflag = linux_speeds t.c_cflag it.flags.c_cflag it.c_ospeed it.c_ispeed;
      c_lflag = linux_local t.c_lflag it.flags.c_lflag;
      c_cc = linux_chars t.c_cc it.flags.c_cc;
    })
    else failed efault

unfoldable pub bsd_iflag : ℕ → ℕ
bsd_iflag i = all_of (bit_and i 0x1ff ∷ down 0x400 1 i ∷ down 0x1000 2 i ∷ down 0x2000 4 i ∷ [])

unfoldable pub bsd_oflag : ℕ → ℕ
bsd_oflag o = all_of (bit_and o 1 ∷ down 4 1 o ∷ (if bit_and o 0x1800 == 0x1800 then 4 else 0) ∷ [])

unfoldable pub bsd_cflag : ℕ → ℕ
bsd_cflag c =
    all_of
      (clear 0x80000fff c ∷ up 0xff0 4 c ∷ (if bit_and c 0x80000000 != 0 then 0x30000 else 0) ∷ [])

unfoldable pub bsd_local : ℕ → ℕ
bsd_local l = all_of (
    bit_and l 0x3fff2c08
    ∷ up 3 7 l
    ∷ down 0x270 3 l
    ∷ up 0x100 14 l
    ∷ down 0x400 4 l
    ∷ down 0x800 11 l
    ∷ up 0x1000 11 l
    ∷ up 0x4000 15 l
    ∷ down 0x8000 5 l
    ∷ [])

unfoldable pub bsd_chars : (ℕ → ℕ) → ℕ → ℕ
bsd_chars cc i =
    if i == 0
    then cc 4
    else if i == 1
    then cc 11
    else if i == 2
    then cc 16
    else if i == 3
    then cc 2
    else if i == 4
    then cc 14
    else if i == 5
    then cc 3
    else if i == 6
    then cc 12
    else if i == 7
    then cc 7
    else if i == 8
    then cc 0
    else if i == 9
    then cc 1
    else if i == 10
    then cc 10
    else if i == 11
    then cc 10
    else if i == 12
    then cc 8
    else if i == 13
    then cc 9
    else if i == 14
    then cc 15
    else if i == 15
    then cc 13
    else if i == 16
    then cc 6
    else if i == 17
    then cc 5
    else 0

-- The speed in, which is that out where Linux has none for it.
unfoldable pub bsd_ispeed : ℕ → Option ℕ
bsd_ispeed c =
    let i = bit_and c 0x100f0000 in
    let own = linux_to_bsd_speed (i / 2 ^ 16) in
    let out = linux_to_bsd_speed (bit_and c 0x100f) in if i != 0 then own else out

-- What a call gives: an error, or the structure. Its answer is `none` for a speed past the end of the table.
pub data Given : Type 0 where
  refuses : ℕ → Given
  gives : BsdTermios → Given

unfoldable pub linux_to_bsd_termios : Bool → Settings → Option Given
unfolding bsd_iflag bsd_oflag bsd_cflag bsd_local bsd_chars bsd_ispeed
linux_to_bsd_termios is_writable (failed e) =
    if is_writable then some (refuses e) else some (refuses efault)
linux_to_bsd_termios is_writable (settings t) =
    let given = (do
      ospeed ← linux_to_bsd_speed (bit_and t.c_cflag 0x100f)
      ispeed ← bsd_ispeed t.c_cflag
      some (
          gives (record {
            flags = record {
              c_iflag = bsd_iflag t.c_iflag;
              c_oflag = bsd_oflag t.c_oflag;
              c_cflag = bsd_cflag t.c_cflag;
              c_lflag = bsd_local t.c_lflag;
              c_cc = bsd_chars t.c_cc;
            };
            c_ispeed = ispeed;
            c_ospeed = ospeed;
          }))) in
    if is_writable then given else some (refuses efault)

-- The characters of BSD come back, except for VDSUSP and VSTATUS.
pub bsd_chars-linux_chars :
    (old cc : ℕ → ℕ)
    → let back = bsd_chars (linux_chars old cc) in
      (back 0 ≡ cc 0)
      × (back 1 ≡ cc 1)
      × (back 2 ≡ cc 2)
      × (back 3 ≡ cc 3)
      × (back 4 ≡ cc 4)
      × (back 5 ≡ cc 5)
      × (back 6 ≡ cc 6)
      × (back 7 ≡ cc 7)
      × (back 8 ≡ cc 8)
      × (back 9 ≡ cc 9)
      × (back 10 ≡ cc 10)
      × (back 12 ≡ cc 12)
      × (back 13 ≡ cc 13)
      × (back 14 ≡ cc 14)
      × (back 15 ≡ cc 15)
      × (back 16 ≡ cc 16)
      × (back 17 ≡ cc 17)
unfolding bsd_chars linux_chars
bsd_chars-linux_chars old cc = (
  refl, refl, refl, refl, refl, refl, refl, refl, refl, refl, refl, refl, refl, refl, refl, refl,
  refl,
)
