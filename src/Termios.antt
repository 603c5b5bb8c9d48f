-- ===== src/Termios.antt =====
-- per-svr4/termios.c: the settings of a terminal between the structures of System V and of Linux. What the system
-- answers to TCGETA or TCGETS is a parameter: an error number, or the settings. The memory of the caller is
-- readable or not. Characters and flags are words; the flags of `struct termio` have 16 bits.
pub mod Characters
pub mod Flags
pub mod RoundTrip
pub mod Speed
pub mod Bsd
mod Tests
use ibcs_us.Prelude.{
  ℕ, ◌+◌, ◌-◌, ◌*◌, ◌/◌, ◌%◌, ◌^◌, ◌==◌, ◌!=◌, ◌&&◌, ◌||◌, Bool, true, false, leb, ltb,
  if◌then◌else◌, bit_and, bit_or,
}
use ibcs_us.Compat.{einval}

abbrev pub efault : ℕ
efault = 14

-- `x & ~mask`
abbrev pub clear : ℕ → ℕ → ℕ
clear mask x = bit_and x (2 ^ 32 - 1 - mask)

abbrev pub crtscts : ℕ
crtscts = 2 ^ 31

-- `struct termio`, `struct svr_termio`; and, with more characters and wider flags, `struct termios` and
-- `struct svr4_termios`. What `c_line` holds is copied with the rest and left out.
pub record Termios : Type 0 where
  pub c_iflag : ℕ
  pub c_oflag : ℕ
  pub c_cflag : ℕ
  pub c_lflag : ℕ
  pub c_cc : ℕ → ℕ

-- What the system answers, or what a function passes on: an error number, or settings.
pub data Settings : Type 0 where
  failed : ℕ → Settings
  settings : Termios → Settings

abbrev pub is_canonical : ℕ → Bool
is_canonical lflag = bit_and lflag 2 != 0

abbrev pub set_char : (ℕ → ℕ) → ℕ → ℕ → ℕ → ℕ
set_char cc n v i = if i == n then v else cc i

-- VMIN stands in place of VEOF, which was `eof`.
abbrev pub split_eof : Bool → ℕ → (ℕ → ℕ) → ℕ → ℕ
split_eof canonical eof cc = if canonical then cc else set_char (set_char cc 6 (cc 4)) 4 eof

-- The flow control flags that System V has and Linux has not.
abbrev pub linux_cflag : ℕ → ℕ
linux_cflag c = clear 0xf000 (if bit_and c 0x8000 != 0 then bit_or c crtscts else c)

unfoldable pub svr_to_linux_termio : Bool → Settings → Termios → Settings
svr_to_linux_termio is_readable (failed e) it = if is_readable then failed e else failed efault
svr_to_linux_termio is_readable (settings t) it =
    if is_readable
    then settings (record {
      c_iflag = it.c_iflag;
      c_oflag = it.c_oflag;
      c_cflag = linux_cflag it.c_cflag % 2 ^ 16;
      c_lflag = it.c_lflag;
      c_cc = split_eof (is_canonical it.c_lflag) (t.c_cc 4) it.c_cc;
    })
    else failed efault

abbrev pub join_eof : Bool → (ℕ → ℕ) → ℕ → ℕ
join_eof canonical cc = if canonical then cc else set_char cc 4 (cc 6)

unfoldable pub linux_to_svr_termio : Bool → Settings → Settings
linux_to_svr_termio is_writable (failed e) = if is_writable then failed e else failed efault
linux_to_svr_termio is_writable (settings t) =
    if is_writable
    then settings (record {
      c_iflag = t.c_iflag;
      c_oflag = t.c_oflag;
      c_cflag = t.c_cflag;
      c_lflag = t.c_lflag;
      c_cc = join_eof (is_canonical t.c_lflag) t.c_cc;
    })
    else failed efault

-- The flags that are taken over as they stand, over those the terminal had; the bit for TIOCEXCL among them.
abbrev pub merged_lflag : ℕ → ℕ → ℕ
merged_lflag old r = bit_or (clear 0x81ff old) (r % 2 ^ 16)

abbrev pub move_iexten : ℕ → ℕ
move_iexten l = clear 0x100 (bit_or l (bit_and l 0x100 * 2 ^ 7))

abbrev pub move_tostop : ℕ → ℕ
move_tostop l = clear 0x200 (bit_or l (bit_and l 0x200 / 2))

unfoldable pub linux_lflag : ℕ → ℕ → ℕ
linux_lflag old r =
    bit_or (move_tostop (move_iexten (clear 0x8000 (merged_lflag old r)))) (bit_and old 0x200)

-- The characters that are in the same place in both.
abbrev pub is_same_char : ℕ → Bool
is_same_char i = leb i 3 || leb 7 i && leb i 10 || leb 12 i && leb i 16

unfoldable pub linux_cc : Bool → (ℕ → ℕ) → (ℕ → ℕ) → ℕ → ℕ
linux_cc canonical old svr4_cc i =
    if is_same_char i
    then svr4_cc i
    else if canonical
    then (if i == 4 then svr4_cc 4 else if i == 11 then svr4_cc 5 else old i)
    else if i == 5
    then svr4_cc 5
    else if i == 6
    then svr4_cc 4
    else if i == 11
    then svr4_cc 6
    else old i

-- With whether the terminal becomes exclusive.
unfoldable pub svr4_to_linux_termios : Bool → Settings → Termios → Bool × Settings
unfolding linux_lflag linux_cc
svr4_to_linux_termios is_readable (failed e) it =
    (false, (if is_readable then failed e else failed efault))
svr4_to_linux_termios is_readable (settings t) it =
    let lflag = linux_lflag t.c_lflag it.c_lflag in
    if is_readable
    then (
      bit_and (merged_lflag t.c_lflag it.c_lflag) 0x8000 != 0,
      settings (record {
        c_iflag = clear 0x8000 it.c_iflag;
        c_oflag = it.c_oflag;
        c_cflag = linux_cflag it.c_cflag;
        c_lflag = lflag;
        c_cc = linux_cc (is_canonical lflag) t.c_cc it.c_cc;
      }),
    )
    else (false, failed efault)

abbrev pub back_tostop : ℕ → ℕ
back_tostop l = clear 0x100 (bit_or l (bit_and l 0x100 * 2))

abbrev pub back_iexten : ℕ → ℕ
back_iexten l = clear 0x8000 (bit_or l (bit_and l 0x8000 / 2 ^ 7))

-- Before the last mask: ICANON is read of it too.
unfoldable pub moved_lflag : ℕ → ℕ
moved_lflag l = back_iexten (back_tostop (clear 0x200 l))

-- What the characters that are not set hold is a parameter.
unfoldable pub svr4_cc : Bool → (ℕ → ℕ) → (ℕ → ℕ) → ℕ → ℕ
svr4_cc canonical cc unset i =
    if leb i 3 || leb 7 i && leb i 10 || leb 12 i && leb i 15
    then cc i
    else if i == 4
    then (if canonical then cc 4 else cc 6)
    else if i == 5
    then (if canonical then cc 11 else cc 5)
    else if i == 6
    then cc 16
    else if i == 11
    then cc 10
    else unset i

unfoldable pub linux_to_svr4_termios : Bool → (ℕ → ℕ) → Settings → Settings
unfolding moved_lflag svr4_cc
linux_to_svr4_termios is_writable unset (failed e) = if is_writable then failed e else failed efault
linux_to_svr4_termios is_writable unset (settings t) =
    let c = if bit_and t.c_cflag crtscts != 0 then bit_or t.c_cflag 0x8000 else t.c_cflag in
    let l = moved_lflag t.c_lflag in
    if is_writable
    then settings (record {
      c_iflag = bit_and t.c_iflag 0x1fff;
      c_oflag = bit_and t.c_oflag 0xffff;
      c_cflag = bit_and c 0xffff;
      c_lflag = bit_and l 0x3ff;
      c_cc = svr4_cc (is_canonical l) t.c_cc unset;
    })
    else failed efault
