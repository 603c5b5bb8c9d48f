-- ===== src/Termios/Speed.antt =====
-- per-svr4/termios.c: the speeds of BSD, and svr4_termiox_ioctl, the flow control of a terminal.
use ibcs_us.Prelude.{
  ℕ, suc, ◌==◌, ◌!=◌, ◌&&◌, ◌||◌, Bool, true, not, Option, some, List, [], ◌∷◌, leb, ltb,
  if◌then◌else◌, get_elem?, bit_and, bit_or,
}
use ibcs_us.Compat.{einval}
use ibcs_us.Termios.{efault, clear, crtscts, Termios, Settings, failed, settings}

abbrev pub speed_map : List ℕ
speed_map =
    0 ∷ 50 ∷ 75 ∷ 110 ∷ 134 ∷ 150 ∷ 200 ∷ 300 ∷ 600 ∷ 1200 ∷ 1800 ∷ 2400 ∷ 4800 ∷ 9600 ∷ 19200
    ∷ 38400 ∷ []

abbrev pub b38400 : ℕ
b38400 = 15

abbrev pub b57600 : ℕ
b57600 = 0x1001

abbrev pub b115200 : ℕ
b115200 = 0x1002

-- The loop along the speeds, from index `i` on.
unfoldable pub speed_from : ℕ → List ℕ → ℕ → ℕ
speed_from i [] s = b38400
speed_from i (x ∷ xs) s = let more = speed_from (suc i) xs s in if leb s x then i else more

unfoldable pub bsd_to_linux_speed : ℕ → ℕ
unfolding speed_from
bsd_to_linux_speed s =
    if s == 57600 then b57600 else if s == 115200 then b115200 else speed_from 0 speed_map s

-- `none` for an index past the end of the table.
unfoldable pub linux_to_bsd_speed : ℕ → Option ℕ
linux_to_bsd_speed s =
    if s == b57600 then some 57600 else if s == b115200 then some 115200 else get_elem? speed_map s

-- `struct termiox`: the flags for flow control, and the words that must be 0.
pub record Termiox : Type 0 where
  pub x_hflag : ℕ
  pub x_rest : List ℕ

abbrev pub all_zero : List ℕ → Bool
all_zero [] = true
all_zero (x ∷ xs) = x == 0 && all_zero xs

-- What a call does: an error, what it tells the caller, or the settings it gives the terminal.
pub data Answer : Type 0 where
  refuses : ℕ → Answer
  tells : Termiox → Answer
  gives : Termios → Answer

abbrev pub with_cflag : Termios → ℕ → Termios
with_cflag t c = record {
  c_iflag = t.c_iflag;
  c_oflag = t.c_oflag;
  c_cflag = c;
  c_lflag = t.c_lflag;
  c_cc = t.c_cc;
}

-- RTSXOFF|CTSXON
abbrev pub both_ways : ℕ
both_ways = 3

abbrev pub set_flow : Termios → Termiox → Answer
set_flow t tx =
    if tx.x_hflag != 0 && tx.x_hflag != both_ways || not (all_zero tx.x_rest)
    then refuses einval
    else gives (
        with_cflag t
          (if tx.x_hflag != 0 then bit_or t.c_cflag crtscts else clear crtscts t.c_cflag))

abbrev pub get_flow : Termios → Answer
get_flow t = tells (record {
  x_hflag = if bit_and t.c_cflag crtscts != 0 then both_ways else 0;
  x_rest = 0 ∷ 0 ∷ 0 ∷ 0 ∷ 0 ∷ 0 ∷ 0 ∷ [];
})

abbrev pub after_tcgets : ℕ → Settings → Termiox → Answer
after_tcgets cmd (failed e) tx = refuses e
after_tcgets cmd (settings t) tx = if cmd == 1 then get_flow t else set_flow t tx

unfoldable pub svr4_termiox_ioctl : Bool → Settings → ℕ → Termiox → Answer
svr4_termiox_ioctl is_accessible answer cmd tx =
    if cmd == 0 || ltb 4 cmd
    then refuses einval
    else if is_accessible
    then after_tcgets cmd answer tx
    else refuses efault
