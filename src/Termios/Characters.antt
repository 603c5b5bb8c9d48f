-- ===== src/Termios/Characters.antt =====
-- The characters of a terminal, set and read back.
use ibcs_us.Prelude.{ℕ, ◌≤◌, ◌≡◌, ◌≢◌, Bool, true, false, arith}
use ibcs_us.Termios.{linux_cc, svr4_cc}

-- The characters that System V and Linux both have: not those for VEOL2, VDSUSP and from 16 on.
abbrev pub IsShared : ℕ → Type 0
IsShared i = (i ≤ 15) × (i ≢ 6) × (i ≢ 11)

-- What a program sets of the characters that both systems have is what it reads back, in both modes.
pub svr4_cc-linux_cc :
    (canonical : Bool) (old chars unset : ℕ → ℕ) (i : ℕ)
    → IsShared i
    → svr4_cc canonical (linux_cc canonical old chars) unset i ≡ chars i
unfolding svr4_cc linux_cc
svr4_cc-linux_cc true old chars unset i (low, not_eol2, not_dsusp) = ground arith
svr4_cc-linux_cc false old chars unset i (low, not_eol2, not_dsusp) = ground arith
