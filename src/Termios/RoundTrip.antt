-- ===== src/Termios/RoundTrip.antt =====
-- The settings of a terminal as svr4_to_linux_termios makes them and linux_to_svr4_termios gives them back.
use ibcs_us.Prelude.{
  ℕ, ◌+◌, ◌<◌, ◌≡◌, ◌⊎◌, inl, inr, refl, sym, ◌∙◌, ◌==◌, ◌!=◌, Bool, true, false, not,
  if◌then◌else◌, bit_and, bit_or, Bool-cases, ==→eq,
}
use ibcs_us.Termios.{
  Termios, settings, clear, crtscts, is_canonical, linux_cflag, linux_lflag, moved_lflag,
  svr4_to_linux_termios, linux_to_svr4_termios,
}
use ibcs_us.Termios.Characters.{IsShared, svr4_cc-linux_cc}
use ibcs_us.Termios.Flags.{holds_below, holds_at, moved_lflag-linux_lflag}

-- The settings that come back: all flags, and the characters that both systems have.
pub record AreSame (it r : Termios) : Type 0 where
  pub iflag : r.c_iflag ≡ it.c_iflag
  pub oflag : r.c_oflag ≡ it.c_oflag
  pub cflag : r.c_cflag ≡ it.c_cflag
  pub lflag : r.c_lflag ≡ it.c_lflag
  pub cc : (i : ℕ) → IsShared i → r.c_cc i ≡ it.c_cc i

-- ICANON is the same bit before and after.
abbrev same_mode : ℕ → Bool
same_mode r =
    let set = linux_lflag 0 r in
    if is_canonical set
    then is_canonical (moved_lflag set)
    else not (is_canonical (moved_lflag set))

all_same_mode : holds_below same_mode 0x400 ≡ true
unfolding holds_below linux_lflag moved_lflag
all_same_mode = refl

is_canonical-moved_lflag :
    (r : ℕ)
    → r < 0x400
    → is_canonical (moved_lflag (linux_lflag 0 r)) ≡ is_canonical (linux_lflag 0 r)
is_canonical-moved_lflag r h =
    let same = holds_at same_mode 0x400 r all_same_mode h in
    elim (Bool-cases (is_canonical (linux_lflag 0 r))) [
      | inl canonical ↦
          let e : is_canonical (moved_lflag (linux_lflag 0 r)) ≡ true = (rw canonical at same) in
          e ∙ sym canonical
      | inr raw ↦
          let e : not (is_canonical (moved_lflag (linux_lflag 0 r))) ≡ true = (rw raw at same) in
          elim (Bool-cases (is_canonical (moved_lflag (linux_lflag 0 r)))) [
            | inl yes_it ↦ let z : false ≡ true = (rw yes_it at e) in absurd (cc z)
            | inr no_it ↦ no_it ∙ sym raw
          ]
    ]

-- The flags that are only masked.
abbrev stays : ℕ → Bool
stays x = bit_and (clear 0x8000 x) 0x1fff == x

all_stay : holds_below stays 0x2000 ≡ true
unfolding holds_below
all_stay = refl

abbrev stays_whole : ℕ → Bool
stays_whole x = bit_and x 0xffff == x

all_stay_whole : holds_below stays_whole 0x10000 ≡ true
unfolding holds_below
all_stay_whole = refl

-- What linux_to_svr4_termios makes of the control flags.
abbrev given_cflag : ℕ → ℕ
given_cflag c = bit_and (if bit_and c crtscts != 0 then bit_or c 0x8000 else c) 0xffff

abbrev cflag_stays : ℕ → Bool
cflag_stays x =
    if given_cflag (linux_cflag x) == x
    then given_cflag (linux_cflag (x + 0x8000)) == x + 0x8000
    else false

all_cflags_stay : holds_below cflag_stays 0x1000 ≡ true
unfolding holds_below
all_cflags_stay = refl

-- Twelve bits of control flags, with hardware flow control or without.
abbrev pub IsCflag : ℕ → Type 0
IsCflag c = (x : ℕ) × (x < 0x1000) × ((c ≡ x) ⊎ (c ≡ x + 0x8000))

given_cflag-linux_cflag : (c : ℕ) → IsCflag c → given_cflag (linux_cflag c) ≡ c
given_cflag-linux_cflag c (x, less, which) =
    let both = holds_at cflag_stays 0x1000 x all_cflags_stay less in
    elim (Bool-cases (given_cflag (linux_cflag x) == x)) [
      | inr wrong ↦ let z : false ≡ true = (rw wrong at both) in absurd (cc z)
      | inl plain ↦ elim which [
        | inl e ↦ rw e (==→eq _ x plain)
        | inr e ↦
            let flow : (given_cflag (linux_cflag (x + 0x8000)) == x + 0x8000) ≡ true =
              (rw plain at both) in
            rw e (==→eq _ (x + 0x8000) flow)
      ]
    ]

linux_lflag-clear :
    (old r : ℕ) → clear 0x81ff old ≡ 0 → bit_and old 0x200 ≡ 0 → linux_lflag old r ≡ linux_lflag 0 r
unfolding linux_lflag
linux_lflag-clear old r others echoctl = rw (others, echoctl) refl

-- What a program sets with svr4_to_linux_termios it reads back with linux_to_svr4_termios: thirteen bits of
-- flags for input and 16 for output, twelve of control flags and hardware flow control, the ten local flags, and the
-- characters that both systems have; for a terminal without ECHOCTL and the other local flags that
-- System V does not have.
pub linux_to_svr4_termios-svr4_to_linux_termios :
    (t it : Termios) (unset : ℕ → ℕ)
    → clear 0x81ff t.c_lflag ≡ 0
    → bit_and t.c_lflag 0x200 ≡ 0
    → it.c_iflag < 0x2000
    → it.c_oflag < 0x10000
    → IsCflag it.c_cflag
    → it.c_lflag < 0x400
    → (r : Termios) × (linux_to_svr4_termios true unset
          (svr4_to_linux_termios true (settings t) it).1
        ≡ settings r)
      × AreSame it r
unfolding linux_to_svr4_termios svr4_to_linux_termios
linux_to_svr4_termios-svr4_to_linux_termios t it unset others echoctl i o c l =
    let e = linux_lflag-clear t.c_lflag it.c_lflag others echoctl in
    let mode = is_canonical-moved_lflag it.c_lflag l in
    (
      _,
      refl,
      record {
        iflag = ==→eq _ it.c_iflag (holds_at stays 0x2000 it.c_iflag all_stay i);
        oflag = ==→eq _ it.c_oflag (holds_at stays_whole 0x10000 it.c_oflag all_stay_whole o);
        cflag = given_cflag-linux_cflag it.c_cflag c;
        lflag = rw e (moved_lflag-linux_lflag it.c_lflag l);
        cc = λ n shared.
            rw (e, mode)
              (svr4_cc-linux_cc (is_canonical (linux_lflag 0 it.c_lflag)) t.c_cc it.c_cc unset n
                shared);
      },
    )
