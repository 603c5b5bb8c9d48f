-- ===== src/Termios/Tests.antt =====
-- The settings of a terminal at concrete values.
use ibcs_us.Prelude.{Option, none, ℕ, inr, ◌+◌, ◌≡◌, refl, true, false, some, [], arith}
use ibcs_us.Compat.{einval}
use ibcs_us.Termios.{
  Termios, Settings, failed, settings, efault, crtscts, svr_to_linux_termio, linux_to_svr_termio,
  linux_lflag, linux_cc, svr4_to_linux_termios, moved_lflag, svr4_cc, linux_to_svr4_termios,
}
use ibcs_us.Termios.Bsd
use ibcs_us.Termios.Bsd.{
  linux_to_bsd_termios, bsd_iflag, bsd_oflag, bsd_cflag, bsd_local, bsd_chars, bsd_ispeed,
  linux_speeds,
}
use ibcs_us.Termios.RoundTrip.{AreSame, linux_to_svr4_termios-svr4_to_linux_termios}
use ibcs_us.Termios.Speed.{
  speed_from, bsd_to_linux_speed, linux_to_bsd_speed, b57600, b38400, refuses, svr4_termiox_ioctl,
}

abbrev chars : ℕ → ℕ
chars i = i + 100

abbrev old_chars : ℕ → ℕ
old_chars i = i

-- What a program asks of a terminal that has ISIG, ICANON, ECHO and IEXTEN: raw, with IEXTEN and TOSTOP, and
-- hardware flow control.
abbrev asked : Termios
asked = record { c_iflag = 0x506; c_oflag = 5; c_cflag = 0x84bd; c_lflag = 0x301; c_cc = chars }

abbrev used : Termios
used = record { c_iflag = 0; c_oflag = 0; c_cflag = 0; c_lflag = 0x800b; c_cc = old_chars }

linux_to_svr4_termios-svr4_to_linux_termios_example :
    (r : Termios) × (linux_to_svr4_termios true old_chars
        (svr4_to_linux_termios true (settings used) asked).1
      ≡ settings r)
    × AreSame asked r
linux_to_svr4_termios-svr4_to_linux_termios_example =
    linux_to_svr4_termios-svr4_to_linux_termios used asked old_chars refl refl (omega arith)
      (omega arith) (0x4bd, omega arith, inr refl) (omega arith)

-- A terminal with ECHOCTL gets TOSTOP, which the program did not ask for.
tostop_set : linux_lflag 0x200 0 ≡ 0x300
unfolding linux_lflag
tostop_set = refl

-- VEOL2 is read from where setting does not put it.
eol2_lost : svr4_cc true (linux_cc true old_chars chars) old_chars 6 ≡ 116
unfolding svr4_cc linux_cc
eol2_lost = refl

abbrev raw : Termios
raw = record { c_iflag = 0; c_oflag = 0; c_cflag = 0x8000; c_lflag = 0; c_cc = chars }

abbrev cflag_of : Settings → ℕ
cflag_of (failed e) = 0
cflag_of (settings t) = t.c_cflag

-- Hardware flow control does not fit in the flags of `struct termio`.
flow_lost :
    (cflag_of (svr_to_linux_termio true (settings raw) raw) ≡ 0)
    × (cflag_of (svr4_to_linux_termios true (settings raw) raw).1 ≡ crtscts)
    × (cflag_of
          (linux_to_svr4_termios true old_chars (svr4_to_linux_termios true (settings raw) raw).1)
        ≡ 0x8000)
    × (svr_to_linux_termio false (failed 5) raw ≡ failed efault)
    × (linux_to_svr_termio true (failed 5) ≡ failed 5)
unfolding svr_to_linux_termio linux_to_svr_termio svr4_to_linux_termios linux_to_svr4_termios
    linux_lflag linux_cc moved_lflag svr4_cc
flow_lost = (refl, refl, refl, refl, refl)

speeds :
    (bsd_to_linux_speed 57600 ≡ b57600)
    × (bsd_to_linux_speed 5000 ≡ 13)
    × (bsd_to_linux_speed 60000 ≡ b38400)
    × (linux_to_bsd_speed 13 ≡ some 9600)
    × (svr4_termiox_ioctl true (failed 5) 9 (record { x_hflag = 0; x_rest = [] }) ≡ refuses einval)
    × (svr4_termiox_ioctl true (settings raw) 2 (record { x_hflag = 1; x_rest = [] })
        ≡ refuses einval)
unfolding bsd_to_linux_speed speed_from linux_to_bsd_speed svr4_termiox_ioctl
speeds = (refl, refl, refl, refl, refl, refl)

-- A terminal without settings: 9600 baud in and out.
abbrev plain : Termios
plain = record { c_iflag = 0; c_oflag = 0; c_cflag = 0xd; c_lflag = 2; c_cc = λ i. 0 }

abbrev speeds_of : Option Bsd.Given → Option (ℕ × ℕ)
speeds_of none = none
speeds_of (some (Bsd.refuses e)) = none
speeds_of (some (Bsd.gives b)) = some (b.c_ispeed, b.c_ospeed)

-- The bits for flow control are looked for in the old settings, and not in those of the program.
plain_speeds :
    (speeds_of (linux_to_bsd_termios true (settings plain)) ≡ some (9600, 9600))
    × (linux_speeds 0 0x30000 9600 9600 ≡ 0xd000d)
unfolding linux_to_bsd_termios bsd_iflag bsd_oflag bsd_cflag bsd_local bsd_chars bsd_ispeed
    linux_to_bsd_speed linux_speeds bsd_to_linux_speed speed_from
plain_speeds = (refl, refl)
