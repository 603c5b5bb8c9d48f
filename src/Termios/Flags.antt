-- ===== src/Termios/Flags.antt =====
-- The local flags of a terminal, set and read back.
use ibcs_us.Prelude.{
  ℕ, zero, suc, ◌<◌, ◌≡◌, inl, inr, refl, ◌==◌, Bool, true, false, if◌then◌else◌, bit_and,
  Bool-cases, arith, ==→eq,
}
use ibcs_us.Termios.{linux_lflag, moved_lflag}

-- A test of the numbers below a bound.
unfoldable pub holds_below : (ℕ → Bool) → ℕ → Bool
holds_below p zero = true
holds_below p (suc n) = if p n then holds_below p n else false

pub holds_at : (p : ℕ → Bool) (n x : ℕ) → holds_below p n ≡ true → x < n → p x ≡ true
unfolding holds_below
holds_at p zero x h less = absurd (omega arith)
holds_at p (suc n) x h less = elim (Bool-cases (p n)) [
  | inl last ↦
      let h' : holds_below p n ≡ true = (rw last at h) in
      elim (Bool-cases (x == n)) [
        | inl this ↦ rw (==→eq x n this) last
        | inr other ↦ holds_at p n x h' (ground arith)
      ]
  | inr fails ↦ let z : false ≡ true = (rw fails at h) in absurd (cc z)
]

abbrev comes_back : ℕ → Bool
comes_back r = bit_and (moved_lflag (linux_lflag 0 r)) 0x3ff == r

all_come_back : holds_below comes_back 0x400 ≡ true
unfolding holds_below linux_lflag moved_lflag
all_come_back = refl

-- The ten local flags that a program sets, of a terminal that had none, are those that it reads back.
pub moved_lflag-linux_lflag :
    (r : ℕ) → r < 0x400 → bit_and (moved_lflag (linux_lflag 0 r)) 0x3ff ≡ r
moved_lflag-linux_lflag r h = ==→eq _ r (holds_at comes_back 0x400 r all_come_back h)
