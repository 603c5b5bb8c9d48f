-- ===== src/Maps/Tests.antt =====
-- Maps at concrete tables.
use ibcs_us.Prelude.{
  arith, ℕ, ◌+◌, ◌-◌, ◌<◌, ◌≡◌, ◌↔◌, refl, true, false, some, none, [], ◌∷◌, ◌==◌, if◌then◌else◌,
}
use ibcs_us.Memory.{Memory}
use ibcs_us.Maps.{
  map_flags, flags_loop, map_bitvec, bitvec_loop, map_sigvec_from_kernel, from_kernel_loop,
  map_sigvec_to_kernel, to_kernel_loop, Segment, value_in, map_value, search_segments, no_signal,
}
use ibcs_us.Maps.Signals.{Gives, map_sigvec_to_kernel_lem}

-- Signal 3 is mapped to 5, signal 4 to none, and every other to 2.
abbrev signals : ℕ → ℕ
signals i = if i == 3 then 5 else if i == 4 then no_signal else 2

vectors :
    (map_bitvec 0b100 signals ≡ 0b10000)
    × (map_bitvec 0b1101 signals ≡ 0b10010)
    × (map_sigvec_from_kernel (λ q. q == 3) signals ≡ 0b10000)
    × (map_sigvec_to_kernel 0b1100 signals 5 ≡ true)
    × (map_sigvec_to_kernel 0b1100 signals 2 ≡ false)
    × (map_flags 0b101 (λ i. i + 1) ≡ 3)
unfolding map_bitvec bitvec_loop map_sigvec_from_kernel from_kernel_loop map_sigvec_to_kernel
    to_kernel_loop map_flags flags_loop
vectors = (refl, refl, refl, refl, refl, refl)

map_sigvec_to_kernel_lem_example :
    (map_sigvec_to_kernel 0b1100 signals 5 ≡ true) ↔ ((k : ℕ) × (k < 32) × Gives 0b1100 signals 5 k)
map_sigvec_to_kernel_lem_example = map_sigvec_to_kernel_lem 0b1100 signals 5 (λ k h. ground arith)

abbrev one : Segment
one = record { first = 7; last = 7; map = 70 }

abbrev many : Segment
many = record { first = 10; last = 19; map = 1000 }

abbrev bytes : Memory
bytes q = q - 900

values :
    (map_value bytes (some (one ∷ many ∷ [])) 12 99 ≡ 102)
    × (map_value bytes (some (one ∷ many ∷ [])) 7 99 ≡ 70)
    × (map_value bytes (some (one ∷ many ∷ [])) 20 99 ≡ 99)
    × (map_value bytes none 20 99 ≡ 20)
unfolding map_value search_segments value_in
values = (refl, refl, refl, refl)
