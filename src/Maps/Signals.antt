-- ===== src/Maps/Signals.antt =====
-- The sets of signals of ibcs/map.c.
use ibcs_us.Prelude.{
  ℕ, zero, suc, ◌+◌, ◌*◌, ◌%◌, ◌^◌, ◌≤◌, ◌<◌, ◌≡◌, ◌≢◌, ◌⊎◌, ◌↔◌, inl, inr, refl, Bool, true, false,
  ◌&&◌, ◌||◌, ◌==◌, ◌!=◌, if◌then◌else◌, bit_and, arith, Bool-cases, ==→eq,
}
use ibcs_us.Maps.{Sigset, sigaddset, no_signal, to_kernel_loop, map_sigvec_to_kernel}

-- `1 << k`, in 32 bits.
abbrev pub mask : ℕ → ℕ
mask zero = 1
mask (suc k) = mask k * 2 % 2 ^ 32

-- Signal `k + 1` of the other system is in the vector, and is mapped to `q`.
abbrev pub Gives : ℕ → (ℕ → ℕ) → ℕ → ℕ → Type 0
Gives vec map q k = (bit_and vec (mask k) ≢ 0) × (map (suc k) ≢ no_signal) × (map (suc k) ≡ q)

Bool-or_true : (b : Bool) → (b || true) ≡ true
Bool-or_true true = refl
Bool-or_true false = refl

-- One round of the loop.
abbrev round : ℕ → ℕ → (ℕ → ℕ) → Sigset → Sigset
round vec k map set =
    if bit_and vec (mask k) != 0 && map (suc k) != no_signal
    then sigaddset set (map (suc k))
    else set

round_forth :
    (vec k : ℕ) (map : ℕ → ℕ) (set : Sigset) (q : ℕ)
    → round vec k map set q ≡ true
    → (set q ≡ true) ⊎ Gives vec map q k
round_forth vec k map set q h =
    elim (Bool-cases (bit_and vec (mask k) != 0 && map (suc k) != no_signal)) [
      | inr skipped ↦ inl (rw skipped at h)
      | inl added ↦
          let h' : (q == map (suc k) || set q) ≡ true = (rw added at h) in
          elim (Bool-cases (q == map (suc k))) [
            | inl same ↦ inr (ground arith, ground arith, ground arith)
            | inr other ↦ inl (rw other at h')
          ]
    ]

to_kernel_forth :
    (n vec k : ℕ) (map : ℕ → ℕ) (set : Sigset) (q : ℕ)
    → to_kernel_loop n vec (mask k) (suc k) map set q ≡ true
    → (set q ≡ true) ⊎ ((j : ℕ) × (j < n + k) × Gives vec map q j)
unfolding to_kernel_loop
to_kernel_forth zero vec k map set q h = inl h
to_kernel_forth (suc n) vec k map set q h =
    elim (to_kernel_forth n vec (suc k) map (round vec k map set) q h) [
      | inl in_round ↦ elim (round_forth vec k map set q in_round) [
        | inl before ↦ inl before
        | inr here ↦ inr (k, omega arith, here)
      ]
      | inr (j, lt, later) ↦ inr (j, omega arith, later)
    ]

round_keeps :
    (vec k : ℕ) (map : ℕ → ℕ) (set : Sigset) (q : ℕ) → set q ≡ true → round vec k map set q ≡ true
round_keeps vec k map set q h =
    elim (Bool-cases (bit_and vec (mask k) != 0 && map (suc k) != no_signal)) [
      | inr skipped ↦ rw skipped h
      | inl added ↦ rw (added, h) (Bool-or_true (q == map (suc k)))
    ]

round_adds :
    (vec k : ℕ) (map : ℕ → ℕ) (set : Sigset) (q : ℕ)
    → Gives vec map q k
    → round vec k map set q ≡ true
round_adds vec k map set q (bit, real, e) = ground arith

to_kernel_keeps :
    (n vec k : ℕ) (map : ℕ → ℕ) (set : Sigset) (q : ℕ)
    → set q ≡ true
    → to_kernel_loop n vec (mask k) (suc k) map set q ≡ true
unfolding to_kernel_loop
to_kernel_keeps zero vec k map set q h = h
to_kernel_keeps (suc n) vec k map set q h =
    to_kernel_keeps n vec (suc k) map (round vec k map set) q (round_keeps vec k map set q h)

to_kernel_back :
    (n vec k j : ℕ) (map : ℕ → ℕ) (set : Sigset) (q : ℕ)
    → k ≤ j
    → j < n + k
    → Gives vec map q j
    → to_kernel_loop n vec (mask k) (suc k) map set q ≡ true
unfolding to_kernel_loop
to_kernel_back zero vec k j map set q le lt g = absurd (omega arith)
to_kernel_back (suc n) vec k j map set q le lt g = elim (Bool-cases (k == j)) [
  | inl here ↦
      let e : k ≡ j = ==→eq k j here in
      to_kernel_keeps n vec (suc k) map (round vec k map set) q
        (round_adds vec k map set q (rw e g))
  | inr later ↦
      to_kernel_back n vec (suc k) j map (round vec k map set) q (ground arith) (omega arith) g
]

-- A number that a `sigset_t` has a bit for.
abbrev pub IsSignal : ℕ → Type 0
IsSignal s = (1 ≤ s) × (s ≤ 64)

-- A signal is in the set that `map_sigvec_to_kernel` makes exactly if one of the 32 signals of the
-- vector is mapped to it. What the table maps to is a signal or none: for another number the code
-- writes outside the set.
pub map_sigvec_to_kernel_lem :
    (vec : ℕ) (map : ℕ → ℕ) (q : ℕ)
    → ((k : ℕ) → k < 32 → (map (suc k) ≡ no_signal) ⊎ IsSignal (map (suc k)))
    → (map_sigvec_to_kernel vec map q ≡ true) ↔ ((k : ℕ) × (k < 32) × Gives vec map q k)
unfolding map_sigvec_to_kernel
map_sigvec_to_kernel_lem vec map q in_set = (
  λ h. elim (to_kernel_forth 32 vec 0 map (λ q. false) q h) [
    | inl before ↦ absurd (cc before)
    | inr g ↦ g
  ],
  λ (k, lt, g). to_kernel_back 32 vec 0 k map (λ q. false) q (omega arith) (omega arith) g,
)
