-- ===== src/Memory.antt =====
-- The byte-addressed memory that C pointers point into, and what a C string in it is. A pointer is
-- an address, the null pointer is `none` where a function can return it.
use ibcs_us.Prelude.{
  ltb, get_or, ◌-◌, ℕ, ◌+◌, ◌≤◌, ◌≡◌, ◌≢◌, List, [], ◌∷◌, if◌then◌else◌, ◌==◌, length, arith,
}

abbrev pub Memory : Type 0
Memory = ℕ → ℕ

-- `*p = v`
abbrev pub store : Memory → ℕ → ℕ → Memory
store m p v q = if q == p then v else m q

-- The memory that holds some bytes from an address on, and is NUL elsewhere.
abbrev pub holding : ℕ → List ℕ → Memory
holding s bs q = if ltb q s then 0 else get_or bs (q - s) 0

-- `bs` is the string that `s` points to: its bytes, none of them NUL, and then NUL.
abbrev pub IsStringAt : Memory → ℕ → List ℕ → Type 0
IsStringAt m s [] = m s ≡ 0
IsStringAt m s (b ∷ bs) = (m s ≡ b) × (b ≢ 0) × IsStringAt m (s + 1) bs

-- The bytes at `s` are `bs`, whatever follows them.
abbrev pub HasBytes : Memory → ℕ → List ℕ → Type 0
HasBytes m s [] = Unit {0}
HasBytes m s (b ∷ bs) = (m s ≡ b) × HasBytes m (s + 1) bs

-- Memory that agrees on the string's addresses holds the same string.
pub IsStringAt-agree :
    (m m' : Memory) (s : ℕ) (bs : List ℕ)
    → ((q : ℕ) → s ≤ q → q ≤ s + length bs → m' q ≡ m q)
    → IsStringAt m s bs
    → IsStringAt m' s bs
IsStringAt-agree m m' s [] same h = omega (arith, same s (omega arith) (omega arith))
IsStringAt-agree m m' s (b ∷ bs) same (e, nz, h) = (
  omega (arith, same s (omega arith) (omega arith)),
  nz,
  IsStringAt-agree m m' (s + 1) bs (λ q lo hi. same q (omega arith) (omega arith)) h,
)
