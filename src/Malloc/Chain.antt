-- ===== src/Malloc/Chain.antt =====
-- The headers in ascending order of their addresses, from one to another.
use ibcs_us.Prelude.{
  ℕ, ◌%◌, ◌≤◌, ◌<◌, ◌≡◌, ◌≢◌, ◌⊎◌, inl, inr, refl, sym, subst, ◌==◌, false, arith,
}
use ibcs_us.Malloc.{clear_busy, write}

-- The headers from `a` on lead to `z`, each to one behind it.
pub data Leads (word : ℕ → ℕ) : ℕ → ℕ → Type 0 where
  there : (a : ℕ) → Leads word a a
  onward :
      (a z : ℕ)
      → a < clear_busy (word a)
      → clear_busy (word a) % 4 ≡ 0
      → Leads word (clear_busy (word a)) z
      → Leads word a z

pub Leads_le : (word : ℕ → ℕ) (a z : ℕ) → Leads word a z → a ≤ z
Leads_le word a z (there _) = omega arith
Leads_le word a z (onward _ _ up even l) =
    let le = Leads_le word (clear_busy (word a)) z l in omega arith

pub Leads_append : (word : ℕ → ℕ) (a b c : ℕ) → Leads word a b → Leads word b c → Leads word a c
Leads_append word a b c (there _) k = k
Leads_append word a b c (onward _ _ up even l) k =
    onward a c up even (Leads_append word (clear_busy (word a)) b c l k)

-- Only the headers from the first on and before the last are read.
pub Leads_same :
    (word word' : ℕ → ℕ) (a z : ℕ)
    → ((q : ℕ) → a ≤ q → q < z → clear_busy (word' q) ≡ clear_busy (word q))
    → Leads word a z
    → Leads word' a z
Leads_same word word' a z same (there _) = there a
Leads_same word word' a z same (onward _ _ up even l) =
    let n = clear_busy (word a) in
    let le = Leads_le word n z l in
    let e : n ≡ clear_busy (word' a) = sym (same a (omega arith) (omega arith)) in
    let l' = Leads_same word word' n z (λ q low high. same q (omega arith) high) l in
    onward a z (omega (arith, up, e)) (omega (arith, even, e)) (subst (λ x. Leads word' x z) e l')

-- Two headers that a third leads to: one of them leads to the other.
pub Leads_linear :
    (word : ℕ → ℕ) (a q p : ℕ) → Leads word a q → Leads word a p → Leads word q p ⊎ Leads word p q
Leads_linear word a q p (there _) k = inl k
Leads_linear word a q p (onward _ _ up even l) (there _) = inr (onward a q up even l)
Leads_linear word a q p (onward _ _ up even l) (onward _ _ up' even' k) =
    Leads_linear word (clear_busy (word a)) q p l k

-- A word before the first of the headers, or not before the last, may change.
pub Leads-before :
    (word : ℕ → ℕ) (x v a z : ℕ) → x < a → Leads word a z → Leads (write word x v) a z
Leads-before word x v a z h l =
    Leads_same word (write word x v) a z
      (λ q low high. let other : (q == x) ≡ false = ground arith in rw other refl) l

pub Leads-behind :
    (word : ℕ → ℕ) (x v a z : ℕ) → z ≤ x → Leads word a z → Leads (write word x v) a z
Leads-behind word x v a z h l =
    Leads_same word (write word x v) a z
      (λ q low high. let other : (q == x) ≡ false = ground arith in rw other refl) l

-- One header further, and back.
pub Leads_next :
    (word : ℕ → ℕ) (a z : ℕ)
    → Leads word a z
    → a ≢ z
    → (a < clear_busy (word a)) × (clear_busy (word a) % 4 ≡ 0) × Leads word (clear_busy (word a)) z
Leads_next word a z (there _) ne = absurd (ne refl)
Leads_next word a z (onward _ _ up even l) ne = (up, even, l)

pub Leads_onward :
    (word : ℕ → ℕ) (a n z : ℕ)
    → clear_busy (word a) ≡ n
    → a < n
    → n % 4 ≡ 0
    → Leads word n z
    → Leads word a z
Leads_onward word a n z e up even l =
    onward a z (omega (arith, e, up)) (omega (arith, e, even))
      (subst (λ x. Leads word x z) (sym e) l)

pub Leads_aligned : (word : ℕ → ℕ) (a z : ℕ) → a % 4 ≡ 0 → Leads word a z → z % 4 ≡ 0
Leads_aligned word a z h (there _) = h
Leads_aligned word a z h (onward _ _ up even l) = Leads_aligned word (clear_busy (word a)) z even l
