-- ===== src/ShortInode/Search.antt =====
-- The walk along a hash ring of ibcs/short-inode.c ends: a walk along links that run both ways, in a
-- table, comes back to where it started.
use ibcs_us.Prelude.{
  ℕ, zero, suc, ◌+◌, ◌-◌, ◌≤◌, ◌<◌, ◌≡◌, ◌≢◌, ◌⊎◌, inl, inr, refl, sym, ap, ◌∙◌, Bool, true, false,
  ◌&&◌, ◌||◌, some, ltb, ◌==◌, ◌!=◌, if◌then◌else◌, arith, Bool-cases, ==→eq,
}
use ibcs_us.ShortInode.{Table, max, is_unused, search}

-- Whether a value is met before some index.
meets : (ℕ → ℕ) → ℕ → ℕ → Bool
meets s v zero = false
meets s v (suc n) = s n == v || meets s v n

meets-true : (s : ℕ → ℕ) (v n : ℕ) → meets s v n ≡ true → (i : ℕ) × (i < n) × (s i ≡ v)
unfolding meets
meets-true s v zero h = absurd (cc)
meets-true s v (suc n) h = elim (Bool-cases (s n == v)) [
  | inl here ↦ (n, omega arith, ==→eq (s n) v here)
  | inr other ↦ let (i, lt, e) = meets-true s v n (ground arith) in (i, omega arith, e)
]

meets-false : (s : ℕ → ℕ) (v n i : ℕ) → meets s v n ≡ false → i < n → s i ≢ v
unfolding meets
meets-false s v zero i h lt = absurd (omega arith)
meets-false s v (suc n) i h lt = elim (Bool-cases (i == n)) [
  | inl last ↦ let e : i ≡ n = ==→eq i n last in ground arith
  | inr before ↦ meets-false s v n i (ground arith) (ground arith)
]

-- Of `n + 1` numbers below `n` two are equal.
pub pigeonhole :
    (n : ℕ) (s : ℕ → ℕ)
    → ((i : ℕ) → i ≤ n → s i < n)
    → (i : ℕ) × (j : ℕ) × (i < j) × (j ≤ n) × (s i ≡ s j)
pigeonhole zero s h = absurd (let z = h 0 (omega arith) in omega arith)
pigeonhole (suc n) s h = elim (Bool-cases (meets s (s (suc n)) (suc n))) [
  | inl again ↦
      let (i, lt, e) = meets-true s (s (suc n)) (suc n) again in (i, suc n, lt, omega arith, e)
  | inr new ↦
      let squeeze : ℕ → ℕ = λ i. if ltb (s (suc n)) (s i) then s i - 1 else s i in
      let (i, j, lt, le, e) = pigeonhole n squeeze (λ i le. ground (
        arith,
        h i (omega arith),
        h (suc n) (omega arith),
        meets-false s (s (suc n)) (suc n) i new (omega arith),
      )) in
      (
        i,
        j,
        lt,
        omega arith,
        ground (
          arith,
          meets-false s (s (suc n)) (suc n) i new (omega arith),
          meets-false s (s (suc n)) (suc n) j new (omega arith),
        ),
      )
]

-- A slot that is in use.
abbrev pub InUse : Table → ℕ → Type 0
InUse t i = (i < max) × (is_unused (t i).ino ≡ false)

-- The links of the hash rings run both ways, within the slots in use.
pub record IsLinked (t : Table) : Type 0 where
  pub next_used : (i : ℕ) → InUse t i → InUse t (t i).hash_next
  pub prev_used : (i : ℕ) → InUse t i → InUse t (t i).hash_prev
  pub prev_next : (i : ℕ) → InUse t i → (t (t i).hash_next).hash_prev ≡ i
  pub next_prev : (i : ℕ) → InUse t i → (t (t i).hash_prev).hash_next ≡ i

abbrev pub walk : Table → ℕ → ℕ → ℕ
walk t si zero = si
walk t si (suc n) = (t (walk t si n)).hash_next

walk_used : (t : Table) (si n : ℕ) → IsLinked t → InUse t si → InUse t (walk t si n)
walk_used t si zero l u = u
walk_used t si (suc n) l u = l.next_used (walk t si n) (walk_used t si n l u)

walk_back :
    (t : Table) (si i j d : ℕ)
    → IsLinked t
    → InUse t si
    → j ≡ i + d
    → walk t si i ≡ walk t si j
    → walk t si d ≡ si
walk_back t si zero j d l u ej e = let z : j ≡ d = omega arith in sym (rw z at e)
walk_back t si (suc i) zero d l u ej e = absurd (omega arith)
walk_back t si (suc i) (suc j) d l u ej e =
    let a = l.prev_next (walk t si i) (walk_used t si i l u) in
    let b = l.prev_next (walk t si j) (walk_used t si j l u) in
    walk_back t si i j d l u (omega arith) (sym a ∙ ap (λ (q : ℕ). (t q).hash_prev) e ∙ b)

-- A walk along a hash ring comes back to its start after as many steps as the table has slots, or
-- before.
pub walk_returns :
    (t : Table) (si : ℕ)
    → IsLinked t
    → InUse t si
    → (d : ℕ) × (0 < d) × (d ≤ max) × (walk t si d ≡ si)
walk_returns t si l u =
    let (i, j, lt, le, e) = pigeonhole max (walk t si) (λ i le. (walk_used t si i l u).0) in
    (j - i, omega arith, omega arith, walk_back t si i j (j - i) l u (omega arith) e)

walk-suc : (t : Table) (si n : ℕ) → walk t (t si).hash_next n ≡ walk t si (suc n)
walk-suc t si zero = refl
walk-suc t si (suc n) = ap (λ (q : ℕ). (t q).hash_next) (walk-suc t si n)

search_ends :
    (f d : ℕ) (t : Table) (ino first si : ℕ)
    → IsLinked t
    → InUse t si
    → walk t si d ≡ first
    → 0 < d
    → d ≤ f
    → (s : ℕ) × (search f t ino first si ≡ some s) × InUse t s × ((s ≡ first) ⊎ ((t s).ino ≡ ino))
unfolding search
search_ends zero d t ino first si l u e pos le = absurd (omega arith)
search_ends (suc f) zero t ino first si l u e pos le = absurd (omega arith)
search_ends (suc f) (suc d) t ino first si l u e pos le =
    let next = (t si).hash_next in
    let u' = l.next_used si u in
    elim (Bool-cases (next != first && (t next).ino != ino)) [
      | inr stop ↦ (next, rw stop refl, u', ground arith)
      | inl more ↦
          let e' : walk t next d ≡ first = walk-suc t si d ∙ e in
          let some_left : 0 < d = elim (Bool-cases (d == 0)) [
            | inl z ↦
                let d0 : d ≡ 0 = ==→eq d 0 z in
                let same : next ≡ first = (rw d0 at e') in absurd (ground arith)
            | inr nz ↦ ground arith
          ] in
          let (s, p, us, or) = search_ends f d t ino first next l u' e' some_left (omega arith) in
          (s, rw more p, us, or)
    ]

-- On the hash rings the search of `short_inode_map` ends, with the table's size as fuel: at the slot it
-- started from, or at one that has the inode. The slot is in use.
pub search_lem :
    (f : ℕ) (t : Table) (ino si : ℕ)
    → IsLinked t
    → InUse t si
    → max ≤ f
    → (s : ℕ) × (search f t ino si si ≡ some s) × InUse t s × ((s ≡ si) ⊎ ((t s).ino ≡ ino))
search_lem f t ino si l u le =
    let (d, pos, d_le, e) = walk_returns t si l u in
    search_ends f d t ino si si l u e pos (omega arith)
