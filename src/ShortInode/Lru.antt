-- ===== src/ShortInode/Lru.antt =====
-- The ring of the slots of ibcs/short-inode.c by the time of their last use.
use ibcs_us.Prelude.{ℕ, ◌+◌, ◌-◌, ◌%◌, ◌<◌, ◌==◌, if◌then◌else◌, ◌≡◌, ◌≢◌, ◌∙◌, arith}
use ibcs_us.ShortInode.{Table, max, lazy_init, lru_join, lru_free, touch}

-- The slot that is used next after `i`, written or not.
abbrev pub later : Table → ℕ → ℕ
later t i = if (t i).ino == 0 then (i + 1) % max else (t i).lru_next

-- The slot that was used last before `i`, written or not.
abbrev pub earlier : Table → ℕ → ℕ
earlier t i = if (t i).ino == 0 then (i + max - 1) % max else (t i).lru_prev

-- The links of the ring of recent use run both ways, and within the table.
pub record IsRing (nx pv : ℕ → ℕ) : Type 0 where
  pub next_in : (i : ℕ) → i < max → nx i < max
  pub prev_in : (i : ℕ) → i < max → pv i < max
  pub next_prev : (i : ℕ) → i < max → nx (pv i) ≡ i
  pub prev_next : (i : ℕ) → i < max → pv (nx i) ≡ i

pub lazy_init-later : (t : Table) (e q : ℕ) → later (lazy_init t e) q ≡ later t q
unfolding lazy_init
lazy_init-later t e q = ground arith

pub lazy_init-earlier : (t : Table) (e q : ℕ) → earlier (lazy_init t e) q ≡ earlier t q
unfolding lazy_init
lazy_init-earlier t e q = ground arith

lazy_init_written : (t : Table) (e : ℕ) → (lazy_init t e e).ino ≢ 0
unfolding lazy_init
lazy_init_written t e = ground arith

lazy_init_still : (t : Table) (e q : ℕ) → (t q).ino ≢ 0 → (lazy_init t e q).ino ≢ 0
unfolding lazy_init
lazy_init_still t e q h = ground arith

pub lru_join-later :
    (t : Table) (p n q : ℕ) → later (lru_join t p n) q ≡ (if q == p then n else later t q)
unfolding lru_join
lru_join-later t p n q = ground (
  arith,
  lazy_init-later (lazy_init t p) n q,
  lazy_init-later t p q,
  lazy_init_written (lazy_init t p) n,
  lazy_init_still (lazy_init t p) n p (lazy_init_written t p),
)

pub lru_join-earlier :
    (t : Table) (p n q : ℕ) → earlier (lru_join t p n) q ≡ (if q == n then p else earlier t q)
unfolding lru_join
lru_join-earlier t p n q = ground (
  arith,
  lazy_init-earlier (lazy_init t p) n q,
  lazy_init-earlier t p q,
  lazy_init_written (lazy_init t p) n,
  lazy_init_still (lazy_init t p) n p (lazy_init_written t p),
)

-- The links when a slot is taken out of the ring and put in before slot `o`.
module _ (nx pv : ℕ → ℕ) (o si : ℕ) where
  abbrev pub oldest_after : ℕ
  oldest_after = if si == o then nx si else o

  abbrev pub next_out : ℕ → ℕ
  next_out q = if q == pv si then nx si else nx q

  abbrev pub prev_out : ℕ → ℕ
  prev_out q = if q == nx si then pv si else pv q

  abbrev pub next_moved : ℕ → ℕ
  next_moved q =
      if q == si then oldest_after else if q == prev_out oldest_after then si else next_out q

  abbrev pub prev_moved : ℕ → ℕ
  prev_moved q =
      if q == oldest_after then si else if q == si then prev_out oldest_after else prev_out q

  module _ (ring : IsRing nx pv) (o_in : o < max) (si_in : si < max) where
    o_after_in : oldest_after < max
    o_after_in = ground (arith, ring.next_in si si_in)

    prev_o_in : prev_out oldest_after < max
    prev_o_in = ground (arith, ring.prev_in si si_in, ring.prev_in oldest_after o_after_in)

    moved_next_prev : (q : ℕ) → q < max → next_moved (prev_moved q) ≡ q
    moved_next_prev q h = ground (
      arith,
      ring.next_prev q h,
      ring.next_prev si si_in,
      ring.prev_next si si_in,
      ring.next_prev o o_in,
      ring.next_prev (nx si) (ring.next_in si si_in),
    )

    moved_prev_next : (q : ℕ) → q < max → prev_moved (next_moved q) ≡ q
    moved_prev_next q h = ground (
      arith,
      ring.prev_next q h,
      ring.next_prev si si_in,
      ring.prev_next si si_in,
      ring.next_prev o o_in,
      ring.prev_next (pv si) (ring.prev_in si si_in),
      ring.next_prev oldest_after o_after_in,
      ring.next_prev (nx si) (ring.next_in si si_in),
    )

    pub moved-IsRing : IsRing next_moved prev_moved
    moved-IsRing = record {
      next_in = λ q h. ground (arith, ring.next_in q h, ring.next_in si si_in, o_after_in);
      prev_in = λ q h. ground (arith, ring.prev_in q h, ring.prev_in si si_in, prev_o_in);
      next_prev = moved_next_prev;
      prev_next = moved_prev_next;
    }

lazy_init-prev : (t : Table) (o : ℕ) → (lazy_init t o o).lru_prev ≡ earlier t o
unfolding lazy_init
lazy_init-prev t o = ground arith

pub touch_step :
    (t : Table) (o si q : ℕ)
    → (t si).ino ≢ 0
    → (later (touch t o si).0 q ≡ next_moved (later t) (earlier t) o si q)
      × (earlier (touch t o si).0 q ≡ prev_moved (later t) (earlier t) o si q)
      × ((touch t o si).1 ≡ oldest_after (later t) (earlier t) o si)
unfolding touch lru_free
touch_step t o si q w =
    let p = (t si).lru_prev in
    let n = (t si).lru_next in
    let o' : ℕ = if si == o then n else o in
    let t1 = lru_join t p n in
    let t2 = lazy_init t1 o' in
    let t3 = lru_join t2 (t2 o').lru_prev si in
    let is_n : later t si ≡ n = ground arith in
    let is_p : earlier t si ≡ p = ground arith in
    let is_o : o' ≡ oldest_after (later t) (earlier t) o si = ground arith in
    let po : (t2 o').lru_prev ≡ prev_out (later t) (earlier t) o si o' =
      lazy_init-prev t1 o' ∙ ground (arith, lru_join-earlier t p n o') in
    (
      lru_join-later t3 si o' q
          ∙ ground (
            arith,
            lru_join-later t2 (t2 o').lru_prev si q,
            lazy_init-later t1 o' q,
            lru_join-later t p n q,
          ),
      lru_join-earlier t3 si o' q
          ∙ ground (
            arith,
            lru_join-earlier t2 (t2 o').lru_prev si q,
            lazy_init-earlier t1 o' q,
            lru_join-earlier t p n q,
          ),
      is_o,
    )

-- Slots with the same links on the ring of recent use.
pub same_links-IsRing :
    (nx nx' pv pv' : ℕ → ℕ)
    → ((q : ℕ) → nx' q ≡ nx q)
    → ((q : ℕ) → pv' q ≡ pv q)
    → IsRing nx pv
    → IsRing nx' pv'
same_links-IsRing nx nx' pv pv' sn sp ring = record {
  next_in = λ q h. ground (arith, sn q, ring.next_in q h);
  prev_in = λ q h. ground (arith, sp q, ring.prev_in q h);
  next_prev = λ q h. ground (arith, sp q, sn (pv q), ring.next_prev q h);
  prev_next = λ q h. ground (arith, sn q, sp (nx q), ring.prev_next q h);
}

-- Moving a slot to the end of the ring of recent use keeps it a ring, whatever was on it, and the slot
-- is then the last before the oldest, which is a slot of the table. The slot has been written.
pub touch-IsRing :
    (t : Table) (o si : ℕ)
    → IsRing (later t) (earlier t)
    → o < max
    → si < max
    → (t si).ino ≢ 0
    → IsRing (later (touch t o si).0) (earlier (touch t o si).0)
      × ((touch t o si).1 < max)
      × (earlier (touch t o si).0 (touch t o si).1 ≡ si)
touch-IsRing t o si ring o_in si_in w =
    let ring' = moved-IsRing (later t) (earlier t) o si ring o_in si_in in
    let (a, b, c) = touch_step t o si (touch t o si).1 w in
    (
      same_links-IsRing _ _ _ _ (λ q. (touch_step t o si q w).0) (λ q. (touch_step t o si q w).1)
          ring',
      ground (arith, o_after_in (later t) (earlier t) o si ring o_in si_in, c),
      ground (arith, b, c),
    )
