-- ===== src/ShortInode/Links.antt =====
-- The hash rings of ibcs/short-inode.c stay rings when a slot is taken for an inode.
use ibcs_us.Prelude.{ℕ, ◌≡◌, ◌∙◌, false, ◌==◌, if◌then◌else◌, arith}
use ibcs_us.ShortInode.{Table, is_unused, set, lazy_init, lru_join, lru_free, touch}
use ibcs_us.ShortInode.Search.{IsLinked}

-- The same inodes are in use, on the same hash rings.
pub record SameRings (t t' : Table) : Type 0 where
  pub same_use : (q : ℕ) → is_unused (t' q).ino ≡ is_unused (t q).ino
  pub same_next : (q : ℕ) → (t' q).hash_next ≡ (t q).hash_next
  pub same_prev : (q : ℕ) → (t' q).hash_prev ≡ (t q).hash_prev
  pub same_ino : (q : ℕ) → is_unused (t q).ino ≡ false → (t' q).ino ≡ (t q).ino

pub SameRings-trans : (t t' t'' : Table) → SameRings t t' → SameRings t' t'' → SameRings t t''
SameRings-trans t t' t'' a b = record {
  same_use = λ q. b.same_use q ∙ a.same_use q;
  same_next = λ q. b.same_next q ∙ a.same_next q;
  same_prev = λ q. b.same_prev q ∙ a.same_prev q;
  same_ino = λ q h. b.same_ino q (a.same_use q ∙ h) ∙ a.same_ino q h;
}

pub SameRings-lazy_init : (t : Table) (e : ℕ) → SameRings t (lazy_init t e)
unfolding lazy_init
SameRings-lazy_init t e = record {
  same_use = λ q. ground arith;
  same_next = λ q. ground arith;
  same_prev = λ q. ground arith;
  same_ino = λ q h. ground arith;
}

SameRings-lru_links :
    (t : Table) (p n : ℕ)
    → SameRings t (
        let t2 = set t p (record (t p) { lru_next = n }) in
        set t2 n (record (t2 n) { lru_prev = p }))
SameRings-lru_links t p n = record {
  same_use = λ q. ground arith;
  same_next = λ q. ground arith;
  same_prev = λ q. ground arith;
  same_ino = λ q h. ground arith;
}

pub SameRings-lru_join : (t : Table) (p n : ℕ) → SameRings t (lru_join t p n)
unfolding lru_join
SameRings-lru_join t p n = SameRings-trans t (lazy_init t p) _ (SameRings-lazy_init t p) (
    SameRings-trans (lazy_init t p) (lazy_init (lazy_init t p) n) _
      (SameRings-lazy_init (lazy_init t p) n)
      (SameRings-lru_links (lazy_init (lazy_init t p) n) p n))

-- Moving a slot on the ring of recent use leaves the hash rings as they are.
pub SameRings-touch : (t : Table) (o si : ℕ) → SameRings t (touch t o si).0
unfolding touch lru_free
SameRings-touch t o si =
    let t1 = lru_join t (t si).lru_prev (t si).lru_next in
    let o' : ℕ = if si == o then (t si).lru_next else o in
    let t2 = lazy_init t1 o' in
    let t3 = lru_join t2 (t2 o').lru_prev si in
    SameRings-trans t t1 _ (SameRings-lru_join t (t si).lru_prev (t si).lru_next) (
      SameRings-trans t1 t2 _ (SameRings-lazy_init t1 o') (
        SameRings-trans t2 t3 _ (SameRings-lru_join t2 (t2 o').lru_prev si)
          (SameRings-lru_join t3 si o')))

-- Slots with the same inodes and hash links are on the same hash rings.
pub SameRings-IsLinked : (t t' : Table) → SameRings t t' → IsLinked t → IsLinked t'
SameRings-IsLinked t t' s l = record {
  next_used = λ i (lt, u). ground (
    arith,
    s.same_use i,
    s.same_next i,
    s.same_use (t i).hash_next,
    l.next_used i (lt, ground (arith, s.same_use i)),
  );
  prev_used = λ i (lt, u). ground (
    arith,
    s.same_use i,
    s.same_prev i,
    s.same_use (t i).hash_prev,
    l.prev_used i (lt, ground (arith, s.same_use i)),
  );
  prev_next = λ i (lt, u). ground (
    arith,
    s.same_next i,
    s.same_prev (t i).hash_next,
    l.prev_next i (lt, ground (arith, s.same_use i)),
  );
  next_prev = λ i (lt, u). ground (
    arith,
    s.same_prev i,
    s.same_next (t i).hash_prev,
    l.next_prev i (lt, ground (arith, s.same_use i)),
  );
}
