-- ===== src/ShortInode/Taken.antt =====
-- A slot of ibcs/short-inode.c is taken for an inode: it is alone on a hash ring, or it is put behind a
-- slot of a ring.
use ibcs_us.Prelude.{
  ℕ, ◌<◌, ◌≡◌, ◌≢◌, inl, inr, true, false, ◌==◌, if◌then◌else◌, arith, Bool-cases,
}
use ibcs_us.ShortInode.{Table, max, is_unused, set, hash_join}
use ibcs_us.ShortInode.Search.{InUse, IsLinked}

pub hash_join-next :
    (t : Table) (p n q : ℕ)
    → (hash_join t p n q).hash_next ≡ (if q == p then n else (t q).hash_next)
unfolding hash_join
hash_join-next t p n q = ground arith

pub hash_join-prev :
    (t : Table) (p n q : ℕ)
    → (hash_join t p n q).hash_prev ≡ (if q == n then p else (t q).hash_prev)
unfolding hash_join
hash_join-prev t p n q = ground arith

pub hash_join-ino : (t : Table) (p n q : ℕ) → (hash_join t p n q).ino ≡ (t q).ino
unfolding hash_join
hash_join-ino t p n q = ground arith

-- A table's slots after one of them, `nn`, was put between two neighbours on a ring, or alone on one.
pub record IsTaken (t t' : Table) (si nn n ino : ℕ) : Type 0 where
  pub taken_ino : (q : ℕ) → (t' q).ino ≡ (if q == nn then ino else (t q).ino)
  pub taken_next :
      (q : ℕ) → (t' q).hash_next ≡ (if q == si then nn else if q == nn then n else (t q).hash_next)
  pub taken_prev :
      (q : ℕ) → (t' q).hash_prev ≡ (if q == nn then si else if q == n then nn else (t q).hash_prev)

-- The slot in use for an inode that is alone on its ring.
unfoldable pub alone : Table → ℕ → ℕ → Table
alone t ino si = hash_join (set t si (record (t si) { ino = ino })) si si

pub alone-IsTaken : (t : Table) (ino si : ℕ) → IsTaken t (alone t ino si) si si si ino
unfolding alone
alone-IsTaken t ino si =
    let t1 = set t si (record (t si) { ino = ino }) in
    record {
      taken_ino = λ q. ground (arith, hash_join-ino t1 si si q);
      taken_next = λ q. ground (arith, hash_join-next t1 si si q);
      taken_prev = λ q. ground (arith, hash_join-prev t1 si si q);
    }

unfoldable pub behind : Table → ℕ → ℕ → ℕ → Table
behind t nn si ino =
    let t2 = hash_join t nn (t si).hash_next in
    let t3 = hash_join t2 si nn in set t3 nn (record (t3 nn) { ino = ino })

pub behind-IsTaken :
    (t : Table) (nn si ino : ℕ)
    → nn ≢ si
    → IsTaken t (behind t nn si ino) si nn (t si).hash_next ino
unfolding behind
behind-IsTaken t nn si ino ne =
    let n = (t si).hash_next in
    let t2 = hash_join t nn n in
    record {
      taken_ino = λ q. ground (arith, hash_join-ino t2 si nn q, hash_join-ino t nn n q);
      taken_next = λ q. ground (arith, hash_join-next t2 si nn q, hash_join-next t nn n q);
      taken_prev = λ q. ground (arith, hash_join-prev t2 si nn q, hash_join-prev t nn n q);
    }

pub alone-IsLinked :
    (t t' : Table) (ino si : ℕ)
    → IsLinked t
    → IsTaken t t' si si si ino
    → is_unused (t si).ino ≡ true
    → is_unused ino ≡ false
    → si < max
    → IsLinked t'
alone-IsLinked t t' ino si l k free real lt = record {
  next_used = λ i u. elim (Bool-cases (i == si)) [
    | inl here ↦ ground (arith, k.taken_next i, k.taken_ino si)
    | inr other ↦
        let was : InUse t i = (u.0, ground (arith, k.taken_ino i)) in
        ground (arith, k.taken_next i, k.taken_ino (t i).hash_next, l.next_used i was)
  ];
  prev_used = λ i u. elim (Bool-cases (i == si)) [
    | inl here ↦ ground (arith, k.taken_prev i, k.taken_ino si)
    | inr other ↦
        let was : InUse t i = (u.0, ground (arith, k.taken_ino i)) in
        ground (arith, k.taken_prev i, k.taken_ino (t i).hash_prev, l.prev_used i was)
  ];
  prev_next = λ i u. elim (Bool-cases (i == si)) [
    | inl here ↦ ground (arith, k.taken_next i, k.taken_prev si)
    | inr other ↦
        let was : InUse t i = (u.0, ground (arith, k.taken_ino i)) in
        ground (
          arith,
          k.taken_next i,
          k.taken_prev (t i).hash_next,
          l.next_used i was,
          l.prev_next i was,
        )
  ];
  next_prev = λ i u. elim (Bool-cases (i == si)) [
    | inl here ↦ ground (arith, k.taken_prev i, k.taken_next si)
    | inr other ↦
        let was : InUse t i = (u.0, ground (arith, k.taken_ino i)) in
        ground (
          arith,
          k.taken_prev i,
          k.taken_next (t i).hash_prev,
          l.prev_used i was,
          l.next_prev i was,
        )
  ];
}

pub behind-IsLinked :
    (t t' : Table) (ino si nn : ℕ)
    → IsLinked t
    → IsTaken t t' si nn (t si).hash_next ino
    → is_unused (t nn).ino ≡ true
    → is_unused ino ≡ false
    → InUse t si
    → nn < max
    → IsLinked t'
behind-IsLinked t t' ino si nn l k free real used lt = record {
  next_used = λ i u. elim (Bool-cases (i == nn)) [
    | inl here ↦ ground (arith, k.taken_next i, k.taken_ino (t si).hash_next, l.next_used si used)
    | inr other ↦
        let was : InUse t i = (u.0, ground (arith, k.taken_ino i)) in
        ground
          (arith, k.taken_next i, k.taken_ino nn, k.taken_ino (t i).hash_next, l.next_used i was)
  ];
  prev_used = λ i u. elim (Bool-cases (i == nn)) [
    | inl here ↦ ground (arith, k.taken_prev i, k.taken_ino si, used)
    | inr other ↦
        let was : InUse t i = (u.0, ground (arith, k.taken_ino i)) in
        ground
          (arith, k.taken_prev i, k.taken_ino nn, k.taken_ino (t i).hash_prev, l.prev_used i was)
  ];
  prev_next = λ i u. elim (Bool-cases (i == nn)) [
    | inl here ↦ ground (arith, k.taken_next i, k.taken_prev (t si).hash_next, l.next_used si used)
    | inr other ↦
        let was : InUse t i = (u.0, ground (arith, k.taken_ino i)) in
        ground (
          arith,
          k.taken_next i,
          k.taken_prev nn,
          k.taken_prev (t i).hash_next,
          l.next_used i was,
          l.prev_next i was,
          l.prev_next si used,
        )
  ];
  next_prev = λ i u. elim (Bool-cases (i == nn)) [
    | inl here ↦ ground (arith, k.taken_prev i, k.taken_next si)
    | inr other ↦
        let was : InUse t i = (u.0, ground (arith, k.taken_ino i)) in
        ground (
          arith,
          k.taken_prev i,
          k.taken_next nn,
          k.taken_next (t i).hash_prev,
          l.prev_used i was,
          l.next_prev i was,
          l.prev_next si used,
        )
  ];
}
