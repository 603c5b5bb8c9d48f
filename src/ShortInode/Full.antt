-- ===== src/ShortInode/Full.antt =====
-- What `short_inode_map` of ibcs/short-inode.c does when every slot is in use.
use ibcs_us.Prelude.{ℕ, ◌≡◌, ◌≢◌, refl, false, arith}
use ibcs_us.ShortInode.{Table, is_unused, lazy_init, hash_join, hash_free, grab}
use ibcs_us.ShortInode.Search.{InUse, IsLinked}
use ibcs_us.ShortInode.Taken.{hash_join-next, hash_join-prev, hash_join-ino}

lazy_init_used : (t : Table) (o : ℕ) → is_unused (t o).ino ≡ false → lazy_init t o ≡ t
unfolding lazy_init
lazy_init_used t o u = ground arith

-- If the least recently used slot is itself the slot of the hash value, and others are on its ring, to
-- take it for another inode breaks the ring: the links of the table do not run both ways any more.
pub grab-IsLinked :
    (t : Table) (o ino : ℕ)
    → IsLinked t
    → InUse t o
    → (t o).hash_next ≢ o
    → ¬ IsLinked (grab t o ino o)
unfolding grab hash_free
grab-IsLinked t o ino l used more broken =
    let n = (t o).hash_next in
    let p = (t o).hash_prev in
    let t1 = hash_join t p n in
    let t2 = hash_join t1 o (t1 o).hash_next in
    let t3 = hash_join t2 o o in
    let e0 = lazy_init_used t o used.1 in
    let e1 : hash_free (lazy_init t o) o ≡ t1 = rw (e0, used.1) refl in
    let n_next : (t1 o).hash_next ≡ n = ground (arith, hash_join-next t p n o) in
    let prev_n : (grab t o ino o n).hash_prev ≡ o =
      rw (e1) (ground (arith, hash_join-prev t2 o o n, hash_join-prev t1 o (t1 o).hash_next n)) in
    let next_o : (grab t o ino o o).hash_next ≡ o =
      rw (e1) (ground (arith, hash_join-next t2 o o o)) in
    let n_used : InUse (grab t o ino o) n = rw (e1) (
      ground (
        arith,
        hash_join-ino t2 o o n,
        hash_join-ino t1 o (t1 o).hash_next n,
        hash_join-ino t p n n,
        l.next_used o used,
      )) in
    ground (arith, broken.next_prev n n_used, prev_n, next_o)
