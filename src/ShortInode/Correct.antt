-- ===== src/ShortInode/Correct.antt =====
-- `short_inode_map` of ibcs/short-inode.c: what a call returns and leaves.
use ibcs_us.Prelude.{ℕ, ◌+◌, ◌≤◌, ◌<◌, ◌≡◌, refl, true, false, some, leb, arith}
use ibcs_us.ShortInode.{
  Table, max, unmapped, unused, is_unused, touch, short_inode_map, zeroed, short_inode_construct,
}
use ibcs_us.ShortInode.Lru.{later, earlier, same_links-IsRing, touch-IsRing}
use ibcs_us.ShortInode.Links.{SameRings, SameRings-touch, SameRings-IsLinked}
use ibcs_us.ShortInode.Again.{IsLocated, allocate-IsLocated, IsLocated-SameRings}
use ibcs_us.ShortInode.Allocate.{IsTable, allocate_lem}

module _ (f : ℕ) (t : Table) (o ino : ℕ) (table : IsTable t o) (fuel : max ≤ f)
    (real : unmapped < ino) (small : ino < unused) (room : is_unused (t o).ino ≡ true) where
  -- Where the oldest slot is free and the fuel is the table's size, a call for an inode number that is
  -- mapped ends. It returns the number of a slot that holds the inode, 16 bits wide and above those that
  -- are never mapped; the slot is now the most recently used and a search finds it; and the rings are
  -- rings again.
  pub short_inode_map_lem :
      (t' : Table) × (o' : ℕ) × (si : ℕ) × (short_inode_map f
          (record { table = some t; oldest = o })
          ino
        ≡ some (record { table = some t'; oldest = o' }, si + unmapped + 1))
      × IsTable t' o'
      × IsLocated f t' ino si
      × (si + unmapped + 1 < 0x10000)
      × (earlier t' o' ≡ si)
  unfolding short_inode_map
  short_inode_map_lem =
      let (t1, si, e, a) = allocate_lem f t o ino table fuel real small room in
      let above : leb ino unmapped ≡ false = ground arith in
      let ring1 =
        same_links-IsRing (later t) (later t1) (earlier t) (earlier t1) (λ q. (a.same_order q).0)
          (λ q. (a.same_order q).1) table.ring in
      let kept = SameRings-touch t1 o si in
      let links2 = SameRings-IsLinked t1 (touch t1 o si).0 kept a.located.linked in
      let (ring2, o_in, last) =
        touch-IsRing t1 o si ring1 table.oldest_in a.in_table (ground (arith, a.located.si_ino)) in
      (
        (touch t1 o si).0,
        (touch t1 o si).1,
        si,
        rw (above, e) refl,
        record { ring = ring2; links = links2; oldest_in = o_in },
        IsLocated-SameRings f t1 (touch t1 o si).0 ino si kept links2 (ground arith) a.located,
        omega (arith, a.in_table),
        last,
      )

-- A call for an inode that the search finds in a slot ends, gives the number of that slot, takes no slot from
-- another inode, and keeps the rings rings.
pub short_inode_map-IsLocated :
    (f : ℕ) (t : Table) (o ino si : ℕ)
    → IsTable t o
    → IsLocated f t ino si
    → si < max
    → unmapped < ino
    → ino < unused
    → (t' : Table) × (o' : ℕ) × (short_inode_map f (record { table = some t; oldest = o }) ino
        ≡ some (record { table = some t'; oldest = o' }, si + unmapped + 1))
      × IsTable t' o'
      × SameRings t t'
      × IsLocated f t' ino si
unfolding short_inode_map
short_inode_map-IsLocated f t o ino si table loc si_in real small =
    let above : leb ino unmapped ≡ false = ground arith in
    let kept = SameRings-touch t o si in
    let links2 = SameRings-IsLinked t (touch t o si).0 kept table.links in
    let (ring2, o_in, last) =
      touch-IsRing t o si table.ring table.oldest_in si_in (ground (arith, loc.si_ino)) in
    (
      (touch t o si).0,
      (touch t o si).1,
      rw (above, allocate-IsLocated f t o ino si loc) refl,
      record { ring = ring2; links = links2; oldest_in = o_in },
      kept,
      IsLocated-SameRings f t (touch t o si).0 ino si kept links2 (ground arith) loc,
    )

-- Where the oldest slot is free and the fuel is the table's size, two calls for an inode number that is mapped end
-- and return the same number, and the rings are rings after them.
pub short_inode_map-twice :
    (f : ℕ) (t : Table) (o ino : ℕ)
    → IsTable t o
    → max ≤ f
    → unmapped < ino
    → ino < unused
    → is_unused (t o).ino ≡ true
    → (t1 t2 : Table) × (o1 o2 n : ℕ) × (short_inode_map f
          (record { table = some t; oldest = o })
          ino
        ≡ some (record { table = some t1; oldest = o1 }, n))
      × (short_inode_map f (record { table = some t1; oldest = o1 }) ino
          ≡ some (record { table = some t2; oldest = o2 }, n))
      × IsTable t2 o2
short_inode_map-twice f t o ino table fuel real small room =
    let (t1, o1, si, first, table1, loc, wide, recent) =
      short_inode_map_lem f t o ino table fuel real small room in
    let (t2, o2, second, table2, same, loc2) =
      short_inode_map-IsLocated f t1 o1 ino si table1 loc (omega (arith, wide)) real small in
    (t1, t2, o1, o2, si + unmapped + 1, first, second, table2)

-- A fresh table is in order: every slot is free, and stands between its neighbours.
pub short_inode_construct-IsTable :
    IsTable (λ q. zeroed) (short_inode_construct (λ q. zeroed)).oldest
unfolding short_inode_construct
short_inode_construct-IsTable = record {
  ring = record {
    next_in = λ i h. omega arith;
    prev_in = λ i h. omega arith;
    next_prev = λ i h. omega arith;
    prev_next = λ i h. omega arith;
  };
  links = record {
    next_used = λ i u. absurd (cc);
    prev_used = λ i u. absurd (cc);
    prev_next = λ i u. absurd (cc);
    next_prev = λ i u. absurd (cc);
  };
  oldest_in = omega arith;
}
