-- ===== src/ShortInode/Tests.antt =====
-- `short_inode_map` on a fresh table.
use ibcs_us.Prelude.{ℕ, ◌+◌, ◌<◌, ◌≡◌, some, refl, arith, ◌==◌, if◌then◌else◌}
use ibcs_us.ShortInode.{grab, Table, unmapped, zeroed, short_inode_map, short_inode_construct, max}
use ibcs_us.ShortInode.Lru.{earlier}
use ibcs_us.ShortInode.Search.{IsLinked}
use ibcs_us.ShortInode.Again.{IsLocated}
use ibcs_us.ShortInode.Allocate.{IsTable}
use ibcs_us.ShortInode.Full.{grab-IsLinked}
use ibcs_us.ShortInode.Correct.{
  short_inode_map_lem, short_inode_map-twice, short_inode_construct-IsTable,
}

abbrev fresh : Table
fresh q = zeroed

short_inode_map_lem_example :
    (t' : Table) × (o' : ℕ) × (si : ℕ) × (short_inode_map max
        (record { table = some fresh; oldest = 0 })
        0x123456
      ≡ some (record { table = some t'; oldest = o' }, si + unmapped + 1))
    × IsTable t' o'
    × IsLocated max t' 0x123456 si
    × (si + unmapped + 1 < 0x10000)
    × (earlier t' o' ≡ si)
short_inode_map_lem_example =
    short_inode_map_lem max fresh 0 0x123456
      (unfold short_inode_construct in short_inode_construct-IsTable) (omega arith) (omega arith)
      (omega arith) refl

short_inode_map-twice_example :
    (t1 t2 : Table) × (o1 o2 n : ℕ) × (short_inode_map max
        (record { table = some fresh; oldest = 0 })
        0x123456
      ≡ some (record { table = some t1; oldest = o1 }, n))
    × (short_inode_map max (record { table = some t1; oldest = o1 }) 0x123456
        ≡ some (record { table = some t2; oldest = o2 }, n))
    × IsTable t2 o2
short_inode_map-twice_example =
    short_inode_map-twice max fresh 0 0x123456
      (unfold short_inode_construct in short_inode_construct-IsTable) (omega arith) (omega arith)
      (omega arith) refl

-- Slots 7 and 8 are in use, on one ring.
abbrev two_used : Table
two_used q =
    if q == 7
    then record { ino = 10; lru_prev = 6; lru_next = 8; hash_prev = 8; hash_next = 8 }
    else if q == 8
    then record { ino = 65543; lru_prev = 7; lru_next = 9; hash_prev = 7; hash_next = 7 }
    else zeroed

two_used-IsLinked : IsLinked two_used
two_used-IsLinked = record {
  next_used = λ i u. ground arith;
  prev_used = λ i u. ground arith;
  prev_next = λ i u. ground arith;
  next_prev = λ i u. ground arith;
}

grab-IsLinked_example : ¬ IsLinked (grab two_used 7 131082 7)
grab-IsLinked_example =
    grab-IsLinked two_used 7 131082 two_used-IsLinked (omega arith, refl)
      (λ e. absurd (omega arith))
