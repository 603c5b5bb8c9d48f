-- ===== src/ShortInode.antt =====
-- ibcs/short-inode.c: 32-bit inode numbers are given numbers of 16 bits. The table's slots are on one
-- ring by the time of their last use, and the slots in use are on rings for their hash values. A slot
-- that was never written is full of zeros and stands between its neighbours in the table.
pub mod Hash
pub mod Lru
pub mod Search
pub mod Links
pub mod Taken
pub mod Allocate
pub mod Correct
pub mod Full
pub mod Again
mod Tests
use ibcs_us.Prelude.{
  ℕ, zero, suc, ◌+◌, ◌-◌, ◌/◌, ◌%◌, Bool, true, false, ◌&&◌, ◌||◌, Option, none, some, ◌==◌, ◌!=◌,
  ltb, leb, if◌then◌else◌, bit_xor,
}
use ibcs_us.CString.{◌>>=◌}

-- `struct short_inode_element`
pub record Element : Type 0 where
  pub ino : ℕ
  pub lru_prev : ℕ
  pub lru_next : ℕ
  pub hash_prev : ℕ
  pub hash_next : ℕ

abbrev pub Table : Type 0
Table = ℕ → Element

-- `table` is `none` before `short_inode_construct`.
pub record State : Type 0 where
  pub table : Option Table
  pub oldest : ℕ

abbrev pub unmapped : ℕ
unmapped = 2

abbrev pub max : ℕ
max = 0x10000 - (unmapped + 1)

-- `(ino_t)-1`
abbrev pub unused : ℕ
unused = 0xffffffff

abbrev pub is_unused : ℕ → Bool
is_unused n = n == 0 || n == unused

abbrev pub set : Table → ℕ → Element → Table
set t i e q = if q == i then e else t q

-- An entry that was never written.
abbrev pub zeroed : Element
zeroed = record { ino = 0; lru_prev = 0; lru_next = 0; hash_prev = 0; hash_next = 0 }

pub lazy_init : Table → ℕ → Table
lazy_init t entry =
    if (t entry).ino != 0
    then t
    else set t entry (record (t entry) {
      ino = unused;
      lru_prev = (entry + max - 1) % max;
      lru_next = (entry + 1) % max;
    })

pub hashval : ℕ → ℕ
hashval ino =
    let low = ino % 0x10000 in
    let h = if ltb max ino then bit_xor low (ino / 0x10000 % 0x10000) else low in
    (h + max - unmapped - 1) % max

pub lru_join : Table → ℕ → ℕ → Table
lru_join t prev next =
    let t1 = lazy_init (lazy_init t prev) next in
    let t2 = set t1 prev (record (t1 prev) { lru_next = next }) in
    set t2 next (record (t2 next) { lru_prev = prev })

-- The table, and the oldest slot.
pub lru_free : Table → ℕ → ℕ → Table × ℕ
lru_free t oldest i =
    (lru_join t (t i).lru_prev (t i).lru_next, if i == oldest then (t i).lru_next else oldest)

pub hash_join : Table → ℕ → ℕ → Table
hash_join t prev next =
    let t1 = set t prev (record (t prev) { hash_next = next }) in
    set t1 next (record (t1 next) { hash_prev = prev })

pub hash_free : Table → ℕ → Table
hash_free t i = if is_unused (t i).ino then t else hash_join t (t i).hash_prev (t i).hash_next

-- `do si = hash_next; while (si != first && ino differs)`
pub search : ℕ → Table → ℕ → ℕ → ℕ → Option ℕ
search zero t ino first si = none
search (suc f) t ino first si =
    let next = (t si).hash_next in
    let rest = search f t ino first next in
    if next != first && (t next).ino != ino then rest else some next

-- The least recently used slot is taken for an inode, behind slot `si` on its ring.
pub grab : Table → ℕ → ℕ → ℕ → Table
grab t oldest ino si =
    let t1 = hash_free (lazy_init t oldest) oldest in
    let t2 = hash_join t1 oldest (t1 si).hash_next in
    let t3 = hash_join t2 si oldest in set t3 oldest (record (t3 oldest) { ino = ino })

-- The slot for an inode, with the slot in use for it.
pub allocate : ℕ → Table → ℕ → ℕ → Option (Table × ℕ)
allocate f t oldest ino =
    let si = hashval ino in
    if is_unused (t si).ino
    then (let t1 = lazy_init t si in
        some (hash_join (set t1 si (record (t1 si) { ino = ino })) si si, si))
    else if (t si).ino != ino
    then (do
      s ← search f t ino si si
      some (if (t s).ino != ino then (grab t oldest ino s, oldest) else (t, s)))
    else some (t, si)

-- The slot becomes the most recently used.
pub touch : Table → ℕ → ℕ → Table × ℕ
touch t oldest si =
    let (t1, o) = lru_free t oldest si in
    let t2 = lazy_init t1 o in let t3 = lru_join t2 (t2 o).lru_prev si in (lru_join t3 si o, o)

-- The new state, and the number; -ENOENT is written as an `ino_t`.
pub short_inode_map : ℕ → State → ℕ → Option (State × ℕ)
short_inode_map f s ino = elim s.table [
  | none ↦ some (s, if ino % 0x10000 != 0 then ino else 0x100000000 - 2)
  | some t ↦ if leb ino unmapped then some (s, ino) else (do
    (t1, si) ← allocate f t s.oldest ino
    let (t2, o) = touch t1 s.oldest si
    some (record { table = some t2; oldest = o }, si + unmapped + 1))
]

-- `memory` is what `ibcs_malloc` gives: entries full of zeros, if the kernel has just given them.
pub short_inode_construct : Table → State
short_inode_construct memory = record { table = some memory; oldest = 0 }

pub short_inode_destruct : State → State
short_inode_destruct s = record s { table = none }
