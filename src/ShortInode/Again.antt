-- ===== src/ShortInode/Again.antt =====
-- An inode that `short_inode_map` of ibcs/short-inode.c has mapped keeps its number.
use ibcs_us.Prelude.{ℕ, zero, suc, ◌≡◌, ◌≢◌, refl, sym, ap, ◌∙◌, true, false, some, ◌!=◌, arith}
use ibcs_us.ShortInode.{Table, is_unused, search, allocate, hashval}
use ibcs_us.ShortInode.Search.{InUse, IsLinked}
use ibcs_us.ShortInode.Links.{SameRings}

-- On the same rings the search takes the same way.
pub search-SameRings :
    (f : ℕ) (t t' : Table) (ino first si : ℕ)
    → IsLinked t
    → SameRings t t'
    → InUse t si
    → search f t' ino first si ≡ search f t ino first si
unfolding search
search-SameRings zero t t' ino first si l s u = refl
search-SameRings (suc f) t t' ino first si l s u =
    let next = (t si).hash_next in
    let u' = l.next_used si u in
    rw (s.same_next si, s.same_ino next u'.1, search-SameRings f t t' ino first next l s u') refl

-- Slot `si` is the one in use for the inode, where a look at its hash ring finds it.
pub data Located (f : ℕ) (t : Table) (ino si : ℕ) : Type 0 where
  at_hash : si ≡ hashval ino → Located f t ino si
  on_ring :
      (t (hashval ino)).ino ≢ ino
      → search f t ino (hashval ino) (hashval ino) ≡ some si
      → Located f t ino si

-- A table in which an inode has a slot.
pub record IsLocated (f : ℕ) (t : Table) (ino si : ℕ) : Type 0 where
  pub linked : IsLinked t
  pub hash_used : InUse t (hashval ino)
  pub si_ino : (t si).ino ≡ ino
  pub where_it_is : Located f t ino si

pub allocate-IsLocated :
    (f : ℕ) (t : Table) (o ino si : ℕ) → IsLocated f t ino si → allocate f t o ino ≡ some (t, si)
unfolding allocate
allocate-IsLocated f t o ino si loc = elim loc.where_it_is [
  | at_hash e ↦
      let here : ((t (hashval ino)).ino != ino) ≡ false = (let i = loc.si_ino in ground arith) in
      rw (loc.hash_used.1, here) (ap (λ (q : ℕ). some (t, q)) (sym e))
  | on_ring ne e ↦
      let other : ((t (hashval ino)).ino != ino) ≡ true = ground arith in
      let same : ((t si).ino != ino) ≡ false = (let i = loc.si_ino in ground arith) in
      rw (loc.hash_used.1, other, e, same) refl
]

pub IsLocated-SameRings :
    (f : ℕ) (t t' : Table) (ino si : ℕ)
    → SameRings t t'
    → IsLinked t'
    → is_unused ino ≡ false
    → IsLocated f t ino si
    → IsLocated f t' ino si
IsLocated-SameRings f t t' ino si s l' real loc =
    let used = loc.hash_used in
    let si_used : is_unused (t si).ino ≡ false = (let i = loc.si_ino in ground arith) in
    record {
      linked = l';
      hash_used = (used.0, s.same_use (hashval ino) ∙ used.1);
      si_ino = s.same_ino si si_used ∙ loc.si_ino;
      where_it_is = elim loc.where_it_is [
        | at_hash e ↦ at_hash e
        | on_ring ne e ↦
            on_ring (λ q. ne (sym (s.same_ino (hashval ino) used.1) ∙ q))
              (search-SameRings f t t' ino (hashval ino) (hashval ino) loc.linked s used ∙ e)
      ];
    }
