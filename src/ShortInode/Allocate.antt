-- ===== src/ShortInode/Allocate.antt =====
-- How `short_inode_map` of ibcs/short-inode.c comes by a slot, while one is still free.
use ibcs_us.Prelude.{
  ℕ, zero, suc, ◌≤◌, ◌<◌, ◌≡◌, ◌≢◌, inl, inr, refl, sym, ap, subst, ◌∙◌, true, false, some, ◌!=◌,
  arith, Bool-cases,
}
use ibcs_us.ShortInode.{
  Table, max, unmapped, unused, is_unused, lazy_init, hash_join, hash_free, hashval, grab, allocate,
  search,
}
use ibcs_us.ShortInode.Hash.{hashval-lt-max}
use ibcs_us.ShortInode.Lru.{later, earlier, IsRing, lazy_init-later, lazy_init-earlier}
use ibcs_us.ShortInode.Search.{IsLinked, search_lem}
use ibcs_us.ShortInode.Links.{SameRings-lazy_init, SameRings-IsLinked}
use ibcs_us.ShortInode.Again.{at_hash, on_ring, IsLocated}
use ibcs_us.ShortInode.Taken.{
  alone, behind, IsTaken, alone-IsTaken, behind-IsTaken, alone-IsLinked, behind-IsLinked,
}

-- What holds of the table between two calls.
pub record IsTable (t : Table) (oldest : ℕ) : Type 0 where
  pub ring : IsRing (later t) (earlier t)
  pub links : IsLinked t
  pub oldest_in : oldest < max

-- The two tables have the same slots, by the time of their use.
abbrev pub SameOrder : Table → Table → Type 0
SameOrder t t' = (q : ℕ) → (later t' q ≡ later t q) × (earlier t' q ≡ earlier t q)

alone-SameOrder : (t : Table) (ino si : ℕ) → (t si).ino ≢ 0 → ino ≢ 0 → SameOrder t (alone t ino si)
unfolding alone hash_join
alone-SameOrder t ino si w nz q = ground arith

behind-SameOrder :
    (t : Table) (nn si ino : ℕ) → (t nn).ino ≢ 0 → ino ≢ 0 → SameOrder t (behind t nn si ino)
unfolding behind hash_join
behind-SameOrder t nn si ino w nz q = ground arith

lazy_init_written : (t : Table) (e : ℕ) → (lazy_init t e e).ino ≢ 0
unfolding lazy_init
lazy_init_written t e = ground arith

lazy_init-SameOrder : (t : Table) (e : ℕ) → SameOrder t (lazy_init t e)
lazy_init-SameOrder t e q = (lazy_init-later t e q, lazy_init-earlier t e q)

search_next :
    (f : ℕ) (t : Table) (ino h o : ℕ)
    → 0 < f
    → (t h).hash_next ≡ o
    → (t o).ino ≡ ino
    → search f t ino h h ≡ some o
unfolding search
search_next zero t ino h o pos e i = absurd (omega arith)
search_next (suc f) t ino h o pos e i = ground arith

grab-behind :
    (t : Table) (o ino si : ℕ)
    → is_unused (t o).ino ≡ true
    → grab t o ino si ≡ behind (lazy_init t o) o si ino
unfolding grab behind hash_free
grab-behind t o ino si free =
    let h : is_unused (lazy_init t o o).ino ≡ true = (SameRings-lazy_init t o).same_use o ∙ free in
    rw h refl

-- What `allocate` has done: the slot is in use for the inode, where a search finds it, and the order of
-- use is as it was.
pub record IsAllocated (f : ℕ) (t t' : Table) (ino si : ℕ) : Type 0 where
  pub in_table : si < max
  pub same_order : SameOrder t t'
  pub located : IsLocated f t' ino si

module _ (f : ℕ) (t : Table) (o ino : ℕ) (table : IsTable t o) (fuel : max ≤ f)
    (real : unmapped < ino) (small : ino < unused) (room : is_unused (t o).ino ≡ true) where
  allocate_free :
      is_unused (t (hashval ino)).ino ≡ true
      → (t' : Table) × (allocate f t o ino ≡ some (t', hashval ino))
        × IsAllocated f t t' ino (hashval ino)
  unfolding allocate
  allocate_free free =
      let si = hashval ino in
      let t1 = lazy_init t si in
      let k = alone-IsTaken t1 ino si in
      let s = SameRings-lazy_init t si in
      let same = alone-SameOrder t1 ino si (lazy_init_written t si) (omega arith) in
      (
        alone t1 ino si,
        rw free (unfold alone in refl),
        record {
          in_table = hashval-lt-max ino;
          same_order =
              λ q. let (a, b) = same q in let (c, d) = lazy_init-SameOrder t si q in (a ∙ c, b ∙ d);
          located = record {
            linked =
                alone-IsLinked t1 (alone t1 ino si) ino si (SameRings-IsLinked t t1 s table.links) k
                  (s.same_use si ∙ free) (ground arith) (hashval-lt-max ino);
            hash_used = (hashval-lt-max ino, ground (arith, k.taken_ino si));
            si_ino = ground (arith, k.taken_ino si);
            where_it_is = at_hash refl;
          };
        },
      )

  behind_found :
      (t' : Table)
      → IsTaken (lazy_init t o) t' (hashval ino) o (lazy_init t o (hashval ino)).hash_next ino
      → search f t' ino (hashval ino) (hashval ino) ≡ some o
  behind_found t' k =
      let next : (t' (hashval ino)).hash_next ≡ o = ground (arith, k.taken_next (hashval ino)) in
      let ino_o : (t' o).ino ≡ ino = ground (arith, k.taken_ino o) in
      search_next f t' ino (hashval ino) o (omega arith) next ino_o

  allocate_behind :
      is_unused (t (hashval ino)).ino ≡ false
      → (t (hashval ino)).ino ≢ ino
      → IsAllocated f t (grab t o ino (hashval ino)) ino o
  allocate_behind used other =
      let h = hashval ino in
      let t1 = lazy_init t o in
      let r = SameRings-lazy_init t o in
      let ne : o ≢ h = (λ e. absurd (cc (ap (λ (q : ℕ). is_unused (t q).ino) e))) in
      let k = behind-IsTaken t1 o h ino ne in
      let same = behind-SameOrder t1 o h ino (lazy_init_written t o) (omega arith) in
      let ino_h : (behind t1 o h ino h).ino ≡ (t h).ino =
        ground (arith, k.taken_ino h, r.same_ino h used) in
      subst (λ t'. IsAllocated f t t' ino o) (sym (grab-behind t o ino h room))
        (record {
          in_table = table.oldest_in;
          same_order =
              λ q. let (a, b) = same q in let (c, d) = lazy_init-SameOrder t o q in (a ∙ c, b ∙ d);
          located = record {
            linked =
                behind-IsLinked t1 (behind t1 o h ino) ino h o
                  (SameRings-IsLinked t t1 r table.links) k (r.same_use o ∙ room) (ground arith)
                  (hashval-lt-max ino, r.same_use h ∙ used) table.oldest_in;
            hash_used = (hashval-lt-max ino, ap is_unused ino_h ∙ used);
            si_ino = ground (arith, k.taken_ino o);
            where_it_is = on_ring (λ e. other (sym ino_h ∙ e)) (behind_found (behind t1 o h ino) k);
          };
        })

  allocate_used :
      is_unused (t (hashval ino)).ino ≡ false
      → (t' : Table) × (si : ℕ) × (allocate f t o ino ≡ some (t', si)) × IsAllocated f t t' ino si
  unfolding allocate
  allocate_used used =
      let h = hashval ino in
      elim (Bool-cases ((t h).ino != ino)) [
        | inr at_once ↦ (
          t,
          h,
          rw (used, at_once) refl,
          record {
            in_table = hashval-lt-max ino;
            same_order = λ q. (refl, refl);
            located = record {
              linked = table.links;
              hash_used = (hashval-lt-max ino, used);
              si_ino = ground arith;
              where_it_is = at_hash refl;
            };
          },
        )
        | inl other ↦
            let (s, found, us, or) =
              search_lem f t ino h table.links (hashval-lt-max ino, used) fuel in
            elim (Bool-cases ((t s).ino != ino)) [
              | inr here ↦ (
                t,
                s,
                rw (used, other, found, here) refl,
                record {
                  in_table = us.0;
                  same_order = λ q. (refl, refl);
                  located = record {
                    linked = table.links;
                    hash_used = (hashval-lt-max ino, used);
                    si_ino = ground arith;
                    where_it_is = on_ring (ground arith) found;
                  };
                },
              )
              | inl nowhere ↦
                  let s_h : s ≡ h = elim or [ inl e ↦ e | inr e ↦ absurd (ground arith) ] in
                  (
                    grab t o ino h,
                    o,
                    rw (used, other, found, nowhere) (ap (λ (q : ℕ). some (grab t o ino q, o)) s_h),
                    allocate_behind used (ground arith),
                  )
            ]
      ]

  -- A slot is found or taken for the inode.
  pub allocate_lem :
      (t' : Table) × (si : ℕ) × (allocate f t o ino ≡ some (t', si)) × IsAllocated f t t' ino si
  allocate_lem = elim (Bool-cases (is_unused (t (hashval ino)).ino)) [
    | inl free ↦ let (t', e, a) = allocate_free free in (t', hashval ino, e, a)
    | inr used ↦ allocate_used used
  ]
