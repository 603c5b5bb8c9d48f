-- ===== src/ShortInode/Hash.antt =====
-- `short_inode_hashval` of ibcs/short-inode.c.
use ibcs_us.Prelude.{ℕ, ◌+◌, ◌<◌, ◌≡◌, ◌⊎◌, inl, inr, refl, true, ltb, arith, Bool-cases}
use ibcs_us.ShortInode.{max, unmapped, hashval}

-- The hash value is a slot of the table.
pub hashval-lt-max : (ino : ℕ) → hashval ino < max
unfolding hashval
hashval-lt-max ino = omega arith

high_end : (ino : ℕ) → ino < 0x10000 → ltb max ino ≡ true → (ino ≡ 0xfffe) ⊎ (ino ≡ 0xffff)
high_end ino h b = ground arith

-- An inode number that has 16 bits already, and is none of those that are never mapped, is hashed to
-- the slot that stands for the number itself.
pub hashval_identity : (ino : ℕ) → unmapped < ino → ino < 0x10000 → hashval ino + unmapped + 1 ≡ ino
unfolding hashval
hashval_identity ino lo hi = elim (Bool-cases (ltb max ino)) [
  | inl high ↦ elim (high_end ino hi high) [ inl e ↦ rw e refl | inr e ↦ rw e refl ]
  | inr low ↦ rw low (omega arith)
]
