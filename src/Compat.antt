-- ===== src/Compat.antt =====
-- ibcs/linux26-compat.c: the registries that stand in for those of the kernel. An `Outcome` is what an
-- operation returns, as the positive error number where it fails.
pub mod Domains
pub mod Chrdev
pub mod Binfmt
pub mod Brk
pub mod Files
mod Tests
use ibcs_us.Prelude.{ℕ}

-- What a function returns: 0 or a value, or an error number.
pub data Outcome : Type 0 where
  success : Outcome
  failure : ℕ → Outcome

abbrev pub enoent : ℕ
enoent = 2

abbrev pub enoexec : ℕ
enoexec = 8

abbrev pub enomem : ℕ
enomem = 12

abbrev pub ebusy : ℕ
ebusy = 16

abbrev pub eexist : ℕ
eexist = 17

abbrev pub einval : ℕ
einval = 22
