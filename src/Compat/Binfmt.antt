-- ===== src/Compat/Binfmt.antt =====
-- The binary formats: a list through `struct list_head`, and load_binfmt, which tries them. An element is its
-- address, and the head `linux_binfmts` is at 0. What the system answers is a parameter. `list_add`
-- and `list_del` are those of linux/list.h.
pub mod Ring
use ibcs_us.Prelude.{ℕ, zero, suc, ◌==◌, ◌!=◌, Bool, true, false, Option, none, some, if◌then◌else◌}
use ibcs_us.Compat.{enoexec}

-- `struct list_head`, by address.
pub record Links : Type 0 where
  pub next : ℕ → ℕ
  pub prev : ℕ → ℕ

abbrev pub linux_binfmts : ℕ
linux_binfmts = 0

abbrev pub set : (ℕ → ℕ) → ℕ → ℕ → ℕ → ℕ
set field p to q = if q == p then to else field q

abbrev pub list_add_between : Links → ℕ → ℕ → ℕ → Links
list_add_between l new before after = record {
  next = set (set l.next new after) before new;
  prev = set (set l.prev after new) new before;
}

abbrev pub list_add : Links → ℕ → ℕ → Links
list_add l new head = list_add_between l new head (l.next head)

abbrev pub list_del : Links → ℕ → ℕ → Links
list_del l before after = record { next = set l.next before after; prev = set l.prev after before }

pub register_binfmt : Links → ℕ → Links
register_binfmt l binfmt = list_add l binfmt linux_binfmts

pub unregister_binfmt : Links → ℕ → Links
unregister_binfmt l binfmt = list_del l binfmt linux_binfmts

-- What a call returns: a value, or an error number.
pub data Retval : Type 0 where
  value : ℕ → Retval
  error : ℕ → Retval

abbrev pub is_enoexec : Retval → Bool
is_enoexec (value n) = false
is_enoexec (error n) = n == enoexec

-- The loop of load_binfmt, from a format on, with what was returned last.
unfoldable pub try_binfmts : (ℕ → Retval) → ℕ → Links → ℕ → Retval → Option Retval
try_binfmts load_binary zero l pos retval = none
try_binfmts load_binary (suc f) l pos retval =
    let r = load_binary pos in
    let more = try_binfmts load_binary f l (l.next pos) r in
    if pos == linux_binfmts then some retval else if is_enoexec r then more else some r

-- The system: the answers to `access`, to the opening of the file, to `fstat`, which gives whether the file is a
-- regular one, and to the reading of its first bytes.
pub record System : Type 0 where
  pub access : Retval
  pub fopen : Retval
  pub fstat : Retval
  pub is_regular : Bool
  pub read : Retval
  pub load_binary : ℕ → Retval

-- What load_binfmt has done: its value, whether the file was closed, whether the break was set up.
pub record Loaded : Type 0 where
  pub retval : Retval
  pub is_closed : Bool
  pub has_brk : Bool

-- From the label `out` on.
abbrev pub out : Bool → Retval → Loaded
out file (value n) = record { retval = value n; is_closed = file; has_brk = true }
out file (error n) = record { retval = error n; is_closed = file; has_brk = false }

abbrev pub out_after : Option Retval → Option Loaded
out_after none = none
out_after (some r) = some (out true r)

-- `sizeof(binprm.buf)`
abbrev pub buf_size : ℕ
buf_size = 128

abbrev pub after_read : System → ℕ → Links → Retval → Option Loaded
after_read sys f l (error n) = some (out true (error n))
after_read sys f l (value n) =
    let tried = try_binfmts sys.load_binary f l (l.next linux_binfmts) (value n) in
    if n != buf_size then some (out true (error enoexec)) else out_after tried

abbrev pub after_fstat : System → ℕ → Links → Retval → Option Loaded
after_fstat sys f l (error n) = some (out true (error n))
after_fstat sys f l (value n) =
    let read = after_read sys f l sys.read in
    if sys.is_regular then read else some (out true (error enoexec))

abbrev pub after_fopen : System → ℕ → Links → Retval → Option Loaded
after_fopen sys f l (error n) = some (out false (error n))
after_fopen sys f l (value n) = after_fstat sys f l sys.fstat

abbrev pub after_access : System → ℕ → Links → Retval → Option Loaded
after_access sys f l (error n) = some (out false (error n))
after_access sys f l (value n) = after_fopen sys f l sys.fopen

unfoldable pub load_binfmt : System → ℕ → Links → Option Loaded
unfolding try_binfmts
load_binfmt sys f l = after_access sys f l sys.access
