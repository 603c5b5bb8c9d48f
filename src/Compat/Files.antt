-- ===== src/Compat/Files.antt =====
-- The open files: fget, fput, linux26_fopen and linux26_fclose over the table of `struct file`, by file
-- descriptor. The table is an array of pointers of 4 bytes; an entry beyond its size is what the memory there
-- is taken to hold. `fresh` is what the memory that ibcs_malloc gives for the first table holds, and `is_open` is whether `fstat` of a
-- descriptor succeeds.
pub mod Kept
use ibcs_us.Prelude.{
  ℕ, ◌+◌, ◌-◌, ◌*◌, ◌/◌, ◌%◌, ◌^◌, ◌==◌, ◌&&◌, Bool, true, false, not, Option, none, some, leb, ltb,
  if◌then◌else◌,
}

-- `struct file`, as far as it is read here.
pub record File : Type 0 where
  pub f_count : ℕ
  pub f_isopen : Bool

-- `struct fdtable`; `has_fd` is that its pointer to the files is not NULL.
pub record Table : Type 0 where
  pub has_fd : Bool
  pub max_fds : ℕ
  pub fd : ℕ → Option File

abbrev pub set_file : Table → ℕ → Option File → Table
set_file t n file = record {
  has_fd = t.has_fd;
  max_fds = t.max_fds;
  fd = λ q. if q == n then file else t.fd q;
}

-- "Grow the file table if it isn't big enough."
unfoldable pub grow : (ℕ → Option File) → Table → ℕ → Table
grow fresh t n =
    let fd_size = (n + 1) * 2 * 4 % 2 ^ 32 in
    if leb t.max_fds n
    then record {
      has_fd = true;
      max_fds = fd_size / 4;
      fd = λ q. if ltb q t.max_fds then t.fd q else if t.has_fd then none else fresh q;
    }
    else t

-- The file that the table has, or a new one.
abbrev pub found_or_new : Option File → Bool → File
found_or_new none is_open = record { f_count = 0; f_isopen = is_open }
found_or_new (some file) is_open = file

unfoldable pub fget : (ℕ → Option File) → (ℕ → Bool) → Table → ℕ → Table
unfolding grow
fget fresh is_open t n =
    let t' = grow fresh t n in
    let file = found_or_new (t'.fd n) (is_open n) in
    set_file t' n
      (some (record { f_count = (file.f_count + 1) % 2 ^ 32; f_isopen = file.f_isopen }))

-- fdestroy, with the file as it is
abbrev pub fdestroy : File → Option File
fdestroy file = if file.f_count == 0 && not file.f_isopen then none else some file

abbrev pub less_one : File → File
less_one file = record {
  f_count = (file.f_count + (2 ^ 32 - 1)) % 2 ^ 32;
  f_isopen = file.f_isopen;
}

abbrev pub put_file : Table → ℕ → Option File → Table
put_file t n none = t
put_file t n (some file) = set_file t n (fdestroy (less_one file))

unfoldable pub fput : Table → ℕ → Table
fput t n = put_file t n (t.fd n)

-- What `open` answers: a descriptor, or an error.
unfoldable pub linux26_fopen :
    (ℕ → Option File) → (ℕ → Bool) → Table → Option ℕ → Option (ℕ × Table)
unfolding fget
linux26_fopen fresh is_open t none = none
linux26_fopen fresh is_open t (some n) = some (n, fget fresh is_open t n)

abbrev pub closed : File → File
closed file = record { f_count = file.f_count; f_isopen = false }

abbrev pub close_file : Table → ℕ → Option File → Table
close_file t n none = t
close_file t n (some file) = fput (set_file t n (some (closed file))) n

unfoldable pub linux26_fclose : Table → ℕ → Table
linux26_fclose t n = close_file t n (t.fd n)
