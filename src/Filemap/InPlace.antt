-- ===== src/Filemap/InPlace.antt =====
-- `normalise_path` of ibcs/filemap.c as it writes to the caller's buffer, and `filemap_map` on top of it. `m` is
-- the memory and `n` is `d - dst`. The path `src` is not in the buffer, and is the list of its bytes. The
-- result is the memory with what is returned, in every case.
pub mod Refines
pub mod Correct
pub mod Map
mod Tests
use ibcs_us.Prelude.{
  ℕ, zero, suc, ◌+◌, ◌-◌, Bool, true, false, ◌&&◌, ◌||◌, List, [], ◌∷◌, leb, ◌==◌, ◌!=◌,
  if◌then◌else◌, length, drop, Option, some,
}
use ibcs_us.Memory.{Memory, store}
use ibcs_us.Filemap.Result.{Error, too_long, stuck, Result, ok, err}
use ibcs_us.Filemap.Normalise.{byte}
use ibcs_us.Filemap.Translate.{Slot, Outcome, unmapped, lookup}

-- The test for `..` that stays, by what stands in front of `d`.
pub keeps_dotdot_at : ℕ → Memory → ℕ → Bool
keeps_dotdot_at dst m n =
    n == 0
    || (n == 3 && m (dst + n - 2) == b'.' && m (dst + n - 3) == b'.')
    || (leb 4 n && m (dst + n - 2) == b'.' && m (dst + n - 3) == b'.' && m (dst + n - 4) == b'/')

-- `for (; d > dst && d[-1] != '/'; d -= 1)`
pub strip_name_at : ℕ → Memory → ℕ → ℕ
strip_name_at dst m zero = 0
strip_name_at dst m (suc n) = if m (dst + n) == b'/' then suc n else strip_name_at dst m n

-- The copying of a file name.
pub copy_name_at : ℕ → ℕ → List ℕ → Memory → ℕ → Memory × Result (List ℕ × ℕ)
copy_name_at dst size [] m n = (store m (dst + n) 0, ok ([], n))
copy_name_at dst size (c ∷ s) m n =
    let m' = store m (dst + n) c in
    let rest = copy_name_at dst size s m' (n + 1) in
    if leb size (n + 1) then (m', err too_long) else if c == b'/' then (m', ok (s, n + 1)) else rest

-- The handling of `..`; `s[0]` and `s[1]`, which are copied, are dots.
pub dotdot_at : ℕ → ℕ → List ℕ → Memory → ℕ → Memory × Result (List ℕ × ℕ)
unfolding keeps_dotdot_at strip_name_at
dotdot_at dst size s m n =
    let s' = if byte s 2 == 0 then drop 2 s else drop 3 s in
    let m' = store (store m (dst + n) b'.') (dst + (n + 1)) b'.' in
    if keeps_dotdot_at dst m n
    then if leb size (n + 3)
      then (m, err too_long)
      else if byte s 2 != 0
      then (store m' (dst + (n + 2)) b'/', ok (s', n + 3))
      else (m', ok (s', n + 2))
    else if n != 1
    then (m, ok (s', strip_name_at dst m (n - 1)))
    else (m, ok (s', n))

-- One round of the loop.
pub round_at : ℕ → ℕ → List ℕ → Memory → ℕ → Memory × Result (List ℕ × ℕ)
unfolding dotdot_at copy_name_at
round_at dst size s m n =
    if byte s 0 == b'/'
    then (m, ok (drop 1 s, n))
    else if byte s 0 == b'.' && byte s 1 == b'/'
    then (m, ok (drop 2 s, n))
    else if byte s 0 == b'.' && byte s 1 == 0
    then (m, ok (drop 1 s, n))
    else if byte s 0 == b'.' && byte s 1 == b'.' && (byte s 2 == b'/' || byte s 2 == 0)
    then dotdot_at dst size s m n
    else copy_name_at dst size s m n

-- What follows a round, unless that has returned an error.
abbrev pub go_on_at :
    (List ℕ → Memory → ℕ → Memory × Result ℕ) → Memory → Result (List ℕ × ℕ) → Memory × Result ℕ
go_on_at next m (err e) = (m, err e)
go_on_at next m (ok (s, n)) = next s m n

-- `while (*s)`, with the length of `src` as fuel.
pub rounds_at : ℕ → ℕ → ℕ → List ℕ → Memory → ℕ → Memory × Result ℕ
unfolding round_at
rounds_at fuel dst size [] m n = (m, ok n)
rounds_at zero dst size (c ∷ s) m n = (m, err stuck)
rounds_at (suc fuel) dst size (c ∷ s) m n =
    let r = round_at dst size (c ∷ s) m n in go_on_at (rounds_at fuel dst size) r.0 r.1

-- The lines behind the loop. What is returned is `d - dst` with the NUL counted.
pub finish_at : ℕ → Memory → ℕ → Memory × ℕ
finish_at dst m n =
    if n == 0
    then (store (store m dst b'.') (dst + 1) 0, 2)
    else if n != 1 && m (dst + n - 1) == b'/'
    then (store m (dst + n - 1) 0, n)
    else (store m (dst + n) 0, n + 1)

abbrev pub finish_after : ℕ → Memory → Result ℕ → Memory × Result ℕ
finish_after dst m (err e) = (m, err e)
finish_after dst m (ok n) = let r = finish_at dst m n in (r.0, ok r.1)

-- Behind getcwd: the answer is the string that now stands at `dst`, and `strchr` finds its NUL.
abbrev pub after_getcwd : ℕ → ℕ → List ℕ → Memory → Result (List ℕ) → Memory × Result (List ℕ × ℕ)
after_getcwd dst size src left (err e) = (left, err e)
after_getcwd dst size src left (ok cwd) =
    if leb size (length cwd + 2)
    then (left, err too_long)
    else (store left (dst + length cwd) b'/', ok (src, length cwd + 1))

-- The system call `getcwd` answers `getcwd size`, and leaves the memory `left`.
module _ (getcwd : ℕ → Result (List ℕ)) (left : Memory) where
  -- Where the loop starts.
  pub start_at : ℕ → ℕ → List ℕ → Bool → Memory → Memory × Result (List ℕ × ℕ)
  start_at dst size src is_abs m =
      if byte src 0 == b'/'
      then (store m dst b'/', ok (drop 1 src, 1))
      else if is_abs
      then after_getcwd dst size src left (getcwd size)
      else (m, ok (src, 0))

  pub normalise_path_at : ℕ → ℕ → List ℕ → Bool → Memory → Memory × Result ℕ
  unfolding start_at rounds_at finish_at
  normalise_path_at dst size src is_abs m =
      let r = start_at dst size src is_abs m in
      let looped = go_on_at (λ s m' n. rounds_at (length s) dst size s m' n) r.0 r.1 in
      finish_after dst looped.0 looped.1

  abbrev pub look_up_after : ℕ → ℕ → ℕ → List Slot → Memory → Result ℕ → Option Outcome
  look_up_after f dst size slots m (err e) = some (unmapped m)
  look_up_after f dst size slots m (ok n) = lookup f m dst size slots

  -- The path is made absolute in the buffer and looked up there; the fuel is that of the lookup.
  pub filemap_map : ℕ → Memory → ℕ → ℕ → List ℕ → List Slot → Option Outcome
  unfolding normalise_path_at
  filemap_map f m dst size path slots =
      let r = normalise_path_at dst size path true m in look_up_after f dst size slots r.0 r.1
