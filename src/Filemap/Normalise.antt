-- ===== src/Filemap/Normalise.antt =====
-- `normalise_path` of ibcs/filemap.c. A path is the list of its bytes, without the NUL. `dst` is
-- the list of the bytes written so far, the last one first: `d - dst` is its length, and `d[-k]` is
-- its element at `k - 1`.
pub mod Spec
pub mod Names
pub mod Rounds
pub mod Split
pub mod Render
pub mod Correct
pub mod Bounds
pub mod Total
pub mod Twice
pub mod Root
mod Tests
use mathlib.Core.List.{reverse}
use ibcs_us.Prelude.{
  ℕ, zero, suc, ◌+◌, ◌-◌, Bool, true, false, ◌&&◌, ◌||◌, List, [], ◌∷◌, ◌++◌, leb, ◌==◌, ◌!=◌,
  if◌then◌else◌, length, get_or, drop,
}
use ibcs_us.Filemap.Result.{Error, too_long, stuck, Result, ok, err, ◌>>=◌}

-- `s[i]`; the NUL stands behind the last byte.
abbrev pub byte : List ℕ → ℕ → ℕ
byte s i = get_or s i 0

-- `..` stays where there is no name to erase: at the start of a relative path, and behind `../`.
unfoldable pub keeps_dotdot : List ℕ → Bool
keeps_dotdot out =
    length out == 0
    || (length out == 3 && byte out 1 == b'.' && byte out 2 == b'.')
    || (leb 4 (length out) && byte out 1 == b'.' && byte out 2 == b'.' && byte out 3 == b'/')

-- `d > dst && d[-1] != '/'`
unfoldable pub strip_name : List ℕ → List ℕ
strip_name [] = []
strip_name (c ∷ out) = if c == b'/' then c ∷ out else strip_name out

-- `for (d -= 1; d > dst && d[-1] != '/'; d -= 1)`
unfoldable pub erase_name : List ℕ → List ℕ
unfolding strip_name
erase_name out = strip_name (drop 1 out)

-- The copying of a file name: what is left of `src`, and what is written.
unfoldable pub copy_name : ℕ → List ℕ → List ℕ → Result (List ℕ × List ℕ)
copy_name size [] out = ok ([], out)
copy_name size (c ∷ s) out =
    let rest = copy_name size s (c ∷ out) in
    if leb size (length out + 1) then err too_long else if c == b'/' then ok (s, c ∷ out) else rest

-- The handling of `..`.
unfoldable pub dotdot : ℕ → List ℕ → List ℕ → Result (List ℕ × List ℕ)
unfolding keeps_dotdot erase_name
dotdot size s out =
    let s' = if byte s 2 == 0 then drop 2 s else drop 3 s in
    let written = b'.' ∷ b'.' ∷ out in
    if keeps_dotdot out
    then if leb size (length out + 3)
      then err too_long
      else ok (s', if byte s 2 != 0 then b'/' ∷ written else written)
    else if length out != 1
    then ok (s', erase_name out)
    else ok (s', out)

-- One round of the loop.
unfoldable pub round : ℕ → List ℕ → List ℕ → Result (List ℕ × List ℕ)
unfolding dotdot copy_name
round size s out =
    if byte s 0 == b'/'
    then ok (drop 1 s, out)
    else if byte s 0 == b'.' && byte s 1 == b'/'
    then ok (drop 2 s, out)
    else if byte s 0 == b'.' && byte s 1 == 0
    then ok (drop 1 s, out)
    else if byte s 0 == b'.' && byte s 1 == b'.' && (byte s 2 == b'/' || byte s 2 == 0)
    then dotdot size s out
    else copy_name size s out

-- `while (*s)`. Each round takes a byte at least, so the length of `src` is enough fuel.
unfoldable pub rounds : ℕ → ℕ → List ℕ → List ℕ → Result (List ℕ)
rounds fuel size [] out = ok out
rounds zero size (c ∷ s) out = err stuck
rounds (suc fuel) size (c ∷ s) out = do
  (s', out') ← round size (c ∷ s) out
  rounds fuel size s' out'

-- The lines behind the loop: an empty result is `.`, and a slash at the end goes.
unfoldable pub finish : List ℕ → List ℕ
finish [] = b'.' ∷ []
finish (c ∷ out) = if length (c ∷ out) != 1 && c == b'/' then out else c ∷ out

-- `getcwd size` is what the system call answers: the path of the working directory.
module _ (getcwd : ℕ → Result (List ℕ)) where
  -- Where the loop starts: what is left of `src`, and what is written.
  unfoldable pub start : ℕ → List ℕ → Bool → Result (List ℕ × List ℕ)
  start size src is_abs =
      if byte src 0 == b'/'
      then ok (drop 1 src, b'/' ∷ [])
      else if is_abs
      then (do
        cwd ← getcwd size
        if leb size (length cwd + 2) then err too_long else ok (src, b'/' ∷ reverse cwd))
      else ok (src, [])

  -- The path written to `dst`; the code returns its length and one for the NUL.
  unfoldable pub normalise_path : ℕ → List ℕ → Bool → Result (List ℕ)
  unfolding start round rounds finish
  normalise_path size src is_abs = do
    (s, out) ← start size src is_abs
    out' ← rounds (length s) size s out
    ok (reverse (finish out'))
