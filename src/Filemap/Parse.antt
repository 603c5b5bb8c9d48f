-- ===== src/Filemap/Parse.antt =====
-- `filemap_parse` of ibcs/filemap.c: the lines of a map file. The code turns the text into a chain of
-- `struct filemap` in place; here the chain is a list of entries, each with the strings that its
-- offsets point to. The three offsets have 16 bits. They are distances within the text, so that none
-- wraps in a text shorter than 65536 bytes; for a longer one the answer is `wrapped`, and what the offsets lead to
-- is not modelled.
pub mod Skip
pub mod Accepted
pub mod BadLine
pub mod RoundTrip
mod Tests
use mathlib.Core.List.{reverse}
use ibcs_us.Prelude.{
  ℕ, zero, suc, ◌+◌, Bool, true, false, not, ◌&&◌, ◌||◌, Option, none, some, List, [], ◌∷◌, ◌==◌,
  ◌!=◌, if◌then◌else◌, drop, ◌^◌, ltb, length,
}
use ibcs_us.Prelude.Text.{codes}
use ibcs_us.Filemap.Result.{Result, ok, err, Error}
use ibcs_us.Filemap.Normalise.{byte}

-- `struct filemap`
pub record Entry : Type 0 where
  pub from : List ℕ
  pub to : List ℕ

-- `IS_BLANK`
abbrev pub is_blank : ℕ → Bool
is_blank c = c == b' ' || c == b'\t'

-- The loops that pass over some bytes.
unfoldable pub skip_while : (ℕ → Bool) → List ℕ → List ℕ
skip_while test [] = []
skip_while test (c ∷ s) = if test c then skip_while test s else c ∷ s

pub skip_blanks : List ℕ → List ℕ
unfolding skip_while
skip_blanks s = skip_while is_blank s

-- `*b == '\r' || IS_BLANK(*b)`, at the end of a line, which is read backwards.
abbrev pub is_line_end : ℕ → Bool
is_line_end c = c == b'\r' || is_blank c

pub skip_line_end : List ℕ → List ℕ
unfolding skip_while
skip_line_end s = skip_while is_line_end s

-- `SKIP_STR`: what follows a word, if the string begins with it.
pub skip_word : List ℕ → List ℕ → Option (List ℕ)
skip_word [] s = some s
skip_word (w ∷ ws) [] = none
skip_word (w ∷ ws) (c ∷ s) = if w == c then skip_word ws s else none

-- The search for a `-->` with a blank on either side. `before` is what has been passed, the last
-- byte first; the answer is what stands before and behind the arrow.
pub find_arrow : List ℕ → List ℕ → Option (List ℕ × List ℕ)
find_arrow before [] = none
find_arrow before (c ∷ []) = none
find_arrow before (c ∷ d ∷ []) = none
find_arrow before (c ∷ d ∷ e ∷ s) =
    let next = find_arrow (c ∷ before) (d ∷ e ∷ s) in
    let skip = find_arrow (e ∷ d ∷ c ∷ before) s in
    if c == b'-' && d == b'-' && e == b'>'
    then if is_blank (byte before 0) && is_blank (byte s 0) then some (before, s) else skip
    else next

-- What a line of the file is.
pub data Line : Type 0 where
  ignored bad : Line
  mapping : Entry → Line

-- From the `/to/path` on. `from` is the other path, the last byte first.
pub parse_to : List ℕ → List ℕ → Line
unfolding skip_line_end
parse_to from s =
    let to = skip_line_end (reverse s) in
    if byte s 0 != b'/'
    then bad
    else if (byte from 0 == b'/' || byte to 0 == b'/') && byte to 0 != byte from 0
    then bad
    else mapping (record { from = reverse from; to = reverse to })

-- From the `/from/path` on.
pub parse_from : List ℕ → Line
parse_from s = if byte s 0 != b'/' then bad else elim (find_arrow [] s) [
  | none ↦ bad
  | some (before, after) ↦ parse_to (skip_blanks before) (skip_blanks (drop 1 after))
]

pub parse_line : List ℕ → Line
parse_line line =
    let b = skip_blanks line in
    if byte b 0 == b'#' || byte b 0 == 0 then ignored else elim (skip_word (codes "prefixmap:") b) [
      | none ↦ bad
      | some end ↦ parse_from (skip_blanks end)
    ]

-- The lines of the text, each without its newline; `acc` is the part of the first that has been read.
pub lines : List ℕ → List ℕ → List (List ℕ)
lines acc [] = reverse acc ∷ []
lines acc (c ∷ s) =
    let rest = lines [] s in
    let more = lines (c ∷ acc) s in if c == b'\n' then reverse acc ∷ rest else more

-- `bad_line` has the number of the first line that cannot be parsed: the process ends there. `wrapped`
-- is that the lines are good and the text is so long that an offset may not have fit in 16 bits.
pub data Parsed : Type 0 where
  loaded : List Entry → Parsed
  bad_line : ℕ → Parsed
  unreadable : Error → Parsed
  wrapped : Parsed

-- An entry in front of the chain of those that follow, for a `next_off` that has not wrapped.
abbrev pub chain : Entry → Parsed → Parsed
chain e (loaded es) = loaded (e ∷ es)
chain e (bad_line n) = bad_line n
chain e (unreadable x) = unreadable x
chain e wrapped = wrapped

-- The loop over the lines, from line `n` on.
pub parse_lines : ℕ → List (List ℕ) → Parsed
parse_lines n [] = loaded []
parse_lines n (l ∷ ls) =
    let rest = parse_lines (n + 1) ls in
    elim (parse_line l) [ ignored ↦ rest | bad ↦ bad_line n | mapping e ↦ chain e rest ]

-- The string in the buffer: a NUL in the file ends it.
pub up_to_nul : List ℕ → List ℕ
up_to_nul [] = []
up_to_nul (c ∷ s) = if c == 0 then [] else c ∷ up_to_nul s

-- The offsets lead to what they were set for in a text of so many bytes.
abbrev pub in_offsets : ℕ → Parsed → Parsed
in_offsets size (loaded es) = if ltb size (2 ^ 16) then loaded es else wrapped
in_offsets size (bad_line n) = bad_line n
in_offsets size (unreadable x) = unreadable x
in_offsets size wrapped = wrapped

-- `file` is what opening and reading the map file gives.
pub filemap_parse : Result (List ℕ) → Parsed
filemap_parse (err e) = unreadable e
filemap_parse (ok content) =
    let text = up_to_nul content in in_offsets (length text) (parse_lines 1 (lines [] text))
