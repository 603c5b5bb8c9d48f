-- ===== src/Options.antt =====
-- ibcs/main.c: the command line and the environment. A string is the list of its bytes, and `argv`
-- the list of the strings up to the null pointer.
pub mod Flags
pub mod Spellings
pub mod Progress
pub mod Environment
mod Tests
use mathlib.Core.List.{reverse}
use ibcs_us.Prelude.{
  ℕ, zero, suc, ◌+◌, ◌-◌, ◌*◌, ◌%◌, ◌^◌, Bool, true, false, ◌&&◌, ◌||◌, Option, none, some, List,
  [], ◌∷◌, ◌++◌, ◌==◌, ◌!=◌, ltb, leb, if◌then◌else◌, length, get_or, take, drop,
}
use ibcs_us.Prelude.Text.{codes}
use ibcs_us.Filemap.Normalise.{byte}

-- Equality of strings, as `strcmp` and `strncmp` find it.
abbrev pub same_bytes : List ℕ → List ℕ → Bool
same_bytes [] [] = true
same_bytes [] (y ∷ ys) = false
same_bytes (x ∷ xs) [] = false
same_bytes (x ∷ xs) (y ∷ ys) = if x == y then same_bytes xs ys else false

pub ibcs_getenv : List (List ℕ) → List ℕ → Option (List ℕ)
ibcs_getenv [] name = none
ibcs_getenv (e ∷ envp) name =
    let len = length name in
    if same_bytes (take len e) name && byte e len == b'='
    then some (drop (len + 1) e)
    else ibcs_getenv envp name

-- `*argv` and `*optindex`
pub record Cursor : Type 0 where
  pub argv : List (List ℕ)
  pub optindex : ℕ

-- `usage_exit` is that `usage` has ended the process.
pub data Found : Type 0 where
  done : (at : Cursor) → Found
  found : (option : List ℕ) → (arg : Option (List ℕ)) → (at : Cursor) → Found
  usage_exit : Found

-- "Were we processing a list of single letter options, like -xyz?"
pub advance : List (List ℕ) → ℕ → Cursor
advance argv optindex =
    if optindex == 0
    then record { argv = argv; optindex = 0 }
    else if byte (get_or argv 0 []) (optindex + 1) == 0
    then record { argv = drop 1 argv; optindex = 0 }
    else record { argv = argv; optindex = optindex + 1 }

-- The argument of an option that has to have one: the next string.
abbrev pub next_argument : List ℕ → List (List ℕ) → Found
next_argument o [] = usage_exit
next_argument o (a ∷ rest) = found o (some a) (record { argv = rest; optindex = 0 })

-- What a short option that was found comes to.
pub short_option : List ℕ → List ℕ → List (List ℕ) → ℕ → Found
short_option o av rest optindex =
    if byte o 2 != b'='
    then found o none (record { argv = av ∷ rest; optindex = optindex })
    else elim (drop (optindex + 1) av) [
      | [] ↦ next_argument o rest
      | c ∷ v ↦ found o (some (c ∷ v)) (record { argv = rest; optindex = 0 })
    ]

-- The length of an option's name, without the `=`.
abbrev pub name_length : List ℕ → ℕ
name_length o = if byte o (length o - 1) == b'=' then length o - 1 else length o

-- What a long option that was found comes to.
pub long_option : List ℕ → List ℕ → List (List ℕ) → Found
long_option o av rest =
    let l = name_length o in
    if byte av l == b'='
    then (if byte o l == 0
        then usage_exit
        else found o (some (drop (l + 1) av)) (record { argv = rest; optindex = 0 }))
    else if byte o l == 0
    then found o none (record { argv = rest; optindex = 0 })
    else next_argument o rest

-- The loop over the options that are recognised.
pub match_option : List (List ℕ) → List ℕ → List (List ℕ) → ℕ → Found
match_option [] av rest optindex = usage_exit
match_option (o ∷ options) av rest optindex =
    let others = match_option options av rest optindex in
    let l = name_length o in
    if byte o 1 != b'-'
    then (if optindex != 0 && byte av optindex == byte o 1
        then short_option o av rest optindex
        else others)
    else if optindex == 0
        && (byte av l == 0 || byte av l == b'=')
        && same_bytes (take l av) (take l o)
    then long_option o av rest
    else others

-- `getoption` from "End of options?" on.
pub getoption_at : List (List ℕ) → List (List ℕ) → ℕ → Found
getoption_at options [] optindex = done (record { argv = []; optindex = optindex })
getoption_at options (av ∷ rest) optindex =
    if optindex == 0
    then (if byte av 0 != b'-' || byte av 1 == 0 || (byte av 1 == b'-' && byte av 2 == 0)
        then done (record { argv = if byte av 1 == b'-' then rest else av ∷ rest; optindex = 0 })
        else match_option options av rest (if byte av 1 != b'-' then 1 else 0))
    else match_option options av rest optindex

pub getoption : List (List ℕ) → Cursor → Found
getoption options c = let at = advance c.argv c.optindex in getoption_at options at.argv at.optindex

-- The options that are recognised.
abbrev pub options : List (List ℕ)
options =
    codes "-l="
    ∷ codes "--log="
    ∷ codes "-h"
    ∷ codes "--help"
    ∷ codes "-m="
    ∷ codes "--map="
    ∷ codes "-p="
    ∷ codes "--personality="
    ∷ codes "-t="
    ∷ codes "--trace="
    ∷ []

-- The options that were read, with their arguments, and how the reading ended.
abbrev pub OptionsRead : Type 0
OptionsRead = List (List ℕ × Option (List ℕ)) × Found

-- An option in front of those that follow it.
abbrev pub after_option : List ℕ → Option (List ℕ) → Option OptionsRead → Option OptionsRead
after_option o arg none = none
after_option o arg (some (os, end)) = some ((o, arg) ∷ os, end)

-- A round of the loop: `read` is the rest of it.
abbrev pub read_on : (Cursor → Option OptionsRead) → Found → Option OptionsRead
read_on read (done at) = some ([], done at)
read_on read (found o arg at) = after_option o arg (read at)
read_on read usage_exit = some ([], usage_exit)

-- The loop of `parse_cmdline_options`: the options with their arguments, and how it ends. What is done
-- for an option is left out: it has no part in how the command line is read.
pub read_options : ℕ → List (List ℕ) → Cursor → Option OptionsRead
unfolding getoption
read_options zero opts c = none
read_options (suc f) opts c = read_on (read_options f opts) (getoption opts c)
