-- ===== src/Options/Spellings.antt =====
-- What `getoption` of ibcs/main.c makes of the spellings of an option, and where it ends.
use ibcs_us.Prelude.{
  ℕ, ◌≡◌, ◌≢◌, refl, true, ◌||◌, some, List, [], ◌∷◌, ◌++◌, ◌==◌, ◌!=◌, All, arith,
}
use ibcs_us.Prelude.Text.{codes}
use ibcs_us.Filemap.Normalise.{byte}
use ibcs_us.Options.{
  Cursor, done, found, getoption, getoption_at, advance, match_option, short_option, long_option,
  options,
}

-- The start of a new string of the command line.
abbrev pub start : List (List ℕ) → Cursor
start argv = record { argv = argv; optindex = 0 }

-- The options with an argument, as they are typed: the letter, and the long name.
abbrev pub with_argument : List (ℕ × List ℕ)
with_argument =
    (b'l', codes "--log")
    ∷ (b'm', codes "--map")
    ∷ (b'p', codes "--personality")
    ∷ (b't', codes "--trace")
    ∷ []

-- The four spellings of an option with its argument are read alike: the letter with the argument at
-- once or in the next string, the name with `=` or with the argument in the next string.
abbrev pub AllSpellings : List ℕ → List (List ℕ) → ℕ × List ℕ → Type 0
AllSpellings v rest (letter, name) =
    ((c : ℕ)
      → getoption options (start ((b'-' ∷ letter ∷ c ∷ v) ∷ rest))
        ≡ found (b'-' ∷ letter ∷ b'=' ∷ []) (some (c ∷ v)) (start rest))
    × (getoption options (start ((b'-' ∷ letter ∷ []) ∷ v ∷ rest))
        ≡ found (b'-' ∷ letter ∷ b'=' ∷ []) (some v) (start rest))
    × (getoption options (start ((name ++ (b'=' ∷ v)) ∷ rest))
        ≡ found (name ++ (b'=' ∷ [])) (some v) (start rest))
    × (getoption options (start (name ∷ v ∷ rest))
        ≡ found (name ++ (b'=' ∷ [])) (some v) (start rest))

-- Every option with an argument is read with it in all of its spellings, and what follows is left on
-- the command line.
pub getoption-AllSpellings :
    (v : List ℕ) (rest : List (List ℕ)) → All (AllSpellings v rest) with_argument
unfolding getoption getoption_at advance match_option short_option long_option
getoption-AllSpellings v rest = (
  ((λ c. refl), refl, refl, refl),
  (
    ((λ c. refl), refl, ground arith, refl),
    (((λ c. refl), refl, refl, refl), (((λ c. refl), refl, ground arith, refl), tt)),
  ),
)

-- The options end at a string that does not begin with a dash, or is a dash alone, and it is left on
-- the command line if its second byte is not a dash either.
pub getoption_operand :
    (opts : List (List ℕ)) (av : List ℕ) (rest : List (List ℕ))
    → ((byte av 0 != b'-') || (byte av 1 == 0)) ≡ true
    → byte av 1 ≢ b'-'
    → getoption opts (start (av ∷ rest)) ≡ done (start (av ∷ rest))
unfolding getoption getoption_at advance
getoption_operand opts av rest h ne = ground arith

-- A string that is no option but has a dash for its second byte ends the options and is lost.
pub getoption_lost :
    (opts : List (List ℕ)) (av : List ℕ) (rest : List (List ℕ))
    → byte av 0 ≢ b'-'
    → byte av 1 ≡ b'-'
    → getoption opts (start (av ∷ rest)) ≡ done (start rest)
unfolding getoption getoption_at advance
getoption_lost opts av rest ne e = ground arith
