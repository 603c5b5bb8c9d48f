-- ===== src/Options/Tests.antt =====
-- The command line and the environment at concrete strings.
use ibcs_us.Prelude.{◌≡◌, ◌≢◌, refl, some, none, [], ◌∷◌, All, arith}
use ibcs_us.Prelude.Text.{codes}
use ibcs_us.Options.{
  done, getoption, getoption_at, advance, match_option, short_option, long_option, options,
  read_options,
}
use ibcs_us.Options.Spellings.{start, with_argument, AllSpellings, getoption-AllSpellings}
use ibcs_us.Options.Progress.{read_options_total}

-- The option for help is read, with a letter of an option behind it.
help_and_map :
    read_options 20 options (start (codes "-hm" ∷ codes "f" ∷ codes "prog" ∷ []))
    ≡ some (
      (codes "-h", none) ∷ (codes "-m=", some (codes "f")) ∷ [],
      done (start (codes "prog" ∷ [])),
    )
unfolding read_options getoption getoption_at advance match_option short_option long_option
help_and_map = refl

getoption-AllSpellings_example : All (AllSpellings (codes "f") (codes "prog" ∷ [])) with_argument
getoption-AllSpellings_example = getoption-AllSpellings (codes "f") (codes "prog" ∷ [])

read_options_total_example : read_options 9 options (start (codes "--map=f" ∷ [])) ≢ none
read_options_total_example =
    read_options_total 9 options (start (codes "--map=f" ∷ [])) (omega arith) (omega arith)
