-- ===== src/Filemap/Parse/Tests.antt =====
-- The unit tests of ibcs/filemap.c for `filemap_parse`, and its theorems at concrete files.
use ibcs_us.Prelude.{◌+◌, ◌≡◌, ◌≢◌, [], ◌∷◌, ◌++◌, All, refl, arith}
use ibcs_us.Prelude.Text.{codes}
use ibcs_us.Filemap.Result.{ok}
use ibcs_us.Filemap.Parse.{
  Entry, bad, parse_line, parse_lines, loaded, bad_line, filemap_parse, lines, parse_to, parse_from,
  skip_blanks, skip_while, skip_line_end, skip_word, find_arrow, up_to_nul,
}
use ibcs_us.Filemap.Parse.Accepted.{IsEntry, filemap_parse-IsEntry}
use ibcs_us.Filemap.Parse.BadLine.{parse_lines-first_bad}
use ibcs_us.Filemap.Parse.RoundTrip.{IsPrintable, print, filemap_parse-print}

unit_tests_loaded :
    (filemap_parse (ok (codes "")) ≡ loaded [])
    × (filemap_parse (ok (codes " \t# comment - empty file\n \t \n")) ≡ loaded [])
    × (filemap_parse (
          ok
            (codes "# comment\nprefixmap: /a f --> /b e\nprefixmap:\t/c/\t \t-->\t \t/d/\t  \t \n"))
        ≡ loaded (
            record { from = codes "/a f"; to = codes "/b e" }
            ∷ record { from = codes "/c/"; to = codes "/d/" }
            ∷ []))
    × (filemap_parse (ok (codes "# comment \n\nprefixmap: /x --> /y "))
        ≡ loaded (record { from = codes "/x"; to = codes "/y" } ∷ []))
    × (filemap_parse (ok (codes "# comment \n\nprefixmap: /a --> /b"))
        ≡ loaded (record { from = codes "/a"; to = codes "/b" } ∷ []))
unfolding filemap_parse parse_lines lines up_to_nul parse_line parse_from parse_to skip_blanks
    skip_while skip_line_end skip_word find_arrow
unit_tests_loaded = (refl, refl, refl, refl, refl)

unit_tests_bad_line :
    (filemap_parse (ok (codes "prefixmap ")) ≡ bad_line 1)
    × (filemap_parse (ok (codes "# comment \nprefixmap:")) ≡ bad_line 2)
    × (filemap_parse (ok (codes "# comment \nprefixmap: x --> y\n")) ≡ bad_line 2)
    × (filemap_parse (ok (codes "# comment \n\nprefixmap: /x")) ≡ bad_line 3)
    × (filemap_parse (ok (codes "# comment \n\nprefixmap: /x --> \n")) ≡ bad_line 3)
    × (filemap_parse (ok (codes "# comment \n\nprefixmap: /x --> zzz \n")) ≡ bad_line 3)
    × (filemap_parse (ok (codes "prefixmap: /x --> /zzz/")) ≡ bad_line 1)
    × (filemap_parse (ok (codes "prefixmap: /x/ --> /zzz")) ≡ bad_line 1)
unfolding filemap_parse parse_lines lines up_to_nul parse_line parse_from parse_to skip_blanks
    skip_while skip_line_end skip_word find_arrow
unit_tests_bad_line = (refl, refl, refl, refl, refl, refl, refl, refl)

abbrev a_to_b : Entry
a_to_b = record { from = codes "/a"; to = codes "/b" }

a_to_b-IsPrintable : IsPrintable a_to_b
a_to_b-IsPrintable = ground arith

filemap_parse-print_example : filemap_parse (ok (print (a_to_b ∷ []))) ≡ loaded (a_to_b ∷ [])
filemap_parse-print_example =
    filemap_parse-print (a_to_b ∷ []) (a_to_b-IsPrintable, tt) (omega arith)

filemap_parse-IsEntry_example : All IsEntry (a_to_b ∷ [])
filemap_parse-IsEntry_example =
    filemap_parse-IsEntry (ok (codes "prefixmap: /a --> /b")) (a_to_b ∷ []) (
      unfold filemap_parse parse_lines lines up_to_nul parse_line parse_from parse_to skip_blanks
        skip_while skip_line_end skip_word find_arrow in
      refl)

comment_good : parse_line (codes "# comment") ≢ bad
unfolding parse_line skip_blanks skip_while
comment_good = λ e. cc

parse_lines-first_bad_example :
    parse_lines 1 ((codes "# comment" ∷ []) ++ (codes "prefixmap:" ∷ [])) ≡ bad_line (1 + 1)
parse_lines-first_bad_example =
    parse_lines-first_bad 1 (codes "# comment" ∷ []) (codes "prefixmap:") [] (comment_good, tt)
      (unfold parse_line parse_from parse_to skip_blanks skip_while skip_line_end skip_word
          find_arrow in
        refl)
