-- ===== src/Filemap/Parse/BadLine.antt =====
-- Which lines `filemap_parse` accepts, and which line it complains of.
use ibcs_us.Prelude.{ℕ, ◌+◌, List, [], ◌∷◌, ◌++◌, ◌≡◌, ◌≢◌, All, refl, ap, ◌∙◌, arith, length}
use ibcs_us.Filemap.Parse.{Entry, bad, mapping, parse_line, parse_lines, loaded, bad_line}

-- The entries of some lines, in their order.
pub entries : List (List ℕ) → List Entry
entries [] = []
entries (l ∷ ls) = elim (parse_line l) [ mapping e ↦ e ∷ entries ls | _ ↦ entries ls ]

bad_here :
    (n : ℕ) (l : List ℕ) (back : List (List ℕ))
    → parse_line l ≡ bad
    → parse_lines n (l ∷ back) ≡ bad_line (n + 0)
unfolding parse_lines
bad_here n l back e = rw (e, parse_lines) (ap bad_line (omega arith))

later :
    (n : ℕ) (k : List ℕ) (ls : List (List ℕ)) (m : ℕ)
    → parse_line k ≢ bad
    → parse_lines (n + 1) ls ≡ bad_line m
    → parse_lines n (k ∷ ls) ≡ bad_line m
unfolding parse_lines
later n k ls m good e = ground arith

later_loaded :
    (n : ℕ) (k : List ℕ) (ls : List (List ℕ)) (es : List Entry)
    → parse_line k ≢ bad
    → parse_lines (n + 1) ls ≡ loaded es
    → parse_lines n (k ∷ ls) ≡ loaded (elim (parse_line k) [ mapping e ↦ e ∷ es | _ ↦ es ])
unfolding parse_lines
later_loaded n k ls es good e = ground arith

-- Where no line is bad the entries of all lines are loaded, in their order.
pub parse_lines-entries :
    (n : ℕ) (ls : List (List ℕ))
    → All (λ l. parse_line l ≢ bad) ls
    → parse_lines n ls ≡ loaded (entries ls)
unfolding entries
parse_lines-entries n [] h = unfold parse_lines in refl
parse_lines-entries n (k ∷ ls) (good, h) =
    later_loaded n k ls (entries ls) good (parse_lines-entries (n + 1) ls h)

-- The number of the first line that cannot be parsed is reported, whatever follows it, and no map is
-- loaded. Lines are counted from `n`.
pub parse_lines-first_bad :
    (n : ℕ) (front : List (List ℕ)) (l : List ℕ) (back : List (List ℕ))
    → All (λ k. parse_line k ≢ bad) front
    → parse_line l ≡ bad
    → parse_lines n (front ++ (l ∷ back)) ≡ bad_line (n + length front)
parse_lines-first_bad n [] l back h e = bad_here n l back e
parse_lines-first_bad n (k ∷ front) l back (good, h) e =
    later n k (front ++ (l ∷ back)) (n + 1 + length front) good
      (parse_lines-first_bad (n + 1) front l back h e)
    ∙ ap bad_line (omega arith)
