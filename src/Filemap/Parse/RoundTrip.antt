-- ===== src/Filemap/Parse/RoundTrip.antt =====
-- A map file that is written in the documented format is read back.
use mathlib.Core.List.{reverse, reverse-cons, reverse-reverse}
use ibcs_us.Prelude.{
  ℕ, ◌+◌, Bool, false, ◌&&◌, some, List, [], ◌∷◌, ◌++◌, ◌==◌, ◌≡◌, ◌≢◌, All, refl, ap, sym, ◌∙◌,
  arith, append_assoc, append-nil, ◌≤◌, ◌<◌, ◌^◌, ltb, length, true,
}
use ibcs_us.Prelude.Text.{codes}
use ibcs_us.Filemap.Result.{ok}
use ibcs_us.Filemap.Normalise.{byte}
use ibcs_us.Filemap.Parse.{
  Entry, mapping, is_blank, is_line_end, skip_while, skip_blanks, skip_line_end, skip_word,
  find_arrow, parse_to, parse_from, parse_line, parse_lines, loaded, lines, up_to_nul,
  filemap_parse,
}
use ibcs_us.Filemap.Parse.Skip.{skip_while_none}
use ibcs_us.Filemap.Parse.Accepted.{IsEntry, last}

-- The line of an entry, and the file of some entries.
abbrev pub print_entry : Entry → List ℕ
print_entry e = codes "prefixmap: " ++ (e.from ++ (codes " --> " ++ e.to))

abbrev pub print : List Entry → List ℕ
print [] = []
print (e ∷ es) = print_entry e ++ (b'\n' ∷ print es)

-- `-->` stands nowhere in a path.
abbrev pub NoArrow : List ℕ → Type 0
NoArrow [] = Unit {0}
NoArrow (c ∷ []) = Unit {0}
NoArrow (c ∷ d ∷ []) = Unit {0}
NoArrow (c ∷ d ∷ e ∷ s) = ((c == b'-' && d == b'-' && e == b'>') ≡ false) × NoArrow (d ∷ e ∷ s)

-- The bytes of a path on one line.
abbrev pub InLine : List ℕ → Type 0
InLine s = All (λ c. (c ≢ b'\n') × (c ≢ 0)) s

find_arrow-print :
    (from to before : List ℕ)
    → NoArrow from
    → find_arrow before (from ++ (codes " --> " ++ to))
      ≡ some (b' ' ∷ (reverse from ++ before), b' ' ∷ to)
unfolding find_arrow
find_arrow-print [] to before p = refl
find_arrow-print (c ∷ []) to before p = ground (arith, find_arrow-print [] to (c ∷ before) tt)
find_arrow-print (c ∷ d ∷ []) to before p =
    ground (arith, find_arrow-print (d ∷ []) to (c ∷ before) tt)
find_arrow-print (c ∷ d ∷ e ∷ s) to before (p, ps) = ground (
  arith,
  find_arrow-print (d ∷ e ∷ s) to (c ∷ before) ps,
  reverse-cons c (d ∷ e ∷ s),
  append_assoc (reverse (d ∷ e ∷ s)) (c ∷ []) before,
)

-- A list whose last byte fails a test is left alone by the loop that runs backwards.
skip_while-last :
    (test : ℕ → Bool) (s : List ℕ) → test (last s) ≡ false → skip_while test (reverse s) ≡ reverse s
skip_while-last test s h = go (reverse s) h
  where
    go : (r : List ℕ) → test (byte r 0) ≡ false → skip_while test r ≡ r
    go [] h = unfold skip_while in refl
    go (c ∷ r) h = skip_while_none test c r h

parse_to-print : (e : Entry) → IsEntry e → parse_to (reverse e.from) e.to ≡ mapping e
unfolding parse_to skip_line_end
parse_to-print e v =
    let k = skip_while-last is_line_end e.to v.to_trimmed in
    rw (k, v.to_absolute, reverse-reverse e.from, reverse-reverse e.to)
      (ground (arith, v.same_kind))

skip_blanks_none : (c : ℕ) (s : List ℕ) → is_blank c ≡ false → skip_blanks (c ∷ s) ≡ c ∷ s
unfolding skip_blanks
skip_blanks_none c s e = skip_while_none is_blank c s e

skip_blanks_blank : (s : List ℕ) → skip_blanks (b' ' ∷ s) ≡ skip_blanks s
unfolding skip_blanks skip_while
skip_blanks_blank s = refl

skip_blanks-path : (s t : List ℕ) → byte s 0 ≡ b'/' → skip_blanks (s ++ t) ≡ s ++ t
skip_blanks-path [] t h = absurd (omega arith)
skip_blanks-path (c ∷ s) t h = skip_blanks_none c (s ++ t) (ground arith)

parse_from-print :
    (e : Entry)
    → IsEntry e
    → NoArrow e.from
    → parse_from (e.from ++ (codes " --> " ++ e.to)) ≡ mapping e
unfolding parse_from
parse_from-print e v na =
    let abs : byte (e.from ++ (codes " --> " ++ e.to)) 0 ≡ b'/' =
      path_start e.from _ v.from_absolute in
    let b-eq : skip_blanks (b' ' ∷ (reverse e.from ++ [])) ≡ reverse e.from =
      skip_blanks_blank (reverse e.from ++ [])
      ∙ ap skip_blanks (append-nil (reverse e.from))
      ∙ unfold skip_blanks in skip_while-last is_blank e.from v.from_trimmed in
    let a-eq : skip_blanks e.to ≡ e.to =
      ap skip_blanks (sym (append-nil e.to))
      ∙ skip_blanks-path e.to [] v.to_absolute
      ∙ append-nil e.to in
    rw (abs, find_arrow-print e.from e.to [] na, b-eq, a-eq) (parse_to-print e v)
  where
    path_start : (s t : List ℕ) → byte s 0 ≡ b'/' → byte (s ++ t) 0 ≡ b'/'
    path_start [] t h = absurd (omega arith)
    path_start (c ∷ s) t h = h

skip_word_prefixmap :
    (s : List ℕ) → skip_word (codes "prefixmap:") (codes "prefixmap: " ++ s) ≡ some (b' ' ∷ s)
unfolding skip_word
skip_word_prefixmap s = refl

parse_line-print : (e : Entry) → IsEntry e → NoArrow e.from → parse_line (print_entry e) ≡ mapping e
unfolding parse_line
parse_line-print e v na =
    let rest = e.from ++ (codes " --> " ++ e.to) in
    let b-eq : skip_blanks (print_entry e) ≡ print_entry e = skip_blanks_none b'p' _ refl in
    let s-eq : skip_blanks (b' ' ∷ rest) ≡ rest =
      skip_blanks_blank rest ∙ skip_blanks-path e.from _ v.from_absolute in
    rw (b-eq, skip_word_prefixmap rest, s-eq) (parse_from-print e v na)

lines-append :
    (l acc rest : List ℕ)
    → InLine l
    → lines acc (l ++ (b'\n' ∷ rest)) ≡ (reverse acc ++ l) ∷ lines [] rest
unfolding lines
lines-append [] acc rest h = ap (λ t. t ∷ lines [] rest) (sym (append-nil (reverse acc)))
lines-append (c ∷ l) acc rest ((n, z), h) = ground (
  arith,
  lines-append l (c ∷ acc) rest h,
  reverse-cons c acc,
  append_assoc (reverse acc) (c ∷ []) l,
)

up_to_nul-line :
    (l rest : List ℕ) → InLine l → up_to_nul (l ++ (b'\n' ∷ rest)) ≡ l ++ (b'\n' ∷ up_to_nul rest)
unfolding up_to_nul
up_to_nul-line [] rest h = refl
up_to_nul-line (c ∷ l) rest ((n, z), h) = ground (arith, up_to_nul-line l rest h)

InLine-append : (xs ys : List ℕ) → InLine xs → InLine ys → InLine (xs ++ ys)
InLine-append [] ys h k = k
InLine-append (x ∷ xs) ys (p, h) k = (p, InLine-append xs ys h k)

-- An entry that the format can say.
abbrev pub IsPrintable : Entry → Type 0
IsPrintable e = IsEntry e × NoArrow e.from × InLine e.from × InLine e.to

print_entry-InLine : (e : Entry) → IsPrintable e → InLine (print_entry e)
print_entry-InLine e (v, na, f, t) =
    InLine-append (codes "prefixmap: ") (e.from ++ (codes " --> " ++ e.to)) (omega arith) (
      InLine-append e.from (codes " --> " ++ e.to) f
        (InLine-append (codes " --> ") e.to (omega arith) t))

-- The empty text behind the last newline is a line without an entry.
blank_line : (n : ℕ) → parse_lines n (lines [] (up_to_nul [])) ≡ loaded []
unfolding parse_lines lines up_to_nul parse_line skip_blanks skip_while
blank_line n = refl

parse_lines-print :
    (n : ℕ) (es : List Entry)
    → All IsPrintable es
    → parse_lines n (lines [] (up_to_nul (print es))) ≡ loaded es
unfolding parse_lines
parse_lines-print n [] h = blank_line n
parse_lines-print n (e ∷ es) ((v, na, f, t), h) =
    let l = print_entry e in
    let in_line = print_entry-InLine e (v, na, f, t) in
    let split = up_to_nul-line l (print es) in_line in
    let cut = lines-append l [] (up_to_nul (print es)) in_line in
    ap (λ t. parse_lines n (lines [] t)) split
    ∙ ap (parse_lines n) cut
    ∙ rw (parse_lines, parse_line-print e v na, parse_lines-print (n + 1) es h)

length-up_to_nul_le : (s : List ℕ) → length (up_to_nul s) ≤ length s
unfolding up_to_nul
length-up_to_nul_le [] = omega arith
length-up_to_nul_le (c ∷ s) = ground (arith, length-up_to_nul_le s)

-- A file of fewer than 65536 bytes that has a line in the documented format for each of some entries is
-- read back as those entries in their order.
pub filemap_parse-print :
    (es : List Entry)
    → All IsPrintable es
    → length (print es) < 2 ^ 16
    → filemap_parse (ok (print es)) ≡ loaded es
unfolding filemap_parse
filemap_parse-print es h short =
    let le = length-up_to_nul_le (print es) in
    let fits : ltb (length (up_to_nul (print es))) (2 ^ 16) ≡ true = ground arith in
    rw (parse_lines-print 1 es h, fits) refl
