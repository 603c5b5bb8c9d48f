-- ===== src/Filemap/Parse/Accepted.antt =====
-- What `filemap_parse` guarantees of the entries that it accepts.
use mathlib.Core.List.{reverse, reverse-reverse}
use ibcs_us.Prelude.{
  ℕ, ◌+◌, false, List, [], ◌∷◌, ◌++◌, ◌==◌, ◌≡◌, All, refl, ap, sym, ◌∙◌, arith, Option-cases, inl,
  inr, append-nil, drop, subst, ◌⊎◌, ◌<◌, ◌^◌, ltb, length, Bool-cases,
}
use ibcs_us.Prelude.Text.{codes}
use ibcs_us.Filemap.Result.{Result, ok, err}
use ibcs_us.Filemap.Normalise.{byte}
use ibcs_us.Filemap.Parse.{
  Entry, Line, ignored, bad, mapping, is_blank, is_line_end, skip_while, skip_blanks, skip_line_end,
  skip_word, find_arrow, parse_to, parse_from, parse_line, parse_lines, Parsed, loaded, bad_line,
  unreadable, wrapped, chain, in_offsets, lines, up_to_nul, filemap_parse,
}
use ibcs_us.Filemap.Parse.Skip.{skip_while_head, first_kept, find_arrow_found}

abbrev pub last : List ℕ → ℕ
last s = byte (reverse s) 0

-- Both paths begin with a slash and end in no blank, and both are directories or neither is.
pub record IsEntry (e : Entry) : Type 0 where
  pub from_absolute : byte e.from 0 ≡ b'/'
  pub to_absolute : byte e.to 0 ≡ b'/'
  pub from_trimmed : is_blank (last e.from) ≡ false
  pub to_trimmed : is_line_end (last e.to) ≡ false
  pub same_kind : (last e.from == b'/') ≡ (last e.to == b'/')

parse_to-IsEntry :
    (from s : List ℕ) (e : Entry)
    → byte (reverse from) 0 ≡ b'/'
    → is_blank (byte from 0) ≡ false
    → parse_to from s ≡ mapping e
    → IsEntry e
unfolding parse_to skip_line_end
parse_to-IsEntry from s e a b h =
    let to = skip_while is_line_end (reverse s) in
    let abs : byte s 0 ≡ b'/' = ground arith in
    let s-eq : byte (reverse (reverse s)) 0 ≡ byte s 0 = ap (λ t. byte t 0) (reverse-reverse s) in
    let kept = first_kept is_line_end (reverse s) (ground arith) in
    let e-eq : record { from = reverse from; to = reverse to } ≡ e = ground arith in
    subst IsEntry e-eq (record {
      from_absolute = a;
      to_absolute = kept ∙ s-eq ∙ abs;
      from_trimmed = rw (reverse-reverse from) b;
      to_trimmed = rw (reverse-reverse to) (skip_while_head is_line_end (reverse s) refl);
      same_kind = rw (reverse-reverse from, reverse-reverse to) (ground arith);
    })

start_of : (t rest : List ℕ) → byte (t ++ (b'-' ∷ rest)) 0 ≡ b'/' → byte t 0 ≡ b'/'
start_of [] rest h = absurd (ground arith)
start_of (c ∷ t) rest h = h

parse_from-IsEntry : (s : List ℕ) (e : Entry) → parse_from s ≡ mapping e → IsEntry e
unfolding parse_from skip_blanks
parse_from-IsEntry s e h = elim (Option-cases (find_arrow [] s)) [
  | inl missing ↦ absurd (ground arith)
  | inr ((before, after), found) ↦
      let slash : byte s 0 ≡ b'/' = ground arith in
      let (t, p, q, x, y) = find_arrow_found [] s before after found in
      let b-eq : before ≡ reverse t = p ∙ append-nil (reverse t) in
      let r-eq : reverse before ≡ t = ap reverse b-eq ∙ reverse-reverse t in
      let t-slash : byte t 0 ≡ b'/' = start_of t _ (sym (ap (λ k. byte k 0) q) ∙ slash) in
      let kept =
        first_kept is_blank before (ap (λ k. is_blank (byte k 0)) r-eq ∙ ap is_blank t-slash) in
      parse_to-IsEntry (skip_while is_blank before) (skip_blanks (drop 1 after)) e
        (kept ∙ ap (λ k. byte k 0) r-eq ∙ t-slash) (skip_while_head is_blank before refl)
        (ground arith)
]

parse_line-IsEntry : (l : List ℕ) (e : Entry) → parse_line l ≡ mapping e → IsEntry e
unfolding parse_line
parse_line-IsEntry l e h = elim (Option-cases (skip_word (codes "prefixmap:") (skip_blanks l))) [
  | inl missing ↦ absurd (ground arith)
  | inr (end, found) ↦ parse_from-IsEntry (skip_blanks end) e (ground arith)
]

Line-cases : (x : Line) → (x ≡ ignored) ⊎ ((x ≡ bad) ⊎ ((e : Entry) × (x ≡ mapping e)))
Line-cases ignored = inl refl
Line-cases bad = inr (inl refl)
Line-cases (mapping e) = inr (inr (e, refl))

chain_loaded :
    (e : Entry) (rest : Parsed) (es : List Entry)
    → chain e rest ≡ loaded es
    → (es' : List Entry) × (rest ≡ loaded es') × (e ∷ es' ≡ es)
chain_loaded e (loaded es') es h = (es', refl, ground arith)
chain_loaded e (bad_line k) es h = absurd (cc)
chain_loaded e (unreadable x) es h = absurd (cc)
chain_loaded e wrapped es h = absurd (cc)

-- What is loaded was so without regard to the offsets, from a text that is short enough for them.
in_offsets_loaded :
    (size : ℕ) (p : Parsed) (es : List Entry)
    → in_offsets size p ≡ loaded es
    → (size < 2 ^ 16) × (p ≡ loaded es)
in_offsets_loaded size (loaded es') es h = elim (Bool-cases (ltb size (2 ^ 16))) [
  | inl short ↦ let same : loaded es' ≡ loaded es = (rw short at h) in (ground arith, same)
  | inr long ↦ let z : wrapped ≡ loaded es = (rw long at h) in absurd (cc z)
]
in_offsets_loaded size (bad_line n) es h = absurd (cc)
in_offsets_loaded size (unreadable x) es h = absurd (cc)
in_offsets_loaded size wrapped es h = absurd (cc)

parse_lines-IsEntry :
    (n : ℕ) (ls : List (List ℕ)) (es : List Entry) → parse_lines n ls ≡ loaded es → All IsEntry es
unfolding parse_lines
parse_lines-IsEntry n [] es h = let z : [] ≡ es = ground arith in subst (All IsEntry) z tt
parse_lines-IsEntry n (l ∷ ls) es h = elim (Line-cases (parse_line l)) [
  | inl e ↦ parse_lines-IsEntry (n + 1) ls es (rw (e, parse_lines) at h)
  | inr (inl e) ↦ absurd (ground arith)
  | inr (inr (x, e)) ↦
      let h' : chain x (parse_lines (n + 1) ls) ≡ loaded es = ground arith in
      let (es', p, q) = chain_loaded x (parse_lines (n + 1) ls) es h' in
      subst (All IsEntry) q (parse_line-IsEntry l x e, parse_lines-IsEntry (n + 1) ls es' p)
]

-- Of a map file that is accepted, with no offset that may wrap, every entry has two absolute paths that end
-- in no blank, and that are both directories or both not.
pub filemap_parse-IsEntry :
    (file : Result (List ℕ)) (es : List Entry) → filemap_parse file ≡ loaded es → All IsEntry es
unfolding filemap_parse
filemap_parse-IsEntry (ok content) es h =
    let text = up_to_nul content in
    let (short, read) = in_offsets_loaded (length text) (parse_lines 1 (lines [] text)) es h in
    parse_lines-IsEntry 1 (lines [] text) es read
filemap_parse-IsEntry (err x) es h = absurd (cc)
