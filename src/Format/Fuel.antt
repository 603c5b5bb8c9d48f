-- ===== src/Format/Fuel.antt =====
-- The length of a format is enough fuel for ibcs_vfmt: every round of the loop leaves a shorter format.
use ibcs_us.Prelude.{
  ℕ, zero, suc, ◌+◌, ◌-◌, ◌*◌, ◌%◌, ◌≤◌, ◌≡◌, refl, ap, true, false, ◌==◌, Option, none, some, List,
  [], ◌∷◌, if◌then◌else◌, length, drop, length-drop-le, arith, Bool-cases, Option-cases, List-cases,
  inl, inr, leb, ltb, ◌^◌, ◌&&◌,
}
use ibcs_us.Filemap.Normalise.{byte}
use ibcs_us.Format.{
  Arg, int, long_long, string, Directive, Converted, read_width, read_longs, read_directive, number,
  decimal, convert, convert_char, convert_int, convert_long, convert_string, up_to_percent, in_buf,
  buf_size, is_int_width,
}
use ibcs_us.Format.Expand.{expand, expand_text, expand_directive}

read_width_le : (width : ℕ) (f : List ℕ) → length (read_width width f).1 ≤ length f
unfolding read_width
read_width_le width [] = omega arith
read_width_le width (c ∷ f) = ground (arith, read_width_le (width * 10 + (c - b'0')) f)

read_longs_le : (n : ℕ) (f : List ℕ) → length (read_longs n f).1 ≤ length f
unfolding read_longs
read_longs_le zero f = omega arith
read_longs_le (suc n) [] = omega arith
read_longs_le (suc n) (c ∷ f) = ground (arith, read_longs_le n f)

read_directive_le : (f : List ℕ) → length (read_directive f).rest ≤ length f
unfolding read_directive
read_directive_le f =
    let left = byte f 0 == b'-' in
    let f1 = if left then drop 1 f else f in
    let l1 : length f1 ≤ length f = ground (arith, length-drop-le 1 f) in
    let f2 = (read_width 0 f1).1 in
    let l2 = read_width_le 0 f1 in
    let l3 = read_width_le 0 (drop 1 f2) in
    let f4 = if byte f2 0 == b'.' then (read_width 0 (drop 1 f2)).1 else f2 in
    let l4 : length f4 ≤ length f2 = ground (arith, length-drop-le 1 f2) in
    let l5 = read_longs_le 2 f4 in omega (arith, l1, l2, l4, l5)

in_buf_fmt :
    (bytes f : List ℕ) (args : List Arg) (c : Converted) → in_buf bytes f args ≡ some c → c.fmt ≡ f
in_buf_fmt bytes f args c h = elim (Bool-cases (leb (length bytes) buf_size)) [
  | inl fits ↦
      let e : some (record { bytes = bytes; args = args; fmt = f }) ≡ some c = (rw fits at h) in
      cc e
  | inr long ↦ let e : none ≡ some c = (rw long at h) in absurd (cc e)
]

convert_int_fmt :
    (print : ℕ → List ℕ) (f : List ℕ) (args : List Arg) (c : Converted)
    → convert_int print f args ≡ some c
    → c.fmt ≡ f
convert_int_fmt print f [] c h = cc h
convert_int_fmt print f (int n ∷ args) c h = in_buf_fmt (print (n % 2 ^ 32)) f args c h
convert_int_fmt print f (long_long n ∷ args) c h = cc h
convert_int_fmt print f (string s ∷ args) c h = cc h

convert_long_fmt :
    (print : ℕ → List ℕ) (f : List ℕ) (args : List Arg) (c : Converted)
    → convert_long print f args ≡ some c
    → c.fmt ≡ f
convert_long_fmt print f [] c h = cc h
convert_long_fmt print f (int n ∷ args) c h = cc h
convert_long_fmt print f (long_long n ∷ args) c h = in_buf_fmt (print (n % 2 ^ 64)) f args c h
convert_long_fmt print f (string s ∷ args) c h = cc h

convert_string_fmt :
    (f : List ℕ) (args : List Arg) (c : Converted) → convert_string f args ≡ some c → c.fmt ≡ f
convert_string_fmt f [] c h = cc h
convert_string_fmt f (int n ∷ args) c h = cc h
convert_string_fmt f (long_long n ∷ args) c h = cc h
convert_string_fmt f (string s ∷ args) c h = elim (Bool-cases (ltb (length s) (2 ^ 31))) [
  | inl short ↦
      let e : some (record { bytes = s; args = args; fmt = f }) ≡ some c = (rw short at h) in cc e
  | inr long ↦ let e : none ≡ some c = (rw long at h) in absurd (cc e)
]

convert_char_le :
    (x : ℕ) (d : Directive) (f f_start : List ℕ) (args : List Arg) (c : Converted)
    → convert_char x d f f_start args ≡ some c
    → length c.fmt ≤ length f + 1
unfolding convert_char
convert_char_le x d f f_start args c h =
    let a = if x == b'x' then b'a' - 10 else b'A' - 10 in
    ground (
      arith,
      convert_int_fmt (λ n. (n % 256) ∷ []) (x ∷ f) args c,
      convert_int_fmt (decimal true) f args c,
      convert_int_fmt (decimal false) f args c,
      convert_long_fmt (number 8 0) f args c,
      convert_int_fmt (number 8 0) f args c,
      convert_string_fmt f args c,
      convert_long_fmt (number 16 a) f args c,
      convert_int_fmt (number 16 a) f args c,
    )

length-drop_one : (xs : List ℕ) → 1 ≤ length xs → length (drop 1 xs) + 1 ≡ length xs
length-drop_one [] h = absurd (omega arith)
length-drop_one (x ∷ xs) h = omega arith

convert_widths :
    (d : Directive) (f_start : List ℕ) (args : List Arg) (c : Converted)
    → convert d f_start args ≡ some c
    → (is_int_width d.min_width && is_int_width d.max_width) ≡ true
unfolding convert
convert_widths d f_start args c h =
    elim (Bool-cases (is_int_width d.min_width && is_int_width d.max_width)) [
      | inl fit ↦ fit
      | inr wide ↦ let e : none ≡ some c = (rw (convert, wide) at h) in absurd (cc e)
    ]

convert_le :
    (d : Directive) (f_start : List ℕ) (args : List Arg) (c : Converted)
    → convert d f_start args ≡ some c
    → length c.fmt ≤ length d.rest
unfolding convert
convert_le d f_start args c h =
    let widths : (is_int_width d.min_width && is_int_width d.max_width) ≡ true =
      convert_widths d f_start args c h in
    elim (List-cases d.rest) [
      | inl end ↦
          let h' : (if d.longs == 0
                then some (record { bytes = f_start; args = args; fmt = [] })
                else none)
              ≡ some c =
            (rw (convert, widths, end) at h) in
          ground arith
      | inr (x, f, e) ↦
          let h' : convert_char x d f f_start args ≡ some c = (rw (convert, widths, e) at h) in
          let l : length d.rest ≡ suc (length f) = ap length e in
          omega (arith, convert_char_le x d f f_start args c h')
    ]

up_to_percent_le : (fmt : List ℕ) → length (up_to_percent fmt).1 ≤ length fmt
unfolding up_to_percent
up_to_percent_le [] = omega arith
up_to_percent_le (c ∷ fmt) = ground (arith, up_to_percent_le fmt)

module _ (f g : List ℕ → List Arg → Option (List ℕ)) (n : ℕ)
    (same : (fmt : List ℕ) (args : List Arg) → length fmt ≤ n → f fmt args ≡ g fmt args) where
  expand_directive_same :
      (f_start : List ℕ) (args : List Arg)
      → 1 ≤ length f_start
      → length f_start ≤ n + 1
      → expand_directive f f_start args ≡ expand_directive g f_start args
  unfolding expand_directive
  expand_directive_same f_start args h l =
      let d = read_directive (drop 1 f_start) in
      elim (Option-cases (convert d f_start args)) [
        | inl undefined ↦ rw undefined refl
        | inr (c, e) ↦
            let l1 = read_directive_le (drop 1 f_start) in
            let l2 = convert_le d f_start args c e in
            let l3 : length (drop 1 f_start) + 1 ≡ length f_start = length-drop_one f_start h in
            let e' = same c.fmt c.args (omega arith) in rw (e, e') refl
      ]

  expand_text_same :
      (text f_start : List ℕ) (args : List Arg)
      → length f_start ≤ n + 1
      → expand_text f text f_start args ≡ expand_text g text f_start args
  unfolding expand_text
  expand_text_same text f_start args l = elim (Bool-cases (length f_start == 0)) [
    | inl end ↦ rw end refl
    | inr more ↦ let e = expand_directive_same f_start args (ground arith) l in rw e refl
  ]

-- The length of a format is enough fuel for its expansion: more of it makes no difference.
pub expand_enough :
    (f g : ℕ) (fmt : List ℕ) (args : List Arg)
    → length fmt ≤ f
    → length fmt ≤ g
    → expand f fmt args ≡ expand g fmt args
unfolding expand
expand_enough f g [] args h k = refl
expand_enough zero g (c ∷ fmt) args h k = absurd (omega arith)
expand_enough (suc f) zero (c ∷ fmt) args h k = absurd (omega arith)
expand_enough (suc f) (suc g) (c ∷ fmt) args h k =
    let l = up_to_percent_le (c ∷ fmt) in
    expand_text_same (expand f) (expand g) (length fmt)
      (λ fmt' args' short. expand_enough f g fmt' args' (omega arith) (omega arith))
      (up_to_percent (c ∷ fmt)).0 (up_to_percent (c ∷ fmt)).1 args (omega arith)
