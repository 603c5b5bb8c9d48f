-- ===== src/Format/Expand.antt =====
-- The loop of ibcs_vfmt against the whole output of a format, which has no bound.
use ibcs_us.Prelude.{
  ℕ, zero, suc, ◌-◌, ◌≡◌, refl, sym, ◌||◌, ◌==◌, Option, none, some, List, [], ◌∷◌, ◌++◌,
  if◌then◌else◌, length, take, drop, length-append, arith, Bool-cases, Option-cases, inl, inr,
}
use ibcs_us.Prelude.Take.{fitted, length-take, take-append}
use ibcs_us.CString.{◌>>=◌}
use ibcs_us.Format.{
  Arg, read_directive, convert, up_to_percent, written, put_directive, put_text, fmt_loop,
}
use ibcs_us.Format.Field.{field, put_field-take}

-- What stands in front of the rest of the output.
abbrev pub before : List ℕ → Option (List ℕ) → Option (List ℕ)
before out none = none
before out (some rest) = some (out ++ rest)

-- The field of a directive and what follows it.
unfoldable pub expand_directive :
    (List ℕ → List Arg → Option (List ℕ)) → List ℕ → List Arg → Option (List ℕ)
expand_directive rest f_start args = do
  c ← convert (read_directive (drop 1 f_start)) f_start args
  before (field (read_directive (drop 1 f_start)) c.bytes) (rest c.fmt c.args)

-- The text between two directives, and what follows it.
unfoldable pub expand_text :
    (List ℕ → List Arg → Option (List ℕ)) → List ℕ → List ℕ → List Arg → Option (List ℕ)
expand_text rest text f_start args =
    let more = expand_directive rest f_start args in
    before text (if length f_start == 0 then some [] else more)

-- The whole output of a format: the text between the directives as it is, and their fields.
unfoldable pub expand : ℕ → List ℕ → List Arg → Option (List ℕ)
expand f [] args = some []
expand zero (c ∷ fmt) args = none
expand (suc f) (c ∷ fmt) args =
    let (text, f_start) = up_to_percent (c ∷ fmt) in expand_text (expand f) text f_start args

before-some :
    (out : List ℕ) (rest : Option (List ℕ)) (full : List ℕ)
    → before out rest ≡ some full
    → (tail : List ℕ) × (rest ≡ some tail) × (full ≡ out ++ tail)
before-some out none full h = cc
before-some out (some tail) full h = (tail, refl, ground arith)

take_nil : (size : ℕ) → ◌≡◌ {A = List ℕ} (take size []) []
take_nil zero = refl
take_nil (suc n) = refl

nothing_take :
    (size : ℕ)
    → ◌≡◌ {A = Option (List ℕ × ℕ)}
        (some ([], size))
        (some (take size [], size - length (take {A = ℕ} size [])))
nothing_take size = let same : size - 0 ≡ size = omega arith in rw (take_nil size, same) refl

take-fitted : (size : ℕ) (xs : List ℕ) → take (fitted (length xs) size) xs ≡ take size xs
take-fitted zero [] = refl
take-fitted zero (x ∷ xs) = ground arith
take-fitted (suc n) [] = ground arith
take-fitted (suc n) (x ∷ xs) = ground (arith, take-fitted n xs)

-- Some output, and the rest of it in the room that is left.
written-take :
    (out tail : List ℕ) (size : ℕ) (r : Option (List ℕ × ℕ))
    → r
      ≡ some (
        take (size - length (take size out)) tail,
        size - length (take size out) - length (take (size - length (take size out)) tail),
      )
    → written (take size out) r
      ≡ some (take size (out ++ tail), size - length (take size (out ++ tail)))
written-take out tail size r e =
    let room : size - length (take size out) ≡ size - length out =
      ground (arith, length-take size out) in
    let e1 = take-append size out tail in
    let l = length-append (take size out) (take (size - length out) tail) in
    let e2 : size - length out - length (take (size - length out) tail)
        ≡ size - length (take size out ++ take (size - length out) tail) =
      ground (arith, length-take size out) in
    rw (e, room, e1, e2) refl

module _ (put : ℕ → List ℕ → List Arg → Option (List ℕ × ℕ))
    (whole : List ℕ → List Arg → Option (List ℕ))
    (ih : (size' : ℕ) (fmt' : List ℕ) (args' : List Arg) (full : List ℕ)
      → whole fmt' args' ≡ some full
      → put size' fmt' args' ≡ some (take size' full, size' - length (take size' full))) where
  put_directive-take :
      (size : ℕ) (f_start : List ℕ) (args : List Arg) (tail : List ℕ)
      → expand_directive whole f_start args ≡ some tail
      → put_directive put size f_start args ≡ some (take size tail, size - length (take size tail))
  unfolding put_directive expand_directive
  put_directive-take size f_start args tail h =
      let d = read_directive (drop 1 f_start) in
      elim (Option-cases (convert d f_start args)) [
        | inl undefined ↦
            let z : ◌≡◌ {A = Option (List ℕ)} none (some tail) = (rw undefined at h) in
            absurd (cc z)
        | inr (c, e) ↦
            let h' : before (field d c.bytes) (whole c.fmt c.args) ≡ some tail = (rw e at h) in
            let (t, e1, e2) = before-some (field d c.bytes) (whole c.fmt c.args) tail h' in
            let w =
              written-take (field d c.bytes) t size _
                (ih (size - length (take size (field d c.bytes))) c.fmt c.args t e1) in
            rw (e, put_field-take d c.bytes size, e2) w
      ]

  rest_take :
      (size : ℕ) (f_start : List ℕ) (args : List Arg) (t : List ℕ)
      → (if length f_start == 0 then some [] else expand_directive whole f_start args) ≡ some t
      → (if size == 0 || length f_start == 0
          then some ([], size)
          else put_directive put size f_start args)
        ≡ some (take size t, size - length (take size t))
  rest_take size f_start args t h = elim (Bool-cases (size == 0)) [
    | inl full ↦ let z : size ≡ 0 = ground arith in rw z refl
    | inr room ↦ elim (Bool-cases (length f_start == 0)) [
      | inl end ↦
          let z : ◌≡◌ {A = Option (List ℕ)} (some []) (some t) = (rw end at h) in
          let t_empty : [] ≡ t = cc z in rw (room, end, sym t_empty) (nothing_take size)
      | inr more ↦
          let h' : expand_directive whole f_start args ≡ some t = (rw more at h) in
          rw (room, more) (put_directive-take size f_start args t h')
    ]
  ]

  put_text-take :
      (size : ℕ) (text f_start : List ℕ) (args : List Arg) (full : List ℕ)
      → expand_text whole text f_start args ≡ some full
      → put_text put size text f_start args ≡ some (take size full, size - length (take size full))
  unfolding put_text expand_text
  put_text-take size text f_start args full h =
      let (t, e1, e2) =
        before-some text
          (if length f_start == 0 then some [] else expand_directive whole f_start args) full h in
      let fit : take (fitted (length text) size) text ≡ take size text = take-fitted size text in
      elim (Bool-cases (size == 0)) [
        | inl nothing ↦ let z : size ≡ 0 = ground arith in rw z refl
        | inr room ↦
            let size' = size - length (take size text) in
            let shown : (if size' == 0 || length f_start == 0
                  then some ([], size')
                  else put_directive put size' f_start args)
                ≡ some (take size' t, size' - length (take size' t)) =
              rest_take size' f_start args t e1 in
            rw (fit, room, e2) (written-take text t size _ shown)
      ]

-- With the same fuel, the loop writes the part of the whole output that fits in the size, and what is
-- left of the size is what was not written.
pub fmt_loop-take :
    (f size : ℕ) (fmt : List ℕ) (args : List Arg) (full : List ℕ)
    → expand f fmt args ≡ some full
    → fmt_loop f size fmt args ≡ some (take size full, size - length (take size full))
unfolding fmt_loop expand
fmt_loop-take f size [] args full h =
    let t_empty : [] ≡ full = cc h in rw (sym t_empty) (nothing_take size)
fmt_loop-take zero size (c ∷ fmt) args full h = absurd (cc h)
fmt_loop-take (suc f) size (c ∷ fmt) args full h =
    put_text-take (fmt_loop f) (expand f) (fmt_loop-take f) size (up_to_percent (c ∷ fmt)).0
      (up_to_percent (c ∷ fmt)).1 args full h
