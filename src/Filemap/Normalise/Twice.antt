-- ===== src/Filemap/Normalise/Twice.antt =====
-- A path in normal form is left alone by `normalise_path`.
use mathlib.Core.List.{reverse, reverse-cons, reverse-reverse}
use ibcs_us.Prelude.{
  ℕ, Bool, true, false, List, [], ◌∷◌, ◌++◌, ◌==◌, ◌≡◌, ◌≢◌, All, none, some, refl, ap, sym, ◌∙◌,
  arith, append_assoc, append-nil, Bool-cases, inl, inr, drop, subst,
}
use ibcs_us.Filemap.Result.{Result, ok}
use ibcs_us.Filemap.Normalise.{byte, normalise_path}
use ibcs_us.Filemap.Normalise.Spec.{
  components, kind, Kind-cases, nothing, parent, dotdot_name, resolve, resolve_one, resolve_parent,
  join, render, normal_form, NoSlash, IsNormal,
}
use ibcs_us.Filemap.Normalise.Split.{NoNul, components-unsplit}
use ibcs_us.Filemap.Normalise.Correct.{
  CwdIs, expected, normalise_path-expected, resolve-IsNormal, components-NoSlash,
}

kind_parent_eq : (n : List ℕ) → kind n ≡ parent → n ≡ dotdot_name
kind_parent_eq [] e = absurd (cc)
kind_parent_eq (c ∷ []) e = absurd (ground arith)
kind_parent_eq (c ∷ d ∷ []) e = ground arith
kind_parent_eq (c ∷ d ∷ f ∷ n) e = absurd (cc)

parent_kept :
    (is_abs : Bool) (names : List (List ℕ))
    → is_abs ≡ false
    → All (λ k. kind k ≡ parent) names
    → resolve_parent is_abs names ≡ dotdot_name ∷ names
parent_kept is_abs [] e all = rw e
parent_kept is_abs (m ∷ names) e (k, all) = rw (k, resolve_parent)

-- A name on top of normal names that leaves them normal is kept.
resolve_one_kept :
    (is_abs : Bool) (names : List (List ℕ)) (n : List ℕ)
    → IsNormal is_abs (n ∷ names)
    → resolve_one is_abs names n ≡ n ∷ names
resolve_one_kept is_abs names n (p, k, kp, v) = elim (Kind-cases (kind n)) [
  | inl e ↦ absurd (k e)
  | inr (inl e) ↦
      rw (e, resolve_one)
        (parent_kept is_abs names (kp e).0 (kp e).1
          ∙ ap (λ t. t ∷ names) (sym (kind_parent_eq n e)))
  | inr (inr e) ↦ rw (e, resolve_one)
]

IsNormal-below :
    (is_abs : Bool) (xs ys : List (List ℕ)) → IsNormal is_abs (xs ++ ys) → IsNormal is_abs ys
IsNormal-below is_abs [] ys v = v
IsNormal-below is_abs (x ∷ xs) ys (p, k, kp, v) = IsNormal-below is_abs xs ys v

resolve_kept :
    (is_abs : Bool) (names ns : List (List ℕ))
    → IsNormal is_abs (reverse ns ++ names)
    → resolve is_abs names ns ≡ reverse ns ++ names
resolve_kept is_abs names [] v = refl
resolve_kept is_abs names (n ∷ ns) v =
    let e = ap (λ t. t ++ names) (reverse-cons n ns) ∙ append_assoc (reverse ns) (n ∷ []) names in
    let v' : IsNormal is_abs (reverse ns ++ (n ∷ names)) = subst (IsNormal is_abs) e v in
    let top = resolve_one_kept is_abs names n (IsNormal-below is_abs (reverse ns) (n ∷ names) v') in
    ap (λ t. resolve is_abs t ns) top ∙ resolve_kept is_abs (n ∷ names) ns v' ∙ sym e

components-join :
    (n : List ℕ) (ns : List (List ℕ))
    → All NoSlash (n ∷ ns)
    → components [] (join (n ∷ ns)) ≡ n ∷ ns
components-join n [] (p, ps) = components-unsplit [] n none p
components-join n (m ∷ ns) (p, ps) =
    components-unsplit [] n (some (join (m ∷ ns))) p ∙ ap (λ t. n ∷ t) (components-join m ns ps)

-- The names in the order of the path.
IsNormal-NoSlash :
    (is_abs : Bool) (names : List (List ℕ)) → IsNormal is_abs names → All NoSlash names
IsNormal-NoSlash is_abs [] v = tt
IsNormal-NoSlash is_abs (m ∷ names) (p, k, kp, v) = (p, IsNormal-NoSlash is_abs names v)

-- The names of a rendered path are those it was made of.
resolve-join :
    (is_abs : Bool) (ns : List (List ℕ))
    → IsNormal is_abs (reverse ns)
    → All NoSlash ns
    → resolve is_abs [] (components [] (join ns)) ≡ reverse ns
resolve-join is_abs [] v p = unfold components in refl
resolve-join is_abs (n ∷ ns) v p =
    ap (resolve is_abs []) (components-join n ns p)
    ∙ resolve_kept is_abs [] (n ∷ ns)
        (subst (IsNormal is_abs) (sym (append-nil (reverse (n ∷ ns)))) v)
    ∙ append-nil (reverse (n ∷ ns))

All-append : (xs ys : List (List ℕ)) → All NoSlash xs → All NoSlash ys → All NoSlash (xs ++ ys)
All-append [] ys h k = k
All-append (x ∷ xs) ys (p, h) k = (p, All-append xs ys h k)

All-reverse : (xs : List (List ℕ)) → All NoSlash xs → All NoSlash (reverse xs)
All-reverse [] h = h
All-reverse (x ∷ xs) (p, h) =
    rw (reverse-cons x xs) (All-append (reverse xs) (x ∷ []) (All-reverse xs h) (p, tt))

relative_start :
    (n : List ℕ) (ns : List (List ℕ))
    → NoSlash n
    → kind n ≢ nothing
    → (byte (join (n ∷ ns)) 0 == b'/') ≡ false
relative_start [] ns p k = absurd (k refl)
relative_start (c ∷ n) [] (p, ps) k = ground arith
relative_start (c ∷ n) (m ∷ ns) (p, ps) k = ground arith

-- The first of the names in the order of the path is something.
IsNormal-snoc :
    (is_abs : Bool) (xs : List (List ℕ)) (n : List ℕ)
    → IsNormal is_abs (xs ++ (n ∷ []))
    → kind n ≢ nothing
IsNormal-snoc is_abs xs n v = (IsNormal-below is_abs xs (n ∷ []) v).1

expected-relative :
    (dirs ns : List (List ℕ))
    → IsNormal false (reverse ns)
    → All NoSlash ns
    → expected dirs (render false ns) false ≡ render false ns
expected-relative dirs [] v p = unfold components in refl
expected-relative dirs (n ∷ ns) v (p, ps) =
    rw
      (relative_start n ns p
        (IsNormal-snoc false (reverse ns) n (subst (IsNormal false) (reverse-cons n ns) v)))
      (ap (λ t. render false (reverse t)) (resolve-join false (n ∷ ns) v (p, ps))
        ∙ ap (render false) (reverse-reverse (n ∷ ns)))

expected-absolute :
    (dirs ns : List (List ℕ)) (is_abs : Bool)
    → IsNormal true (reverse ns)
    → All NoSlash ns
    → expected dirs (render true ns) is_abs ≡ render true ns
expected-absolute dirs ns is_abs v p =
    ap (λ t. render true (reverse t)) (resolve-join true ns v p)
    ∙ ap (render true) (reverse-reverse ns)

-- What is expected of a path is a path in normal form, absolute wherever that is wanted.
record Normal (is_abs : Bool) (p : List ℕ) : Type 0 where
  absolute : Bool
  names : List (List ℕ)
  path : p ≡ render absolute (reverse names)
  normal : IsNormal absolute names
  wanted : absolute ≡ false → is_abs ≡ false

resolved :
    (is_abs absolute : Bool) (names : List (List ℕ)) (s : List ℕ)
    → IsNormal absolute names
    → (absolute ≡ false → is_abs ≡ false)
    → Normal is_abs (normal_form absolute names s)
resolved is_abs absolute names s v w = record {
  absolute = absolute;
  names = resolve absolute names (components [] s);
  path = refl;
  normal = resolve-IsNormal absolute names (components [] s) v (components-NoSlash s [] tt);
  wanted = w;
}

expected-Normal :
    (dirs : List (List ℕ)) (src : List ℕ) (is_abs : Bool)
    → IsNormal true dirs
    → Normal is_abs (expected dirs src is_abs)
expected-Normal dirs src true v = elim (Bool-cases (byte src 0 == b'/')) [
  | inl slash ↦ rw slash (resolved true true [] (drop 1 src) tt (λ z. cc))
  | inr other ↦ rw other (resolved true true dirs src v (λ z. cc))
]
expected-Normal dirs src false v = elim (Bool-cases (byte src 0 == b'/')) [
  | inl slash ↦ rw slash (resolved false true [] (drop 1 src) tt (λ z. refl))
  | inr other ↦ rw other (resolved false false [] src tt (λ z. refl))
]

expected-again :
    (dirs names : List (List ℕ)) (absolute is_abs : Bool)
    → IsNormal absolute names
    → (absolute ≡ false → is_abs ≡ false)
    → expected dirs (render absolute (reverse names)) is_abs ≡ render absolute (reverse names)
expected-again dirs names true is_abs v w =
    expected-absolute dirs (reverse names) is_abs
      (subst (IsNormal true) (sym (reverse-reverse names)) v)
      (All-reverse names (IsNormal-NoSlash true names v))
expected-again dirs names false is_abs v w = rw (w refl) (
    expected-relative dirs (reverse names) (subst (IsNormal false) (sym (reverse-reverse names)) v)
      (All-reverse names (IsNormal-NoSlash false names v)))

-- Normalising what `normalise_path` wrote changes nothing, whatever the buffers and the working
-- directories of the two calls are, as long as those are not the root.
pub normalise_path-twice :
    (getcwd getcwd' : ℕ → Result (List ℕ)) (size size' : ℕ) (dirs dirs' : List (List ℕ))
    (src p q : List ℕ) (is_abs : Bool)
    → CwdIs getcwd size dirs
    → CwdIs getcwd' size' dirs'
    → NoNul src
    → NoNul p
    → normalise_path getcwd size src is_abs ≡ ok p
    → normalise_path getcwd' size' p is_abs ≡ ok q
    → q ≡ p
normalise_path-twice getcwd getcwd' size size' dirs dirs' src p q is_abs (e, ne, v) cwd' nn nn' h
      h' =
    let p-eq = normalise_path-expected getcwd size dirs src is_abs p (e, ne, v) nn h in
    let q-eq = normalise_path-expected getcwd' size' dirs' p is_abs q cwd' nn' h' in
    let k = expected-Normal dirs src is_abs v in
    let path = p-eq ∙ k.path in
    q-eq
    ∙ ap (λ t. expected dirs' t is_abs) path
    ∙ expected-again dirs' k.names k.absolute is_abs k.normal k.wanted
    ∙ sym path
