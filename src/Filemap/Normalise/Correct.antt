-- ===== src/Filemap/Normalise/Correct.antt =====
-- `normalise_path` computes the normal form of a path.
use mathlib.Core.List.{reverse}
use ibcs_us.Prelude.{
  ℕ, zero, suc, ◌+◌, Bool, true, false, List, [], ◌∷◌, ◌++◌, ◌==◌, if◌then◌else◌, ◌≡◌, ◌≢◌, All,
  Option, none, some, refl, ap, sym, ◌∙◌, length, arith, Bool-cases, inl, inr, ==→ne, leb, drop,
}
use ibcs_us.Filemap.Result.{Error, Result, ok, err, ◌>>=◌, ok-next, too_long}
use ibcs_us.Filemap.Normalise.{byte, round, rounds, finish, start, normalise_path}
use ibcs_us.Filemap.Normalise.Spec.{
  components, resolve, resolve_one, render, normal_form, NoSlash, IsNormal,
}
use ibcs_us.Filemap.Normalise.Names.{buffer, tail_of, Written}
use ibcs_us.Filemap.Normalise.Rounds.{round-Written, NoSlash-of_plain}
use ibcs_us.Filemap.Normalise.Split.{NoNul, cut, more, components-unsplit, resolve_one-IsNormal}
use ibcs_us.Filemap.Normalise.Render.{finish-buffer, reverse-render}

pub resolve-IsNormal :
    (is_abs : Bool) (names ns : List (List ℕ))
    → IsNormal is_abs names
    → All NoSlash ns
    → IsNormal is_abs (resolve is_abs names ns)
resolve-IsNormal is_abs names [] v p = v
resolve-IsNormal is_abs names (n ∷ ns) v (p, ps) =
    resolve-IsNormal is_abs (resolve_one is_abs names n) ns
      (resolve_one-IsNormal is_abs names n v p) ps

NoSlash-snoc : (c : ℕ) (acc : List ℕ) → c ≢ b'/' → NoSlash acc → NoSlash (acc ++ (c ∷ []))
NoSlash-snoc c [] ne p = (ne, tt)
NoSlash-snoc c (a ∷ acc) ne (q, p) = (q, NoSlash-snoc c acc ne p)

pub components-NoSlash : (s acc : List ℕ) → NoSlash acc → All NoSlash (components acc s)
unfolding components
components-NoSlash [] acc p = (p, tt)
components-NoSlash (c ∷ s) acc p = elim (Bool-cases (c == b'/')) [
  | inl slash ↦ rw slash (p, components-NoSlash s [] tt)
  | inr other ↦
      rw other (components-NoSlash s (acc ++ (c ∷ [])) (NoSlash-snoc c acc (==→ne c _ other) p))
]

-- What the end of `normalise_path` makes of the buffer is what it would make of the names' buffer.
abbrev Left : Bool → List (List ℕ) → List ℕ → Type 0
Left is_abs names out = finish out ≡ finish (buffer is_abs names)

pub rounds_end : (fuel size : ℕ) (out : List ℕ) → rounds fuel size [] out ≡ ok out
unfolding rounds
rounds_end zero size out = refl
rounds_end (suc fuel) size out = refl

pub rounds_go :
    (fuel size c : ℕ) (s b s' b' : List ℕ)
    → round size (c ∷ s) b ≡ ok (s', b')
    → rounds (suc fuel) size (c ∷ s) b ≡ rounds fuel size s' b'
unfolding rounds
rounds_go fuel size c s b s' b' e = rw e

pub rounds_err :
    (fuel size c : ℕ) (s b : List ℕ) (e : Error)
    → round size (c ∷ s) b ≡ err e
    → rounds (suc fuel) size (c ∷ s) b ≡ err e
unfolding rounds
rounds_err fuel size c s b e q = rw q

pub rounds_step :
    (fuel size c : ℕ) (s b out : List ℕ)
    → rounds (suc fuel) size (c ∷ s) b ≡ ok out
    → (s' out' : List ℕ) × (round size (c ∷ s) b ≡ ok (s', out'))
      × (rounds fuel size s' out' ≡ ok out)
unfolding rounds
rounds_step fuel size c s b out h =
    let (t, e1, e2) = ok-next (round size (c ∷ s) b) (λ t. rounds fuel size t.0 t.1) h in
    (t.0, t.1, e1, e2)

-- Behind a round: the path has ended, or the loop goes on with the rest of it.
after_round :
    (fuel size : ℕ) (is_abs : Bool) (names : List (List ℕ)) (r : Option (List ℕ))
    (s' out' out : List ℕ)
    → ((t : List ℕ)
        → NoNul t
        → rounds fuel size t (buffer is_abs names) ≡ ok out
        → Left is_abs (resolve is_abs names (components [] t)) out)
    → NoNul (tail_of r)
    → s' ≡ tail_of r
    → Written r out' (buffer is_abs names)
    → rounds fuel size s' out' ≡ ok out
    → Left is_abs (resolve is_abs names (more r)) out
after_round fuel size is_abs names none s' out' out ih nn es w h =
    let e : ok out' ≡ ok out = sym (rounds_end fuel size out') ∙ (rw es at h) in ground arith
after_round fuel size is_abs names (some t) s' out' out ih nn es w h = ih t nn (rw (es, w) at h)

rounds-Left :
    (fuel size : ℕ) (is_abs : Bool) (names : List (List ℕ)) (s out : List ℕ)
    → IsNormal is_abs names
    → NoNul s
    → rounds fuel size s (buffer is_abs names) ≡ ok out
    → Left is_abs (resolve is_abs names (components [] s)) out
rounds-Left fuel size is_abs names [] out v nn h =
    let e : ok (buffer is_abs names) ≡ ok out =
      sym (rounds_end fuel size (buffer is_abs names)) ∙ h in
    unfold components in ground arith
rounds-Left zero size is_abs names (c ∷ s) out v nn h = absurd (unfold rounds in cc)
rounds-Left (suc fuel) size is_abs names (c ∷ s) out v nn h =
    let k = cut (c ∷ s) nn in
    let (s', out', e1, e2) = rounds_step fuel size c s (buffer is_abs names) out h in
    let p = NoSlash-of_plain k.first k.plain in
    let names' = resolve_one is_abs names k.first in
    let (es, w) =
      round-Written size is_abs names k.first k.rest s' out' v k.plain (λ z. cc (k.whole ∙ z))
        (rw k.whole at e1) in
    let e = ap (components []) k.whole ∙ components-unsplit [] k.first k.rest p in
    rw e (
      after_round fuel size is_abs names' k.rest s' out' out
        (λ t.
          rounds-Left fuel size is_abs names' t out (resolve_one-IsNormal is_abs names k.first v p))
        k.no_nul es w e2)

rounds-render :
    (fuel size : ℕ) (is_abs : Bool) (names : List (List ℕ)) (s out : List ℕ)
    → IsNormal is_abs names
    → NoNul s
    → rounds fuel size s (buffer is_abs names) ≡ ok out
    → reverse (finish out) ≡ normal_form is_abs names s
rounds-render fuel size is_abs names s out v nn h =
    ap reverse (rounds-Left fuel size is_abs names s out v nn h)
    ∙ finish-buffer is_abs (resolve is_abs names (components [] s))
        (resolve-IsNormal is_abs names (components [] s) v (components-NoSlash s [] tt))

-- What `normalise_path` should write for a path. `dirs` are the names of the working directory, the
-- last one first.
abbrev pub expected : List (List ℕ) → List ℕ → Bool → List ℕ
expected dirs src is_abs =
    if byte src 0 == b'/'
    then normal_form true [] (drop 1 src)
    else if is_abs
    then normal_form true dirs src
    else normal_form false [] src

-- `getcwd` answers an absolute path in normal form that is not the root.
abbrev pub CwdIs : (ℕ → Result (List ℕ)) → ℕ → List (List ℕ) → Type 0
CwdIs getcwd size dirs =
    (getcwd size ≡ ok (render true (reverse dirs))) × (dirs ≢ []) × IsNormal true dirs

NoNul-drop : (s : List ℕ) → NoNul s → NoNul (drop 1 s)
NoNul-drop [] nn = tt
NoNul-drop (c ∷ s) (z, nn) = nn

-- From a buffer of names on.
normalise_from :
    (size : ℕ) (abs : Bool) (names : List (List ℕ)) (s p : List ℕ)
    → IsNormal abs names
    → NoNul s
    → (rounds (length s) size s (buffer abs names) >>= λ o. ok (reverse (finish o))) ≡ ok p
    → p ≡ normal_form abs names s
normalise_from size abs names s p v nn h =
    let (o, e1, e2) = ok-next (rounds (length s) size s (buffer abs names)) _ h in
    let e : reverse (finish o) ≡ p = ground arith in
    sym e ∙ rounds-render (length s) size abs names s o v nn e1

module _ (getcwd : ℕ → Result (List ℕ)) (size : ℕ) (src p : List ℕ) (nn : NoNul src) where
  normalise_absolute :
      (is_abs : Bool)
      → (byte src 0 == b'/') ≡ true
      → normalise_path getcwd size src is_abs ≡ ok p
      → p ≡ normal_form true [] (drop 1 src)
  unfolding normalise_path start
  normalise_absolute is_abs slash h =
      normalise_from size true [] (drop 1 src) p tt (NoNul-drop src nn) (rw slash at h)

  normalise_relative :
      (byte src 0 == b'/') ≡ false
      → normalise_path getcwd size src false ≡ ok p
      → p ≡ normal_form false [] src
  unfolding normalise_path start
  normalise_relative other h = normalise_from size false [] src p tt nn (rw other at h)

  normalise_in_cwd :
      (m : List ℕ) (dirs : List (List ℕ))
      → (byte src 0 == b'/') ≡ false
      → getcwd size ≡ ok (render true (reverse (m ∷ dirs)))
      → IsNormal true (m ∷ dirs)
      → normalise_path getcwd size src true ≡ ok p
      → p ≡ normal_form true (m ∷ dirs) src
  unfolding normalise_path start
  normalise_in_cwd m dirs other e v h =
      elim (Bool-cases (leb size (length (render true (reverse (m ∷ dirs))) + 2))) [
        | inl full ↦ let z : err too_long ≡ ok p = rw (other, e, full) at h in absurd (cc)
        | inr room ↦
            normalise_from size true (m ∷ dirs) src p v nn
              (rw (other, e, room, reverse-render true m dirs) at h)
      ]

-- If `normalise_path` succeeds, it writes the normal form of the path: an absolute path's own, and a
-- relative path's on top of the working directory if an absolute path is wanted. The working
-- directory is not the root, and the system call answers a path in normal form.
pub normalise_path-expected :
    (getcwd : ℕ → Result (List ℕ)) (size : ℕ) (dirs : List (List ℕ)) (src : List ℕ) (is_abs : Bool)
    (p : List ℕ)
    → CwdIs getcwd size dirs
    → NoNul src
    → normalise_path getcwd size src is_abs ≡ ok p
    → p ≡ expected dirs src is_abs
normalise_path-expected getcwd size [] src is_abs p (e, ne, v) nn h = absurd (ne refl)
normalise_path-expected getcwd size (m ∷ dirs) src true p (e, ne, v) nn h =
    elim (Bool-cases (byte src 0 == b'/')) [
      | inl slash ↦ rw slash (normalise_absolute getcwd size src p nn true slash h)
      | inr other ↦ rw other (normalise_in_cwd getcwd size src p nn m dirs other e v h)
    ]
normalise_path-expected getcwd size (m ∷ dirs) src false p (e, ne, v) nn h =
    elim (Bool-cases (byte src 0 == b'/')) [
      | inl slash ↦ rw slash (normalise_absolute getcwd size src p nn false slash h)
      | inr other ↦ rw other (normalise_relative getcwd size src p nn other h)
    ]
