-- ===== src/Filemap/Normalise/Split.antt =====
-- The names of a path, and what taking one of them does to the names that are kept.
use ibcs_us.Prelude.{
  ℕ, ◌<◌, Bool, true, false, List, [], ◌∷◌, ◌++◌, ◌==◌, ◌≡◌, ◌≢◌, All, Option, none, some, refl, ap,
  ◌∙◌, length, length-append, arith, append_assoc, append-nil, Bool-cases, inl, inr, ==→ne, ==→eq,
}
use ibcs_us.Filemap.Normalise.Spec.{
  components, Kind-cases, parent, kind, dotdot_name, resolve_parent, resolve_one, NoSlash, IsNormal,
}
use ibcs_us.Filemap.Normalise.Names.{unsplit, tail_of, IsPlain}

abbrev pub NoNul : List ℕ → Type 0
NoNul s = All (λ c. c ≢ 0) s

-- A path cut behind its first name.
pub record Cut (s : List ℕ) : Type 0 where
  pub first : List ℕ
  pub rest : Option (List ℕ)
  pub whole : s ≡ unsplit first rest
  pub plain : IsPlain first
  pub no_nul : NoNul (tail_of rest)

unsplit-cons : (c : ℕ) (n : List ℕ) (r : Option (List ℕ)) → c ∷ unsplit n r ≡ unsplit (c ∷ n) r
unsplit-cons c n none = refl
unsplit-cons c n (some t) = refl

-- What is left behind the first name is shorter.
pub length-tail_of :
    (n : List ℕ) (r : Option (List ℕ))
    → unsplit n r ≢ []
    → length (tail_of r) < length (unsplit n r)
length-tail_of [] none ne = absurd (ne refl)
length-tail_of (c ∷ n) none ne = omega arith
length-tail_of n (some t) ne = omega (arith, length-append n (b'/' ∷ t))

pub cut : (s : List ℕ) → NoNul s → Cut s
cut [] nn = record { first = []; rest = none; whole = refl; plain = tt; no_nul = tt }
cut (c ∷ s) (z, nn) = elim (Bool-cases (c == b'/')) [
  | inl slash ↦ record {
    first = [];
    rest = some s;
    whole = ap (λ k. k ∷ s) (==→eq c _ slash);
    plain = tt;
    no_nul = nn;
  }
  | inr other ↦
      let k = cut s nn in
      record {
        first = c ∷ k.first;
        rest = k.rest;
        whole = ap (λ t. c ∷ t) k.whole ∙ unsplit-cons c k.first k.rest;
        plain = ((==→ne c _ other, z), k.plain);
        no_nul = k.no_nul;
      }
]

-- The names behind the first one.
abbrev pub more : Option (List ℕ) → List (List ℕ)
more none = []
more (some t) = components [] t

pub components-unsplit :
    (acc n : List ℕ) (r : Option (List ℕ))
    → NoSlash n
    → components acc (unsplit n r) ≡ (acc ++ n) ∷ more r
unfolding components
components-unsplit acc [] none p = ground (arith, append-nil acc)
components-unsplit acc [] (some t) p = ground (arith, append-nil acc)
components-unsplit acc (c ∷ n) none (p, ps) =
    ground (arith, components-unsplit (acc ++ (c ∷ [])) n none ps, append_assoc acc (c ∷ []) n)
components-unsplit acc (c ∷ n) (some t) (p, ps) =
    ground (arith, components-unsplit (acc ++ (c ∷ [])) n (some t) ps, append_assoc acc (c ∷ []) n)

dotdot-IsNormal :
    (names : List (List ℕ))
    → IsNormal false names
    → All (λ k. kind k ≡ parent) names
    → IsNormal false (dotdot_name ∷ names)
dotdot-IsNormal names v all = (ground arith, ground arith, λ e. (refl, all), v)

resolve_parent-IsNormal :
    (is_abs : Bool) (names : List (List ℕ))
    → IsNormal is_abs names
    → IsNormal is_abs (resolve_parent is_abs names)
resolve_parent-IsNormal true [] v = tt
resolve_parent-IsNormal false [] v = dotdot-IsNormal [] tt tt
resolve_parent-IsNormal true (m ∷ names) (p, k, kp, v) = elim (Kind-cases (kind m)) [
  | inl e ↦ absurd (k e)
  | inr (inl e) ↦ absurd (cc ((kp e).0))
  | inr (inr e) ↦ rw (e, IsNormal) v
]
resolve_parent-IsNormal false (m ∷ names) (p, k, kp, v) = elim (Kind-cases (kind m)) [
  | inl e ↦ absurd (k e)
  | inr (inl e) ↦ rw (e, IsNormal) (dotdot-IsNormal (m ∷ names) (p, k, kp, v) (e, (kp e).1))
  | inr (inr e) ↦ rw (e, IsNormal) v
]

-- The names that are kept stay normal.
pub resolve_one-IsNormal :
    (is_abs : Bool) (names : List (List ℕ)) (n : List ℕ)
    → IsNormal is_abs names
    → NoSlash n
    → IsNormal is_abs (resolve_one is_abs names n)
resolve_one-IsNormal is_abs names n v p = elim (Kind-cases (kind n)) [
  | inl e ↦ rw (e, IsNormal) v
  | inr (inl e) ↦ rw (e, IsNormal) (resolve_parent-IsNormal is_abs names v)
  | inr (inr e) ↦ rw (e, IsNormal) (p, λ z. cc, λ z. absurd (cc), v)
]
