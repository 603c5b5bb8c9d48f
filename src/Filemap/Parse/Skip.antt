-- ===== src/Filemap/Parse/Skip.antt =====
-- What the scanning loops of `filemap_parse` pass over.
use mathlib.Core.List.{reverse, reverse-cons, reverse-append}
use ibcs_us.Prelude.{
  ℕ, Bool, true, false, ◌&&◌, some, List, [], ◌∷◌, ◌++◌, ◌==◌, ◌≡◌, ◌≢◌, All, refl, ap, sym, ◌∙◌,
  arith, Bool-cases, inl, inr, append_assoc,
}
use ibcs_us.Filemap.Normalise.{byte}
use ibcs_us.Filemap.Normalise.Rounds.{reverse_ne}
use ibcs_us.Filemap.Parse.{skip_while, is_blank, find_arrow}

-- The list is what was passed over and what is left; all of the first passes the test, and the
-- first byte of the rest does not.
pub record Skipped (test : ℕ → Bool) (s : List ℕ) : Type 0 where
  pub passed : List ℕ
  pub whole : s ≡ passed ++ skip_while test s
  pub all : All (λ c. test c ≡ true) passed

pub skip_while_lem : (test : ℕ → Bool) (s : List ℕ) → Skipped test s
unfolding skip_while
skip_while_lem test [] = record { passed = []; whole = refl; all = tt }
skip_while_lem test (c ∷ s) = elim (Bool-cases (test c)) [
  | inl yes' ↦
      let k = skip_while_lem test s in
      record {
        passed = c ∷ k.passed;
        whole = rw yes' (ap (λ t. c ∷ t) k.whole);
        all = (yes', k.all);
      }
  | inr no' ↦ record { passed = []; whole = rw no'; all = tt }
]

-- What is left is empty or begins with a byte that fails the test.
pub skip_while_head :
    (test : ℕ → Bool) (s : List ℕ) → test 0 ≡ false → test (byte (skip_while test s) 0) ≡ false
unfolding skip_while
skip_while_head test [] z = z
skip_while_head test (c ∷ s) z = elim (Bool-cases (test c)) [
  | inl yes' ↦ rw yes' (skip_while_head test s z)
  | inr no' ↦ rw no' no'
]

-- A list whose first byte fails the test is left alone.
pub skip_while_none :
    (test : ℕ → Bool) (c : ℕ) (s : List ℕ) → test c ≡ false → skip_while test (c ∷ s) ≡ c ∷ s
unfolding skip_while
skip_while_none test c s e = rw e

pub byte-append : (xs ys : List ℕ) → xs ≢ [] → byte (xs ++ ys) 0 ≡ byte xs 0
byte-append [] ys ne = absurd (ne refl)
byte-append (x ∷ xs) ys ne = refl

-- Blanks at the other end of a list do not hide its first byte.
pub first_kept :
    (test : ℕ → Bool) (s : List ℕ)
    → test (byte (reverse s) 0) ≡ false
    → byte (reverse (skip_while test s)) 0 ≡ byte (reverse s) 0
unfolding skip_while
first_kept test [] h = refl
first_kept test (c ∷ []) h = elim (Bool-cases (test c)) [
  | inl yes' ↦ absurd (cc)
  | inr no' ↦ rw no'
]
first_kept test (c ∷ d ∷ t) h =
    let e =
      ap (λ r. byte r 0) (reverse-cons c (d ∷ t))
      ∙ byte-append (reverse (d ∷ t)) (c ∷ []) (reverse_ne (d ∷ t) (λ z. cc)) in
    elim (Bool-cases (test c)) [
      | inl yes' ↦ rw yes' (first_kept test (d ∷ t) (ap test (sym e) ∙ h) ∙ sym e)
      | inr no' ↦ rw no'
    ]

-- Where the arrow is found, it stands between what is before and behind it.
pub find_arrow_found :
    (before s b after : List ℕ)
    → find_arrow before s ≡ some (b, after)
    → (t : List ℕ) × (b ≡ reverse t ++ before)
      × (s ≡ t ++ (b'-' ∷ b'-' ∷ b'>' ∷ after))
      × (is_blank (byte b 0) ≡ true)
      × (is_blank (byte after 0) ≡ true)
unfolding find_arrow
find_arrow_found before [] b after h = absurd (cc)
find_arrow_found before (c ∷ []) b after h = absurd (cc)
find_arrow_found before (c ∷ d ∷ []) b after h = absurd (cc)
find_arrow_found before (c ∷ d ∷ e ∷ s) b after h =
    elim (Bool-cases (c == b'-' && d == b'-' && e == b'>')) [
      | inl arrow ↦ elim (Bool-cases (is_blank (byte before 0) && is_blank (byte s 0))) [
        | inl blanks ↦ ([], ground arith, ground arith, ground arith, ground arith)
        | inr tight ↦
            let h' : find_arrow (e ∷ d ∷ c ∷ before) s ≡ some (b, after) = rw (arrow, tight) at h in
            let (t, p, q, x, y) = find_arrow_found (e ∷ d ∷ c ∷ before) s b after h' in
            (
              c ∷ d ∷ e ∷ t,
              p
                  ∙ sym (
                      ap (λ r. r ++ before) (reverse-append (c ∷ d ∷ e ∷ []) t)
                      ∙ append_assoc (reverse t) (e ∷ d ∷ c ∷ []) before),
              ap (λ r. c ∷ d ∷ e ∷ r) q,
              x,
              y,
            )
      ]
      | inr other ↦
          let h' : find_arrow (c ∷ before) (d ∷ e ∷ s) ≡ some (b, after) = rw other at h in
          let (t, p, q, x, y) = find_arrow_found (c ∷ before) (d ∷ e ∷ s) b after h' in
          (
            c ∷ t,
            p
                ∙ sym (
                    ap (λ r. r ++ before) (reverse-cons c t)
                    ∙ append_assoc (reverse t) (c ∷ []) before),
            ap (λ r. c ∷ r) q,
            x,
            y,
          )
    ]
