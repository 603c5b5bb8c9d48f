-- ===== src/Filemap/Normalise/Rounds.antt =====
-- The loop of `normalise_path`: each round takes one name, and the buffer follows the names that
-- are left of the path.
use mathlib.Core.List.{reverse}
use ibcs_us.Prelude.{
  ℕ, Bool, true, false, List, [], ◌∷◌, ◌++◌, ◌==◌, ◌≡◌, ◌≢◌, Option, none, some, refl, ap, sym, ◌∙◌,
  length, length-append, arith, inl, inr,
}
use ibcs_us.Filemap.Result.{Result, ok}
use ibcs_us.Filemap.Normalise.{keeps_dotdot, erase_name, copy_name, dotdot, round, finish}
use ibcs_us.Filemap.Normalise.Spec.{
  Kind-cases, nothing, parent, name, kind, resolve_parent, resolve_one, NoSlash, IsNormal,
}
use ibcs_us.Filemap.Normalise.Names.{
  buffer, unsplit, tail_of, IsPlain, Written, length-reverse, NoSlash-reverse, is_parent,
  erase_name-buffer, keeps_dotdot-buffer, round_nothing, round_name, copy_name-unsplit,
}

pub NoSlash-of_plain : (n : List ℕ) → IsPlain n → NoSlash n
NoSlash-of_plain [] p = tt
NoSlash-of_plain (c ∷ n) ((p, q), ps) = (p, NoSlash-of_plain n ps)

-- The slash behind the last name goes, and a name that ends the path is left alone.
finish_slash : (out : List ℕ) → out ≢ [] → finish (b'/' ∷ out) ≡ out
unfolding finish
finish_slash [] ne = absurd (ne refl)
finish_slash (c ∷ out) ne = ground arith

finish_name : (n out : List ℕ) → NoSlash n → n ≢ [] → finish (n ++ out) ≡ finish (b'/' ∷ (n ++ out))
unfolding finish
finish_name [] out p ne = absurd (ne refl)
finish_name (c ∷ n) out (p, ps) ne = ground arith

pub reverse_ne : (n : List ℕ) → n ≢ [] → reverse n ≢ []
reverse_ne [] ne e = ne refl
reverse_ne (c ∷ n) ne e = let z = ap length e in omega (arith, z, length-reverse (c ∷ n))

-- Where nothing is erased, `..` is written behind what there is.
dotdot_output :
    (size c d : ℕ) (r : Option (List ℕ)) (out s' out' : List ℕ)
    → kind (c ∷ d ∷ []) ≡ parent
    → keeps_dotdot out ≡ true
    → dotdot size (unsplit (c ∷ d ∷ []) r) out ≡ ok (s', out')
    → (s' ≡ tail_of r) × Written r out' (b'/' ∷ b'.' ∷ b'.' ∷ out)
unfolding dotdot finish
dotdot_output size c d none out s' out' k keep h = ground arith
dotdot_output size c d (some t) out s' out' k keep h = ground arith

-- Behind a name, `..` erases it.
dotdot_erased :
    (size c d : ℕ) (r : Option (List ℕ)) (out : List ℕ)
    → kind (c ∷ d ∷ []) ≡ parent
    → keeps_dotdot out ≡ false
    → (length out == 1) ≡ false
    → dotdot size (unsplit (c ∷ d ∷ []) r) out ≡ ok (tail_of r, erase_name out)
unfolding dotdot
dotdot_erased size c d none out k keep l = ground arith
dotdot_erased size c d (some t) out k keep l = ground arith

-- At the root of an absolute path there is nothing to erase.
dotdot_root :
    (size c d : ℕ) (r : Option (List ℕ))
    → kind (c ∷ d ∷ []) ≡ parent
    → dotdot size (unsplit (c ∷ d ∷ []) r) (b'/' ∷ []) ≡ ok (tail_of r, b'/' ∷ [])
unfolding dotdot
dotdot_root size c d none k = ground arith
dotdot_root size c d (some t) k = ground arith

round-dotdot :
    (size c d : ℕ) (r : Option (List ℕ)) (out : List ℕ)
    → kind (c ∷ d ∷ []) ≡ parent
    → round size (unsplit (c ∷ d ∷ []) r) out ≡ dotdot size (unsplit (c ∷ d ∷ []) r) out
unfolding round
round-dotdot size c d none out k = ground arith
round-dotdot size c d (some t) out k = ground arith

Written-refl : (r : Option (List ℕ)) (out : List ℕ) → Written r out out
Written-refl none out = refl
Written-refl (some t) out = refl

Written-ok :
    (r : Option (List ℕ)) (target : List ℕ) {s' s'' out' out'' : List ℕ}
    → ◌≡◌ {A = Result (List ℕ × List ℕ)} (ok (s'', out'')) (ok (s', out'))
    → s'' ≡ tail_of r
    → Written r out'' target
    → (s' ≡ tail_of r) × Written r out' target
Written-ok none target e es w = ground arith
Written-ok (some t) target e es w = ground arith

length-buffer-ne-one :
    (is_abs : Bool) (m : List ℕ) (names : List (List ℕ))
    → kind m ≢ nothing
    → (length (buffer is_abs (m ∷ names)) == 1) ≡ false
length-buffer-ne-one is_abs [] names k = absurd (k refl)
length-buffer-ne-one is_abs (c ∷ m) names k =
    ground (arith, length-append (reverse (c ∷ m)) (buffer is_abs names), length-reverse (c ∷ m))

-- A round that takes `..`.
dotdot-Written :
    (size : ℕ) (is_abs : Bool) (names : List (List ℕ)) (c d : ℕ) (r : Option (List ℕ))
    (s' out' : List ℕ)
    → IsNormal is_abs names
    → kind (c ∷ d ∷ []) ≡ parent
    → dotdot size (unsplit (c ∷ d ∷ []) r) (buffer is_abs names) ≡ ok (s', out')
    → (s' ≡ tail_of r) × Written r out' (buffer is_abs (resolve_parent is_abs names))
dotdot-Written size true [] c d r s' out' v k h =
    Written-ok r _ (sym (dotdot_root size c d r k) ∙ h) refl (Written-refl r _)
dotdot-Written size false [] c d r s' out' v k h =
    dotdot_output size c d r [] s' out' k (unfold keeps_dotdot in refl) h
dotdot-Written size is_abs (m ∷ names) c d r s' out' (ns, k', kp, v) k h =
    elim (Kind-cases (kind m)) [
      | inl e ↦ absurd (k' e)
      | inr (inl e) ↦
          rw (e, buffer)
            (dotdot_output size c d r _ s' out' k
              (keeps_dotdot-buffer is_abs m names ns k' ∙ ap is_parent e) h)
      | inr (inr e) ↦
          rw (e, buffer)
            (Written-ok r _
              (sym (
                  dotdot_erased size c d r _ k
                    (keeps_dotdot-buffer is_abs m names ns k' ∙ ap is_parent e)
                    (length-buffer-ne-one is_abs m names k'))
                ∙ h)
              refl (rw (erase_name-buffer is_abs m names ns) (Written-refl r _)))
    ]

name_Written :
    (size : ℕ) (n : List ℕ) (r : Option (List ℕ)) (out s' out' : List ℕ)
    → IsPlain n
    → n ≢ []
    → copy_name size (unsplit n r) out ≡ ok (s', out')
    → (s' ≡ tail_of r) × Written r out' (b'/' ∷ (reverse n ++ out))
name_Written size n none out s' out' p ne h =
    let (es, eo) = copy_name-unsplit size n none out s' out' (NoSlash-of_plain n p) h in
    (
      es,
      rw eo (
          finish_name (reverse n) out (NoSlash-reverse n (NoSlash-of_plain n p)) (reverse_ne n ne)),
    )
name_Written size n (some t) out s' out' p ne h =
    copy_name-unsplit size n (some t) out s' out' (NoSlash-of_plain n p) h

name_ne : (n : List ℕ) → kind n ≡ name → n ≢ []
name_ne [] e z = cc
name_ne (c ∷ n) e z = cc

-- A round takes the first name of the path, and leaves in the buffer what is left of it.
pub round-Written :
    (size : ℕ) (is_abs : Bool) (names : List (List ℕ)) (n : List ℕ) (r : Option (List ℕ))
    (s' out' : List ℕ)
    → IsNormal is_abs names
    → IsPlain n
    → unsplit n r ≢ []
    → round size (unsplit n r) (buffer is_abs names) ≡ ok (s', out')
    → (s' ≡ tail_of r) × Written r out' (buffer is_abs (resolve_one is_abs names n))
round-Written size is_abs names n r s' out' v p ne h = elim (Kind-cases (kind n)) [
  | inl e ↦
      rw (e, buffer)
        (Written-ok r _ (sym (round_nothing size n r _ ne e) ∙ h) refl (Written-refl r _))
  | inr (inl e) ↦ parents n p e h
  | inr (inr e) ↦
      rw (e, buffer)
        (name_Written size n r _ s' out' p (λ z. name_ne n e z)
          (sym (round_name size n r _ p e) ∙ h))
]
  where
    parents :
        (n : List ℕ)
        → IsPlain n
        → kind n ≡ parent
        → round size (unsplit n r) (buffer is_abs names) ≡ ok (s', out')
        → (s' ≡ tail_of r) × Written r out' (buffer is_abs (resolve_one is_abs names n))
    parents [] p e h = absurd (cc)
    parents (c ∷ []) p e h = absurd (ground arith)
    parents (c ∷ d ∷ []) p e h =
        rw (e, buffer)
          (dotdot-Written size is_abs names c d r s' out' v e
            (sym (round-dotdot size c d r _ e) ∙ h))
    parents (c ∷ d ∷ f ∷ n) p e h = absurd (cc)
