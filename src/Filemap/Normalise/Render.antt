-- ===== src/Filemap/Normalise/Render.antt =====
-- The bytes of a buffer are the path of its names.
use mathlib.Core.List.{reverse, reverse-cons, reverse-append, reverse-reverse}
use ibcs_us.Prelude.{
  ℕ, Bool, true, false, List, [], ◌∷◌, ◌++◌, ◌≡◌, ◌≢◌, refl, ap, sym, ◌∙◌, arith, append_assoc,
  length, length-append,
}
use ibcs_us.Filemap.Normalise.{finish}
use ibcs_us.Filemap.Normalise.Spec.{kind, nothing, join, render, IsNormal}
use ibcs_us.Filemap.Normalise.Names.{buffer, length-reverse}

join-append :
    (xs : List (List ℕ)) (k m : List ℕ)
    → join (xs ++ (k ∷ m ∷ [])) ≡ join (xs ++ (k ∷ [])) ++ (b'/' ∷ m)
join-append [] k m = refl
join-append (x ∷ []) k m = sym (append_assoc x (b'/' ∷ k) (b'/' ∷ m))
join-append (x ∷ y ∷ xs) k m =
    ap (λ t. x ++ (b'/' ∷ t)) (join-append (y ∷ xs) k m)
    ∙ sym (append_assoc x (b'/' ∷ join (y ∷ xs ++ (k ∷ []))) (b'/' ∷ m))

render-append :
    (is_abs : Bool) (xs : List (List ℕ)) (k m : List ℕ)
    → render is_abs (xs ++ (k ∷ m ∷ [])) ≡ render is_abs (xs ++ (k ∷ [])) ++ (b'/' ∷ m)
render-append true xs k m = ap (λ t. b'/' ∷ t) (join-append xs k m)
render-append false [] k m = refl
render-append false (x ∷ xs) k m = join-append (x ∷ xs) k m

-- The buffer behind its last slash, turned round.
pub reverse-buffer :
    (is_abs : Bool) (names : List (List ℕ)) (m : List ℕ)
    → reverse (buffer is_abs names) ++ m ≡ render is_abs (reverse names ++ (m ∷ []))
reverse-buffer true [] m = refl
reverse-buffer false [] m = refl
reverse-buffer is_abs (k ∷ names) m =
    ap (λ t. t ++ m)
      (reverse-cons b'/' (reverse k ++ buffer is_abs names)
        ∙ ap (λ t. t ++ (b'/' ∷ []))
            (reverse-append (reverse k) (buffer is_abs names)
              ∙ ap (λ t. reverse (buffer is_abs names) ++ t) (reverse-reverse k)
              ∙ reverse-buffer is_abs names k))
    ∙ append_assoc (render is_abs (reverse names ++ (k ∷ []))) (b'/' ∷ []) m
    ∙ sym (render-append is_abs (reverse names) k m)
    ∙ ap (render is_abs) (
        sym (append_assoc (reverse names) (k ∷ []) (m ∷ []))
        ∙ ap (λ t. t ++ (m ∷ [])) (sym (reverse-cons k names)))

finish-slash : (out : List ℕ) → out ≢ [] → finish (b'/' ∷ out) ≡ out
unfolding finish
finish-slash [] ne = absurd (ne refl)
finish-slash (c ∷ out) ne = ground arith

top_ne : (m : List ℕ) (out : List ℕ) → kind m ≢ nothing → reverse m ++ out ≢ []
top_ne [] out k e = k refl
top_ne (c ∷ m) out k e =
    let z = ap length e in
    omega (arith, z, length-append (reverse (c ∷ m)) out, length-reverse (c ∷ m))

-- What the end of `normalise_path` makes of a buffer.
pub finish-buffer :
    (is_abs : Bool) (names : List (List ℕ))
    → IsNormal is_abs names
    → reverse (finish (buffer is_abs names)) ≡ render is_abs (reverse names)
finish-buffer true [] v = unfold finish in refl
finish-buffer false [] v = unfold finish in refl
finish-buffer is_abs (m ∷ names) (p, k, kp, v) =
    ap reverse (finish-slash (reverse m ++ buffer is_abs names) (top_ne m (buffer is_abs names) k))
    ∙ reverse-append (reverse m) (buffer is_abs names)
    ∙ ap (λ t. reverse (buffer is_abs names) ++ t) (reverse-reverse m)
    ∙ reverse-buffer is_abs names m
    ∙ ap (render is_abs) (sym (reverse-cons m names))

-- The other way: the path of some names and a slash, turned round, is their buffer.
pub reverse-render :
    (is_abs : Bool) (m : List ℕ) (names : List (List ℕ))
    → b'/' ∷ reverse (render is_abs (reverse (m ∷ names))) ≡ buffer is_abs (m ∷ names)
reverse-render is_abs m names =
    ap (λ t. b'/' ∷ t)
      (ap reverse (ap (render is_abs) (reverse-cons m names) ∙ sym (reverse-buffer is_abs names m))
        ∙ reverse-append (reverse (buffer is_abs names)) m
        ∙ ap (λ t. reverse m ++ t) (reverse-reverse (buffer is_abs names)))
