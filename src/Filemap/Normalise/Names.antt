-- ===== src/Filemap/Normalise/Names.antt =====
-- How `normalise_path` goes through one name: what the buffer looks like between two rounds of the
-- loop, and what a round does to it for each kind of name.
use mathlib.Core.List.{reverse, reverse-cons}
use ibcs_us.Prelude.{
  ℕ, ◌≤◌, Bool, true, false, List, [], ◌∷◌, ◌++◌, if◌then◌else◌, ◌≡◌, ◌≢◌, All, Option, none, some,
  refl, ap, sym, ◌∙◌, length, length-append, arith, append_assoc,
}
use ibcs_us.Filemap.Result.{ok}
use ibcs_us.Filemap.Normalise.{keeps_dotdot, strip_name, erase_name, copy_name, round, finish}
use ibcs_us.Filemap.Normalise.Spec.{Kind, nothing, parent, name, kind, NoSlash}

-- The buffer that holds the names of a stack, each with its slash.
abbrev pub buffer : Bool → List (List ℕ) → List ℕ
buffer is_abs [] = if is_abs then b'/' ∷ [] else []
buffer is_abs (m ∷ names) = b'/' ∷ (reverse m ++ buffer is_abs names)

-- A path as its first name and what stands behind the slash, if there is one.
abbrev pub unsplit : List ℕ → Option (List ℕ) → List ℕ
unsplit n none = n
unsplit n (some t) = n ++ (b'/' ∷ t)

abbrev pub tail_of : Option (List ℕ) → List ℕ
tail_of none = []
tail_of (some t) = t

pub length-reverse : (n : List ℕ) → length (reverse n) ≡ length n
length-reverse [] = refl
length-reverse (c ∷ n) = rw (reverse-cons c n, length-append) (omega (arith, length-reverse n))

All-append {ℓ} : (P : ℕ → Type ℓ) (xs ys : List ℕ) → All P xs → All P ys → All P (xs ++ ys)
All-append P [] ys h k = k
All-append P (x ∷ xs) ys (p, h) k = (p, All-append P xs ys h k)

pub NoSlash-reverse : (n : List ℕ) → NoSlash n → NoSlash (reverse n)
NoSlash-reverse [] h = h
NoSlash-reverse (c ∷ n) (p, h) =
    rw (reverse-cons c n) (All-append _ (reverse n) (c ∷ []) (NoSlash-reverse n h) (p, tt))

kind_long : (n : List ℕ) → 3 ≤ length n → kind n ≡ name
kind_long [] h = absurd (omega arith)
kind_long (c ∷ []) h = absurd (omega arith)
kind_long (c ∷ d ∷ []) h = absurd (omega arith)
kind_long (c ∷ d ∷ e ∷ n) h = refl

pub kind-reverse : (n : List ℕ) → kind (reverse n) ≡ kind n
kind-reverse [] = refl
kind-reverse (c ∷ []) = refl
kind-reverse (c ∷ d ∷ []) = ground arith
kind-reverse (c ∷ d ∷ e ∷ n) =
    kind_long (reverse (c ∷ d ∷ e ∷ n)) (omega (arith, length-reverse (c ∷ d ∷ e ∷ n)))

-- A buffer between two rounds is empty or ends in a slash.
abbrev pub EndsInSlash : List ℕ → Type 0
EndsInSlash [] = Unit {0}
EndsInSlash (c ∷ out) = c ≡ b'/'

pub buffer-EndsInSlash : (is_abs : Bool) (names : List (List ℕ)) → EndsInSlash (buffer is_abs names)
buffer-EndsInSlash true [] = refl
buffer-EndsInSlash false [] = tt
buffer-EndsInSlash is_abs (m ∷ names) = refl

strip_name-append : (n out : List ℕ) → NoSlash n → EndsInSlash out → strip_name (n ++ out) ≡ out
unfolding strip_name
strip_name-append [] [] h e = refl
strip_name-append [] (c ∷ out) h e = ground arith
strip_name-append (c ∷ n) out (p, h) e = ground (arith, strip_name-append n out h e)

-- `..` behind a name takes exactly that name out of the buffer.
pub erase_name-buffer :
    (is_abs : Bool) (m : List ℕ) (names : List (List ℕ))
    → NoSlash m
    → erase_name (buffer is_abs (m ∷ names)) ≡ buffer is_abs names
unfolding erase_name
erase_name-buffer is_abs m names h =
    strip_name-append (reverse m) _ (NoSlash-reverse m h) (buffer-EndsInSlash is_abs names)

abbrev pub is_parent : Kind → Bool
is_parent parent = true
is_parent _ = false

keeps_dotdot_name :
    (n out : List ℕ)
    → NoSlash n
    → kind n ≢ nothing
    → EndsInSlash out
    → keeps_dotdot (b'/' ∷ (n ++ out)) ≡ is_parent (kind n)
unfolding keeps_dotdot
keeps_dotdot_name [] out h k e = absurd (k refl)
keeps_dotdot_name (c ∷ []) [] h k e = ground arith
keeps_dotdot_name (c ∷ []) (o ∷ out) h k e = ground arith
keeps_dotdot_name (c ∷ d ∷ []) [] h k e = ground arith
keeps_dotdot_name (c ∷ d ∷ []) (o ∷ out) h k e = ground arith
keeps_dotdot_name (c ∷ d ∷ f ∷ n) out h k e = ground arith

-- The test on the last bytes of the buffer tells whether the last name is `..`.
pub keeps_dotdot-buffer :
    (is_abs : Bool) (m : List ℕ) (names : List (List ℕ))
    → NoSlash m
    → kind m ≢ nothing
    → keeps_dotdot (buffer is_abs (m ∷ names)) ≡ is_parent (kind m)
keeps_dotdot-buffer is_abs m names h k =
    keeps_dotdot_name (reverse m) (buffer is_abs names) (NoSlash-reverse m h)
      (λ e. k (sym (kind-reverse m) ∙ e)) (buffer-EndsInSlash is_abs names)
    ∙ ap is_parent (kind-reverse m)

-- The bytes of a name of a C string.
abbrev pub IsPlain : List ℕ → Type 0
IsPlain n = All (λ c. (c ≢ b'/') × (c ≢ 0)) n

-- An empty name and `.` leave the buffer alone.
pub round_nothing :
    (size : ℕ) (n : List ℕ) (r : Option (List ℕ)) (out : List ℕ)
    → unsplit n r ≢ []
    → kind n ≡ nothing
    → round size (unsplit n r) out ≡ ok (tail_of r, out)
unfolding round
round_nothing size [] none out ne k = absurd (ne refl)
round_nothing size [] (some t) out ne k = refl
round_nothing size (c ∷ []) none out ne k = ground arith
round_nothing size (c ∷ []) (some t) out ne k = ground arith
round_nothing size (c ∷ d ∷ []) r out ne k = absurd (ground arith)
round_nothing size (c ∷ d ∷ e ∷ n) r out ne k = absurd (cc)

-- Any other name but `..` is copied.
pub round_name :
    (size : ℕ) (n : List ℕ) (r : Option (List ℕ)) (out : List ℕ)
    → IsPlain n
    → kind n ≡ name
    → round size (unsplit n r) out ≡ copy_name size (unsplit n r) out
unfolding round
round_name size [] r out p k = absurd (cc)
round_name size (c ∷ []) none out p k = ground arith
round_name size (c ∷ []) (some t) out p k = ground arith
round_name size (c ∷ d ∷ []) none out p k = ground arith
round_name size (c ∷ d ∷ []) (some t) out p k = ground arith
round_name size (c ∷ d ∷ e ∷ n) none out p k = ground arith
round_name size (c ∷ d ∷ e ∷ n) (some t) out p k = ground arith

-- What `copy_name` returns, if it does, is the name behind what was written, and its slash.
pub copy_name-unsplit :
    (size : ℕ) (n : List ℕ) (r : Option (List ℕ)) (out s' out' : List ℕ)
    → NoSlash n
    → copy_name size (unsplit n r) out ≡ ok (s', out')
    → (s' ≡ tail_of r)
      × (out' ≡ elim r [ none ↦ reverse n ++ out | some t ↦ b'/' ∷ (reverse n ++ out) ])
unfolding copy_name
copy_name-unsplit size [] none out s' out' p h = ground arith
copy_name-unsplit size [] (some t) out s' out' p h = ground arith
copy_name-unsplit size (c ∷ n) none out s' out' (p, ps) h = ground (
  arith,
  copy_name-unsplit size n none (c ∷ out) s' out' ps,
  reverse-cons c n,
  append_assoc (reverse n) (c ∷ []) out,
)
copy_name-unsplit size (c ∷ n) (some t) out s' out' (p, ps) h = ground (
  arith,
  copy_name-unsplit size n (some t) (c ∷ out) s' out' ps,
  reverse-cons c n,
  append_assoc (reverse n) (c ∷ []) out,
)

-- What is in the buffer behind a round: the target, but for a slash where the path ends.
abbrev pub Written : Option (List ℕ) → List ℕ → List ℕ → Type 0
Written none out' target = finish out' ≡ finish target
Written (some t) out' target = out' ≡ target
