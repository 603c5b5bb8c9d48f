-- ===== src/Filemap/Normalise/Spec.antt =====
-- What `normalise_path` is for, without its buffer: a path is a list of names between slashes, and
-- the names `.` and the empty one are dropped, while `..` takes the name before it away.
use mathlib.Core.List.{reverse}
use ibcs_us.Prelude.{
  ℕ, Bool, true, false, ◌&&◌, List, [], ◌∷◌, ◌++◌, ◌==◌, if◌then◌else◌, ◌≡◌, ◌≢◌, All, ◌⊎◌, inl,
  inr, refl,
}

-- The names between the slashes; `acc` is the part of the first one that has been read.
unfoldable pub components : List ℕ → List ℕ → List (List ℕ)
components acc [] = acc ∷ []
components acc (c ∷ s) =
    let rest = components [] s in
    let more = components (acc ++ (c ∷ [])) s in if c == b'/' then acc ∷ rest else more

pub data Kind : Type 0 where
  nothing parent name : Kind

pub Kind-cases : (k : Kind) → (k ≡ nothing) ⊎ ((k ≡ parent) ⊎ (k ≡ name))
Kind-cases nothing = inl refl
Kind-cases parent = inr (inl refl)
Kind-cases name = inr (inr refl)

-- The empty name and `.` are nothing, and `..` is the parent directory.
abbrev pub kind : List ℕ → Kind
kind [] = nothing
kind (c ∷ []) = if c == b'.' then nothing else name
kind (c ∷ d ∷ []) = if c == b'.' && d == b'.' then parent else name
kind (c ∷ d ∷ e ∷ n) = name

abbrev pub dotdot_name : List ℕ
dotdot_name = b'.' ∷ b'.' ∷ []

-- `..` behind the names of a stack, the last one first.
abbrev pub resolve_parent : Bool → List (List ℕ) → List (List ℕ)
resolve_parent is_abs [] = if is_abs then [] else dotdot_name ∷ []
resolve_parent is_abs (m ∷ names) = elim (kind m) [ parent ↦ dotdot_name ∷ (m ∷ names) | _ ↦ names ]

abbrev pub resolve_one : Bool → List (List ℕ) → List ℕ → List (List ℕ)
resolve_one is_abs names n = elim (kind n) [
  | nothing ↦ names
  | parent ↦ resolve_parent is_abs names
  | name ↦ n ∷ names
]

-- The names that are left of a path, the last one first.
abbrev pub resolve : Bool → List (List ℕ) → List (List ℕ) → List (List ℕ)
resolve is_abs names [] = names
resolve is_abs names (n ∷ ns) = resolve is_abs (resolve_one is_abs names n) ns

-- Names with a slash between each two.
abbrev pub join : List (List ℕ) → List ℕ
join [] = []
join (n ∷ []) = n
join (n ∷ m ∷ ns) = n ++ (b'/' ∷ join (m ∷ ns))

-- The path of the names: an absolute one begins with a slash, and an empty relative one is `.`.
abbrev pub render : Bool → List (List ℕ) → List ℕ
render true ns = b'/' ∷ join ns
render false [] = b'.' ∷ []
render false (n ∷ ns) = join (n ∷ ns)

-- The normal form of a path, on top of the names of a directory.
abbrev pub normal_form : Bool → List (List ℕ) → List ℕ → List ℕ
normal_form is_abs names s = render is_abs (reverse (resolve is_abs names (components [] s)))

abbrev pub NoSlash : List ℕ → Type 0
NoSlash n = All (λ c. c ≢ b'/') n

-- The names of a normal path, the last one first: none is nothing, and `..` stands at the start of
-- a relative path alone.
abbrev pub IsNormal : Bool → List (List ℕ) → Type 0
IsNormal is_abs [] = Unit {0}
IsNormal is_abs (m ∷ names) =
    NoSlash m
    × (kind m ≢ nothing)
    × (kind m ≡ parent → (is_abs ≡ false) × All (λ k. kind k ≡ parent) names)
    × IsNormal is_abs names
