-- ===== src/Compat/Chrdev/Slots.antt =====
-- The registration of a character device against the slots as they are.
use ibcs_us.Prelude.{
  ℕ, suc, ◌≡◌, ◌≢◌, ◌⊎◌, inl, inr, refl, ◌==◌, ◌&&◌, Bool, true, false, Option, none, some, List,
  [], ◌∷◌, if◌then◌else◌, Bool-cases, Option-cases, arith, All,
}
use ibcs_us.Options.{same_bytes}
use ibcs_us.Compat.{success, failure, eexist, enomem}
use ibcs_us.Compat.Chrdev.{
  Slot, Scan, exists, free, scan, scan_slot, set_slot, fill, register_chrdev, unregister_chrdev,
  clear_slot, is_device,
}

-- A slot that has a major has a name.
abbrev pub IsNamed : Slot → Type 0
IsNamed x = (x.chrdev_major ≡ 0) ⊎ ((n : List ℕ) × (x.chrdev_name ≡ some n))

-- The slot has the major or the name.
abbrev pub has_name : Option (List ℕ) → List ℕ → Bool
has_name none name = false
has_name (some n) name = same_bytes n name

abbrev pub clashes : ℕ → List ℕ → Slot → Bool
clashes major name x =
    if x.chrdev_major == 0
    then false
    else if x.chrdev_major == major
    then true
    else has_name x.chrdev_name name

abbrev pub some_slot : (Slot → Bool) → List Slot → Bool
some_slot p [] = false
some_slot p (x ∷ xs) = if p x then true else some_slot p xs

-- The first slot without a major.
abbrev pub first_free : ℕ → List Slot → Option ℕ
first_free i [] = none
first_free i (x ∷ xs) = if x.chrdev_major == 0 then some i else first_free (suc i) xs

-- What the loop finds: a clash if there is one anywhere, and else the first free slot.
abbrev pub found : ℕ → List Slot → ℕ → List ℕ → Scan
found i xs major name = if some_slot (clashes major name) xs then exists else free (first_free i xs)

scan_slot-found :
    (i : ℕ) (x : Slot) (xs : List Slot) (major : ℕ) (name : List ℕ)
    → IsNamed x
    → scan_slot i x major name (found (suc i) xs major name) ≡ found i (x ∷ xs) major name
scan_slot-found i x xs major name named = elim (Bool-cases (some_slot (clashes major name) xs)) [
  | inl later ↦ elim (Bool-cases (clashes major name x)) [
    | inl clash ↦ rw (later, clash) refl
    | inr apart ↦ rw (later, apart) refl
  ]
  | inr none_later ↦ elim (Bool-cases (x.chrdev_major == 0)) [
    | inl unused ↦ rw (none_later, unused) refl
    | inr used ↦ elim named [
      | inl z ↦ absurd (ground arith)
      | inr (n, e) ↦ elim (Bool-cases (x.chrdev_major == major)) [
        | inl same ↦ rw (none_later, used, same) refl
        | inr other ↦ elim (Bool-cases (same_bytes n name)) [
          | inl known ↦ rw (none_later, used, other, e, known) refl
          | inr new ↦ rw (none_later, used, other, e, new) refl
        ]
      ]
    ]
  ]
]

scan-found :
    (i : ℕ) (xs : List Slot) (major : ℕ) (name : List ℕ)
    → All IsNamed xs
    → scan i xs major name ≡ found i xs major name
unfolding scan
scan-found i [] major name h = refl
scan-found i (x ∷ xs) major name (named, h) =
    rw (scan-found (suc i) xs major name h) (scan_slot-found i x xs major name named)

-- register_chrdev fails with EEXIST where a slot in use has the major or the name, with ENOMEM where
-- no slot is free, and else fills the first free slot, when every slot in use has a name.
pub register_chrdev-found :
    (xs : List Slot) (major : ℕ) (name : List ℕ) (fops : ℕ)
    → All IsNamed xs
    → register_chrdev xs major name fops ≡ (
        if some_slot (clashes major name) xs
        then some (failure eexist, xs)
        else elim (first_free 0 xs) [
          | none ↦ some (failure enomem, xs)
          | some i ↦ some (
            success,
            set_slot xs i
                (record { chrdev_major = major; chrdev_name = some name; chrdev_fops = fops }),
          )
        ])
unfolding register_chrdev fill
register_chrdev-found xs major name fops h =
    let e = scan-found 0 xs major name h in
    elim (Bool-cases (some_slot (clashes major name) xs)) [
      | inl clash ↦ rw (e, clash) refl
      | inr apart ↦ elim (Option-cases (first_free 0 xs)) [
        | inl full ↦ rw (e, apart, full) refl
        | inr (i, at) ↦ rw (e, apart, at) refl
      ]
    ]

-- The slot was never used, or was cleared.
abbrev pub is_empty : Slot → Bool
is_empty x = x.chrdev_major == 0 && (elim x.chrdev_name [ none ↦ true | some n ↦ false ])

clear_slot-none : (x : Slot) (rest : Option (List Slot)) → clear_slot x none rest ≡ none
clear_slot-none x none = refl
clear_slot-none x (some rest) = refl

is_device-is_empty :
    (x : Slot) (major : ℕ) (name : List ℕ)
    → major ≢ 0
    → is_empty x ≡ true
    → is_device x major name ≡ none
is_device-is_empty x major name h e = elim (Bool-cases (x.chrdev_major == 0)) [
  | inr used ↦ let z : false ≡ true = (rw used at e) in absurd (cc z)
  | inl unused ↦ elim (Option-cases x.chrdev_name) [
    | inr (n, named) ↦ let z : false ≡ true = (rw (unused, named) at e) in absurd (cc z)
    | inl unnamed ↦
        let other : (x.chrdev_major == major) ≡ false = ground arith in rw (other, unnamed) refl
  ]
]

-- unregister_chrdev is not defined while a slot is empty: it compares the name of every slot that has
-- another major, and the name of an empty slot is NULL.
pub unregister_chrdev-is_empty :
    (xs : List Slot) (major : ℕ) (name : List ℕ)
    → major ≢ 0
    → some_slot is_empty xs ≡ true
    → unregister_chrdev xs major name ≡ none
unfolding unregister_chrdev
unregister_chrdev-is_empty [] major name h k = cc k
unregister_chrdev-is_empty (x ∷ xs) major name h k = elim (Bool-cases (is_empty x)) [
  | inl this ↦
      rw (is_device-is_empty x major name h this)
        (clear_slot-none x (unregister_chrdev xs major name))
  | inr other ↦
      let k' : some_slot is_empty xs ≡ true = (rw other at k) in
      rw (unregister_chrdev-is_empty xs major name h k') refl
]
