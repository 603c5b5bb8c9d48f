-- ===== src/Compat/Files/Kept.antt =====
-- The files of the table: each is in use or open, and getting one and putting it back changes nothing.
use ibcs_us.Prelude.{
  ℕ, ◌+◌, ◌-◌, ◌%◌, ◌^◌, ◌≤◌, ◌<◌, ◌≡◌, ◌≢◌, ◌⊎◌, inl, inr, refl, subst, ◌==◌, ◌&&◌, Bool, true,
  false, not, Option, none, some, leb, ltb, if◌then◌else◌, Bool-cases, Option-cases, arith, ==→eq,
  eq→==,
}
use ibcs_us.Compat.Files.{File, Table, set_file, grow, fget, fdestroy, less_one, fput}

-- A file is referred to, or open; the count is small.
pub record InUse (file : File) : Type 0 where
  pub used : (1 ≤ file.f_count) ⊎ (file.f_isopen ≡ true)
  pub small : file.f_count < 2 ^ 31

-- The files stand below the size of the table, and are in use.
pub record IsTable (t : Table) : Type 0 where
  pub inside : (q : ℕ) (file : File) → t.fd q ≡ some file → q < t.max_fds
  pub in_use : (q : ℕ) (file : File) → t.fd q ≡ some file → InUse file

pub none≢some {ℓ} : {A : Type ℓ} (a : A) → ◌≢◌ {A = Option A} none (some a)
none≢some a e = cc e

some-InUse : (a x : File) → some a ≡ some x → InUse a → InUse x
some-InUse a x e u = let same : a ≡ x = cc e in subst InUse same u

fdestroy-InUse : (y x : File) → y.f_count < 2 ^ 31 → fdestroy y ≡ some x → InUse x
fdestroy-InUse y x h e = elim (Bool-cases (y.f_count == 0 && not y.f_isopen)) [
  | inl destroyed ↦ absurd (none≢some x (rw destroyed at e))
  | inr kept ↦
      let u : (1 ≤ y.f_count) ⊎ (y.f_isopen ≡ true) = elim (Bool-cases y.f_isopen) [
        | inl is_open ↦ inr is_open
        | inr not_open ↦
            let k : (y.f_count == 0 && true) ≡ false = (rw not_open at kept) in inl (ground arith)
      ] in
      some-InUse y x (rw kept at e) (record { used = u; small = h })
]

fdestroy_keeps : (y : File) → InUse y → fdestroy y ≡ some y
fdestroy_keeps y u = elim (Bool-cases (y.f_count == 0)) [
  | inr used ↦ rw used refl
  | inl unused ↦ elim u.used [
    | inl l ↦ absurd (ground arith)
    | inr is_open ↦ rw (unused, is_open) refl
  ]
]

grow_inside :
    (fresh : ℕ → Option File) (t : Table) (n : ℕ)
    → IsTable t
    → t.has_fd ≡ true
    → n < 2 ^ 28
    → IsTable (grow fresh t n)
unfolding grow
grow_inside fresh t n h has small = elim (Bool-cases (leb t.max_fds n)) [
  | inr enough ↦ rw enough h
  | inl short ↦
      let back : (q : ℕ) (file : File)
          → (if ltb q t.max_fds then t.fd q else none) ≡ some file
          → t.fd q ≡ some file =
        λ q file e. elim (Bool-cases (ltb q t.max_fds)) [
          | inl low ↦ (rw low at e)
          | inr high ↦ absurd (none≢some file (rw high at e))
        ] in
      rw (short, has)
        (record {
          inside = λ q file e. let l = h.inside q file (back q file e) in ground arith;
          in_use = λ q file e. h.in_use q file (back q file e);
        })
]

grow_size :
    (fresh : ℕ → Option File) (t : Table) (n : ℕ) → n < 2 ^ 28 → n < (grow fresh t n).max_fds
unfolding grow
grow_size fresh t n small = ground arith

-- Setting a file keeps the table well formed, if the file is.
pub set_file-IsTable :
    (t : Table) (n : ℕ) (file : Option File)
    → IsTable t
    → ((x : File) → file ≡ some x → (n < t.max_fds) × InUse x)
    → IsTable (set_file t n file)
set_file-IsTable t n file h new = record {
  inside = λ q x e. elim (Bool-cases (q == n)) [
    | inl this ↦
        let l = (new x (rw this at e)).0 in let same = ==→eq q n this in omega (arith, l, same)
    | inr other ↦ h.inside q x (rw other at e)
  ];
  in_use = λ q x e. elim (Bool-cases (q == n)) [
    | inl this ↦ (new x (rw this at e)).1
    | inr other ↦ h.in_use q x (rw other at e)
  ];
}

grow_same :
    (fresh : ℕ → Option File) (t : Table) (n q : ℕ)
    → IsTable t
    → t.has_fd ≡ true
    → (grow fresh t n).fd q ≡ t.fd q
unfolding grow
grow_same fresh t n q h has = elim (Bool-cases (leb t.max_fds n)) [
  | inr enough ↦ rw enough refl
  | inl short ↦ elim (Bool-cases (ltb q t.max_fds)) [
    | inl low ↦ rw (short, low) refl
    | inr high ↦ elim (Option-cases (t.fd q)) [
      | inl none_there ↦ rw (short, high, has, none_there) refl
      | inr (file, e) ↦ let l = h.inside q file e in absurd (ground arith)
    ]
  ]
]

-- fget of a descriptor below 2 ^ 28 keeps the table well formed while there are less than 2 ^ 31
-- references to the file, for a table that exists; and the table then has that descriptor.
pub fget-IsTable :
    (fresh : ℕ → Option File) (is_open : ℕ → Bool) (t : Table) (n : ℕ)
    → IsTable t
    → t.has_fd ≡ true
    → n < 2 ^ 28
    → ((file : File) → t.fd n ≡ some file → file.f_count + 1 < 2 ^ 31)
    → IsTable (fget fresh is_open t n) × (n < (fget fresh is_open t n).max_fds)
unfolding fget
fget-IsTable fresh is_open t n h has small few =
    let g = grow_inside fresh t n h has small in
    let l = grow_size fresh t n small in
    let e = grow_same fresh t n n h has in
    let new_InUse : InUse (record { f_count = 1; f_isopen = is_open n }) = record {
      used = inl (omega arith);
      small = omega arith;
    } in
    elim (Option-cases (t.fd n)) [
      | inl new ↦ (
        (rw (e, new)
            (set_file-IsTable (grow fresh t n) n _ g (λ x eq. (l, some-InUse _ x eq new_InUse)))),
        l,
      )
      | inr (file, there) ↦
          let u = h.in_use n file there in
          let f = few file there in
          (
            (rw (e, there)
                (set_file-IsTable (grow fresh t n) n _ g (λ x eq. (
                  l,
                  some-InUse _ x eq
                      (record { used = inl (omega (arith, f)); small = omega (arith, f) }),
                )))),
            l,
          )
    ]

-- fput keeps the table well formed, for a file that is referred to.
pub fput-IsTable :
    (t : Table) (n : ℕ)
    → IsTable t
    → ((file : File) → t.fd n ≡ some file → 1 ≤ file.f_count)
    → IsTable (fput t n)
unfolding fput
fput-IsTable t n h used = elim (Option-cases (t.fd n)) [
  | inl none_there ↦ rw none_there h
  | inr (file, there) ↦
      let u = h.in_use n file there in
      let l = h.inside n file there in
      let c = used file there in
      let less : (less_one file).f_count < 2 ^ 31 = omega (arith, c, u.small) in
      rw there (set_file-IsTable t n _ h (λ x eq. (l, fdestroy-InUse (less_one file) x less eq)))
]

fput-set_file :
    (t : Table) (n : ℕ) (a : File) (q : ℕ)
    → (fput (set_file t n (some a)) n).fd q ≡ (if q == n then fdestroy (less_one a) else t.fd q)
unfolding fput
fput-set_file t n a q =
    let e : (n == n) ≡ true = eq→== n n refl in
    elim (Bool-cases (q == n)) [ inl this ↦ rw (e, this) refl | inr other ↦ rw (e, other) refl ]

-- Getting a file that the table has and putting it back leaves every file as it was.
pub fput-fget :
    (fresh : ℕ → Option File) (is_open : ℕ → Bool) (t : Table) (n : ℕ) (file : File)
    → IsTable t
    → t.has_fd ≡ true
    → t.fd n ≡ some file
    → file.f_count + 1 < 2 ^ 31
    → (q : ℕ) → (fput (fget fresh is_open t n) n).fd q ≡ t.fd q
unfolding fget
fput-fget fresh is_open t n file h has there few q =
    let a : File = record { f_count = (file.f_count + 1) % 2 ^ 32; f_isopen = file.f_isopen } in
    let back : (file.f_count + 1) % 2 ^ 32 + (2 ^ 32 - 1) ≡ file.f_count + 2 ^ 32 = omega arith in
    let count : (file.f_count + 2 ^ 32) % 2 ^ 32 ≡ file.f_count = omega arith in
    let e = grow_same fresh t n n h has in
    let eq = grow_same fresh t n q h has in
    let u = h.in_use n file there in
    let put = fput-set_file (grow fresh t n) n a q in
    let same = fdestroy_keeps file u in
    elim (Bool-cases (q == n)) [
      | inl this ↦
          let here : t.fd q ≡ some file = (rw (==→eq q n this) there) in
          rw (e, there, put, this, back, count, same, here) refl
      | inr other ↦ rw (e, there, put, other, eq) refl
    ]
