-- ===== src/Filemap/Translate/Replace.antt =====
-- A directory name at the front of the buffer is replaced by another, whatever their lengths.
use ibcs_us.Prelude.{
  ℕ, suc, ◌+◌, ◌-◌, ◌≤◌, ◌<◌, true, false, List, [], ◌∷◌, ◌++◌, none, some, ltb, ◌≡◌, ◌⊎◌, inl, inr,
  refl, ap, ◌∙◌, length, length-append, arith, Bool-cases,
}
use ibcs_us.Memory.{Memory, IsStringAt, IsStringAt-agree}
use ibcs_us.CString.{memcpy}
use ibcs_us.CString.Scan.{strchr_end}
use ibcs_us.CString.Copy.{SameOutside, memcpy_inside_outside}
use ibcs_us.Filemap.Translate.{move_up, make_room}
use ibcs_us.Filemap.Translate.Shift.{move_up_lem, move_down_lem}

-- The string `n` bytes long at `s` lies outside the buffer.
abbrev pub OutsideBuffer : ℕ → ℕ → ℕ → ℕ → Type 0
OutsideBuffer s n dst size = (s + n < dst) ⊎ (dst + size ≤ s)

IsStringAt-rest :
    (m : Memory) (s t : ℕ) (xs ys : List ℕ)
    → t ≡ s + length xs
    → IsStringAt m s (xs ++ ys)
    → IsStringAt m t ys
IsStringAt-rest m s t [] ys e h = let e' : s ≡ t = omega arith in rw e' at h
IsStringAt-rest m s t (x ∷ xs) ys e (ex, nz, h) = IsStringAt-rest m (s + 1) t xs ys (omega arith) h

IsStringAt-moved :
    (m m' : Memory) (s t : ℕ) (bs : List ℕ)
    → ((i : ℕ) → i ≤ length bs → m' (t + i) ≡ m (s + i))
    → IsStringAt m s bs
    → IsStringAt m' t bs
IsStringAt-moved m m' s t [] same h = ground (arith, same 0 (omega arith))
IsStringAt-moved m m' s t (b ∷ bs) same (e, nz, h) = (
  ground (arith, same 0 (omega arith)),
  nz,
  IsStringAt-moved m m' (s + 1) (t + 1) bs
      (λ i le.
        let e1 : t + 1 + i ≡ t + suc i = omega arith in
        let e2 : s + 1 + i ≡ s + suc i = omega arith in rw (e1, e2) (same (suc i) (omega arith)))
      h,
)

IsStringAt-joined :
    (m m' : Memory) (s t u : ℕ) (xs ys : List ℕ)
    → u ≡ t + length xs
    → ((i : ℕ) → i < length xs → m' (t + i) ≡ m (s + i))
    → IsStringAt m s xs
    → IsStringAt m' u ys
    → IsStringAt m' t (xs ++ ys)
IsStringAt-joined m m' s t u [] ys e same hx hy = let e' : u ≡ t = omega arith in rw e' at hy
IsStringAt-joined m m' s t u (x ∷ xs) ys e same (ex, nz, hx) hy = (
  ground (arith, same 0 (omega arith)),
  nz,
  IsStringAt-joined m m' (s + 1) (t + 1) u xs ys (omega arith)
      (λ i le.
        let e1 : t + 1 + i ≡ t + suc i = omega arith in
        let e2 : s + 1 + i ≡ s + suc i = omega arith in rw (e1, e2) (same (suc i) (omega arith)))
      hx hy,
)

module _ (f : ℕ) (m : Memory) (dst size : ℕ) (from to rest : List ℕ)
    (path : IsStringAt m dst (from ++ rest)) (fuel : length (from ++ rest) < f)
    (fits : length (from ++ rest) + 1 ≤ size) where
  -- Where the new name is too long for the buffer nothing is moved.
  pub make_room_full :
      size < length to + length rest + 1
      → make_room f m dst size (length from) (length to) ≡ some none
  unfolding make_room
  make_room_full full =
      ground (arith, strchr_end f m dst (from ++ rest) path fuel, length-append from rest)

  up_step :
      ltb (length from) (length to) ≡ true
      → length to + length rest + 1 ≤ size
      → make_room f m dst size (length from) (length to)
        ≡ some (
            some (
              move_up m
                (dst + length (from ++ rest) + 1)
                (length to - length from)
                (length rest + 1)))
  unfolding make_room
  up_step longer room =
      let e = strchr_end f m dst (from ++ rest) path fuel in
      let n-eq : dst + length (from ++ rest) + 1 - (dst + length from) ≡ length rest + 1 =
        omega (arith, length-append from rest) in
      let fits_too : ltb size (dst + length (from ++ rest) - dst + (length to - length from) + 1)
          ≡ false =
        ground (arith, length-append from rest) in
      rw (longer, e, n-eq, fits_too) refl

  up_value :
      ltb (length from) (length to) ≡ true
      → (i : ℕ) → i ≤ length rest
      → move_up m
          (dst + length (from ++ rest) + 1)
          (length to - length from)
          (length rest + 1)
          (dst + length to + i)
        ≡ m (dst + length from + i)
  up_value longer i le =
      let e : dst + length to + i - (length to - length from) ≡ dst + length from + i =
        ground arith in
      ground (
        arith,
        length-append from rest,
        move_up_lem m (dst + length (from ++ rest) + 1) (length to - length from) (length rest + 1)
            (dst + length to + i) (omega (arith, length-append from rest)),
        ap m e,
      )

  up_outside :
      ltb (length from) (length to) ≡ true
      → length to + length rest + 1 ≤ size
      → SameOutside dst size m
          (move_up m (dst + length (from ++ rest) + 1) (length to - length from) (length rest + 1))
  up_outside longer room q o = ground (
    arith,
    length-append from rest,
    move_up_lem m (dst + length (from ++ rest) + 1) (length to - length from) (length rest + 1) q
        (omega (arith, length-append from rest)),
  )

  -- Else the tail of the path stands where the new name will end.
  pub make_room_lem :
      length to + length rest + 1 ≤ size
      → (m' : Memory) × (make_room f m dst size (length from) (length to) ≡ some (some m'))
        × IsStringAt m' (dst + length to) rest
        × SameOutside dst size m m'
  unfolding make_room
  make_room_lem room = elim (Bool-cases (ltb (length from) (length to))) [
    | inl longer ↦ (
      move_up m (dst + length (from ++ rest) + 1) (length to - length from) (length rest + 1),
      up_step longer room,
      IsStringAt-moved m _ (dst + length from) (dst + length to) rest (λ i le. up_value longer i le)
          (IsStringAt-rest m dst (dst + length from) from rest refl path),
      λ q o. up_outside longer room q o,
    )
    | inr short ↦ elim (Bool-cases (ltb (length to) (length from))) [
      | inl shorter ↦
          let tail =
            IsStringAt-rest m dst (dst + length to + (length from - length to)) from rest
              (ground arith) path in
          let (m', p, w, same) =
            move_down_lem f m (dst + length to) (length from - length to) rest tail
              (omega (arith, length-append from rest)) in
          (m', rw (short, shorter, p), w, λ q o. same q (omega (arith, length-append from rest)))
      | inr same ↦ (
        m,
        rw (short, same),
        IsStringAt-rest m dst (dst + length to) from rest (ground arith) path,
        λ q o. refl,
      )
    ]
  ]

  -- The translation of a directory match in the buffer: if the new name and the rest of the path do
  -- not fit in it, nothing is moved and the call fails; else the new name, which is a string outside
  -- the buffer, followed by the rest of the path stands there, and nothing outside the buffer has
  -- changed.
  pub replace_lem :
      (to_at : ℕ)
      → IsStringAt m to_at to
      → OutsideBuffer to_at (length to) dst size
      → length to + length rest + 1 ≤ size
      → (m' : Memory) × (make_room f m dst size (length from) (length to) ≡ some (some m'))
        × IsStringAt (memcpy m' dst to_at (length to)) dst (to ++ rest)
        × SameOutside dst size m (memcpy m' dst to_at (length to))
  replace_lem to_at name out room =
      let (m', p, w, same) = make_room_lem room in
      let (inside, outside) = memcpy_inside_outside m' dst to_at (length to) (omega arith) in
      let name' : IsStringAt m' to_at to =
        IsStringAt-agree m m' to_at to (λ q lo hi. same q (omega arith)) name in
      let w' : IsStringAt (memcpy m' dst to_at (length to)) (dst + length to) rest =
        IsStringAt-agree m' _ (dst + length to) rest (λ q lo hi. outside q (omega arith)) w in
      (
        m',
        p,
        IsStringAt-joined m' _ to_at dst (dst + length to) to rest refl inside name' w',
        λ q o. outside q (omega arith) ∙ same q o,
      )
