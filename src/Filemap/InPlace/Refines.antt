-- ===== src/Filemap/InPlace/Refines.antt =====
-- The rounds of `normalise_path` in the buffer against those on lists.
use ibcs_us.Prelude.{
  ℕ, zero, suc, ◌+◌, ◌-◌, ◌≤◌, ◌<◌, ◌≡◌, ◌≢◌, inl, inr, refl, ◌∙◌, false, ◌&&◌, ◌||◌, List, [], ◌∷◌,
  leb, ◌==◌, ◌!=◌, if◌then◌else◌, length, drop, All, arith, Bool-cases,
}
use ibcs_us.Memory.{Memory, store}
use ibcs_us.CString.Copy.{SameOutside}
use ibcs_us.Filemap.Result.{Result, ok, err}
use ibcs_us.Filemap.Normalise.{byte, keeps_dotdot, strip_name, erase_name, copy_name, dotdot, round}
use ibcs_us.Filemap.InPlace.{keeps_dotdot_at, strip_name_at, copy_name_at, dotdot_at, round_at}

-- The bytes of a path, none of them NUL.
abbrev pub NoNul : List ℕ → Type 0
NoNul s = All (λ c. c ≢ 0) s

-- The bytes written from `dst` on, the last one first.
abbrev pub Holds : Memory → ℕ → List ℕ → Type 0
Holds m dst [] = Unit {0}
Holds m dst (c ∷ out) = (m (dst + length out) ≡ c) × (c ≢ 0) × Holds m dst out

pub Holds-same :
    (m m' : Memory) (dst : ℕ) (out : List ℕ)
    → ((q : ℕ) → q < dst + length out → m' q ≡ m q)
    → Holds m dst out
    → Holds m' dst out
Holds-same m m' dst [] same h = tt
Holds-same m m' dst (c ∷ out) same (e, nz, h) = (
  same (dst + length out) (omega arith) ∙ e,
  nz,
  Holds-same m m' dst out (λ q low. same q (omega arith)) h,
)

-- A byte is put behind those that are there.
pub Holds-store :
    (m : Memory) (dst c : ℕ) (out : List ℕ)
    → c ≢ 0
    → Holds m dst out
    → Holds (store m (dst + length out) c) dst (c ∷ out)
Holds-store m dst c out nz h = (
  ground arith,
  nz,
  Holds-same m (store m (dst + length out) c) dst out (λ q low. ground arith) h,
)

-- What a step in the buffer comes to, for what it does on lists: the same error; or the same rest of the path,
-- and the bytes in the buffer.
abbrev pub Agrees : ℕ → Memory → Result (List ℕ × List ℕ) → Result (List ℕ × ℕ) → Type 0
Agrees dst m (err e) x = x ≡ err e
Agrees dst m (ok t) x = (x ≡ ok (t.0, length t.1)) × NoNul t.0 × Holds m dst t.1

-- And nothing outside the buffer has changed.
abbrev pub Matches :
    ℕ → ℕ → Memory → Result (List ℕ × List ℕ) → Memory × Result (List ℕ × ℕ) → Type 0
Matches dst size m r x = SameOutside dst size m x.0 × Agrees dst x.0 r x.1

pub NoNul-drop : (k : ℕ) (s : List ℕ) → NoNul s → NoNul (drop k s)
NoNul-drop zero s h = h
NoNul-drop (suc k) [] h = tt
NoNul-drop (suc k) (c ∷ s) (nz, h) = NoNul-drop k s h

copy_name_at-Matches :
    (dst size : ℕ) (s : List ℕ) (m : Memory) (out : List ℕ)
    → NoNul s
    → Holds m dst out
    → length out < size
    → Matches dst size m (copy_name size s out) (copy_name_at dst size s m (length out))
unfolding copy_name copy_name_at
copy_name_at-Matches dst size [] m out nn h lt = (
  (λ q o. ground arith),
  (refl, tt, Holds-same m (store m (dst + length out) 0) dst out (λ q low. ground arith) h),
)
copy_name_at-Matches dst size (c ∷ s) m out (nz, nn) h lt =
    let m' = store m (dst + length out) c in
    let same : SameOutside dst size m m' = λ q o. ground arith in
    let h' = Holds-store m dst c out nz h in
    let one : length out + 1 ≡ suc (length out) = omega arith in
    elim (Bool-cases (leb size (length out + 1))) [
      | inl full ↦ rw full (same, refl)
      | inr room ↦ elim (Bool-cases (c == b'/')) [
        | inl slash ↦ rw (room, slash, one) (same, (refl, nn, h'))
        | inr other ↦
            let (same', agrees) =
              copy_name_at-Matches dst size s m' (c ∷ out) nn h' (ground arith) in
            rw (room, other, one) ((λ q o. same' q o ∙ same q o), agrees)
      ]
    ]

keeps_dotdot_at-keeps_dotdot :
    (dst : ℕ) (m : Memory) (out : List ℕ)
    → Holds m dst out
    → keeps_dotdot_at dst m (length out) ≡ keeps_dotdot out
unfolding keeps_dotdot_at keeps_dotdot
keeps_dotdot_at-keeps_dotdot dst m [] h = refl
keeps_dotdot_at-keeps_dotdot dst m (a ∷ []) h = ground arith
keeps_dotdot_at-keeps_dotdot dst m (a ∷ b ∷ []) h = ground arith
keeps_dotdot_at-keeps_dotdot dst m (a ∷ b ∷ c ∷ []) (x, nx, (y, ny, (z, nz, h))) = ground arith
keeps_dotdot_at-keeps_dotdot dst m (a ∷ b ∷ c ∷ d ∷ out) (x, nx, (y, ny, (z, nz, (w, nw, h)))) =
    let n = length out in
    let e2 : dst + suc (suc (suc (suc n))) - 2 ≡ dst + suc (suc n) = omega arith in
    let e3 : dst + suc (suc (suc (suc n))) - 3 ≡ dst + suc n = omega arith in
    let e4 : dst + suc (suc (suc (suc n))) - 4 ≡ dst + n = omega arith in
    rw (e2, e3, e4, y, z, w) (ground arith)

strip_name_at-strip_name :
    (dst : ℕ) (m : Memory) (out : List ℕ)
    → Holds m dst out
    → (strip_name_at dst m (length out) ≡ length (strip_name out)) × Holds m dst (strip_name out)
unfolding strip_name_at strip_name
strip_name_at-strip_name dst m [] h = (refl, tt)
strip_name_at-strip_name dst m (c ∷ out) (e, nz, h) =
    let (n, h') = strip_name_at-strip_name dst m out h in
    elim (Bool-cases (c == b'/')) [
      | inl slash ↦ rw (e, slash) (refl, (e, nz, h))
      | inr other ↦ rw (e, other) (n, h')
    ]

pub SameOutside-store :
    (dst size : ℕ) (m m' : Memory) (a v : ℕ)
    → SameOutside dst size m m'
    → dst ≤ a
    → a < dst + size
    → SameOutside dst size m (store m' a v)
SameOutside-store dst size m m' a v same low high q o =
    let e : (q == a) ≡ false = ground arith in rw e (same q o)

-- A step with a known result.
pub agree :
    (dst size : ℕ) (m m' : Memory) (s' out' : List ℕ) (r : Result (List ℕ × List ℕ))
    (x : Memory × Result (List ℕ × ℕ))
    → r ≡ ok (s', out')
    → x ≡ (m', ok (s', length out'))
    → SameOutside dst size m m'
    → NoNul s'
    → Holds m' dst out'
    → Matches dst size m r x
agree dst size m m' s' out' r x er ex same nn h = rw (er, ex) (same, (refl, nn, h))

-- `..` is written behind what there is, or a name is erased.
dotdot_at-Matches :
    (dst size : ℕ) (s : List ℕ) (m : Memory) (out : List ℕ)
    → NoNul s
    → Holds m dst out
    → length out < size
    → Matches dst size m (dotdot size s out) (dotdot_at dst size s m (length out))
unfolding dotdot dotdot_at erase_name
dotdot_at-Matches dst size s m out nn h lt =
    let k = keeps_dotdot_at-keeps_dotdot dst m out h in
    let nn' : NoNul (if byte s 2 == 0 then drop 2 s else drop 3 s) =
      (elim (Bool-cases (byte s 2 == 0)) [
        | inl end ↦ rw end (NoNul-drop 2 s nn)
        | inr more ↦ rw more (NoNul-drop 3 s nn)
      ]) in
    let one : length out + 1 ≡ suc (length out) = omega arith in
    let two : length out + 2 ≡ suc (suc (length out)) = omega arith in
    let three : length out + 3 ≡ suc (suc (suc (length out))) = omega arith in
    let m1 = store m (dst + length out) b'.' in
    let m2 = store m1 (dst + suc (length out)) b'.' in
    let m3 = store m2 (dst + suc (suc (length out))) b'/' in
    let dot : ◌≢◌ {A = ℕ} b'.' 0 = λ e. absurd (omega arith) in
    let slash : ◌≢◌ {A = ℕ} b'/' 0 = λ e. absurd (omega arith) in
    let h1 : Holds m1 dst (b'.' ∷ out) = Holds-store m dst b'.' out dot h in
    let h2 : Holds m2 dst (b'.' ∷ b'.' ∷ out) = Holds-store m1 dst b'.' (b'.' ∷ out) dot h1 in
    let h3 : Holds m3 dst (b'/' ∷ b'.' ∷ b'.' ∷ out) =
      Holds-store m2 dst b'/' (b'.' ∷ b'.' ∷ out) slash h2 in
    elim (Bool-cases (keeps_dotdot out)) [
      | inl keep ↦ elim (Bool-cases (leb size (length out + 3))) [
        | inl full ↦ rw (k, keep, full) ((λ q o. refl), refl)
        | inr room ↦
            let n = length out in
            let fits : n + 3 < size = ground arith in
            let same1 : SameOutside dst size m m1 =
              SameOutside-store dst size m m (dst + n) b'.' (λ q o. refl) (omega arith)
                (omega arith) in
            let same2 : SameOutside dst size m m2 =
              SameOutside-store dst size m m1 (dst + suc n) b'.' same1 (omega arith)
                (omega (arith, fits)) in
            let same3 : SameOutside dst size m m3 =
              SameOutside-store dst size m m2 (dst + suc (suc n)) b'/' same2 (omega arith)
                (omega (arith, fits)) in
            elim (Bool-cases (byte s 2 != 0)) [
              | inl more ↦
                  agree dst size m m3 _ (b'/' ∷ b'.' ∷ b'.' ∷ out) _ _ (rw (keep, room, more) refl)
                    (rw (k, keep, room, more, one, two, three) refl) same3 nn' h3
              | inr end ↦
                  agree dst size m m2 _ (b'.' ∷ b'.' ∷ out) _ _ (rw (keep, room, end) refl)
                    (rw (k, keep, room, end, one, two) refl) same2 nn' h2
            ]
      ]
      | inr erase ↦ elim (Bool-cases (length out != 1)) [
        | inr root ↦ rw (k, erase, root) ((λ q o. refl), (refl, nn', h))
        | inl name ↦
            let (n, h') = erased out h in rw (k, erase, name, n) ((λ q o. refl), (refl, nn', h'))
      ]
    ]
  where
    erased :
        (xs : List ℕ)
        → Holds m dst xs
        → (strip_name_at dst m (length xs - 1) ≡ length (strip_name (drop 1 xs)))
          × Holds m dst (strip_name (drop 1 xs))
    erased [] h = strip_name_at-strip_name dst m [] tt
    erased (c ∷ xs) (e, nz, h) =
        let less : suc (length xs) - 1 ≡ length xs = omega arith in
        rw less (strip_name_at-strip_name dst m xs h)

-- A round in the buffer is a round on lists.
pub round_at-Matches :
    (dst size : ℕ) (s : List ℕ) (m : Memory) (out : List ℕ)
    → NoNul s
    → Holds m dst out
    → length out < size
    → Matches dst size m (round size s out) (round_at dst size s m (length out))
unfolding round round_at
round_at-Matches dst size s m out nn h lt = elim (Bool-cases (byte s 0 == b'/')) [
  | inl t1 ↦ rw t1 ((λ q o. refl), (refl, NoNul-drop 1 s nn, h))
  | inr t1 ↦ elim (Bool-cases (byte s 0 == b'.' && byte s 1 == b'/')) [
    | inl t2 ↦ rw (t1, t2) ((λ q o. refl), (refl, NoNul-drop 2 s nn, h))
    | inr t2 ↦ elim (Bool-cases (byte s 0 == b'.' && byte s 1 == 0)) [
      | inl t3 ↦ rw (t1, t2, t3) ((λ q o. refl), (refl, NoNul-drop 1 s nn, h))
      | inr t3 ↦
          elim (Bool-cases
            (byte s 0 == b'.' && byte s 1 == b'.' && (byte s 2 == b'/' || byte s 2 == 0))) [
              | inl t4 ↦ rw (t1, t2, t3, t4) (dotdot_at-Matches dst size s m out nn h lt)
              | inr t4 ↦ rw (t1, t2, t3, t4) (copy_name_at-Matches dst size s m out nn h lt)
            ]
    ]
  ]
]
