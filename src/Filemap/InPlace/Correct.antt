-- ===== src/Filemap/InPlace/Correct.antt =====
-- `normalise_path` in the buffer leaves there what it makes of the path as a list, and `filemap_map` comes to the
-- translation of that.
use mathlib.Core.List.{reverse, reverse-cons}
use ibcs_us.Prelude.{
  ℕ, zero, suc, ◌+◌, ◌-◌, ◌≤◌, ◌<◌, ◌≡◌, ◌≢◌, inl, inr, refl, ap, subst, ◌∙◌, Bool, true, false,
  List, [], ◌∷◌, ◌++◌, leb, ◌==◌, ◌!=◌, length, arith, Bool-cases, append-nil, append_assoc,
}
use ibcs_us.Memory.{Memory, store, IsStringAt}
use ibcs_us.CString.Copy.{SameOutside}
use ibcs_us.Filemap.Result.{Result, ok, err, Result-cases}
use ibcs_us.Filemap.Normalise.{byte, round, rounds, finish, start, normalise_path}
use ibcs_us.Filemap.Normalise.Names.{length-reverse}
use ibcs_us.Filemap.Normalise.Bounds.{round_takes, rounds_bound, start_bound}
use ibcs_us.Filemap.InPlace.{round_at, rounds_at, finish_at, start_at, normalise_path_at}
use ibcs_us.Filemap.InPlace.Refines.{
  NoNul, NoNul-drop, Holds, Holds-same, Holds-store, Matches, SameOutside-store, agree,
  round_at-Matches,
}

-- What the loop leaves, for what it leaves on lists.
abbrev Ends : ℕ → Memory → Result (List ℕ) → Result ℕ → Type 0
Ends dst m (err e) x = x ≡ err e
Ends dst m (ok out) x = (x ≡ ok (length out)) × Holds m dst out

rounds_at-Ends :
    (fuel dst size : ℕ) (s : List ℕ) (m : Memory) (out : List ℕ)
    → NoNul s
    → Holds m dst out
    → length out < size
    → SameOutside dst size m (rounds_at fuel dst size s m (length out)).0
      × Ends dst
          (rounds_at fuel dst size s m (length out)).0
          (rounds fuel size s out)
          (rounds_at fuel dst size s m (length out)).1
unfolding rounds rounds_at
rounds_at-Ends zero dst size [] m out nn h lt = ((λ q o. refl), (refl, h))
rounds_at-Ends (suc fuel) dst size [] m out nn h lt = ((λ q o. refl), (refl, h))
rounds_at-Ends zero dst size (c ∷ s) m out nn h lt = ((λ q o. refl), refl)
rounds_at-Ends (suc fuel) dst size (c ∷ s) m out nn h lt =
    let r = round_at dst size (c ∷ s) m (length out) in
    let step = round_at-Matches dst size (c ∷ s) m out nn h lt in
    elim (Result-cases (round size (c ∷ s) out)) [
      | inl ((s', out'), e) ↦
          let (same, (x, nn', h')) : Matches dst size m (ok (s', out')) r = (rw e at step) in
          let lt' = (round_takes size c s out s' out' lt e).1 in
          let (same', ends) = rounds_at-Ends fuel dst size s' r.0 out' nn' h' lt' in
          rw (e, x) ((λ q o. same' q o ∙ same q o), ends)
      | inr (number, e) ↦
          let (same, x) : Matches dst size m (err number) r = (rw e at step) in
          rw (e, x) (same, refl)
    ]

-- The bytes that are held, and the string that follows them, are a string.
Holds-IsStringAt :
    (m : Memory) (dst : ℕ) (out rest : List ℕ)
    → Holds m dst out
    → IsStringAt m (dst + length out) rest
    → IsStringAt m dst (reverse out ++ rest)
Holds-IsStringAt m dst [] rest h w =
    let e : dst + 0 ≡ dst = omega arith in subst (λ (q : ℕ). IsStringAt m q rest) e w
Holds-IsStringAt m dst (c ∷ out) rest (e, nz, h) w =
    let next : dst + suc (length out) ≡ dst + length out + 1 = omega arith in
    let w' : IsStringAt m (dst + length out) (c ∷ rest) =
      (e, nz, subst (λ (q : ℕ). IsStringAt m q rest) next w) in
    let same : reverse (c ∷ out) ++ rest ≡ reverse out ++ (c ∷ rest) =
      ap (λ t. t ++ rest) (reverse-cons c out) ∙ append_assoc (reverse out) (c ∷ []) rest in
    rw same (Holds-IsStringAt m dst out (c ∷ rest) h w')

ended :
    (m : Memory) (dst : ℕ) (out : List ℕ)
    → Holds m dst out
    → m (dst + length out) ≡ 0
    → IsStringAt m dst (reverse out)
ended m dst out h e =
    subst (IsStringAt m dst) (append-nil (reverse out)) (Holds-IsStringAt m dst out [] h e)

-- And a string is bytes that are held.
IsStringAt-Holds :
    (m : Memory) (dst : ℕ) (out s : List ℕ)
    → Holds m dst out
    → IsStringAt m (dst + length out) s
    → Holds m dst (reverse s ++ out)
IsStringAt-Holds m dst out [] h w = h
IsStringAt-Holds m dst out (b ∷ s) h (e, nz, w) =
    let next : dst + length out + 1 ≡ dst + suc (length out) = omega arith in
    let same : reverse (b ∷ s) ++ out ≡ reverse s ++ (b ∷ out) =
      ap (λ t. t ++ out) (reverse-cons b s) ∙ append_assoc (reverse s) (b ∷ []) out in
    rw same
      (IsStringAt-Holds m dst (b ∷ out) s (e, nz, h) (subst (λ (q : ℕ). IsStringAt m q s) next w))

-- Behind the loop the bytes end in a NUL, in the buffer.
finish_at-IsStringAt :
    (dst size : ℕ) (m : Memory) (out : List ℕ)
    → Holds m dst out
    → 2 ≤ size
    → length out < size
    → SameOutside dst size m (finish_at dst m (length out)).0
      × ((finish_at dst m (length out)).1 ≡ length (finish out) + 1)
      × IsStringAt (finish_at dst m (length out)).0 dst (reverse (finish out))
unfolding finish_at finish
finish_at-IsStringAt dst size m [] h two lt = ((λ q o. ground arith), refl, ground arith)
finish_at-IsStringAt dst size m (c ∷ []) (e, nz, h) two lt =
    ((λ q o. ground arith), refl, ground arith)
finish_at-IsStringAt dst size m (c ∷ d ∷ out) (e, nz, h) two lt =
    let n = suc (length out) in
    let nonempty : (suc n == 0) ≡ false = ground arith in
    let one : (suc n != 1) ≡ true = ground arith in
    let less : dst + suc n - 1 ≡ dst + n = omega arith in
    let m1 = store m (dst + n) 0 in
    let m2 = store m (dst + suc n) 0 in
    elim (Bool-cases (c == b'/')) [
      | inl slash ↦
          let h1 : Holds m1 dst (d ∷ out) =
            Holds-same m m1 dst (d ∷ out) (λ q low. ground arith) h in
          let same1 : SameOutside dst size m m1 = λ q o. ground arith in
          let length1 : suc n ≡ n + 1 = omega arith in
          rw (nonempty, one, less, e, slash)
            (same1, length1, ended m1 dst (d ∷ out) h1 (ground arith))
      | inr other ↦
          let h2 : Holds m2 dst (c ∷ d ∷ out) =
            Holds-same m m2 dst (c ∷ d ∷ out) (λ q low. ground arith) (e, nz, h) in
          let same2 : SameOutside dst size m m2 = λ q o. ground arith in
          rw (nonempty, one, less, e, other)
            (same2, refl, ended m2 dst (c ∷ d ∷ out) h2 (ground arith))
    ]

-- What the system call `getcwd` is documented to do: it writes to the buffer only, and where it succeeds its
-- answer is the string that stands there.
pub record LeavesCwd (getcwd : ℕ → Result (List ℕ)) (dst size : ℕ) (m left : Memory) : Type 0 where
  pub inside : SameOutside dst size m left
  pub string : (cwd : List ℕ) → getcwd size ≡ ok cwd → IsStringAt left dst cwd

-- What the buffer holds, for what the path comes to as a list: the path with its NUL, whose length with that is
-- returned; or whatever it is, and the same error is returned.
abbrev pub IsLeft : ℕ → Memory → Result (List ℕ) → Result ℕ → Type 0
IsLeft dst m (err e) x = x ≡ err e
IsLeft dst m (ok p) x = (x ≡ ok (length p + 1)) × IsStringAt m dst p

module _ (getcwd : ℕ → Result (List ℕ)) (dst size : ℕ) (m left : Memory)
    (cwd_left : LeavesCwd getcwd dst size m left) (two : 2 ≤ size) where
  start_at-Matches :
      (src : List ℕ) (is_abs : Bool)
      → NoNul src
      → Matches dst size m
          (start getcwd size src is_abs)
          (start_at getcwd left dst size src is_abs m)
  unfolding start start_at
  start_at-Matches src is_abs nn = elim (Bool-cases (byte src 0 == b'/')) [
    | inl slash ↦
        let h : Holds (store m dst b'/') dst (b'/' ∷ []) = ground arith in
        rw slash ((λ q o. ground arith), (refl, NoNul-drop 1 src nn, h))
    | inr other ↦ elim (Bool-cases is_abs) [
      | inr relative ↦ rw (other, relative) ((λ q o. refl), (refl, nn, tt))
      | inl absolute ↦ elim (Result-cases (getcwd size)) [
        | inr (number, e) ↦ rw (other, absolute, e) (cwd_left.inside, refl)
        | inl (cwd, e) ↦ elim (Bool-cases (leb size (length cwd + 2))) [
          | inl full ↦ rw (other, absolute, e, full) (cwd_left.inside, refl)
          | inr room ↦
              let len = length-reverse cwd in
              let at_dst : dst ≡ dst + 0 = omega arith in
              let w : IsStringAt left (dst + 0) cwd =
                subst (λ (q : ℕ). IsStringAt left q cwd) at_dst (cwd_left.string cwd e) in
              let held : Holds left dst (reverse cwd) =
                subst (Holds left dst) (append-nil (reverse cwd))
                  (IsStringAt-Holds left dst [] cwd tt w) in
              let slash : ◌≢◌ {A = ℕ} b'/' 0 = λ z. absurd (omega arith) in
              let h : Holds (store left (dst + length cwd) b'/') dst (b'/' ∷ reverse cwd) =
                subst (λ (n : ℕ). Holds (store left (dst + n) b'/') dst (b'/' ∷ reverse cwd)) len
                  (Holds-store left dst b'/' (reverse cwd) slash held) in
              let fits : length cwd + 2 < size = ground arith in
              let same : SameOutside dst size m (store left (dst + length cwd) b'/') =
                SameOutside-store dst size m left (dst + length cwd) b'/' cwd_left.inside
                  (omega arith) (omega (arith, fits)) in
              let count : length cwd + 1 ≡ suc (length (reverse cwd)) = omega (arith, len) in
              agree dst size m (store left (dst + length cwd) b'/') src (b'/' ∷ reverse cwd) _ _
                (rw (other, absolute, e, room) refl) (rw (other, absolute, e, room, count) refl)
                same nn h
        ]
      ]
    ]
  ]

  -- In a buffer of two bytes or more `normalise_path` writes the path that it makes as a list, with its NUL, and
  -- returns the length of both; or it fails with the same error. In every case nothing outside the buffer
  -- changes. The path has no NUL, and getcwd does what it is documented to do.
  pub normalise_path_at-normalise_path :
      (src : List ℕ) (is_abs : Bool)
      → NoNul src
      → SameOutside dst size m (normalise_path_at getcwd left dst size src is_abs m).0
        × IsLeft dst
            (normalise_path_at getcwd left dst size src is_abs m).0
            (normalise_path getcwd size src is_abs)
            (normalise_path_at getcwd left dst size src is_abs m).1
  unfolding normalise_path_at normalise_path
  normalise_path_at-normalise_path src is_abs nn =
      let x = start_at getcwd left dst size src is_abs m in
      let begun = start_at-Matches src is_abs nn in
      elim (Result-cases (start getcwd size src is_abs)) [
        | inr (number, e) ↦
            let (same, failed) : Matches dst size m (err number) x = (rw e at begun) in
            rw (e, failed) (same, refl)
        | inl ((s, out), e) ↦
            let (same, (started, nn', h)) : Matches dst size m (ok (s, out)) x = (rw e at begun) in
            let lt = start_bound getcwd size src is_abs s out two e in
            let (same1, ends) = rounds_at-Ends (length s) dst size s x.0 out nn' h lt in
            let y = rounds_at (length s) dst size s x.0 (length out) in
            let same2 : SameOutside dst size m y.0 = λ q o. same1 q o ∙ same q o in
            elim (Result-cases (rounds (length s) size s out)) [
              | inr (number, e1) ↦
                  let failed : Ends dst y.0 (err number) y.1 = (rw e1 at ends) in
                  rw (e, started, e1, failed) (same2, refl)
              | inl (out', e1) ↦
                  let (ended_at, h') : Ends dst y.0 (ok out') y.1 = (rw e1 at ends) in
                  let lt' = rounds_bound (length s) size s out out' lt e1 in
                  let (same3, count, w) = finish_at-IsStringAt dst size y.0 out' h' two lt' in
                  let len = length-reverse (finish out') in
                  let count' : (finish_at dst y.0 (length out')).1
                      ≡ length (reverse (finish out')) + 1 =
                    count ∙ omega (arith, len) in
                  rw (e, started, e1, ended_at) ((λ q o. same3 q o ∙ same2 q o), (ap ok count', w))
            ]
      ]
