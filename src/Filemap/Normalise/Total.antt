-- ===== src/Filemap/Normalise/Total.antt =====
-- `normalise_path` of ibcs/filemap.c: the loop ends, and a buffer that is large enough is never refused.
use mathlib.Core.List.{reverse}
use ibcs_us.Prelude.{
  ℕ, zero, suc, ◌+◌, ◌≤◌, ◌<◌, Bool, true, false, List, [], ◌∷◌, ◌==◌, if◌then◌else◌, ◌≡◌, ◌≢◌,
  refl, ap, sym, ◌∙◌, length, length-drop-le, arith, Bool-cases, inl, inr, ◌⊎◌, drop, ◌!=◌, ◌&&◌,
  ◌||◌,
}
use ibcs_us.Filemap.Result.{Result, ok, err, stuck, Result-cases, err-next}
use ibcs_us.Filemap.Normalise.{
  byte, keeps_dotdot, erase_name, copy_name, dotdot, round, rounds, finish, start, normalise_path,
}
use ibcs_us.Filemap.Normalise.Names.{length-reverse}
use ibcs_us.Filemap.Normalise.Correct.{rounds_end, rounds_go, rounds_err}
use ibcs_us.Filemap.Normalise.Bounds.{length-erase_name, round_takes, start_bound}

pub copy_name_fits :
    (size : ℕ) (s out : List ℕ)
    → length s + length out + 2 ≤ size
    → (s' out' : List ℕ) × (copy_name size s out ≡ ok (s', out'))
      × (length s' + length out' ≤ length s + length out)
unfolding copy_name
copy_name_fits size [] out h = ([], out, refl, omega arith)
copy_name_fits size (c ∷ s) out h = elim (Bool-cases (c == b'/')) [
  | inl slash ↦ (s, c ∷ out, ground arith, omega arith)
  | inr other ↦
      let (s', out', e, le) = copy_name_fits size s (c ∷ out) (omega arith) in
      (s', out', ground arith, omega arith)
]

dotdot_fits :
    (size c d : ℕ) (s out : List ℕ)
    → length s + length out + 4 ≤ size
    → (s' out' : List ℕ) × (dotdot size (c ∷ d ∷ s) out ≡ ok (s', out'))
      × (length s' + length out' ≤ length s + length out + 2)
unfolding dotdot
dotdot_fits size c d [] out h = elim (Bool-cases (keeps_dotdot out)) [
  | inl keep ↦ ([], b'.' ∷ b'.' ∷ out, ground arith, omega arith)
  | inr erase ↦ (
    [],
    if length out != 1 then erase_name out else out,
    ground arith,
    ground (arith, length-erase_name out),
  )
]
dotdot_fits size c d (e ∷ s) out h = elim (Bool-cases (keeps_dotdot out)) [
  | inl keep ↦ (
    if e == 0 then e ∷ s else s,
    if e != 0 then b'/' ∷ b'.' ∷ b'.' ∷ out else b'.' ∷ b'.' ∷ out,
    ground arith,
    ground arith,
  )
  | inr erase ↦ (
    if e == 0 then e ∷ s else s,
    if length out != 1 then erase_name out else out,
    ground arith,
    ground (arith, length-erase_name out),
  )
]

-- What a round is, by the test that it passes.
round_cases :
    (size c : ℕ) (s out : List ℕ)
    → ((k : List ℕ) × (round size (c ∷ s) out ≡ ok (k, out)) × (length k ≤ length s))
      ⊎ (((d : ℕ) × (t : List ℕ) × (s ≡ d ∷ t)
            × (round size (c ∷ s) out ≡ dotdot size (c ∷ d ∷ t) out))
          ⊎ (round size (c ∷ s) out ≡ copy_name size (c ∷ s) out))
unfolding round
round_cases size c [] out = elim (Bool-cases (c == b'/')) [
  | inl slash ↦ inl ([], ground arith, omega arith)
  | inr other ↦ elim (Bool-cases (c == b'.')) [
    | inl dot ↦ inl ([], ground arith, omega arith)
    | inr plain ↦ inr (inr (ground arith))
  ]
]
round_cases size c (d ∷ t) out = elim (Bool-cases (c == b'/')) [
  | inl slash ↦ inl (d ∷ t, ground arith, omega arith)
  | inr other ↦ elim (Bool-cases (c == b'.' && d == b'/')) [
    | inl dot ↦ inl (t, ground arith, omega arith)
    | inr same ↦ elim (Bool-cases (c == b'.' && d == 0)) [
      | inl last ↦ inl (d ∷ t, ground arith, omega arith)
      | inr more ↦
          elim (Bool-cases (c == b'.' && d == b'.' && (byte t 0 == b'/' || byte t 0 == 0))) [
            | inl up ↦ inr (inl (d, t, refl, ground arith))
            | inr plain ↦ inr (inr (ground arith))
          ]
    ]
  ]
]

round_fits :
    (size c : ℕ) (s out : List ℕ)
    → length s + length out + 3 ≤ size
    → (s' out' : List ℕ) × (round size (c ∷ s) out ≡ ok (s', out'))
      × (length s' + length out' ≤ length s + length out + 1)
round_fits size c s out h = elim (round_cases size c s out) [
  | inl (k, e, le) ↦ (k, out, e, omega arith)
  | inr (inl (d, t, es, e)) ↦
      let (s', out', q, le) = dotdot_fits size c d t out (ground arith) in
      (s', out', e ∙ q, ground arith)
  | inr (inr e) ↦
      let (s', out', q, le) = copy_name_fits size (c ∷ s) out (omega arith) in
      (s', out', e ∙ q, omega arith)
]

rounds_fits :
    (fuel size : ℕ) (s out : List ℕ)
    → length s ≤ fuel
    → length s + length out + 2 ≤ size
    → (out' : List ℕ) × (rounds fuel size s out ≡ ok out')
rounds_fits fuel size [] out hf h = (out, rounds_end fuel size out)
rounds_fits zero size (c ∷ s) out hf h = absurd (omega arith)
rounds_fits (suc fuel) size (c ∷ s) out hf h =
    let (s', o, e, le) = round_fits size c s out (omega arith) in
    let (takes, lt) = round_takes size c s out s' o (omega arith) e in
    let (out', q) = rounds_fits fuel size s' o (omega arith) (omega arith) in
    (out', rounds_go fuel size c s out s' o e ∙ q)

copy_name-ne-stuck : (size : ℕ) (s out : List ℕ) → copy_name size s out ≢ err stuck
unfolding copy_name
copy_name-ne-stuck size [] out h = cc
copy_name-ne-stuck size (c ∷ s) out h = ground (arith, copy_name-ne-stuck size s (c ∷ out))

dotdot-ne-stuck : (size : ℕ) (s out : List ℕ) → dotdot size s out ≢ err stuck
unfolding dotdot
dotdot-ne-stuck size s out h = ground arith

round-ne-stuck : (size c : ℕ) (s out : List ℕ) → round size (c ∷ s) out ≢ err stuck
round-ne-stuck size c s out h = elim (round_cases size c s out) [
  | inl (k, e, le) ↦ cc
  | inr (inl (d, t, es, e)) ↦ dotdot-ne-stuck size (c ∷ d ∷ t) out (sym e ∙ h)
  | inr (inr e) ↦ copy_name-ne-stuck size (c ∷ s) out (sym e ∙ h)
]

rounds-ne-stuck :
    (fuel size : ℕ) (s out : List ℕ)
    → length s ≤ fuel
    → length out < size
    → rounds fuel size s out ≢ err stuck
rounds-ne-stuck fuel size [] out hf h e = cc (rounds_end fuel size out)
rounds-ne-stuck zero size (c ∷ s) out hf h e = absurd (omega arith)
rounds-ne-stuck (suc fuel) size (c ∷ s) out hf h e = elim (Result-cases (round size (c ∷ s) out)) [
  | inl ((s', o), q) ↦
      let (takes, lt) = round_takes size c s out s' o h q in
      rounds-ne-stuck fuel size s' o (omega arith) lt (sym (rounds_go fuel size c s out s' o q) ∙ e)
  | inr (x, q) ↦
      let z : err x ≡ err stuck = sym (rounds_err fuel size c s out x q) ∙ e in
      let y : x ≡ stuck = ground arith in
      round-ne-stuck size c s out (q ∙ ap {B = Result (List ℕ × List ℕ)} err y)
]

module _ (getcwd : ℕ → Result (List ℕ)) (size : ℕ) (src cwd : List ℕ)
    (answer : getcwd size ≡ ok cwd) where
  start-ne-stuck : (is_abs : Bool) → start getcwd size src is_abs ≢ err stuck
  unfolding start
  start-ne-stuck false h = ground arith
  start-ne-stuck true h = ground arith

  start_fits :
      (is_abs : Bool)
      → length cwd + length src + 3 ≤ size
      → (s out : List ℕ) × (start getcwd size src is_abs ≡ ok (s, out))
        × (length s + length out + 2 ≤ size)
  unfolding start
  start_fits is_abs h = elim (Bool-cases (byte src 0 == b'/')) [
    | inl slash ↦ (drop 1 src, b'/' ∷ [], ground arith, omega (arith, length-drop-le 1 src))
    | inr other ↦ relative is_abs other
  ]
    where
      relative :
          (is_abs : Bool)
          → (byte src 0 == b'/') ≡ false
          → (s out : List ℕ) × (start getcwd size src is_abs ≡ ok (s, out))
            × (length s + length out + 2 ≤ size)
      relative false other = (src, [], ground arith, omega arith)
      relative true other =
          (src, b'/' ∷ reverse cwd, ground arith, omega (arith, length-reverse cwd))

-- The loop of `normalise_path` always ends, and a buffer with three bytes more than the path and the
-- working directory together is large enough.
pub normalise_path_total :
    (getcwd : ℕ → Result (List ℕ)) (size : ℕ) (src : List ℕ) (is_abs : Bool) (cwd : List ℕ)
    → 2 ≤ size
    → getcwd size ≡ ok cwd
    → (normalise_path getcwd size src is_abs ≢ err stuck)
      × (length cwd + length src + 3 ≤ size
          → (p : List ℕ) × (normalise_path getcwd size src is_abs ≡ ok p))
unfolding normalise_path
normalise_path_total getcwd size src is_abs cwd h e = (
  λ z. elim (err-next (start getcwd size src is_abs) _ z) [
    | inr q ↦ start-ne-stuck getcwd size src cwd e is_abs q
    | inl (t, q, z') ↦ elim (err-next (rounds (length t.0) size t.0 t.1) _ z') [
      | inr q' ↦
          rounds-ne-stuck (length t.0) size t.0 t.1 (omega arith)
            (start_bound getcwd size src is_abs t.0 t.1 h q) q'
      | inl (o, q', z'') ↦ cc
    ]
  ],
  λ room.
      let (s, out, q, le) = start_fits getcwd size src cwd e is_abs room in
      let (out', q') = rounds_fits (length s) size s out (omega arith) le in
      (reverse (finish out'), rw (q, q')),
)
