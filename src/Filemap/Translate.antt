-- ===== src/Filemap/Translate.antt =====
-- `filemap_map` of ibcs/filemap.c, from where the path is absolute: it is looked up in the map and replaced.
-- `dst` is an address in memory; what is at `[dst, dst + size)` is the caller's buffer.
pub mod Match
pub mod Shift
pub mod Replace
pub mod Correct
mod Tests
use mathlib.Core.List.{reverse}
use ibcs_us.Prelude.{
  ℕ, zero, suc, ◌+◌, ◌-◌, Bool, true, false, ◌&&◌, ◌||◌, Option, none, some, List, [], ◌∷◌, ◌==◌,
  ◌!=◌, ltb, if◌then◌else◌, length,
}
use ibcs_us.Memory.{Memory, store}
use ibcs_us.CString.{◌>>=◌, memcpy, strcpy, strchr, strlen}
use ibcs_us.Filemap.Result.{Result, ok, err, Error, too_long}
use ibcs_us.Filemap.Normalise.{byte, normalise_path}

-- An entry of the chain: the addresses of its two strings.
pub record Slot : Type 0 where
  pub from_at : ℕ
  pub to_at : ℕ

-- `for (d = dst; *c && *c == *d; c += 1, d += 1)`: where the two pointers stop.
pub common_prefix : ℕ → Memory → ℕ → ℕ → Option (ℕ × ℕ)
common_prefix zero m c d = none
common_prefix (suc f) m c d =
    let rest = common_prefix f m (c + 1) (d + 1) in
    if m c != 0 && m c == m d then rest else some (c, d)

-- The two tests that end the walk along the chain.
abbrev pub stops : Memory → ℕ → ℕ → Bool
stops m c d = m c == m d || (m c == 0 && m (c - 1) == b'/')

-- The walk along the chain: the entry, and the pointer `c` behind what matched of it.
pub find_slot : ℕ → Memory → ℕ → List Slot → Option (Option (Slot × ℕ))
find_slot f m dst [] = some none
find_slot f m dst (e ∷ es) =
    let rest = find_slot f m dst es in
    do (c, d) ← common_prefix f m e.from_at dst; if stops m c d then some (some (e, c)) else rest

-- `for (; d >= end; d -= 1) d[pad] = *d`: `n` bytes are moved up, the last one first; `d` is behind
-- the last one.
pub move_up : Memory → ℕ → ℕ → ℕ → Memory
move_up m d pad zero = m
move_up m d pad (suc n) = move_up (store m (d - 1 + pad) (m (d - 1))) (d - 1) pad n

-- `for (; (*d = d[pad]) != '\0'; d += 1)`
pub move_down : ℕ → Memory → ℕ → ℕ → Option Memory
move_down zero m d pad = none
move_down (suc f) m d pad =
    let m' = store m d (m (d + pad)) in
    let rest = move_down f m' (d + 1) pad in if m (d + pad) == 0 then some m' else rest

-- What the call did: `unmapped` is the return value 0, `mapped` a length with its NUL.
pub data Outcome : Type 0 where
  unmapped : Memory → Outcome
  mapped : Memory → ℕ → Outcome
  failed : Error → Memory → Outcome

-- The tail of the path is moved so that the new directory name fits; `none` inside is -ENAMETOOLONG.
pub make_room : ℕ → Memory → ℕ → ℕ → ℕ → ℕ → Option (Option Memory)
make_room f m dst size from_len to_len =
    if ltb from_len to_len
    then (do
      p ← strchr f m dst 0
      d ← p
      let pad = to_len - from_len
      if ltb size (d - dst + pad + 1)
          then some none
          else some (some (move_up m (d + 1) pad (d + 1 - (dst + from_len)))))
    else if ltb to_len from_len
    then (do m' ← move_down f m (dst + to_len) (from_len - to_len); some (some m'))
    else some (some m)

-- The length of the result, and the return value.
abbrev pub measure : ℕ → Memory → ℕ → Option Outcome
measure f m dst = do n ← strlen f m dst; some (mapped m (n + 1))

-- The translation by an entry that was found; `c` is behind its path.
pub translate : ℕ → Memory → ℕ → ℕ → Slot → ℕ → Option Outcome
translate f m dst size e c =
    if m (c - 1) != b'/' then (do m' ← strcpy f m dst e.to_at; measure f m' dst) else (do
      from_len ← strlen f m e.from_at
      to_len ← strlen f m e.to_at
      room ← make_room f m dst size from_len to_len
      elim room [
        | none ↦ some (failed too_long m)
        | some m' ↦ measure f (memcpy m' dst e.to_at to_len) dst
      ])

-- The lookup of the path that `normalise_path` left at `dst`.
pub lookup : ℕ → Memory → ℕ → ℕ → List Slot → Option Outcome
lookup f m dst size slots = do
  found ← find_slot f m dst slots
  elim found [ none ↦ some (unmapped m) | some (e, c) ↦ translate f m dst size e c ]
