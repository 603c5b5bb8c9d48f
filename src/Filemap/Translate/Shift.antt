-- ===== src/Filemap/Translate/Shift.antt =====
-- The two loops of `filemap_map` that move the tail of a path inside its buffer.
use ibcs_us.Prelude.{
  ℕ, zero, suc, ◌+◌, ◌-◌, ◌≤◌, ◌<◌, ◌&&◌, List, some, ltb, leb, if◌then◌else◌, ◌≡◌, refl, ◌∙◌,
  length, arith,
}
use ibcs_us.Memory.{Memory, store, IsStringAt}
use ibcs_us.CString.{strcpy}
use ibcs_us.CString.Copy.{strcpy_lem, SameOutside}
use ibcs_us.Filemap.Translate.{move_up, move_down}

-- The bytes `[d - n, d)` stand `pad` higher, and the rest is as it was.
pub move_up_lem :
    (m : Memory) (d pad n q : ℕ)
    → n ≤ d
    → move_up m d pad n q ≡ (if leb (d - n + pad) q && ltb q (d + pad) then m (q - pad) else m q)
unfolding move_up
move_up_lem m d pad zero q h = ground arith
move_up_lem m d pad (suc n) q h =
    ground (arith, move_up_lem (store m (d - 1 + pad) (m (d - 1))) (d - 1) pad n q)

-- Moving down is copying the string onto a lower address.
pub move_down-strcpy :
    (f : ℕ) (m : Memory) (d s pad : ℕ) → s ≡ d + pad → move_down f m d pad ≡ strcpy f m d s
unfolding move_down strcpy
move_down-strcpy zero m d s pad e = refl
move_down-strcpy (suc f) m d s pad e =
    let m1 : Memory = store m d (m s) in
    let e' : s + 1 ≡ d + 1 + pad = omega arith in
    rw (← e, move_down-strcpy f m1 (d + 1) (s + 1) pad e')

-- A string `pad` above is moved down whole, and nothing else changes.
pub move_down_lem :
    (f : ℕ) (m : Memory) (d pad : ℕ) (bs : List ℕ)
    → IsStringAt m (d + pad) bs
    → length bs < f
    → (m' : Memory) × (move_down f m d pad ≡ some m')
      × IsStringAt m' d bs
      × SameOutside d (length bs + 1) m m'
move_down_lem f m d pad bs h lt =
    let (m', p, w, same) = strcpy_lem f m d (d + pad) bs h (omega arith) lt in
    (m', move_down-strcpy f m d (d + pad) pad refl ∙ p, w, same)
