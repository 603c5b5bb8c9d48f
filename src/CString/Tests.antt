-- ===== src/CString/Tests.antt =====
-- The string functions at concrete strings.
use ibcs_us.Prelude.{ℕ, ◌+◌, ◌≡◌, ◌⊎◌, ◌↔◌, [], none, some, arith, if◌then◌else◌, ltb}
use ibcs_us.Prelude.Int.{ℤ, pos, neg}
use ibcs_us.Prelude.Text.{codes}
use ibcs_us.Memory.{Memory, holding}
use ibcs_us.CString.{strcmp, strstr}
use ibcs_us.CString.Substring.{strstr_correct, OccursAt}
use ibcs_us.CString.Compare.{strcmp_correct}

-- "abcab" is at 10, "cab" at 30 and "ABC" at 40.
abbrev texts : Memory
texts q =
    if ltb q 20
    then holding 10 (codes "abcab") q
    else if ltb q 40
    then holding 30 (codes "cab") q
    else holding 40 (codes "ABC") q

strstr_correct_example :
    ((p : ℕ) × (strstr 9 9 texts 10 30 ≡ some (some (10 + p)))
      × OccursAt (codes "cab") (codes "abcab") p)
    ⊎ ((strstr 9 9 texts 10 30 ≡ some none)
        × ((¬ ((p : ℕ) × OccursAt (codes "cab") (codes "abcab") p))
            ⊎ ((codes "abcab" ≡ []) × (codes "cab" ≡ []))))
strstr_correct_example =
    strstr_correct 9 9 texts 10 30 (codes "abcab") (codes "cab") (ground arith) (ground arith)
      (omega arith) (omega arith)

strcmp_correct_example :
    (r : ℤ) × (strcmp 9 texts 10 30 ≡ some r)
    × (strcmp 9 texts 30 10 ≡ some (neg r))
    × ((r ≡ pos 0) ↔ (codes "abcab" ≡ codes "cab"))
strcmp_correct_example =
    strcmp_correct 9 texts 10 30 (codes "abcab") (codes "cab") (ground arith) (ground arith)
      (omega arith) (omega arith) (omega arith) (omega arith)
