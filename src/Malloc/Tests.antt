-- ===== src/Malloc/Tests.antt =====
-- The allocator on an arena of one busy block and two free ones.
use ibcs_us.Prelude.{zero, suc, ℕ, ◌≡◌, refl, ◌==◌, false, Option, some, none, if◌then◌else◌, arith}
use ibcs_us.Malloc.{
  Arena, Outcome, write, allocated, fatal, headers, extend, add_block, ibcs_malloc, ibcs_free,
  search, coalesce, try_block, take_block, after_search, is_busy,
}
use ibcs_us.Malloc.Chain.{Leads, there, onward}
use ibcs_us.Malloc.Coalesce.{IsArena}
use ibcs_us.Malloc.Correct.{Safe, IsBreak, ibcs_malloc-Safe}
use ibcs_us.Malloc.Reuse.{ibcs_free-IsArena, ibcs_malloc-ibcs_free}
use ibcs_us.Malloc.Gap.{extend_gap}

abbrev words : ℕ → ℕ
words q =
    if q == 4096
    then 4117
    else if q == 4116
    then 4136
    else if q == 4136
    then 4156
    else if q == 4156
    then 4097
    else 0

abbrev three_blocks : Arena
three_blocks = record { word = words; first = 4096; last = 4156; rover = 4136 }

from_third : Leads words 4136 4156
from_third = onward 4136 4156 (omega arith) refl (there 4156)

from_first : (z : ℕ) → Leads words 4136 z → Leads words 4096 z
from_first z l = onward 4096 z (omega arith) refl (onward 4116 z (omega arith) refl l)

three-IsArena : IsArena words 4096 4156 4136
three-IsArena = record {
  aligned = refl;
  closed = refl;
  before = from_first 4136 (there 4136);
  after = from_third;
}

abbrev grants : ℕ → ℕ
grants a = a

three-IsBreak : IsBreak 4160 grants three_blocks (headers 8)
three-IsBreak = record {
  near = refl;
  small = omega arith;
  granted = record { granted = refl; small = omega arith };
}

ibcs_malloc-Safe_example : Safe three_blocks 8 (ibcs_malloc 5000 4160 grants three_blocks 8)
ibcs_malloc-Safe_example =
    ibcs_malloc-Safe 5000 4160 grants three_blocks 8 three-IsArena (λ e. absurd (omega arith))
      (omega arith) (omega arith) three-IsBreak

ibcs_free-IsArena_example :
    IsArena (ibcs_free three_blocks 4096).word 4096 4156 (ibcs_free three_blocks 4096).rover
    × ((ibcs_free three_blocks 4096).rover ≡ 4096)
    × (is_busy ((ibcs_free three_blocks 4096).word 4096) ≡ false)
ibcs_free-IsArena_example =
    ibcs_free-IsArena three_blocks 4096 three-IsArena (there 4096) (from_first 4156 from_third)
      (λ e. absurd (omega arith))

ibcs_malloc-ibcs_free_example :
    (m' : Arena) × (ibcs_malloc 5000 4160 grants (ibcs_free three_blocks 4096) 16
      ≡ some (allocated 4096 m'))
ibcs_malloc-ibcs_free_example =
    ibcs_malloc-ibcs_free 5000 4160 grants three_blocks 4096 16 three-IsArena (there 4096)
      (from_first 4156 from_third) (λ e. absurd (omega arith)) (λ e. absurd (omega arith))
      (omega arith) (omega arith)

abbrev unset : Arena
unset = record { word = λ q. 0; first = 0; last = 0; rover = 0 }

extend_gap_example :
    (m' : Arena) × (extend 8192 grants three_blocks 3 ≡ allocated 8192 m')
    × (¬ Leads m'.word m'.first 8192)
extend_gap_example =
    extend_gap 8192 grants three_blocks 3 (from_first 4156 from_third) (omega arith) refl
      (omega arith) (omega arith) (record { granted = refl; small = omega arith })

-- What a call gives: the header and where the next search begins, 0 for the end of the process.
abbrev given : Option Outcome → Option (ℕ × ℕ)
given none = none
given (some fatal) = some (0, 0)
given (some (allocated p m)) = some (p, m.rover)

runs :
    (given (ibcs_malloc 40 4160 grants three_blocks 8) ≡ some (4136, 4148))
    × (given (ibcs_malloc 40 4160 grants (ibcs_free three_blocks 4096) 50) ≡ some (4096, 4152))
    × (given (
          ibcs_malloc 40 4160 grants
            (record { word = words; first = 4096; last = 4156; rover = 4096 })
            100)
        ≡ some (4156, 4096))
unfolding ibcs_malloc ibcs_free search coalesce try_block take_block after_search extend add_block
runs = (refl, refl, refl)

-- The arena once the two free blocks are merged.
abbrev merged_words : ℕ → ℕ
merged_words = write words 4116 4156

abbrev two_blocks : Arena
two_blocks = record { word = merged_words; first = 4096; last = 4156; rover = 4136 }

abbrev GoesRound : ℕ → ℕ → Type 0
GoesRound g f =
    (search (suc g) f two_blocks 26 4156 ≡ none)
    × (search (suc g) f two_blocks 26 4096 ≡ none)
    × (search (suc g) f two_blocks 26 4116 ≡ none)

goes_round : (g f : ℕ) → GoesRound g f
unfolding search coalesce try_block take_block
goes_round g zero = (refl, refl, refl)
goes_round g (suc f) =
    let (at_last, at_first, at_merged) = goes_round g f in (at_first, at_merged, at_last)

-- The block that the search began at is merged into the one before it, and the search goes round without end,
-- with whatever fuel.
endless : (f : ℕ) → ibcs_malloc f 4160 grants three_blocks 100 ≡ none
unfolding ibcs_malloc search coalesce try_block take_block after_search
endless zero = refl
endless (suc zero) = refl
endless (suc (suc zero)) = refl
endless (suc (suc (suc zero))) = refl
endless (suc (suc (suc (suc f)))) =
    let (at_last, at_first, at_merged) = goes_round (suc (suc (suc f))) f in rw at_last refl

-- `brk` answers with the old break where it refuses, and the call takes that for success.
refused : given (some (extend 8192 (λ a. 8192) three_blocks 3)) ≡ some (8192, 4136)
unfolding extend add_block
refused = refl
