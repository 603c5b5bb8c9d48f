-- ===== src/Maps.antt =====
-- ibcs/map.c: flags, signals and numbers of one system are mapped to those of another by tables. A table
-- is a function from indices to values; a `u_long` has 32 bits and a `u_short` 16.
pub mod Signals
pub mod Values
mod Tests
use ibcs_us.Prelude.{
  ℕ, zero, suc, ◌+◌, ◌-◌, ◌*◌, ◌%◌, ◌^◌, Bool, true, false, ◌&&◌, ◌||◌, Option, none, some, List,
  [], ◌∷◌, ◌==◌, ◌!=◌, leb, if◌then◌else◌, bit_and, bit_or,
}
use ibcs_us.Memory.{Memory}

-- The rounds of the loop of `map_flags` that are left, `n` of them.
pub flags_loop : ℕ → ℕ → ℕ → ℕ → (ℕ → ℕ) → ℕ → ℕ
flags_loop zero f m i map r = r
flags_loop (suc n) f m i map r =
    flags_loop n f (m * 2 % 2 ^ 16) (suc i) map (if bit_and f m != 0 then bit_or r (map i) else r)

pub map_flags : ℕ → (ℕ → ℕ) → ℕ
map_flags f map = flags_loop 16 f 1 0 map 0

-- `(u_long)-1`: there is no such signal.
abbrev pub no_signal : ℕ
no_signal = 0xffffffff

-- `map[i] != -1 && map[i] != 0`
abbrev pub is_mapped : ℕ → Bool
is_mapped s = s != no_signal && s != 0

pub bitvec_loop : ℕ → ℕ → ℕ → ℕ → (ℕ → ℕ) → ℕ → ℕ
bitvec_loop zero vec m i map newvec = newvec
bitvec_loop (suc n) vec m i map newvec = bitvec_loop n vec (m * 2 % 2 ^ 32) (suc i) map (
    if bit_and vec m != 0 && is_mapped (map i)
    then bit_or newvec (2 ^ (map i - 1) % 2 ^ 32)
    else newvec)

-- The shift is that of the source for a signal up to 32.
pub map_bitvec : ℕ → (ℕ → ℕ) → ℕ
map_bitvec vec map = bitvec_loop 32 vec 1 1 map 0

-- `sigset_t`: which signals are in the set.
abbrev pub Sigset : Type 0
Sigset = ℕ → Bool

-- For a signal from 1 to 64; for 0 the source writes outside the set.
abbrev pub sigaddset : Sigset → ℕ → Sigset
sigaddset set s q = q == s || set q

pub from_kernel_loop : ℕ → Sigset → ℕ → (ℕ → ℕ) → ℕ → ℕ
from_kernel_loop zero vec i map newvec = newvec
from_kernel_loop (suc n) vec i map newvec =
    from_kernel_loop n vec (suc i) map
      (if vec i && is_mapped (map i) then bit_or newvec (2 ^ (map i - 1) % 2 ^ 32) else newvec)

pub map_sigvec_from_kernel : Sigset → (ℕ → ℕ) → ℕ
map_sigvec_from_kernel vec map = from_kernel_loop 32 vec 1 map 0

pub to_kernel_loop : ℕ → ℕ → ℕ → ℕ → (ℕ → ℕ) → Sigset → Sigset
to_kernel_loop zero vec m i map newvec = newvec
to_kernel_loop (suc n) vec m i map newvec =
    to_kernel_loop n vec (m * 2 % 2 ^ 32) (suc i) map
      (if bit_and vec m != 0 && map i != no_signal then sigaddset newvec (map i) else newvec)

pub map_sigvec_to_kernel : ℕ → (ℕ → ℕ) → Sigset
map_sigvec_to_kernel vec map = to_kernel_loop 32 vec 1 1 map (λ q. false)

-- `struct map_segment`. `map` is an address, or the value itself if the segment has one number.
pub record Segment : Type 0 where
  pub first : ℕ
  pub last : ℕ
  pub map : ℕ

-- What a segment that has the number makes of it.
pub value_in : Memory → Segment → ℕ → ℕ
value_in m seg val =
    if seg.first == seg.last
    then seg.map
    else if seg.map != 0
    then m (seg.map + (val - seg.first))
    else val

abbrev pub has_number : Segment → ℕ → Bool
has_number seg val = leb seg.first val && leb val seg.last

-- The search of the segments up to the one that starts at -1, for a number that is not negative.
pub search_segments : Memory → List Segment → ℕ → ℕ → ℕ
search_segments m [] val def = def
search_segments m (seg ∷ segs) val def =
    if has_number seg val then value_in m seg val else search_segments m segs val def

pub map_value : Memory → Option (List Segment) → ℕ → ℕ → ℕ
map_value m none val def = val
map_value m (some segs) val def = search_segments m segs val def
