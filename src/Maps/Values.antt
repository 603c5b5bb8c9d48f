-- ===== src/Maps/Values.antt =====
-- `map_value` of ibcs/map.c.
use ibcs_us.Prelude.{ℕ, ◌≡◌, refl, true, false, some, List, [], ◌∷◌, ◌++◌, All}
use ibcs_us.Memory.{Memory}
use ibcs_us.Maps.{Segment, value_in, has_number, search_segments, map_value}

-- The first segment that has a number gives its value, and those behind it do not matter.
pub map_value-append :
    (m : Memory) (front back : List Segment) (seg : Segment) (val def : ℕ)
    → All (λ s. has_number s val ≡ false) front
    → has_number seg val ≡ true
    → map_value m (some (front ++ (seg ∷ back))) val def ≡ value_in m seg val
unfolding map_value search_segments
map_value-append m front back seg val def h e = by_search front h
  where
    by_search :
        (xs : List Segment)
        → All (λ s. has_number s val ≡ false) xs
        → search_segments m (xs ++ (seg ∷ back)) val def ≡ value_in m seg val
    by_search [] h = rw e refl
    by_search (x ∷ xs) (hx, h) = rw hx (by_search xs h)
