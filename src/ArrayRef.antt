-- ===== src/ArrayRef.antt =====
-- The array container of include/frsr/roaring/container_handle.hpp: the membership test on a sorted array. A read
-- out of bounds gives `none`; the indices of type `int32_t` stay under 2^17, so they do not wrap.
pub mod Rank
pub mod Search
pub mod Update
use roaring.Prelude.{
  ℕ, zero, suc, ◌+◌, ◌-◌, ◌*◌, ◌/◌, Bool, true, false, List, Option, none, some, ◌>>=◌, leb, ltb,
  bit, ◌==◌, if◌then◌else◌, length, get_elem?,
}

abbrev pub gap : ℕ
gap = 16

-- `n` values from `j` on: the first that is not below `value` decides.
unfoldable pub scan : List ℕ → ℕ → ℕ → ℕ → Option Bool
scan carr value zero j = some false
scan carr value (suc n) j =
    let on = scan carr value n (j + 1) in
    do x ← get_elem? carr j; if leb value x then some (x == value) else on

-- Whether the last value of a block is below `value`.
pub block_below : List ℕ → ℕ → ℕ → Option Bool
block_below carr value block = do
  last ← get_elem? carr ((block + 1) * gap - 1)
  some (ltb last value)

-- The loop with two or three blocks at most, and the test that follows it.
pub halve : List ℕ → ℕ → ℕ → ℕ → ℕ → Option ℕ
unfolding block_below
halve carr value zero base n = none
halve carr value (suc fuel) base n =
    let half = n / 2 in
    let up = halve carr value fuel (base + half) (n - half) in
    let stay = halve carr value fuel base (n - half) in
    if ltb 1 n
    then (do c ← block_below carr value (base + half); if c then up else stay)
    else (do c ← block_below carr value base; some (if c then base + 1 else base))

-- The loop over quarters.
unfoldable pub quarter_search : List ℕ → ℕ → ℕ → ℕ → ℕ → Option ℕ
unfolding halve block_below
quarter_search carr value zero base n = none
quarter_search carr value (suc fuel) base n =
    let quarter = n / 4 in
    let on : ℕ → Option ℕ =
      λ c. quarter_search carr value fuel (base + c * quarter) (n - 3 * quarter) in
    if ltb 3 n
    then (do
      c1 ← block_below carr value (base + quarter)
      c2 ← block_below carr value (base + 2 * quarter)
      c3 ← block_below carr value (base + 3 * quarter)
      on (bit c1 + bit c2 + bit c3))
    else halve carr value (n + 1) base n

-- Every round of the loops leaves fewer blocks.
unfoldable pub sorted_array_contains : List ℕ → ℕ → Option Bool
unfolding scan quarter_search
sorted_array_contains carr value =
    let cardinality = length carr in
    let num_blocks = cardinality / gap in
    if ltb cardinality gap then scan carr value cardinality 0 else (do
      lo ← quarter_search carr value (num_blocks + 1) 0 num_blocks
      if ltb lo num_blocks
          then scan carr value gap (lo * gap)
          else scan carr value (cardinality - num_blocks * gap) (num_blocks * gap))
