-- ===== src/Chunks.antt =====
-- The chunk table of include/frsr/roaring/chunk_array.hpp, in the build without psi::vm and without AVX2: the searches
-- of the array of chunk keys, and the changes of the two arrays, which are one list of entries here. A position is an
-- index, `end()` the number of entries; a read out of bounds, or a loop past its rounds, gives `none`.
pub mod Find
pub mod Entries
use roaring.Prelude.{
  ℕ, zero, suc, ◌+◌, ◌-◌, ◌*◌, ◌/◌, min, Bool, List, [], ◌∷◌, ◌++◌, Option, none, some, ◌>>=◌, leb,
  ltb, ◌==◌, if◌then◌else◌, length, get_elem?, take, drop,
}
use roaring.Gallop.{partition_point, double_steps}

abbrev pub shortcut_min_chunks : ℕ
shortcut_min_chunks = 5

abbrev pub window_min_keys : ℕ
window_min_keys = 3

abbrev pub window_max_keys : ℕ
window_max_keys = 16

abbrev pub resident_keys_bytes : ℕ
resident_keys_bytes = 128

-- `std::lower_bound`
pub lower_bound : List ℕ → ℕ → Option ℕ
lower_bound keys key = partition_point (λ x. ltb x key) keys (length keys) 0

-- The halving loop of `find`.
pub halve_keys : ℕ → List ℕ → ℕ → ℕ → ℕ → Option ℕ
halve_keys zero keys key base n = none
halve_keys (suc fuel) keys key base n =
    let half = n / 2 in
    let up = halve_keys fuel keys key (base + half) (n - half) in
    let stay = halve_keys fuel keys key base (n - half) in
    if ltb 1 n
    then (do x ← get_elem? keys (base + half); if leb x key then up else stay)
    else some base

-- The position if the key stands there, else the end.
pub at_or_end : List ℕ → ℕ → ℕ → Option ℕ
at_or_end keys key at = do x ← get_elem? keys at; some (if x == key then at else length keys)

pub find_by_bound : List ℕ → ℕ → Option ℕ
unfolding lower_bound at_or_end
find_by_bound keys key = do
  at ← lower_bound keys key
  if at == length keys then some at else at_or_end keys key at

pub find_by_halving : List ℕ → ℕ → Option ℕ
unfolding halve_keys at_or_end
find_by_halving keys key = do
  base ← halve_keys (length keys + 1) keys key 0 (length keys)
  at_or_end keys key base

-- The last position if the key stands there.
pub find_after_last : List ℕ → ℕ → Option ℕ → Option ℕ
find_after_last keys key on = do
  x ← get_elem? keys (length keys - 1)
  if x == key then some (length keys - 1) else on

-- `key_bytes` is `sizeof( chunk_type )`.
pub find : ℕ → List ℕ → ℕ → Option ℕ
unfolding find_by_bound find_by_halving find_after_last
find key_bytes keys key =
    let size = length keys in
    if ltb window_max_keys size
    then find_after_last keys key (
        if ltb resident_keys_bytes (size * key_bytes)
        then find_by_bound keys key
        else find_by_halving keys key)
    else (if ltb size window_min_keys
        then (if size == 0 then some size else find_by_halving keys key)
        else (if leb shortcut_min_chunks size
            then find_after_last keys key (find_by_halving keys key)
            else find_by_halving keys key))

-- The last loop of the galloping search.
pub bisect_keys : ℕ → List ℕ → ℕ → ℕ → ℕ → Option ℕ
bisect_keys zero keys key low high = none
bisect_keys (suc fuel) keys key low high =
    let mid = low + (high - low) / 2 in
    let up = bisect_keys fuel keys key mid high in
    let down = bisect_keys fuel keys key low mid in
    if ltb (low + 1) high
    then (do x ← get_elem? keys mid; if ltb x key then up else down)
    else some high

-- `lower_bound` from a position on.
pub lower_bound_from : List ℕ → ℕ → ℕ → Option ℕ
unfolding bisect_keys
lower_bound_from keys key from =
    let n = length keys in
    if leb n from then some n else (do
      x ← get_elem? keys from
      if ltb x key
          then (do
            (low, step) ← double_steps n (λ x. ltb x key) keys n from 1
            bisect_keys (n + 1) keys key low (min (low + step) n))
          else some from)

module _ {ℓ} {H : Type ℓ} where
  abbrev pub keys_of : List (ℕ × H) → List ℕ
  keys_of [] = []
  keys_of ((key, _) ∷ rest) = key ∷ keys_of rest

  pub insert : List (ℕ × H) → ℕ → ℕ → H → List (ℕ × H)
  insert table at key handle = take at table ++ ((key, handle) ∷ drop at table)

  pub erase : List (ℕ × H) → ℕ → List (ℕ × H)
  erase table at = take at table ++ drop (suc at) table

  pub push_back : List (ℕ × H) → ℕ → H → List (ℕ × H)
  push_back table key handle = table ++ ((key, handle) ∷ [])

  -- `slot( at ) = handle`
  abbrev pub set_slot : List (ℕ × H) → ℕ → H → List (ℕ × H)
  set_slot [] at handle = []
  set_slot ((key, _) ∷ rest) zero handle = (key, handle) ∷ rest
  set_slot ((key, old) ∷ rest) (suc at) handle = (key, old) ∷ set_slot rest at handle
