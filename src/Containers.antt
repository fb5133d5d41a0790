-- ===== src/Containers.antt =====
-- The operations of include/frsr/roaring/containers.hpp that ask a container for its form and pass on to it, and the
-- forms built from sorted values. `dom` is the number of low values; a failed assertion gives `none`.
pub mod Dispatch
pub mod Promote
use Prim.Native.Nat.{bit_or}
use roaring.Prelude.{
  ℕ, zero, suc, ◌/◌, ◌%◌, ◌^◌, Bool, true, false, List, [], ◌∷◌, Option, none, some, ◌>>=◌, leb,
  if◌then◌else◌, length, get_elem?,
}
use roaring.ArrayRef.{sorted_array_contains}
use roaring.ArrayRef.Update.{ArrayContainer, add, remove}
use roaring.RunRef
use roaring.Bitset.{BitsetContainer, mask, set_elem, batch_back}
use roaring.Bitset

-- `container_handle`, by its `kind()`.
pub data Container : Type 0 where
  array : ArrayContainer → Container
  run : RunRef.RunHandle → Container
  bitset : BitsetContainer → Container

-- A handle made with no value.
abbrev pub empty_container : Container
empty_container = array (record { values = []; cardinality = 0; min_value = 0; max_value = 0 })

pub container_contains : Container → ℕ → Option Bool
container_contains (array c) value = sorted_array_contains c.values value
container_contains (run c) value = RunRef.contains c value
container_contains (bitset c) value = Bitset.contains c value

-- `has_room` is whether the payload of an array holds another value without growing.
pub container_add : Bool → Container → ℕ → Option (Container × Bool)
container_add has_room (array c) value = do
  (c', added) ← add c has_room value
  some (array c', added)
container_add has_room (run c) value = let (c', added) = RunRef.add c value in some (run c', added)
container_add has_room (bitset c) value = do
  (c', added) ← Bitset.add c value
  some (bitset c', added)

pub container_remove : ℕ → Container → ℕ → Option (Container × Bool)
container_remove dom (array c) value = do (c', removed) ← remove c value; some (array c', removed)
container_remove dom (run c) value =
    let (c', removed) = RunRef.remove dom c value in some (run c', removed)
container_remove dom (bitset c) value = do
  (c', removed) ← Bitset.remove c value
  some (bitset c', removed)

-- `cardinality()` asserts that the count is not stale.
unfoldable pub container_size : Container → Option ℕ
container_size (array c) = some c.cardinality
container_size (run c) = some c.cardinality
container_size (bitset c) = if c.cardinality_stale then none else some c.cardinality

-- The zeroed words of a new bitset.
abbrev pub zeros : ℕ → List ℕ
zeros zero = []
zeros (suc n) = 0 ∷ zeros n

-- `words[ word_index ] |= std::uint64_t{ 1 } << bit_index`, for every value.
pub scatter : List ℕ → List ℕ → Option (List ℕ)
scatter words [] = some words
scatter words (value ∷ rest) = do
  word ← get_elem? words (value / 64)
  scatter (set_elem (value / 64) (bit_or word (mask value)) words) rest

-- The header of a bitset with the given words and values: a new one has stale endpoints.
abbrev pub with_values : List ℕ → List ℕ → BitsetContainer
with_values words [] = record {
  words = words;
  cardinality = 0;
  cardinality_stale = false;
  endpoints_stale = true;
  min_value = 0;
  max_value = 0;
}
with_values words (front ∷ rest) = record {
  words = words;
  cardinality = length (front ∷ rest) % 2 ^ 32;
  cardinality_stale = false;
  endpoints_stale = false;
  min_value = front;
  max_value = batch_back front rest;
}

-- Into a new block, not a reused one.
pub bitset_handle_from_sorted_values : ℕ → List ℕ → Option BitsetContainer
unfolding scatter
bitset_handle_from_sorted_values dom sorted_values = do
  words ← scatter (zeros (dom / 64)) sorted_values
  some (with_values words sorted_values)

abbrev pub array_to_bitset_threshold : ℕ → ℕ
array_to_bitset_threshold dom = if leb 1024 dom then dom / 16 else 64

-- `promote_if_needed` of the bitmap, with `promote_array`.
pub promote_if_needed : ℕ → Container → Option Container
unfolding bitset_handle_from_sorted_values
promote_if_needed dom (array c) =
    if leb (array_to_bitset_threshold dom) (length c.values)
    then (do b ← bitset_handle_from_sorted_values dom c.values; some (bitset b))
    else some (array c)
promote_if_needed dom (run c) = some (run c)
promote_if_needed dom (bitset c) = some (bitset c)
