-- ===== src/Bitset.antt =====
-- The bitset container of include/frsr/roaring/container_handle.hpp: `bitset_ref`, `bitset_cref` and the header
-- of the handle, whose count and endpoints may be stale. `none` is a word out of bounds.
pub mod Member
pub mod Valid
pub mod Update
pub mod Batch
pub mod Ends
pub mod Sorted
pub mod Endpoints
pub mod Walk
use Prim.Native.Nat.{bit_and, bit_or}
use roaring.Prelude.{
  ℕ, zero, suc, ◌+◌, ◌-◌, ◌*◌, ◌/◌, ◌%◌, ◌^◌, min, max, Bool, true, false, not, ◌&&◌, ◌||◌, List,
  [], ◌∷◌, Option, none, some, ◌>>=◌, leb, ltb, bit, ◌==◌, if◌then◌else◌, length, get_elem?, drop,
}
use roaring.Words.{complement, popcount, countr_zero, countl_zero}
use roaring.RunContainer.Walk.{no_next}

-- The words, and the header with its two flags.
pub record BitsetContainer : Type 0 where
  pub words : List ℕ
  pub cardinality : ℕ
  pub cardinality_stale : Bool
  pub endpoints_stale : Bool
  pub min_value : ℕ
  pub max_value : ℕ

-- `std::uint64_t{ 1 } << ( value & 63U )`
abbrev pub mask : ℕ → ℕ
mask value = 2 ^ (value % 64)

abbrev pub set_elem : ℕ → ℕ → List ℕ → List ℕ
set_elem i x [] = []
set_elem zero x (w ∷ ws) = x ∷ ws
set_elem (suc i) x (w ∷ ws) = w ∷ set_elem i x ws

unfoldable pub contains : BitsetContainer → ℕ → Option Bool
contains c value = do
  word ← get_elem? c.words (value / 64)
  some (not (bit_and word (mask value) == 0))

-- `adjust_cardinality`, up and down, in 32 bits.
abbrev pub adjusted_up : BitsetContainer → ℕ → ℕ
adjusted_up c n = (c.cardinality + n) % 2 ^ 32

abbrev pub adjusted_down : BitsetContainer → ℕ → ℕ
adjusted_down c n = (c.cardinality + (2 ^ 32 - n)) % 2 ^ 32

-- `word |= mask`, with the count and the flag.
abbrev pub with_bit : BitsetContainer → ℕ → ℕ → BitsetContainer
with_bit c value word = record c {
  words = set_elem (value / 64) (bit_or word (mask value)) c.words;
  cardinality = adjusted_up c 1;
  endpoints_stale = true;
}

pub add : BitsetContainer → ℕ → Option (BitsetContainer × Bool)
add c value = do
  word ← get_elem? c.words (value / 64)
  some (if not (bit_and word (mask value) == 0) then (c, false) else (with_bit c value word, true))

pub count_words : ℕ → List ℕ → ℕ
count_words count [] = count
count_words count (w ∷ ws) = count_words ((count + popcount w) % 2 ^ 32) ws

pub settle_cardinality : BitsetContainer → BitsetContainer
unfolding count_words
settle_cardinality c =
    if c.cardinality_stale
    then record c { cardinality = count_words 0 c.words; cardinality_stale = false }
    else c

-- `word &= ~mask`, after the count is settled.
pub without_bit : BitsetContainer → ℕ → ℕ → BitsetContainer
unfolding settle_cardinality
without_bit c value word = record c {
  words = set_elem (value / 64) (bit_and word (complement (mask value))) c.words;
  cardinality = adjusted_down (settle_cardinality c) 1;
  cardinality_stale = (settle_cardinality c).cardinality_stale;
  endpoints_stale = c.endpoints_stale || (value == c.min_value || value == c.max_value);
}

pub remove : BitsetContainer → ℕ → Option (BitsetContainer × Bool)
unfolding without_bit
remove c value = do
  word ← get_elem? c.words (value / 64)
  some (if bit_and word (mask value) == 0 then (c, false) else (without_bit c value word, true))

-- The words with the values of a batch set, and how many were not.
unfoldable pub set_values : List ℕ → List ℕ → ℕ → Option (List ℕ × ℕ)
set_values words [] additions = some (words, additions)
set_values words (value ∷ rest) additions = do
  word ← get_elem? words (value / 64)
  set_values (set_elem (value / 64) (bit_or word (mask value)) words) rest
      (additions + bit (bit_and word (mask value) == 0))

-- The words with the values cleared, and how many were set.
pub clear_values : List ℕ → List ℕ → ℕ → Option (List ℕ × ℕ)
clear_values words [] removals = some (words, removals)
clear_values words (value ∷ rest) removals = do
  word ← get_elem? words (value / 64)
  clear_values (set_elem (value / 64) (bit_and word (complement (mask value))) words) rest
      (removals + bit (not (bit_and word (mask value) == 0)))

-- `sorted_values.back()`, of a batch that begins with `front`.
abbrev pub batch_back : ℕ → List ℕ → ℕ
batch_back front [] = front
batch_back front (v ∷ vs) = batch_back v vs

-- The endpoints after additions to a container, `front` and `back` those of the batch.
abbrev pub widened : BitsetContainer → ℕ → ℕ → BitsetContainer
widened c front back =
    if not c.cardinality_stale && c.cardinality == 0
    then record c { endpoints_stale = false; min_value = front; max_value = back }
    else (if not c.endpoints_stale
        then record c { min_value = min c.min_value front; max_value = max c.max_value back }
        else c)

-- A container after additions that leave `words`.
abbrev pub grown : BitsetContainer → List ℕ → ℕ → ℕ → ℕ → BitsetContainer
grown c words additions front back = record (widened c front back) {
  words = words;
  cardinality = adjusted_up c additions;
}

pub add_sorted : BitsetContainer → List ℕ → Option (BitsetContainer × ℕ)
unfolding set_values
add_sorted c [] = some (c, 0)
add_sorted c (front ∷ rest) = do
  (words, additions) ← set_values c.words (front ∷ rest) 0
  some (
      if additions == 0
      then (record c { words = words }, 0)
      else (grown c words additions front (batch_back front rest), additions))

-- Whether a batch reaches an endpoint.
abbrev pub reaches : BitsetContainer → ℕ → ℕ → Bool
reaches c front back = leb front c.min_value || leb c.max_value back

-- A container after removals that leave `words`.
pub reduced : BitsetContainer → List ℕ → ℕ → Bool → BitsetContainer
unfolding settle_cardinality
reduced c words removals at_end = record c {
  words = words;
  cardinality = adjusted_down (settle_cardinality c) removals;
  cardinality_stale = (settle_cardinality c).cardinality_stale;
  endpoints_stale = c.endpoints_stale || at_end;
}

pub remove_sorted : BitsetContainer → List ℕ → Option (BitsetContainer × ℕ)
unfolding clear_values reduced settle_cardinality
remove_sorted c [] = some (settle_cardinality c, 0)
remove_sorted c (front ∷ rest) = do
  (words, removals) ← clear_values c.words (front ∷ rest) 0
  some (
      if removals == 0
      then (record (settle_cardinality c) { words = words }, 0)
      else (reduced c words removals (reaches c front (batch_back front rest)), removals))

-- The first set bit from word `index` on.
pub first_from : ℕ → List ℕ → Option ℕ
first_from index [] = none
first_from index (word ∷ rest) =
    let on = first_from (index + 1) rest in
    if word == 0 then on else some (index * 64 + countr_zero word)

-- The last set bit under word `n`.
pub last_before : List ℕ → ℕ → Option ℕ
last_before words zero = none
last_before words (suc n) =
    let on = last_before words n in
    do word ← get_elem? words n; if word == 0 then on else some (n * 64 + (63 - countl_zero word))

abbrev pub or_no_next : Option ℕ → ℕ
or_no_next none = no_next
or_no_next (some v) = v

abbrev pub consumed_mask : ℕ → ℕ
consumed_mask bit_index = if bit_index == 63 then 2 ^ 64 - 1 else 2 ^ (bit_index + 1) - 1

-- `words` from the word of `value` on.
pub next_in : ℕ → List ℕ → ℕ
unfolding first_from
next_in value [] = no_next
next_in value (word ∷ rest) =
    let masked = bit_and word (complement (consumed_mask (value % 64))) in
    if not (masked == 0)
    then value / 64 * 64 + countr_zero masked
    else or_no_next (first_from (value / 64 + 1) rest)

pub next_after : BitsetContainer → ℕ → ℕ
unfolding next_in
next_after c value = next_in value (drop (value / 64) c.words)

pub ensure_endpoints : ℕ → BitsetContainer → Option BitsetContainer
unfolding first_from last_before
ensure_endpoints dom c =
    if not c.endpoints_stale || (not c.cardinality_stale && c.cardinality == 0)
    then some c
    else elim (first_from 0 c.words) [
      | none ↦ some (record c { endpoints_stale = false; min_value = 0; max_value = 0 })
      | some front ↦ (do
        back ← last_before c.words (length c.words)
        some
            (record c { endpoints_stale = false; min_value = front % dom; max_value = back % dom }))
    ]
