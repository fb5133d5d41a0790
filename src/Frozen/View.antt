-- ===== src/Frozen/View.antt =====
-- The opening of a frozen image (`frozen_view_from` of include/frsr/roaring/serialization.hpp) and the reads of a view, with
-- its `contains`. `none` is a refused image, or a read of what is not stored; an index that is
-- shorter than its count is refused here, as the size check does. The comparison of a
-- block of values by the intrinsics of x86 is an argument.
use Prim.Native.Nat.{bit_and}
use roaring.Prelude.{
  ℕ, zero, suc, ◌+◌, ◌-◌, ◌*◌, ◌/◌, ◌%◌, ◌^◌, max, Bool, true, false, not, ◌&&◌, ◌||◌, List, [],
  ◌∷◌, Option, none, some, ◌>>=◌, leb, ltb, ◌==◌, if◌then◌else◌, length, get_elem?, take, drop,
}
use roaring.Layout.{chunk_mod, chunk_key, low_key}
use roaring.Runs.{Run}
use roaring.Gallop.{partition_point}
use roaring.ArrayRef.{scan, quarter_search, gap}
use roaring.RunContainer.{interleaved_binary_search, contains_at}
use roaring.Bitset.{mask}
use roaring.Frozen.{
  FrozenHeader, FrozenChunkIndex, Image, Stored, Block, lows, run_list, word_list, counts,
  header_bytes, index_entry_bytes, frozen_serialization_magic, frozen_format_version,
  frozen_ranked_format_version, array_kind, run_kind, bitset_kind, frozen_payload_alignment,
  frozen_expected_payload_bytes, frozen_rank_bytes, frozen_ranked_counts_match, extra_bytes,
}

pub record FrozenView : Type 0 where
  pub header : FrozenHeader
  pub index : List FrozenChunkIndex
  pub stores : List Block
  pub bytes : ℕ

abbrev pub ranked : FrozenView → Bool
ranked v = v.header.version == frozen_ranked_format_version

-- The variables of the loop over the index; `least_chunk` is the first key that may come next.
pub record Opening : Type 0 where
  pub payload_floor : ℕ
  pub image_end : ℕ
  pub total_cardinality : ℕ
  pub least_chunk : ℕ
  pub any_empty : Bool

-- Where the payload of an entry and its rank block end.
abbrev pub rank_end : ℕ → Bool → FrozenChunkIndex → ℕ
rank_end key_bits ranked entry =
    entry.payload_offset
    + entry.payload_bytes
    + extra_bytes ranked (frozen_rank_bytes key_bits entry.container_kind entry.payload_count)

-- The tests of a ranked image's entry.
abbrev pub ranked_fault : ℕ → ℕ → Opening → FrozenChunkIndex → Bool
ranked_fault key_bits size o entry =
    not (entry.base == o.total_cardinality)
    || not (frozen_ranked_counts_match key_bits entry)
    || ltb size (rank_end key_bits true entry)

-- The tests of an entry that refuse the image.
unfoldable pub entry_fault : ℕ → Bool → ℕ → Opening → FrozenChunkIndex → Bool
entry_fault key_bits ranked size o entry =
    let alignment = frozen_payload_alignment key_bits entry.container_kind in
    ltb entry.chunk o.least_chunk
    || ltb (chunk_mod key_bits - 1) entry.chunk
    || alignment == 0
    || not (entry.payload_offset % alignment == 0)
    || ltb entry.payload_offset o.payload_floor
    || ltb size entry.payload_offset
    || ltb (size - entry.payload_offset) entry.payload_bytes
    || not (
        entry.payload_bytes
        == frozen_expected_payload_bytes key_bits entry.container_kind entry.payload_count)
    || (ranked && ranked_fault key_bits size o entry)

abbrev pub after_entry : ℕ → Bool → Opening → FrozenChunkIndex → Opening
after_entry key_bits ranked o entry = record {
  payload_floor = (if ranked then rank_end key_bits ranked entry else o.payload_floor);
  image_end = max o.image_end (rank_end key_bits ranked entry);
  total_cardinality = o.total_cardinality + entry.cardinality;
  least_chunk = entry.chunk + 1;
  any_empty = o.any_empty || entry.cardinality == 0;
}

unfoldable pub check_entries : ℕ → Bool → ℕ → Opening → ℕ → List FrozenChunkIndex → Option Opening
unfolding entry_fault
check_entries key_bits ranked size o zero index = some o
check_entries key_bits ranked size o (suc n) [] = none
check_entries key_bits ranked size o (suc n) (entry ∷ rest) =
    let on = check_entries key_bits ranked size (after_entry key_bits ranked o entry) n rest in
    if entry_fault key_bits ranked size o entry then none else on

-- The tests of the header that refuse the image.
unfoldable pub header_fault : ℕ → ℕ → FrozenHeader → Bool
header_fault key_bits size h =
    ltb size header_bytes
    || not (h.magic == frozen_serialization_magic)
    || not (h.key_bits == key_bits)
    || (not (h.version == frozen_format_version) && not (h.version == frozen_ranked_format_version))
    || (h.version == frozen_ranked_format_version
        && (ltb 32 key_bits || leb (2 ^ 32) h.value_count))
    || ltb size (header_bytes + h.chunk_count * index_entry_bytes)

-- The blocks that a view of `size` bytes can read: those that lie in it.
unfoldable pub blocks_inside : ℕ → List Block → List Block
blocks_inside size [] = []
blocks_inside size (b ∷ rest) =
    let on = blocks_inside size rest in if leb b.end size then b ∷ on else on

unfoldable pub frozen_view_from : ℕ → Image → Option FrozenView
unfolding header_fault check_entries blocks_inside
frozen_view_from key_bits image =
    let h = image.header in
    let floor = header_bytes + h.chunk_count * index_entry_bytes in
    if header_fault key_bits image.size h then none else (do
      o ←
          check_entries key_bits (h.version == frozen_ranked_format_version) image.size
            (record {
              payload_floor = floor;
              image_end = floor;
              total_cardinality = 0;
              least_chunk = 0;
              any_empty = false;
            })
            h.chunk_count image.index
      if o.any_empty || not (o.total_cardinality == h.value_count)
          then none
          else some (record {
            header = h;
            index = take h.chunk_count image.index;
            stores = blocks_inside o.image_end image.stores;
            bytes = o.image_end;
          }))

-- What stands at an offset.
unfoldable pub load : List Block → ℕ → Option Stored
load [] offset = none
load (b ∷ rest) offset = let on = load rest offset in if b.at == offset then some b.held else on

abbrev pub as_lows : Stored → Option (List ℕ)
as_lows (lows values) = some values
as_lows other = none

abbrev pub as_runs : Stored → Option (List Run)
as_runs (run_list runs) = some runs
as_runs other = none

abbrev pub as_words : Stored → Option (List ℕ)
as_words (word_list words) = some words
as_words other = none

abbrev pub as_counts : Stored → Option (List ℕ)
as_counts (counts ranks) = some ranks
as_counts other = none

-- The position of the first entry whose chunk is not below `chunk`.
unfoldable pub lower_bound_entry : List FrozenChunkIndex → ℕ → Option ℕ
lower_bound_entry index chunk = partition_point (λ e. ltb e.chunk chunk) index (length index) 0

unfoldable pub array_block_search : List ℕ → ℕ → ℕ → Option ℕ
array_block_search values num_blocks value =
    quarter_search values value (num_blocks + 1) 0 num_blocks

-- How a build compares a block of sixteen 16-bit values with a value: by the intrinsics of x86, whose
-- answer is the argument, or by the loop.
abbrev pub BlockTest : Type 0
BlockTest = Option (List ℕ → ℕ → Bool)

unfoldable pub block_contains : BlockTest → List ℕ → ℕ → ℕ → Option Bool
block_contains none values value at = scan values value gap at
block_contains (some hit) values value at =
    if ltb (length values) (at + gap) then none else some (hit (take gap (drop at values)) value)

-- Of a payload whose count is its length.
unfoldable pub array_contains_payload : BlockTest → List ℕ → ℕ → Option Bool
unfolding array_block_search block_contains
array_contains_payload test values value =
    let cardinality = length values in
    let num_blocks = cardinality / gap in
    if ltb cardinality gap then scan values value cardinality 0 else (do
      lo ← array_block_search values num_blocks value
      if ltb lo num_blocks
          then block_contains test values value (lo * gap)
          else scan values value (cardinality - num_blocks * gap) (num_blocks * gap))

unfoldable pub run_contains_payload : List Run → ℕ → Option Bool
run_contains_payload runs value = do
  index ← interleaved_binary_search runs value
  contains_at runs value index

-- The payload of an entry, as so many elements from its offset on.
unfoldable pub lows_at : FrozenView → FrozenChunkIndex → Option (List ℕ)
unfolding load
lows_at v entry = do
  stored ← load v.stores entry.payload_offset
  values ← as_lows stored
  some (take entry.payload_count values)

unfoldable pub runs_at : FrozenView → FrozenChunkIndex → Option (List Run)
unfolding load
runs_at v entry = do
  stored ← load v.stores entry.payload_offset
  runs ← as_runs stored
  some (take entry.payload_count runs)

unfoldable pub words_at : FrozenView → FrozenChunkIndex → Option (List ℕ)
unfolding load
words_at v entry = do stored ← load v.stores entry.payload_offset; as_words stored

-- The rank block behind the payload of an entry.
unfoldable pub ranks_at : FrozenView → FrozenChunkIndex → Option (List ℕ)
unfolding load
ranks_at v entry = do
  stored ← load v.stores (entry.payload_offset + entry.payload_bytes)
  as_counts stored

-- `contains` in the chunk of an entry.
unfoldable pub entry_contains : BlockTest → FrozenView → FrozenChunkIndex → ℕ → Option Bool
unfolding lows_at runs_at words_at array_contains_payload run_contains_payload
entry_contains test v entry low =
    if entry.container_kind == array_kind
    then (do values ← lows_at v entry; array_contains_payload test values low)
    else if entry.container_kind == run_kind
    then (do runs ← runs_at v entry; run_contains_payload runs low)
    else if entry.container_kind == bitset_kind
    then (do
      words ← words_at v entry
      word ← get_elem? words (low / 64)
      some (not (bit_and word (mask low) == 0)))
    else some false

unfoldable pub contains : BlockTest → ℕ → FrozenView → ℕ → Option Bool
unfolding lower_bound_entry entry_contains
contains test key_bits v value = do
  at ← lower_bound_entry v.index (chunk_key key_bits value)
  if at == length v.index then some false else (do
    entry ← get_elem? v.index at
    if not (entry.chunk == chunk_key key_bits value)
        then some false
        else entry_contains test v entry (low_key key_bits value))
