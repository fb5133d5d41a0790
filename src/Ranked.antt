-- ===== src/Ranked.antt =====
-- Rank and selection on a ranked frozen image (include/frsr/roaring/ranked_view.hpp, with `array_lower_bound` and
-- `run_position` of the frozen view), whose keys have 32 bits. `none` is a read out of bounds.
pub mod Upto
pub mod Arrays
pub mod Runs
pub mod Words
pub mod SelectRun
pub mod SelectWord
pub mod Payloads
pub mod Keys
pub mod Find
pub mod Select
pub mod Whole
use Prim.Native.Nat.{bit_and, bit_or}
use roaring.Prelude.{
  ℕ, zero, suc, ◌+◌, ◌-◌, ◌*◌, ◌/◌, ◌%◌, ◌^◌, min, Bool, true, false, not, ◌&&◌, List, [], ◌∷◌,
  Option, none, some, ◌>>=◌, leb, ltb, bit, ◌==◌, if◌then◌else◌, length, get_elem?, drop, ℤ, pos,
  negsuc,
}
use roaring.Words.{popcount}
use roaring.Words.Select.{select_in_word}
use roaring.Runs.{Run}
use roaring.Gallop.{partition_point}
use roaring.ArrayRef.{gap}
use roaring.RunContainer.{interleaved_binary_search}
use roaring.Frozen.{FrozenChunkIndex, Image, array_kind, run_kind, bitset_kind}
use roaring.Frozen.View.{
  FrozenView, ranked, frozen_view_from, lower_bound_entry, array_block_search, lows_at, runs_at,
  words_at, ranks_at,
}

-- `n` values from `j` on: the first position that is not below `value`.
pub scan_position : List ℕ → ℕ → ℕ → ℕ → Option ℕ
scan_position values value zero j = some j
scan_position values value (suc n) j =
    let on = scan_position values value n (j + 1) in
    do x ← get_elem? values j; if leb value x then some j else on

-- How many of the `n` values from `j` on are below `value`.
pub count_block : List ℕ → ℕ → ℕ → ℕ → ℕ → Option ℕ
count_block values value zero j below = some below
count_block values value (suc n) j below = do
  x ← get_elem? values j
  count_block values value n (j + 1) (below + bit (ltb x value))

pub array_lower_bound : List ℕ → ℕ → Option ℕ
unfolding scan_position count_block
array_lower_bound values value =
    let cardinality = length values in
    let num_blocks = cardinality / gap in
    if ltb cardinality gap then scan_position values value cardinality 0 else (do
      lo ← array_block_search values num_blocks value
      if ltb lo num_blocks
          then (do below ← count_block values value gap (lo * gap) 0; some (lo * gap + below))
          else scan_position values value (cardinality - num_blocks * gap) (num_blocks * gap))

-- From the last run that begins at or below `value`.
pub position_in_run : List Run → List ℕ → ℕ → ℕ → Option (ℕ × Bool)
position_in_run runs run_ranks last value = do
  run ← get_elem? runs last
  before ← get_elem? run_ranks last
  some (before + (min value (run.end + 1) - run.begin), leb value run.end)

-- By what the search reports.
pub position_at : List Run → List ℕ → ℕ → ℤ → Option (ℕ × Bool)
unfolding position_in_run
position_at runs run_ranks value (pos last) = position_in_run runs run_ranks last value
position_at runs run_ranks value (negsuc zero) = some (0, false)
position_at runs run_ranks value (negsuc (suc last)) = position_in_run runs run_ranks last value

pub run_position : List Run → List ℕ → ℕ → Option (ℕ × Bool)
unfolding position_at
run_position runs run_ranks value = do
  last ← interleaved_binary_search runs value
  position_at runs run_ranks value last

pub record RankedView : Type 0 where
  pub view : FrozenView
  pub chunk_count : ℕ
  pub first_chunk : ℕ
  pub size : ℕ
  pub contiguous : Bool

-- `from`, of a view; `none` is the null view.
pub from : FrozenView → Option RankedView
from v =
    if not (ranked v)
    then none
    else (if v.header.chunk_count == 0
        then some (record {
          view = v;
          chunk_count = 0;
          first_chunk = 0;
          size = v.header.value_count % 2 ^ 32;
          contiguous = false;
        })
        else (do
          first ← get_elem? v.index 0
          last ← get_elem? v.index (v.header.chunk_count - 1)
          some (record {
            view = v;
            chunk_count = v.header.chunk_count;
            first_chunk = first.chunk % 2 ^ 32;
            size = v.header.value_count % 2 ^ 32;
            contiguous =
                (last.chunk % 2 ^ 32 + 2 ^ 32 - first.chunk % 2 ^ 32 + 1) % 2 ^ 32
                == v.header.chunk_count;
          })))

-- `from`, of the bytes of an image.
pub from_image : ℕ → Image → Option RankedView
unfolding from
from_image key_bits image = do v ← frozen_view_from key_bits image; from v

abbrev pub word_position : List ℕ → List ℕ → ℕ → Option (ℕ × Bool)
word_position words ranks low = do
  word ← get_elem? words (low / 64)
  before ← get_elem? ranks (low / 64)
  some (
    before + popcount (bit_and word (2 ^ (low % 64) - 1)),
    not (bit_and (word / 2 ^ (low % 64)) 1 == 0),
  )

-- The position in the chunk of an entry, from the rank that the entry begins with.
pub entry_position : FrozenView → FrozenChunkIndex → ℕ → Option (ℕ × Bool)
unfolding array_lower_bound run_position
entry_position v entry low =
    if entry.container_kind == bitset_kind
    then (do
      words ← words_at v entry
      ranks ← ranks_at v entry
      (below, present) ← word_position words ranks low
      some ((entry.base + below) % 2 ^ 32, present))
    else if entry.container_kind == array_kind
    then (do
      values ← lows_at v entry
      below ← array_lower_bound values low
      if ltb below (length values)
          then (do x ← get_elem? values below; some ((entry.base + below) % 2 ^ 32, x == low))
          else some ((entry.base + below) % 2 ^ 32, false))
    else if entry.container_kind == run_kind
    then (do
      runs ← runs_at v entry
      ranks ← ranks_at v entry
      (below, present) ← run_position runs ranks low
      some ((entry.base + below) % 2 ^ 32, present))
    else none

-- The entry of a chunk, or the answer where there is none.
pub find_in_order : RankedView → ℕ → ℕ → Option (ℕ × Bool)
unfolding entry_position
find_in_order r chunk low = do
  at ← lower_bound_entry r.view.index chunk
  if at == r.chunk_count then some (r.size, false) else (do
    entry ← get_elem? r.view.index at
    if not (entry.chunk % 2 ^ 32 == chunk)
        then some (entry.base, false)
        else entry_position r.view entry low)

pub find_contiguous : RankedView → ℕ → ℕ → Option (ℕ × Bool)
unfolding entry_position
find_contiguous r chunk low =
    if ltb chunk r.first_chunk
    then some (0, false)
    else (if leb r.chunk_count (chunk - r.first_chunk) then some (r.size, false) else (do
      entry ← get_elem? r.view.index (chunk - r.first_chunk)
      entry_position r.view entry low))

-- How many keys are below `x`, and whether it is there.
pub find : RankedView → ℕ → Option (ℕ × Bool)
unfolding find_in_order find_contiguous
find r x =
    if r.contiguous
    then find_contiguous r (x / 2 ^ 16) (bit_and x 0xFFFF)
    else find_in_order r (x / 2 ^ 16) (bit_and x 0xFFFF)

-- What `std::ranges::upper_bound` finds.
pub upper_bound : List ℕ → ℕ → Option ℕ
upper_bound counts limit = partition_point (λ x. leb x limit) counts (length counts) 0

-- `within - before`, in 32 bits.
abbrev pub left_of : ℕ → ℕ → ℕ
left_of within before = (within + (2 ^ 32 - before)) % 2 ^ 32

pub run_select : List Run → List ℕ → ℕ → Option ℕ
unfolding upper_bound
run_select runs ranks within = do
  run_at ← upper_bound (drop 1 ranks) within
  run ← get_elem? runs run_at
  before ← get_elem? ranks run_at
  some ((run.begin + left_of within before) % 2 ^ 16)

pub word_select : List ℕ → List ℕ → ℕ → Option ℕ
unfolding upper_bound
word_select words ranks within = do
  word_at ← upper_bound (drop 1 ranks) within
  word ← get_elem? words word_at
  before ← get_elem? ranks word_at
  some ((word_at * 64 + select_in_word word (left_of within before)) % 2 ^ 16)

-- The low value with the rank `within` in the chunk of an entry.
pub entry_select : FrozenView → FrozenChunkIndex → ℕ → Option ℕ
unfolding run_select word_select
entry_select v entry within =
    if entry.container_kind == array_kind
    then (do values ← lows_at v entry; get_elem? values within)
    else if entry.container_kind == run_kind
    then (do runs ← runs_at v entry; ranks ← ranks_at v entry; run_select runs ranks within)
    else if entry.container_kind == bitset_kind
    then (do words ← words_at v entry; ranks ← ranks_at v entry; word_select words ranks within)
    else none

-- The key with ordinal `i`; `i < size()` is asserted.
pub select : RankedView → ℕ → Option ℕ
unfolding entry_select
select r i = if leb r.size i then none else (do
  later ← partition_point (λ e. leb e.base i) r.view.index r.chunk_count 0
  if later == 0 then none else (do
    entry ← get_elem? r.view.index (later - 1)
    low ← entry_select r.view entry ((i + (2 ^ 32 - entry.base)) % 2 ^ 32)
    some (bit_or (entry.chunk % 2 ^ 32 * 2 ^ 16 % 2 ^ 32) low)))

pub contains : RankedView → ℕ → Option Bool
unfolding find
contains r x = do (below, present) ← find r x; some present

pub count_below : RankedView → ℕ → Option ℕ
unfolding find
count_below r x = do (below, present) ← find r x; some below

abbrev pub npos : ℕ
npos = 2 ^ 32 - 1

pub index_of : RankedView → ℕ → Option ℕ
unfolding find
index_of r x = do (below, present) ← find r x; some (if present then below else npos)
