-- ===== src/Lib.antt =====
-- Roaring bitmaps: a set of keys, cut into chunks by the high bits of a key. A chunk's container
-- holds the low values as a sorted array, as a bitset or as a sorted list of runs (closed
-- intervals). This library models the three forms of a container, the chunk table, and the bitmap
-- over it with its point operations; the merges of run lists and of sorted arrays, which the set
-- operations on two chunks call; the choice of a form for a result; and the frozen image of a
-- bitmap, with the ranked view that counts and selects in it.
--
-- The parts, with paths from the repository's root:
--   Prelude: Boolean tests and lists over the native numbers, the integers of a search, and how
--     many values of a set lie under a bound (count_below).
--   Values: sorted lists of values (the payload of an array container) and their members.
--   Runs: include/frsr/roaring/run.hpp. A list of runs, its members (in_runs), and when it is
--     well formed: in order and neither overlapping nor adjacent (RunsFrom), and within the
--     domain (Below).
--   RunContainer: include/frsr/roaring/run_container.hpp. Its struct is the record RunContainer,
--     its member functions the definitions of the same name; a function that changes the
--     container returns the new one. Search, Ranges, Walk and Build follow contains, the range
--     updates, next_after with for_each, and from_sorted_values; Valid is the invariant.
--   Arrays: the scalar merges of two sorted arrays, of include/frsr/roaring/array_ops.hpp
--     (intersect_sorted_scalar and its three siblings), as one merge with the choice of the
--     values that it writes (Kept). Steps and Merge follow a branchless step and the loops over
--     steps, Blocks the loop over blocks of four, Sets the four functions.
--   Gallop: gallop_forward of include/frsr/roaring/array_ops.hpp, which the kernels share.
--   RunOps: the kernels of include/frsr/roaring/run_ops.hpp on two run lists, or on one and an
--     array, and append_run_exclusive of include/frsr/roaring/containers.hpp. Intersect,
--     Cardinality and Whole follow intersect_runs, intersect_runs_cardinality and
--     intersect_run_run; Union, Xor and Difference the other three set operations, Values the
--     loop of difference_run_values; Reach, Merge, Builder, Exclusive and Cut carry their lemmas.
--   ArrayRef: the array container of include/frsr/roaring/container_handle.hpp. Rank is the place
--     of a value in a sorted array, Search follows sorted_array_contains. Update follows add,
--     add_out_of_order, remove and sync_header of array_ref, with the values and the header in
--     one record; whether the payload has room is an argument. Insert and Valid carry its lemmas.
--   Words: the bits of a 64-bit word, with the standard library's popcount, countr_zero and
--     countl_zero. Bits says what the operations on words do to bits, Scan where the first and
--     the last set bit lie, Fields how two fields are joined and parted, and Select follows
--     select_in_word of include/frsr/roaring/ranked_view.hpp.
--   Bitset: the bitset container of include/frsr/roaring/container_handle.hpp (bitset_cref,
--     bitset_ref) with the header of the handle, whose count and endpoints may be stale. Update
--     follows add and remove of a value, Batch and Sorted add_sorted and remove_sorted, Walk
--     next_after, Endpoints ensure_endpoints; Member, Valid and Ends carry the members of words,
--     the invariant and the lemmas on endpoints.
--   RunRef: run_cref and run_ref of the same file, a run list with the header of the handle; its
--     loops are those of RunContainer. Update follows the updates, Cursor next_after with its
--     position.
--   Layout: include/frsr/roaring/container_layout.hpp, by the width of the key type; Fields has
--     the parts of a key.
--   Chunks: the flat chunk table of include/frsr/roaring/chunk_array.hpp. Find follows find and
--     both forms of lower_bound, on the array of keys; Entries has insert, erase, push_back and
--     the change of a slot, on the list of entries.
--   Containers: a container of any form, with the functions of
--     include/frsr/roaring/containers.hpp that ask for the form (Dispatch), and the promotion of
--     a long array to a bitset (Promote), which is promote_if_needed of
--     include/frsr/roaring/bitmap.hpp.
--   Bitmap: contains, add_impl and remove of include/frsr/roaring/bitmap.hpp. Table has the
--     invariant and the place of a chunk, Points, Add and Remove follow the three functions, Grow
--     and Shrink carry the lemmas on the table, Calls sets any sequence of calls against a set of
--     keys. Bulk is contains_bulk with its context, which it passes on as a state.
--   Frozen: the frozen image of include/frsr/roaring/serialization.hpp, with its layout in
--     include/frsr/roaring/bitmap.hpp, and frozen_size_bytes. Writer has frozen_serialize, View
--     frozen_view_from and contains of frozen_view, Restore materialize. Write says what is
--     written, Align, Blocks, Store and Index carry the lemmas on alignment, on the blocks of
--     bytes and on the index, Reads, Open and Checks those on reading and opening it, BlockTest
--     those on the comparison of a block of values, which is an argument in a build with the
--     intrinsics of x86; Written, Contains, Materialize, Safe and Truncated have the theorems.
--   Ranked: include/frsr/roaring/ranked_view.hpp, with array_lower_bound and run_position of
--     frozen_view. Upto, Arrays, Runs, Words, SelectRun, SelectWord and Payloads carry the lemmas
--     on the payloads and the rank blocks, Keys those on the keys below a key; Find and Select
--     follow the two functions on a view, Whole has them on the image of a bitmap.
--   Kinds: which form a container takes, of include/frsr/roaring/containers.hpp. Counts follows
--     run_count_from_sorted_values, Capped try_make_run_from_sorted_values_capped, Choice
--     choose_container_kind and choose_run_container_kind. The size of a low value is the
--     argument low_bytes (run_bytes for a run).
--   Examples: the theorems at small inputs.
--
-- How the code is read. The containers know of the layout only the size of the low domain, 2^8 or
-- 2^16: it is the argument `dom`, and theorems that need it ask for at most 2^16. The bitmap and
-- the layout take the width of the key type. Whether the payload of an array has room for another
-- value is an argument, since it depends on the allocator. A word is a number under 2^64; `<<` and
-- `>>` are products and quotients. A cast to the low type is `% dom`, an addition to the
-- cardinality wraps at the width of its type (cardinality_mod). A pointer into a list with its end
-- is the rest of the list. A vector that is pushed to at its end is a list with its last element
-- first (rev_onto turns it). An image is typed: its size, the header, the index, and the blocks of
-- bytes that were written, each with its extent and the payload or the counts in it (bytes of
-- padding have an extent only, and the byte order is not kept). A write that ends outside the
-- buffer fails, a later write into a block makes it unreadable, and a view reads the blocks inside
-- its bytes only. `none` is a read out of bounds, a refused image, a failed assertion or rounds
-- that ran out: a theorem with a result `some` shows that none of them happens.
--
-- Rounds. The count of runs has one round for each value, the merges of arrays one more than both
-- have values. The binary search has one round more than there are runs, the merges one more than
-- both lists have runs, for_each one for each value of the domain; the gallop's doubling has one
-- for each element. The searches of a chunk table have one round more than there are keys. The scan
-- of a word for a set bit has 64, select_in_word six, and the search over the blocks of an array
-- one more than there are blocks.
--
-- Not modelled: the vector kernels (compiler intrinsics), the raw memory behind container handles
-- with its copy on write, the growth of a chunk table's block and its sharing, the chunk tree of
-- 64-bit keys, the calls of a bitmap other than those named above (add_bulk, ranges, set
-- operations), the plain and the portable format, the walks of a frozen view and its borrowing,
-- persistence, and the adapters to other libraries. Of the builds, the one with inline buffers and
-- without AVX2, BMI2 and psi::vm is read; of the frozen view's search for a position in a block,
-- the form for a processor other than x86.
pub mod Prelude
pub mod Values
pub mod Runs
pub mod RunContainer
pub mod Gallop
pub mod RunRef
pub mod RunOps
pub mod Bitset
pub mod Words
pub mod Layout
pub mod Chunks
pub mod Containers
pub mod Frozen
pub mod Ranked
pub mod Bitmap
pub mod ArrayRef
pub mod Kinds
pub mod Arrays
pub mod Examples
