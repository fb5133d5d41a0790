-- ===== src/Frozen.antt =====
-- The frozen image of a bitmap: its layout in include/frsr/roaring/bitmap.hpp, and `frozen_size_bytes` of
-- include/frsr/roaring/serialization.hpp; the writer and the opening are in Writer and View. Memory is typed here: an image is its
-- size, its header, its index, and the blocks of bytes that were written, with their extent and what is held there. A later
-- write into a block makes it unreadable. A failed assertion gives `none`, as does a write outside the buffer.
pub mod View
pub mod Restore
pub mod Writer
pub mod Align
pub mod Write
pub mod Blocks
pub mod Store
pub mod Index
pub mod Reads
pub mod Open
pub mod Written
pub mod BlockTest
pub mod Contains
pub mod Materialize
pub mod Checks
pub mod Safe
pub mod Truncated
use Prim.Native.Nat.{bit_and}
use roaring.Prelude.{
  ℕ, zero, suc, ◌+◌, ◌-◌, ◌*◌, ◌/◌, ◌%◌, ◌^◌, max, Bool, true, false, not, ◌&&◌, ◌||◌, List, [],
  ◌∷◌, Option, none, some, ◌>>=◌, leb, ltb, ◌==◌, if◌then◌else◌, length,
}
use roaring.Words.{popcount, complement}
use roaring.Layout.{low_bits, low_domain_size, chunk_mod}
use roaring.Runs.{Run, run_size}
use roaring.Containers.{Container, array, run, bitset, container_size}

-- `sizeof( low_type )`
abbrev pub low_bytes : ℕ → ℕ
low_bytes key_bits = if leb (low_bits key_bits) 8 then 1 else 2

abbrev pub word_count : ℕ → ℕ
word_count key_bits = low_domain_size key_bits / 64

-- `sizeof( frozen_header )` and `sizeof( frozen_chunk_index )`.
abbrev pub header_bytes : ℕ
header_bytes = 24

abbrev pub index_entry_bytes : ℕ
index_entry_bytes = 32

abbrev pub frozen_serialization_magic : ℕ
frozen_serialization_magic = 0x31464252

abbrev pub frozen_format_version : ℕ
frozen_format_version = 1

abbrev pub frozen_ranked_format_version : ℕ
frozen_ranked_format_version = 2

pub record FrozenHeader : Type 0 where
  pub magic : ℕ
  pub key_bits : ℕ
  pub version : ℕ
  pub chunk_count : ℕ
  pub value_count : ℕ

pub record FrozenChunkIndex : Type 0 where
  pub chunk : ℕ
  pub payload_offset : ℕ
  pub payload_bytes : ℕ
  pub payload_count : ℕ
  pub cardinality : ℕ
  pub container_kind : ℕ
  pub base : ℕ

-- `frozen_container_kind`
abbrev pub array_kind : ℕ
array_kind = 1

abbrev pub run_kind : ℕ
run_kind = 2

abbrev pub bitset_kind : ℕ
bitset_kind = 3

-- What stands in a block of bytes: a payload of one of the three forms, a rank block, or what is left of
-- one of them after a later write into it.
pub data Stored : Type 0 where
  lows : List ℕ → Stored
  run_list : List Run → Stored
  word_list : List ℕ → Stored
  counts : List ℕ → Stored
  overwritten : Stored

-- The bytes that were written at once: padding from `start` to `at`, and what is held up to `end`.
pub record Block : Type 0 where
  pub start : ℕ
  pub at : ℕ
  pub end : ℕ
  pub held : Stored

pub record Image : Type 0 where
  pub size : ℕ
  pub header : FrozenHeader
  pub index : List FrozenChunkIndex
  pub stores : List Block

-- In 64 bits.
unfoldable pub align_up : ℕ → ℕ → ℕ
align_up offset alignment = bit_and (offset + alignment - 1) (complement (alignment - 1))

abbrev pub kind_of : Container → ℕ
kind_of (array c) = array_kind
kind_of (run c) = run_kind
kind_of (bitset c) = bitset_kind

-- The alignment of a payload, by the code of its kind; 0 of no kind.
abbrev pub frozen_payload_alignment : ℕ → ℕ → ℕ
frozen_payload_alignment key_bits kind =
    if kind == array_kind
    then low_bytes key_bits
    else if kind == run_kind
    then low_bytes key_bits
    else if kind == bitset_kind
    then 8
    else 0

abbrev pub frozen_expected_payload_bytes : ℕ → ℕ → ℕ → ℕ
frozen_expected_payload_bytes key_bits kind payload_count =
    if kind == array_kind
    then payload_count * low_bytes key_bits
    else if kind == run_kind
    then payload_count * (2 * low_bytes key_bits)
    else if kind == bitset_kind
    then word_count key_bits * 8
    else 0

abbrev pub frozen_rank_bytes : ℕ → ℕ → ℕ → ℕ
frozen_rank_bytes key_bits kind payload_count =
    if kind == array_kind
    then 0
    else if kind == run_kind
    then payload_count * 2
    else if kind == bitset_kind
    then word_count key_bits * 2
    else 0

unfoldable pub frozen_ranked_counts_match : ℕ → FrozenChunkIndex → Bool
frozen_ranked_counts_match key_bits entry =
    if entry.cardinality == 0 || ltb (low_domain_size key_bits) entry.cardinality
    then false
    else if entry.container_kind == array_kind
    then entry.payload_count == entry.cardinality
    else if entry.container_kind == run_kind
    then not (entry.payload_count == 0) && leb entry.payload_count entry.cardinality
    else if entry.container_kind == bitset_kind
    then entry.payload_count == word_count key_bits
    else false

-- The alignment of a container's payload, and its bytes.
abbrev pub frozen_payload_layout : ℕ → Container → ℕ × ℕ
frozen_payload_layout key_bits (array c) =
    (low_bytes key_bits, length c.values * low_bytes key_bits)
frozen_payload_layout key_bits (run c) =
    (low_bytes key_bits, length c.runs * (2 * low_bytes key_bits))
frozen_payload_layout key_bits (bitset c) = (8, word_count key_bits * 8)

-- `payload_count` of the index entry that the writer makes.
abbrev pub payload_count_of : ℕ → Container → ℕ
payload_count_of key_bits (array c) = length c.values
payload_count_of key_bits (run c) = length c.runs
payload_count_of key_bits (bitset c) = word_count key_bits

-- `frozen_rank_bytes` of a container.
abbrev pub rank_bytes_of : ℕ → Container → ℕ
rank_bytes_of key_bits (array c) = 0
rank_bytes_of key_bits (run c) = frozen_rank_bytes key_bits run_kind (length c.runs)
rank_bytes_of key_bits (bitset c) = frozen_rank_bytes key_bits bitset_kind (word_count key_bits)

-- The rank bytes of an image that has them.
abbrev pub extra_bytes : Bool → ℕ → ℕ
extra_bytes ranked bytes = if ranked then bytes else 0

-- The loop over the containers, from `offset` on.
unfoldable pub size_from : ℕ → Bool → ℕ → List (ℕ × Container) → ℕ
size_from key_bits ranked offset [] = offset
size_from key_bits ranked offset ((_, slot) ∷ rest) =
    let (alignment, payload_size) = frozen_payload_layout key_bits slot in
    size_from key_bits ranked
      (align_up offset alignment + payload_size + extra_bytes ranked (rank_bytes_of key_bits slot))
      rest

unfoldable pub frozen_size_bytes : ℕ → Bool → List (ℕ × Container) → ℕ
unfolding size_from
frozen_size_bytes key_bits ranked chunks =
    size_from key_bits ranked (header_bytes + length chunks * index_entry_bytes) chunks
