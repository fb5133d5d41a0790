-- ===== src/Frozen/Writer.antt =====
-- `frozen_serialize` of include/frsr/roaring/serialization.hpp: a write at a time into one buffer of bytes.
use roaring.Prelude.{
  ℕ, ◌+◌, ◌*◌, ◌%◌, ◌^◌, Bool, true, false, not, ◌&&◌, ◌||◌, List, [], ◌∷◌, Option, none, some,
  ◌>>=◌, leb, ltb, ◌==◌, if◌then◌else◌, length,
}
use roaring.Words.{popcount}
use roaring.Runs.{Run, run_size}
use roaring.Containers.{Container, array, run, bitset, container_size}
use roaring.Frozen.{
  Block, FrozenChunkIndex, Image, Stored, align_up, counts, extra_bytes, frozen_format_version,
  frozen_payload_layout, frozen_ranked_format_version, frozen_serialization_magic,
  frozen_size_bytes, header_bytes, index_entry_bytes, kind_of, low_bytes, lows, overwritten,
  payload_count_of, rank_bytes_of, run_list, word_list,
}

-- The rank block of runs: of each, how many values the earlier ones hold.
unfoldable pub run_ranks : ℕ → List Run → List ℕ
run_ranks before [] = []
run_ranks before (r ∷ rest) = (before % 2 ^ 16) ∷ run_ranks ((before + run_size r) % 2 ^ 32) rest

unfoldable pub word_ranks : ℕ → List ℕ → List ℕ
word_ranks before [] = []
word_ranks before (word ∷ rest) =
    (before % 2 ^ 16) ∷ word_ranks ((before + popcount word) % 2 ^ 32) rest

abbrev pub payload_of : Container → Stored
payload_of (array c) = lows c.values
payload_of (run c) = run_list c.runs
payload_of (bitset c) = word_list c.words

-- The bytes that the elements take.
unfoldable pub stored_bytes : ℕ → Stored → ℕ
stored_bytes key_bits (lows values) = length values * low_bytes key_bits
stored_bytes key_bits (run_list runs) = length runs * (2 * low_bytes key_bits)
stored_bytes key_bits (word_list words) = length words * 8
stored_bytes key_bits (counts ranks) = length ranks * 2
stored_bytes key_bits overwritten = 0

-- Whether none of the later writes gets into the bytes from `at` to `end`.
unfoldable pub is_kept : ℕ → ℕ → List Block → Bool
is_kept at end [] = true
is_kept at end (b ∷ later) = not (ltb b.start end && ltb at b.end) && is_kept at end later

-- A write before the later ones, of padding from `start` to `at` and `bytes` behind it, into a buffer of
-- `size` bytes; `none` if it ends outside.
unfoldable pub put : ℕ → ℕ → ℕ → ℕ → Stored → List Block → Option (List Block)
unfolding is_kept
put size start at bytes stored later =
    if ltb size (at + bytes)
    then none
    else some (
        record {
          start = start;
          at = at;
          end = at + bytes;
          held = (if is_kept at (at + bytes) later then stored else overwritten);
        }
        ∷ later)

-- The padding and the copy of a payload; `none` if the bytes to copy are not those of its elements.
unfoldable pub copy_payload : ℕ → ℕ → ℕ → ℕ → ℕ → Stored → List Block → Option (List Block)
unfolding put stored_bytes
copy_payload key_bits size start at payload_size stored later =
    if stored_bytes key_bits stored == payload_size
    then put size start at payload_size stored later
    else none

-- The loop over the counts of a rank block, which is written behind a payload.
unfoldable pub write_counts : ℕ → ℕ → List ℕ → List Block → Option (List Block)
unfolding put
write_counts size offset ranks later =
    put size offset offset (2 * length ranks) (counts ranks) later

unfoldable pub rank_block : Bool → ℕ → ℕ → Container → List Block → Option (List Block)
unfolding run_ranks word_ranks write_counts
rank_block false size offset c later = some later
rank_block true size offset (array c) later = some later
rank_block true size offset (run c) later = write_counts size offset (run_ranks 0 c.runs) later
rank_block true size offset (bitset c) later = write_counts size offset (word_ranks 0 c.words) later

-- `cardinality` of an index entry.
abbrev pub cardinality_of : Container → Option ℕ
cardinality_of (array c) = some (length c.values)
cardinality_of c = container_size c

-- `assert( container.cardinality() != 0 )`
abbrev pub assert_held : Container → Option Bool
assert_held c = do n ← container_size c; if n == 0 then none else some true

abbrev pub index_entry : ℕ → Bool → ℕ → Container → ℕ → ℕ → ℕ → FrozenChunkIndex
index_entry key_bits ranked key c offset cardinality base = record {
  chunk = key;
  payload_offset = offset % 2 ^ 32;
  payload_bytes = (frozen_payload_layout key_bits c).1 % 2 ^ 32;
  payload_count = payload_count_of key_bits c;
  cardinality = cardinality;
  container_kind = kind_of c;
  base = (if ranked then base else 0);
}

-- The loop of `frozen_serialize` over a buffer of `size` bytes: the index, the blocks in the order in
-- which they are written, and the end of the last one. The later rounds come first here, since a block
-- is kept only if none of them writes into it.
unfoldable pub write_chunks :
    ℕ → Bool → ℕ → ℕ → ℕ → List (ℕ × Container) → Option (List FrozenChunkIndex × List Block × ℕ)
unfolding copy_payload rank_block
write_chunks key_bits ranked size offset base [] = some ([], [], offset)
write_chunks key_bits ranked size offset base ((key, c) ∷ rest) = do
  _ ← assert_held c
  cardinality ← cardinality_of c
  let (alignment, payload_size) = frozen_payload_layout key_bits c
  let at = align_up offset alignment
  let after = at + payload_size
  (index, later, end) ←
      write_chunks key_bits ranked size (after + extra_bytes ranked (rank_bytes_of key_bits c))
        ((base + cardinality) % 2 ^ 32) rest
  behind ← rank_block ranked size after c later
  stores ← copy_payload key_bits size offset at payload_size (payload_of c) behind
  some (index_entry key_bits ranked key c at cardinality base ∷ index, stores, end)

-- The image in a buffer of `frozen_size_bytes`, and the number that the writer returns.
unfoldable pub frozen_serialize : ℕ → Bool → List (ℕ × Container) → ℕ → Option (Image × ℕ)
unfolding write_chunks frozen_size_bytes
frozen_serialize key_bits ranked chunks size =
    if ranked && (ltb 32 key_bits || leb (2 ^ 32) size) then none else (do
      (index, stores, end) ←
          write_chunks key_bits ranked (frozen_size_bytes key_bits ranked chunks)
            (header_bytes + length chunks * index_entry_bytes) 0 chunks
      some (
        record {
          size = frozen_size_bytes key_bits ranked chunks;
          header = record {
            magic = frozen_serialization_magic;
            key_bits = key_bits;
            version = (if ranked then frozen_ranked_format_version else frozen_format_version);
            chunk_count = length chunks % 2 ^ 32;
            value_count = size;
          };
          index = index;
          stores = stores;
        },
        end,
      ))
