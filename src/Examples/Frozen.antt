-- ===== src/Examples/Frozen.antt =====
-- The theorems on frozen images, on the ranked view and on the selection in a word, applied to small inputs.
use roaring.Prelude.{
  ℕ, ◌^◌, ◌<◌, ◌≡◌, inr, refl, true, [], ◌∷◌, none, some, ◌>>=◌, arith, count_below,
}
use roaring.Values.{in_values, length-count}
use roaring.Words.Bits.{popcount_lem}
use roaring.Words.Select.{select_in_word, Selects, select_in_word_lem}
use roaring.Containers.{container_size}
use roaring.Bitmap.{Bitmap}
use roaring.Bitmap.Table.{in_bitmap, IsValid}
use roaring.Frozen.{Image, lows, align_up, size_from, frozen_size_bytes, frozen_ranked_counts_match}
use roaring.Frozen.Writer.{
  stored_bytes, is_kept, put, copy_payload, rank_block, write_chunks, frozen_serialize,
}
use roaring.Frozen.View.{
  BlockTest, blocks_inside, FrozenView, entry_fault, check_entries, header_fault, frozen_view_from,
  contains,
}
use roaring.Frozen.Restore.{materialize}
use roaring.Frozen.Written.{IsWritable, Opens, written, frozen_serialize_lem}
use roaring.Frozen.Contains.{frozen_contains_lem}
use roaring.Frozen.Materialize.{materialize_lem}
use roaring.Frozen.Safe.{IsOpened, frozen_view_from_lem}
use roaring.Frozen.Truncated.{truncated_lem}
use roaring.Ranked.{find, select}
use roaring.Ranked.Upto.{Chosen}
use roaring.Ranked.Whole.{ranked_of, ranked_find_lem, ranked_select_lem}
use roaring.Examples.Bitmap.{low_values, one_chunk, one_chunk-IsValid}

select_in_word_lem_example : Selects 64 11 2 (select_in_word 11 2)
select_in_word_lem_example = select_in_word_lem 11 2 (omega (arith, popcount_lem 64 11 refl))

one_chunk-IsWritable : IsWritable 32 true one_chunk
one_chunk-IsWritable =
    let n = length-count 65536 0 low_values (omega arith) (omega arith) in
    record { fresh = (tt, tt); narrow = omega arith; short = omega arith; few = omega (arith, n) }

abbrev one_image : Image
one_image = record {
  size = 60;
  header = record {
    magic = 0x31464252;
    key_bits = 32;
    version = 2;
    chunk_count = 1;
    value_count = 2;
  };
  index =
      record {
        chunk = 3;
        payload_offset = 56;
        payload_bytes = 4;
        payload_count = 2;
        cardinality = 2;
        container_kind = 1;
        base = 0;
      }
      ∷ [];
  stores = record { start = 56; at = 56; end = 60; held = lows low_values } ∷ [];
}

abbrev one_view : FrozenView
one_view = record {
  header = one_image.header;
  index = one_image.index;
  stores = one_image.stores;
  bytes = 60;
}

one_image-written : frozen_serialize 32 true one_chunk.chunks 2 ≡ some (one_image, 60)
unfolding frozen_serialize write_chunks frozen_size_bytes size_from align_up rank_block copy_payload
    put stored_bytes is_kept container_size
one_image-written = refl

one_image-opened : frozen_view_from 32 one_image ≡ some one_view
unfolding frozen_view_from header_fault check_entries entry_fault blocks_inside
    frozen_ranked_counts_match
one_image-opened = refl

frozen_serialize_lem_example :
    (r : Image × ℕ) × (frozen_serialize 32 true one_chunk.chunks one_chunk.size ≡ some r)
    × Opens 32 true one_chunk r
frozen_serialize_lem_example =
    frozen_serialize_lem 32 true one_chunk (inr (inr refl)) one_chunk-IsValid one_chunk-IsWritable

frozen_view_from_lem_example : IsOpened 32 one_image one_view
frozen_view_from_lem_example = frozen_view_from_lem 32 one_image one_view one_image-opened

truncated_lem_example : frozen_view_from 32 (record one_image { size = 59 }) ≡ none
truncated_lem_example =
    truncated_lem 32 true one_chunk one_image 60 59 (inr (inr refl)) one_chunk-IsValid
      one_chunk-IsWritable one_image-written (omega arith)

-- What the intrinsics are documented to answer.
abbrev block_test : BlockTest
block_test = some (λ block value. in_values block value)

frozen_contains_lem_example :
    (written 32 true one_chunk >>= λ v. contains block_test 32 v 196613)
    ≡ some (in_bitmap 32 one_chunk 196613)
frozen_contains_lem_example =
    frozen_contains_lem block_test 32 true one_chunk 196613
      (omega arith, λ block value size low small. refl) (inr (inr refl)) one_chunk-IsValid
      one_chunk-IsWritable (omega arith)

materialize_lem_example :
    (b' : Bitmap) × ((written 32 true one_chunk >>= materialize 32) ≡ some b')
    × IsValid 32 b'
    × (b'.size ≡ one_chunk.size)
    × (in_bitmap 32 b' ≡ in_bitmap 32 one_chunk)
materialize_lem_example =
    materialize_lem 32 true one_chunk (inr (inr refl)) one_chunk-IsValid one_chunk-IsWritable

ranked_find_lem_example :
    (ranked_of 32 one_chunk >>= λ r. find r 196614)
    ≡ some (count_below 196614 (in_bitmap 32 one_chunk), in_bitmap 32 one_chunk 196614)
ranked_find_lem_example =
    ranked_find_lem 32 refl one_chunk one_chunk-IsValid one_chunk-IsWritable 196614 (omega arith)

ranked_select_lem_example :
    (x : ℕ) × ((ranked_of 32 one_chunk >>= λ r. select r 1) ≡ some x)
    × (x < 2 ^ 32)
    × Chosen (in_bitmap 32 one_chunk) 1 x
ranked_select_lem_example =
    ranked_select_lem 32 refl one_chunk one_chunk-IsValid one_chunk-IsWritable 1 (omega arith)
