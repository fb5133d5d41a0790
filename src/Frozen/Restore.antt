-- ===== src/Frozen/Restore.antt =====
-- `materialize` of a frozen view (include/frsr/roaring/serialization.hpp): a bitmap of its entries.
use roaring.Prelude.{ℕ, ◌%◌, true, false, List, [], ◌∷◌, Option, some, ◌>>=◌, ◌==◌, if◌then◌else◌}
use roaring.Layout.{chunk_mod}
use roaring.Runs.{Run}
use roaring.ArrayRef.Update.{ArrayContainer}
use roaring.ArrayRef.Update
use roaring.RunRef.{RunHandle, last_end}
use roaring.Bitset.{BitsetContainer}
use roaring.Containers.{Container, array, run, bitset, empty_container}
use roaring.Bitmap.{Bitmap}
use roaring.Frozen.{FrozenChunkIndex, array_kind, run_kind, bitset_kind}
use roaring.Frozen.View.{FrozenView, lows_at, runs_at, words_at}

-- `make_array_from_sorted`
unfoldable pub make_array_from_sorted : List ℕ → ArrayContainer
make_array_from_sorted values =
    Update.sync_header (record { values = []; cardinality = 0; min_value = 0; max_value = 0 })
      values

-- A run handle with the runs and the cardinality of an entry.
abbrev pub run_from : List Run → ℕ → RunHandle
run_from [] cardinality = record {
  runs = [];
  cardinality = cardinality;
  min_value = 0;
  max_value = 0;
}
run_from (front ∷ rest) cardinality = record {
  runs = front ∷ rest;
  cardinality = cardinality;
  min_value = front.begin;
  max_value = last_end front rest;
}

-- A bitset handle with the words and the cardinality of an entry; its endpoints are stale.
abbrev pub bitset_from : List ℕ → ℕ → BitsetContainer
bitset_from words cardinality = record {
  words = words;
  cardinality = cardinality;
  cardinality_stale = false;
  endpoints_stale = true;
  min_value = 0;
  max_value = 0;
}

unfoldable pub materialize_entry : FrozenView → FrozenChunkIndex → Option Container
unfolding lows_at runs_at words_at make_array_from_sorted
materialize_entry v entry =
    if entry.container_kind == array_kind
    then (do values ← lows_at v entry; some (array (make_array_from_sorted values)))
    else if entry.container_kind == run_kind
    then (do runs ← runs_at v entry; some (run (run_from runs entry.cardinality)))
    else if entry.container_kind == bitset_kind
    then (do words ← words_at v entry; some (bitset (bitset_from words entry.cardinality)))
    else some empty_container

unfoldable pub materialize_entries :
    ℕ → FrozenView → List FrozenChunkIndex → Option (List (ℕ × Container))
unfolding materialize_entry
materialize_entries key_bits v [] = some []
materialize_entries key_bits v (entry ∷ rest) = do
  container ← materialize_entry v entry
  chunks ← materialize_entries key_bits v rest
  some ((entry.chunk % chunk_mod key_bits, container) ∷ chunks)

unfoldable pub materialize : ℕ → FrozenView → Option Bitmap
unfolding materialize_entries
materialize key_bits v =
    if v.header.chunk_count == 0 then some (record { chunks = []; size = 0 }) else (do
      chunks ← materialize_entries key_bits v v.index
      some (record { chunks = chunks; size = v.header.value_count }))
