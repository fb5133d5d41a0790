-- ===== src/Examples/Bitmap.antt =====
-- The theorems on keys, chunk tables and bitmaps applied to small inputs.
use roaring.Prelude.{
  false, subst, get_elem?, ℕ, ◌<◌, ◌≡◌, inl, inr, refl, Bool, true, not, ◌&&◌, ◌||◌, ◌==◌, List, [],
  ◌∷◌, some, arith, max, min, length,
}
use roaring.Values.{length-count}
use roaring.ArrayRef.Rank.{rank}
use roaring.Layout.{low_domain_size, chunk_key, low_key, compose}
use roaring.Layout.Fields.{compose_of_parts}
use roaring.Chunks.{find, lower_bound_from}
use roaring.Chunks.Find.{find_lem, lower_bound_from_lem}
use roaring.Containers.{array}
use roaring.Bitmap.{Bitmap, add_impl, remove}
use roaring.Bitmap.Table.{in_bitmap, IsValid}
use roaring.Bitmap.Add.{bitmap_add_lem}
use roaring.Bitmap.Remove.{bitmap_remove_lem}
use roaring.Bitmap.Bulk.{BulkContext, contains_bulk}
use roaring.Bitmap.Bulk.Answers.{IsCoherent, contains_bulk_lem}
use roaring.Bitmap.Calls.{
  Call, adding, removing, asking, set_after_all, answers, perform_all, perform_all_lem,
}

compose_of_parts_example :
    (low_key 32 70000 < low_domain_size 32)
    × (compose 32 (chunk_key 32 70000) (low_key 32 70000) ≡ 70000)
compose_of_parts_example = compose_of_parts 32 (inr (inr (inl refl))) 70000 (omega arith)

abbrev chunk_keys : List ℕ
chunk_keys = 1 ∷ 4 ∷ 9 ∷ 12 ∷ 13 ∷ 20 ∷ []

find_lem_example : find 2 chunk_keys 9 ≡ some 2
find_lem_example = find_lem chunk_keys 9 (omega arith) 2

lower_bound_from_lem_example :
    lower_bound_from chunk_keys 13 1 ≡ some (max (min 1 (length chunk_keys)) (rank chunk_keys 13))
lower_bound_from_lem_example = lower_bound_from_lem chunk_keys 13 (omega arith) 1

abbrev pub low_values : List ℕ
low_values = 5 ∷ 9 ∷ []

abbrev pub one_chunk : Bitmap
one_chunk = record {
  chunks =
      (3, array (record { values = low_values; cardinality = 2; min_value = 5; max_value = 9 }))
      ∷ [];
  size = 2;
}

pub one_chunk-IsValid : IsValid 32 one_chunk
one_chunk-IsValid =
    let n = length-count 65536 0 low_values (omega arith) (omega arith) in
    record {
      ordered = omega arith;
      held = (
        (
          record {
            ordered = omega arith;
            within = omega arith;
            counted = refl;
            ends = (refl, refl);
          },
          omega (arith, n),
        ),
        tt,
      );
      counted = omega (arith, n);
    }

bitmap_add_lem_example :
    (r : Bitmap × Bool) × (add_impl 32 (λ c. true) one_chunk 70000 ≡ some r)
    × IsValid 32 r.0
    × ((v : ℕ) → in_bitmap 32 r.0 v ≡ (v == 70000 || in_bitmap 32 one_chunk v))
    × (r.1 ≡ not (in_bitmap 32 one_chunk 70000))
bitmap_add_lem_example =
    bitmap_add_lem 32 (λ c. true) one_chunk 70000 (inr (inr refl)) one_chunk-IsValid (omega arith)

bitmap_remove_lem_example :
    (r : Bitmap × Bool) × (remove 32 one_chunk 196613 ≡ some r)
    × IsValid 32 r.0
    × ((v : ℕ) → in_bitmap 32 r.0 v ≡ (in_bitmap 32 one_chunk v && not (v == 196613)))
    × (r.1 ≡ in_bitmap 32 one_chunk 196613)
bitmap_remove_lem_example =
    bitmap_remove_lem 32 one_chunk 196613 (inr (inr refl)) one_chunk-IsValid (omega arith)

abbrev few_calls : List Call
few_calls = adding 70000 ∷ adding 5 ∷ asking 70000 ∷ removing 70000 ∷ asking 70000 ∷ removing 5 ∷ []

perform_all_lem_example :
    (r : Bitmap × List Bool) × (perform_all 32 (λ c. true) few_calls one_chunk ≡ some r)
    × IsValid 32 r.0
    × (in_bitmap 32 r.0 ≡ set_after_all few_calls (in_bitmap 32 one_chunk))
    × (r.1 ≡ answers few_calls (in_bitmap 32 one_chunk))
perform_all_lem_example =
    perform_all_lem 32 (λ c. true) (inr (inr refl)) few_calls one_chunk one_chunk-IsValid
      (omega arith)

abbrev third_chunk : BulkContext
third_chunk = record { chunk = 3; at = 0; slot = some 0; generation = 7; payload_private = false }

third_chunk-IsCoherent : IsCoherent one_chunk 7 third_chunk
third_chunk-IsCoherent i same current =
    let here : 0 ≡ i = ground (arith, same) in
    (here, subst (λ j. get_elem? {A = ℕ} (3 ∷ []) j ≡ some 3) here refl)

contains_bulk_lem_example :
    (r : BulkContext × Bool) × (contains_bulk 32 one_chunk 7 third_chunk 70000 ≡ some r)
    × (r.1 ≡ in_bitmap 32 one_chunk 70000)
    × IsCoherent one_chunk 7 r.0
contains_bulk_lem_example =
    contains_bulk_lem 32 one_chunk 7 third_chunk 70000 (inr (inr refl)) one_chunk-IsValid
      third_chunk-IsCoherent (omega arith)
