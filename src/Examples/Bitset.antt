-- ===== src/Examples/Bitset.antt =====
-- The theorems on bitset containers applied to small inputs.
use roaring.Prelude.{
  ℕ, ◌+◌, ◌≡◌, inl, refl, true, false, not, ◌&&◌, ◌||◌, [], ◌∷◌, some, count_below, arith,
}
use roaring.Values.{in_values}
use roaring.RunContainer.Walk.{IsNext}
use roaring.Bitset.{BitsetContainer, add_sorted, remove_sorted, next_after, ensure_endpoints}
use roaring.Bitset.Member.{in_words}
use roaring.Bitset.Valid.{IsValid, AreEnds}
use roaring.Bitset.Sorted.{add_sorted_lem, remove_sorted_lem}
use roaring.Bitset.Walk.{bitset_next_after_lem}
use roaring.Bitset.Endpoints.{ensure_endpoints_lem}

abbrev small_bitset : BitsetContainer
small_bitset = record {
  words = 1032 ∷ [];
  cardinality = 2;
  cardinality_stale = false;
  endpoints_stale = true;
  min_value = 0;
  max_value = 0;
}

small_bitset-IsValid : IsValid 64 small_bitset
small_bitset-IsValid = record {
  sized = refl;
  words_fit = (omega arith, tt);
  counted = refl;
  ends = tt;
}

add_sorted_lem_example :
    (r : BitsetContainer × ℕ) × (add_sorted small_bitset (10 ∷ 20 ∷ []) ≡ some r)
    × IsValid 64 r.0
    × ((v : ℕ)
        → in_words r.0.words v ≡ (in_values (10 ∷ 20 ∷ []) v || in_words small_bitset.words v))
    × (count_below 64 (in_words r.0.words) ≡ count_below 64 (in_words small_bitset.words) + r.1)
add_sorted_lem_example =
    add_sorted_lem 64 (omega arith) small_bitset small_bitset-IsValid 10 (20 ∷ []) (omega arith)
      (omega arith) (inl refl)

remove_sorted_lem_example :
    (r : BitsetContainer × ℕ) × (remove_sorted small_bitset (10 ∷ 20 ∷ []) ≡ some r)
    × IsValid 64 r.0
    × ((v : ℕ)
        → in_words r.0.words v
          ≡ (in_words small_bitset.words v && not (in_values (10 ∷ 20 ∷ []) v)))
    × (count_below 64 (in_words r.0.words) + r.1 ≡ count_below 64 (in_words small_bitset.words))
remove_sorted_lem_example =
    remove_sorted_lem 64 (omega arith) small_bitset small_bitset-IsValid 10 (20 ∷ []) (omega arith)
      (omega arith)

bitset_next_after_lem_example : IsNext (in_words small_bitset.words) 3 (next_after small_bitset 3)
bitset_next_after_lem_example =
    bitset_next_after_lem 64 small_bitset 3 (omega arith) small_bitset-IsValid (omega arith)

ensure_endpoints_lem_example :
    (r : BitsetContainer) × (ensure_endpoints 64 small_bitset ≡ some r)
    × IsValid 64 r
    × (r.words ≡ small_bitset.words)
    × AreEnds false (in_words small_bitset.words) r.min_value r.max_value
ensure_endpoints_lem_example =
    ensure_endpoints_lem 64 (omega arith) small_bitset small_bitset-IsValid
