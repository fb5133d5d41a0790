-- ===== src/Examples/ArrayRef.antt =====
-- The theorems on array containers applied to small inputs.
use roaring.Prelude.{ℕ, ◌≡◌, refl, Bool, true, not, ◌&&◌, ◌||◌, ◌==◌, List, [], ◌∷◌, some, arith}
use roaring.Values.{in_values}
use roaring.ArrayRef.{sorted_array_contains}
use roaring.ArrayRef.Update.{ArrayContainer, add, remove}
use roaring.ArrayRef.Update.Valid.{IsValid, add-IsValid, remove-IsValid}
use roaring.ArrayRef.Search.{sorted_array_contains_lem}

abbrev odd_values : List ℕ
odd_values = 1 ∷ 3 ∷ 5 ∷ 7 ∷ 9 ∷ 11 ∷ 13 ∷ 15 ∷ 17 ∷ 19 ∷ 21 ∷ 23 ∷ 25 ∷ 27 ∷ 29 ∷ 31 ∷ 33 ∷ 35 ∷ []

sorted_array_contains_lem_example :
    sorted_array_contains odd_values 33 ≡ some (in_values odd_values 33)
sorted_array_contains_lem_example = sorted_array_contains_lem 0 33 odd_values (omega arith)

abbrev small_array : ArrayContainer
small_array = record { values = 2 ∷ 5 ∷ 9 ∷ []; cardinality = 3; min_value = 2; max_value = 9 }

small_array-IsValid : IsValid 256 small_array
small_array-IsValid = record {
  ordered = omega arith;
  within = omega arith;
  counted = refl;
  ends = (refl, refl);
}

add-IsValid_example :
    (r : ArrayContainer × Bool) × (add small_array true 6 ≡ some r)
    × IsValid 256 r.0
    × ((v : ℕ) → in_values r.0.values v ≡ (v == 6 || in_values small_array.values v))
    × (r.1 ≡ not (in_values small_array.values 6))
add-IsValid_example = add-IsValid 256 small_array small_array-IsValid 6 (omega arith) true

remove-IsValid_example :
    (r : ArrayContainer × Bool) × (remove small_array 5 ≡ some r)
    × IsValid 256 r.0
    × ((v : ℕ) → in_values r.0.values v ≡ (in_values small_array.values v && not (v == 5)))
    × (r.1 ≡ in_values small_array.values 5)
remove-IsValid_example = remove-IsValid 256 small_array small_array-IsValid 5 (omega arith)
