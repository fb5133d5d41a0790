-- ===== src/Examples/Arrays.antt =====
-- The theorems on sorted arrays applied to small inputs.
use roaring.Prelude.{ℕ, ◌≡◌, ◌||◌, List, [], ◌∷◌, some, arith}
use roaring.Values.{in_values, Ascending}
use roaring.Arrays.{union_sorted_scalar}
use roaring.Arrays.Sets.{union_sorted_scalar_lem}

abbrev fives : List ℕ
fives = 5 ∷ 10 ∷ 15 ∷ 20 ∷ 25 ∷ 30 ∷ []

abbrev twenties : List ℕ
twenties = 1 ∷ 5 ∷ 20 ∷ 21 ∷ 22 ∷ 30 ∷ 40 ∷ []

union_sorted_scalar_lem_example :
    (out : List ℕ) × (union_sorted_scalar fives twenties ≡ some out)
    × Ascending 0 out
    × ((v : ℕ) → in_values out v ≡ (in_values fives v || in_values twenties v))
union_sorted_scalar_lem_example =
    union_sorted_scalar_lem 0 fives twenties (omega arith) (omega arith)
