-- ===== src/Examples.antt =====
-- The theorems applied to small inputs.
pub mod Bitset
pub mod Bitmap
pub mod Arrays
pub mod ArrayRef
pub mod Kinds
pub mod Frozen
use roaring.Prelude.{
  ℕ, zero, suc, ◌≡◌, refl, true, false, not, ◌&&◌, ◌||◌, xor, List, [], ◌∷◌, some, arith, length,
  count_below,
}
use roaring.Values.{in_values}
use roaring.Runs.{Run, in_runs, RunsFrom, Below}
use roaring.RunContainer.{
  RunContainer, contains, add_closed_range, remove_closed_range, add, remove,
}
use roaring.RunContainer.Valid.{IsValid}
use roaring.RunContainer.Search.{contains_lem}
use roaring.RunContainer.Ranges.{
  between, add_closed_range_lem, remove_closed_range_lem, add_lem, remove_lem,
}
use roaring.RunContainer.Walk.{
  IsNext, next_after, next_after-IsNext, for_each, Visits, for_each_lem,
}
use roaring.RunContainer.Build.{from_sorted_values, from_sorted_values_lem}
use roaring.Gallop.{below, IsSplit, gallop_forward, gallop_forward_lem}
use roaring.RunOps.{RunIntersection, intersect_run_run, intersect_runs, intersect_runs_cardinality}
use roaring.RunOps.Intersect.{intersect_runs_lem}
use roaring.RunOps.Whole.{intersect_run_run_lem}
use roaring.RunOps.Cardinality.{intersect_runs_cardinality_lem}
use roaring.RunOps.Union.{union_run_run, union_run_run_lem, union_run_array, union_run_array_lem}
use roaring.RunOps.Xor.{xor_runs, xor_runs_lem, xor_values_runs, xor_values_runs_lem}
use roaring.RunOps.Values.{difference_run_values, difference_run_values_lem}
use roaring.RunOps.Difference.{difference_runs, difference_runs_lem}

abbrev dom : ℕ
dom = 65536

abbrev run : ℕ → ℕ → Run
run b e = record { begin = b; end = e }

abbrev three : List Run
three = run 2 4 ∷ run 7 7 ∷ run 10 20 ∷ []

abbrev wide : List Run
wide = run 0 3 ∷ run 7 12 ∷ run 19 30 ∷ []

abbrev sample : RunContainer
sample = record { runs = three; cardinality = 15 }

abbrev values : List ℕ
values = 1 ∷ 5 ∷ 6 ∷ 11 ∷ []

-- The domain of eight-bit keys, where the count can be evaluated.
abbrev byte : ℕ
byte = 256

sample-IsValid : IsValid byte sample
sample-IsValid = record { ordered = omega arith; within = omega arith; counted = refl }

contains_lem_example : contains sample 9 ≡ some false
contains_lem_example = contains_lem sample 0 9 (omega arith)

add_closed_range_lem_example :
    IsValid byte (add_closed_range byte sample 5 11)
    × ((v : ℕ)
        → in_runs (add_closed_range byte sample 5 11).runs v ≡ (between 5 11 v || in_runs three v))
add_closed_range_lem_example =
    add_closed_range_lem byte (omega arith) sample sample-IsValid 5 11 (omega arith)

remove_closed_range_lem_example :
    IsValid byte (remove_closed_range byte sample 3 12)
    × ((v : ℕ)
        → in_runs (remove_closed_range byte sample 3 12).runs v
          ≡ (in_runs three v && not (between 3 12 v)))
remove_closed_range_lem_example =
    remove_closed_range_lem byte (omega arith) sample sample-IsValid 3 12

next_after-IsNext_example : IsNext (in_runs three) 5 (next_after byte sample 5)
next_after-IsNext_example = next_after-IsNext byte sample 5 (omega arith) sample-IsValid

for_each_lem_example :
    (vs : List ℕ) × (for_each byte three ≡ some vs)
    × Visits byte 0 (in_runs three) vs
    × (length vs ≡ 15)
for_each_lem_example = for_each_lem byte sample sample-IsValid

from_sorted_values_lem_example :
    IsValid byte (from_sorted_values byte values)
    × ((v : ℕ) → in_runs (from_sorted_values byte values).runs v ≡ in_values values v)
from_sorted_values_lem_example =
    from_sorted_values_lem byte values (omega arith) (omega arith) (omega arith)

abbrev odd_values : List ℕ
odd_values = 1 ∷ 3 ∷ 9 ∷ []

IsSplit-at_five : IsSplit (below {A = ℕ} false (λ x. x) 5) odd_values 3 2
IsSplit-at_five zero a = (1, refl, refl)
IsSplit-at_five (suc zero) a = (3, refl, refl)
IsSplit-at_five (suc (suc zero)) a = (9, refl, refl)
IsSplit-at_five (suc (suc (suc i))) a = absurd (omega arith)

gallop_forward_lem_example : gallop_forward {A = ℕ} false (λ x. x) odd_values 0 3 5 ≡ some 2
gallop_forward_lem_example =
    gallop_forward_lem {A = ℕ} false (λ x. x) odd_values 0 3 5 2 (omega arith) (omega arith)
      IsSplit-at_five

intersect_runs_lem_example :
    (s : RunIntersection) × (intersect_runs dom three wide ≡ some s)
    × RunsFrom 0 s.runs
    × Below dom s.runs
    × ((v : ℕ) → in_runs s.runs v ≡ (in_runs three v && in_runs wide v))
    × (s.cardinality ≡ count_below dom (in_runs s.runs))
intersect_runs_lem_example =
    intersect_runs_lem dom three wide (omega arith) (omega arith) (omega arith) (omega arith)

intersect_runs_cardinality_lem_example :
    (s : RunIntersection) × (intersect_runs byte three wide ≡ some s)
    × (intersect_runs_cardinality three wide ≡ some s.cardinality)
    × (s.cardinality ≡ count_below byte (λ v. in_runs three v && in_runs wide v))
intersect_runs_cardinality_lem_example =
    intersect_runs_cardinality_lem byte three wide (omega arith) (omega arith) (omega arith)
      (omega arith)

abbrev everything : RunContainer
everything = record { runs = run 0 255 ∷ []; cardinality = 256 }

everything-IsValid : IsValid byte everything
everything-IsValid = record { ordered = omega arith; within = omega arith; counted = refl }

intersect_run_run_lem_example :
    (c : RunContainer) × (intersect_run_run byte sample everything ≡ some c)
    × IsValid byte c
    × ((v : ℕ) → in_runs c.runs v ≡ (in_runs three v && in_runs everything.runs v))
intersect_run_run_lem_example =
    intersect_run_run_lem byte (omega arith) sample everything sample-IsValid everything-IsValid

union_run_run_lem_example :
    IsValid byte (union_run_run byte three wide)
    × ((v : ℕ)
        → in_runs (union_run_run byte three wide).runs v ≡ (in_runs three v || in_runs wide v))
union_run_run_lem_example =
    union_run_run_lem byte (omega arith) three wide (omega arith) (omega arith) (omega arith)
      (omega arith)

xor_runs_lem_example :
    RunsFrom 0 (xor_runs byte three wide)
    × Below byte (xor_runs byte three wide)
    × ((v : ℕ) → in_runs (xor_runs byte three wide) v ≡ xor (in_runs three v) (in_runs wide v))
xor_runs_lem_example =
    xor_runs_lem byte three wide (omega arith) (omega arith) (omega arith) (omega arith)

difference_runs_lem_example :
    RunsFrom 0 (difference_runs byte three wide)
    × Below byte (difference_runs byte three wide)
    × ((v : ℕ)
        → in_runs (difference_runs byte three wide) v ≡ (in_runs three v && not (in_runs wide v)))
difference_runs_lem_example =
    difference_runs_lem byte three wide (omega arith) (omega arith) (omega arith)
