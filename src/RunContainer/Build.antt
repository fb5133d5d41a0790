-- ===== src/RunContainer/Build.antt =====
-- `from_sorted_values`: the runs of a sorted list.
use roaring.Prelude.{
  ℕ, ◌+◌, ◌-◌, ◌%◌, ◌^◌, ◌≤◌, ◌<◌, ◌≡◌, refl, not, ◌&&◌, ◌||◌, List, [], ◌∷◌, leb, ◌==◌,
  if◌then◌else◌, arith, mod-eq_of_lt, count_below-none,
}
use roaring.Values.{in_values, IsSorted, AllBelow}
use roaring.Runs.{Run, in_runs, RunsFrom, Below}
use roaring.RunContainer.{RunContainer, recalculate_cardinality}
use roaring.RunContainer.Valid.{IsValid, recalculate_cardinality-IsValid}

-- The loop over the values after the first: the runs that it still pushes.
unfoldable pub collect_runs : ℕ → ℕ → ℕ → List ℕ → List Run
collect_runs dom current_begin current_end [] =
    record { begin = current_begin; end = current_end } ∷ []
collect_runs dom current_begin current_end (value ∷ rest) =
    let longer = collect_runs dom current_begin value rest in
    let next =
      record { begin = current_begin; end = current_end } ∷ collect_runs dom value value rest in
    if value == current_end || (not (current_end == dom - 1) && value == (current_end + 1) % dom)
    then longer
    else next

unfoldable pub runs_of : ℕ → List ℕ → List Run
unfolding collect_runs
runs_of dom [] = []
runs_of dom (front ∷ rest) = collect_runs dom front front rest

unfoldable pub from_sorted_values : ℕ → List ℕ → RunContainer
unfolding runs_of recalculate_cardinality
from_sorted_values dom [] = record { runs = []; cardinality = 0 }
from_sorted_values dom (front ∷ rest) = recalculate_cardinality dom (runs_of dom (front ∷ rest))

in_runs-collect_runs :
    (dom b e v : ℕ) (vs : List ℕ)
    → b ≤ e
    → e < dom
    → IsSorted e vs
    → AllBelow dom vs
    → in_runs (collect_runs dom b e vs) v ≡ ((leb b v && leb v e) || in_values vs v)
unfolding collect_runs
in_runs-collect_runs dom b e v [] h k s a = ground arith
in_runs-collect_runs dom b e v (x ∷ vs) h k s a = ground (
  arith,
  mod-eq_of_lt {n = e + 1} {m = dom},
  in_runs-collect_runs dom b x v vs,
  in_runs-collect_runs dom x x v vs,
)

collect_runs-RunsFrom :
    (dom b e lo : ℕ) (vs : List ℕ)
    → lo ≤ b
    → b ≤ e
    → e < dom
    → IsSorted e vs
    → AllBelow dom vs
    → RunsFrom lo (collect_runs dom b e vs)
unfolding collect_runs
collect_runs-RunsFrom dom b e lo [] l h k s a = ground arith
collect_runs-RunsFrom dom b e lo (x ∷ vs) l h k s a = ground (
  arith,
  mod-eq_of_lt {n = e + 1} {m = dom},
  collect_runs-RunsFrom dom b x lo vs,
  collect_runs-RunsFrom dom x x (e + 2) vs,
)

collect_runs-Below :
    (dom b e : ℕ) (vs : List ℕ) → e < dom → AllBelow dom vs → Below dom (collect_runs dom b e vs)
unfolding collect_runs
collect_runs-Below dom b e [] k a = ground arith
collect_runs-Below dom b e (x ∷ vs) k a =
    ground (arith, collect_runs-Below dom b x vs, collect_runs-Below dom x x vs)

-- From values of a domain of at most 2^16 values, in order, repeated or not, a well formed
-- container of exactly these values.
pub from_sorted_values_lem :
    (dom : ℕ) (vs : List ℕ)
    → dom ≤ 2 ^ 16
    → IsSorted 0 vs
    → AllBelow dom vs
    → IsValid dom (from_sorted_values dom vs)
      × ((v : ℕ) → in_runs (from_sorted_values dom vs).runs v ≡ in_values vs v)
unfolding from_sorted_values
from_sorted_values_lem dom [] h s a =
    (record { ordered = tt; within = tt; counted = omega (arith, count_below-none dom) }, λ v. refl)
from_sorted_values_lem dom (x ∷ vs) h s a = (
  recalculate_cardinality-IsValid dom _ h
      (collect_runs-RunsFrom dom x x 0 vs (omega arith) (omega arith) a.0 s.1 a.1)
      (collect_runs-Below dom x x vs a.0 a.1),
  λ v. ground (arith, in_runs-collect_runs dom x x v vs (omega arith) a.0 s.1 a.1),
)
