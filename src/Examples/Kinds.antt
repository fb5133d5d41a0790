-- ===== src/Examples/Kinds.antt =====
-- The theorems on the form of a container applied to small inputs.
use roaring.Prelude.{
  ℕ, ◌≤◌, ◌≡◌, refl, ◌*◌, min, true, ◌||◌, List, [], ◌∷◌, none, some, ltb, if◌then◌else◌, arith,
  length, is_empty,
}
use roaring.RunContainer.Build.{runs_of, from_sorted_values}
use roaring.Kinds.{
  bitset, run_count_from_sorted_values, try_make_run_from_sorted_values_capped,
  choose_container_kind, choose_run_container_kind,
}
use roaring.Kinds.Counts.{run_count_from_sorted_values_lem}
use roaring.Kinds.Capped.{try_make_run_from_sorted_values_capped_lem}
use roaring.Kinds.Choice.{
  form_bytes, admitted, choose_container_kind_lem, choose_run_container_kind_lem,
}

abbrev scattered : List ℕ
scattered = 2 ∷ 3 ∷ 9 ∷ 20 ∷ 21 ∷ 255 ∷ []

run_count_from_sorted_values_lem_example :
    run_count_from_sorted_values 256 scattered 3 ≡ some (min (length (runs_of 256 scattered)) 3)
run_count_from_sorted_values_lem_example =
    run_count_from_sorted_values_lem 256 3 scattered (omega arith) (omega arith)

try_make_run_from_sorted_values_capped_lem_example :
    try_make_run_from_sorted_values_capped 256 2 scattered 9 ≡ (
      if is_empty scattered || ltb (length (runs_of 256 scattered) * 2) 9
      then some (from_sorted_values 256 scattered)
      else none)
try_make_run_from_sorted_values_capped_lem_example =
    try_make_run_from_sorted_values_capped_lem 256 2 9 scattered

choose_container_kind_lem_example :
    choose_container_kind 65536 2 true 5000 4096 (λ cap. min 9000 cap)
    ≡ choose_container_kind 65536 2 true 5000 4096 (λ cap. 9000)
choose_container_kind_lem_example =
    choose_container_kind_lem 65536 2 true 5000 4096 9000 (omega arith)

choose_run_container_kind_lem_example :
    (admitted 5000 4096 (choose_run_container_kind 65536 2 5000 3000 4096) ≡ true)
    × (form_bytes 65536 2 5000 3000 (choose_run_container_kind 65536 2 5000 3000 4096)
        ≤ form_bytes 65536 2 5000 3000 bitset)
choose_run_container_kind_lem_example =
    choose_run_container_kind_lem 65536 2 5000 3000 4096 bitset refl
