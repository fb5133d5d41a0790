-- ===== src/RunContainer/Valid.antt =====
-- When a run container is well formed, and that `recalculate_cardinality` makes it so.
use roaring.Prelude.{
  ℕ, ◌+◌, ◌%◌, ◌^◌, ◌≤◌, ◌<◌, ◌≡◌, List, [], ◌∷◌, arith, mod-eq_of_lt, count_below,
}
use roaring.Runs.{Run, in_runs, run_size, runs_size, RunsFrom, Below, runs_size-count, runs_size-le}
use roaring.RunContainer.{RunContainer, cardinality_mod, add_sizes, recalculate_cardinality}

-- Runs in order, coalesced, within the domain, and the count of the values that they cover.
pub record IsValid (dom : ℕ) (c : RunContainer) : Type 0 where
  pub ordered : RunsFrom 0 c.runs
  pub within : Below dom c.runs
  pub counted : c.cardinality ≡ count_below dom (in_runs c.runs)

pub domain-lt-cardinality_mod : (dom : ℕ) → dom ≤ 2 ^ 16 → dom < cardinality_mod dom
domain-lt-cardinality_mod dom h = ground arith

-- The running total never wraps.
add_sizes_lem :
    (dom total : ℕ) (rs : List Run)
    → total + runs_size rs < cardinality_mod dom
    → add_sizes dom total rs ≡ total + runs_size rs
unfolding add_sizes
add_sizes_lem dom total [] h = omega arith
add_sizes_lem dom total (r ∷ rs) h =
    let m = cardinality_mod dom in
    let one : run_size r % m ≡ run_size r = mod-eq_of_lt (omega arith) in
    let two : (total + run_size r) % m ≡ total + run_size r = mod-eq_of_lt (omega arith) in
    rw (one, two) (omega (arith, add_sizes_lem dom (total + run_size r) rs (omega arith)))

pub recalculate_cardinality-IsValid :
    (dom : ℕ) (rs : List Run)
    → dom ≤ 2 ^ 16
    → RunsFrom 0 rs
    → Below dom rs
    → IsValid dom (recalculate_cardinality dom rs)
unfolding recalculate_cardinality
recalculate_cardinality-IsValid dom rs h w b = record {
  ordered = w;
  within = b;
  counted = omega (
    arith,
    domain-lt-cardinality_mod dom h,
    runs_size-le dom 0 rs w b,
    runs_size-count dom 0 rs w b,
    add_sizes_lem dom 0 rs,
  );
}
