-- ===== src/Runs/Cardinality.antt =====
-- The lengths of well formed runs add up to the number of values that they cover.
use roaring.Prelude.{
  ℕ, ◌+◌, ◌≤◌, ◌≡◌, ◌&&◌, false, List, [], ◌∷◌, arith, count_below, count_below-none,
  count_below-or, count_below-interval, count_below-le,
}
use roaring.Runs.Defs.{Run, in_run, in_runs, runs_size, RunsFrom, Below}
use roaring.Runs.Member.{in_runs_before}

disjoint_from_rest :
    (r : Run) (rs : List Run) (v : ℕ) → RunsFrom (r.end + 2) rs → in_run r v && in_runs rs v ≡ false
disjoint_from_rest r rs v w = ground (arith, in_runs_before (r.end + 2) v rs w)

pub runs_size-count :
    (n lo : ℕ) (rs : List Run)
    → RunsFrom lo rs
    → Below n rs
    → runs_size rs ≡ count_below n (in_runs rs)
runs_size-count n lo [] w b = omega (arith, count_below-none n)
runs_size-count n lo (r ∷ rs) w b = omega (
  arith,
  runs_size-count n (r.end + 2) rs w.2 b.1,
  count_below-or n (in_run r) (in_runs rs) (λ v. disjoint_from_rest r rs v w.2),
  count_below-interval n r.begin r.end w.1 b.0,
)

-- So their sum never exceeds the domain.
pub runs_size-le : (n lo : ℕ) (rs : List Run) → RunsFrom lo rs → Below n rs → runs_size rs ≤ n
runs_size-le n lo rs w b = omega (arith, runs_size-count n lo rs w b, count_below-le n (in_runs rs))
