-- ===== src/Runs/Defs.antt =====
-- The data of include/frsr/roaring/run.hpp, the set of values that a list of runs stands for, and when
-- the list is well formed: in order, coalesced and not adjacent.
use roaring.Prelude.{ℕ, ◌+◌, ◌-◌, ◌≤◌, ◌<◌, Bool, false, ◌&&◌, ◌||◌, List, [], ◌∷◌, leb}

-- `begin` and `end` belong to the run.
pub record Run : Type 0 where
  pub begin : ℕ
  pub end : ℕ

abbrev pub in_run : Run → ℕ → Bool
in_run r v = leb r.begin v && leb v r.end

abbrev pub in_runs : List Run → ℕ → Bool
in_runs [] v = false
in_runs (r ∷ rs) v = in_run r v || in_runs rs v

abbrev pub run_size : Run → ℕ
run_size r = r.end - r.begin + 1

-- The number of values that the runs cover, each run counted for itself.
abbrev pub runs_size : List Run → ℕ
runs_size [] = 0
runs_size (r ∷ rs) = run_size r + runs_size rs

-- Runs in order from `lo` on, with at least one value missing between one and the next.
abbrev pub RunsFrom : ℕ → List Run → Type 0
RunsFrom lo [] = Unit
RunsFrom lo (r ∷ rs) = (lo ≤ r.begin) × (r.begin ≤ r.end) × RunsFrom (r.end + 2) rs

-- Every run ends under `n`.
abbrev pub Below : ℕ → List Run → Type 0
Below n [] = Unit
Below n (r ∷ rs) = (r.end < n) × Below n rs
