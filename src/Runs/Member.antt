-- ===== src/Runs/Member.antt =====
-- Membership in a well formed list of runs.
use roaring.Prelude.{ℕ, ◌+◌, ◌≤◌, ◌<◌, ◌≡◌, refl, ◌||◌, false, List, [], ◌∷◌, ◌++◌, arith}
use roaring.Runs.Defs.{Run, in_runs, runs_size, RunsFrom, Below}

pub RunsFrom-mono : (lo lo' : ℕ) (rs : List Run) → lo' ≤ lo → RunsFrom lo rs → RunsFrom lo' rs
RunsFrom-mono lo lo' [] h w = tt
RunsFrom-mono lo lo' (r ∷ rs) h w = (omega arith, w.1, w.2)

-- Nothing lies before the first run.
pub in_runs_before : (lo v : ℕ) (rs : List Run) → RunsFrom lo rs → v < lo → in_runs rs v ≡ false
in_runs_before lo v [] w h = refl
in_runs_before lo v (r ∷ rs) w h = ground (arith, in_runs_before (r.end + 2) v rs)

-- Nothing lies past the last one.
pub in_runs_above : (n v : ℕ) (rs : List Run) → Below n rs → n ≤ v → in_runs rs v ≡ false
in_runs_above n v [] w h = refl
in_runs_above n v (r ∷ rs) w h = ground (arith, in_runs_above n v rs)

pub in_runs-append :
    (xs ys : List Run) (v : ℕ) → in_runs (xs ++ ys) v ≡ (in_runs xs v || in_runs ys v)
in_runs-append [] ys v = refl
in_runs-append (x ∷ xs) ys v = ground (arith, in_runs-append xs ys v)

pub Below-append : (n : ℕ) (xs ys : List Run) → Below n xs → Below n ys → Below n (xs ++ ys)
Below-append n [] ys w k = k
Below-append n (x ∷ xs) ys w k = (w.0, Below-append n xs ys w.1 k)

pub runs_size-append : (xs ys : List Run) → runs_size (xs ++ ys) ≡ runs_size xs + runs_size ys
runs_size-append [] ys = omega arith
runs_size-append (x ∷ xs) ys = omega (arith, runs_size-append xs ys)
