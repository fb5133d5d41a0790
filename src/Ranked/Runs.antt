-- ===== src/Ranked/Runs.antt =====
-- The rank block of a run payload, and the position of a value by it.
use roaring.Prelude.{
  ℕ, zero, suc, ◌+◌, ◌-◌, ◌%◌, ◌^◌, ◌≤◌, ◌≡◌, ◌∙◌, refl, ap, min, false, ◌&&◌, List, [], ◌∷◌, some,
  leb, arith, length, get_elem?, count_below, count_below-none, count_below-or,
  count_below-cong_below, count_below-interval_cut, ℤ, pos, negsuc, sub_ℕ,
}
use roaring.Runs.{Run, in_run, in_runs, run_size, runs_size, RunsFrom, in_runs_before}
use roaring.RunContainer.{interleaved_binary_search}
use roaring.RunContainer.Search.{begun, begun_before, begun-le, Found, past-pred, search-Ends}
use roaring.Frozen.Writer.{run_ranks}
use roaring.Ranked.{position_in_run, position_at, run_position}

pub disjoint :
    (r : Run) (rs : List Run) (u : ℕ) → RunsFrom (r.end + 2) rs → in_run r u && in_runs rs u ≡ false
disjoint r rs u w = ground (arith, in_runs_before (r.end + 2) u rs w)

-- A run in front adds the values that it has below.
pub count-in_runs :
    (v : ℕ) (r : Run) (rs : List Run)
    → RunsFrom (r.end + 2) rs
    → count_below v (in_runs (r ∷ rs)) ≡ (min v (r.end + 1) - r.begin) + count_below v (in_runs rs)
count-in_runs v r rs w = omega (
  arith,
  count_below-or v (in_run r) (in_runs rs) (λ u. disjoint r rs u w),
  count_below-interval_cut v r.begin r.end,
)

none_begun : (v u : ℕ) (rs : List Run) → begun rs v ≡ 0 → u ≤ v → in_runs rs u ≡ false
none_begun v u [] e h = refl
none_begun v u (r ∷ rs) e h = ground (arith, none_begun v u rs)

count-none_begun : (v : ℕ) (rs : List Run) → begun rs v ≡ 0 → count_below v (in_runs rs) ≡ 0
count-none_begun v rs e =
    count_below-cong_below v (in_runs rs) (λ u. false) (λ u h. none_begun v u rs e (omega arith))
    ∙ count_below-none v

-- What stands at a position of the runs and of the rank block, and what it says of a value.
abbrev AtRun : ℕ → ℕ → List Run → ℕ → Type 0
AtRun before v rs at =
    (r : Run) × (n : ℕ) × (get_elem? rs at ≡ some r)
    × (get_elem? (run_ranks before rs) at ≡ some n)
    × (n + (min v (r.end + 1) - r.begin) ≡ before + count_below v (in_runs rs))
    × (leb v r.end ≡ in_runs rs v)

last_begun :
    (lo before v k : ℕ) (rs : List Run)
    → RunsFrom lo rs
    → before + runs_size rs ≤ 2 ^ 16
    → begun rs v ≡ suc k
    → AtRun before v rs k
unfolding run_ranks
last_begun lo before v k [] w s e = absurd (omega arith)
last_begun lo before v zero (r ∷ rs) w s e =
    let rest = begun_before (r.end + 2) v rs w.2 in
    let later : begun rs v ≡ 0 = ground arith in
    (
      r,
      before % 2 ^ 16,
      refl,
      refl,
      omega (arith, count-in_runs v r rs w.2, count-none_begun v rs later),
      ground (arith, none_begun v v rs later),
    )
last_begun lo before v (suc k) (r ∷ rs) w s e =
    let rest = begun_before (r.end + 2) v rs w.2 in
    let past : r.end + 2 ≤ v = ground arith in
    let total : (before + run_size r) % 2 ^ 32 ≡ before + run_size r = omega arith in
    let (q, n, at, there, same, on) =
      last_begun (r.end + 2) (before + run_size r) v k rs w.2 (omega arith) (ground arith) in
    (
      q,
      n,
      at,
      ap (λ t. get_elem? (run_ranks t rs) k) total ∙ there,
      omega (arith, count-in_runs v r rs w.2, same),
      ground (arith, on),
    )

-- An exact begin is the last one begun.
exact_begun :
    (lo v m : ℕ) (rs : List Run) (r : Run)
    → RunsFrom lo rs
    → get_elem? rs m ≡ some r
    → r.begin ≡ v
    → begun rs v ≡ suc m
exact_begun lo v m [] r w e h = absurd (ground arith)
exact_begun lo v zero (q ∷ rs) r w e h = ground (arith, e, begun_before (q.end + 2) v rs w.2)
exact_begun lo v (suc m) (q ∷ rs) r w e h =
    ground (arith, exact_begun (q.end + 2) v m rs r w.2 e h, begun_before (q.end + 2) v rs w.2)

module _ (v : ℕ) (rs : List Run) (w : RunsFrom 0 rs) (small : runs_size rs ≤ 2 ^ 16) where
  position_in_run_lem :
      (k : ℕ)
      → begun rs v ≡ suc k
      → position_in_run rs (run_ranks 0 rs) k v ≡ some (count_below v (in_runs rs), in_runs rs v)
  unfolding position_in_run
  position_in_run_lem k e =
      let (r, n, at, there, same, on) = last_begun 0 0 v k rs w (omega arith) e in
      let same' : n + (min v (r.end + 1) - r.begin) ≡ count_below v (in_runs rs) = omega arith in
      rw (at, there, same', on) refl

  position_at_lem :
      (z : ℤ)
      → Found rs v z
      → position_at rs (run_ranks 0 rs) v z ≡ some (count_below v (in_runs rs), in_runs rs v)
  unfolding position_at
  position_at_lem (pos m) (r, e, b, q) = position_in_run_lem m (exact_begun 0 v m rs r w e b)
  position_at_lem (negsuc zero) f =
      rw (count-none_begun v rs f, none_begun v v rs f (omega arith)) refl
  position_at_lem (negsuc (suc k)) f = position_in_run_lem k f

  -- On runs in order and coalesced, with their rank block: the search reads nothing out of bounds
  -- and ends, and the answer is how many values are below, and whether the value is covered.
  pub run_position_lem :
      run_position rs (run_ranks 0 rs) v ≡ some (count_below v (in_runs rs), in_runs rs v)
  unfolding run_position interleaved_binary_search
  run_position_lem =
      let n = length rs in
      let (z, e, f) =
        search-Ends rs v 0 w (n + 1) 0 (sub_ℕ n 1) (omega arith) (rw past-pred (begun-le rs v))
          (rw past-pred (omega arith)) (rw past-pred (omega arith)) in
      rw e (position_at_lem z f)
