-- ===== src/RunRef/Valid.antt =====
-- When a run handle is well formed, and that `sync_header` makes it so.
use roaring.Prelude.{
  ℕ, ◌+◌, ◌%◌, ◌^◌, ◌≤◌, ◌<◌, ◌≡◌, refl, List, [], ◌∷◌, arith, mod-eq_of_lt, count_below,
}
use roaring.Runs.{Run, in_runs, run_size, runs_size, RunsFrom, Below, runs_size-count, runs_size-le}
use roaring.RunContainer.{RunContainer}
use roaring.RunContainer.Valid
use roaring.RunRef.{RunHandle, add_total, last_end, sync_header}

-- The first value and the last value, if there is one.
abbrev pub HasEnds : List Run → ℕ → ℕ → Type 0
HasEnds [] least greatest = Unit
HasEnds (r ∷ rs) least greatest = (least ≡ r.begin) × (greatest ≡ last_end r rs)

-- Runs in order, coalesced, within the domain, with the header of the values that they cover.
pub record IsValid (dom : ℕ) (c : RunHandle) : Type 0 where
  pub ordered : RunsFrom 0 c.runs
  pub within : Below dom c.runs
  pub counted : c.cardinality ≡ count_below dom (in_runs c.runs)
  pub ends : HasEnds c.runs c.min_value c.max_value

-- The same runs with the header of a standalone container.
abbrev pub standalone : RunHandle → RunContainer
standalone c = record { runs = c.runs; cardinality = c.cardinality }

pub standalone-IsValid :
    (dom : ℕ) (c : RunHandle) → IsValid dom c → Valid.IsValid dom (standalone c)
standalone-IsValid dom c valid = record {
  ordered = valid.ordered;
  within = valid.within;
  counted = valid.counted;
}

add_total_lem :
    (total : ℕ) (rs : List Run)
    → total + runs_size rs < 2 ^ 32
    → add_total total rs ≡ total + runs_size rs
unfolding add_total
add_total_lem total [] h = omega arith
add_total_lem total (r ∷ rs) h =
    let one : run_size r % 2 ^ 32 ≡ run_size r = mod-eq_of_lt (omega arith) in
    let two : (total + run_size r) % 2 ^ 32 ≡ total + run_size r = mod-eq_of_lt (omega arith) in
    rw (one, two) (omega (arith, add_total_lem (total + run_size r) rs (omega arith)))

add_total-count :
    (dom : ℕ) (rs : List Run)
    → dom ≤ 2 ^ 16
    → RunsFrom 0 rs
    → Below dom rs
    → add_total 0 rs ≡ count_below dom (in_runs rs)
add_total-count dom rs h w b =
    omega (arith, runs_size-le dom 0 rs w b, runs_size-count dom 0 rs w b, add_total_lem 0 rs)

pub sync_header-IsValid :
    (dom : ℕ) (c : RunHandle) (rs : List Run)
    → dom ≤ 2 ^ 16
    → RunsFrom 0 rs
    → Below dom rs
    → IsValid dom (sync_header c rs) × ((sync_header c rs).runs ≡ rs)
unfolding sync_header
sync_header-IsValid dom c [] h w b =
    (record { ordered = w; within = b; counted = add_total-count dom [] h w b; ends = tt }, refl)
sync_header-IsValid dom c (r ∷ rs) h w b = (
  record {
    ordered = w;
    within = b;
    counted = add_total-count dom (r ∷ rs) h w b;
    ends = (refl, refl);
  },
  refl,
)
