-- ===== src/RunContainer/Remove.antt =====
-- `remove_closed_range` keeps the runs in order and removes exactly the range.
use roaring.Prelude.{
  ℕ, ◌+◌, ◌-◌, ◌≤◌, ◌<◌, ◌≡◌, refl, Bool, not, ◌&&◌, ◌||◌, ◌∙◌, List, [], ◌∷◌, leb, arith,
  mod-eq_of_lt,
}
use roaring.Runs.{Run, in_run, in_runs, RunsFrom, RunsFrom-mono, Below}
use roaring.RunContainer.{cut_run, cut_range}

abbrev pub outside : ℕ → ℕ → ℕ → Bool
outside b e v = not (leb b v && leb v e)

-- One run at a time: what is left of it, whatever follows.
in_runs-cut_run :
    (dom b e v : ℕ) (r : Run) (rest : List Run)
    → b ≤ e
    → r.begin ≤ r.end
    → r.end < dom
    → in_runs (cut_run dom b e r rest) v ≡ ((in_run r v && outside b e v) || in_runs rest v)
unfolding cut_run
in_runs-cut_run dom b e v r rest h w k =
    ground (arith, mod-eq_of_lt {n = b - 1} {m = dom}, mod-eq_of_lt {n = e + 1} {m = dom})

pub in_runs-cut_range :
    (dom b e lo v : ℕ) (rs : List Run)
    → b ≤ e
    → RunsFrom lo rs
    → Below dom rs
    → in_runs (cut_range dom b e rs) v ≡ (in_runs rs v && outside b e v)
unfolding cut_range
in_runs-cut_range dom b e lo v [] h w k = refl
in_runs-cut_range dom b e lo v (r ∷ rs) h w k =
    in_runs-cut_run dom b e v r (cut_range dom b e rs) h w.1 k.0
    ∙ distribute (in_run r v) (in_runs rs v) (outside b e v) _
        (in_runs-cut_range dom b e (r.end + 2) v rs h w.2 k.1)
  where
    distribute : (p q o c : Bool) → c ≡ (q && o) → ((p && o) || c) ≡ ((p || q) && o)
    distribute p q o c h = ground arith

pub cut_range-RunsFrom :
    (dom b e lo : ℕ) (rs : List Run)
    → b ≤ e
    → RunsFrom lo rs
    → Below dom rs
    → RunsFrom lo (cut_range dom b e rs)
unfolding cut_range
cut_range-RunsFrom dom b e lo [] h w k = tt
cut_range-RunsFrom dom b e lo (r ∷ rs) h w k = ground (
  arith,
  cut_range-RunsFrom dom b e (r.end + 2) rs,
  RunsFrom-mono (r.end + 2) lo (cut_range dom b e rs),
  RunsFrom-mono (r.end + 2) (b + 1) (cut_range dom b e rs),
  mod-eq_of_lt {n = b - 1} {m = dom},
  mod-eq_of_lt {n = e + 1} {m = dom},
)

pub cut_range-Below :
    (dom b e : ℕ) (rs : List Run) → b ≤ e → Below dom rs → Below dom (cut_range dom b e rs)
unfolding cut_range
cut_range-Below dom b e [] h k = tt
cut_range-Below dom b e (r ∷ rs) h k = ground (
  arith,
  cut_range-Below dom b e rs,
  mod-eq_of_lt {n = b - 1} {m = dom},
  mod-eq_of_lt {n = e + 1} {m = dom},
)
