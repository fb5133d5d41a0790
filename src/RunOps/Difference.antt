-- ===== src/RunOps/Difference.antt =====
-- `difference_run_run` of include/frsr/roaring/run_ops.hpp: the runs that it writes, before the result
-- settles into a form.
use roaring.Prelude.{
  ℕ, ◌+◌, ◌≤◌, ◌≡◌, refl, not, ◌&&◌, List, [], ◌∷◌, ◌++◌, ltb, if◌then◌else◌, arith,
}
use roaring.Runs.{
  Run, in_runs, in_runs_before, in_runs-append, RunsFrom, RunsFrom-mono, Below, Below-append,
}
use roaring.RunOps.Cut.{Reaches, cut_runs, in_runs-cut_runs, cut_runs-RunsFrom, cut_runs-Below}

skip_before : ℕ → List Run → List Run
skip_before begin [] = []
skip_before begin (r ∷ rs) = if ltb r.end begin then skip_before begin rs else r ∷ rs

pub difference_runs : ℕ → List Run → List Run → List Run
unfolding skip_before
difference_runs dom [] ri = []
difference_runs dom (left ∷ lhs) ri =
    let ri' = skip_before left.begin ri in
    cut_runs dom left.begin left.end ri' ++ difference_runs dom lhs ri'

skip_before-RunsFrom : (b lo : ℕ) (rs : List Run) → RunsFrom lo rs → RunsFrom lo (skip_before b rs)
unfolding skip_before
skip_before-RunsFrom b lo [] w = tt
skip_before-RunsFrom b lo (r ∷ rs) w = ground (
  arith,
  skip_before-RunsFrom b (r.end + 2) rs w.2,
  RunsFrom-mono (r.end + 2) lo (skip_before b rs),
)

skip_before-Reaches : (b : ℕ) (rs : List Run) → Reaches b (skip_before b rs)
unfolding skip_before
skip_before-Reaches b [] = tt
skip_before-Reaches b (r ∷ rs) = ground (arith, skip_before-Reaches b rs)

in_runs-skip_before :
    (b v : ℕ) (rs : List Run) → b ≤ v → in_runs (skip_before b rs) v ≡ in_runs rs v
unfolding skip_before
in_runs-skip_before b v [] h = refl
in_runs-skip_before b v (r ∷ rs) h = ground (arith, in_runs-skip_before b v rs h)

difference_runs-RunsFrom :
    (dom lo xlo : ℕ) (ls rs : List Run)
    → RunsFrom lo ls
    → Below dom ls
    → RunsFrom xlo rs
    → RunsFrom lo (difference_runs dom ls rs) × Below dom (difference_runs dom ls rs)
unfolding difference_runs
difference_runs-RunsFrom dom lo xlo [] rs w b x = (tt, tt)
difference_runs-RunsFrom dom lo xlo (l ∷ ls) rs w b x =
    let ri = skip_before l.begin rs in
    let y = skip_before-RunsFrom l.begin xlo rs x in
    let (o, k) = difference_runs-RunsFrom dom (l.end + 2) xlo ls ri w.2 b.1 y in
    (
      cut_runs-RunsFrom dom lo l.begin l.end xlo ri _ b.0 w.0 w.1 (skip_before-Reaches l.begin rs) y
          o,
      Below-append dom (cut_runs dom l.begin l.end ri) _
          (cut_runs-Below dom l.begin l.end xlo ri b.0 y) k,
    )

in_runs-difference_runs :
    (dom lo xlo v : ℕ) (ls rs : List Run)
    → RunsFrom lo ls
    → Below dom ls
    → RunsFrom xlo rs
    → in_runs (difference_runs dom ls rs) v ≡ (in_runs ls v && not (in_runs rs v))
unfolding difference_runs
in_runs-difference_runs dom lo xlo v [] rs w b x = refl
in_runs-difference_runs dom lo xlo v (l ∷ ls) rs w b x =
    let ri = skip_before l.begin rs in
    let y = skip_before-RunsFrom l.begin xlo rs x in
    ground (
      arith,
      in_runs-append (cut_runs dom l.begin l.end ri) (difference_runs dom ls ri) v,
      in_runs-cut_runs dom l.begin l.end xlo v ri b.0 (skip_before-Reaches l.begin rs) y,
      in_runs-difference_runs dom (l.end + 2) xlo v ls ri w.2 b.1 y,
      in_runs-skip_before l.begin v rs,
      in_runs_before (l.end + 2) v ls w.2,
    )

-- The runs of the difference of two well formed run lists, the left one under the domain size, are
-- well formed, and hold exactly the values of the left list that the right one lacks.
pub difference_runs_lem :
    (dom : ℕ) (lhs rhs : List Run)
    → RunsFrom 0 lhs
    → Below dom lhs
    → RunsFrom 0 rhs
    → RunsFrom 0 (difference_runs dom lhs rhs)
      × Below dom (difference_runs dom lhs rhs)
      × ((v : ℕ) → in_runs (difference_runs dom lhs rhs) v ≡ (in_runs lhs v && not (in_runs rhs v)))
difference_runs_lem dom lhs rhs w b x =
    let (o, k) = difference_runs-RunsFrom dom 0 0 lhs rhs w b x in
    (o, k, λ v. in_runs-difference_runs dom 0 0 v lhs rhs w b x)
