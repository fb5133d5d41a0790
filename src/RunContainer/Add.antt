-- ===== src/RunContainer/Add.antt =====
-- `add_closed_range` keeps the runs in order and adds exactly the range.
use roaring.Prelude.{
  ℕ, ◌+◌, ◌≤◌, ◌<◌, ◌≡◌, refl, Bool, true, false, ◌&&◌, ◌||◌, ◌⊎◌, List, [], ◌∷◌, leb, min, max,
  arith,
}
use roaring.Runs.{Run, in_runs, RunsFrom, Below}
use roaring.RunContainer.{merge_range}

-- Past the range nothing changes.
merge_range_done :
    (b e nb ne lo : ℕ) (rs : List Run)
    → b ≤ e
    → e + 2 ≤ lo
    → RunsFrom lo rs
    → merge_range b e nb ne true rs ≡ rs
unfolding merge_range
merge_range_done b e nb ne lo [] h k w = refl
merge_range_done b e nb ne lo (r ∷ rs) h k w =
    ground (arith, merge_range_done b e nb ne (r.end + 2) rs h)

-- The range so far, [nb, ne], has grown past [b, e] only by runs that end before `lo`.
pub record Grown (b e nb ne lo : ℕ) : Type 0 where
  pub range : b ≤ e
  pub left : nb ≤ b
  pub right : e ≤ ne
  pub left_known : (nb ≡ b) ⊎ (b < lo)
  pub right_known : (ne ≡ e) ⊎ (ne + 2 ≤ lo)

pub in_runs-merge_range :
    (b e nb ne lo v : ℕ) (rs : List Run)
    → Grown b e nb ne lo
    → RunsFrom lo rs
    → in_runs (merge_range b e nb ne false rs) v ≡ ((leb nb v && leb v ne) || in_runs rs v)
unfolding merge_range
in_runs-merge_range b e nb ne lo v [] g w = refl
in_runs-merge_range b e nb ne lo v (r ∷ rs) g w = ground (
  arith,
  merge_range_done b e nb ne (r.end + 2) rs,
  in_runs-merge_range b e nb ne (r.end + 2) v rs,
  in_runs-merge_range b e (min nb r.begin) (max ne r.end) (r.end + 2) v rs,
)

-- The output starts no lower than `out`.
pub merge_range-RunsFrom :
    (b e nb ne lo out : ℕ) (rs : List Run)
    → Grown b e nb ne lo
    → out ≤ nb
    → ((nb ≡ b) × (out ≤ lo)) ⊎ (b < lo)
    → RunsFrom lo rs
    → RunsFrom out (merge_range b e nb ne false rs)
unfolding merge_range
merge_range-RunsFrom b e nb ne lo out [] g h k w = ground arith
merge_range-RunsFrom b e nb ne lo out (r ∷ rs) g h k w = ground (
  arith,
  merge_range_done b e nb ne (r.end + 2) rs,
  merge_range-RunsFrom b e nb ne (r.end + 2) (r.end + 2) rs,
  merge_range-RunsFrom b e (min nb r.begin) (max ne r.end) (r.end + 2) out rs,
)

pub merge_range-Below :
    (b e nb ne n : ℕ) (ins : Bool) (rs : List Run)
    → ne < n
    → Below n rs
    → Below n (merge_range b e nb ne ins rs)
unfolding merge_range
merge_range-Below b e nb ne n ins [] h w = ground arith
merge_range-Below b e nb ne n ins (r ∷ rs) h w = ground (
  arith,
  merge_range-Below b e nb ne n ins rs h,
  merge_range-Below b e nb ne n true rs h,
  merge_range-Below b e (min nb r.begin) (max ne r.end) n ins rs,
)
