-- ===== src/RunOps.antt =====
-- Merges of run lists, from include/frsr/roaring/run_ops.hpp. A pointer to run `li` of a list, with the
-- runs from there to the list's end, is the list of these runs; `dom` is the size of the low domain.
pub mod Reach
pub mod Merge
pub mod Intersect
pub mod Builder
pub mod Union
pub mod Exclusive
pub mod Xor
pub mod Cut
pub mod Difference
pub mod Cardinality
pub mod Whole
pub mod Values
use roaring.Prelude.{
  ℕ, zero, suc, ◌+◌, ◌-◌, ◌*◌, ◌%◌, min, max, Bool, true, false, ◌&&◌, ◌||◌, List, [], ◌∷◌, ◌++◌,
  Option, none, some, ◌>>=◌, leb, ltb, ◌==◌, if◌then◌else◌, length, take, drop, is_empty,
}
use roaring.Runs.{Run, run_size, runs_size}
use roaring.RunContainer.{RunContainer, cardinality_mod}
use roaring.Gallop.{gallop_forward}

-- Whether the runs are the whole domain in one run.
pub run_is_full : ℕ → List Run → Bool
run_is_full dom [] = false
run_is_full dom (r ∷ []) = r.begin == 0 && r.end == dom - 1
run_is_full dom (r ∷ _ ∷ _) = false

-- `run_end_key`
abbrev pub run_end_key : Run → ℕ
run_end_key r = r.end

-- From the run after the first one on: the runs left when those that end under `limit` are crossed.
pub next_run_reaching : List Run → ℕ → Option (List Run)
next_run_reaching runs limit = do
  at ← gallop_forward false run_end_key runs 1 (length runs) limit
  some (drop at runs)

-- `struct run_intersection`, with the runs that stand in `out`.
pub record RunIntersection : Type 0 where
  pub runs : List Run
  pub cardinality : ℕ

-- The runs that are copied, with their cardinality, and the runs left. The first run is inside.
pub copy_runs_inside : List Run → ℕ → Option (RunIntersection × List Run)
copy_runs_inside runs limit = do
  stop ← gallop_forward false run_end_key runs 1 (length runs) limit
  some (record { runs = take stop runs; cardinality = runs_size (take stop runs) }, drop stop runs)

abbrev pub cast_run : ℕ → ℕ → ℕ → Run
cast_run dom begin end = record { begin = begin % dom; end = end % dom }

-- What stands in front of what a later part of the loop writes.
abbrev pub joined : RunIntersection → RunIntersection → RunIntersection
joined r s = record { runs = r.runs ++ s.runs; cardinality = r.cardinality + s.cardinality }

abbrev pub with_front : RunIntersection → Option RunIntersection → Option RunIntersection
with_front r rest = do s ← rest; some (joined r s)

-- `out[ result.runs++ ] = run{ begin, earliest_end - 1 }; result.cardinality += earliest_end - begin`
abbrev pub emit : ℕ → ℕ → ℕ → RunIntersection
emit dom begin earliest_end = record {
  runs = cast_run dom begin (earliest_end - 1) ∷ [];
  cardinality = earliest_end - begin;
}

-- With skewed lists: whether the next run ends under `limit`, so that a block of runs is copied.
abbrev starts_inside : Bool → List Run → ℕ → Bool
starts_inside skewed [] limit = false
starts_inside skewed (r ∷ _) limit = skewed && ltb r.end limit

-- The runs copied (none, if no block is) and the runs left.
pub copy_if_inside : Bool → List Run → ℕ → Option (RunIntersection × List Run)
unfolding copy_runs_inside
copy_if_inside skewed runs limit =
    if starts_inside skewed runs limit
    then copy_runs_inside runs limit
    else some (record { runs = []; cardinality = 0 }, runs)

-- The rounds of the loop. `start`, `end`, `xstart` and `xend` are those of the two current runs, which
-- every change of `li` and `ri` loads again.
pub intersect_loop : ℕ → Bool → ℕ → List Run → List Run → Option RunIntersection
intersect_loop dom skewed zero lhs rhs = none
intersect_loop dom skewed (suc fuel) [] rhs = some (record { runs = []; cardinality = 0 })
intersect_loop dom skewed (suc fuel) (l ∷ ls) [] = some (record { runs = []; cardinality = 0 })
intersect_loop dom skewed (suc fuel) (l ∷ ls) (r ∷ rs) =
    let end = l.end + 1 in
    let xend = r.end + 1 in
    let begin = max l.begin r.begin in
    let cross_left = (do
      left ← next_run_reaching (l ∷ ls) r.begin
      intersect_loop dom skewed fuel left (r ∷ rs)) in
    let cross_right = (do
      right ← next_run_reaching (r ∷ rs) l.begin
      intersect_loop dom skewed fuel (l ∷ ls) right) in
    let both_end = with_front (emit dom begin end) (intersect_loop dom skewed fuel ls rs) in
    let left_ends = with_front (emit dom begin end) (do
      (copied, left) ← copy_if_inside skewed ls xend
      with_front copied (intersect_loop dom skewed fuel left (r ∷ rs))) in
    let right_ends = with_front (emit dom begin xend) (do
      (copied, right) ← copy_if_inside skewed rs end
      with_front copied (intersect_loop dom skewed fuel (l ∷ ls) right)) in
    if leb end r.begin
    then cross_left
    else (if leb xend l.begin
        then cross_right
        else (if end == xend then both_end else (if ltb end xend then left_ends else right_ends)))

-- The loop passes a run in every round.
pub intersect_runs_merge : ℕ → Bool → List Run → List Run → Option RunIntersection
unfolding intersect_loop
intersect_runs_merge dom skewed lhs rhs =
    intersect_loop dom skewed (length lhs + length rhs + 1) lhs rhs

abbrev skewed_run_lists_ratio : ℕ
skewed_run_lists_ratio = 16

pub intersect_runs : ℕ → List Run → List Run → Option RunIntersection
intersect_runs dom lhs rhs =
    if leb (skewed_run_lists_ratio * length rhs) (length lhs)
      || leb (skewed_run_lists_ratio * length lhs) (length rhs)
    then intersect_runs_merge dom true lhs rhs
    else intersect_runs_merge dom false lhs rhs

-- The count alone. Each list moves on if its current run ends first, both if they end together.
pub cardinality_loop : ℕ → List Run → List Run → ℕ → Option ℕ
cardinality_loop zero lhs rhs cardinality = none
cardinality_loop (suc fuel) [] rhs cardinality = some cardinality
cardinality_loop (suc fuel) (l ∷ ls) [] cardinality = some cardinality
cardinality_loop (suc fuel) (l ∷ ls) (r ∷ rs) cardinality =
    let end = l.end + 1 in
    let xend = r.end + 1 in
    let cross_left = (do
      left ← next_run_reaching (l ∷ ls) r.begin
      cardinality_loop fuel left (r ∷ rs) cardinality) in
    let cross_right = (do
      right ← next_run_reaching (r ∷ rs) l.begin
      cardinality_loop fuel (l ∷ ls) right cardinality) in
    let overlap =
      cardinality_loop fuel (if leb end xend then ls else l ∷ ls)
        (if leb xend end then rs else r ∷ rs)
        (cardinality + (min end xend - max l.begin r.begin)) in
    if leb end r.begin then cross_left else (if leb xend l.begin then cross_right else overlap)

pub intersect_runs_cardinality : List Run → List Run → Option ℕ
unfolding cardinality_loop
intersect_runs_cardinality lhs rhs = cardinality_loop (length lhs + length rhs + 1) lhs rhs 0

-- `run_container_from`: a copy, with the cardinality that the header holds.
abbrev run_container_from : ℕ → RunContainer → RunContainer
run_container_from dom source = record source {
  cardinality = source.cardinality % cardinality_mod dom;
}

abbrev to_container : ℕ → RunIntersection → RunContainer
to_container dom r = record { runs = r.runs; cardinality = r.cardinality % cardinality_mod dom }

-- A full container leaves the other as it is.
pub intersect_run_run : ℕ → RunContainer → RunContainer → Option RunContainer
unfolding run_is_full intersect_runs
intersect_run_run dom lhs rhs =
    if is_empty lhs.runs || is_empty rhs.runs
    then some (record { runs = []; cardinality = 0 })
    else (if run_is_full dom lhs.runs
        then some (run_container_from dom rhs)
        else (if run_is_full dom rhs.runs
            then some (run_container_from dom lhs)
            else (do r ← intersect_runs dom lhs.runs rhs.runs; some (to_container dom r))))
