-- ===== src/RunOps/Reach.antt =====
-- What the gallops over runs find: the runs that end under a limit, and those after them.
use roaring.Prelude.{
  ℕ, zero, suc, ◌+◌, ◌≤◌, ◌<◌, ◌≡◌, ◌∙◌, ap, refl, false, ◌||◌, List, [], ◌∷◌, ◌++◌, some, ltb,
  if◌then◌else◌, arith, inl, inr, Bool-cases, length, get_elem?, take, drop,
}
use roaring.Runs.{Run, in_runs, runs_size, RunsFrom, RunsFrom-mono, Below}
use roaring.Gallop.{IsSplit, below, gallop_forward, gallop_forward_lem}
use roaring.RunOps.{run_end_key, next_run_reaching, copy_runs_inside}

abbrev pub ending_before : ℕ → List Run → List Run
ending_before limit [] = []
ending_before limit (r ∷ rs) = if ltb r.end limit then r ∷ ending_before limit rs else []

abbrev pub reaching : ℕ → List Run → List Run
reaching limit [] = []
reaching limit (r ∷ rs) = if ltb r.end limit then reaching limit rs else r ∷ rs

-- How many runs end under the limit, as far as they stand in front.
abbrev crossed : ℕ → List Run → ℕ
crossed limit [] = 0
crossed limit (r ∷ rs) = if ltb r.end limit then suc (crossed limit rs) else 0

crossed-le : (limit : ℕ) (rs : List Run) → crossed limit rs ≤ length rs
crossed-le limit [] = omega arith
crossed-le limit (r ∷ rs) = ground (arith, crossed-le limit rs)

take-crossed : (limit : ℕ) (rs : List Run) → take (crossed limit rs) rs ≡ ending_before limit rs
take-crossed limit [] = refl
take-crossed limit (r ∷ rs) = ground (arith, take-crossed limit rs)

drop-crossed : (limit : ℕ) (rs : List Run) → drop (crossed limit rs) rs ≡ reaching limit rs
drop-crossed limit [] = refl
drop-crossed limit (r ∷ rs) = ground (arith, drop-crossed limit rs)

end_after :
    (lo i : ℕ) (rs : List Run) (x : Run) → RunsFrom lo rs → get_elem? rs i ≡ some x → lo ≤ x.end
end_after lo i [] x w e = absurd (cc)
end_after lo zero (r ∷ rs) x w e = ground arith
end_after lo (suc i) (r ∷ rs) x w e = ground (arith, end_after (r.end + 2) i rs x w.2 e)

-- None of the later runs ends under the limit.
crossed_iff :
    (limit lo : ℕ) (rs : List Run)
    → RunsFrom lo rs
    → IsSplit (below false run_end_key limit) rs (length rs) (crossed limit rs)
crossed_iff limit lo [] w i h = absurd (omega arith)
crossed_iff limit lo (r ∷ rs) w zero h = (r, refl, ground arith)
crossed_iff limit lo (r ∷ rs) w (suc i) h =
    let (x, e, t) = crossed_iff limit (r.end + 2) rs w.2 i (omega arith) in
    (x, e, ground (arith, end_after (r.end + 2) i rs x w.2 e))

module _ (limit lo : ℕ) (r : Run) (rs : List Run) (w : RunsFrom lo (r ∷ rs))
    (inside : r.end < limit) where
  found :
      gallop_forward false run_end_key (r ∷ rs) 1 (length (r ∷ rs)) limit
      ≡ some (crossed limit (r ∷ rs))
  found =
      gallop_forward_lem false run_end_key (r ∷ rs) 1 (length (r ∷ rs)) limit
        (crossed limit (r ∷ rs)) (omega arith) (crossed-le limit (r ∷ rs))
        (crossed_iff limit lo (r ∷ rs) w)
      ∙ ap some (ground arith)

  pub next_run_reaching_lem : next_run_reaching (r ∷ rs) limit ≡ some (reaching limit (r ∷ rs))
  unfolding next_run_reaching
  next_run_reaching_lem = rw (found, drop-crossed limit (r ∷ rs))

  pub copy_runs_inside_lem :
      copy_runs_inside (r ∷ rs) limit
      ≡ some (
        record {
          runs = ending_before limit (r ∷ rs);
          cardinality = runs_size (ending_before limit (r ∷ rs));
        },
        reaching limit (r ∷ rs),
      )
  unfolding copy_runs_inside
  copy_runs_inside_lem = rw (found, drop-crossed limit (r ∷ rs), take-crossed limit (r ∷ rs))

pub length-reaching : (limit : ℕ) (rs : List Run) → length (reaching limit rs) ≤ length rs
length-reaching limit [] = omega arith
length-reaching limit (r ∷ rs) = ground (arith, length-reaching limit rs)

pub reaching-RunsFrom :
    (limit lo : ℕ) (rs : List Run) → RunsFrom lo rs → RunsFrom lo (reaching limit rs)
reaching-RunsFrom limit lo [] w = tt
reaching-RunsFrom limit lo (r ∷ rs) w = ground (
  arith,
  reaching-RunsFrom limit (r.end + 2) rs,
  RunsFrom-mono (r.end + 2) lo (reaching limit rs),
)

pub reaching-Below : (limit n : ℕ) (rs : List Run) → Below n rs → Below n (reaching limit rs)
reaching-Below limit n [] w = tt
reaching-Below limit n (r ∷ rs) w = ground (arith, reaching-Below limit n rs)

pub ending_before-Below :
    (limit n : ℕ) (rs : List Run) → Below n rs → Below n (ending_before limit rs)
ending_before-Below limit n [] w = tt
ending_before-Below limit n (r ∷ rs) w = ground (arith, ending_before-Below limit n rs)

-- The two parts hold the list's values, and the first only values under the limit.
pub in_runs-reaching :
    (limit v : ℕ) (rs : List Run)
    → in_runs rs v ≡ (in_runs (ending_before limit rs) v || in_runs (reaching limit rs) v)
in_runs-reaching limit v [] = refl
in_runs-reaching limit v (r ∷ rs) = ground (arith, in_runs-reaching limit v rs)

pub ending_before_under :
    (limit v : ℕ) (rs : List Run) → limit ≤ v → in_runs (ending_before limit rs) v ≡ false
ending_before_under limit v [] h = refl
ending_before_under limit v (r ∷ rs) h = ground (arith, ending_before_under limit v rs)

pub ending_before_from :
    (limit lo v : ℕ) (rs : List Run)
    → RunsFrom lo rs
    → v < lo
    → in_runs (ending_before limit rs) v ≡ false
ending_before_from limit lo v [] w h = refl
ending_before_from limit lo v (r ∷ rs) w h =
    ground (arith, ending_before_from limit (r.end + 2) v rs)

-- What may follow the second part may follow the first.
pub ending_before-append :
    (limit lo : ℕ) (rs out : List Run)
    → RunsFrom lo rs
    → ((from : ℕ) → RunsFrom from (reaching limit rs) → RunsFrom from out)
    → RunsFrom lo (ending_before limit rs ++ out)
ending_before-append limit lo [] out w h = h lo tt
ending_before-append limit lo (r ∷ rs) out w h = elim (Bool-cases (ltb r.end limit)) [
  | inl under ↦
      rw under (
        w.0,
        w.1,
        ending_before-append limit (r.end + 2) rs out w.2 (λ from k. h from (rw under k)),
      )
  | inr past ↦ rw past (h lo (rw past w))
]
