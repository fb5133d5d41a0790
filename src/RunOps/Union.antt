-- ===== src/RunOps/Union.antt =====
-- The unions of include/frsr/roaring/run_ops.hpp: two run lists, or a run list and sorted values, merged
-- by their first values.
use roaring.Prelude.{
  ℕ, ◌+◌, ◌^◌, ◌≤◌, ◌≡◌, Bool, false, ◌||◌, List, [], ◌∷◌, leb, ltb, if◌then◌else◌, arith, order,
  inl, inr, lt→ltb, le→ltb, le→leb, lt→leb,
}
use roaring.Values.{in_values, Ascending, Ascending-mono, AllBelow}
use roaring.Runs.{Run, in_run, in_runs, RunsFrom, RunsFrom-mono, Below}
use roaring.RunContainer.{RunContainer}
use roaring.RunContainer.Valid.{IsValid}
use roaring.RunOps.Builder.{
  Builder, empty, append_run, built, Holds, append_run-Holds, empty-Holds, built-IsValid,
  Holds-cong,
}

append_all : ℕ → Builder → List Run → Builder
append_all dom b [] = b
append_all dom b (r ∷ rs) = append_all dom (append_run dom b r) rs

union_loop : ℕ → Builder → List Run → List Run → Builder
unfolding append_all
union_loop dom b [] rs = append_all dom b rs
union_loop dom b (l ∷ ls) [] = append_all dom b (l ∷ ls)
union_loop dom b (l ∷ ls) (r ∷ rs) =
    let take_left = union_loop dom (append_run dom b l) ls (r ∷ rs) in
    let take_right = union_loop dom (append_run dom b r) (l ∷ ls) rs in
    if ltb l.begin r.begin then take_left else take_right

pub union_run_run : ℕ → List Run → List Run → RunContainer
unfolding union_loop
union_run_run dom lhs rhs = built (union_loop dom empty lhs rhs)

-- A value as a run of one.
abbrev pub one : ℕ → Run
one v = record { begin = v; end = v }

append_values : ℕ → Builder → List ℕ → Builder
append_values dom b [] = b
append_values dom b (v ∷ vs) = append_values dom (append_run dom b (one v)) vs

union_values_loop : ℕ → Builder → List Run → List ℕ → Builder
unfolding append_all append_values
union_values_loop dom b [] vs = append_values dom b vs
union_values_loop dom b (r ∷ rs) [] = append_all dom b (r ∷ rs)
union_values_loop dom b (r ∷ rs) (v ∷ vs) =
    let take_run = union_values_loop dom (append_run dom b r) rs (v ∷ vs) in
    let take_value = union_values_loop dom (append_run dom b (one v)) (r ∷ rs) vs in
    if leb r.begin v then take_run else take_value

pub union_run_array : ℕ → List Run → List ℕ → RunContainer
unfolding union_values_loop
union_run_array dom lhs rhs = built (union_values_loop dom empty lhs rhs)

abbrev Made : ℕ → (ℕ → Bool) → Builder → Type 0
Made dom p b = (lim : ℕ) × Holds dom lim p b

Made-cong :
    (dom : ℕ) (p q : ℕ → Bool) (b : Builder) → ((v : ℕ) → p v ≡ q v) → Made dom p b → Made dom q b
Made-cong dom p q b e (lim, m) = (lim, Holds-cong dom lim p q b e m)

module _ (dom : ℕ) (small : dom ≤ 2 ^ 16) where
  append_all-Made :
      (lim : ℕ) (p : ℕ → Bool) (b : Builder) (rs : List Run)
      → Holds dom lim p b
      → RunsFrom lim rs
      → Below dom rs
      → Made dom (λ v. p v || in_runs rs v) (append_all dom b rs)
  unfolding append_all
  append_all-Made lim p b [] m w k = (lim, Holds-cong dom lim p _ b (λ v. ground arith) m)
  append_all-Made lim p b (r ∷ rs) m w k =
      Made-cong dom _ _ _ (λ v. ground arith)
        (append_all-Made r.begin (λ v. p v || in_run r v) (append_run dom b r) rs
          (append_run-Holds dom small lim p b r m w.0 w.1 k.0)
          (RunsFrom-mono (r.end + 2) r.begin rs (omega arith) w.2) k.1)

  union_loop-Made :
      (lim : ℕ) (p : ℕ → Bool) (b : Builder) (ls rs : List Run)
      → Holds dom lim p b
      → RunsFrom lim ls
      → Below dom ls
      → RunsFrom lim rs
      → Below dom rs
      → Made dom (λ v. p v || (in_runs ls v || in_runs rs v)) (union_loop dom b ls rs)
  unfolding union_loop
  union_loop-Made lim p b [] rs m w k x c = append_all-Made lim p b rs m x c
  union_loop-Made lim p b (l ∷ ls) [] m w k x c =
      Made-cong dom _ _ _ (λ v. ground arith) (append_all-Made lim p b (l ∷ ls) m w k)
  union_loop-Made lim p b (l ∷ ls) (r ∷ rs) m w k x c = elim (order l.begin r.begin) [
    | inl left ↦ rw (lt→ltb l.begin r.begin left) (
        Made-cong dom _ _ _ (λ v. ground arith)
          (union_loop-Made l.begin (λ v. p v || in_run l v) (append_run dom b l) ls (r ∷ rs)
            (append_run-Holds dom small lim p b l m w.0 w.1 k.0)
            (RunsFrom-mono (l.end + 2) l.begin ls (omega arith) w.2) k.1 (omega arith, x.1, x.2) c))
    | inr right ↦ rw (le→ltb l.begin r.begin (omega arith)) (
        Made-cong dom _ _ _ (λ v. ground arith)
          (union_loop-Made r.begin (λ v. p v || in_run r v) (append_run dom b r) (l ∷ ls) rs
            (append_run-Holds dom small lim p b r m x.0 x.1 c.0) (omega arith, w.1, w.2) k
            (RunsFrom-mono (r.end + 2) r.begin rs (omega arith) x.2) c.1))
  ]

  -- The union of two well formed run lists under a domain size of at most 2^16 is well formed, its
  -- cardinality is exact, and it holds exactly the values of either.
  pub union_run_run_lem :
      (lhs rhs : List Run)
      → RunsFrom 0 lhs
      → Below dom lhs
      → RunsFrom 0 rhs
      → Below dom rhs
      → IsValid dom (union_run_run dom lhs rhs)
        × ((v : ℕ) → in_runs (union_run_run dom lhs rhs).runs v ≡ (in_runs lhs v || in_runs rhs v))
  unfolding union_run_run
  union_run_run_lem lhs rhs w k x c =
      let (lim, m) = union_loop-Made 0 (λ v. false) empty lhs rhs (empty-Holds dom) w k x c in
      built-IsValid dom lim _ _ m

  append_values-Made :
      (lim : ℕ) (p : ℕ → Bool) (b : Builder) (vs : List ℕ)
      → Holds dom lim p b
      → Ascending lim vs
      → AllBelow dom vs
      → Made dom (λ v. p v || in_values vs v) (append_values dom b vs)
  unfolding append_values
  append_values-Made lim p b [] m w k = (lim, Holds-cong dom lim p _ b (λ v. ground arith) m)
  append_values-Made lim p b (x ∷ xs) m w k =
      Made-cong dom _ _ _ (λ v. ground arith)
        (append_values-Made x (λ v. p v || in_run (one x) v) (append_run dom b (one x)) xs
          (append_run-Holds dom small lim p b (one x) m w.0 (omega arith) k.0)
          (Ascending-mono (x + 1) x xs (omega arith) w.1) k.1)

  union_values_loop-Made :
      (lim : ℕ) (p : ℕ → Bool) (b : Builder) (rs : List Run) (vs : List ℕ)
      → Holds dom lim p b
      → RunsFrom lim rs
      → Below dom rs
      → Ascending lim vs
      → AllBelow dom vs
      → Made dom (λ v. p v || (in_runs rs v || in_values vs v)) (union_values_loop dom b rs vs)
  unfolding union_values_loop
  union_values_loop-Made lim p b [] vs m w k x c = append_values-Made lim p b vs m x c
  union_values_loop-Made lim p b (r ∷ rs) [] m w k x c =
      Made-cong dom _ _ _ (λ v. ground arith) (append_all-Made lim p b (r ∷ rs) m w k)
  union_values_loop-Made lim p b (r ∷ rs) (y ∷ ys) m w k x c = elim (order y r.begin) [
    | inr run ↦ rw (le→leb r.begin y (omega arith)) (
        Made-cong dom _ _ _ (λ v. ground arith)
          (union_values_loop-Made r.begin (λ v. p v || in_run r v) (append_run dom b r) rs (y ∷ ys)
            (append_run-Holds dom small lim p b r m w.0 w.1 k.0)
            (RunsFrom-mono (r.end + 2) r.begin rs (omega arith) w.2) k.1 (omega arith, x.1) c))
    | inl value ↦ rw (lt→leb r.begin y value) (
        Made-cong dom _ _ _ (λ v. ground arith)
          (union_values_loop-Made y (λ v. p v || in_run (one y) v) (append_run dom b (one y))
            (r ∷ rs) ys (append_run-Holds dom small lim p b (one y) m x.0 (omega arith) c.0)
            (omega arith, w.1, w.2) k (Ascending-mono (y + 1) y ys (omega arith) x.1) c.1))
  ]

  -- The union of a well formed run list and an ascending array, both under a domain size of at most
  -- 2^16, is well formed, its cardinality is exact, and it holds exactly the values of either.
  pub union_run_array_lem :
      (lhs : List Run) (rhs : List ℕ)
      → RunsFrom 0 lhs
      → Below dom lhs
      → Ascending 0 rhs
      → AllBelow dom rhs
      → IsValid dom (union_run_array dom lhs rhs)
        × ((v : ℕ)
            → in_runs (union_run_array dom lhs rhs).runs v ≡ (in_runs lhs v || in_values rhs v))
  unfolding union_run_array
  union_run_array_lem lhs rhs w k x c =
      let (lim, m) =
        union_values_loop-Made 0 (λ v. false) empty lhs rhs (empty-Holds dom) w k x c in
      built-IsValid dom lim _ _ m
