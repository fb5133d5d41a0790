-- ===== src/RunOps/Xor.antt =====
-- The merges of include/frsr/roaring/run_ops.hpp that make a symmetric difference: `xor_runs` and
-- `xor_values_runs`.
use roaring.Prelude.{
  ℕ, ◌+◌, ◌≡◌, ◌∙◌, refl, min, max, Bool, false, xor, List, [], ◌∷◌, leb, if◌then◌else◌, arith,
  order, inl, inr, le→leb, lt→leb,
}
use roaring.Values.{in_values, in_values_before, Ascending, AllBelow}
use roaring.Runs.{Run, in_run, in_runs, in_runs_before, RunsFrom, RunsFrom-mono, Below}
use roaring.RunOps.Builder.{rev_onto, from_front, in_runs-rev_onto, rev_onto-Below}
use roaring.RunOps.Union.{one}
use roaring.RunOps.Exclusive.{append_run_exclusive, Holds, exclusive-Holds}

xor_all : ℕ → List Run → List Run → List Run
xor_all dom out [] = out
xor_all dom out (r ∷ rs) = xor_all dom (append_run_exclusive dom out r.begin r.end) rs

xor_loop : ℕ → List Run → List Run → List Run → List Run
unfolding xor_all
xor_loop dom out [] rs = xor_all dom out rs
xor_loop dom out (l ∷ ls) [] = xor_all dom out (l ∷ ls)
xor_loop dom out (l ∷ ls) (r ∷ rs) =
    let take_left = xor_loop dom (append_run_exclusive dom out l.begin l.end) ls (r ∷ rs) in
    let take_right = xor_loop dom (append_run_exclusive dom out r.begin r.end) (l ∷ ls) rs in
    if leb l.begin r.begin then take_left else take_right

pub xor_runs : ℕ → List Run → List Run → List Run
unfolding xor_loop
xor_runs dom lhs rhs = rev_onto (xor_loop dom [] lhs rhs) []

xor_values : ℕ → List Run → List ℕ → List Run
xor_values dom out [] = out
xor_values dom out (v ∷ vs) = xor_values dom (append_run_exclusive dom out v v) vs

xor_values_loop : ℕ → List Run → List ℕ → List Run → List Run
unfolding xor_all xor_values
xor_values_loop dom out [] rs = xor_all dom out rs
xor_values_loop dom out (v ∷ vs) [] = xor_values dom out (v ∷ vs)
xor_values_loop dom out (v ∷ vs) (r ∷ rs) =
    let take_run = xor_values_loop dom (append_run_exclusive dom out r.begin r.end) (v ∷ vs) rs in
    let take_value = xor_values_loop dom (append_run_exclusive dom out v v) vs (r ∷ rs) in
    if leb r.begin v then take_run else take_value

pub xor_values_runs : ℕ → List ℕ → List Run → List Run
unfolding xor_values_loop
xor_values_runs dom values runs = rev_onto (xor_values_loop dom [] values runs) []

abbrev Made : ℕ → (ℕ → Bool) → List Run → Type 0
Made dom p out = (mine other : ℕ) × Holds dom mine other p out

Holds-cong :
    (dom mine other : ℕ) (p q : ℕ → Bool) (out : List Run)
    → ((v : ℕ) → p v ≡ q v)
    → Holds dom mine other p out
    → Holds dom mine other q out
Holds-cong dom mine other p q out e m = record {
  ordered = m.ordered;
  ends = m.ends;
  within = m.within;
  same = λ v. m.same v ∙ e v;
}

Holds-swap :
    (dom mine other : ℕ) (p : ℕ → Bool) (out : List Run)
    → Holds dom mine other p out
    → Holds dom other mine p out
Holds-swap dom mine other p out m =
    let a : min mine other ≡ min other mine = omega arith in
    let b : max mine other ≡ max other mine = omega arith in
    record { ordered = rw a at m.ordered; ends = rw b at m.ends; within = m.within; same = m.same }

Made-cong :
    (dom : ℕ) (p q : ℕ → Bool) (out : List Run)
    → ((v : ℕ) → p v ≡ q v)
    → Made dom p out
    → Made dom q out
Made-cong dom p q out e (mine, other, m) = (mine, other, Holds-cong dom mine other p q out e m)

xor-false : (a : Bool) → a ≡ xor a false
xor-false a = ground arith

module _ (dom : ℕ) where
  xor_all-Made :
      (mine other : ℕ) (p : ℕ → Bool) (out : List Run) (rs : List Run)
      → Holds dom mine other p out
      → RunsFrom mine rs
      → Below dom rs
      → Made dom (λ v. xor (p v) (in_runs rs v)) (xor_all dom out rs)
  unfolding xor_all
  xor_all-Made mine other p out [] m w k =
      (mine, other, Holds-cong dom mine other p _ out (λ v. xor-false (p v)) m)
  xor_all-Made mine other p out (r ∷ rs) m w k =
      Made-cong dom _ _ _ (λ v. ground (arith, in_runs_before (r.end + 2) v rs w.2))
        (xor_all-Made (r.end + 1) (max other r.begin) (λ v. xor (p v) (in_run r v))
          (append_run_exclusive dom out r.begin r.end) rs
          (exclusive-Holds dom mine other r.begin r.end w.0 w.1 k.0 p out m)
          (RunsFrom-mono (r.end + 2) (r.end + 1) rs (omega arith) w.2) k.1)

  xor_loop-Made :
      (lo xlo : ℕ) (p : ℕ → Bool) (out : List Run) (ls rs : List Run)
      → Holds dom lo xlo p out
      → RunsFrom lo ls
      → Below dom ls
      → RunsFrom xlo rs
      → Below dom rs
      → Made dom (λ v. xor (p v) (xor (in_runs ls v) (in_runs rs v))) (xor_loop dom out ls rs)
  unfolding xor_loop
  xor_loop-Made lo xlo p out [] rs m w k x c =
      xor_all-Made xlo lo p out rs (Holds-swap dom lo xlo p out m) x c
  xor_loop-Made lo xlo p out (l ∷ ls) [] m w k x c =
      Made-cong dom _ _ _ (λ v. ground arith) (xor_all-Made lo xlo p out (l ∷ ls) m w k)
  xor_loop-Made lo xlo p out (l ∷ ls) (r ∷ rs) m w k x c = elim (order r.begin l.begin) [
    | inr left ↦ rw (le→leb l.begin r.begin (omega arith)) (
        Made-cong dom _ _ _ (λ v. ground (arith, in_runs_before (l.end + 2) v ls w.2))
          (xor_loop-Made (l.end + 1) (max xlo l.begin) (λ v. xor (p v) (in_run l v))
            (append_run_exclusive dom out l.begin l.end) ls (r ∷ rs)
            (exclusive-Holds dom lo xlo l.begin l.end w.0 w.1 k.0 p out m)
            (RunsFrom-mono (l.end + 2) (l.end + 1) ls (omega arith) w.2) k.1 (omega arith, x.1, x.2)
            c))
    | inl right ↦ rw (lt→leb l.begin r.begin right) (
        Made-cong dom _ _ _ (λ v. ground (arith, in_runs_before (r.end + 2) v rs x.2))
          (xor_loop-Made (max lo r.begin) (r.end + 1) (λ v. xor (p v) (in_run r v))
            (append_run_exclusive dom out r.begin r.end) (l ∷ ls) rs
            (Holds-swap dom (r.end + 1) (max lo r.begin) _ _ (
              exclusive-Holds dom xlo lo r.begin r.end x.0 x.1 c.0 p out
                (Holds-swap dom lo xlo p out m)))
            (omega arith, w.1, w.2) k (RunsFrom-mono (r.end + 2) (r.end + 1) rs (omega arith) x.2)
            c.1))
  ]

  xor_values-Made :
      (mine other : ℕ) (p : ℕ → Bool) (out : List Run) (vs : List ℕ)
      → Holds dom mine other p out
      → Ascending mine vs
      → AllBelow dom vs
      → Made dom (λ v. xor (p v) (in_values vs v)) (xor_values dom out vs)
  unfolding xor_values
  xor_values-Made mine other p out [] m w k =
      (mine, other, Holds-cong dom mine other p _ out (λ v. xor-false (p v)) m)
  xor_values-Made mine other p out (y ∷ ys) m w k =
      Made-cong dom _ _ _ (λ v. ground (arith, in_values_before (y + 1) v ys w.1))
        (xor_values-Made (y + 1) (max other y) (λ v. xor (p v) (in_run (one y) v))
          (append_run_exclusive dom out y y) ys
          (exclusive-Holds dom mine other y y w.0 (omega arith) k.0 p out m) w.1 k.1)

  xor_values_loop-Made :
      (lo xlo : ℕ) (p : ℕ → Bool) (out : List Run) (vs : List ℕ) (rs : List Run)
      → Holds dom lo xlo p out
      → Ascending lo vs
      → AllBelow dom vs
      → RunsFrom xlo rs
      → Below dom rs
      → Made dom
          (λ v. xor (p v) (xor (in_values vs v) (in_runs rs v)))
          (xor_values_loop dom out vs rs)
  unfolding xor_values_loop
  xor_values_loop-Made lo xlo p out [] rs m w k x c =
      xor_all-Made xlo lo p out rs (Holds-swap dom lo xlo p out m) x c
  xor_values_loop-Made lo xlo p out (y ∷ ys) [] m w k x c =
      Made-cong dom _ _ _ (λ v. ground arith) (xor_values-Made lo xlo p out (y ∷ ys) m w k)
  xor_values_loop-Made lo xlo p out (y ∷ ys) (r ∷ rs) m w k x c = elim (order y r.begin) [
    | inl value ↦ rw (lt→leb r.begin y value) (
        Made-cong dom _ _ _ (λ v. ground (arith, in_values_before (y + 1) v ys w.1))
          (xor_values_loop-Made (y + 1) (max xlo y) (λ v. xor (p v) (in_run (one y) v))
            (append_run_exclusive dom out y y) ys (r ∷ rs)
            (exclusive-Holds dom lo xlo y y w.0 (omega arith) k.0 p out m) w.1 k.1
            (omega arith, x.1, x.2) c))
    | inr run ↦ rw (le→leb r.begin y (omega arith)) (
        Made-cong dom _ _ _ (λ v. ground (arith, in_runs_before (r.end + 2) v rs x.2))
          (xor_values_loop-Made (max lo r.begin) (r.end + 1) (λ v. xor (p v) (in_run r v))
            (append_run_exclusive dom out r.begin r.end) (y ∷ ys) rs
            (Holds-swap dom (r.end + 1) (max lo r.begin) _ _ (
              exclusive-Holds dom xlo lo r.begin r.end x.0 x.1 c.0 p out
                (Holds-swap dom lo xlo p out m)))
            (omega arith, w.1) k (RunsFrom-mono (r.end + 2) (r.end + 1) rs (omega arith) x.2) c.1))
  ]

  -- What has been written, from the front.
  finished :
      (p : ℕ → Bool) (out : List Run)
      → Made dom p out
      → RunsFrom 0 (rev_onto out [])
        × Below dom (rev_onto out [])
        × ((v : ℕ) → in_runs (rev_onto out []) v ≡ p v)
  finished p out (mine, other, m) = (
    from_front (min mine other) out m.ordered,
    rev_onto-Below dom out [] m.within tt,
    λ v. ground (arith, in_runs-rev_onto out [] v, m.same v),
  )

  nothing : Holds dom 0 0 (λ v. false) []
  nothing = record { ordered = tt; ends = tt; within = tt; same = λ v. refl }

  -- The symmetric difference of two well formed run lists under the domain size is well formed, and
  -- holds exactly the values of one list and not the other.
  pub xor_runs_lem :
      (lhs rhs : List Run)
      → RunsFrom 0 lhs
      → Below dom lhs
      → RunsFrom 0 rhs
      → Below dom rhs
      → RunsFrom 0 (xor_runs dom lhs rhs)
        × Below dom (xor_runs dom lhs rhs)
        × ((v : ℕ) → in_runs (xor_runs dom lhs rhs) v ≡ xor (in_runs lhs v) (in_runs rhs v))
  unfolding xor_runs
  xor_runs_lem lhs rhs w k x c =
      finished _ _ (xor_loop-Made 0 0 (λ v. false) [] lhs rhs nothing w k x c)

  -- The symmetric difference of an ascending array and a well formed run list, both under the
  -- domain size, is a well formed run list of exactly the values of one and not the other.
  pub xor_values_runs_lem :
      (values : List ℕ) (runs : List Run)
      → Ascending 0 values
      → AllBelow dom values
      → RunsFrom 0 runs
      → Below dom runs
      → RunsFrom 0 (xor_values_runs dom values runs)
        × Below dom (xor_values_runs dom values runs)
        × ((v : ℕ)
            → in_runs (xor_values_runs dom values runs) v
              ≡ xor (in_values values v) (in_runs runs v))
  unfolding xor_values_runs
  xor_values_runs_lem values runs w k x c =
      finished _ _ (xor_values_loop-Made 0 0 (λ v. false) [] values runs nothing w k x c)
