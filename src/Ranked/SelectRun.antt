-- ===== src/Ranked/SelectRun.antt =====
-- The value of a rank in a run payload, by its rank block.
use roaring.Prelude.{
  ℕ, suc, ◌+◌, ◌-◌, ◌%◌, ◌^◌, ◌≤◌, ◌<◌, ◌≡◌, ◌∙◌, refl, ap, sym, subst, inl, inr, true, false, List,
  [], ◌∷◌, some, le→leb, lt→leb, arith, order, get_elem?, count_below, count_below-none,
  count_below-cong_below,
}
use roaring.Runs.{
  Run, in_runs, run_size, runs_size, RunsFrom, Below, in_runs_before, in_runs_above, runs_size-le,
}
use roaring.Frozen.Writer.{run_ranks}
use roaring.Ranked.{run_select, upper_bound}
use roaring.Ranked.Upto.{Chosen, upto, SortedBy, partition_point-upto}
use roaring.Ranked.Runs.{count-in_runs}

none_before :
    (v : ℕ) (rs : List Run) (lo : ℕ) → RunsFrom lo rs → v ≤ lo → count_below v (in_runs rs) ≡ 0
none_before v rs lo w h =
    count_below-cong_below v (in_runs rs) (λ u. false)
      (λ u l. in_runs_before lo u rs w (omega arith))
    ∙ count_below-none v

-- Where a rank points to: a run, the rank that it begins with, and the value that has the rank.
abbrev RunOfRank : ℕ → ℕ → List Run → List ℕ → ℕ → Type 0
RunOfRank before within rs ranks at =
    (r : Run) × (n : ℕ) × (get_elem? rs at ≡ some r)
    × (get_elem? ranks at ≡ some n)
    × (n ≤ within)
    × (within < n + run_size r)
    × (r.begin ≤ r.end)
    × (in_runs rs (r.begin + (within - n)) ≡ true)
    × (before + count_below (r.begin + (within - n)) (in_runs rs) ≡ within)

module _ (within : ℕ) where
  abbrev place : ℕ → List Run → ℕ
  place total rs = upto (λ n. n) (run_ranks total rs) within

  first_place :
      (total : ℕ) (r : Run) (rs : List Run) → within < total % 2 ^ 16 → place total (r ∷ rs) ≡ 0
  unfolding run_ranks
  first_place total r rs h = rw (lt→leb (total % 2 ^ 16) within h) refl

  later_place :
      (total : ℕ) (r : Run) (rs : List Run)
      → total % 2 ^ 16 ≤ within
      → place total (r ∷ rs) ≡ suc (place ((total + run_size r) % 2 ^ 32) rs)
  unfolding run_ranks
  later_place total r rs h = rw (le→leb (total % 2 ^ 16) within h) refl

  -- The run in front has the rank.
  front_run :
      (before total : ℕ) (r : Run) (rs : List Run)
      → before < 2 ^ 16
      → before ≤ within
      → within < before + run_size r
      → r.begin ≤ r.end
      → RunsFrom (r.end + 2) rs
      → RunOfRank before within (r ∷ rs) (run_ranks before (r ∷ rs)) 0
  unfolding run_ranks
  front_run before total r rs s a b ne w =
      let small : before % 2 ^ 16 ≡ before = omega arith in
      let v = r.begin + (within - before) in
      rw small (
        r,
        before,
        refl,
        refl,
        a,
        b,
        ne,
        ground arith,
        omega (arith, count-in_runs v r rs w, none_before v rs (r.end + 2) w (omega arith)),
      )

  run_of_rank :
      (lo before total : ℕ) (r : Run) (rs : List Run)
      → RunsFrom lo (r ∷ rs)
      → (before + run_size r) % 2 ^ 32 ≡ total
      → before ≤ within
      → within < before + runs_size (r ∷ rs)
      → before + runs_size (r ∷ rs) ≤ 2 ^ 16
      → RunOfRank before within (r ∷ rs) (run_ranks before (r ∷ rs)) (place total rs)
  unfolding run_ranks
  run_of_rank lo before total r [] w e a b s =
      front_run before total r [] (omega arith) a (omega arith) w.1 w.2
  run_of_rank lo before total r (q ∷ rs) w e a b s =
      let t : total ≡ before + run_size r = omega arith in
      let ranks = run_ranks before (r ∷ q ∷ rs) in
      elim (order within total) [
        | inl here ↦
            let at : place total (q ∷ rs) ≡ 0 = first_place total q rs (omega arith) in
            subst (RunOfRank before within (r ∷ q ∷ rs) ranks) (sym at)
              (front_run before total r (q ∷ rs) (omega arith) a (omega arith) w.1 w.2)
        | inr later ↦
            let next = (total + run_size q) % 2 ^ 32 in
            let at : place total (q ∷ rs) ≡ suc (place next rs) =
              later_place total q rs (omega arith) in
            let (y, n, found, there, l, m, ne, on, same) =
              run_of_rank (r.end + 2) total next q rs w.2 refl (omega arith) (omega arith)
                (omega arith) in
            let v = y.begin + (within - n) in
            let past = in_runs_before (r.end + 2) v (q ∷ rs) w.2 in
            let beyond : r.end + 2 ≤ v = ground (arith, past, on) in
            subst (RunOfRank before within (r ∷ q ∷ rs) ranks) (sym at) (
              y,
              n,
              found,
              ap (λ k. get_elem? (run_ranks k (q ∷ rs)) (place next rs)) e ∙ there,
              l,
              m,
              ne,
              ground (arith, on),
              omega (arith, same, count-in_runs v r (q ∷ rs) w.2),
            )
      ]

runs_sorted :
    (lo least before : ℕ) (rs : List Run)
    → RunsFrom least rs
    → lo ≤ before
    → before + runs_size rs ≤ 2 ^ 16
    → SortedBy (λ n. n) lo (run_ranks before rs)
unfolding run_ranks
runs_sorted lo least before [] w h s = tt
runs_sorted lo least before (r ∷ rs) w h s = (
  omega arith,
  runs_sorted (before % 2 ^ 16) (r.end + 2) ((before + run_size r) % 2 ^ 32) rs w.2 (omega arith)
      (omega arith),
)

-- On runs in order, coalesced and in a domain of at most 2^16 values, with their rank block, and a rank
-- below the number of the values: nothing is read out of bounds, the value that comes out is there,
-- and just as many are below it.
pub run_select_lem :
    (dom : ℕ) (rs : List Run) (within : ℕ)
    → dom ≤ 2 ^ 16
    → RunsFrom 0 rs
    → Below dom rs
    → within < runs_size rs
    → (v : ℕ) × (run_select rs (run_ranks 0 rs) within ≡ some v)
      × (v < dom)
      × Chosen (in_runs rs) within v
unfolding run_select upper_bound run_ranks
run_select_lem dom [] within s w b h = absurd (omega arith)
run_select_lem dom (r ∷ rs) within s w b h =
    let total = (0 + run_size r) % 2 ^ 32 in
    let most = runs_size-le dom 0 (r ∷ rs) w b in
    let (q, n, found, there, l, m, ne, on, same) =
      run_of_rank within 0 0 total r rs w refl (omega arith) (omega arith) (omega arith) in
    let sorted = runs_sorted 0 (r.end + 2) total rs w.2 (omega arith) (omega arith) in
    let v = q.begin + (within - n) in
    let inside : v < dom = elim (order v dom) [
      | inl under ↦ under
      | inr over ↦
          let off = in_runs_above dom v (r ∷ rs) b (omega arith) in absurd (ground (arith, off, on))
    ] in
    (
      v,
      rw (partition_point-upto (λ k. k) 0 within (run_ranks total rs) sorted, found, there)
          (ap some (omega arith)),
      inside,
      (on, omega (arith, same)),
    )
