-- ===== src/RunRef/Update.antt =====
-- The updates of a run handle keep it well formed and change the set by exactly their range or value.
use roaring.Prelude.{
  ℕ, ◌^◌, ◌≤◌, ◌<◌, ◌≡◌, ◌∙◌, ap, inl, inr, Bool, Bool-cases, not, ◌&&◌, ◌||◌, lt→ltb, le→ltb, ltb,
  List, [], ◌∷◌, some, arith, is_empty, order, count_below-cong, count_below-insert,
  count_below-delete,
}
use roaring.Values.{in_values, IsSorted, AllBelow}
use roaring.Runs.{Run, in_runs}
use roaring.RunContainer
use roaring.RunContainer.Ranges.{between, add_closed_range_lem, remove_closed_range_lem}
use roaring.RunContainer.Build
use roaring.RunContainer.Search
use roaring.RunRef.{
  RunHandle, sync_header, contains, add_closed_range, remove_closed_range, add, remove,
  from_sorted_values,
}
use roaring.RunRef.Valid.{IsValid, standalone, standalone-IsValid, sync_header-IsValid}

module _ (dom : ℕ) (small : dom ≤ 2 ^ 16) (c : RunHandle) where
  -- A handle with other runs of a known set.
  synced :
      (rs : List Run) (p : ℕ → Bool)
      → RunContainer.Valid.IsValid dom (RunContainer.recalculate_cardinality dom rs)
      → ((v : ℕ) → in_runs rs v ≡ p v)
      → IsValid dom (sync_header c rs) × ((v : ℕ) → in_runs (sync_header c rs).runs v ≡ p v)
  unfolding RunContainer.recalculate_cardinality
  synced rs p ok mem =
      let (valid, same) = sync_header-IsValid dom c rs small ok.ordered ok.within in
      (valid, λ v. ap (λ l. in_runs l v) same ∙ mem v)

  module _ (valid : IsValid dom c) where
    -- On a well formed run handle, the answer is membership.
    pub run_contains_lem : (value : ℕ) → contains c value ≡ some (in_runs c.runs value)
    unfolding contains RunContainer.contains
    run_contains_lem value = RunContainer.Search.contains_lem (standalone c) 0 value valid.ordered

    -- With an end in the domain, the handle stays well formed and holds the range besides what it
    -- held.
    pub run_add_range_lem :
        (b e : ℕ)
        → e < dom
        → IsValid dom (add_closed_range c b e)
          × ((v : ℕ)
              → in_runs (add_closed_range c b e).runs v ≡ (between b e v || in_runs c.runs v))
    unfolding add_closed_range RunContainer.add_closed_range RunContainer.recalculate_cardinality
    run_add_range_lem b e h =
        let (ok, mem) =
          add_closed_range_lem dom small (standalone c) (standalone-IsValid dom c valid) b e h in
        elim (order e b) [
          | inl empty ↦ rw (lt→ltb e b empty) (valid, λ v. ground arith)
          | inr there ↦
              let range = le→ltb e b (omega arith) in
              rw range (
                synced _ (λ v. between b e v || in_runs c.runs v) (rw range at ok)
                  (rw range at mem))
        ]

    -- The handle stays well formed and loses exactly the range.
    pub run_remove_range_lem :
        (b e : ℕ)
        → IsValid dom (remove_closed_range dom c b e)
          × ((v : ℕ)
              → in_runs (remove_closed_range dom c b e).runs v
                ≡ (in_runs c.runs v && not (between b e v)))
    unfolding remove_closed_range RunContainer.remove_closed_range
        RunContainer.recalculate_cardinality
    run_remove_range_lem b e =
        let (ok, mem) =
          remove_closed_range_lem dom small (standalone c) (standalone-IsValid dom c valid) b e in
        elim (Bool-cases (ltb e b || is_empty c.runs)) [
          | inl nothing ↦ rw nothing (valid, rw nothing at mem)
          | inr there ↦ rw there (
              synced _ (λ v. in_runs c.runs v && not (between b e v)) (rw there at ok)
                (rw there at mem))
        ]

    -- For a value of the domain, the handle stays well formed and holds the value too; the result
    -- says whether it is new.
    pub run_add_lem :
        (value : ℕ)
        → value < dom
        → IsValid dom (add c value).0
          × ((v : ℕ) → in_runs (add c value).0.runs v ≡ (between value value v || in_runs c.runs v))
          × ((add c value).1 ≡ not (in_runs c.runs value))
    unfolding add
    run_add_lem value h =
        let (ok, mem) = run_add_range_lem value value h in
        (
          ok,
          mem,
          ground (
            arith,
            ok.counted,
            valid.counted,
            count_below-cong dom _ _ mem,
            count_below-insert dom value (in_runs c.runs) h,
          ),
        )

    -- For a value of the domain, the handle stays well formed and loses exactly the value; the
    -- result says whether it was there.
    pub run_remove_lem :
        (value : ℕ)
        → value < dom
        → IsValid dom (remove dom c value).0
          × ((v : ℕ)
              → in_runs (remove dom c value).0.runs v
                ≡ (in_runs c.runs v && not (between value value v)))
          × ((remove dom c value).1 ≡ in_runs c.runs value)
    unfolding remove
    run_remove_lem value h =
        let (ok, mem) = run_remove_range_lem value value in
        (
          ok,
          mem,
          ground (
            arith,
            ok.counted,
            valid.counted,
            count_below-cong dom _ _ mem,
            count_below-delete dom value (in_runs c.runs) h,
          ),
        )

  -- From values of the domain in order, repeated or not, a well formed handle of exactly these.
  pub run_from_values_lem :
      (vs : List ℕ)
      → IsSorted 0 vs
      → AllBelow dom vs
      → IsValid dom (from_sorted_values dom c vs)
        × ((v : ℕ) → in_runs (from_sorted_values dom c vs).runs v ≡ in_values vs v)
  unfolding from_sorted_values RunContainer.Build.from_sorted_values
      RunContainer.recalculate_cardinality
  run_from_values_lem [] s a =
      let (valid, same) = sync_header-IsValid dom c [] small tt tt in
      (valid, λ v. ap (λ l. in_runs l v) same)
  run_from_values_lem (x ∷ vs) s a =
      let (ok, mem) = RunContainer.Build.from_sorted_values_lem dom (x ∷ vs) small s a in
      synced _ (in_values (x ∷ vs)) ok mem
