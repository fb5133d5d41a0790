-- ===== src/RunContainer/Ranges.antt =====
-- The operations that change a container by a range or a value: they keep it well formed, and change
-- the set by exactly that much.
use roaring.Prelude.{
  ℕ, ◌^◌, ◌≤◌, ◌<◌, ◌≡◌, refl, inl, inr, Bool, true, not, ◌&&◌, ◌||◌, lt→ltb, le→ltb, leb, ltb,
  List, [], ◌∷◌, arith, is_empty, Bool-cases, order, count_below-cong, count_below-insert,
  count_below-delete,
}
use roaring.Runs.{Run, in_runs}
use roaring.RunContainer.{RunContainer, add_closed_range, remove_closed_range, add, remove}
use roaring.RunContainer.Valid.{IsValid, recalculate_cardinality-IsValid}
use roaring.RunContainer.Add.{Grown, in_runs-merge_range, merge_range-RunsFrom, merge_range-Below}
use roaring.RunContainer.Remove.{in_runs-cut_range, cut_range-RunsFrom, cut_range-Below}

-- A value of the closed interval.
abbrev pub between : ℕ → ℕ → ℕ → Bool
between b e v = leb b v && leb v e

nothing_cut :
    (b e v : ℕ) (rs : List Run)
    → (ltb e b || is_empty rs) ≡ true
    → in_runs rs v ≡ (in_runs rs v && not (between b e v))
nothing_cut b e v [] h = refl
nothing_cut b e v (r ∷ rs) h = ground arith

module _ (dom : ℕ) (small : dom ≤ 2 ^ 16) (c : RunContainer) (valid : IsValid dom c) where
  -- On a well formed container of a domain of at most 2^16 values, with an end in the domain: the
  -- container stays well formed, its cardinality exact, and holds the range besides what it held.
  -- An empty range changes nothing.
  pub add_closed_range_lem :
      (b e : ℕ)
      → e < dom
      → IsValid dom (add_closed_range dom c b e)
        × ((v : ℕ)
            → in_runs (add_closed_range dom c b e).runs v ≡ (between b e v || in_runs c.runs v))
  unfolding add_closed_range
  add_closed_range_lem b e h = elim (order e b) [
    | inl none ↦ rw (lt→ltb e b none) (valid, λ v. ground arith)
    | inr some ↦
        let range : b ≤ e = omega arith in
        let g : Grown b e b e 0 = record {
          range = range;
          left = omega arith;
          right = omega arith;
          left_known = inl refl;
          right_known = inl refl;
        } in
        rw (le→ltb e b range) (
          recalculate_cardinality-IsValid dom _ small
              (merge_range-RunsFrom b e b e 0 0 c.runs g (omega arith) (inl (refl, omega arith))
                valid.ordered)
              (merge_range-Below b e b e dom Bool.false c.runs h valid.within),
          λ v. in_runs-merge_range b e b e 0 v c.runs g valid.ordered,
        )
  ]

  -- On a well formed container of a domain of at most 2^16 values: the container stays well formed,
  -- its cardinality exact, and loses exactly the range.
  pub remove_closed_range_lem :
      (b e : ℕ)
      → IsValid dom (remove_closed_range dom c b e)
        × ((v : ℕ)
            → in_runs (remove_closed_range dom c b e).runs v
              ≡ (in_runs c.runs v && not (between b e v)))
  unfolding remove_closed_range
  remove_closed_range_lem b e = elim (Bool-cases (ltb e b || is_empty c.runs)) [
    | inl nothing ↦ rw nothing (valid, λ v. nothing_cut b e v c.runs nothing)
    | inr some ↦
        let range : b ≤ e = ground arith in
        rw some (
          recalculate_cardinality-IsValid dom _ small
              (cut_range-RunsFrom dom b e 0 c.runs range valid.ordered valid.within)
              (cut_range-Below dom b e c.runs range valid.within),
          λ v. in_runs-cut_range dom b e 0 v c.runs range valid.ordered valid.within,
        )
  ]

  -- On a well formed container of a domain of at most 2^16 values, a value of the domain is in the
  -- container afterwards, the others as before; the container stays well formed, and the result
  -- says whether the value is new.
  pub add_lem :
      (value : ℕ)
      → value < dom
      → IsValid dom (add dom c value).0
        × ((v : ℕ)
            → in_runs (add dom c value).0.runs v ≡ (between value value v || in_runs c.runs v))
        × ((add dom c value).1 ≡ not (in_runs c.runs value))
  unfolding add
  add_lem value h =
      let (ok, mem) = add_closed_range_lem value value h in
      (
        ok,
        mem,
        ground (
          arith,
          ok.counted,
          valid.counted,
          count_below-cong dom _ _ mem,
          count_below-insert dom value (in_runs c.runs) h,
        ),
      )

  -- On a well formed container of a domain of at most 2^16 values, a value of the domain is gone
  -- afterwards, the others are as before; the container stays well formed, and the result says
  -- whether the value was there.
  pub remove_lem :
      (value : ℕ)
      → value < dom
      → IsValid dom (remove dom c value).0
        × ((v : ℕ)
            → in_runs (remove dom c value).0.runs v
              ≡ (in_runs c.runs v && not (between value value v)))
        × ((remove dom c value).1 ≡ in_runs c.runs value)
  unfolding remove
  remove_lem value h =
      let (ok, mem) = remove_closed_range_lem value value in
      (
        ok,
        mem,
        ground (
          arith,
          ok.counted,
          valid.counted,
          count_below-cong dom _ _ mem,
          count_below-delete dom value (in_runs c.runs) h,
        ),
      )
