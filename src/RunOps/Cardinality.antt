-- ===== src/RunOps/Cardinality.antt =====
-- `intersect_runs_cardinality` of include/frsr/roaring/run_ops.hpp counts what `intersect_runs` writes.
use roaring.Prelude.{
  ℕ, zero, suc, ◌+◌, ◌-◌, ◌≤◌, ◌<◌, ◌≡◌, ◌∙◌, ap, inl, inr, max, min, ◌&&◌, List, [], ◌∷◌, Option,
  some, leb, le→leb, lt→leb, order, arith, length, if◌then◌else◌, count_below, count_below-cong,
}
use roaring.Runs.{Run, in_runs, runs_size-count, RunsFrom, Below}
use roaring.RunOps.{
  RunIntersection, joined, emit, cardinality_loop, intersect_runs_cardinality, intersect_runs,
}
use roaring.RunOps.Reach.{
  reaching, reaching-RunsFrom, reaching-Below, length-reaching, next_run_reaching_lem,
}
use roaring.RunOps.Merge.{
  Meets, Meets-comm, Meets-left_empty, Meets-crossed, Meets-left_ends, Meets-both_end,
}
use roaring.RunOps.Intersect.{from_first, nothing, intersect_runs_lem}

-- The count is that of the intersection.
abbrev Counts : ℕ → ℕ → List Run → List Run → Option ℕ → Type 0
Counts dom total lhs rhs o =
    (s : RunIntersection) × (o ≡ some (total + s.cardinality)) × Meets dom lhs rhs s

abbrev Done : ℕ → ℕ → Type 0
Done dom fuel =
    (total lo xlo : ℕ) (lhs rhs : List Run)
    → length lhs + length rhs < fuel
    → RunsFrom lo lhs
    → Below dom lhs
    → RunsFrom xlo rhs
    → Below dom rhs
    → Counts dom total lhs rhs (cardinality_loop fuel lhs rhs total)

module _ (dom fuel total lo xlo : ℕ) (done : Done dom fuel) (l r : Run) (ls rs : List Run)
    (rounds : length ls + length rs + 1 < fuel) (w : RunsFrom lo (l ∷ ls)) (b : Below dom (l ∷ ls))
    (x : RunsFrom xlo (r ∷ rs)) (c : Below dom (r ∷ rs)) where
  abbrev round : Option ℕ
  round = cardinality_loop (suc fuel) (l ∷ ls) (r ∷ rs) total

  crosses_left : l.end < r.begin → Counts dom total (l ∷ ls) (r ∷ rs) round
  unfolding cardinality_loop
  crosses_left before =
      let left = reaching r.begin (l ∷ ls) in
      let (s, e, m) =
        done total lo xlo left (r ∷ rs) (ground (arith, length-reaching r.begin ls))
          (reaching-RunsFrom r.begin lo (l ∷ ls) w) (reaching-Below r.begin dom (l ∷ ls) b) x c in
      (
        s,
        rw
            (
              le→leb (l.end + 1) r.begin (omega arith),
              next_run_reaching_lem r.begin lo l ls w before,
            )
            e,
        Meets-crossed dom r.begin (l ∷ ls) (r ∷ rs) s (from_first r rs x) m,
      )

  crosses_right : r.begin ≤ l.end → r.end < l.begin → Counts dom total (l ∷ ls) (r ∷ rs) round
  unfolding cardinality_loop
  crosses_right touches after =
      let right = reaching l.begin (r ∷ rs) in
      let (s, e, m) =
        done total lo xlo (l ∷ ls) right (ground (arith, length-reaching l.begin rs)) w b
          (reaching-RunsFrom l.begin xlo (r ∷ rs) x) (reaching-Below l.begin dom (r ∷ rs) c) in
      (
        s,
        rw
            (
              lt→leb (l.end + 1) r.begin (omega arith),
              le→leb (r.end + 1) l.begin (omega arith),
              next_run_reaching_lem l.begin xlo r rs x after,
            )
            e,
        Meets-comm
            (Meets-crossed dom l.begin (r ∷ rs) (l ∷ ls) s (from_first l ls w) (Meets-comm m)),
      )

  module _ (p : r.begin ≤ l.end) (q : l.begin ≤ r.end) where
    abbrev common : ℕ
    common = min (l.end + 1) (r.end + 1) - max l.begin r.begin

    overlap :
        round
        ≡ cardinality_loop fuel
            (if leb (l.end + 1) (r.end + 1) then ls else l ∷ ls)
            (if leb (r.end + 1) (l.end + 1) then rs else r ∷ rs)
            (total + common)
    unfolding cardinality_loop
    overlap =
        rw (lt→leb (l.end + 1) r.begin (omega arith), lt→leb (r.end + 1) l.begin (omega arith))

    left_first : l.end < r.end → Counts dom total (l ∷ ls) (r ∷ rs) round
    left_first ends =
        let (s, e, m) =
          done (total + common) (l.end + 2) xlo ls (r ∷ rs) (omega arith) w.2 b.1 x c in
        (
          joined (emit dom (max l.begin r.begin) (l.end + 1)) s,
          overlap
              ∙ rw
                  (
                    le→leb (l.end + 1) (r.end + 1) (omega arith),
                    lt→leb (r.end + 1) (l.end + 1) (omega arith),
                  )
                  (e ∙ ap some (omega arith)),
          Meets-left_ends dom l r ls rs s (from_first l ls w) (from_first r rs x) b.0 (p, q) ends m,
        )

    right_first : r.end < l.end → Counts dom total (l ∷ ls) (r ∷ rs) round
    right_first ends =
        let (s, e, m) =
          done (total + common) lo (r.end + 2) (l ∷ ls) rs (omega arith) w b x.2 c.1 in
        (
          joined (emit dom (max r.begin l.begin) (r.end + 1)) s,
          overlap
              ∙ rw
                  (
                    lt→leb (l.end + 1) (r.end + 1) (omega arith),
                    le→leb (r.end + 1) (l.end + 1) (omega arith),
                  )
                  (e ∙ ap some (omega arith)),
          Meets-comm (
              Meets-left_ends dom r l rs ls s (from_first r rs x) (from_first l ls w) c.0 (q, p)
                ends (Meets-comm m)),
        )

    both_first : l.end ≡ r.end → Counts dom total (l ∷ ls) (r ∷ rs) round
    both_first ends =
        let (s, e, m) =
          done (total + common) (l.end + 2) (r.end + 2) ls rs (omega arith) w.2 b.1 x.2 c.1 in
        (
          joined (emit dom (max l.begin r.begin) (l.end + 1)) s,
          overlap
              ∙ rw
                  (
                    le→leb (l.end + 1) (r.end + 1) (omega arith),
                    le→leb (r.end + 1) (l.end + 1) (omega arith),
                  )
                  (e ∙ ap some (omega arith)),
          Meets-both_end dom l r ls rs s (from_first l ls w) (from_first r rs x) b.0 (p, q) ends m,
        )

  round-Counts : Counts dom total (l ∷ ls) (r ∷ rs) round
  round-Counts = elim (order l.end r.begin) [
    | inl before ↦ crosses_left before
    | inr touches ↦ elim (order r.end l.begin) [
      | inl after ↦ crosses_right (omega arith) after
      | inr overlaps ↦ elim (order l.end r.end) [
        | inl ends ↦ left_first (omega arith) (omega arith) ends
        | inr (inl ends) ↦ right_first (omega arith) (omega arith) ends
        | inr (inr ends) ↦ both_first (omega arith) (omega arith) (omega arith)
      ]
    ]
  ]

cardinality_loop_counts : (dom fuel : ℕ) → Done dom fuel
unfolding cardinality_loop
cardinality_loop_counts dom zero total lo xlo lhs rhs h w b x c = absurd (omega arith)
cardinality_loop_counts dom (suc fuel) total lo xlo [] rhs h w b x c =
    (nothing, ap some (omega arith), Meets-left_empty dom rhs)
cardinality_loop_counts dom (suc fuel) total lo xlo (l ∷ ls) [] h w b x c =
    (nothing, ap some (omega arith), Meets-comm (Meets-left_empty dom (l ∷ ls)))
cardinality_loop_counts dom (suc fuel) total lo xlo (l ∷ ls) (r ∷ rs) h w b x c =
    round-Counts dom fuel total lo xlo (cardinality_loop_counts dom fuel) l r ls rs (omega arith) w
      b x c

-- The count of two well formed run lists under the domain size is made without a read out of
-- bounds, and it is the cardinality that `intersect_runs` computes, the number of common values.
pub intersect_runs_cardinality_lem :
    (dom : ℕ) (lhs rhs : List Run)
    → RunsFrom 0 lhs
    → Below dom lhs
    → RunsFrom 0 rhs
    → Below dom rhs
    → (s : RunIntersection) × (intersect_runs dom lhs rhs ≡ some s)
      × (intersect_runs_cardinality lhs rhs ≡ some s.cardinality)
      × (s.cardinality ≡ count_below dom (λ v. in_runs lhs v && in_runs rhs v))
unfolding intersect_runs_cardinality
intersect_runs_cardinality_lem dom lhs rhs w b x c =
    let (t, e, m) =
      cardinality_loop_counts dom (length lhs + length rhs + 1) 0 0 0 lhs rhs (omega arith) w b x
        c in
    let (s, f, o, k, same, n) = intersect_runs_lem dom lhs rhs w b x c in
    let count_t = count_below-cong dom _ _ m.same in
    let count_s = count_below-cong dom _ _ same in
    (
      s,
      f,
      e
          ∙ ap some (
              omega (
                arith,
                m.counted,
                n,
                count_t,
                count_s,
                runs_size-count dom 0 t.runs (m.like_left 0 w) m.within,
              )),
      n ∙ count_s,
    )
