-- ===== src/RunOps/Whole.antt =====
-- The intersection of two run containers, with its short cuts for an empty and for a full one.
use roaring.Prelude.{
  ℕ, ◌%◌, ◌^◌, ◌≤◌, ◌<◌, ◌≡◌, ◌∙◌, refl, sym, true, false, ◌&&◌, ◌||◌, List, [], ◌∷◌, some, arith,
  order, inl, inr, is_empty, mod-eq_of_lt, Bool-cases, count_below-le, count_below-none, Bool,
}
use roaring.Runs.{Run, in_runs, in_runs_above, Below}
use roaring.RunContainer.{RunContainer, cardinality_mod}
use roaring.RunContainer.Valid.{IsValid, domain-lt-cardinality_mod}
use roaring.RunOps.{run_is_full, run_container_from, to_container, intersect_run_run}
use roaring.RunOps.Intersect.{intersect_runs_lem}

one-empty :
    (xs ys : List Run) (v : ℕ)
    → is_empty xs || is_empty ys ≡ true
    → false ≡ (in_runs xs v && in_runs ys v)
one-empty [] ys v h = refl
one-empty (x ∷ xs) [] v h = ground arith
one-empty (x ∷ xs) (y ∷ ys) v h = ground arith

-- A full list holds every value of the domain.
full-in_runs :
    (dom v : ℕ) (rs : List Run) → run_is_full dom rs ≡ true → v < dom → in_runs rs v ≡ true
unfolding run_is_full
full-in_runs dom v [] h k = ground arith
full-in_runs dom v (r ∷ []) h k = ground arith
full-in_runs dom v (r ∷ s ∷ rs) h k = ground arith

&&-comm : (a b : Bool) → a && b ≡ (b && a)
&&-comm a b = ground arith

module _ (dom : ℕ) (small : dom ≤ 2 ^ 16) where
  count-fits :
      (c : RunContainer) → IsValid dom c → c.cardinality % cardinality_mod dom ≡ c.cardinality
  count-fits c valid = mod-eq_of_lt (
      omega (
        arith,
        valid.counted,
        count_below-le dom (in_runs c.runs),
        domain-lt-cardinality_mod dom small,
      ))

  run_container_from-IsValid :
      (c : RunContainer) → IsValid dom c → IsValid dom (run_container_from dom c)
  run_container_from-IsValid c valid = record {
    ordered = valid.ordered;
    within = valid.within;
    counted = count-fits c valid ∙ valid.counted;
  }

  full-and :
      (full other : List Run) (v : ℕ)
      → run_is_full dom full ≡ true
      → Below dom other
      → in_runs other v ≡ (in_runs full v && in_runs other v)
  full-and full other v h b = elim (order v dom) [
    | inl in_domain ↦ ground (arith, full-in_runs dom v full h in_domain)
    | inr past ↦ ground (arith, in_runs_above dom v other b)
  ]

  -- The intersection of two well formed run containers over a domain of at most 2^16 values, one of
  -- them empty, full or neither, is computed without a read out of bounds and is well formed, and
  -- it holds exactly the common values.
  pub intersect_run_run_lem :
      (lhs rhs : RunContainer)
      → IsValid dom lhs
      → IsValid dom rhs
      → (c : RunContainer) × (intersect_run_run dom lhs rhs ≡ some c)
        × IsValid dom c
        × ((v : ℕ) → in_runs c.runs v ≡ (in_runs lhs.runs v && in_runs rhs.runs v))
  unfolding intersect_run_run
  intersect_run_run_lem lhs rhs l r = elim (Bool-cases (is_empty lhs.runs || is_empty rhs.runs)) [
    | inl none_left ↦ (
      record { runs = []; cardinality = 0 },
      rw none_left refl,
      record { ordered = tt; within = tt; counted = sym (count_below-none dom) },
      λ v. one-empty lhs.runs rhs.runs v none_left,
    )
    | inr some_left ↦ elim (Bool-cases (run_is_full dom lhs.runs)) [
      | inl left_full ↦ (
        run_container_from dom rhs,
        rw (some_left, left_full) refl,
        run_container_from-IsValid rhs r,
        λ v. full-and lhs.runs rhs.runs v left_full r.within,
      )
      | inr left_part ↦ elim (Bool-cases (run_is_full dom rhs.runs)) [
        | inl right_full ↦ (
          run_container_from dom lhs,
          rw (some_left, left_part, right_full) refl,
          run_container_from-IsValid lhs l,
          λ v.
              full-and rhs.runs lhs.runs v right_full l.within
              ∙ &&-comm (in_runs rhs.runs v) (in_runs lhs.runs v),
        )
        | inr right_part ↦
            let (s, e, w, b, same, counted) =
              intersect_runs_lem dom lhs.runs rhs.runs l.ordered l.within r.ordered r.within in
            let valid : IsValid dom (record { runs = s.runs; cardinality = s.cardinality }) =
              record { ordered = w; within = b; counted = counted } in
            (
              to_container dom s,
              rw (some_left, left_part, right_part, e) refl,
              run_container_from-IsValid (record { runs = s.runs; cardinality = s.cardinality })
                  valid,
              same,
            )
      ]
    ]
  ]
