-- ===== src/RunOps/Exclusive.antt =====
-- `append_run_exclusive` of include/frsr/roaring/containers.hpp: a run is exclusive-or-ed to the runs written
-- so far. The head of the list is the last of them.
use roaring.Prelude.{
  ℕ, ◌+◌, ◌-◌, ◌%◌, ◌≤◌, ◌<◌, ◌≡◌, ◌∙◌, refl, ap, min, max, Bool, false, xor, ◌||◌, List, [], ◌∷◌,
  ltb, ◌==◌, if◌then◌else◌, arith, order, inl, inr, lt→ltb, le→ltb, eq→==, gt→==, sym, mod-eq_of_lt,
}
use roaring.Runs.{Run, in_run, in_runs, Below}
use roaring.RunOps.{cast_run}
use roaring.RunOps.Builder.{Stacked, Ordered}

-- `last` is the run at `n - 1`.
exclude : ℕ → Run → List Run → ℕ → ℕ → List Run
exclude dom last earlier begin end =
    let old_end = last.end in
    let cut = record last { end = (begin - 1) % dom } in
    if begin == last.begin
    then (if ltb end old_end
        then cast_run dom (end + 1) old_end ∷ earlier
        else (if ltb old_end end then cast_run dom (old_end + 1) end ∷ earlier else earlier))
    else (if ltb end old_end
        then cast_run dom (end + 1) old_end ∷ cut ∷ earlier
        else (if ltb old_end end
            then cast_run dom (old_end + 1) end ∷ cut ∷ earlier
            else cut ∷ earlier))

pub append_run_exclusive : ℕ → List Run → ℕ → ℕ → List Run
unfolding exclude
append_run_exclusive dom [] begin end = cast_run dom begin end ∷ []
append_run_exclusive dom (last ∷ earlier) begin end =
    if ltb (last.end + 1) begin
    then cast_run dom begin end ∷ last ∷ earlier
    else (if last.end + 1 == begin
        then record last { end = end % dom } ∷ earlier
        else exclude dom last earlier begin end)

-- The last run written ends before the later of two bounds.
abbrev pub EndsBy : ℕ → List Run → Type 0
EndsBy hi [] = Unit
EndsBy hi (r ∷ rs) = r.end + 1 ≤ hi

Stacked-above : (hi v : ℕ) (rs : List Run) → Stacked hi rs → hi ≤ v → in_runs rs v ≡ false
Stacked-above hi v [] s h = refl
Stacked-above hi v (r ∷ rs) s h = ground (arith, Stacked-above r.begin v rs)

-- What is written holds the set `p`; the next run of one list starts at `mine` or later, that of the
-- other at `other` or later.
pub record Holds (dom mine other : ℕ) (p : ℕ → Bool) (out : List Run) : Type 0 where
  pub ordered : Ordered (min mine other) out
  pub ends : EndsBy (max mine other) out
  pub within : Below dom out
  pub same : (v : ℕ) → in_runs out v ≡ p v

module _ (dom mine other begin end : ℕ) (from : mine ≤ begin) (nonempty : begin ≤ end)
    (in_domain : end < dom) where
  abbrev pub next : Run
  next = record { begin = begin; end = end }

  exclusive-Ordered :
      (out : List Run)
      → Ordered (min mine other) out
      → EndsBy (max mine other) out
      → Below dom out
      → Ordered (min (end + 1) (max other begin)) (append_run_exclusive dom out begin end)
  unfolding append_run_exclusive
  exclusive-Ordered [] o e w =
      ground (arith, mod-eq_of_lt {n = begin} {m = dom}, mod-eq_of_lt {n = end} {m = dom})
  exclusive-Ordered (r ∷ []) o e w = ground (
    arith,
    mod-eq_of_lt {n = begin} {m = dom},
    mod-eq_of_lt {n = end} {m = dom},
    mod-eq_of_lt {n = begin - 1} {m = dom},
    mod-eq_of_lt {n = end + 1} {m = dom},
    mod-eq_of_lt {n = r.end + 1} {m = dom},
    mod-eq_of_lt {n = r.end} {m = dom},
  )
  exclusive-Ordered (r ∷ q ∷ rs) o e w = ground (
    arith,
    mod-eq_of_lt {n = begin} {m = dom},
    mod-eq_of_lt {n = end} {m = dom},
    mod-eq_of_lt {n = begin - 1} {m = dom},
    mod-eq_of_lt {n = end + 1} {m = dom},
    mod-eq_of_lt {n = r.end + 1} {m = dom},
    mod-eq_of_lt {n = r.end} {m = dom},
  )

  exclusive-EndsBy :
      (out : List Run)
      → Ordered (min mine other) out
      → EndsBy (max mine other) out
      → Below dom out
      → EndsBy (max (end + 1) (max other begin)) (append_run_exclusive dom out begin end)
  unfolding append_run_exclusive
  exclusive-EndsBy [] o e w =
      ground (arith, mod-eq_of_lt {n = begin} {m = dom}, mod-eq_of_lt {n = end} {m = dom})
  exclusive-EndsBy (r ∷ []) o e w = ground (
    arith,
    mod-eq_of_lt {n = begin} {m = dom},
    mod-eq_of_lt {n = end} {m = dom},
    mod-eq_of_lt {n = begin - 1} {m = dom},
    mod-eq_of_lt {n = end + 1} {m = dom},
    mod-eq_of_lt {n = r.end + 1} {m = dom},
    mod-eq_of_lt {n = r.end} {m = dom},
  )
  exclusive-EndsBy (r ∷ q ∷ rs) o e w = ground (
    arith,
    mod-eq_of_lt {n = begin} {m = dom},
    mod-eq_of_lt {n = end} {m = dom},
    mod-eq_of_lt {n = begin - 1} {m = dom},
    mod-eq_of_lt {n = end + 1} {m = dom},
    mod-eq_of_lt {n = r.end + 1} {m = dom},
    mod-eq_of_lt {n = r.end} {m = dom},
  )

  exclusive-Below :
      (out : List Run)
      → Ordered (min mine other) out
      → Below dom out
      → Below dom (append_run_exclusive dom out begin end)
  unfolding append_run_exclusive
  exclusive-Below [] o w =
      ground (arith, mod-eq_of_lt {n = begin} {m = dom}, mod-eq_of_lt {n = end} {m = dom})
  exclusive-Below (r ∷ rs) o w = ground (
    arith,
    mod-eq_of_lt {n = begin} {m = dom},
    mod-eq_of_lt {n = end} {m = dom},
    mod-eq_of_lt {n = begin - 1} {m = dom},
    mod-eq_of_lt {n = end + 1} {m = dom},
    mod-eq_of_lt {n = r.end + 1} {m = dom},
    mod-eq_of_lt {n = r.end} {m = dom},
  )

  -- A run that starts inside the last one, by where it starts and ends.
  module _ (r : Run) (rs : List Run) (v : ℕ) (o : Ordered (min mine other) (r ∷ rs))
      (w : r.end < dom) (inside : begin ≤ r.end) where
    abbrev excluded : Bool
    excluded = xor (in_run r v || in_runs rs v) (in_run next v)

    same_start : begin ≡ r.begin → in_runs (exclude dom r rs begin end) v ≡ excluded
    unfolding exclude
    same_start at = rw (eq→== begin r.begin at) (
        ground (
          arith,
          mod-eq_of_lt {n = end} {m = dom},
          mod-eq_of_lt {n = end + 1} {m = dom},
          mod-eq_of_lt {n = r.end + 1} {m = dom},
          mod-eq_of_lt {n = r.end} {m = dom},
          Stacked-above r.begin v rs o.2,
        ))

    later_start : r.begin < begin → in_runs (exclude dom r rs begin end) v ≡ excluded
    unfolding exclude
    later_start after = elim (order end r.end) [
      | inl under ↦
          rw (gt→== begin r.begin after, lt→ltb end r.end under)
            (ground (
              arith,
              mod-eq_of_lt {n = begin - 1} {m = dom},
              mod-eq_of_lt {n = end + 1} {m = dom},
              mod-eq_of_lt {n = r.end} {m = dom},
              Stacked-above r.begin v rs o.2,
            ))
      | inr (inl over) ↦
          rw (gt→== begin r.begin after, le→ltb end r.end (omega arith), lt→ltb r.end end over)
            (ground (
              arith,
              mod-eq_of_lt {n = begin - 1} {m = dom},
              mod-eq_of_lt {n = r.end + 1} {m = dom},
              mod-eq_of_lt {n = end} {m = dom},
              Stacked-above r.begin v rs o.2,
            ))
      | inr (inr at) ↦
          rw
            (
              gt→== begin r.begin after,
              le→ltb end r.end (omega arith),
              le→ltb r.end end (omega arith),
            )
            (ground (arith, mod-eq_of_lt {n = begin - 1} {m = dom}, Stacked-above r.begin v rs o.2))
    ]

    in_runs-exclude : in_runs (exclude dom r rs begin end) v ≡ excluded
    in_runs-exclude = elim (order r.begin begin) [
      | inl after ↦ later_start after
      | inr before ↦ same_start (omega arith)
    ]

  in_runs-exclusive :
      (out : List Run) (v : ℕ)
      → Ordered (min mine other) out
      → Below dom out
      → in_runs (append_run_exclusive dom out begin end) v ≡ xor (in_runs out v) (in_run next v)
  unfolding append_run_exclusive
  in_runs-exclusive [] v o w =
      ground (arith, mod-eq_of_lt {n = begin} {m = dom}, mod-eq_of_lt {n = end} {m = dom})
  in_runs-exclusive (r ∷ rs) v o w = elim (order (r.end + 1) begin) [
    | inl apart ↦ rw (lt→ltb (r.end + 1) begin apart) (
        ground (
          arith,
          mod-eq_of_lt {n = begin} {m = dom},
          mod-eq_of_lt {n = end} {m = dom},
          Stacked-above r.begin v rs o.2,
        ))
    | inr (inr touching) ↦
        rw (le→ltb (r.end + 1) begin (omega arith), eq→== (r.end + 1) begin (sym touching))
          (ground (arith, mod-eq_of_lt {n = end} {m = dom}, Stacked-above r.begin v rs o.2))
    | inr (inl inside) ↦
        rw (le→ltb (r.end + 1) begin (omega arith), gt→== (r.end + 1) begin inside)
          (in_runs-exclude r rs v o w.0 (omega arith))
  ]

  -- One run more, whichever list it comes from.
  pub exclusive-Holds :
      (p : ℕ → Bool) (out : List Run)
      → Holds dom mine other p out
      → Holds dom
          (end + 1)
          (max other begin)
          (λ v. xor (p v) (in_run next v))
          (append_run_exclusive dom out begin end)
  exclusive-Holds p out m = record {
    ordered = exclusive-Ordered out m.ordered m.ends m.within;
    ends = exclusive-EndsBy out m.ordered m.ends m.within;
    within = exclusive-Below out m.ordered m.within;
    same = λ v.
        in_runs-exclusive out v m.ordered m.within ∙ ap (λ q. xor q (in_run next v)) (m.same v);
  }
