-- ===== src/Kinds/Counts.antt =====
-- The count of runs, taken block by block up to a cap.
use roaring.Prelude.{
  ℕ, zero, suc, ◌+◌, ◌-◌, ◌<◌, ◌≡◌, ◌∙◌, refl, ap, inl, inr, min, List, [], ◌∷◌, some, lt→ltb,
  le→ltb, arith, order, length, mod-eq_of_lt,
}
use roaring.Values.{Ascending, AllBelow}
use roaring.RunContainer.Build.{collect_runs, runs_of}
use roaring.Kinds.{
  starts_run, Counted, count_block, count_loop, max_block, run_count_from_sorted_values,
}

-- How many runs start at the values after `previous`.
abbrev starts_in : ℕ → ℕ → List ℕ → ℕ
starts_in dom previous [] = 0
starts_in dom previous (v ∷ vs) = starts_run dom previous v + starts_in dom v vs

abbrev from : ℕ → ℕ → List ℕ → Counted
from n previous rest = record { run_count = n; previous = previous; rest = rest }

-- The runs counted so far and those that are still to start.
abbrev total : ℕ → Counted → ℕ
total dom c = c.run_count + starts_in dom c.previous c.rest

total-count_block :
    (dom block n previous : ℕ) (rest : List ℕ)
    → (total dom (count_block dom block (from n previous rest)) ≡ n + starts_in dom previous rest)
      × (length (count_block dom block (from n previous rest)).rest ≡ length rest - block)
unfolding count_block
total-count_block dom zero n previous rest = (refl, omega arith)
total-count_block dom (suc block) n previous [] = (refl, omega arith)
total-count_block dom (suc block) n previous (v ∷ rest) =
    let (e, l) = total-count_block dom block (n + starts_run dom previous v) v rest in
    (omega (arith, e), omega (arith, l))

count_loop-total :
    (dom cap fuel n previous : ℕ) (rest : List ℕ)
    → length rest < fuel
    → count_loop dom cap fuel (from n previous rest)
      ≡ some (min (n + starts_in dom previous rest) cap)
unfolding count_loop
count_loop-total dom cap zero n previous rest f = absurd (omega arith)
count_loop-total dom cap (suc fuel) n previous [] f = ap some (omega arith)
count_loop-total dom cap (suc fuel) n previous (v ∷ rest) f = elim (order n cap) [
  | inr reached ↦ rw (le→ltb n cap (omega arith)) (ap some (omega arith))
  | inl short ↦
      let block = min (cap - n) max_block in
      let s = count_block dom block (from n previous (v ∷ rest)) in
      let (e, l) = total-count_block dom block n previous (v ∷ rest) in
      rw (lt→ltb n cap short) (
        count_loop-total dom cap fuel s.run_count s.previous s.rest (omega arith)
        ∙ ap (λ t. some (min t cap)) e)
]

length-collect_runs :
    (dom b e : ℕ) (vs : List ℕ)
    → e < dom
    → Ascending (e + 1) vs
    → AllBelow dom vs
    → length (collect_runs dom b e vs) ≡ 1 + starts_in dom e vs
unfolding collect_runs
length-collect_runs dom b e [] h w k = omega arith
length-collect_runs dom b e (v ∷ vs) h w k = ground (
  arith,
  mod-eq_of_lt {n = e + 1} {m = dom},
  length-collect_runs dom b v vs k.0 w.1 k.1,
  length-collect_runs dom v v vs k.0 w.1 k.1,
)

-- On ascending values of the domain, the count that goes block by block and stops at the cap ends,
-- with the number of runs that `from_sorted_values` makes of them, or the cap if that is smaller.
pub run_count_from_sorted_values_lem :
    (dom cap : ℕ) (vs : List ℕ)
    → Ascending 0 vs
    → AllBelow dom vs
    → run_count_from_sorted_values dom vs cap ≡ some (min (length (runs_of dom vs)) cap)
unfolding run_count_from_sorted_values runs_of
run_count_from_sorted_values_lem dom cap [] w k = ap some (omega arith)
run_count_from_sorted_values_lem dom cap (v ∷ vs) w k =
    count_loop-total dom cap (length vs + 1) 1 v vs (omega arith)
    ∙ ap (λ n. some (min n cap)) (omega (arith, length-collect_runs dom v v vs k.0 w.1 k.1))
