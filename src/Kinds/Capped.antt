-- ===== src/Kinds/Capped.antt =====
-- The attempt to make runs of values that is given up at a size.
use roaring.Prelude.{
  ℕ, zero, suc, ◌+◌, ◌-◌, ◌*◌, ◌%◌, ◌≤◌, ◌≡◌, ◌∙◌, sym, refl, inl, inr, Bool, Bool-cases, not, ◌&&◌,
  ◌||◌, List, [], ◌∷◌, Option, none, some, ltb, lt→ltb, le→ltb, lt→leb, le→leb, ◌==◌, if◌then◌else◌,
  arith, order, length, is_empty,
}
use native.Mathlib.Nat.{mul-le-mul_right, add-mod-mod}
use roaring.Runs.{Run, run_size}
use roaring.RunContainer.{RunContainer, cardinality_mod, add_sizes, recalculate_cardinality}
use roaring.RunContainer.Build.{collect_runs, runs_of, from_sorted_values}
use roaring.Kinds.{capped_push, counted_with, capped_loop, try_make_run_from_sorted_values_capped}

-- The container, if `n` runs take less than the limit.
abbrev pub if_fits : ℕ → ℕ → ℕ → RunContainer → Option RunContainer
if_fits run_bytes byte_limit n c = if ltb (n * run_bytes) byte_limit then some c else none

capped_push-if_fits :
    (dom run_bytes byte_limit pushed n : ℕ) (current : Run) (c : RunContainer)
    → pushed + 1 ≤ n
    → capped_push dom run_bytes byte_limit pushed current (if_fits run_bytes byte_limit n c)
      ≡ if_fits run_bytes byte_limit n (record c { runs = current ∷ c.runs })
unfolding capped_push
capped_push-if_fits dom run_bytes byte_limit pushed n current c h =
    let p : (pushed + 1) * run_bytes ≤ n * run_bytes = mul-le-mul_right run_bytes h in
    elim (order (n * run_bytes) byte_limit) [
      | inl fits ↦
          rw
            (
              lt→ltb (n * run_bytes) byte_limit fits,
              lt→leb byte_limit ((pushed + 1) * run_bytes) (omega arith),
            )
            refl
      | inr over ↦ elim (order ((pushed + 1) * run_bytes) byte_limit) [
        | inl later ↦
            rw
              (
                le→ltb (n * run_bytes) byte_limit (omega arith),
                lt→leb byte_limit ((pushed + 1) * run_bytes) later,
              )
              refl
        | inr now ↦
            rw
              (
                le→ltb (n * run_bytes) byte_limit (omega arith),
                le→leb byte_limit ((pushed + 1) * run_bytes) (omega arith),
              )
              refl
      ]
    ]

-- Whether a value goes on with the run that ends at `e`.
abbrev goes_on : ℕ → ℕ → ℕ → Bool
goes_on dom e v = v == e || (not (e == dom - 1) && v == (e + 1) % dom)

module _ (dom run_bytes byte_limit : ℕ) where
  abbrev tried : ℕ → ℕ → List Run → Option RunContainer
  tried pushed total rs =
      if_fits run_bytes byte_limit (pushed + length rs)
        record { runs = rs; cardinality = add_sizes dom total rs }

  tried-∷ :
      (pushed total : ℕ) (r : Run) (rs : List Run)
      → capped_push dom run_bytes byte_limit pushed r (
          if_fits run_bytes byte_limit
            (pushed + 1 + length rs)
            record { runs = rs; cardinality = add_sizes dom (counted_with dom total r) rs })
        ≡ tried pushed total (r ∷ rs)
  unfolding add_sizes
  tried-∷ pushed total r rs =
      let m = cardinality_mod dom in
      let n : pushed + 1 + length rs ≡ pushed + suc (length rs) = omega arith in
      rw (sym n, add-mod-mod total (run_size r) m)
        (capped_push-if_fits dom run_bytes byte_limit pushed (pushed + 1 + length rs) r _
          (omega arith))

  capped_loop-tried :
      (pushed total b e : ℕ) (vs : List ℕ)
      → capped_loop dom run_bytes byte_limit pushed total b e vs
        ≡ tried pushed total (collect_runs dom b e vs)
  unfolding capped_loop collect_runs add_sizes capped_push
  capped_loop-tried pushed total b e [] =
      let n : pushed + 1 ≡ pushed + suc zero = omega arith in
      let size = (pushed + 1) * run_bytes in
      rw (sym n, add-mod-mod total (run_size (record { begin = b; end = e })) (cardinality_mod dom))
        (elim (order size byte_limit) [
          | inl fits ↦ rw (lt→ltb size byte_limit fits, lt→leb byte_limit size fits) refl
          | inr over ↦
              rw (le→ltb size byte_limit (omega arith), le→leb byte_limit size (omega arith)) refl
        ])
  capped_loop-tried pushed total b e (v ∷ vs) = elim (Bool-cases (goes_on dom e v)) [
    | inl on ↦ rw on (capped_loop-tried pushed total b v vs)
    | inr new ↦
        rw
          (
            new,
            capped_loop-tried (pushed + 1) (counted_with dom total (record { begin = b; end = e }))
                v v vs,
          )
          (tried-∷ pushed total (record { begin = b; end = e }) (collect_runs dom v v vs))
  ]

  -- The capped attempt makes the container of `from_sorted_values` if there are no values or its
  -- runs take less than the byte limit, and gives up otherwise.
  pub try_make_run_from_sorted_values_capped_lem :
      (vs : List ℕ)
      → try_make_run_from_sorted_values_capped dom run_bytes vs byte_limit ≡ (
          if is_empty vs || ltb (length (runs_of dom vs) * run_bytes) byte_limit
          then some (from_sorted_values dom vs)
          else none)
  unfolding try_make_run_from_sorted_values_capped runs_of from_sorted_values
      recalculate_cardinality
  try_make_run_from_sorted_values_capped_lem [] = refl
  try_make_run_from_sorted_values_capped_lem (v ∷ vs) =
      let n : 0 + length (collect_runs dom v v vs) ≡ length (collect_runs dom v v vs) =
        omega arith in
      capped_loop-tried 0 0 v v vs ∙ rw n refl
