-- ===== src/RunRef/Cursor.antt =====
-- The walk with a position: one step gives the next value, and its position.
use roaring.Prelude.{
  ℕ, zero, suc, ◌+◌, ◌%◌, ◌≤◌, ◌<◌, ◌≡◌, ◌⊎◌, refl, inl, inr, true, false, lt→ltb, le→ltb, List, [],
  ◌∷◌, some, arith, order, length, get_elem?, eq→==, lt→==, mod-eq_of_lt,
}
use roaring.Runs.{Run, in_run, in_runs, in_runs_before, RunsFrom, Below}
use roaring.RunContainer.Walk.{no_next}
use roaring.RunRef.{RunHandle, next_after}
use roaring.RunRef.Valid.{IsValid}

-- The value lies in the run at the position.
abbrev pub IsAt : List Run → ℕ → ℕ → Type 0
IsAt runs value position = (r : Run) × (get_elem? runs position ≡ some r) × (in_run r value ≡ true)

-- What a step gives: the next value and its position, or that there is none.
abbrev pub Step : List Run → ℕ → ℕ × ℕ → Type 0
Step runs value (next, position) =
    ((next ≡ no_next) × ((w : ℕ) → value < w → in_runs runs w ≡ false))
    ⊎ ((value < next)
        × IsAt runs next position
        × ((w : ℕ) → value < w → w < next → in_runs runs w ≡ false))

found_inside : (rs : List Run) (p : ℕ) (r : Run) → get_elem? rs p ≡ some r → p < length rs
found_inside [] p r e = absurd (ground arith)
found_inside (x ∷ rs) zero r e = omega arith
found_inside (x ∷ rs) (suc p) r e = omega (arith, found_inside rs p r e)

inside_found : (rs : List Run) (p : ℕ) → p < length rs → (r : Run) × (get_elem? rs p ≡ some r)
inside_found [] p h = absurd (omega arith)
inside_found (x ∷ rs) zero h = (x, refl)
inside_found (x ∷ rs) (suc p) h = inside_found rs p (omega arith)

-- A run of the list starts at the bound or later, and ends in the domain.
run_bounds :
    (dom lo p : ℕ) (rs : List Run) (r : Run)
    → RunsFrom lo rs
    → Below dom rs
    → get_elem? rs p ≡ some r
    → (lo ≤ r.begin) × (r.begin ≤ r.end) × (r.end < dom)
run_bounds dom lo p [] r a b e = absurd (ground arith)
run_bounds dom lo zero (x ∷ rs) r a b e = ground (arith, e)
run_bounds dom lo (suc p) (x ∷ rs) r a b e =
    let (c, d, f) = run_bounds dom (x.end + 2) p rs r a.2 b.1 e in (omega arith, d, f)

-- The values after the run at a position: none, or none before the next run.
clear_past :
    (dom lo p w : ℕ) (rs : List Run) (r : Run)
    → RunsFrom lo rs
    → Below dom rs
    → get_elem? rs p ≡ some r
    → p + 1 ≡ length rs
    → r.end < w
    → in_runs rs w ≡ false
clear_past dom lo p w [] r a b e n h = absurd (omega arith)
clear_past dom lo zero w (x ∷ []) r a b e n h = ground (arith, e)
clear_past dom lo zero w (x ∷ y ∷ rs) r a b e n h = absurd (omega arith)
clear_past dom lo (suc p) w (x ∷ rs) r a b e n h =
    let (later, d, f) = run_bounds dom (x.end + 2) p rs r a.2 b.1 e in
    ground (arith, clear_past dom (x.end + 2) p w rs r a.2 b.1 e (omega arith) h, later)

clear_between :
    (dom lo p w : ℕ) (rs : List Run) (r s : Run)
    → RunsFrom lo rs
    → Below dom rs
    → get_elem? rs p ≡ some r
    → get_elem? rs (suc p) ≡ some s
    → r.end < w
    → w < s.begin
    → in_runs rs w ≡ false
clear_between dom lo p w [] r s a b e e' h k = absurd (ground arith)
clear_between dom lo zero w (x ∷ []) r s a b e e' h k = absurd (ground arith)
clear_between dom lo zero w (x ∷ y ∷ rs) r s a b e e' h k =
    ground (arith, e, e', in_runs_before (y.end + 2) w rs a.2.2)
clear_between dom lo (suc p) w (x ∷ rs) r s a b e e' h k =
    let (later, d, f) = run_bounds dom (x.end + 2) p rs r a.2 b.1 e in
    ground (arith, clear_between dom (x.end + 2) p w rs r s a.2 b.1 e e' h k, later)

next_later :
    (dom lo p : ℕ) (rs : List Run) (r s : Run)
    → RunsFrom lo rs
    → get_elem? rs p ≡ some r
    → get_elem? rs (suc p) ≡ some s
    → r.end < s.begin
next_later dom lo p [] r s a e e' = absurd (ground arith)
next_later dom lo zero (x ∷ []) r s a e e' = absurd (ground arith)
next_later dom lo zero (x ∷ y ∷ rs) r s a e e' = ground (arith, e, e')
next_later dom lo (suc p) (x ∷ rs) r s a e e' = next_later dom (x.end + 2) p rs r s a.2 e e'

-- From a value of a well formed run handle, with the position of its run, `next_after` reads
-- nothing out of bounds and gives the least greater value with the position of its run, or
-- `no_next` if there is none.
pub run_next_after_lem :
    (dom : ℕ) (c : RunHandle) (value position : ℕ)
    → IsValid dom c
    → IsAt c.runs value position
    → (r : ℕ × ℕ) × (next_after dom c value position ≡ some r) × Step c.runs value r
unfolding next_after
run_next_after_lem dom c value position valid (r, e, here) =
    let (a, b, d) = run_bounds dom 0 position c.runs r valid.ordered valid.within e in
    let there = found_inside c.runs position r e in
    elim (order value r.end) [
      | inl inner ↦
          let m : (value + 1) % dom ≡ value + 1 = mod-eq_of_lt (omega arith) in
          (
            (value + 1, position),
            rw (e, lt→ltb value r.end inner, m) refl,
            inr (omega arith, (r, e, ground (arith, here)), λ w h k. absurd (omega arith)),
          )
      | inr at ↦
          let last : value ≡ r.end = ground (arith, here) in
          elim (order (position + 1) (length c.runs)) [
            | inl more ↦
                let (s, e') = inside_found c.runs (position + 1) more in
                let next : get_elem? c.runs (suc position) ≡ some s =
                  let i : position + 1 ≡ suc position = omega arith in rw i at e' in
                let (a', b', d') =
                  run_bounds dom 0 (position + 1) c.runs s valid.ordered valid.within e' in
                (
                  (s.begin, position + 1),
                  rw
                      (
                        e,
                        le→ltb value r.end (omega arith),
                        lt→== (position + 1) (length c.runs) more,
                        e',
                      )
                      refl,
                  inr (
                    omega (arith, next_later dom 0 position c.runs r s valid.ordered e next),
                    (s, e', ground arith),
                    λ w h k.
                        clear_between dom 0 position w c.runs r s valid.ordered valid.within e next
                          (omega arith) k,
                  ),
                )
            | inr end ↦
                let n : position + 1 ≡ length c.runs = omega arith in
                (
                  (no_next, position),
                  rw (e, le→ltb value r.end (omega arith), eq→== (position + 1) (length c.runs) n)
                      refl,
                  inl (
                    refl,
                    λ w h.
                        clear_past dom 0 position w c.runs r valid.ordered valid.within e n
                          (omega arith),
                  ),
                )
          ]
    ]
