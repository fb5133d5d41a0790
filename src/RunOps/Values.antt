-- ===== src/RunOps/Values.antt =====
-- The runs minus a sorted list of values: the loop of `difference_run_values`.
use roaring.Prelude.{
  ℕ, ◌+◌, ◌-◌, ◌%◌, ◌≤◌, ◌<◌, ◌≡◌, refl, inl, inr, not, ◌&&◌, List, [], ◌∷◌, ◌++◌, leb, ltb, ◌==◌,
  if◌then◌else◌, arith, order, lt→leb, le→leb, eq→==, lt→==, mod-eq_of_lt,
}
use roaring.Values.{in_values, in_values_before, Ascending, Ascending-mono}
use roaring.Runs.{Run, in_runs, in_runs_before, RunsFrom, Below, in_runs-append, Below-append}
use roaring.RunOps.Cut.{
  leftover, piece_before, in_runs-piece_before, in_runs-leftover, leftover-RunsFrom, leftover-Below,
  piece_before-RunsFrom, piece_before-append, piece_before-Below,
}

-- What is written of one run, and the values from where the scan stopped.
pub record ValuesCut : Type 0 where
  pub pieces : List Run
  pub left : List ℕ

pub cut_values : ℕ → ℕ → ℕ → List ℕ → ValuesCut
cut_values dom current_begin end [] = record { pieces = leftover current_begin end; left = [] }
cut_values dom current_begin end (scan ∷ rest) =
    let on = cut_values dom ((scan + 1) % dom) end rest in
    if leb scan end
    then (if scan == dom - 1
        then record { pieces = piece_before dom current_begin scan []; left = scan ∷ rest }
        else record { pieces = piece_before dom current_begin scan on.pieces; left = on.left })
    else record { pieces = leftover current_begin end; left = scan ∷ rest }

pub skip_values : ℕ → List ℕ → List ℕ
skip_values begin [] = []
skip_values begin (v ∷ vs) = if ltb v begin then skip_values begin vs else v ∷ vs

pub difference_run_values : ℕ → List Run → List ℕ → List Run
unfolding cut_values skip_values
difference_run_values dom [] values = []
difference_run_values dom (run ∷ lhs) values =
    let s = cut_values dom run.begin run.end (skip_values run.begin values) in
    s.pieces ++ difference_run_values dom lhs s.left

in_runs-cut_values :
    (dom b e v : ℕ) (vs : List ℕ)
    → e < dom
    → Ascending b vs
    → in_runs (cut_values dom b e vs).pieces v ≡ ((leb b v && leb v e) && not (in_values vs v))
unfolding cut_values
in_runs-cut_values dom b e v [] h w = ground (arith, in_runs-leftover b e v)
in_runs-cut_values dom b e v (x ∷ vs) h w = ground (
  arith,
  in_runs-leftover b e v,
  in_runs-piece_before dom b x v [],
  in_runs-piece_before dom b x v (cut_values dom (x + 1) e vs).pieces,
  mod-eq_of_lt {n = x + 1} {m = dom},
  in_runs-cut_values dom (x + 1) e v vs h w.1,
  in_values_before (x + 1) v vs w.1,
)

-- The values that are left ascend, and those past the run are all left.
left-Ascending :
    (dom b e : ℕ) (vs : List ℕ)
    → e < dom
    → Ascending b vs
    → Ascending b (cut_values dom b e vs).left
unfolding cut_values
left-Ascending dom b e [] h w = tt
left-Ascending dom b e (x ∷ vs) h w = ground (
  arith,
  mod-eq_of_lt {n = x + 1} {m = dom},
  left-Ascending dom (x + 1) e vs h w.1,
  Ascending-mono (x + 1) b (cut_values dom (x + 1) e vs).left,
)

in_values-left :
    (dom b e v : ℕ) (vs : List ℕ)
    → e < dom
    → e < v
    → in_values (cut_values dom b e vs).left v ≡ in_values vs v
unfolding cut_values
in_values-left dom b e v [] h k = refl
in_values-left dom b e v (x ∷ vs) h k =
    ground (arith, mod-eq_of_lt {n = x + 1} {m = dom}, in_values-left dom (x + 1) e v vs h k)

skip_values-Ascending : (b lo : ℕ) (vs : List ℕ) → Ascending lo vs → Ascending b (skip_values b vs)
unfolding skip_values
skip_values-Ascending b lo [] w = tt
skip_values-Ascending b lo (x ∷ vs) w = ground (arith, skip_values-Ascending b (x + 1) vs w.1)

in_values-skip_values :
    (b v : ℕ) (vs : List ℕ) → b ≤ v → in_values (skip_values b vs) v ≡ in_values vs v
unfolding skip_values
in_values-skip_values b v [] h = refl
in_values-skip_values b v (x ∷ vs) h = ground (arith, in_values-skip_values b v vs h)

module _ (dom b e x : ℕ) (vs : List ℕ) (in_domain : e < dom) where
  values_past : e < x → (cut_values dom b e (x ∷ vs)).pieces ≡ leftover b e
  unfolding cut_values
  values_past h = rw (lt→leb x e h) refl

  values_last : x ≤ e → x + 1 ≡ dom → (cut_values dom b e (x ∷ vs)).pieces ≡ piece_before dom b x []
  unfolding cut_values
  values_last h l = rw (le→leb x e h, eq→== x (dom - 1) (omega arith)) refl

  values_on :
      x ≤ e
      → x + 1 < dom
      → (cut_values dom b e (x ∷ vs)).pieces
        ≡ piece_before dom b x (cut_values dom (x + 1) e vs).pieces
  unfolding cut_values
  values_on h l =
      let m : (x + 1) % dom ≡ x + 1 = mod-eq_of_lt l in
      rw (le→leb x e h, lt→== x (dom - 1) (omega arith), m) refl

cut_values-RunsFrom :
    (dom lo b e : ℕ) (vs : List ℕ) (rest : List Run)
    → e < dom
    → lo ≤ b
    → b ≤ e + 2
    → Ascending b vs
    → RunsFrom (e + 2) rest
    → RunsFrom lo ((cut_values dom b e vs).pieces ++ rest)
unfolding cut_values
cut_values-RunsFrom dom lo b e [] rest h k l w x = leftover-RunsFrom lo b e rest k l x
cut_values-RunsFrom dom lo b e (v ∷ vs) rest h k l w x = elim (order e v) [
  | inl past ↦ rw (values_past dom b e v vs h past) (leftover-RunsFrom lo b e rest k l x)
  | inr reached ↦ elim (order (v + 1) dom) [
    | inl inside ↦
        rw
          (
            values_on dom b e v vs h (omega arith) inside,
            piece_before-append dom b v (cut_values dom (v + 1) e vs).pieces rest,
          )
          (piece_before-RunsFrom dom lo b v (v + 1) _ k (omega arith) (omega arith) (omega arith)
            (cut_values-RunsFrom dom (v + 1) (v + 1) e vs rest h (omega arith) (omega arith) w.1 x))
    | inr over ↦
        rw
          (
            values_last dom b e v vs h (omega arith) (omega arith),
            piece_before-append dom b v [] rest,
          )
          (piece_before-RunsFrom dom lo b v (e + 2) rest k (omega arith) l (omega arith) x)
  ]
]

cut_values-Below : (dom b e : ℕ) (vs : List ℕ) → e < dom → Below dom (cut_values dom b e vs).pieces
unfolding cut_values
cut_values-Below dom b e [] h = leftover-Below dom b e h
cut_values-Below dom b e (v ∷ vs) h = elim (order e v) [
  | inl past ↦ rw (values_past dom b e v vs h past) (leftover-Below dom b e h)
  | inr reached ↦ elim (order (v + 1) dom) [
    | inl inside ↦
        rw (values_on dom b e v vs h (omega arith) inside)
          (piece_before-Below dom b v _ (omega arith) (cut_values-Below dom (v + 1) e vs h))
    | inr over ↦
        rw (values_last dom b e v vs h (omega arith) (omega arith))
          (piece_before-Below dom b v [] (omega arith) tt)
  ]
]

difference-RunsFrom :
    (dom lo vlo : ℕ) (ls : List Run) (vs : List ℕ)
    → RunsFrom lo ls
    → Below dom ls
    → Ascending vlo vs
    → RunsFrom lo (difference_run_values dom ls vs) × Below dom (difference_run_values dom ls vs)
unfolding difference_run_values
difference-RunsFrom dom lo vlo [] vs w b x = (tt, tt)
difference-RunsFrom dom lo vlo (l ∷ ls) vs w b x =
    let from_run = skip_values l.begin vs in
    let y = skip_values-Ascending l.begin vlo vs x in
    let s = cut_values dom l.begin l.end from_run in
    let (o, k) =
      difference-RunsFrom dom (l.end + 2) l.begin ls s.left w.2 b.1
        (left-Ascending dom l.begin l.end from_run b.0 y) in
    (
      cut_values-RunsFrom dom lo l.begin l.end from_run _ b.0 w.0 (omega arith) y o,
      Below-append dom s.pieces _ (cut_values-Below dom l.begin l.end from_run b.0) k,
    )

in_runs-difference :
    (dom lo vlo v : ℕ) (ls : List Run) (vs : List ℕ)
    → RunsFrom lo ls
    → Below dom ls
    → Ascending vlo vs
    → in_runs (difference_run_values dom ls vs) v ≡ (in_runs ls v && not (in_values vs v))
unfolding difference_run_values
in_runs-difference dom lo vlo v [] vs w b x = refl
in_runs-difference dom lo vlo v (l ∷ ls) vs w b x =
    let from_run = skip_values l.begin vs in
    let y = skip_values-Ascending l.begin vlo vs x in
    let s = cut_values dom l.begin l.end from_run in
    ground (
      arith,
      in_runs-append s.pieces (difference_run_values dom ls s.left) v,
      in_runs-cut_values dom l.begin l.end v from_run b.0 y,
      in_runs-difference dom (l.end + 2) l.begin v ls s.left w.2 b.1
          (left-Ascending dom l.begin l.end from_run b.0 y),
      in_values-left dom l.begin l.end v from_run b.0,
      in_values-skip_values l.begin v vs,
      in_runs_before (l.end + 2) v ls w.2,
    )

-- The runs of the difference of a well formed run list under the domain size and an ascending array
-- are well formed, and hold exactly the values of the list that the array lacks.
pub difference_run_values_lem :
    (dom : ℕ) (lhs : List Run) (values : List ℕ)
    → RunsFrom 0 lhs
    → Below dom lhs
    → Ascending 0 values
    → RunsFrom 0 (difference_run_values dom lhs values)
      × Below dom (difference_run_values dom lhs values)
      × ((v : ℕ)
          → in_runs (difference_run_values dom lhs values) v
            ≡ (in_runs lhs v && not (in_values values v)))
difference_run_values_lem dom lhs values w b x =
    let (o, k) = difference-RunsFrom dom 0 0 lhs values w b x in
    (o, k, λ v. in_runs-difference dom 0 0 v lhs values w b x)
