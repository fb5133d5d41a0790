-- ===== src/RunOps/Cut.antt =====
-- The inner loop of `difference_run_run` in include/frsr/roaring/run_ops.hpp: the runs of one list, cut
-- out of one run of the other.
use roaring.Prelude.{
  ℕ, ◌+◌, ◌-◌, ◌%◌, ◌≤◌, ◌<◌, ◌≡◌, false, not, ◌&&◌, ◌||◌, List, [], ◌∷◌, ◌++◌, leb, ltb, ◌==◌,
  if◌then◌else◌, arith, order, le→leb, lt→leb, inl, inr, mod-eq_of_lt,
}
use roaring.Runs.{Run, in_runs, in_runs_before, RunsFrom, RunsFrom-mono, Below}

-- `if ( !exhausted && current_begin <= left.end )`
pub leftover : ℕ → ℕ → List Run
leftover current_begin end =
    if leb current_begin end then record { begin = current_begin; end = end } ∷ [] else []

-- The part before `at`, if there is one. `at - 1` is taken of a larger number than another.
pub piece_before : ℕ → ℕ → ℕ → List Run → List Run
piece_before dom current_begin at rest =
    if ltb current_begin at
    then record { begin = current_begin; end = (at - 1) % dom } ∷ rest
    else rest

-- The runs of the other list, from `ri` on, are cut out of one run.
pub cut_runs : ℕ → ℕ → ℕ → List Run → List Run
unfolding leftover piece_before
cut_runs dom current_begin end [] = leftover current_begin end
cut_runs dom current_begin end (scan ∷ rest) =
    let on =
      (if scan.end == dom - 1 || leb end scan.end
        then []
        else cut_runs dom ((scan.end + 1) % dom) end rest) in
    if leb scan.begin end
    then piece_before dom current_begin scan.begin on
    else leftover current_begin end

-- The first run reaches `begin`.
abbrev pub Reaches : ℕ → List Run → Type 0
Reaches begin [] = Unit
Reaches begin (r ∷ rs) = begin ≤ r.end

pub Reaches-after : (b lo : ℕ) (rs : List Run) → RunsFrom lo rs → b ≤ lo → Reaches b rs
Reaches-after b lo [] w h = tt
Reaches-after b lo (r ∷ rs) w h = omega arith

pub in_runs-piece_before :
    (dom b at v : ℕ) (rest : List Run)
    → at < dom
    → in_runs (piece_before dom b at rest) v ≡ ((leb b v && ltb v at) || in_runs rest v)
unfolding piece_before
in_runs-piece_before dom b at v rest h = ground (arith, mod-eq_of_lt {n = at - 1} {m = dom})

pub in_runs-leftover : (b e v : ℕ) → in_runs (leftover b e) v ≡ (leb b v && leb v e)
unfolding leftover
in_runs-leftover b e v = ground arith

pub piece_before-RunsFrom :
    (dom lo b at from : ℕ) (rest : List Run)
    → lo ≤ b
    → at < dom
    → b ≤ from
    → at < from
    → RunsFrom from rest
    → RunsFrom lo (piece_before dom b at rest)
unfolding piece_before
piece_before-RunsFrom dom lo b at from rest h k l m w = ground (
  arith,
  mod-eq_of_lt {n = at - 1} {m = dom},
  RunsFrom-mono from lo rest,
  RunsFrom-mono from (at + 1) rest,
)

pub piece_before-append :
    (dom b at : ℕ) (rest more : List Run)
    → piece_before dom b at rest ++ more ≡ piece_before dom b at (rest ++ more)
unfolding piece_before
piece_before-append dom b at rest more = ground arith

-- The first run of the other list: it starts past the run that is cut, ends past it, or inside.
module _ (dom b e lo : ℕ) (s : Run) (ss : List Run) (in_domain : e < dom) where
  cut_past : e < s.begin → cut_runs dom b e (s ∷ ss) ≡ leftover b e
  unfolding cut_runs
  cut_past h = rw (lt→leb s.begin e h)

  cut_last : s.begin ≤ e → e ≤ s.end → cut_runs dom b e (s ∷ ss) ≡ piece_before dom b s.begin []
  unfolding cut_runs
  cut_last h k = rw (le→leb s.begin e h, le→leb e s.end k) (ground arith)

  cut_on :
      s.begin ≤ e
      → s.end < e
      → cut_runs dom b e (s ∷ ss) ≡ piece_before dom b s.begin (cut_runs dom (s.end + 1) e ss)
  unfolding cut_runs
  cut_on h k =
      let m : (s.end + 1) % dom ≡ s.end + 1 = mod-eq_of_lt (omega arith) in
      let n : (s.end == dom - 1) ≡ false = ground arith in
      rw (le→leb s.begin e h, lt→leb e s.end k, m, n)

pub in_runs-cut_runs :
    (dom b e lo v : ℕ) (ss : List Run)
    → e < dom
    → Reaches b ss
    → RunsFrom lo ss
    → in_runs (cut_runs dom b e ss) v ≡ ((leb b v && leb v e) && not (in_runs ss v))
unfolding cut_runs
in_runs-cut_runs dom b e lo v [] h k w = ground (arith, in_runs-leftover b e v)
in_runs-cut_runs dom b e lo v (s ∷ ss) h k w = elim (order e s.begin) [
  | inl past ↦
      rw (cut_past dom b e lo s ss h past)
        (ground (arith, in_runs-leftover b e v, in_runs_before (s.end + 2) v ss w.2))
  | inr in_reach ↦ elim (order s.end e) [
    | inl inside ↦ rw (cut_on dom b e lo s ss h (omega arith) inside) (
        ground (
          arith,
          in_runs-piece_before dom b s.begin v (cut_runs dom (s.end + 1) e ss),
          in_runs-cut_runs dom (s.end + 1) e (s.end + 2) v ss h
              (Reaches-after (s.end + 1) (s.end + 2) ss w.2 (omega arith)) w.2,
          in_runs_before (s.end + 2) v ss w.2,
        ))
    | inr over ↦ rw (cut_last dom b e lo s ss h (omega arith) (omega arith)) (
        ground
          (arith, in_runs-piece_before dom b s.begin v [], in_runs_before (s.end + 2) v ss w.2))
  ]
]

pub leftover-RunsFrom :
    (lo b e : ℕ) (rest : List Run)
    → lo ≤ b
    → b ≤ e + 2
    → RunsFrom (e + 2) rest
    → RunsFrom lo (leftover b e ++ rest)
unfolding leftover
leftover-RunsFrom lo b e rest h k w = ground (arith, RunsFrom-mono (e + 2) lo rest)

-- In order, from the cut run's begin on, and what follows may start two past its end.
pub cut_runs-RunsFrom :
    (dom lo b e xlo : ℕ) (ss rest : List Run)
    → e < dom
    → lo ≤ b
    → b ≤ e
    → Reaches b ss
    → RunsFrom xlo ss
    → RunsFrom (e + 2) rest
    → RunsFrom lo (cut_runs dom b e ss ++ rest)
unfolding cut_runs
cut_runs-RunsFrom dom lo b e xlo [] rest h k l m w x =
    leftover-RunsFrom lo b e rest k (omega arith) x
cut_runs-RunsFrom dom lo b e xlo (s ∷ ss) rest h k l m w x = elim (order e s.begin) [
  | inl past ↦
      rw (cut_past dom b e xlo s ss h past) (leftover-RunsFrom lo b e rest k (omega arith) x)
  | inr in_reach ↦ elim (order s.end e) [
    | inl inside ↦
        rw
          (
            cut_on dom b e xlo s ss h (omega arith) inside,
            piece_before-append dom b s.begin (cut_runs dom (s.end + 1) e ss) rest,
          )
          (piece_before-RunsFrom dom lo b s.begin (s.end + 1) _ k (omega arith) (omega arith)
            (omega arith)
            (cut_runs-RunsFrom dom (s.end + 1) (s.end + 1) e (s.end + 2) ss rest h (omega arith)
              (omega arith) (Reaches-after (s.end + 1) (s.end + 2) ss w.2 (omega arith)) w.2 x))
    | inr over ↦
        rw
          (
            cut_last dom b e xlo s ss h (omega arith) (omega arith),
            piece_before-append dom b s.begin [] rest,
          )
          (piece_before-RunsFrom dom lo b s.begin (e + 2) rest k (omega arith) (omega arith)
            (omega arith) x)
  ]
]

pub piece_before-Below :
    (dom b at : ℕ) (rest : List Run)
    → at < dom
    → Below dom rest
    → Below dom (piece_before dom b at rest)
unfolding piece_before
piece_before-Below dom b at rest h w = ground (arith, mod-eq_of_lt {n = at - 1} {m = dom})

pub leftover-Below : (dom b e : ℕ) → e < dom → Below dom (leftover b e)
unfolding leftover
leftover-Below dom b e h = ground arith

pub cut_runs-Below :
    (dom b e xlo : ℕ) (ss : List Run) → e < dom → RunsFrom xlo ss → Below dom (cut_runs dom b e ss)
unfolding cut_runs
cut_runs-Below dom b e xlo [] h w = leftover-Below dom b e h
cut_runs-Below dom b e xlo (s ∷ ss) h w = elim (order e s.begin) [
  | inl past ↦ rw (cut_past dom b e xlo s ss h past) (leftover-Below dom b e h)
  | inr in_reach ↦ elim (order s.end e) [
    | inl inside ↦ rw (cut_on dom b e xlo s ss h (omega arith) inside) (
        piece_before-Below dom b s.begin _ (omega arith)
          (cut_runs-Below dom (s.end + 1) e (s.end + 2) ss h w.2))
    | inr over ↦
        rw (cut_last dom b e xlo s ss h (omega arith) (omega arith))
          (piece_before-Below dom b s.begin [] (omega arith) tt)
  ]
]
