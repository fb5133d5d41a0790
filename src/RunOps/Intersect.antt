-- ===== src/RunOps/Intersect.antt =====
-- The intersection of two run lists: the loop ends within its rounds, with the intersection.
use roaring.Prelude.{
  ℕ, zero, suc, ◌+◌, ◌*◌, ◌≤◌, ◌<◌, ◌≡◌, ◌∙◌, sym, refl, inl, inr, max, Bool, true, false, ◌&&◌,
  ◌||◌, List, [], ◌∷◌, Option, some, ap, ◌>>=◌, leb, ltb, le→leb, lt→leb, lt→ltb, le→ltb, lt→==,
  eq→==, gt→==, Bool-cases, order, if◌then◌else◌, arith, length, count_below,
}
use roaring.Runs.{Run, in_runs, runs_size, runs_size-count, RunsFrom, Below}
use roaring.RunOps.{
  RunIntersection, joined, emit, with_front, copy_if_inside, intersect_loop, intersect_runs_merge,
  intersect_runs,
}
use roaring.RunOps.Reach.{
  ending_before, reaching, reaching-RunsFrom, reaching-Below, length-reaching,
  next_run_reaching_lem, copy_runs_inside_lem,
}
use roaring.RunOps.Merge.{
  Meets, Meets-comm, Meets-left_empty, Meets-crossed, Meets-copied, Meets-left_ends, Meets-both_end,
}

-- The loop has made the intersection.
abbrev Ends : ℕ → List Run → List Run → Option RunIntersection → Type 0
Ends dom lhs rhs o = (s : RunIntersection) × (o ≡ some s) × Meets dom lhs rhs s

abbrev pub nothing : RunIntersection
nothing = record { runs = []; cardinality = 0 }

joined-nothing : (s : RunIntersection) → joined nothing s ≡ s
joined-nothing s = ground arith

-- A block is copied or not; what is left is merged on, and the whole list is covered.
copied_then :
    (dom : ℕ) (skewed : Bool) (lo : ℕ) (lhs : List Run) (r : Run) (rs : List Run)
    (go : List Run → Option RunIntersection)
    → RunsFrom lo lhs
    → Below dom lhs
    → r.begin ≤ lo
    → RunsFrom r.begin (r ∷ rs)
    → ((rest : List Run)
        → length rest ≤ length lhs
        → RunsFrom lo rest
        → Below dom rest
        → Ends dom rest (r ∷ rs) (go rest))
    → Ends dom lhs (r ∷ rs) (copy_if_inside skewed lhs (r.end + 1) >>= λ p. with_front p.0 (go p.1))
unfolding copy_if_inside
copied_then dom skewed lo [] r rs go w b k wr ih =
    let (s, e, m) = ih [] (omega arith) tt tt in (s, rw e (ap some (joined-nothing s)), m)
copied_then dom skewed lo (l ∷ ls) r rs go w b k wr ih =
    elim (Bool-cases (skewed && ltb l.end (r.end + 1))) [
      | inl yes_inside ↦
          let x = r.end + 1 in
          let lhs = l ∷ ls in
          let (s, e, m) =
            ih (reaching x lhs) (length-reaching x lhs) (reaching-RunsFrom x lo lhs w)
              (reaching-Below x dom lhs b) in
          (
            joined
                (record {
                  runs = ending_before x lhs;
                  cardinality = runs_size (ending_before x lhs);
                })
                s,
            rw (yes_inside, copy_runs_inside_lem x lo l ls w (ground arith), e),
            Meets-copied dom lo lhs r rs s w b k wr m,
          )
      | inr no_block ↦
          let (s, e, m) = ih (l ∷ ls) (omega arith) w b in
          (s, rw (no_block, e) (ap some (joined-nothing s)), m)
    ]

module _ (dom : ℕ) (skewed : Bool) (fuel : ℕ) (l r : Run) (ls rs : List Run) where
  round_cross_left :
      (lo : ℕ)
      → RunsFrom lo (l ∷ ls)
      → l.end < r.begin
      → intersect_loop dom skewed (suc fuel) (l ∷ ls) (r ∷ rs)
        ≡ intersect_loop dom skewed fuel (reaching r.begin (l ∷ ls)) (r ∷ rs)
  unfolding intersect_loop
  round_cross_left lo w h =
      rw (le→leb (l.end + 1) r.begin (omega arith), next_run_reaching_lem r.begin lo l ls w h)

  round_cross_right :
      (lo : ℕ)
      → RunsFrom lo (r ∷ rs)
      → r.begin ≤ l.end
      → r.end < l.begin
      → intersect_loop dom skewed (suc fuel) (l ∷ ls) (r ∷ rs)
        ≡ intersect_loop dom skewed fuel (l ∷ ls) (reaching l.begin (r ∷ rs))
  unfolding intersect_loop
  round_cross_right lo w k h = rw (
    lt→leb (l.end + 1) r.begin (omega arith),
    le→leb (r.end + 1) l.begin (omega arith),
    next_run_reaching_lem l.begin lo r rs w h,
  )

  module _ (a : r.begin ≤ l.end) (b : l.begin ≤ r.end) where
    round_both :
        l.end ≡ r.end
        → intersect_loop dom skewed (suc fuel) (l ∷ ls) (r ∷ rs)
          ≡ with_front
              (emit dom (max l.begin r.begin) (l.end + 1))
              (intersect_loop dom skewed fuel ls rs)
    unfolding intersect_loop
    round_both h = rw (
      lt→leb (l.end + 1) r.begin (omega arith),
      lt→leb (r.end + 1) l.begin (omega arith),
      eq→== (l.end + 1) (r.end + 1) (omega arith),
    )

    round_left :
        l.end < r.end
        → intersect_loop dom skewed (suc fuel) (l ∷ ls) (r ∷ rs)
          ≡ with_front (emit dom (max l.begin r.begin) (l.end + 1)) (
              copy_if_inside skewed ls (r.end + 1) >>= λ p.
              with_front p.0 (intersect_loop dom skewed fuel p.1 (r ∷ rs)))
    unfolding intersect_loop
    round_left h = rw (
      lt→leb (l.end + 1) r.begin (omega arith),
      lt→leb (r.end + 1) l.begin (omega arith),
      lt→== (l.end + 1) (r.end + 1) (omega arith),
      lt→ltb (l.end + 1) (r.end + 1) (omega arith),
    )

    round_right :
        r.end < l.end
        → intersect_loop dom skewed (suc fuel) (l ∷ ls) (r ∷ rs)
          ≡ with_front (emit dom (max r.begin l.begin) (r.end + 1)) (
              copy_if_inside skewed rs (l.end + 1) >>= λ p.
              with_front p.0 (intersect_loop dom skewed fuel (l ∷ ls) p.1))
    unfolding intersect_loop
    round_right h =
        let c : max r.begin l.begin ≡ max l.begin r.begin = omega arith in
        rw (
          lt→leb (l.end + 1) r.begin (omega arith),
          lt→leb (r.end + 1) l.begin (omega arith),
          gt→== (l.end + 1) (r.end + 1) (omega arith),
          le→ltb (l.end + 1) (r.end + 1) (omega arith),
          c,
        )

Ends-swap :
    {dom : ℕ} {lhs rhs : List Run} {o : Option RunIntersection}
    → Ends dom lhs rhs o
    → Ends dom rhs lhs o
Ends-swap (s, e, m) = (s, e, Meets-comm m)

pub from_first :
    {lo : ℕ} (r : Run) (rs : List Run) → RunsFrom lo (r ∷ rs) → RunsFrom r.begin (r ∷ rs)
from_first r rs w = (omega arith, w.1, w.2)

abbrev Done : ℕ → Bool → ℕ → Type 0
Done dom skewed fuel =
    (lo xlo : ℕ) (lhs rhs : List Run)
    → length lhs + length rhs < fuel
    → RunsFrom lo lhs
    → Below dom lhs
    → RunsFrom xlo rhs
    → Below dom rhs
    → Ends dom lhs rhs (intersect_loop dom skewed fuel lhs rhs)

-- One round, from what the later ones do.
module _ (dom : ℕ) (skewed : Bool) (fuel : ℕ) (done : Done dom skewed fuel) (lo xlo : ℕ) (l r : Run)
    (ls rs : List Run) (rounds : length ls + length rs + 1 < fuel) (w : RunsFrom lo (l ∷ ls))
    (b : Below dom (l ∷ ls)) (x : RunsFrom xlo (r ∷ rs)) (c : Below dom (r ∷ rs)) where
  abbrev round : Option RunIntersection
  round = intersect_loop dom skewed (suc fuel) (l ∷ ls) (r ∷ rs)

  crosses_left : l.end < r.begin → Ends dom (l ∷ ls) (r ∷ rs) round
  crosses_left before =
      let left = reaching r.begin (l ∷ ls) in
      let (s, e, m) =
        done lo xlo left (r ∷ rs) (ground (arith, length-reaching r.begin ls))
          (reaching-RunsFrom r.begin lo (l ∷ ls) w) (reaching-Below r.begin dom (l ∷ ls) b) x c in
      (
        s,
        round_cross_left dom skewed fuel l r ls rs lo w before ∙ e,
        Meets-crossed dom r.begin (l ∷ ls) (r ∷ rs) s (from_first r rs x) m,
      )

  crosses_right : r.begin ≤ l.end → r.end < l.begin → Ends dom (l ∷ ls) (r ∷ rs) round
  crosses_right touches after =
      let right = reaching l.begin (r ∷ rs) in
      let (s, e, m) =
        done lo xlo (l ∷ ls) right (ground (arith, length-reaching l.begin rs)) w b
          (reaching-RunsFrom l.begin xlo (r ∷ rs) x) (reaching-Below l.begin dom (r ∷ rs) c) in
      (
        s,
        round_cross_right dom skewed fuel l r ls rs xlo x touches after ∙ e,
        Meets-comm
            (Meets-crossed dom l.begin (r ∷ rs) (l ∷ ls) s (from_first l ls w) (Meets-comm m)),
      )

  module _ (p : r.begin ≤ l.end) (q : l.begin ≤ r.end) where
    left_first : l.end < r.end → Ends dom (l ∷ ls) (r ∷ rs) round
    left_first ends =
        let (s, e, m) =
          copied_then dom skewed (l.end + 2) ls r rs
            (λ rest. intersect_loop dom skewed fuel rest (r ∷ rs)) w.2 b.1 (omega arith)
            (from_first r rs x)
            (λ rest k v u. done (l.end + 2) xlo rest (r ∷ rs) (omega arith) v u x c) in
        (
          joined (emit dom (max l.begin r.begin) (l.end + 1)) s,
          rw (round_left dom skewed fuel l r ls rs p q ends, e),
          Meets-left_ends dom l r ls rs s (from_first l ls w) (from_first r rs x) b.0 (p, q) ends m,
        )

    right_first : r.end < l.end → Ends dom (l ∷ ls) (r ∷ rs) round
    right_first ends =
        let (s, e, m) =
          copied_then dom skewed (r.end + 2) rs l ls
            (λ rest. intersect_loop dom skewed fuel (l ∷ ls) rest) x.2 c.1 (omega arith)
            (from_first l ls w)
            (λ rest k v u. Ends-swap (done lo (r.end + 2) (l ∷ ls) rest (omega arith) w b v u)) in
        (
          joined (emit dom (max r.begin l.begin) (r.end + 1)) s,
          rw (round_right dom skewed fuel l r ls rs p q ends, e),
          Meets-comm (
              Meets-left_ends dom r l rs ls s (from_first r rs x) (from_first l ls w) c.0 (q, p)
                ends m),
        )

    both_first : l.end ≡ r.end → Ends dom (l ∷ ls) (r ∷ rs) round
    both_first ends =
        let (s, e, m) = done (l.end + 2) (r.end + 2) ls rs (omega arith) w.2 b.1 x.2 c.1 in
        (
          joined (emit dom (max l.begin r.begin) (l.end + 1)) s,
          rw (round_both dom skewed fuel l r ls rs p q ends, e),
          Meets-both_end dom l r ls rs s (from_first l ls w) (from_first r rs x) b.0 (p, q) ends m,
        )

  round-Ends : Ends dom (l ∷ ls) (r ∷ rs) round
  round-Ends = elim (order l.end r.begin) [
    | inl before ↦ crosses_left before
    | inr touches ↦ elim (order r.end l.begin) [
      | inl after ↦ crosses_right (omega arith) after
      | inr overlaps ↦ elim (order l.end r.end) [
        | inl ends ↦ left_first (omega arith) (omega arith) ends
        | inr (inl ends) ↦ right_first (omega arith) (omega arith) ends
        | inr (inr ends) ↦ both_first (omega arith) (omega arith) (sym ends)
      ]
    ]
  ]

intersect_loop_ends : (dom : ℕ) (skewed : Bool) (fuel : ℕ) → Done dom skewed fuel
unfolding intersect_loop
intersect_loop_ends dom skewed zero lo xlo lhs rhs h w b x c = absurd (omega arith)
intersect_loop_ends dom skewed (suc fuel) lo xlo [] rhs h w b x c =
    (nothing, refl, Meets-left_empty dom rhs)
intersect_loop_ends dom skewed (suc fuel) lo xlo (l ∷ ls) [] h w b x c =
    (nothing, refl, Meets-comm (Meets-left_empty dom (l ∷ ls)))
intersect_loop_ends dom skewed (suc fuel) lo xlo (l ∷ ls) (r ∷ rs) h w b x c =
    round-Ends dom skewed fuel (intersect_loop_ends dom skewed fuel) lo xlo l r ls rs (omega arith)
      w b x c

intersect_runs_merge-Ends :
    (dom : ℕ) (skewed : Bool) (lhs rhs : List Run)
    → RunsFrom 0 lhs
    → Below dom lhs
    → RunsFrom 0 rhs
    → Below dom rhs
    → Ends dom lhs rhs (intersect_runs_merge dom skewed lhs rhs)
unfolding intersect_runs_merge
intersect_runs_merge-Ends dom skewed lhs rhs w b x c =
    intersect_loop_ends dom skewed (length lhs + length rhs + 1) 0 0 lhs rhs (omega arith) w b x c

-- The intersection of two well formed run lists under the domain size: whichever form of the merge
-- the list lengths choose, it ends and reads nothing out of bounds; the result is well formed,
-- holds exactly the common values, and its cardinality is their number.
pub intersect_runs_lem :
    (dom : ℕ) (lhs rhs : List Run)
    → RunsFrom 0 lhs
    → Below dom lhs
    → RunsFrom 0 rhs
    → Below dom rhs
    → (s : RunIntersection) × (intersect_runs dom lhs rhs ≡ some s)
      × RunsFrom 0 s.runs
      × Below dom s.runs
      × ((v : ℕ) → in_runs s.runs v ≡ (in_runs lhs v && in_runs rhs v))
      × (s.cardinality ≡ count_below dom (in_runs s.runs))
unfolding intersect_runs
intersect_runs_lem dom lhs rhs w b x c =
    let skewed = leb (16 * length rhs) (length lhs) || leb (16 * length lhs) (length rhs) in
    let (s, e, m) = intersect_runs_merge-Ends dom skewed lhs rhs w b x c in
    (
      s,
      pick skewed ∙ e,
      m.like_left 0 w,
      m.within,
      m.same,
      m.counted ∙ runs_size-count dom 0 s.runs (m.like_left 0 w) m.within,
    )
  where
    pick :
        (t : Bool)
        → (if t
            then intersect_runs_merge dom true lhs rhs
            else intersect_runs_merge dom false lhs rhs)
          ≡ intersect_runs_merge dom t lhs rhs
    pick true = refl
    pick false = refl
