-- ===== src/ArrayRef/Rank.antt =====
-- The place of a value in a sorted array.
use roaring.Prelude.{
  ℕ, zero, suc, ◌+◌, ◌≤◌, ◌≡◌, refl, inl, inr, false, List, [], ◌∷◌, some, ltb, lt→ltb, le→ltb,
  ◌==◌, if◌then◌else◌, arith, order, length, get_elem?,
}
use roaring.Values.{in_values, in_values_before, Ascending}
use roaring.Gallop.{IsSplit}

-- How many values are below `v`.
abbrev pub rank : List ℕ → ℕ → ℕ
rank [] v = 0
rank (x ∷ xs) v = if ltb x v then suc (rank xs v) else 0

pub rank-le-length : (xs : List ℕ) (v : ℕ) → rank xs v ≤ length xs
rank-le-length [] v = omega arith
rank-le-length (x ∷ xs) v = ground (arith, rank-le-length xs v)

pub rank_before : (lo v : ℕ) (xs : List ℕ) → Ascending lo xs → v ≤ lo → rank xs v ≡ 0
rank_before lo v [] w h = refl
rank_before lo v (x ∷ xs) w h = ground arith

-- The values before it are those below `v`.
pub rank-IsSplit :
    (lo v : ℕ) (xs : List ℕ) → Ascending lo xs → IsSplit (λ x. ltb x v) xs (length xs) (rank xs v)
rank-IsSplit lo v [] w i h = absurd (omega arith)
rank-IsSplit lo v (x ∷ xs) w zero h = (x, refl, ground arith)
rank-IsSplit lo v (x ∷ xs) w (suc i) h =
    let (y, e, t) = rank-IsSplit (x + 1) v xs w.1 i (omega arith) in
    (y, e, ground (arith, rank_before (x + 1) v xs w.1))

-- What stands at the place decides.
pub in_values-rank :
    (lo v x : ℕ) (xs : List ℕ)
    → Ascending lo xs
    → get_elem? xs (rank xs v) ≡ some x
    → in_values xs v ≡ (x == v)
in_values-rank lo v x [] w h = ground arith
in_values-rank lo v x (y ∷ ys) w h = elim (order y v) [
  | inl less ↦
      let h' : get_elem? ys (rank ys v) ≡ some x = rw (lt→ltb y v less) at h in
      ground (arith, in_values-rank (y + 1) v x ys w.1 h')
  | inr more ↦
      let h' : some y ≡ some x = rw (le→ltb y v (omega arith)) at h in
      ground (arith, h', in_values_before (y + 1) v ys w.1)
]

-- No value from `v` on: it is not there.
pub in_values_past : (v : ℕ) (xs : List ℕ) → rank xs v ≡ length xs → in_values xs v ≡ false
in_values_past v [] h = refl
in_values_past v (x ∷ xs) h = ground (arith, in_values_past v xs)
