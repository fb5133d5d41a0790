-- ===== src/Gallop.antt =====
-- The exponential search of include/frsr/roaring/array_ops.hpp (`gallop_forward`), which the kernels over
-- sorted arrays and over runs share. A read out of bounds gives `none`.
use roaring.Prelude.{
  ℕ, zero, suc, ◌+◌, ◌-◌, ◌*◌, ◌≤◌, ◌<◌, ◌≡◌, ◌∙◌, refl, inl, inr, min, max, Bool, List, Option,
  none, some, ◌>>=◌, leb, ltb, lt→ltb, le→ltb, le→leb, lt→leb, eq→==, lt→==, ap, ◌==◌,
  if◌then◌else◌, arith, order, get_elem?,
}

module _ {ℓ} {A : Type ℓ} where
  -- Whether the key of an element is still under the limit (`Greater`: not above it).
  abbrev pub below : Bool → (A → ℕ) → ℕ → A → Bool
  below greater key_of limit element =
      if greater then leb (key_of element) limit else ltb (key_of element) limit

  -- What `std::lower_bound` and `std::upper_bound` find among `n` elements from `lo` on: the first
  -- that is not below.
  unfoldable pub partition_point : (A → Bool) → List A → ℕ → ℕ → Option ℕ
  partition_point test keys zero lo = some lo
  partition_point test keys (suc n) lo =
      let on = partition_point test keys n (lo + 1) in
      do x ← get_elem? keys lo; if test x then on else some lo

  -- The doubling steps: the last position known to be below, and the step past it.
  pub double_steps : ℕ → (A → Bool) → List A → ℕ → ℕ → ℕ → Option (ℕ × ℕ)
  double_steps zero test keys hi lo step = none
  double_steps (suc fuel) test keys hi lo step =
      let on = double_steps fuel test keys hi (lo + step) (2 * step) in
      if ltb (lo + step) hi
      then (do x ← get_elem? keys (lo + step); if test x then on else some (lo, step))
      else some (lo, step)

  -- From the fourth element on: the steps, then the search of the span that they bracket.
  gallop_far : (A → Bool) → List A → ℕ → ℕ → Option ℕ
  unfolding double_steps partition_point
  gallop_far test keys lo hi = do
    (last, step) ← double_steps hi test keys hi lo 1
    partition_point test keys (min (last + step) hi - (last + 1)) (last + 1)

  -- The up to three elements that are tried one by one.
  gallop_near : ℕ → ℕ → (A → Bool) → List A → ℕ → ℕ → Option ℕ
  unfolding gallop_far
  gallop_near zero offset test keys lo hi = gallop_far test keys (lo + 3) hi
  gallop_near (suc left) offset test keys lo hi =
      let on = gallop_near left (offset + 1) test keys lo hi in
      if leb hi (lo + offset)
      then some (lo + offset)
      else (do x ← get_elem? keys (lo + offset); if test x then on else some (lo + offset))

  pub gallop_forward : Bool → (A → ℕ) → List A → ℕ → ℕ → ℕ → Option ℕ
  unfolding gallop_near
  gallop_forward greater key_of keys lo hi limit =
      let test = below greater key_of limit in
      if lo == hi
      then some lo
      else (do x ← get_elem? keys lo; if test x then gallop_near 3 1 test keys lo hi else some lo)

  -- The elements under `hi` are there, and those before `k` are the ones below.
  abbrev pub IsSplit : (A → Bool) → List A → ℕ → ℕ → Type ℓ
  IsSplit test keys hi k =
      (i : ℕ) → i < hi → (x : A) × (get_elem? keys i ≡ some x) × (test x ≡ ltb i k)

  module _ (test : A → Bool) (keys : List A) (hi k : ℕ) (split : IsSplit test keys hi k)
      (inside : k ≤ hi) where
    pub partition_point_lem :
        (n lo : ℕ) → lo ≤ k → k ≤ lo + n → lo + n ≤ hi → partition_point test keys n lo ≡ some k
    unfolding partition_point
    partition_point_lem zero lo a b c = ground arith
    partition_point_lem (suc n) lo a b c =
        let (x, e, t) = split lo (omega arith) in
        elim (order lo k) [
          | inl under ↦
              rw (e, t, lt→ltb lo k under)
                (partition_point_lem n (lo + 1) (omega arith) (omega arith) (omega arith))
          | inr at ↦ rw (e, t, le→ltb lo k (omega arith)) (ap some (omega arith))
        ]

    -- The doubling ends at a bracket of the split.
    pub double_steps_lem :
        (fuel lo step : ℕ)
        → lo < k
        → 0 < step
        → hi ≤ fuel + lo
        → (last s : ℕ) × (double_steps fuel test keys hi lo step ≡ some (last, s))
          × (last < k)
          × (k ≤ last + s)
    unfolding double_steps
    double_steps_lem zero lo step a b c = absurd (omega arith)
    double_steps_lem (suc fuel) lo step a b c = elim (order (lo + step) hi) [
      | inr out ↦ (lo, step, rw (le→ltb (lo + step) hi (omega arith)), a, omega arith)
      | inl in_range ↦
          let (x, e, t) = split (lo + step) in_range in
          elim (order (lo + step) k) [
            | inl under ↦
                let (last, s, q, p, r) =
                  double_steps_lem fuel (lo + step) (2 * step) under (omega arith) (omega arith) in
                (
                  last,
                  s,
                  rw (lt→ltb (lo + step) hi in_range, e, t, lt→ltb (lo + step) k under) q,
                  p,
                  r,
                )
            | inr past ↦ (
              lo,
              step,
              rw (lt→ltb (lo + step) hi in_range, e, t, le→ltb (lo + step) k (omega arith)),
              a,
              omega arith,
            )
          ]
    ]

    gallop_far_lem : (lo : ℕ) → lo < k → gallop_far test keys lo hi ≡ some k
    unfolding gallop_far
    gallop_far_lem lo a =
        let (last, s, q, p, r) = double_steps_lem hi lo 1 a (omega arith) (omega arith) in
        rw q (
          partition_point_lem (min (last + s) hi - (last + 1)) (last + 1) (omega arith)
            (omega arith) (omega arith))

    gallop_near_lem :
        (left offset lo : ℕ)
        → left + offset ≡ 4
        → lo + offset ≤ k
        → gallop_near left offset test keys lo hi ≡ some k
    unfolding gallop_near
    gallop_near_lem zero offset lo f a = gallop_far_lem (lo + 3) (omega arith)
    gallop_near_lem (suc left) offset lo f a = elim (order (lo + offset) hi) [
      | inr out ↦ rw (le→leb hi (lo + offset) (omega arith)) (ap some (omega arith))
      | inl in_range ↦
          let (x, e, t) = split (lo + offset) in_range in
          elim (order (lo + offset) k) [
            | inl under ↦
                rw (lt→leb hi (lo + offset) in_range, e, t, lt→ltb (lo + offset) k under)
                  (gallop_near_lem left (offset + 1) lo (omega arith) (omega arith))
            | inr past ↦
                rw (lt→leb hi (lo + offset) in_range, e, t, le→ltb (lo + offset) k (omega arith))
                  (ap some (omega arith))
          ]
    ]

  -- Over elements of which the first `k` are below the limit, none after them, the gallop from `lo`
  -- finds `k` (`lo`, if that is past it): it reads nothing out of bounds, and its steps end.
  pub gallop_forward_lem :
      (greater : Bool) (key_of : A → ℕ) (keys : List A) (lo hi limit k : ℕ)
      → lo ≤ hi
      → k ≤ hi
      → IsSplit (below greater key_of limit) keys hi k
      → gallop_forward greater key_of keys lo hi limit ≡ some (max lo k)
  unfolding gallop_forward
  gallop_forward_lem greater key_of keys lo hi limit k a b split = elim (order lo hi) [
    | inr end ↦ rw (eq→== lo hi (omega arith)) (ap some (omega arith))
    | inl in_range ↦
        let (x, e, t) = split lo in_range in
        elim (order lo k) [
          | inl under ↦
              rw (lt→== lo hi in_range, e, t, lt→ltb lo k under)
                (gallop_near_lem _ keys hi k split b 3 1 lo refl (omega arith)
                  ∙ ap some (omega arith))
          | inr past ↦
              rw (lt→== lo hi in_range, e, t, le→ltb lo k (omega arith)) (ap some (omega arith))
        ]
  ]
