-- ===== src/Ranked/Arrays.antt =====
-- The position search in an array payload finds the rank, and the rank counts the values below.
use roaring.Prelude.{
  ℕ, zero, suc, ◌+◌, ◌-◌, ◌*◌, ◌/◌, ◌≤◌, ◌<◌, ◌≡◌, ◌∙◌, ◌⊎◌, refl, ap, inl, inr, min, false, true,
  ◌&&◌, ◌||◌, List, [], ◌∷◌, some, leb, lt→ltb, le→ltb, le→leb, lt→leb, arith, order, length,
  get_elem?, count_below, count_below-none, count_below-or, count_below-interval_cut,
  count_below-cong,
}
use roaring.Values.{in_values, in_values_before, Ascending, AllBelow}
use roaring.ArrayRef.Rank.{rank, rank-le-length, rank_before, rank-IsSplit}
use roaring.ArrayRef.Search.{target, quarter_search_lem}
use roaring.Frozen.View.{array_block_search}
use roaring.Ranked.{scan_position, count_block, array_lower_bound}

fresh_head :
    (x v : ℕ) (xs : List ℕ) → Ascending (x + 1) xs → (leb x v && leb v x) && in_values xs v ≡ false
fresh_head x v xs w = ground (arith, in_values_before (x + 1) v xs w)

-- The rank of a value is the number of the values below it.
pub rank-count_below :
    (lo v : ℕ) (xs : List ℕ) → Ascending lo xs → rank xs v ≡ count_below v (in_values xs)
rank-count_below lo v [] w = omega (arith, count_below-none v)
rank-count_below lo v (x ∷ xs) w =
    let head =
      count_below-cong v (in_values (x ∷ xs)) (λ u. (leb x u && leb u x) || in_values xs u)
        (λ u. ground arith) in
    let parts =
      count_below-or v (λ u. leb x u && leb u x) (in_values xs) (λ u. fresh_head x u xs w.1) in
    ground (
      arith,
      head,
      parts,
      count_below-interval_cut v x x,
      rank-count_below (x + 1) v xs w.1,
      rank_before (x + 1) v xs w.1,
    )

module _ (lo v : ℕ) (xs : List ℕ) (w : Ascending lo xs) where
  scan_position_lem :
      (n j : ℕ)
      → j ≤ rank xs v
      → j + n ≤ length xs
      → (rank xs v < j + n) ⊎ (j + n ≡ length xs)
      → scan_position xs v n j ≡ some (rank xs v)
  unfolding scan_position
  scan_position_lem zero j a b c = ap some (omega (arith, rank-le-length xs v))
  scan_position_lem (suc n) j a b c =
      let (x, e, t) = rank-IsSplit lo v xs w j (omega arith) in
      elim (order j (rank xs v)) [
        | inl before ↦
            let under : x < v = ground (arith, t) in
            rw (e, lt→leb v x under)
              (scan_position_lem n (j + 1) (omega arith) (omega arith)
                (elim c [ inl p ↦ inl (omega arith) | inr q ↦ inr (omega arith) ]))
        | inr at ↦
            let over : v ≤ x = ground (arith, t) in rw (e, le→leb v x over) (ap some (omega arith))
      ]

  -- The values of a block that are below.
  count_block_lem :
      (n j below : ℕ)
      → j + n ≤ length xs
      → count_block xs v n j below ≡ some (below + min n (rank xs v - j))
  unfolding count_block
  count_block_lem zero j below a = ap some (omega arith)
  count_block_lem (suc n) j below a =
      let (x, e, t) = rank-IsSplit lo v xs w j (omega arith) in
      elim (order j (rank xs v)) [
        | inl before ↦
            rw (e, t, lt→ltb j (rank xs v) before)
              (count_block_lem n (j + 1) (below + 1) (omega arith) ∙ ap some (omega arith))
        | inr at ↦
            rw (e, t, le→ltb j (rank xs v) (omega arith))
              (count_block_lem n (j + 1) (below + 0) (omega arith) ∙ ap some (omega arith))
      ]

  -- On an ascending array of any length, the search of its blocks and the count in the block that it
  -- finds read nothing out of bounds and end, and the position is how many values are below.
  pub array_lower_bound_lem : array_lower_bound xs v ≡ some (rank xs v)
  unfolding array_lower_bound array_block_search
  array_lower_bound_lem =
      let size = length xs in
      let blocks = size / 16 in
      let least : rank xs v ≤ size = rank-le-length xs v in
      elim (order size 16) [
        | inl few ↦
            rw (lt→ltb size 16 few)
              (scan_position_lem size 0 (omega arith) (omega arith) (inr (omega arith)))
        | inr many ↦
            let there : blocks * 16 ≤ size = omega arith in
            let found =
              quarter_search_lem lo v xs w blocks there (blocks + 1) 0 blocks (omega arith)
                (omega arith) (omega arith) (omega arith) (omega arith) in
            let at = target lo v xs w blocks there in
            elim (order at blocks) [
              | inl inside ↦
                  rw
                    (
                      le→ltb size 16 (omega arith),
                      found,
                      lt→ltb at blocks inside,
                      count_block_lem 16 (at * 16) 0 (omega arith),
                    )
                    (ap some (omega arith))
              | inr past ↦
                  rw (le→ltb size 16 (omega arith), found, le→ltb at blocks (omega arith))
                    (scan_position_lem (size - blocks * 16) (blocks * 16) (omega arith)
                      (omega arith) (inr (omega arith)))
            ]
      ]

-- Of ascending values, the one at a position has just as many below it.
pub array_select_lem :
    (lo dom i : ℕ) (xs : List ℕ)
    → Ascending lo xs
    → AllBelow dom xs
    → i < length xs
    → (v : ℕ) × (get_elem? xs i ≡ some v)
      × (v < dom)
      × (in_values xs v ≡ true)
      × (rank xs v ≡ i)
      × (lo ≤ v)
array_select_lem lo dom i [] w b h = absurd (omega arith)
array_select_lem lo dom zero (x ∷ xs) w b h = (x, refl, b.0, ground arith, ground arith, w.0)
array_select_lem lo dom (suc i) (x ∷ xs) w b h =
    let (v, e, l, on, same, m) = array_select_lem (x + 1) dom i xs w.1 b.1 (omega arith) in
    (v, e, l, ground (arith, on), ground (arith, same), omega arith)
