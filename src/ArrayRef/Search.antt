-- ===== src/ArrayRef/Search.antt =====
-- The search over blocks finds the block of a value, and the scan of the block answers.
use roaring.Prelude.{
  ℕ, zero, suc, ◌+◌, ◌-◌, ◌*◌, ◌/◌, ◌≤◌, ◌<◌, ◌≡◌, ◌⊎◌, refl, ap, inl, inr, min, List, some, ltb,
  lt→ltb, le→ltb, le→leb, lt→leb, arith, order, length, get_elem?,
}
use roaring.Values.{in_values, Ascending}
use roaring.ArrayRef.{scan, block_below, halve, quarter_search, sorted_array_contains}
use roaring.ArrayRef.Rank.{rank, rank-le-length, rank-IsSplit, in_values-rank, in_values_past}

module _ (lo v : ℕ) (xs : List ℕ) (w : Ascending lo xs) where
  -- From at most the place on, the scan answers if it reaches the place or the end.
  scan_lem :
      (n j : ℕ)
      → j ≤ rank xs v
      → j + n ≤ length xs
      → (rank xs v < j + n) ⊎ (j + n ≡ length xs)
      → scan xs v n j ≡ some (in_values xs v)
  unfolding scan
  scan_lem zero j a b c =
      let e : rank xs v ≡ length xs = omega (arith, rank-le-length xs v) in
      rw (in_values_past v xs e) refl
  scan_lem (suc n) j a b c =
      let (x, e, t) = rank-IsSplit lo v xs w j (omega arith) in
      elim (order j (rank xs v)) [
        | inl before ↦
            let under : x < v = ground (arith, t) in
            rw (e, lt→leb v x under)
              (scan_lem n (j + 1) (omega arith) (omega arith)
                (elim c [ inl p ↦ inl (omega arith) | inr q ↦ inr (omega arith) ]))
        | inr at ↦
            let here : j ≡ rank xs v = omega arith in
            let over : v ≤ x = ground (arith, t) in
            let e' : get_elem? xs (rank xs v) ≡ some x = rw here at e in
            rw (e, le→leb v x over, in_values-rank lo v x xs w e') refl
      ]

  -- How many blocks are wholly below the value.
  abbrev pub below_blocks : ℕ
  below_blocks = rank xs v / 16

  block_below_lem :
      (block : ℕ)
      → (block + 1) * 16 ≤ length xs
      → block_below xs v block ≡ some (ltb block below_blocks)
  unfolding block_below
  block_below_lem block h =
      let (x, e, t) = rank-IsSplit lo v xs w ((block + 1) * 16 - 1) (omega arith) in
      rw (e, t) (ap some (ground arith))

  module _ (blocks : ℕ) (there : blocks * 16 ≤ length xs) where
    -- The block where the scan has to start; `blocks`, if it is past them.
    abbrev pub target : ℕ
    target = min below_blocks blocks

    halve_lem :
        (fuel base n : ℕ)
        → 1 ≤ n
        → n ≤ fuel
        → base ≤ target
        → target ≤ base + n
        → base + n ≤ blocks
        → halve xs v fuel base n ≡ some target
    unfolding halve
    halve_lem zero base n a b c d e = absurd (omega arith)
    halve_lem (suc fuel) base n a b c d e = elim (order 1 n) [
      | inr last ↦
          let r = block_below_lem base (omega arith) in
          elim (order base below_blocks) [
            | inl under ↦
                rw (le→ltb 1 n (omega arith), r, lt→ltb base below_blocks under)
                  (ap some (omega arith))
            | inr over ↦
                rw (le→ltb 1 n (omega arith), r, le→ltb base below_blocks (omega arith))
                  (ap some (omega arith))
          ]
      | inl more ↦
          let r = block_below_lem (base + n / 2) (omega arith) in
          elim (order (base + n / 2) below_blocks) [
            | inl under ↦
                rw (lt→ltb 1 n more, r, lt→ltb (base + n / 2) below_blocks under)
                  (halve_lem fuel (base + n / 2) (n - n / 2) (omega arith) (omega arith)
                    (omega arith) (omega arith) (omega arith))
            | inr over ↦
                rw (lt→ltb 1 n more, r, le→ltb (base + n / 2) below_blocks (omega arith))
                  (halve_lem fuel base (n - n / 2) (omega arith) (omega arith) (omega arith)
                    (omega arith) (omega arith))
          ]
    ]

    pub quarter_search_lem :
        (fuel base n : ℕ)
        → 1 ≤ n
        → n ≤ fuel
        → base ≤ target
        → target ≤ base + n
        → base + n ≤ blocks
        → quarter_search xs v fuel base n ≡ some target
    unfolding quarter_search
    quarter_search_lem zero base n a b c d e = absurd (omega arith)
    quarter_search_lem (suc fuel) base n a b c d e = elim (order 3 n) [
      | inr few ↦ rw (le→ltb 3 n (omega arith)) (halve_lem (n + 1) base n a (omega arith) c d e)
      | inl many ↦
          let q = n / 4 in
          let r1 = block_below_lem (base + q) (omega arith) in
          let r2 = block_below_lem (base + 2 * q) (omega arith) in
          let r3 = block_below_lem (base + 3 * q) (omega arith) in
          rw (lt→ltb 3 n many, r1, r2, r3)
            (elim (order (base + q) below_blocks) [
              | inr none_below ↦
                  rw
                    (
                      le→ltb (base + q) below_blocks (omega arith),
                      le→ltb (base + 2 * q) below_blocks (omega arith),
                      le→ltb (base + 3 * q) below_blocks (omega arith),
                    )
                    (quarter_search_lem fuel (base + 0 * q) (n - 3 * q) (omega arith) (omega arith)
                      (omega arith) (omega arith) (omega arith))
              | inl first ↦ elim (order (base + 2 * q) below_blocks) [
                | inr one_below ↦
                    rw
                      (
                        lt→ltb (base + q) below_blocks first,
                        le→ltb (base + 2 * q) below_blocks (omega arith),
                        le→ltb (base + 3 * q) below_blocks (omega arith),
                      )
                      (quarter_search_lem fuel (base + 1 * q) (n - 3 * q) (omega arith)
                        (omega arith) (omega arith) (omega arith) (omega arith))
                | inl second ↦ elim (order (base + 3 * q) below_blocks) [
                  | inr two_below ↦
                      rw
                        (
                          lt→ltb (base + q) below_blocks first,
                          lt→ltb (base + 2 * q) below_blocks second,
                          le→ltb (base + 3 * q) below_blocks (omega arith),
                        )
                        (quarter_search_lem fuel (base + 2 * q) (n - 3 * q) (omega arith)
                          (omega arith) (omega arith) (omega arith) (omega arith))
                  | inl third ↦
                      rw
                        (
                          lt→ltb (base + q) below_blocks first,
                          lt→ltb (base + 2 * q) below_blocks second,
                          lt→ltb (base + 3 * q) below_blocks third,
                        )
                        (quarter_search_lem fuel (base + 3 * q) (n - 3 * q) (omega arith)
                          (omega arith) (omega arith) (omega arith) (omega arith))
                ]
              ]
            ])
    ]

  -- On an ascending array of any length, the search by quarters and halves of its blocks and the
  -- scan that ends it read nothing out of bounds and end, and the answer is membership.
  pub sorted_array_contains_lem : sorted_array_contains xs v ≡ some (in_values xs v)
  unfolding sorted_array_contains
  sorted_array_contains_lem =
      let size = length xs in
      let blocks = size / 16 in
      let least : rank xs v ≤ size = rank-le-length xs v in
      elim (order size 16) [
        | inl few ↦
            rw (lt→ltb size 16 few)
              (scan_lem size 0 (omega arith) (omega arith) (inr (omega arith)))
        | inr many ↦
            let there : blocks * 16 ≤ size = omega arith in
            let found =
              quarter_search_lem blocks there (blocks + 1) 0 blocks (omega arith) (omega arith)
                (omega arith) (omega arith) (omega arith) in
            let at = target blocks there in
            elim (order at blocks) [
              | inl inside ↦
                  rw (le→ltb size 16 (omega arith), found, lt→ltb at blocks inside)
                    (scan_lem 16 (at * 16) (omega arith) (omega arith) (inl (omega arith)))
              | inr past ↦
                  rw (le→ltb size 16 (omega arith), found, le→ltb at blocks (omega arith))
                    (scan_lem (size - blocks * 16) (blocks * 16) (omega arith) (omega arith)
                      (inr (omega arith)))
            ]
      ]
