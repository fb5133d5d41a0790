-- ===== src/Frozen/BlockTest.antt =====
-- The test of a block of sixteen values: the intrinsics that a build on x86 calls answer as the loop does.
use roaring.Prelude.{
  ℕ, zero, suc, ◌+◌, ◌*◌, ◌/◌, ◌^◌, ◌≤◌, ◌<◌, ◌≡◌, ◌∙◌, refl, ap, inl, inr, List, [], ◌∷◌, Option,
  none, some, ◌>>=◌, leb, lt→ltb, le→ltb, le→leb, lt→leb, ◌==◌, if◌then◌else◌, arith, order, length,
  get_elem?, take, drop,
}
use roaring.Values.{in_values, in_values_before, Ascending, AllBelow}
use roaring.ArrayRef.{scan, sorted_array_contains}
use roaring.ArrayRef.Search.{sorted_array_contains_lem}
use roaring.Frozen.View.{BlockTest, array_block_search, block_contains, array_contains_payload}

-- What the comparison of a build is relied on for: the loop needs nothing; the intrinsics are for low
-- values of 16 bits, and find out whether one of sixteen such values is equal to the value.
abbrev pub IsBlockTest : ℕ → BlockTest → Type 0
IsBlockTest key_bits none = Unit
IsBlockTest key_bits (some hit) =
    (16 ≤ key_bits)
    × ((block : List ℕ) (value : ℕ)
        → length block ≡ 16
        → AllBelow (2 ^ 16) block
        → value < 2 ^ 16
        → hit block value ≡ in_values block value)

Ascending-take : (lo n : ℕ) (xs : List ℕ) → Ascending lo xs → Ascending lo (take n xs)
Ascending-take lo zero xs w = tt
Ascending-take lo (suc n) [] w = tt
Ascending-take lo (suc n) (x ∷ xs) w = (w.0, Ascending-take (x + 1) n xs w.1)

AllBelow-take : (m n : ℕ) (xs : List ℕ) → AllBelow m xs → AllBelow m (take n xs)
AllBelow-take m zero xs b = tt
AllBelow-take m (suc n) [] b = tt
AllBelow-take m (suc n) (x ∷ xs) b = (b.0, AllBelow-take m n xs b.1)

AllBelow-drop : (m n : ℕ) (xs : List ℕ) → AllBelow m xs → AllBelow m (drop n xs)
AllBelow-drop m zero xs b = b
AllBelow-drop m (suc n) [] b = tt
AllBelow-drop m (suc n) (x ∷ xs) b = AllBelow-drop m n xs b.1

length-take : (n : ℕ) (xs : List ℕ) → n ≤ length xs → length (take n xs) ≡ n
length-take zero xs h = refl
length-take (suc n) [] h = absurd (omega arith)
length-take (suc n) (x ∷ xs) h = ap suc (length-take n xs (omega arith))

length-drop : (n : ℕ) (xs : List ℕ) → n ≤ length xs → length (drop n xs) + n ≡ length xs
length-drop zero xs h = omega arith
length-drop (suc n) [] h = absurd (omega arith)
length-drop (suc n) (x ∷ xs) h = omega (arith, length-drop n xs)

scan_tail : (n j x v : ℕ) (xs : List ℕ) → scan (x ∷ xs) v n (suc j) ≡ scan xs v n j
unfolding scan
scan_tail zero j x v xs = refl
scan_tail (suc n) j x v xs =
    let next : suc j + 1 ≡ suc (j + 1) = omega arith in
    let on : scan (x ∷ xs) v n (suc j + 1) ≡ scan xs v n (j + 1) =
      ap (scan (x ∷ xs) v n) next ∙ scan_tail n (j + 1) x v xs in
    ap (λ r. get_elem? xs j >>= λ y. if leb v y then some (y == v) else r) on

module _ (v : ℕ) where
  scan_front :
      (lo n : ℕ) (xs : List ℕ)
      → Ascending lo xs
      → n ≤ length xs
      → scan xs v n 0 ≡ some (in_values (take n xs) v)
  unfolding scan
  scan_front lo zero xs w h = refl
  scan_front lo (suc n) [] w h = absurd (omega arith)
  scan_front lo (suc n) (x ∷ xs) w h =
      let on : scan (x ∷ xs) v n 1 ≡ some (in_values (take n xs) v) =
        scan_tail n 0 x v xs ∙ scan_front (x + 1) n xs w.1 (omega arith) in
      elim (order x v) [
        | inl under ↦ rw (lt→leb v x under, on) (ap some (ground (arith, under)))
        | inr over ↦
            let off =
              in_values_before (x + 1) v (take n xs) (Ascending-take (x + 1) n xs w.1)
                (omega arith) in
            rw (le→leb v x (omega arith), off) (ap some (ground arith))
      ]

  -- The loop tells whether the value is in the block.
  scan_block :
      (lo n j : ℕ) (xs : List ℕ)
      → Ascending lo xs
      → j + n ≤ length xs
      → scan xs v n j ≡ some (in_values (take n (drop j xs)) v)
  scan_block lo n zero xs w h = scan_front lo n xs w (omega arith)
  scan_block lo n (suc j) [] w h = absurd (omega arith)
  scan_block lo n (suc j) (x ∷ xs) w h =
      scan_tail n j x v xs ∙ scan_block (x + 1) n j xs w.1 (omega arith)

  module _ (key_bits : ℕ) (xs : List ℕ) (w : Ascending 0 xs) (b : AllBelow (2 ^ 16) xs)
      (small : v < 2 ^ 16) where
    block_contains_lem :
        (test : BlockTest) (at : ℕ)
        → IsBlockTest key_bits test
        → at + 16 ≤ length xs
        → block_contains test xs v at ≡ scan xs v 16 at
    unfolding block_contains
    block_contains_lem none at t h = refl
    block_contains_lem (some hit) at t h =
        let n = length-drop at xs (omega arith) in
        let same =
          t.1 (take 16 (drop at xs)) v (length-take 16 (drop at xs) (omega arith))
            (AllBelow-take (2 ^ 16) 16 (drop at xs) (AllBelow-drop (2 ^ 16) at xs b)) small in
        rw (le→ltb (length xs) (at + 16) h, same, scan_block 0 16 at xs w h) refl

    payload_search :
        (test : BlockTest) (found : Option ℕ)
        → IsBlockTest key_bits test
        → array_block_search xs (length xs / 16) v ≡ found
        → array_contains_payload test xs v ≡ sorted_array_contains xs v
    unfolding array_contains_payload array_block_search sorted_array_contains
    payload_search test none t e = rw e refl
    payload_search test (some lo) t e = elim (order lo (length xs / 16)) [
      | inl inside ↦
          rw
            (
              e,
              lt→ltb lo (length xs / 16) inside,
              block_contains_lem test (lo * 16) t (omega arith),
            )
            refl
      | inr past ↦ rw (e, le→ltb lo (length xs / 16) (omega arith)) refl
    ]

    pub array_payload :
        (test : BlockTest)
        → IsBlockTest key_bits test
        → array_contains_payload test xs v ≡ some (in_values xs v)
    array_payload test t =
        payload_search test (array_block_search xs (length xs / 16) v) t refl
        ∙ sorted_array_contains_lem 0 v xs w
