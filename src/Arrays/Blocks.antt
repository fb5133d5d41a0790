-- ===== src/Arrays/Blocks.antt =====
-- The blocks of four of a scalar merge, and the whole merge.
use roaring.Prelude.{
  ℕ, zero, suc, ◌+◌, ◌≤◌, ◌<◌, ◌≡◌, refl, inl, inr, Bool, true, false, ◌&&◌, List, [], ◌∷◌, ◌++◌,
  some, leb, lt→ltb, le→ltb, le→leb, Bool-cases, arith, order, subst, length,
}
use roaring.Values.{Ascending, Ascending-mono}
use roaring.Arrays.{Kept, kept, equal_blocks, merge_blocks, merge_sorted}
use roaring.Arrays.Steps.{Merges, left_first, right_first, both_first}
use roaring.Arrays.Merge.{merge_values-Merges, merge_steps-Advances}

abbrev block : ℕ → ℕ → ℕ → ℕ → List ℕ
block x0 x1 x2 x3 = x0 ∷ x1 ∷ x2 ∷ x3 ∷ []

kept-block :
    (t : Bool) (x0 x1 x2 x3 : ℕ) (out : List ℕ)
    → kept t (x0 ∷ []) ++ (kept t (x1 ∷ []) ++ (kept t (x2 ∷ []) ++ (kept t (x3 ∷ []) ++ out)))
      ≡ kept t (block x0 x1 x2 x3) ++ out
kept-block true x0 x1 x2 x3 out = refl
kept-block false x0 x1 x2 x3 out = refl

equal_values :
    (x0 x1 x2 x3 y0 y1 y2 y3 : ℕ)
    → equal_blocks (block x0 x1 x2 x3) (block y0 y1 y2 y3) ≡ true
    → (y0 ≡ x0) × (y1 ≡ x1) × (y2 ≡ x2) × (y3 ≡ x3)
unfolding equal_blocks
equal_values x0 x1 x2 x3 y0 y1 y2 y3 h = ground arith

module _ (k : Kept) (lo x0 x1 x2 x3 : ℕ) where
  block_left :
      (a b out : List ℕ)
      → Ascending lo (x0 ∷ x1 ∷ x2 ∷ x3 ∷ a)
      → Ascending (x3 + 1) b
      → Merges k (x3 + 1) a b out
      → Merges k lo (x0 ∷ x1 ∷ x2 ∷ x3 ∷ a) b (kept k.left (block x0 x1 x2 x3) ++ out)
  block_left a b out wa wb m =
      let after : (n : ℕ) → n ≤ x3 + 1 → Ascending n b = λ n h. Ascending-mono (x3 + 1) n b h wb in
      subst (Merges k lo (x0 ∷ x1 ∷ x2 ∷ x3 ∷ a) b) (kept-block k.left x0 x1 x2 x3 out) (
        left_first k lo x0 (omega arith) _ b _ wa.1 (after (x0 + 1) (omega arith)) (
          left_first k (x0 + 1) x1 (omega arith) _ b _ wa.1.1 (after (x1 + 1) (omega arith)) (
            left_first k (x1 + 1) x2 (omega arith) _ b _ wa.1.1.1 (after (x2 + 1) (omega arith))
              (left_first k (x2 + 1) x3 (omega arith) a b out wa.1.1.1.1 wb m))))

  block_right :
      (a b out : List ℕ)
      → Ascending (x3 + 1) a
      → Ascending lo (x0 ∷ x1 ∷ x2 ∷ x3 ∷ b)
      → Merges k (x3 + 1) a b out
      → Merges k lo a (x0 ∷ x1 ∷ x2 ∷ x3 ∷ b) (kept k.right (block x0 x1 x2 x3) ++ out)
  block_right a b out wa wb m =
      let after : (n : ℕ) → n ≤ x3 + 1 → Ascending n a = λ n h. Ascending-mono (x3 + 1) n a h wa in
      subst (Merges k lo a (x0 ∷ x1 ∷ x2 ∷ x3 ∷ b)) (kept-block k.right x0 x1 x2 x3 out) (
        right_first k lo x0 (omega arith) a _ _ (after (x0 + 1) (omega arith)) wb.1 (
          right_first k (x0 + 1) x1 (omega arith) a _ _ (after (x1 + 1) (omega arith)) wb.1.1 (
            right_first k (x1 + 1) x2 (omega arith) a _ _ (after (x2 + 1) (omega arith)) wb.1.1.1
              (right_first k (x2 + 1) x3 (omega arith) a b out wa wb.1.1.1.1 m))))

  block_both :
      (a b out : List ℕ)
      → Ascending lo (x0 ∷ x1 ∷ x2 ∷ x3 ∷ a)
      → Ascending lo (x0 ∷ x1 ∷ x2 ∷ x3 ∷ b)
      → Merges k (x3 + 1) a b out
      → Merges k lo
          (x0 ∷ x1 ∷ x2 ∷ x3 ∷ a)
          (x0 ∷ x1 ∷ x2 ∷ x3 ∷ b)
          (kept k.both (block x0 x1 x2 x3) ++ out)
  block_both a b out wa wb m =
      subst (Merges k lo (x0 ∷ x1 ∷ x2 ∷ x3 ∷ a) (x0 ∷ x1 ∷ x2 ∷ x3 ∷ b))
        (kept-block k.both x0 x1 x2 x3 out)
        (both_first k lo x0 (omega arith) _ _ _ wa.1 wb.1 (
          both_first k (x0 + 1) x1 (omega arith) _ _ _ wa.1.1 wb.1.1 (
            both_first k (x1 + 1) x2 (omega arith) _ _ _ wa.1.1.1 wb.1.1.1
              (both_first k (x2 + 1) x3 (omega arith) a b out wa.1.1.1.1 wb.1.1.1.1 m))))

-- The first four values.
quad :
    (a : List ℕ)
    → 4 ≤ length a
    → (x0 x1 x2 x3 : ℕ) × (rest : List ℕ) × (a ≡ x0 ∷ x1 ∷ x2 ∷ x3 ∷ rest)
      × (length a ≡ length rest + 4)
quad [] h = absurd (omega arith)
quad (x0 ∷ []) h = absurd (omega arith)
quad (x0 ∷ x1 ∷ []) h = absurd (omega arith)
quad (x0 ∷ x1 ∷ x2 ∷ []) h = absurd (omega arith)
quad (x0 ∷ x1 ∷ x2 ∷ x3 ∷ rest) h = (x0, x1, x2, x3, rest, refl, omega arith)

-- What the loop does on `a` and `b` with `fuel` rounds.
abbrev Finishes : Kept → ℕ → ℕ → List ℕ → List ℕ → Type 0
Finishes k fuel lo a b = (out : List ℕ) × (merge_blocks k fuel a b ≡ some out) × Merges k lo a b out

module _ (k : Kept) (fuel : ℕ)
    (later : (lo : ℕ) (a b : List ℕ)
      → length a + length b < fuel
      → Ascending lo a
      → Ascending lo b
      → Finishes k fuel lo a b)
    (lo x0 x1 x2 x3 y0 y1 y2 y3 : ℕ) (a b : List ℕ) (enough : length a + length b + 8 ≤ fuel)
    (wa : Ascending lo (x0 ∷ x1 ∷ x2 ∷ x3 ∷ a)) (wb : Ascending lo (y0 ∷ y1 ∷ y2 ∷ y3 ∷ b)) where
  abbrev xs : List ℕ
  xs = x0 ∷ x1 ∷ x2 ∷ x3 ∷ a

  abbrev ys : List ℕ
  ys = y0 ∷ y1 ∷ y2 ∷ y3 ∷ b

  long_a : leb 4 (length xs) ≡ true
  long_a = le→leb 4 (length xs) (omega arith)

  long_b : leb 4 (length ys) ≡ true
  long_b = le→leb 4 (length ys) (omega arith)

  round_left : x3 < y0 → Finishes k (suc fuel) lo xs ys
  unfolding merge_blocks
  round_left h =
      let wb' : Ascending (x3 + 1) ys = (omega arith, wb.1) in
      let (out, e, m) = later (x3 + 1) a ys (omega arith) wa.1.1.1.1 wb' in
      (
        kept k.left (block x0 x1 x2 x3) ++ out,
        rw (long_a, long_b, lt→ltb x3 y0 h, e) refl,
        block_left k lo x0 x1 x2 x3 a ys out wa wb' m,
      )

  round_right : y0 ≤ x3 → y3 < x0 → Finishes k (suc fuel) lo xs ys
  unfolding merge_blocks
  round_right h g =
      let wa' : Ascending (y3 + 1) xs = (omega arith, wa.1) in
      let (out, e, m) = later (y3 + 1) xs b (omega arith) wa' wb.1.1.1.1 in
      (
        kept k.right (block y0 y1 y2 y3) ++ out,
        rw (long_a, long_b, le→ltb x3 y0 h, lt→ltb y3 x0 g, e) refl,
        block_right k lo y0 y1 y2 y3 xs b out wa' wb m,
      )

  round_steps :
      y0 ≤ x3
      → x0 ≤ y3
      → equal_blocks (block x0 x1 x2 x3) (block y0 y1 y2 y3) ≡ false
      → Finishes k (suc fuel) lo xs ys
  unfolding merge_blocks
  round_steps h g q =
      let (s, es, l, on) = merge_steps-Advances k 4 lo xs ys (omega arith) (omega arith) wa wb in
      let (out, e, m) = later on.hi s.a s.b (omega arith) on.left on.right in
      (
        s.out ++ out,
        rw (long_a, long_b, le→ltb x3 y0 h, le→ltb y3 x0 g, q, es, e) refl,
        on.then_merges out m,
      )

  round_equal :
      y0 ≤ x3
      → x0 ≤ y3
      → equal_blocks (block x0 x1 x2 x3) (block y0 y1 y2 y3) ≡ true
      → Finishes k (suc fuel) lo xs ys
  unfolding merge_blocks
  round_equal h g q =
      let (e0, e1, e2, e3) = equal_values x0 x1 x2 x3 y0 y1 y2 y3 q in
      let wb' : Ascending lo (x0 ∷ x1 ∷ x2 ∷ x3 ∷ b) = rw (e0, e1, e2, e3) at wb in
      let (out, e, m) = later (x3 + 1) a b (omega arith) wa.1.1.1.1 wb'.1.1.1.1 in
      (
        kept k.both (block x0 x1 x2 x3) ++ out,
        rw (long_a, long_b, le→ltb x3 y0 h, le→ltb y3 x0 g, q, e) refl,
        rw (e0, e1, e2, e3) (block_both k lo x0 x1 x2 x3 a b out wa wb' m),
      )

  round : Finishes k (suc fuel) lo xs ys
  round = elim (order x3 y0) [
    | inl below ↦ round_left below
    | inr above ↦ elim (order y3 x0) [
      | inl under ↦ round_right (omega arith) under
      | inr over ↦ elim (Bool-cases (equal_blocks (block x0 x1 x2 x3) (block y0 y1 y2 y3))) [
        | inl same ↦ round_equal (omega arith) (omega arith) same
        | inr other ↦ round_steps (omega arith) (omega arith) other
      ]
    ]
  ]

merge_blocks-Finishes :
    (k : Kept) (fuel lo : ℕ) (a b : List ℕ)
    → length a + length b < fuel
    → Ascending lo a
    → Ascending lo b
    → Finishes k fuel lo a b
unfolding merge_blocks
merge_blocks-Finishes k zero lo a b f wa wb = absurd (omega arith)
merge_blocks-Finishes k (suc fuel) lo a b f wa wb =
    let wide_a : leb 4 (length a) && leb 4 (length b) ≡ true → 4 ≤ length a = λ h. ground arith in
    let wide_b : leb 4 (length a) && leb 4 (length b) ≡ true → 4 ≤ length b = λ h. ground arith in
    elim (Bool-cases (leb 4 (length a) && leb 4 (length b))) [
      | inr short ↦
          let (out, e, m) =
            merge_values-Merges k (length a + length b + 1) lo a b (omega arith) wa wb in
          (out, rw short e, m)
      | inl long ↦
          let (x0, x1, x2, x3, xs, ea, la) = quad a (wide_a long) in
          let (y0, y1, y2, y3, ys, eb, lb) = quad b (wide_b long) in
          rw (ea, eb)
            (round k fuel (merge_blocks-Finishes k fuel) lo x0 x1 x2 x3 y0 y1 y2 y3 xs ys
              (omega arith) (rw ea at wa) (rw eb at wb))
    ]

-- The merge of two ascending arrays is computed, and is their merge.
pub merge_sorted-Merges :
    (k : Kept) (lo : ℕ) (a b : List ℕ)
    → Ascending lo a
    → Ascending lo b
    → (out : List ℕ) × (merge_sorted k a b ≡ some out) × Merges k lo a b out
unfolding merge_sorted
merge_sorted-Merges k lo a b =
    merge_blocks-Finishes k (length a + length b + 1) lo a b (omega arith)
