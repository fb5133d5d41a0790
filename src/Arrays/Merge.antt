-- ===== src/Arrays/Merge.antt =====
-- The loops of a scalar merge end, read nothing out of bounds, and write the merge of the two arrays.
use roaring.Prelude.{
  ℕ, zero, suc, ◌+◌, ◌≤◌, ◌<◌, ◌≡◌, sym, refl, inl, inr, List, [], ◌∷◌, ◌++◌, some, leb, lt→ltb,
  le→ltb, le→leb, lt→leb, if◌then◌else◌, Bool-cases, arith, order, subst, append_assoc, length,
}
use roaring.Values.{Ascending, Ascending-mono}
use roaring.Arrays.{Kept, kept, written, Stepped, merge_steps, merge_values}
use roaring.Arrays.Steps.{Merges, left_first, right_first, both_first}

-- A part of the loop that writes `written` and goes from `a` and `b` to `a'` and `b'`.
pub record Advances (k : Kept) (lo : ℕ) (a b written a' b' : List ℕ) : Type 0 where
  pub hi : ℕ
  pub left : Ascending hi a'
  pub right : Ascending hi b'
  pub then_merges : (out : List ℕ) → Merges k hi a' b' out → Merges k lo a b (written ++ out)

module _ (k : Kept) where
  advance :
      (lo x y : ℕ) (a b : List ℕ)
      → Ascending lo (x ∷ a)
      → Ascending lo (y ∷ b)
      → Advances k lo
          (x ∷ a)
          (y ∷ b)
          (written k x y)
          (if leb x y then a else x ∷ a)
          (if leb y x then b else y ∷ b)
  advance lo x y a b wa wb = elim (order x y) [
    | inl less ↦
        let wb' : Ascending (x + 1) (y ∷ b) = (omega arith, wb.1) in
        rw (lt→ltb x y less, le→leb x y (omega arith), lt→leb y x less)
          record {
            hi = x + 1;
            left = wa.1;
            right = wb';
            then_merges = λ out m. left_first k lo x wa.0 a (y ∷ b) out wa.1 wb' m;
          }
    | inr (inl more) ↦
        let wa' : Ascending (y + 1) (x ∷ a) = (omega arith, wa.1) in
        rw (le→ltb x y (omega arith), lt→ltb y x more, lt→leb x y more, le→leb y x (omega arith))
          record {
            hi = y + 1;
            left = wa';
            right = wb.1;
            then_merges = λ out m. right_first k lo y wb.0 (x ∷ a) b out wa' wb.1 m;
          }
    | inr (inr same) ↦
        let wb' : Ascending (x + 1) b = Ascending-mono (y + 1) (x + 1) b (omega arith) wb.1 in
        rw (same, le→ltb x x (omega arith), le→leb x x (omega arith))
          record {
            hi = x + 1;
            left = wa.1;
            right = wb';
            then_merges = λ out m. both_first k lo x wa.0 a b out wa.1 wb' m;
          }
  ]

  passes :
      (x y : ℕ) (a b : List ℕ)
      → length (if leb x y then a else x ∷ a) + length (if leb y x then b else y ∷ b)
        ≤ length a + length b + 1
  passes x y a b = ground arith

  keeps_left : (x y : ℕ) (a : List ℕ) → length a ≤ length (if leb x y then a else x ∷ a)
  keeps_left x y a = ground arith

  left_tail : (lo : ℕ) (a : List ℕ) → Ascending lo a → Merges k lo a [] (kept k.left a)
  left_tail lo a w = elim (Bool-cases k.left) [
    | inl on ↦ rw on record { ordered = w; same = λ v. ground arith }
    | inr off ↦ rw off record { ordered = tt; same = λ v. ground arith }
  ]

  right_tail : (lo : ℕ) (b : List ℕ) → Ascending lo b → Merges k lo [] b (kept k.right b)
  right_tail lo b w = elim (Bool-cases k.right) [
    | inl on ↦ rw on record { ordered = w; same = λ v. ground arith }
    | inr off ↦ rw off record { ordered = tt; same = λ v. ground arith }
  ]

  pub merge_values-Merges :
      (fuel lo : ℕ) (a b : List ℕ)
      → length a + length b < fuel
      → Ascending lo a
      → Ascending lo b
      → (out : List ℕ) × (merge_values k fuel a b ≡ some out) × Merges k lo a b out
  unfolding merge_values
  merge_values-Merges zero lo a b f wa wb = absurd (omega arith)
  merge_values-Merges (suc fuel) lo [] b f wa wb = (kept k.right b, refl, right_tail lo b wb)
  merge_values-Merges (suc fuel) lo (x ∷ a) [] f wa wb =
      (kept k.left (x ∷ a), refl, left_tail lo (x ∷ a) wa)
  merge_values-Merges (suc fuel) lo (x ∷ a) (y ∷ b) f wa wb =
      let on = advance lo x y a b wa wb in
      let (out, e, m) =
        merge_values-Merges fuel on.hi (if leb x y then a else x ∷ a) (if leb y x then b else y ∷ b)
          (omega (arith, passes x y a b)) on.left on.right in
      (written k x y ++ out, rw e refl, on.then_merges out m)

  pub merge_steps-Advances :
      (n lo : ℕ) (a b : List ℕ)
      → n ≤ length a
      → n ≤ length b
      → Ascending lo a
      → Ascending lo b
      → (s : Stepped) × (merge_steps k n a b ≡ some s)
        × (length s.a + length s.b + n ≤ length a + length b)
        × Advances k lo a b s.out s.a s.b
  unfolding merge_steps
  merge_steps-Advances zero lo a b ha hb wa wb = (
    record { out = []; a = a; b = b },
    refl,
    omega arith,
    record { hi = lo; left = wa; right = wb; then_merges = λ out m. m },
  )
  merge_steps-Advances (suc n) lo [] b ha hb wa wb = absurd (omega arith)
  merge_steps-Advances (suc n) lo (x ∷ a) [] ha hb wa wb = absurd (omega arith)
  merge_steps-Advances (suc n) lo (x ∷ a) (y ∷ b) ha hb wa wb =
      let on = advance lo x y a b wa wb in
      let (s, e, l, more) =
        merge_steps-Advances n on.hi (if leb x y then a else x ∷ a) (if leb y x then b else y ∷ b)
          (omega (arith, keeps_left x y a)) (omega (arith, keeps_left y x b)) on.left on.right in
      (
        record s { out = written k x y ++ s.out },
        rw e refl,
        omega (arith, passes x y a b),
        record {
          hi = more.hi;
          left = more.left;
          right = more.right;
          then_merges = λ out m.
              subst (Merges k lo (x ∷ a) (y ∷ b)) (sym (append_assoc (written k x y) s.out out))
                (on.then_merges (s.out ++ out) (more.then_merges out m));
        },
      )
