-- ===== src/Arrays/Steps.antt =====
-- When a list is the merge of two sorted arrays, and that it stays one as values are put in front.
use roaring.Prelude.{
  ℕ, ◌+◌, ◌≤◌, ◌≡◌, Bool, true, false, ◌&&◌, ◌||◌, List, [], ◌∷◌, ◌++◌, ◌==◌, arith,
}
use roaring.Values.{in_values, in_values_before, Ascending, Ascending-mono}
use roaring.Arrays.{Kept, kept}

-- Whether a value is written, from whether the left and the right array have it.
abbrev pub is_kept : Kept → Bool → Bool → Bool
is_kept k true true = k.both
is_kept k true false = k.left
is_kept k false true = k.right
is_kept k false false = false

-- The values of the merge of `a` and `b`, all from `lo` on.
pub record Merges (k : Kept) (lo : ℕ) (a b out : List ℕ) : Type 0 where
  pub ordered : Ascending lo out
  pub same : (v : ℕ) → in_values out v ≡ is_kept k (in_values a v) (in_values b v)

module _ (k : Kept) (lo x : ℕ) (from : lo ≤ x) where
  kept-Ascending :
      (t : Bool) (out : List ℕ) → Ascending (x + 1) out → Ascending lo (kept t (x ∷ []) ++ out)
  kept-Ascending true out w = (from, w)
  kept-Ascending false out w = Ascending-mono (x + 1) lo out (omega arith) w

  in_values-kept :
      (t : Bool) (out : List ℕ) (v : ℕ)
      → in_values (kept t (x ∷ []) ++ out) v ≡ ((v == x && t) || in_values out v)
  in_values-kept true out v = ground arith
  in_values-kept false out v = ground arith

  module _ (a b out : List ℕ) (wa : Ascending (x + 1) a) (wb : Ascending (x + 1) b)
      (m : Merges k (x + 1) a b out) where
    pub left_first : Merges k lo (x ∷ a) b (kept k.left (x ∷ []) ++ out)
    left_first = record {
      ordered = kept-Ascending k.left out m.ordered;
      same = λ v. ground (
        arith,
        in_values-kept k.left out v,
        m.same v,
        in_values_before (x + 1) v a wa,
        in_values_before (x + 1) v b wb,
      );
    }

    pub right_first : Merges k lo a (x ∷ b) (kept k.right (x ∷ []) ++ out)
    right_first = record {
      ordered = kept-Ascending k.right out m.ordered;
      same = λ v. ground (
        arith,
        in_values-kept k.right out v,
        m.same v,
        in_values_before (x + 1) v a wa,
        in_values_before (x + 1) v b wb,
      );
    }

    pub both_first : Merges k lo (x ∷ a) (x ∷ b) (kept k.both (x ∷ []) ++ out)
    both_first = record {
      ordered = kept-Ascending k.both out m.ordered;
      same = λ v. ground (
        arith,
        in_values-kept k.both out v,
        m.same v,
        in_values_before (x + 1) v a wa,
        in_values_before (x + 1) v b wb,
      );
    }
