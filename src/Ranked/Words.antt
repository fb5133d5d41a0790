-- ===== src/Ranked/Words.antt =====
-- The rank block of a bitset payload, and the position of a value by it.
use Prim.Native.Nat.{bit_and}
use roaring.Prelude.{
  ℕ, suc, ◌+◌, ◌-◌, ◌*◌, ◌/◌, ◌%◌, ◌^◌, ◌≤◌, ◌<◌, ◌≡◌, ◌∙◌, refl, ap, sym, inl, inr, not, List, [],
  ◌∷◌, some, lt→ltb, le→ltb, ◌==◌, arith, order, length, get_elem?, count_below, count_below-le,
  count_below-cong_below,
}
use roaring.Words.{test_bit, popcount}
use roaring.Words.Bits.{popcount_lem}
use roaring.Words.Fields.{bit_and-low_mask}
use roaring.Words.Select.{popcount-low_mask, test_bit-shift}
use roaring.Bitset.Member.{in_words, count-in_words_front}
use roaring.Frozen.Writer.{word_ranks}
use roaring.Ranked.{word_position}

pub popcount-le : (k w : ℕ) → k ≡ 64 → popcount w ≤ 64
popcount-le k w e = omega (arith, popcount_lem k w e, count_below-le k (test_bit w))

-- A rank block is as long as its words, and the total of the first word moves into the rest.
pub word_ranks_next :
    (before total w at : ℕ) (ws : List ℕ)
    → (before + popcount w) % 2 ^ 32 ≡ total
    → get_elem? (word_ranks before (w ∷ ws)) (suc at) ≡ get_elem? (word_ranks total ws) at
unfolding word_ranks
word_ranks_next before total w at ws e = ap (λ t. get_elem? (word_ranks t ws) at) e

-- What stands at the word of a value, in the payload and in the rank block.
abbrev AtWord : ℕ → ℕ → List ℕ → Type 0
AtWord before v ws =
    (w : ℕ) × (n : ℕ) × (get_elem? ws (v / 64) ≡ some w)
    × (get_elem? (word_ranks before ws) (v / 64) ≡ some n)
    × (n + count_below (v % 64) (test_bit w) ≡ before + count_below v (in_words ws))
    × (in_words ws v ≡ test_bit w (v % 64))

pub in_words_past : (v w : ℕ) (ws : List ℕ) → 64 ≤ v → in_words (w ∷ ws) v ≡ in_words ws (v - 64)
in_words_past v w ws h = rw (le→ltb v 64 h) refl

module _ (k : ℕ) (wide : k ≡ 64) where
  pub word_of :
      (before v : ℕ) (ws : List ℕ)
      → v < 64 * length ws
      → before + 64 * length ws ≤ 2 ^ 16
      → AtWord before v ws
  unfolding word_ranks
  word_of before v [] h s = absurd (omega arith)
  word_of before v (w ∷ ws) h s = elim (order v 64) [
    | inl low ↦
        let i : v / 64 ≡ 0 = omega arith in
        let r : v % 64 ≡ v = omega arith in
        let same =
          count_below-cong_below v (in_words (w ∷ ws)) (test_bit w)
            (λ u l. rw (lt→ltb u 64 (omega arith)) refl) in
        (
          w,
          before % 2 ^ 16,
          rw i refl,
          rw i refl,
          rw r (omega (arith, same)),
          rw (lt→ltb v 64 low, r) refl,
        )
    | inr high ↦
        let i : v / 64 ≡ suc ((v - 64) / 64) = omega arith in
        let r : v % 64 ≡ (v - 64) % 64 = omega arith in
        let most = popcount-le k w wide in
        let total : (before + popcount w) % 2 ^ 32 ≡ before + popcount w = omega arith in
        let (x, n, at, there, same, on) =
          word_of (before + popcount w) (v - 64) ws (omega arith) (omega arith) in
        let front : count_below v (in_words (w ∷ ws)) ≡ _ =
          ap (λ m. count_below m (in_words (w ∷ ws))) (omega arith)
          ∙ count-in_words_front k (v - 64) w ws wide in
        (
          x,
          n,
          ap (get_elem? (w ∷ ws)) i ∙ at,
          ap (get_elem? (word_ranks before (w ∷ ws))) i
              ∙ (word_ranks_next before (before + popcount w) w ((v - 64) / 64) ws total ∙ there),
          ap (λ m. n + count_below m (test_bit x)) r ∙ omega (arith, front, same),
          in_words_past v w ws (omega arith) ∙ (on ∙ ap (test_bit x) (sym r)),
        )
  ]

-- The bit of a value, by a shift.
shifted_bit : (w b : ℕ) → not (bit_and (w / 2 ^ b) 1 == 0) ≡ test_bit w b
shifted_bit w b =
    let low : bit_and (w / 2 ^ b) 1 ≡ w / 2 ^ b % 2 = bit_and-low_mask 1 (w / 2 ^ b) in
    let e : b + 0 ≡ b = omega arith in
    let same : test_bit (w / 2 ^ b) 0 ≡ test_bit w b = test_bit-shift b w 0 ∙ ap (test_bit w) e in
    rw low (ground (arith, same))

-- On the words of a bitset of a domain of at most 2^16 values, with their rank block: nothing is read
-- out of bounds, and the answer is how many values are below, and whether the value is there.
pub word_position_lem :
    (v : ℕ) (ws : List ℕ)
    → v < 64 * length ws
    → 64 * length ws ≤ 2 ^ 16
    → word_position ws (word_ranks 0 ws) v ≡ some (count_below v (in_words ws), in_words ws v)
word_position_lem v ws h s =
    let (w, n, at, there, same, on) = word_of 64 refl 0 v ws h (omega arith) in
    let low = popcount-low_mask (v % 64) w 64 refl (omega arith) in
    let below : n + count_below (v % 64) (test_bit w) ≡ count_below v (in_words ws) =
      omega (arith, same) in
    rw (at, there, low, below, shifted_bit w (v % 64), on) refl
