-- ===== src/Words/Select.antt =====
-- `select_in_word` of include/frsr/roaring/ranked_view.hpp, in the build without BMI2.
use Prim.Native.Nat.{bit_and}
use native.Mathlib.Nat.{pow-suc, one-le-pow}
use roaring.Prelude.{
  ℕ, zero, suc, ◌+◌, ◌-◌, ◌*◌, ◌/◌, ◌%◌, ◌^◌, ◌≤◌, ◌<◌, ◌≡◌, ◌∙◌, refl, sym, inl, inr, true, false,
  ◌&&◌, leb, ltb, le→leb, lt→leb, le→ltb, if◌then◌else◌, arith, order, count_below, count_below-+,
  count_below-cong, count_below-cong_below, count_below-none,
}
use roaring.Words.{test_bit, popcount}
use roaring.Words.Bits.{test_bit-bit_and, test_bit-low_mask, popcount_lem}
use roaring.Words.Fields.{test_bit-fields}

-- The rounds of the loop, where `half` is 2^k in the round with `k` left after it: 32 down to 1.
pub halving_select : ℕ → ℕ → ℕ → ℕ → ℕ
halving_select zero word rank position = position
halving_select (suc k) word rank position =
    let half = 2 ^ k in
    let below = popcount (bit_and word (2 ^ half - 1)) in
    let up = halving_select k (word / 2 ^ half) (rank - below) (position + half) in
    let stay = halving_select k word rank position in if leb below rank then up else stay

pub select_in_word : ℕ → ℕ → ℕ
unfolding halving_select
select_in_word word rank = halving_select 6 word rank 0

pub test_bit-shift : (h w i : ℕ) → test_bit (w / 2 ^ h) i ≡ test_bit w (h + i)
test_bit-shift h w i =
    let whole : w / 2 ^ h * 2 ^ h + w % 2 ^ h ≡ w = omega (arith, one-le-pow h 2) in
    let fields =
      test_bit-fields h (w / 2 ^ h) (w % 2 ^ h) (h + i) (omega (arith, one-le-pow h 2)) in
    let back : h + i - h ≡ i = omega arith in
    sym (rw (le→ltb (h + i) h (omega arith), back, whole) at fields)

module _ (h w : ℕ) where
  masked : (i : ℕ) → test_bit (bit_and w (2 ^ h - 1)) i ≡ (test_bit w i && ltb i h)
  masked i = ground (arith, test_bit-bit_and w (2 ^ h - 1) i, test_bit-low_mask h i)

  -- The set bits under a mask.
  pub popcount-low_mask :
      (n : ℕ) → n ≡ 64 → h ≤ n → popcount (bit_and w (2 ^ h - 1)) ≡ count_below h (test_bit w)
  popcount-low_mask n e l =
      let m = bit_and w (2 ^ h - 1) in
      let whole : h + (n - h) ≡ n = omega arith in
      let low =
        count_below-cong_below h (test_bit m) (test_bit w) (λ i k. ground (arith, masked i)) in
      let high =
        count_below-cong_below (n - h) (λ i. test_bit m (h + i)) (λ i. false)
          (λ i k. ground (arith, masked (h + i))) in
      let parts : count_below n (test_bit m) ≡ _ =
        rw whole at (count_below-+ h (n - h) (test_bit m)) in
      omega (arith, popcount_lem n m e, parts, low, high, count_below-none (n - h))

-- What a rank selects among the `n` low bits: the bit that has just as many below it.
abbrev pub Selects : ℕ → ℕ → ℕ → ℕ → Type 0
Selects n word rank at =
    (at < n) × (test_bit word at ≡ true) × (count_below at (test_bit word) ≡ rank)

-- The position moves on by what is selected, and by less than the width in any case.
halving_select_lem :
    (k word rank position : ℕ)
    → 2 ^ k ≤ 64
    → (j : ℕ) × (halving_select k word rank position ≡ position + j)
      × (j < 2 ^ k)
      × (rank < count_below (2 ^ k) (test_bit word) → Selects (2 ^ k) word rank j)
unfolding halving_select
halving_select_lem zero word rank position fits =
    (0, omega arith, omega arith, λ h. (omega arith, ground arith, ground arith))
halving_select_lem (suc k) word rank position fits =
    let twice : 2 ^ suc k ≡ 2 ^ k + 2 ^ k = omega (arith, pow-suc 2 k) in
    let half = 2 ^ k in
    let below = popcount-low_mask half word 64 refl (omega arith) in
    let n = count_below half (test_bit word) in
    elim (order rank n) [
      | inl under ↦
          let (j, e, l, chosen) = halving_select_lem k word rank position (omega arith) in
          (
            j,
            rw (below, lt→leb n rank under) e,
            omega arith,
            λ h. let (a, b, c) = chosen under in (omega arith, b, c),
          )
      | inr over ↦
          let shifted = test_bit-shift half word in
          let (j, e, l, chosen) =
            halving_select_lem k (word / 2 ^ half) (rank - n) (position + half) (omega arith) in
          let upper : count_below half (test_bit (word / 2 ^ half)) ≡ _ =
            count_below-cong half (test_bit (word / 2 ^ half)) (λ i. test_bit word (half + i))
              shifted in
          let split = count_below-+ half half (test_bit word) in
          (
            half + j,
            rw (below, le→leb n rank (omega arith)) (e ∙ omega arith),
            omega arith,
            λ h.
                let h' : rank < count_below (half + half) (test_bit word) = rw twice at h in
                let (a, b, c) = chosen (omega (arith, h', split, upper)) in
                (
                  omega arith,
                  sym (shifted j) ∙ b,
                  omega (
                    arith,
                    c,
                    count_below-+ half j (test_bit word),
                    count_below-cong j (test_bit (word / 2 ^ half)) (λ i. test_bit word (half + i))
                        shifted,
                  ),
                ),
          )
    ]

-- Whatever the word and the rank are, the position is under 64.
pub select_in_word-lt : (word rank : ℕ) → select_in_word word rank < 64
unfolding select_in_word
select_in_word-lt word rank =
    let (j, e, l, chosen) = halving_select_lem 6 word rank 0 (omega arith) in omega arith

select_wide :
    (k word rank : ℕ)
    → k ≡ 6
    → rank < popcount word
    → Selects 64 word rank (halving_select k word rank 0)
select_wide k word rank six h =
    let wide : 2 ^ k ≡ 64 = rw six refl in
    let (j, e, l, chosen) = halving_select_lem k word rank 0 (omega arith) in
    let there : rank < count_below (2 ^ k) (test_bit word) =
      rw (popcount_lem (2 ^ k) word wide) at h in
    let (a, b, c) = chosen there in
    let same : halving_select k word rank 0 ≡ j = omega (arith, e) in rw same (omega arith, b, c)

-- For a word with more set bits than the rank, the position that `select_in_word` gives is under 64
-- and that of a set bit with exactly as many set bits below it.
pub select_in_word_lem :
    (word rank : ℕ) → rank < popcount word → Selects 64 word rank (select_in_word word rank)
unfolding select_in_word
select_in_word_lem word rank h = select_wide 6 word rank refl h
