-- ===== src/Ranked/SelectWord.antt =====
-- The value of a rank in a bitset payload, by its rank block.
use native.Mathlib.Nat.{mul-suc}
use roaring.Prelude.{
  ℕ, suc, ◌+◌, ◌-◌, ◌*◌, ◌/◌, ◌%◌, ◌^◌, ◌≤◌, ◌<◌, ◌≡◌, ◌∙◌, refl, ap, sym, subst, inl, inr, true,
  ap₂, List, [], ◌∷◌, some, le→leb, lt→leb, arith, order, length, get_elem?, count_below,
  count_below-le,
}
use roaring.Words.{test_bit, popcount}
use roaring.Words.Select.{select_in_word, select_in_word_lem}
use roaring.Bitset.Member.{in_words, count-in_words_front}
use roaring.Frozen.Writer.{word_ranks}
use roaring.Ranked.{left_of, upper_bound, word_select}
use roaring.Ranked.Upto.{Chosen, upto, SortedBy, partition_point-upto}
use roaring.Ranked.Words.{word_of, popcount-le, word_ranks_next}

-- Where a rank points to: a word, the rank that it begins with, and fewer values up to the rank than
-- the word has.
abbrev WordOfRank : ℕ → ℕ → List ℕ → List ℕ → ℕ → Type 0
WordOfRank before within words ranks at =
    (x : ℕ) × (n : ℕ) × (get_elem? words at ≡ some x)
    × (get_elem? ranks at ≡ some n)
    × (n ≤ within)
    × (within < n + popcount x)
    × (at < length words)

module _ (k : ℕ) (wide : k ≡ 64) (within : ℕ) where
  abbrev place : ℕ → List ℕ → ℕ
  place total ws = upto (λ n. n) (word_ranks total ws) within

  first_place : (total x : ℕ) (ws : List ℕ) → within < total % 2 ^ 16 → place total (x ∷ ws) ≡ 0
  unfolding word_ranks
  first_place total x ws h = rw (lt→leb (total % 2 ^ 16) within h) refl

  later_place :
      (total x : ℕ) (ws : List ℕ)
      → total % 2 ^ 16 ≤ within
      → place total (x ∷ ws) ≡ suc (place ((total + popcount x) % 2 ^ 32) ws)
  unfolding word_ranks
  later_place total x ws h = rw (le→leb (total % 2 ^ 16) within h) refl

  word_of_rank :
      (before total w : ℕ) (ws : List ℕ)
      → (before + popcount w) % 2 ^ 32 ≡ total
      → before ≤ within
      → within < before + count_below (k + k * length ws) (in_words (w ∷ ws))
      → before + 64 * suc (length ws) ≤ 2 ^ 16
      → WordOfRank before within (w ∷ ws) (word_ranks before (w ∷ ws)) (place total ws)
  unfolding word_ranks
  word_of_rank before total w [] e a b s =
      let none : k * 0 ≡ 0 = omega arith in
      let all = count-in_words_front k 0 w [] wide in
      let b' : within < before + count_below (k + 0) (in_words (w ∷ [])) = rw none at b in
      (w, before % 2 ^ 16, refl, refl, omega arith, omega (arith, all, b'), omega arith)
  word_of_rank before total w (x ∷ ws) e a b s =
      let most = popcount-le k w wide in
      let most' = popcount-le k x wide in
      let t : total ≡ before + popcount w = omega arith in
      let all = count-in_words_front k (k * suc (length ws)) w (x ∷ ws) wide in
      let ranks = word_ranks before (w ∷ x ∷ ws) in
      let step : k + k * length ws ≡ k * suc (length ws) = omega (arith, mul-suc k (length ws)) in
      let b' : within < before + count_below (k + k * suc (length ws)) (in_words (w ∷ x ∷ ws)) =
        b in
      elim (order within total) [
        | inl here ↦
            let at : place total (x ∷ ws) ≡ 0 = first_place total x ws (omega arith) in
            subst (WordOfRank before within (w ∷ x ∷ ws) ranks) (sym at)
              (w, before % 2 ^ 16, refl, refl, omega arith, omega arith, omega arith)
        | inr later ↦
            let next = (total + popcount x) % 2 ^ 32 in
            let at : place total (x ∷ ws) ≡ suc (place next ws) =
              later_place total x ws (omega arith) in
            let (y, n, found, there, l, m, i) =
              word_of_rank total next x ws refl (omega arith)
                (omega (arith, all, b', ap (λ m. count_below m (in_words (x ∷ ws))) step))
                (omega arith) in
            subst (WordOfRank before within (w ∷ x ∷ ws) ranks) (sym at) (
              y,
              n,
              found,
              word_ranks_next before total w (place next ws) (x ∷ ws) e ∙ there,
              l,
              m,
              omega arith,
            )
      ]

ranks_sorted :
    (lo before : ℕ) (ws : List ℕ)
    → lo ≤ before
    → before + 64 * length ws ≤ 2 ^ 16
    → SortedBy (λ n. n) lo (word_ranks before ws)
unfolding word_ranks
ranks_sorted lo before [] h s = tt
ranks_sorted lo before (w ∷ ws) h s =
    let most = popcount-le 64 w refl in
    (
      omega arith,
      ranks_sorted (before % 2 ^ 16) ((before + popcount w) % 2 ^ 32) ws (omega arith)
          (omega arith),
    )

some_inj : (x y : ℕ) → some x ≡ some y → x ≡ y
some_inj x y e = cc

Chosen-at :
    (ws : List ℕ) (within at x n j : ℕ)
    → 64 * length ws ≤ 2 ^ 16
    → get_elem? ws at ≡ some x
    → get_elem? (word_ranks 0 ws) at ≡ some n
    → at < length ws
    → j < 64
    → test_bit x j ≡ true
    → n + count_below j (test_bit x) ≡ within
    → Chosen (in_words ws) within (at * 64 + j)
Chosen-at ws within at x n j s found there i l on e =
    let (w, r, found', there', same, here) =
      word_of 64 refl 0 (at * 64 + j) ws (omega arith) (omega arith) in
    let q : (at * 64 + j) / 64 ≡ at = omega arith in
    let t : (at * 64 + j) % 64 ≡ j = omega arith in
    let w' : w ≡ x = some_inj w x (sym found' ∙ (ap (get_elem? ws) q ∙ found)) in
    let r' : r ≡ n = some_inj r n (sym there' ∙ (ap (get_elem? (word_ranks 0 ws)) q ∙ there)) in
    let c : count_below ((at * 64 + j) % 64) (test_bit w) ≡ count_below j (test_bit x) =
      ap₂ (λ m y. count_below m (test_bit y)) t w' in
    let b : test_bit w ((at * 64 + j) % 64) ≡ test_bit x j = ap₂ test_bit w' t in
    (here ∙ (b ∙ on), omega (arith, same, c))

Chosen-word :
    (ws : List ℕ) (within at : ℕ)
    → 64 * length ws ≤ 2 ^ 16
    → within < 2 ^ 16
    → WordOfRank 0 within ws (word_ranks 0 ws) at
    → (x : ℕ) × (n : ℕ) × (v : ℕ) × (get_elem? ws at ≡ some x)
      × (get_elem? (word_ranks 0 ws) at ≡ some n)
      × ((at * 64 + select_in_word x (left_of within n)) % 2 ^ 16 ≡ v)
      × (v < 64 * length ws)
      × Chosen (in_words ws) within v
Chosen-word ws within at s small (x, n, found, there, l, m, i) =
    let rest : left_of within n ≡ within - n = omega arith in
    let (a, b, c) = select_in_word_lem x (left_of within n) (omega arith) in
    let j = select_in_word x (left_of within n) in
    (
      x,
      n,
      at * 64 + j,
      found,
      there,
      omega arith,
      omega arith,
      Chosen-at ws within at x n j s found there i a b (omega arith),
    )

select_wide :
    (k : ℕ) (ws : List ℕ) (within : ℕ)
    → k ≡ 64
    → 64 * length ws ≤ 2 ^ 16
    → within < 2 ^ 16
    → within < count_below (k * length ws) (in_words ws)
    → (v : ℕ) × (word_select ws (word_ranks 0 ws) within ≡ some v)
      × (v < 64 * length ws)
      × Chosen (in_words ws) within v
unfolding word_select upper_bound word_ranks
select_wide k [] within e s small h =
    let none : k * 0 ≡ 0 = omega arith in
    let h' : within < count_below 0 (in_words []) = rw none at h in absurd (omega (arith, h'))
select_wide k (w ∷ ws) within e s small h =
    let total = (0 + popcount w) % 2 ^ 32 in
    let most = popcount-le k w e in
    let step : k * suc (length ws) ≡ k + k * length ws = omega (arith, mul-suc k (length ws)) in
    let h' : within < count_below (k + k * length ws) (in_words (w ∷ ws)) = rw step at h in
    let point =
      word_of_rank k e within 0 total w ws refl (omega arith) (omega (arith, h')) (omega arith) in
    let (x, n, v, found, there, q, l, chosen) = Chosen-word (w ∷ ws) within _ s small point in
    let sorted = ranks_sorted 0 total ws (omega arith) (omega arith) in
    (
      v,
      rw (partition_point-upto (λ m. m) 0 within (word_ranks total ws) sorted, found, there)
          (ap some q),
      l,
      chosen,
    )

-- On the words of a bitset of a domain of at most 2^16 values, with their rank block, and a rank below
-- the number of the values: nothing is read out of bounds, the value is there, and just as many are below.
pub word_select_lem :
    (ws : List ℕ) (within : ℕ)
    → 64 * length ws ≤ 2 ^ 16
    → within < count_below (64 * length ws) (in_words ws)
    → (v : ℕ) × (word_select ws (word_ranks 0 ws) within ≡ some v)
      × (v < 64 * length ws)
      × Chosen (in_words ws) within v
word_select_lem ws within s h =
    select_wide 64 ws within refl s (omega (arith, count_below-le (64 * length ws) (in_words ws))) h
