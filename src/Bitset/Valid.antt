-- ===== src/Bitset/Valid.antt =====
-- When a bitset container is well formed, and that counting its words makes the count exact.
use roaring.Prelude.{
  ℕ, suc, ◌+◌, ◌*◌, ◌%◌, ◌^◌, ◌≤◌, ◌<◌, ◌≡◌, ◌∙◌, ◌⊎◌, refl, ap, Bool, true, false, ◌&&◌, List, [],
  ◌∷◌, leb, arith, length, count_below, count_below-le, mod-eq_of_lt,
}
use native.Mathlib.Nat.{mul-suc}
use roaring.Words.Bits.{popcount_lem}
use roaring.Words.{test_bit, popcount, AllWords}
use roaring.Bitset.{BitsetContainer, count_words, settle_cardinality}
use roaring.Bitset.Member.{in_words, count-in_words}

-- A count, exact unless stale; a stale one is not above the exact one.
abbrev pub IsCount : Bool → ℕ → ℕ → Type 0
IsCount true n exact = n ≤ exact
IsCount false n exact = n ≡ exact

-- The endpoints, unless stale: those of the values, if there is one.
abbrev pub AreEnds : Bool → (ℕ → Bool) → ℕ → ℕ → Type 0
AreEnds true p least greatest = Unit
AreEnds false p least greatest =
    ((v : ℕ) → p v ≡ false)
    ⊎ ((p least ≡ true)
        × (p greatest ≡ true)
        × ((v : ℕ) → p v ≡ (p v && (leb least v && leb v greatest))))

abbrev bitset : List ℕ → ℕ → Bool → Bool → ℕ → ℕ → BitsetContainer
bitset words cardinality stale ends_stale least greatest = record {
  words = words;
  cardinality = cardinality;
  cardinality_stale = stale;
  endpoints_stale = ends_stale;
  min_value = least;
  max_value = greatest;
}

pub record IsValid (dom : ℕ) (c : BitsetContainer) : Type 0 where
  pub sized : 64 * length c.words ≡ dom
  pub words_fit : AllWords c.words
  pub counted : IsCount c.cardinality_stale c.cardinality (count_below dom (in_words c.words))
  pub ends : AreEnds c.endpoints_stale (in_words c.words) c.min_value c.max_value

pub count_words_lem :
    (k count : ℕ) (ws : List ℕ)
    → k ≡ 64
    → count + k * length ws < 2 ^ 32
    → count_words count ws ≡ count + count_below (k * length ws) (in_words ws)
unfolding count_words
count_words_lem k count [] e h = let n : k * 0 ≡ 0 = omega arith in rw n (omega arith)
count_words_lem k count (w ∷ ws) e h =
    let n : k * suc (length ws) ≡ k + k * length ws = omega (arith, mul-suc k (length ws)) in
    let m = count-in_words k w ws e in
    let fits = count_below-le (k + k * length ws) (in_words (w ∷ ws)) in
    let small : (count + popcount w) % 2 ^ 32 ≡ count + popcount w = mod-eq_of_lt (omega arith) in
    rw (small, n)
      (omega (
        arith,
        count_words_lem k (count + popcount w) ws e
            (omega (arith, n, popcount_lem k w e, count_below-le k (test_bit w))),
      ))

-- The count of the words of a container.
pub count_words-dom :
    (dom : ℕ) (ws : List ℕ)
    → dom ≤ 2 ^ 16
    → 64 * length ws ≡ dom
    → count_words 0 ws ≡ count_below dom (in_words ws)
count_words-dom dom ws small sized =
    count_words_lem 64 0 ws refl (omega arith)
    ∙ ap (λ n. 0 + count_below n (in_words ws)) sized
    ∙ omega arith

abbrev Settled : (dom : ℕ) → BitsetContainer → Type 0
Settled dom c =
    IsValid dom (settle_cardinality c)
    × ((settle_cardinality c).words ≡ c.words)
    × ((settle_cardinality c).cardinality ≡ count_below dom (in_words c.words))
    × ((settle_cardinality c).cardinality_stale ≡ false)

settle-Settled :
    (dom : ℕ) (words : List ℕ) (cardinality : ℕ) (stale ends_stale : Bool) (least greatest : ℕ)
    → dom ≤ 2 ^ 16
    → IsValid dom (bitset words cardinality stale ends_stale least greatest)
    → Settled dom (bitset words cardinality stale ends_stale least greatest)
unfolding settle_cardinality
settle-Settled dom words cardinality true ends_stale least greatest small valid =
    let n = count_words-dom dom words small valid.sized in
    (
      record { sized = valid.sized; words_fit = valid.words_fit; counted = n; ends = valid.ends },
      refl,
      n,
      refl,
    )
settle-Settled dom words cardinality false ends_stale least greatest small valid =
    (valid, refl, valid.counted, refl)

pub settle_cardinality-IsValid :
    (dom : ℕ) (c : BitsetContainer)
    → dom ≤ 2 ^ 16
    → IsValid dom c
    → IsValid dom (settle_cardinality c)
      × ((settle_cardinality c).words ≡ c.words)
      × ((settle_cardinality c).cardinality ≡ count_below dom (in_words c.words))
      × ((settle_cardinality c).cardinality_stale ≡ false)
settle_cardinality-IsValid dom c small valid =
    settle-Settled dom c.words c.cardinality c.cardinality_stale c.endpoints_stale c.min_value
      c.max_value small valid
