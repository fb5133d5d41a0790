-- ===== src/Words.antt =====
-- Machine words and their bits: a 64-bit word is a number under 2^64, with the native `&`, `|` and `^`;
-- `<<` and `>>` are products and quotients by powers of two.
pub mod Bits
pub mod Scan
pub mod Fields
pub mod Select
use roaring.Prelude.{
  ℕ, zero, suc, ◌+◌, ◌-◌, ◌/◌, ◌%◌, ◌^◌, ◌<◌, Bool, true, false, List, [], ◌∷◌, ◌==◌, if◌then◌else◌,
  count_below,
}

-- Bit `i` of a word.
abbrev pub test_bit : ℕ → ℕ → Bool
test_bit w zero = w % 2 == 1
test_bit w (suc i) = test_bit (w / 2) i

abbrev pub word_bits : ℕ
word_bits = 64

-- `~w`
abbrev pub complement : ℕ → ℕ
complement w = 2 ^ 64 - 1 - w

-- `std::popcount`
pub popcount : ℕ → ℕ
popcount w = count_below word_bits (test_bit w)

-- The first set bit among the `n` from `i` on; past them, if there is none.
pub first_set : ℕ → ℕ → ℕ → ℕ
first_set w zero i = i
first_set w (suc n) i = let on = first_set w n (i + 1) in if test_bit w i then i else on

-- `std::countr_zero`
abbrev pub countr_zero : ℕ → ℕ
countr_zero w = first_set w word_bits 0

-- The zeros above the last set bit among the first `n`.
pub leading : ℕ → ℕ → ℕ
leading w zero = 0
leading w (suc n) = let on = leading w n + 1 in if test_bit w n then 0 else on

-- `std::countl_zero`
abbrev pub countl_zero : ℕ → ℕ
countl_zero w = leading w word_bits

abbrev pub AllWords : List ℕ → Type 0
AllWords [] = Unit
AllWords (w ∷ ws) = (w < 2 ^ 64) × AllWords ws
