-- ===== src/Words/Bits.antt =====
-- The bits of the results of the operations on words.
use Prim.Native.Nat.{bit_and, bit_or, digits, bit_and-bitwise, bit_or-bitwise}
use native.Mathlib.Nat.{pow-suc, one-le-pow}
use roaring.Prelude.{
  ℕ, zero, suc, ◌+◌, ◌-◌, ◌*◌, ◌/◌, ◌%◌, ◌^◌, ◌≤◌, ◌<◌, ◌≡◌, ◌∙◌, refl, min, max, Bool, false, not,
  ◌&&◌, ◌||◌, ltb, count_below, ap, sym, ◌==◌, arith, order, inl, inr,
}
use roaring.Words.{test_bit, popcount}

pub zero-test_bit : (i : ℕ) → test_bit 0 i ≡ false
zero-test_bit zero = refl
zero-test_bit (suc i) = zero-test_bit i

-- An operation on digits, and what it does to bits.
module _ (z : ℕ → ℕ) (f : ℕ → ℕ → ℕ) (op : Bool → Bool → Bool)
    (run_out : (b i : ℕ) → test_bit (z b) i ≡ op false (test_bit b i))
    (small : (x y : ℕ) → x < 2 → y < 2 → f x y < 2)
    (digit : (x y : ℕ) → x < 2 → y < 2 → (f x y == 1) ≡ op (x == 1) (y == 1)) where
  test_bit-digits :
      (i n a b : ℕ) → a ≤ n → test_bit (digits z f n a b) i ≡ op (test_bit a i) (test_bit b i)
  test_bit-digits i zero zero b h = rw (zero-test_bit i) (run_out b i)
  test_bit-digits i zero (suc a) b h = absurd (omega arith)
  test_bit-digits i (suc n) zero b h = rw (zero-test_bit i) (run_out b i)
  test_bit-digits zero (suc n) (suc a) b h =
      let s = small (suc a % 2) (b % 2) (omega arith) (omega arith) in
      let e : (digits z f n (suc a / 2) (b / 2) * 2 + f (suc a % 2) (b % 2)) % 2
          ≡ f (suc a % 2) (b % 2) =
        omega arith in
      rw e (digit (suc a % 2) (b % 2) (omega arith) (omega arith))
  test_bit-digits (suc i) (suc n) (suc a) b h =
      let s = small (suc a % 2) (b % 2) (omega arith) (omega arith) in
      let e : (digits z f n (suc a / 2) (b / 2) * 2 + f (suc a % 2) (b % 2)) / 2
          ≡ digits z f n (suc a / 2) (b / 2) =
        omega arith in
      rw e (test_bit-digits i n (suc a / 2) (b / 2) (omega arith))

pub test_bit-bit_and : (a b i : ℕ) → test_bit (bit_and a b) i ≡ (test_bit a i && test_bit b i)
test_bit-bit_and a b i = simp bit_and-bitwise (
    test_bit-digits (λ b. 0) min (λ p q. p && q) (λ b i. zero-test_bit i) (λ x y h k. omega arith)
      (λ x y h k. ground arith) i a a b (omega arith))

pub test_bit-bit_or : (a b i : ℕ) → test_bit (bit_or a b) i ≡ (test_bit a i || test_bit b i)
test_bit-bit_or a b i = simp bit_or-bitwise (
    test_bit-digits (λ b. b) max (λ p q. p || q) (λ b i. refl) (λ x y h k. omega arith)
      (λ x y h k. ground arith) i a a b (omega arith))

-- A single bit.
pub test_bit-pow : (b i : ℕ) → test_bit (2 ^ b) i ≡ (i == b)
test_bit-pow zero zero = refl
test_bit-pow zero (suc i) = ground (arith, zero-test_bit i)
test_bit-pow (suc b) zero = ground (arith, pow-suc 2 b)
test_bit-pow (suc b) (suc i) =
    let half : 2 ^ suc b / 2 ≡ 2 ^ b = omega (arith, pow-suc 2 b) in
    rw half (test_bit-pow b i ∙ ground arith)

-- The mask of the bits below one.
pub test_bit-low_mask : (b i : ℕ) → test_bit (2 ^ b - 1) i ≡ ltb i b
test_bit-low_mask zero i = ground (arith, zero-test_bit i)
test_bit-low_mask (suc b) zero = ground (arith, pow-suc 2 b, one-le-pow b 2)
test_bit-low_mask (suc b) (suc i) =
    let half : (2 ^ suc b - 1) / 2 ≡ 2 ^ b - 1 = omega (arith, pow-suc 2 b, one-le-pow b 2) in
    rw half (test_bit-low_mask b i ∙ ground arith)

pub test_bit-complement :
    (k m i : ℕ) → m < 2 ^ k → i < k → test_bit (2 ^ k - 1 - m) i ≡ not (test_bit m i)
test_bit-complement zero m i h l = absurd (omega arith)
test_bit-complement (suc k) m zero h l = ground (arith, pow-suc 2 k)
test_bit-complement (suc k) m (suc i) h l =
    let half : (2 ^ suc k - 1 - m) / 2 ≡ 2 ^ k - 1 - m / 2 = omega (arith, pow-suc 2 k) in
    rw half (test_bit-complement k (m / 2) i (omega (arith, pow-suc 2 k)) (omega arith))

-- Past the width of a word there is no bit, and a number with no bit past a width fits it.
pub test_bit_past : (k w i : ℕ) → w < 2 ^ k → k ≤ i → test_bit w i ≡ false
test_bit_past zero w i h l = let e : w ≡ 0 = omega arith in rw e (zero-test_bit i)
test_bit_past (suc k) w zero h l = absurd (omega arith)
test_bit_past (suc k) w (suc i) h l =
    test_bit_past k (w / 2) i (omega (arith, pow-suc 2 k)) (omega arith)

no_bits : (n w : ℕ) → w ≤ n → ((i : ℕ) → test_bit w i ≡ false) → w ≡ 0
no_bits zero w h e = omega arith
no_bits (suc n) w h e =
    let half = no_bits n (w / 2) (omega arith) (λ i. e (suc i)) in
    let even = e zero in ground (arith, half, even)

pub fits : (k w : ℕ) → ((i : ℕ) → k ≤ i → test_bit w i ≡ false) → w < 2 ^ k
fits zero w e = omega (arith, no_bits w w (omega arith) (λ i. e i (omega arith)))
fits (suc k) w e = omega (arith, pow-suc 2 k, fits k (w / 2) (λ i h. e (suc i) (omega arith)))

pub zero_of : (w : ℕ) → w < 2 ^ 64 → ((i : ℕ) → i < 64 → test_bit w i ≡ false) → w ≡ 0
zero_of w h e =
    no_bits w w (omega arith) (λ i. elim (order i 64) [
      | inl low ↦ e i low
      | inr high ↦ test_bit_past 64 w i h (omega arith)
    ])

-- The width as a variable, so that nothing counts to 64.
pub popcount_lem : (n w : ℕ) → n ≡ 64 → popcount w ≡ count_below n (test_bit w)
unfolding popcount
popcount_lem n w e = ap (λ m. count_below m (test_bit w)) (sym e)
