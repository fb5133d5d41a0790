-- ===== src/Words/Fields.antt =====
-- Numbers made of a high field and a low one, joined by `|` and parted by `&`.
use Prim.Native.Nat.{bit_and, bit_or}
use native.Mathlib.Nat.{pow-suc, one-le-pow}
use roaring.Prelude.{
  ℕ, zero, suc, ◌+◌, ◌-◌, ◌*◌, ◌/◌, ◌%◌, ◌^◌, ◌≤◌, ◌<◌, ◌≡◌, ◌∙◌, refl, sym, ap, ltb, if◌then◌else◌,
  arith, order, inl, inr, le→ltb,
}
use roaring.Words.{test_bit, complement}
use roaring.Words.Bits.{
  zero-test_bit, test_bit-bit_and, test_bit-bit_or, test_bit-low_mask, test_bit_past,
  test_bit-complement, fits,
}

-- A number is its bits.
same_bits : (n a b : ℕ) → a ≤ n → b ≤ n → ((i : ℕ) → test_bit a i ≡ test_bit b i) → a ≡ b
same_bits zero a b h k e = omega arith
same_bits (suc n) a b h k e =
    let half = same_bits n (a / 2) (b / 2) (omega arith) (omega arith) (λ i. e (suc i)) in
    let parity = e zero in ground (arith, half, parity)

pub bits_ext : (a b : ℕ) → ((i : ℕ) → test_bit a i ≡ test_bit b i) → a ≡ b
bits_ext a b e = same_bits (a + b) a b (omega arith) (omega arith) e

twice : (q k : ℕ) → q * 2 ^ suc k ≡ 2 * (q * 2 ^ k)
twice q k = omega (arith, ap (λ t. q * t) (pow-suc 2 k))

-- The bits of the two fields.
pub test_bit-fields :
    (k q r i : ℕ)
    → r < 2 ^ k
    → test_bit (q * 2 ^ k + r) i ≡ (if ltb i k then test_bit r i else test_bit q (i - k))
test_bit-fields zero q r i h =
    let e : q * 2 ^ zero + r ≡ q = omega arith in
    let i' : i - 0 ≡ i = omega arith in rw (e, le→ltb i 0 (omega arith), i') refl
test_bit-fields (suc k) q r zero h = ground (arith, twice q k)
test_bit-fields (suc k) q r (suc i) h =
    let half : (q * 2 ^ suc k + r) / 2 ≡ q * 2 ^ k + r / 2 = omega (arith, twice q k) in
    rw half (test_bit-fields k q (r / 2) i (omega (arith, pow-suc 2 k)) ∙ ground arith)

pub bit_and-fields : (k q r : ℕ) → r < 2 ^ k → bit_and (q * 2 ^ k + r) (2 ^ k - 1) ≡ r
bit_and-fields k q r h = bits_ext _ r (λ i. elim (order i k) [
  | inl low ↦ ground (
    arith,
    test_bit-bit_and (q * 2 ^ k + r) (2 ^ k - 1) i,
    test_bit-low_mask k i,
    test_bit-fields k q r i h,
  )
  | inr high ↦ ground (
    arith,
    test_bit-bit_and (q * 2 ^ k + r) (2 ^ k - 1) i,
    test_bit-low_mask k i,
    test_bit_past k r i h (omega arith),
  )
])

pub bit_or-fields : (k q r : ℕ) → r < 2 ^ k → bit_or (q * 2 ^ k) r ≡ q * 2 ^ k + r
bit_or-fields k q r h = bits_ext _ _ (λ i.
    let z = test_bit-fields k q 0 i (omega arith) in
    let high : q * 2 ^ k + 0 ≡ q * 2 ^ k = omega arith in
    let z' : test_bit (q * 2 ^ k) i ≡ (if ltb i k then test_bit 0 i else test_bit q (i - k)) =
      rw high at z in
    elim (order i k) [
      | inl low ↦
          ground
            (arith, test_bit-bit_or (q * 2 ^ k) r i, z', zero-test_bit i, test_bit-fields k q r i h)
      | inr past ↦ ground (
        arith,
        test_bit-bit_or (q * 2 ^ k) r i,
        z',
        test_bit-fields k q r i h,
        test_bit_past k r i h (omega arith),
      )
    ])

-- A mask of the low bits is a remainder.
pub bit_and-low_mask : (k v : ℕ) → bit_and v (2 ^ k - 1) ≡ v % 2 ^ k
bit_and-low_mask k v =
    let e : v / 2 ^ k * 2 ^ k + v % 2 ^ k ≡ v = omega (arith, one-le-pow k 2) in
    ap (λ n. bit_and n (2 ^ k - 1)) (sym e)
    ∙ bit_and-fields k (v / 2 ^ k) (v % 2 ^ k) (omega (arith, one-le-pow k 2))

mask_fits : (k : ℕ) → k ≤ 64 → 2 ^ k - 1 < 2 ^ 64
mask_fits k h = fits 64 (2 ^ k - 1) (λ i l. ground (arith, test_bit-low_mask k i))

-- A mask of the high bits rounds down.
pub bit_and-high_mask :
    (k w : ℕ) → k ≤ 64 → w < 2 ^ 64 → bit_and w (complement (2 ^ k - 1)) ≡ w / 2 ^ k * 2 ^ k
bit_and-high_mask k w h l = bits_ext _ _ (λ i.
    let one = one-le-pow k 2 in
    let mask = test_bit-low_mask k in
    let whole : w / 2 ^ k * 2 ^ k + w % 2 ^ k ≡ w = omega (arith, one) in
    let none : w / 2 ^ k * 2 ^ k + 0 ≡ w / 2 ^ k * 2 ^ k = omega arith in
    let bits = rw whole at (test_bit-fields k (w / 2 ^ k) (w % 2 ^ k) i (omega (arith, one))) in
    let rounded = rw none at (test_bit-fields k (w / 2 ^ k) 0 i (omega (arith, one))) in
    let both = test_bit-bit_and w (complement (2 ^ k - 1)) i in
    elim (order i 64) [
      | inl inside ↦ elim (order i k) [
        | inl low ↦ ground (
          arith,
          both,
          rounded,
          zero-test_bit i,
          mask i,
          test_bit-complement 64 (2 ^ k - 1) i (mask_fits k h) inside,
        )
        | inr high ↦ ground (
          arith,
          both,
          rounded,
          bits,
          mask i,
          test_bit-complement 64 (2 ^ k - 1) i (mask_fits k h) inside,
        )
      ]
      | inr outside ↦ ground (arith, both, rounded, bits, test_bit_past 64 w i l (omega arith))
    ])
