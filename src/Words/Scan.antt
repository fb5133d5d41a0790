-- ===== src/Words/Scan.antt =====
-- The tests and the updates of one bit by a mask, and the first and the last set bit.
use Prim.Native.Nat.{bit_and, bit_or}
use roaring.Prelude.{
  ℕ, zero, suc, ◌+◌, ◌-◌, ◌^◌, ◌≤◌, ◌<◌, ◌≡◌, ◌∙◌, ◌⊎◌, refl, inl, inr, Bool-cases, true, false,
  not, ◌&&◌, ◌==◌, arith, order,
}
use roaring.Words.{test_bit, complement, first_set, leading}
use roaring.Words.Bits.{
  zero-test_bit, test_bit-bit_and, test_bit-bit_or, test_bit-pow, test_bit-complement,
  test_bit_past, fits, zero_of,
}

pub mask_small : (b : ℕ) → b < 64 → 2 ^ b < 2 ^ 64
mask_small b h = fits 64 (2 ^ b) (λ i k. test_bit-pow b i ∙ ground arith)

-- `( word & mask ) == 0`
pub masked-==_zero : (w b : ℕ) → w < 2 ^ 64 → b < 64 → (bit_and w (2 ^ b) == 0) ≡ not (test_bit w b)
masked-==_zero w b h k =
    let same = test_bit-bit_and w (2 ^ b) in
    elim (Bool-cases (test_bit w b)) [
      | inl on ↦
          let e : test_bit (bit_and w (2 ^ b)) b ≡ true =
            ground (arith, same b, test_bit-pow b b, on) in
          elim (order (bit_and w (2 ^ b)) 0) [
            | inl less ↦ absurd (omega arith)
            | inr (inl more) ↦ rw on (ground arith)
            | inr (inr none_set) ↦
                let n : bit_and w (2 ^ b) ≡ 0 = omega arith in
                let c : test_bit 0 b ≡ true = rw n at e in ground (arith, c, zero-test_bit b)
          ]
      | inr off ↦
          let s : bit_and w (2 ^ b) < 2 ^ 64 =
            fits 64 (bit_and w (2 ^ b)) (λ i l. ground (arith, same i, test_bit_past 64 w i h l)) in
          let n = zero_of (bit_and w (2 ^ b)) s (λ i l. elim (order i b) [
            | inl less ↦ ground (arith, same i, test_bit-pow b i)
            | inr (inl more) ↦ ground (arith, same i, test_bit-pow b i)
            | inr (inr at) ↦
                let off' : test_bit w i ≡ false = rw at at off in ground (arith, same i, off')
          ]) in
          rw (off, n) refl
    ]

pub set_bit-small : (w b : ℕ) → w < 2 ^ 64 → b < 64 → bit_or w (2 ^ b) < 2 ^ 64
set_bit-small w b h k =
    fits 64 (bit_or w (2 ^ b)) (λ i l.
      ground (arith, test_bit-bit_or w (2 ^ b) i, test_bit_past 64 w i h l, test_bit-pow b i))

pub clear_bit-small : (w m : ℕ) → w < 2 ^ 64 → bit_and w m < 2 ^ 64
clear_bit-small w m h =
    fits 64 (bit_and w m) (λ i l. ground (arith, test_bit-bit_and w m i, test_bit_past 64 w i h l))

pub test_bit-clear_bit :
    (w b i : ℕ)
    → b < 64
    → i < 64
    → test_bit (bit_and w (complement (2 ^ b))) i ≡ (test_bit w i && not (i == b))
test_bit-clear_bit w b i k l = ground (
  arith,
  test_bit-bit_and w (complement (2 ^ b)) i,
  test_bit-complement 64 (2 ^ b) i (mask_small b k) l,
  test_bit-pow b i,
)

-- The first set bit, if there is one.
pub first_set_lem :
    (w n i : ℕ)
    → ((first_set w n i ≡ n + i) × ((j : ℕ) → i ≤ j → j < n + i → test_bit w j ≡ false))
      ⊎ ((i ≤ first_set w n i)
          × (first_set w n i < n + i)
          × (test_bit w (first_set w n i) ≡ true)
          × ((j : ℕ) → i ≤ j → j < first_set w n i → test_bit w j ≡ false))
unfolding first_set
first_set_lem w zero i = inl (omega arith, λ j h k. absurd (omega arith))
first_set_lem w (suc n) i = elim (Bool-cases (test_bit w i)) [
  | inl on ↦ rw on (inr (omega arith, omega arith, on, λ j h k. absurd (omega arith)))
  | inr off ↦ rw off (elim (first_set_lem w n (i + 1)) [
    | inl (e, clear) ↦ inl (
      omega arith,
      λ j h k. elim (order i j) [
        | inl later ↦ clear j (omega arith) (omega arith)
        | inr at ↦ let here : j ≡ i = omega arith in rw here off
      ],
    )
    | inr (a, b, c, clear) ↦ inr (
      omega arith,
      omega arith,
      c,
      λ j h k. elim (order i j) [
        | inl later ↦ clear j (omega arith) (omega arith)
        | inr at ↦ let here : j ≡ i = omega arith in rw here off
      ],
    )
  ])
]

-- The last one.
pub leading_lem :
    (w n : ℕ)
    → ((leading w n ≡ n) × ((j : ℕ) → j < n → test_bit w j ≡ false))
      ⊎ ((leading w n < n)
          × (test_bit w (n - 1 - leading w n) ≡ true)
          × ((j : ℕ) → n - 1 - leading w n < j → j < n → test_bit w j ≡ false))
unfolding leading
leading_lem w zero = inl (refl, λ j h. absurd (omega arith))
leading_lem w (suc n) = elim (Bool-cases (test_bit w n)) [
  | inl on ↦
      let top : suc n - 1 - 0 ≡ n = omega arith in
      rw (on, top) (inr (omega arith, on, λ j h k. absurd (omega arith)))
  | inr off ↦ rw off (elim (leading_lem w n) [
    | inl (e, clear) ↦ inl (
      omega arith,
      λ j h. elim (order j n) [
        | inl lower ↦ clear j lower
        | inr at ↦ let here : j ≡ n = omega arith in rw here off
      ],
    )
    | inr (a, c, clear) ↦
        let top : suc n - 1 - (leading w n + 1) ≡ n - 1 - leading w n = omega arith in
        rw top (
          inr (
            omega arith,
            c,
            λ j h k. elim (order j n) [
              | inl lower ↦ clear j h lower
              | inr at ↦ let here : j ≡ n = omega arith in rw here off
            ],
          ))
  ])
]
