-- ===== src/Frozen/Align.antt =====
-- Alignment: `align_up` rounds up to the next multiple.
use roaring.Prelude.{
  ℕ, ◌+◌, ◌-◌, ◌%◌, ◌^◌, ◌≤◌, ◌<◌, ◌≡◌, ◌⊎◌, inl, inr, refl, arith, leb, Bool-cases,
}
use roaring.Words.Fields.{bit_and-high_mask}
use roaring.Layout.{low_bits}
use roaring.Containers.{Container, array, run, bitset}
use roaring.Frozen.{low_bytes, align_up, frozen_payload_layout}

-- The alignments of payloads.
abbrev pub IsAlignment : ℕ → Type 0
IsAlignment a = (a ≡ 1) ⊎ ((a ≡ 2) ⊎ (a ≡ 8))

pub low_bytes-IsAlignment : (key_bits : ℕ) → IsAlignment (low_bytes key_bits)
low_bytes-IsAlignment key_bits = elim (Bool-cases (leb (low_bits key_bits) 8)) [
  | inl narrow ↦ rw narrow (inl refl)
  | inr wide ↦ rw wide (inr (inl refl))
]

pub layout-IsAlignment :
    (key_bits : ℕ) (c : Container) → IsAlignment (frozen_payload_layout key_bits c).0
layout-IsAlignment key_bits (array c) = low_bytes-IsAlignment key_bits
layout-IsAlignment key_bits (run c) = low_bytes-IsAlignment key_bits
layout-IsAlignment key_bits (bitset c) = inr (inr refl)

-- The next multiple, in 64 bits.
pub align_up_lem :
    (offset alignment : ℕ)
    → IsAlignment alignment
    → offset + 8 < 2 ^ 64
    → (align_up offset alignment % alignment ≡ 0)
      × (offset ≤ align_up offset alignment)
      × (align_up offset alignment < offset + alignment)
      × (alignment ≤ 8)
unfolding align_up
align_up_lem offset alignment (inl a) h =
    rw a (omega (arith, bit_and-high_mask 0 (offset + 1 - 1) (omega arith)))
align_up_lem offset alignment (inr (inl a)) h =
    rw a (omega (arith, bit_and-high_mask 1 (offset + 2 - 1) (omega arith)))
align_up_lem offset alignment (inr (inr a)) h =
    rw a (omega (arith, bit_and-high_mask 3 (offset + 8 - 1) (omega arith)))
