-- ===== src/Layout/Fields.antt =====
-- A key and its two parts: each determines the other.
use roaring.Prelude.{ℕ, ◌+◌, ◌*◌, ◌/◌, ◌%◌, ◌^◌, ◌<◌, ◌≡◌, ◌∙◌, ◌⊎◌, inl, inr, ap, ap₂, arith}
use native.Mathlib.Nat.{one-le-pow}
use roaring.Words.Fields.{bit_and-low_mask, bit_or-fields}
use roaring.Layout.{low_bits, low_domain_size, chunk_key, low_key, compose}

-- The widths of the unsigned types.
abbrev pub IsKeyWidth : ℕ → Type 0
IsKeyWidth key_bits = (key_bits ≡ 8) ⊎ ((key_bits ≡ 16) ⊎ ((key_bits ≡ 32) ⊎ (key_bits ≡ 64)))

-- Those of up to 32 bits.
abbrev pub IsNarrow : ℕ → Type 0
IsNarrow key_bits = (key_bits ≡ 8) ⊎ ((key_bits ≡ 16) ⊎ (key_bits ≡ 32))

pub IsNarrow→IsKeyWidth : (key_bits : ℕ) → IsNarrow key_bits → IsKeyWidth key_bits
IsNarrow→IsKeyWidth key_bits (inl w) = inl w
IsNarrow→IsKeyWidth key_bits (inr (inl w)) = inr (inl w)
IsNarrow→IsKeyWidth key_bits (inr (inr w)) = inr (inr (inl w))

-- The parts as arithmetic.
pub low_key-% :
    (key_bits value : ℕ)
    → IsKeyWidth key_bits
    → low_key key_bits value ≡ value % low_domain_size key_bits
unfolding low_key
low_key-% key_bits value (inl w) = rw w (omega (arith, bit_and-low_mask 8 value))
low_key-% key_bits value (inr (inl w)) = rw w (omega (arith, bit_and-low_mask 16 value))
low_key-% key_bits value (inr (inr (inl w))) = rw w (omega (arith, bit_and-low_mask 16 value))
low_key-% key_bits value (inr (inr (inr w))) = rw w (omega (arith, bit_and-low_mask 16 value))

pub chunk_key-/ :
    (key_bits value : ℕ)
    → IsKeyWidth key_bits
    → value < 2 ^ key_bits
    → chunk_key key_bits value ≡ value / low_domain_size key_bits
unfolding chunk_key
chunk_key-/ key_bits value (inl w) h = let h' = rw w at h in rw w (omega (arith, h'))
chunk_key-/ key_bits value (inr (inl w)) h = let h' = rw w at h in rw w (omega (arith, h'))
chunk_key-/ key_bits value (inr (inr (inl w))) h = let h' = rw w at h in rw w (omega (arith, h'))
chunk_key-/ key_bits value (inr (inr (inr w))) h = let h' = rw w at h in rw w (omega (arith, h'))

pub compose-+ :
    (key_bits chunk low : ℕ)
    → IsKeyWidth key_bits
    → low < low_domain_size key_bits
    → chunk * low_domain_size key_bits + low < 2 ^ key_bits
    → compose key_bits chunk low ≡ chunk * low_domain_size key_bits + low
unfolding compose
compose-+ key_bits chunk low (inl w) h k =
    let h' = rw w at h in let k' = rw w at k in rw w (omega (arith, h', k'))
compose-+ key_bits chunk low (inr (inl w)) h k =
    let h' = rw w at h in let k' = rw w at k in rw w (omega (arith, h', k'))
compose-+ key_bits chunk low (inr (inr (inl w))) h k =
    let h' = rw w at h in
    let k' = rw w at k in
    let m : chunk * 2 ^ 16 % 2 ^ 32 ≡ chunk * 2 ^ 16 = omega (arith, k') in
    rw (w, m) (bit_or-fields 16 chunk low h')
compose-+ key_bits chunk low (inr (inr (inr w))) h k =
    let h' = rw w at h in
    let k' = rw w at k in
    let m : chunk * 2 ^ 16 % 2 ^ 64 ≡ chunk * 2 ^ 16 = omega (arith, k') in
    rw (w, m) (bit_or-fields 16 chunk low h')

join :
    (key_bits chunk low : ℕ)
    → IsKeyWidth key_bits
    → low < low_domain_size key_bits
    → ((chunk * low_domain_size key_bits + low) / low_domain_size key_bits ≡ chunk)
      × ((chunk * low_domain_size key_bits + low) % low_domain_size key_bits ≡ low)
join key_bits chunk low (inl w) h =
    let h' = rw w at h in rw w (omega (arith, h'), omega (arith, h'))
join key_bits chunk low (inr (inl w)) h =
    let h' = rw w at h in rw w (omega (arith, h'), omega (arith, h'))
join key_bits chunk low (inr (inr (inl w))) h =
    let h' = rw w at h in rw w (omega (arith, h'), omega (arith, h'))
join key_bits chunk low (inr (inr (inr w))) h =
    let h' = rw w at h in rw w (omega (arith, h'), omega (arith, h'))

module _ (key_bits : ℕ) (width : IsKeyWidth key_bits) where
  -- For keys of 8, 16, 32 or 64 bits: the low part of a key is a low value, and composing the two
  -- parts of a key gives the key.
  pub compose_of_parts :
      (value : ℕ)
      → value < 2 ^ key_bits
      → (low_key key_bits value < low_domain_size key_bits)
        × (compose key_bits (chunk_key key_bits value) (low_key key_bits value) ≡ value)
  compose_of_parts value h =
      let d = low_domain_size key_bits in
      let some_low = one-le-pow (low_bits key_bits) 2 in
      let c = chunk_key-/ key_bits value width h in
      let l = low_key-% key_bits value width in
      let whole : value / d * d + value % d ≡ value = omega (arith, some_low) in
      (
        omega (arith, l, some_low),
        ap₂ (λ x y. compose key_bits x y) c l
            ∙ compose-+ key_bits (value / d) (value % d) width (omega (arith, some_low))
                (omega (arith, whole))
            ∙ whole,
      )

  -- The parts of a composed key are those that it was composed of.
  pub parts_of_compose :
      (chunk low : ℕ)
      → low < low_domain_size key_bits
      → chunk * low_domain_size key_bits + low < 2 ^ key_bits
      → (chunk_key key_bits (compose key_bits chunk low) ≡ chunk)
        × (low_key key_bits (compose key_bits chunk low) ≡ low)
  parts_of_compose chunk low h k =
      let d = low_domain_size key_bits in
      let e = compose-+ key_bits chunk low width h k in
      (
        ap (chunk_key key_bits) e
            ∙ chunk_key-/ key_bits (chunk * d + low) width k
            ∙ (join key_bits chunk low width h).0,
        ap (low_key key_bits) e
            ∙ low_key-% key_bits (chunk * d + low) width
            ∙ (join key_bits chunk low width h).1,
      )
