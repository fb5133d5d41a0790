-- ===== src/Layout.antt =====
-- How a key splits into the key of its chunk and its low value (include/frsr/roaring/container_layout.hpp). `key_bits`
-- is the width of the key type; a key is a number under 2^key_bits.
pub mod Fields
use Prim.Native.Nat.{bit_and, bit_or}
use roaring.Prelude.{ℕ, ◌-◌, ◌*◌, ◌/◌, ◌%◌, ◌^◌, leb, ltb, ◌==◌, if◌then◌else◌}

abbrev pub low_bits : ℕ → ℕ
low_bits key_bits = if ltb key_bits 16 then key_bits else 16

abbrev pub low_domain_size : ℕ → ℕ
low_domain_size key_bits = 2 ^ low_bits key_bits

abbrev pub low_mask : ℕ → ℕ
low_mask key_bits =
    if low_bits key_bits == key_bits then 2 ^ key_bits - 1 else 2 ^ low_bits key_bits - 1

-- How many values `chunk_type` and `low_type` have.
abbrev pub chunk_mod : ℕ → ℕ
chunk_mod key_bits = if leb key_bits 32 then 2 ^ 16 else 2 ^ key_bits

abbrev pub low_mod : ℕ → ℕ
low_mod key_bits = if leb (low_bits key_bits) 8 then 2 ^ 8 else 2 ^ 16

pub chunk_key : ℕ → ℕ → ℕ
chunk_key key_bits value =
    if key_bits == low_bits key_bits then 0 else value / 2 ^ low_bits key_bits % chunk_mod key_bits

pub low_key : ℕ → ℕ → ℕ
low_key key_bits value = bit_and value (low_mask key_bits) % low_mod key_bits

-- `chunk << low_bits` is of the key type, so it wraps.
pub compose : ℕ → ℕ → ℕ → ℕ
compose key_bits chunk low =
    if key_bits == low_bits key_bits
    then low % 2 ^ key_bits
    else bit_or (chunk * 2 ^ low_bits key_bits % 2 ^ key_bits) low
