-- ===== src/Bitmap/Points.antt =====
-- What `contains` answers, and the low values of the layouts.
use roaring.Prelude.{
  ℕ, ◌*◌, ◌%◌, ◌/◌, ◌^◌, ◌≤◌, ◌<◌, ◌≡◌, ◌∙◌, refl, sym, ap, inl, inr, some, lt→==, eq→==, arith,
  Bool-cases,
}
use roaring.Values.{in_values}
use roaring.Layout.{low_domain_size}
use roaring.Layout.Fields.{IsKeyWidth, IsNarrow, IsNarrow→IsKeyWidth, low_key-%, chunk_key-/}
use roaring.Chunks.{keys_of}
use roaring.Chunks.Find.{find_lem}
use roaring.Chunks.Entries
use roaring.Containers.Dispatch.{in_container, container_contains_lem}
use roaring.Bitmap.{Bitmap, chunk_bytes, contains}
use roaring.Bitmap.Table.{count, IsHeld, in_bitmap, IsValid, found-IsEntry}

-- Of every layout.
pub domain_bounds :
    (key_bits : ℕ)
    → IsKeyWidth key_bits
    → (low_domain_size key_bits ≤ 2 ^ 16)
      × (64 * (low_domain_size key_bits / 64) ≡ low_domain_size key_bits)
      × (1 ≤ low_domain_size key_bits)
domain_bounds key_bits (inl w) = rw w (omega arith, refl, omega arith)
domain_bounds key_bits (inr (inl w)) = rw w (omega arith, refl, omega arith)
domain_bounds key_bits (inr (inr (inl w))) = rw w (omega arith, refl, omega arith)
domain_bounds key_bits (inr (inr (inr w))) = rw w (omega arith, refl, omega arith)

-- On a well formed bitmap and a key of its type, the answer is membership.
pub bitmap_contains_lem :
    (key_bits : ℕ) (b : Bitmap) (value : ℕ)
    → IsNarrow key_bits
    → IsValid key_bits b
    → value < 2 ^ key_bits
    → contains key_bits b value ≡ some (in_bitmap key_bits b value)
unfolding contains
bitmap_contains_lem key_bits b value narrow valid h =
    let width = IsNarrow→IsKeyWidth key_bits narrow in
    let dom = low_domain_size key_bits in
    let q = value / dom in
    let (small, whole, positive) = domain_bounds key_bits width in
    let chunk = chunk_key-/ key_bits value width h in
    let low = low_key-% key_bits value width in
    let found = find_lem (keys_of b.chunks) q valid.ordered chunk_bytes in
    let n = Entries.length-keys_of in_container (count dom) (IsHeld dom) b.chunks in
    elim (Bool-cases (in_values (keys_of b.chunks) q)) [
      | inl on ↦
          let (c, there, got, inside) = found-IsEntry dom b.chunks q valid.ordered on in
          let ok =
            Entries.entry_ok in_container (count dom) (IsHeld dom) b.chunks _ q c valid.held
              there in
          let (at, same) =
            Entries.in_entries_at in_container (count dom) (IsHeld dom) 0 b.chunks _ q c
              (value % dom) valid.ordered there in
          rw (chunk, low, found, on, lt→== _ _ inside, got)
            (container_contains_lem dom small c (value % dom) ok.0 (omega arith)
              ∙ ap some (sym same))
      | inr off ↦
          let clear =
            Entries.in_entries_absent in_container (count dom) (IsHeld dom) b.chunks q (value % dom)
              off in
          rw (chunk, low, found, off, eq→== _ _ n) (ap some (sym clear))
    ]
