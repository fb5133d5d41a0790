-- ===== src/Frozen/Truncated.antt =====
-- An image that has lost bytes at its end is refused.
use roaring.Prelude.{
  ℕ, ◌+◌, ◌*◌, ◌^◌, ◌≤◌, ◌<◌, ◌≡◌, ◌∙◌, ◌⊎◌, refl, ap, sym, subst, inl, inr, Bool, List, [], ◌∷◌,
  Option, none, some, arith, length, ◌==◌,
}
use roaring.Layout.{low_domain_size}
use roaring.Layout.Fields.{IsNarrow}
use roaring.Containers.{Container}
use roaring.Bitmap.{Bitmap}
use roaring.Bitmap.Table.{count, IsValid}
use roaring.Frozen.{
  Image, frozen_payload_layout, frozen_size_bytes, size_from, frozen_ranked_format_version,
  header_bytes, index_entry_bytes,
}
use roaring.Frozen.Writer.{frozen_serialize}
use roaring.Frozen.View.{FrozenView, frozen_view_from, ranked}
use roaring.Frozen.Align.{layout-IsAlignment, align_up_lem}
use roaring.Frozen.Write.{place, next, most_bytes, index_from}
use roaring.Frozen.Open.{rank_end_lem}
use roaring.Frozen.Checks.{IsSound, frozen_view_from-Accepted}
use roaring.Frozen.Written.{IsWritable, IsViewOf, index_end, frozen_serialize_lem}

-- The blocks of a sound index end inside the image.
sound_end :
    (key_bits : ℕ) (ranks : Bool) (size dom : ℕ) (t : List (ℕ × Container))
    (floor total least offset base : ℕ)
    → offset ≤ size
    → offset + most_bytes key_bits ranks t < 2 ^ 32
    → IsSound key_bits ranks size floor total least (index_from key_bits ranks dom offset base t)
    → size_from key_bits ranks offset t ≤ size
unfolding size_from
sound_end key_bits ranks size dom [] floor total least offset base inside small sound = inside
sound_end key_bits ranks size dom ((key, c) ∷ t) floor total least offset base inside small sound =
    let (aligned, up, near, most) =
      align_up_lem offset (frozen_payload_layout key_bits c).0 (layout-IsAlignment key_bits c)
        (omega arith) in
    let at = place key_bits ranks offset c in
    let ends = rank_end_lem key_bits ranks ranks key at base (count dom c) c (omega arith) in
    sound_end key_bits ranks size dom t _ _ _ (next key_bits ranks offset c) (base + count dom c)
      (omega (arith, sound.5)) (omega arith) sound.9

Option-cases {ℓ} : {A : Type ℓ} (o : Option A) → (o ≡ none) ⊎ ((x : A) × (o ≡ some x))
Option-cases none = inl refl
Option-cases (some x) = inr (x, refl)

module _ (key_bits : ℕ) (ranks : Bool) (b : Bitmap) (narrow : IsNarrow key_bits)
    (valid : IsValid key_bits b) (writable : IsWritable key_bits ranks b) (size : ℕ) where
  abbrev Refused : Image × ℕ → Type 0
  Refused r = size < r.0.size → frozen_view_from key_bits (record r.0 { size = size }) ≡ none

  -- A view of the shorter image would have the same index.
  not_opened :
      (r : Image × ℕ) (v w : FrozenView)
      → frozen_view_from key_bits r.0 ≡ some v
      → frozen_view_from key_bits (record r.0 { size = size }) ≡ some w
      → r.1 ≡ frozen_size_bytes key_bits ranks b.chunks
      → r.0.size ≡ r.1
      → IsViewOf key_bits ranks b v
      → size < r.0.size
      → ⊥
  unfolding frozen_size_bytes
  not_opened r v w o cut n s views h =
      let dom = low_domain_size key_bits in
      let (header, index, inside, count, sum, sound) = frozen_view_from-Accepted key_bits r.0 v o in
      let (header', index', inside', count', sum', sound') =
        frozen_view_from-Accepted key_bits (record r.0 { size = size }) w cut in
      let headers : w.header ≡ v.header = header' ∙ sym header in
      let indices : w.index ≡ index_from key_bits ranks dom (index_end b.chunks) 0 b.chunks =
        index' ∙ (sym index ∙ views.index) in
      let chunks : w.header.chunk_count ≡ length b.chunks =
        ap (λ k. k.chunk_count) headers ∙ views.chunk_count in
      let flag : ranked w ≡ ranks =
        ap (λ k. k.version == frozen_ranked_format_version) headers ∙ views.ranked_flag in
      let sound'' =
        subst
          (λ q.
            IsSound key_bits q size (header_bytes + w.header.chunk_count * index_entry_bytes) 0 0
              w.index)
          flag sound' in
      let written = subst (IsSound key_bits ranks size _ 0 0) indices sound'' in
      omega (
        arith,
        sound_end key_bits ranks size dom b.chunks _ 0 0 (index_end b.chunks) 0 (omega arith)
            writable.short written,
      )

  refused :
      (r : Image × ℕ) (v : FrozenView)
      → frozen_view_from key_bits r.0 ≡ some v
      → r.1 ≡ frozen_size_bytes key_bits ranks b.chunks
      → r.0.size ≡ r.1
      → IsViewOf key_bits ranks b v
      → Refused r
  refused r v o n s views h =
      elim (Option-cases (frozen_view_from key_bits (record r.0 { size = size }))) [
        | inl none_opened ↦ none_opened
        | inr (w, cut) ↦ absurd (not_opened r v w o cut n s views h)
      ]

-- Of the image that is written of a well formed bitmap of keys of 8, 16 or 32 bits that can be
-- written (exact counts, chunk keys of their type, the image with the worst padding and the number
-- of values under 2^32), with rank data or without, no proper beginning opens.
pub truncated_lem :
    (key_bits : ℕ) (ranks : Bool) (b : Bitmap) (image : Image) (end size : ℕ)
    → IsNarrow key_bits
    → IsValid key_bits b
    → IsWritable key_bits ranks b
    → frozen_serialize key_bits ranks b.chunks b.size ≡ some (image, end)
    → size < image.size
    → frozen_view_from key_bits (record image { size = size }) ≡ none
truncated_lem key_bits ranks b image end size narrow valid writable e h =
    let (r, e', (v, o, n, s, m, views)) =
      frozen_serialize_lem key_bits ranks b narrow valid writable in
    let same : ◌≡◌ {A = Image × ℕ} r (image, end) = cc in
    subst (Refused key_bits ranks b narrow valid writable size) same
      (refused key_bits ranks b narrow valid writable size r v o n s views) h
