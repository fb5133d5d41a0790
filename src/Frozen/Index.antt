-- ===== src/Frozen/Index.antt =====
-- The index of a written image: its chunks in order, and what the reads of an entry give.
use roaring.Prelude.{
  ℕ, zero, suc, ◌+◌, ◌^◌, ◌≤◌, ◌<◌, ◌≡◌, ◌∙◌, refl, ap, Bool, List, [], ◌∷◌, some, ltb, lt→ltb,
  le→ltb, if◌then◌else◌, arith, length, get_elem?,
}
use roaring.Values.{Ascending}
use roaring.Gallop.{partition_point_lem}
use roaring.ArrayRef.Rank.{rank, rank-le-length, rank-IsSplit}
use roaring.Chunks.{keys_of}
use roaring.Chunks.Entries
use roaring.Containers.{Container}
use roaring.Containers.Dispatch.{in_container}
use roaring.Bitmap.Table.{count, IsHeld, IsEntry}
use roaring.Frozen.{FrozenChunkIndex, Block, frozen_payload_layout}
use roaring.Frozen.Writer.{index_entry}
use roaring.Frozen.View.{lower_bound_entry}
use roaring.Frozen.Align.{layout-IsAlignment, align_up_lem}
use roaring.Frozen.Write.{place, next, most_bytes, index_from, Stands, AllStand}

-- The values of the chunks before `q`.
abbrev pub before : ℕ → List (ℕ × Container) → ℕ → ℕ
before dom [] q = 0
before dom ((key, c) ∷ t) q = if ltb key q then count dom c + before dom t q else 0

module _ (key_bits : ℕ) (ranked : Bool) (dom : ℕ) where
  -- The entry of a container in the index, and what stands at its place.
  abbrev pub Reads : List Block → List FrozenChunkIndex → ℕ → ℕ → ℕ → Container → Type 0
  Reads stores index base at key c =
      (offset : ℕ) × (get_elem? index at
        ≡ some (index_entry key_bits ranked key c offset (count dom c) base))
      × Stands key_bits ranked stores offset c
      × (offset + (frozen_payload_layout key_bits c).1 < 2 ^ 32)

  later_base :
      (base k key : ℕ) (h : Container) (t : List (ℕ × Container))
      → k < key
      → base + count dom h + before dom t key ≡ base + before dom ((k, h) ∷ t) key
  later_base base k key h t l = rw (lt→ltb k key l) (omega arith)

  first_base :
      (base k : ℕ) (h : Container) (t : List (ℕ × Container))
      → base ≡ base + before dom ((k, h) ∷ t) k
  first_base base k h t = rw (le→ltb k k (omega arith)) (omega arith)

  Reads-head :
      (offset base k key : ℕ) (h c : Container) (stores : List Block) (t : List (ℕ × Container))
      → key ≡ k
      → c ≡ h
      → Stands key_bits ranked stores (place key_bits ranked offset h) h
      → place key_bits ranked offset h + (frozen_payload_layout key_bits h).1 < 2 ^ 32
      → Reads stores
          (index_from key_bits ranked dom offset base ((k, h) ∷ t))
          (base + before dom ((k, h) ∷ t) key)
          zero
          key
          c
  Reads-head offset base k key h c stores t e e' there fits =
      rw (e, e')
        (
          place key_bits ranked offset h,
          ap
              (λ b.
                some (
                  index_entry key_bits ranked k h (place key_bits ranked offset h) (count dom h) b))
              (first_base base k h t),
          there,
          fits,
        )

  pub Reads-entry :
      (lo offset base at key : ℕ) (c : Container) (stores : List Block) (t : List (ℕ × Container))
      → Ascending lo (keys_of t)
      → AllStand key_bits ranked stores offset t
      → offset + most_bytes key_bits ranked t < 2 ^ 32
      → IsEntry dom t at key c
      → (lo ≤ key)
        × Reads stores
            (index_from key_bits ranked dom offset base t)
            (base + before dom t key)
            at
            key
            c
  Reads-entry lo offset base at key c stores [] w all small e = absurd (omega arith)
  Reads-entry lo offset base zero key c stores ((k, h) ∷ t) w all small (e, e') =
      let (aligned, up, near, most) =
        align_up_lem offset (frozen_payload_layout key_bits h).0 (layout-IsAlignment key_bits h)
          (omega arith) in
      (omega arith, Reads-head offset base k key h c stores t e e' all.0 (omega arith))
  Reads-entry lo offset base (suc at) key c stores ((k, h) ∷ t) w all small e =
      let (aligned, up, near, most) =
        align_up_lem offset (frozen_payload_layout key_bits h).0 (layout-IsAlignment key_bits h)
          (omega arith) in
      let (later, reads) =
        Reads-entry (k + 1) (next key_bits ranked offset h) (base + count dom h) at key c stores t
          w.1 all.1 (omega arith) e in
      (
        omega arith,
        (
          reads.0,
          reads.1
              ∙ ap (λ b. some (index_entry key_bits ranked key c reads.0 (count dom c) b))
                  (later_base base k key h t (omega arith)),
          reads.2,
          reads.3,
        ),
      )

  -- The chunks of the index are the keys of the table.
  pub chunk_at :
      (offset base i x : ℕ) (t : List (ℕ × Container))
      → get_elem? (keys_of t) i ≡ some x
      → (e : FrozenChunkIndex) × (get_elem? (index_from key_bits ranked dom offset base t) i
          ≡ some e)
        × (e.chunk ≡ x)
  chunk_at offset base i x [] h = absurd (ground arith)
  chunk_at offset base zero x ((k, c) ∷ t) h = (
    index_entry key_bits ranked k c (place key_bits ranked offset c) (count dom c) base,
    refl,
    ground (arith, h),
  )
  chunk_at offset base (suc i) x ((k, c) ∷ t) h =
      chunk_at (next key_bits ranked offset c) (base + count dom c) i x t h

  pub length-index_from :
      (offset base : ℕ) (t : List (ℕ × Container))
      → length (index_from key_bits ranked dom offset base t) ≡ length t
  length-index_from offset base [] = refl
  length-index_from offset base ((k, c) ∷ t) =
      ap suc (length-index_from (next key_bits ranked offset c) (base + count dom c) t)

  pub lower_bound_entry_lem :
      (offset base q : ℕ) (t : List (ℕ × Container))
      → Ascending 0 (keys_of t)
      → lower_bound_entry (index_from key_bits ranked dom offset base t) q
        ≡ some (rank (keys_of t) q)
  unfolding lower_bound_entry
  lower_bound_entry_lem offset base q t w =
      let index = index_from key_bits ranked dom offset base t in
      let n = length-index_from offset base t in
      let m = Entries.length-keys_of in_container (count dom) (IsHeld dom) t in
      let most = rank-le-length (keys_of t) q in
      partition_point_lem (λ e. ltb e.chunk q) index (length index) (rank (keys_of t) q)
        (λ i h.
          let (x, e, test) = rank-IsSplit 0 q (keys_of t) w i (omega arith) in
          let (entry, there, same) = chunk_at offset base i x t e in (entry, there, rw same test))
        (omega arith) (length index) 0 (omega arith) (omega arith) (omega arith)
