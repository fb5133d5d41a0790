-- ===== src/Frozen/Safe.antt =====
-- What is known of any image that the opening accepts, whoever wrote it, told without the tests of the opening.
use roaring.Prelude.{
  ℕ, ◌+◌, ◌-◌, ◌*◌, ◌/◌, ◌%◌, ◌^◌, ◌≤◌, ◌<◌, ◌≡◌, ◌⊎◌, refl, inl, inr, Bool, true, false,
  Bool-cases, not, ◌&&◌, ◌||◌, List, [], ◌∷◌, some, leb, ltb, ◌==◌, if◌then◌else◌, arith, length,
  take,
}
use roaring.Layout.{low_domain_size, chunk_mod}
use roaring.Frozen.{
  FrozenHeader, FrozenChunkIndex, Image, low_bytes, frozen_payload_alignment,
  frozen_expected_payload_bytes, frozen_rank_bytes, frozen_ranked_counts_match,
}
use roaring.Frozen.View.{FrozenView, ranked, rank_end, header_fault, frozen_view_from}
use roaring.Frozen.Checks.{
  RankSound, IsSound, cardinalities, or_false, no_lt, none-ne-some, frozen_view_from-Accepted,
}

-- A payload of one of the three forms, by the code of its kind: its bytes and its alignment, and the bytes
-- of the rank block that belongs to it. Values take `low_bytes`, runs twice as many, bitsets a word of
-- eight bytes for each 64 low values; a count of the rank block takes two.
abbrev pub HasForm : ℕ → FrozenChunkIndex → ℕ → Type 0
HasForm key_bits e rank_bytes =
    ((e.container_kind ≡ 1)
      × (e.payload_bytes ≡ e.payload_count * low_bytes key_bits)
      × (e.payload_offset % low_bytes key_bits ≡ 0)
      × (rank_bytes ≡ 0))
    ⊎ (((e.container_kind ≡ 2)
          × (e.payload_bytes ≡ e.payload_count * (2 * low_bytes key_bits))
          × (e.payload_offset % low_bytes key_bits ≡ 0)
          × (rank_bytes ≡ e.payload_count * 2))
        ⊎ ((e.container_kind ≡ 3)
            × (e.payload_bytes ≡ low_domain_size key_bits / 64 * 8)
            × (e.payload_offset % 8 ≡ 0)
            × (rank_bytes ≡ low_domain_size key_bits / 64 * 2)))

-- The counts of an entry agree with its cardinality, which the domain can hold.
abbrev pub CountsMatch : ℕ → FrozenChunkIndex → Type 0
CountsMatch key_bits e =
    (e.cardinality ≤ low_domain_size key_bits)
    × (e.container_kind ≡ 1 → e.payload_count ≡ e.cardinality)
    × (e.container_kind ≡ 2 → (0 < e.payload_count) × (e.payload_count ≤ e.cardinality))
    × (e.container_kind ≡ 3 → e.payload_count ≡ low_domain_size key_bits / 64)

-- In an image with rank data, an entry begins with the number of the earlier values.
abbrev pub HasRankData : ℕ → Bool → ℕ → FrozenChunkIndex → Type 0
HasRankData key_bits false total e = Unit
HasRankData key_bits true total e = (e.base ≡ total) × CountsMatch key_bits e

-- The entries of an index: chunks in order, from `least` on, that a chunk key can hold; payloads of one
-- of the forms, from `floor` on, that end inside the image with their rank blocks; with rank data, one
-- block after the other; no cardinality 0.
abbrev pub IsSafe : ℕ → Bool → ℕ → ℕ → ℕ → ℕ → List FrozenChunkIndex → Type 0
IsSafe key_bits ranks size floor total least [] = Unit
IsSafe key_bits ranks size floor total least (e ∷ es) =
    (rank_bytes : ℕ) × HasForm key_bits e rank_bytes
    × (least ≤ e.chunk)
    × (e.chunk ≤ chunk_mod key_bits - 1)
    × (floor ≤ e.payload_offset)
    × (e.payload_offset + e.payload_bytes + (if ranks then rank_bytes else 0) ≤ size)
    × (0 < e.cardinality)
    × HasRankData key_bits ranks total e
    × IsSafe key_bits ranks size
        (if ranks then e.payload_offset + e.payload_bytes + rank_bytes else floor)
        (total + e.cardinality) (e.chunk + 1) es

kind_cases :
    (k : ℕ)
    → (k ≡ 1)
      ⊎ ((k ≡ 2) ⊎ ((k ≡ 3) ⊎ (((k == 1) ≡ false) × ((k == 2) ≡ false) × ((k == 3) ≡ false))))
kind_cases k = elim (Bool-cases (k == 1)) [
  | inl a ↦ inl (ground (arith, a))
  | inr a ↦ elim (Bool-cases (k == 2)) [
    | inl b ↦ inr (inl (ground (arith, b)))
    | inr b ↦ elim (Bool-cases (k == 3)) [
      | inl c ↦ inr (inr (inl (ground (arith, c))))
      | inr c ↦ inr (inr (inr (a, b, c)))
    ]
  ]
]

module _ (key_bits : ℕ) (e : FrozenChunkIndex) where
  form_lem :
      0 < frozen_payload_alignment key_bits e.container_kind
      → e.payload_offset % frozen_payload_alignment key_bits e.container_kind ≡ 0
      → e.payload_bytes ≡ frozen_expected_payload_bytes key_bits e.container_kind e.payload_count
      → HasForm key_bits e (frozen_rank_bytes key_bits e.container_kind e.payload_count)
  form_lem positive aligned bytes = elim (kind_cases e.container_kind) [
    | inl k ↦ inl (k, rw k at bytes, rw k at aligned, rw k refl)
    | inr (inl k) ↦ inr (inl (k, rw k at bytes, rw k at aligned, rw k refl))
    | inr (inr (inl k)) ↦ inr (inr (k, rw k at bytes, rw k at aligned, rw k refl))
    | inr (inr (inr (a, b, c))) ↦
        let none_such : 0 < 0 = rw (a, b, c) at positive in absurd (omega arith)
  ]

  counts_lem : frozen_ranked_counts_match key_bits e ≡ true → CountsMatch key_bits e
  unfolding frozen_ranked_counts_match
  counts_lem h =
      elim (Bool-cases (e.cardinality == 0 || ltb (low_domain_size key_bits) e.cardinality)) [
        | inl fault ↦ let none_such : false ≡ true = rw fault at h in absurd (cc)
        | inr fine ↦
            let (held, within) =
              or_false (e.cardinality == 0) (ltb (low_domain_size key_bits) e.cardinality) fine in
            (
              no_lt (low_domain_size key_bits) e.cardinality within,
              λ k.
                  let same : (e.payload_count == e.cardinality) ≡ true = rw (fine, k) at h in
                  ground (arith, same),
              λ k.
                  let both : not (e.payload_count == 0) && leb e.payload_count e.cardinality
                      ≡ true =
                    rw (fine, k) at h in
                  (ground (arith, both), ground (arith, both)),
              λ k.
                  let same : (e.payload_count == low_domain_size key_bits / 64) ≡ true =
                    rw (fine, k) at h in
                  ground (arith, same),
            )
      ]

  rank_data :
      (ranks : Bool) (total : ℕ)
      → RankSound key_bits ranks total e
      → HasRankData key_bits ranks total e
  rank_data false total h = tt
  rank_data true total h = (h.0, counts_lem h.1)

IsSound→IsSafe :
    (key_bits : ℕ) (ranks : Bool) (size floor total least : ℕ) (es : List FrozenChunkIndex)
    → IsSound key_bits ranks size floor total least es
    → IsSafe key_bits ranks size floor total least es
IsSound→IsSafe key_bits ranks size floor total least [] h = tt
IsSound→IsSafe key_bits true size floor total least (e ∷ es) h = (
  frozen_rank_bytes key_bits e.container_kind e.payload_count,
  form_lem key_bits e h.2 h.3 h.6,
  h.0,
  h.1,
  h.4,
  h.5,
  h.7,
  rank_data key_bits e true total h.8,
  IsSound→IsSafe key_bits true size (rank_end key_bits true e) (total + e.cardinality) (e.chunk + 1)
      es h.9,
)
IsSound→IsSafe key_bits false size floor total least (e ∷ es) h = (
  frozen_rank_bytes key_bits e.container_kind e.payload_count,
  form_lem key_bits e h.2 h.3 h.6,
  h.0,
  h.1,
  h.4,
  h.5,
  h.7,
  tt,
  IsSound→IsSafe key_bits false size floor (total + e.cardinality) (e.chunk + 1) es h.9,
)

-- A header of this format for keys of this width; one with rank data is for keys of at most 32 bits and
-- fewer than 2^32 values.
abbrev pub IsHeader : ℕ → FrozenHeader → Type 0
IsHeader key_bits h =
    (h.magic ≡ 0x31464252)
    × (h.key_bits ≡ key_bits)
    × ((h.version ≡ 1) ⊎ (h.version ≡ 2))
    × (h.version ≡ 2 → (key_bits ≤ 32) × (h.value_count < 2 ^ 32))

version_lem : (n : ℕ) → (not (n == 1) && not (n == 2)) ≡ false → (n ≡ 1) ⊎ (n ≡ 2)
version_lem n h = elim (Bool-cases (n == 1)) [
  | inl one ↦ inl (ground (arith, one))
  | inr other ↦ inr (ground (arith, h, other))
]

header_lem :
    (key_bits size : ℕ) (h : FrozenHeader)
    → header_fault key_bits size h ≡ false
    → IsHeader key_bits h
unfolding header_fault
header_lem key_bits size h fine =
    let (a5, a6) = or_false _ (ltb size (24 + h.chunk_count * 32)) fine in
    let (a4, wide) =
      or_false _ (h.version == 2 && (ltb 32 key_bits || leb (2 ^ 32) h.value_count)) a5 in
    let (a3, version) = or_false _ (not (h.version == 1) && not (h.version == 2)) a4 in
    let (a2, width) = or_false _ (not (h.key_bits == key_bits)) a3 in
    let (a1, magic) = or_false (ltb size 24) (not (h.magic == 0x31464252)) a2 in
    (
      ground (arith, magic),
      ground (arith, width),
      version_lem h.version version,
      λ two.
          let both : (ltb 32 key_bits || leb (2 ^ 32) h.value_count) ≡ false = rw two at wide in
          let (narrow, few) = or_false (ltb 32 key_bits) (leb (2 ^ 32) h.value_count) both in
          (ground (arith, narrow), ground (arith, few)),
    )

opened_header :
    (key_bits : ℕ) (image : Image) (v : FrozenView)
    → frozen_view_from key_bits image ≡ some v
    → IsHeader key_bits image.header
unfolding frozen_view_from
opened_header key_bits image v h =
    elim (Bool-cases (header_fault key_bits image.size image.header)) [
      | inl fault ↦ none-ne-some v (rw fault at h)
      | inr fine ↦ header_lem key_bits image.size image.header fine
    ]

-- What an opened image satisfies.
abbrev pub IsOpened : ℕ → Image → FrozenView → Type 0
IsOpened key_bits image v =
    (v.header ≡ image.header)
    × IsHeader key_bits image.header
    × (v.index ≡ take image.header.chunk_count image.index)
    × (24 + v.header.chunk_count * 32 ≤ image.size)
    × (length v.index ≡ v.header.chunk_count)
    × (cardinalities v.index ≡ v.header.value_count)
    × IsSafe key_bits (ranked v) image.size (24 + v.header.chunk_count * 32) 0 0 v.index

-- Whatever the image is, if it is opened then its header is of this format, one of the two versions
-- and for keys of this width (with rank data, of at most 32 bits and with fewer than 2^32 values),
-- header and index lie inside the image, the index has as many entries as the header says, and
-- their cardinalities add up to the value count of the header; of each entry, the chunk key is
-- above those before and of its type, the payload has the size and the alignment of its kind, it
-- lies behind the index and inside the image, and the cardinality is not 0; with rank data the
-- blocks do not overlap, each lies inside the image with its rank block of two bytes for each run
-- or word, the cardinality is at most the low domain, the payload count is the cardinality of an
-- array, from 1 to the cardinality of runs, and the number of words of a bitset, and the base is
-- the sum of the cardinalities before.
pub frozen_view_from_lem :
    (key_bits : ℕ) (image : Image) (v : FrozenView)
    → frozen_view_from key_bits image ≡ some v
    → IsOpened key_bits image v
frozen_view_from_lem key_bits image v h =
    let (header, index, inside, count, sum, sound) = frozen_view_from-Accepted key_bits image v h in
    (
      header,
      opened_header key_bits image v h,
      index,
      inside,
      count,
      sum,
      IsSound→IsSafe key_bits (ranked v) image.size _ 0 0 v.index sound,
    )
