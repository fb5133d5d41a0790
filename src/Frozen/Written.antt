-- ===== src/Frozen/Written.antt =====
-- The writer fills exactly the bytes that were asked for, and what it writes opens as a view of the table.
use roaring.Prelude.{
  ℕ, ◌+◌, ◌*◌, ◌%◌, ◌^◌, ◌≤◌, ◌<◌, ◌≡◌, ◌∙◌, refl, ap, sym, inl, inr, Bool, true, false, ◌&&◌, ◌||◌,
  List, Option, some, ◌>>=◌, ltb, leb, le→ltb, lt→leb, eq→==, ◌==◌, if◌then◌else◌, arith, length,
  take, mod-eq_of_lt,
}
use roaring.Values.{AllBelow}
use roaring.Layout.{low_domain_size, chunk_mod}
use roaring.Layout.Fields.{IsNarrow}
use roaring.Chunks.{keys_of}
use roaring.Containers.{Container}
use roaring.Bitmap.{Bitmap}
use roaring.Bitmap.Table.{IsValid, table_size}
use roaring.Frozen.{
  FrozenHeader, FrozenChunkIndex, Image, Block, header_bytes, index_entry_bytes,
  frozen_serialization_magic, frozen_format_version, frozen_ranked_format_version,
  frozen_size_bytes,
}
use roaring.Frozen.Writer.{frozen_serialize}
use roaring.Frozen.View.{FrozenView, Opening, ranked, header_fault, frozen_view_from}
use roaring.Frozen.Write.{AllFresh, most_bytes, index_from, AllStand}
use roaring.Frozen.Blocks.{AllInside, blocks_inside_lem}
use roaring.Frozen.Store.{write_chunks_lem, size_from-le}
use roaring.Frozen.Index.{length-index_from}
use roaring.Frozen.Reads.{take-length}
use roaring.Frozen.Open.{check_entries_lem}

-- Where the first payload may stand.
abbrev pub index_end : List (ℕ × Container) → ℕ
index_end t = header_bytes + length t * index_entry_bytes

-- A bitmap that can be written: exact counts, chunk keys of their type, and an image and a number of
-- values of 32 bits.
pub record IsWritable (key_bits : ℕ) (ranks : Bool) (b : Bitmap) : Type 0 where
  pub fresh : AllFresh b.chunks
  pub narrow : AllBelow (chunk_mod key_bits) (keys_of b.chunks)
  pub short : index_end b.chunks + most_bytes key_bits ranks b.chunks < 2 ^ 32
  pub few : table_size (low_domain_size key_bits) b.chunks < 2 ^ 32

version_is :
    (r : Bool)
    → ((if r then frozen_ranked_format_version else frozen_format_version)
        == frozen_ranked_format_version)
      ≡ r
version_is true = refl
version_is false = refl

abbrev header_of : ℕ → Bool → Bitmap → FrozenHeader
header_of key_bits ranks b = record {
  magic = frozen_serialization_magic;
  key_bits = key_bits;
  version = (if ranks then frozen_ranked_format_version else frozen_format_version);
  chunk_count = length b.chunks % 2 ^ 32;
  value_count = b.size;
}

header_sound :
    (key_bits size : ℕ) (ranks : Bool) (b : Bitmap)
    → key_bits ≤ 32
    → length b.chunks < 2 ^ 32
    → b.size < 2 ^ 32
    → header_bytes + length b.chunks * index_entry_bytes ≤ size
    → header_fault key_bits size (header_of key_bits ranks b) ≡ false
unfolding header_fault
header_sound key_bits size true b narrow few small fits =
    let n : length b.chunks % 2 ^ 32 ≡ length b.chunks = mod-eq_of_lt few in
    rw
      (
        le→ltb size 24 (omega arith),
        eq→== key_bits key_bits refl,
        le→ltb 32 key_bits narrow,
        lt→leb (2 ^ 32) b.size small,
        n,
        le→ltb size (24 + length b.chunks * 32) fits,
      )
      refl
header_sound key_bits size false b narrow few small fits =
    let n : length b.chunks % 2 ^ 32 ≡ length b.chunks = mod-eq_of_lt few in
    rw
      (
        le→ltb size 24 (omega arith),
        eq→== key_bits key_bits refl,
        n,
        le→ltb size (24 + length b.chunks * 32) fits,
      )
      refl

-- A view of the image of a bitmap.
pub record IsViewOf (key_bits : ℕ) (ranks : Bool) (b : Bitmap) (v : FrozenView) : Type 0 where
  pub index :
      v.index ≡ index_from key_bits ranks (low_domain_size key_bits) (index_end b.chunks) 0 b.chunks
  pub stands : AllStand key_bits ranks v.stores (index_end b.chunks) b.chunks
  pub ranked_flag : ranked v ≡ ranks
  pub chunk_count : v.header.chunk_count ≡ length b.chunks
  pub value_count : v.header.value_count ≡ table_size (low_domain_size key_bits) b.chunks
  pub size : b.size ≡ v.header.value_count

-- What the writer returns fills the image, which opens as a view of the bitmap.
abbrev pub Opens : ℕ → Bool → Bitmap → Image × ℕ → Type 0
Opens key_bits ranks b r =
    (v : FrozenView) × (frozen_view_from key_bits r.0 ≡ some v)
    × (r.1 ≡ frozen_size_bytes key_bits ranks b.chunks)
    × (r.0.size ≡ r.1)
    × (v.bytes ≡ r.1)
    × IsViewOf key_bits ranks b v

narrow-le : (key_bits : ℕ) → IsNarrow key_bits → key_bits ≤ 32
narrow-le key_bits (inl e) = omega arith
narrow-le key_bits (inr (inl e)) = omega arith
narrow-le key_bits (inr (inr e)) = omega arith

wide_domain : (key_bits : ℕ) → IsNarrow key_bits → 64 ≤ low_domain_size key_bits
wide_domain key_bits (inl e) = rw e (omega arith)
wide_domain key_bits (inr (inl e)) = rw e (omega arith)
wide_domain key_bits (inr (inr e)) = rw e (omega arith)

-- A bitmap written, and its image opened.
unfoldable pub written : ℕ → Bool → Bitmap → Option FrozenView
written key_bits ranks b = do
  (image, end) ← frozen_serialize key_bits ranks b.chunks b.size
  frozen_view_from key_bits image

module _ (key_bits : ℕ) (ranks : Bool) (b : Bitmap) (narrow : IsNarrow key_bits)
    (valid : IsValid key_bits b) (writable : IsWritable key_bits ranks b) where
  abbrev offset : ℕ
  offset = index_end b.chunks

  abbrev index : List FrozenChunkIndex
  index = index_from key_bits ranks (low_domain_size key_bits) offset 0 b.chunks

  abbrev image_of : List Block → Image
  image_of stores = record {
    size = frozen_size_bytes key_bits ranks b.chunks;
    header = header_of key_bits ranks b;
    index = index;
    stores = stores;
  }

  abbrev view_of : List Block → FrozenView
  view_of stores = record {
    header = header_of key_bits ranks b;
    index = index;
    stores = stores;
    bytes = frozen_size_bytes key_bits ranks b.chunks;
  }

  few_chunks : length b.chunks % 2 ^ 32 ≡ length b.chunks
  few_chunks = let short = writable.short in mod-eq_of_lt (omega arith)

  exact_size : b.size ≡ table_size (low_domain_size key_bits) b.chunks
  exact_size = let few = writable.few in valid.counted ∙ mod-eq_of_lt (omega arith)

  opens :
      (stores : List Block)
      → AllInside (frozen_size_bytes key_bits ranks b.chunks) stores
      → frozen_view_from key_bits (image_of stores) ≡ some (view_of stores)
  unfolding frozen_view_from frozen_size_bytes
  opens stores all_inside =
      let short = writable.short in
      let few = writable.few in
      let (least, most) = size_from-le key_bits ranks offset b.chunks short in
      let sound =
        header_sound key_bits (frozen_size_bytes key_bits ranks b.chunks) ranks b
          (narrow-le key_bits narrow) (omega arith) (omega (arith, exact_size)) (omega arith) in
      let start : Opening = record {
        payload_floor = offset;
        image_end = offset;
        total_cardinality = 0;
        least_chunk = 0;
        any_empty = false;
      } in
      let (o, e, sum, empty, end) =
        check_entries_lem key_bits ranks (frozen_size_bytes key_bits ranks b.chunks) (omega arith) 0
          offset 0 start b.chunks valid.ordered writable.narrow valid.held (omega arith)
          (omega arith) refl refl short (omega arith) in
      let total : o.total_cardinality ≡ b.size = omega (arith, exact_size) in
      let whole : take (length b.chunks) index ≡ index =
        ap (λ n. take n index)
          (sym (length-index_from key_bits ranks (low_domain_size key_bits) offset 0 b.chunks))
        ∙ take-length index in
      rw
        (
          sound,
          version_is ranks,
          few_chunks,
          e,
          empty,
          eq→== o.total_cardinality b.size total,
          whole,
          end,
          blocks_inside_lem (frozen_size_bytes key_bits ranks b.chunks) stores all_inside,
        )
        refl

  assertion_holds : (r : Bool) → (r && (ltb 32 key_bits || leb (2 ^ 32) b.size)) ≡ false
  assertion_holds false = refl
  assertion_holds true =
      let few = writable.few in
      rw
        (
          le→ltb 32 key_bits (narrow-le key_bits narrow),
          lt→leb (2 ^ 32) b.size (omega (arith, exact_size)),
        )
        refl

  -- For a well formed bitmap of keys of 8, 16 or 32 bits that can be written (exact counts, chunk
  -- keys of their type, the image with the worst padding and the number of values under 2^32), with
  -- rank data or without: the writer writes nothing outside a buffer of `frozen_size_bytes` bytes
  -- and nothing over what it has written, and ends with exactly that size; the image opens, the
  -- view ends where the image does, its index and what is stored are those of the chunks in order,
  -- and its counts are those of the bitmap.
  pub frozen_serialize_lem :
      (r : Image × ℕ) × (frozen_serialize key_bits ranks b.chunks b.size ≡ some r)
      × Opens key_bits ranks b r
  unfolding frozen_serialize frozen_size_bytes
  frozen_serialize_lem =
      let short = writable.short in
      let few = writable.few in
      let (stores, end, e, n, stands, begin, all_inside) =
        write_chunks_lem key_bits ranks (frozen_size_bytes key_bits ranks b.chunks)
          (wide_domain key_bits narrow) offset 0 b.chunks valid.held writable.fresh short
          (omega arith) (omega arith) in
      (
        (image_of stores, end),
        rw (assertion_holds ranks, e) refl,
        (
          view_of stores,
          opens stores all_inside,
          n,
          sym n,
          sym n,
          record {
            index = refl;
            stands = stands;
            ranked_flag = version_is ranks;
            chunk_count = few_chunks;
            value_count = exact_size;
            size = refl;
          },
        ),
      )
