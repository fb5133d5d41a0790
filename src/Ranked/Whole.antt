-- ===== src/Ranked/Whole.antt =====
-- The ranked view of the image that the writer makes of a bitmap.
use roaring.Prelude.{
  ℕ, zero, suc, ◌+◌, ◌-◌, ◌/◌, ◌%◌, ◌^◌, ◌≤◌, ◌<◌, ◌≡◌, ◌∙◌, refl, ap, ap₂, sym, subst, fun_ext,
  inr, Bool, true, false, List, [], ◌∷◌, Option, some, ◌>>=◌, gt→==, eq→==, ◌==◌, arith, length,
  get_elem?, count_below, mod-eq_of_lt,
}
use roaring.Values.{Ascending, AllBelow}
use roaring.Layout.{low_domain_size, chunk_mod}
use roaring.Chunks.{keys_of}
use roaring.Chunks.Entries
use roaring.Containers.{Container}
use roaring.Containers.Dispatch.{in_container}
use roaring.Bitmap.{Bitmap}
use roaring.Bitmap.Table.{count, IsHeld, IsValid, in_bitmap, in_table, table_size}
use roaring.Frozen.Writer.{frozen_serialize}
use roaring.Frozen.View.{FrozenView, ranked}
use roaring.Frozen.Index.{chunk_at}
use roaring.Frozen.Write.{index_from, AllStand, most_bytes}
use roaring.Frozen.Written.{IsWritable, index_end, frozen_serialize_lem}
use roaring.Ranked.{RankedView, from, from_image, find, select}
use roaring.Ranked.Upto.{Chosen}
use roaring.Ranked.Keys.{in_keys}
use roaring.Ranked.Find.{IsViewOf, Spans, view_find_lem}
use roaring.Ranked.Select.{view_select_lem}

Ascending-ge :
    (lo i x : ℕ) (keys : List ℕ) → Ascending lo keys → get_elem? keys i ≡ some x → lo + i ≤ x
Ascending-ge lo i x [] w e = absurd (ground arith)
Ascending-ge lo zero x (k ∷ keys) w e = ground (arith, e, w.0)
Ascending-ge lo (suc i) x (k ∷ keys) w e = omega (arith, Ascending-ge (k + 1) i x keys w.1 e)

-- Ascending keys that end as near to the first as they can be are consecutive.
consecutive :
    (lo last k : ℕ) (keys : List ℕ)
    → Ascending lo (k ∷ keys)
    → get_elem? (k ∷ keys) (length keys) ≡ some last
    → last ≡ k + length keys
    → (i x : ℕ) → get_elem? (k ∷ keys) i ≡ some x
    → x ≡ k + i
consecutive lo last k keys w e h zero x f = ground (arith, f)
consecutive lo last k [] w e h (suc i) x f = absurd (ground arith)
consecutive lo last k (k' ∷ keys) w e h (suc i) x f =
    let far = Ascending-ge k' (length keys) last (k' ∷ keys) (omega arith, w.1.1) e in
    let near = w.1.0 in omega (arith, consecutive (k + 1) last k' keys w.1 e (omega arith) i x f)

Spans-flag :
    (b : Bool) (first : ℕ) (keys : List ℕ) → (b ≡ true → Spans true first keys) → Spans b first keys
Spans-flag true first keys h = h refl
Spans-flag false first keys h = tt

last_of : (k : ℕ) (keys : List ℕ) → (last : ℕ) × (get_elem? (k ∷ keys) (length keys) ≡ some last)
last_of k [] = (k, refl)
last_of k (k' ∷ keys) = last_of k' keys

last_narrow :
    (n k last : ℕ) (keys : List ℕ)
    → AllBelow n (k ∷ keys)
    → get_elem? (k ∷ keys) (length keys) ≡ some last
    → last < n
last_narrow n k last [] b e = ground (arith, e, b.0)
last_narrow n k last (k' ∷ keys) b e = last_narrow n k' last keys b.1 e

module _ (key_bits : ℕ) (wide : key_bits ≡ 32) (b : Bitmap) where
  abbrev dom : ℕ
  dom = low_domain_size key_bits

  dom-eq : dom ≡ 65536
  dom-eq = rw wide refl

  chunk_mod-eq : chunk_mod key_bits ≡ 65536
  chunk_mod-eq = rw wide refl

  abbrev Views : RankedView → Type 0
  Views r = IsViewOf key_bits dom (index_end b.chunks) b.chunks r

-- The flag of consecutive chunks, of a first key and a last one.
flag-Spans :
    (k last : ℕ) (keys : List ℕ)
    → Ascending 0 (k ∷ keys)
    → get_elem? (k ∷ keys) (length keys) ≡ some last
    → last < 65536
    → Spans
        ((last % 2 ^ 32 + 2 ^ 32 - k % 2 ^ 32 + 1) % 2 ^ 32 == suc (length keys))
        (k % 2 ^ 32)
        (k ∷ keys)
flag-Spans k last keys w e narrow =
    let far = Ascending-ge k (length keys) last (k ∷ keys) (omega arith, w.1) e in
    let first : k % 2 ^ 32 ≡ k = mod-eq_of_lt (omega arith) in
    Spans-flag _ (k % 2 ^ 32) (k ∷ keys) (λ flag.
      let near : (last % 2 ^ 32 + 2 ^ 32 - k % 2 ^ 32 + 1) % 2 ^ 32 ≡ suc (length keys) =
        ground (arith, flag) in
      λ i x f. omega (arith, consecutive 0 last k keys w e (omega arith) i x f))

module _ (key_bits dom offset : ℕ) (v : FrozenView) (flag : ranked v ≡ true) where
  abbrev From : List (ℕ × Container) → Type 0
  From t = (r : RankedView) × (from v ≡ some r) × IsViewOf key_bits dom offset t r

  ranked_from_lem :
      (t : List (ℕ × Container))
      → v.index ≡ index_from key_bits true dom offset 0 t
      → v.header.chunk_count ≡ length t
      → v.header.value_count ≡ table_size dom t
      → AllStand key_bits true v.stores offset t
      → offset + most_bytes key_bits true t < 2 ^ 32
      → table_size dom t < 2 ^ 32
      → Ascending 0 (keys_of t)
      → AllBelow 65536 (keys_of t)
      → From t
  unfolding from
  ranked_from_lem [] index chunks size stands short few ordered narrow =
      let small : v.header.value_count % 2 ^ 32 ≡ 0 = omega arith in
      (
        record {
          view = v;
          chunk_count = 0;
          first_chunk = 0;
          size = v.header.value_count % 2 ^ 32;
          contiguous = false;
        },
        rw (flag, eq→== v.header.chunk_count 0 chunks) refl,
        record {
          index = index;
          stands = stands;
          short = short;
          few = few;
          chunk_count = refl;
          size = small;
          spans = tt;
        },
      )
  ranked_from_lem ((k, c) ∷ t) index chunks size stands short few ordered narrow =
      let small : v.header.value_count % 2 ^ 32 ≡ table_size dom ((k, c) ∷ t) =
        mod-eq_of_lt (omega arith) ∙ size in
      let n = Entries.length-keys_of in_container (count dom) (IsHeld dom) t in
      let (last, there) = last_of k (keys_of t) in
      let (e, at, same) =
        chunk_at key_bits true dom offset 0 (length (keys_of t)) last ((k, c) ∷ t) there in
      let first : get_elem? v.index 0 ≡ _ = ap (λ es. get_elem? es 0) index in
      let final : get_elem? v.index (v.header.chunk_count - 1) ≡ some e =
        ap₂ get_elem? index (omega arith) ∙ at in
      let near = last_narrow 65536 k last (keys_of t) narrow there in
      let few_chunks : v.header.chunk_count ≡ suc (length (keys_of t)) = omega arith in
      (
        record {
          view = v;
          chunk_count = v.header.chunk_count;
          first_chunk = k % 2 ^ 32;
          size = v.header.value_count % 2 ^ 32;
          contiguous =
              (e.chunk % 2 ^ 32 + 2 ^ 32 - k % 2 ^ 32 + 1) % 2 ^ 32 == v.header.chunk_count;
        },
        rw (flag, gt→== v.header.chunk_count 0 (omega arith), first, final) refl,
        record {
          index = index;
          stands = stands;
          short = short;
          few = few;
          chunk_count = chunks;
          size = small;
          spans = rw (same, few_chunks) (flag-Spans k last (keys_of t) ordered there near);
        },
      )

-- A bitmap written with rank data and opened as a ranked view.
pub ranked_of : ℕ → Bitmap → Option RankedView
ranked_of key_bits b = do
  (image, end) ← frozen_serialize key_bits true b.chunks b.size
  from_image key_bits image

module _ (key_bits : ℕ) (wide : key_bits ≡ 32) (b : Bitmap) (valid : IsValid key_bits b)
    (writable : IsWritable key_bits true b) where
  opened : (r : RankedView) × (ranked_of key_bits b ≡ some r) × Views key_bits wide b r
  unfolding ranked_of from_image
  opened =
      let ((image, end), e, (v, o, n, s, m, views)) =
        frozen_serialize_lem key_bits true b (inr (inr wide)) valid writable in
      let (r, f, same) =
        ranked_from_lem key_bits (low_domain_size key_bits) (index_end b.chunks) v views.ranked_flag
          b.chunks views.index views.chunk_count views.value_count views.stands writable.short
          writable.few valid.ordered
          (subst (λ k. AllBelow k (keys_of b.chunks)) (chunk_mod-eq key_bits wide b)
            writable.narrow) in
      (r, rw (e, o) f, same)

  same_keys :
      in_keys (low_domain_size key_bits) (dom-eq key_bits wide b) b.chunks ≡ in_bitmap key_bits b
  same_keys = fun_ext (λ x.
      let dom = low_domain_size key_bits in
      let d = sym (dom-eq key_bits wide b) in ap (λ k. in_table dom b.chunks (x / k) (x % k)) d)

  -- For a well formed bitmap of 32-bit keys that can be written (exact counts, chunk keys of their
  -- type, the image with the worst padding and the number of values under 2^32) and a key of 32
  -- bits: its image with rank data opens as a ranked view, and the lookup in it reads nothing
  -- outside the image or written over by a later write, and gives how many keys of the bitmap are
  -- below, and whether the key is in the bitmap.
  pub ranked_find_lem :
      (x : ℕ)
      → x < 2 ^ 32
      → (ranked_of key_bits b >>= λ r. find r x)
        ≡ some (count_below x (in_bitmap key_bits b), in_bitmap key_bits b x)
  ranked_find_lem x h =
      let (r, e, views) = opened in
      let answer =
        view_find_lem key_bits (low_domain_size key_bits) (index_end b.chunks)
          (dom-eq key_bits wide b) b.chunks r views valid.ordered
          (subst (λ k. AllBelow k (keys_of b.chunks)) (chunk_mod-eq key_bits wide b)
            writable.narrow)
          valid.held x h in
      rw e (answer ∙ ap (λ p. some (count_below x p, p x)) same_keys)

  -- For a well formed bitmap of 32-bit keys that can be written (exact counts, chunk keys of their
  -- type, the image with the worst padding and the number of values under 2^32) and an ordinal
  -- below its size: its image with rank data opens as a ranked view, and the selection in it reads
  -- nothing outside the image or written over by a later write, and gives a key of the bitmap that
  -- has exactly as many keys below it.
  pub ranked_select_lem :
      (i : ℕ)
      → i < b.size
      → (x : ℕ) × ((ranked_of key_bits b >>= λ r. select r i) ≡ some x)
        × (x < 2 ^ 32)
        × Chosen (in_bitmap key_bits b) i x
  ranked_select_lem i h =
      let (r, e, views) = opened in
      let few = writable.few in
      let total : b.size ≡ table_size (low_domain_size key_bits) b.chunks =
        valid.counted ∙ mod-eq_of_lt (omega arith) in
      let (x, answer, narrow, chosen) =
        view_select_lem key_bits (low_domain_size key_bits) (index_end b.chunks)
          (dom-eq key_bits wide b) b.chunks r views valid.ordered
          (subst (λ k. AllBelow k (keys_of b.chunks)) (chunk_mod-eq key_bits wide b)
            writable.narrow)
          valid.held i (omega arith) in
      (x, rw e answer, narrow, subst (λ p. Chosen p i x) same_keys chosen)
