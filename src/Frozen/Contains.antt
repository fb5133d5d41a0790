-- ===== src/Frozen/Contains.antt =====
-- `contains` of a frozen view answers as the bitmap that was written.
use roaring.Prelude.{
  ℕ, ◌+◌, ◌/◌, ◌%◌, ◌^◌, ◌≤◌, ◌<◌, ◌≡◌, ◌∙◌, ap, sym, inl, inr, Bool, Bool-cases, List, some, ◌>>=◌,
  lt→==, eq→==, ◌==◌, arith, order, length, get_elem?,
}
use roaring.Layout.{low_domain_size}
use roaring.Layout.Fields.{IsNarrow, IsNarrow→IsKeyWidth, low_key-%, chunk_key-/}
use roaring.ArrayRef.Rank.{rank, rank-le-length, rank-IsSplit, in_values-rank, in_values_past}
use roaring.RunContainer.Search.{contains_lem}
use roaring.Runs.{Run, in_runs, RunsFrom}
use roaring.RunContainer
use roaring.Chunks.{keys_of}
use roaring.Chunks.Entries
use roaring.Containers.{Container, array, run, bitset}
use roaring.Containers.Dispatch.{in_container}
use roaring.Containers.Dispatch
use roaring.Bitmap.{Bitmap}
use roaring.Bitmap.Table.{count, IsHeld, IsValid, in_bitmap, in_table}
use roaring.Bitmap.Points.{domain_bounds}
use roaring.Bitset
use roaring.Bitset.Update.{bitset_contains_lem}
use roaring.Frozen.Writer.{index_entry}
use roaring.Values.{AllBelow-mono}
use roaring.Frozen.BlockTest.{IsBlockTest, array_payload}
use roaring.Frozen.View.{
  BlockTest, FrozenView, lower_bound_entry, run_contains_payload, entry_contains, contains,
}
use roaring.Frozen.Index.{before, Reads-entry, lower_bound_entry_lem, length-index_from}
use roaring.Frozen.Reads.{Fits, lows_at_lem, runs_at_lem, words_at_lem}
use roaring.Frozen.Written.{IsWritable, IsViewOf, index_end, frozen_serialize_lem, written}

run_payload :
    (rs : List Run) (v : ℕ) → RunsFrom 0 rs → run_contains_payload rs v ≡ some (in_runs rs v)
unfolding run_contains_payload RunContainer.contains
run_payload rs v w = contains_lem (record { runs = rs; cardinality = 0 }) 0 v w

module _ (test : BlockTest) (key_bits dom : ℕ) (small : dom ≤ 2 ^ 16) (ranks : Bool)
    (v : FrozenView) (key offset n base : ℕ) where
  entry_contains_lem :
      (c : Container) (low : ℕ)
      → Dispatch.IsValid dom c
      → Fits key_bits ranks v key offset n base c
      → low < dom
      → IsBlockTest key_bits test
      → entry_contains test v (index_entry key_bits ranks key c offset n base) low
        ≡ some (in_container c low)
  unfolding entry_contains Bitset.contains
  entry_contains_lem (array c) low valid fits h tested =
      rw (lows_at_lem key_bits ranks v key offset n base c fits) (
        array_payload low key_bits c.values valid.ordered
          (AllBelow-mono dom (2 ^ 16) c.values small valid.within) (omega arith) test tested)
  entry_contains_lem (run c) low valid fits h tested =
      rw (runs_at_lem key_bits ranks v key offset n base c fits)
        (run_payload c.runs low valid.ordered)
  entry_contains_lem (bitset c) low valid fits h tested =
      rw (words_at_lem key_bits ranks v key offset n base c fits)
        (bitset_contains_lem dom small c valid low h)

-- A view of a bitmap answers as the bitmap.
view_contains :
    (test : BlockTest) (key_bits : ℕ) (ranks : Bool) (b : Bitmap) (v : FrozenView) (x : ℕ)
    → IsBlockTest key_bits test
    → IsNarrow key_bits
    → IsValid key_bits b
    → IsWritable key_bits ranks b
    → IsViewOf key_bits ranks b v
    → x < 2 ^ key_bits
    → contains test key_bits v x ≡ some (in_bitmap key_bits b x)
unfolding contains
view_contains test key_bits ranks b v x tested narrow valid writable views h =
    let width = IsNarrow→IsKeyWidth key_bits narrow in
    let dom = low_domain_size key_bits in
    let t = b.chunks in
    let q = x / dom in
    let (small, whole, positive) = domain_bounds key_bits width in
    let chunk = chunk_key-/ key_bits x width h in
    let low = low_key-% key_bits x width in
    let offset = index_end t in
    let m = Entries.length-keys_of in_container (count dom) (IsHeld dom) t in
    let size : length v.index ≡ length t =
      ap length views.index ∙ length-index_from key_bits ranks dom offset 0 t in
    let most = rank-le-length (keys_of t) q in
    let bound : lower_bound_entry v.index q ≡ some (rank (keys_of t) q) =
      ap (λ i. lower_bound_entry i q) views.index
      ∙ lower_bound_entry_lem key_bits ranks dom offset 0 q t valid.ordered in
    elim (order (rank (keys_of t) q) (length t)) [
      | inr past ↦
          let off = in_values_past q (keys_of t) (omega arith) in
          let clear =
            Entries.in_entries_absent in_container (count dom) (IsHeld dom) t q (x % dom) off in
          rw (chunk, bound, eq→== (rank (keys_of t) q) (length v.index) (omega arith))
            (ap some (sym clear))
      | inl inside ↦
          let (k, there, side) =
            rank-IsSplit 0 q (keys_of t) valid.ordered (rank (keys_of t) q) (omega arith) in
          let found = in_values-rank 0 q k (keys_of t) valid.ordered there in
          let (c, entry, got) =
            Entries.there-IsEntry in_container (count dom) (IsHeld dom) t (rank (keys_of t) q) k
              there in
          let (lo, reads) =
            Reads-entry key_bits ranks dom 0 offset 0 (rank (keys_of t) q) k c v.stores t
              valid.ordered views.stands writable.short entry in
          let at : get_elem? v.index (rank (keys_of t) q) ≡ _ =
            ap (λ i. get_elem? i (rank (keys_of t) q)) views.index ∙ reads.1 in
          elim (Bool-cases (k == q)) [
            | inr other ↦
                let clear =
                  Entries.in_entries_absent in_container (count dom) (IsHeld dom) t q (x % dom)
                    (found ∙ other) in
                rw
                  (
                    chunk,
                    bound,
                    lt→== (rank (keys_of t) q) (length v.index) (omega arith),
                    at,
                    other,
                  )
                  (ap some (sym clear))
            | inl same ↦
                let e : k ≡ q = ground (arith, same) in
                let ok =
                  Entries.entry_ok in_container (count dom) (IsHeld dom) t _ k c valid.held entry in
                let (least, on) =
                  Entries.in_entries_at in_container (count dom) (IsHeld dom) 0 t _ k c (x % dom)
                    valid.ordered entry in
                let answer =
                  entry_contains_lem test key_bits dom small ranks v k reads.0 (count dom c)
                    (0 + before dom t k) c (x % dom) ok.0 (reads.2, reads.3) (omega arith) tested in
                rw
                  (
                    chunk,
                    bound,
                    lt→== (rank (keys_of t) q) (length v.index) (omega arith),
                    at,
                    same,
                    low,
                  )
                  (answer ∙ (ap some (sym on) ∙ ap (λ p. some (in_table dom t p (x % dom))) e))
          ]
    ]

-- For a well formed bitmap of keys of 8, 16 or 32 bits that can be written (exact counts, chunk
-- keys of their type, the image with the worst padding and the number of values under 2^32), with
-- rank data or without, and a key of that width; in a build without the x86 intrinsics, or, for
-- keys of 16 or 32 bits, in one with them, whose comparison of sixteen 16-bit values with a value
-- tells whether it is one of them: the image opens, and `contains` on the view reads nothing
-- outside the image or written over by a later write, and answers as the bitmap does.
pub frozen_contains_lem :
    (test : BlockTest) (key_bits : ℕ) (ranks : Bool) (b : Bitmap) (x : ℕ)
    → IsBlockTest key_bits test
    → IsNarrow key_bits
    → IsValid key_bits b
    → IsWritable key_bits ranks b
    → x < 2 ^ key_bits
    → (written key_bits ranks b >>= λ v. contains test key_bits v x) ≡ some (in_bitmap key_bits b x)
unfolding written
frozen_contains_lem test key_bits ranks b x tested narrow valid writable h =
    let (r, e, (v, o, n, s, m, views)) =
      frozen_serialize_lem key_bits ranks b narrow valid writable in
    rw (e, o) (view_contains test key_bits ranks b v x tested narrow valid writable views h)
