-- ===== src/Ranked/Find.antt =====
-- A lookup in a view of a written image, by the order of the chunks or by their distance.
use Prim.Native.Nat.{bit_and}
use roaring.Prelude.{
  ℕ, zero, suc, ◌+◌, ◌-◌, ◌/◌, ◌%◌, ◌^◌, ◌≤◌, ◌<◌, ◌≡◌, ◌∙◌, refl, ap, ap₂, sym, subst, inl, inr,
  min, Bool, true, false, Bool-cases, ◌&&◌, List, [], ◌∷◌, Option, some, ltb, leb, lt→ltb, le→ltb,
  le→leb, lt→leb, lt→==, eq→==, ◌==◌, arith, order, length, get_elem?, count_below,
}
use roaring.Words.Fields.{bit_and-low_mask}
use roaring.Values.{in_values, Ascending, AllBelow}
use roaring.ArrayRef.Rank.{rank, rank-le-length, rank-IsSplit, in_values-rank}
use roaring.Chunks.{keys_of}
use roaring.Chunks.Entries
use roaring.Containers.{Container}
use roaring.Containers.Dispatch.{in_container}
use roaring.Bitmap.Table.{count, IsHeld, AllHeld, table_size, IsEntry, found-IsEntry}
use roaring.Frozen.{FrozenChunkIndex}
use roaring.Frozen.Writer.{index_entry}
use roaring.Frozen.View.{lower_bound_entry}
use roaring.Frozen.Write.{most_bytes, index_from, AllStand}
use roaring.Frozen.Index.{before, Reads-entry, lower_bound_entry_lem}
use roaring.Ranked.{RankedView, entry_position, find_in_order, find_contiguous, find}
use roaring.Ranked.Payloads.{entry_position_lem}
use roaring.Ranked.Keys.{
  in_keys, count_absent, count_entry, before_none, before_all, before_at, count_below_mono,
  before_entry-le,
}

-- What the flag of consecutive chunks says of them.
abbrev pub Spans : Bool → ℕ → List ℕ → Type 0
Spans false first keys = Unit
Spans true first keys = (i x : ℕ) → get_elem? keys i ≡ some x → x ≡ first + i

spans_lem :
    (lo first q : ℕ) (keys : List ℕ)
    → Ascending lo keys
    → Spans true first keys
    → (rank keys q ≡ min (q - first) (length keys))
      × (in_values keys q ≡ (leb first q && ltb q (first + length keys)))
spans_lem lo first q [] w s = (omega arith, ground arith)
spans_lem lo first q (k ∷ keys) w s =
    let here : k ≡ first + 0 = s 0 k refl in
    let (r, on) =
      spans_lem (k + 1) (first + 1) q keys w.1 (λ i x e. omega (arith, s (suc i) x e)) in
    (ground (arith, r), ground (arith, on))

AllBelow-get_elem? : (n i x : ℕ) (xs : List ℕ) → AllBelow n xs → get_elem? xs i ≡ some x → x < n
AllBelow-get_elem? n i x [] b e = absurd (ground arith)
AllBelow-get_elem? n zero x (y ∷ xs) b e = ground (arith, e)
AllBelow-get_elem? n (suc i) x (y ∷ xs) b e = AllBelow-get_elem? n i x xs b.1 e

-- A view of the image that the writer makes of a table, its chunks from `offset` on.
pub record IsViewOf (key_bits dom offset : ℕ) (t : List (ℕ × Container)) (r : RankedView)
    : Type 0 where
  pub index : r.view.index ≡ index_from key_bits true dom offset 0 t
  pub stands : AllStand key_bits true r.view.stores offset t
  pub short : offset + most_bytes key_bits true t < 2 ^ 32
  pub few : table_size dom t < 2 ^ 32
  pub chunk_count : r.chunk_count ≡ length t
  pub size : r.size ≡ table_size dom t
  pub spans : Spans r.contiguous r.first_chunk (keys_of t)

module _ (key_bits dom offset : ℕ) (whole : dom ≡ 65536) (t : List (ℕ × Container)) (r : RankedView)
    (views : IsViewOf key_bits dom offset t r) (ordered : Ascending 0 (keys_of t))
    (narrow : AllBelow (2 ^ 16) (keys_of t)) (held : AllHeld dom t) where
  -- An entry of the table, in the view.
  abbrev InView : ℕ → ℕ → FrozenChunkIndex → Type 0
  InView at q e = (get_elem? r.view.index at ≡ some e) × (e.chunk ≡ q) × (e.base ≡ before dom t q)

  pub entry_answer :
      (x at : ℕ) (c : Container)
      → IsEntry dom t at (x / 65536) c
      → (e : FrozenChunkIndex) × InView at (x / 65536) e
        × (entry_position r.view e (x % 65536)
            ≡ some (count_below x (in_keys dom whole t), in_keys dom whole t x))
  entry_answer x at c e =
      let q = x / 65536 in
      let (lo, reads) =
        Reads-entry key_bits true dom 0 offset 0 at q c r.view.stores t ordered views.stands
          views.short e in
      let base : ℕ = 0 + before dom t q in
      let (valid, some_value) =
        Entries.entry_ok in_container (count dom) (IsHeld dom) t at q c held e in
      let (at_least, same) = count_entry dom whole x 0 at c t ordered e in
      let (at_least', on) =
        Entries.in_entries_at in_container (count dom) (IsHeld dom) 0 t at q c (x % 65536) ordered
          e in
      let up_to = count_below_mono (x % 65536) dom (in_container c) (omega arith) in
      let room = before_entry-le dom at q c t e in
      let few = views.few in
      let total : (base + count_below (x % 65536) (in_container c)) % 2 ^ 32
          ≡ count_below x (in_keys dom whole t) =
        omega arith in
      let position =
        entry_position_lem key_bits dom (omega arith) r.view q reads.0 (count dom c) base c
          (x % 65536) valid (reads.2, reads.3) (omega arith) in
      (
        index_entry key_bits true q c reads.0 (count dom c) base,
        (ap (λ i. get_elem? i at) views.index ∙ reads.1, refl, omega arith),
        position ∙ ap₂ (λ n b. some (n, b)) total (sym on),
      )

  abbrev answer : ℕ → Option (ℕ × Bool)
  answer x = some (count_below x (in_keys dom whole t), in_keys dom whole t x)

  absent_answer :
      (x n : ℕ)
      → in_values (keys_of t) (x / 65536) ≡ false
      → n ≡ before dom t (x / 65536)
      → some (n, false) ≡ answer x
  absent_answer x n off e =
      let none =
        Entries.in_entries_absent in_container (count dom) (IsHeld dom) t (x / 65536) (x % 65536)
          off in
      ap₂ (λ m b. some (m, b)) (e ∙ sym (count_absent dom whole x 0 t ordered off)) (sym none)

  keys_length : length (keys_of t) ≡ length t
  keys_length = Entries.length-keys_of in_container (count dom) (IsHeld dom) t

  place_of : (q : ℕ) → lower_bound_entry r.view.index q ≡ some (rank (keys_of t) q)
  place_of q =
      ap (λ i. lower_bound_entry i q) views.index
      ∙ lower_bound_entry_lem key_bits true dom offset 0 q t ordered

  -- A lookup of a key in 32 bits whose chunk has an entry.
  module _ (x : ℕ) (narrow_key : x < 2 ^ 32) (on : in_values (keys_of t) (x / 65536) ≡ true) where
    in_order_there : find_in_order r (x / 65536) (x % 65536) ≡ answer x
    unfolding find_in_order
    in_order_there =
        let q = x / 65536 in
        let (c, there, got, inside) = found-IsEntry dom t q ordered on in
        let (e, (at, same, base), position) = entry_answer x (rank (keys_of t) q) c there in
        let n = views.chunk_count in
        let fits : e.chunk % 2 ^ 32 ≡ q = omega arith in
        rw
          (
            place_of q,
            lt→== (rank (keys_of t) q) r.chunk_count (omega arith),
            at,
            eq→== (e.chunk % 2 ^ 32) q fits,
          )
          position

    contiguous_there :
        Spans true r.first_chunk (keys_of t) → find_contiguous r (x / 65536) (x % 65536) ≡ answer x
    unfolding find_contiguous
    contiguous_there spans =
        let q = x / 65536 in
        let (c, there, got, inside) = found-IsEntry dom t q ordered on in
        let (e, (at, same, base), position) = entry_answer x (rank (keys_of t) q) c there in
        let (place, range) = spans_lem 0 r.first_chunk q (keys_of t) ordered spans in
        let n = views.chunk_count in
        let m = keys_length in
        let bounds : (r.first_chunk ≤ q) × (q < r.first_chunk + length (keys_of t)) =
          ground (arith, range, on) in
        let position' : rank (keys_of t) q ≡ q - r.first_chunk = omega arith in
        let at' : get_elem? r.view.index (q - r.first_chunk) ≡ some e =
          ap (get_elem? r.view.index) (sym position') ∙ at in
        rw
          (
            le→ltb q r.first_chunk (omega arith),
            lt→leb r.chunk_count (q - r.first_chunk) (omega arith),
            at',
          )
          position

  -- One whose chunk has none.
  module _ (x : ℕ) (narrow_key : x < 2 ^ 32) (off : in_values (keys_of t) (x / 65536) ≡ false) where
    in_order_absent : find_in_order r (x / 65536) (x % 65536) ≡ answer x
    unfolding find_in_order
    in_order_absent =
        let q = x / 65536 in
        let n = views.chunk_count in
        let m = keys_length in
        let most = rank-le-length (keys_of t) q in
        elim (order (rank (keys_of t) q) (length t)) [
          | inr past ↦
              let all : rank (keys_of t) q ≡ length t = omega arith in
              rw (place_of q, eq→== (rank (keys_of t) q) r.chunk_count (omega arith))
                (absent_answer x r.size off (views.size ∙ sym (before_all dom q t all)))
          | inl inside ↦
              let (k, there, test) =
                rank-IsSplit 0 q (keys_of t) ordered (rank (keys_of t) q) (omega arith) in
              let found = in_values-rank 0 q k (keys_of t) ordered there in
              let (c, entry, got) =
                Entries.there-IsEntry in_container (count dom) (IsHeld dom) t (rank (keys_of t) q) k
                  there in
              let (lo, reads) =
                Reads-entry key_bits true dom 0 offset 0 (rank (keys_of t) q) k c r.view.stores t
                  ordered views.stands views.short entry in
              let (lo', base) = before_at dom 0 q (rank (keys_of t) q) k c t ordered entry refl in
              let small =
                AllBelow-get_elem? (2 ^ 16) (rank (keys_of t) q) k (keys_of t) narrow there in
              let fits : k % 2 ^ 32 ≡ k = omega arith in
              let apart : (k % 2 ^ 32 == q) ≡ false = rw fits (sym found ∙ off) in
              rw
                (
                  place_of q,
                  lt→== (rank (keys_of t) q) r.chunk_count (omega arith),
                  views.index,
                  reads.1,
                  apart,
                )
                (absent_answer x (0 + before dom t k) off (omega (arith, base)))
        ]

    contiguous_absent :
        Spans true r.first_chunk (keys_of t) → find_contiguous r (x / 65536) (x % 65536) ≡ answer x
    unfolding find_contiguous
    contiguous_absent spans =
        let q = x / 65536 in
        let (place, range) = spans_lem 0 r.first_chunk q (keys_of t) ordered spans in
        let n = views.chunk_count in
        let m = keys_length in
        elim (order q r.first_chunk) [
          | inl early ↦
              rw (lt→ltb q r.first_chunk early)
                (absent_answer x 0 off (sym (before_none dom q t (omega arith))))
          | inr from ↦
              let past : r.first_chunk + length (keys_of t) ≤ q = ground (arith, range, off) in
              rw
                (
                  le→ltb q r.first_chunk (omega arith),
                  le→leb r.chunk_count (q - r.first_chunk) (omega arith),
                )
                (absent_answer x r.size off (views.size ∙ sym (before_all dom q t (omega arith))))
        ]

  contiguous_answer :
      (x : ℕ)
      → x < 2 ^ 32
      → Spans true r.first_chunk (keys_of t)
      → find_contiguous r (x / 65536) (x % 65536) ≡ answer x
  contiguous_answer x h spans = elim (Bool-cases (in_values (keys_of t) (x / 65536))) [
    | inl on ↦ contiguous_there x h on spans
    | inr off ↦ contiguous_absent x h off spans
  ]

  in_order_answer : (x : ℕ) → x < 2 ^ 32 → find_in_order r (x / 65536) (x % 65536) ≡ answer x
  in_order_answer x h = elim (Bool-cases (in_values (keys_of t) (x / 65536))) [
    | inl on ↦ in_order_there x h on
    | inr off ↦ in_order_absent x h off
  ]

  -- The lookup reads nothing out of bounds, and gives how many keys of the table are below, and whether
  -- the key is there.
  pub view_find_lem : (x : ℕ) → x < 2 ^ 32 → find r x ≡ answer x
  unfolding find
  view_find_lem x h =
      let low : bit_and x 0xFFFF ≡ x % 65536 = bit_and-low_mask 16 x in
      elim (Bool-cases r.contiguous) [
        | inl flag ↦
            let spans = subst (λ b. Spans b r.first_chunk (keys_of t)) flag views.spans in
            rw (flag, low) (contiguous_answer x h spans)
        | inr flag ↦ rw (flag, low) (in_order_answer x h)
      ]
