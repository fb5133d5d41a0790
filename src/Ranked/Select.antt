-- ===== src/Ranked/Select.antt =====
-- Selection in a view of a written image.
use Prim.Native.Nat.{bit_or}
use roaring.Prelude.{
  ℕ, zero, suc, ◌+◌, ◌-◌, ◌*◌, ◌/◌, ◌%◌, ◌^◌, ◌≤◌, ◌<◌, ◌≡◌, ◌∙◌, refl, ap, ap₂, sym, subst, inl,
  inr, true, List, [], ◌∷◌, some, leb, lt→ltb, le→ltb, le→leb, lt→leb, gt→==, arith, order, length,
  get_elem?, count_below,
}
use roaring.Words.Fields.{bit_or-fields}
use roaring.Values.{Ascending, AllBelow}
use roaring.Gallop.{partition_point}
use roaring.Chunks.{keys_of}
use roaring.Chunks.Entries
use roaring.Containers.{Container}
use roaring.Containers.Dispatch.{in_container}
use roaring.Bitmap.Table.{count, IsHeld, AllHeld, table_size, IsEntry}
use roaring.Frozen.{FrozenChunkIndex}
use roaring.Frozen.Writer.{index_entry}
use roaring.Frozen.Write.{next, index_from}
use roaring.Frozen.Index.{before, Reads-entry, length-index_from}
use roaring.Ranked.{RankedView, entry_select, select}
use roaring.Ranked.Upto.{Chosen, upto, SortedBy, upto_above, partition_point-upto}
use roaring.Ranked.Payloads.{entry_select_lem}
use roaring.Ranked.Keys.{in_keys, count_entry}
use roaring.Ranked.Find.{IsViewOf}

abbrev bases : List FrozenChunkIndex → ℕ → ℕ
bases = upto (λ e. e.base)

-- Where a rank points to in the index: the entry of a chunk, the rank that it begins with, and fewer
-- values up to the rank than the chunk has.
abbrev EntryOfRank : ℕ → ℕ → ℕ → List (ℕ × Container) → ℕ → Type 0
EntryOfRank dom base i t at =
    (key : ℕ) × (c : Container) × IsEntry dom t at key c
    × (base + before dom t key ≤ i)
    × (i < base + before dom t key + count dom c)

module _ (key_bits dom : ℕ) where
  index_sorted :
      (lo offset base : ℕ) (t : List (ℕ × Container))
      → lo ≤ base
      → SortedBy (λ e. e.base) lo (index_from key_bits true dom offset base t)
  index_sorted lo offset base [] h = tt
  index_sorted lo offset base ((key, c) ∷ t) h =
      (h, index_sorted base (next key_bits true offset c) (base + count dom c) t (omega arith))

  entry_of_rank :
      (lo offset base i : ℕ) (t : List (ℕ × Container))
      → Ascending lo (keys_of t)
      → base ≤ i
      → i < base + table_size dom t
      → (at : ℕ) × (bases (index_from key_bits true dom offset base t) i ≡ suc at)
        × EntryOfRank dom base i t at
  entry_of_rank lo offset base i [] w a b = absurd (omega arith)
  entry_of_rank lo offset base i ((key, c) ∷ t) w a b =
      let rest =
        index_from key_bits true dom (next key_bits true offset c) (base + count dom c) t in
      elim (order i (base + count dom c)) [
        | inl here ↦
            let sorted =
              index_sorted (base + count dom c) (next key_bits true offset c) (base + count dom c) t
                (omega arith) in
            let none : bases rest i ≡ 0 =
              upto_above (λ e. e.base) (base + count dom c) i rest sorted here in
            (
              0,
              rw (le→leb base i a) (ap suc none),
              (
                key,
                c,
                (refl, refl),
                rw (le→ltb key key (omega arith)) (omega arith),
                rw (le→ltb key key (omega arith)) (omega arith),
              ),
            )
        | inr later ↦
            let (at, e, (k, h, there, l, m)) =
              entry_of_rank (key + 1) (next key_bits true offset c) (base + count dom c) i t w.1
                (omega arith) (omega arith) in
            let (above, same) =
              Entries.in_entries_at in_container (count dom) (IsHeld dom) (key + 1) t at k h 0 w.1
                there in
            (
              suc at,
              rw (le→leb base i a) (ap suc e),
              (
                k,
                h,
                there,
                rw (lt→ltb key k (omega arith)) (omega arith),
                rw (lt→ltb key k (omega arith)) (omega arith),
              ),
            )
      ]

entry_narrow :
    (dom at key : ℕ) (c : Container) (t : List (ℕ × Container))
    → AllBelow (2 ^ 16) (keys_of t)
    → IsEntry dom t at key c
    → key < 65536
entry_narrow dom at key c [] n e = absurd (omega arith)
entry_narrow dom zero key c ((k, h) ∷ t) n (e, e') = omega arith
entry_narrow dom (suc at) key c ((k, h) ∷ t) n e = entry_narrow dom at key c t n.1 e

-- The steps of a selection.
select_steps :
    (r : RankedView) (i later within low : ℕ) (e : FrozenChunkIndex)
    → i < r.size
    → partition_point (λ e. leb e.base i) r.view.index r.chunk_count 0 ≡ some later
    → 0 < later
    → get_elem? r.view.index (later - 1) ≡ some e
    → (i + (2 ^ 32 - e.base)) % 2 ^ 32 ≡ within
    → entry_select r.view e within ≡ some low
    → select r i ≡ some (bit_or (e.chunk % 2 ^ 32 * 2 ^ 16 % 2 ^ 32) low)
unfolding select
select_steps r i later within low e inside found positive at left chosen =
    rw (lt→leb r.size i inside, found, gt→== later 0 positive, at, left, chosen) refl

module _ (key_bits dom offset : ℕ) (whole : dom ≡ 65536) (t : List (ℕ × Container)) (r : RankedView)
    (views : IsViewOf key_bits dom offset t r) (ordered : Ascending 0 (keys_of t))
    (narrow : AllBelow (2 ^ 16) (keys_of t)) (held : AllHeld dom t) where
  keys_narrow : (at key : ℕ) (c : Container) → IsEntry dom t at key c → key < 65536
  keys_narrow at key c e = entry_narrow dom at key c t narrow e

  composed :
      (key low : ℕ)
      → key < 65536
      → low < 65536
      → bit_or (key % 2 ^ 32 * 2 ^ 16 % 2 ^ 32) low ≡ key * 65536 + low
  composed key low h l =
      let shifted : key % 2 ^ 32 * 2 ^ 16 % 2 ^ 32 ≡ key * 2 ^ 16 = omega arith in
      rw shifted (bit_or-fields 16 key low (omega arith))

  upper_bound_of :
      (i n : ℕ)
      → bases (index_from key_bits true dom offset 0 t) i ≡ n
      → partition_point (λ e. leb e.base i) r.view.index r.chunk_count 0 ≡ some n
  upper_bound_of i n e =
      let index = index_from key_bits true dom offset 0 t in
      let size : r.chunk_count ≡ length index =
        views.chunk_count ∙ sym (length-index_from key_bits true dom offset 0 t) in
      ap₂ (λ (es : List FrozenChunkIndex) (m : ℕ). partition_point (λ e. leb e.base i) es m 0)
        views.index size
      ∙ (partition_point-upto (λ e. e.base) 0 i index
            (index_sorted key_bits dom 0 offset 0 t (omega arith))
          ∙ ap some e)

  -- The key of an ordinal below the number of keys: nothing is read out of bounds, it is in the table,
  -- and just as many keys are below it.
  pub view_select_lem :
      (i : ℕ)
      → i < table_size dom t
      → (x : ℕ) × (select r i ≡ some x) × (x < 2 ^ 32) × Chosen (in_keys dom whole t) i x
  view_select_lem i h =
      let index = index_from key_bits true dom offset 0 t in
      let (at, e, (key, c, there, l, m)) =
        entry_of_rank key_bits dom 0 offset 0 i t ordered (omega arith) (omega arith) in
      let (lo, reads) =
        Reads-entry key_bits true dom 0 offset 0 at key c r.view.stores t ordered views.stands
          views.short there in
      let base : ℕ = 0 + before dom t key in
      let (valid, some_value) =
        Entries.entry_ok in_container (count dom) (IsHeld dom) t at key c held there in
      let few = views.few in
      let n = views.chunk_count in
      let m' = length-index_from key_bits true dom offset 0 t in
      let within : (i + (2 ^ 32 - base)) % 2 ^ 32 ≡ i - base = omega arith in
      let (low, chosen, inside, (on, same)) =
        entry_select_lem key_bits dom (omega arith) r.view key reads.0 (count dom c) base c
          (i - base) valid (reads.2, reads.3) (omega arith) in
      let x = key * 65536 + low in
      let fits = keys_narrow at key c there in
      let q : x / 65536 ≡ key = omega arith in
      let l' : x % 65536 ≡ low = omega arith in
      let there' = subst (λ k. IsEntry dom t at k c) (sym q) there in
      let (lo', below) = count_entry dom whole x 0 at c t ordered there' in
      let (lo'', member) =
        Entries.in_entries_at in_container (count dom) (IsHeld dom) 0 t at (x / 65536) c (x % 65536)
          ordered there' in
      let found : partition_point (λ e. leb e.base i) r.view.index r.chunk_count 0 ≡ some (suc at) =
        upper_bound_of i (suc at) e in
      let at' : get_elem? r.view.index (suc at - 1) ≡ _ =
        ap₂ get_elem? views.index (omega arith) ∙ reads.1 in
      (
        x,
        select_steps r i (suc at) (i - base) low
              (index_entry key_bits true key c reads.0 (count dom c) base)
              (omega (arith, views.size)) found (omega arith) at' within chosen
            ∙ ap some (composed key low fits (omega arith)),
        omega arith,
        (
          member ∙ (ap (in_container c) l' ∙ on),
          omega (
            arith,
            below,
            same,
            ap (λ k. count_below k (in_container c)) l',
            ap (before dom t) q,
          ),
        ),
      )
