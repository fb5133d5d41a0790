-- ===== src/Bitmap/Bulk/Answers.antt =====
-- The answers of `contains_bulk`, and that it keeps the context coherent with the table.
use roaring.Prelude.{
  ℕ, zero, suc, ◌+◌, ◌-◌, ◌%◌, ◌/◌, ◌^◌, ◌<◌, ◌≡◌, ◌∙◌, refl, sym, ap, inl, inr, Bool, false, not,
  ◌&&◌, List, [], ◌∷◌, Option, none, some, ltb, ◌==◌, lt→ltb, le→ltb, lt→==, gt→==, eq→==, arith,
  order, Bool-cases, length, get_elem?,
}
use roaring.Values.{in_values, Ascending}
use roaring.ArrayRef.Rank.{rank, rank-le-length, rank-IsSplit, in_values-rank, in_values_past}
use roaring.Layout.{low_domain_size}
use roaring.Layout.Fields.{IsNarrow, IsNarrow→IsKeyWidth, low_key-%, chunk_key-/}
use roaring.Chunks.{keys_of}
use roaring.Chunks.Find.{lower_bound_lem}
use roaring.Chunks.Entries
use roaring.Containers.Dispatch.{in_container, container_contains_lem}
use roaring.Bitmap.{Bitmap}
use roaring.Bitmap.Table.{count, IsHeld, in_table, in_bitmap, IsValid}
use roaring.Bitmap.Points.{domain_bounds}
use roaring.Bitmap.Bulk.{
  BulkContext, reset, if_key, try_adjacent_chunk, answer_at, contains_searched, contains_adjacent,
  contains_cached, contains_bulk,
}

-- A context of the table as it is points to the entry of its chunk.
abbrev pub IsCoherent : Bitmap → ℕ → BulkContext → Type 0
IsCoherent b generation ctx =
    (i : ℕ)
    → ctx.slot ≡ some i
    → ctx.generation ≡ generation
    → (ctx.at ≡ i) × (get_elem? (keys_of b.chunks) i ≡ some ctx.chunk)

got_inside : (xs : List ℕ) (i x : ℕ) → get_elem? xs i ≡ some x → i < length xs
got_inside [] i x e = absurd (ground arith)
got_inside (y ∷ ys) zero x e = omega arith
got_inside (y ∷ ys) (suc i) x e = omega (arith, got_inside ys i x e)

-- A position of the chunk, if there is one.
abbrev Stands : List ℕ → ℕ → Option ℕ → Type 0
Stands keys chunk none = Unit
Stands keys chunk (some i) = get_elem? keys i ≡ some chunk

if_key-Stands :
    (keys : List ℕ) (key chunk at : ℕ)
    → get_elem? keys at ≡ some key
    → Stands keys chunk (if_key key chunk at)
if_key-Stands keys key chunk at e = elim (order key chunk) [
  | inl less ↦ rw (lt→== key chunk less) tt
  | inr (inl more) ↦ rw (gt→== key chunk more) tt
  | inr (inr same) ↦ rw (eq→== key chunk (sym same)) (e ∙ ap some (sym same))
]

try_adjacent_chunk_lem :
    (keys : List ℕ) (chunk at current_key : ℕ)
    → Ascending 0 keys
    → get_elem? keys at ≡ some current_key
    → (o : Option ℕ) × (try_adjacent_chunk keys chunk at ≡ some o) × Stands keys chunk o
unfolding try_adjacent_chunk
try_adjacent_chunk_lem keys chunk at current_key w e =
    let inside = got_inside keys at current_key e in
    elim (order current_key chunk) [
      | inl below ↦ elim (order (at + 1) (length keys)) [
        | inl more ↦
            let (key, e', t) = rank-IsSplit 0 0 keys w (at + 1) more in
            (
              if_key key chunk (at + 1),
              rw (e, lt→ltb current_key chunk below, lt→== (at + 1) (length keys) more, e') refl,
              if_key-Stands keys key chunk (at + 1) e',
            )
        | inr end ↦ (
          none,
          rw (e, lt→ltb current_key chunk below, eq→== (at + 1) (length keys) (omega arith)) refl,
          tt,
        )
      ]
      | inr not_below ↦ elim (Bool-cases (ltb chunk current_key && not (at == 0))) [
        | inl back ↦
            let (key, e', t) = rank-IsSplit 0 0 keys w (at - 1) (omega arith) in
            (
              if_key key chunk (at - 1),
              rw (e, le→ltb current_key chunk (omega arith), back, e') refl,
              if_key-Stands keys key chunk (at - 1) e',
            )
        | inr stay ↦ (none, rw (e, le→ltb current_key chunk (omega arith), stay) refl, tt)
      ]
    ]

module _ (key_bits : ℕ) (b : Bitmap) (generation : ℕ) (narrow : IsNarrow key_bits)
    (valid : IsValid key_bits b) (chunk low : ℕ) (in_domain : low < low_domain_size key_bits) where
  abbrev dom : ℕ
  dom = low_domain_size key_bits

  abbrev Answers : Option (BulkContext × Bool) → Type 0
  Answers o =
      (r : BulkContext × Bool) × (o ≡ some r)
      × (r.1 ≡ in_table dom b.chunks chunk low)
      × IsCoherent b generation r.0

  -- From a position of the chunk.
  answer_at_lem :
      (ctx : BulkContext) (at : ℕ)
      → get_elem? (keys_of b.chunks) at ≡ some chunk
      → IsCoherent b generation ctx
      → Answers (answer_at b ctx at low)
  unfolding answer_at
  answer_at_lem ctx at e coherent =
      let (small, whole, positive) = domain_bounds key_bits (IsNarrow→IsKeyWidth key_bits narrow) in
      let (c, there, got) =
        Entries.there-IsEntry in_container (count dom) (IsHeld dom) b.chunks at chunk e in
      let ok =
        Entries.entry_ok in_container (count dom) (IsHeld dom) b.chunks at chunk c valid.held
          there in
      let (least, same) =
        Entries.in_entries_at in_container (count dom) (IsHeld dom) 0 b.chunks at chunk c low
          valid.ordered there in
      (
        (ctx, in_container c low),
        rw (got, container_contains_lem dom small c low ok.0 in_domain) refl,
        sym same,
        coherent,
      )

  reset-IsCoherent : (ctx : BulkContext) → IsCoherent b generation (reset ctx)
  reset-IsCoherent ctx = λ i e g. absurd (ground arith)

  at-IsCoherent :
      (at g : ℕ) (private : Bool)
      → get_elem? (keys_of b.chunks) at ≡ some chunk
      → IsCoherent b generation (record {
        chunk = chunk;
        at = at;
        slot = some at;
        generation = g;
        payload_private = private;
      })
  at-IsCoherent at g private e =
      λ i same current. let here : at ≡ i = ground (arith, same) in (here, rw here at e)

  contains_searched_lem :
      (ctx : BulkContext) → Answers (contains_searched b generation ctx chunk low)
  unfolding contains_searched
  contains_searched_lem ctx =
      let keys = keys_of b.chunks in
      let at = lower_bound_lem keys chunk valid.ordered in
      let n = Entries.length-keys_of in_container (count dom) (IsHeld dom) b.chunks in
      let clear = λ (off : in_values keys chunk ≡ false).
        sym (
          Entries.in_entries_absent in_container (count dom) (IsHeld dom) b.chunks chunk low off) in
      elim (order (rank keys chunk) (length keys)) [
        | inr past ↦
            let most = rank-le-length keys chunk in
            (
              (reset ctx, false),
              rw (at, eq→== (rank keys chunk) (length b.chunks) (omega (arith, n))) refl,
              clear (in_values_past chunk keys (omega arith)),
              reset-IsCoherent ctx,
            )
        | inl inside ↦
            let (x, e, test) = rank-IsSplit 0 chunk keys valid.ordered (rank keys chunk) inside in
            let found = in_values-rank 0 chunk x keys valid.ordered e in
            let in_table_at = lt→== (rank keys chunk) (length b.chunks) (omega (arith, n)) in
            elim (Bool-cases (x == chunk)) [
              | inr other ↦ (
                (reset ctx, false),
                rw (at, in_table_at, e, other) refl,
                clear (found ∙ other),
                reset-IsCoherent ctx,
              )
              | inl same ↦
                  let here : x ≡ chunk = ground (arith, same) in
                  let e' = e ∙ ap some here in
                  rw (at, in_table_at, e, same)
                    (answer_at_lem _ (rank keys chunk) e'
                      (at-IsCoherent (rank keys chunk) generation false e'))
            ]
      ]

  contains_adjacent_lem :
      (ctx : BulkContext) (o : Option ℕ)
      → Stands (keys_of b.chunks) chunk o
      → Answers (contains_adjacent b generation ctx chunk low o)
  unfolding contains_adjacent
  contains_adjacent_lem ctx none e = contains_searched_lem ctx
  contains_adjacent_lem ctx (some at) e =
      answer_at_lem _ at e (at-IsCoherent at ctx.generation false e)

  contains_cached_lem :
      (ctx : BulkContext) (o : Option ℕ)
      → ctx.slot ≡ o
      → IsCoherent b generation ctx
      → Answers (contains_cached b generation ctx chunk low o)
  unfolding contains_cached
  contains_cached_lem ctx none e coherent = contains_searched_lem ctx
  contains_cached_lem ctx (some slot) e coherent =
      elim (Bool-cases (ctx.generation == generation)) [
        | inr old ↦ rw old (contains_searched_lem ctx)
        | inl current ↦
            let (at, stands) = coherent slot e (ground (arith, current)) in
            elim (Bool-cases (ctx.chunk == chunk)) [
              | inl same ↦
                  let here : ctx.chunk ≡ chunk = ground (arith, same) in
                  rw (current, same) (answer_at_lem ctx slot (stands ∙ ap some here) coherent)
              | inr other ↦
                  let stands' : get_elem? (keys_of b.chunks) ctx.at ≡ some ctx.chunk =
                    ap (get_elem? (keys_of b.chunks)) at ∙ stands in
                  let (o, found, there) =
                    try_adjacent_chunk_lem (keys_of b.chunks) chunk ctx.at ctx.chunk valid.ordered
                      stands' in
                  rw (current, other, found) (contains_adjacent_lem ctx o there)
            ]
      ]

-- On a well formed bitmap of keys of at most 32 bits, a key of that width, and a context that is
-- coherent (if it has a slot and the generation of the table, its position is that of the entry of
-- its chunk): `contains_bulk` reads nothing out of bounds, answers membership, and leaves a
-- coherent context.
pub contains_bulk_lem :
    (key_bits : ℕ) (b : Bitmap) (generation : ℕ) (ctx : BulkContext) (value : ℕ)
    → IsNarrow key_bits
    → IsValid key_bits b
    → IsCoherent b generation ctx
    → value < 2 ^ key_bits
    → (r : BulkContext × Bool) × (contains_bulk key_bits b generation ctx value ≡ some r)
      × (r.1 ≡ in_bitmap key_bits b value)
      × IsCoherent b generation r.0
unfolding contains_bulk
contains_bulk_lem key_bits b generation ctx value narrow valid coherent h =
    let width = IsNarrow→IsKeyWidth key_bits narrow in
    let (small, whole, positive) = domain_bounds key_bits width in
    rw (chunk_key-/ key_bits value width h, low_key-% key_bits value width)
      (contains_cached_lem key_bits b generation narrow valid (value / low_domain_size key_bits)
        (value % low_domain_size key_bits) (omega arith) ctx ctx.slot refl coherent)
