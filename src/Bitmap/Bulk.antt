-- ===== src/Bitmap/Bulk.antt =====
-- `contains_bulk` of include/frsr/roaring/bitmap.hpp, with the context that it keeps from call to call. `slot` is the
-- position of the entry that the context's pointer points to, `none` the null pointer; `generation` is that of the table.
pub mod Answers
use roaring.Prelude.{
  ℕ, zero, suc, ◌+◌, ◌-◌, ◌*◌, ◌%◌, ◌/◌, ◌^◌, ◌≤◌, ◌<◌, ◌≡◌, ◌∙◌, ◌⊎◌, refl, sym, ap, inl, inr,
  Bool, true, false, not, ◌&&◌, ◌||◌, List, [], ◌∷◌, Option, none, some, ◌>>=◌, ltb, leb, ◌==◌,
  lt→ltb, le→ltb, lt→==, gt→==, eq→==, if◌then◌else◌, arith, order, Bool-cases, length, get_elem?,
}
use roaring.Values.{in_values, Ascending}
use roaring.ArrayRef.Rank.{rank, rank-le-length, rank-IsSplit, in_values-rank, in_values_past}
use roaring.Layout.{low_domain_size, chunk_key, low_key}
use roaring.Layout.Fields.{IsNarrow, IsNarrow→IsKeyWidth, low_key-%, chunk_key-/}
use roaring.Chunks.{keys_of, lower_bound}
use roaring.Chunks.Find.{lower_bound_lem}
use roaring.Chunks.Entries
use roaring.Containers.{Container, container_contains}
use roaring.Containers.Dispatch.{in_container, container_contains_lem}
use roaring.Bitmap.{Bitmap}
use roaring.Bitmap.Table.{count, IsHeld, in_table, in_bitmap, IsValid}
use roaring.Bitmap.Points.{domain_bounds}

pub record BulkContext : Type 0 where
  pub chunk : ℕ
  pub at : ℕ
  pub slot : Option ℕ
  pub generation : ℕ
  pub payload_private : Bool

abbrev reset : BulkContext → BulkContext
reset ctx = record ctx { slot = none; payload_private = false }

-- The position if the key stands there.
abbrev if_key : ℕ → ℕ → ℕ → Option ℕ
if_key key chunk at = if key == chunk then some at else none

-- The neighbour of a position that has the chunk.
try_adjacent_chunk : List ℕ → ℕ → ℕ → Option (Option ℕ)
try_adjacent_chunk keys chunk at = do
  current_key ← get_elem? keys at
  if ltb current_key chunk
      then if at + 1 == length keys
        then some none
        else (do key ← get_elem? keys (at + 1); some (if_key key chunk (at + 1)))
      else if ltb chunk current_key && not (at == 0)
      then (do key ← get_elem? keys (at - 1); some (if_key key chunk (at - 1)))
      else some none

-- `container_contains( *ctx.slot, low )`, with the context that is left.
answer_at : Bitmap → BulkContext → ℕ → ℕ → Option (BulkContext × Bool)
answer_at b ctx at low = do
  (_, slot) ← get_elem? b.chunks at
  found ← container_contains slot low
  some (ctx, found)

-- The search of the table.
contains_searched : Bitmap → ℕ → BulkContext → ℕ → ℕ → Option (BulkContext × Bool)
unfolding answer_at
contains_searched b generation ctx chunk low = do
  at ← lower_bound (keys_of b.chunks) chunk
  if at == length b.chunks then some (reset ctx, false) else (do
    key ← get_elem? (keys_of b.chunks) at
    if key == chunk
        then answer_at b
            (record {
              chunk = chunk;
              at = at;
              slot = some at;
              generation = generation;
              payload_private = false;
            })
            at low
        else some (reset ctx, false))

-- From the neighbour, if it has the chunk.
contains_adjacent : Bitmap → ℕ → BulkContext → ℕ → ℕ → Option ℕ → Option (BulkContext × Bool)
unfolding contains_searched
contains_adjacent b generation ctx chunk low none = contains_searched b generation ctx chunk low
contains_adjacent b generation ctx chunk low (some at) =
    answer_at b (record ctx { chunk = chunk; at = at; slot = some at; payload_private = false }) at
      low

-- With the context's slot, if there is one.
contains_cached : Bitmap → ℕ → BulkContext → ℕ → ℕ → Option ℕ → Option (BulkContext × Bool)
unfolding contains_adjacent try_adjacent_chunk
contains_cached b generation ctx chunk low none = contains_searched b generation ctx chunk low
contains_cached b generation ctx chunk low (some slot) =
    if ctx.generation == generation
    then if ctx.chunk == chunk then answer_at b ctx slot low else (do
      adjacent ← try_adjacent_chunk (keys_of b.chunks) chunk ctx.at
      contains_adjacent b generation ctx chunk low adjacent)
    else contains_searched b generation ctx chunk low

pub contains_bulk : ℕ → Bitmap → ℕ → BulkContext → ℕ → Option (BulkContext × Bool)
unfolding contains_cached
contains_bulk key_bits b generation ctx value =
    contains_cached b generation ctx (chunk_key key_bits value) (low_key key_bits value) ctx.slot
