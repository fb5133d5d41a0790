-- ===== src/Bitmap.antt =====
-- Point operations of a bitmap (include/frsr/roaring/bitmap.hpp): `contains`, `add` through `add_impl`, and `remove`, under
-- keys of up to 32 bits, whose chunk table is flat, value semantics, without a context, and with inline buffers, so that a new chunk enters the table empty. A read out
-- of bounds or a failed assertion gives `none`.
pub mod Table
pub mod Points
pub mod Grow
pub mod Add
pub mod Shrink
pub mod Remove
pub mod Calls
pub mod Bulk
use roaring.Prelude.{
  ℕ, zero, suc, ◌+◌, ◌-◌, ◌%◌, ◌^◌, Bool, true, false, not, List, [], ◌∷◌, Option, none, some,
  ◌>>=◌, ltb, leb, ◌==◌, if◌then◌else◌, length, get_elem?,
}
use roaring.Layout.{chunk_key, low_key, low_domain_size}
use roaring.Chunks.{keys_of, find, lower_bound, insert, erase, push_back, set_slot}
use roaring.Containers.{
  Container, empty_container, container_contains, container_add, container_remove, container_size,
  promote_if_needed,
}

-- The entries of the chunk table, and the number of keys.
pub record Bitmap : Type 0 where
  pub chunks : List (ℕ × Container)
  pub size : ℕ

-- `sizeof( chunk_type )`
abbrev pub chunk_bytes : ℕ
chunk_bytes = 2

pub contains : ℕ → Bitmap → ℕ → Option Bool
contains key_bits b value = do
  at ← find chunk_bytes (keys_of b.chunks) (chunk_key key_bits value)
  if at == length b.chunks
      then some false
      else (do (_, slot) ← get_elem? b.chunks at; container_contains slot (low_key key_bits value))

-- The table with a chunk in it, and its position, where `last` is the last key of the table.
pub place_before : List (ℕ × Container) → ℕ → Option (List (ℕ × Container) × ℕ)
place_before chunks chunk = do
  at ← lower_bound (keys_of chunks) chunk
  found ← get_elem? (keys_of chunks) at
  some (if found == chunk then (chunks, at) else (insert chunks at chunk empty_container, at))

pub place_chunk : List (ℕ × Container) → ℕ → Option (List (ℕ × Container) × ℕ)
unfolding place_before
place_chunk [] chunk = some (push_back [] chunk empty_container, 0)
place_chunk (first ∷ rest) chunk = do
  last_chunk ← get_elem? (keys_of (first ∷ rest)) (length rest)
  if chunk == last_chunk
      then some (first ∷ rest, length rest)
      else if ltb last_chunk chunk
      then some (push_back (first ∷ rest) chunk empty_container, suc (length rest))
      else place_before (first ∷ rest) chunk

-- `has_room` says of a container whether its payload holds another value without growing.
pub add_impl : ℕ → (Container → Bool) → Bitmap → ℕ → Option (Bitmap × Bool)
unfolding place_chunk
add_impl key_bits has_room b value = do
  (chunks, at) ← place_chunk b.chunks (chunk_key key_bits value)
  (_, slot) ← get_elem? chunks at
  (slot', added) ← container_add (has_room slot) slot (low_key key_bits value)
  if added
      then (do
        promoted ← promote_if_needed (low_domain_size key_bits) slot'
        some (record { chunks = set_slot chunks at promoted; size = (b.size + 1) % 2 ^ 64 }, true))
      else some (record { chunks = set_slot chunks at slot'; size = b.size }, false)

pub remove : ℕ → Bitmap → ℕ → Option (Bitmap × Bool)
remove key_bits b value = do
  at ← lower_bound (keys_of b.chunks) (chunk_key key_bits value)
  if at == length b.chunks then some (b, false) else (do
    (found, slot) ← get_elem? b.chunks at
    if not (found == chunk_key key_bits value) then some (b, false) else (do
      (slot', removed) ← container_remove (low_domain_size key_bits) slot (low_key key_bits value)
      let chunks = set_slot b.chunks at slot'
      if removed
          then (do
            left ← container_size slot'
            some (
              record {
                chunks = (if left == 0 then erase chunks at else chunks);
                size = (b.size + (2 ^ 64 - 1)) % 2 ^ 64;
              },
              true,
            ))
          else some (record { chunks = chunks; size = b.size }, false)))
