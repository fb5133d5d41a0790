-- ===== src/Frozen/Store.antt =====
-- What the writer stores: every payload and rank block stands at its offset, and can be read.
use roaring.Prelude.{
  ℕ, ◌+◌, ◌*◌, ◌%◌, ◌^◌, ◌≤◌, ◌<◌, ◌≡◌, refl, inl, inr, Bool, true, false, List, [], ◌∷◌, some,
  gt→==, arith, length, count_below, count_below-none, mod-eq_of_lt,
}
use roaring.Values.{in_values}
use roaring.Layout.{low_domain_size}
use roaring.Runs.{Run, in_runs}
use roaring.Containers.{Container, array, run, bitset, container_size}
use roaring.Bitmap.Table.{count, AllHeld, table_size}
use roaring.Frozen.{
  FrozenChunkIndex, Block, low_bytes, frozen_payload_layout, rank_bytes_of, extra_bytes, size_from,
}
use roaring.Frozen.Writer.{
  copy_payload, payload_of, rank_block, cardinality_of, index_entry, write_chunks,
}
use roaring.Frozen.Blocks.{
  AllFrom, AllInside, AllFrom-mono, block_of, load_here, HasRanks-later, AllStand-later,
  ranks_before, rank_block_lem, copy_payload_lem,
}
use roaring.Frozen.Align.{IsAlignment, low_bytes-IsAlignment, layout-IsAlignment, align_up_lem}
use roaring.Frozen.Write.{
  AllFresh, AllStand, HasRanksIf, Stands, index_from, most_bytes, next, place, size_of_held,
}

-- The rank block of a container that has one takes bytes.
abbrev pub HasRankBytes : ℕ → Container → Type 0
HasRankBytes key_bits (array c) = Unit
HasRankBytes key_bits (run c) = 0 < rank_bytes_of key_bits (run c)
HasRankBytes key_bits (bitset c) = 0 < rank_bytes_of key_bits (bitset c)

-- The blocks of a container: a payload of at least a byte, with its ranks.
module _ (key_bits : ℕ) (ranked : Bool) (c : Container) (offset at : ℕ) (stores : List Block) where
  abbrev after : ℕ
  after = at + (frozen_payload_layout key_bits c).1

  abbrev payload : Block
  payload = block_of offset at (frozen_payload_layout key_bits c).1 (payload_of c)

  abbrev written : List Block
  written = payload ∷ ranks_before ranked after c stores

  block_ranks :
      (ranked' : Bool) (c' : Container) (x : ℕ)
      → HasRanksIf ranked' (ranks_before ranked' x c' stores) x c'
  block_ranks true (array c') x = tt
  block_ranks true (run c') x = load_here (block_of x x _ _) stores
  block_ranks true (bitset c') x = load_here (block_of x x _ _) stores
  block_ranks false c' x = tt

  block-Stands : 0 < (frozen_payload_layout key_bits c).1 → Stands key_bits ranked written at c
  block-Stands positive = (
    load_here payload (ranks_before ranked after c stores),
    HasRanks-later payload (ranks_before ranked after c stores) ranked after c (omega arith)
        (block_ranks ranked c after),
  )

  -- The later blocks stand behind it.
  later-AllStand :
      (ranked' : Bool) (c' : Container) (x next_offset : ℕ) (t : List (ℕ × Container))
      → x + extra_bytes ranked' (rank_bytes_of key_bits c') ≤ next_offset
      → HasRankBytes key_bits c'
      → next_offset + most_bytes key_bits ranked t < 2 ^ 32
      → AllStand key_bits ranked stores next_offset t
      → AllStand key_bits ranked (ranks_before ranked' x c' stores) next_offset t
  later-AllStand true (array c') x next_offset t h p small all = all
  later-AllStand true (run c') x next_offset t h p small all =
      AllStand-later (block_of x x _ _) stores key_bits ranked next_offset t (omega arith) small all
  later-AllStand true (bitset c') x next_offset t h p small all =
      AllStand-later (block_of x x _ _) stores key_bits ranked next_offset t (omega arith) small all
  later-AllStand false c' x next_offset t h p small all = all

values_pos : (dom : ℕ) (xs : List ℕ) → 0 < count_below dom (in_values xs) → 0 < length xs
values_pos dom [] h = omega (arith, count_below-none dom)
values_pos dom (x ∷ xs) h = omega arith

pub runs_pos : (dom : ℕ) (rs : List Run) → 0 < count_below dom (in_runs rs) → 0 < length rs
runs_pos dom [] h = omega (arith, count_below-none dom)
runs_pos dom (r ∷ rs) h = omega arith

times_pos : (n a : ℕ) → IsAlignment a → 0 < n → (0 < n * a) × (0 < n * (2 * a))
times_pos n a (inl e) h = rw e (omega arith)
times_pos n a (inr (inl e)) h = rw e (omega arith)
times_pos n a (inr (inr e)) h = rw e (omega arith)

-- A container that holds a value takes bytes.
pub held_bytes :
    (key_bits : ℕ) (c : Container)
    → 64 ≤ low_domain_size key_bits
    → 0 < count (low_domain_size key_bits) c
    → (0 < (frozen_payload_layout key_bits c).1) × HasRankBytes key_bits c
held_bytes key_bits (array c) wide h =
    let some_value = values_pos (low_domain_size key_bits) c.values h in
    (
      (times_pos (length c.values) (low_bytes key_bits) (low_bytes-IsAlignment key_bits)
          some_value).0,
      tt,
    )
held_bytes key_bits (run c) wide h =
    let some_run = runs_pos (low_domain_size key_bits) c.runs h in
    (
      (times_pos (length c.runs) (low_bytes key_bits) (low_bytes-IsAlignment key_bits) some_run).1,
      omega arith,
    )
held_bytes key_bits (bitset c) wide h = (omega arith, omega arith)

pub size_from-le :
    (key_bits : ℕ) (ranked : Bool) (offset : ℕ) (t : List (ℕ × Container))
    → offset + most_bytes key_bits ranked t < 2 ^ 32
    → (offset ≤ size_from key_bits ranked offset t)
      × (size_from key_bits ranked offset t ≤ offset + most_bytes key_bits ranked t)
unfolding size_from
size_from-le key_bits ranked offset [] h = (omega arith, omega arith)
size_from-le key_bits ranked offset ((key, c) ∷ t) h =
    let (aligned, up, near, most) =
      align_up_lem offset (frozen_payload_layout key_bits c).0 (layout-IsAlignment key_bits c)
        (omega arith) in
    omega (arith, size_from-le key_bits ranked (next key_bits ranked offset c) t)

-- One round of the writer.
write_next :
    (key_bits : ℕ) (ranked : Bool) (size offset base key n : ℕ) (c : Container)
    (t : List (ℕ × Container)) (index : List FrozenChunkIndex) (stores : List Block) (end : ℕ)
    → container_size c ≡ some n
    → cardinality_of c ≡ some n
    → 0 < n
    → base + n < 2 ^ 32
    → write_chunks key_bits ranked size (next key_bits ranked offset c) (base + n) t
      ≡ some (index, stores, end)
    → rank_block ranked size
        (after key_bits ranked c offset (place key_bits ranked offset c) stores)
        c
        stores
      ≡ some (
          ranks_before ranked
            (after key_bits ranked c offset (place key_bits ranked offset c) stores)
            c
            stores)
    → copy_payload key_bits size offset
        (place key_bits ranked offset c)
        (frozen_payload_layout key_bits c).1
        (payload_of c)
        (ranks_before ranked
          (after key_bits ranked c offset (place key_bits ranked offset c) stores)
          c
          stores)
      ≡ some (written key_bits ranked c offset (place key_bits ranked offset c) stores)
    → write_chunks key_bits ranked size offset base ((key, c) ∷ t)
      ≡ some (
        index_entry key_bits ranked key c (place key_bits ranked offset c) n base ∷ index,
        written key_bits ranked c offset (place key_bits ranked offset c) stores,
        end,
      )
unfolding write_chunks
write_next key_bits ranked size offset base key n c t index stores end counted cardinality held
      small rest ranks copied =
    let fits : (base + n) % 2 ^ 32 ≡ base + n = mod-eq_of_lt small in
    rw (counted, gt→== n 0 held, cardinality, fits, rest, ranks, copied) refl

module _ (key_bits : ℕ) (ranked : Bool) (size : ℕ) (wide : 64 ≤ low_domain_size key_bits) where
  abbrev dom : ℕ
  dom = low_domain_size key_bits

  -- What the writer leaves of a table from an offset on.
  abbrev pub Leaves : ℕ → ℕ → List (ℕ × Container) → Type 0
  Leaves offset base t =
      (stores : List Block) × (end : ℕ) × (write_chunks key_bits ranked size offset base t
        ≡ some (index_from key_bits ranked dom offset base t, stores, end))
      × (end ≡ size_from key_bits ranked offset t)
      × AllStand key_bits ranked stores offset t
      × AllFrom offset stores
      × AllInside size stores

  pub write_chunks_lem :
      (offset base : ℕ) (t : List (ℕ × Container))
      → AllHeld dom t
      → AllFresh t
      → offset + most_bytes key_bits ranked t < 2 ^ 32
      → base + table_size dom t < 2 ^ 32
      → size_from key_bits ranked offset t ≤ size
      → Leaves offset base t
  unfolding write_chunks size_from
  write_chunks_lem offset base [] held fresh small few fits = ([], offset, refl, refl, tt, tt, tt)
  write_chunks_lem offset base ((key, c) ∷ t) held fresh small few fits =
      let (counted, cardinality) = size_of_held dom c held.0 fresh.0 in
      let (positive, ranks) = held_bytes key_bits c wide held.0.1 in
      let (aligned, up, near, most) =
        align_up_lem offset (frozen_payload_layout key_bits c).0 (layout-IsAlignment key_bits c)
          (omega arith) in
      let at = place key_bits ranked offset c in
      let (least, greatest) =
        size_from-le key_bits ranked (next key_bits ranked offset c) t (omega arith) in
      let (stores, end, e, n, all, from_here, inside) =
        write_chunks_lem (next key_bits ranked offset c) (base + count dom c) t held.1 fresh.1
          (omega arith) (omega arith) (omega arith) in
      let (blocked, from_ranks, in_ranks) =
        rank_block_lem key_bits size (after key_bits ranked c offset at stores) stores ranked c
          held.0 (omega arith) from_here inside in
      let copied = copy_payload_lem key_bits size offset at c _ held.0 (omega arith) from_ranks in
      (
        written key_bits ranked c offset at stores,
        end,
        write_next key_bits ranked size offset base key (count dom c) c t _ stores end counted
            cardinality held.0.1 (omega arith) e blocked copied,
        n,
        (
          block-Stands key_bits ranked c offset at stores positive,
          AllStand-later (payload key_bits ranked c offset at stores) _ key_bits ranked
              (next key_bits ranked offset c) t (omega arith) (omega arith)
              (later-AllStand key_bits ranked c offset at stores ranked c _
                (next key_bits ranked offset c) t (omega arith) ranks (omega arith) all),
        ),
        (omega arith, AllFrom-mono offset _ _ (omega arith) from_ranks),
        (omega arith, in_ranks),
      )
