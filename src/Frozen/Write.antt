-- ===== src/Frozen/Write.antt =====
-- What the writer of a frozen image leaves: the index of the chunks, and at each place what stands there.
use roaring.Prelude.{ℕ, ◌+◌, ◌≡◌, ◌∙◌, ap, Bool, true, false, List, [], ◌∷◌, some, count_below}
use roaring.Values.{length-count}
use roaring.Containers.{Container, array, run, bitset, container_size}
use roaring.Containers.Dispatch.{in_container}
use roaring.Bitmap.Table.{count, IsHeld}
use roaring.Frozen.{
  FrozenChunkIndex, Block, counts, align_up, frozen_payload_layout, rank_bytes_of, extra_bytes,
}
use roaring.Frozen.Writer.{run_ranks, word_ranks, payload_of, cardinality_of, index_entry}
use roaring.Frozen.View.{load}

-- A count that is not stale.
abbrev pub IsFresh : Container → Type 0
IsFresh (array c) = Unit
IsFresh (run c) = Unit
IsFresh (bitset c) = c.cardinality_stale ≡ false

abbrev pub AllFresh : List (ℕ × Container) → Type 0
AllFresh [] = Unit
AllFresh ((_, c) ∷ t) = IsFresh c × AllFresh t

-- The sizes that the writer reads.
pub size_of_held :
    (dom : ℕ) (c : Container)
    → IsHeld dom c
    → IsFresh c
    → (container_size c ≡ some (count dom c)) × (cardinality_of c ≡ some (count dom c))
unfolding container_size
size_of_held dom (array c) (valid, held) fresh =
    let n = length-count dom 0 c.values valid.ordered valid.within in
    (ap some (valid.counted ∙ n), ap some n)
size_of_held dom (run c) (valid, held) fresh = (ap some valid.counted, ap some valid.counted)
size_of_held dom (bitset c) (valid, held) fresh =
    let exact : c.cardinality ≡ count_below dom (in_container (bitset c)) =
      rw fresh at valid.counted in
    (rw fresh (ap some exact), rw fresh (ap some exact))

-- A rank block, of a form that has one.
abbrev pub HasRanks : List Block → ℕ → Container → Type 0
HasRanks stores at (array c) = Unit
HasRanks stores at (run c) = load stores at ≡ some (counts (run_ranks 0 c.runs))
HasRanks stores at (bitset c) = load stores at ≡ some (counts (word_ranks 0 c.words))

abbrev pub HasRanksIf : Bool → List Block → ℕ → Container → Type 0
HasRanksIf true stores at c = HasRanks stores at c
HasRanksIf false stores at c = Unit

module _ (key_bits : ℕ) (ranked : Bool) where
  -- Where the payload of a container stands if the image has got to `offset`, and where its block ends.
  abbrev pub place : ℕ → Container → ℕ
  place offset c = align_up offset (frozen_payload_layout key_bits c).0

  abbrev pub next : ℕ → Container → ℕ
  next offset c =
      place offset c
      + (frozen_payload_layout key_bits c).1
      + extra_bytes ranked (rank_bytes_of key_bits c)

  -- The bytes of the containers with as much padding as can be.
  abbrev pub most_bytes : List (ℕ × Container) → ℕ
  most_bytes [] = 0
  most_bytes ((_, c) ∷ t) =
      7
      + (frozen_payload_layout key_bits c).1
      + extra_bytes ranked (rank_bytes_of key_bits c)
      + most_bytes t

  abbrev pub index_from : ℕ → ℕ → ℕ → List (ℕ × Container) → List FrozenChunkIndex
  index_from dom offset base [] = []
  index_from dom offset base ((key, c) ∷ t) =
      index_entry key_bits ranked key c (place offset c) (count dom c) base
      ∷ index_from dom (next offset c) (base + count dom c) t

  -- The payload of a container in its place, with the rank block behind it.
  abbrev pub Stands : List Block → ℕ → Container → Type 0
  Stands stores at c =
      (load stores at ≡ some (payload_of c))
      × HasRanksIf ranked stores (at + (frozen_payload_layout key_bits c).1) c

  abbrev pub AllStand : List Block → ℕ → List (ℕ × Container) → Type 0
  AllStand stores offset [] = Unit
  AllStand stores offset ((_, c) ∷ t) =
      Stands stores (place offset c) c × AllStand stores (next offset c) t
