-- ===== src/Frozen/Reads.antt =====
-- What a view reads through an entry of a written index: the payload of the container, and its rank block.
use roaring.Prelude.{
  ℕ, ◌+◌, ◌%◌, ◌^◌, ◌<◌, ◌≡◌, refl, ap, ap₂, Bool, true, List, [], ◌∷◌, some, arith, length, take,
  mod-eq_of_lt,
}
use roaring.ArrayRef.Update.{ArrayContainer}
use roaring.RunRef.{RunHandle}
use roaring.Bitset.{BitsetContainer}
use roaring.Containers.{Container, array, run, bitset}
use roaring.Frozen.{FrozenChunkIndex, frozen_payload_layout}
use roaring.Frozen.Writer.{index_entry, run_ranks, word_ranks}
use roaring.Frozen.View.{FrozenView, lows_at, runs_at, words_at, ranks_at}
use roaring.Frozen.Write.{Stands}

pub take-length {ℓ} : {A : Type ℓ} (xs : List A) → take (length xs) xs ≡ xs
take-length [] = refl
take-length (x ∷ xs) = ap (λ ys. x ∷ ys) (take-length xs)

module _ (key_bits : ℕ) (ranked : Bool) (v : FrozenView) (key offset n base : ℕ) where
  abbrev entry : Container → FrozenChunkIndex
  entry c = index_entry key_bits ranked key c offset n base

  abbrev pub Fits : Container → Type 0
  Fits c =
      Stands key_bits ranked v.stores offset c
      × (offset + (frozen_payload_layout key_bits c).1 < 2 ^ 32)

  pub lows_at_lem :
      (c : ArrayContainer) → Fits (array c) → lows_at v (entry (array c)) ≡ some c.values
  unfolding lows_at
  lows_at_lem c ((there, ranks), fits) =
      let o : offset % 2 ^ 32 ≡ offset = mod-eq_of_lt (omega arith) in
      rw (o, there) (ap some (take-length c.values))

  pub runs_at_lem : (c : RunHandle) → Fits (run c) → runs_at v (entry (run c)) ≡ some c.runs
  unfolding runs_at
  runs_at_lem c ((there, ranks), fits) =
      let o : offset % 2 ^ 32 ≡ offset = mod-eq_of_lt (omega arith) in
      rw (o, there) (ap some (take-length c.runs))

  pub words_at_lem :
      (c : BitsetContainer) → Fits (bitset c) → words_at v (entry (bitset c)) ≡ some c.words
  unfolding words_at
  words_at_lem c ((there, ranks), fits) =
      let o : offset % 2 ^ 32 ≡ offset = mod-eq_of_lt (omega arith) in rw (o, there) refl

module _ (key_bits : ℕ) (v : FrozenView) (key offset n base : ℕ) where
  rank_place :
      (c : Container)
      → offset + (frozen_payload_layout key_bits c).1 < 2 ^ 32
      → offset % 2 ^ 32 + (frozen_payload_layout key_bits c).1 % 2 ^ 32
        ≡ offset + (frozen_payload_layout key_bits c).1
  rank_place c fits = ap₂ ◌+◌ (mod-eq_of_lt (omega arith)) (mod-eq_of_lt (omega arith))

  pub run_ranks_at_lem :
      (c : RunHandle)
      → Fits key_bits true v key offset n base (run c)
      → ranks_at v (entry key_bits true v key offset n base (run c)) ≡ some (run_ranks 0 c.runs)
  unfolding ranks_at
  run_ranks_at_lem c ((there, ranks), fits) = rw (rank_place (run c) fits, ranks) refl

  pub word_ranks_at_lem :
      (c : BitsetContainer)
      → Fits key_bits true v key offset n base (bitset c)
      → ranks_at v (entry key_bits true v key offset n base (bitset c))
        ≡ some (word_ranks 0 c.words)
  unfolding ranks_at
  word_ranks_at_lem c ((there, ranks), fits) = rw (rank_place (bitset c) fits, ranks) refl
