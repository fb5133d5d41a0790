-- ===== src/Ranked/Payloads.antt =====
-- Rank and selection in the chunk of an entry, whatever the form of its container.
use roaring.Prelude.{
  ℕ, ◌+◌, ◌*◌, ◌%◌, ◌^◌, ◌≤◌, ◌<◌, ◌≡◌, ◌∙◌, refl, ap, sym, inl, inr, true, some, lt→ltb, le→ltb,
  arith, order, length, count_below,
}
use roaring.Values.{length-count}
use roaring.ArrayRef.Rank.{rank, rank-le-length, rank-IsSplit, in_values-rank, in_values_past}
use roaring.Runs.{runs_size-count, runs_size-le}
use roaring.Bitset.Member.{in_words}
use roaring.Containers.{Container, array, run, bitset}
use roaring.Containers.Dispatch.{in_container}
use roaring.Containers.Dispatch
use roaring.Bitmap.Table.{count}
use roaring.Frozen.{FrozenChunkIndex}
use roaring.Frozen.Writer.{index_entry}
use roaring.Frozen.View.{FrozenView}
use roaring.Frozen.Reads.{
  Fits, lows_at_lem, runs_at_lem, words_at_lem, run_ranks_at_lem, word_ranks_at_lem,
}
use roaring.Ranked.{entry_position, entry_select}
use roaring.Ranked.Arrays.{rank-count_below, array_lower_bound_lem, array_select_lem}
use roaring.Ranked.Runs.{run_position_lem}
use roaring.Ranked.SelectRun.{run_select_lem}
use roaring.Ranked.Words.{word_position_lem}
use roaring.Ranked.SelectWord.{word_select_lem}
use roaring.Ranked.Upto.{Chosen}

module _ (key_bits dom : ℕ) (small : dom ≤ 2 ^ 16) (v : FrozenView) (key offset n base : ℕ) where
  abbrev entry : Container → FrozenChunkIndex
  entry c = index_entry key_bits true key c offset n base

  pub entry_position_lem :
      (c : Container) (low : ℕ)
      → Dispatch.IsValid dom c
      → Fits key_bits true v key offset n base c
      → low < dom
      → entry_position v (entry c) low
        ≡ some ((base + count_below low (in_container c)) % 2 ^ 32, in_container c low)
  unfolding entry_position
  entry_position_lem (array c) low valid fits h =
      let xs = c.values in
      let read = lows_at_lem key_bits true v key offset n base c fits in
      let found = array_lower_bound_lem 0 low xs valid.ordered in
      let same = rank-count_below 0 low xs valid.ordered in
      elim (order (rank xs low) (length xs)) [
        | inl inside ↦
            let (x, e, test) = rank-IsSplit 0 low xs valid.ordered (rank xs low) inside in
            let on = in_values-rank 0 low x xs valid.ordered e in
            rw (read, found, lt→ltb (rank xs low) (length xs) inside, e, same, on) refl
        | inr past ↦
            let most = rank-le-length xs low in
            let off = in_values_past low xs (omega arith) in
            rw (read, found, le→ltb (rank xs low) (length xs) (omega arith), same, off) refl
      ]
  entry_position_lem (run c) low valid fits h =
      rw
        (
          runs_at_lem key_bits true v key offset n base c fits,
          run_ranks_at_lem key_bits v key offset n base c fits,
          run_position_lem low c.runs valid.ordered
              (omega (arith, runs_size-le dom 0 c.runs valid.ordered valid.within)),
        )
        refl
  entry_position_lem (bitset c) low valid fits h =
      let sized = valid.sized in
      let position = word_position_lem low c.words (omega arith) (omega arith) in
      rw
        (
          words_at_lem key_bits true v key offset n base c fits,
          word_ranks_at_lem key_bits v key offset n base c fits,
          position,
        )
        refl

  pub entry_select_lem :
      (c : Container) (within : ℕ)
      → Dispatch.IsValid dom c
      → Fits key_bits true v key offset n base c
      → within < count dom c
      → (low : ℕ) × (entry_select v (entry c) within ≡ some low)
        × (low < dom)
        × Chosen (in_container c) within low
  unfolding entry_select
  entry_select_lem (array c) within valid fits h =
      let total = length-count dom 0 c.values valid.ordered valid.within in
      let (x, e, l, on, same, m) =
        array_select_lem 0 dom within c.values valid.ordered valid.within (omega arith) in
      (
        x,
        rw (lows_at_lem key_bits true v key offset n base c fits) e,
        l,
        (on, sym (rank-count_below 0 x c.values valid.ordered) ∙ same),
      )
  entry_select_lem (run c) within valid fits h =
      let total = runs_size-count dom 0 c.runs valid.ordered valid.within in
      let (x, e, l, chosen) =
        run_select_lem dom c.runs within small valid.ordered valid.within (omega arith) in
      (
        x,
        rw
            (
              runs_at_lem key_bits true v key offset n base c fits,
              run_ranks_at_lem key_bits v key offset n base c fits,
            )
            e,
        l,
        chosen,
      )
  entry_select_lem (bitset c) within valid fits h =
      let sized = valid.sized in
      let total : count_below (64 * length c.words) (in_words c.words)
          ≡ count_below dom (in_words c.words) =
        ap (λ m. count_below m (in_words c.words)) sized in
      let (x, e, l, chosen) = word_select_lem c.words within (omega arith) (omega arith) in
      (
        x,
        rw
            (
              words_at_lem key_bits true v key offset n base c fits,
              word_ranks_at_lem key_bits v key offset n base c fits,
            )
            e,
        omega arith,
        chosen,
      )
