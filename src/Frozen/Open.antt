-- ===== src/Frozen/Open.antt =====
-- The opening of an image accepts what the writer leaves.
use roaring.Prelude.{
  ℕ, ◌+◌, ◌-◌, ◌/◌, ◌%◌, ◌^◌, ◌≤◌, ◌<◌, ◌≡◌, ◌∙◌, refl, ap, sym, inl, inr, Bool, true, false, not,
  ◌&&◌, ◌||◌, List, [], ◌∷◌, some, le→ltb, le→leb, gt→==, eq→==, ◌==◌, if◌then◌else◌, arith, length,
  count_below-le, mod-eq_of_lt,
}
use roaring.Values.{Ascending, AllBelow, length-count}
use roaring.Layout.{low_domain_size, chunk_mod}
use roaring.Runs.{Run, runs_size, RunsFrom, runs_size-count}
use roaring.Chunks.{keys_of}
use roaring.Containers.{Container, array, run, bitset}
use roaring.Containers.Dispatch.{in_container}
use roaring.Containers.Dispatch
use roaring.Bitmap.Table.{count, AllHeld, table_size}
use roaring.Frozen.{
  kind_of, payload_count_of, rank_bytes_of, frozen_payload_alignment, frozen_expected_payload_bytes,
  frozen_rank_bytes, frozen_payload_layout, frozen_ranked_counts_match, extra_bytes, size_from,
}
use roaring.Frozen.Writer.{index_entry}
use roaring.Frozen.View.{Opening, rank_end, ranked_fault, entry_fault, after_entry, check_entries}
use roaring.Frozen.Align.{IsAlignment, layout-IsAlignment, align_up_lem}
use roaring.Frozen.Write.{place, next, most_bytes, index_from}
use roaring.Frozen.Store.{runs_pos, size_from-le}

-- What the opening computes from a kind is what the writer used.
alignment_of_kind :
    (key_bits : ℕ) (c : Container)
    → frozen_payload_alignment key_bits (kind_of c) ≡ (frozen_payload_layout key_bits c).0
alignment_of_kind key_bits (array c) = refl
alignment_of_kind key_bits (run c) = refl
alignment_of_kind key_bits (bitset c) = refl

bytes_of_kind :
    (key_bits : ℕ) (c : Container)
    → frozen_expected_payload_bytes key_bits (kind_of c) (payload_count_of key_bits c)
      ≡ (frozen_payload_layout key_bits c).1
bytes_of_kind key_bits (array c) = refl
bytes_of_kind key_bits (run c) = refl
bytes_of_kind key_bits (bitset c) = refl

ranks_of_kind :
    (key_bits : ℕ) (c : Container)
    → frozen_rank_bytes key_bits (kind_of c) (payload_count_of key_bits c)
      ≡ rank_bytes_of key_bits c
ranks_of_kind key_bits (array c) = refl
ranks_of_kind key_bits (run c) = refl
ranks_of_kind key_bits (bitset c) = refl

length-le-runs_size : (lo : ℕ) (rs : List Run) → RunsFrom lo rs → length rs ≤ runs_size rs
length-le-runs_size lo [] w = omega arith
length-le-runs_size lo (r ∷ rs) w = omega (arith, length-le-runs_size (r.end + 2) rs w.2)

alignment_pos : (a : ℕ) → IsAlignment a → 0 < a
alignment_pos a (inl e) = omega arith
alignment_pos a (inr (inl e)) = omega arith
alignment_pos a (inr (inr e)) = omega arith

no_fault :
    {a b c d e f g h r : Bool}
    → a ≡ false
    → b ≡ false
    → c ≡ false
    → d ≡ false
    → e ≡ false
    → f ≡ false
    → g ≡ false
    → h ≡ false
    → r ≡ false
    → (a || b || c || d || e || f || g || h || r) ≡ false
no_fault a b c d e f g h r = rw (a, b, c, d, e, f, g, h, r) refl

module _ (key_bits : ℕ) where
  abbrev dom : ℕ
  dom = low_domain_size key_bits

  counts_match :
      (key at base n : ℕ) (ranked : Bool) (c : Container)
      → Dispatch.IsValid dom c
      → n ≡ count dom c
      → 0 < n
      → frozen_ranked_counts_match key_bits (index_entry key_bits ranked key c at n base) ≡ true
  unfolding frozen_ranked_counts_match
  counts_match key at base n ranked (array c) valid e held =
      let same = length-count dom 0 c.values valid.ordered valid.within in
      let most = count_below-le dom (in_container (array c)) in
      rw (gt→== n 0 held, le→ltb dom n (omega arith), eq→== (length c.values) n (omega arith)) refl
  counts_match key at base n ranked (run c) valid e held =
      let most = count_below-le dom (in_container (run c)) in
      let size = runs_size-count dom 0 c.runs valid.ordered valid.within in
      let few = length-le-runs_size 0 c.runs valid.ordered in
      let some_run = runs_pos dom c.runs (omega arith) in
      rw
        (
          gt→== n 0 held,
          le→ltb dom n (omega arith),
          gt→== (length c.runs) 0 some_run,
          le→leb (length c.runs) n (omega arith),
        )
        refl
  counts_match key at base n ranked (bitset c) valid e held =
      let most = count_below-le dom (in_container (bitset c)) in
      rw (gt→== n 0 held, le→ltb dom n (omega arith), eq→== (dom / 64) (dom / 64) refl) refl

  extra_of_kind :
      (ranked : Bool) (c : Container)
      → extra_bytes ranked (frozen_rank_bytes key_bits (kind_of c) (payload_count_of key_bits c))
        ≡ extra_bytes ranked (rank_bytes_of key_bits c)
  extra_of_kind ranked c = ap (extra_bytes ranked) (ranks_of_kind key_bits c)

  -- Where the block of a written entry ends.
  pub rank_end_lem :
      (ranked ranked' : Bool) (key at base n : ℕ) (c : Container)
      → at + (frozen_payload_layout key_bits c).1 < 2 ^ 32
      → rank_end key_bits ranked (index_entry key_bits ranked' key c at n base)
        ≡ at + (frozen_payload_layout key_bits c).1 + extra_bytes ranked (rank_bytes_of key_bits c)
  rank_end_lem ranked ranked' key at base n c fits =
      let o : at % 2 ^ 32 ≡ at = mod-eq_of_lt (omega arith) in
      let b : (frozen_payload_layout key_bits c).1 % 2 ^ 32 ≡ (frozen_payload_layout key_bits c).1 =
        mod-eq_of_lt (omega arith) in
      rw (o, b, extra_of_kind ranked c) refl

  module _ (size key at base n : ℕ) (c : Container) (o : Opening) (valid : Dispatch.IsValid dom c)
      (counted : n ≡ count dom c) (held : 0 < n) (least : o.least_chunk ≤ key)
      (narrow : key < chunk_mod key_bits) (aligned : at % (frozen_payload_layout key_bits c).0 ≡ 0)
      (floor : o.payload_floor ≤ at) (small : size < 2 ^ 32) where
    abbrev bytes : ℕ
    bytes = (frozen_payload_layout key_bits c).1

    ranked_sound :
        (ranked : Bool)
        → (ranked ≡ true → o.total_cardinality ≡ base)
        → at + bytes + extra_bytes ranked (rank_bytes_of key_bits c) ≤ size
        → (ranked && ranked_fault key_bits size o (index_entry key_bits ranked key c at n base))
          ≡ false
    ranked_sound false total fits = refl
    ranked_sound true total fits =
        rw
          (
            eq→== base o.total_cardinality (sym (total refl)),
            counts_match key at base n true c valid counted held,
            rank_end_lem true true key at base n c (omega arith),
            le→ltb size (at + bytes + rank_bytes_of key_bits c) fits,
          )
          refl

    entry_sound :
        (ranked : Bool)
        → (ranked ≡ true → o.total_cardinality ≡ base)
        → at + bytes + extra_bytes ranked (rank_bytes_of key_bits c) ≤ size
        → entry_fault key_bits ranked size o (index_entry key_bits ranked key c at n base) ≡ false
    unfolding entry_fault
    entry_sound ranked total fits =
        let offset : at % 2 ^ 32 ≡ at = mod-eq_of_lt (omega arith) in
        let payload : bytes % 2 ^ 32 ≡ bytes = mod-eq_of_lt (omega arith) in
        let a =
          alignment_pos (frozen_payload_layout key_bits c).0 (layout-IsAlignment key_bits c) in
        no_fault (le→ltb key o.least_chunk least)
          (le→ltb (chunk_mod key_bits - 1) key (omega arith))
          (rw (alignment_of_kind key_bits c) (gt→== (frozen_payload_layout key_bits c).0 0 a))
          (rw (alignment_of_kind key_bits c, offset)
            (ap not (eq→== (at % (frozen_payload_layout key_bits c).0) 0 aligned)))
          (rw offset (le→ltb at o.payload_floor floor)) (rw offset (le→ltb size at (omega arith)))
          (rw (offset, payload) (le→ltb (size - at) bytes (omega arith)))
          (rw (payload, bytes_of_kind key_bits c) (ap not (eq→== bytes bytes refl)))
          (ranked_sound ranked total fits)

still_held : (b : Bool) (n : ℕ) → 0 < n → (b || n == 0) ≡ b
still_held b n h = ground arith

either-le : (b : Bool) (x y n : ℕ) → x ≤ n → y ≤ n → (if b then x else y) ≤ n
either-le true x y n h k = h
either-le false x y n h k = k

-- The loop over the index accepts every entry, and adds up the cardinalities.
abbrev Accepts : ℕ → Bool → ℕ → Opening → ℕ → ℕ → List (ℕ × Container) → Type 0
Accepts key_bits ranked size o offset base t =
    (o' : Opening) × (check_entries key_bits ranked size o (length t)
        (index_from key_bits ranked (low_domain_size key_bits) offset base t)
      ≡ some o')
    × (o'.total_cardinality ≡ base + table_size (low_domain_size key_bits) t)
    × (o'.any_empty ≡ o.any_empty)
    × (o'.image_end ≡ size_from key_bits ranked offset t)

module _ (key_bits : ℕ) (ranked : Bool) (size : ℕ) (small : size < 2 ^ 32) where
  pub check_entries_lem :
      (lo offset base : ℕ) (o : Opening) (t : List (ℕ × Container))
      → Ascending lo (keys_of t)
      → AllBelow (chunk_mod key_bits) (keys_of t)
      → AllHeld (low_domain_size key_bits) t
      → o.least_chunk ≤ lo
      → o.payload_floor ≤ offset
      → o.total_cardinality ≡ base
      → o.image_end ≡ offset
      → offset + most_bytes key_bits ranked t < 2 ^ 32
      → size_from key_bits ranked offset t ≤ size
      → Accepts key_bits ranked size o offset base t
  unfolding check_entries size_from
  check_entries_lem lo offset base o [] w narrow held least floor total end short fits =
      (o, refl, omega arith, refl, end)
  check_entries_lem lo offset base o ((key, c) ∷ t) w narrow held least floor total end short fits =
      let dom = low_domain_size key_bits in
      let at = place key_bits ranked offset c in
      let n = count dom c in
      let (aligned, up, near, most) =
        align_up_lem offset (frozen_payload_layout key_bits c).0 (layout-IsAlignment key_bits c)
          (omega arith) in
      let (after, before) =
        size_from-le key_bits ranked (next key_bits ranked offset c) t (omega arith) in
      let sound =
        entry_sound key_bits size key at base n c o held.0.0 refl held.0.1 (omega arith) narrow.0
          aligned (omega arith) small ranked (λ e. total) (omega arith) in
      let block_end = rank_end_lem key_bits ranked ranked key at base n c (omega arith) in
      let entry = index_entry key_bits ranked key c at n base in
      let (o', e, sum, empty, end') =
        check_entries_lem (key + 1) (next key_bits ranked offset c) (base + n)
          (after_entry key_bits ranked o entry) t w.1 narrow.1 held.1 (omega arith)
          (either-le ranked (rank_end key_bits ranked entry) o.payload_floor
            (next key_bits ranked offset c) (omega arith) (omega arith))
          (omega arith) (omega arith) (omega arith) (omega arith) in
      (o', rw sound e, omega arith, empty ∙ still_held o.any_empty n held.0.1, end')
