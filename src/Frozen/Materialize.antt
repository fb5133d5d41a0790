-- ===== src/Frozen/Materialize.antt =====
-- A bitmap written to an image and read back is the bitmap.
use roaring.Prelude.{
  ℕ, ◌+◌, ◌/◌, ◌%◌, ◌^◌, ◌==◌, ◌&&◌, ◌||◌, ◌<◌, ◌≡◌, ◌∙◌, refl, ap, ap₂, subst, sym, Bool,
  Bool-cases, inl, inr, List, [], ◌∷◌, some, ◌>>=◌, arith, length, count_below, mod-eq_of_lt,
  fun_ext,
}
use roaring.Values.{in_values, AllBelow, Ascending}
use roaring.Layout.{low_domain_size, chunk_mod}
use roaring.Layout.Fields.{IsNarrow}
use roaring.ArrayRef.Update.Valid as ArrayValid
use roaring.Runs.{Run, in_runs, RunsFrom, Below}
use roaring.RunRef.Valid as RunValid
use roaring.Chunks.{keys_of}
use roaring.Containers.{Container, array, run, bitset}
use roaring.Containers.Dispatch.{in_container}
use roaring.Containers.Dispatch
use roaring.Bitmap.{Bitmap}
use roaring.Bitmap.Table.{count, AllHeld, table_size, in_table, in_bitmap, IsValid}
use roaring.Frozen.{frozen_payload_layout}
use roaring.Frozen.Writer.{index_entry}
use roaring.Frozen.View.{FrozenView}
use roaring.Frozen.Restore.{
  run_from, bitset_from, make_array_from_sorted, materialize_entry, materialize_entries,
  materialize,
}
use roaring.Frozen.Align.{layout-IsAlignment, align_up_lem}
use roaring.Frozen.Write.{place, next, most_bytes, index_from, AllStand}
use roaring.Frozen.Reads.{Fits, lows_at_lem, runs_at_lem, words_at_lem}
use roaring.Frozen.Written.{IsWritable, index_end, written, frozen_serialize_lem}

run_from-IsValid :
    (dom n : ℕ) (rs : List Run)
    → RunsFrom 0 rs
    → Below dom rs
    → n ≡ count_below dom (in_runs rs)
    → RunValid.IsValid dom (run_from rs n) × ((run_from rs n).runs ≡ rs)
run_from-IsValid dom n [] w b e = (record { ordered = w; within = b; counted = e; ends = tt }, refl)
run_from-IsValid dom n (r ∷ rs) w b e =
    (record { ordered = w; within = b; counted = e; ends = (refl, refl) }, refl)

module _ (key_bits dom : ℕ) (ranks : Bool) (v : FrozenView) where
  -- The same values, in a well formed container.
  abbrev Restores : Container → Container → Type 0
  Restores c c' = Dispatch.IsValid dom c' × (in_container c' ≡ in_container c)

  materialize_entry_lem :
      (key offset base : ℕ) (c : Container)
      → Dispatch.IsValid dom c
      → Fits key_bits ranks v key offset (count dom c) base c
      → (c' : Container) × (materialize_entry v
            (index_entry key_bits ranks key c offset (count dom c) base)
          ≡ some c')
        × Restores c c'
  unfolding materialize_entry make_array_from_sorted
  materialize_entry_lem key offset base (array c) valid fits =
      let (ok, same) = ArrayValid.sync_header-IsValid dom _ c.values valid.ordered valid.within in
      (
        array (make_array_from_sorted c.values),
        rw (lows_at_lem key_bits ranks v key offset (count dom (array c)) base c fits) refl,
        (ok, ap in_values same),
      )
  materialize_entry_lem key offset base (run c) valid fits =
      let (ok, same) =
        run_from-IsValid dom (count dom (run c)) c.runs valid.ordered valid.within refl in
      (
        run (run_from c.runs (count dom (run c))),
        rw (runs_at_lem key_bits ranks v key offset (count dom (run c)) base c fits) refl,
        (ok, ap in_runs same),
      )
  materialize_entry_lem key offset base (bitset c) valid fits = (
    bitset (bitset_from c.words (count dom (bitset c))),
    rw (words_at_lem key_bits ranks v key offset (count dom (bitset c)) base c fits) refl,
    (record { sized = valid.sized; words_fit = valid.words_fit; counted = refl; ends = tt }, refl),
  )

  -- A table with the same keys and the same values.
  abbrev RestoresAll : List (ℕ × Container) → List (ℕ × Container) → Type 0
  RestoresAll t t' =
      (keys_of t' ≡ keys_of t)
      × AllHeld dom t'
      × (table_size dom t' ≡ table_size dom t)
      × ((q x : ℕ) → in_table dom t' q x ≡ in_table dom t q x)

  materialize_entries_lem :
      (offset base : ℕ) (t : List (ℕ × Container))
      → AllStand key_bits ranks v.stores offset t
      → AllBelow (chunk_mod key_bits) (keys_of t)
      → AllHeld dom t
      → offset + most_bytes key_bits ranks t < 2 ^ 32
      → (t' : List (ℕ × Container)) × (materialize_entries key_bits v
            (index_from key_bits ranks dom offset base t)
          ≡ some t')
        × RestoresAll t t'
  unfolding materialize_entries
  materialize_entries_lem offset base [] stands narrow held small =
      ([], refl, (refl, tt, refl, λ q x. refl))
  materialize_entries_lem offset base ((key, c) ∷ t) stands narrow held small =
      let (aligned, up, near, most) =
        align_up_lem offset (frozen_payload_layout key_bits c).0 (layout-IsAlignment key_bits c)
          (omega arith) in
      let (c', e, (valid, same)) =
        materialize_entry_lem key (place key_bits ranks offset c) base c held.0.0
          (stands.0, omega arith) in
      let (t', e', (keys, held', size, members)) =
        materialize_entries_lem (next key_bits ranks offset c) (base + count dom c) t stands.1
          narrow.1 held.1 (omega arith) in
      let chunk : key % chunk_mod key_bits ≡ key = mod-eq_of_lt narrow.0 in
      let counts : count dom c' ≡ count dom c = ap (count_below dom) same in
      (
        (key, c') ∷ t',
        rw (e, e', chunk) refl,
        (
          ap (λ ks. key ∷ ks) keys,
          ((valid, omega (arith, counts, held.0.1)), held'),
          omega (arith, counts, size),
          λ q x. ap₂ (λ (p : ℕ → Bool) (b : Bool). (q == key && p x) || b) same (members q x),
        ),
      )

-- Without chunks nothing is held.
no_chunks :
    (dom : ℕ) (t u : List (ℕ × Container))
    → keys_of t ≡ keys_of u
    → length u ≡ 0
    → (t ≡ []) × (table_size dom u ≡ 0)
no_chunks dom [] [] keys empty = (refl, refl)
no_chunks dom ((k, c) ∷ t) [] keys empty = absurd (omega (arith, ap length keys))
no_chunks dom t (e ∷ u) keys empty = absurd (omega (arith, empty))

-- The early return for an image without chunks makes no difference.
materialize-entries :
    (key_bits : ℕ) (v : FrozenView) (t : List (ℕ × Container))
    → materialize_entries key_bits v v.index ≡ some t
    → (v.header.chunk_count ≡ 0 → (t ≡ []) × (v.header.value_count ≡ 0))
    → materialize key_bits v ≡ some (record { chunks = t; size = v.header.value_count })
unfolding materialize
materialize-entries key_bits v t e none_there = elim (Bool-cases (v.header.chunk_count == 0)) [
  | inl zero_chunks ↦
      let (t_empty, size) = none_there (ground (arith, zero_chunks)) in
      rw zero_chunks (
        ap₂ (λ (u : List (ℕ × Container)) (n : ℕ). some (record { chunks = u; size = n }))
          (sym t_empty) (sym size))
  | inr chunks_there ↦ rw (chunks_there, e) refl
]

-- For a well formed bitmap of keys of 8, 16 or 32 bits that can be written (exact counts, chunk
-- keys of their type, the image with the worst padding and the number of values under 2^32), with
-- rank data or without: the image that is written opens, and what is read back from it is a well
-- formed bitmap of the same size with exactly the same keys.
pub materialize_lem :
    (key_bits : ℕ) (ranks : Bool) (b : Bitmap)
    → IsNarrow key_bits
    → IsValid key_bits b
    → IsWritable key_bits ranks b
    → (b' : Bitmap) × ((written key_bits ranks b >>= materialize key_bits) ≡ some b')
      × IsValid key_bits b'
      × (b'.size ≡ b.size)
      × (in_bitmap key_bits b' ≡ in_bitmap key_bits b)
unfolding written
materialize_lem key_bits ranks b narrow valid writable =
    let dom = low_domain_size key_bits in
    let (r, e, (v, o, n, s, m, views)) =
      frozen_serialize_lem key_bits ranks b narrow valid writable in
    let (t, f, (keys, held, size, members)) =
      materialize_entries_lem key_bits dom ranks v (index_end b.chunks) 0 b.chunks views.stands
        writable.narrow valid.held writable.short in
    let f' : materialize_entries key_bits v v.index ≡ some t =
      ap (materialize_entries key_bits v) views.index ∙ f in
    let whole = materialize-entries key_bits v t f' (λ h.
      let (t_empty, size_empty) = no_chunks dom t b.chunks keys (sym views.chunk_count ∙ h) in
      (t_empty, omega (arith, views.size, valid.counted, size_empty))) in
    (
      record { chunks = t; size = v.header.value_count },
      rw (e, o) whole,
      record {
        ordered = subst (Ascending 0) (sym keys) valid.ordered;
        held = held;
        counted = sym views.size ∙ (valid.counted ∙ ap (λ k. k % 2 ^ 64) (sym size));
      },
      sym views.size,
      fun_ext (λ x. members (x / dom) (x % dom)),
    )
