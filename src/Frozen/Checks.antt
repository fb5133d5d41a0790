-- ===== src/Frozen/Checks.antt =====
-- What the tests of the opening leave, in the terms of these tests.
use roaring.Prelude.{
  ℕ, zero, suc, ◌+◌, ◌-◌, ◌*◌, ◌%◌, ◌≤◌, ◌<◌, ◌≡◌, ◌∙◌, refl, ap, subst, inl, inr, Bool, true,
  false, Bool-cases, not, ◌&&◌, ◌||◌, List, [], ◌∷◌, Option, none, some, ◌>>=◌, ltb, ◌==◌,
  if◌then◌else◌, arith, length, take,
}
use roaring.Layout.{chunk_mod}
use roaring.Frozen.{
  FrozenChunkIndex, Image, header_bytes, index_entry_bytes, frozen_payload_alignment,
  frozen_expected_payload_bytes, frozen_ranked_counts_match, frozen_ranked_format_version,
}
use roaring.Frozen.View.{
  FrozenView, Opening, ranked, rank_end, ranked_fault, entry_fault, after_entry, check_entries,
  header_fault, frozen_view_from, blocks_inside,
}

-- The rank data of an entry, in an image that has it: it begins with the number of the earlier values,
-- and its counts agree with the cardinality.
abbrev pub RankSound : ℕ → Bool → ℕ → FrozenChunkIndex → Type 0
RankSound key_bits false total e = Unit
RankSound key_bits true total e = (e.base ≡ total) × (frozen_ranked_counts_match key_bits e ≡ true)

-- The entries of an index: chunks in order, from `least` on, that a chunk key can hold; payloads
-- aligned, of the size that their kind and count ask for, from `floor` on, and with their rank blocks
-- inside the image; with rank data, one block after the other; no cardinality 0.
abbrev pub IsSound : ℕ → Bool → ℕ → ℕ → ℕ → ℕ → List FrozenChunkIndex → Type 0
IsSound key_bits ranks size floor total least [] = Unit
IsSound key_bits ranks size floor total least (e ∷ es) =
    (least ≤ e.chunk)
    × (e.chunk ≤ chunk_mod key_bits - 1)
    × (0 < frozen_payload_alignment key_bits e.container_kind)
    × (e.payload_offset % frozen_payload_alignment key_bits e.container_kind ≡ 0)
    × (floor ≤ e.payload_offset)
    × (rank_end key_bits ranks e ≤ size)
    × (e.payload_bytes ≡ frozen_expected_payload_bytes key_bits e.container_kind e.payload_count)
    × (0 < e.cardinality)
    × RankSound key_bits ranks total e
    × IsSound key_bits ranks size (if ranks then rank_end key_bits ranks e else floor)
        (total + e.cardinality) (e.chunk + 1) es

abbrev pub cardinalities : List FrozenChunkIndex → ℕ
cardinalities [] = 0
cardinalities (e ∷ es) = e.cardinality + cardinalities es

pub or_false : (a b : Bool) → (a || b) ≡ false → (a ≡ false) × (b ≡ false)
or_false true b h = absurd (cc)
or_false false b h = (refl, h)

no_faults :
    (a b c d e f g k r : Bool)
    → (a || b || c || d || e || f || g || k || r) ≡ false
    → (a ≡ false)
      × (b ≡ false)
      × (c ≡ false)
      × (d ≡ false)
      × (e ≡ false)
      × (f ≡ false)
      × (g ≡ false)
      × (k ≡ false)
      × (r ≡ false)
no_faults false false false false false false false false false h =
    (refl, refl, refl, refl, refl, refl, refl, refl, refl)
no_faults a b c d e f g k r h = ground arith

pub no_lt : (a b : ℕ) → ltb a b ≡ false → b ≤ a
no_lt a b h = ground arith

no_ne : (a b : ℕ) → not (a == b) ≡ false → a ≡ b
no_ne a b h = ground arith

not_zero : (a : ℕ) → (a == 0) ≡ false → 0 < a
not_zero a h = ground arith

not-false : (b : Bool) → not b ≡ false → b ≡ true
not-false true h = refl
not-false false h = absurd (cc)

module _ (key_bits size : ℕ) (o : Opening) (e : FrozenChunkIndex) where
  rank_part :
      (ranks : Bool)
      → (ranks && ranked_fault key_bits size o e) ≡ false
      → e.payload_offset + e.payload_bytes ≤ size
      → RankSound key_bits ranks o.total_cardinality e × (rank_end key_bits ranks e ≤ size)
  rank_part false h fits = (tt, omega arith)
  rank_part true h fits =
      let (firsts, past) =
        or_false
          (not (e.base == o.total_cardinality) || not (frozen_ranked_counts_match key_bits e))
          (ltb size (rank_end key_bits true e)) h in
      let (base, matched) =
        or_false (not (e.base == o.total_cardinality)) (not (frozen_ranked_counts_match key_bits e))
          firsts in
      (
        (
          no_ne e.base o.total_cardinality base,
          not-false (frozen_ranked_counts_match key_bits e) matched,
        ),
        no_lt size (rank_end key_bits true e) past,
      )

  -- What an entry without a fault satisfies.
  abbrev EntrySound : Bool → Type 0
  EntrySound ranks =
      (o.least_chunk ≤ e.chunk)
      × (e.chunk ≤ chunk_mod key_bits - 1)
      × (0 < frozen_payload_alignment key_bits e.container_kind)
      × (e.payload_offset % frozen_payload_alignment key_bits e.container_kind ≡ 0)
      × (o.payload_floor ≤ e.payload_offset)
      × (rank_end key_bits ranks e ≤ size)
      × (e.payload_bytes ≡ frozen_expected_payload_bytes key_bits e.container_kind e.payload_count)
      × RankSound key_bits ranks o.total_cardinality e

  entry_sound : (ranks : Bool) → entry_fault key_bits ranks size o e ≡ false → EntrySound ranks
  unfolding entry_fault
  entry_sound ranks h =
      let (f1, f2, f3, f4, f5, f6, f7, f8, f9) = no_faults _ _ _ _ _ _ _ _ _ h in
      let least = no_lt e.chunk o.least_chunk f1 in
      let narrow = no_lt (chunk_mod key_bits - 1) e.chunk f2 in
      let inside = no_lt size e.payload_offset f6 in
      let room = no_lt (size - e.payload_offset) e.payload_bytes f7 in
      let (rank_data, ends) = rank_part ranks f9 (omega arith) in
      (
        least,
        narrow,
        not_zero (frozen_payload_alignment key_bits e.container_kind) f3,
        no_ne (e.payload_offset % frozen_payload_alignment key_bits e.container_kind) 0 f4,
        no_lt e.payload_offset o.payload_floor f5,
        ends,
        no_ne e.payload_bytes
            (frozen_expected_payload_bytes key_bits e.container_kind e.payload_count) f8,
        rank_data,
      )

pub none-ne-some {ℓ} : {A : Type ℓ} (x : A) {B : Type 0} → none ≡ some x → B
none-ne-some x h = absurd (cc)

-- The loop over the index, from variables in which no cardinality was 0: the entries are sound, and
-- the total is that of their cardinalities.
check_entries-IsSound :
    (key_bits : ℕ) (ranks : Bool) (size n : ℕ) (o o' : Opening) (es : List FrozenChunkIndex)
    → check_entries key_bits ranks size o n es ≡ some o'
    → o'.any_empty ≡ false
    → (o.any_empty ≡ false)
      × (length (take n es) ≡ n)
      × (o'.total_cardinality ≡ o.total_cardinality + cardinalities (take n es))
      × IsSound key_bits ranks size o.payload_floor o.total_cardinality o.least_chunk (take n es)
unfolding check_entries
check_entries-IsSound key_bits ranks size zero o o' es h held =
    let same : o ≡ o' = cc in (ap (λ p. p.any_empty) same ∙ held, refl, rw same (omega arith), tt)
check_entries-IsSound key_bits ranks size (suc n) o o' [] h held = none-ne-some o' h
check_entries-IsSound key_bits ranks size (suc n) o o' (e ∷ es) h held =
    elim (Bool-cases (entry_fault key_bits ranks size o e)) [
      | inl fault ↦ none-ne-some o' (rw fault at h)
      | inr sound ↦
          let h' : check_entries key_bits ranks size (after_entry key_bits ranks o e) n es
              ≡ some o' =
            rw sound at h in
          let (empty, count, sum, rest) =
            check_entries-IsSound key_bits ranks size n (after_entry key_bits ranks o e) o' es h'
              held in
          let (kept, positive) = or_false o.any_empty (e.cardinality == 0) empty in
          let s = entry_sound key_bits size o e ranks sound in
          (
            kept,
            ap suc count,
            omega (arith, sum),
            (s.0, s.1, s.2, s.3, s.4, s.5, s.6, not_zero e.cardinality positive, s.7, rest),
          )
    ]

module _ (key_bits : ℕ) (image : Image) where
  abbrev pub floor : ℕ
  floor = header_bytes + image.header.chunk_count * index_entry_bytes

  abbrev pub ranks : Bool
  ranks = image.header.version == frozen_ranked_format_version

  abbrev checks : Option Opening
  checks =
      check_entries key_bits ranks image.size
        (record {
          payload_floor = floor;
          image_end = floor;
          total_cardinality = 0;
          least_chunk = 0;
          any_empty = false;
        })
        image.header.chunk_count image.index

  abbrev finish : Opening → Option FrozenView
  finish o =
      if o.any_empty || not (o.total_cardinality == image.header.value_count)
      then none
      else some (record {
        header = image.header;
        index = take image.header.chunk_count image.index;
        stores = blocks_inside o.image_end image.stores;
        bytes = o.image_end;
      })

  -- What an accepted image satisfies.
  abbrev pub Accepted : FrozenView → Type 0
  Accepted v =
      (v.header ≡ image.header)
      × (v.index ≡ take image.header.chunk_count image.index)
      × (header_bytes + v.header.chunk_count * index_entry_bytes ≤ image.size)
      × (length v.index ≡ v.header.chunk_count)
      × (cardinalities v.index ≡ v.header.value_count)
      × IsSound key_bits (ranked v) image.size
          (header_bytes + v.header.chunk_count * index_entry_bytes) 0 0 v.index

  accepted :
      (v : FrozenView) (scanned : Option Opening)
      → checks ≡ scanned
      → floor ≤ image.size
      → (scanned >>= finish) ≡ some v
      → Accepted v
  accepted v none e inside h = none-ne-some v h
  accepted v (some o) e inside h =
      elim (Bool-cases (o.any_empty || not (o.total_cardinality == image.header.value_count))) [
        | inl fault ↦ none-ne-some v (rw fault at h)
        | inr good ↦
            let (held, total) =
              or_false o.any_empty (not (o.total_cardinality == image.header.value_count)) good in
            let sum' = no_ne o.total_cardinality image.header.value_count total in
            let (kept, count, sum, sound) =
              check_entries-IsSound key_bits ranks image.size image.header.chunk_count _ o
                image.index e held in
            let same : some _ ≡ some v = rw good at h in
            let this : record {
              header = image.header;
              index = take image.header.chunk_count image.index;
              stores = blocks_inside o.image_end image.stores;
              bytes = o.image_end;
            }
                ≡ v =
              cc in
            subst Accepted this (refl, refl, inside, count, omega arith, sound)
      ]

  header_inside : header_fault key_bits image.size image.header ≡ false → floor ≤ image.size
  unfolding header_fault
  header_inside h = no_lt image.size floor (or_false _ (ltb image.size floor) h).1

-- An opened image has passed the tests.
pub frozen_view_from-Accepted :
    (key_bits : ℕ) (image : Image) (v : FrozenView)
    → frozen_view_from key_bits image ≡ some v
    → Accepted key_bits image v
unfolding frozen_view_from
frozen_view_from-Accepted key_bits image v h =
    elim (Bool-cases (header_fault key_bits image.size image.header)) [
      | inl fault ↦ none-ne-some v (rw fault at h)
      | inr sound ↦
          accepted key_bits image v (checks key_bits image) refl
            (header_inside key_bits image sound) (rw sound at h)
    ]
