-- ===== src/Ranked/Keys.antt =====
-- How many keys of a table are below a key: those of the earlier chunks, and those of its own chunk.
use roaring.Prelude.{
  ℕ, zero, suc, ◌+◌, ◌-◌, ◌*◌, ◌/◌, ◌%◌, ◌≤◌, ◌<◌, ◌≡◌, ◌∙◌, refl, ap, sym, inl, inr, min, Bool,
  false, ◌&&◌, List, [], ◌∷◌, lt→ltb, le→ltb, ◌==◌, arith, order, length, count_below,
  count_below-+, count_below-none, count_below-or,
}
use roaring.Values.{in_values, in_values_before, Ascending}
use roaring.ArrayRef.Rank.{rank}
use roaring.Chunks.{keys_of}
use roaring.Chunks.Entries
use roaring.Containers.{Container}
use roaring.Containers.Dispatch.{in_container}
use roaring.Bitmap.Table.{count, IsHeld, in_table, table_size, IsEntry}
use roaring.Frozen.Index.{before}

-- One chunk, with `m` for its low values.
abbrev in_chunk : ℕ → (ℕ → Bool) → ℕ → Bool
in_chunk key m y = y / 65536 == key && m (y % 65536)

module _ (dom : ℕ) (whole : dom ≡ 65536) where
  count-in_chunk :
      (key : ℕ) (m : ℕ → Bool) (x : ℕ)
      → count_below x (in_chunk key m) ≡ count_below (min (x - key * 65536) dom) m
  count-in_chunk key m zero = let e : min (0 - key * 65536) dom ≡ 0 = omega arith in rw e refl
  count-in_chunk key m (suc x) = elim (order x (key * 65536)) [
    | inl early ↦
        let e : min (suc x - key * 65536) dom ≡ 0 = omega arith in
        let e' : min (x - key * 65536) dom ≡ 0 = omega arith in
        let ih = rw e' at (count-in_chunk key m x) in rw e (ground (arith, ih))
    | inr from ↦ elim (order (x - key * 65536) dom) [
      | inl inside ↦
          let low = x - key * 65536 in
          let e : min (suc x - key * 65536) dom ≡ suc low = omega arith in
          let e' : min (x - key * 65536) dom ≡ low = omega arith in
          let ih = rw e' at (count-in_chunk key m x) in
          let q : x / 65536 ≡ key = omega arith in
          let r : x % 65536 ≡ low = omega arith in rw (e, r) (ground (arith, ih))
      | inr past ↦
          let e : min (suc x - key * 65536) dom ≡ dom = omega arith in
          let e' : min (x - key * 65536) dom ≡ dom = omega arith in
          let ih = rw e' at (count-in_chunk key m x) in rw e (ground (arith, ih))
    ]
  ]

  -- Whether a key is in a table.
  abbrev pub in_keys : List (ℕ × Container) → ℕ → Bool
  in_keys t y = in_table dom t (y / 65536) (y % 65536)

  chunk_apart :
      (key : ℕ) (c : Container) (t : List (ℕ × Container)) (y : ℕ)
      → Ascending (key + 1) (keys_of t)
      → in_chunk key (in_container c) y && in_keys t y ≡ false
  chunk_apart key c t y w =
      let q = y / 65536 in
      let l = y % 65536 in
      let absent = Entries.in_entries_absent in_container (count dom) (IsHeld dom) t q l in
      let early = in_values_before (key + 1) q (keys_of t) w in ground (arith, absent, early)

  count-in_keys :
      (key x : ℕ) (c : Container) (t : List (ℕ × Container))
      → Ascending (key + 1) (keys_of t)
      → count_below x (in_keys ((key, c) ∷ t))
        ≡ count_below (min (x - key * 65536) dom) (in_container c) + count_below x (in_keys t)
  count-in_keys key x c t w =
      count_below-or x (in_chunk key (in_container c)) (in_keys t) (λ y. chunk_apart key c t y w)
      ∙ ap (λ n. n + count_below x (in_keys t)) (count-in_chunk key (in_container c) x)

  module _ (x : ℕ) where
    -- A chunk before the key's own, that chunk, and one past it.
    part_before :
        (key : ℕ) (m : ℕ → Bool)
        → key < x / 65536
        → count_below (min (x - key * 65536) dom) m ≡ count_below dom m
    part_before key m h = ap (λ n. count_below n m) (omega arith)

    part_at :
        (key : ℕ) (m : ℕ → Bool)
        → key ≡ x / 65536
        → count_below (min (x - key * 65536) dom) m ≡ count_below (x % 65536) m
    part_at key m h = ap (λ n. count_below n m) (omega arith)

    part_past :
        (key : ℕ) (m : ℕ → Bool) → x / 65536 < key → count_below (min (x - key * 65536) dom) m ≡ 0
    part_past key m h = let e : min (x - key * 65536) dom ≡ 0 = omega arith in rw e refl

    pub count_past :
        (lo : ℕ) (t : List (ℕ × Container))
        → Ascending lo (keys_of t)
        → x / 65536 < lo
        → count_below x (in_keys t) ≡ 0
    count_past lo [] w h = count_below-none x
    count_past lo ((key, c) ∷ t) w h = omega (
      arith,
      count-in_keys key x c t w.1,
      part_past key (in_container c) (omega arith),
      count_past (key + 1) t w.1 (omega arith),
    )

    -- Of a key whose chunk has no entry.
    pub count_absent :
        (lo : ℕ) (t : List (ℕ × Container))
        → Ascending lo (keys_of t)
        → in_values (keys_of t) (x / 65536) ≡ false
        → count_below x (in_keys t) ≡ before dom t (x / 65536)
    count_absent lo [] w h = count_below-none x
    count_absent lo ((key, c) ∷ t) w h = elim (order key (x / 65536)) [
      | inl earlier ↦
          let off : in_values (keys_of t) (x / 65536) ≡ false = ground arith in
          rw (lt→ltb key (x / 65536) earlier) (
            omega (
              arith,
              count-in_keys key x c t w.1,
              part_before key (in_container c) earlier,
              count_absent (key + 1) t w.1 off,
            ))
      | inr (inl later) ↦ rw (le→ltb key (x / 65536) (omega arith)) (
          omega (
            arith,
            count-in_keys key x c t w.1,
            part_past key (in_container c) later,
            count_past (key + 1) t w.1 (omega arith),
          ))
      | inr (inr same) ↦ absurd (ground arith)
    ]

    -- Of a key whose chunk has one.
    pub count_entry :
        (lo at : ℕ) (h : Container) (t : List (ℕ × Container))
        → Ascending lo (keys_of t)
        → IsEntry dom t at (x / 65536) h
        → (lo ≤ x / 65536)
          × (count_below x (in_keys t)
              ≡ before dom t (x / 65536) + count_below (x % 65536) (in_container h))
    count_entry lo at h [] w e = absurd (omega arith)
    count_entry lo zero h ((key, c) ∷ t) w (e, e') = (
      omega arith,
      rw (le→ltb key (x / 65536) (omega arith), e')
          (omega (
            arith,
            count-in_keys key x c t w.1,
            part_at key (in_container c) (sym e),
            count_past (key + 1) t w.1 (omega arith),
          )),
    )
    count_entry lo (suc at) h ((key, c) ∷ t) w e =
        let (later, same) = count_entry (key + 1) at h t w.1 e in
        (
          omega arith,
          rw (lt→ltb key (x / 65536) (omega arith)) (
              omega (
                arith,
                count-in_keys key x c t w.1,
                part_before key (in_container c) (omega arith),
                same,
              )),
        )

pub before-le : (dom q : ℕ) (t : List (ℕ × Container)) → before dom t q ≤ table_size dom t
before-le dom q [] = omega arith
before-le dom q ((key, c) ∷ t) = ground (arith, before-le dom q t)

-- The chunks before a position, by the place of a key among them.
pub before_none :
    (dom q : ℕ) (t : List (ℕ × Container)) → rank (keys_of t) q ≡ 0 → before dom t q ≡ 0
before_none dom q [] h = refl
before_none dom q ((key, c) ∷ t) h = ground arith

pub before_all :
    (dom q : ℕ) (t : List (ℕ × Container))
    → rank (keys_of t) q ≡ length t
    → before dom t q ≡ table_size dom t
before_all dom q [] h = refl
before_all dom q ((key, c) ∷ t) h = ground (arith, before_all dom q t)

pub before_at :
    (dom lo q at key : ℕ) (h : Container) (t : List (ℕ × Container))
    → Ascending lo (keys_of t)
    → IsEntry dom t at key h
    → rank (keys_of t) q ≡ at
    → (lo ≤ key) × (before dom t key ≡ before dom t q)
before_at dom lo q at key h [] w e r = absurd (omega arith)
before_at dom lo q zero key h ((k, c) ∷ t) w (e, e') r = (omega arith, ground arith)
before_at dom lo q (suc at) key h ((k, c) ∷ t) w e r = elim (order k q) [
  | inr later ↦ absurd (ground arith)
  | inl earlier ↦
      let up : rank (keys_of t) q ≡ at = ground arith in
      let (later, same) = before_at dom (k + 1) q at key h t w.1 e up in
      (omega arith, rw (lt→ltb k q earlier, lt→ltb k key (omega arith)) (omega (arith, same)))
]

-- The values up to a place in a chunk are some of all.
pub count_below_mono : (m n : ℕ) (p : ℕ → Bool) → m ≤ n → count_below m p ≤ count_below n p
count_below_mono m n p h =
    let whole : m + (n - m) ≡ n = omega arith in
    let parts : count_below n p ≡ _ = rw whole at (count_below-+ m (n - m) p) in omega arith

pub before_entry-le :
    (dom at q : ℕ) (h : Container) (t : List (ℕ × Container))
    → IsEntry dom t at q h
    → before dom t q + count dom h ≤ table_size dom t
before_entry-le dom at q h [] e = absurd (omega arith)
before_entry-le dom zero q h ((k, c) ∷ t) (e, e') = rw (le→ltb k q (omega arith), e') (omega arith)
before_entry-le dom (suc at) q h ((k, c) ∷ t) e = ground (arith, before_entry-le dom at q h t e)
