-- ===== src/Bitmap/Table.antt =====
-- When a bitmap is well formed, which keys it holds, and where a chunk has its place in the table.
use roaring.Prelude.{
  ℕ, suc, ◌%◌, ◌/◌, ◌^◌, ◌<◌, ◌≡◌, ◌∙◌, ◌⊎◌, refl, sym, ap, inl, inr, Bool, true, false, List, [],
  ◌∷◌, some, lt→ltb, le→ltb, lt→==, gt→==, eq→==, arith, order, length, get_elem?, count_below,
}
use roaring.Values.{in_values, Ascending}
use roaring.ArrayRef.Rank.{rank, rank-le-length, rank-IsSplit, in_values-rank, in_values_past}
use roaring.Layout.{low_domain_size}
use roaring.Chunks.{keys_of, insert}
use roaring.Chunks.Find.{lower_bound_lem}
use roaring.Chunks.Entries
use roaring.Containers.{Container, empty_container}
use roaring.Containers.Dispatch.{in_container}
use roaring.Containers.Dispatch
use roaring.Bitmap.{Bitmap, place_chunk, place_before}

abbrev pub count : ℕ → Container → ℕ
count dom c = count_below dom (in_container c)

-- A container of a table: well formed, and not empty.
abbrev pub IsHeld : ℕ → Container → Type 0
IsHeld dom c = Dispatch.IsValid dom c × (0 < count dom c)

abbrev pub in_table : ℕ → List (ℕ × Container) → ℕ → ℕ → Bool
in_table dom = Entries.in_entries in_container (count dom) (IsHeld dom)

abbrev pub table_size : ℕ → List (ℕ × Container) → ℕ
table_size dom = Entries.total in_container (count dom) (IsHeld dom)

abbrev pub AllHeld : ℕ → List (ℕ × Container) → Type 0
AllHeld dom = Entries.AllOk in_container (count dom) (IsHeld dom)

abbrev pub IsEntry : ℕ → List (ℕ × Container) → ℕ → ℕ → Container → Type 0
IsEntry dom = Entries.IsEntry in_container (count dom) (IsHeld dom)

-- Whether a key is in the bitmap.
abbrev pub in_bitmap : ℕ → Bitmap → ℕ → Bool
in_bitmap key_bits b value =
    in_table (low_domain_size key_bits) b.chunks (value / low_domain_size key_bits)
      (value % low_domain_size key_bits)

-- The chunks in order, each with a well formed container that is not empty, and the number of keys.
pub record IsValid (key_bits : ℕ) (b : Bitmap) : Type 0 where
  pub ordered : Ascending 0 (keys_of b.chunks)
  pub held : AllHeld (low_domain_size key_bits) b.chunks
  pub counted : b.size ≡ table_size (low_domain_size key_bits) b.chunks % 2 ^ 64

-- What `place_chunk` promises: the chunk's own entry, or a new empty one in its place.
abbrev pub Placed : ℕ → List (ℕ × Container) → ℕ → List (ℕ × Container) × ℕ → Type 0
Placed dom t q r =
    (c : Container) × (get_elem? r.0 r.1 ≡ some (q, c))
    × (((r.0 ≡ t) × IsEntry dom t r.1 q c)
        ⊎ ((in_values (keys_of t) q ≡ false)
            × (c ≡ empty_container)
            × (r.1 ≡ rank (keys_of t) q)
            × (r.0 ≡ insert t r.1 q empty_container)))

module _ (dom : ℕ) (t : List (ℕ × Container)) (q : ℕ) (ascends : Ascending 0 (keys_of t)) where
  n : length (keys_of t) ≡ length t
  n = Entries.length-keys_of in_container (count dom) (IsHeld dom) t

  placed_there : (at x : ℕ) → get_elem? (keys_of t) at ≡ some x → x ≡ q → Placed dom t q (t, at)
  placed_there at x e same =
      let e' : get_elem? (keys_of t) at ≡ some q = e ∙ ap some same in
      let (c, there, got) = Entries.there-IsEntry in_container (count dom) (IsHeld dom) t at q e' in
      (c, got, inl (refl, there))

  new :
      (at : ℕ)
      → in_values (keys_of t) q ≡ false
      → at ≡ rank (keys_of t) q
      → Placed dom t q (insert t at q empty_container, at)
  new at absent same =
      let (there, set) =
        Entries.set_slot-insert in_container (count dom) (IsHeld dom) t at q empty_container
          empty_container (omega (arith, rank-le-length (keys_of t) q, n)) in
      (
        empty_container,
        Entries.entry_get in_container (count dom) (IsHeld dom) (insert t at q empty_container) at q
            empty_container there,
        inr (absent, refl, same, refl),
      )

  place_before_lem :
      rank (keys_of t) q < length (keys_of t)
      → (r : List (ℕ × Container) × ℕ) × (place_before t q ≡ some r) × Placed dom t q r
  unfolding place_before
  place_before_lem h =
      let (x, e, test) = rank-IsSplit 0 q (keys_of t) ascends (rank (keys_of t) q) h in
      let at = lower_bound_lem (keys_of t) q ascends in
      let found = in_values-rank 0 q x (keys_of t) ascends e in
      elim (order x q) [
        | inl less ↦ (_, rw (at, e, lt→== x q less) refl, new _ (ground (arith, found)) refl)
        | inr (inl more) ↦ (_, rw (at, e, gt→== x q more) refl, new _ (ground (arith, found)) refl)
        | inr (inr same) ↦ (_, rw (at, e, eq→== x q (sym same)) refl, placed_there _ x e (sym same))
      ]

pub place_lem :
    (dom : ℕ) (t : List (ℕ × Container)) (q : ℕ)
    → Ascending 0 (keys_of t)
    → (r : List (ℕ × Container) × ℕ) × (place_chunk t q ≡ some r) × Placed dom t q r
unfolding place_chunk
place_lem dom [] q w =
    let back =
      Entries.push_back-insert in_container (count dom) (IsHeld dom) [] q empty_container in
    ((insert [] 0 q empty_container, 0), rw back refl, new dom [] q w 0 refl refl)
place_lem dom (first ∷ rest) q w =
    let t : List (ℕ × Container) = first ∷ rest in
    let m = n dom t q w in
    let (x, e, test) = rank-IsSplit 0 q (keys_of t) w (length rest) (omega (arith, m)) in
    let most = rank-le-length (keys_of t) q in
    elim (order q x) [
      | inr (inr same) ↦ (
        (t, length rest),
        rw (e, eq→== q x (sym same)) refl,
        placed_there dom t q w (length rest) x e same,
      )
      | inr (inl above) ↦
          let last : rank (keys_of t) q ≡ suc (length rest) = ground (arith, test, most, m) in
          let back =
            Entries.push_back-insert in_container (count dom) (IsHeld dom) t q empty_container in
          (
            (insert t (suc (length rest)) q empty_container, suc (length rest)),
            rw (e, gt→== q x above, lt→ltb x q above, back) refl,
            new dom t q w (suc (length rest)) (in_values_past q (keys_of t) (last ∙ sym m))
                (sym last),
          )
      | inl below ↦
          let (r, p, placed) = place_before_lem dom t q w (ground (arith, test, most, m)) in
          (r, rw (e, lt→== q x below, le→ltb x q (omega arith)) p, placed)
    ]

-- The entry of a chunk that has one.
pub found-IsEntry :
    (dom : ℕ) (t : List (ℕ × Container)) (q : ℕ)
    → Ascending 0 (keys_of t)
    → in_values (keys_of t) q ≡ true
    → (c : Container) × IsEntry dom t (rank (keys_of t) q) q c
      × (get_elem? t (rank (keys_of t) q) ≡ some (q, c))
      × (rank (keys_of t) q < length t)
found-IsEntry dom t q w on = elim (order (rank (keys_of t) q) (length (keys_of t))) [
  | inr past ↦
      let most = rank-le-length (keys_of t) q in
      let off = in_values_past q (keys_of t) (omega arith) in absurd (ground (arith, off, on))
  | inl inside ↦
      let (x, e, test) = rank-IsSplit 0 q (keys_of t) w (rank (keys_of t) q) inside in
      let same : x ≡ q = ground (arith, in_values-rank 0 q x (keys_of t) w e, on) in
      let (c, there, got) =
        Entries.there-IsEntry in_container (count dom) (IsHeld dom) t (rank (keys_of t) q) q
          (e ∙ ap some same) in
      (c, there, got, omega (arith, n dom t q w))
]
