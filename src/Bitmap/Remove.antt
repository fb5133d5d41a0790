-- ===== src/Bitmap/Remove.antt =====
-- What `remove` does to a bitmap.
use roaring.Prelude.{
  ℕ, ◌+◌, ◌-◌, ◌%◌, ◌/◌, ◌^◌, ◌<◌, ◌≡◌, ◌∙◌, refl, sym, ap, inl, inr, Bool, true, false, not, ◌&&◌,
  List, some, ◌==◌, lt→==, gt→==, eq→==, if◌then◌else◌, arith, order, Bool-cases, length, get_elem?,
  delete_absent,
}
use roaring.Values.{in_values}
use roaring.ArrayRef.Rank.{rank, rank-le-length, rank-IsSplit, in_values-rank}
use roaring.Layout.{low_domain_size}
use roaring.Layout.Fields.{IsKeyWidth, IsNarrow, IsNarrow→IsKeyWidth, low_key-%, chunk_key-/}
use roaring.Chunks.{keys_of, erase, set_slot, lower_bound}
use roaring.Chunks.Find.{lower_bound_lem}
use roaring.Chunks.Entries
use roaring.Containers.{Container, container_remove, container_size}
use roaring.Containers.Dispatch.{in_container, container_remove_lem}
use roaring.Bitmap.{Bitmap, remove}
use roaring.Bitmap.Table.{count, IsHeld, table_size, IsEntry, in_bitmap, IsValid, found-IsEntry}
use roaring.Bitmap.Points.{domain_bounds}
use roaring.Bitmap.Grow.{same_key}
use roaring.Bitmap.Shrink.{Drops, here, fewer, Drops-kept, Drops-erased}

module _ (key_bits : ℕ) (b : Bitmap) (value : ℕ) (narrow : IsNarrow key_bits)
    (valid : IsValid key_bits b) (h : value < 2 ^ key_bits) where
  width : IsKeyWidth key_bits
  width = IsNarrow→IsKeyWidth key_bits narrow

  abbrev dom : ℕ
  dom = low_domain_size key_bits

  abbrev q : ℕ
  q = value / dom

  abbrev low : ℕ
  low = value % dom

  in_dropped :
      (t' : List (ℕ × Container)) (size v : ℕ)
      → Drops dom b.chunks q low t'
      → in_bitmap key_bits (record { chunks = t'; size = size }) v
        ≡ (in_bitmap key_bits b v && not (v == value))
  in_dropped t' size v (asc, held, n, mem) =
      let (small, whole, positive) = domain_bounds key_bits width in
      mem (v / dom) (v % dom) (omega arith)
      ∙ ap (λ x. in_bitmap key_bits b v && not x) (same_key dom value v positive)

  one_less :
      (n n' size : ℕ)
      → n' + 1 ≡ n
      → size ≡ n % 2 ^ 64
      → (size + (2 ^ 64 - 1)) % 2 ^ 64 ≡ n' % 2 ^ 64
  one_less n n' size e s = omega arith

  -- The chunk is missing.
  absent_lem : in_values (keys_of b.chunks) q ≡ false → remove key_bits b value ≡ some (b, false)
  unfolding remove
  absent_lem off =
      let at = lower_bound_lem (keys_of b.chunks) q valid.ordered in
      let n = Entries.length-keys_of in_container (count dom) (IsHeld dom) b.chunks in
      elim (order (rank (keys_of b.chunks) q) (length (keys_of b.chunks))) [
        | inr past ↦
            let most = rank-le-length (keys_of b.chunks) q in
            rw
              (
                chunk_key-/ key_bits value width h,
                at,
                eq→== (rank (keys_of b.chunks) q) (length b.chunks) (omega (arith, n)),
              )
              refl
        | inl inside ↦
            let (x, e, test) =
              rank-IsSplit 0 q (keys_of b.chunks) valid.ordered (rank (keys_of b.chunks) q)
                inside in
            let (c, there, got) =
              Entries.there-IsEntry in_container (count dom) (IsHeld dom) b.chunks _ x e in
            let other : (x == q) ≡ false =
              sym (in_values-rank 0 q x (keys_of b.chunks) valid.ordered e) ∙ off in
            rw
              (
                chunk_key-/ key_bits value width h,
                at,
                lt→== (rank (keys_of b.chunks) q) (length b.chunks) (omega (arith, n)),
                got,
                other,
              )
              refl
      ]

  module _ (c c' : Container) (at : ℕ) (at_e : lower_bound (keys_of b.chunks) q ≡ some at)
      (inside : at < length b.chunks) (got : get_elem? b.chunks at ≡ some (q, c)) where
    remove-known :
        container_remove dom c low ≡ some (c', false)
        → remove key_bits b value
          ≡ some (record { chunks = set_slot b.chunks at c'; size = b.size }, false)
    unfolding remove
    remove-known e =
        rw
          (
            chunk_key-/ key_bits value width h,
            low_key-% key_bits value width,
            at_e,
            lt→== at (length b.chunks) inside,
            got,
            eq→== q q refl,
            e,
          )
          refl

    remove-gone :
        (left : ℕ)
        → container_remove dom c low ≡ some (c', true)
        → container_size c' ≡ some left
        → remove key_bits b value
          ≡ some (
            record {
              chunks =
                  if left == 0 then erase (set_slot b.chunks at c') at else set_slot b.chunks at c';
              size = (b.size + (2 ^ 64 - 1)) % 2 ^ 64;
            },
            true,
          )
    unfolding remove
    remove-gone left e e' =
        rw
          (
            chunk_key-/ key_bits value width h,
            low_key-% key_bits value width,
            at_e,
            lt→== at (length b.chunks) inside,
            got,
            eq→== q q refl,
            e,
            e',
          )
          refl

  abbrev Removed : Type 0
  Removed =
      (r : Bitmap × Bool) × (remove key_bits b value ≡ some r)
      × IsValid key_bits r.0
      × ((v : ℕ) → in_bitmap key_bits r.0 v ≡ (in_bitmap key_bits b v && not (v == value)))
      × (r.1 ≡ in_bitmap key_bits b value)

  -- The bitmap with a table that has lost the key.
  without :
      (t' : List (ℕ × Container))
      → remove key_bits b value
        ≡ some (record { chunks = t'; size = (b.size + (2 ^ 64 - 1)) % 2 ^ 64 }, true)
      → Drops dom b.chunks q low t'
      → true ≡ in_bitmap key_bits b value
      → Removed
  without t' e drops was = (
    (record { chunks = t'; size = (b.size + (2 ^ 64 - 1)) % 2 ^ 64 }, true),
    e,
    record {
      ordered = drops.0;
      held = drops.1;
      counted =
          one_less (table_size dom b.chunks) (table_size dom t') b.size
            (ground (arith, drops.2, was)) valid.counted;
    },
    λ v. in_dropped t' 0 v drops,
    was,
  )

  -- The chunk has an entry.
  present :
      (at : ℕ) (c : Container)
      → lower_bound (keys_of b.chunks) q ≡ some at
      → at < length b.chunks
      → get_elem? b.chunks at ≡ some (q, c)
      → IsEntry dom b.chunks at q c
      → Removed
  present at c at_e inside got there =
      let (small, whole, positive) = domain_bounds key_bits width in
      let in_domain : low < dom = omega arith in
      let old =
        Entries.entry_ok in_container (count dom) (IsHeld dom) b.chunks at q c valid.held there in
      let ((c', removed), e, ok, same, flag, sized) =
        container_remove_lem dom small c low old.0 in_domain in
      let less =
        fewer dom b.chunks q low at c c' valid.ordered valid.held in_domain there ok same in
      let now =
        here dom b.chunks q low at c c' valid.ordered valid.held in_domain there ok same low in
      elim (Bool-cases removed) [
        | inr known ↦
            let drops =
              Drops-kept dom b.chunks q low at c c' valid.ordered valid.held in_domain there ok same
                (ground (arith, less, old.1, flag, known)) in
            (
              (record { chunks = set_slot b.chunks at c'; size = b.size }, false),
              remove-known c c' at at_e inside got (e ∙ ap (λ x. some (c', x)) known),
              record {
                ordered = drops.0;
                held = drops.1;
                counted = ground (arith, drops.2, now, flag, known, valid.counted);
              },
              λ v. in_dropped (set_slot b.chunks at c') 0 v drops,
              sym known ∙ flag ∙ sym now,
            )
        | inl gone ↦
            let there_e = e ∙ ap (λ x. some (c', x)) gone in
            let run = remove-gone c c' at at_e inside got (count dom c') there_e (sized gone) in
            elim (order (count dom c') 0) [
              | inl below ↦ absurd (omega arith)
              | inr (inl some_left) ↦
                  let drops =
                    Drops-kept dom b.chunks q low at c c' valid.ordered valid.held in_domain there
                      ok same some_left in
                  without (set_slot b.chunks at c') (rw (gt→== (count dom c') 0 some_left) at run)
                    drops (sym gone ∙ flag ∙ sym now)
              | inr (inr none_left) ↦
                  let on : in_container c low ≡ true = sym flag ∙ gone in
                  let drops =
                    Drops-erased dom b.chunks q low at c c' valid.ordered valid.held in_domain there
                      ok same on (sym none_left) in
                  without (erase (set_slot b.chunks at c') at)
                    (rw (eq→== (count dom c') 0 (sym none_left)) at run) drops
                    (sym gone ∙ flag ∙ sym now)
            ]
      ]

  -- On a well formed bitmap of keys of at most 32 bits and a key of that width: `remove` ends
  -- without a read out of bounds or a failed assertion, the bitmap stays well formed (no empty
  -- container is left, the size is the number of keys modulo 2^64), it loses exactly the key, and
  -- the result says whether the key was there.
  pub bitmap_remove_lem :
      (r : Bitmap × Bool) × (remove key_bits b value ≡ some r)
      × IsValid key_bits r.0
      × ((v : ℕ) → in_bitmap key_bits r.0 v ≡ (in_bitmap key_bits b v && not (v == value)))
      × (r.1 ≡ in_bitmap key_bits b value)
  bitmap_remove_lem = elim (Bool-cases (in_values (keys_of b.chunks) q)) [
    | inr off ↦
        let clear =
          Entries.in_entries_absent in_container (count dom) (IsHeld dom) b.chunks q low off in
        (
          (b, false),
          absent_lem off,
          valid,
          λ v. delete_absent (in_bitmap key_bits b) value v clear,
          sym clear,
        )
    | inl on ↦
        let (c, there, got, inside) = found-IsEntry dom b.chunks q valid.ordered on in
        present (rank (keys_of b.chunks) q) c (lower_bound_lem (keys_of b.chunks) q valid.ordered)
          inside got there
  ]
