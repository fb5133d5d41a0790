-- ===== src/Bitmap/Add.antt =====
-- What `add_impl` does to a bitmap.
use roaring.Prelude.{
  ℕ, ◌+◌, ◌%◌, ◌/◌, ◌^◌, ◌<◌, ◌≡◌, ◌∙◌, refl, sym, ap, subst, inl, inr, Bool, true, false, not,
  ◌||◌, List, some, ◌==◌, arith, Bool-cases, get_elem?,
}
use roaring.ArrayRef.Rank.{rank, rank-le-length}
use roaring.Layout.{low_domain_size}
use roaring.Layout.Fields.{IsKeyWidth, IsNarrow, IsNarrow→IsKeyWidth, low_key-%, chunk_key-/}
use roaring.Chunks.{keys_of, insert, set_slot}
use roaring.Chunks.Entries
use roaring.Containers.{Container, empty_container, container_add, promote_if_needed}
use roaring.Containers.Dispatch
use roaring.Containers.Dispatch.{in_container, container_add_lem}
use roaring.Containers.Promote.{promote_if_needed_lem}
use roaring.Bitmap.{Bitmap, place_chunk, add_impl}
use roaring.Bitmap.Table.{count, IsHeld, in_table, in_bitmap, IsValid, place_lem}
use roaring.Bitmap.Points.{domain_bounds}
use roaring.Bitmap.Grow.{Adds, Adds-kept, Adds-new, same_key}

module _ (key_bits : ℕ) (has_room : Container → Bool) (b : Bitmap) (value : ℕ)
    (narrow : IsNarrow key_bits) (valid : IsValid key_bits b) (h : value < 2 ^ key_bits) where
  width : IsKeyWidth key_bits
  width = IsNarrow→IsKeyWidth key_bits narrow

  abbrev dom : ℕ
  dom = low_domain_size key_bits

  abbrev q : ℕ
  q = value / dom

  abbrev low : ℕ
  low = value % dom

  abbrev Added : Type 0
  Added =
      (r : Bitmap × Bool) × (add_impl key_bits has_room b value ≡ some r)
      × IsValid key_bits r.0
      × ((v : ℕ) → in_bitmap key_bits r.0 v ≡ (v == value || in_bitmap key_bits b v))
      × (r.1 ≡ not (in_bitmap key_bits b value))

  -- The key in the bitmap that the changed table makes.
  in_added :
      (t' : List (ℕ × Container)) (size v : ℕ)
      → Adds dom b.chunks q low t'
      → in_bitmap key_bits (record { chunks = t'; size = size }) v
        ≡ (v == value || in_bitmap key_bits b v)
  in_added t' size v (asc, held, n, mem) =
      mem (v / dom) (v % dom)
      ∙ ap (λ x. x || in_bitmap key_bits b v)
          (same_key dom value v (domain_bounds key_bits width).2)

  -- The two ends of the function.
  add_impl-fresh :
      (t' : List (ℕ × Container)) (at : ℕ) (c c' p : Container)
      → place_chunk b.chunks q ≡ some (t', at)
      → get_elem? t' at ≡ some (q, c)
      → container_add (has_room c) c low ≡ some (c', true)
      → promote_if_needed dom c' ≡ some p
      → add_impl key_bits has_room b value
        ≡ some (record { chunks = set_slot t' at p; size = (b.size + 1) % 2 ^ 64 }, true)
  unfolding add_impl
  add_impl-fresh t' at c c' p e got add_e promote_e =
      rw
        (
          chunk_key-/ key_bits value width h,
          low_key-% key_bits value width,
          e,
          got,
          add_e,
          promote_e,
        )
        refl

  add_impl-known :
      (t' : List (ℕ × Container)) (at : ℕ) (c c' : Container)
      → place_chunk b.chunks q ≡ some (t', at)
      → get_elem? t' at ≡ some (q, c)
      → container_add (has_room c) c low ≡ some (c', false)
      → add_impl key_bits has_room b value
        ≡ some (record { chunks = set_slot t' at c'; size = b.size }, false)
  unfolding add_impl
  add_impl-known t' at c c' e got add_e =
      rw (chunk_key-/ key_bits value width h, low_key-% key_bits value width, e, got, add_e) refl

  -- The container of the chunk, once the chunk is in the table.
  add_at :
      (t' : List (ℕ × Container)) (at : ℕ) (c : Container)
      → place_chunk b.chunks q ≡ some (t', at)
      → get_elem? t' at ≡ some (q, c)
      → Dispatch.IsValid dom c
      → in_table dom b.chunks q low ≡ in_container c low
      → ((p : Container)
          → Dispatch.IsValid dom p
          → ((v : ℕ) → in_container p v ≡ (v == low || in_container c v))
          → Adds dom b.chunks q low (set_slot t' at p))
      → Added
  add_at t' at c e got ok here build =
      let (small, whole, positive) = domain_bounds key_bits width in
      let ((c', added), add_e, ok', same, flag) =
        container_add_lem dom small (has_room c) c low ok (omega arith) in
      let (p, promote_e, ok_p, same_p) = promote_if_needed_lem dom small whole c' ok' in
      elim (Bool-cases added) [
        | inl fresh ↦
            let adds = build p ok_p (λ v. same_p v ∙ same v) in
            (
              (record { chunks = set_slot t' at p; size = (b.size + 1) % 2 ^ 64 }, true),
              add_impl-fresh t' at c c' p e got (add_e ∙ ap (λ x. some (c', x)) fresh) promote_e,
              record {
                ordered = adds.0;
                held = adds.1;
                counted = ground (arith, adds.2, here, flag, fresh, valid.counted);
              },
              λ v. in_added (set_slot t' at p) 0 v adds,
              sym fresh ∙ flag ∙ ap not (sym here),
            )
        | inr known ↦
            let adds = build c' ok' same in
            (
              (record { chunks = set_slot t' at c'; size = b.size }, false),
              add_impl-known t' at c c' e got (add_e ∙ ap (λ x. some (c', x)) known),
              record {
                ordered = adds.0;
                held = adds.1;
                counted = ground (arith, adds.2, here, flag, known, valid.counted);
              },
              λ v. in_added (set_slot t' at c') 0 v adds,
              sym known ∙ flag ∙ ap not (sym here),
            )
      ]

  empty-IsValid : Dispatch.IsValid dom empty_container
  empty-IsValid = record { ordered = tt; within = tt; counted = refl; ends = tt }

  -- On a well formed bitmap of keys of at most 32 bits and a key of that width, whatever room its
  -- arrays have: `add_impl` ends without a read out of bounds, the bitmap stays well formed (chunks
  -- in order, each with a well formed container that is not empty, the size the number of keys
  -- modulo 2^64), it holds the key besides what it held, and the result says whether the key is
  -- new.
  pub bitmap_add_lem :
      (r : Bitmap × Bool) × (add_impl key_bits has_room b value ≡ some r)
      × IsValid key_bits r.0
      × ((v : ℕ) → in_bitmap key_bits r.0 v ≡ (v == value || in_bitmap key_bits b v))
      × (r.1 ≡ not (in_bitmap key_bits b value))
  bitmap_add_lem =
      let (r, e, placed) = place_lem dom b.chunks q valid.ordered in
      let (small, whole, positive) = domain_bounds key_bits width in
      let in_domain : low < dom = omega arith in
      let (c, got, which) = placed in
      elim which [
        | inl (same, there) ↦
            add_at r.0 r.1 c e got
              (Entries.entry_ok in_container (count dom) (IsHeld dom) b.chunks r.1 q c valid.held
                there).0
              (Entries.in_entries_at in_container (count dom) (IsHeld dom) 0 b.chunks r.1 q c low
                valid.ordered there).1
              (λ p ok mem.
                subst (λ t. Adds dom b.chunks q low (set_slot t r.1 p)) (sym same)
                  (Adds-kept dom b.chunks q low valid.ordered valid.held in_domain r.1 c p there ok
                    mem))
        | inr (absent, blank, at, same) ↦
            let clear =
              Entries.in_entries_absent in_container (count dom) (IsHeld dom) b.chunks q low
                absent in
            add_at r.0 r.1 c e got (rw blank empty-IsValid)
              (clear ∙ sym (ap (λ x. in_container x low) blank))
              (λ p ok mem.
                let path : set_slot r.0 r.1 p ≡ insert b.chunks (rank (keys_of b.chunks) q) q p =
                  ap (λ t. set_slot t r.1 p) same
                  ∙ (Entries.set_slot-insert in_container (count dom) (IsHeld dom) b.chunks r.1 q
                      empty_container p
                      (omega (
                        arith,
                        at,
                        rank-le-length (keys_of b.chunks) q,
                        Entries.length-keys_of in_container (count dom) (IsHeld dom) b.chunks,
                      ))).1
                  ∙ ap (λ i. insert b.chunks i q p) at in
                subst (Adds dom b.chunks q low) (sym path) (
                  Adds-new dom b.chunks q low valid.ordered valid.held in_domain p absent ok
                    (λ v. mem v ∙ ap (λ x. v == low || in_container x v) blank)))
      ]
