-- ===== src/Bitmap/Shrink.antt =====
-- A chunk table with one value less.
use roaring.Prelude.{
  ℕ, ◌+◌, ◌<◌, ◌≡◌, ◌∙◌, sym, ap, subst, inl, inr, true, not, ◌&&◌, List, ◌==◌, bit, arith, order,
  count_below-delete_old,
}
use roaring.Values.{Ascending}
use roaring.ArrayRef.Update.Insert.{remove_at-Ascending}
use roaring.Chunks.{keys_of, erase, set_slot}
use roaring.Chunks.Entries
use roaring.Containers.{Container}
use roaring.Containers.Dispatch
use roaring.Containers.Dispatch.{in_container, container_remove_lem}
use roaring.Bitset.Ends.{none_below}
use roaring.Bitmap.Table.{count, IsHeld, in_table, table_size, AllHeld, IsEntry}

-- A table with one value less, if it was there.
abbrev pub Drops : ℕ → List (ℕ × Container) → ℕ → ℕ → List (ℕ × Container) → Type 0
Drops dom t q low t' =
    Ascending 0 (keys_of t')
    × AllHeld dom t'
    × (table_size dom t' + bit (in_table dom t q low) ≡ table_size dom t)
    × ((q' v : ℕ)
        → v < dom
        → in_table dom t' q' v ≡ (in_table dom t q' v && not (q' == q && v == low)))

module _ (dom : ℕ) (t : List (ℕ × Container)) (q low at : ℕ) (c p : Container)
    (ascends : Ascending 0 (keys_of t)) (held : AllHeld dom t) (in_domain : low < dom)
    (there : IsEntry dom t at q c) (ok : Dispatch.IsValid dom p)
    (same : (v : ℕ) → in_container p v ≡ (in_container c v && not (v == low))) where
  pub here : (v : ℕ) → in_table dom t q v ≡ in_container c v
  here v =
      (Entries.in_entries_at in_container (count dom) (IsHeld dom) 0 t at q c v ascends there).1

  pub fewer : count dom p + bit (in_container c low) ≡ count dom c
  fewer = count_below-delete_old dom low (in_container c) (in_container p) in_domain same

  -- The chunk's container replaced by one without the value.
  pub Drops-kept : 0 < count dom p → Drops dom t q low (set_slot t at p)
  Drops-kept some_left =
      let sizes = Entries.total-set_slot in_container (count dom) (IsHeld dom) t at q c p there in
      (
        subst (Ascending 0)
            (sym (Entries.keys_of-set_slot in_container (count dom) (IsHeld dom) t at p)) ascends,
        Entries.AllOk-set_slot in_container (count dom) (IsHeld dom) t at p held (ok, some_left),
        omega (arith, fewer, sizes, ap bit (here low)),
        λ q' v h.
            let set =
              Entries.in_entries-set_slot in_container (count dom) (IsHeld dom) 0 t at q c p q' v
                ascends there in
            elim (order q' q) [
              | inl less ↦ set ∙ ground arith
              | inr (inl more) ↦ set ∙ ground arith
              | inr (inr at_q) ↦
                  let here' : in_table dom t q' v ≡ in_container c v = rw (sym at_q) (here v) in
                  set ∙ ground (arith, same v, here', at_q)
            ],
      )

  -- The chunk taken out with its last value.
  pub Drops-erased :
      in_container c low ≡ true → count dom p ≡ 0 → Drops dom t q low (erase (set_slot t at p) at)
  Drops-erased on none_left =
      let (all_held, sizes, mem) =
        Entries.erase_entries in_container (count dom) (IsHeld dom) 0 t at q c ascends held there in
      subst (Drops dom t q low)
        (sym (Entries.erase-set_slot in_container (count dom) (IsHeld dom) t at p))
        (
          subst (Ascending 0)
              (sym (Entries.keys_of-erase in_container (count dom) (IsHeld dom) t at))
              (remove_at-Ascending 0 at (keys_of t) ascends),
          all_held,
          omega (arith, sizes, fewer, none_left, ap bit on, ap bit (here low)),
          λ q' v h. elim (order q' q) [
            | inl less ↦ mem q' v ∙ ground arith
            | inr (inl more) ↦ mem q' v ∙ ground arith
            | inr (inr at_q) ↦
                let here' : in_table dom t q' v ≡ in_container c v = rw (sym at_q) (here v) in
                let gone = none_below dom (in_container p) none_left v h in
                mem q' v ∙ ground (arith, same v, here', gone, at_q)
          ],
        )
