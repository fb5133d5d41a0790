-- ===== src/Bitmap/Grow.antt =====
-- A chunk table with one more value.
use roaring.Prelude.{
  ℕ, ◌+◌, ◌*◌, ◌%◌, ◌/◌, ◌≤◌, ◌<◌, ◌≡◌, ◌∙◌, sym, ap, ap₂, subst, inl, inr, false, not, ◌&&◌, ◌||◌,
  List, ◌==◌, bit, lt→==, gt→==, eq→==, arith, order, Bool-cases, count_below-insert_new,
  count_below-none,
}
use roaring.Values.{in_values, Ascending}
use roaring.ArrayRef.Rank.{rank}
use roaring.ArrayRef.Update.Insert.{insert_at-Ascending}
use roaring.Chunks.{keys_of, insert, set_slot}
use roaring.Chunks.Entries
use roaring.Containers.{Container, empty_container}
use roaring.Containers.Dispatch
use roaring.Containers.Dispatch.{in_container, container_add_lem}
use roaring.Bitmap.Table.{count, IsHeld, in_table, table_size, AllHeld, IsEntry}

-- A table with one more value, unless it was there.
abbrev pub Adds : ℕ → List (ℕ × Container) → ℕ → ℕ → List (ℕ × Container) → Type 0
Adds dom t q low t' =
    Ascending 0 (keys_of t')
    × AllHeld dom t'
    × (table_size dom t' ≡ table_size dom t + bit (not (in_table dom t q low)))
    × ((q' v : ℕ) → in_table dom t' q' v ≡ ((q' == q && v == low) || in_table dom t q' v))

module _ (dom : ℕ) (t : List (ℕ × Container)) (q low : ℕ) (ascends : Ascending 0 (keys_of t))
    (held : AllHeld dom t) (in_domain : low < dom) where
  -- The chunk's container replaced by one with the value.
  pub Adds-kept :
      (at : ℕ) (c p : Container)
      → IsEntry dom t at q c
      → Dispatch.IsValid dom p
      → ((v : ℕ) → in_container p v ≡ (v == low || in_container c v))
      → Adds dom t q low (set_slot t at p)
  Adds-kept at c p there ok same =
      let old = Entries.entry_ok in_container (count dom) (IsHeld dom) t at q c held there in
      let n = count_below-insert_new dom low (in_container c) (in_container p) in_domain same in
      let sizes = Entries.total-set_slot in_container (count dom) (IsHeld dom) t at q c p there in
      let here : (v : ℕ) → in_table dom t q v ≡ in_container c v = λ v.
        (Entries.in_entries_at in_container (count dom) (IsHeld dom) 0 t at q c v ascends
          there).1 in
      (
        subst (Ascending 0)
            (sym (Entries.keys_of-set_slot in_container (count dom) (IsHeld dom) t at p)) ascends,
        Entries.AllOk-set_slot in_container (count dom) (IsHeld dom) t at p held
            (ok, omega (arith, n, old.1)),
        omega (arith, n, sizes, ap (λ b. bit (not b)) (here low)),
        λ q' v.
            let set =
              Entries.in_entries-set_slot in_container (count dom) (IsHeld dom) 0 t at q c p q' v
                ascends there in
            elim (order q' q) [
              | inl less ↦ set ∙ ground arith
              | inr (inl more) ↦ set ∙ ground arith
              | inr (inr at_q) ↦
                  let here' : in_table dom t q' v ≡ in_container c v = rw (sym at_q) (here v) in
                  set ∙ ground (arith, same v, here', at_q)
            ],
      )

  -- A new chunk with the one value.
  pub Adds-new :
      (p : Container)
      → in_values (keys_of t) q ≡ false
      → Dispatch.IsValid dom p
      → ((v : ℕ) → in_container p v ≡ (v == low || in_container empty_container v))
      → Adds dom t q low (insert t (rank (keys_of t) q) q p)
  Adds-new p absent ok same =
      let n = count_below-insert_new dom low (λ v. false) (in_container p) in_domain same in
      let one : count dom p ≡ 1 = omega (arith, n, count_below-none dom) in
      let clear =
        λ (v : ℕ). Entries.in_entries_absent in_container (count dom) (IsHeld dom) t q v absent in
      let (all_held, sizes, mem) =
        Entries.insert_entries in_container (count dom) (IsHeld dom) t (rank (keys_of t) q) q p held
          (ok, omega arith) in
      (
        subst (Ascending 0)
            (sym (
              Entries.keys_of-insert in_container (count dom) (IsHeld dom) t (rank (keys_of t) q) q
                p))
            (insert_at-Ascending 0 q (keys_of t) (omega arith) ascends absent),
        all_held,
        omega (arith, sizes, one, ap (λ b. bit (not b)) (clear low)),
        λ q' v. mem q' v ∙ ground (arith, same v),
      )

-- The place of a key is its own.
pub same_key :
    (dom value v : ℕ) → 1 ≤ dom → (v / dom == value / dom && v % dom == value % dom) ≡ (v == value)
same_key dom value v h = elim (Bool-cases (v / dom == value / dom && v % dom == value % dom)) [
  | inl both ↦
      let e : v / dom * dom + v % dom ≡ v = omega arith in
      let e' : value / dom * dom + value % dom ≡ value = omega arith in
      let chunk : v / dom ≡ value / dom = ground (arith, both) in
      let low : v % dom ≡ value % dom = ground (arith, both) in
      let same : v ≡ value = sym e ∙ ap₂ (λ a b. a * dom + b) chunk low ∙ e' in
      both ∙ sym (eq→== v value same)
  | inr apart ↦ apart ∙ elim (order v value) [
    | inl less ↦ sym (lt→== v value less)
    | inr (inl more) ↦ sym (gt→== v value more)
    | inr (inr e) ↦ let apart' = rw e at apart in absurd (ground (arith, apart'))
  ]
]
