-- ===== src/ArrayRef/Update/Valid.antt =====
-- The updates keep an array container well formed and change the one value.
use roaring.Prelude.{
  ℕ, suc, ◌<◌, ◌≡◌, ◌∙◌, sym, subst, refl, ap, inl, inr, true, false, Bool, Bool-cases, not, ◌&&◌,
  ◌||◌, List, [], ◌∷◌, ◌++◌, Option, none, some, ltb, gt→==, eq→==, ◌==◌, arith, order, length,
  length-append, get_elem?, insert_present, delete_absent,
}
use roaring.Values.{in_values, Ascending, AllBelow}
use roaring.Gallop.{partition_point, partition_point_lem}
use roaring.ArrayRef.Rank.{rank, rank-le-length, rank-IsSplit, in_values-rank, in_values_past}
use roaring.ArrayRef.Update.{
  ArrayContainer, sync_header, appended, alone, above, above_all, or_else, add_out_of_order, add,
  remove,
}
use roaring.ArrayRef.Update.Insert.{
  insert_at, remove_at, in_values-insert_at, insert_at-Ascending, insert_at-AllBelow,
  in_values-remove_at, remove_at-Ascending, remove_at-AllBelow, insert_at-length, get_elem?-last,
  get_elem?-appended,
}

-- The header has the least and the greatest value.
abbrev Ends : List ℕ → ℕ → ℕ → Type 0
Ends [] least greatest = Unit
Ends (x ∷ xs) least greatest = (least ≡ x) × (get_elem? (x ∷ xs) (length xs) ≡ some greatest)

-- The values ascend within the domain, and the header is that of the values.
pub record IsValid (dom : ℕ) (c : ArrayContainer) : Type 0 where
  pub ordered : Ascending 0 c.values
  pub within : AllBelow dom c.values
  pub counted : c.cardinality ≡ length c.values
  pub ends : Ends c.values c.min_value c.max_value

some-or_else : (o : Option ℕ) (y d : ℕ) → o ≡ some y → o ≡ some (or_else o d)
some-or_else none y d h = absurd (ground arith)
some-or_else (some x) y d h = refl

Ends-appended :
    (value least greatest : ℕ) (xs : List ℕ)
    → 0 < length xs
    → Ends xs least greatest
    → Ends (xs ++ (value ∷ [])) least value
Ends-appended value least greatest [] h e = absurd (omega arith)
Ends-appended value least greatest (x ∷ xs) h e =
    let n : suc (length xs) ≡ length (xs ++ (value ∷ [])) =
      omega (arith, length-append xs (value ∷ [])) in
    (
      e.0,
      subst (λ i. get_elem? (x ∷ (xs ++ (value ∷ []))) i ≡ some value) n
          (get_elem?-appended value (x ∷ xs)),
    )

empty_of : (xs : List ℕ) → length xs ≡ 0 → xs ≡ []
empty_of [] h = refl
empty_of (x ∷ xs) h = absurd (omega arith)

pub sync_header-IsValid :
    (dom : ℕ) (c : ArrayContainer) (xs : List ℕ)
    → Ascending 0 xs
    → AllBelow dom xs
    → IsValid dom (sync_header c xs) × ((sync_header c xs).values ≡ xs)
unfolding sync_header
sync_header-IsValid dom c [] w b =
    (record { ordered = w; within = b; counted = refl; ends = tt }, refl)
sync_header-IsValid dom c (x ∷ xs) w b =
    let (y, e) = get_elem?-last x xs in
    (record { ordered = w; within = b; counted = refl; ends = (refl, some-or_else _ y x e) }, refl)

-- A value is above all others exactly if its place is the end.
above_all-rank :
    (lo v : ℕ) (xs : List ℕ) → Ascending lo xs → above_all xs v ≡ not (ltb (rank xs v) (length xs))
above_all-rank lo v [] w = refl
above_all-rank lo v (x ∷ xs) w =
    let (y, e, t) = rank-IsSplit lo v (x ∷ xs) w (length xs) (omega arith) in
    ap (λ o. above o v) e ∙ ground (arith, t, rank-le-length (x ∷ xs) v)

module _ (dom : ℕ) (c : ArrayContainer) (valid : IsValid dom c) (value : ℕ)
    (small : value < dom) where
  abbrev at : ℕ
  at = rank c.values value

  -- What an addition promises.
  abbrev Adds : ArrayContainer × Bool → Type 0
  Adds r =
      IsValid dom r.0
      × ((v : ℕ) → in_values r.0.values v ≡ (v == value || in_values c.values v))
      × (r.1 ≡ not (in_values c.values value))

  place : partition_point (λ x. ltb x value) c.values (length c.values) 0 ≡ some at
  place =
      partition_point_lem (λ x. ltb x value) c.values (length c.values) at
        (rank-IsSplit 0 value c.values valid.ordered) (rank-le-length c.values value)
        (length c.values) 0 (omega arith) (omega (arith, rank-le-length c.values value))
        (omega arith)

  inserted-IsValid :
      in_values c.values value ≡ false → Adds (sync_header c (insert_at at value c.values), true)
  inserted-IsValid new =
      let (ok, same) =
        sync_header-IsValid dom c (insert_at at value c.values)
          (insert_at-Ascending 0 value c.values (omega arith) valid.ordered new)
          (insert_at-AllBelow dom at value c.values small valid.within) in
      (
        ok,
        λ v. ap (λ xs. in_values xs v) same ∙ in_values-insert_at at value v c.values,
        rw new refl,
      )

  appended-IsValid : at ≡ length c.values → 0 < length c.values → Adds (appended c value, true)
  unfolding appended
  appended-IsValid last some_value =
      let e : insert_at at value c.values ≡ c.values ++ (value ∷ []) =
        ap (λ i. insert_at i value c.values) last ∙ insert_at-length value c.values in
      let new = in_values_past value c.values last in
      (
        record {
          ordered =
              subst (Ascending 0) e
                (insert_at-Ascending 0 value c.values (omega arith) valid.ordered new);
          within =
              subst (AllBelow dom) e (insert_at-AllBelow dom at value c.values small valid.within);
          counted = omega (arith, length-append c.values (value ∷ []));
          ends = Ends-appended value c.min_value c.max_value c.values some_value valid.ends;
        },
        λ v. ap (λ xs. in_values xs v) (sym e) ∙ in_values-insert_at at value v c.values,
        rw new refl,
      )

  alone-IsValid : c.values ≡ [] → Adds (alone value, true)
  alone-IsValid e = (
    record {
      ordered = (omega arith, tt);
      within = (small, tt);
      counted = refl;
      ends = (refl, refl);
    },
    λ v. rw e refl,
    rw e refl,
  )

  end_of : above_all c.values value ≡ true → at ≡ length c.values
  end_of h =
      ground (arith, above_all-rank 0 value c.values valid.ordered, rank-le-length c.values value)

  within_of : above_all c.values value ≡ false → at < length c.values
  within_of h = ground (arith, above_all-rank 0 value c.values valid.ordered)

  add_out_of_order-Adds : (r : ArrayContainer × Bool) × (add_out_of_order c value ≡ some r) × Adds r
  unfolding add_out_of_order
  add_out_of_order-Adds = elim (Bool-cases (above_all c.values value)) [
    | inl above ↦ elim (order 0 (length c.values)) [
      | inl some_value ↦ (
        (appended c value, true),
        rw (above, gt→== (length c.values) 0 some_value) refl,
        appended-IsValid (end_of above) some_value,
      )
      | inr no_value ↦ (
        (alone value, true),
        rw (above, eq→== (length c.values) 0 (omega arith)) refl,
        alone-IsValid (empty_of c.values (omega arith)),
      )
    ]
    | inr inside ↦
        let (x, e, t) = rank-IsSplit 0 value c.values valid.ordered at (within_of inside) in
        let found = in_values-rank 0 value x c.values valid.ordered e in
        elim (Bool-cases (x == value)) [
          | inl same ↦ (
            (c, false),
            rw (inside, place, e, same) refl,
            (
              valid,
              λ v. insert_present (in_values c.values) value v (found ∙ same),
              rw (found, same) refl,
            ),
          )
          | inr new ↦ (
            (sync_header c (insert_at at value c.values), true),
            rw (inside, place, e, new) refl,
            inserted-IsValid (found ∙ new),
          )
        ]
  ]

  abbrev appends : Bool → Bool
  appends has_room = not (length c.values == 0) && above_all c.values value && has_room

  -- On a well formed array container and a value of the domain, with room in the payload or not:
  -- `add` reads nothing out of bounds, the container stays well formed (ascending values, the
  -- header with their count and endpoints), it holds the value besides what it held, and the result
  -- says whether the value is new.
  pub add-IsValid :
      (has_room : Bool)
      → (r : ArrayContainer × Bool) × (add c has_room value ≡ some r)
        × IsValid dom r.0
        × ((v : ℕ) → in_values r.0.values v ≡ (v == value || in_values c.values v))
        × (r.1 ≡ not (in_values c.values value))
  unfolding add
  add-IsValid has_room = elim (Bool-cases (appends has_room)) [
    | inl fast ↦
        let above_rest : above_all c.values value ≡ true = ground (arith, fast) in
        let some_value : 0 < length c.values = ground (arith, fast) in
        let m = appended-IsValid (end_of above_rest) some_value in
        ((appended c value, true), rw fast refl, m.0, m.1, m.2)
    | inr slow ↦ let (r, e, m) = add_out_of_order-Adds in (r, rw slow e, m.0, m.1, m.2)
  ]

  gone :
      in_values c.values value ≡ false
      → (v : ℕ) → in_values c.values v ≡ (in_values c.values v && not (v == value))
  gone h v = delete_absent (in_values c.values) value v h

  -- On a well formed array container and a value of the domain: `remove` reads nothing out of
  -- bounds, the container stays well formed (ascending values, the header with their count and
  -- endpoints), it loses exactly the value, and the result says whether the value was there.
  pub remove-IsValid :
      (r : ArrayContainer × Bool) × (remove c value ≡ some r)
      × IsValid dom r.0
      × ((v : ℕ) → in_values r.0.values v ≡ (in_values c.values v && not (v == value)))
      × (r.1 ≡ in_values c.values value)
  unfolding remove
  remove-IsValid = elim (Bool-cases (above_all c.values value)) [
    | inl above_rest ↦
        let new = in_values_past value c.values (end_of above_rest) in
        ((c, false), rw above_rest refl, valid, gone new, sym new)
    | inr inside ↦
        let (x, e, t) = rank-IsSplit 0 value c.values valid.ordered at (within_of inside) in
        let found = in_values-rank 0 value x c.values valid.ordered e in
        elim (Bool-cases (x == value)) [
          | inl same ↦
              let (ok, vs) =
                sync_header-IsValid dom c (remove_at at c.values)
                  (remove_at-Ascending 0 at c.values valid.ordered)
                  (remove_at-AllBelow dom at c.values valid.within) in
              (
                (sync_header c (remove_at at c.values), true),
                rw (inside, place, e, same) refl,
                ok,
                λ v.
                    ap (λ xs. in_values xs v) vs
                    ∙ in_values-remove_at 0 value v c.values valid.ordered (found ∙ same),
                sym (found ∙ same),
              )
          | inr new ↦ (
            (c, false),
            rw (inside, place, e, new) refl,
            valid,
            gone (found ∙ new),
            sym (found ∙ new),
          )
        ]
  ]
