-- ===== src/Bitset/Sorted.antt =====
-- The containers that `add_sorted` and `remove_sorted` leave: their values, their count and their endpoints.
use roaring.Prelude.{
  ℕ, ◌+◌, ◌-◌, ◌%◌, ◌^◌, ◌≤◌, ◌<◌, ◌≡◌, ◌∙◌, ◌⊎◌, sym, refl, ap, subst, inl, inr, Bool, Bool-cases,
  true, false, not, ◌&&◌, ◌||◌, List, ◌∷◌, some, ◌==◌, gt→==, eq→==, arith, order, count_below,
  count_below-le, count_below-none, count_below-cong,
}
use roaring.Values.{in_values, Ascending, AllBelow}
use roaring.Bitset.{
  BitsetContainer, batch_back, widened, grown, reduced, reaches, add_sorted, settle_cardinality,
  remove_sorted,
}
use roaring.Bitset.Member.{in_words}
use roaring.Bitset.Valid.{IsCount, AreEnds, IsValid, settle_cardinality-IsValid}
use roaring.Bitset.Update.{IsCount-up}
use roaring.Bitset.Batch.{set_values-Changes, clear_values-Changes, back-in, batch_between}
use roaring.Bitset.Ends.{
  in_words-none, subset-same, same_words, AreEnds-first, AreEnds-widen, AreEnds-shrink,
}

remove_many : (n d exact : ℕ) → n ≡ exact + d → n < 2 ^ 32 → (n + (2 ^ 32 - d)) % 2 ^ 32 ≡ exact
remove_many n d exact e h = omega arith

-- A batch on a container.
module _ (dom : ℕ) (small : dom ≤ 2 ^ 16) (c : BitsetContainer) (valid : IsValid dom c) (front : ℕ)
    (rest : List ℕ) (ascends : Ascending front (front ∷ rest))
    (in_domain : AllBelow dom (front ∷ rest)) where
  abbrev s : ℕ → Bool
  s u = in_values (front ∷ rest) u

  abbrev last_value : ℕ
  last_value = batch_back front rest

  s_front : s front ≡ true
  s_front = ground arith

  -- The set is not empty where the code takes the old endpoints.
  has_value :
      (not c.cardinality_stale && c.cardinality == 0) ≡ false
      → (c.cardinality_stale ≡ false) ⊎ ((x : ℕ) × (in_words c.words x ≡ true))
      → AreEnds false (in_words c.words) c.min_value c.max_value
      → (x : ℕ) × (in_words c.words x ≡ true)
  has_value filled known (inr (a, b, between)) = (c.min_value, a)
  has_value filled (inr there) (inl clear) = there
  has_value filled (inl exact) (inl clear) =
      let n = rw exact at valid.counted in
      let z = count_below-cong dom (in_words c.words) (λ u. false) clear in
      absurd (ground (arith, exact, filled, n, z, count_below-none dom))

  widened-stale : (widened c front last_value).cardinality_stale ≡ c.cardinality_stale
  widened-stale = elim (Bool-cases (not c.cardinality_stale && c.cardinality == 0)) [
    | inl empty ↦ rw empty refl
    | inr filled ↦ rw filled (elim (Bool-cases c.endpoints_stale) [
      | inl stale ↦ rw stale refl
      | inr fresh ↦ rw fresh refl
    ])
  ]

  widened-ends :
      (q : ℕ → Bool)
      → ((u : ℕ) → q u ≡ (s u || in_words c.words u))
      → (c.cardinality_stale ≡ false) ⊎ ((x : ℕ) × (in_words c.words x ≡ true))
      → AreEnds
          (widened c front last_value).endpoints_stale
          q
          (widened c front last_value).min_value
          (widened c front last_value).max_value
  widened-ends q same known = elim (Bool-cases (not c.cardinality_stale && c.cardinality == 0)) [
    | inl empty ↦ rw empty (
        AreEnds-first s front last_value s_front (back-in front rest)
          (λ u. (batch_between front u rest ascends).1) (in_words c.words) q same
          (λ u. in_words-none dom c.words u valid.sized (ground (arith, empty, valid.counted))))
    | inr filled ↦ rw filled (elim (Bool-cases c.endpoints_stale) [
      | inl stale ↦ rw stale tt
      | inr fresh ↦ rw fresh (
          let ends = rw fresh at valid.ends in
          let (x, some_x) = has_value (ground arith) known ends in
          AreEnds-widen s front last_value s_front (back-in front rest)
            (λ u. (batch_between front u rest ascends).1) (in_words c.words) q c.min_value
            c.max_value x same some_x ends)
    ])
  ]

  -- On a well formed bitset over a domain of at most 2^16 values and an ascending batch of the
  -- domain that is not empty, where the count is not stale or the bitset has a value: `add_sorted`
  -- reads nothing out of bounds, the bitset stays well formed (its count, and its endpoints unless
  -- stale), it holds the batch besides what it held, and the result is the number of new values.
  pub add_sorted_lem :
      (c.cardinality_stale ≡ false) ⊎ ((x : ℕ) × (in_words c.words x ≡ true))
      → (r : BitsetContainer × ℕ) × (add_sorted c (front ∷ rest) ≡ some r)
        × IsValid dom r.0
        × ((v : ℕ) → in_words r.0.words v ≡ (in_values (front ∷ rest) v || in_words c.words v))
        × (count_below dom (in_words r.0.words) ≡ count_below dom (in_words c.words) + r.1)
  unfolding add_sorted
  add_sorted_lem known =
      let ((words, n), e, changes, total, more) =
        set_values-Changes dom c.words (front ∷ rest) 0 valid.sized valid.words_fit in_domain in
      let most = count_below-le dom (in_words words) in
      elim (order n 0) [
        | inl less ↦ absurd (omega arith)
        | inr (inl grew) ↦ (
          (grown c words n front last_value, n),
          rw (e, gt→== n 0 grew) refl,
          record {
            sized = changes.sized;
            words_fit = changes.fit;
            counted = rw widened-stale (
                IsCount-up c.cardinality_stale c.cardinality n _ _ valid.counted
                  (omega (arith, total)) (omega arith));
            ends = widened-ends (in_words words) changes.same known;
          },
          changes.same,
          omega (arith, total),
        )
        | inr (inr none_new) ↦
            let same = same_words dom c.words words valid.sized changes.sized (
              subset-same dom (in_words c.words) (in_words words)
                (λ u. ground (arith, changes.same u)) (omega (arith, total))) in
            (
              (record c { words = words }, 0),
              rw (e, eq→== n 0 (sym none_new)) refl,
              record {
                sized = changes.sized;
                words_fit = changes.fit;
                counted =
                    subst (λ f. IsCount c.cardinality_stale c.cardinality (count_below dom f))
                      (sym same) valid.counted;
                ends =
                    subst (λ f. AreEnds c.endpoints_stale f c.min_value c.max_value) (sym same)
                      valid.ends;
              },
              changes.same,
              omega (arith, total),
            )
      ]

  -- On a well formed bitset over a domain of at most 2^16 values, its count stale or not, and an
  -- ascending batch of the domain that is not empty: `remove_sorted` reads nothing out of bounds,
  -- the bitset stays well formed (its count, and its endpoints unless stale), it loses exactly the
  -- batch, and the result is the number of values lost.
  pub remove_sorted_lem :
      (r : BitsetContainer × ℕ) × (remove_sorted c (front ∷ rest) ≡ some r)
      × IsValid dom r.0
      × ((v : ℕ) → in_words r.0.words v ≡ (in_words c.words v && not (in_values (front ∷ rest) v)))
      × (count_below dom (in_words r.0.words) + r.1 ≡ count_below dom (in_words c.words))
  unfolding remove_sorted reduced
  remove_sorted_lem =
      let ((words, n), e, changes, total, more) =
        clear_values-Changes dom c.words (front ∷ rest) 0 valid.sized valid.words_fit in_domain in
      let (settled, kept, exact_n, exact) = settle_cardinality-IsValid dom c small valid in
      let most = count_below-le dom (in_words c.words) in
      elim (order n 0) [
        | inl less ↦ absurd (omega arith)
        | inr (inl shrank) ↦ (
          (reduced c words n (reaches c front last_value), n),
          rw (e, gt→== n 0 shrank) refl,
          record {
            sized = changes.sized;
            words_fit = changes.fit;
            counted =
                rw exact
                  (remove_many _ n _ (exact_n ∙ omega (arith, total)) (omega (arith, exact_n)));
            ends =
                AreEnds-shrink s front last_value s_front (back-in front rest)
                  (λ u. (batch_between front u rest ascends).1) c.endpoints_stale (in_words c.words)
                  (in_words words) c.min_value c.max_value changes.same valid.ends;
          },
          changes.same,
          omega (arith, total),
        )
        | inr (inr none_gone) ↦
            let same = same_words dom c.words words valid.sized changes.sized (λ v h. sym (
              subset-same dom (in_words words) (in_words c.words)
                (λ u. ground (arith, changes.same u)) (omega (arith, total)) v h)) in
            (
              (record (settle_cardinality c) { words = words }, 0),
              rw (e, eq→== n 0 (sym none_gone)) refl,
              record {
                sized = changes.sized;
                words_fit = changes.fit;
                counted = rw exact (exact_n ∙ ap (count_below dom) (sym same));
                ends =
                    subst
                      (λ f.
                        AreEnds (settle_cardinality c).endpoints_stale f
                          (settle_cardinality c).min_value (settle_cardinality c).max_value)
                      (sym (same ∙ sym (ap in_words kept))) settled.ends;
              },
              changes.same,
              omega (arith, total),
            )
      ]
