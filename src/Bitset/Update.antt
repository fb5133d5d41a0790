-- ===== src/Bitset/Update.antt =====
-- One value looked up in a bitset container, added to it or removed from it.
use Prim.Native.Nat.{bit_and, bit_or}
use roaring.Prelude.{
  ℕ, ◌+◌, ◌-◌, ◌*◌, ◌/◌, ◌%◌, ◌^◌, ◌≤◌, ◌<◌, ◌≡◌, ◌∙◌, sym, refl, ap, inl, inr, Bool, Bool-cases,
  true, false, not, ◌&&◌, ◌||◌, some, ◌==◌, arith, length, get_elem?, count_below-le,
  count_below-insert_new, count_below-delete_old, insert_present, delete_absent,
}
use roaring.Words.{test_bit, complement}
use roaring.Words.Scan.{masked-==_zero, set_bit-small, clear_bit-small}
use roaring.Bitset.{BitsetContainer, mask, set_elem, contains, with_bit, without_bit, add, remove}
use roaring.Bitset.Member.{
  in_words, word_there, get_elem?-AllWords, set_elem-AllWords, length-set_elem, in_words-set,
  in_words-clear,
}
use roaring.Bitset.Valid.{IsCount, AreEnds, IsValid, settle_cardinality-IsValid}

pub IsCount-up :
    (stale : Bool) (n d exact exact' : ℕ)
    → IsCount stale n exact
    → exact' ≡ exact + d
    → exact' < 2 ^ 32
    → IsCount stale ((n + d) % 2 ^ 32) exact'
IsCount-up true n d exact exact' c e h = omega arith
IsCount-up false n d exact exact' c e h = omega arith

remove_one : (n exact : ℕ) → n ≡ exact + 1 → n < 2 ^ 32 → (n + (2 ^ 32 - 1)) % 2 ^ 32 ≡ exact
remove_one n exact e h = omega arith

-- The endpoints, unless one of them went.
pub AreEnds-delete :
    (stale : Bool) (p q : ℕ → Bool) (least greatest value : ℕ)
    → ((u : ℕ) → q u ≡ (p u && not (u == value)))
    → AreEnds stale p least greatest
    → AreEnds (stale || (value == least || value == greatest)) q least greatest
AreEnds-delete true p q least greatest value same ends = tt
AreEnds-delete false p q least greatest value same ends =
    elim (Bool-cases (value == least || value == greatest)) [
      | inl at_end ↦ rw at_end tt
      | inr inside ↦ rw inside (elim ends [
        | inl clear ↦ inl (λ v. ground (arith, same v, clear v))
        | inr (a, b, between) ↦ inr (
          ground (arith, same least, a),
          ground (arith, same greatest, b),
          λ v. ground (arith, same v, between v),
        )
      ])
    ]

module _ (dom : ℕ) (small : dom ≤ 2 ^ 16) (c : BitsetContainer) (valid : IsValid dom c) (value : ℕ)
    (in_domain : value < dom) where
  in_range : value < 64 * length c.words
  in_range = omega (arith, valid.sized)

  test :
      (w : ℕ)
      → get_elem? c.words (value / 64) ≡ some w
      → (bit_and w (mask value) == 0) ≡ not (test_bit w (value % 64))
  test w e =
      masked-==_zero w (value % 64) (get_elem?-AllWords c.words (value / 64) w valid.words_fit e)
        (omega arith)

  -- On a well formed bitset and a value of the domain, the answer is membership.
  pub bitset_contains_lem : contains c value ≡ some (in_words c.words value)
  unfolding contains
  bitset_contains_lem =
      let (w, e, t) = word_there c.words value in_range in
      rw (e, test w e) (ap some (ground (arith, t)))

  -- On a well formed bitset and a value of the domain: it stays well formed and holds the value
  -- too; the result says whether it is new.
  pub bitset_add_lem :
      (r : BitsetContainer × Bool) × (add c value ≡ some r)
      × IsValid dom r.0
      × ((v : ℕ) → in_words r.0.words v ≡ (v == value || in_words c.words v))
      × (r.1 ≡ not (in_words c.words value))
  unfolding add
  bitset_add_lem =
      let (w, e, t) = word_there c.words value in_range in
      let fit = get_elem?-AllWords c.words (value / 64) w valid.words_fit e in
      let words = set_elem (value / 64) (bit_or w (mask value)) c.words in
      let same = in_words-set c.words value w in_range e in
      elim (Bool-cases (test_bit w (value % 64))) [
        | inl on ↦ (
          (c, false),
          rw (e, test w e, on) refl,
          valid,
          λ v. insert_present (in_words c.words) value v (t ∙ on),
          rw (t, on) refl,
        )
        | inr off ↦
            let n =
              count_below-insert_new dom value (in_words c.words) (in_words words) in_domain same in
            let more = count_below-le dom (in_words words) in
            (
              (with_bit c value w, true),
              rw (e, test w e, off) refl,
              record {
                sized =
                    ap (λ n. 64 * n) (length-set_elem c.words (value / 64) (bit_or w (mask value)))
                    ∙ valid.sized;
                words_fit =
                    set_elem-AllWords c.words (value / 64) (bit_or w (mask value)) valid.words_fit
                      (set_bit-small w (value % 64) fit (omega arith));
                counted =
                    IsCount-up c.cardinality_stale c.cardinality 1 _ _ valid.counted
                      (n ∙ ground (arith, t, off)) (omega arith);
                ends = tt;
              },
              same,
              rw (t, off) refl,
            )
      ]

  -- On a well formed bitset and a value of the domain: it stays well formed and loses exactly the
  -- value; the result says whether it was there, and if so the count is exact.
  pub bitset_remove_lem :
      (r : BitsetContainer × Bool) × (remove c value ≡ some r)
      × IsValid dom r.0
      × ((v : ℕ) → in_words r.0.words v ≡ (in_words c.words v && not (v == value)))
      × (r.1 ≡ in_words c.words value)
      × (r.1 ≡ true → r.0.cardinality_stale ≡ false)
  unfolding remove without_bit
  bitset_remove_lem =
      let (w, e, t) = word_there c.words value in_range in
      let fit = get_elem?-AllWords c.words (value / 64) w valid.words_fit e in
      let cleared = bit_and w (complement (mask value)) in
      let words = set_elem (value / 64) cleared c.words in
      let same = in_words-clear c.words value w in_range e in
      let (settled, kept, n, exact) = settle_cardinality-IsValid dom c small valid in
      elim (Bool-cases (test_bit w (value % 64))) [
        | inr off ↦ (
          (c, false),
          rw (e, test w e, off) refl,
          valid,
          λ v. delete_absent (in_words c.words) value v (t ∙ off),
          rw (t, off) refl,
          λ h. absurd (ground arith),
        )
        | inl on ↦
            let less =
              count_below-delete_old dom value (in_words c.words) (in_words words) in_domain same in
            let most = count_below-le dom (in_words c.words) in
            (
              (without_bit c value w, true),
              rw (e, test w e, on) refl,
              record {
                sized =
                    ap (λ n. 64 * n) (length-set_elem c.words (value / 64) cleared) ∙ valid.sized;
                words_fit =
                    set_elem-AllWords c.words (value / 64) cleared valid.words_fit
                      (clear_bit-small w (complement (mask value)) fit);
                counted =
                    rw exact
                      (remove_one _ _ (n ∙ sym less ∙ ground (arith, t, on)) (omega (arith, n)));
                ends =
                    AreEnds-delete c.endpoints_stale (in_words c.words) (in_words words) c.min_value
                      c.max_value value same valid.ends;
              },
              same,
              rw (t, on) refl,
              λ h. exact,
            )
      ]
