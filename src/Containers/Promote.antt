-- ===== src/Containers/Promote.antt =====
-- A bitset built from sorted values holds these, and a promoted array keeps its values.
use Prim.Native.Nat.{bit_and, bit_or}
use roaring.Prelude.{
  ℕ, zero, suc, ◌+◌, ◌-◌, ◌*◌, ◌/◌, ◌^◌, ◌≤◌, ◌≡◌, ◌∙◌, refl, sym, ap, Bool-cases, false, inl, inr,
  List, [], ◌∷◌, Option, none, some, ◌>>=◌, leb, ◌==◌, bit, arith, length, get_elem?,
  count_below-le, count_below-cong, count_below-none, mod-eq_of_lt,
}
use roaring.Values.{in_values, Ascending, AllBelow, length-count}
use roaring.Words.{AllWords}
use roaring.Words.Bits.{zero-test_bit}
use roaring.Bitset.{BitsetContainer, mask, set_elem, set_values, batch_back}
use roaring.Bitset.Member.{in_words}
use roaring.Bitset.Valid as BitsetValid
use roaring.Bitset.Batch.{set_values-Changes, back-in, batch_between}
use roaring.Bitset.Ends.{AreEnds-first}
use roaring.Containers.{
  Container, array, run, bitset, zeros, scatter, with_values, bitset_handle_from_sorted_values,
  array_to_bitset_threshold, promote_if_needed,
}
use roaring.Containers.Dispatch.{in_container, IsValid}

after_read :
    (o : Option ℕ) (f : ℕ → Option (List ℕ × ℕ)) (g : ℕ → Option (List ℕ)) (r : List ℕ × ℕ)
    → ((w : ℕ) → f w ≡ some r → g w ≡ some r.0)
    → (o >>= f) ≡ some r
    → (o >>= g) ≡ some r.0
after_read none f g r h e = absurd (ground arith)
after_read (some w) f g r h e = h w e

-- Without the count of new values, the words are the same.
scatter-set_values :
    (ws vs : List ℕ) (k : ℕ) (r : List ℕ × ℕ)
    → set_values ws vs k ≡ some r
    → scatter ws vs ≡ some r.0
unfolding scatter set_values
scatter-set_values ws [] k r e = ap (λ o. o >>= λ p. some p.0) e
scatter-set_values ws (v ∷ vs) k r e =
    after_read (get_elem? ws (v / 64)) _ _ r
      (λ w.
        scatter-set_values (set_elem (v / 64) (bit_or w (mask v)) ws) vs
          (k + bit (bit_and w (mask v) == 0)) r)
      e

length-zeros : (n : ℕ) → length (zeros n) ≡ n
length-zeros zero = refl
length-zeros (suc n) = ap suc (length-zeros n)

zeros-AllWords : (n : ℕ) → AllWords (zeros n)
zeros-AllWords zero = tt
zeros-AllWords (suc n) = (omega arith, zeros-AllWords n)

in_words-zeros : (n v : ℕ) → in_words (zeros n) v ≡ false
in_words-zeros zero v = refl
in_words-zeros (suc n) v = ground (arith, in_words-zeros n (v - 64), zero-test_bit v)

module _ (dom : ℕ) (small : dom ≤ 2 ^ 16) (whole : 64 * (dom / 64) ≡ dom) where
  with_values-IsValid :
      (words vs : List ℕ)
      → 64 * length words ≡ dom
      → AllWords words
      → Ascending 0 vs
      → AllBelow dom vs
      → ((v : ℕ) → in_words words v ≡ in_values vs v)
      → BitsetValid.IsValid dom (with_values words vs)
  with_values-IsValid words [] sized fit w b same = record {
    sized = sized;
    words_fit = fit;
    counted = sym (count_below-cong dom _ (λ v. false) same ∙ count_below-none dom);
    ends = tt;
  }
  with_values-IsValid words (front ∷ rest) sized fit w b same =
      let n = length-count dom 0 (front ∷ rest) w b in
      let most = count_below-le dom (in_values (front ∷ rest)) in
      record {
        sized = sized;
        words_fit = fit;
        counted =
            mod-eq_of_lt (omega (arith, n))
            ∙ n
            ∙ sym (count_below-cong dom _ (in_values (front ∷ rest)) same);
        ends =
            AreEnds-first (in_values (front ∷ rest)) front (batch_back front rest) (ground arith)
              (back-in front rest) (λ u. (batch_between front u rest (omega arith, w.1)).1)
              (λ v. false) (in_words words) (λ u. same u ∙ ground arith) (λ u. refl);
      }

  by_values :
      (words vs : List ℕ)
      → ((v : ℕ) → in_words words v ≡ in_values vs v)
      → (v : ℕ) → in_words (with_values words vs).words v ≡ in_values vs v
  by_values words [] same = same
  by_values words (x ∷ vs) same = same

  -- From ascending values of the domain, a well formed bitset of exactly these.
  pub bitset_handle_from_sorted_values_lem :
      (vs : List ℕ)
      → Ascending 0 vs
      → AllBelow dom vs
      → (b : BitsetContainer) × (bitset_handle_from_sorted_values dom vs ≡ some b)
        × BitsetValid.IsValid dom b
        × ((v : ℕ) → in_words b.words v ≡ in_values vs v)
  unfolding bitset_handle_from_sorted_values
  bitset_handle_from_sorted_values_lem vs w b =
      let n = length-zeros (dom / 64) in
      let ((words, k), e, changes, count, more) =
        set_values-Changes dom (zeros (dom / 64)) vs 0 (ap (λ n. 64 * n) n ∙ whole)
          (zeros-AllWords (dom / 64)) b in
      let same : (v : ℕ) → in_words words v ≡ in_values vs v =
        λ v. ground (arith, changes.same v, in_words-zeros (dom / 64) v) in
      (
        with_values words vs,
        rw (scatter-set_values (zeros (dom / 64)) vs 0 (words, k) e) refl,
        with_values-IsValid words vs changes.sized changes.fit w b same,
        by_values words vs same,
      )

  -- A well formed container stays one, with the same values, whether it becomes a bitset or not.
  pub promote_if_needed_lem :
      (c : Container)
      → IsValid dom c
      → (r : Container) × (promote_if_needed dom c ≡ some r)
        × IsValid dom r
        × ((v : ℕ) → in_container r v ≡ in_container c v)
  unfolding promote_if_needed
  promote_if_needed_lem (array c) valid =
      elim (Bool-cases (leb (array_to_bitset_threshold dom) (length c.values))) [
        | inr few ↦ rw few (array c, refl, valid, λ v. refl)
        | inl many ↦
            let (b, e, ok, same) =
              bitset_handle_from_sorted_values_lem c.values valid.ordered valid.within in
            rw (many, e) (bitset b, refl, ok, same)
      ]
  promote_if_needed_lem (run c) valid = (run c, refl, valid, λ v. refl)
  promote_if_needed_lem (bitset c) valid = (bitset c, refl, valid, λ v. refl)
