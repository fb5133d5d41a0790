-- ===== src/Bitset/Batch.antt =====
-- A sorted batch of values added to a bitset container or removed from it.
use Prim.Native.Nat.{bit_and, bit_or}
use roaring.Prelude.{
  ℕ, ◌+◌, ◌*◌, ◌/◌, ◌%◌, ◌≤◌, ◌≡◌, ◌∙◌, sym, refl, ap, Bool, true, not, ◌&&◌, ◌||◌, List, [], ◌∷◌,
  some, leb, bit, ◌==◌, arith, length, count_below, count_below-insert_new, count_below-delete_old,
}
use roaring.Words.{complement, AllWords}
use roaring.Words.Scan.{masked-==_zero, set_bit-small, clear_bit-small}
use roaring.Values.{in_values, Ascending, AllBelow}
use roaring.Bitset.{mask, set_elem, set_values, clear_values, batch_back}
use roaring.Bitset.Member.{
  in_words, word_there, get_elem?-AllWords, set_elem-AllWords, length-set_elem, in_words-set,
  in_words-clear,
}

-- The words that a batch leaves, and how many values it changed.
pub record Changes (dom : ℕ) (ws : List ℕ) (op : ℕ → Bool → Bool) (r : List ℕ × ℕ) (from : ℕ)
    : Type 0 where
  pub sized : 64 * length r.0 ≡ dom
  pub fit : AllWords r.0
  pub same : (u : ℕ) → in_words r.0 u ≡ op u (in_words ws u)

module _ (dom : ℕ) where
  pub set_values-Changes :
      (ws vs : List ℕ) (k : ℕ)
      → 64 * length ws ≡ dom
      → AllWords ws
      → AllBelow dom vs
      → (r : List ℕ × ℕ) × (set_values ws vs k ≡ some r)
        × Changes dom ws (λ u b. in_values vs u || b) r k
        × (count_below dom (in_words r.0) + k ≡ count_below dom (in_words ws) + r.1)
        × (k ≤ r.1)
  unfolding set_values
  set_values-Changes ws [] k s a b =
      ((ws, k), refl, record { sized = s; fit = a; same = λ u. refl }, refl, omega arith)
  set_values-Changes ws (v ∷ vs) k s a b =
      let (w, e, t) = word_there ws v (omega (arith, b.0)) in
      let fit = get_elem?-AllWords ws (v / 64) w a e in
      let test = masked-==_zero w (v % 64) fit (omega arith) in
      let x = bit_or w (mask v) in
      let on = in_words-set ws v w (omega (arith, b.0)) e in
      let n =
        count_below-insert_new dom v (in_words ws) (in_words (set_elem (v / 64) x ws)) b.0 on in
      let (r, p, m, c, l) =
        set_values-Changes (set_elem (v / 64) x ws) vs (k + bit (bit_and w (mask v) == 0))
          (ap (λ n. 64 * n) (length-set_elem ws (v / 64) x) ∙ s)
          (set_elem-AllWords ws (v / 64) x a (set_bit-small w (v % 64) fit (omega arith))) b.1 in
      let more : bit (bit_and w (mask v) == 0) ≡ bit (not (in_words ws v)) =
        ap bit (test ∙ ap not (sym t)) in
      (
        r,
        rw e p,
        record { sized = m.sized; fit = m.fit; same = λ u. ground (arith, m.same u, on u) },
        omega (arith, c, n, more),
        omega (arith, l),
      )

  pub clear_values-Changes :
      (ws vs : List ℕ) (k : ℕ)
      → 64 * length ws ≡ dom
      → AllWords ws
      → AllBelow dom vs
      → (r : List ℕ × ℕ) × (clear_values ws vs k ≡ some r)
        × Changes dom ws (λ u b. b && not (in_values vs u)) r k
        × (count_below dom (in_words r.0) + r.1 ≡ count_below dom (in_words ws) + k)
        × (k ≤ r.1)
  unfolding clear_values
  clear_values-Changes ws [] k s a b =
      ((ws, k), refl, record { sized = s; fit = a; same = λ u. ground arith }, refl, omega arith)
  clear_values-Changes ws (v ∷ vs) k s a b =
      let (w, e, t) = word_there ws v (omega (arith, b.0)) in
      let fit = get_elem?-AllWords ws (v / 64) w a e in
      let test = masked-==_zero w (v % 64) fit (omega arith) in
      let x = bit_and w (complement (mask v)) in
      let off = in_words-clear ws v w (omega (arith, b.0)) e in
      let n =
        count_below-delete_old dom v (in_words ws) (in_words (set_elem (v / 64) x ws)) b.0 off in
      let (r, p, m, c, l) =
        clear_values-Changes (set_elem (v / 64) x ws) vs (k + bit (not (bit_and w (mask v) == 0)))
          (ap (λ n. 64 * n) (length-set_elem ws (v / 64) x) ∙ s)
          (set_elem-AllWords ws (v / 64) x a (clear_bit-small w (complement (mask v)) fit)) b.1 in
      let fewer : bit (not (bit_and w (mask v) == 0)) ≡ bit (in_words ws v) =
        ground (arith, test, t) in
      (
        r,
        rw e p,
        record { sized = m.sized; fit = m.fit; same = λ u. ground (arith, m.same u, off u) },
        omega (arith, c, n, fewer),
        omega (arith, l),
      )

-- The first and the last value of a batch.
pub back-in : (v : ℕ) (vs : List ℕ) → in_values (v ∷ vs) (batch_back v vs) ≡ true
back-in v [] = ground arith
back-in v (x ∷ vs) = ground (arith, back-in x vs)

pub batch_between :
    (v u : ℕ) (vs : List ℕ)
    → Ascending v (v ∷ vs)
    → (v ≤ batch_back v vs)
      × (in_values (v ∷ vs) u ≡ (in_values (v ∷ vs) u && (leb v u && leb u (batch_back v vs))))
batch_between v u [] w = (omega arith, ground arith)
batch_between v u (x ∷ vs) w =
    let (le, e) = batch_between x u vs (omega arith, w.1.1) in
    (omega (arith, le), ground (arith, le, e))
