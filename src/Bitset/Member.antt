-- ===== src/Bitset/Member.antt =====
-- The values of a bitset, and how setting and clearing a bit changes them.
use Prim.Native.Nat.{bit_and, bit_or}
use roaring.Prelude.{
  ℕ, zero, suc, ◌+◌, ◌-◌, ◌*◌, ◌/◌, ◌%◌, ◌^◌, ◌<◌, ◌≡◌, ◌∙◌, sym, refl, ap, ap₂, inl, inr, Bool,
  false, not, ◌&&◌, ◌||◌, List, [], ◌∷◌, some, ltb, lt→ltb, le→ltb, lt→==, gt→==, ◌==◌,
  if◌then◌else◌, arith, order, length, get_elem?, count_below, count_below-+, count_below-cong,
  count_below-cong_below,
}
use roaring.Words.{test_bit, popcount, complement, AllWords}
use roaring.Words.Bits.{test_bit-bit_or, test_bit-pow, popcount_lem}
use roaring.Words.Scan.{test_bit-clear_bit}
use roaring.Bitset.{mask, set_elem}

abbrev pub in_words : List ℕ → ℕ → Bool
in_words [] v = false
in_words (w ∷ ws) v = if ltb v 64 then test_bit w v else in_words ws (v - 64)

-- The word of a value is there.
pub word_there :
    (ws : List ℕ) (v : ℕ)
    → v < 64 * length ws
    → (w : ℕ) × (get_elem? ws (v / 64) ≡ some w) × (in_words ws v ≡ test_bit w (v % 64))
word_there [] v h = absurd (omega arith)
word_there (w ∷ ws) v h = elim (order v 64) [
  | inl low ↦
      let i : v / 64 ≡ 0 = omega arith in
      let r : v % 64 ≡ v = omega arith in (w, rw i refl, rw (lt→ltb v 64 low, r) refl)
  | inr high ↦
      let (x, e, t) = word_there ws (v - 64) (omega arith) in
      let i : v / 64 ≡ suc ((v - 64) / 64) = omega arith in
      let r : v % 64 ≡ (v - 64) % 64 = omega arith in
      (x, rw i e, rw (le→ltb v 64 (omega arith), r) t)
]

pub get_elem?-AllWords :
    (ws : List ℕ) (i w : ℕ) → AllWords ws → get_elem? ws i ≡ some w → w < 2 ^ 64
get_elem?-AllWords [] i w a e = absurd (ground arith)
get_elem?-AllWords (x ∷ ws) zero w a e = ground (arith, e, a.0)
get_elem?-AllWords (x ∷ ws) (suc i) w a e = get_elem?-AllWords ws i w a.1 e

pub set_elem-AllWords :
    (ws : List ℕ) (i x : ℕ) → AllWords ws → x < 2 ^ 64 → AllWords (set_elem i x ws)
set_elem-AllWords [] i x a h = tt
set_elem-AllWords (w ∷ ws) zero x a h = (h, a.1)
set_elem-AllWords (w ∷ ws) (suc i) x a h = (a.0, set_elem-AllWords ws i x a.1 h)

pub length-set_elem : (ws : List ℕ) (i x : ℕ) → length (set_elem i x ws) ≡ length ws
length-set_elem [] i x = refl
length-set_elem (w ∷ ws) zero x = refl
length-set_elem (w ∷ ws) (suc i) x = ap suc (length-set_elem ws i x)

suc-== : (a b : ℕ) → (suc a == suc b) ≡ (a == b)
suc-== a b = ground arith

in_words-set_elem :
    (ws : List ℕ) (i x u : ℕ)
    → i < length ws
    → in_words (set_elem i x ws) u ≡ (if u / 64 == i then test_bit x (u % 64) else in_words ws u)
in_words-set_elem [] i x u h = absurd (omega arith)
in_words-set_elem (w ∷ ws) zero x u h = elim (order u 64) [
  | inl low ↦
      let q : u / 64 ≡ 0 = omega arith in
      let r : u % 64 ≡ u = omega arith in rw (lt→ltb u 64 low, q, r) refl
  | inr high ↦ rw (le→ltb u 64 (omega arith), gt→== (u / 64) 0 (omega arith)) refl
]
in_words-set_elem (w ∷ ws) (suc i) x u h = elim (order u 64) [
  | inl low ↦ rw (lt→ltb u 64 low, lt→== (u / 64) (suc i) (omega arith)) refl
  | inr high ↦
      let r : u % 64 ≡ (u - 64) % 64 = omega arith in
      let q : u / 64 ≡ suc ((u - 64) / 64) = omega arith in
      rw (le→ltb u 64 (omega arith), r, q, suc-== ((u - 64) / 64) i)
        (in_words-set_elem ws i x (u - 64) (omega arith))
]

-- The bit of `v` set, in its word `w`.
module _ (ws : List ℕ) (v w : ℕ) (in_range : v < 64 * length ws)
    (here : get_elem? ws (v / 64) ≡ some w) where
  same_word : (u : ℕ) → u / 64 ≡ v / 64 → in_words ws u ≡ test_bit w (u % 64)
  same_word u e =
      let (x, p, t) = word_there ws u (omega arith) in
      let q : some x ≡ some w = sym p ∙ (ap (get_elem? ws) e ∙ here) in ground (arith, t, q)

  pub in_words-set :
      (u : ℕ) → in_words (set_elem (v / 64) (bit_or w (mask v)) ws) u ≡ (u == v || in_words ws u)
  in_words-set u = elim (order (u / 64) (v / 64)) [
    | inl less ↦ ground (arith, in_words-set_elem ws (v / 64) (bit_or w (mask v)) u (omega arith))
    | inr (inl more) ↦
        ground (arith, in_words-set_elem ws (v / 64) (bit_or w (mask v)) u (omega arith))
    | inr (inr at) ↦ ground (
      arith,
      in_words-set_elem ws (v / 64) (bit_or w (mask v)) u (omega arith),
      same_word u (sym at),
      test_bit-bit_or w (mask v) (u % 64),
      test_bit-pow (v % 64) (u % 64),
    )
  ]

  pub in_words-clear :
      (u : ℕ)
      → in_words (set_elem (v / 64) (bit_and w (complement (mask v))) ws) u
        ≡ (in_words ws u && not (u == v))
  in_words-clear u = elim (order (u / 64) (v / 64)) [
    | inl less ↦
        ground
          (arith, in_words-set_elem ws (v / 64) (bit_and w (complement (mask v))) u (omega arith))
    | inr (inl more) ↦
        ground
          (arith, in_words-set_elem ws (v / 64) (bit_and w (complement (mask v))) u (omega arith))
    | inr (inr at) ↦ ground (
      arith,
      in_words-set_elem ws (v / 64) (bit_and w (complement (mask v))) u (omega arith),
      same_word u (sym at),
      test_bit-clear_bit w (v % 64) (u % 64) (omega arith) (omega arith),
    )
  ]

-- A word in front: its bits, then the bits of the others.
pub count-in_words_front :
    (k n w : ℕ) (ws : List ℕ)
    → k ≡ 64
    → count_below (k + n) (in_words (w ∷ ws)) ≡ popcount w + count_below n (in_words ws)
count-in_words_front k n w ws e =
    count_below-+ k n (in_words (w ∷ ws))
    ∙ ap₂ ◌+◌
        (count_below-cong_below k _ (test_bit w) (λ v h. low v (omega arith))
          ∙ sym (popcount_lem k w e))
        (count_below-cong n _ (in_words ws) (λ v. high v))
  where
    low : (v : ℕ) → v < 64 → in_words (w ∷ ws) v ≡ test_bit w v
    low v h = rw (lt→ltb v 64 h) refl

    high : (v : ℕ) → in_words (w ∷ ws) (k + v) ≡ in_words ws v
    high v = let m : k + v - 64 ≡ v = omega arith in rw (le→ltb (k + v) 64 (omega arith), m) refl

pub count-in_words :
    (k w : ℕ) (ws : List ℕ)
    → k ≡ 64
    → count_below (k + k * length ws) (in_words (w ∷ ws))
      ≡ popcount w + count_below (k * length ws) (in_words ws)
count-in_words k w ws e = count-in_words_front k (k * length ws) w ws e
