-- ===== src/Bitset/Walk.antt =====
-- The next value of a bitset after a value, and the endpoints found again.
use Prim.Native.Nat.{bit_and}
use roaring.Prelude.{
  ℕ, zero, suc, ◌+◌, ◌-◌, ◌*◌, ◌/◌, ◌%◌, ◌^◌, ◌≤◌, ◌<◌, ◌≡◌, ◌∙◌, sym, refl, ap, inl, inr, Bool,
  true, false, ◌&&◌, List, [], ◌∷◌, Option, none, some, ltb, leb, lt→ltb, le→ltb, le→leb, gt→==,
  eq→==, arith, order, length, drop, length-drop,
}
use roaring.Words.{test_bit, complement, countr_zero, word_bits, AllWords}
use roaring.Words.Bits.{
  test_bit-bit_and, test_bit-low_mask, test_bit-complement, zero-test_bit, zero_of,
}
use roaring.Words.Scan.{first_set_lem, clear_bit-small, mask_small}
use roaring.RunContainer.Walk.{no_next, IsNext, IsNext-cong}
use roaring.Bitset.{BitsetContainer, first_from, or_no_next, consumed_mask, next_in, next_after}
use roaring.Bitset.Member.{in_words}
use roaring.Bitset.Ends.{in_words_past}
use roaring.Bitset.Valid.{IsValid}

-- The first set bit of a word that is not 0.
countr_zero_lem :
    (w : ℕ)
    → w < 2 ^ 64
    → 0 < w
    → (countr_zero w < 64)
      × (test_bit w (countr_zero w) ≡ true)
      × ((j : ℕ) → j < countr_zero w → test_bit w j ≡ false)
countr_zero_lem w fit filled = elim (first_set_lem w word_bits 0) [
  | inl (e, clear) ↦
      absurd (omega (arith, zero_of w fit (λ i h. clear i (omega arith) (omega arith))))
  | inr (a, b, c, clear) ↦ (omega (arith, b), c, λ j h. clear j (omega arith) h)
]

-- The first value, `shift` added to it.
abbrev pub FirstFrom : ℕ → (ℕ → Bool) → Option ℕ → Type 0
FirstFrom shift p none = (v : ℕ) → p v ≡ false
FirstFrom shift p (some f) =
    (f' : ℕ) × (f ≡ shift + f') × (p f' ≡ true) × ((v : ℕ) → v < f' → p v ≡ false)

FirstFrom-skip :
    (index : ℕ) (ws : List ℕ) (r : Option ℕ)
    → FirstFrom ((index + 1) * 64) (in_words ws) r
    → FirstFrom (index * 64) (in_words (0 ∷ ws)) r
FirstFrom-skip index ws none clear = λ v. ground (arith, clear (v - 64), zero-test_bit v)
FirstFrom-skip index ws (some f) (g, e, t, clear) =
    let back : g + 64 - 64 ≡ g = omega arith in
    (
      g + 64,
      omega arith,
      rw (le→ltb (g + 64) 64 (omega arith), back) t,
      λ v h. ground (arith, clear (v - 64), zero-test_bit v),
    )

pub first_from_lem :
    (index : ℕ) (ws : List ℕ)
    → AllWords ws
    → FirstFrom (index * 64) (in_words ws) (first_from index ws)
unfolding first_from
first_from_lem index [] a = λ v. refl
first_from_lem index (w ∷ ws) a = elim (order w 0) [
  | inl less ↦ absurd (omega arith)
  | inr (inl filled) ↦
      let (b, t, clear) = countr_zero_lem w a.0 filled in
      rw (gt→== w 0 filled) (
        countr_zero w,
        refl,
        rw (lt→ltb _ 64 b) t,
        λ v h. rw (lt→ltb v 64 (omega arith)) (clear v h),
      )
  | inr (inr blank) ↦
      let z : w ≡ 0 = omega arith in
      rw z (FirstFrom-skip index ws (first_from (index + 1) ws) (first_from_lem (index + 1) ws a.1))
]

-- The bits of a word past `b`.
test_bit_masked :
    (w b i : ℕ)
    → b < 64
    → i < 64
    → test_bit (bit_and w (complement (consumed_mask b))) i ≡ (test_bit w i && ltb b i)
test_bit_masked w b i h k = elim (order b 63) [
  | inl less ↦
      let m : consumed_mask b ≡ 2 ^ (b + 1) - 1 = ground arith in
      ground (
        arith,
        m,
        test_bit-bit_and w (complement (2 ^ (b + 1) - 1)) i,
        test_bit-complement 64 (2 ^ (b + 1) - 1) i (omega (arith, mask_small (b + 1) (omega arith)))
            k,
        test_bit-low_mask (b + 1) i,
      )
  | inr more ↦
      let m : consumed_mask b ≡ 2 ^ 64 - 1 = ground arith in
      ground (
        arith,
        m,
        test_bit-bit_and w (complement (2 ^ 64 - 1)) i,
        test_bit-complement 64 (2 ^ 64 - 1) i (omega arith) k,
        test_bit-low_mask 64 i,
      )
]

in_words-drop : (q u : ℕ) (ws : List ℕ) → in_words (drop q ws) u ≡ in_words ws (q * 64 + u)
in_words-drop zero u ws = let e : zero * 64 + u ≡ u = omega arith in rw e refl
in_words-drop (suc q) u [] = refl
in_words-drop (suc q) u (w ∷ ws) =
    let e : suc q * 64 + u - 64 ≡ q * 64 + u = omega arith in
    rw (le→ltb (suc q * 64 + u) 64 (omega arith), e) (in_words-drop q u ws)

-- The values of the words from that of `v` on.
abbrev shifted : List ℕ → ℕ → ℕ → Bool
shifted ws v u = leb (v / 64 * 64) u && in_words ws (u - v / 64 * 64)

-- Past a word with no later bit.
IsNext-on :
    (v w : ℕ) (rest : List ℕ) (r : Option ℕ)
    → v / 64 * 64 + 64 + 64 * length rest < no_next
    → ((i : ℕ) → v % 64 < i → i < 64 → test_bit w i ≡ false)
    → FirstFrom ((v / 64 + 1) * 64) (in_words rest) r
    → IsNext (shifted (w ∷ rest) v) v (or_no_next r)
IsNext-on v w rest none bound passed clear = inl (
  refl,
  λ u h. elim (order u (v / 64 * 64 + 64)) [
    | inl here ↦ ground (arith, passed (u - v / 64 * 64))
    | inr later ↦ ground (arith, clear (u - v / 64 * 64 - 64))
  ],
)
IsNext-on v w rest (some f) bound passed (g, e, t, clear) = elim (order g (64 * length rest)) [
  | inr past ↦ let gone = in_words_past rest g (omega arith) in absurd (ground (arith, gone, t))
  | inl inside ↦
      let at : f - v / 64 * 64 - 64 ≡ g = omega arith in
      inr (
        omega arith,
        omega arith,
        rw (le→leb (v / 64 * 64) f (omega arith), le→ltb (f - v / 64 * 64) 64 (omega arith), at) t,
        λ u h k. elim (order u (v / 64 * 64 + 64)) [
          | inl here ↦ ground (arith, passed (u - v / 64 * 64))
          | inr later ↦ ground (arith, clear (u - v / 64 * 64 - 64))
        ],
      )
]

next_in_lem :
    (v : ℕ) (ws : List ℕ)
    → AllWords ws
    → v / 64 * 64 + 64 * length ws < no_next
    → IsNext (shifted ws v) v (next_in v ws)
unfolding next_in
next_in_lem v [] a bound = inl (refl, λ u h. ground arith)
next_in_lem v (w ∷ rest) a bound =
    let m = bit_and w (complement (consumed_mask (v % 64))) in
    let fit = clear_bit-small w (complement (consumed_mask (v % 64))) a.0 in
    let same : (i : ℕ) → i < 64 → test_bit m i ≡ (test_bit w i && ltb (v % 64) i) =
      λ i h. test_bit_masked w (v % 64) i (omega arith) h in
    elim (order m 0) [
      | inl less ↦ absurd (omega arith)
      | inr (inl filled) ↦
          let (b, t, clear) = countr_zero_lem m fit filled in
          let f = countr_zero m in
          let on = same f b in
          let at : v / 64 * 64 + f - v / 64 * 64 ≡ f = omega arith in
          rw (gt→== m 0 filled) (
            inr (
              ground (arith, on, t),
              omega (arith, b),
              rw (le→leb (v / 64 * 64) (v / 64 * 64 + f) (omega arith), at, lt→ltb f 64 b)
                  (ground (arith, on, t)),
              λ u h k.
                  let j = u - v / 64 * 64 in
                  ground (arith, same j (omega (arith, b)), clear j (omega arith)),
            ))
      | inr (inr blank) ↦
          let z : m ≡ 0 = sym blank in
          rw (eq→== m 0 z) (
            IsNext-on v w rest (first_from (v / 64 + 1) rest) (omega arith)
              (λ i h k.
                let off : test_bit m i ≡ false = ap (λ x. test_bit x i) z ∙ zero-test_bit i in
                ground (arith, same i k, off))
              (first_from_lem (v / 64 + 1) rest a.1))
    ]

drop-AllWords : (q : ℕ) (ws : List ℕ) → AllWords ws → AllWords (drop q ws)
drop-AllWords zero ws a = a
drop-AllWords (suc q) [] a = tt
drop-AllWords (suc q) (w ∷ ws) a = drop-AllWords q ws a.1

-- From any value of a domain of at most 2^16 values, `next_after` gives the least greater value of
-- a well formed bitset, and `no_next` exactly if there is none.
pub bitset_next_after_lem :
    (dom : ℕ) (c : BitsetContainer) (value : ℕ)
    → dom ≤ 2 ^ 16
    → IsValid dom c
    → value < dom
    → IsNext (in_words c.words) value (next_after c value)
unfolding next_after
bitset_next_after_lem dom c value small valid h =
    let n = length-drop (value / 64) c.words in
    IsNext-cong (shifted (drop (value / 64) c.words) value) (in_words c.words) value _
      (λ u k.
        let at : value / 64 * 64 + (u - value / 64 * 64) ≡ u = omega arith in
        let same = in_words-drop (value / 64) (u - value / 64 * 64) c.words in
        rw (le→leb (value / 64 * 64) u (omega arith)) (ap (in_words c.words) (sym at) ∙ sym same))
      (next_in_lem value (drop (value / 64) c.words)
        (drop-AllWords (value / 64) c.words valid.words_fit) (omega (arith, n, valid.sized)))
