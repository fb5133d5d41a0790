-- ===== src/Bitset/Endpoints.antt =====
-- The endpoints found again from the words.
use roaring.Prelude.{
  ℕ, zero, suc, ◌+◌, ◌-◌, ◌*◌, ◌/◌, ◌%◌, ◌^◌, ◌≤◌, ◌<◌, ◌≡◌, ◌∙◌, sym, refl, ap, inl, inr, Bool,
  Bool-cases, true, false, not, ◌&&◌, ◌||◌, List, Option, none, some, ◌>>=◌, ◌==◌, gt→==, eq→==,
  arith, order, length, get_elem?, mod-eq_of_lt,
}
use roaring.Words.{test_bit, countl_zero, word_bits, AllWords}
use roaring.Words.Bits.{zero-test_bit, zero_of}
use roaring.Words.Scan.{leading_lem}
use roaring.Bitset.{BitsetContainer, first_from, last_before, ensure_endpoints}
use roaring.Bitset.Member.{in_words, word_there, get_elem?-AllWords}
use roaring.Bitset.Ends.{in_words_past, in_words-none}
use roaring.Bitset.Walk.{FirstFrom, first_from_lem}
use roaring.Bitset.Valid.{AreEnds, IsValid}

-- The last set bit of a word that is not 0.
countl_zero_lem :
    (w : ℕ)
    → w < 2 ^ 64
    → 0 < w
    → (countl_zero w < 64)
      × (test_bit w (63 - countl_zero w) ≡ true)
      × ((j : ℕ) → 63 - countl_zero w < j → j < 64 → test_bit w j ≡ false)
countl_zero_lem w fit filled = elim (leading_lem w word_bits) [
  | inl (e, clear) ↦ absurd (omega (arith, zero_of w fit clear))
  | inr r ↦ r
]

-- Word `n`, and its bits among the values.
word_at :
    (ws : List ℕ) (n : ℕ)
    → AllWords ws
    → n < length ws
    → (w : ℕ) × (get_elem? ws n ≡ some w)
      × (w < 2 ^ 64)
      × ((i : ℕ) → i < 64 → in_words ws (n * 64 + i) ≡ test_bit w i)
word_at ws n a h =
    let (w, e, t) = word_there ws (n * 64) (omega arith) in
    let q : n * 64 / 64 ≡ n = omega arith in
    let e' : get_elem? ws n ≡ some w = rw q at e in
    (
      w,
      e',
      get_elem?-AllWords ws n w a e',
      λ i k.
          let (x, p, u) = word_there ws (n * 64 + i) (omega arith) in
          let q' : (n * 64 + i) / 64 ≡ n = omega arith in
          let r : (n * 64 + i) % 64 ≡ i = omega arith in
          let p' : get_elem? ws n ≡ some x = rw q' at p in
          let u' : in_words ws (n * 64 + i) ≡ test_bit x i = rw r at u in
          let same : some x ≡ some w = sym p' ∙ e' in ground (arith, u', same),
    )

-- The last value under a bound, or none.
abbrev LastUnder : ℕ → (ℕ → Bool) → Option ℕ → Type 0
LastUnder n p none = (v : ℕ) → v < n → p v ≡ false
LastUnder n p (some l) = (l < n) × (p l ≡ true) × ((v : ℕ) → l < v → v < n → p v ≡ false)

LastUnder-skip :
    (n : ℕ) (ws : List ℕ) (r : Option ℕ)
    → LastUnder (n * 64) (in_words ws) r
    → ((i : ℕ) → i < 64 → in_words ws (n * 64 + i) ≡ false)
    → LastUnder (suc n * 64) (in_words ws) r
LastUnder-skip n ws none clear blank = λ v h. elim (order v (n * 64)) [
  | inl low ↦ clear v low
  | inr high ↦
      let at : n * 64 + (v - n * 64) ≡ v = omega arith in
      rw at at (blank (v - n * 64) (omega arith))
]
LastUnder-skip n ws (some l) (b, t, clear) blank = (
  omega arith,
  t,
  λ v k h. elim (order v (n * 64)) [
    | inl low ↦ clear v k low
    | inr high ↦
        let at : n * 64 + (v - n * 64) ≡ v = omega arith in
        rw at at (blank (v - n * 64) (omega arith))
  ],
)

last_before_lem :
    (ws : List ℕ) (n : ℕ)
    → AllWords ws
    → n ≤ length ws
    → LastUnder (n * 64) (in_words ws) (last_before ws n)
unfolding last_before
last_before_lem ws zero a h = λ v k. absurd (omega arith)
last_before_lem ws (suc n) a h =
    let (w, e, fit, same) = word_at ws n a (omega arith) in
    elim (order w 0) [
      | inl less ↦ absurd (omega arith)
      | inr (inl filled) ↦
          let (b, t, clear) = countl_zero_lem w fit filled in
          rw (e, gt→== w 0 filled)
            (
              omega arith,
              same (63 - countl_zero w) (omega arith) ∙ t,
              λ v k l.
                  let at : n * 64 + (v - n * 64) ≡ v = omega arith in
                  rw at at (same (v - n * 64) (omega arith))
                  ∙ clear (v - n * 64) (omega arith) (omega arith),
            )
      | inr (inr blank) ↦
          let z : w ≡ 0 = sym blank in
          rw (e, eq→== w 0 z)
            (LastUnder-skip n ws (last_before ws n) (last_before_lem ws n a (omega arith))
              (λ i k. same i k ∙ (ap (λ x. test_bit x i) z ∙ zero-test_bit i)))
    ]

module _ (dom : ℕ) (small : dom ≤ 2 ^ 16) (c : BitsetContainer) (valid : IsValid dom c) where
  abbrev Found : Option BitsetContainer → Type 0
  Found o =
      (r : BitsetContainer) × (o ≡ some r)
      × IsValid dom r
      × (r.words ≡ c.words)
      × AreEnds false (in_words c.words) r.min_value r.max_value

  -- A container with other endpoints.
  with_ends :
      (least greatest : ℕ)
      → AreEnds false (in_words c.words) least greatest
      → Found (some (record c { endpoints_stale = false; min_value = least; max_value = greatest }))
  with_ends least greatest ends = (
    record c { endpoints_stale = false; min_value = least; max_value = greatest },
    refl,
    record {
      sized = valid.sized;
      words_fit = valid.words_fit;
      counted = valid.counted;
      ends = ends;
    },
    refl,
    ends,
  )

  inside : (v : ℕ) → in_words c.words v ≡ true → v < dom
  inside v t = elim (order v dom) [
    | inl low ↦ low
    | inr high ↦
        let off = in_words_past c.words v (omega (arith, valid.sized)) in
        absurd (ground (arith, off, t))
  ]

  both_ends :
      (f l : ℕ)
      → in_words c.words f ≡ true
      → ((v : ℕ) → v < f → in_words c.words v ≡ false)
      → in_words c.words l ≡ true
      → ((v : ℕ) → l < v → v < dom → in_words c.words v ≡ false)
      → AreEnds false (in_words c.words) (f % dom) (l % dom)
  both_ends f l at_f before at_l after =
      let f' : f % dom ≡ f = mod-eq_of_lt (inside f at_f) in
      let l' : l % dom ≡ l = mod-eq_of_lt (inside l at_l) in
      rw (f', l')
        (inr (
          at_f,
          at_l,
          λ v. elim (Bool-cases (in_words c.words v)) [
            | inr off ↦ ground arith
            | inl on ↦ ground (arith, before v, after v, inside v on)
          ],
        ))

  -- What the two scans find.
  found :
      (f l : Option ℕ)
      → FirstFrom (0 * 64) (in_words c.words) f
      → LastUnder (length c.words * 64) (in_words c.words) l
      → Found (elim f [
        | none ↦ some (record c { endpoints_stale = false; min_value = 0; max_value = 0 })
        | some front ↦ (do
          back ← l
          some (record c {
            endpoints_stale = false;
            min_value = front % dom;
            max_value = back % dom;
          }))
      ])
  found none l first last = with_ends 0 0 (inl first)
  found (some f) none (g, e, t, clear) last =
      let h = inside g t in absurd (ground (arith, last g (omega (arith, valid.sized)), t))
  found (some f) (some l) (g, e, t, clear) (b, u, after) =
      let same : f ≡ g = omega arith in
      let t' : in_words c.words f ≡ true = rw same t in
      with_ends (f % dom) (l % dom) (
        both_ends f l t' (λ v h. clear v (omega arith)) u
          (λ v h k. after v h (omega (arith, valid.sized))))

  -- On a well formed bitset over a domain of at most 2^16 values, its count and endpoints stale or
  -- not: `ensure_endpoints` reads nothing out of bounds, keeps the words and the bitset well
  -- formed, and unless the bitset is empty its endpoints are the least and the greatest value.
  pub ensure_endpoints_lem :
      (r : BitsetContainer) × (ensure_endpoints dom c ≡ some r)
      × IsValid dom r
      × (r.words ≡ c.words)
      × AreEnds false (in_words c.words) r.min_value r.max_value
  unfolding ensure_endpoints
  ensure_endpoints_lem =
      elim (Bool-cases (not c.endpoints_stale || (not c.cardinality_stale && c.cardinality == 0))) [
        | inl kept ↦ rw kept (
          c,
          refl,
          valid,
          refl,
          elim (Bool-cases c.endpoints_stale) [
            | inr fresh ↦ rw fresh at valid.ends
            | inl stale ↦
                let exact : c.cardinality_stale ≡ false = ground (arith, kept, stale) in
                let counted = rw exact at valid.counted in
                inl (λ v.
                  in_words-none dom c.words v valid.sized (ground (arith, kept, stale, counted)))
          ],
        )
        | inr scan ↦ rw scan (
            found (first_from 0 c.words) (last_before c.words (length c.words))
              (first_from_lem 0 c.words valid.words_fit)
              (last_before_lem c.words (length c.words) valid.words_fit (omega arith)))
      ]
