-- ===== src/Bitset/Ends.antt =====
-- Sets of values in words: when they are empty or the same, and their endpoints after a batch.
use roaring.Prelude.{
  ℕ, zero, suc, ◌-◌, ◌*◌, ◌≤◌, ◌<◌, ◌≡◌, ◌∙◌, sym, refl, fun_ext, inl, inr, min, max, Bool,
  Bool-cases, true, false, not, ◌&&◌, ◌||◌, List, [], ◌∷◌, leb, arith, order, length, count_below,
}
use roaring.Bitset.Member.{in_words}
use roaring.Bitset.Valid.{AreEnds}

-- A set with no value under a bound, and nothing past it.
pub none_below : (n : ℕ) (p : ℕ → Bool) → count_below n p ≡ 0 → (v : ℕ) → v < n → p v ≡ false
none_below zero p e v h = absurd (omega arith)
none_below (suc n) p e v h = elim (order v n) [
  | inl less ↦ none_below n p (omega arith) v less
  | inr (inl more) ↦ absurd (omega arith)
  | inr (inr at) ↦ let here : v ≡ n = sym at in rw here (ground (arith, e))
]

pub in_words_past : (ws : List ℕ) (v : ℕ) → 64 * length ws ≤ v → in_words ws v ≡ false
in_words_past [] v h = refl
in_words_past (w ∷ ws) v h = ground (arith, in_words_past ws (v - 64) (omega arith))

pub in_words-none :
    (dom : ℕ) (ws : List ℕ) (v : ℕ)
    → 64 * length ws ≡ dom
    → count_below dom (in_words ws) ≡ 0
    → in_words ws v ≡ false
in_words-none dom ws v sized e = elim (order v dom) [
  | inl low ↦ none_below dom (in_words ws) e v low
  | inr high ↦ in_words_past ws v (omega arith)
]

-- A part of a set that is as large is all of it.
pub subset-count :
    (n : ℕ) (p q : ℕ → Bool) → ((u : ℕ) → q u ≡ (p u || q u)) → count_below n p ≤ count_below n q
subset-count zero p q sub = omega arith
subset-count (suc n) p q sub = ground (arith, subset-count n p q sub, sub n)

pub subset-same :
    (n : ℕ) (p q : ℕ → Bool)
    → ((u : ℕ) → q u ≡ (p u || q u))
    → count_below n q ≡ count_below n p
    → (v : ℕ) → v < n
    → q v ≡ p v
subset-same zero p q sub e v h = absurd (omega arith)
subset-same (suc n) p q sub e v h =
    let less = subset-count n p q sub in
    elim (order v n) [
      | inl below ↦ subset-same n p q sub (ground (arith, less, e, sub n)) v below
      | inr (inl more) ↦ absurd (omega arith)
      | inr (inr at) ↦ let here : v ≡ n = sym at in rw here (ground (arith, less, e, sub n))
    ]

pub same_words :
    (dom : ℕ) (old new : List ℕ)
    → 64 * length old ≡ dom
    → 64 * length new ≡ dom
    → ((v : ℕ) → v < dom → in_words new v ≡ in_words old v)
    → in_words new ≡ in_words old
same_words dom old new e e' h = fun_ext λ v. elim (order v dom) [
  | inl low ↦ h v low
  | inr high ↦ in_words_past new v (omega arith) ∙ sym (in_words_past old v (omega arith))
]

-- A batch `s` that begins with `front` and ends with `back`.
module _ (s : ℕ → Bool) (front back : ℕ) (s_front : s front ≡ true) (s_back : s back ≡ true)
    (within : (u : ℕ) → s u ≡ (s u && (leb front u && leb u back))) where
  pub AreEnds-first :
      (p q : ℕ → Bool)
      → ((u : ℕ) → q u ≡ (s u || p u))
      → ((u : ℕ) → p u ≡ false)
      → AreEnds false q front back
  AreEnds-first p q same clear = inr (
    ground (arith, same front, s_front),
    ground (arith, same back, s_back),
    λ u. ground (arith, same u, clear u, within u),
  )

  pub AreEnds-widen :
      (p q : ℕ → Bool) (least greatest x : ℕ)
      → ((u : ℕ) → q u ≡ (s u || p u))
      → p x ≡ true
      → AreEnds false p least greatest
      → AreEnds false q (min least front) (max greatest back)
  AreEnds-widen p q least greatest x same some_x (inl clear) = absurd (ground (arith, clear x))
  AreEnds-widen p q least greatest x same some_x (inr (a, b, between)) = inr (
    elim (order least front) [
      | inl less ↦
          let m : min least front ≡ least = omega arith in rw m (ground (arith, same least, a))
      | inr more ↦
          let m : min least front ≡ front = omega arith in
          rw m (ground (arith, same front, s_front))
    ],
    elim (order greatest back) [
      | inl less ↦
          let m : max greatest back ≡ back = omega arith in rw m (ground (arith, same back, s_back))
      | inr more ↦
          let m : max greatest back ≡ greatest = omega arith in
          rw m (ground (arith, same greatest, b))
    ],
    λ u. ground (arith, same u, within u, between u),
  )

  pub AreEnds-shrink :
      (stale : Bool) (p q : ℕ → Bool) (least greatest : ℕ)
      → ((u : ℕ) → q u ≡ (p u && not (s u)))
      → AreEnds stale p least greatest
      → AreEnds (stale || (leb front least || leb greatest back)) q least greatest
  AreEnds-shrink true p q least greatest same ends = tt
  AreEnds-shrink false p q least greatest same ends =
      elim (Bool-cases (leb front least || leb greatest back)) [
        | inl at_end ↦ rw at_end tt
        | inr inside ↦ rw inside (elim ends [
          | inl clear ↦ inl (λ v. ground (arith, same v, clear v))
          | inr (a, b, between) ↦ inr (
            ground (arith, same least, within least, a, inside),
            ground (arith, same greatest, within greatest, b, inside),
            λ v. ground (arith, same v, between v),
          )
        ])
      ]
