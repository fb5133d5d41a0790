-- ===== src/Ranked/Upto.antt =====
-- What `std::ranges::upper_bound` finds among sorted keys (how many elements have a key up to the limit), and
-- what it is to be the value of a rank.
use roaring.Prelude.{
  ℕ, Bool, true, count_below, zero, suc, ◌≤◌, ◌<◌, ◌≡◌, refl, List, [], ◌∷◌, some, leb,
  if◌then◌else◌, arith, length,
}
use roaring.Gallop.{IsSplit, partition_point, partition_point_lem}

module _ {ℓ} {A : Type ℓ} (key : A → ℕ) where
  abbrev pub upto : List A → ℕ → ℕ
  upto [] limit = 0
  upto (x ∷ xs) limit = if leb (key x) limit then suc (upto xs limit) else 0

  -- Keys that do not fall, from `lo` on.
  abbrev pub SortedBy : ℕ → List A → Type 0
  SortedBy lo [] = Unit
  SortedBy lo (x ∷ xs) = (lo ≤ key x) × SortedBy (key x) xs

  pub upto-le-length : (xs : List A) (limit : ℕ) → upto xs limit ≤ length xs
  upto-le-length [] limit = omega arith
  upto-le-length (x ∷ xs) limit = ground (arith, upto-le-length xs limit)

  pub upto_above : (lo limit : ℕ) (xs : List A) → SortedBy lo xs → limit < lo → upto xs limit ≡ 0
  upto_above lo limit [] s h = refl
  upto_above lo limit (x ∷ xs) s h = ground arith

  upto-IsSplit :
      (lo limit : ℕ) (xs : List A)
      → SortedBy lo xs
      → IsSplit (λ x. leb (key x) limit) xs (length xs) (upto xs limit)
  upto-IsSplit lo limit [] s i h = absurd (omega arith)
  upto-IsSplit lo limit (x ∷ xs) s zero h = (x, refl, ground arith)
  upto-IsSplit lo limit (x ∷ xs) s (suc i) h =
      let (y, e, t) = upto-IsSplit (key x) limit xs s.1 i (omega arith) in
      (y, e, ground (arith, upto_above (key x) limit xs s.1))

  pub partition_point-upto :
      (lo limit : ℕ) (xs : List A)
      → SortedBy lo xs
      → partition_point (λ x. leb (key x) limit) xs (length xs) 0 ≡ some (upto xs limit)
  partition_point-upto lo limit xs s =
      partition_point_lem (λ x. leb (key x) limit) xs (length xs) (upto xs limit)
        (upto-IsSplit lo limit xs s) (upto-le-length xs limit) (length xs) 0 (omega arith)
        (omega (arith, upto-le-length xs limit)) (omega arith)

-- Which value a rank selects.
abbrev pub Chosen : (ℕ → Bool) → ℕ → ℕ → Type 0
Chosen p within v = (p v ≡ true) × (count_below v p ≡ within)
