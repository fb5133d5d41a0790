-- ===== src/ArrayRef/Update/Insert.antt =====
-- A value put into a sorted array at its place, or taken out of it.
use roaring.Prelude.{
  ℕ, zero, suc, ◌+◌, ◌≤◌, ◌<◌, ◌≡◌, refl, ap, inl, inr, true, false, not, ◌&&◌, ◌||◌, List, [], ◌∷◌,
  ◌++◌, some, lt→ltb, le→ltb, ◌==◌, arith, order, length, get_elem?, take, drop,
}
use roaring.Values.{in_values, in_values_before, Ascending, Ascending-mono, AllBelow}
use roaring.ArrayRef.Rank.{rank}

abbrev pub insert_at : ℕ → ℕ → List ℕ → List ℕ
insert_at at value xs = take at xs ++ (value ∷ drop at xs)

abbrev pub remove_at : ℕ → List ℕ → List ℕ
remove_at at xs = take at xs ++ drop (suc at) xs

pub in_values-insert_at :
    (at value v : ℕ) (xs : List ℕ)
    → in_values (insert_at at value xs) v ≡ (v == value || in_values xs v)
in_values-insert_at zero value v xs = refl
in_values-insert_at (suc at) value v [] = refl
in_values-insert_at (suc at) value v (x ∷ xs) = ground (arith, in_values-insert_at at value v xs)

pub insert_at-Ascending :
    (lo value : ℕ) (xs : List ℕ)
    → lo ≤ value
    → Ascending lo xs
    → in_values xs value ≡ false
    → Ascending lo (insert_at (rank xs value) value xs)
insert_at-Ascending lo value [] h w n = (h, tt)
insert_at-Ascending lo value (x ∷ xs) h w n = elim (order x value) [
  | inl less ↦
      rw (lt→ltb x value less)
        (w.0, insert_at-Ascending (x + 1) value xs (omega arith) w.1 (ground arith))
  | inr more ↦ rw (le→ltb x value (omega arith)) (h, ground arith)
]

pub insert_at-AllBelow :
    (n at value : ℕ) (xs : List ℕ) → value < n → AllBelow n xs → AllBelow n (insert_at at value xs)
insert_at-AllBelow n zero value xs h b = (h, b)
insert_at-AllBelow n (suc at) value [] h b = (h, tt)
insert_at-AllBelow n (suc at) value (x ∷ xs) h b = (b.0, insert_at-AllBelow n at value xs h b.1)

pub in_values-remove_at :
    (lo value v : ℕ) (xs : List ℕ)
    → Ascending lo xs
    → in_values xs value ≡ true
    → in_values (remove_at (rank xs value) xs) v ≡ (in_values xs v && not (v == value))
in_values-remove_at lo value v [] w m = ground arith
in_values-remove_at lo value v (x ∷ xs) w m = elim (order x value) [
  | inl less ↦ rw (lt→ltb x value less) (ground (arith, in_values-remove_at (x + 1) value v xs w.1))
  | inr more ↦
      rw (le→ltb x value (omega arith))
        (ground (arith, in_values_before (x + 1) value xs w.1, in_values_before (x + 1) v xs w.1))
]

pub remove_at-Ascending :
    (lo at : ℕ) (xs : List ℕ) → Ascending lo xs → Ascending lo (remove_at at xs)
remove_at-Ascending lo zero [] w = tt
remove_at-Ascending lo (suc at) [] w = tt
remove_at-Ascending lo zero (x ∷ xs) w = Ascending-mono (x + 1) lo xs (omega arith) w.1
remove_at-Ascending lo (suc at) (x ∷ xs) w = (w.0, remove_at-Ascending (x + 1) at xs w.1)

pub remove_at-AllBelow : (n at : ℕ) (xs : List ℕ) → AllBelow n xs → AllBelow n (remove_at at xs)
remove_at-AllBelow n zero [] b = tt
remove_at-AllBelow n (suc at) [] b = tt
remove_at-AllBelow n zero (x ∷ xs) b = b.1
remove_at-AllBelow n (suc at) (x ∷ xs) b = (b.0, remove_at-AllBelow n at xs b.1)

pub insert_at-length :
    (value : ℕ) (xs : List ℕ) → insert_at (length xs) value xs ≡ xs ++ (value ∷ [])
insert_at-length value [] = refl
insert_at-length value (x ∷ xs) = ap (λ ys. x ∷ ys) (insert_at-length value xs)

-- The last value of a list that is not empty.
pub get_elem?-last : (x : ℕ) (xs : List ℕ) → (y : ℕ) × (get_elem? (x ∷ xs) (length xs) ≡ some y)
get_elem?-last x [] = (x, refl)
get_elem?-last x (y ∷ ys) = get_elem?-last y ys

pub get_elem?-appended :
    (value : ℕ) (xs : List ℕ) → get_elem? (xs ++ (value ∷ [])) (length xs) ≡ some value
get_elem?-appended value [] = refl
get_elem?-appended value (x ∷ xs) = get_elem?-appended value xs
