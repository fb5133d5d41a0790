-- ===== src/Values.antt =====
-- Sorted lists of low values: what an array container holds, and what a walk over any container visits.
use roaring.Prelude.{
  ℕ, ◌+◌, ◌≤◌, ◌<◌, ◌≡◌, refl, Bool, false, ◌&&◌, ◌||◌, List, [], ◌∷◌, ◌++◌, leb, ◌==◌, arith,
  length, count_below, count_below-none, count_below-or, count_below-interval, count_below-cong,
}

abbrev pub in_values : List ℕ → ℕ → Bool
in_values [] v = false
in_values (x ∷ xs) v = v == x || in_values xs v

-- Strictly increasing, from `lo` on.
abbrev pub Ascending : ℕ → List ℕ → Type 0
Ascending lo [] = Unit
Ascending lo (x ∷ xs) = (lo ≤ x) × Ascending (x + 1) xs

-- In order, from `lo` on; a value may be repeated.
abbrev pub IsSorted : ℕ → List ℕ → Type 0
IsSorted lo [] = Unit
IsSorted lo (x ∷ xs) = (lo ≤ x) × IsSorted x xs

abbrev pub AllBelow : ℕ → List ℕ → Type 0
AllBelow n [] = Unit
AllBelow n (x ∷ xs) = (x < n) × AllBelow n xs

pub AllBelow-mono : (m n : ℕ) (xs : List ℕ) → m ≤ n → AllBelow m xs → AllBelow n xs
AllBelow-mono m n [] h b = tt
AllBelow-mono m n (x ∷ xs) h b = (omega arith, AllBelow-mono m n xs h b.1)

pub Ascending-mono : (lo lo' : ℕ) (xs : List ℕ) → lo' ≤ lo → Ascending lo xs → Ascending lo' xs
Ascending-mono lo lo' [] h w = tt
Ascending-mono lo lo' (x ∷ xs) h w = (omega arith, w.1)

pub IsSorted-mono : (lo lo' : ℕ) (xs : List ℕ) → lo' ≤ lo → IsSorted lo xs → IsSorted lo' xs
IsSorted-mono lo lo' [] h w = tt
IsSorted-mono lo lo' (x ∷ xs) h w = (omega arith, w.1)

pub Ascending→IsSorted : (lo : ℕ) (xs : List ℕ) → Ascending lo xs → IsSorted lo xs
Ascending→IsSorted lo [] w = tt
Ascending→IsSorted lo (x ∷ xs) w =
    (w.0, IsSorted-mono (x + 1) x xs (omega arith) (Ascending→IsSorted (x + 1) xs w.1))

pub in_values_before : (lo v : ℕ) (xs : List ℕ) → Ascending lo xs → v < lo → in_values xs v ≡ false
in_values_before lo v [] w h = refl
in_values_before lo v (x ∷ xs) w h = ground (arith, in_values_before (x + 1) v xs)

pub in_values-append :
    (xs ys : List ℕ) (v : ℕ) → in_values (xs ++ ys) v ≡ (in_values xs v || in_values ys v)
in_values-append [] ys v = refl
in_values-append (x ∷ xs) ys v = ground (arith, in_values-append xs ys v)

fresh_head :
    (x lo v : ℕ) (xs : List ℕ)
    → Ascending (x + 1) xs
    → (leb x v && leb v x) && in_values xs v ≡ false
fresh_head x lo v xs w = ground (arith, in_values_before (x + 1) v xs w)

single_eq : (x v : ℕ) (b : Bool) → (v == x || b) ≡ ((leb x v && leb v x) || b)
single_eq x v b = ground arith

-- A strictly increasing list is as long as the set of its values is large.
pub length-count :
    (n lo : ℕ) (xs : List ℕ)
    → Ascending lo xs
    → AllBelow n xs
    → length xs ≡ count_below n (in_values xs)
length-count n lo [] w b = omega (arith, count_below-none n)
length-count n lo (x ∷ xs) w b = omega (
  arith,
  length-count n (x + 1) xs w.1 b.1,
  count_below-cong n _ _ (λ v. single_eq x v (in_values xs v)),
  count_below-or n (λ v. leb x v && leb v x) (in_values xs) (λ v. fresh_head x lo v xs w.1),
  count_below-interval n x x (omega arith) b.0,
)
