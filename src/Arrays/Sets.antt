-- ===== src/Arrays/Sets.antt =====
-- The four set operations on sorted arrays.
use roaring.Prelude.{ℕ, ◌≡◌, ◌∙◌, refl, Bool, true, false, not, ◌&&◌, ◌||◌, xor, List, some}
use roaring.Values.{in_values, Ascending}
use roaring.Arrays.{
  intersect_sorted_scalar, union_sorted_scalar, difference_sorted_scalar, xor_sorted_scalar,
}
use roaring.Arrays.Steps.{is_kept}
use roaring.Arrays.Blocks.{merge_sorted-Merges}

only_both :
    (p q : Bool) → is_kept (record { left = false; right = false; both = true }) p q ≡ (p && q)
only_both true true = refl
only_both true false = refl
only_both false true = refl
only_both false false = refl

any : (p q : Bool) → is_kept (record { left = true; right = true; both = true }) p q ≡ (p || q)
any true true = refl
any true false = refl
any false true = refl
any false false = refl

only_left :
    (p q : Bool) → is_kept (record { left = true; right = false; both = false }) p q ≡ (p && not q)
only_left true true = refl
only_left true false = refl
only_left false true = refl
only_left false false = refl

only_one : (p q : Bool) → is_kept (record { left = true; right = true; both = false }) p q ≡ xor p q
only_one true true = refl
only_one true false = refl
only_one false true = refl
only_one false false = refl

-- On two ascending arrays, `intersect_sorted_scalar` ends within its rounds and reads nothing out
-- of bounds; it writes an ascending array of exactly the values that both have.
pub intersect_sorted_scalar_lem :
    (lo : ℕ) (a b : List ℕ)
    → Ascending lo a
    → Ascending lo b
    → (out : List ℕ) × (intersect_sorted_scalar a b ≡ some out)
      × Ascending lo out
      × ((v : ℕ) → in_values out v ≡ (in_values a v && in_values b v))
unfolding intersect_sorted_scalar
intersect_sorted_scalar_lem lo a b wa wb =
    let (out, e, m) = merge_sorted-Merges _ lo a b wa wb in
    (out, e, m.ordered, λ v. m.same v ∙ only_both (in_values a v) (in_values b v))

-- On two ascending arrays, `union_sorted_scalar` ends within its rounds and reads nothing out of
-- bounds; it writes an ascending array of exactly the values that either has.
pub union_sorted_scalar_lem :
    (lo : ℕ) (a b : List ℕ)
    → Ascending lo a
    → Ascending lo b
    → (out : List ℕ) × (union_sorted_scalar a b ≡ some out)
      × Ascending lo out
      × ((v : ℕ) → in_values out v ≡ (in_values a v || in_values b v))
unfolding union_sorted_scalar
union_sorted_scalar_lem lo a b wa wb =
    let (out, e, m) = merge_sorted-Merges _ lo a b wa wb in
    (out, e, m.ordered, λ v. m.same v ∙ any (in_values a v) (in_values b v))

-- On two ascending arrays, `difference_sorted_scalar` ends within its rounds and reads nothing out
-- of bounds; it writes an ascending array of exactly the values of the first that the second lacks.
pub difference_sorted_scalar_lem :
    (lo : ℕ) (a b : List ℕ)
    → Ascending lo a
    → Ascending lo b
    → (out : List ℕ) × (difference_sorted_scalar a b ≡ some out)
      × Ascending lo out
      × ((v : ℕ) → in_values out v ≡ (in_values a v && not (in_values b v)))
unfolding difference_sorted_scalar
difference_sorted_scalar_lem lo a b wa wb =
    let (out, e, m) = merge_sorted-Merges _ lo a b wa wb in
    (out, e, m.ordered, λ v. m.same v ∙ only_left (in_values a v) (in_values b v))

-- On two ascending arrays, `xor_sorted_scalar` ends within its rounds and reads nothing out of
-- bounds; it writes an ascending array of exactly the values that exactly one of them has.
pub xor_sorted_scalar_lem :
    (lo : ℕ) (a b : List ℕ)
    → Ascending lo a
    → Ascending lo b
    → (out : List ℕ) × (xor_sorted_scalar a b ≡ some out)
      × Ascending lo out
      × ((v : ℕ) → in_values out v ≡ xor (in_values a v) (in_values b v))
unfolding xor_sorted_scalar
xor_sorted_scalar_lem lo a b wa wb =
    let (out, e, m) = merge_sorted-Merges _ lo a b wa wb in
    (out, e, m.ordered, λ v. m.same v ∙ only_one (in_values a v) (in_values b v))
