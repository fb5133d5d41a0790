-- ===== src/Arrays.antt =====
-- The scalar merges of two sorted arrays, from include/frsr/roaring/array_ops.hpp. A pointer into an array with the
-- values from there to its end is the list of these values.
pub mod Steps
pub mod Merge
pub mod Blocks
pub mod Sets
use roaring.Prelude.{
  ℕ, zero, suc, ◌+◌, Bool, true, false, ◌&&◌, List, [], ◌∷◌, ◌++◌, Option, none, some, ◌>>=◌, leb,
  ltb, ◌==◌, if◌then◌else◌, length, get_elem?, take, drop,
}

-- The four functions are one merge, apart from which values they write: those of the left array
-- alone, of the right one alone, of both.
pub record Kept : Type 0 where
  pub left : Bool
  pub right : Bool
  pub both : Bool

-- Written, or passed over.
abbrev pub kept : Bool → List ℕ → List ℕ
kept true xs = xs
kept false xs = []

-- What a step writes: `out[ k ]` is the smaller of the two values, and `k` moves on if it is kept.
abbrev pub written : Kept → ℕ → ℕ → List ℕ
written k x y =
    if ltb x y
    then kept k.left (x ∷ [])
    else (if ltb y x then kept k.right (y ∷ []) else kept k.both (x ∷ []))

-- `equal_blocks4`
pub equal_blocks : List ℕ → List ℕ → Bool
equal_blocks [] [] = true
equal_blocks [] (y ∷ ys) = false
equal_blocks (x ∷ xs) [] = false
equal_blocks (x ∷ xs) (y ∷ ys) = x == y && equal_blocks xs ys

-- What is written, with what is left of the two arrays.
pub record Stepped : Type 0 where
  pub out : List ℕ
  pub a : List ℕ
  pub b : List ℕ

-- The branchless steps. `i` moves on if `x <= y`, `j` if `x >= y`.
pub merge_steps : Kept → ℕ → List ℕ → List ℕ → Option Stepped
merge_steps k zero a b = some (record { out = []; a = a; b = b })
merge_steps k (suc left) [] b = none
merge_steps k (suc left) (x ∷ a) [] = none
merge_steps k (suc left) (x ∷ a) (y ∷ b) = do
  s ← merge_steps k left (if leb x y then a else x ∷ a) (if leb y x then b else y ∷ b)
  some (record s { out = written k x y ++ s.out })

abbrev pub with_written : List ℕ → Option (List ℕ) → Option (List ℕ)
with_written out rest = do more ← rest; some (out ++ more)

-- The loop for the values that the blocks leave, then the tails.
pub merge_values : Kept → ℕ → List ℕ → List ℕ → Option (List ℕ)
merge_values k zero a b = none
merge_values k (suc fuel) [] b = some (kept k.right b)
merge_values k (suc fuel) (x ∷ a) [] = some (kept k.left (x ∷ a))
merge_values k (suc fuel) (x ∷ a) (y ∷ b) =
    with_written (written k x y)
      (merge_values k fuel (if leb x y then a else x ∷ a) (if leb y x then b else y ∷ b))

-- The loop over blocks of four, while four values remain on each side.
pub merge_blocks : Kept → ℕ → List ℕ → List ℕ → Option (List ℕ)
unfolding equal_blocks merge_steps merge_values
merge_blocks k zero a b = none
merge_blocks k (suc fuel) a b =
    let left_below = with_written (kept k.left (take 4 a)) (merge_blocks k fuel (drop 4 a) b) in
    let right_below = with_written (kept k.right (take 4 b)) (merge_blocks k fuel a (drop 4 b)) in
    let equal = with_written (kept k.both (take 4 a)) (merge_blocks k fuel (drop 4 a) (drop 4 b)) in
    let stepped = (do s ← merge_steps k 4 a b; with_written s.out (merge_blocks k fuel s.a s.b)) in
    if leb 4 (length a) && leb 4 (length b)
    then (do
      a0 ← get_elem? a 0
      a3 ← get_elem? a 3
      b0 ← get_elem? b 0
      b3 ← get_elem? b 3
      if ltb a3 b0
          then left_below
          else (if ltb b3 a0
              then right_below
              else (if equal_blocks (take 4 a) (take 4 b) then equal else stepped)))
    else merge_values k (length a + length b + 1) a b

-- Every round passes a value.
pub merge_sorted : Kept → List ℕ → List ℕ → Option (List ℕ)
unfolding merge_blocks
merge_sorted k a b = merge_blocks k (length a + length b + 1) a b

pub intersect_sorted_scalar : List ℕ → List ℕ → Option (List ℕ)
intersect_sorted_scalar = merge_sorted (record { left = false; right = false; both = true })

pub union_sorted_scalar : List ℕ → List ℕ → Option (List ℕ)
union_sorted_scalar = merge_sorted (record { left = true; right = true; both = true })

pub difference_sorted_scalar : List ℕ → List ℕ → Option (List ℕ)
difference_sorted_scalar = merge_sorted (record { left = true; right = false; both = false })

pub xor_sorted_scalar : List ℕ → List ℕ → Option (List ℕ)
xor_sorted_scalar = merge_sorted (record { left = true; right = true; both = false })
