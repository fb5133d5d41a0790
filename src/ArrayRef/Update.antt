-- ===== src/ArrayRef/Update.antt =====
-- The updates of an array container: `try_append`, `add`, `add_out_of_order`, `remove` and `sync_header` of
-- include/frsr/roaring/container_handle.hpp. A container is its values with the header that goes with them.
pub mod Insert
pub mod Valid
use roaring.Prelude.{
  ℕ, suc, ◌+◌, ◌-◌, Bool, true, false, not, ◌&&◌, ◌||◌, List, [], ◌∷◌, ◌++◌, Option, none, some,
  ◌>>=◌, ltb, ◌==◌, if◌then◌else◌, length, get_elem?, take, drop,
}
use roaring.Gallop.{partition_point}

pub record ArrayContainer : Type 0 where
  pub values : List ℕ
  pub cardinality : ℕ
  pub min_value : ℕ
  pub max_value : ℕ

-- `values.back()`
abbrev pub back : List ℕ → Option ℕ
back [] = none
back (x ∷ xs) = get_elem? (x ∷ xs) (length xs)

abbrev pub or_else : Option ℕ → ℕ → ℕ
or_else none y = y
or_else (some x) y = x

pub sync_header : ArrayContainer → List ℕ → ArrayContainer
sync_header c [] = record c { values = []; cardinality = 0 }
sync_header c (front ∷ rest) = record {
  values = front ∷ rest;
  cardinality = length (front ∷ rest);
  min_value = front;
  max_value = or_else (back (front ∷ rest)) front;
}

-- The append of a value above the others.
pub appended : ArrayContainer → ℕ → ArrayContainer
appended c value = record c {
  values = c.values ++ (value ∷ []);
  cardinality = length c.values + 1;
  max_value = value;
}

-- The first value, into an empty payload.
abbrev pub alone : ℕ → ArrayContainer
alone value = record { values = value ∷ []; cardinality = 1; min_value = value; max_value = value }

abbrev pub above : Option ℕ → ℕ → Bool
above none value = true
above (some last) value = ltb last value

-- Whether the value is above all others; of an empty array, it is.
abbrev pub above_all : List ℕ → ℕ → Bool
above_all values value = above (back values) value

-- `add_out_of_order`: the container, and whether the value was new.
pub add_out_of_order : ArrayContainer → ℕ → Option (ArrayContainer × Bool)
unfolding sync_header appended
add_out_of_order c value =
    let inserted : ℕ → ArrayContainer × Bool =
      λ at. (sync_header c (take at c.values ++ (value ∷ drop at c.values)), true) in
    if above_all c.values value
    then some (if length c.values == 0 then alone value else appended c value, true)
    else (do
      at ← partition_point (λ x. ltb x value) c.values (length c.values) 0
      found ← get_elem? c.values at
      some (if found == value then (c, false) else inserted at))

-- `has_room` is whether the payload holds another value without growing.
pub add : ArrayContainer → Bool → ℕ → Option (ArrayContainer × Bool)
unfolding add_out_of_order appended
add c has_room value =
    if not (length c.values == 0) && above_all c.values value && has_room
    then some (appended c value, true)
    else add_out_of_order c value

pub remove : ArrayContainer → ℕ → Option (ArrayContainer × Bool)
unfolding sync_header
remove c value =
    let removed : ℕ → ArrayContainer × Bool =
      λ at. (sync_header c (take at c.values ++ drop (suc at) c.values), true) in
    if above_all c.values value then some (c, false) else (do
      at ← partition_point (λ x. ltb x value) c.values (length c.values) 0
      found ← get_elem? c.values at
      some (if found == value then removed at else (c, false)))
