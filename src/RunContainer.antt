-- ===== src/RunContainer.antt =====
-- The run container of include/frsr/roaring/run_container.hpp. `dom` is the number of low values of
-- the layout (`low_domain_size`), so a low value is a number under `dom`.
pub mod Search
pub mod Valid
pub mod Add
pub mod Remove
pub mod Ranges
pub mod Walk
pub mod Build
use roaring.Prelude.{
  ℕ, zero, suc, ◌+◌, ◌-◌, ◌/◌, ◌%◌, ◌^◌, min, max, Bool, true, false, not, ◌&&◌, ◌||◌, List, [],
  ◌∷◌, Option, none, some, ◌>>=◌, ltb, leb, ◌==◌, if◌then◌else◌, length, get_elem?, ℤ, pos, negsuc,
  sub_ℕ, is_empty,
}
use roaring.Runs.{Run, run_size}

pub record RunContainer : Type 0 where
  pub runs : List Run
  pub cardinality : ℕ

-- An `int32_t` index: of the run that begins at `ikey`, or -(insertion point + 1). The indices stay
-- under 2^16, so their sum does not wrap.
unfoldable pub binary_search_loop : ℕ → List Run → ℕ → ℕ → ℤ → Option ℤ
binary_search_loop zero array ikey low high = none
binary_search_loop (suc fuel) array ikey low (negsuc _) = some (negsuc low)
binary_search_loop (suc fuel) array ikey low (pos high) =
    let middle = (low + high) / 2 in
    let right = binary_search_loop fuel array ikey (middle + 1) (pos high) in
    let left = binary_search_loop fuel array ikey low (sub_ℕ middle 1) in
    if leb low high
    then (do
      current ← get_elem? array middle
      if ltb current.begin ikey
          then right
          else if ltb ikey current.begin
          then left
          else some (pos middle))
    else some (negsuc low)

-- `high` starts at `lenarray - 1`.
unfoldable pub interleaved_binary_search : List Run → ℕ → Option ℤ
unfolding binary_search_loop
interleaved_binary_search array ikey =
    binary_search_loop (length array + 1) array ikey 0 (sub_ℕ (length array) 1)

-- - x - 2
abbrev neg_minus_two : ℤ → ℤ
neg_minus_two (pos n) = negsuc (n + 1)
neg_minus_two (negsuc n) = sub_ℕ n 1

pub ends_at_or_after : List Run → ℕ → ℤ → Option Bool
ends_at_or_after runs value (negsuc _) = some false
ends_at_or_after runs value (pos index) = do r ← get_elem? runs index; some (leb value r.end)

pub contains_at : List Run → ℕ → ℤ → Option Bool
unfolding ends_at_or_after
contains_at runs value (pos _) = some true
contains_at runs value (negsuc n) = ends_at_or_after runs value (neg_minus_two (negsuc n))

unfoldable pub contains : RunContainer → ℕ → Option Bool
unfolding contains_at
contains c value = do index ← interleaved_binary_search c.runs value; contains_at c.runs value index

abbrev pub separated_before : Run → ℕ → Bool
separated_before current next_begin = ltb (current.end + 1) next_begin

abbrev pub separated_after : ℕ → Run → Bool
separated_after previous_end current = ltb (previous_end + 1) current.begin

-- The loop of `add_closed_range` over the runs that are left: what it still pushes to `merged`.
pub merge_range : ℕ → ℕ → ℕ → ℕ → Bool → List Run → List Run
merge_range begin end new_begin new_end inserted [] =
    if inserted then [] else record { begin = new_begin; end = new_end } ∷ []
merge_range begin end new_begin new_end inserted (current ∷ rest) =
    let before = current ∷ merge_range begin end new_begin new_end inserted rest in
    let after = current ∷ merge_range begin end new_begin new_end true rest in
    let joined =
      merge_range begin end (min new_begin current.begin) (max new_end current.end) inserted rest in
    if separated_before current begin
    then before
    else (if separated_after end current
        then (if inserted then after else record { begin = new_begin; end = new_end } ∷ after)
        else joined)

-- The loop of `remove_closed_range`. `begin - 1` is taken of a `begin` above another value, and
-- `end + 1` of one under the largest, so neither wraps before the cast.
-- The body, for one run: what it pushes stands before `rest`, what the later runs push.
pub cut_run : ℕ → ℕ → ℕ → Run → List Run → List Run
cut_run dom begin end current rest =
    let right =
      if ltb end current.end && not (end == dom - 1)
      then record { begin = (end + 1) % dom; end = current.end } ∷ rest
      else rest in
    if ltb current.end begin || ltb end current.begin
    then current ∷ rest
    else (if ltb current.begin begin
        then record { begin = current.begin; end = (begin - 1) % dom } ∷ right
        else right)

pub cut_range : ℕ → ℕ → ℕ → List Run → List Run
unfolding cut_run
cut_range dom begin end [] = []
cut_range dom begin end (current ∷ rest) =
    cut_run dom begin end current (cut_range dom begin end rest)

-- `cardinality_type` has 16 bits if the domain's size fits them, else 32.
abbrev pub cardinality_mod : ℕ → ℕ
cardinality_mod dom = if leb dom 65535 then 2 ^ 16 else 2 ^ 32

unfoldable pub add_sizes : ℕ → ℕ → List Run → ℕ
add_sizes dom total [] = total
add_sizes dom total (current ∷ rest) =
    add_sizes dom ((total + run_size current % cardinality_mod dom) % cardinality_mod dom) rest

-- Every function that changes `runs` ends in this call.
unfoldable pub recalculate_cardinality : ℕ → List Run → RunContainer
unfolding add_sizes
recalculate_cardinality dom runs = record { runs = runs; cardinality = add_sizes dom 0 runs }

unfoldable pub add_closed_range : ℕ → RunContainer → ℕ → ℕ → RunContainer
unfolding merge_range recalculate_cardinality
add_closed_range dom c begin end =
    if ltb end begin
    then c
    else recalculate_cardinality dom (merge_range begin end begin end false c.runs)

unfoldable pub remove_closed_range : ℕ → RunContainer → ℕ → ℕ → RunContainer
unfolding cut_range recalculate_cardinality
remove_closed_range dom c begin end =
    if ltb end begin || is_empty c.runs
    then c
    else recalculate_cardinality dom (cut_range dom begin end c.runs)

-- Whether the value was new.
pub add : ℕ → RunContainer → ℕ → RunContainer × Bool
add dom c value =
    let c' = add_closed_range dom c value value in (c', not (c'.cardinality == c.cardinality))

-- Whether the value was there.
pub remove : ℕ → RunContainer → ℕ → RunContainer × Bool
remove dom c value =
    let c' = remove_closed_range dom c value value in (c', not (c'.cardinality == c.cardinality))
