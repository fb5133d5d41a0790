-- ===== src/RunRef.antt =====
-- The run container of include/frsr/roaring/container_handle.hpp: `run_cref` and `run_ref`, a list of runs with
-- the header of the handle. `dom` is the number of low values of the layout; a read out of bounds gives `none`.
pub mod Valid
pub mod Update
pub mod Cursor
use roaring.Prelude.{
  ℕ, zero, suc, ◌+◌, ◌-◌, ◌%◌, ◌^◌, Bool, true, false, not, ◌||◌, List, [], ◌∷◌, Option, none, some,
  ◌>>=◌, ltb, ◌==◌, if◌then◌else◌, length, get_elem?, is_empty,
}
use roaring.Runs.{Run, run_size}
use roaring.RunContainer.{interleaved_binary_search, contains_at, merge_range, cut_range}
use roaring.RunContainer.Build.{runs_of}
use roaring.RunContainer.Walk.{no_next}

pub record RunHandle : Type 0 where
  pub runs : List Run
  pub cardinality : ℕ
  pub min_value : ℕ
  pub max_value : ℕ

-- The `std::uint32_t` sum of the sizes of the runs.
pub add_total : ℕ → List Run → ℕ
add_total total [] = total
add_total total (current ∷ rest) = add_total ((total + run_size current % 2 ^ 32) % 2 ^ 32) rest

-- `runs.back().end`, of runs that begin with `front`.
abbrev pub last_end : Run → List Run → ℕ
last_end front [] = front.end
last_end front (r ∷ rs) = last_end r rs

-- The handle with other runs and the header that goes with them.
pub sync_header : RunHandle → List Run → RunHandle
unfolding add_total
sync_header c [] = record c { runs = []; cardinality = add_total 0 [] }
sync_header c (front ∷ rest) = record {
  runs = front ∷ rest;
  cardinality = add_total 0 (front ∷ rest);
  min_value = front.begin;
  max_value = last_end front rest;
}

pub contains : RunHandle → ℕ → Option Bool
contains c value = do index ← interleaved_binary_search c.runs value; contains_at c.runs value index

pub add_closed_range : RunHandle → ℕ → ℕ → RunHandle
unfolding sync_header
add_closed_range c begin end =
    if ltb end begin then c else sync_header c (merge_range begin end begin end false c.runs)

pub remove_closed_range : ℕ → RunHandle → ℕ → ℕ → RunHandle
unfolding sync_header
remove_closed_range dom c begin end =
    if ltb end begin || is_empty c.runs then c else sync_header c (cut_range dom begin end c.runs)

-- Whether the value was new.
pub add : RunHandle → ℕ → RunHandle × Bool
unfolding add_closed_range
add c value = let c' = add_closed_range c value value in (c', not (c'.cardinality == c.cardinality))

-- Whether the value was there.
pub remove : ℕ → RunHandle → ℕ → RunHandle × Bool
unfolding remove_closed_range
remove dom c value =
    let c' = remove_closed_range dom c value value in (c', not (c'.cardinality == c.cardinality))

pub from_sorted_values : ℕ → RunHandle → List ℕ → RunHandle
unfolding sync_header
from_sorted_values dom c [] = sync_header c []
from_sorted_values dom c (front ∷ rest) = sync_header c (runs_of dom (front ∷ rest))

-- The next value with its position; `position` is that of the run of `value`.
pub next_after : ℕ → RunHandle → ℕ → ℕ → Option (ℕ × ℕ)
next_after dom c value position = do
  here ← get_elem? c.runs position
  if ltb value here.end
      then some ((value + 1) % dom, position)
      else if position + 1 == length c.runs
      then some (no_next, position)
      else (do next ← get_elem? c.runs (position + 1); some (next.begin, position + 1))
