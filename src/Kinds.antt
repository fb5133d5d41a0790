-- ===== src/Kinds.antt =====
-- Which form a container takes, from include/frsr/roaring/containers.hpp: the counts of runs and the choices
-- that compare sizes. `low_bytes` is the size of a low value, so a run takes twice that; a bitset takes
-- `dom / 64` words of eight bytes.
pub mod Counts
pub mod Capped
pub mod Choice
use roaring.Prelude.{
  ℕ, zero, suc, ◌+◌, ◌-◌, ◌*◌, ◌/◌, ◌%◌, ◌^◌, min, max, Bool, true, false, not, ◌&&◌, ◌||◌, List,
  [], ◌∷◌, Option, none, some, ◌>>=◌, leb, ltb, ◌==◌, if◌then◌else◌, length,
}
use roaring.Runs.{Run, run_size}
use roaring.RunContainer.{RunContainer, cardinality_mod}

-- Whether a run starts at `value`, which follows `previous`.
abbrev pub starts_run : ℕ → ℕ → ℕ → ℕ
starts_run dom previous value = if value == (previous + 1) % dom then 0 else 1

-- The run count with the index: the value before it and the values from it on.
pub record Counted : Type 0 where
  pub run_count : ℕ
  pub previous : ℕ
  pub rest : List ℕ

-- A block, which `block_end` ends or the end of the values.
pub count_block : ℕ → ℕ → Counted → Counted
count_block dom zero c = c
count_block dom (suc block) c = elim c.rest [
  | [] ↦ c
  | value ∷ rest ↦ count_block dom block record {
    run_count = c.run_count + starts_run dom c.previous value;
    previous = value;
    rest = rest;
  }
]

abbrev pub max_block : ℕ
max_block = 256

pub count_loop : ℕ → ℕ → ℕ → Counted → Option ℕ
unfolding count_block
count_loop dom cap zero c = none
count_loop dom cap (suc fuel) c =
    let on = count_loop dom cap fuel (count_block dom (min (cap - c.run_count) max_block) c) in
    elim c.rest [
      | [] ↦ some (min c.run_count cap)
      | _ ∷ _ ↦ if ltb c.run_count cap then on else some (min c.run_count cap)
    ]

-- Every block takes a value.
pub run_count_from_sorted_values : ℕ → List ℕ → ℕ → Option ℕ
unfolding count_loop
run_count_from_sorted_values dom [] cap = some 0
run_count_from_sorted_values dom (value ∷ rest) cap =
    count_loop dom cap (length rest + 1) record { run_count = 1; previous = value; rest = rest }

-- `push_run`, for a run after `pushed` others that add up to `cardinality`, before what `on` pushes.
pub capped_push : ℕ → ℕ → ℕ → ℕ → Run → Option RunContainer → Option RunContainer
capped_push dom run_bytes byte_limit pushed current on =
    if leb byte_limit ((pushed + 1) * run_bytes)
    then none
    else (do c ← on; some (record c { runs = current ∷ c.runs }))

abbrev pub counted_with : ℕ → ℕ → Run → ℕ
counted_with dom cardinality current = (cardinality + run_size current) % cardinality_mod dom

-- The loop over the values after the first.
pub capped_loop : ℕ → ℕ → ℕ → ℕ → ℕ → ℕ → ℕ → List ℕ → Option RunContainer
unfolding capped_push
capped_loop dom run_bytes byte_limit pushed cardinality current_begin current_end [] =
    let current : Run = record { begin = current_begin; end = current_end } in
    capped_push dom run_bytes byte_limit pushed current
      (some (record { runs = []; cardinality = counted_with dom cardinality current }))
capped_loop dom run_bytes byte_limit pushed cardinality current_begin current_end (value ∷ rest) =
    let current : Run = record { begin = current_begin; end = current_end } in
    let longer = capped_loop dom run_bytes byte_limit pushed cardinality current_begin value rest in
    let next = capped_push dom run_bytes byte_limit pushed current (
      capped_loop dom run_bytes byte_limit (pushed + 1) (counted_with dom cardinality current) value
        value rest) in
    if value == current_end || (not (current_end == dom - 1) && value == (current_end + 1) % dom)
    then longer
    else next

pub try_make_run_from_sorted_values_capped : ℕ → ℕ → List ℕ → ℕ → Option RunContainer
unfolding capped_loop
try_make_run_from_sorted_values_capped dom run_bytes [] byte_limit =
    some (record { runs = []; cardinality = 0 })
try_make_run_from_sorted_values_capped dom run_bytes (front ∷ rest) byte_limit =
    capped_loop dom run_bytes byte_limit 0 0 front front rest

pub data ContainerKind : Type 0 where
  array : ContainerKind
  run : ContainerKind
  bitset : ContainerKind

-- `std::numeric_limits<std::size_t>::max()`
abbrev pub size_max : ℕ
size_max = 2 ^ 64 - 1

abbrev pub bitset_bytes : ℕ → ℕ
bitset_bytes dom = dom / 64 * 8

pub choose_container_kind : ℕ → ℕ → Bool → ℕ → ℕ → (ℕ → ℕ) → ContainerKind
choose_container_kind dom low_bytes eager cardinality bitset_threshold count_runs =
    let can_consider_run = eager && leb 64 cardinality in
    let array_bytes = cardinality * low_bytes in
    let run_bytes_per_run = low_bytes * 2 in
    let run_count_cap = max array_bytes (bitset_bytes dom) / run_bytes_per_run + 1 in
    let run_bytes =
      if can_consider_run then count_runs run_count_cap * run_bytes_per_run else size_max in
    if leb bitset_threshold cardinality && leb (bitset_bytes dom) run_bytes
    then bitset
    else (if can_consider_run && ltb run_bytes array_bytes then run else array)

pub is_bitset_cardinality : ℕ → ℕ → ℕ → ℕ → Bool
is_bitset_cardinality dom low_bytes cardinality bitset_threshold =
    leb bitset_threshold cardinality && leb (bitset_bytes dom) (cardinality * low_bytes)

pub choose_run_container_kind : ℕ → ℕ → ℕ → ℕ → ℕ → ContainerKind
unfolding is_bitset_cardinality
choose_run_container_kind dom low_bytes cardinality run_count bitset_threshold =
    let array_bytes = cardinality * low_bytes in
    let run_bytes = run_count * (low_bytes * 2) + low_bytes in
    let bitset_wins = is_bitset_cardinality dom low_bytes cardinality bitset_threshold in
    if leb run_bytes array_bytes && not (bitset_wins && ltb (bitset_bytes dom) run_bytes)
    then run
    else (if bitset_wins then bitset else array)
