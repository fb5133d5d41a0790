-- ===== src/Containers/Dispatch.antt =====
-- Whatever its form, a container behaves as the set of its values.
use roaring.Prelude.{
  ℕ, ◌^◌, ◌≤◌, ◌<◌, ◌≡◌, ◌∙◌, refl, ap, Bool, true, not, ◌&&◌, ◌||◌, some, ◌==◌, arith, count_below,
}
use roaring.Values.{in_values, length-count}
use roaring.ArrayRef.Search.{sorted_array_contains_lem}
use roaring.ArrayRef.Update.Valid as ArrayValid
use roaring.Runs.{in_runs}
use roaring.RunContainer.Ranges.{between}
use roaring.RunRef.Valid as RunValid
use roaring.RunRef.{add, remove}
use roaring.RunRef.Update.{run_contains_lem, run_add_lem, run_remove_lem}
use roaring.Bitset.Member.{in_words}
use roaring.Bitset.Valid as BitsetValid
use roaring.Bitset.Update.{bitset_contains_lem, bitset_add_lem, bitset_remove_lem}
use roaring.Containers.{
  Container, array, run, bitset, container_contains, container_add, container_remove,
  container_size,
}

abbrev pub in_container : Container → ℕ → Bool
in_container (array c) v = in_values c.values v
in_container (run c) v = in_runs c.runs v
in_container (bitset c) v = in_words c.words v

abbrev pub IsValid : ℕ → Container → Type 0
IsValid dom (array c) = ArrayValid.IsValid dom c
IsValid dom (run c) = RunValid.IsValid dom c
IsValid dom (bitset c) = BitsetValid.IsValid dom c

single : (value v : ℕ) → between value value v ≡ (v == value)
single value v = ground arith

module _ (dom : ℕ) (small : dom ≤ 2 ^ 16) where
  -- On a well formed container of any form and a value of a domain of at most 2^16: the answer is
  -- membership, and nothing is read out of bounds.
  pub container_contains_lem :
      (c : Container) (value : ℕ)
      → IsValid dom c
      → value < dom
      → container_contains c value ≡ some (in_container c value)
  unfolding container_contains
  container_contains_lem (array c) value valid h =
      sorted_array_contains_lem 0 value c.values valid.ordered
  container_contains_lem (run c) value valid h = run_contains_lem dom small c valid value
  container_contains_lem (bitset c) value valid h = bitset_contains_lem dom small c valid value h

  -- On a well formed container of any form and a value of the domain: it stays well formed, holds
  -- the value besides what it held, and the result says whether the value is new.
  pub container_add_lem :
      (has_room : Bool) (c : Container) (value : ℕ)
      → IsValid dom c
      → value < dom
      → (r : Container × Bool) × (container_add has_room c value ≡ some r)
        × IsValid dom r.0
        × ((v : ℕ) → in_container r.0 v ≡ (v == value || in_container c v))
        × (r.1 ≡ not (in_container c value))
  unfolding container_add
  container_add_lem has_room (array c) value valid h =
      let ((c', added), e, ok, same, flag) = ArrayValid.add-IsValid dom c valid value h has_room in
      ((array c', added), rw e refl, ok, same, flag)
  container_add_lem has_room (run c) value valid h =
      let (ok, same, flag) = run_add_lem dom small c valid value h in
      (
        (run (add c value).0, (add c value).1),
        refl,
        ok,
        λ v. same v ∙ ap (λ b. b || in_runs c.runs v) (single value v),
        flag,
      )
  container_add_lem has_room (bitset c) value valid h =
      let ((c', added), e, ok, same, flag) = bitset_add_lem dom small c valid value h in
      ((bitset c', added), rw e refl, ok, same, flag)

  -- On a well formed container of any form and a value of the domain: it stays well formed, loses
  -- exactly the value, the result says whether the value was there, and if so the count is exact.
  pub container_remove_lem :
      (c : Container) (value : ℕ)
      → IsValid dom c
      → value < dom
      → (r : Container × Bool) × (container_remove dom c value ≡ some r)
        × IsValid dom r.0
        × ((v : ℕ) → in_container r.0 v ≡ (in_container c v && not (v == value)))
        × (r.1 ≡ in_container c value)
        × (r.1 ≡ true → container_size r.0 ≡ some (count_below dom (in_container r.0)))
  unfolding container_remove container_size
  container_remove_lem (array c) value valid h =
      let ((c', removed), e, ok, same, flag) = ArrayValid.remove-IsValid dom c valid value h in
      (
        (array c', removed),
        rw e refl,
        ok,
        same,
        flag,
        λ k. ap some (ok.counted ∙ length-count dom 0 c'.values ok.ordered ok.within),
      )
  container_remove_lem (run c) value valid h =
      let (ok, same, flag) = run_remove_lem dom small c valid value h in
      (
        (run (remove dom c value).0, (remove dom c value).1),
        refl,
        ok,
        λ v. same v ∙ ap (λ b. in_runs c.runs v && not b) (single value v),
        flag,
        λ k. ap some ok.counted,
      )
  container_remove_lem (bitset c) value valid h =
      let ((c', removed), e, ok, same, flag, exact) = bitset_remove_lem dom small c valid value h in
      (
        (bitset c', removed),
        rw e refl,
        ok,
        same,
        flag,
        λ k. let fresh = exact k in rw fresh (ap some (rw fresh at ok.counted)),
      )
