-- ===== src/Kinds/Choice.antt =====
-- The choices of a container's form.
use roaring.Prelude.{
  ℕ, ◌+◌, ◌*◌, ◌/◌, ◌≤◌, ◌<◌, ◌≡◌, refl, inl, inr, min, max, Bool, true, ◌&&◌, leb, arith, order,
  Bool-cases, le→leb, le→ltb,
}
use native.Mathlib.Nat.{mul-le-mul_right, lt-mul-div-succ, mul_comm}
use roaring.Kinds.{
  ContainerKind, array, run, bitset, bitset_bytes, choose_container_kind, is_bitset_cardinality,
  choose_run_container_kind,
}

-- A count that stops at the cap takes more bytes than either other form.
past_cap : (most size n : ℕ) → 0 < size → most / size + 1 ≤ n → most < n * size
past_cap most size n h k =
    let a : most < size * (most / size + 1) = lt-mul-div-succ most h in
    let b : (most / size + 1) * size ≤ n * size = mul-le-mul_right size k in
    let c : size * (most / size + 1) ≡ (most / size + 1) * size = mul_comm size (most / size + 1) in
    omega arith

-- With low values of at least one byte, a run count that stops at the cap which
-- `choose_container_kind` passes decides the form as the exact count does.
pub choose_container_kind_lem :
    (dom low_bytes : ℕ) (eager : Bool) (cardinality threshold n : ℕ)
    → 0 < low_bytes
    → choose_container_kind dom low_bytes eager cardinality threshold (λ cap. min n cap)
      ≡ choose_container_kind dom low_bytes eager cardinality threshold (λ cap. n)
unfolding choose_container_kind
choose_container_kind_lem dom low_bytes eager cardinality threshold n h =
    let most = max (cardinality * low_bytes) (bitset_bytes dom) in
    let cap = most / (low_bytes * 2) + 1 in
    let size = low_bytes * 2 in
    elim (order cap n) [
      | inr reached ↦ let m : min n cap ≡ n = omega arith in rw m refl
      | inl past ↦
          let m : min n cap ≡ cap = omega arith in
          let p = past_cap most size n (omega arith) (omega arith) in
          let q = past_cap most size cap (omega arith) (omega arith) in
          elim (Bool-cases (eager && leb 64 cardinality)) [
            | inl considered ↦
                rw
                  (
                    considered,
                    m,
                    le→leb (bitset_bytes dom) (n * size) (omega arith),
                    le→leb (bitset_bytes dom) (cap * size) (omega arith),
                    le→ltb (n * size) (cardinality * low_bytes) (omega arith),
                    le→ltb (cap * size) (cardinality * low_bytes) (omega arith),
                  )
                  refl
            | inr ignored ↦ rw ignored refl
          ]
    ]

-- The bytes of a form, as `choose_run_container_kind` counts them.
abbrev pub form_bytes : ℕ → ℕ → ℕ → ℕ → ContainerKind → ℕ
form_bytes dom low_bytes cardinality run_count array = cardinality * low_bytes
form_bytes dom low_bytes cardinality run_count run = run_count * (low_bytes * 2) + low_bytes
form_bytes dom low_bytes cardinality run_count bitset = bitset_bytes dom

-- Whether a form is admitted: a bitset only from the threshold on.
abbrev pub admitted : ℕ → ℕ → ContainerKind → Bool
admitted cardinality threshold array = true
admitted cardinality threshold run = true
admitted cardinality threshold bitset = leb threshold cardinality

-- Among the forms that the threshold admits (a bitset only from it on), `choose_run_container_kind`
-- takes an admitted one, and none of them is smaller.
pub choose_run_container_kind_lem :
    (dom low_bytes cardinality run_count threshold : ℕ) (kind : ContainerKind)
    → admitted cardinality threshold kind ≡ true
    → (admitted cardinality threshold
          (choose_run_container_kind dom low_bytes cardinality run_count threshold)
        ≡ true)
      × (form_bytes dom low_bytes cardinality run_count
            (choose_run_container_kind dom low_bytes cardinality run_count threshold)
          ≤ form_bytes dom low_bytes cardinality run_count kind)
unfolding choose_run_container_kind is_bitset_cardinality
choose_run_container_kind_lem dom low_bytes cardinality run_count threshold array h = ground arith
choose_run_container_kind_lem dom low_bytes cardinality run_count threshold run h = ground arith
choose_run_container_kind_lem dom low_bytes cardinality run_count threshold bitset h = ground arith
