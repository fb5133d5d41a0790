-- ===== src/RunContainer/Walk.antt =====
-- Reading a run container in order: `first`, `next_after` and `for_each`.
use roaring.Prelude.{
  ℕ, zero, suc, ◌+◌, ◌-◌, ◌%◌, ◌^◌, ◌≤◌, ◌<◌, ◌≡◌, ◌∙◌, refl, ◌⊎◌, inl, inr, Bool, true, false,
  ◌&&◌, List, [], ◌∷◌, ◌++◌, Option, none, some, ◌>>=◌, leb, ltb, lt→ltb, le→ltb, ◌==◌,
  if◌then◌else◌, arith, order, length, mod-eq_of_lt, count_below-cong,
}
use roaring.Values.{in_values, Ascending, AllBelow, Ascending-mono, in_values-append, length-count}
use roaring.Runs.{Run, in_runs, in_runs_before, RunsFrom, Below}
use roaring.RunContainer.{RunContainer}
use roaring.RunContainer.Valid.{IsValid}

-- `next_type` is `std::uint32_t`, and this is its largest value.
abbrev pub no_next : ℕ
no_next = 2 ^ 32 - 1

-- `std::ranges::lower_bound( runs, value, {}, &run_type::end )`: the first run that does not end
-- below `value`, with those after it.
pub lower_bound_by_end : ℕ → List Run → List Run
lower_bound_by_end value [] = []
lower_bound_by_end value (r ∷ rs) = if ltb r.end value then lower_bound_by_end value rs else r ∷ rs

begin_or_no_next : List Run → ℕ
begin_or_no_next [] = no_next
begin_or_no_next (next ∷ _) = next.begin

pub next_from : ℕ → ℕ → List Run → ℕ
unfolding begin_or_no_next
next_from dom value [] = no_next
next_from dom value (it ∷ rest) =
    if ltb value it.begin
    then it.begin
    else (if ltb value it.end then (value + 1) % dom else begin_or_no_next rest)

pub next_after : ℕ → RunContainer → ℕ → ℕ
unfolding lower_bound_by_end next_from
next_after dom c value = next_from dom value (lower_bound_by_end value c.runs)

-- `none` where the source asserts that there is a run.
pub first : RunContainer → Option ℕ
first c = elim c.runs [ [] ↦ none | r ∷ _ ↦ some r.begin ]

-- The values that `for_each` hands to its argument, in that order. The inner loop ends at `end`; it
-- has `dom` rounds, since it wraps at the end of the domain.
pub run_values : ℕ → ℕ → ℕ → ℕ → Option (List ℕ)
run_values dom zero value end = none
run_values dom (suc fuel) value end =
    let rest = (do vs ← run_values dom fuel ((value + 1) % dom) end; some (value ∷ vs)) in
    if value == end then some (value ∷ []) else rest

pub for_each : ℕ → List Run → Option (List ℕ)
unfolding run_values
for_each dom [] = some []
for_each dom (current ∷ rest) = do
  vs ← run_values dom dom current.begin current.end
  ws ← for_each dom rest
  some (vs ++ ws)

-- `r` is what comes after `v` in the set `p`.
abbrev pub IsNext : (ℕ → Bool) → ℕ → ℕ → Type 0
IsNext p v r =
    ((r ≡ no_next) × ((w : ℕ) → v < w → p w ≡ false))
    ⊎ ((v < r) × (r < no_next) × (p r ≡ true) × ((w : ℕ) → v < w → w < r → p w ≡ false))

pub IsNext-cong :
    (p q : ℕ → Bool) (v r : ℕ) → ((w : ℕ) → v < w → q w ≡ p w) → IsNext p v r → IsNext q v r
IsNext-cong p q v r h (inl (e, past)) = inl (e, λ w k. h w k ∙ past w k)
IsNext-cong p q v r h (inr (a, b, c, d)) = inr (a, b, h r a ∙ c, λ w k l. h w k ∙ d w k l)

-- `v` lies in the last run that starts at or before it, or in the gap before this one.
IsNext-here :
    (dom lo v : ℕ) (r : Run) (rs : List Run)
    → dom ≤ 2 ^ 16
    → RunsFrom lo (r ∷ rs)
    → Below dom (r ∷ rs)
    → v ≤ r.end
    → IsNext (in_runs (r ∷ rs)) v (next_from dom v (r ∷ rs))
unfolding next_from
IsNext-here dom lo v r [] h w b k = elim (order v r.end) [
  | inl inside ↦ inr (
    ground (arith, small),
    ground (arith, small),
    ground (arith, small),
    λ u. ground (arith, small),
  )
  | inr at ↦ inl (ground arith, λ u. ground arith)
]
  where
    small : v < r.end → (v + 1) % dom ≡ v + 1
    small l = mod-eq_of_lt (omega arith)
IsNext-here dom lo v r (s ∷ rs) h w b k = inr (
  ground (arith, small),
  ground (arith, small),
  ground (arith, small),
  λ u p q. ground (arith, small, p, q, in_runs_before (s.end + 2) u rs),
)
  where
    small : v < r.end → (v + 1) % dom ≡ v + 1
    small l = mod-eq_of_lt (omega arith)

next_from-IsNext :
    (dom lo v : ℕ) (rs : List Run)
    → dom ≤ 2 ^ 16
    → RunsFrom lo rs
    → Below dom rs
    → IsNext (in_runs rs) v (next_from dom v (lower_bound_by_end v rs))
unfolding lower_bound_by_end next_from
next_from-IsNext dom lo v [] h w b = inl (refl, λ u _. refl)
next_from-IsNext dom lo v (r ∷ rs) h w b = elim (order r.end v) [
  | inl past ↦ rw (lt→ltb r.end v past) (
      IsNext-cong (in_runs rs) (in_runs (r ∷ rs)) v _ (λ u k. ground arith)
        (next_from-IsNext dom (r.end + 2) v rs h w.2 b.1))
  | inr here ↦ rw (le→ltb r.end v (omega arith)) (IsNext-here dom lo v r rs h w b (omega arith))
]

-- The values from `v` on, `n` of them after it.
abbrev interval : ℕ → ℕ → List ℕ
interval v zero = v ∷ []
interval v (suc n) = v ∷ interval (v + 1) n

run_values_lem :
    (dom fuel v n : ℕ)
    → v + n < dom
    → n < fuel
    → run_values dom fuel v (v + n) ≡ some (interval v n)
unfolding run_values
run_values_lem dom zero v n h k = absurd (omega arith)
run_values_lem dom (suc fuel) v zero h k = ground arith
run_values_lem dom (suc fuel) v (suc n) h k =
    let e : v + suc n ≡ v + 1 + n = omega arith in
    let m : (v + 1) % dom ≡ v + 1 = mod-eq_of_lt (omega arith) in
    rw (e, m, run_values_lem dom fuel (v + 1) n (omega arith) (omega arith)) (ground arith)

interval-Ascending : (v n : ℕ) → Ascending v (interval v n)
interval-Ascending v zero = omega arith
interval-Ascending v (suc n) = (omega arith, interval-Ascending (v + 1) n)

in_values-interval : (v n w : ℕ) → in_values (interval v n) w ≡ (leb v w && leb w (v + n))
in_values-interval v zero w = ground arith
in_values-interval v (suc n) w = ground (arith, in_values-interval (v + 1) n w)

Ascending-append_interval :
    (v n : ℕ) (xs : List ℕ) → Ascending (v + n + 1) xs → Ascending v (interval v n ++ xs)
Ascending-append_interval v zero xs h =
    (omega arith, Ascending-mono (v + 0 + 1) (v + 1) xs (omega arith) h)
Ascending-append_interval v (suc n) xs h = (
  omega arith,
  Ascending-append_interval (v + 1) n xs
      (Ascending-mono (v + suc n + 1) (v + 1 + n + 1) xs (omega arith) h),
)

AllBelow-append_interval :
    (m v n : ℕ) (xs : List ℕ) → v + n < m → AllBelow m xs → AllBelow m (interval v n ++ xs)
AllBelow-append_interval m v zero xs h k = (omega arith, k)
AllBelow-append_interval m v (suc n) xs h k =
    (omega arith, AllBelow-append_interval m (v + 1) n xs (omega arith) k)

-- From any value of a domain of at most 2^16 values, `next_after` gives the least greater value of
-- a well formed container, and `no_next` exactly if there is none.
pub next_after-IsNext :
    (dom : ℕ) (c : RunContainer) (v : ℕ)
    → dom ≤ 2 ^ 16
    → IsValid dom c
    → IsNext (in_runs c.runs) v (next_after dom c v)
unfolding next_after
next_after-IsNext dom c v h ok = next_from-IsNext dom 0 v c.runs h ok.ordered ok.within

-- What a walk over the container visits.
pub record Visits (dom lo : ℕ) (p : ℕ → Bool) (vs : List ℕ) : Type 0 where
  pub ascending : Ascending lo vs
  pub within : AllBelow dom vs
  pub same : (v : ℕ) → in_values vs v ≡ p v

for_each-Visits :
    (dom lo : ℕ) (rs : List Run)
    → RunsFrom lo rs
    → Below dom rs
    → (vs : List ℕ) × (for_each dom rs ≡ some vs) × Visits dom lo (in_runs rs) vs
unfolding for_each
for_each-Visits dom lo [] w b = ([], refl, record { ascending = tt; within = tt; same = λ v. refl })
for_each-Visits dom lo (r ∷ rs) w b =
    let n = r.end - r.begin in
    let (ws, e, v) = for_each-Visits dom (r.end + 2) rs w.2 b.1 in
    let fits : r.begin + n ≡ r.end = omega arith in
    let run : run_values dom dom r.begin r.end ≡ some (interval r.begin n) =
      rw fits at (run_values_lem dom dom r.begin n (omega arith) (omega arith)) in
    (
      interval r.begin n ++ ws,
      rw (run, e),
      record {
        ascending = Ascending-mono r.begin lo _ w.0 (
            Ascending-append_interval r.begin n ws
              (Ascending-mono (r.end + 2) (r.begin + n + 1) ws (omega arith) v.ascending));
        within = AllBelow-append_interval dom r.begin n ws (omega arith) v.within;
        same = λ u. ground (
          arith,
          in_values-append (interval r.begin n) ws u,
          in_values-interval r.begin n u,
          v.same u,
          fits,
        );
      },
    )

-- On a well formed container, `for_each` ends, and visits each value of the container once, in
-- increasing order: as many calls as the cardinality says.
pub for_each_lem :
    (dom : ℕ) (c : RunContainer)
    → IsValid dom c
    → (vs : List ℕ) × (for_each dom c.runs ≡ some vs)
      × Visits dom 0 (in_runs c.runs) vs
      × (length vs ≡ c.cardinality)
for_each_lem dom c ok =
    let (vs, e, v) = for_each-Visits dom 0 c.runs ok.ordered ok.within in
    (
      vs,
      e,
      v,
      omega (
        arith,
        ok.counted,
        length-count dom 0 vs v.ascending v.within,
        count_below-cong dom (in_values vs) (in_runs c.runs) v.same,
      ),
    )
