-- ===== src/RunContainer/Search.antt =====
-- `contains` finds what the runs cover: the binary search stays in bounds and ends.
use roaring.Prelude.{
  ℕ, zero, suc, ◌+◌, ◌≤◌, ◌<◌, ◌≡◌, ◌∙◌, sym, refl, Bool, true, inl, inr, List, [], ◌∷◌, Option,
  some, leb, bit, order, arith, length, get_elem?, ℤ, pos, negsuc, sub_ℕ, ◌/◌,
}
use roaring.Runs.{Run, in_run, in_runs, RunsFrom, in_runs_before}
use roaring.RunContainer.{
  RunContainer, binary_search_loop, interleaved_binary_search, contains_at, contains,
  ends_at_or_after,
}

-- How many runs begin at or before `v`.
abbrev pub begun : List Run → ℕ → ℕ
begun [] v = 0
begun (r ∷ rs) v = bit (leb r.begin v) + begun rs v

pub begun_before : (lo v : ℕ) (rs : List Run) → RunsFrom lo rs → v < lo → begun rs v ≡ 0
begun_before lo v [] w h = refl
begun_before lo v (r ∷ rs) w h = ground (arith, begun_before (r.end + 2) v rs)

pub begun-le : (rs : List Run) (v : ℕ) → begun rs v ≤ length rs
begun-le [] v = omega arith
begun-le (r ∷ rs) v = ground (arith, begun-le rs v)

-- The runs that begin at or before `v` stand in front.
pub begun_iff :
    (lo v : ℕ) (rs : List Run) (i : ℕ)
    → RunsFrom lo rs
    → i < length rs
    → (r : Run) × (get_elem? rs i ≡ some r)
      × (r.begin ≤ r.end)
      × (leb r.begin v ≡ leb (suc i) (begun rs v))
begun_iff lo v [] i w h = absurd (omega arith)
begun_iff lo v (r ∷ rs) zero w h = (r, refl, w.1, ground (arith, begun_before (r.end + 2) v rs))
begun_iff lo v (r ∷ rs) (suc i) w h =
    let (s, e, ne, q) = begun_iff (r.end + 2) v rs i w.2 (omega arith) in
    (s, e, ne, ground (arith, begun_before (r.end + 2) v rs))

-- So the last of these alone may cover it.
abbrev CoversLast : List Run → ℕ → ℕ → Type 0
CoversLast rs v zero = in_runs rs v ≡ Bool.false
CoversLast rs v (suc k) = (r : Run) × (get_elem? rs k ≡ some r) × (in_runs rs v ≡ leb v r.end)

begun-covers :
    (lo v : ℕ) (rs : List Run) (k : ℕ) → RunsFrom lo rs → begun rs v ≡ k → CoversLast rs v k
begun-covers lo v [] zero w e = refl
begun-covers lo v [] (suc k) w e = absurd (omega arith)
begun-covers lo v (r ∷ rs) zero w e = ground (arith, in_runs_before (r.end + 2) v rs)
begun-covers lo v (r ∷ rs) (suc zero) w e = (
  r,
  refl,
  ground (
    arith,
    in_runs_before (r.end + 2) v rs,
    begun_before (r.end + 2) v rs,
    begun-covers (r.end + 2) v rs 0 w.2,
  ),
)
begun-covers lo v (r ∷ rs) (suc (suc k)) w e =
    let (s, q, c) =
      begun-covers (r.end + 2) v rs (suc k) w.2 (ground (arith, begun_before (r.end + 2) v rs)) in
    (s, q, ground (arith, begun_before (r.end + 2) v rs))

-- What the search reports.
abbrev pub Found : List Run → ℕ → ℤ → Type 0
Found rs v (pos m) = (r : Run) × (get_elem? rs m ≡ some r) × (r.begin ≡ v) × (in_runs rs v ≡ true)
Found rs v (negsuc n) = begun rs v ≡ n

-- A run that covers `v` puts `v` into the set.
in_runs_of_get :
    (rs : List Run) (i v : ℕ) (r : Run)
    → get_elem? rs i ≡ some r
    → in_run r v ≡ true
    → in_runs rs v ≡ true
in_runs_of_get [] i v r e h = cc
in_runs_of_get (s ∷ rs) zero v r e h = ground arith
in_runs_of_get (s ∷ rs) (suc i) v r e h = ground (arith, in_runs_of_get rs i v r e h)

module _ (fuel : ℕ) (rs : List Run) (v low high : ℕ) (r : Run) (nonempty : low ≤ high)
    (read : get_elem? rs ((low + high) / 2) ≡ some r) where
  step_right :
      r.begin < v
      → binary_search_loop (suc fuel) rs v low (pos high)
        ≡ binary_search_loop fuel rs v ((low + high) / 2 + 1) (pos high)
  unfolding binary_search_loop
  step_right h = ground arith

  step_left :
      v < r.begin
      → binary_search_loop (suc fuel) rs v low (pos high)
        ≡ binary_search_loop fuel rs v low (sub_ℕ ((low + high) / 2) 1)
  unfolding binary_search_loop
  step_left h = ground arith

  step_hit :
      v ≡ r.begin
      → binary_search_loop (suc fuel) rs v low (pos high) ≡ some (pos ((low + high) / 2))
  unfolding binary_search_loop
  step_hit h = ground arith

step_miss :
    (fuel : ℕ) (rs : List Run) (v low high : ℕ)
    → high < low
    → binary_search_loop (suc fuel) rs v low (pos high) ≡ some (negsuc low)
unfolding binary_search_loop
step_miss fuel rs v low high h = ground arith

-- `high + 1`
abbrev pub past : ℤ → ℕ
past (pos n) = suc n
past (negsuc n) = 0

pub past-pred : (m : ℕ) → past (sub_ℕ m 1) ≡ m
past-pred m = ground arith

begun_right : (r : Run) (v m k : ℕ) → leb r.begin v ≡ leb (suc m) k → r.begin < v → m + 1 ≤ k
begun_right r v m k q g = ground arith

begun_left : (r : Run) (v m k : ℕ) → leb r.begin v ≡ leb (suc m) k → v < r.begin → k ≤ m
begun_left r v m k q g = ground arith

-- The answer that `contains` makes of a report.
answer :
    (rs : List Run) (lo v : ℕ)
    → RunsFrom lo rs
    → (z : ℤ) → Found rs v z
    → contains_at rs v z ≡ some (in_runs rs v)
unfolding contains_at
answer rs lo v w (pos m) (r, e, b, q) = rw q
answer rs lo v w (negsuc zero) f = rw (begun-covers lo v rs 0 w f)
answer rs lo v w (negsuc (suc k)) f =
    let (r, e, q) = begun-covers lo v rs (suc k) w f in
    let p : sub_ℕ (suc k) 1 ≡ pos k = ground arith in rw (p, ends_at_or_after, e, q)

-- The search ends, and what it reports is so.
abbrev pub Ends : List Run → ℕ → Option ℤ → Type 0
Ends rs v o = (z : ℤ) × (o ≡ some z) × Found rs v z

probe :
    (fuel : ℕ) (rs : List Run) (v low high : ℕ) (r : Run)
    → low ≤ high
    → get_elem? rs ((low + high) / 2) ≡ some r
    → r.begin ≤ r.end
    → (r.begin < v → Ends rs v (binary_search_loop fuel rs v ((low + high) / 2 + 1) (pos high)))
    → (v < r.begin → Ends rs v (binary_search_loop fuel rs v low (sub_ℕ ((low + high) / 2) 1)))
    → Ends rs v (binary_search_loop (suc fuel) rs v low (pos high))
probe fuel rs v low high r h e ne right left = elim (order r.begin v) [
  | inl g ↦ let (z, p, f) = right g in (z, step_right fuel rs v low high r h e g ∙ p, f)
  | inr (inl g) ↦ let (z, p, f) = left g in (z, step_left fuel rs v low high r h e g ∙ p, f)
  | inr (inr g) ↦
      let m = (low + high) / 2 in
      (
        pos m,
        step_hit fuel rs v low high r h e g,
        (r, e, sym g, in_runs_of_get rs m v r e (ground arith)),
      )
]

module _ (rs : List Run) (v lo : ℕ) (w : RunsFrom lo rs) where
  pub search-Ends :
      (fuel low : ℕ) (high : ℤ)
      → low ≤ begun rs v
      → begun rs v ≤ past high
      → past high ≤ length rs
      → past high < fuel + low
      → Ends rs v (binary_search_loop fuel rs v low high)
  unfolding binary_search_loop
  search-Ends zero low high a b c d = absurd (omega arith)
  search-Ends (suc fuel) low (negsuc n) a b c d = (negsuc low, refl, omega arith)
  search-Ends (suc fuel) low (pos high) a b c d = elim (order high low) [
    | inl h ↦ (negsuc low, step_miss fuel rs v low high h, omega arith)
    | inr h ↦
        let m = (low + high) / 2 in
        let (r, e, ne, q) = begun_iff lo v rs m w (omega arith) in
        probe fuel rs v low high r (omega arith) e ne
          (λ g.
            search-Ends fuel (m + 1) (pos high) (begun_right r v m (begun rs v) q g) b c
              (omega arith))
          (λ g.
            search-Ends fuel low (sub_ℕ m 1) a (rw past-pred (begun_left r v m (begun rs v) q g))
              (rw past-pred (omega arith)) (rw past-pred (omega arith)))
  ]

-- For runs in order and coalesced, `contains` answers, without a read out of bounds and within its
-- rounds, and its answer is membership.
pub contains_lem :
    (c : RunContainer) (lo v : ℕ) → RunsFrom lo c.runs → contains c v ≡ some (in_runs c.runs v)
unfolding contains interleaved_binary_search
contains_lem c lo v w =
    let n = length c.runs in
    let (z, e, f) =
      search-Ends c.runs v lo w (n + 1) 0 (sub_ℕ n 1) (omega arith)
        (rw past-pred (begun-le c.runs v)) (rw past-pred (omega arith))
        (rw past-pred (omega arith)) in
    rw (e, contains, interleaved_binary_search) (answer c.runs lo v w z f)
