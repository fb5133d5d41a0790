-- ===== src/RunOps/Builder.antt =====
-- A run container that is built from its front (`append_run` of the unions in
-- include/frsr/roaring/run_ops.hpp). The head of the list is the back of the vector.
use roaring.Prelude.{
  ℕ, ◌+◌, ◌-◌, ◌%◌, ◌^◌, ◌≤◌, ◌<◌, ◌≡◌, ◌∙◌, refl, ap, Bool, false, ◌||◌, List, [], ◌∷◌, ltb,
  if◌then◌else◌, arith, mod-eq_of_lt,
}
use roaring.Runs.{
  Run, in_run, in_runs, run_size, runs_size, RunsFrom, RunsFrom-mono, Below, runs_size-le,
  runs_size-count,
}
use roaring.RunContainer.{RunContainer, cardinality_mod}
use roaring.RunContainer.Valid.{IsValid, domain-lt-cardinality_mod}

pub record Builder : Type 0 where
  pub back : List Run
  pub cardinality : ℕ

abbrev pub empty : Builder
empty = record { back = []; cardinality = 0 }

-- `result.cardinality += n`
abbrev counted_on : ℕ → ℕ → ℕ → ℕ
counted_on dom cardinality n = (cardinality + n) % cardinality_mod dom

push : ℕ → Run → List Run → ℕ → Builder
push dom next back cardinality = record {
  back = next ∷ back;
  cardinality = counted_on dom cardinality (run_size next);
}

append_to : ℕ → List Run → ℕ → Run → Builder
unfolding push
append_to dom [] cardinality next = push dom next [] cardinality
append_to dom (current ∷ earlier) cardinality next =
    if ltb (current.end + 1) next.begin
    then push dom next (current ∷ earlier) cardinality
    else (if ltb current.end next.end
        then record {
          back = record current { end = next.end } ∷ earlier;
          cardinality = counted_on dom cardinality (next.end - current.end);
        }
        else record { back = current ∷ earlier; cardinality = cardinality })

-- `append_run`: a run behind the last one, or one that touches it.
pub append_run : ℕ → Builder → Run → Builder
unfolding append_to
append_run dom b next = append_to dom b.back b.cardinality next

-- From the front again, before `rest`.
abbrev pub rev_onto : List Run → List Run → List Run
rev_onto [] rest = rest
rev_onto (r ∷ rs) rest = rev_onto rs (r ∷ rest)

abbrev pub built : Builder → RunContainer
built b = record { runs = rev_onto b.back []; cardinality = b.cardinality }

-- Runs from the back on, the last one well before `hi`.
abbrev pub Stacked : ℕ → List Run → Type 0
Stacked hi [] = Unit
Stacked hi (r ∷ rs) = (r.begin ≤ r.end) × (r.end + 2 ≤ hi) × Stacked r.begin rs

-- The last run starts at or before `lim`.
abbrev pub Ordered : ℕ → List Run → Type 0
Ordered lim [] = Unit
Ordered lim (r ∷ rs) = (r.begin ≤ lim) × (r.begin ≤ r.end) × Stacked r.begin rs

rev_onto-RunsFrom :
    (hi : ℕ) (rs rest : List Run) → Stacked hi rs → RunsFrom hi rest → RunsFrom 0 (rev_onto rs rest)
rev_onto-RunsFrom hi [] rest s w = RunsFrom-mono hi 0 rest (omega arith) w
rev_onto-RunsFrom hi (r ∷ rs) rest s w =
    rev_onto-RunsFrom r.begin rs (r ∷ rest) s.2
      (omega arith, s.0, RunsFrom-mono hi (r.end + 2) rest s.1 w)

pub in_runs-rev_onto :
    (rs rest : List Run) (v : ℕ) → in_runs (rev_onto rs rest) v ≡ (in_runs rs v || in_runs rest v)
in_runs-rev_onto [] rest v = refl
in_runs-rev_onto (r ∷ rs) rest v = ground (arith, in_runs-rev_onto rs (r ∷ rest) v)

pub rev_onto-Below :
    (n : ℕ) (rs rest : List Run) → Below n rs → Below n rest → Below n (rev_onto rs rest)
rev_onto-Below n [] rest b c = c
rev_onto-Below n (r ∷ rs) rest b c = rev_onto-Below n rs (r ∷ rest) b.1 (b.0, c)

runs_size-rev_onto :
    (rs rest : List Run) → runs_size (rev_onto rs rest) ≡ runs_size rs + runs_size rest
runs_size-rev_onto [] rest = omega arith
runs_size-rev_onto (r ∷ rs) rest = omega (arith, runs_size-rev_onto rs (r ∷ rest))

pub from_front : (lim : ℕ) (rs : List Run) → Ordered lim rs → RunsFrom 0 (rev_onto rs [])
from_front lim [] o = tt
from_front lim (r ∷ rs) o = rev_onto-RunsFrom r.begin rs (r ∷ []) o.2 (omega arith, o.1, tt)

-- The runs built so far hold the set `p`, in order, within the domain and counted; no later run may
-- start before `lim`.
pub record Holds (dom lim : ℕ) (p : ℕ → Bool) (b : Builder) : Type 0 where
  pub ordered : Ordered lim b.back
  pub within : Below dom b.back
  pub counted : b.cardinality ≡ runs_size b.back
  pub same : (v : ℕ) → in_runs b.back v ≡ p v

size-le : (dom lim : ℕ) (rs : List Run) → Ordered lim rs → Below dom rs → runs_size rs ≤ dom
size-le dom lim rs o w = omega (
  arith,
  runs_size-rev_onto rs [],
  runs_size-le dom 0 (rev_onto rs []) (from_front lim rs o) (rev_onto-Below dom rs [] w tt),
)

module _ (dom : ℕ) (small : dom ≤ 2 ^ 16) where
  append_to-Ordered :
      (lim : ℕ) (back : List Run) (c : ℕ) (next : Run)
      → Ordered lim back
      → lim ≤ next.begin
      → next.begin ≤ next.end
      → Ordered next.begin (append_to dom back c next).back
  unfolding append_to
  append_to-Ordered lim [] c next o h k = ground arith
  append_to-Ordered lim (r ∷ rs) c next o h k = ground arith

  append_to-Below :
      (back : List Run) (c : ℕ) (next : Run)
      → Below dom back
      → next.end < dom
      → Below dom (append_to dom back c next).back
  unfolding append_to
  append_to-Below [] c next w h = ground arith
  append_to-Below (r ∷ rs) c next w h = ground arith

  in_runs-append_to :
      (lim : ℕ) (back : List Run) (c : ℕ) (next : Run) (v : ℕ)
      → Ordered lim back
      → lim ≤ next.begin
      → next.begin ≤ next.end
      → in_runs (append_to dom back c next).back v ≡ (in_runs back v || in_run next v)
  unfolding append_to
  in_runs-append_to lim [] c next v o h k = ground arith
  in_runs-append_to lim (r ∷ rs) c next v o h k = ground arith

  append_to-counted :
      (back : List Run) (c : ℕ) (next : Run) (lim : ℕ)
      → c ≡ runs_size back
      → Ordered lim back
      → lim ≤ next.begin
      → next.begin ≤ next.end
      → runs_size (append_to dom back c next).back ≤ dom
      → (append_to dom back c next).cardinality ≡ runs_size (append_to dom back c next).back
  unfolding append_to
  append_to-counted [] c next lim e o h k m = ground (
    arith,
    domain-lt-cardinality_mod dom small,
    mod-eq_of_lt {n = c + run_size next} {m = cardinality_mod dom},
  )
  append_to-counted (r ∷ rs) c next lim e o h k m = ground (
    arith,
    domain-lt-cardinality_mod dom small,
    mod-eq_of_lt {n = c + run_size next} {m = cardinality_mod dom},
    mod-eq_of_lt {n = c + (next.end - r.end)} {m = cardinality_mod dom},
  )

  -- A run that starts late enough joins the set.
  pub append_run-Holds :
      (lim : ℕ) (p : ℕ → Bool) (b : Builder) (next : Run)
      → Holds dom lim p b
      → lim ≤ next.begin
      → next.begin ≤ next.end
      → next.end < dom
      → Holds dom next.begin (λ v. p v || in_run next v) (append_run dom b next)
  unfolding append_run
  append_run-Holds lim p b next m h k e =
      let ordered = append_to-Ordered lim b.back b.cardinality next m.ordered h k in
      let within = append_to-Below b.back b.cardinality next m.within e in
      record {
        ordered = ordered;
        within = within;
        counted =
            append_to-counted b.back b.cardinality next lim m.counted m.ordered h k
              (size-le dom next.begin _ ordered within);
        same = λ v.
            in_runs-append_to lim b.back b.cardinality next v m.ordered h k
            ∙ ap (λ q. q || in_run next v) (m.same v);
      }

pub empty-Holds : (dom : ℕ) → Holds dom 0 (λ v. false) empty
empty-Holds dom = record { ordered = tt; within = tt; counted = refl; same = λ v. refl }

-- The finished container.
pub built-IsValid :
    (dom lim : ℕ) (p : ℕ → Bool) (b : Builder)
    → Holds dom lim p b
    → IsValid dom (built b) × ((v : ℕ) → in_runs (built b).runs v ≡ p v)
built-IsValid dom lim p b m =
    let w = from_front lim b.back m.ordered in
    let k = rev_onto-Below dom b.back [] m.within tt in
    (
      record {
        ordered = w;
        within = k;
        counted =
            m.counted
            ∙ omega (arith, runs_size-rev_onto b.back [])
            ∙ runs_size-count dom 0 (rev_onto b.back []) w k;
      },
      λ v. ground (arith, in_runs-rev_onto b.back [] v, m.same v),
    )

pub Holds-cong :
    (dom lim : ℕ) (p q : ℕ → Bool) (b : Builder)
    → ((v : ℕ) → p v ≡ q v)
    → Holds dom lim p b
    → Holds dom lim q b
Holds-cong dom lim p q b e m = record {
  ordered = m.ordered;
  within = m.within;
  counted = m.counted;
  same = λ v. m.same v ∙ e v;
}
