-- ===== src/RunOps/Merge.antt =====
-- What the rounds of the intersection loop do to the result: each step, from what the rest of the loop
-- has made.
use roaring.Prelude.{
  ℕ, ◌+◌, ◌-◌, ◌≤◌, ◌<◌, ◌≡◌, ◌∙◌, refl, max, Bool, ◌&&◌, List, [], ◌∷◌, ◌%◌, arith, mod-eq_of_lt,
}
use roaring.Runs.{
  Run, in_runs, in_runs_before, in_runs-append, runs_size, runs_size-append, Below-append, RunsFrom,
  RunsFrom-mono, Below,
}
use roaring.RunOps.{RunIntersection, joined, emit}
use roaring.RunOps.Reach.{
  ending_before, reaching, reaching-RunsFrom, ending_before-Below, in_runs-reaching,
  ending_before_under, ending_before_from, ending_before-append,
}

-- `s` is the intersection of the two lists: well formed wherever one of them may stand, and counted.
pub record Meets (dom : ℕ) (lhs rhs : List Run) (s : RunIntersection) : Type 0 where
  pub like_left : (lo : ℕ) → RunsFrom lo lhs → RunsFrom lo s.runs
  pub like_right : (lo : ℕ) → RunsFrom lo rhs → RunsFrom lo s.runs
  pub within : Below dom s.runs
  pub counted : s.cardinality ≡ runs_size s.runs
  pub same : (v : ℕ) → in_runs s.runs v ≡ (in_runs lhs v && in_runs rhs v)

and_comm : (a b : Bool) → (a && b) ≡ (b && a)
and_comm a b = ground arith

module _ {dom : ℕ} {lhs rhs : List Run} {s : RunIntersection} where
  pub Meets-comm : Meets dom lhs rhs s → Meets dom rhs lhs s
  Meets-comm m = record {
    like_left = m.like_right;
    like_right = m.like_left;
    within = m.within;
    counted = m.counted;
    same = λ v. m.same v ∙ and_comm (in_runs lhs v) (in_runs rhs v);
  }

pub Meets-left_empty :
    (dom : ℕ) (rhs : List Run) → Meets dom [] rhs (record { runs = []; cardinality = 0 })
Meets-left_empty dom rhs = record {
  like_left = λ lo w. tt;
  like_right = λ lo w. tt;
  within = tt;
  counted = refl;
  same = λ v. refl;
}

-- Runs that end before the other list begins are crossed.
pub Meets-crossed :
    (dom limit : ℕ) (lhs rhs : List Run) (s : RunIntersection)
    → RunsFrom limit rhs
    → Meets dom (reaching limit lhs) rhs s
    → Meets dom lhs rhs s
Meets-crossed dom limit lhs rhs s w m = record {
  like_left = λ lo k. m.like_left lo (reaching-RunsFrom limit lo lhs k);
  like_right = m.like_right;
  within = m.within;
  counted = m.counted;
  same = λ v. ground (
    arith,
    m.same v,
    in_runs-reaching limit v lhs,
    ending_before_under limit v lhs,
    in_runs_before limit v rhs w,
  );
}

-- A block of runs inside the other list's current run is copied.
pub Meets-copied :
    (dom lo : ℕ) (lhs : List Run) (r : Run) (rs : List Run) (s : RunIntersection)
    → RunsFrom lo lhs
    → Below dom lhs
    → r.begin ≤ lo
    → RunsFrom r.begin (r ∷ rs)
    → Meets dom (reaching (r.end + 1) lhs) (r ∷ rs) s
    → Meets dom lhs (r ∷ rs) (
        joined
          (record {
            runs = ending_before (r.end + 1) lhs;
            cardinality = runs_size (ending_before (r.end + 1) lhs);
          })
          s)
Meets-copied dom lo lhs r rs s w b k wr m = record {
  like_left = λ from h. ending_before-append (r.end + 1) from lhs s.runs h m.like_left;
  like_right = λ from h.
      ending_before-append (r.end + 1) from lhs s.runs
        (RunsFrom-mono lo from lhs (omega (arith, h)) w) m.like_left;
  within =
      Below-append dom (ending_before (r.end + 1) lhs) s.runs
        (ending_before-Below (r.end + 1) dom lhs b) m.within;
  counted = omega (arith, m.counted, runs_size-append (ending_before (r.end + 1) lhs) s.runs);
  same = λ v. ground (
    arith,
    m.same v,
    in_runs-append (ending_before (r.end + 1) lhs) s.runs v,
    in_runs-reaching (r.end + 1) v lhs,
    ending_before_under (r.end + 1) v lhs,
    ending_before_from (r.end + 1) lo v lhs w,
  );
}

module _ (dom : ℕ) (l r : Run) (ls rs : List Run) (s : RunIntersection)
    (wl : RunsFrom l.begin (l ∷ ls)) (wr : RunsFrom r.begin (r ∷ rs)) (in_domain : l.end < dom)
    (overlap : (r.begin ≤ l.end) × (l.begin ≤ r.end)) where
  abbrev first_common : RunIntersection
  first_common = emit dom (max l.begin r.begin) (l.end + 1)

  begin_uncut : max l.begin r.begin % dom ≡ max l.begin r.begin
  begin_uncut = mod-eq_of_lt (omega arith)

  end_uncut : (l.end + 1 - 1) % dom ≡ l.end
  end_uncut = mod-eq_of_lt {m = dom} (omega arith) ∙ omega arith

  -- The left run ends first: the common part is written, and the right run stays.
  pub Meets-left_ends :
      l.end < r.end → Meets dom ls (r ∷ rs) s → Meets dom (l ∷ ls) (r ∷ rs) (joined first_common s)
  Meets-left_ends first m = record {
    like_left = λ lo w. ground (arith, begin_uncut, end_uncut, m.like_left (l.end + 2));
    like_right = λ lo w. ground (arith, begin_uncut, end_uncut, m.like_left (l.end + 2));
    within = ground (arith, end_uncut, m.within);
    counted = ground (arith, begin_uncut, end_uncut, m.counted);
    same = λ v. ground (
      arith,
      begin_uncut,
      end_uncut,
      m.same v,
      in_runs_before (l.end + 2) v ls wl.2,
      in_runs_before (r.end + 2) v rs wr.2,
    );
  }

  -- Both end together.
  pub Meets-both_end :
      l.end ≡ r.end → Meets dom ls rs s → Meets dom (l ∷ ls) (r ∷ rs) (joined first_common s)
  Meets-both_end together m = record {
    like_left = λ lo w. ground (arith, begin_uncut, end_uncut, m.like_left (l.end + 2));
    like_right = λ lo w. ground (arith, begin_uncut, end_uncut, m.like_left (l.end + 2));
    within = ground (arith, end_uncut, m.within);
    counted = ground (arith, begin_uncut, end_uncut, m.counted);
    same = λ v. ground (
      arith,
      begin_uncut,
      end_uncut,
      m.same v,
      in_runs_before (l.end + 2) v ls wl.2,
      in_runs_before (r.end + 2) v rs wr.2,
    );
  }
