-- ===== src/Chunks/Find.antt =====
-- The searches of a chunk table find what a scan of the keys would.
use roaring.Prelude.{
  ℕ, zero, suc, ◌+◌, ◌-◌, ◌*◌, ◌/◌, ◌≤◌, ◌<◌, ◌≡◌, ◌∙◌, ◌⊎◌, inl, inr, refl, sym, ap, min, max,
  Bool-cases, true, false, List, [], ◌∷◌, Option, some, leb, ltb, bit, lt→ltb, le→ltb, le→leb,
  lt→leb, eq→==, lt→==, gt→==, if◌then◌else◌, arith, order, length, get_elem?,
}
use roaring.Values.{in_values, in_values_before, Ascending}
use roaring.ArrayRef.Rank.{
  rank, rank_before, rank-le-length, rank-IsSplit, in_values-rank, in_values_past,
}
use roaring.Gallop.{partition_point_lem, double_steps_lem}
use roaring.Chunks.{
  lower_bound, halve_keys, at_or_end, find_by_bound, find_by_halving, find_after_last, find,
  bisect_keys, lower_bound_from,
}

-- One more value below the successor if the value is there.
rank_next :
    (lo v : ℕ) (xs : List ℕ) → Ascending lo xs → rank xs (v + 1) ≡ rank xs v + bit (in_values xs v)
rank_next lo v [] w = refl
rank_next lo v (x ∷ xs) w = ground (
  arith,
  rank_next (x + 1) v xs w.1,
  in_values_before (x + 1) v xs w.1,
  rank_before (x + 1) v xs w.1,
  rank_before (x + 1) (v + 1) xs w.1,
)

pub found_in : (xs : List ℕ) (i x : ℕ) → get_elem? xs i ≡ some x → in_values xs x ≡ true
found_in [] i x e = absurd (ground arith)
found_in (y ∷ ys) zero x e = ground (arith, e)
found_in (y ∷ ys) (suc i) x e = ground (arith, found_in ys i x e)

module _ (keys : List ℕ) (key : ℕ) (ascends : Ascending 0 keys) where
  -- Where `find` ends.
  abbrev pub target : ℕ
  target = if in_values keys key then rank keys key else length keys

  -- A position of the key, or one that shows that it is missing.
  at_or_end_lem :
      (at : ℕ)
      → at < length keys
      → (in_values keys key ≡ true → at ≡ rank keys key)
      → at_or_end keys key at ≡ some target
  unfolding at_or_end
  at_or_end_lem at h same =
      let (x, e, t) = rank-IsSplit 0 key keys ascends at h in
      elim (Bool-cases (in_values keys key)) [
        | inl on ↦
            let here = same on in
            let e' : get_elem? keys (rank keys key) ≡ some x = rw here at e in
            rw (e, on) (ground (arith, in_values-rank 0 key x keys ascends e', on, here))
        | inr off ↦
            let there = found_in keys at x e in
            elim (order x key) [
              | inl less ↦ rw (e, off, lt→== x key less) refl
              | inr (inl more) ↦ rw (e, off, gt→== x key more) refl
              | inr (inr at_key) ↦
                  let there' : in_values keys key ≡ true = rw at_key (there) in
                  absurd (ground (arith, there', off))
            ]
      ]

  halve_keys_lem :
      (fuel base n : ℕ)
      → n ≤ fuel
      → 0 < n
      → base + n ≤ length keys
      → rank keys (key + 1) ≤ base + n
      → (base < rank keys (key + 1)) ⊎ (base ≡ 0)
      → halve_keys (suc fuel) keys key base n ≡ some (rank keys (key + 1) - 1)
  unfolding halve_keys
  halve_keys_lem zero base n f p h u l = absurd (omega arith)
  halve_keys_lem (suc fuel) base n f p h u l = elim (order 1 n) [
    | inr one ↦ rw (le→ltb 1 n (omega arith)) (ap some (ground arith))
    | inl many ↦
        let (x, e, t) = rank-IsSplit 0 (key + 1) keys ascends (base + n / 2) (omega arith) in
        elim (order (base + n / 2) (rank keys (key + 1))) [
          | inl under ↦
              let c : leb x key ≡ true = ground (arith, t) in
              rw (lt→ltb 1 n many, e, c)
                (halve_keys_lem fuel (base + n / 2) (n - n / 2) (omega arith) (omega arith)
                  (omega arith) (omega arith) (inl under))
          | inr past ↦
              let c : leb x key ≡ false = ground (arith, t) in
              rw (lt→ltb 1 n many, e, c)
                (halve_keys_lem fuel base (n - n / 2) (omega arith) (omega arith) (omega arith)
                  (omega arith) l)
        ]
  ]

  find_by_halving_lem : 0 < length keys → find_by_halving keys key ≡ some target
  unfolding find_by_halving
  find_by_halving_lem h =
      let n : length keys + 1 ≡ suc (length keys) = omega arith in
      let most = rank-le-length keys (key + 1) in
      let up = rank_next 0 key keys ascends in
      rw
        (
          n,
          halve_keys_lem (length keys) 0 (length keys) (omega arith) h (omega arith) (omega arith)
              (inr refl),
        )
        (at_or_end_lem (rank keys (key + 1) - 1) (omega arith) (λ on. ground (arith, up, on)))

  pub lower_bound_lem : lower_bound keys key ≡ some (rank keys key)
  unfolding lower_bound
  lower_bound_lem =
      partition_point_lem (λ x. ltb x key) keys (length keys) (rank keys key)
        (rank-IsSplit 0 key keys ascends) (rank-le-length keys key) (length keys) 0 (omega arith)
        (omega (arith, rank-le-length keys key)) (omega arith)

  find_by_bound_lem : find_by_bound keys key ≡ some target
  unfolding find_by_bound
  find_by_bound_lem =
      let most = rank-le-length keys key in
      let at = lower_bound_lem in
      elim (order (rank keys key) (length keys)) [
        | inl inside ↦
            rw (at, lt→== (rank keys key) (length keys) inside)
              (at_or_end_lem (rank keys key) inside (λ on. refl))
        | inr past ↦
            let end : rank keys key ≡ length keys = omega arith in
            rw (at, eq→== (rank keys key) (length keys) end, in_values_past key keys end)
              (ap some end)
      ]

  find_after_last_lem :
      (on : Option ℕ)
      → 0 < length keys
      → on ≡ some target
      → find_after_last keys key on ≡ some target
  unfolding find_after_last
  find_after_last_lem on h e =
      let (x, p, t) = rank-IsSplit 0 key keys ascends (length keys - 1) (omega arith) in
      let most = rank-le-length keys key in
      elim (order x key) [
        | inl less ↦ rw (p, lt→== x key less) e
        | inr (inl more) ↦ rw (p, gt→== x key more) e
        | inr (inr at_key) ↦
            let there : in_values keys key ≡ true =
              rw at_key (found_in keys (length keys - 1) x p) in
            let last : rank keys key ≡ length keys - 1 =
              let (x', p', t') =
                rank-IsSplit 0 (key + 1) keys ascends (length keys - 1) (omega arith) in
              let up = rank_next 0 key keys ascends in
              let same : some x ≡ some x' = sym p ∙ p' in
              ground (arith, t, t', up, there, same, most) in
            rw (p, eq→== x key (sym at_key), there) (ap some (sym last))
      ]

  -- On ascending chunk keys, the lookup by the last key, the halving or the lower bound, as the
  -- length chooses, ends and reads nothing out of bounds: it gives the number of keys below the key
  -- if that is there, else the end.
  pub find_lem : (key_bytes : ℕ) → find key_bytes keys key ≡ some target
  unfolding find
  find_lem key_bytes =
      let size = length keys in
      elim (order 16 size) [
        | inl large ↦ rw (lt→ltb 16 size large) (
            find_after_last_lem _ (omega arith) (elim (Bool-cases (ltb 128 (size * key_bytes))) [
              | inl far ↦ rw far find_by_bound_lem
              | inr near ↦ rw near (find_by_halving_lem (omega arith))
            ]))
        | inr small ↦ elim (order size 3) [
          | inl few ↦ elim (order size 0) [
            | inl less ↦ absurd (omega arith)
            | inr (inl some_keys) ↦
                rw (le→ltb 16 size (omega arith), lt→ltb size 3 few, gt→== size 0 some_keys)
                  (find_by_halving_lem some_keys)
            | inr (inr empty) ↦
                rw (le→ltb 16 size (omega arith), lt→ltb size 3 few, eq→== size 0 (sym empty))
                  (let most = rank-le-length keys key in
                    ap some (elim (Bool-cases (in_values keys key)) [
                      | inl on ↦ rw on (omega arith)
                      | inr off ↦ rw off refl
                    ]))
          ]
          | inr window ↦ elim (Bool-cases (leb 5 size)) [
            | inl long ↦
                rw (le→ltb 16 size (omega arith), le→ltb size 3 (omega arith), long)
                  (find_after_last_lem _ (omega arith) (find_by_halving_lem (omega arith)))
            | inr short ↦
                rw (le→ltb 16 size (omega arith), le→ltb size 3 (omega arith), short)
                  (find_by_halving_lem (omega arith))
          ]
        ]
      ]

  -- The search between two positions.
  bisect_keys_lem :
      (fuel low high : ℕ)
      → high ≤ fuel + low
      → low < rank keys key
      → rank keys key ≤ high
      → high ≤ length keys
      → bisect_keys (suc fuel) keys key low high ≡ some (rank keys key)
  unfolding bisect_keys
  bisect_keys_lem zero low high f a b c = absurd (omega arith)
  bisect_keys_lem (suc fuel) low high f a b c = elim (order (low + 1) high) [
    | inr near ↦ rw (le→ltb (low + 1) high (omega arith)) (ap some (omega arith))
    | inl far ↦
        let mid = low + (high - low) / 2 in
        let (x, e, t) = rank-IsSplit 0 key keys ascends mid (omega arith) in
        elim (order mid (rank keys key)) [
          | inl under ↦
              rw (lt→ltb (low + 1) high far, e, t, lt→ltb mid (rank keys key) under)
                (bisect_keys_lem fuel mid high (omega arith) under b c)
          | inr past ↦
              rw (lt→ltb (low + 1) high far, e, t, le→ltb mid (rank keys key) (omega arith))
                (bisect_keys_lem fuel low mid (omega arith) a (omega arith) (omega arith))
        ]
  ]

  -- On ascending chunk keys, the galloping search from any position ends and gives the position of
  -- the plain lower bound, or the start cut to the length if that is later.
  pub lower_bound_from_lem :
      (from : ℕ)
      → lower_bound_from keys key from ≡ some (max (min from (length keys)) (rank keys key))
  unfolding lower_bound_from
  lower_bound_from_lem from =
      let n = length keys in
      let most = rank-le-length keys key in
      elim (order from n) [
        | inr past ↦ rw (le→leb n from (omega arith)) (ap some (omega arith))
        | inl inside ↦
            let (x, e, t) = rank-IsSplit 0 key keys ascends from inside in
            elim (order from (rank keys key)) [
              | inr there ↦
                  rw (lt→leb n from inside, e, t, le→ltb from (rank keys key) (omega arith))
                    (ap some (omega arith))
              | inl under ↦
                  let (low, s, q, p, r) =
                    double_steps_lem (λ x. ltb x key) keys n (rank keys key)
                      (rank-IsSplit 0 key keys ascends) most n from 1 under (omega arith)
                      (omega arith) in
                  let rounds : n + 1 ≡ suc n = omega arith in
                  rw (lt→leb n from inside, e, t, lt→ltb from (rank keys key) under, q, rounds)
                    (bisect_keys_lem n low (min (low + s) n) (omega arith) p (omega arith)
                        (omega arith)
                      ∙ ap some (omega arith))
            ]
      ]
