-- ===== src/Chunks/Entries.antt =====
-- The entries of a chunk table: the keys that they hold, and what the changes of the table do to these.
use roaring.Prelude.{
  ℕ, zero, suc, ◌+◌, ◌≤◌, ◌<◌, ◌≡◌, refl, ap, Bool, false, not, ◌&&◌, ◌||◌, List, [], ◌∷◌, some,
  ◌==◌, if◌then◌else◌, arith, length, get_elem?,
}
use roaring.Values.{in_values, in_values_before, Ascending}
use roaring.ArrayRef.Update.Insert.{insert_at, remove_at}
use roaring.Chunks.{keys_of, insert, erase, push_back, set_slot}

-- `mem` says which low values a handle holds, `size` how many, and `Ok` when it may stand in a table.
module _ {H : Type 0} (mem : H → ℕ → Bool) (size : H → ℕ) (Ok : H → Type 0) where
  -- Whether the low value `v` is in the chunk `q`.
  abbrev pub in_entries : List (ℕ × H) → ℕ → ℕ → Bool
  in_entries [] q v = false
  in_entries ((key, h) ∷ rest) q v = (q == key && mem h v) || in_entries rest q v

  abbrev pub total : List (ℕ × H) → ℕ
  total [] = 0
  total ((_, h) ∷ rest) = size h + total rest

  abbrev pub AllOk : List (ℕ × H) → Type 0
  AllOk [] = Unit
  AllOk ((_, h) ∷ rest) = Ok h × AllOk rest

  pub length-keys_of : (t : List (ℕ × H)) → length (keys_of t) ≡ length t
  length-keys_of [] = refl
  length-keys_of ((k, h) ∷ t) = ap suc (length-keys_of t)

  -- The entry at a position.
  abbrev pub IsEntry : List (ℕ × H) → ℕ → ℕ → H → Type 0
  IsEntry [] at k h = at < 0
  IsEntry ((k', h') ∷ t) zero k h = (k ≡ k') × (h ≡ h')
  IsEntry ((k', h') ∷ t) (suc at) k h = IsEntry t at k h

  pub there-IsEntry :
      (t : List (ℕ × H)) (at k : ℕ)
      → get_elem? (keys_of t) at ≡ some k
      → (h : H) × IsEntry t at k h × (get_elem? t at ≡ some (k, h))
  there-IsEntry [] at k e = absurd (ground arith)
  there-IsEntry ((k', h) ∷ t) zero k e =
      let same : k ≡ k' = ground (arith, e) in (h, (same, refl), rw same refl)
  there-IsEntry ((k', h) ∷ t) (suc at) k e = there-IsEntry t at k e

  pub entry_get :
      (t : List (ℕ × H)) (at k : ℕ) (h : H) → IsEntry t at k h → get_elem? t at ≡ some (k, h)
  entry_get [] at k h e = absurd (omega arith)
  entry_get ((k', h') ∷ t) zero k h (e, e') = rw (e, e') refl
  entry_get ((k', h') ∷ t) (suc at) k h e = entry_get t at k h e

  pub in_entries_absent :
      (t : List (ℕ × H)) (q v : ℕ) → in_values (keys_of t) q ≡ false → in_entries t q v ≡ false
  in_entries_absent [] q v e = refl
  in_entries_absent ((k, h) ∷ t) q v e = ground (arith, in_entries_absent t q v)

  pub entry_ok : (t : List (ℕ × H)) (at k : ℕ) (h : H) → AllOk t → IsEntry t at k h → Ok h
  entry_ok [] at k h a e = absurd (omega arith)
  entry_ok ((k', h') ∷ t) zero k h a (e, e') = rw e' a.0
  entry_ok ((k', h') ∷ t) (suc at) k h a e = entry_ok t at k h a.1 e

  -- The entry of a chunk decides its low values.
  pub in_entries_at :
      (lo : ℕ) (t : List (ℕ × H)) (at k : ℕ) (h : H) (v : ℕ)
      → Ascending lo (keys_of t)
      → IsEntry t at k h
      → (lo ≤ k) × (in_entries t k v ≡ mem h v)
  in_entries_at lo [] at k h v w e = absurd (omega arith)
  in_entries_at lo ((k', h') ∷ t) zero k h v w (e, e') =
      let later =
        in_entries_absent t k' v (in_values_before (k' + 1) k' (keys_of t) w.1 (omega arith)) in
      rw (e, e') (w.0, ground (arith, later))
  in_entries_at lo ((k', h') ∷ t) (suc at) k h v w e =
      let (later, same) = in_entries_at (k' + 1) t at k h v w.1 e in
      (omega arith, ground (arith, same, later))

  -- Another handle in the place of one.
  pub keys_of-set_slot : (t : List (ℕ × H)) (at : ℕ) (h : H) → keys_of (set_slot t at h) ≡ keys_of t
  keys_of-set_slot [] at h = refl
  keys_of-set_slot ((k, h') ∷ t) zero h = refl
  keys_of-set_slot ((k, h') ∷ t) (suc at) h = ap (λ ks. k ∷ ks) (keys_of-set_slot t at h)

  pub AllOk-set_slot :
      (t : List (ℕ × H)) (at : ℕ) (h : H) → AllOk t → Ok h → AllOk (set_slot t at h)
  AllOk-set_slot [] at h a o = tt
  AllOk-set_slot ((k, h') ∷ t) zero h a o = (o, a.1)
  AllOk-set_slot ((k, h') ∷ t) (suc at) h a o = (a.0, AllOk-set_slot t at h a.1 o)

  pub total-set_slot :
      (t : List (ℕ × H)) (at k : ℕ) (h h' : H)
      → IsEntry t at k h
      → total (set_slot t at h') + size h ≡ total t + size h'
  total-set_slot [] at k h h' e = absurd (omega arith)
  total-set_slot ((k', x) ∷ t) zero k h h' (e, e') = rw e' (omega arith)
  total-set_slot ((k', x) ∷ t) (suc at) k h h' e = omega (arith, total-set_slot t at k h h' e)

  pub in_entries-set_slot :
      (lo : ℕ) (t : List (ℕ × H)) (at k : ℕ) (h h' : H) (q v : ℕ)
      → Ascending lo (keys_of t)
      → IsEntry t at k h
      → in_entries (set_slot t at h') q v ≡ (if q == k then mem h' v else in_entries t q v)
  in_entries-set_slot lo [] at k h h' q v w e = absurd (omega arith)
  in_entries-set_slot lo ((k', x) ∷ t) zero k h h' q v w (e, e') =
      let later = in_entries_absent t q v in
      let before = in_values_before (k' + 1) q (keys_of t) w.1 in
      rw e (ground (arith, later, before))
  in_entries-set_slot lo ((k', x) ∷ t) (suc at) k h h' q v w e =
      let (later, same) = in_entries_at (k' + 1) t at k h v w.1 e in
      ground (arith, in_entries-set_slot (k' + 1) t at k h h' q v w.1 e, later)

  -- A new entry.
  pub keys_of-insert :
      (t : List (ℕ × H)) (at k : ℕ) (h : H) → keys_of (insert t at k h) ≡ insert_at at k (keys_of t)
  unfolding insert
  keys_of-insert t zero k h = refl
  keys_of-insert [] (suc at) k h = refl
  keys_of-insert ((k', x) ∷ t) (suc at) k h = ap (λ ks. k' ∷ ks) (keys_of-insert t at k h)

  pub set_slot-insert :
      (t : List (ℕ × H)) (at k : ℕ) (h h' : H)
      → at ≤ length t
      → IsEntry (insert t at k h) at k h × (set_slot (insert t at k h) at h' ≡ insert t at k h')
  unfolding insert
  set_slot-insert t zero k h h' l = ((refl, refl), refl)
  set_slot-insert [] (suc at) k h h' l = absurd (omega arith)
  set_slot-insert ((k', x) ∷ t) (suc at) k h h' l =
      let (there, same) = set_slot-insert t at k h h' (omega arith) in
      (there, ap (λ es. (k', x) ∷ es) same)

  pub insert_entries :
      (t : List (ℕ × H)) (at k : ℕ) (h : H)
      → AllOk t
      → Ok h
      → AllOk (insert t at k h)
        × (total (insert t at k h) ≡ total t + size h)
        × ((q v : ℕ) → in_entries (insert t at k h) q v ≡ ((q == k && mem h v) || in_entries t q v))
  unfolding insert
  insert_entries t zero k h a o = ((o, a), omega arith, λ q v. refl)
  insert_entries [] (suc at) k h a o = ((o, a), omega arith, λ q v. refl)
  insert_entries ((k', x) ∷ t) (suc at) k h a o =
      let (ok, n, same) = insert_entries t at k h a.1 o in
      ((a.0, ok), omega (arith, n), λ q v. ground (arith, same q v))

  pub push_back-insert :
      (t : List (ℕ × H)) (k : ℕ) (h : H) → push_back t k h ≡ insert t (length t) k h
  unfolding push_back insert
  push_back-insert [] k h = refl
  push_back-insert ((k', x) ∷ t) k h = ap (λ es. (k', x) ∷ es) (push_back-insert t k h)

  -- An entry taken out.
  pub keys_of-erase : (t : List (ℕ × H)) (at : ℕ) → keys_of (erase t at) ≡ remove_at at (keys_of t)
  unfolding erase
  keys_of-erase [] zero = refl
  keys_of-erase [] (suc at) = refl
  keys_of-erase ((k, h) ∷ t) zero = refl
  keys_of-erase ((k, h) ∷ t) (suc at) = ap (λ ks. k ∷ ks) (keys_of-erase t at)

  pub erase-set_slot : (t : List (ℕ × H)) (at : ℕ) (h : H) → erase (set_slot t at h) at ≡ erase t at
  unfolding erase
  erase-set_slot [] at h = refl
  erase-set_slot ((k, h') ∷ t) zero h = refl
  erase-set_slot ((k, h') ∷ t) (suc at) h = ap (λ es. (k, h') ∷ es) (erase-set_slot t at h)

  pub erase_entries :
      (lo : ℕ) (t : List (ℕ × H)) (at k : ℕ) (h : H)
      → Ascending lo (keys_of t)
      → AllOk t
      → IsEntry t at k h
      → AllOk (erase t at)
        × (total (erase t at) + size h ≡ total t)
        × ((q v : ℕ) → in_entries (erase t at) q v ≡ (in_entries t q v && not (q == k)))
  unfolding erase
  erase_entries lo [] at k h w a e = absurd (omega arith)
  erase_entries lo ((k', x) ∷ t) zero k h w a (e, e') =
      rw (e, e')
        (
          a.1,
          omega arith,
          λ q v.
              ground (arith, in_entries_absent t q v, in_values_before (k' + 1) q (keys_of t) w.1),
        )
  erase_entries lo ((k', x) ∷ t) (suc at) k h w a e =
      let (ok, n, same) = erase_entries (k' + 1) t at k h w.1 a.1 e in
      let (later, here) = in_entries_at (k' + 1) t at k h 0 w.1 e in
      ((a.0, ok), omega (arith, n), λ q v. ground (arith, same q v, later))
