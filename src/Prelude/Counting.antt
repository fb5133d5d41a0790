-- ===== src/Prelude/Counting.antt =====
-- A set of numbers is a Boolean function; `count_below n p` is how many members it has under `n`.
use Prim.Native.Nat.{ℕ, zero, suc, ◌+◌, ◌-◌, ◌≤◌, ◌<◌, min}
use mathlib.Core.Path.{◌≡◌, ◌∙◌, refl, ap}
use mathlib.Core.Bool.{Bool, true, false, not, ◌&&◌, ◌||◌}
use mathlib.Core.Logic.{inl, inr}
use native.Mathlib.Omega.{arith}
use roaring.Prelude.Tests.{leb, ltb, bit, order, ◌==◌}

abbrev pub count_below : ℕ → (ℕ → Bool) → ℕ
count_below zero p = 0
count_below (suc n) p = count_below n p + bit (p n)

pub count_below-none : (n : ℕ) → count_below n (λ v. false) ≡ 0
count_below-none zero = refl
count_below-none (suc n) = omega (arith, count_below-none n)

pub count_below-le : (n : ℕ) (p : ℕ → Bool) → count_below n p ≤ n
count_below-le zero p = omega arith
count_below-le (suc n) p = ground (arith, count_below-le n p)

-- Disjoint sets add up.
pub count_below-or :
    (n : ℕ) (p q : ℕ → Bool)
    → ((v : ℕ) → p v && q v ≡ false)
    → count_below n (λ v. p v || q v) ≡ count_below n p + count_below n q
count_below-or zero p q h = refl
count_below-or (suc n) p q h = ground (arith, count_below-or n p q h, h n)

-- The members of a closed interval, as far as they lie under `n`.
pub count_below-interval_cut :
    (n b e : ℕ) → count_below n (λ v. leb b v && leb v e) ≡ min n (e + 1) - b
count_below-interval_cut zero b e = omega arith
count_below-interval_cut (suc n) b e = ground (arith, count_below-interval_cut n b e)

pub count_below-interval :
    (n b e : ℕ) → b ≤ e → e < n → count_below n (λ v. leb b v && leb v e) ≡ e - b + 1
count_below-interval n b e h k = omega (arith, count_below-interval_cut n b e)

pub count_below-cong :
    (n : ℕ) (p q : ℕ → Bool) → ((v : ℕ) → p v ≡ q v) → count_below n p ≡ count_below n q
count_below-cong zero p q h = refl
count_below-cong (suc n) p q h = ground (arith, count_below-cong n p q h, h n)

abbrev single : ℕ → ℕ → Bool
single v w = leb v w && leb w v

-- One more member, if it was not there.
count_below-insert_cut :
    (n v : ℕ) (p : ℕ → Bool)
    → count_below n (λ w. single v w || p w) ≡ count_below n p + bit (ltb v n && not (p v))
count_below-insert_cut zero v p = ground arith
count_below-insert_cut (suc n) v p = elim (order n v) [
  | inl h ↦ ground (arith, count_below-insert_cut n v p)
  | inr (inl h) ↦ ground (arith, count_below-insert_cut n v p)
  | inr (inr h) ↦ let e : v ≡ n = h in rw e (ground (arith, rw e at (count_below-insert_cut n v p)))
]

pub count_below-insert :
    (n v : ℕ) (p : ℕ → Bool)
    → v < n
    → count_below n (λ w. single v w || p w) ≡ count_below n p + bit (not (p v))
count_below-insert n v p h = ground (arith, count_below-insert_cut n v p)

-- One less, if it was there.
count_below-delete_cut :
    (n v : ℕ) (p : ℕ → Bool)
    → count_below n (λ w. p w && not (single v w)) + bit (ltb v n && p v) ≡ count_below n p
count_below-delete_cut zero v p = ground arith
count_below-delete_cut (suc n) v p = elim (order n v) [
  | inl h ↦ ground (arith, count_below-delete_cut n v p)
  | inr (inl h) ↦ ground (arith, count_below-delete_cut n v p)
  | inr (inr h) ↦ let e : v ≡ n = h in rw e (ground (arith, rw e at (count_below-delete_cut n v p)))
]

pub count_below-delete :
    (n v : ℕ) (p : ℕ → Bool)
    → v < n
    → count_below n (λ w. p w && not (single v w)) + bit (p v) ≡ count_below n p
count_below-delete n v p h = ground (arith, count_below-delete_cut n v p)

-- A set with one value put in or taken out; nothing changes if it is there, or not there, already.
pub insert_present : (p : ℕ → Bool) (value v : ℕ) → p value ≡ true → p v ≡ (v == value || p v)
insert_present p value v h = elim (order v value) [
  | inl less ↦ ground arith
  | inr (inl more) ↦ ground arith
  | inr (inr same) ↦ let h' : p v ≡ true = rw same at h in ground arith
]

pub delete_absent : (p : ℕ → Bool) (value v : ℕ) → p value ≡ false → p v ≡ (p v && not (v == value))
delete_absent p value v h = elim (order v value) [
  | inl less ↦ ground arith
  | inr (inl more) ↦ ground arith
  | inr (inr same) ↦ let h' : p v ≡ false = rw same at h in ground arith
]

insert_single : (v u : ℕ) (b : Bool) → (u == v || b) ≡ (single v u || b)
insert_single v u b = ground arith

delete_single : (v u : ℕ) (b : Bool) → (b && not (u == v)) ≡ (b && not (single v u))
delete_single v u b = ground arith

pub count_below-insert_new :
    (n v : ℕ) (p q : ℕ → Bool)
    → v < n
    → ((u : ℕ) → q u ≡ (u == v || p u))
    → count_below n q ≡ count_below n p + bit (not (p v))
count_below-insert_new n v p q h e =
    count_below-cong n q _ (λ u. e u ∙ insert_single v u (p u)) ∙ count_below-insert n v p h

pub count_below-delete_old :
    (n v : ℕ) (p q : ℕ → Bool)
    → v < n
    → ((u : ℕ) → q u ≡ (p u && not (u == v)))
    → count_below n q + bit (p v) ≡ count_below n p
count_below-delete_old n v p q h e =
    ap (λ t. t + bit (p v)) (count_below-cong n q _ (λ u. e u ∙ delete_single v u (p u)))
    ∙ count_below-delete n v p h

-- Only the values under the bound count.
pub count_below-cong_below :
    (n : ℕ) (p q : ℕ → Bool) → ((v : ℕ) → v < n → p v ≡ q v) → count_below n p ≡ count_below n q
count_below-cong_below zero p q h = refl
count_below-cong_below (suc n) p q h =
    ground (arith, count_below-cong_below n p q (λ v k. h v (omega arith)), h n (omega arith))

-- A count in two parts.
pub count_below-+ :
    (m n : ℕ) (p : ℕ → Bool)
    → count_below (m + n) p ≡ count_below m p + count_below n (λ v. p (m + v))
count_below-+ m zero p = let e : m + zero ≡ m = omega arith in rw e (omega arith)
count_below-+ m (suc n) p =
    let e : m + suc n ≡ suc (m + n) = omega arith in rw e (omega (arith, count_below-+ m n p))
