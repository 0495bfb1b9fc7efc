-- ===== src/Pool/Totals.antt =====
-- Sums over the goroutines of a pool, and counts in its lists.
use common_fw.Common.{
  ℕ, zero, suc, ◌+◌, ◌≤◌, ◌<◌, List, [], ◌∷◌, ◌++◌, ◌==◌, ◌≡◌, refl, arith, inl, inr, Bool-cases,
}
use common_fw.Pool.{Phase, set_routine, Dispatch, total, held}

pub total-set_other :
    (f : Phase → ℕ) (n i : ℕ) (x : Phase) (w : ℕ → Phase)
    → n ≤ i
    → total f n (set_routine i x w) ≡ total f n w
unfolding total
total-set_other f zero i x w h = refl
total-set_other f (suc n) i x w h = ground (arith, total-set_other f n i x w)

-- A goroutine that changes takes its part of the sum with it.
pub total-set_routine :
    (f : Phase → ℕ) (n i : ℕ) (x : Phase) (w : ℕ → Phase)
    → i < n
    → total f n (set_routine i x w) + f (w i) ≡ total f n w + f x
unfolding total
total-set_routine f zero i x w h = elim h [ ]
total-set_routine f (suc n) i x w h = elim (Bool-cases (n == i)) [
  | inl e ↦ ground (arith, total-set_other f n i x w)
  | inr e ↦ ground (arith, total-set_routine f n i x w)
]

pub total_nil : (f : Phase → ℕ) (n : ℕ) (w : ℕ → Phase) → ((i : ℕ) → f (w i) ≡ 0) → total f n w ≡ 0
unfolding total
total_nil f zero w h = refl
total_nil f (suc n) w h = ground (arith, h n, total_nil f n w h)

total_at_most : (f : Phase → ℕ) (n : ℕ) (w : ℕ → Phase) → ((x : Phase) → f x ≤ 1) → total f n w ≤ n
unfolding total
total_at_most f zero w h = omega arith
total_at_most f (suc n) w h = omega (arith, h (w n), total_at_most f n w h)

-- Where each counts at most once, one that does not leaves the sum below the number.
pub total_less :
    (f : Phase → ℕ) (n i : ℕ) (w : ℕ → Phase)
    → ((x : Phase) → f x ≤ 1)
    → i < n
    → f (w i) ≡ 0
    → total f n w < n
unfolding total
total_less f zero i w h l e = elim l [ ]
total_less f (suc n) i w h l e = elim (Bool-cases (n == i)) [
  | inl q ↦ ground (arith, total_at_most f n w h)
  | inr q ↦ ground (arith, h (w n), total_less f n i w h)
]

pub held-append : (i : ℕ) (xs ys : List Dispatch) → held i (xs ++ ys) ≡ held i xs + held i ys
unfolding held
held-append i [] ys = omega arith
held-append i (x ∷ xs) ys = omega (arith, held-append i xs ys)
