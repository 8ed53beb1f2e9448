-- ===== src/Pmm/Count.antt =====
-- Counting frames: how the number of marked frames moves when one mark changes.
use my_own_operating_system.Base.{
  ℕ, zero, suc, ◌+◌, ◌≤◌, ◌<◌, ◌≡◌, refl, ◌≢◌, inl, inr, arith, ◌==◌, Bool-cases, eq_of_==,
  ne_of_==,
}

-- The sum of `f` over the numbers below `n`.
abbrev pub sum_below : (ℕ → ℕ) → ℕ → ℕ
sum_below f zero = 0
sum_below f (suc n) = sum_below f n + f n

pub sum_below_same :
    (f g : ℕ → ℕ) (n : ℕ) → ((k : ℕ) → k < n → f k ≡ g k) → sum_below f n ≡ sum_below g n
sum_below_same f g zero h = refl
sum_below_same f g (suc n) h =
    omega (arith, h n (omega arith), sum_below_same f g n (λ k p. h k (omega arith)))

-- Two summands that agree but at `b` have sums that differ as they do there.
pub sum_below_moved :
    (f g : ℕ → ℕ) (b n : ℕ)
    → b < n
    → ((k : ℕ) → b ≢ k → f k ≡ g k)
    → sum_below f n + g b ≡ sum_below g n + f b
sum_below_moved f g b zero p h = absurd (omega arith)
sum_below_moved f g b (suc n) p h = elim (Bool-cases (b == n)) [
  | inl last ↦
      let e : b ≡ n = eq_of_== b n last in
      rw e (omega (arith, sum_below_same f g n (λ k q. h k (λ r. omega arith))))
  | inr before ↦ omega (
    arith,
    ne_of_== b n before,
    h n (ne_of_== b n before),
    sum_below_moved f g b n (omega (arith, ne_of_== b n before)) h,
  )
]

pub sum_below-le : (f : ℕ → ℕ) (n : ℕ) → ((k : ℕ) → f k < 2) → sum_below f n ≤ n
sum_below-le f zero h = omega arith
sum_below-le f (suc n) h = omega (arith, h n, sum_below-le f n h)

-- A sum over a 0 among 0s and 1s is not full.
pub sum_below-lt : (f : ℕ → ℕ) (b n : ℕ) → b < n → f b ≡ 0 → ((k : ℕ) → f k < 2) → sum_below f n < n
sum_below-lt f b zero p e h = absurd (omega arith)
sum_below-lt f b (suc n) p e h = elim (Bool-cases (b == n)) [
  | inl last ↦ let q : f n ≡ 0 = rw (eq_of_== b n last) at e in omega (arith, sum_below-le f n h)
  | inr before ↦ omega (arith, h n, sum_below-lt f b n (omega (arith, ne_of_== b n before)) e h)
]

-- A sum that holds a 1 is not 0.
pub sum_below-pos : (f : ℕ → ℕ) (b n : ℕ) → b < n → f b ≡ 1 → 0 < sum_below f n
sum_below-pos f b zero p e = absurd (omega arith)
sum_below-pos f b (suc n) p e = elim (Bool-cases (b == n)) [
  | inl last ↦ let q : f n ≡ 1 = rw (eq_of_== b n last) at e in omega arith
  | inr before ↦ omega (arith, sum_below-pos f b n (omega (arith, ne_of_== b n before)) e)
]
