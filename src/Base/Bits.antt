-- ===== src/Base/Bits.antt =====
-- The digits of a word, and how `&`, `|` and `~` act on them, at every width.
use Prim.Native.Nat.{
  ℕ, zero, suc, ◌+◌, ◌-◌, ◌*◌, ◌/◌, ◌%◌, ◌^◌, ◌≤◌, ◌<◌, min, max, digits, bit_and, bit_or,
  bit_and-bitwise, bit_or-bitwise,
}
use mathlib.Core.Path.{◌≡◌, refl, ap, ◌∙◌}
use mathlib.Core.Logic.{◌≢◌}
use native.Mathlib.Nat.{pow-succ', one-le-pow, le_refl, div-add-mod, div-div-eq-div-mul}
use native.Mathlib.Omega.{arith}

-- The digit of weight `2 ^ j`.
abbrev pub bit_at : ℕ → ℕ → ℕ
bit_at a zero = a % 2
bit_at a (suc j) = bit_at (a / 2) j

module _ (out : ℕ → ℕ) (op : ℕ → ℕ → ℕ) where
  -- Any two counts of digits that are enough give the same number.
  enough_digits : (n m a b : ℕ) → a ≤ n → a ≤ m → digits out op n a b ≡ digits out op m a b
  enough_digits zero zero a b p q = refl
  enough_digits zero (suc m) zero b p q = refl
  enough_digits zero (suc m) (suc a) b p q = absurd (omega arith)
  enough_digits (suc n) zero zero b p q = refl
  enough_digits (suc n) zero (suc a) b p q = absurd (omega arith)
  enough_digits (suc n) (suc m) zero b p q = refl
  enough_digits (suc n) (suc m) (suc a) b p q =
      rw (enough_digits n m (suc a / 2) (b / 2) (omega arith) (omega arith))

  first_digit :
      (a b : ℕ)
      → digits out op (suc a) (suc a) b
        ≡ digits out op (suc a / 2) (suc a / 2) (b / 2) * 2 + op (suc a % 2) (b % 2)
  first_digit a b =
      omega (arith, enough_digits a (suc a / 2) (suc a / 2) (b / 2) (omega arith) (le_refl _))

pub bit_and_halves : (a b : ℕ) → bit_and a b ≡ bit_and (a / 2) (b / 2) * 2 + min (a % 2) (b % 2)
bit_and_halves zero b = simp bit_and-bitwise (omega arith)
bit_and_halves (suc a) b = simp bit_and-bitwise (first_digit (λ y. 0) min a b)

pub bit_or_halves : (a b : ℕ) → bit_or a b ≡ bit_or (a / 2) (b / 2) * 2 + max (a % 2) (b % 2)
bit_or_halves zero b = simp bit_or-bitwise (omega arith)
bit_or_halves (suc a) b = simp bit_or-bitwise (first_digit (λ y. y) max a b)

pub bit_at-lt : (j a : ℕ) → bit_at a j < 2
bit_at-lt zero a = omega arith
bit_at-lt (suc j) a = bit_at-lt j (a / 2)

pub bit_at-and : (j a b : ℕ) → bit_at (bit_and a b) j ≡ min (bit_at a j) (bit_at b j)
bit_at-and zero a b = omega (arith, bit_and_halves a b)
bit_at-and (suc j) a b =
    let halved : bit_and a b / 2 ≡ bit_and (a / 2) (b / 2) = omega (arith, bit_and_halves a b) in
    rw halved (bit_at-and j (a / 2) (b / 2))

pub bit_at-or : (j a b : ℕ) → bit_at (bit_or a b) j ≡ max (bit_at a j) (bit_at b j)
bit_at-or zero a b = omega (arith, bit_or_halves a b)
bit_at-or (suc j) a b =
    let halved : bit_or a b / 2 ≡ bit_or (a / 2) (b / 2) = omega (arith, bit_or_halves a b) in
    rw halved (bit_at-or j (a / 2) (b / 2))

pub bit_at-zero : (j : ℕ) → bit_at 0 j ≡ 0
bit_at-zero zero = refl
bit_at-zero (suc j) = bit_at-zero j

half-pow : (k : ℕ) → 2 ^ suc k / 2 ≡ 2 ^ k
half-pow k = omega (arith, pow-succ' 2 k)

-- `1 << k` has the digit `k` alone.
pub bit_at-pow_self : (k : ℕ) → bit_at (2 ^ k) k ≡ 1
bit_at-pow_self zero = refl
bit_at-pow_self (suc k) = rw half-pow (bit_at-pow_self k)

pub bit_at-pow_ne : (k j : ℕ) → k ≢ j → bit_at (2 ^ k) j ≡ 0
bit_at-pow_ne zero zero h = absurd (h refl)
bit_at-pow_ne zero (suc j) h = bit_at-zero j
bit_at-pow_ne (suc k) zero h = omega (arith, pow-succ' 2 k)
bit_at-pow_ne (suc k) (suc j) h = rw half-pow (bit_at-pow_ne k j (λ e. h (ap suc e)))

-- The complement within `n` digits.
pub bit_at-not : (n j a : ℕ) → a < 2 ^ n → j < n → bit_at (2 ^ n - 1 - a) j ≡ 1 - bit_at a j
bit_at-not zero j a h k = absurd (omega arith)
bit_at-not (suc n) zero a h k = omega (arith, pow-succ' 2 n)
bit_at-not (suc n) (suc j) a h k =
    let halved : (2 ^ suc n - 1 - a) / 2 ≡ 2 ^ n - 1 - a / 2 = omega (arith, pow-succ' 2 n) in
    rw halved (bit_at-not n j (a / 2) (omega (arith, pow-succ' 2 n)) (omega arith))

bit_and_empty : (b : ℕ) → bit_and 0 b ≡ 0
bit_and_empty b = bit_and-bitwise 0 b

bit_or_empty : (b : ℕ) → bit_or 0 b ≡ b
bit_or_empty b = bit_or-bitwise 0 b

bit_and-zero_below : (n a : ℕ) → a ≤ n → bit_and a 0 ≡ 0
bit_and-zero_below n zero h = bit_and_empty 0
bit_and-zero_below zero (suc a) h = absurd (omega arith)
bit_and-zero_below (suc n) (suc a) h =
    omega (arith, bit_and_halves (suc a) 0, bit_and-zero_below n (suc a / 2) (omega arith))

pub bit_and-zero : (a : ℕ) → bit_and a 0 ≡ 0
bit_and-zero a = bit_and-zero_below a a (le_refl _)

bit_or-zero_below : (n a : ℕ) → a ≤ n → bit_or a 0 ≡ a
bit_or-zero_below n zero h = bit_or_empty 0
bit_or-zero_below zero (suc a) h = absurd (omega arith)
bit_or-zero_below (suc n) (suc a) h =
    omega (arith, bit_or_halves (suc a) 0, bit_or-zero_below n (suc a / 2) (omega arith))

pub bit_or-zero : (a : ℕ) → bit_or a 0 ≡ a
bit_or-zero a = bit_or-zero_below a a (le_refl _)

-- A multiple of `2 ^ (k + 1)` is twice the multiple of `2 ^ k`.
times_pow-suc : (q k : ℕ) → q * 2 ^ suc k ≡ 2 * (q * 2 ^ k)
times_pow-suc q k = omega (arith, ap (λ (t : ℕ). q * t) (pow-succ' 2 k))

half-times_pow : (q k : ℕ) → q * 2 ^ suc k / 2 ≡ q * 2 ^ k
half-times_pow q k = omega (arith, times_pow-suc q k)

halves-pow : (a k : ℕ) → a / 2 ^ suc k ≡ a / 2 / 2 ^ k
halves-pow a k = rw (pow-succ' 2 k, div-div-eq-div-mul a 2 (2 ^ k))

-- The remainder by `2 ^ (k + 1)`, from the remainder of the half.
mod-pow-suc : (a k : ℕ) → a % 2 ^ suc k ≡ a / 2 % 2 ^ k * 2 + a % 2
mod-pow-suc a k = omega (
  arith,
  div-add-mod a (2 ^ suc k),
  div-add-mod (a / 2) (2 ^ k),
  ap (λ (t : ℕ). 2 ^ suc k * t) (halves-pow a k),
  ap (λ (t : ℕ). t * (a / 2 / 2 ^ k)) (pow-succ' 2 k),
)

-- A mask that is shifted left selects among the digits from `k` on.
pub bit_and_shifted : (k a m : ℕ) → bit_and a (m * 2 ^ k) ≡ bit_and (a / 2 ^ k) m * 2 ^ k
bit_and_shifted zero a m =
    let q : a / 2 ^ 0 ≡ a = omega arith in
    let r : m * 2 ^ 0 ≡ m = omega arith in rw (q, r) (omega arith)
bit_and_shifted (suc k) a m = rw (halves-pow a k) (
    omega (
      arith,
      bit_and_halves a (m * 2 ^ suc k),
      times_pow-suc m k,
      times_pow-suc (bit_and (a / 2 / 2 ^ k) m) k,
      ap (λ (t : ℕ). bit_and (a / 2) t) (half-times_pow m k),
      bit_and_shifted k (a / 2) m,
    ))

-- `a & (1 << k)` is that digit at its weight.
pub bit_and-pow : (k a : ℕ) → bit_and a (2 ^ k) ≡ bit_at a k * 2 ^ k
bit_and-pow zero a = omega (arith, bit_and_halves a 1, bit_and-zero (a / 2))
bit_and-pow (suc k) a = omega (
  arith,
  bit_and_halves a (2 ^ suc k),
  pow-succ' 2 k,
  ap (λ (t : ℕ). bit_and (a / 2) t) (half-pow k),
  times_pow-suc (bit_at (a / 2) k) k,
  bit_and-pow k (a / 2),
)

-- The digits below `k`, selected by a mask of `k` ones.
pub bit_and-low : (k a : ℕ) → bit_and a (2 ^ k - 1) ≡ a % 2 ^ k
bit_and-low zero a = rw bit_and-zero (omega arith)
bit_and-low (suc k) a =
    let halved : (2 ^ suc k - 1) / 2 ≡ 2 ^ k - 1 = omega (arith, pow-succ' 2 k) in
    omega (
      arith,
      bit_and_halves a (2 ^ suc k - 1),
      pow-succ' 2 k,
      one-le-pow k 2 (omega arith),
      ap (λ (t : ℕ). bit_and (a / 2) t) halved,
      mod-pow-suc a k,
      bit_and-low k (a / 2),
    )

-- The digits from `k` on are set beside lower ones.
pub bit_or-disjoint : (k q r : ℕ) → r < 2 ^ k → bit_or (q * 2 ^ k) r ≡ q * 2 ^ k + r
bit_or-disjoint zero q r h = let e : r ≡ 0 = omega arith in rw (e, bit_or-zero) (omega arith)
bit_or-disjoint (suc k) q r h =
    let halved : q * 2 ^ suc k / 2 ≡ q * 2 ^ k = omega (arith, times_pow-suc q k) in
    omega (
      arith,
      bit_or_halves (q * 2 ^ suc k) r,
      times_pow-suc q k,
      ap (λ (t : ℕ). bit_or t (r / 2)) halved,
      bit_or-disjoint k q (r / 2) (omega (arith, pow-succ' 2 k)),
    )

-- A word whose first `n` digits are all 1 is the largest of its width.
pub full_of_bits : (n a : ℕ) → a < 2 ^ n → ((j : ℕ) → j < n → bit_at a j ≡ 1) → a ≡ 2 ^ n - 1
full_of_bits zero a h all = omega arith
full_of_bits (suc n) a h all = omega (
  arith,
  pow-succ' 2 n,
  all 0 (omega arith),
  full_of_bits n (a / 2) (omega (arith, pow-succ' 2 n)) (λ j k. all (suc j) (omega arith)),
)

pub bit_at-full : (n j : ℕ) → j < n → bit_at (2 ^ n - 1) j ≡ 1
bit_at-full n j k =
    let e : bit_at (2 ^ n - 1 - 0) j ≡ 1 - bit_at 0 j =
      bit_at-not n j 0 (one-le-pow n 2 (omega arith)) k in
    let same : 2 ^ n - 1 - 0 ≡ 2 ^ n - 1 = omega arith in rw same at e ∙ rw (bit_at-zero j)

-- `|` and `&` stay within the width.
pub bit_or-lt : (n a b : ℕ) → a < 2 ^ n → b < 2 ^ n → bit_or a b < 2 ^ n
bit_or-lt zero a b p q =
    let ea : a ≡ 0 = omega arith in let eb : b ≡ 0 = omega arith in rw (ea, eb) (omega arith)
bit_or-lt (suc n) a b p q = omega (
  arith,
  pow-succ' 2 n,
  bit_or_halves a b,
  bit_or-lt n (a / 2) (b / 2) (omega (arith, pow-succ' 2 n)) (omega (arith, pow-succ' 2 n)),
)

bit_and-le_below : (n a b : ℕ) → a ≤ n → bit_and a b ≤ a
bit_and-le_below n zero b h = omega (arith, bit_and_empty b)
bit_and-le_below zero (suc a) b h = absurd (omega arith)
bit_and-le_below (suc n) (suc a) b h =
    omega (arith, bit_and_halves (suc a) b, bit_and-le_below n (suc a / 2) (b / 2) (omega arith))

pub bit_and-le : (a b : ℕ) → bit_and a b ≤ a
bit_and-le a b = bit_and-le_below a a b (le_refl _)

pub pow-lt : (k n : ℕ) → k < n → 2 ^ k < 2 ^ n
pow-lt k zero h = absurd (omega arith)
pow-lt zero (suc n) h = omega (arith, pow-succ' 2 n, one-le-pow n 2 (omega arith))
pow-lt (suc k) (suc n) h = omega (arith, pow-succ' 2 n, pow-succ' 2 k, pow-lt k n (omega arith))

pub pow-pos : (k : ℕ) → 0 < 2 ^ k
pow-pos k = one-le-pow k 2 (omega arith)

-- A test `a & (1 << k)` for zero reads the digit.
pub bit_and-pow_zero : (k a : ℕ) → bit_at a k ≡ 0 → bit_and a (2 ^ k) ≡ 0
bit_and-pow_zero k a h = bit_and-pow k a ∙ rw h (omega arith)

pub bit_and-pow_one : (k a : ℕ) → bit_at a k ≡ 1 → bit_and a (2 ^ k) ≡ 2 ^ k
bit_and-pow_one k a h = bit_and-pow k a ∙ rw h (omega arith)

-- Words of one width with the same digits are equal.
pub eq_of_bits :
    (n a b : ℕ) → a < 2 ^ n → b < 2 ^ n → ((j : ℕ) → j < n → bit_at a j ≡ bit_at b j) → a ≡ b
eq_of_bits zero a b p q same = omega arith
eq_of_bits (suc n) a b p q same = omega (
  arith,
  same 0 (omega arith),
  eq_of_bits n (a / 2) (b / 2) (omega (arith, pow-succ' 2 n)) (omega (arith, pow-succ' 2 n))
      (λ j h. same (suc j) (omega arith)),
)

bit_or_comm_below : (n a b : ℕ) → a + b ≤ n → bit_or a b ≡ bit_or b a
bit_or_comm_below zero a b h =
    let ea : a ≡ 0 = omega arith in let eb : b ≡ 0 = omega arith in rw (ea, eb) refl
bit_or_comm_below (suc n) a b h =
    omega (
      arith,
      bit_or_halves a b,
      bit_or_halves b a,
      bit_or_comm_below n (a / 2) (b / 2) (omega arith),
    )

pub bit_or_comm : (a b : ℕ) → bit_or a b ≡ bit_or b a
bit_or_comm a b = bit_or_comm_below (a + b) a b (le_refl _)
