-- ===== src/Pmm/Bitmap.antt =====
-- What the three bitmap helpers of src/pmm.c do, frame by frame.
use my_own_operating_system.Base.{
  ℕ, ◌/◌, ◌%◌, ◌^◌, ◌<◌, ◌≡◌, ◌≢◌, inl, inr, ◌==◌, not32, Bool-cases, eq_of_==, ne_of_==, arith,
}
use my_own_operating_system.Base.Bits.{
  bit_at, bit_at-lt, bit_at-or, bit_at-and, bit_at-pow_self, bit_at-pow_ne, bit_at-not, bit_or-lt,
  bit_and-le, pow-lt, pow-pos, bit_and-pow_zero, bit_and-pow_one,
}
use my_own_operating_system.Pmm.{Pmm, bitmap_set, bitmap_clear, bitmap_test}

-- 1 if the frame is reserved or allocated, and 0 if it is free.
abbrev pub mark : Pmm → ℕ → ℕ
mark s k = bit_at (s.bitmap (k / 32)) (k % 32)

-- Every word of the bitmap is a 32-bit word.
abbrev pub IsWords : Pmm → Type 0
IsWords s = (i : ℕ) → s.bitmap i < 2 ^ 32

pub pow-lt-word : (b : ℕ) → 2 ^ (b % 32) < 2 ^ 32
pow-lt-word b = pow-lt (b % 32) 32 (omega arith)

pub bitmap_test-mark : (s : Pmm) (b : ℕ) → bitmap_test b s ≡ (mark s b == 1)
unfolding bitmap_test
bitmap_test-mark s b = elim (Bool-cases (mark s b == 1)) [
  | inl one ↦
      ground
        (arith, eq_of_== _ _ one, pow-pos (b % 32), bit_and-pow_one (b % 32) (s.bitmap (b / 32)))
  | inr other ↦ ground (
    arith,
    ne_of_== _ _ other,
    bit_at-lt (b % 32) (s.bitmap (b / 32)),
    bit_and-pow_zero (b % 32) (s.bitmap (b / 32)),
  )
]

pub mark-set_self : (s : Pmm) (b : ℕ) → mark (bitmap_set b s) b ≡ 1
unfolding bitmap_set
mark-set_self s b = ground (
  arith,
  bit_at-or (b % 32) (s.bitmap (b / 32)) (2 ^ (b % 32)),
  bit_at-pow_self (b % 32),
  bit_at-lt (b % 32) (s.bitmap (b / 32)),
)

pub mark-set_ne : (s : Pmm) (b k : ℕ) → b ≢ k → mark (bitmap_set b s) k ≡ mark s k
unfolding bitmap_set
mark-set_ne s b k h =
    ground (
      arith,
      bit_at-or (k % 32) (s.bitmap (b / 32)) (2 ^ (b % 32)),
      bit_at-pow_ne (b % 32) (k % 32),
    )

pub mark-clear_self : (s : Pmm) (b : ℕ) → IsWords s → mark (bitmap_clear b s) b ≡ 0
unfolding bitmap_clear
mark-clear_self s b w = ground (
  arith,
  bit_at-and (b % 32) (s.bitmap (b / 32)) (not32 (2 ^ (b % 32))),
  bit_at-pow_self (b % 32),
  bit_at-not 32 (b % 32) (2 ^ (b % 32)) (pow-lt-word b) (omega arith),
)

pub mark-clear_ne : (s : Pmm) (b k : ℕ) → IsWords s → b ≢ k → mark (bitmap_clear b s) k ≡ mark s k
unfolding bitmap_clear
mark-clear_ne s b k w h = ground (
  arith,
  bit_at-and (k % 32) (s.bitmap (b / 32)) (not32 (2 ^ (b % 32))),
  bit_at-pow_ne (b % 32) (k % 32),
  bit_at-not 32 (k % 32) (2 ^ (b % 32)) (pow-lt-word b) (omega arith),
  bit_at-lt (k % 32) (s.bitmap (b / 32)),
)

pub IsWords-set : (s : Pmm) (b : ℕ) → IsWords s → IsWords (bitmap_set b s)
unfolding bitmap_set
IsWords-set s b w i =
    ground
      (arith, w i, bit_or-lt 32 (s.bitmap (b / 32)) (2 ^ (b % 32)) (w (b / 32)) (pow-lt-word b))

pub IsWords-clear : (s : Pmm) (b : ℕ) → IsWords s → IsWords (bitmap_clear b s)
unfolding bitmap_clear
IsWords-clear s b w i =
    ground (arith, w i, w (b / 32), bit_and-le (s.bitmap (b / 32)) (not32 (2 ^ (b % 32))))
