-- ===== src/Pmm/Block.antt =====
-- The invariant of the allocator of src/pmm.c, and what it costs to reserve or release a frame.
use my_own_operating_system.Base.{
  ℕ, ◌/◌, ◌%◌, ◌^◌, ◌≤◌, ◌<◌, ◌≡◌, refl, ◌≢◌, ◌⊎◌, arith, add32, sub32,
}
use my_own_operating_system.Pmm.{Pmm, bitmap_set, bitmap_clear, reserve_block, release_block}
use my_own_operating_system.Base.Bits.{bit_at-lt}
use my_own_operating_system.Pmm.Bitmap.{
  mark, IsWords, bitmap_test-mark, mark-set_self, mark-set_ne, mark-clear_self, mark-clear_ne,
  IsWords-set, IsWords-clear,
}
use my_own_operating_system.Pmm.Count.{
  sum_below, sum_below_moved, sum_below-le, sum_below-lt, sum_below-pos,
}

-- The words are 32 bits wide, at most 4 GB of frames are tracked, and `pmm_used_blocks` is the
-- number of marked frames.
pub record IsValid (s : Pmm) : Type 0 where
  pub words : IsWords s
  pub small : s.total_blocks < 2 ^ 20
  pub counted : s.used_blocks ≡ sum_below (mark s) s.total_blocks

-- The same frames are tracked, and the marks differ at most at `b`, which has mark `v` after.
pub record Marked (b v : ℕ) (s t : Pmm) : Type 0 where
  pub here : mark t b ≡ v
  pub elsewhere : (k : ℕ) → b ≢ k → mark t k ≡ mark s k
  pub total : t.total_blocks ≡ s.total_blocks
  pub ram : t.ram_size ≡ s.ram_size

-- A frame is taken: its bit is set and counted.
abbrev pub took : ℕ → Pmm → Pmm
took b s = record (bitmap_set b s) { used_blocks = add32 s.used_blocks 1 }

-- A frame is given back.
abbrev pub gave : ℕ → Pmm → Pmm
gave b s = record (bitmap_clear b s) { used_blocks = sub32 s.used_blocks 1 }

pub total-set : (b : ℕ) (s : Pmm) → (bitmap_set b s).total_blocks ≡ s.total_blocks
unfolding bitmap_set
total-set b s = refl

pub total-clear : (b : ℕ) (s : Pmm) → (bitmap_clear b s).total_blocks ≡ s.total_blocks
unfolding bitmap_clear
total-clear b s = refl

pub mark-lt : (s : Pmm) (k : ℕ) → mark s k < 2
mark-lt s k = bit_at-lt (k % 32) (s.bitmap (k / 32))

module _ {b : ℕ} {s : Pmm} where
  pub took-Marked : Marked b 1 s (took b s)
  took-Marked = record {
    here = mark-set_self s b;
    elsewhere = λ k h. mark-set_ne s b k h;
    total = total-set b s;
    ram = unfold bitmap_set in refl;
  }

  pub gave-Marked : IsWords s → Marked b 0 s (gave b s)
  gave-Marked w = record {
    here = mark-clear_self s b w;
    elsewhere = λ k h. mark-clear_ne s b k w h;
    total = total-clear b s;
    ram = unfold bitmap_clear in refl;
  }

  pub took-IsValid : IsValid s → b < s.total_blocks → mark s b ≡ 0 → IsValid (took b s)
  took-IsValid v inside free = record {
    words = IsWords-set s b v.words;
    small = rw (total-set b s) v.small;
    counted = rw (total-set b s) (
        omega (
          arith,
          v.small,
          v.counted,
          sum_below_moved (mark (took b s)) (mark s) b s.total_blocks inside
              (λ k h. mark-set_ne s b k h),
          mark-set_self s b,
          sum_below-lt (mark s) b s.total_blocks inside free (mark-lt s),
        ));
  }

  pub gave-IsValid : IsValid s → b < s.total_blocks → mark s b ≡ 1 → IsValid (gave b s)
  gave-IsValid v inside taken = record {
    words = IsWords-clear s b v.words;
    small = rw (total-clear b s) v.small;
    counted = rw (total-clear b s) (
        omega (
          arith,
          v.small,
          v.counted,
          sum_below_moved (mark (gave b s)) (mark s) b s.total_blocks inside
              (λ k h. mark-clear_ne s b k v.words h),
          mark-clear_self s b v.words,
          sum_below-pos (mark s) b s.total_blocks inside taken,
          sum_below-le (mark s) s.total_blocks (mark-lt s),
        ));
  }

-- The three ways through the loop body of `pmm_reserve_region`.
pub reserve_block_cases :
    (b : ℕ) (s : Pmm)
    → ((s.total_blocks ≤ b) × (reserve_block b s ≡ s))
      ⊎ ((b < s.total_blocks) × (mark s b ≡ 1) × (reserve_block b s ≡ s))
      ⊎ ((b < s.total_blocks) × (mark s b ≡ 0) × (reserve_block b s ≡ took b s))
unfolding reserve_block
reserve_block_cases b s = ground (arith, bitmap_test-mark s b, mark-lt s b)

pub release_block_cases :
    (b : ℕ) (s : Pmm)
    → ((s.total_blocks ≤ b) × (release_block b s ≡ s))
      ⊎ ((b < s.total_blocks) × (mark s b ≡ 0) × (release_block b s ≡ s))
      ⊎ ((b < s.total_blocks) × (mark s b ≡ 1) × (release_block b s ≡ gave b s))
unfolding release_block
release_block_cases b s = ground (arith, bitmap_test-mark s b, mark-lt s b)
