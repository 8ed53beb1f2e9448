-- ===== src/Pmm/Spent.antt =====
-- How many frames a caller of src/pmm.c has taken.
use my_own_operating_system.Base.{
  ℕ, zero, suc, ◌+◌, ◌/◌, ◌≤◌, ◌<◌, ◌≡◌, refl, sym, ◌∙◌, inl, inr, arith, ltb, Bool-cases, eq_of_==,
  lt_of_ltb,
}
use my_own_operating_system.Pmm.{
  Pmm, block_size, free_block, release_block, bitmap_clear, bitmap_test,
}
use my_own_operating_system.Pmm.Bitmap.{mark, bitmap_test-mark}
use my_own_operating_system.Pmm.Count.{sum_below, sum_below-le, sum_below-pos}
use my_own_operating_system.Pmm.Block.{IsValid, took, total-set, mark-lt}
use my_own_operating_system.Pmm.Alloc.{Full}

-- From `s` to `t` as many frames are tracked, and at most `n` more are in use.
pub record Spent (n : ℕ) (s t : Pmm) : Type 0 where
  pub total : t.total_blocks ≡ s.total_blocks
  pub used : t.used_blocks ≤ s.used_blocks + n

-- At most `n` frames are free.
abbrev pub Exhausted : ℕ → Pmm → Type 0
Exhausted n s = s.total_blocks ≤ s.used_blocks + n

pub Spent-took : (b : ℕ) (s : Pmm) → Spent 1 s (took b s)
Spent-took b s = record { total = total-set b s; used = omega arith }

pub Spent-add : {m n : ℕ} {s t u : Pmm} → Spent m s t → Spent n t u → Spent (m + n) s u
Spent-add p q = record { total = q.total ∙ p.total; used = omega (arith, p.used, q.used) }

sum_below-full : (f : ℕ → ℕ) (n : ℕ) → ((k : ℕ) → k < n → f k ≡ 1) → sum_below f n ≡ n
sum_below-full f zero h = refl
sum_below-full f (suc n) h =
    omega (arith, h n (omega arith), sum_below-full f n (λ k p. h k (omega arith)))

-- With every frame in use none is free, and before `n` of them were taken at most `n` were.
pub Full-Exhausted : (s : Pmm) → IsValid s → Full s s.total_blocks → Exhausted 0 s
Full-Exhausted s valid full =
    omega (arith, valid.counted, sum_below-full (mark s) s.total_blocks full)

pub Exhausted-before :
    {m : ℕ} {s t : Pmm} (n : ℕ) → Spent m s t → Exhausted n t → Exhausted (m + n) s
Exhausted-before n p e = omega (arith, p.total, p.used, e)

-- Giving a frame back spends none.
release_block-Spent : (b : ℕ) (s : Pmm) → IsValid s → Spent 0 s (release_block b s)
unfolding release_block bitmap_clear
release_block-Spent b s valid = elim (Bool-cases (ltb b s.total_blocks)) [
  | inr outside ↦ rw outside (record { total = refl; used = omega arith })
  | inl inside ↦ elim (Bool-cases (bitmap_test b s)) [
    | inr free ↦ rw (inside, free) (record { total = refl; used = omega arith })
    | inl used ↦
        rw (inside, used)
          (record {
            total = refl;
            used = omega (
              arith,
              valid.counted,
              valid.small,
              sum_below-le (mark s) s.total_blocks (mark-lt s),
              sum_below-pos (mark s) b s.total_blocks (lt_of_ltb _ _ inside)
                  (eq_of_== _ _ (sym (bitmap_test-mark s b) ∙ used)),
            );
          })
  ]
]

pub free_block-Spent : (ptr : ℕ) (s : Pmm) → IsValid s → Spent 0 s (free_block ptr s)
unfolding free_block
free_block-Spent ptr s valid = release_block-Spent (ptr / block_size) s valid
