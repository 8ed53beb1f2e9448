-- ===== src/Pmm/Region.antt =====
-- `pmm_reserve_region`, `pmm_free_region` and `pmm_free_block` of src/pmm.c, frame by frame.
use my_own_operating_system.Base.{
  ℕ, zero, suc, ◌+◌, ◌/◌, ◌^◌, ◌≤◌, ◌<◌, ◌≡◌, refl, sym, ◌∙◌, ◌⊎◌, inl, inr, arith, ltb, Bool-cases,
  lt_of_ltb, le_of_ltb, u32, add32, sub32,
}
use my_own_operating_system.Pmm.{
  Pmm, reserve_block, release_block, reserve_loop, release_loop, reserve_region, free_region,
  free_block, block_size,
}
use my_own_operating_system.Pmm.Bitmap.{mark}
use my_own_operating_system.Pmm.Block.{
  IsValid, Marked, took-Marked, gave-Marked, took-IsValid, gave-IsValid, reserve_block_cases,
  release_block_cases,
}

-- From `s` to `t` the tracked frames of `[lo, hi)` got mark `v`, and no other mark changed.
pub record Painted (v lo hi : ℕ) (s t : Pmm) : Type 0 where
  pub inside : (k : ℕ) → lo ≤ k → k < hi → k < s.total_blocks → mark t k ≡ v
  pub below : (k : ℕ) → k < lo → mark t k ≡ mark s k
  pub above : (k : ℕ) → hi ≤ k → mark t k ≡ mark s k
  pub untracked : (k : ℕ) → s.total_blocks ≤ k → mark t k ≡ mark s k
  pub total : t.total_blocks ≡ s.total_blocks
  pub ram : t.ram_size ≡ s.ram_size
  pub valid : IsValid t

pub Painted-none : (v lo hi : ℕ) (s : Pmm) → hi ≤ lo → IsValid s → Painted v lo hi s s
Painted-none v lo hi s h valid = record {
  inside = λ k p q r. absurd (omega arith);
  below = λ k p. refl;
  above = λ k p. refl;
  untracked = λ k p. refl;
  total = refl;
  ram = refl;
  valid = valid;
}

-- A frame that is not tracked, or has the mark already, may be counted in.
Painted-kept :
    (v b : ℕ) (s : Pmm)
    → IsValid s
    → (s.total_blocks ≤ b) ⊎ (mark s b ≡ v)
    → Painted v b (b + 1) s s
Painted-kept v b s valid why = record {
  inside = λ k p q r. (let e : k ≡ b = omega arith in rw e (ground arith));
  below = λ k p. refl;
  above = λ k p. refl;
  untracked = λ k p. refl;
  total = refl;
  ram = refl;
  valid = valid;
}

Painted-of_Marked :
    {v b : ℕ} {s t : Pmm}
    → b < s.total_blocks
    → Marked b v s t
    → IsValid t
    → Painted v b (b + 1) s t
Painted-of_Marked {v} {b} inside m valid = record {
  inside = λ k p q r. (let e : k ≡ b = omega arith in rw e m.here);
  below = λ k p. m.elsewhere k (omega arith);
  above = λ k p. m.elsewhere k (omega arith);
  untracked = λ k p. m.elsewhere k (omega arith);
  total = m.total;
  ram = m.ram;
  valid = valid;
}

pub Painted-trans :
    {v lo mid hi : ℕ} {s t u : Pmm}
    → lo ≤ mid
    → mid ≤ hi
    → Painted v lo mid s t
    → Painted v mid hi t u
    → Painted v lo hi s u
Painted-trans {mid} below above p q = record {
  inside = λ k a b c. elim (Bool-cases (ltb k mid)) [
    | inl first ↦ q.below k (lt_of_ltb k mid first) ∙ p.inside k a (lt_of_ltb k mid first) c
    | inr second ↦ q.inside k (le_of_ltb k mid second) b (rw (p.total) c)
  ];
  below = λ k a. q.below k (omega arith) ∙ p.below k a;
  above = λ k a. q.above k a ∙ p.above k (omega arith);
  untracked = λ k a. q.untracked k (rw (p.total) a) ∙ p.untracked k a;
  total = q.total ∙ p.total;
  ram = q.ram ∙ p.ram;
  valid = q.valid;
}

pub reserve_block-Painted :
    (b : ℕ) (s : Pmm) → IsValid s → Painted 1 b (b + 1) s (reserve_block b s)
reserve_block-Painted b s valid = elim (reserve_block_cases b s) [
  | inl (out, e) ↦ rw e (Painted-kept 1 b s valid (inl out))
  | inr (inl (in_range, m, e)) ↦ rw e (Painted-kept 1 b s valid (inr m))
  | inr (inr (in_range, m, e)) ↦
      rw e (Painted-of_Marked in_range took-Marked (took-IsValid valid in_range m))
]

pub release_block-Painted :
    (b : ℕ) (s : Pmm) → IsValid s → Painted 0 b (b + 1) s (release_block b s)
release_block-Painted b s valid = elim (release_block_cases b s) [
  | inl (out, e) ↦ rw e (Painted-kept 0 b s valid (inl out))
  | inr (inl (in_range, m, e)) ↦ rw e (Painted-kept 0 b s valid (inr m))
  | inr (inr (in_range, m, e)) ↦
      rw e (Painted-of_Marked in_range (gave-Marked valid.words) (gave-IsValid valid in_range m))
]

reserve_loop-Painted :
    (start i left : ℕ) (s : Pmm)
    → start + i + left ≤ 2 ^ 32
    → IsValid s
    → Painted 1 (start + i) (start + i + left) s (reserve_loop start i left s)
unfolding reserve_loop
reserve_loop-Painted start i zero s fits valid =
    Painted-none 1 (start + i) (start + i + 0) s (omega arith) valid
reserve_loop-Painted start i (suc left) s fits valid =
    let here : add32 start i ≡ start + i = omega arith in
    let next : start + (i + 1) ≡ start + i + 1 = omega arith in
    let end : start + (i + 1) + left ≡ start + i + suc left = omega arith in
    let first = reserve_block-Painted (start + i) s valid in
    let rest =
      reserve_loop-Painted start (i + 1) left (reserve_block (start + i) s) (omega arith)
        first.valid in
    rw here (Painted-trans (omega arith) (omega arith) first (rw (end, next) at rest))

release_loop-Painted :
    (start i left : ℕ) (s : Pmm)
    → start + i + left ≤ 2 ^ 32
    → IsValid s
    → Painted 0 (start + i) (start + i + left) s (release_loop start i left s)
unfolding release_loop
release_loop-Painted start i zero s fits valid =
    Painted-none 0 (start + i) (start + i + 0) s (omega arith) valid
release_loop-Painted start i (suc left) s fits valid =
    let here : add32 start i ≡ start + i = omega arith in
    let next : start + (i + 1) ≡ start + i + 1 = omega arith in
    let end : start + (i + 1) + left ≡ start + i + suc left = omega arith in
    let first = release_block-Painted (start + i) s valid in
    let rest =
      release_loop-Painted start (i + 1) left (release_block (start + i) s) (omega arith)
        first.valid in
    rw here (Painted-trans (omega arith) (omega arith) first (rw (end, next) at rest))

abbrev pub first_block : ℕ → ℕ
first_block base = base / block_size

-- The count of frames that `pmm_reserve_region` computes from a size.
abbrev pub round_up : ℕ → ℕ
round_up size = u32 (size + 4095) / block_size

-- Under the invariant, `pmm_reserve_region` of a 32-bit base and size marks exactly the tracked
-- frames from the base rounded down on, as many as the size rounded up takes (none where that
-- rounding wraps), and keeps the invariant, the tracked size and every other mark.
pub reserve_region-Painted :
    (base size : ℕ) (s : Pmm)
    → base < 2 ^ 32
    → size < 2 ^ 32
    → IsValid s
    → Painted 1 (first_block base) (first_block base + round_up size) s (reserve_region base size s)
unfolding reserve_region
reserve_region-Painted base size s hb hs valid =
    let e : sub32 (add32 size block_size) 1 / block_size ≡ round_up size = omega arith in
    let z : first_block base + 0 ≡ first_block base = omega arith in
    rw e (rw z at (reserve_loop-Painted (first_block base) 0 (round_up size) s (omega arith) valid))

-- Under the invariant, `pmm_free_region` of a 32-bit base and size clears exactly the tracked
-- frames from the base rounded down on, as many as the size holds whole, and keeps the invariant,
-- the tracked size and every other mark.
pub free_region-Painted :
    (base size : ℕ) (s : Pmm)
    → base < 2 ^ 32
    → size < 2 ^ 32
    → IsValid s
    → Painted 0
        (first_block base)
        (first_block base + size / block_size)
        s
        (free_region base size s)
unfolding free_region
free_region-Painted base size s hb hs valid =
    let z : first_block base + 0 ≡ first_block base = omega arith in
    rw z at (release_loop-Painted (first_block base) 0 (size / block_size) s (omega arith) valid)

pub free_block-Painted :
    (ptr : ℕ) (s : Pmm)
    → IsValid s
    → Painted 0 (first_block ptr) (first_block ptr + 1) s (free_block ptr s)
unfolding free_block
free_block-Painted ptr s valid = release_block-Painted (first_block ptr) s valid

-- Reserving takes no mark away.
pub Painted-grows :
    {lo hi : ℕ} {s t : Pmm} → Painted 1 lo hi s t → (k : ℕ) → mark s k ≡ 1 → mark t k ≡ 1
Painted-grows {lo} {hi} {s} {t} p k h = elim (Bool-cases (ltb k lo)) [
  | inl low ↦ p.below k (lt_of_ltb k lo low) ∙ h
  | inr from ↦ elim (Bool-cases (ltb k hi)) [
    | inr high ↦ p.above k (le_of_ltb k hi high) ∙ h
    | inl below ↦ elim (Bool-cases (ltb k s.total_blocks)) [
      | inl tracked ↦
          p.inside k (le_of_ltb k lo from) (lt_of_ltb k hi below)
            (lt_of_ltb k s.total_blocks tracked)
      | inr beyond ↦ p.untracked k (le_of_ltb k s.total_blocks beyond) ∙ h
    ]
  ]
]

-- A mark that releasing leaves at 0 was 0, or lies in the range that was released.
pub Painted-released :
    {lo hi : ℕ} {s t : Pmm}
    → Painted 0 lo hi s t
    → (k : ℕ) → mark t k ≡ 0
    → (mark s k ≡ 0) ⊎ ((lo ≤ k) × (k < hi))
Painted-released {lo} {hi} p k h = elim (Bool-cases (ltb k lo)) [
  | inl low ↦ inl (sym (p.below k (lt_of_ltb k lo low)) ∙ h)
  | inr from ↦ elim (Bool-cases (ltb k hi)) [
    | inr high ↦ inl (sym (p.above k (le_of_ltb k hi high)) ∙ h)
    | inl below ↦ inr (le_of_ltb k lo from, lt_of_ltb k hi below)
  ]
]
