-- ===== src/Boot/Passes.antt =====
-- The self-test of src/kernel.c passes whenever three frames are free.
use my_own_operating_system.Base.{
  ℕ, ◌+◌, ◌*◌, ◌%◌, ◌<◌, ◌≡◌, refl, sym, ap, ◌∙◌, ◌≢◌, ◌⊎◌, inl, inr, arith, ◌==◌, if◌then◌else◌,
  Bool-cases, eq_of_==, ne_of_==, ==-of_eq, ==-of_ne,
}
use my_own_operating_system.Pmm.{Pmm, alloc_block, free_block, get_free_blocks, block_size}
use my_own_operating_system.Pmm.Bitmap.{mark}
use my_own_operating_system.Pmm.Block.{IsValid, Marked, took, took-Marked, took-IsValid}
use my_own_operating_system.Pmm.Alloc.{IsFirst, Full, alloc_block-Outcome}
use my_own_operating_system.Pmm.Spent.{
  Spent-took, Spent-add, Exhausted, Exhausted-before, Full-Exhausted,
}
use my_own_operating_system.Pmm.Laws.{
  Pmm-ext, free_block-Marked, free_block-IsValid, alloc_block-free_block, IsFirst-took,
}
use my_own_operating_system.Vmm.Frames.{IsFirst-pos}
use my_own_operating_system.Vmm.Map.Table.{took-kept}
use my_own_operating_system.Boot.{
  passed, null_block, leaked, leak_test, reuse_test, block_test, self_test,
}
use my_own_operating_system.Boot.Restored.{marks_restored}

-- Three allocations that succeeded, from `s`.
record Taken (s : Pmm) (i j k : ℕ) : Type 0 where
  valid : IsValid s
  zero_used : mark s 0 ≡ 1
  first : IsFirst s i
  second : IsFirst (took i s) j
  third : IsFirst (took j (took i s)) k

module _ {s : Pmm} {i j k : ℕ} (taken : Taken s i j k) where
  abbrev last : Pmm
  last = took k (took j (took i s))

  ordered : (i < j) × (j < k)
  ordered = (
    IsFirst-took s i j taken.first taken.second,
    IsFirst-took (took i s) j k taken.second taken.third,
  )

  valid1 : IsValid (took i s)
  valid1 = took-IsValid taken.valid taken.first.inside taken.first.free

  valid2 : IsValid (took j (took i s))
  valid2 = took-IsValid valid1 taken.second.inside taken.second.free

  valid3 : IsValid last
  valid3 = took-IsValid valid2 taken.third.inside taken.third.free

  marked1 : Marked i 1 s (took i s)
  marked1 = took-Marked

  marked2 : Marked j 1 (took i s) (took j (took i s))
  marked2 = took-Marked

  marked3 : Marked k 1 (took j (took i s)) last
  marked3 = took-Marked

  apart : (i ≢ j) × (i ≢ k) × (j ≢ k)
  apart = (
    λ z. absurd (omega (arith, ordered.0, z)),
    λ z. absurd (omega (arith, ordered.0, ordered.1, z)),
    λ z. absurd (omega (arith, ordered.1, z)),
  )

  totals :
      (last.total_blocks ≡ s.total_blocks)
      × (i < last.total_blocks)
      × (j < last.total_blocks)
      × (k < last.total_blocks)
  totals =
      let t1 = marked1.total in
      let t2 = marked2.total in
      let t3 = marked3.total in
      (
        omega arith,
        omega (arith, taken.first.inside),
        omega (arith, taken.second.inside),
        omega (arith, taken.third.inside),
      )

  -- The second frame and all below it are in use.
  last-Full : Full last (j + 1)
  last-Full m h = elim (Bool-cases (m == j)) [
    | inl same ↦
        let e : m ≡ j = eq_of_== m j same in
        ap (mark last) e
        ∙ marked3.elsewhere j (λ z. absurd (omega (arith, ordered.1, z)))
        ∙ marked2.here
    | inr other ↦
        took-kept (took j (took i s)) k m
          (took-kept (took i s) j m (taken.second.earlier m (omega (arith, ne_of_== m j other))))
  ]

  reused : alloc_block (free_block (j * block_size) last) ≡ (j * block_size, last)
  reused = alloc_block-free_block j last valid3 totals.2 last-Full

  abbrev cleaned : Pmm
  cleaned =
      free_block (k * block_size) (free_block (j * block_size) (free_block (i * block_size) last))

  cleaned_eq : cleaned ≡ s
  cleaned_eq =
      let u = free_block (i * block_size) last in
      let v = free_block (j * block_size) u in
      let vu : IsValid u = free_block-IsValid (i * block_size) last valid3 in
      let vv : IsValid v = free_block-IsValid (j * block_size) u vu in
      let mu = free_block-Marked i last valid3 totals.1 in
      let mv = free_block-Marked j u vu (omega (arith, mu.total, totals.2)) in
      let mw = free_block-Marked k v vv (omega (arith, mv.total, mu.total, totals.3)) in
      Pmm-ext cleaned s (free_block-IsValid (k * block_size) v vv) taken.valid
        (marks_restored i j k s (took i s) (took j (took i s)) last u v cleaned apart.0 apart.1
          apart.2 taken.first.free (sym (marked1.elsewhere j apart.0) ∙ taken.second.free)
          (sym (marked1.elsewhere k apart.1) ∙ sym (marked2.elsewhere k apart.2) ∙ taken.third.free)
          marked1 marked2 marked3 mu mv mw)
        (mw.ram ∙ mv.ram ∙ mu.ram ∙ marked3.ram ∙ marked2.ram ∙ marked1.ram)
        (mw.total ∙ mv.total ∙ mu.total ∙ totals.0)

  leak_test_eq :
      leak_test (get_free_blocks s) (i * block_size) (j * block_size) (k * block_size) last
      ≡ (passed, s)
  unfolding leak_test
  leak_test_eq =
      ap
        (λ (c : Pmm). (if get_free_blocks c == get_free_blocks s then (passed, c) else (leaked, c)))
        cleaned_eq
      ∙ rw (==-of_eq (get_free_blocks s) (get_free_blocks s) refl)

  block_test_eq :
      block_test (get_free_blocks s) (i * block_size) (j * block_size) (k * block_size) last
      ≡ (passed, s)
  unfolding block_test reuse_test
  block_test_eq =
      let pos : i ≢ 0 = IsFirst-pos s i taken.zero_used taken.first in
      let even : (n : ℕ) → n * block_size % 4096 ≡ 0 = λ n. omega arith in
      rw
        (
          ==-of_ne (i * block_size) 0 (λ z. pos (omega (arith, z))),
          ==-of_ne (j * block_size) 0 (λ z. absurd (omega (arith, ordered.0, z))),
          ==-of_ne (k * block_size) 0 (λ z. absurd (omega (arith, ordered.1, z))),
          even i,
          even j,
          even k,
          reused,
          ==-of_eq (j * block_size) (j * block_size) refl,
        )
        leak_test_eq

-- With no frame left, the test sees it at the last of the three blocks.
block_test_null :
    (free block1 block2 : ℕ) (s : Pmm) → block_test free block1 block2 0 s ≡ (null_block, s)
unfolding block_test
block_test_null free block1 block2 s = ground arith

alloc_block-Full : (s : Pmm) → IsValid s → Full s s.total_blocks → alloc_block s ≡ (0, s)
alloc_block-Full s v full = elim (alloc_block-Outcome s v) [
  | inr (all, e) ↦ e
  | inl (b, first, e) ↦ absurd (omega (arith, first.free, full b first.inside))
]

self_test_eq :
    (s s1 s2 s3 : Pmm) (block1 block2 block3 : ℕ)
    → alloc_block s ≡ (block1, s1)
    → alloc_block s1 ≡ (block2, s2)
    → alloc_block s2 ≡ (block3, s3)
    → self_test s ≡ block_test (get_free_blocks s) block1 block2 block3 s3
unfolding self_test
self_test_eq s s1 s2 s3 block1 block2 block3 e f g = rw (e, f, g)

-- Under the allocator's invariant with frame 0 in use, the boot self-test passes and leaves the
-- allocator exactly as it was, or reports a missing block, and then at most two frames were free.
pub self_test-passed :
    (s : Pmm)
    → IsValid s
    → mark s 0 ≡ 1
    → (self_test s ≡ (passed, s)) ⊎ ((t : Pmm) × (self_test s ≡ (null_block, t)) × Exhausted 2 s)
self_test-passed s v z = elim (alloc_block-Outcome s v) [
  | inr (full, e) ↦ inr (
    s,
    self_test_eq s s s s 0 0 0 e e e ∙ block_test_null (get_free_blocks s) 0 0 s,
    omega (arith, Full-Exhausted s v full),
  )
  | inl (i, first, e) ↦
      let v1 = took-IsValid v first.inside first.free in
      elim (alloc_block-Outcome (took i s) v1) [
        | inr (full, f) ↦ inr (
          took i s,
          self_test_eq s (took i s) (took i s) (took i s) (i * block_size) 0 0 e f f
              ∙ block_test_null (get_free_blocks s) (i * block_size) 0 (took i s),
          omega (arith, Exhausted-before 0 (Spent-took i s) (Full-Exhausted (took i s) v1 full)),
        )
        | inl (j, second, f) ↦
            let v2 = took-IsValid v1 second.inside second.free in
            elim (alloc_block-Outcome (took j (took i s)) v2) [
              | inr (full, g) ↦ inr (
                took j (took i s),
                self_test_eq s (took i s) (took j (took i s)) (took j (took i s)) (i * block_size)
                      (j * block_size) 0 e f g
                    ∙ block_test_null (get_free_blocks s) (i * block_size) (j * block_size)
                        (took j (took i s)),
                Exhausted-before 0 (Spent-add (Spent-took i s) (Spent-took j (took i s)))
                    (Full-Exhausted (took j (took i s)) v2 full),
              )
              | inl (k, third, g) ↦ inl (
                  self_test_eq s (took i s) (took j (took i s)) (took k (took j (took i s)))
                    (i * block_size) (j * block_size) (k * block_size) e f g
                  ∙ block_test_eq {s = s} {i = i} {j = j} {k = k} (record {
                    valid = v;
                    zero_used = z;
                    first = first;
                    second = second;
                    third = third;
                  }))
            ]
      ]
]
