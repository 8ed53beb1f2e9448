-- ===== src/Pmm/Laws.antt =====
-- What the callers of src/pmm.c rely on: the invariant, the round trips and first-fit reuse.
use my_own_operating_system.Base.{
  ℕ, ◌+◌, ◌*◌, ◌/◌, ◌%◌, ◌≤◌, ◌<◌, ◌≡◌, sym, ap, ◌∙◌, fun_ext, ◌≢◌, inl, inr, arith, ltb, ◌==◌,
  Bool-cases, eq_of_==, ne_of_==, lt_of_ltb, le_of_ltb,
}
use my_own_operating_system.Base.Bits.{eq_of_bits}
use my_own_operating_system.Pmm.{
  Pmm, alloc_block, free_block, get_free_blocks, get_used_blocks, get_total_blocks, block_size,
}
use my_own_operating_system.Pmm.Bitmap.{mark, mark-set_self, mark-set_ne}
use my_own_operating_system.Pmm.Count.{sum_below-le, sum_below_same, sum_below}
use my_own_operating_system.Pmm.Block.{IsValid, Marked, took, took-Marked, took-IsValid, mark-lt}
use my_own_operating_system.Pmm.Region.{Painted, free_block-Painted}
use my_own_operating_system.Pmm.Alloc.{IsFirst, Full, alloc_block-Outcome}

-- `pmm_alloc_block` keeps the allocator's invariant.
pub alloc_block-IsValid : (s : Pmm) → IsValid s → IsValid (alloc_block s).1
alloc_block-IsValid s v = elim (alloc_block-Outcome s v) [
  | inl (b, first, e) ↦ rw e (took-IsValid v first.inside first.free)
  | inr (full, e) ↦ rw e v
]

-- `pmm_free_block` keeps the allocator's invariant, whatever address it is given.
pub free_block-IsValid : (ptr : ℕ) (s : Pmm) → IsValid s → IsValid (free_block ptr s)
free_block-IsValid ptr s v = (free_block-Painted ptr s v).valid

-- Under the allocator's invariant, the counts of free and used frames add up to the tracked ones.
pub get_free_blocks-add-used :
    (s : Pmm) → IsValid s → get_free_blocks s + get_used_blocks s ≡ get_total_blocks s
unfolding get_free_blocks get_used_blocks get_total_blocks
get_free_blocks-add-used s v =
    omega (arith, v.small, v.counted, sum_below-le (mark s) s.total_blocks (mark-lt s))

-- States with the same marks, size and count are equal.
pub Pmm-ext :
    (s t : Pmm)
    → IsValid s
    → IsValid t
    → ((k : ℕ) → mark s k ≡ mark t k)
    → s.ram_size ≡ t.ram_size
    → s.total_blocks ≡ t.total_blocks
    → s ≡ t
Pmm-ext s t v w same ram total =
    λ i. record { bitmap = words i; ram_size = ram i; total_blocks = total i; used_blocks = used i }
  where
    words : s.bitmap ≡ t.bitmap
    words = fun_ext λ i. eq_of_bits 32 (s.bitmap i) (t.bitmap i) (v.words i) (w.words i) λ j h.
        (let d : (i * 32 + j) / 32 ≡ i = omega arith in
          let r : (i * 32 + j) % 32 ≡ j = omega arith in rw (d, r) at (same (i * 32 + j)))

    used : s.used_blocks ≡ t.used_blocks
    used =
        v.counted
        ∙ sum_below_same (mark s) (mark t) s.total_blocks (λ k h. same k)
        ∙ ap (sum_below (mark t)) total
        ∙ sym w.counted

-- Freeing a tracked frame clears its mark and no other.
pub free_block-Marked :
    (b : ℕ) (s : Pmm)
    → IsValid s
    → b < s.total_blocks
    → Marked b 0 s (free_block (b * block_size) s)
free_block-Marked b s v inside =
    let q : b * block_size / block_size ≡ b = omega arith in
    let p : Painted 0 b (b + 1) s (free_block (b * block_size) s) =
      rw q at (free_block-Painted (b * block_size) s v) in
    record {
      here = p.inside b (omega arith) (omega arith) inside;
      elsewhere = λ k ne. elim (Bool-cases (ltb k b)) [
        | inl low ↦ p.below k (lt_of_ltb k b low)
        | inr high ↦ p.above k (omega (arith, le_of_ltb k b high, ne))
      ];
      total = p.total;
      ram = p.ram;
    }

-- A frame that was free before it was taken is free again after it is given back.
pub free_block-took :
    (b : ℕ) (s : Pmm)
    → IsValid s
    → b < s.total_blocks
    → mark s b ≡ 0
    → free_block (b * block_size) (took b s) ≡ s
free_block-took b s v inside free =
    Pmm-ext (free_block (b * block_size) (took b s)) s freed.valid v back (freed.ram ∙ taken.ram)
      (freed.total ∙ taken.total)
  where
    taken : Marked b 1 s (took b s)
    taken = took-Marked

    freed : Painted 0 b (b + 1) (took b s) (free_block (b * block_size) (took b s))
    freed =
        let q : b * block_size / block_size ≡ b = omega arith in
        rw q at (free_block-Painted (b * block_size) (took b s) (took-IsValid v inside free))

    back : (k : ℕ) → mark (free_block (b * block_size) (took b s)) k ≡ mark s k
    back k = elim (Bool-cases (b == k)) [
      | inl here ↦
          let e : b ≡ k = eq_of_== b k here in
          freed.inside k (omega arith) (omega arith) (rw (taken.total) (omega arith))
          ∙ sym free
          ∙ ap (mark s) e
      | inr elsewhere ↦
          (elim (Bool-cases (ltb k b)) [
            | inl low ↦ freed.below k (lt_of_ltb k b low)
            | inr high ↦ freed.above k (omega (arith, le_of_ltb k b high, ne_of_== b k elsewhere))
          ])
          ∙ taken.elsewhere k (ne_of_== b k elsewhere)
    ]

-- Under the allocator's invariant, freeing the frame that was just allocated, if one was, gives
-- back the whole state as it was.
pub free_block-alloc_block :
    (s : Pmm)
    → IsValid s
    → (alloc_block s).0 ≢ 0
    → free_block (alloc_block s).0 (alloc_block s).1 ≡ s
free_block-alloc_block s v ne = elim (alloc_block-Outcome s v) [
  | inl (b, first, e) ↦ rw e (free_block-took b s v first.inside first.free)
  | inr (full, e) ↦ absurd (ne (rw e))
]

-- A frame that was marked before it was given back is marked again after it is taken.
took-free_block :
    (b : ℕ) (t : Pmm)
    → IsValid t
    → b < t.total_blocks
    → mark t b ≡ 1
    → took b (free_block (b * block_size) t) ≡ t
took-free_block b t v inside used =
    Pmm-ext (took b u) t
      (took-IsValid freed.valid (rw (freed.total) inside)
        (freed.inside b (omega arith) (omega arith) inside))
      v back (taken.ram ∙ freed.ram) (taken.total ∙ freed.total)
  where
    u : Pmm
    u = free_block (b * block_size) t

    freed : Painted 0 b (b + 1) t u
    freed =
        let q : b * block_size / block_size ≡ b = omega arith in
        rw q at (free_block-Painted (b * block_size) t v)

    taken : Marked b 1 u (took b u)
    taken = took-Marked

    back : (k : ℕ) → mark (took b u) k ≡ mark t k
    back k = elim (Bool-cases (b == k)) [
      | inl here ↦ let e : b ≡ k = eq_of_== b k here in rw (← e) (taken.here ∙ sym used)
      | inr elsewhere ↦ taken.elsewhere k (ne_of_== b k elsewhere) ∙ elim (Bool-cases (ltb k b)) [
        | inl low ↦ freed.below k (lt_of_ltb k b low)
        | inr high ↦ freed.above k (omega (arith, le_of_ltb k b high, ne_of_== b k elsewhere))
      ]
    ]

-- First fit reuses a freed frame: under the invariant, when a tracked frame and all lower ones are
-- in use, the frame that is freed is the next one allocated, and the state is the one before both
-- calls.
pub alloc_block-free_block :
    (b : ℕ) (t : Pmm)
    → IsValid t
    → b < t.total_blocks
    → Full t (b + 1)
    → alloc_block (free_block (b * block_size) t) ≡ (b * block_size, t)
alloc_block-free_block b t v inside full = elim (alloc_block-Outcome u freed.valid) [
  | inl (c, first, e) ↦
      let same : c ≡ b = is_b c first in
      e
      ∙ rw same
          (ap (λ x. (b * block_size, x)) (took-free_block b t v inside (full b (omega arith))))
  | inr (all, e) ↦ absurd (
      omega
        (arith, all b (rw (freed.total) inside), freed.inside b (omega arith) (omega arith) inside))
]
  where
    u : Pmm
    u = free_block (b * block_size) t

    freed : Painted 0 b (b + 1) t u
    freed =
        let q : b * block_size / block_size ≡ b = omega arith in
        rw q at (free_block-Painted (b * block_size) t v)

    is_b : (c : ℕ) → IsFirst u c → c ≡ b
    is_b c first = elim (Bool-cases (ltb c b)) [
      | inl low ↦ absurd (
          omega (
            arith,
            first.free,
            freed.below c (lt_of_ltb c b low),
            full c (omega (arith, lt_of_ltb c b low)),
          ))
      | inr high ↦ elim (Bool-cases (c == b)) [
        | inl same ↦ eq_of_== c b same
        | inr other ↦ absurd (
            omega (
              arith,
              first.earlier b (omega (arith, le_of_ltb c b high, ne_of_== c b other)),
              freed.inside b (omega arith) (omega arith) inside,
            ))
      ]
    ]

-- The frame that is first free after `b` was taken lies above `b`.
pub IsFirst-took : (s : Pmm) (b c : ℕ) → IsFirst s b → IsFirst (took b s) c → b < c
IsFirst-took s b c first second = elim (Bool-cases (ltb b c)) [
  | inl more ↦ lt_of_ltb b c more
  | inr less ↦ elim (Bool-cases (b == c)) [
    | inl same ↦
        absurd
          (omega (arith, second.free, mark-set_self s b, ap (mark (took b s)) (eq_of_== b c same)))
    | inr other ↦ absurd (
        omega (
          arith,
          second.free,
          mark-set_ne s b c (ne_of_== b c other),
          first.earlier c (omega (arith, le_of_ltb b c less, ne_of_== b c other)),
        ))
  ]
]

-- Under the invariant, two allocations in a row that both succeed return different frames that do
-- not overlap, the lower one first.
pub alloc_block_increasing :
    (s : Pmm)
    → IsValid s
    → (alloc_block s).0 ≢ 0
    → (alloc_block (alloc_block s).1).0 ≢ 0
    → (alloc_block s).0 + block_size ≤ (alloc_block (alloc_block s).1).0
alloc_block_increasing s v ne ne' = elim (alloc_block-Outcome s v) [
  | inr (full, e) ↦ absurd (ne (rw e))
  | inl (b, first, e) ↦
      elim (alloc_block-Outcome (took b s) (took-IsValid v first.inside first.free)) [
        | inr (full, e') ↦ absurd (ne' (rw (e, e')))
        | inl (c, second, e') ↦ rw (e, e') (omega (arith, IsFirst-took s b c first second))
      ]
]
