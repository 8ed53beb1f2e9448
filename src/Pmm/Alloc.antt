-- ===== src/Pmm/Alloc.antt =====
-- `pmm_alloc_block` of src/pmm.c is a first-fit search that misses no frame.
use my_own_operating_system.Base.{
  ℕ, zero, suc, ◌+◌, ◌*◌, ◌/◌, ◌%◌, ◌^◌, ◌≤◌, ◌<◌, ◌≡◌, refl, ap, ◌∙◌, ◌⊎◌, inl, inr, none, some,
  arith, ltb, leb, ◌==◌, Bool-cases, eq_of_==, ne_of_==, lt_of_ltb, le_of_ltb, add32, mul32,
}
use my_own_operating_system.Base.Bits.{bit_at-full}
use my_own_operating_system.Pmm.{Pmm, scan_word, scan_words, alloc_block, block_size}
use my_own_operating_system.Pmm.Bitmap.{mark, bitmap_test-mark}
use my_own_operating_system.Pmm.Block.{IsValid, took, mark-lt}

-- The frames below `n` are all marked.
abbrev pub Full : Pmm → ℕ → Type 0
Full s n = (k : ℕ) → k < n → mark s k ≡ 1

-- `b` is the first free frame.
pub record IsFirst (s : Pmm) (b : ℕ) : Type 0 where
  pub inside : b < s.total_blocks
  pub free : mark s b ≡ 0
  pub earlier : Full s b

-- What a `return` of the search may be: the first free frame, taken, or NULL with none free.
abbrev pub Outcome : Pmm → ℕ × Pmm → Type 0
Outcome s r =
    ((b : ℕ) × IsFirst s b × (r ≡ (b * block_size, took b s)))
    ⊎ (Full s s.total_blocks × (r ≡ (0, s)))

Full-suc : (s : Pmm) (n : ℕ) → Full s n → mark s n ≡ 1 → Full s (n + 1)
Full-suc s n full last k h = elim (Bool-cases (ltb k n)) [
  | inl before ↦ full k (lt_of_ltb k n before)
  | inr after ↦ let e : k ≡ n = omega (arith, le_of_ltb k n after) in rw e last
]

module _ (s : Pmm) (valid : IsValid s) where
  scan_word-Outcome :
      (i j left : ℕ)
      → j + left ≡ 32
      → i < 2 ^ 15
      → Full s (i * 32 + j)
      → ((scan_word i j left s ≡ none) × Full s (i * 32 + 32))
        ⊎ ((r : ℕ × Pmm) × (scan_word i j left s ≡ some r) × Outcome s r)
  unfolding scan_word
  scan_word-Outcome i j zero e small full = inl (refl, λ k h. full k (omega arith))
  scan_word-Outcome i j (suc left) e small full =
      let bit : add32 (mul32 i 32) j ≡ i * 32 + j = omega arith in
      let next : i * 32 + (j + 1) ≡ i * 32 + j + 1 = omega arith in
      rw bit (elim (Bool-cases (leb s.total_blocks (i * 32 + j))) [
        | inl beyond ↦ rw beyond (inr ((0, s), refl, inr (λ k h. full k (ground arith), refl)))
        | inr inside ↦
            rw (inside, bitmap_test-mark)
              (elim (Bool-cases (mark s (i * 32 + j) == 1)) [
                | inl taken ↦ rw taken (
                    scan_word-Outcome i (j + 1) left (omega arith) small
                      (rw next (Full-suc s (i * 32 + j) full (eq_of_== _ _ taken))))
                | inr free ↦
                    let address : mul32 (i * 32 + j) block_size ≡ (i * 32 + j) * block_size =
                      ground (arith, valid.small) in
                    rw (free, address)
                      (inr (
                        ((i * 32 + j) * block_size, took (i * 32 + j) s),
                        refl,
                        inl (
                          i * 32 + j,
                          record {
                            inside = ground arith;
                            free = ground (arith, mark-lt s (i * 32 + j));
                            earlier = full;
                          },
                          refl,
                        ),
                      ))
              ])
      ])

  -- A word of 32 ones is skipped, and holds no free frame.
  Full-word : (i : ℕ) → s.bitmap i ≡ 0xFFFF_FFFF → Full s (i * 32) → Full s ((i + 1) * 32)
  Full-word i e full k h = elim (Bool-cases (ltb k (i * 32))) [
    | inl before ↦ full k (lt_of_ltb k (i * 32) before)
    | inr after ↦
        let w : k / 32 ≡ i = omega (arith, le_of_ltb k (i * 32) after) in
        rw (w, e) (bit_at-full 32 (k % 32) (omega arith))
  ]

  scan_words-Outcome :
      (i left : ℕ)
      → i + left ≤ 2 ^ 15
      → s.total_blocks ≤ (i + left) * 32
      → Full s (i * 32)
      → Outcome s (scan_words i left s)
  unfolding scan_words
  scan_words-Outcome i zero fits covers full = inr (λ k h. full k (omega arith), refl)
  scan_words-Outcome i (suc left) fits covers full = elim (Bool-cases (s.bitmap i == 0xFFFF_FFFF)) [
    | inl ones ↦ rw ones (
        scan_words-Outcome (i + 1) left (omega arith) (omega arith)
          (Full-word i (eq_of_== _ _ ones) full))
    | inr mixed ↦
        rw mixed (elim (scan_word-Outcome i 0 32 refl (omega arith) (λ k h. full k (omega arith))) [
          | inl (e, full') ↦ rw e (
              scan_words-Outcome (i + 1) left (omega arith) (omega arith)
                (λ k h. full' k (omega arith)))
          | inr (r, e, outcome) ↦ rw e outcome
        ])
  ]

  -- Under the allocator's invariant, `pmm_alloc_block` returns the address of the lowest free
  -- frame and marks and counts that one, or, with every tracked frame marked, returns NULL and
  -- changes nothing.
  pub alloc_block-Outcome : Outcome s (alloc_block s)
  unfolding alloc_block
  alloc_block-Outcome =
      let words : add32 s.total_blocks 31 / 32 ≡ (s.total_blocks + 31) / 32 =
        omega (arith, valid.small) in
      rw words (
        scan_words-Outcome 0 ((s.total_blocks + 31) / 32) (omega (arith, valid.small)) (omega arith)
          (λ k h. absurd (omega arith)))

IsFirst-unique : (s : Pmm) (b c : ℕ) → IsFirst s b → IsFirst s c → b ≡ c
IsFirst-unique s b c p q = elim (Bool-cases (ltb b c)) [
  | inl low ↦ absurd (omega (arith, p.free, q.earlier b (lt_of_ltb b c low)))
  | inr high ↦ elim (Bool-cases (b == c)) [
    | inl same ↦ eq_of_== b c same
    | inr other ↦
        absurd (
          omega
            (arith, q.free, p.earlier c (omega (arith, le_of_ltb b c high, ne_of_== b c other))))
  ]
]

-- Where a first free frame is known, `pmm_alloc_block` takes that one.
pub alloc_block-first :
    (s : Pmm) (b : ℕ) → IsValid s → IsFirst s b → alloc_block s ≡ (b * block_size, took b s)
alloc_block-first s b v first = elim (alloc_block-Outcome s v) [
  | inl (c, first', e) ↦
      e ∙ ap (λ n. (n * block_size, took n s)) (IsFirst-unique s c b first' first)
  | inr (full, e) ↦ absurd (omega (arith, first.free, full b first.inside))
]
