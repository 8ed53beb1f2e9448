-- ===== src/Pmm/Init/Total.antt =====
-- `pmm_init` as a whole, and what the first allocations after it can return.
use my_own_operating_system.Base.{
  ℕ, ◌+◌, ◌^◌, ◌≤◌, ◌<◌, bit_and, ◌≡◌, refl, ◌≢◌, ◌↔◌, ◌⊎◌, inl, inr, some, arith, ltb, ltb-of_le,
  ◌∙◌, ◌/◌, ◌==◌, Bool-cases, eq_of_==, ne_of_==, ==-of_ne, lt_of_ltb, le_of_ltb, add32,
}
use my_own_operating_system.Base.Memory.{Memory}
use my_own_operating_system.Pmm.{block_size, Pmm, alloc_block}
use my_own_operating_system.Pmm.Bitmap.{mark, IsWords}
use my_own_operating_system.Pmm.Block.{IsValid, mark-lt}
use my_own_operating_system.Pmm.Alloc.{IsFirst, Full, alloc_block-Outcome}
use my_own_operating_system.Pmm.Init.{
  detect_loop, init, free_entries, fill, track, reserve_zones, mbi_flags, mbi_mmap_addr,
  mbi_mmap_length,
}
use my_own_operating_system.Pmm.Init.Map.{
  IsMap, Covered, detect_loop-total, free_entries-total, free_entries-Covered, track-small,
  track-IsWords, fill-marked, fill-IsValid,
}
use my_own_operating_system.Pmm.Init.Reserve.{Grown, IsSheltered, reserve_zones-IsSheltered}

abbrev pub mmap_end_of : Memory → ℕ → ℕ
mmap_end_of m mbi = add32 (mbi_mmap_addr m mbi) (mbi_mmap_length m mbi)

-- What `pmm_init` has set up: the invariant holds, the protected zones are reserved, and every
-- free frame lies as a whole in usable RAM.
pub record IsReady (m : Memory) (kernel_start kernel_end mbi : ℕ) (t : Pmm) : Type 0 where
  pub valid : IsValid t
  pub sheltered : IsSheltered m mbi kernel_start kernel_end t
  pub covered :
      (k : ℕ)
      → k < t.total_blocks
      → mark t k ≡ 0
      → Covered m (mmap_end_of m mbi) k (mbi_mmap_addr m mbi)

module _ (m : Memory) (kernel_start kernel_end mbi : ℕ) where
  -- The state from which the second walk starts.
  abbrev filled : ℕ → Pmm → Pmm
  filled max_addr s = fill (track max_addr s)

  total-fill : (s : Pmm) → (fill s).total_blocks ≡ s.total_blocks
  unfolding fill
  total-fill s = refl

  zones-IsReady :
      (max_addr fuel : ℕ) (s t : Pmm)
      → kernel_start ≤ kernel_end
      → kernel_end + 2 ^ 17 + 4095 < 2 ^ 32
      → IsWords s
      → IsMap m (mmap_end_of m mbi) (mbi_mmap_addr m mbi)
      → free_entries m (mmap_end_of m mbi) fuel (mbi_mmap_addr m mbi) (filled max_addr s) ≡ some t
      → IsReady m kernel_start kernel_end mbi (reserve_zones m mbi kernel_start kernel_end t)
  zones-IsReady max_addr fuel s t ordered fits w map e = record {
    valid = zones.0.valid;
    sheltered = zones.1;
    covered = covered;
  }
    where
      small : (track max_addr s).total_blocks < 2 ^ 20
      small = track-small max_addr s

      walked :
          IsValid t
          × (t.total_blocks ≡ (filled max_addr s).total_blocks)
          × ((k : ℕ)
              → mark t k ≡ 0
              → (mark (filled max_addr s) k ≡ 0)
                ⊎ Covered m (mmap_end_of m mbi) k (mbi_mmap_addr m mbi))
      walked =
          free_entries-Covered m (mmap_end_of m mbi) fuel (filled max_addr s) t map
            (fill-IsValid (track max_addr s) (track-IsWords max_addr s w) small) e

      bound : t.total_blocks < 2 ^ 20
      bound = omega (arith, walked.1, total-fill (track max_addr s), small)

      zones :
          Grown t (reserve_zones m mbi kernel_start kernel_end t)
          × IsSheltered m mbi kernel_start kernel_end
              (reserve_zones m mbi kernel_start kernel_end t)
      zones =
          reserve_zones-IsSheltered m mbi kernel_start kernel_end t walked.0 ordered
            (omega (arith, bound))

      covered :
          (k : ℕ)
          → k < (reserve_zones m mbi kernel_start kernel_end t).total_blocks
          → mark (reserve_zones m mbi kernel_start kernel_end t) k ≡ 0
          → Covered m (mmap_end_of m mbi) k (mbi_mmap_addr m mbi)
      covered k tracked free = elim (Bool-cases (mark t k == 1)) [
        | inl one ↦ absurd (omega (arith, zones.0.kept k (eq_of_== _ _ one)))
        | inr other ↦ elim (walked.2 k (omega (arith, mark-lt t k, ne_of_== _ _ other))) [
          | inr c ↦ c
          | inl z ↦ absurd (
              omega (
                arith,
                fill-marked (track max_addr s) k
                    (omega (arith, zones.0.total, walked.1, total-fill (track max_addr s))),
              ))
        ]
      ]

  pub init-IsReady :
      (fuel : ℕ) (s : Pmm)
      → mbi ≢ 0
      → bit_and (mbi_flags m mbi) 0x40 ≢ 0
      → kernel_start ≤ kernel_end
      → kernel_end + 2 ^ 17 + 4095 < 2 ^ 32
      → IsWords s
      → IsMap m (mmap_end_of m mbi) (mbi_mmap_addr m mbi)
      → mmap_end_of m mbi < mbi_mmap_addr m mbi + fuel
      → 0 < fuel
      → (t : Pmm) × (init m kernel_start kernel_end fuel mbi s ≡ some t)
        × IsReady m kernel_start kernel_end mbi t
  unfolding init
  init-IsReady fuel s given has_map ordered fits w map enough pos =
      let (max_addr, found) = detect_loop-total m (mmap_end_of m mbi) fuel 0 map enough pos in
      let (t, freed) =
        free_entries-total m (mmap_end_of m mbi) fuel (filled max_addr s) map enough pos in
      (
        reserve_zones m mbi kernel_start kernel_end t,
        rw (==-of_ne mbi 0 given, ==-of_ne _ 0 has_map, found, freed) refl,
        zones-IsReady max_addr fuel s t ordered fits w map freed,
      )

  zones-total :
      (max_addr fuel : ℕ) (s t : Pmm)
      → kernel_start ≤ kernel_end
      → kernel_end + 2 ^ 17 + 4095 < 2 ^ 32
      → IsWords s
      → IsMap m (mmap_end_of m mbi) (mbi_mmap_addr m mbi)
      → free_entries m (mmap_end_of m mbi) fuel (mbi_mmap_addr m mbi) (filled max_addr s) ≡ some t
      → (reserve_zones m mbi kernel_start kernel_end t).total_blocks
        ≡ (track max_addr s).total_blocks
  zones-total max_addr fuel s t ordered fits w map e =
      let small = track-small max_addr s in
      let (valid, same, covered) =
        free_entries-Covered m (mmap_end_of m mbi) fuel (filled max_addr s) t map
          (fill-IsValid (track max_addr s) (track-IsWords max_addr s w) small) e in
      (reserve_zones-IsSheltered m mbi kernel_start kernel_end t valid ordered
        (omega (arith, same, total-fill (track max_addr s), small))).0.total
      ∙ same
      ∙ total-fill (track max_addr s)

  -- As many frames are tracked as lie below the end of RAM that the first walk finds.
  pub init-tracked :
      (fuel max_addr : ℕ) (s : Pmm)
      → mbi ≢ 0
      → bit_and (mbi_flags m mbi) 0x40 ≢ 0
      → kernel_start ≤ kernel_end
      → kernel_end + 2 ^ 17 + 4095 < 2 ^ 32
      → IsWords s
      → IsMap m (mmap_end_of m mbi) (mbi_mmap_addr m mbi)
      → mmap_end_of m mbi < mbi_mmap_addr m mbi + fuel
      → 0 < fuel
      → detect_loop m (mmap_end_of m mbi) fuel (mbi_mmap_addr m mbi) 0 ≡ some max_addr
      → max_addr < 2 ^ 32
      → (t : Pmm) × (init m kernel_start kernel_end fuel mbi s ≡ some t)
        × (t.total_blocks ≡ max_addr / block_size)
  unfolding init track
  init-tracked fuel max_addr s given has_map ordered fits w map enough pos found low =
      let (t, freed) =
        free_entries-total m (mmap_end_of m mbi) fuel (filled max_addr s) map enough pos in
      (
        reserve_zones m mbi kernel_start kernel_end t,
        rw (==-of_ne mbi 0 given, ==-of_ne _ 0 has_map, found, freed) refl,
        zones-total max_addr fuel s t ordered fits w map freed
            ∙ (rw (ltb-of_le 0xFFFF_FFFF max_addr (omega (arith, low))) refl),
      )

  first_after :
      (t : Pmm)
      → IsReady m kernel_start kernel_end mbi t
      → (((alloc_block t).0 ≡ 0) ↔ Full t t.total_blocks)
        × ((alloc_block t).0 ≢ 0 → 0x100000 ≤ (alloc_block t).0)
  first_after t ready = elim (alloc_block-Outcome t ready.valid) [
    | inr (full, e) ↦ rw e ((λ _. full, λ _. refl), λ ne. absurd (ne refl))
    | inl (b, first, e) ↦
        let high : 256 ≤ b = above b first in
        rw e (
          (
            λ z. absurd (omega arith),
            λ full. absurd (omega (arith, first.free, full b first.inside)),
          ),
          λ _. omega arith,
        )
  ]
    where
      above : (b : ℕ) → IsFirst t b → 256 ≤ b
      above b first = elim (Bool-cases (ltb b 256)) [
        | inr high ↦ le_of_ltb b 256 high
        | inl low ↦ absurd (
            omega (
              arith,
              first.free,
              ready.sheltered.low b (omega arith) (lt_of_ltb b 256 low) first.inside,
            ))
      ]

  -- Under the conditions of `init-IsReady`, `pmm_init` ends in a state in which `pmm_alloc_block`
  -- returns NULL exactly when every tracked frame is in use, and any other address it returns is
  -- at least 1 MB.
  pub alloc_block-ready :
      (fuel : ℕ) (s : Pmm)
      → mbi ≢ 0
      → bit_and (mbi_flags m mbi) 0x40 ≢ 0
      → kernel_start ≤ kernel_end
      → kernel_end + 2 ^ 17 + 4095 < 2 ^ 32
      → IsWords s
      → IsMap m (mmap_end_of m mbi) (mbi_mmap_addr m mbi)
      → mmap_end_of m mbi < mbi_mmap_addr m mbi + fuel
      → 0 < fuel
      → (t : Pmm) × (init m kernel_start kernel_end fuel mbi s ≡ some t)
        × ((((alloc_block t).0 ≡ 0) ↔ Full t t.total_blocks)
            × ((alloc_block t).0 ≢ 0 → 0x100000 ≤ (alloc_block t).0))
  alloc_block-ready fuel s given has_map ordered fits w map enough pos =
      let (t, e, ready) = init-IsReady fuel s given has_map ordered fits w map enough pos in
      (t, e, first_after t ready)
