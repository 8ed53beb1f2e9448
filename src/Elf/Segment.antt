-- ===== src/Elf/Segment.antt =====
-- The loop over the pages of a segment in src/elf.c gives each page a fresh frame of its own.
use my_own_operating_system.Base.{
  ℕ, zero, suc, ◌+◌, ◌*◌, ◌^◌, ◌≤◌, ◌<◌, ◌≡◌, inl, inr, Option, List, arith, ltb, Bool-cases,
  ==-of_ne, lt_of_ltb, le_of_ltb, add32,
}
use mathlib.Core.Path.{subst}
use my_own_operating_system.Pmm.{block_size}
use my_own_operating_system.Pmm.Block.{took}
use my_own_operating_system.Pmm.Alloc.{IsFirst, Full, alloc_block-Outcome}
use my_own_operating_system.Vmm.{Vmm, map_page, flag_all}
use my_own_operating_system.Vmm.Frames.{IsPaged, IsFirst-pos}
use my_own_operating_system.Vmm.Map.{MapOutcome, mapped, map_page-Mapped}
use my_own_operating_system.Vmm.Map as Map
use my_own_operating_system.Vmm.Map.Kept.{KeptBy}
use my_own_operating_system.Vmm.Fault.{with_taken, taken-IsPaged, taken-KeptBy}
use my_own_operating_system.Elf.{
  Pages, filled, exhausted, halted, fill_next, map_pages, track, clear_page,
}
use my_own_operating_system.Elf.Page.{OnePage, page-OnePage, IsFilled, IsFilled-none, IsFilled-one}

-- Where the loop over the pages from `n` up to `count` may end.
pub data Filling (n count : ℕ) (v : Vmm) : Pages → Type 0 where
  all_filled :
      (blocks : List ℕ) (w : Vmm) → IsFilled n count v w → Filling n count v (filled blocks w)
  no_frame :
      (blocks : List ℕ) (k : ℕ) (w : Vmm)
      → n ≤ k
      → k < count
      → IsFilled n k v w
      → Full w.pmm w.pmm.total_blocks
      → Filling n count v (exhausted blocks w)
  no_table :
      (k b : ℕ) (w : Vmm)
      → n ≤ k
      → k < count
      → IsFilled n k v w
      → IsFirst w.pmm b
      → Full (took b w.pmm) (took b w.pmm).total_blocks
      → Filling n count v halted

Filling-one :
    (n b count : ℕ) (v u : Vmm)
    → OnePage n b v u
    → n < count
    → count < 2 ^ 20
    → (r : Pages) → Filling (n + 1) count u r
    → Filling n count v r
Filling-one n b count v u one less small _ (all_filled blocks w rest) =
    all_filled blocks w (IsFilled-one n b count v u w one rest less small)
Filling-one n b count v u one less small _ (no_frame blocks k w ge lt rest full) =
    no_frame blocks k w (omega (arith, ge)) lt
      (IsFilled-one n b k v u w one rest (omega (arith, ge)) (omega (arith, lt, small))) full
Filling-one n b count v u one less small _ (no_table k c w ge lt rest first full) =
    no_table k c w (omega (arith, ge)) lt
      (IsFilled-one n b k v u w one rest (omega (arith, ge)) (omega (arith, lt, small))) first full

fill_next-Filling :
    (n b count : ℕ) (v : Vmm) (go : Vmm → Pages)
    → IsPaged v
    → IsFirst v.pmm b
    → n < count
    → count < 2 ^ 20
    → ((u : Vmm) → IsPaged u → Filling (n + 1) count u (go u))
    → (r : Option Vmm) → MapOutcome (b * block_size) (n * block_size) flag_all (with_taken b v) r
    → KeptBy b (with_taken b v) r
    → Filling n count v (fill_next (n * block_size) go r)
fill_next-Filling n b count v go paged first less small later _ (Map.halted absent full) k =
    no_table n b v (omega arith) less (IsFilled-none n v paged) first full
fill_next-Filling n b count v go paged first less small later _ (mapped w m) k =
    let one = page-OnePage n b v w paged (omega (arith, less, small)) first m k in
    Filling-one n b count v (clear_page (n * block_size) w) one less small
      (go (clear_page (n * block_size) w)) (later (clear_page (n * block_size) w) one.paged)

module _ (count : ℕ) (small : count < 2 ^ 20) where
  -- From the paging invariant, with fuel above the number of pages, the loop over the pages of a
  -- segment ends: either every page is backed by a frame that was free, a different one for each,
  -- every other translation is as before and the invariant holds; or the same holds for the pages
  -- before the one for which no frame, or no frame for its page table, was left.
  pub map_pages-Filling :
      (fuel n : ℕ) (blocks : List ℕ) (v : Vmm)
      → n ≤ count
      → count < n + fuel
      → IsPaged v
      → Filling n count v (map_pages fuel (n * block_size) (count * block_size) blocks v)
  unfolding map_pages
  map_pages-Filling zero n blocks v le enough paged = absurd (omega (arith, le, enough))
  map_pages-Filling (suc fuel) n blocks v le enough paged =
      elim (Bool-cases (ltb (n * block_size) (count * block_size))) [
        | inr done ↦
            let e : n ≡ count = omega (arith, le, le_of_ltb _ _ done) in
            rw done
              (all_filled blocks v (subst (λ k. IsFilled n k v v) e (IsFilled-none n v paged)))
        | inl more ↦
            let lt : n < count = omega (arith, lt_of_ltb _ _ more) in
            let step : add32 (n * block_size) block_size ≡ (n + 1) * block_size =
              omega (arith, lt, small) in
            elim (alloc_block-Outcome v.pmm paged.valid) [
              | inr (full, e) ↦
                  rw (more, e) (no_frame blocks n v (omega arith) lt (IsFilled-none n v paged) full)
              | inl (b, first, e) ↦
                  rw
                    (
                      more,
                      e,
                      step,
                      ==-of_ne (b * block_size) 0
                          (λ z. IsFirst-pos v.pmm b paged.zero_used first (omega (arith, z))),
                    )
                    (fill_next-Filling n b count v
                      (λ u.
                        map_pages fuel ((n + 1) * block_size) (count * block_size)
                          (track (b * block_size) blocks) u)
                      paged first lt small
                      (λ u paged'.
                        map_pages-Filling fuel (n + 1) (track (b * block_size) blocks) u
                          (omega (arith, lt)) (omega (arith, enough)) paged')
                      (map_page (b * block_size) (n * block_size) flag_all (with_taken b v))
                      (map_page-Mapped (b * block_size) (n * block_size) flag_all (with_taken b v)
                        (taken-IsPaged v paged b first)
                        (omega (arith, first.inside, paged.valid.small)) (omega arith)
                        (omega (arith, lt, small)) (omega arith))
                      (taken-KeptBy v paged b first (n * block_size) flag_all
                        (omega (arith, lt, small)) (omega arith)))
            ]
      ]
