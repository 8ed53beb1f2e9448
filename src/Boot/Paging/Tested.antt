-- ===== src/Boot/Paging/Tested.antt =====
-- The paging tests of `kernel_main` in src/kernel.c as a whole.
use my_own_operating_system.Base.{
  ℕ, ◌+◌, ◌*◌, ◌%◌, ◌^◌, ◌<◌, ◌≡◌, refl, ◌∙◌, ◌≢◌, ◌⊎◌, inl, inr, Option, none, some, arith,
  ==-of_ne,
}
use my_own_operating_system.Pmm.{block_size}
use my_own_operating_system.Pmm.Alloc.{IsFirst, alloc_block-Outcome}
use my_own_operating_system.Vmm.{Vmm, map_page}
use my_own_operating_system.Vmm.Walk.{lookup}
use my_own_operating_system.Vmm.Frames.{IsPaged, IsFirst-pos}
use my_own_operating_system.Vmm.Map.{
  page_of, translation_all, translation, Mapped, MapOutcome, mapped, map_page-Mapped,
  unmap_page-Mapped,
}
use my_own_operating_system.Vmm.Map as Map
use my_own_operating_system.Pmm.Spent.{Spent-add, Exhausted, Exhausted-before}
use my_own_operating_system.Vmm.Fault.{with_taken, taken-IsPaged, taken-lookup}
use my_own_operating_system.Boot.Paging.{
  Paging, tested, no_frame, stopped, demand_test, protected, protect, paging_test,
}
use my_own_operating_system.Boot.Paging.Cases.{
  Unmapped, none_left, none_left_taken, mapping_test-P, demand_test-P,
}

-- The state behind the tests: the pages of the tests are gone, the supervisor's page is backed by a
-- frame without the user flag, and no other translation changed.
pub record Protected (v w : Vmm) : Type 0 where
  pub paged : IsPaged w
  pub frame : ℕ
  pub supervisor :
      (a : ℕ) → a < 2 ^ 32 → page_of a ≡ 0xD0000 → lookup w a ≡ some (frame * block_size + 3)
  pub gone :
      (a : ℕ) → a < 2 ^ 32 → (page_of a ≡ 0xA0000) ⊎ (page_of a ≡ 0x40000) → lookup w a ≡ none
  pub elsewhere :
      (a : ℕ)
      → a < 2 ^ 32
      → page_of a ≢ 0xD0000
      → page_of a ≢ 0xA0000
      → page_of a ≢ 0x40000
      → lookup w a ≡ lookup v a

-- How the tests may end.
pub data PagingVerdict (v : Vmm) : Paging → Type 0 where
  all_passed : (w : Vmm) → Protected v w → PagingVerdict v (tested w)
  frame_wanted : Exhausted 5 v.pmm → PagingVerdict v no_frame
  table_wanted : Exhausted 5 v.pmm → PagingVerdict v stopped

translation_supervisor : (n : ℕ) → translation (n * block_size + 3) ≡ some (n * block_size + 3)
translation_supervisor n =
    rw (==-of_ne ((n * block_size + 3) % 2) 0 (λ z. absurd (omega (arith, z)))) refl

module _ (v u w : Vmm) (first_test : Unmapped 0xA0000 v u)
    (second_test : Unmapped 0x40000 u w) where
  before_both : Exhausted 1 w.pmm → Exhausted 5 v.pmm
  before_both e = Exhausted-before 1 (Spent-add first_test.spent second_test.spent) e

  Protected-Mapped :
      (b : ℕ) (first : IsFirst w.pmm b) (t : Vmm)
      → Mapped 0xD000_0000 (b * block_size + 3) (with_taken b w) t
      → Protected v t
  Protected-Mapped b first t m = record {
    paged = m.paged;
    frame = b;
    supervisor = λ a h same. m.here a h same ∙ translation_supervisor b;
    gone = λ a h. gone_at a h;
    elsewhere = λ a h nd na nb.
        m.elsewhere a h nd
        ∙ taken-lookup w second_test.paged b first a h
        ∙ second_test.elsewhere a h nb
        ∙ first_test.elsewhere a h na;
  }
    where
      gone_at :
          (a : ℕ) → a < 2 ^ 32 → (page_of a ≡ 0xA0000) ⊎ (page_of a ≡ 0x40000) → lookup t a ≡ none
      gone_at a h (inl at) =
          m.elsewhere a h (λ e. absurd (omega (arith, at, e)))
          ∙ taken-lookup w second_test.paged b first a h
          ∙ second_test.elsewhere a h (λ e. absurd (omega (arith, at, e)))
          ∙ first_test.gone a h at
      gone_at a h (inr at) =
          m.elsewhere a h (λ e. absurd (omega (arith, at, e)))
          ∙ taken-lookup w second_test.paged b first a h
          ∙ second_test.gone a h at

  protected-PagingVerdict :
      (b : ℕ) (first : IsFirst w.pmm b) (r : Option Vmm)
      → MapOutcome (b * block_size) 0xD000_0000 3 (with_taken b w) r
      → PagingVerdict v (protected r)
  protected-PagingVerdict b first _ (Map.halted absent full) =
      table_wanted (before_both (none_left_taken w second_test.paged b first full))
  protected-PagingVerdict b first _ (mapped t m) = all_passed t (Protected-Mapped b first t m)

  protect-PagingVerdict : PagingVerdict v (protect w)
  unfolding protect
  protect-PagingVerdict = elim (alloc_block-Outcome w.pmm second_test.paged.valid) [
    | inr (full, e) ↦ rw e (frame_wanted (before_both (none_left w second_test.paged full)))
    | inl (b, first, e) ↦
        rw
          (
            e,
            ==-of_ne (b * block_size) 0
                (λ z. IsFirst-pos w.pmm b second_test.paged.zero_used first (omega (arith, z))),
          )
          (protected-PagingVerdict b first
            (map_page (b * block_size) 0xD000_0000 3 (with_taken b w))
            (map_page-Mapped (b * block_size) 0xD000_0000 3 (with_taken b w)
              (taken-IsPaged w second_test.paged b first)
              (omega (arith, first.inside, second_test.paged.valid.small)) (omega arith)
              (omega arith) (omega arith)))
  ]

-- From the paging invariant, with no translation at 0x40000000: the tests pass, both test pages
-- have no translation, the page at 0xD0000000 is backed by a frame without the user flag, no other
-- translation changed and the invariant holds; or they end for want of a frame, and then at most
-- five frames were free at the start.
pub paging_test-PagingVerdict :
    (v : Vmm) → IsPaged v → lookup v 0x4000_0000 ≡ none → PagingVerdict v (paging_test v)
unfolding paging_test
paging_test-PagingVerdict v paged absent =
    mapping_test-P v paged (λ w. demand_test w protect) (PagingVerdict v)
      (record {
        goes_on = λ u first_test.
            demand_test-P u first_test.paged protect (PagingVerdict v)
              (record {
                goes_on = λ w second_test. protect-PagingVerdict v u w first_test second_test;
                without_frame = λ e. frame_wanted (before_first u first_test e);
                without_table = λ e. table_wanted (before_first u first_test e);
              })
              (first_test.elsewhere 0x4000_0000 (omega arith) (λ e. absurd (omega (arith, e)))
                ∙ absent);
        without_frame = λ e. frame_wanted (omega (arith, e));
        without_table = λ e. table_wanted (omega (arith, e));
      })
  where
    before_first : (u : Vmm) → Unmapped 0xA0000 v u → Exhausted 1 u.pmm → Exhausted 5 v.pmm
    before_first u first_test e = omega (arith, Exhausted-before 1 first_test.spent e)
