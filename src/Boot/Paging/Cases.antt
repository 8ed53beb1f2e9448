-- ===== src/Boot/Paging/Cases.antt =====
-- What each of the paging tests of `kernel_main` in src/kernel.c comes to.
use my_own_operating_system.Base.{
  ℕ, ◌*◌, ◌^◌, ◌<◌, ◌≡◌, refl, sym, ◌∙◌, ◌≢◌, inl, inr, Option, none, arith, ==-of_ne,
}
use mathlib.Core.Path.{subst}
use my_own_operating_system.Pmm.{Pmm, block_size, bitmap_set}
use my_own_operating_system.Pmm.Block.{took}
use my_own_operating_system.Pmm.Alloc.{IsFirst, Full, alloc_block-Outcome}
use my_own_operating_system.Vmm.{Vmm, map_page, unmap_page, flag_all}
use my_own_operating_system.Vmm.Walk.{lookup}
use my_own_operating_system.Vmm.Frames.{IsPaged, IsFirst-pos}
use my_own_operating_system.Vmm.Map.{
  page_of, translation_all, translation, Mapped, MapOutcome, mapped, map_page-Mapped,
  unmap_page-Mapped,
}
use my_own_operating_system.Vmm.Map as Map
use my_own_operating_system.Pmm.Spent.{
  Spent, Spent-took, Spent-add, Exhausted, Exhausted-before, Full-Exhausted, free_block-Spent,
}
use my_own_operating_system.Vmm.Map.Kept.{KeptBy}
use my_own_operating_system.Vmm.Fault.{
  with_taken, taken-IsPaged, taken-lookup, taken-KeptBy, Supplied, backed, none_free, no_table,
  Fault, is_demand, page_fault, demand_or_panic,
}
use my_own_operating_system.Boot.Paging.{
  Paging, no_frame, stopped, after_fault, write_word, mapped_then, mapping_test, demand_written,
  demand_test,
}
use my_own_operating_system.Boot.Paging.Own.{
  IsBacked, stored, write_word-stored, store_by-stored, stored-lookup, stored-IsBacked, stored-read,
  given_back, given_back-lookup, given_back-IsPaged, unmap_page-IsScratch, unmap_page-pmm,
}

-- From `v` to `w`, page `n` lost its translation, no other changed, and at most two frames were
-- taken.
pub record Unmapped (n : ℕ) (v w : Vmm) : Type 0 where
  pub paged : IsPaged w
  pub gone : (a : ℕ) → a < 2 ^ 32 → page_of a ≡ n → lookup w a ≡ none
  pub elsewhere : (a : ℕ) → a < 2 ^ 32 → page_of a ≢ n → lookup w a ≡ lookup v a
  pub spent : Spent 2 v.pmm w.pmm

-- What a test may come to, given what follows it.
pub record Cases (n : ℕ) (v : Vmm) (next : Vmm → Paging) (P : Paging → Type 0) : Type 0 where
  pub goes_on : (w : Vmm) → Unmapped n v w → P (next w)
  pub without_frame : Exhausted 1 v.pmm → P no_frame
  pub without_table : Exhausted 1 v.pmm → P stopped

-- No frame was left, at once or behind the one just taken.
pub none_left : (v : Vmm) → IsPaged v → Full v.pmm v.pmm.total_blocks → Exhausted 1 v.pmm
none_left v paged full = omega (arith, Full-Exhausted v.pmm paged.valid full)

pub none_left_taken :
    (v : Vmm)
    → IsPaged v
    → (b : ℕ) → IsFirst v.pmm b
    → Full (took b v.pmm) (took b v.pmm).total_blocks
    → Exhausted 1 v.pmm
none_left_taken v paged b first full =
    Exhausted-before 0 (Spent-took b v.pmm)
      (Full-Exhausted (took b v.pmm) (taken-IsPaged v paged b first).valid full)

-- The page is written to and taken away again.
module _ (virt b flags value : ℕ) (v w : Vmm) (k : IsBacked virt b flags w) (word : value < 2 ^ 32)
    (low : virt < 2 ^ 32)
    (others : (a : ℕ) → a < 2 ^ 32 → page_of a ≢ page_of virt → lookup w a ≡ lookup v a)
    (spent : Spent 2 v.pmm w.pmm) where
  abbrev kept_word : Vmm
  kept_word = stored virt b flags value w k word low

  written-Unmapped : Unmapped (page_of virt) v (unmap_page virt kept_word)
  written-Unmapped =
      let m =
        unmap_page-Mapped virt kept_word (stored-IsBacked virt b flags value w k word low).paged
          low in
      record {
        paged = m.paged;
        gone = m.here;
        elsewhere = λ a h other.
            m.elsewhere a h other
            ∙ stored-lookup virt b flags value w k word low a h
            ∙ others a h other;
        spent = subst (Spent 2 v.pmm) (sym (unmap_page-pmm virt kept_word)) spent;
      }

  given_back-Unmapped :
      b ≢ 0
      → b < w.pmm.total_blocks
      → Unmapped (page_of virt) v (given_back b (unmap_page virt kept_word))
  given_back-Unmapped pos inside =
      let u = written-Unmapped in
      let backed' = stored-IsBacked virt b flags value w k word low in
      record {
        paged =
            given_back-IsPaged b (unmap_page virt kept_word) u.paged
              (unmap_page-IsScratch virt b kept_word backed'.paged low backed'.scratch) pos
              (subst (λ (s : Pmm). b < s.total_blocks) (sym (unmap_page-pmm virt kept_word))
                inside);
        gone = λ a h same. given_back-lookup b (unmap_page virt kept_word) a ∙ u.gone a h same;
        elsewhere =
            λ a h other. given_back-lookup b (unmap_page virt kept_word) a ∙ u.elsewhere a h other;
        spent =
            Spent-add u.spent
              (free_block-Spent (b * block_size) (unmap_page virt kept_word).pmm u.paged.valid);
      }

module _ (v : Vmm) (paged : IsPaged v) (next : Vmm → Paging) (P : Paging → Type 0) where
  module _ (cases : Cases 0xA0000 v next P) where
    mapped_then-P :
        (b : ℕ) (first : IsFirst v.pmm b) (r : Option Vmm)
        → MapOutcome (b * block_size) 0xA000_0000 flag_all (with_taken b v) r
        → KeptBy b (with_taken b v) r
        → P (mapped_then (b * block_size) next r)
    unfolding bitmap_set
    mapped_then-P b first _ (Map.halted absent full) k =
        cases.without_table (none_left_taken v paged b first full)
    mapped_then-P b first _ (mapped w m) k =
        rw (write_word-stored 0xA000_0000 b flag_all 0xCAFE_BABE w back (omega arith) (omega arith))
          (rw (stored-read 0xA000_0000 b flag_all 0xCAFE_BABE w back (omega arith) (omega arith)) (
            cases.goes_on
              (given_back b (
                unmap_page 0xA000_0000
                  (stored 0xA000_0000 b flag_all 0xCAFE_BABE w back (omega arith) (omega arith))))
              (given_back-Unmapped 0xA000_0000 b flag_all 0xCAFE_BABE v w back (omega arith)
                (omega arith)
                (λ a h other. m.elsewhere a h other ∙ taken-lookup v paged b first a h)
                (Spent-add (Spent-took b v.pmm) k.spent) (IsFirst-pos v.pmm b paged.zero_used first)
                (omega (arith, k.spent.total, first.inside)))))
      where
        back : IsBacked 0xA000_0000 b flag_all w
        back = record {
          paged = m.paged;
          scratch = k.scratch;
          here = m.here 0xA000_0000 (omega arith) refl ∙ translation_all b;
          small = omega (arith, first.inside, paged.valid.small);
          flags_small = omega arith;
        }

    pub mapping_test-P : P (mapping_test v next)
    unfolding mapping_test
    mapping_test-P = elim (alloc_block-Outcome v.pmm paged.valid) [
      | inr (full, e) ↦ rw e (cases.without_frame (none_left v paged full))
      | inl (b, first, e) ↦
          rw
            (
              e,
              ==-of_ne (b * block_size) 0
                  (λ z. IsFirst-pos v.pmm b paged.zero_used first (omega (arith, z))),
            )
            (mapped_then-P b first (map_page (b * block_size) 0xA000_0000 flag_all (with_taken b v))
              (map_page-Mapped (b * block_size) 0xA000_0000 flag_all (with_taken b v)
                (taken-IsPaged v paged b first) (omega (arith, first.inside, paged.valid.small))
                (omega arith) (omega arith) (omega arith))
              (taken-KeptBy v paged b first 0xA000_0000 flag_all (omega arith) (omega arith)))
    ]

  module _ (cases : Cases 0x40000 v next P) (absent : lookup v 0x4000_0000 ≡ none) where
    demand_written-P :
        (r : Fault)
        → Supplied 0x4000_0000 v r
        → P (demand_written next (after_fault 0x4000_0000 0x1234_5678 r))
    demand_written-P _ (backed b w first paged' scratch spent here elsewhere) =
        rw (store_by-stored 0x4000_0000 b 7 0x1234_5678 w back (omega arith) (omega arith)) (
          rw (stored-read 0x4000_0000 b 7 0x1234_5678 w back (omega arith) (omega arith)) (
            cases.goes_on _ (
              written-Unmapped 0x4000_0000 b 7 0x1234_5678 v w back (omega arith) (omega arith)
                elsewhere spent)))
      where
        back : IsBacked 0x4000_0000 b 7 w
        back = record {
          paged = paged';
          scratch = scratch;
          here = here 0x4000_0000 (omega arith) refl;
          small = omega (arith, first.inside, paged.valid.small);
          flags_small = omega arith;
        }
    demand_written-P _ (none_free full) = cases.without_table (none_left v paged full)
    demand_written-P _ (no_table b first full) =
        cases.without_table (none_left_taken v paged b first full)

    pub demand_test-P : P (demand_test v next)
    unfolding demand_test write_word is_demand
    demand_test-P = rw absent (elim (demand_or_panic 2 0x4000_0000 v paged (omega arith)) [
      | inl (yes', s) ↦ demand_written-P (page_fault 2 0x4000_0000 v) s
      | inr (no', e) ↦ cc
    ])
