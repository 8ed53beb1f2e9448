-- ===== src/Vmm/Map/Kept.antt =====
-- What `vmm_map_page` of src/vmm.c leaves as it is besides the translations: the frames in use, and
-- the frames that hold no table.
use my_own_operating_system.Base.{
  ℕ, ◌+◌, ◌*◌, ◌^◌, ◌<◌, bit_or, ◌≡◌, refl, ap, Option, none, some, arith, update,
}
use mathlib.Core.Path.{subst}
use my_own_operating_system.Pmm.{block_size}
use my_own_operating_system.Pmm.Bitmap.{mark}
use my_own_operating_system.Vmm.{
  Vmm, pd_index, pte_address, table_of, page_table, store_pte, map_page,
}
use my_own_operating_system.Vmm.Walk.{bit_and-page_mask}
use my_own_operating_system.Vmm.Frames.{
  IsPaged, IsPresent, entry, pd_index-lt, TableOutcome, exists, exhausted, allocated,
  page_table-Outcome,
}
use my_own_operating_system.Pmm.Spent.{Spent, Spent-took}
use my_own_operating_system.Vmm.Scratch.{IsScratch}
use my_own_operating_system.Vmm.Map.{entry_same}
use my_own_operating_system.Vmm.Map.Table.{
  with_table, with_table-IsPaged, with_table-entry, with_table-IsScratch, took-kept,
}

-- The frames in use are still in use, frame `c` still holds no table, and at most one frame was
-- taken.
pub record Kept (c : ℕ) (v w : Vmm) : Type 0 where
  pub marks : (k : ℕ) → mark v.pmm k ≡ 1 → mark w.pmm k ≡ 1
  pub scratch : IsScratch w c
  pub spent : Spent 1 v.pmm w.pmm

-- The state with one word of a table written.
abbrev stored : Vmm → ℕ → ℕ → Vmm
stored v a value = record v { ram = update v.ram a value }

written-IsScratch :
    (v : Vmm) (virt value c table : ℕ)
    → IsPaged v
    → virt < 2 ^ 32
    → IsPresent (entry v (pd_index virt))
    → value < 2 ^ 32
    → table_of (entry v (pd_index virt)) ≡ table
    → IsScratch v c
    → IsScratch (stored v (pte_address table virt) value) c
written-IsScratch v virt value c table paged low present word e scratch =
    subst (λ t. IsScratch (stored v (pte_address t virt) value) c) e
      (record {
        not_directory = scratch.not_directory;
        not_table =
            λ j h. rw (entry_same v paged virt value low present word j h) (scratch.not_table j h);
      })

-- `none` is the halt.
abbrev pub KeptBy : ℕ → Vmm → Option Vmm → Type 0
KeptBy c v none = Unit
KeptBy c v (some w) = Kept c v w

store_pte-KeptBy :
    (virt pte c : ℕ) (v : Vmm)
    → IsPaged v
    → virt < 2 ^ 32
    → pte < 2 ^ 32
    → mark v.pmm c ≡ 1
    → IsScratch v c
    → (r : Option (ℕ × Vmm)) → TableOutcome virt v r
    → KeptBy c v (store_pte virt pte r)
store_pte-KeptBy virt pte c v paged low word used scratch _ (exists present) = record {
  marks = λ k h. h;
  scratch = written-IsScratch v virt pte c _ paged low present word refl scratch;
  spent = record { total = refl; used = omega arith };
}
store_pte-KeptBy virt pte c v paged low word used scratch _ (exhausted absent full) = tt
store_pte-KeptBy virt pte c v paged low word used scratch _ (allocated b absent first pos) =
    record {
      marks = λ k h. took-kept v.pmm b k h;
      scratch =
          written-IsScratch (with_table b (pd_index virt) v) virt pte c (b * block_size) paged' low
            (omega (arith, new_entry)) word
            (omega (
              arith,
              new_entry,
              bit_and-page_mask (entry (with_table b (pd_index virt) v) (pd_index virt))
                  (paged'.words _),
            ))
            (with_table-IsScratch v paged b (pd_index virt) first pos index absent c
              (λ e. absurd (omega (arith, first.free, used, ap (mark v.pmm) e))) scratch);
      spent = Spent-took b v.pmm;
    }
  where
    index : pd_index virt < 1024
    index = pd_index-lt virt low

    paged' : IsPaged (with_table b (pd_index virt) v)
    paged' = with_table-IsPaged v paged b (pd_index virt) first pos index absent

    new_entry : entry (with_table b (pd_index virt) v) (pd_index virt) ≡ b * block_size + 7
    new_entry = with_table-entry v paged b (pd_index virt) first pos index absent

pub map_page-KeptBy :
    (phys virt flags c : ℕ) (v : Vmm)
    → IsPaged v
    → virt < 2 ^ 32
    → bit_or phys flags < 2 ^ 32
    → mark v.pmm c ≡ 1
    → IsScratch v c
    → KeptBy c v (map_page phys virt flags v)
unfolding map_page
map_page-KeptBy phys virt flags c v paged low word used scratch =
    store_pte-KeptBy virt (bit_or phys flags) c v paged low word used scratch (page_table virt v)
      (page_table-Outcome virt v paged)
