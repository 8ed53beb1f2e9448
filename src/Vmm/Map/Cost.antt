-- ===== src/Vmm/Map/Cost.antt =====
-- What `vmm_map_page` of src/vmm.c takes from the allocator.
use my_own_operating_system.Base.{
  ℕ, ◌%◌, bit_or, ◌≡◌, refl, ◌⊎◌, inl, inr, Option, none, some, arith,
}
use my_own_operating_system.Pmm.Spent.{Spent, Spent-took}
use my_own_operating_system.Vmm.{Vmm, store_pte, map_page, page_table, pd_index}
use my_own_operating_system.Vmm.Frames.{
  IsPaged, IsPresent, entry, TableOutcome, exists, exhausted, allocated, page_table-Outcome,
}

-- No frame is taken where the page table is present, and one is where it is not.
abbrev pub CostBy : ℕ → Vmm → Option Vmm → Type 0
CostBy virt v none = Unit
CostBy virt v (some w) =
    (IsPresent (entry v (pd_index virt)) × Spent 0 v.pmm w.pmm)
    ⊎ ((entry v (pd_index virt) % 2 ≡ 0) × Spent 1 v.pmm w.pmm)

store_pte-CostBy :
    (virt pte : ℕ) (v : Vmm) (r : Option (ℕ × Vmm))
    → TableOutcome virt v r
    → CostBy virt v (store_pte virt pte r)
store_pte-CostBy virt pte v _ (exists present) =
    inl (present, record { total = refl; used = omega arith })
store_pte-CostBy virt pte v _ (exhausted absent full) = tt
store_pte-CostBy virt pte v _ (allocated b absent first pos) = inr (absent, Spent-took b v.pmm)

pub map_page-CostBy :
    (phys virt flags : ℕ) (v : Vmm) → IsPaged v → CostBy virt v (map_page phys virt flags v)
unfolding map_page
map_page-CostBy phys virt flags v paged =
    store_pte-CostBy virt (bit_or phys flags) v (page_table virt v)
      (page_table-Outcome virt v paged)
