-- ===== src/Examples/Pages.antt =====
-- A page directory with one page table on which src/vmm.c is run.
use my_own_operating_system.Base.{
  ◌⊎◌, false, none, ℕ, ◌≡◌, refl, sym, ◌∙◌, arith, ◌==◌, if◌then◌else◌,
}
use my_own_operating_system.Vmm.{Vmm, map_page, unmap_page}
use my_own_operating_system.Vmm.Frames.{IsPaged, IsPresent, entry}
use my_own_operating_system.Vmm.Map.{Mapped, MapOutcome, map_page-Mapped, unmap_page-Mapped}
use my_own_operating_system.Vmm.Init.{Machine, init}
use my_own_operating_system.Vmm.Init.Identity.{Started, init-Started}
use my_own_operating_system.Vmm.Fault.{
  Supplied, page_fault, page_fault-Supplied, IsDemand, panicked, report,
}
use my_own_operating_system.Vmm.Walk.{lookup}
use my_own_operating_system.Boot.Paging.{paging_test}
use my_own_operating_system.Boot.Paging.Tested.{PagingVerdict, paging_test-PagingVerdict}
use my_own_operating_system.Examples.Frames.{half_used, half_used-IsValid}

-- The directory stands in frame 1, and its entry 0 points to a table in frame 2.
abbrev pub one_table : Vmm
one_table = record {
  ram = λ a. if a == 0x1000 then 0x2007 else 0;
  pmm = half_used;
  directory = 0x1000;
}

one_table-entry : (i : ℕ) → IsPresent (entry one_table i) → i ≡ 0
one_table-entry i present = ground arith

pub one_table-IsPaged : IsPaged one_table
one_table-IsPaged = record {
  valid = half_used-IsValid;
  zero_used = refl;
  words = λ a. ground arith;
  aligned = refl;
  fits = omega arith;
  directory_used = refl;
  table_used = λ i h present. rw (one_table-entry i present) refl;
  table_apart = λ i h present. rw (one_table-entry i present) (λ z. absurd (omega (arith, z)));
  tables_apart = λ i j h h' differ present present'.
      absurd (differ (one_table-entry i present ∙ sym (one_table-entry j present')));
}

-- The table of this page is missing, so a frame is taken for it.
map_page-Mapped_example :
    MapOutcome 0x5000 0x0040_0000 3 one_table (map_page 0x5000 0x0040_0000 3 one_table)
map_page-Mapped_example =
    map_page-Mapped 0x5000 0x0040_0000 3 one_table one_table-IsPaged (omega arith) refl
      (omega arith) (omega arith)

unmap_page-Mapped_example : Mapped 0x5000 0 one_table (unmap_page 0x5000 one_table)
unmap_page-Mapped_example = unmap_page-Mapped 0x5000 one_table one_table-IsPaged (omega arith)

-- A write from user mode to the page above.
page_fault-Supplied_example :
    (IsDemand 6 0x0040_0123 × Supplied 0x0040_0123 one_table (page_fault 6 0x0040_0123 one_table))
    ⊎ ((¬ IsDemand 6 0x0040_0123) × (page_fault 6 0x0040_0123 one_table ≡ panicked (report 6)))
page_fault-Supplied_example =
    page_fault-Supplied 6 0x0040_0123 one_table one_table-IsPaged (omega arith)

-- Before paging: 40 frames, and nothing in memory.
abbrev unpaged : Machine
unpaged = record {
  vmm = record { ram = λ _. 0; pmm = half_used; directory = 0 };
  cr3 = 0;
  cr0 = 0x11;
  faults_handled = false;
}

init-Started_example : Started unpaged (init 41 unpaged)
init-Started_example =
    init-Started 41 unpaged half_used-IsValid refl (λ a. omega arith) (omega arith)

not_yet_mapped : lookup one_table 0x4000_0000 ≡ none
unfolding lookup
not_yet_mapped = refl

paging_test-PagingVerdict_example : PagingVerdict one_table (paging_test one_table)
paging_test-PagingVerdict_example =
    paging_test-PagingVerdict one_table one_table-IsPaged not_yet_mapped
