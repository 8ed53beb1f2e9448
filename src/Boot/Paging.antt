-- ===== src/Boot/Paging.antt =====
-- The tests of the paging code that `kernel_main` of src/kernel.c runs at boot, and the page that
-- only the supervisor may use.
pub mod Own
pub mod Cases
pub mod Tested
use my_own_operating_system.Base.{
  ℕ, ◌+◌, ◌%◌, bit_or, Bool, false, Option, none, some, ◌==◌, if◌then◌else◌, update,
}
use my_own_operating_system.Pmm.{Pmm, block_size, alloc_block, free_block}
use my_own_operating_system.Vmm.{
  Vmm, flag_present, flag_write, flag_all, table_of, map_page, unmap_page,
}
use my_own_operating_system.Vmm.Walk.{lookup}
use my_own_operating_system.Vmm.Fault.{Fault, resumed, out_of_memory, panicked, page_fault}

-- How the tests end: each of the failures halts the kernel.
pub data Paging : Type 0 where
  tested : Vmm → Paging
  no_frame : Paging
  mismatch : Paging
  stopped : Paging

-- A word written to and read from a virtual address by the kernel; `none` is a fault from which
-- the handler does not return.
abbrev pub store_by : ℕ → ℕ → Vmm → Option ℕ → Option Vmm
store_by virt value v none = none
store_by virt value v (some pte) =
    some (record v { ram = update v.ram (table_of pte + virt % block_size) value })

abbrev pub after_fault : ℕ → ℕ → Fault → Option Vmm
after_fault virt value (resumed w) = store_by virt value w (lookup w virt)
after_fault virt value out_of_memory = none
after_fault virt value (panicked r) = none

abbrev pub write_by : ℕ → ℕ → Vmm → Option ℕ → Option Vmm
write_by virt value v none = after_fault virt value (page_fault 2 virt v)
write_by virt value v (some pte) = store_by virt value v (some pte)

unfoldable pub write_word : ℕ → ℕ → Vmm → Option Vmm
write_word virt value v = write_by virt value v (lookup v virt)

abbrev pub word_by : ℕ → Vmm → Option ℕ → Option ℕ
word_by virt v none = none
word_by virt v (some pte) = some (v.ram (table_of pte + virt % block_size))

unfoldable pub read_word : ℕ → Vmm → Option ℕ
read_word virt v = word_by virt v (lookup v virt)

abbrev pub holds : ℕ → Option ℕ → Bool
holds value none = false
holds value (some n) = n == value

-- Test A: a page at 0xA0000000.
abbrev pub mapped_written : ℕ → (Vmm → Paging) → Option Vmm → Paging
mapped_written phys next none = stopped
mapped_written phys next (some v) =
    if holds 0xCAFE_BABE (read_word 0xA000_0000 v)
    then (let w = unmap_page 0xA000_0000 v in next (record w { pmm = free_block phys w.pmm }))
    else mismatch

abbrev pub mapped_then : ℕ → (Vmm → Paging) → Option Vmm → Paging
mapped_then phys next none = stopped
mapped_then phys next (some v) = mapped_written phys next (write_word 0xA000_0000 0xCAFE_BABE v)

abbrev pub mapping_in : ℕ × Pmm → Vmm → (Vmm → Paging) → Paging
mapping_in (phys, pmm') v next =
    if phys == 0
    then no_frame
    else mapped_then phys next (map_page phys 0xA000_0000 flag_all (record v { pmm = pmm' }))

unfoldable pub mapping_test : Vmm → (Vmm → Paging) → Paging
unfolding write_word read_word
mapping_test v next = mapping_in (alloc_block v.pmm) v next

-- Test B: a page at 0x40000000, which the fault handler supplies.
abbrev pub demand_written : (Vmm → Paging) → Option Vmm → Paging
demand_written next none = stopped
demand_written next (some v) =
    if holds 0x1234_5678 (read_word 0x4000_0000 v)
    then next (unmap_page 0x4000_0000 v)
    else mismatch

unfoldable pub demand_test : Vmm → (Vmm → Paging) → Paging
unfolding write_word read_word
demand_test v next = demand_written next (write_word 0x4000_0000 0x1234_5678 v)

-- The page at 0xD0000000, without the user flag.
abbrev pub protected : Option Vmm → Paging
protected none = stopped
protected (some v) = tested v

abbrev pub protect_in : ℕ × Pmm → Vmm → Paging
protect_in (phys, pmm') v =
    if phys == 0
    then no_frame
    else protected
        (map_page phys 0xD000_0000 (bit_or flag_present flag_write) (record v { pmm = pmm' }))

unfoldable pub protect : Vmm → Paging
protect v = protect_in (alloc_block v.pmm) v

-- The three one after the other.
unfoldable pub paging_test : Vmm → Paging
unfolding mapping_test demand_test protect
paging_test v = mapping_test v (λ w. demand_test w protect)
