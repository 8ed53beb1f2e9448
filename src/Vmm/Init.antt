-- ===== src/Vmm/Init.antt =====
-- `vmm_init` of src/vmm.c: the first page directory, the identity map, and paging turned on.
pub mod Identity
use my_own_operating_system.Base.{
  ℕ, zero, suc, bit_or, Bool, true, Option, none, some, ltb, ◌==◌, if◌then◌else◌, add32, mul32,
}
use my_own_operating_system.Pmm.{block_size, alloc_block, get_total_blocks}
use my_own_operating_system.Vmm.{Vmm, map_page, clear_frame, flag_all}

-- What `vmm_init` changes: memory with the allocator and `current_page_directory`, the registers
-- CR3 and CR0, and whether `page_fault_handler` is registered for vector 14.
pub record Machine : Type 0 where
  pub vmm : Vmm
  pub cr3 : ℕ
  pub cr0 : ℕ
  pub faults_handled : Bool

-- How the loop over all frames goes: it halts for want of a frame, runs out of fuel, or ends.
pub data Mapping : Type 0 where
  halted : Mapping
  endless : Mapping
  finished : Vmm → Mapping

abbrev pub map_next : (Vmm → Mapping) → Option Vmm → Mapping
map_next rest none = halted
map_next rest (some v) = rest v

-- The loop that maps each frame below `total_ram` to itself, from `addr` on.
unfoldable pub map_all : ℕ → ℕ → ℕ → Vmm → Mapping
unfolding map_page
map_all zero addr total_ram v = endless
map_all (suc fuel) addr total_ram v =
    let rest = λ (w : Vmm). map_all fuel (add32 addr block_size) total_ram w in
    if ltb addr total_ram then map_next rest (map_page addr addr flag_all v) else finished v

-- `write_cr3` and the PG bit of CR0, once the map is made.
abbrev pub enable_paging : Machine → Mapping → Option Machine
enable_paging c halted = none
enable_paging c endless = none
enable_paging c (finished v) =
    some (record c { vmm = v; cr3 = v.directory; cr0 = bit_or c.cr0 0x8000_0000 })

-- `vmm_init`; `none` is a halt, or too little fuel.
unfoldable pub init : ℕ → Machine → Option Machine
unfolding map_all clear_frame alloc_block get_total_blocks
init fuel c =
    let registered = record c { faults_handled = true } in
    let (directory, pmm') = alloc_block c.vmm.pmm in
    if directory == 0
    then none
    else let empty = record (c.vmm) {
      ram = clear_frame directory c.vmm.ram;
      pmm = pmm';
      directory = directory;
    } in
      enable_paging registered (map_all fuel 0 (mul32 (get_total_blocks pmm') block_size) empty)
