-- ===== src/Vmm.antt =====
-- The virtual memory manager, src/vmm.c: a page directory with page tables in physical memory.
-- The kernel reads and writes both at their physical addresses, since `vmm_init` maps RAM onto
-- itself; the translation cache that `invlpg` clears is not part of the state.
pub mod Walk
pub mod Frames
pub mod Map
pub mod Scratch
pub mod Init
pub mod Fault
use my_own_operating_system.Base.{
  ℕ, ◌+◌, ◌*◌, bit_and, bit_or, ◌&&◌, Option, none, some, ltb, leb, ◌==◌, if◌then◌else◌, update,
  ◌>>>◌,
}
use my_own_operating_system.Pmm
use my_own_operating_system.Pmm.{Pmm, block_size}

abbrev pub flag_present : ℕ
flag_present = 0x001

abbrev pub flag_write : ℕ
flag_write = 0x002

abbrev pub flag_user : ℕ
flag_user = 0x004

-- `Present | Write | User`, the flags of every mapping but the supervisor's.
abbrev pub flag_all : ℕ
flag_all = bit_or (bit_or flag_present flag_write) flag_user

-- Physical memory by the address of each 32-bit word, the frame allocator, and
-- `current_page_directory`.
pub record Vmm : Type 0 where
  pub ram : ℕ → ℕ
  pub pmm : Pmm
  pub directory : ℕ

-- `memset(frame, 0, PMM_BLOCK_SIZE)`, by words.
unfoldable pub clear_frame : ℕ → (ℕ → ℕ) → ℕ → ℕ
clear_frame frame ram a = if leb frame a && ltb a (frame + block_size) then 0 else ram a

abbrev pub pd_index : ℕ → ℕ
pd_index virt = virt >>> 22

abbrev pub pt_index : ℕ → ℕ
pt_index virt = bit_and (virt >>> 12) 0x3FF

-- The addresses of the entries of `virt` in a directory and in a table.
abbrev pub pde_address : ℕ → ℕ → ℕ
pde_address directory virt = directory + pd_index virt * 4

abbrev pub pte_address : ℕ → ℕ → ℕ
pte_address table virt = table + pt_index virt * 4

-- `pde & 0xFFFFF000`, the table of a present directory entry.
abbrev pub table_of : ℕ → ℕ
table_of pde = bit_and pde 0xFFFF_F000

-- The page table of `virt`, allocated where there is none; `none` is the halt on exhaustion.
unfoldable pub page_table : ℕ → Vmm → Option (ℕ × Vmm)
unfolding clear_frame
page_table virt v =
    let pde = v.ram (pde_address v.directory virt) in
    if bit_and pde flag_present == 0
    then (let (pt_phys, pmm') = Pmm.alloc_block v.pmm in
        if pt_phys == 0
        then none
        else some (
          pt_phys,
          record v {
            pmm = pmm';
            ram =
                update (clear_frame pt_phys v.ram) (pde_address v.directory virt)
                  (bit_or pt_phys flag_all);
          },
        ))
    else some (table_of pde, v)

-- The write of the table entry, once the table is known.
abbrev pub store_pte : ℕ → ℕ → Option (ℕ × Vmm) → Option Vmm
store_pte virt pte none = none
store_pte virt pte (some (table, w)) =
    some (record w { ram = update w.ram (pte_address table virt) pte })

-- `vmm_map_page`.
unfoldable pub map_page : ℕ → ℕ → ℕ → Vmm → Option Vmm
unfolding page_table
map_page phys virt flags v = store_pte virt (bit_or phys flags) (page_table virt v)

-- `vmm_unmap_page`.
unfoldable pub unmap_page : ℕ → Vmm → Vmm
unmap_page virt v =
    let pde = v.ram (pde_address v.directory virt) in
    if bit_and pde flag_present == 0
    then v
    else record v { ram = update v.ram (pte_address (table_of pde) virt) 0 }
