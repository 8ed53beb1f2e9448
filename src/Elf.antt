-- ===== src/Elf.antt =====
-- Loading a program, src/elf.c with the structures of src/elf.h: the checks of the header, the loop
-- over the program headers with the pages of each segment, and the clean-up of a failed load.
-- The file is read through src/vfs.c, whose function pointers are those of a driver.
pub mod Header
pub mod Copy
pub mod Page
pub mod Segment
pub mod Restore
pub mod Disk
pub mod Refuse
pub mod Cleanup
use my_own_operating_system.Base.{
  ℕ, zero, suc, ◌+◌, ◌-◌, ◌*◌, ◌/◌, ◌%◌, ◌^◌, Bool, true, false, ◌&&◌, Option, none, some, List, [],
  ◌∷◌, ◌++◌, ltb, leb, ◌==◌, if◌then◌else◌, length, add32, mul32,
}
use my_own_operating_system.Base.Memory.{Memory}
use my_own_operating_system.Pmm.{Pmm, block_size, alloc_block, free_block}
use my_own_operating_system.Vmm.{Vmm, map_page, clear_frame, flag_all, table_of}
use my_own_operating_system.Vmm.Walk.{lookup}
use my_own_operating_system.Vfs.{Driver, read_fs, find_node_by_path}
use my_own_operating_system.Elf.Header.{
  ehdr_size, e_magic, e_class, e_type, e_machine, e_entry, e_phoff, e_phentsize, e_phnum, phdr_size,
  p_type, p_offset, p_vaddr, p_filesz, p_memsz, elf_magic, pt_load,
}

-- The state of the loader: the paging state with the allocator, CR3, the interrupt flag, and what
-- the file system keeps.
pub record Loader (Files : Type 0) : Type 0 where
  pub vmm : Vmm
  pub cr3 : ℕ
  pub interrupts : Bool
  pub files : Files

-- The byte of memory at a virtual address, through the active directory. The loader reads only its
-- own stack, which is mapped; an address without a translation counts as 0.
abbrev pub byte_of : Vmm → ℕ → Option ℕ → ℕ
byte_of v a none = 0
byte_of v a (some pte) =
    let phys = table_of pte + a % block_size in
    v.ram (phys - phys % 4) / 2 ^ (8 * (phys % 4)) % 2 ^ 8

unfoldable pub byte_at : Vmm → Memory
unfolding lookup
byte_at v a = byte_of v a (lookup v a)

abbrev pub max_segment_blocks : ℕ
max_segment_blocks = 64

-- `memset((void *)vaddr, 0, PMM_BLOCK_SIZE)`, through the active directory.
abbrev pub clear_by : ℕ → Vmm → Option ℕ → Vmm
clear_by vaddr v none = v
clear_by vaddr v (some pte) = record v { ram = clear_frame (table_of pte) v.ram }

unfoldable pub clear_page : ℕ → Vmm → Vmm
unfolding clear_frame
clear_page vaddr v = clear_by vaddr v (lookup v vaddr)

-- The frame in `seg_blocks`, while there is room.
abbrev pub track : ℕ → List ℕ → List ℕ
track phys blocks = if ltb (length blocks) max_segment_blocks then blocks ++ (phys ∷ []) else blocks

-- Where the loop over the pages of a segment ends: with all pages mapped, for want of a frame for a
-- page, at the halt of `vmm_map_page`, or not within the rounds it was given.
pub data Pages : Type 0 where
  filled : List ℕ → Vmm → Pages
  exhausted : List ℕ → Vmm → Pages
  halted : Pages
  unfinished : Pages

abbrev pub fill_next : ℕ → (Vmm → Pages) → Option Vmm → Pages
fill_next vaddr go none = halted
fill_next vaddr go (some v) = go (clear_page vaddr v)

-- The round for a page, with the frame that was allocated for it.
abbrev pub fill_page : ℕ → List ℕ → ℕ × Pmm → Vmm → (List ℕ → Vmm → Pages) → Pages
fill_page vaddr blocks (phys, pmm') v go =
    let w = record v { pmm = pmm' } in
    if phys == 0
    then exhausted blocks w
    else fill_next vaddr (go (track phys blocks)) (map_page phys vaddr flag_all w)

unfoldable pub map_pages : ℕ → ℕ → ℕ → List ℕ → Vmm → Pages
unfolding clear_page
map_pages zero vaddr stop blocks v = unfinished
map_pages (suc fuel) vaddr stop blocks v =
    let go : List ℕ → Vmm → Pages = λ bs w. map_pages fuel (add32 vaddr block_size) stop bs w in
    if ltb vaddr stop then fill_page vaddr blocks (alloc_block v.pmm) v go else filled blocks v

-- Where the loop over the program headers ends: all loaded, or at `cleanup`.
pub data Loaded (Files : Type 0) : Type 0 where
  complete : List ℕ → Loader Files → Loaded Files
  failed : List ℕ → Loader Files → Loaded Files
  stopped : Loaded Files
  endless : Loaded Files

-- What `elf_load` returns, with `*out_entry` and `*out_pd` for 0 and `none` for -1.
pub data Result (Files : Type 0) : Type 0 where
  returned : Option (ℕ × ℕ) → Loader Files → Result Files
  no_return : Result Files

abbrev pub free_all : List ℕ → Pmm → Pmm
free_all [] s = s
free_all (b ∷ bs) s = free_all bs (free_block b s)

-- `memcpy(proc_pd, current_page_directory, PMM_BLOCK_SIZE)`, by words.
abbrev pub copy_directory : ℕ → ℕ → (ℕ → ℕ) → ℕ → ℕ
copy_directory to from ram a =
    if leb to a && ltb a (to + block_size) then ram (from + (a - to)) else ram a

-- The checks of the header that was read to `ehdr`.
abbrev pub is_executable : Memory → ℕ → Bool
is_executable m ehdr =
    (e_magic m ehdr == elf_magic)
    && ((e_class m ehdr == 1) && ((e_machine m ehdr == 3) && (e_type m ehdr == 2)))

module _ {Files : Type 0} where
  -- `current_page_directory = pd` and the write of CR3.
  abbrev pub switch_directory : ℕ → Loader Files → Loader Files
  switch_directory pd w = record w { vmm = record (w.vmm) { directory = pd }; cr3 = pd }

  -- Lines 134 to 136: back to the kernel's directory, with interrupts on.
  abbrev pub switch_back : ℕ → Loader Files → Loader Files
  switch_back old w = record (switch_directory old w) { interrupts = true }

  -- Success, or the clean-up.
  abbrev pub finish : ℕ → ℕ → Loaded Files → Result Files
  finish entry proc_pd (complete blocks w) = returned (some (entry, proc_pd)) w
  finish entry proc_pd (failed blocks w) =
      returned none
        (record w { vmm = record (w.vmm) { pmm = free_block proc_pd (free_all blocks w.vmm.pmm) } })
  finish entry proc_pd stopped = no_return
  finish entry proc_pd endless = no_return

module _ {Files Ref Fn : Type 0} (d : Driver (Loader Files) Ref Fn) where
  -- What follows the loop over the pages.
  abbrev pub after_pages :
      Option Ref
      → ℕ
      → ℕ
      → ℕ
      → ℕ
      → Loader Files
      → Pages
      → (List ℕ → Loader Files → Loaded Files)
      → Loaded Files
  after_pages file old offset filesz vaddr w (filled blocks v) go =
      go blocks (switch_back old (read_fs d file offset filesz vaddr (record w { vmm = v })).1)
  after_pages file old offset filesz vaddr w (exhausted blocks v) go =
      failed blocks (switch_back old (record w { vmm = v }))
  after_pages file old offset filesz vaddr w halted go = stopped
  after_pages file old offset filesz vaddr w unfinished go = endless

  -- A segment of type PT_LOAD, with its program header at `p`.
  unfoldable pub load_segment :
      ℕ
      → Option Ref
      → ℕ
      → ℕ
      → List ℕ
      → Loader Files
      → (List ℕ → Loader Files → Loaded Files)
      → Loaded Files
  load_segment fuel file proc_pd p blocks w go =
      let m = byte_at w.vmm in
      let start = p_vaddr m p in
      let end = add32 start (p_memsz m p) in
      let first = start - start % block_size in
      let stop = add32 end 4095 - add32 end 4095 % block_size in
      let active = switch_directory proc_pd (record w { interrupts = false }) in
      after_pages file w.vmm.directory (p_offset m p) (p_filesz m p) start active
        (map_pages fuel first stop blocks active.vmm) go

  -- The round of one program header, once it was read.
  abbrev pub load_header :
      ℕ
      → Option Ref
      → ℕ
      → ℕ
      → List ℕ
      → ℕ × Loader Files
      → (List ℕ → Loader Files → Loaded Files)
      → Loaded Files
  load_header fuel file proc_pd p blocks (count, w) go =
      if ltb count phdr_size
      then failed blocks w
      else if p_type (byte_at w.vmm) p == pt_load
      then load_segment fuel file proc_pd p blocks w go
      else go blocks w

  -- The loop over the program headers from index `i` on, with `left` to go; the struct `phdr` stands
  -- at `p`.
  unfoldable pub load_headers :
      ℕ → Option Ref → ℕ → ℕ → ℕ → ℕ → ℕ → ℕ → List ℕ → Loader Files → Loaded Files
  unfolding load_segment
  load_headers fuel file proc_pd phoff entsize p i zero blocks w = complete blocks w
  load_headers fuel file proc_pd phoff entsize p i (suc left) blocks w =
      let go : List ℕ → Loader Files → Loaded Files =
        λ bs w'. load_headers fuel file proc_pd phoff entsize p (i + 1) left bs w' in
      load_header fuel file proc_pd p blocks
        (read_fs d file (add32 phoff (mul32 i entsize)) phdr_size p w) go

  -- The rest of `elf_load` with the page directory that was allocated.
  unfoldable pub load_in : ℕ → Option Ref → ℕ → ℕ → ℕ × Pmm → Loader Files → Result Files
  unfolding load_headers
  load_in fuel file ehdr p (proc_pd, pmm') w =
      let m = byte_at w.vmm in
      let copied = record w {
        vmm = record (w.vmm) { pmm = pmm'; ram = copy_directory proc_pd w.vmm.directory w.vmm.ram };
      } in
      if proc_pd == 0
      then returned none (record w { vmm = record (w.vmm) { pmm = pmm' } })
      else finish (e_entry m ehdr) proc_pd (
          load_headers fuel file proc_pd (e_phoff m ehdr) (e_phentsize m ehdr) p 0 (e_phnum m ehdr)
            [] copied)

  abbrev pub load_checked : ℕ → Option Ref → ℕ → ℕ → ℕ × Loader Files → Result Files
  load_checked fuel file ehdr p (count, w) =
      if ltb count ehdr_size
      then returned none w
      else if is_executable (byte_at w.vmm) ehdr
      then load_in fuel file ehdr p (alloc_block w.vmm.pmm) w
      else returned none w

  abbrev pub load_file : ℕ → Option Ref → ℕ → ℕ → Loader Files → Result Files
  load_file fuel none ehdr p w = returned none w
  load_file fuel (some file) ehdr p w =
      load_checked fuel (some file) ehdr p (read_fs d (some file) 0 ehdr_size ehdr w)

  -- `elf_load`, with the addresses of the locals `ehdr` and `phdr`.
  unfoldable pub elf_load : ℕ → List ℕ → ℕ → ℕ → Loader Files → Result Files
  unfolding load_in
  elf_load fuel path ehdr p w = load_file fuel (find_node_by_path d path w) ehdr p w
