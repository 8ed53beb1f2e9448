-- ===== src/Lib.antt =====
-- A verification library for the operating system kernel under src/: memory management, tasks,
-- interrupts, system calls, the timer, the terminal, files and programs, translated from C to
-- functions.
--
-- The parts and how they interact. src/pmm.c hands out 4 KB frames from a bitmap that it sets up
-- from the Multiboot memory map. src/vmm.c builds page tables in those frames. src/task.c keeps
-- a table of tasks linked into a list, gives each a kernel stack in a frame that it maps, and
-- switches between them through src/switch.s. src/gdt.c and src/idt.c fill the processor's
-- tables; through them src/timer.c preempts the running task, src/syscall.c serves user
-- programs, and the fault handler of src/vmm.c supplies pages. All of them print on the terminal
-- of src/kernel.c.
--
-- Which file models which part:
-- - Base: the names that all files share, Boolean tests, 32-bit words with their wrap-around
--   (Base/Word), bits of a word (Base/Bits) and bytes in memory (Base/Memory).
-- - Pmm: the state of src/pmm.c as the record Pmm, with a function per C function under the same
--   name less its prefix `pmm_`. Pmm/Bitmap, Pmm/Count and Pmm/Block hold the invariant,
--   Pmm/Region and Pmm/Alloc what the operations do frame by frame, and Pmm/Laws what callers
--   rely on. Pmm/Spec is the allocator that it promises to be, a set of frames in use,
--   Pmm/Refine shows that it is that, and Pmm/Spent counts what a caller takes. Pmm/Init is
--   `pmm_init`; Pmm/Init/Map, Pmm/Init/Reserve and Pmm/Init/Total are its proofs.
-- - Vmm: memory by words, the allocator and `current_page_directory`, with `vmm_map_page` and
--   `vmm_unmap_page`. Vmm/Walk is the page walk that x86 specifies, Vmm/Frames the invariant of
--   the paging structures, Vmm/Map (with Vmm/Map/Table) the proofs, and Vmm/Scratch what a write
--   to another frame leaves alone. Vmm/Map/Kept and Vmm/Map/Cost are about the frames it takes.
--   Vmm/Init is `vmm_init` with its proof in Vmm/Init/Identity, and Vmm/Fault is
--   `page_fault_handler`.
-- - Task: the statics of src/task.c with the registers they use, `scheduler_init`, `schedule`,
--   `switch_task`, `task_yield` and `task_exit`. Task/Chain is the list, Task/Ring the search,
--   Task/Schedule and Task/Round one call of the scheduler, and Task/Fair many. Task/Bootstrap
--   is how a new task starts, with its user stack in Task/Bootstrap/Stack. Task/Create is
--   `task_create`, with the slot, the stack, the link and the whole in the modules below it.
-- - Terminal: the terminal of src/kernel.c. Terminal/Cells and Terminal/Scroll are about cells
--   and the cursor, and Terminal/Numbers about the digits of numbers.
-- - Gdt and Idt: src/gdt.c and src/idt.c. Gdt/Decode and Idt/Gates read the tables as the
--   processor does, and Idt/Panic is the number on the panic screen.
-- - Syscall and Timer: src/syscall.c and src/timer.c, with what a call and a tick come to in
--   Syscall/Laws and Timer/Tick.
-- - Boot: the self-test of the frame allocator in `kernel_main` of src/kernel.c, with its proof
--   in Boot/Passes and Boot/Restored; Boot/Paging is the tests of the paging code behind it, and
--   the supervisor's page, with their proofs in Boot/Paging/Own, Boot/Paging/Cases and
--   Boot/Paging/Tested; Boot/Initrd is the RAM disk that is looked up in the Multiboot structure
--   and mounted. Boot/Order puts the parts up to the supervisor's page together, and
--   Boot/Order/Booted is where they lead.
-- - User: the program of src/user_mode.c and the entry to it; User/Program is about its run.
-- - Vfs: the nodes of src/vfs.h, the calls through their function pointers and
--   `find_node_by_path` of src/vfs.c, over a driver: a record of what the pointers lead to.
--   Vfs/Path is about paths.
-- - Tar: the numbers of a header and the reading of a file in src/tar.c, with `memcpy` of
--   src/string.c, and their proofs in Tar/Octal and Tar/Read. Tar/Names is the search for a name
--   in a directory, with `strcmp` and `strncmp`, and Tar/Names/Child and Tar/Names/Find are
--   about it; Tar/Listing is `tar_readdir`, and Tar/Listing/Found is about it. Tar/Disk holds
--   the statics of src/tar.c and the driver that they are; Tar/Init is `tar_init`, with `strlen`
--   and `strcpy`, Tar/Init/Node is the node that an entry is to have, Tar/Init/Archive is about
--   an archive in order and Tar/Init/Endless about one that is not, and Tar/Disk/Lookup follows
--   a file from the archive to its reader.
-- - Elf: `elf_load` of src/elf.c, over a driver of src/vfs.c whose state holds the paging state.
--   Elf/Header reads the structures of src/elf.h, Elf/Page and Elf/Segment are about the pages
--   of a segment, Elf/Copy about the program's page directory, Elf/Restore, Elf/Refuse and
--   Elf/Cleanup about the ways out, and Elf/Disk is the driver of src/tar.c in memory under
--   paging.
-- - Examples: concrete states, and the theorems applied to them.
--
-- State is passed explicitly. A pointer to a task is its index in `task_table`, and NULL is
-- `none`. Where the code halts the processor or would not return, the model returns `none` or
-- `stuck`.
--
-- A pointer to a handler is the name of the function, and the addresses that the linker or the
-- assembler gives are arguments.
--
-- Fuel. The walks of `pmm_init` take fuel above the length of the memory map, because each entry
-- leads at least four bytes forward. The search of `schedule` and the walk of `task_create` take
-- fuel above the length of the task list. The loop of `vmm_init` takes fuel above the number of
-- frames, the loop of `elf_load` over pages fuel above their number, the walk of `tar_init` fuel
-- above the number of entries, and a decimal number of 32 bits takes eleven rounds. The lookup
-- of a path takes as many rounds as it has characters. The theorems on these state that this is
-- enough.
--
-- Not modelled: the TLB (each change of an entry is followed by `invlpg`), the register values
-- that `switch_task` saves on a stack, most of the text the kernel prints, the assembly stubs,
-- and the parts of the kernel that no file above names: the end of `kernel_main` behind the
-- mount, which creates the first tasks, and the two tasks of src/kernel.c that only print. A
-- name in an archive that no zero ends within 128 characters is the outcome `overrun`, since
-- `strcpy` would write past its node. `elf_load` reads and writes page tables at their physical
-- addresses, as if the identity map still covered them. `task_yield` sets the interrupt flag
-- when the processor goes on behind a call of `schedule`, whichever task that is. Up to the
-- supervisor's page the interrupt flag is no part of the state of the boot sequence, and the
-- Multiboot structures are read from a memory of their own, as if no page table was put over
-- them.
pub mod Base
pub mod Pmm
pub mod Vfs
pub mod Elf
pub mod Vmm
pub mod Task
pub mod Terminal
pub mod Gdt
pub mod Idt
pub mod Syscall
pub mod Timer
pub mod Tar
pub mod User
pub mod Boot
pub mod Examples
