-- ===== src/Examples/Boot.antt =====
-- A Multiboot information block, as GRUB leaves it, on which `pmm_init` of src/pmm.c is run.
use my_own_operating_system.Base.{
  ◌*◌, ◌/◌, ◌^◌, ◌≤◌, bit_and, ◌≡◌, refl, ◌≢◌, ◌↔◌, false, ◌||◌, some, arith, ◌==◌, if◌then◌else◌,
}
use my_own_operating_system.Base.Memory.{Memory, read_u8, read_u16, read_u32, read_u64}
use my_own_operating_system.Pmm.{Pmm, alloc_block}
use my_own_operating_system.Pmm.Alloc.{Full}
use my_own_operating_system.Boot.Initrd.{initrd_of, AllApart, allocations, alloc_block-initrd}
use my_own_operating_system.Pmm.Init.{init, detect_loop, mbi_flags, mbi_mmap_addr}
use my_own_operating_system.Vmm.Init.{Machine}
use my_own_operating_system.Boot.Order.{probe_reads, boot}
use my_own_operating_system.Boot.Order.Booted.{AllBelow, Booted, boot-Booted}
use my_own_operating_system.Pmm.Init.Map.{IsMap, past, entry}
use my_own_operating_system.Pmm.Init.Total.{alloc_block-ready, mmap_end_of}

-- The block stands at 0x500 and its map at 0x600: one entry, 2 MB of RAM from 0 on. The list of
-- modules at 0x700 names one, [0x140000, 0x142000).
abbrev boot_memory : Memory
boot_memory a =
    if a == 0x500
    then 0x48
    else if a == 0x514
    then 1
    else if a == 0x519
    then 7
    else if (a == 0x702) || (a == 0x706)
    then 0x14
    else if a == 0x705
    then 0x20
    else if a == 0x52C
    then 24
    else if a == 0x531
    then 0x06
    else if a == 0x600
    then 20
    else if a == 0x60E
    then 0x20
    else if a == 0x614
    then 1
    else 0

abbrev nothing_yet : Pmm
nothing_yet = record { bitmap = λ _. 0; ram_size = 0; total_blocks = 0; used_blocks = 0 }

map_end : mmap_end_of boot_memory 0x500 ≡ 0x618
unfolding read_u32 read_u16 read_u8
map_end = refl

has_map : bit_and (mbi_flags boot_memory 0x500) 0x40 ≡ 0x40
unfolding read_u32 read_u16 read_u8
has_map = refl

map_at : mbi_mmap_addr boot_memory 0x500 ≡ 0x600
unfolding read_u32 read_u16 read_u8
map_at = refl

boot_memory-IsMap :
    IsMap boot_memory (mmap_end_of boot_memory 0x500) (mbi_mmap_addr boot_memory 0x500)
unfolding read_u64 read_u32 read_u16 read_u8
boot_memory-IsMap =
    entry (omega arith) (omega arith) (λ type. (refl, omega arith)) (past (omega arith))

alloc_block-ready_example :
    (t : Pmm) × (init boot_memory 0x100000 0x110000 100 0x500 nothing_yet ≡ some t)
    × ((((alloc_block t).0 ≡ 0) ↔ Full t t.total_blocks)
        × ((alloc_block t).0 ≢ 0 → 0x100000 ≤ (alloc_block t).0))
alloc_block-ready_example =
    alloc_block-ready boot_memory 0x100000 0x110000 0x500 100 nothing_yet
      (λ z. absurd (omega (arith, z))) (λ z. absurd (omega (arith, has_map, z))) (omega arith)
      (omega arith) (λ i. omega arith) boot_memory-IsMap (omega (arith, map_end, map_at))
      (omega arith)

initrd_found : initrd_of boot_memory 0x500 ≡ (0x140000, 0x142000)
unfolding initrd_of read_u32 read_u16 read_u8
initrd_found = refl

alloc_block-initrd_example :
    (t : Pmm) × (init boot_memory 0x100000 0x110000 100 0x500 nothing_yet ≡ some t)
    × AllApart 0x140000 0x142000 (allocations 5 t)
alloc_block-initrd_example =
    alloc_block-initrd boot_memory 0x500 0x100000 0x110000 100 5 nothing_yet 0x140000 0x142000
      (λ z. absurd (omega (arith, z))) (λ z. absurd (omega (arith, has_map, z))) (omega arith)
      (omega arith) (λ i. omega arith) boot_memory-IsMap (omega (arith, map_end, map_at))
      (omega arith) initrd_found refl (omega arith) (omega arith)

-- The probe reads the structure, the list of modules and the first byte of the module.
reads_in_ram : AllBelow (0x20_0000 / 4096 * 4096) (probe_reads boot_memory 0x500)
unfolding read_u32 read_u16 read_u8
reads_in_ram = (omega arith, (omega arith, (omega arith, (omega arith, (omega arith, tt)))))

ram_end :
    detect_loop boot_memory (mmap_end_of boot_memory 0x500) 100 (mbi_mmap_addr boot_memory 0x500) 0
    ≡ some 0x20_0000
unfolding detect_loop read_u64 read_u32 read_u16 read_u8
ram_end = refl

-- The machine at the start: nothing in memory, and paging off.
abbrev at_start : Machine
at_start = record {
  vmm = record { ram = λ _. 0; pmm = nothing_yet; directory = 0 };
  cr3 = 0;
  cr0 = 0x11;
  faults_handled = false;
}

boot-Booted_example :
    (s : Pmm) × (init boot_memory 0x100000 0x110000 100 0x500 nothing_yet ≡ some s)
    × (s.total_blocks ≡ 512)
    × Booted s (boot boot_memory 0x100000 0x110000 100 (2 ^ 20) 0x2BAD_B002 0x500 at_start)
boot-Booted_example =
    boot-Booted boot_memory 0x100000 0x110000 0x500 100 (2 ^ 20) 0x20_0000 at_start
      (λ z. absurd (omega (arith, z))) (λ z. absurd (omega (arith, has_map, z))) (omega arith)
      (omega arith) (λ i. omega arith) (λ a. omega arith) boot_memory-IsMap
      (omega (arith, map_end, map_at)) (omega arith) (omega arith) ram_end (omega arith)
      (omega arith) reads_in_ram
