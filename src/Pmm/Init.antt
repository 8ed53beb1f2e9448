-- ===== src/Pmm/Init.antt =====
-- `pmm_init` of src/pmm.c: the walks over the Multiboot memory map and the reserved zones.
pub mod Map
pub mod Reserve
pub mod Total
use my_own_operating_system.Base.{
  ℕ, zero, suc, ◌+◌, ◌*◌, ◌/◌, ◌%◌, ◌^◌, bit_and, Option, none, some, ltb, ◌==◌, if◌then◌else◌, u32,
  add32, sub32,
}
use my_own_operating_system.Base.Memory.{Memory, read_u32, read_u64}
use my_own_operating_system.Pmm.{Pmm, block_size, free_region, reserve_region}

-- The fields of `multiboot_info_t` that the kernel reads, at their offsets.
abbrev pub mbi_flags : Memory → ℕ → ℕ
mbi_flags m mbi = read_u32 m mbi

abbrev pub mbi_mods_count : Memory → ℕ → ℕ
mbi_mods_count m mbi = read_u32 m (mbi + 20)

abbrev pub mbi_mods_addr : Memory → ℕ → ℕ
mbi_mods_addr m mbi = read_u32 m (mbi + 24)

abbrev pub mbi_mmap_length : Memory → ℕ → ℕ
mbi_mmap_length m mbi = read_u32 m (mbi + 44)

abbrev pub mbi_mmap_addr : Memory → ℕ → ℕ
mbi_mmap_addr m mbi = read_u32 m (mbi + 48)

-- The fields of a memory map entry.
abbrev pub entry_size : Memory → ℕ → ℕ
entry_size m e = read_u32 m e

abbrev pub entry_addr : Memory → ℕ → ℕ
entry_addr m e = read_u64 m (e + 4)

abbrev pub entry_len : Memory → ℕ → ℕ
entry_len m e = read_u64 m (e + 12)

abbrev pub entry_type : Memory → ℕ → ℕ
entry_type m e = read_u32 m (e + 20)

-- The next entry lies `size + 4` bytes further.
abbrev pub next_entry : Memory → ℕ → ℕ
next_entry m e = add32 (add32 e (entry_size m e)) 4

-- The largest end of a usable region so far, after the entry `e`.
unfoldable pub raise_max : Memory → ℕ → ℕ → ℕ
raise_max m e max_addr =
    let entry_end = (entry_addr m e + entry_len m e) % 2 ^ 64 in
    if entry_type m e == 1
    then (if ltb max_addr entry_end then entry_end else max_addr)
    else max_addr

-- The first walk; `none` means that the fuel ran out.
unfoldable pub detect_loop : Memory → ℕ → ℕ → ℕ → ℕ → Option ℕ
unfolding raise_max
detect_loop m mmap_end zero e max_addr = none
detect_loop m mmap_end (suc fuel) e max_addr =
    let rest = detect_loop m mmap_end fuel (next_entry m e) (raise_max m e max_addr) in
    if ltb e mmap_end then rest else some max_addr

-- A usable entry is freed with its address and length cut to 32 bits.
unfoldable pub free_entry : Memory → ℕ → Pmm → Pmm
unfolding free_region
free_entry m e s =
    if entry_type m e == 1 then free_region (u32 (entry_addr m e)) (u32 (entry_len m e)) s else s

-- The second walk.
unfoldable pub free_entries : Memory → ℕ → ℕ → ℕ → Pmm → Option Pmm
unfolding free_entry
free_entries m mmap_end zero e s = none
free_entries m mmap_end (suc fuel) e s =
    let rest = free_entries m mmap_end fuel (next_entry m e) (free_entry m e s) in
    if ltb e mmap_end then rest else some s

-- The loop over the boot modules, at module `i` of the list at `mods`.
unfoldable pub reserve_modules : Memory → ℕ → ℕ → ℕ → Pmm → Pmm
unfolding reserve_region
reserve_modules m mods i zero s = s
reserve_modules m mods i (suc left) s =
    let mod_start = read_u32 m (mods + i * 16) in
    let mod_end = read_u32 m (mods + i * 16 + 4) in
    reserve_modules m mods (i + 1) left (reserve_region mod_start (sub32 mod_end mod_start) s)

-- The tracked size: the largest end, cut to what 32 bits address.
unfoldable pub track : ℕ → Pmm → Pmm
track max_addr s =
    let ram = if ltb 0xFFFF_FFFF max_addr then 0xFFFF_FFFF else max_addr in
    record s { ram_size = ram; total_blocks = ram / block_size }

abbrev pub bitmap_size : Pmm → ℕ
bitmap_size s = (s.total_blocks + 31) / 32 * 4

-- `memset(pmm_bitmap, 0xFF, bitmap_size)`, by words, and every frame counted as used.
unfoldable pub fill : Pmm → Pmm
fill s = record s {
  bitmap = λ i. if ltb i (bitmap_size s / 4) then 0xFFFF_FFFF else s.bitmap i;
  used_blocks = s.total_blocks;
}

-- The zones that are never allocated: the first megabyte, the kernel image with the bitmap
-- behind it, and the boot modules if flag bit 3 announces them.
unfoldable pub reserve_zones : Memory → ℕ → ℕ → ℕ → Pmm → Pmm
unfolding reserve_region reserve_modules
reserve_zones m mbi kernel_start kernel_end s =
    let low = reserve_region 0 0x100000 s in
    let bitmap_end = add32 kernel_end (bitmap_size s) in
    let image = reserve_region kernel_start (sub32 bitmap_end kernel_start) low in
    if bit_and (mbi_flags m mbi) 8 == 0
    then image
    else reserve_modules m (mbi_mods_addr m mbi) 0 (mbi_mods_count m mbi) image

-- `pmm_init`. `kernel_start` and `kernel_end` are the linker's symbols, and the words of
-- `s.bitmap` are what memory holds at `_kernel_end` before.
unfoldable pub init : Memory → ℕ → ℕ → ℕ → ℕ → Pmm → Option Pmm
unfolding detect_loop free_entries track fill reserve_zones
init m kernel_start kernel_end fuel mbi s =
    if mbi == 0
    then some s
    else if bit_and (mbi_flags m mbi) 0x40 == 0
    then some s
    else let mmap = mbi_mmap_addr m mbi in
      let mmap_end = add32 mmap (mbi_mmap_length m mbi) in
      elim (detect_loop m mmap_end fuel mmap 0) [
        | none ↦ none
        | some max_addr ↦ elim (free_entries m mmap_end fuel mmap (fill (track max_addr s))) [
          | none ↦ none
          | some t ↦ some (reserve_zones m mbi kernel_start kernel_end t)
        ]
      ]
