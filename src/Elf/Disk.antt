-- ===== src/Elf/Disk.antt =====
-- The driver of src/tar.c as `elf_load` of src/elf.c meets it: the bytes of a file are copied through
-- the active directory, where a page that is missing is supplied by the fault handler.
use my_own_operating_system.Base.{
  ℕ, zero, suc, ◌+◌, ◌-◌, ◌*◌, ◌/◌, ◌%◌, ◌^◌, bit_and, bit_or, ◌≡◌, refl, ◌∙◌, inl, inr, Option,
  none, some, leb, ◌==◌, if◌then◌else◌, Bool-cases, update, u32, add32,
}
use my_own_operating_system.Pmm.{block_size, alloc_block}
use my_own_operating_system.Vmm.{
  Vmm, flag_present, flag_all, table_of, pde_address, page_table, store_pte, map_page,
}
use my_own_operating_system.Vmm.Walk.{lookup}
use my_own_operating_system.Vmm.Fault.{
  Fault, resumed, out_of_memory, panicked, resume, demand, is_demand, page_fault,
}
use my_own_operating_system.Vfs.{Driver, Dirent}
use my_own_operating_system.Tar.{File, TarFn, read_size}
use my_own_operating_system.Tar.Disk.{Disk, TarRef, node_of, readdir, finddir}
use my_own_operating_system.Elf.{Loader, byte_at}
use my_own_operating_system.Elf.Restore.{IsQuiet}

-- The state behind a fault. Where the handler halts, the code does not go on, and the state stands
-- for no run.
abbrev pub behind_fault : Vmm → Fault → Vmm
behind_fault v (resumed w) = w
behind_fault v out_of_memory = v
behind_fault v (panicked r) = v

abbrev pub present_by : ℕ → ℕ → Vmm → Option ℕ → Vmm
present_by err virt v none = behind_fault v (page_fault err virt v)
present_by err virt v (some pte) = v

-- The page of `virt` is there, if need be by way of the fault handler.
unfoldable pub make_present : ℕ → ℕ → Vmm → Vmm
unfolding page_fault lookup
make_present err virt v = present_by err virt v (lookup v virt)

-- The byte at a physical address, in its word.
abbrev pub with_byte : ℕ → ℕ → ℕ → ℕ
with_byte word i value = word - word / 2 ^ (8 * i) % 2 ^ 8 * 2 ^ (8 * i) + value * 2 ^ (8 * i)

abbrev pub put_by : ℕ → ℕ → Vmm → Option ℕ → Vmm
put_by virt value v none = v
put_by virt value v (some pte) =
    let phys = table_of pte + virt % block_size in
    let word = phys - phys % 4 in
    record v { ram = update v.ram word (with_byte (v.ram word) (phys % 4) value) }

unfoldable pub put_byte : ℕ → ℕ → Vmm → Vmm
unfolding lookup
put_byte virt value v = put_by virt value v (lookup v virt)

-- The loop of `memcpy`, at byte `i`.
unfoldable pub copy_in : ℕ → ℕ → ℕ → ℕ → Vmm → Vmm
unfolding make_present put_byte byte_at
copy_in dest src i zero v = v
copy_in dest src i (suc left) v =
    let from = make_present 0 (u32 (src + i)) v in
    let to = make_present 2 (u32 (dest + i)) from in
    copy_in dest src (i + 1) left (put_byte (u32 (dest + i)) (byte_at from (u32 (src + i))) to)

-- `tar_read`.
abbrev pub read_in : File → ℕ → ℕ → ℕ → Loader Disk → ℕ × Loader Disk
read_in node offset size buffer w =
    let n = read_size node offset size in
    if leb node.length offset
    then (0, w)
    else (n, record w { vmm = copy_in buffer (add32 node.impl offset) 0 n w.vmm })

abbrev pub on_files : Option Dirent × Disk → Loader Disk → Option Dirent × Loader Disk
on_files (d, k) w = (d, record w { files = k })

abbrev pub disk_driver : Driver (Loader Disk) TarRef TarFn
disk_driver = record {
  node = λ w r. node_of w.files r;
  fs_root = λ w. w.files.fs_root;
  call_read = λ f r offset size buffer w. read_in (node_of w.files r) offset size buffer w;
  call_write = λ f r offset size buffer w. (0, w);
  call_open = λ f r w. w;
  call_close = λ f r w. w;
  call_readdir = λ f r index w. on_files (readdir w.files r index) w;
  call_finddir = λ f r name w. finddir w.files r name;
}

-- The directory of a state that may not be there.
abbrev Kept : ℕ → Option Vmm → Type 0
Kept d none = Unit
Kept d (some v) = v.directory ≡ d

abbrev KeptTable : ℕ → Option (ℕ × Vmm) → Type 0
KeptTable d none = Unit
KeptTable d (some (table, v)) = v.directory ≡ d

page_table-KeptTable : (virt : ℕ) (v : Vmm) → KeptTable v.directory (page_table virt v)
unfolding page_table
page_table-KeptTable virt v =
    elim (Bool-cases (bit_and (v.ram (pde_address v.directory virt)) flag_present == 0)) [
      | inr there ↦ rw there refl
      | inl missing ↦ rw missing (elim (Bool-cases ((alloc_block v.pmm).0 == 0)) [
        | inl null ↦ rw null tt
        | inr got ↦ rw got refl
      ])
    ]

store_pte-Kept :
    (virt pte d : ℕ) (r : Option (ℕ × Vmm)) → KeptTable d r → Kept d (store_pte virt pte r)
store_pte-Kept virt pte d none h = tt
store_pte-Kept virt pte d (some (table, v)) h = h

map_page-Kept : (phys virt flags : ℕ) (v : Vmm) → Kept v.directory (map_page phys virt flags v)
unfolding map_page
map_page-Kept phys virt flags v =
    store_pte-Kept virt (bit_or phys flags) v.directory (page_table virt v)
      (page_table-KeptTable virt v)

resume-Kept :
    (v : Vmm) (r : Option Vmm)
    → Kept v.directory r
    → (behind_fault v (resume r)).directory ≡ v.directory
resume-Kept v none h = refl
resume-Kept v (some w) h = h

page_fault-Kept :
    (err virt : ℕ) (v : Vmm) → (behind_fault v (page_fault err virt v)).directory ≡ v.directory
unfolding page_fault demand
page_fault-Kept err virt v = elim (Bool-cases (is_demand err virt)) [
  | inr no' ↦ rw no' refl
  | inl yes' ↦ rw yes' (elim (Bool-cases ((alloc_block v.pmm).0 == 0)) [
    | inl null ↦ rw null refl
    | inr got ↦ rw got (
        resume-Kept v _ (
          map_page-Kept (alloc_block v.pmm).0 (bit_and virt 0xFFFF_F000) flag_all
            (record v { pmm = (alloc_block v.pmm).1 })))
  ])
]

make_present-directory :
    (err virt : ℕ) (v : Vmm) → (make_present err virt v).directory ≡ v.directory
unfolding make_present
make_present-directory err virt v = go (lookup v virt)
  where
    go : (o : Option ℕ) → (present_by err virt v o).directory ≡ v.directory
    go none = page_fault-Kept err virt v
    go (some pte) = refl

put_byte-directory : (virt value : ℕ) (v : Vmm) → (put_byte virt value v).directory ≡ v.directory
unfolding put_byte
put_byte-directory virt value v = go (lookup v virt)
  where
    go : (o : Option ℕ) → (put_by virt value v o).directory ≡ v.directory
    go none = refl
    go (some pte) = refl

copy_in-directory : (dest src i n : ℕ) (v : Vmm) → (copy_in dest src i n v).directory ≡ v.directory
unfolding copy_in
copy_in-directory dest src i zero v = refl
copy_in-directory dest src i (suc left) v =
    let from = make_present 0 (u32 (src + i)) v in
    let to = make_present 2 (u32 (dest + i)) from in
    copy_in-directory dest src (i + 1) left
      (put_byte (u32 (dest + i)) (byte_at from (u32 (src + i))) to)
    ∙ put_byte-directory (u32 (dest + i)) (byte_at from (u32 (src + i))) to
    ∙ make_present-directory 2 (u32 (dest + i)) from
    ∙ make_present-directory 0 (u32 (src + i)) v

read_in-directory :
    (node : File) (offset size buffer : ℕ) (w : Loader Disk)
    → ((read_in node offset size buffer w).1.vmm.directory ≡ w.vmm.directory)
      × (((read_in node offset size buffer w).1.cr3 ≡ w.cr3)
          × ((read_in node offset size buffer w).1.interrupts ≡ w.interrupts))
read_in-directory node offset size buffer w = elim (Bool-cases (leb node.length offset)) [
  | inl past ↦ rw past (refl, (refl, refl))
  | inr inside ↦ rw inside (
    copy_in-directory buffer (add32 node.impl offset) 0 (read_size node offset size) w.vmm,
    (refl, refl),
  )
]

-- Reading from the disk is quiet, faults included.
pub disk_driver-IsQuiet : IsQuiet disk_driver
disk_driver-IsQuiet = record {
  current =
      λ f r offset size buffer w. (read_in-directory (node_of w.files r) offset size buffer w).0;
  register =
      λ f r offset size buffer w. (read_in-directory (node_of w.files r) offset size buffer w).1.0;
  flag =
      λ f r offset size buffer w. (read_in-directory (node_of w.files r) offset size buffer w).1.1;
}
