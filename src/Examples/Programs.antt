-- ===== src/Examples/Programs.antt =====
-- A program to load, on which src/elf.c is run.
use my_own_operating_system.Base.{
  ℕ, ◌+◌, ◌-◌, ◌*◌, ◌≡◌, refl, ◌↔◌, inr, true, ◌&&◌, ◌||◌, Option, none, some, List, [], ◌∷◌, arith,
  ltb, leb, ◌==◌, if◌then◌else◌,
}
use my_own_operating_system.Base.Memory.{Memory, read_u8, read_u32}
use my_own_operating_system.Vmm.{Vmm, map_page}
use my_own_operating_system.Vmm.Walk.{lookup}
use my_own_operating_system.Vmm.Map.{translation}
use my_own_operating_system.Vfs.{
  FsNode, Driver, fs_file, fs_directory, find_node_by_path, read_token, finddir_fs, read_fs,
}
use my_own_operating_system.Elf.{
  Loader, Result, no_return, load_in, load_headers, load_segment, clear_page, byte_at, returned,
  failed, finish, map_pages, elf_load, is_executable,
}
use my_own_operating_system.Elf.Segment.{Filling, map_pages-Filling}
use my_own_operating_system.Elf.Copy.{in_copy, under, map_page-shared}
use my_own_operating_system.Elf.Restore.{ResultRestored, elf_load-Restored}
use my_own_operating_system.Elf.Disk.{copy_in, disk_driver, disk_driver-IsQuiet}
use my_own_operating_system.Tar.{reads, read_size}
use my_own_operating_system.Tar.Names.{
  strcmp_zero, is_direct_child, name_length, match_name, is_match, tar_finddir,
}
use my_own_operating_system.Tar.Disk.{Disk, root, zero_node, finddir}
use my_own_operating_system.Tar.Init.{root_node}
use my_own_operating_system.Elf.Refuse.{
  IsExecutable, NotLoadable, header_read, is_executable-IsExecutable, elf_load-refused,
}
use my_own_operating_system.Elf.Cleanup.{addresses, Freed, cleaned, finish-Freed}
use my_own_operating_system.Examples.Frames.{half_used, half_used-IsValid, half_used-IsFirst}
use my_own_operating_system.Examples.Pages.{one_table, one_table-IsPaged}

-- Two pages from 4 MB on.
map_pages-Filling_example :
    Filling 0x400 0x402 one_table (map_pages 3 (0x400 * 4096) (0x402 * 4096) [] one_table)
map_pages-Filling_example =
    map_pages-Filling 0x402 (omega arith) 3 0x400 [] one_table (omega arith) (omega arith)
      one_table-IsPaged

-- The directory's copy in frame 32, and a page in the first 4 MB, which have a table.
map_page-shared_example :
    (w : Vmm) × (map_page 0x21000 0x5000 7 (in_copy 32 one_table) ≡ some w)
    × (lookup w 0x5000 ≡ translation (0x21000 + 7))
    × (lookup (under 0x1000 w) 0x5000 ≡ translation (0x21000 + 7))
map_page-shared_example =
    map_page-shared one_table one_table-IsPaged 32 half_used-IsFirst 0x21000 0x5000 7 refl
      (omega arith) (omega arith) refl

-- A root directory in which every name is a file of no bytes.
data Place : Type 0 where
  top : Place
  leaf : Place

abbrev top_node : FsNode Unit
top_node = record {
  name = 47 ∷ [];
  mask = 0;
  uid = 0;
  gid = 0;
  flags = fs_directory;
  inode = 0;
  length = 0;
  impl = 0;
  read = none;
  write = none;
  open_call = none;
  close = none;
  readdir = none;
  finddir = some tt;
}

abbrev node_at : Place → FsNode Unit
node_at top = top_node
node_at leaf = record top_node { flags = fs_file; read = some tt; finddir = none }

abbrev files : Driver (Loader Unit) Place Unit
files = record {
  node = λ w r. node_at r;
  fs_root = λ w. some top;
  call_read = λ f r offset size buffer w. (size, w);
  call_write = λ f r offset size buffer w. (0, w);
  call_open = λ f r w. w;
  call_close = λ f r w. w;
  call_readdir = λ f r index w. (none, w);
  call_finddir = λ f r name w. some leaf;
}

abbrev booted : Loader Unit
booted = record { vmm = one_table; cr3 = 0x1000; interrupts = true; files = tt }

-- The first 4 MB mapped to themselves, and a file at 0xA000: an ELF header, a program header for four
-- bytes at 0x400000, and these bytes.
abbrev elf_words : ℕ → ℕ
elf_words a =
    if a == 0xA000
    then 0x464C_457F
    else if a == 0xA004
    then 0x1_0101
    else if a == 0xA010
    then 0x3_0002
    else if a == 0xA018
    then 0x40_0000
    else if a == 0xA01C
    then 52
    else if a == 0xA028
    then 0x20_0034
    else if (a == 0xA02C) || (a == 0xA034)
    then 1
    else if a == 0xA038
    then 84
    else if a == 0xA03C
    then 0x40_0000
    else if (a == 0xA044) || (a == 0xA048)
    then 4
    else if a == 0xA054
    then 0x9090_F4FA
    else 0

abbrev stored_program : Vmm
stored_program = record one_table {
  ram = λ a.
      if a == 0x1000
      then 0x2007
      else if leb 0x2000 a && ltb a 0x3000
      then (a - 0x2000) * 1024 + 7
      else elf_words a;
}

abbrev hello : List ℕ
hello = 104 ∷ 101 ∷ 108 ∷ 108 ∷ 111 ∷ []

abbrev hello_disk : Disk
hello_disk = record {
  tar_nodes =
      record zero_node {
        name = hello;
        length = 88;
        impl = 0xA000;
        read = some reads;
        flags = fs_file;
      }
      ∷ [];
  tar_root = root_node;
  fs_root = some root;
  dirent_buf = record { name = []; ino = 0 };
  memory = λ _. 0;
}

abbrev at_boot : Loader Disk
at_boot = record { vmm = stored_program; cr3 = 0x1000; interrupts = true; files = hello_disk }

elf_load-Restored_example :
    ResultRestored 0x1000 true (elf_load disk_driver 10 (47 ∷ hello) 0x9000 0x9040 at_boot)
elf_load-Restored_example =
    elf_load-Restored disk_driver disk_driver-IsQuiet 10 (47 ∷ hello) 0x9000 0x9040 at_boot refl

-- The file "a" holds no header.
no_header : ¬ IsExecutable (byte_at one_table) 0x3000
unfolding byte_at lookup read_u8
no_header h = absurd (omega (arith, h.ident_0))

not_loadable : NotLoadable files 0x3000 booted (find_node_by_path files (47 ∷ 97 ∷ []) booted)
unfolding find_node_by_path read_token finddir_fs read_fs
not_loadable = inr no_header

elf_load-refused_example :
    elf_load files 10 (47 ∷ 97 ∷ []) 0x3000 0x3040 booted
    ≡ returned none
        (header_read files 0x3000 booted (find_node_by_path files (47 ∷ 97 ∷ []) booted))
elf_load-refused_example =
    elf_load-refused files 10 (47 ∷ 97 ∷ []) 0x3000 0x3040 booted not_loadable

-- The header of an executable at 0x100.
abbrev header : Memory
header a =
    if a == 0x100
    then 0x7F
    else if a == 0x101
    then 0x45
    else if a == 0x102
    then 0x4C
    else if a == 0x103
    then 0x46
    else if a == 0x104
    then 1
    else if a == 0x110
    then 2
    else if a == 0x112
    then 3
    else 0

is_executable-IsExecutable_example : (is_executable header 0x100 ≡ true) ↔ IsExecutable header 0x100
is_executable-IsExecutable_example = is_executable-IsExecutable header 0x100

-- Two frames of a segment and the directory's are given back.
finish-Freed_example :
    (finish 0 (3 * 4096) (failed (addresses (5 ∷ 6 ∷ [])) booted)
      ≡ returned none (cleaned (5 ∷ 6 ∷ []) 3 booted))
    × Freed (3 ∷ 5 ∷ 6 ∷ []) half_used (cleaned (5 ∷ 6 ∷ []) 3 booted).vmm.pmm
finish-Freed_example =
    finish-Freed 0 3 (5 ∷ 6 ∷ []) booted half_used-IsValid
      (omega arith, (omega arith, (omega arith, tt)))

-- Whether a load succeeded, and the entry point.
abbrev entry_of : Result Disk → Option ℕ
entry_of (returned none w) = none
entry_of (returned (some (entry, pd)) w) = some entry
entry_of no_return = none

program_loads :
    entry_of (elf_load disk_driver 10 (47 ∷ hello) 0x9000 0x9040 at_boot) ≡ some 0x40_0000
unfolding elf_load find_node_by_path read_token finddir_fs read_fs load_in load_headers load_segment
    map_pages clear_page copy_in finddir tar_finddir is_match strcmp_zero is_direct_child match_name
    name_length read_size read_u32
program_loads = refl
