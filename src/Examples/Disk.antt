-- ===== src/Examples/Disk.antt =====
-- An archive with one file, and paths on it, on which src/tar.c and src/vfs.c are run.
use my_own_operating_system.Base.{
  ℕ, ◌+◌, ◌-◌, ◌^◌, min, ◌≡◌, refl, inl, inr, ◌&&◌, ◌||◌, none, some, List, [], ◌∷◌, arith, ltb,
  ◌==◌, if◌then◌else◌, take,
}
use my_own_operating_system.Base.Memory.{Memory, read_u8}
use my_own_operating_system.Vfs.{read_fs, find_node_by_path}
use my_own_operating_system.Vfs.Path.{lookup_path, find_node_by_path-resolve}
use my_own_operating_system.Tar.{get_octal}
use my_own_operating_system.Tar.Octal.{ended, digit}
use my_own_operating_system.Tar.Read.{Copied}
use my_own_operating_system.Tar.Disk.{Disk, root, entry, zero_node, driver}
use my_own_operating_system.Tar.Disk.Lookup.{last, mounted, IsStored, stored_file-Copied}
use my_own_operating_system.Tar.Init.{loaded, unfinished, root_node, tar_init}
use my_own_operating_system.Tar.Init.Archive.{
  IsString, end, char, IsHeader, IsArchive, zeros, file, nodes_for, tar_init-loaded,
}
use my_own_operating_system.Tar.Init.Node.{Entry}
use my_own_operating_system.Tar.Init.Endless.{tar_init-unfinished}

-- At 0x1000 the header of a file "a" of five bytes, and zeros behind its data.
abbrev image : Memory
image a = if a == 0x1000 then 97 else if a == 0x107C then 53 else if a == 0x109C then 48 else 0

abbrev file_a : Entry
file_a = record { at = 0x1000; name = 97 ∷ []; size = 5; typeflag = 48 }

abbrev empty_disk : Disk
empty_disk = record {
  tar_nodes = [];
  tar_root = zero_node;
  fs_root = none;
  dirent_buf = record { name = []; ino = 0 };
  memory = image;
}

file_a-IsHeader : IsHeader image file_a
unfolding read_u8
file_a-IsHeader = record {
  digits = 53 ∷ [];
  name = char refl (λ e. absurd (omega (arith, e))) (end refl);
  named = omega arith;
  short = omega arith;
  field = digit refl refl (ended (inl refl));
  value = refl;
  type = refl;
  inside = omega arith;
}

image-IsArchive : IsArchive image (0x1000 + 0x800) 0x1000 (file_a ∷ [])
unfolding read_u8
image-IsArchive = file (omega arith) refl file_a-IsHeader (zeros refl)

tar_init-loaded_example :
    tar_init 2 0x1000 0x800 empty_disk
    ≡ loaded (record empty_disk {
      tar_nodes = take 128 (nodes_for (file_a ∷ []));
      tar_root = root_node;
      fs_root = some root;
    })
tar_init-loaded_example =
    tar_init-loaded 2 0x1000 0x800 empty_disk (file_a ∷ []) (omega arith) (omega arith)
      image-IsArchive

file_a-IsStored : IsStored (file_a ∷ []) (97 ∷ []) file_a 0
file_a-IsStored = record {
  before = [];
  after = [];
  splits = refl;
  index = refl;
  room = omega arith;
  named = refl;
  first = tt;
}

-- Four bytes from offset 2 on are asked for, and three are there.
stored_file-Copied_example :
    (tar_init 2 0x1000 0x800 empty_disk ≡ loaded (mounted (file_a ∷ []) empty_disk))
    × (find_node_by_path driver (47 ∷ 97 ∷ []) (mounted (file_a ∷ []) empty_disk) ≡ some (entry 0))
    × ((read_fs driver (some (entry 0)) 2 4 0x9000 (mounted (file_a ∷ []) empty_disk)).0
        ≡ min 4 (5 - 2))
    × Copied 0x9000
        (0x1000 + 512 + 2)
        (min 4 (5 - 2))
        image
        (read_fs driver (some (entry 0)) 2 4 0x9000 (mounted (file_a ∷ []) empty_disk)).1.memory
stored_file-Copied_example =
    stored_file-Copied 2 0x1000 0x800 empty_disk 2 4 0x9000 (omega arith) (omega arith)
      image-IsArchive file_a-IsStored (last (λ e. absurd (omega (arith, e)))) (omega arith)
      (omega arith) (omega arith) (omega arith) (inr (omega arith))

-- "/" and "//a/" on the disk with the file.
find_node_by_path-resolve_example :
    find_node_by_path driver (47 ∷ 47 ∷ 97 ∷ 47 ∷ []) (mounted (file_a ∷ []) empty_disk)
    ≡ lookup_path driver (mounted (file_a ∷ []) empty_disk) (47 ∷ 47 ∷ 97 ∷ 47 ∷ [])
find_node_by_path-resolve_example =
    find_node_by_path-resolve driver (mounted (file_a ∷ []) empty_disk) (47 ∷ 47 ∷ 97 ∷ 47 ∷ [])

-- "d/", "d/a/b" and "a": the second entry in the root is "a".
abbrev names : List (List ℕ)
names = (100 ∷ 47 ∷ []) ∷ (100 ∷ 47 ∷ 97 ∷ 47 ∷ 98 ∷ []) ∷ (97 ∷ []) ∷ []

-- The same header with the size 037777776001.
abbrev vast : Memory
vast a =
    if a == 0x1000
    then 97
    else if a == 0x107C
    then 51
    else if a == 0x1083
    then 54
    else if (a == 0x1084) || (a == 0x1085)
    then 48
    else if a == 0x1086
    then 49
    else if (ltb 0x107C a) && ltb a 0x1083
    then 55
    else 0

abbrev vast_disk : Disk
vast_disk = record empty_disk { memory = vast }

vast_size : get_octal vast (0x1000 + 124) 11 ≡ 2 ^ 32 - 1023
unfolding get_octal read_u8
vast_size = refl

vast_name : IsString vast 0x1000 (97 ∷ [])
unfolding read_u8
vast_name = char refl (λ e. absurd (omega (arith, e))) (end refl)

tar_init-unfinished_example : tar_init 100 0x1000 0x800 vast_disk ≡ unfinished
tar_init-unfinished_example =
    tar_init-unfinished 100 0x1000 0x800 vast_disk (97 ∷ []) (omega arith) (omega arith) vast_name
      (omega arith) (omega arith) (omega (arith, vast_size)) (omega (arith, vast_size))
