-- ===== src/Examples/Archive.antt =====
-- A field of a header and a file of an archive on which src/tar.c is run.
use my_own_operating_system.Base.{
  ℕ, ◌+◌, ◌-◌, ◌%◌, min, ◌≡◌, refl, ap, inl, inr, some, List, [], ◌∷◌, ◌++◌, arith, ◌==◌,
  if◌then◌else◌, length,
}
use my_own_operating_system.Base.Memory.{Memory, read_u8}
use my_own_operating_system.Tar.{File, tar_read}
use my_own_operating_system.Tar.Init.{file_node}
use my_own_operating_system.Tar.Octal.{IsField, ended, digit}
use my_own_operating_system.Tar.Names.{
  is_direct_child, tar_finddir, is_match, match_name, name_length,
}
use my_own_operating_system.Tar.Names.Find.{IsDirectory, slashed, Located, tar_finddir-Located}
use my_own_operating_system.Tar.Read.{Copied, tar_read-Copied}

-- The text "17" at 0x1000, with a zero behind it.
abbrev size_field : Memory
size_field a = if a == 0x1000 then 49 else if a == 0x1001 then 55 else 0

two_digits : IsField size_field 0x1000 11 (49 ∷ 55 ∷ [])
unfolding read_u8
two_digits = digit refl refl (digit refl refl (ended (inl refl)))

-- A file of 100 bytes at 0x2000.
abbrev file : File
file = file_node [] 100 0x1e00 48

-- Twenty bytes are asked for where ten are left.
tar_read-Copied_example :
    ((tar_read file 90 20 0x9000 (λ a. a % 256)).0 ≡ min 20 (100 - 90))
    × Copied 0x9000
        (0x2000 + 90)
        (min 20 (100 - 90))
        (λ a. a % 256)
        (tar_read file 90 20 0x9000 (λ a. a % 256)).1
unfolding file_node
tar_read-Copied_example =
    tar_read-Copied file 90 20 0x9000 (λ a. a % 256) (omega arith) (omega arith) (omega arith)
      (inr (omega arith))

-- "bin/" and two entries in it and below it: "bin/ls" and "bin/x/y".
abbrev bin : List ℕ
bin = 98 ∷ 105 ∷ 110 ∷ 47 ∷ []

abbrev ls : List ℕ
ls = 108 ∷ 115 ∷ []

abbrev entries : List (List ℕ)
entries = bin ∷ (bin ++ (120 ∷ 47 ∷ 121 ∷ [])) ∷ (bin ++ ls) ∷ []

bin-IsDirectory : IsDirectory bin
bin-IsDirectory = slashed (98 ∷ 105 ∷ 110 ∷ []) (λ e. absurd (omega (arith, ap length e)))

tar_finddir-Located_example : Located bin ls 0 entries (tar_finddir bin ls 0 entries)
tar_finddir-Located_example = tar_finddir-Located bin ls 0 entries bin-IsDirectory

-- It is the third entry.
found_third : tar_finddir bin ls 0 entries ≡ some 2
unfolding tar_finddir is_match match_name name_length is_direct_child
found_third = refl
