-- ===== src/Tar/Listing.antt =====
-- The listing of a directory, `tar_readdir` of src/tar.c.
pub mod Found
use my_own_operating_system.Base.{
  ℕ, ◌+◌, Bool, false, Option, none, some, List, [], ◌∷◌, leb, ◌==◌, if◌then◌else◌, length, take,
}
use my_own_operating_system.Vfs.{Dirent}
use my_own_operating_system.Tar.Names.{strcmp_zero, skip, is_direct_child, name_length}

-- The name and number that `tar_readdir` writes for the entry of index `i`.
unfoldable pub dirent_of : List ℕ → List ℕ → ℕ → Dirent
dirent_of dir entry i =
    let rel = skip (length dir) entry in
    record { name = take (if leb 128 (name_length rel) then 127 else name_length rel) rel; ino = i }

-- Whether the entry is counted.
unfoldable pub is_listed : List ℕ → List ℕ → Bool
is_listed dir entry = if strcmp_zero entry dir then false else is_direct_child dir entry

-- The loop of `tar_readdir` over the names of the entries from index `i` on, `count` of those before
-- counted.
unfoldable pub tar_readdir : List ℕ → ℕ → ℕ → ℕ → List (List ℕ) → Option Dirent
tar_readdir dir index count i [] = none
tar_readdir dir index count i (entry ∷ rest) =
    let next = tar_readdir dir index (count + 1) (i + 1) rest in
    let other = tar_readdir dir index count (i + 1) rest in
    if is_listed dir entry
    then (if count == index then some (dirent_of dir entry i) else next)
    else other
