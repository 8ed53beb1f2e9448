-- ===== src/Tar/Init.antt =====
-- The walk over the headers of the archive, `tar_init` of src/tar.c, with `strlen` and `strcpy` of
-- src/string.c.
pub mod Node
pub mod Archive
pub mod Endless
use my_own_operating_system.Base.{
  ℕ, zero, suc, ◌+◌, ◌-◌, ◌%◌, Bool, ◌&&◌, ◌||◌, Option, none, some, List, [], ◌∷◌, ◌++◌, ltb, ◌==◌,
  if◌then◌else◌, length, add32,
}
use my_own_operating_system.Base.Memory.{Memory, read_u8}
use my_own_operating_system.Vfs.{fs_file, fs_directory}
use my_own_operating_system.Tar.{reads, lists, finds, File, get_octal}
use my_own_operating_system.Tar.Names.{ends_with_slash}
use my_own_operating_system.Tar.Disk.{Disk, root, zero_node}

abbrev pub prepend : ℕ → Option (List ℕ) → Option (List ℕ)
prepend c none = none
prepend c (some cs) = some (c ∷ cs)

-- The string at `a`, unless no zero stands among the first `n` bytes.
unfoldable pub c_string : ℕ → Memory → ℕ → Option (List ℕ)
c_string zero m a = none
c_string (suc n) m a =
    let c = read_u8 m a in
    let rest = c_string n m (a + 1) in if c == 0 then some [] else prepend c rest

-- The name without a leading "./".
abbrev pub strip : List ℕ → List ℕ
strip [] = []
strip (c ∷ []) = c ∷ []
strip (c ∷ d ∷ cs) = if (c == 46) && (d == 47) then cs else c ∷ d ∷ cs

abbrev pub is_folder : ℕ → List ℕ → Bool
is_folder typeflag raw = (typeflag == 53) || ends_with_slash raw

-- The node of the header at `ptr`: `name` is the name as it stands there.
unfoldable pub file_node : List ℕ → ℕ → ℕ → ℕ → File
file_node name size ptr typeflag =
    let folder = is_folder typeflag name in
    record zero_node {
      name = strip name;
      length = size;
      impl = add32 ptr 512;
      read = some reads;
      flags = if folder then fs_directory else fs_file;
      readdir = if folder then some lists else none;
      finddir = if folder then some finds else none;
    }

-- Where a walk ends: with a list of nodes, at a name that `strcpy` would write past the node's 128
-- bytes, or not within the rounds that it was given.
pub data Walked (A : Type 0) : Type 0 where
  loaded : A → Walked A
  overrun : Walked A
  unfinished : Walked A

abbrev pub checked : List ℕ → File → Option File
checked name node = if ltb (length (strip name)) 128 then some node else none

-- The node that a round adds.
abbrev pub header_node : Memory → ℕ → Option (List ℕ) → Option File
header_node m ptr none = none
header_node m ptr (some name) =
    checked name (file_node name (get_octal m (ptr + 124) 11) ptr (read_u8 m (ptr + 156)))

abbrev pub add_node :
    List File → Option File → (List File → Walked (List File)) → Walked (List File)
add_node nodes none go = overrun
add_node nodes (some node) go = go (nodes ++ (node ∷ []))

-- `ptr + 512 + ((file_size + 511) & ~511)`.
unfoldable pub next_header : ℕ → ℕ → ℕ
next_header ptr size = add32 ptr (512 + (add32 size 511 - add32 size 511 % 512))

-- The loop of `tar_init`, for at most `fuel` rounds.
unfoldable pub walk : ℕ → Memory → ℕ → ℕ → List File → Walked (List File)
walk zero m end ptr nodes = unfinished
walk (suc fuel) m end ptr nodes =
    let size = get_octal m (ptr + 124) 11 in
    let go : List File → Walked (List File) = λ ns. walk fuel m end (next_header ptr size) ns in
    if ltb ptr end
    then (if read_u8 m ptr == 0
        then loaded nodes
        else if ltb (length nodes) 128
        then add_node nodes (header_node m ptr (c_string 130 m ptr)) go
        else go nodes)
    else loaded nodes

-- The root directory.
abbrev pub root_node : File
root_node = record zero_node {
  name = 47 ∷ [];
  flags = fs_directory;
  readdir = some lists;
  finddir = some finds;
}

abbrev pub set_up : Disk → Walked (List File) → Walked Disk
set_up k (loaded nodes) =
    loaded (record k { tar_nodes = nodes; tar_root = root_node; fs_root = some root })
set_up k overrun = overrun
set_up k unfinished = unfinished

unfoldable pub tar_init : ℕ → ℕ → ℕ → Disk → Walked Disk
tar_init fuel address size k = set_up k (walk fuel k.memory (add32 address size) address [])
