-- ===== src/Tar/Disk.antt =====
-- The statics of src/tar.c as a file system, whose nodes src/vfs.c calls.
pub mod Lookup
use my_own_operating_system.Base.{ℕ, Option, none, some, List, [], ◌∷◌, length, get_or}
use my_own_operating_system.Base.Memory.{Memory}
use my_own_operating_system.Vfs.{Dirent, Driver}
use my_own_operating_system.Tar.{TarFn, File, tar_read}
use my_own_operating_system.Tar.Names.{tar_finddir}
use my_own_operating_system.Tar.Listing.{tar_readdir}

-- `&tar_root` and `&tar_nodes[i]`.
pub data TarRef : Type 0 where
  root : TarRef
  entry : ℕ → TarRef

-- `tar_nodes` up to `tar_file_count`, `tar_root`, `fs_root` and `dirent_buf`, with memory.
pub record Disk : Type 0 where
  pub tar_nodes : List File
  pub tar_root : File
  pub fs_root : Option TarRef
  pub dirent_buf : Dirent
  pub memory : Memory

-- What `memset(node, 0, sizeof(fs_node_t))` leaves.
abbrev pub zero_node : File
zero_node = record {
  name = [];
  mask = 0;
  uid = 0;
  gid = 0;
  flags = 0;
  inode = 0;
  length = 0;
  impl = 0;
  read = none;
  write = none;
  open_call = none;
  close = none;
  readdir = none;
  finddir = none;
}

abbrev pub node_of : Disk → TarRef → File
node_of k root = k.tar_root
node_of k (entry i) = get_or k.tar_nodes i zero_node

-- `(node == &tar_root) ? "" : node->name`.
abbrev pub prefix_of : Disk → TarRef → List ℕ
prefix_of k root = []
prefix_of k (entry i) = (node_of k (entry i)).name

abbrev pub names_of : List File → List (List ℕ)
names_of [] = []
names_of (f ∷ fs) = f.name ∷ names_of fs

-- `dirent_buf` behind a call of `tar_readdir`, and what the call returns.
abbrev pub written : Disk → Option Dirent → Option Dirent × Disk
written k none = (none, k)
written k (some d) = (some d, record k { dirent_buf = d })

abbrev pub reference : Option ℕ → Option TarRef
reference none = none
reference (some i) = some (entry i)

-- Reading through a node.
unfoldable pub read_node : Disk → TarRef → ℕ → ℕ → ℕ → ℕ × Disk
read_node k r offset size buffer =
    let (n, m) = tar_read (node_of k r) offset size buffer k.memory in (n, record k { memory = m })

unfoldable pub readdir : Disk → TarRef → ℕ → Option Dirent × Disk
readdir k r index = written k (tar_readdir (prefix_of k r) index 0 0 (names_of k.tar_nodes))

unfoldable pub finddir : Disk → TarRef → List ℕ → Option TarRef
finddir k r name = reference (tar_finddir (prefix_of k r) name 0 (names_of k.tar_nodes))

-- The calls of src/vfs.c: a node of src/tar.c points to no other functions.
abbrev pub driver : Driver Disk TarRef TarFn
driver = record {
  node = node_of;
  fs_root = λ k. k.fs_root;
  call_read = λ f r offset size buffer k. read_node k r offset size buffer;
  call_write = λ f r offset size buffer k. (0, k);
  call_open = λ f r k. k;
  call_close = λ f r k. k;
  call_readdir = λ f r index k. readdir k r index;
  call_finddir = λ f r name k. finddir k r name;
}
