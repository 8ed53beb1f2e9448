-- ===== src/Vfs.antt =====
-- The virtual file system, src/vfs.c and src/vfs.h: the calls through a node's function pointers and
-- the lookup of a path. A string is the list of its characters before the final zero.
pub mod Path
use my_own_operating_system.Base.{
  ℕ, zero, suc, ◌-◌, ◌%◌, Bool, Option, none, some, List, [], ◌∷◌, ◌==◌, if◌then◌else◌, length,
}

-- `struct fs_node`, with NULL function pointers as `none`. `Fn` is the type of their addresses.
pub record FsNode (Fn : Type 0) : Type 0 where
  pub name : List ℕ
  pub mask : ℕ
  pub uid : ℕ
  pub gid : ℕ
  pub flags : ℕ
  pub inode : ℕ
  pub length : ℕ
  pub impl : ℕ
  pub read : Option Fn
  pub write : Option Fn
  pub open_call : Option Fn
  pub close : Option Fn
  pub readdir : Option Fn
  pub finddir : Option Fn

-- `struct dirent`.
pub record Dirent : Type 0 where
  pub name : List ℕ
  pub ino : ℕ

abbrev pub fs_file : ℕ
fs_file = 0x01

abbrev pub fs_directory : ℕ
fs_directory = 0x02

-- What the file system's calls lead to: the node that an address holds, `fs_root`, and the effect
-- of a call of each kind of function pointer on the state.
pub record Driver (World Ref Fn : Type 0) : Type 0 where
  pub node : World → Ref → FsNode Fn
  pub fs_root : World → Option Ref
  pub call_read : Fn → Ref → ℕ → ℕ → ℕ → World → ℕ × World
  pub call_write : Fn → Ref → ℕ → ℕ → ℕ → World → ℕ × World
  pub call_open : Fn → Ref → World → World
  pub call_close : Fn → Ref → World → World
  pub call_readdir : Fn → Ref → ℕ → World → Option Dirent × World
  pub call_finddir : Fn → Ref → List ℕ → World → Option Ref

-- `(node->flags & 0x07) == FS_DIRECTORY`.
abbrev pub is_directory : {Fn : Type 0} → FsNode Fn → Bool
is_directory node = (node.flags % 8) == fs_directory

-- The characters of the path up to a slash, of which the token takes the first `room`, and the path
-- from the slash on.
unfoldable pub read_token : ℕ → List ℕ → List ℕ × List ℕ
read_token room [] = ([], [])
read_token room (c ∷ cs) =
    let kept = read_token (room - 1) cs in
    if c == 47 then ([], c ∷ cs) else (if room == 0 then [] else c ∷ kept.0, kept.1)

-- `if (path[i] == '/') i++`.
abbrev pub skip_slash : List ℕ → List ℕ
skip_slash [] = []
skip_slash (c ∷ cs) = if c == 47 then cs else c ∷ cs

module _ {World Ref Fn : Type 0} (d : Driver World Ref Fn) where
  abbrev pub call_read_of : Option Fn → Ref → ℕ → ℕ → ℕ → World → ℕ × World
  call_read_of none r offset size buffer w = (0, w)
  call_read_of (some f) r offset size buffer w = d.call_read f r offset size buffer w

  abbrev pub call_write_of : Option Fn → Ref → ℕ → ℕ → ℕ → World → ℕ × World
  call_write_of none r offset size buffer w = (0, w)
  call_write_of (some f) r offset size buffer w = d.call_write f r offset size buffer w

  abbrev pub call_open_of : Option Fn → Ref → World → World
  call_open_of none r w = w
  call_open_of (some f) r w = d.call_open f r w

  abbrev pub call_close_of : Option Fn → Ref → World → World
  call_close_of none r w = w
  call_close_of (some f) r w = d.call_close f r w

  abbrev pub call_readdir_of : Option Fn → Ref → ℕ → World → Option Dirent × World
  call_readdir_of none r index w = (none, w)
  call_readdir_of (some f) r index w = d.call_readdir f r index w

  abbrev pub call_finddir_of : Option Fn → Ref → List ℕ → World → Option Ref
  call_finddir_of none r name w = none
  call_finddir_of (some f) r name w = d.call_finddir f r name w

  unfoldable pub read_fs : Option Ref → ℕ → ℕ → ℕ → World → ℕ × World
  read_fs none offset size buffer w = (0, w)
  read_fs (some r) offset size buffer w = call_read_of (d.node w r).read r offset size buffer w

  unfoldable pub write_fs : Option Ref → ℕ → ℕ → ℕ → World → ℕ × World
  write_fs none offset size buffer w = (0, w)
  write_fs (some r) offset size buffer w = call_write_of (d.node w r).write r offset size buffer w

  unfoldable pub open_fs : Option Ref → World → World
  open_fs none w = w
  open_fs (some r) w = call_open_of (d.node w r).open_call r w

  unfoldable pub close_fs : Option Ref → World → World
  close_fs none w = w
  close_fs (some r) w = call_close_of (d.node w r).close r w

  unfoldable pub readdir_fs : Option Ref → ℕ → World → Option Dirent × World
  readdir_fs none index w = (none, w)
  readdir_fs (some r) index w =
      let node = d.node w r in
      if is_directory node then call_readdir_of node.readdir r index w else (none, w)

  unfoldable pub finddir_fs : Option Ref → List ℕ → World → Option Ref
  finddir_fs none name w = none
  finddir_fs (some r) name w =
      let node = d.node w r in
      if is_directory node then call_finddir_of node.finddir r name w else none

  -- The step of the outer loop behind a token, where `go` is the rest of the loop.
  abbrev pub enter : Option Ref → (Option Ref → Option Ref) → Option Ref
  enter none go = none
  enter (some next) go = go (some next)

  abbrev pub descend : Option Ref → List ℕ → World → (Option Ref → Option Ref) → Option Ref
  descend curr [] w go = go curr
  descend curr (c ∷ cs) w go = enter (finddir_fs curr (c ∷ cs) w) go

  -- The outer loop of `find_node_by_path`, for at most `fuel` rounds.
  unfoldable pub walk : ℕ → Option Ref → List ℕ → World → Option Ref
  walk fuel curr [] w = curr
  walk zero curr (c ∷ cs) w = none
  walk (suc fuel) curr (c ∷ cs) w =
      let token = read_token 127 (c ∷ cs) in
      descend curr token.0 w (λ next. walk fuel next (skip_slash token.1) w)

  -- `find_node_by_path`, for a path that is not NULL.
  unfoldable pub find_node_by_path : List ℕ → World → Option Ref
  unfolding walk
  find_node_by_path [] w = none
  find_node_by_path (c ∷ cs) w = if c == 47 then walk (length cs) (d.fs_root w) cs w else none
