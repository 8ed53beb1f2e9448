-- ===== src/Tar/Init/Node.antt =====
-- The node that src/tar.c is to keep for an entry of the archive.
use my_own_operating_system.Base.{
  ℕ, ◌+◌, ◌^◌, ◌<◌, ◌≡◌, refl, ap, ◌∙◌, Bool, true, false, ◌&&◌, ◌||◌, Option, none, some, List, [],
  ◌∷◌, arith, ◌==◌, if◌then◌else◌, add32,
}
use my_own_operating_system.Tar.{File, reads, lists, finds}
use my_own_operating_system.Tar.Names.{skip, ends_with_slash}
use my_own_operating_system.Tar.Init.{strip, file_node}

-- An entry of the archive: where its header stands, and what it says.
pub record Entry : Type 0 where
  pub at : ℕ
  pub name : List ℕ
  pub size : ℕ
  pub typeflag : ℕ

-- The last character of a name.
abbrev pub last : List ℕ → Option ℕ
last [] = none
last (c ∷ []) = some c
last (c ∷ d ∷ cs) = last (d ∷ cs)

-- A directory has type 5, as a character, or a slash at its name's end.
abbrev pub is_slash : Option ℕ → Bool
is_slash none = false
is_slash (some c) = c == 47

abbrev pub is_directory_entry : Entry → Bool
is_directory_entry e = is_slash (last e.name) || (e.typeflag == 53)

abbrev pub begins : List ℕ → List ℕ → Bool
begins [] cs = true
begins (p ∷ ps) [] = false
begins (p ∷ ps) (c ∷ cs) = (c == p) && begins ps cs

-- The name behind "./", if it starts so.
abbrev pub bare : List ℕ → List ℕ
bare cs = if begins (46 ∷ 47 ∷ []) cs then skip 2 cs else cs

-- The node of an entry, with the flags 1 for a file and 2 for a directory, as src/vfs.h has them;
-- only a directory can be listed and searched.
abbrev pub node_for : Entry → File
node_for e = record {
  name = bare e.name;
  mask = 0;
  uid = 0;
  gid = 0;
  flags = if is_directory_entry e then 2 else 1;
  inode = 0;
  length = e.size;
  impl = e.at + 512;
  read = some reads;
  write = none;
  open_call = none;
  close = none;
  readdir = if is_directory_entry e then some lists else none;
  finddir = if is_directory_entry e then some finds else none;
}

strip-bare : (cs : List ℕ) → strip cs ≡ bare cs
strip-bare [] = refl
strip-bare (c ∷ []) = go (c == 46)
  where
    go : (b : Bool) → c ∷ [] ≡ (if b && false then skip 2 (c ∷ []) else c ∷ [])
    go true = refl
    go false = refl
strip-bare (c ∷ d ∷ cs) = go (c == 46) (d == 47)
  where
    go :
        (a b : Bool)
        → (if a && b then cs else c ∷ d ∷ cs) ≡ (if a && (b && true) then cs else c ∷ d ∷ cs)
    go true true = refl
    go true false = refl
    go false b = refl

ends_with_slash-last : (cs : List ℕ) → ends_with_slash cs ≡ is_slash (last cs)
unfolding ends_with_slash
ends_with_slash-last [] = refl
ends_with_slash-last (c ∷ []) = refl
ends_with_slash-last (c ∷ d ∷ cs) = ends_with_slash-last (d ∷ cs)

pub file_node-node_for :
    (e : Entry) → e.at + 512 < 2 ^ 32 → file_node e.name e.size e.at e.typeflag ≡ node_for e
unfolding file_node
file_node-node_for e small =
    let place : add32 e.at 512 ≡ e.at + 512 = omega (arith, small) in
    let kind : ((e.typeflag == 53) || ends_with_slash e.name) ≡ is_directory_entry e =
      ap (λ b. (e.typeflag == 53) || b) (ends_with_slash-last e.name)
      ∙ either (e.typeflag == 53) (is_slash (last e.name)) in
    rw (place, kind, strip-bare e.name) refl
  where
    either : (a b : Bool) → (a || b) ≡ (b || a)
    either true true = refl
    either true false = refl
    either false true = refl
    either false false = refl
