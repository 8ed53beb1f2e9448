-- ===== src/Tar/Disk/Lookup.antt =====
-- A file of the archive, from `tar_init` through `find_node_by_path` to `read_fs`: src/tar.c and
-- src/vfs.c together.
use my_own_operating_system.Base.{
  ℕ, zero, suc, ◌+◌, ◌-◌, ◌^◌, ◌≤◌, ◌<◌, min, ◌≡◌, refl, sym, ap, ap₂, ◌∙◌, ◌≢◌, ◌⊎◌, inl, inr,
  some, List, [], ◌∷◌, ◌++◌, arith, Bool-cases, ==-of_ne, length, take, get_or,
}
use mathlib.Core.Path.{subst}
use my_own_operating_system.Vfs.{call_read_of, read_fs, finddir_fs, find_node_by_path}
use my_own_operating_system.Base.Memory.{Memory}
use my_own_operating_system.Vfs.Path.{
  drop_empty, with_first, segments, components, resolve, find_node_by_path-resolve,
}
use my_own_operating_system.Tar.{File, tar_read}
use my_own_operating_system.Tar.Read.{Copied, tar_read-Copied}
use my_own_operating_system.Tar.Names.{is_match, tar_finddir}
use my_own_operating_system.Tar.Names.Child.{IsComponent, empty, letter}
use my_own_operating_system.Tar.Names.Find.{
  top, IsNamed, NoneNamed, stem, is_match_complete, is_match_sound,
}
use my_own_operating_system.Tar.Disk.{
  Disk, root, entry, zero_node, names_of, reference, read_node, finddir, driver,
}
use my_own_operating_system.Tar.Init.{loaded, root_node, tar_init}
use my_own_operating_system.Tar.Init.Archive.{IsArchive, nodes_for, tar_init-loaded}
use my_own_operating_system.Tar.Init.Node.{Entry, bare, node_for}

-- A name that is not empty and has no slash.
pub data IsFileName : List ℕ → Type 0 where
  last : {c : ℕ} → c ≢ 47 → IsFileName (c ∷ [])
  more : {c : ℕ} {cs : List ℕ} → c ≢ 47 → IsFileName cs → IsFileName (c ∷ cs)

IsComponent-file : {name : List ℕ} → IsFileName name → IsComponent name
IsComponent-file (last ne) = letter ne empty
IsComponent-file (more ne rest) = letter ne (IsComponent-file rest)

stem-file : {name : List ℕ} → IsFileName name → stem name ≡ name
stem-file (last {c} ne) = rw (==-of_ne c 47 ne) refl
stem-file (more {c} ne rest) = rw (==-of_ne c 47 ne) (ap (λ l. c ∷ l) (stem-file rest))

IsFileName-nonempty : {name : List ℕ} → IsFileName name → name ≢ []
IsFileName-nonempty (last ne) = λ e. absurd (omega (arith, ap length e))
IsFileName-nonempty (more ne rest) = λ e. absurd (omega (arith, ap length e))

segments-file : {name : List ℕ} → IsFileName name → segments name ≡ name ∷ []
segments-file (last {c} ne) = rw (==-of_ne c 47 ne) refl
segments-file (more {c} ne rest) = rw (==-of_ne c 47 ne) (ap (with_first c) (segments-file rest))

components-file : {name : List ℕ} → IsFileName name → components name ≡ name ∷ []
components-file (last ne) = ap drop_empty (segments-file (last ne))
components-file (more ne rest) = ap drop_empty (segments-file (more ne rest))

IsNamed-file : {name : List ℕ} → IsFileName name → IsNamed [] name name
IsNamed-file {name} f = record {
  directory = top;
  other = IsFileName-nonempty f;
  rel = name;
  split = refl;
  component = IsComponent-file f;
  name = stem-file f;
}

take_all : (n : ℕ) (l : List ℕ) → length l ≤ n → take n l ≡ l
take_all n [] h = refl
take_all zero (c ∷ cs) h = absurd (omega (arith, h))
take_all (suc n) (c ∷ cs) h = ap (λ l. c ∷ l) (take_all n cs (omega (arith, h)))

tar_finddir_first :
    (search : List ℕ) (i : ℕ) (before after : List (List ℕ)) (e : List ℕ)
    → NoneNamed [] search before
    → IsNamed [] search e
    → tar_finddir [] search i (before ++ (e ∷ after)) ≡ some (i + length before)
unfolding tar_finddir
tar_finddir_first search i [] after e none' named =
    rw (is_match_complete [] search e named) (ap some (omega arith))
tar_finddir_first search i (b ∷ bs) after e none' named = elim (Bool-cases (is_match [] search b)) [
  | inl yes' ↦ absurd (none'.0 (is_match_sound [] search b top yes'))
  | inr no' ↦
      rw no' (tar_finddir_first search (i + 1) bs after e none'.1 named ∙ ap some (omega arith))
]

nodes_for_split :
    (n : ℕ) (before after : List Entry) (e : Entry)
    → length before < n
    → take n (nodes_for (before ++ (e ∷ after)))
      ≡ nodes_for before ++ (node_for e ∷ take (n - length before - 1) (nodes_for after))
nodes_for_split zero before after e h = absurd (omega (arith, h))
nodes_for_split (suc n) [] after e h = ap (λ j. node_for e ∷ take j (nodes_for after)) (omega arith)
nodes_for_split (suc n) (b ∷ bs) after e h =
    ap (λ l. node_for b ∷ l)
      (nodes_for_split n bs after e (omega (arith, h))
        ∙ ap (λ j. nodes_for bs ++ (node_for e ∷ take j (nodes_for after))) (omega arith))

names_of-append : (a b : List File) → names_of (a ++ b) ≡ names_of a ++ names_of b
names_of-append [] b = refl
names_of-append (f ∷ fs) b = ap (λ l. f.name ∷ l) (names_of-append fs b)

names_of-length : (es : List Entry) → length (names_of (nodes_for es)) ≡ length es
names_of-length [] = refl
names_of-length (e ∷ es) = omega (arith, names_of-length es)

get_or-split :
    (before : List Entry) (f d : File) (after : List File)
    → get_or (nodes_for before ++ (f ∷ after)) (length before) d ≡ f
get_or-split [] f d after = refl
get_or-split (b ∷ bs) f d after = get_or-split bs f d after

-- What `tar_init` leaves.
abbrev pub mounted : List Entry → Disk → Disk
mounted es k = record k {
  tar_nodes = take 128 (nodes_for es);
  tar_root = root_node;
  fs_root = some root;
}

-- The first entry of the name, with its index among those that fit the table.
pub record IsStored (es : List Entry) (name : List ℕ) (e : Entry) (i : ℕ) : Type 0 where
  pub before : List Entry
  pub after : List Entry
  pub splits : es ≡ before ++ (e ∷ after)
  pub index : i ≡ length before
  pub room : i < 128
  pub named : bare e.name ≡ name
  pub first : NoneNamed [] name (names_of (nodes_for before))

module _ {es : List Entry} {name : List ℕ} {e : Entry} {i : ℕ} (s : IsStored es name e i) where
  abbrev others : List File
  others = take (128 - length s.before - 1) (nodes_for s.after)

  nodes-split : take 128 (nodes_for es) ≡ nodes_for s.before ++ (node_for e ∷ others)
  nodes-split =
      ap (λ l. take 128 (nodes_for l)) s.splits
      ∙ nodes_for_split 128 s.before s.after e (omega (arith, s.index, s.room))

  stored-node : (d : File) → get_or (take 128 (nodes_for es)) i d ≡ node_for e
  stored-node d =
      ap₂ (λ l j. get_or l j d) nodes-split s.index ∙ get_or-split s.before (node_for e) d others

  stored-found :
      IsFileName name → tar_finddir [] name 0 (names_of (take 128 (nodes_for es))) ≡ some i
  stored-found file =
      ap (λ l. tar_finddir [] name 0 (names_of l)) nodes-split
      ∙ ap (tar_finddir [] name 0) (names_of-append (nodes_for s.before) (node_for e ∷ others))
      ∙ tar_finddir_first name 0 (names_of (nodes_for s.before)) (names_of others) (bare e.name)
          s.first (subst (IsNamed [] name) (sym s.named) (IsNamed-file file))
      ∙ ap some (omega (arith, names_of-length s.before, s.index))

  mounted-find :
      (k : Disk)
      → IsFileName name
      → length name < 128
      → find_node_by_path driver (47 ∷ name) (mounted es k) ≡ some (entry i)
  unfolding finddir_fs finddir
  mounted-find k file short =
      find_node_by_path-resolve driver (mounted es k) (47 ∷ name)
      ∙ ap (resolve driver (mounted es k) (some root)) (components-file file)
      ∙ ap (λ l. reference (tar_finddir [] l 0 (names_of (take 128 (nodes_for es)))))
          (take_all 127 name (omega (arith, short)))
      ∙ ap reference (stored-found file)

  mounted-read :
      (k : Disk) (offset size buffer : ℕ)
      → read_fs driver (some (entry i)) offset size buffer (mounted es k) ≡ (
          let (n, m) = tar_read (node_for e) offset size buffer k.memory in
          (n, record (mounted es k) { memory = m }))
  unfolding read_fs read_node
  mounted-read k offset size buffer =
      ap (λ (f : File). call_read_of driver f.read (entry i) offset size buffer (mounted es k))
        (stored-node zero_node)
      ∙ ap
          (λ (f : File).
            (let (n, m) = tar_read f offset size buffer k.memory in
              (n, record (mounted es k) { memory = m })))
          (stored-node zero_node)

  node-Copied :
      (offset size buffer : ℕ) (m : Memory)
      → e.at + 512 + e.size < 2 ^ 32
      → offset + size < 2 ^ 32
      → buffer + size ≤ 2 ^ 32
      → (buffer + size ≤ e.at + 512) ⊎ (e.at + 512 + e.size ≤ buffer)
      → ((tar_read (node_for e) offset size buffer m).0 ≡ min size (e.size - offset))
        × Copied buffer
            (e.at + 512 + offset)
            (min size (e.size - offset))
            m
            (tar_read (node_for e) offset size buffer m).1
  node-Copied offset size buffer m inside sum fits clear =
      tar_read-Copied (node_for e) offset size buffer m (omega (arith, inside)) sum fits clear

module _ (fuel address archive_size : ℕ) (k : Disk) {es : List Entry} where
  -- When memory holds an archive in a region below 4 GB, the fuel is above the number of its
  -- entries, and the file is the first entry of its name among the first 128, with a name of at
  -- most 127 characters and no slash: `tar_init` ends, `find_node_by_path` of a slash and the name
  -- finds the file, and `read_fs` returns the size cut to what is left of the file and copies
  -- exactly that many bytes of its data from the offset on, if the data ends below 4 GB, the sum
  -- of offset and size does not wrap, and the buffer overlaps neither the end of memory nor the
  -- data.
  pub stored_file-Copied :
      {name : List ℕ} {e : Entry} {i : ℕ} (offset size buffer : ℕ)
      → address + archive_size < 2 ^ 32
      → length es < fuel
      → IsArchive k.memory (address + archive_size) address es
      → IsStored es name e i
      → IsFileName name
      → length name < 128
      → e.at + 512 + e.size < 2 ^ 32
      → offset + size < 2 ^ 32
      → buffer + size ≤ 2 ^ 32
      → (buffer + size ≤ e.at + 512) ⊎ (e.at + 512 + e.size ≤ buffer)
      → (tar_init fuel address archive_size k ≡ loaded (mounted es k))
        × (find_node_by_path driver (47 ∷ name) (mounted es k) ≡ some (entry i))
        × ((read_fs driver (some (entry i)) offset size buffer (mounted es k)).0
            ≡ min size (e.size - offset))
        × Copied buffer
            (e.at + 512 + offset)
            (min size (e.size - offset))
            k.memory
            (read_fs driver (some (entry i)) offset size buffer (mounted es k)).1.memory
  stored_file-Copied {e} offset size buffer h1 h2 a s file short inside sum fits clear =
      let read = mounted-read s k offset size buffer in
      let copied = node-Copied s offset size buffer k.memory inside sum fits clear in
      (
        tar_init-loaded fuel address archive_size k es h1 h2 a,
        mounted-find s k file short,
        ap (λ r. r.0) read ∙ copied.0,
        subst
            (λ (r : ℕ × Disk).
              Copied buffer (e.at + 512 + offset) (min size (e.size - offset)) k.memory r.1.memory)
            (sym read) copied.1,
      )
