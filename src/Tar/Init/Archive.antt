-- ===== src/Tar/Init/Archive.antt =====
-- `tar_init` of src/tar.c on an archive as the format lays it out.
use my_own_operating_system.Base.{
  ℕ, zero, suc, ◌+◌, ◌-◌, ◌*◌, ◌/◌, ◌^◌, ◌≤◌, ◌<◌, ◌≡◌, refl, sym, ap, ◌∙◌, ◌≢◌, inl, inr, Bool,
  true, false, ◌&&◌, some, List, [], ◌∷◌, ◌++◌, arith, ltb, ◌==◌, if◌then◌else◌, Bool-cases,
  ==-of_ne, lt_of_ltb, le_of_ltb, ltb-of_lt, ltb-of_le, length, take, u32, add32,
}
use mathlib.Core.List.{append_assoc, append-nil}
use my_own_operating_system.Base.Memory.{Memory, read_u8}
use my_own_operating_system.Terminal.Numbers.{read_digits, digit_value}
use my_own_operating_system.Tar.{File, get_octal}
use my_own_operating_system.Tar.Octal.{IsField, get_octal-read}
use my_own_operating_system.Tar.Disk.{Disk, root}
use my_own_operating_system.Tar.Init.Node.{Entry, node_for, file_node-node_for}
use my_own_operating_system.Tar.Init.{
  prepend, c_string, strip, loaded, header_node, next_header, walk, root_node, set_up, tar_init,
}

-- The string `cs` stands at `a` with a zero behind it.
pub data IsString (m : Memory) : ℕ → List ℕ → Type 0 where
  end : {a : ℕ} → read_u8 m a ≡ 0 → IsString m a []
  char :
      {a c : ℕ} {cs : List ℕ}
      → read_u8 m a ≡ c
      → c ≢ 0
      → IsString m (a + 1) cs
      → IsString m a (c ∷ cs)

pub c_string-IsString :
    {m : Memory} (n : ℕ) {a : ℕ} {cs : List ℕ}
    → length cs < n
    → IsString m a cs
    → c_string n m a ≡ some cs
unfolding c_string
c_string-IsString zero small s = absurd (omega (arith, small))
c_string-IsString (suc n) small (end e) = rw e refl
c_string-IsString (suc n) small (char {cs} e ne rest) =
    rw (e, ==-of_ne _ 0 ne) (ap (prepend _) (c_string-IsString n (omega (arith, small)) rest))

-- The size rounded up to whole blocks.
abbrev pub padded : ℕ → ℕ
padded size = (size + 511) / 512 * 512

-- The header of an entry: a name that is not empty, the size in octal, and the type.
pub record IsHeader (m : Memory) (e : Entry) : Type 0 where
  pub digits : List ℕ
  pub name : IsString m e.at e.name
  pub named : 0 < length e.name
  pub short : length (strip e.name) < 128
  pub field : IsField m (e.at + 124) 11 digits
  pub value : read_digits digit_value 8 0 digits ≡ e.size
  pub type : read_u8 m (e.at + 156) ≡ e.typeflag
  pub inside : e.at + 512 + padded e.size < 2 ^ 32

-- From `ptr` on, memory holds these entries, one behind the other, up to a zero block or `end`.
pub data IsArchive (m : Memory) (end : ℕ) : ℕ → List Entry → Type 0 where
  full : {ptr : ℕ} → end ≤ ptr → IsArchive m end ptr []
  zeros : {ptr : ℕ} → read_u8 m ptr ≡ 0 → IsArchive m end ptr []
  file :
      {ptr : ℕ} {e : Entry} {es : List Entry}
      → ptr < end
      → ptr ≡ e.at
      → IsHeader m e
      → IsArchive m end (ptr + 512 + padded e.size) es
      → IsArchive m end ptr (e ∷ es)

abbrev pub nodes_for : List Entry → List File
nodes_for [] = []
nodes_for (e ∷ es) = node_for e ∷ nodes_for es

next_header-padded :
    (ptr size : ℕ)
    → ptr + 512 + padded size < 2 ^ 32
    → next_header ptr size ≡ ptr + 512 + padded size
unfolding next_header
next_header-padded ptr size small = omega (arith, small)

pub first_char :
    {m : Memory} {a : ℕ} (cs : List ℕ) → 0 < length cs → IsString m a cs → read_u8 m a ≢ 0
first_char _ some' (end e) = absurd (omega (arith, some'))
first_char _ some' (char e ne rest) = λ z. ne (sym e ∙ z)

pub strip-length : (cs : List ℕ) → length cs ≤ length (strip cs) + 2
strip-length [] = omega arith
strip-length (c ∷ []) = omega arith
strip-length (c ∷ d ∷ cs) = go ((c == 46) && (d == 47))
  where
    go : (b : Bool) → suc (suc (length cs)) ≤ length (if b then cs else c ∷ d ∷ cs) + 2
    go true = omega arith
    go false = omega arith

module _ (m : Memory) (e : Entry) (h : IsHeader m e) where
  get_octal-size : get_octal m (e.at + 124) 11 ≡ e.size
  get_octal-size = get_octal-read m (e.at + 124) 11 h.digits h.field ∙ ap u32 h.value ∙ small
    where
      small : u32 e.size ≡ e.size
      small = omega (arith, h.inside)

  header_node-node_for : header_node m e.at (c_string 130 m e.at) ≡ some (node_for e)
  header_node-node_for =
      ap (header_node m e.at)
        (c_string-IsString 130 (omega (arith, h.short, strip-length e.name)) h.name)
      ∙ rw (get_octal-size, h.type, ltb-of_lt (length (strip e.name)) 128 h.short)
          (ap some (file_node-node_for e (omega (arith, h.inside))))

length-append_one : (ns : List File) (n : File) → length (ns ++ (n ∷ [])) ≡ length ns + 1
length-append_one [] n = omega arith
length-append_one (x ∷ xs) n = omega (arith, length-append_one xs n)

take-room :
    (ns rest : List File) (x : File)
    → length ns < 128
    → (ns ++ (x ∷ [])) ++ take (128 - length (ns ++ (x ∷ []))) rest
      ≡ ns ++ take (128 - length ns) (x ∷ rest)
take-room ns rest x room =
    append_assoc ns (x ∷ []) (take (128 - length (ns ++ (x ∷ []))) rest)
    ∙ ap (λ l. ns ++ l) (first (128 - length ns) (128 - length (ns ++ (x ∷ []))) less)
  where
    less : 128 - length ns ≡ suc (128 - length (ns ++ (x ∷ [])))
    less = omega (arith, room, length-append_one ns x)

    first : (k j : ℕ) → k ≡ suc j → x ∷ take j rest ≡ take k (x ∷ rest)
    first k j e = rw e refl

take-full : (k : ℕ) (ns rest : List File) → k ≡ 0 → ns ≡ ns ++ take k rest
take-full k ns [] e = sym (append-nil ns)
take-full k ns (x ∷ xs) e = rw e (sym (append-nil ns))

module _ (m : Memory) (stop : ℕ) (e : Entry) (rest : List File) (h : IsHeader m e) where
  walk-header :
      (fuel : ℕ) (nodes : List File)
      → e.at < stop
      → ((ns : List File)
          → walk fuel m stop (e.at + 512 + padded e.size) ns
            ≡ loaded (ns ++ take (128 - length ns) rest))
      → walk (suc fuel) m stop e.at nodes
        ≡ loaded (nodes ++ take (128 - length nodes) (node_for e ∷ rest))
  unfolding walk
  walk-header fuel nodes inside later =
      rw
        (
          ltb-of_lt e.at stop inside,
          ==-of_ne (read_u8 m e.at) 0 (first_char e.name h.named h.name),
          get_octal-size m e h,
          next_header-padded e.at e.size h.inside,
          header_node-node_for m e h,
        )
        (elim (Bool-cases (ltb (length nodes) 128)) [
          | inl free ↦ rw free (
              later (nodes ++ (node_for e ∷ []))
              ∙ ap loaded (take-room nodes rest (node_for e) (lt_of_ltb (length nodes) 128 free)))
          | inr none' ↦
              let k : 128 - length nodes ≡ 0 = omega (arith, le_of_ltb (length nodes) 128 none') in
              rw none' (
                later nodes
                ∙ ap loaded (
                    sym (take-full (128 - length nodes) nodes rest k)
                    ∙ take-full (128 - length nodes) nodes (node_for e ∷ rest) k))
        ])

walk-nodes :
    {m : Memory} {stop : ℕ} (fuel : ℕ) {ptr : ℕ} {es : List Entry} (nodes : List File)
    → length es < fuel
    → IsArchive m stop ptr es
    → walk fuel m stop ptr nodes ≡ loaded (nodes ++ take (128 - length nodes) (nodes_for es))
unfolding walk
walk-nodes zero nodes enough a = absurd (omega (arith, enough))
walk-nodes {stop} (suc fuel) {ptr} nodes enough (full past) =
    rw (ltb-of_le ptr stop past) (ap loaded (sym (append-nil nodes)))
walk-nodes {stop} (suc fuel) {ptr} nodes enough (zeros z) = rw z (ends (ltb ptr stop))
  where
    ends : (b : Bool) → (if b then loaded nodes else loaded nodes) ≡ loaded (nodes ++ [])
    ends true = ap loaded (sym (append-nil nodes))
    ends false = ap loaded (sym (append-nil nodes))
walk-nodes {m} {stop} (suc fuel) {ptr} nodes enough (file {e} {es} inside at h rest) =
    ap (λ a. walk (suc fuel) m stop a nodes) at
    ∙ walk-header m stop e (nodes_for es) h fuel nodes (omega (arith, inside, at)) (λ ns.
      ap (λ a. walk fuel m stop (a + 512 + padded e.size) ns) (sym at)
      ∙ walk-nodes fuel ns (omega (arith, enough)) rest)

-- When memory holds an archive of these entries up to a zero block or the end of the region, which
-- ends below 4 GB, and the fuel is above their number, `tar_init` ends with the root directory as
-- `fs_root` and one node for each of the first 128 entries: its name without a leading dot and
-- slash, its size, its data's address, and the flags and calls of a directory if its type is 5 or
-- its name ends in a slash, and those of a file if not.
pub tar_init-loaded :
    (fuel address size : ℕ) (k : Disk) (es : List Entry)
    → address + size < 2 ^ 32
    → length es < fuel
    → IsArchive k.memory (address + size) address es
    → tar_init fuel address size k
      ≡ loaded (record k {
        tar_nodes = take 128 (nodes_for es);
        tar_root = root_node;
        fs_root = some root;
      })
unfolding tar_init
tar_init-loaded fuel address size k es small enough a =
    let sum : add32 address size ≡ address + size = omega (arith, small) in
    rw sum (ap (set_up k) (walk-nodes fuel [] enough a))
