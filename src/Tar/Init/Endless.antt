-- ===== src/Tar/Init/Endless.antt =====
-- `tar_init` of src/tar.c on a header whose size field makes the step to the next header wrap.
use my_own_operating_system.Base.{
  ℕ, zero, suc, ◌+◌, ◌-◌, ◌%◌, ◌^◌, ◌≤◌, ◌<◌, ◌≡◌, refl, ap, ◌∙◌, ◌≢◌, inl, inr, some, List, [],
  ◌∷◌, ◌++◌, arith, ltb, Bool-cases, ==-of_ne, ltb-of_lt, length, add32,
}
use my_own_operating_system.Base.Memory.{Memory, read_u8}
use my_own_operating_system.Tar.{File, get_octal}
use my_own_operating_system.Tar.Disk.{Disk}
use my_own_operating_system.Tar.Init.{
  c_string, strip, file_node, unfinished, header_node, next_header, walk, set_up, tar_init,
}
use my_own_operating_system.Tar.Init.Archive.{IsString, c_string-IsString, strip-length, first_char}

next_header_same :
    (ptr size : ℕ)
    → ptr < 2 ^ 32
    → 2 ^ 32 - 1023 ≤ size
    → size ≤ 2 ^ 32 - 512
    → next_header ptr size ≡ ptr
unfolding next_header
next_header_same ptr size small lo hi =
    let q : add32 size 511 - add32 size 511 % 512 ≡ 2 ^ 32 - 512 = omega (arith, lo, hi) in
    rw q (omega (arith, small))

header_node-some :
    (m : Memory) (ptr : ℕ) (name : List ℕ)
    → IsString m ptr name
    → length (strip name) < 128
    → header_node m ptr (c_string 130 m ptr)
      ≡ some (file_node name (get_octal m (ptr + 124) 11) ptr (read_u8 m (ptr + 156)))
header_node-some m ptr name s short =
    ap (header_node m ptr) (c_string-IsString 130 (omega (arith, short, strip-length name)) s)
    ∙ rw (ltb-of_lt (length (strip name)) 128 short) refl

walk_same :
    (m : Memory) (stop ptr : ℕ) (node : File) (fuel : ℕ) (nodes : List File)
    → ptr < stop
    → read_u8 m ptr ≢ 0
    → next_header ptr (get_octal m (ptr + 124) 11) ≡ ptr
    → header_node m ptr (c_string 130 m ptr) ≡ some node
    → walk fuel m stop ptr nodes ≡ unfinished
unfolding walk
walk_same m stop ptr node zero nodes inside some' same h = refl
walk_same m stop ptr node (suc fuel) nodes inside some' same h =
    rw (ltb-of_lt ptr stop inside, ==-of_ne (read_u8 m ptr) 0 some', same, h)
      (elim (Bool-cases (ltb (length nodes) 128)) [
        | inl e ↦ rw e (walk_same m stop ptr node fuel (nodes ++ (node ∷ [])) inside some' same h)
        | inr e ↦ rw e (walk_same m stop ptr node fuel nodes inside some' same h)
      ])

-- When a region below 4 GB starts with a header that has a name short enough and a size field from
-- 2^32 - 1023 to 2^32 - 512, `tar_init` does not end within any number of rounds.
pub tar_init-unfinished :
    (fuel address size : ℕ) (k : Disk) (name : List ℕ)
    → 0 < size
    → address + size < 2 ^ 32
    → IsString k.memory address name
    → 0 < length name
    → length (strip name) < 128
    → 2 ^ 32 - 1023 ≤ get_octal k.memory (address + 124) 11
    → get_octal k.memory (address + 124) 11 ≤ 2 ^ 32 - 512
    → tar_init fuel address size k ≡ unfinished
unfolding tar_init
tar_init-unfinished fuel address size k name some' small s named short lo hi =
    let sum : add32 address size ≡ address + size = omega (arith, small) in
    rw sum (
      ap (set_up k) (
        walk_same k.memory (address + size) address _ fuel [] (omega (arith, some'))
          (first_char name named s) (next_header_same address _ (omega (arith, small)) lo hi)
          (header_node-some k.memory address name s short)))
