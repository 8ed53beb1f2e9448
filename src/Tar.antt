-- ===== src/Tar.antt =====
-- Reading the RAM disk's archive: the numbers of a header and the bytes of a file, src/tar.c, with
-- `memcpy` of src/string.c.
pub mod Octal
pub mod Read
pub mod Names
pub mod Listing
pub mod Disk
pub mod Init
use my_own_operating_system.Base.{
  ℕ, zero, suc, ◌+◌, ◌-◌, Bool, ◌&&◌, ltb, leb, ◌==◌, if◌then◌else◌, length, update, u32, add32,
  sub32, mul32,
}
use my_own_operating_system.Base.Memory.{Memory, read_u8}
use my_own_operating_system.Vfs.{FsNode}

abbrev pub is_octal : ℕ → Bool
is_octal c = leb 48 c && leb c 55

-- The loop of `get_octal`, at the character at `a`, with `left` characters of the field to go.
unfoldable pub octal_loop : Memory → ℕ → ℕ → ℕ → ℕ
unfolding read_u8
octal_loop m a zero out = out
octal_loop m a (suc left) out =
    let c = read_u8 m a in
    let next = octal_loop m (a + 1) left (add32 (mul32 out 8) (c - 48)) in
    let skip = octal_loop m (a + 1) left out in
    if c == 0 then out else if is_octal c then next else if c == 32 then out else skip

unfoldable pub get_octal : Memory → ℕ → ℕ → ℕ
unfolding octal_loop
get_octal m a len = octal_loop m a len 0

-- The loop of `memcpy`, at byte `i`.
unfoldable pub memcpy_loop : ℕ → ℕ → ℕ → ℕ → Memory → Memory
memcpy_loop dest src i zero m = m
memcpy_loop dest src i (suc left) m =
    memcpy_loop dest src (i + 1) left (update m (u32 (dest + i)) (m (u32 (src + i))))

unfoldable pub memcpy : ℕ → ℕ → ℕ → Memory → Memory
unfolding memcpy_loop
memcpy dest src len m = memcpy_loop dest src 0 len m

-- The functions that the nodes of src/tar.c point to.
pub data TarFn : Type 0 where
  reads : TarFn
  lists : TarFn
  finds : TarFn

abbrev pub File : Type 0
File = FsNode TarFn

-- How many bytes `tar_read` copies.
unfoldable pub read_size : File → ℕ → ℕ → ℕ
read_size node offset size =
    if leb node.length offset
    then 0
    else if ltb node.length (add32 offset size)
    then sub32 node.length offset
    else size

-- `tar_read`: the number it returns, and memory after it.
unfoldable pub tar_read : File → ℕ → ℕ → ℕ → Memory → ℕ × Memory
tar_read node offset size buffer m =
    let n = read_size node offset size in
    if leb node.length offset then (0, m) else (n, memcpy buffer (add32 node.impl offset) n m)
