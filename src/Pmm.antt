-- ===== src/Pmm.antt =====
-- The physical memory manager, src/pmm.c: a bitmap with one bit for each 4 KB frame.
pub mod Bitmap
pub mod Count
pub mod Region
pub mod Block
pub mod Alloc
pub mod Laws
pub mod Spec
pub mod Spent
pub mod Refine
pub mod Init
use my_own_operating_system.Base.{
  ℕ, zero, suc, ◌+◌, ◌/◌, ◌%◌, ◌^◌, bit_and, bit_or, Bool, not, Option, none, some, ltb, leb, ◌==◌,
  if◌then◌else◌, update, add32, sub32, mul32, not32,
}

abbrev pub block_size : ℕ
block_size = 4096

-- The allocator's static variables. `bitmap` is the array of 32-bit words at `_kernel_end`.
pub record Pmm : Type 0 where
  pub bitmap : ℕ → ℕ
  pub ram_size : ℕ
  pub total_blocks : ℕ
  pub used_blocks : ℕ

unfoldable pub bitmap_set : ℕ → Pmm → Pmm
bitmap_set bit s = record s {
  bitmap = update s.bitmap (bit / 32) (bit_or (s.bitmap (bit / 32)) (2 ^ (bit % 32)));
}

unfoldable pub bitmap_clear : ℕ → Pmm → Pmm
bitmap_clear bit s = record s {
  bitmap = update s.bitmap (bit / 32) (bit_and (s.bitmap (bit / 32)) (not32 (2 ^ (bit % 32))));
}

unfoldable pub bitmap_test : ℕ → Pmm → Bool
bitmap_test bit s = not (bit_and (s.bitmap (bit / 32)) (2 ^ (bit % 32)) == 0)

-- The body of the loop of `pmm_reserve_region`.
unfoldable pub reserve_block : ℕ → Pmm → Pmm
unfolding bitmap_set bitmap_test
reserve_block block s =
    if ltb block s.total_blocks
    then (if bitmap_test block s
        then s
        else record (bitmap_set block s) { used_blocks = add32 s.used_blocks 1 })
    else s

-- `left` rounds are to go, from index `i`.
unfoldable pub reserve_loop : ℕ → ℕ → ℕ → Pmm → Pmm
unfolding reserve_block
reserve_loop start i zero s = s
reserve_loop start i (suc left) s =
    reserve_loop start (i + 1) left (reserve_block (add32 start i) s)

unfoldable pub reserve_region : ℕ → ℕ → Pmm → Pmm
unfolding reserve_loop
reserve_region base size s =
    reserve_loop (base / block_size) 0 (sub32 (add32 size block_size) 1 / block_size) s

-- The body of the loop of `pmm_free_region`, and of `pmm_free_block`.
unfoldable pub release_block : ℕ → Pmm → Pmm
unfolding bitmap_clear bitmap_test
release_block block s =
    if ltb block s.total_blocks
    then (if bitmap_test block s
        then record (bitmap_clear block s) { used_blocks = sub32 s.used_blocks 1 }
        else s)
    else s

unfoldable pub release_loop : ℕ → ℕ → ℕ → Pmm → Pmm
unfolding release_block
release_loop start i zero s = s
release_loop start i (suc left) s =
    release_loop start (i + 1) left (release_block (add32 start i) s)

unfoldable pub free_region : ℕ → ℕ → Pmm → Pmm
unfolding release_loop
free_region base size s = release_loop (base / block_size) 0 (size / block_size) s

-- The inner loop of `pmm_alloc_block`, at bit `j` of word `i`: `some` is a `return`, with the
-- address (0 for NULL) and the state; `none` goes on with the next word.
unfoldable pub scan_word : ℕ → ℕ → ℕ → Pmm → Option (ℕ × Pmm)
unfolding bitmap_set bitmap_test
scan_word i j zero s = none
scan_word i j (suc left) s =
    let bit = add32 (mul32 i 32) j in
    let rest = scan_word i (j + 1) left s in
    if leb s.total_blocks bit
    then some (0, s)
    else if bitmap_test bit s
    then rest
    else some
        (mul32 bit block_size, record (bitmap_set bit s) { used_blocks = add32 s.used_blocks 1 })

-- The outer loop, at word `i`.
unfoldable pub scan_words : ℕ → ℕ → Pmm → ℕ × Pmm
unfolding scan_word
scan_words i zero s = (0, s)
scan_words i (suc left) s =
    let rest = scan_words (i + 1) left s in
    if s.bitmap i == 0xFFFF_FFFF
    then rest
    else elim (scan_word i 0 32 s) [ none ↦ rest | some r ↦ r ]

unfoldable pub alloc_block : Pmm → ℕ × Pmm
unfolding scan_words
alloc_block s = scan_words 0 (add32 s.total_blocks 31 / 32) s

unfoldable pub free_block : ℕ → Pmm → Pmm
unfolding release_block
free_block ptr s = release_block (ptr / block_size) s

unfoldable pub get_total_blocks : Pmm → ℕ
get_total_blocks s = s.total_blocks

unfoldable pub get_free_blocks : Pmm → ℕ
get_free_blocks s = sub32 s.total_blocks s.used_blocks

unfoldable pub get_used_blocks : Pmm → ℕ
get_used_blocks s = s.used_blocks
