-- ===== src/Boot.antt =====
-- The self-test of the frame allocator that `kernel_main` of src/kernel.c runs at boot.
pub mod Restored
pub mod Passes
pub mod Paging
pub mod Initrd
pub mod Order
use my_own_operating_system.Base.{ℕ, ◌%◌, Bool, not, ◌||◌, ◌==◌, if◌then◌else◌}
use my_own_operating_system.Pmm.{Pmm, alloc_block, free_block, get_free_blocks}

-- How the test ends: each of the failures halts the kernel.
pub data Verdict : Type 0 where
  passed null_block misaligned not_reused leaked : Verdict

abbrev pub is_misaligned : ℕ → Bool
is_misaligned block = not (block % 4096 == 0)

-- The last part: the blocks are given back, and the free blocks are counted again.
unfoldable pub leak_test : ℕ → ℕ → ℕ → ℕ → Pmm → Verdict × Pmm
leak_test free_blocks block1 block_reuse block3 s =
    let cleaned = free_block block3 (free_block block_reuse (free_block block1 s)) in
    if get_free_blocks cleaned == free_blocks then (passed, cleaned) else (leaked, cleaned)

-- The middle part: `block_reuse` is the block allocated after `block2` was freed.
unfoldable pub reuse_test : ℕ → ℕ → ℕ → ℕ → ℕ × Pmm → Verdict × Pmm
unfolding leak_test
reuse_test free_blocks block1 block2 block3 (block_reuse, s) =
    if block_reuse == block2
    then leak_test free_blocks block1 block_reuse block3 s
    else (not_reused, s)

-- The checks of the three blocks.
unfoldable pub block_test : ℕ → ℕ → ℕ → ℕ → Pmm → Verdict × Pmm
unfolding reuse_test
block_test free_blocks block1 block2 block3 s =
    if (block1 == 0) || ((block2 == 0) || (block3 == 0))
    then (null_block, s)
    else if is_misaligned block1 || (is_misaligned block2 || is_misaligned block3)
    then (misaligned, s)
    else reuse_test free_blocks block1 block2 block3 (alloc_block (free_block block2 s))

-- The test as a whole.
unfoldable pub self_test : Pmm → Verdict × Pmm
unfolding block_test
self_test s =
    let (block1, s1) = alloc_block s in
    let (block2, s2) = alloc_block s1 in
    let (block3, s3) = alloc_block s2 in block_test (get_free_blocks s) block1 block2 block3 s3
