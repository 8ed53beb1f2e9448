-- ===== src/Base/Memory.antt =====
-- Memory as bytes by address, read in little-endian order as x86 does.
use Prim.Native.Nat.{ℕ, ◌+◌, ◌*◌, ◌%◌, ◌^◌}

abbrev pub Memory : Type 0
Memory = ℕ → ℕ

unfoldable pub read_u8 : Memory → ℕ → ℕ
read_u8 m a = m (a % 2 ^ 32) % 2 ^ 8

unfoldable pub read_u16 : Memory → ℕ → ℕ
unfolding read_u8
read_u16 m a = read_u8 m a + read_u8 m (a + 1) * 2 ^ 8

unfoldable pub read_u32 : Memory → ℕ → ℕ
unfolding read_u16
read_u32 m a = read_u16 m a + read_u16 m (a + 2) * 2 ^ 16

unfoldable pub read_u64 : Memory → ℕ → ℕ
unfolding read_u32
read_u64 m a = read_u32 m a + read_u32 m (a + 4) * 2 ^ 32
