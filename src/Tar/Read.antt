-- ===== src/Tar/Read.antt =====
-- What `tar_read` of src/tar.c copies.
use my_own_operating_system.Base.{
  ℕ, zero, suc, ◌+◌, ◌-◌, ◌^◌, ◌≤◌, ◌<◌, min, ◌≡◌, refl, ◌∙◌, ◌⊎◌, inl, inr, arith, leb, ◌==◌,
  Bool-cases, eq_of_==, ne_of_==, ==-of_eq, ==-of_ne, update, u32, add32,
}
use my_own_operating_system.Base.Memory.{Memory}
use my_own_operating_system.Tar.{memcpy_loop, memcpy, File, read_size, tar_read}

-- From `m` to `m'`, `n` bytes at `dest` became those that stood at `src`, and no other changed.
pub record Copied (dest src n : ℕ) (m m' : Memory) : Type 0 where
  pub bytes : (i : ℕ) → i < n → m' (dest + i) ≡ m (src + i)
  pub before : (a : ℕ) → a < dest → m' a ≡ m a
  pub behind : (a : ℕ) → dest + n ≤ a → m' a ≡ m a

-- Two ranges of `n` bytes that do not overlap.
abbrev pub Apart : ℕ → ℕ → ℕ → Type 0
Apart dest src n = (dest + n ≤ src) ⊎ (src + n ≤ dest)

module _ (dest src : ℕ) where
  memcpy_loop_other :
      (i left : ℕ) (m : Memory) (a : ℕ)
      → dest + i + left ≤ 2 ^ 32
      → (a < dest + i) ⊎ (dest + i + left ≤ a)
      → memcpy_loop dest src i left m a ≡ m a
  unfolding memcpy_loop
  memcpy_loop_other i zero m a fits h = refl
  memcpy_loop_other i (suc left) m a fits h =
      memcpy_loop_other (i + 1) left (update m (u32 (dest + i)) (m (u32 (src + i)))) a (omega arith)
        (ground arith)
      ∙ rw (==-of_ne a (u32 (dest + i)) (ground arith))

  memcpy_loop_lem :
      (i left : ℕ) (m : Memory) (j : ℕ)
      → dest + i + left ≤ 2 ^ 32
      → src + i + left ≤ 2 ^ 32
      → (dest + i + left ≤ src + i) ⊎ (src + i + left ≤ dest + i)
      → i ≤ j
      → j < i + left
      → memcpy_loop dest src i left m (dest + j) ≡ m (src + j)
  unfolding memcpy_loop
  memcpy_loop_lem i zero m j fits fits' clear lo hi = absurd (omega arith)
  memcpy_loop_lem i (suc left) m j fits fits' clear lo hi = elim (Bool-cases (i == j)) [
    | inl here ↦
        let e : i ≡ j = eq_of_== i j here in
        let d : u32 (dest + i) ≡ dest + j = omega arith in
        let s : u32 (src + i) ≡ src + j = omega arith in
        memcpy_loop_other (i + 1) left (update m (u32 (dest + i)) (m (u32 (src + i)))) (dest + j)
          (omega arith) (inl (omega arith))
        ∙ rw (d, s, ==-of_eq (dest + j) (dest + j) refl)
    | inr there ↦
        memcpy_loop_lem (i + 1) left (update m (u32 (dest + i)) (m (u32 (src + i)))) j (omega arith)
          (omega arith) (ground arith) (omega (arith, ne_of_== i j there)) (omega arith)
        ∙ rw (==-of_ne (src + j) (u32 (dest + i)) (ground (arith, ne_of_== i j there)))
  ]

  memcpy-Copied :
      (n : ℕ) (m : Memory)
      → dest + n ≤ 2 ^ 32
      → src + n ≤ 2 ^ 32
      → Apart dest src n
      → Copied dest src n m (memcpy dest src n m)
  unfolding memcpy
  memcpy-Copied n m hd hs clear = record {
    bytes = λ i h.
        memcpy_loop_lem 0 n m i (omega arith) (omega arith) (ground arith) (omega arith)
          (omega arith);
    before = λ a h. memcpy_loop_other 0 n m a (omega arith) (inl (omega arith));
    behind = λ a h. memcpy_loop_other 0 n m a (omega arith) (inr (omega arith));
  }

read_size-min :
    (node : File) (offset size : ℕ)
    → node.length < 2 ^ 32
    → offset + size < 2 ^ 32
    → read_size node offset size ≡ min size (node.length - offset)
unfolding read_size
read_size-min node offset size hl hs = ground arith

-- When neither the file nor the sum of offset and size leaves 32 bits, and the buffer overlaps
-- neither the end of memory nor the file, `tar_read` returns the size cut to what is left of the
-- file, copies exactly that many bytes from the offset on, and changes no other byte.
pub tar_read-Copied :
    (node : File) (offset size buffer : ℕ) (m : Memory)
    → node.impl + node.length < 2 ^ 32
    → offset + size < 2 ^ 32
    → buffer + size ≤ 2 ^ 32
    → (buffer + size ≤ node.impl) ⊎ (node.impl + node.length ≤ buffer)
    → ((tar_read node offset size buffer m).0 ≡ min size (node.length - offset))
      × Copied buffer
          (node.impl + offset)
          (min size (node.length - offset))
          m
          (tar_read node offset size buffer m).1
unfolding tar_read
tar_read-Copied node offset size buffer m hl hs hb clear =
    elim (Bool-cases (leb node.length offset)) [
      | inl beyond ↦
          let z : min size (node.length - offset) ≡ 0 = ground arith in
          rw (beyond, z)
            (
              refl,
              record {
                bytes = λ i h. absurd (omega arith);
                before = λ a h. refl;
                behind = λ a h. refl;
              },
            )
      | inr inside ↦
          let e : read_size node offset size ≡ min size (node.length - offset) =
            read_size-min node offset size (omega arith) hs in
          let s : add32 node.impl offset ≡ node.impl + offset = ground arith in
          rw (inside, e, s)
            (
              refl,
              memcpy-Copied buffer (node.impl + offset) (min size (node.length - offset)) m
                  (ground arith) (ground arith) (ground arith),
            )
    ]
