-- ===== src/Pmm/Init/Reserve.antt =====
-- The zones that `pmm_init` reserves last: the first megabyte, the kernel with its bitmap, the
-- boot modules.
use my_own_operating_system.Base.{
  ℕ, zero, suc, ◌+◌, ◌-◌, ◌*◌, ◌/◌, ◌^◌, ◌≤◌, ◌<◌, bit_and, ◌≡◌, refl, sym, ap, ◌∙◌, ◌≢◌, inl, inr,
  arith, ◌==◌, Bool-cases, eq_of_==, ne_of_==, add32, sub32,
}
use my_own_operating_system.Base.Memory.{Memory, read_u32}
use my_own_operating_system.Pmm.{Pmm, block_size, reserve_region}
use my_own_operating_system.Pmm.Bitmap.{mark}
use my_own_operating_system.Pmm.Block.{IsValid}
use my_own_operating_system.Pmm.Region.{
  Painted, Painted-grows, reserve_region-Painted, first_block, round_up,
}
use my_own_operating_system.Pmm.Init.{
  reserve_modules, reserve_zones, bitmap_size, mbi_flags, mbi_mods_addr, mbi_mods_count,
}

-- Nothing that was marked is freed, and the tracked size stays.
pub record Grown (s t : Pmm) : Type 0 where
  pub kept : (k : ℕ) → mark s k ≡ 1 → mark t k ≡ 1
  pub total : t.total_blocks ≡ s.total_blocks
  pub valid : IsValid t

Grown-refl : (s : Pmm) → IsValid s → Grown s s
Grown-refl s v = record { kept = λ k h. h; total = refl; valid = v }

Grown-trans : {s t u : Pmm} → Grown s t → Grown t u → Grown s u
Grown-trans p q = record {
  kept = λ k h. q.kept k (p.kept k h);
  total = q.total ∙ p.total;
  valid = q.valid;
}

Grown-of_Painted : {lo hi : ℕ} {s t : Pmm} → Painted 1 lo hi s t → Grown s t
Grown-of_Painted p = record { kept = λ k h. Painted-grows p k h; total = p.total; valid = p.valid }

-- Every tracked frame from `lo` up to `hi` is marked.
abbrev pub IsReserved : Pmm → ℕ → ℕ → Type 0
IsReserved t lo hi = (k : ℕ) → lo ≤ k → k < hi → k < t.total_blocks → mark t k ≡ 1

IsReserved-of_Painted : {lo hi : ℕ} {s t : Pmm} → Painted 1 lo hi s t → IsReserved t lo hi
IsReserved-of_Painted p k a b c = p.inside k a b (rw (sym p.total) c)

IsReserved-Grown : {lo hi : ℕ} {s t : Pmm} → Grown s t → IsReserved s lo hi → IsReserved t lo hi
IsReserved-Grown g r k a b c = g.kept k (r k a b (rw (sym g.total) c))

-- `mod_start` and the size of module `i`, as the loop reads them.
abbrev pub mod_start : Memory → ℕ → ℕ → ℕ
mod_start m mods i = read_u32 m (mods + i * 16)

abbrev pub mod_size : Memory → ℕ → ℕ → ℕ
mod_size m mods i = sub32 (read_u32 m (mods + i * 16 + 4)) (mod_start m mods i)

pub read_u32-lt : (m : Memory) (a : ℕ) → read_u32 m a < 2 ^ 32
unfolding read_u32
read_u32-lt m a = omega arith

module _ (m : Memory) (mods : ℕ) where
  reserve_module-Painted :
      (i : ℕ) (s : Pmm)
      → IsValid s
      → Painted 1
          (first_block (mod_start m mods i))
          (first_block (mod_start m mods i) + round_up (mod_size m mods i))
          s
          (reserve_region (mod_start m mods i) (mod_size m mods i) s)
  reserve_module-Painted i s v =
      reserve_region-Painted (mod_start m mods i) (mod_size m mods i) s
        (read_u32-lt m (mods + i * 16)) (omega arith) v

  reserve_modules-Grown :
      (i left : ℕ) (s : Pmm) → IsValid s → Grown s (reserve_modules m mods i left s)
  unfolding reserve_modules
  reserve_modules-Grown i zero s v = Grown-refl s v
  reserve_modules-Grown i (suc left) s v =
      let first = reserve_module-Painted i s v in
      Grown-trans (Grown-of_Painted first) (
        reserve_modules-Grown (i + 1) left
          (reserve_region (mod_start m mods i) (mod_size m mods i) s) first.valid)

  -- Each module of the loop ends up reserved.
  reserve_modules-IsReserved :
      (i left j : ℕ) (s : Pmm)
      → IsValid s
      → i ≤ j
      → j < i + left
      → IsReserved
          (reserve_modules m mods i left s)
          (first_block (mod_start m mods j))
          (first_block (mod_start m mods j) + round_up (mod_size m mods j))
  unfolding reserve_modules
  reserve_modules-IsReserved i zero j s v lo hi = absurd (omega arith)
  reserve_modules-IsReserved i (suc left) j s v lo hi = elim (Bool-cases (i == j)) [
    | inl here ↦
        let e : i ≡ j = eq_of_== i j here in
        let first = reserve_module-Painted i s v in
        rw (← e) (
          IsReserved-Grown
            (reserve_modules-Grown (i + 1) left
              (reserve_region (mod_start m mods i) (mod_size m mods i) s) first.valid)
            (IsReserved-of_Painted first))
    | inr later ↦
        reserve_modules-IsReserved (i + 1) left j
          (reserve_region (mod_start m mods i) (mod_size m mods i) s)
          (reserve_module-Painted i s v).valid (omega (arith, ne_of_== i j later)) (omega arith)
  ]

-- What `pmm_init` guarantees to be out of the allocator's reach.
pub record IsSheltered (m : Memory) (mbi kernel_start kernel_end : ℕ) (t : Pmm) : Type 0 where
  pub low : IsReserved t 0 256
  pub image :
      IsReserved t
        (first_block kernel_start)
        (first_block kernel_start + (kernel_end + bitmap_size t - kernel_start + 4095) / block_size)
  pub modules :
      bit_and (mbi_flags m mbi) 8 ≢ 0
      → (j : ℕ) → j < mbi_mods_count m mbi
      → IsReserved t (first_block (mod_start m (mbi_mods_addr m mbi) j)) (
          first_block (mod_start m (mbi_mods_addr m mbi) j)
          + round_up (mod_size m (mbi_mods_addr m mbi) j))

module _ (m : Memory) (mbi kernel_start kernel_end : ℕ) (s : Pmm) (v : IsValid s)
    (ordered : kernel_start ≤ kernel_end) (fits : kernel_end + bitmap_size s + 4095 < 2 ^ 32) where
  low_state : Pmm
  low_state = reserve_region 0 0x100000 s

  abbrev image_size : ℕ
  image_size = sub32 (add32 kernel_end (bitmap_size s)) kernel_start

  image_state : Pmm
  unfolding low_state
  image_state = reserve_region kernel_start image_size low_state

  low-Painted : Painted 1 0 256 s low_state
  unfolding low_state
  low-Painted = reserve_region-Painted 0 0x100000 s (omega arith) (omega arith) v

  image-Painted :
      Painted 1
        (first_block kernel_start)
        (first_block kernel_start + round_up image_size)
        low_state
        image_state
  unfolding image_state
  image-Painted =
      reserve_region-Painted kernel_start image_size low_state (omega arith) (omega arith)
        low-Painted.valid

  image_size_exact :
      round_up image_size ≡ (kernel_end + bitmap_size s - kernel_start + 4095) / block_size
  image_size_exact = omega arith

  image-Grown : Grown s image_state
  image-Grown = Grown-trans (Grown-of_Painted low-Painted) (Grown-of_Painted image-Painted)

  same_size : {t : Pmm} → Grown s t → bitmap_size t ≡ bitmap_size s
  same_size g = ap (λ (n : ℕ). (n + 31) / 32 * 4) g.total

  -- From the state with low memory and the image reserved, any growth keeps both.
  sheltered_low_image :
      {t : Pmm}
      → Grown image_state t
      → IsReserved t 0 256
        × IsReserved t (first_block kernel_start) (
            first_block kernel_start
            + (kernel_end + bitmap_size t - kernel_start + 4095) / block_size)
  sheltered_low_image g = (
    IsReserved-Grown (Grown-trans (Grown-of_Painted image-Painted) g)
        (IsReserved-of_Painted low-Painted),
    rw (same_size (Grown-trans image-Grown g), ← image_size_exact)
        (IsReserved-Grown g (IsReserved-of_Painted image-Painted)),
  )

  pub reserve_zones-IsSheltered :
      let t = reserve_zones m mbi kernel_start kernel_end s in
      Grown s t × IsSheltered m mbi kernel_start kernel_end t
  unfolding reserve_zones image_state
  reserve_zones-IsSheltered = elim (Bool-cases (bit_and (mbi_flags m mbi) 8 == 0)) [
    | inl none' ↦
        let both = sheltered_low_image (Grown-refl image_state image-Painted.valid) in
        rw none' (
          image-Grown,
          record {
            low = both.0;
            image = both.1;
            modules = λ ne j h. absurd (ne (eq_of_== _ _ none'));
          },
        )
    | inr some' ↦
        let grown =
          reserve_modules-Grown m (mbi_mods_addr m mbi) 0 (mbi_mods_count m mbi) image_state
            image-Painted.valid in
        let both = sheltered_low_image grown in
        rw some' (
          Grown-trans image-Grown grown,
          record {
            low = both.0;
            image = both.1;
            modules = λ ne j h.
                reserve_modules-IsReserved m (mbi_mods_addr m mbi) 0 (mbi_mods_count m mbi) j
                  image_state image-Painted.valid (omega arith) (omega arith);
          },
        )
  ]
