-- ===== src/Boot/Initrd.antt =====
-- The RAM disk in `kernel_main` of src/kernel.c: the first boot module, which `pmm_init` has put out
-- of the allocator's reach.
use my_own_operating_system.Base.{
  ℕ, zero, suc, ◌+◌, ◌-◌, ◌*◌, ◌/◌, ◌%◌, ◌^◌, ◌≤◌, ◌<◌, bit_and, ◌≡◌, refl, ap, ◌∙◌, ◌≢◌, ◌⊎◌, inl,
  inr, not, ◌&&◌, some, List, [], ◌∷◌, arith, ltb, ◌==◌, if◌then◌else◌, Bool-cases, ne_of_==,
  lt_of_ltb, le_of_ltb, sub32,
}
use mathlib.Core.Path.{subst}
use my_own_operating_system.Base.Memory.{Memory, read_u32}
use my_own_operating_system.Pmm.{Pmm, block_size, alloc_block}
use my_own_operating_system.Pmm.Bitmap.{IsWords}
use my_own_operating_system.Pmm.Block.{IsValid, took, took-IsValid, total-set}
use my_own_operating_system.Pmm.Alloc.{IsFirst, alloc_block-Outcome}
use my_own_operating_system.Pmm.Init.{init, mbi_flags, mbi_mods_count, mbi_mods_addr, mbi_mmap_addr}
use my_own_operating_system.Pmm.Init.Map.{IsMap}
use my_own_operating_system.Pmm.Init.Reserve.{mod_start, IsReserved}
use my_own_operating_system.Pmm.Init.Total.{IsReady, init-IsReady, mmap_end_of}
use my_own_operating_system.Vmm.Map.Table.{took-kept}
use my_own_operating_system.Tar.Disk.{Disk}
use my_own_operating_system.Tar.Init.{Walked, loaded, tar_init}

-- `initrd_start` and `initrd_end`.
unfoldable pub initrd_of : Memory → ℕ → ℕ × ℕ
initrd_of m mbi =
    let mods = mbi_mods_addr m mbi in
    if bit_and (mbi_flags m mbi) 8 == 0
    then (0, 0)
    else if mbi_mods_count m mbi == 0
    then (0, 0)
    else (read_u32 m mods, read_u32 m (mods + 4))

-- The RAM disk is mounted if there is one.
abbrev pub mount_at : ℕ → ℕ × ℕ → Disk → Walked Disk
mount_at fuel (start, end) k =
    if not (start == 0) && ltb start end then tar_init fuel start (sub32 end start) k else loaded k

unfoldable pub mount : ℕ → ℕ → Disk → Walked Disk
unfolding tar_init initrd_of
mount fuel mbi k = mount_at fuel (initrd_of k.memory mbi) k

-- A frame that `pmm_alloc_block` may return does not overlap `[start, end)`.
abbrev pub ApartFrom : ℕ → ℕ → ℕ → Type 0
ApartFrom start end address = (address + block_size ≤ start) ⊎ (end ≤ address)

module _ (m : Memory) (mbi kernel_start kernel_end : ℕ) (t : Pmm)
    (ready : IsReady m kernel_start kernel_end mbi t) where
  -- The frames of the first module are in use.
  initrd-IsReserved :
      (start end : ℕ)
      → initrd_of m mbi ≡ (start, end)
      → start < end
      → end + 4095 < 2 ^ 32
      → IsReserved t (start / block_size) (start / block_size + (end - start + 4095) / block_size)
  unfolding initrd_of
  initrd-IsReserved start end e some' small = elim (Bool-cases (bit_and (mbi_flags m mbi) 8 == 0)) [
    | inl no' ↦ absurd (nothing (rw no' at e))
    | inr yes' ↦ elim (Bool-cases (mbi_mods_count m mbi == 0)) [
      | inl none' ↦ absurd (nothing (rw (yes', none') at e))
      | inr one ↦ reserved (ne_of_== _ _ yes') (ne_of_== _ _ one) (rw (yes', one) at e)
    ]
  ]
    where
      nothing : Path (ℕ × ℕ) (0, 0) (start, end) → ⊥
      nothing z =
          absurd (omega (arith, some', ap (λ (p : ℕ × ℕ). p.0) z, ap (λ (p : ℕ × ℕ). p.1) z))

      reserved :
          bit_and (mbi_flags m mbi) 8 ≢ 0
          → mbi_mods_count m mbi ≢ 0
          → Path
              (ℕ × ℕ)
              (read_u32 m (mbi_mods_addr m mbi), read_u32 m (mbi_mods_addr m mbi + 4))
              (start, end)
          → IsReserved t
              (start / block_size)
              (start / block_size + (end - start + 4095) / block_size)
      reserved flag count z k lo hi tracked =
          let e0 : read_u32 m (mbi_mods_addr m mbi) ≡ start = ap (λ (p : ℕ × ℕ). p.0) z in
          let e1 : read_u32 m (mbi_mods_addr m mbi + 4) ≡ end = ap (λ (p : ℕ × ℕ). p.1) z in
          let a0 : mbi_mods_addr m mbi + 0 * 16 ≡ mbi_mods_addr m mbi = omega arith in
          let s0 : mod_start m (mbi_mods_addr m mbi) 0 ≡ start = ap (read_u32 m) a0 ∙ e0 in
          let s1 : read_u32 m (mbi_mods_addr m mbi + 0 * 16 + 4) ≡ end =
            ap (λ a. read_u32 m (a + 4)) a0 ∙ e1 in
          ready.sheltered.modules flag 0 (omega (arith, count)) k (omega (arith, lo, s0))
            (omega (arith, hi, s0, s1, some', small)) tracked

-- The addresses that so many calls of `pmm_alloc_block` return, one after the other.
abbrev pub allocations : ℕ → Pmm → List ℕ
allocations zero t = []
allocations (suc n) t = let (address, t') = alloc_block t in address ∷ allocations n t'

-- Each address is NULL or that of a frame that does not overlap `[start, end)`.
abbrev pub AllApart : ℕ → ℕ → List ℕ → Type 0
AllApart start end [] = Unit
AllApart start end (a ∷ as') = ((a ≡ 0) ⊎ ApartFrom start end a) × AllApart start end as'

module _ (start end : ℕ) (aligned : start % block_size ≡ 0) (some' : start < end) where
  -- The number behind the last frame of the module.
  abbrev behind : ℕ
  behind = start / block_size + (end - start + 4095) / block_size

  free-ApartFrom :
      (t : Pmm) (b : ℕ)
      → IsReserved t (start / block_size) behind
      → IsFirst t b
      → ApartFrom start end (b * block_size)
  free-ApartFrom t b reserved first = elim (Bool-cases (ltb b (start / block_size))) [
    | inl below ↦ inl (omega (arith, lt_of_ltb _ _ below))
    | inr from ↦ elim (Bool-cases (ltb b behind)) [
      | inl inside ↦ absurd (
          omega (
            arith,
            first.free,
            reserved b (le_of_ltb _ _ from) (lt_of_ltb _ _ inside) first.inside,
          ))
      | inr above ↦ inr (omega (arith, le_of_ltb _ _ above, aligned, some'))
    ]
  ]

  allocations-AllApart :
      (n : ℕ) (t : Pmm)
      → IsValid t
      → IsReserved t (start / block_size) behind
      → AllApart start end (allocations n t)
  allocations-AllApart zero t valid reserved = tt
  allocations-AllApart (suc n) t valid reserved = elim (alloc_block-Outcome t valid) [
    | inr (full, e) ↦ rw e (inl refl, allocations-AllApart n t valid reserved)
    | inl (b, first, e) ↦ rw e (
      inr (free-ApartFrom t b reserved first),
      allocations-AllApart n (took b t) (took-IsValid valid first.inside first.free)
          (λ k lo hi tracked.
            took-kept t b k
              (reserved k lo hi (subst (λ total. k < total) (total-set b t) tracked))),
    )
  ]

module _ (m : Memory) (mbi kernel_start kernel_end : ℕ) where
  -- Under the conditions of `init-IsReady`, when the first Multiboot module starts on a page
  -- boundary and does not end within 4095 bytes of 4 GB or beyond, `pmm_init` ends in a state from
  -- which any number of calls of `pmm_alloc_block` in a row return NULL or frames that do not
  -- overlap the module.
  pub alloc_block-initrd :
      (fuel n : ℕ) (s : Pmm) (start end : ℕ)
      → mbi ≢ 0
      → bit_and (mbi_flags m mbi) 0x40 ≢ 0
      → kernel_start ≤ kernel_end
      → kernel_end + 2 ^ 17 + 4095 < 2 ^ 32
      → IsWords s
      → IsMap m (mmap_end_of m mbi) (mbi_mmap_addr m mbi)
      → mmap_end_of m mbi < mbi_mmap_addr m mbi + fuel
      → 0 < fuel
      → initrd_of m mbi ≡ (start, end)
      → start % block_size ≡ 0
      → start < end
      → end + 4095 < 2 ^ 32
      → (t : Pmm) × (init m kernel_start kernel_end fuel mbi s ≡ some t)
        × AllApart start end (allocations n t)
  alloc_block-initrd fuel n s start end given has_map ordered fits w map enough pos e aligned some'
        small =
      let (t, run, ready) =
        init-IsReady m kernel_start kernel_end mbi fuel s given has_map ordered fits w map enough
          pos in
      (
        t,
        run,
        allocations-AllApart start end aligned some' n t ready.valid
            (initrd-IsReserved m mbi kernel_start kernel_end t ready start end e some' small),
      )
