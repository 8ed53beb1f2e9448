-- ===== src/Vmm/Walk.antt =====
-- The page walk that the x86 processor does, as the specification of a mapping of src/vmm.c.
use my_own_operating_system.Base.{
  ℕ, ◌+◌, ◌*◌, ◌/◌, ◌%◌, ◌^◌, ◌<◌, bit_and, bit_or, ◌≡◌, Option, none, some, arith, ◌==◌,
  if◌then◌else◌,
}
use my_own_operating_system.Base.Bits.{bit_and-low, bit_and_shifted, bit_or-disjoint}
use my_own_operating_system.Vmm.{Vmm, flag_present, pde_address, pte_address, table_of}

-- The page table entry by which the processor translates `virt`, if both levels are present.
unfoldable pub lookup : Vmm → ℕ → Option ℕ
lookup v virt =
    let pde = v.ram (pde_address v.directory virt) in
    let pte = v.ram (pte_address (table_of pde) virt) in
    if bit_and pde flag_present == 0
    then none
    else if bit_and pte flag_present == 0
    then none
    else some pte

pub bit_and-present : (a : ℕ) → bit_and a 1 ≡ a % 2
bit_and-present a = bit_and-low 1 a

pub bit_and-page_mask : (a : ℕ) → a < 2 ^ 32 → bit_and a 0xFFFF_F000 ≡ a / 4096 * 4096
bit_and-page_mask a h = omega (arith, bit_and_shifted 12 a 0xF_FFFF, bit_and-low 20 (a / 4096))

pub bit_and-index : (a : ℕ) → bit_and a 0x3FF ≡ a % 1024
bit_and-index a = bit_and-low 10 a

-- A frame address with flags in its low 12 bits is their sum.
pub bit_or-flags :
    (phys flags : ℕ) → phys % 4096 ≡ 0 → flags < 4096 → bit_or phys flags ≡ phys + flags
bit_or-flags phys flags aligned small =
    let e : phys / 4096 * 2 ^ 12 ≡ phys = omega arith in
    rw e at (bit_or-disjoint 12 (phys / 4096) flags small)
