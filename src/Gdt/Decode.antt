-- ===== src/Gdt/Decode.antt =====
-- The descriptors of src/gdt.c as the x86 processor decodes them.
use my_own_operating_system.Base.{
  ℕ, ◌+◌, ◌-◌, ◌*◌, ◌/◌, ◌%◌, ◌^◌, ◌<◌, bit_and, bit_or, ◌≡◌, refl, ◌∙◌, arith, ==-of_eq, ◌>>>◌,
}
use my_own_operating_system.Base.Bits.{bit_and-low, bit_and_shifted, bit_or-disjoint, bit_or_comm}
use my_own_operating_system.Gdt.{GdtEntry, Gdt, gdt_set_entry, gdt_init, tss_write, sizeof_tss}

-- The eight bytes of an entry as one number, in the order of its packed fields.
unfoldable pub descriptor : GdtEntry → ℕ
descriptor e =
    e.limit_low
    + e.base_low * 2 ^ 16
    + e.base_mid * 2 ^ 32
    + e.access * 2 ^ 40
    + e.granularity * 2 ^ 48
    + e.base_high * 2 ^ 56

-- Bits 16 to 39 and 56 to 63 of a descriptor.
abbrev pub segment_base : ℕ → ℕ
segment_base d = (d >>> 16) % 2 ^ 24 + (d >>> 56) % 2 ^ 8 * 2 ^ 24

-- Bits 0 to 15 and 48 to 51.
abbrev pub segment_limit : ℕ → ℕ
segment_limit d = d % 2 ^ 16 + (d >>> 48) % 2 ^ 4 * 2 ^ 16

-- Bits 40 to 47: type, privilege and presence.
abbrev pub segment_access : ℕ → ℕ
segment_access d = (d >>> 40) % 2 ^ 8

-- Bits 52 to 55.
abbrev pub segment_flags : ℕ → ℕ
segment_flags d = (d >>> 52) % 2 ^ 4

-- What the processor reads from a descriptor.
pub record Decoded (d base limit access flags : ℕ) : Type 0 where
  pub base_is : segment_base d ≡ base
  pub limit_is : segment_limit d ≡ limit
  pub access_is : segment_access d ≡ access
  pub flags_is : segment_flags d ≡ flags

granularity-byte :
    (limit gran : ℕ)
    → gran < 2 ^ 8
    → bit_or (bit_and (limit >>> 16) 0x0F) (bit_and gran 0xF0)
      ≡ limit / 2 ^ 16 % 16 + gran / 16 * 16
granularity-byte limit gran h =
    let low : bit_and (limit >>> 16) 15 ≡ limit / 2 ^ 16 % 16 = bit_and-low 4 (limit >>> 16) in
    let high : bit_and gran 240 ≡ gran / 16 * 16 =
      bit_and_shifted 4 gran 15 ∙ omega (arith, bit_and-low 4 (gran / 16)) in
    rw (low, high)
      (bit_or_comm (limit / 2 ^ 16 % 16) (gran / 16 * 16)
        ∙ bit_or-disjoint 4 (gran / 16) (limit / 2 ^ 16 % 16) (omega arith)
        ∙ omega arith)

-- For a 32-bit base and bytes of access and granularity, the processor decodes the entry that
-- `gdt_set_entry` writes to the base, the low 20 bits of the limit, the access byte and the upper
-- half of the granularity.
pub gdt_set_entry-Decoded :
    (index base limit access gran : ℕ) (g : Gdt)
    → base < 2 ^ 32
    → access < 2 ^ 8
    → gran < 2 ^ 8
    → Decoded
        (descriptor ((gdt_set_entry index base limit access gran g).gdt index))
        base
        (limit % 2 ^ 20)
        access
        (gran / 16)
unfolding gdt_set_entry descriptor
gdt_set_entry-Decoded index base limit access gran g hb ha hg =
    rw
      (
        ==-of_eq index index refl,
        granularity-byte limit gran hg,
        bit_and-low 16 limit,
        bit_and-low 16 base,
        bit_and-low 8 (base >>> 16),
        bit_and-low 8 (base >>> 24),
      )
      (record {
        base_is = omega arith;
        limit_is = omega arith;
        access_is = omega arith;
        flags_is = omega arith;
      })

-- The descriptor of a segment of all 4 GB, in pages.
abbrev pub IsFlat : GdtEntry → ℕ → Type 0
IsFlat e access = Decoded (descriptor e) 0 0xF_FFFF access 0xC

-- The table of `gdt_init`.
pub record IsLoaded (gdt_addr tss_addr stack_top : ℕ) (g : Gdt) : Type 0 where
  pub null : descriptor (g.gdt 0) ≡ 0
  pub kernel_code : IsFlat (g.gdt 1) 0x9A
  pub kernel_data : IsFlat (g.gdt 2) 0x92
  pub user_code : IsFlat (g.gdt 3) 0xFA
  pub user_data : IsFlat (g.gdt 4) 0xF2
  pub task_state : Decoded (descriptor (g.gdt 5)) tss_addr (sizeof_tss - 1) 0x89 0
  pub stack_segment : g.tss.ss0 ≡ 0x10
  pub stack_pointer : g.tss.esp0 ≡ stack_top
  pub no_ports : g.tss.iomap_base ≡ sizeof_tss
  pub pointer_base : g.gdtp_base ≡ gdt_addr
  pub pointer_limit : g.gdtp_limit ≡ 6 * 8 - 1

-- For a TSS and a boot stack that lie below 4 GB, after `gdt_init` the processor decodes entries 1
-- to 4 to flat segments of code and data for ring 0 and ring 3, and entry 5 to the TSS, whose
-- stack is the top of the boot stack in the kernel's data segment and which allows no port; entry
-- 0 is null and the pointer covers the six entries.
pub gdt_init-IsLoaded :
    (gdt_addr tss_addr stack_addr : ℕ) (g : Gdt)
    → tss_addr < 2 ^ 32
    → stack_addr + 4096 < 2 ^ 32
    → IsLoaded gdt_addr tss_addr (stack_addr + 4096) (gdt_init gdt_addr tss_addr stack_addr g)
unfolding gdt_init tss_write gdt_set_entry descriptor
gdt_init-IsLoaded gdt_addr tss_addr stack_addr g ht hs = record {
  null = refl;
  kernel_code =
      gdt_set_entry-Decoded 1 0 0xFFFF_FFFF 0x9A 0xCF g (omega arith) (omega arith) (omega arith);
  kernel_data =
      gdt_set_entry-Decoded 2 0 0xFFFF_FFFF 0x92 0xCF g (omega arith) (omega arith) (omega arith);
  user_code =
      gdt_set_entry-Decoded 3 0 0xFFFF_FFFF 0xFA 0xCF g (omega arith) (omega arith) (omega arith);
  user_data =
      gdt_set_entry-Decoded 4 0 0xFFFF_FFFF 0xF2 0xCF g (omega arith) (omega arith) (omega arith);
  task_state = gdt_set_entry-Decoded 5 tss_addr 103 0x89 0x00 g ht (omega arith) (omega arith);
  stack_segment = refl;
  stack_pointer = omega arith;
  no_ports = refl;
  pointer_base = refl;
  pointer_limit = refl;
}
