-- ===== src/Gdt.antt =====
-- Segment descriptors and the task state segment, src/gdt.c and src/gdt.h.
pub mod Decode
use my_own_operating_system.Base.{ℕ, ◌-◌, bit_and, bit_or, update, add32, ◌>>>◌}

-- `struct gdt_entry`.
pub record GdtEntry : Type 0 where
  pub limit_low : ℕ
  pub base_low : ℕ
  pub base_mid : ℕ
  pub access : ℕ
  pub granularity : ℕ
  pub base_high : ℕ

-- `struct tss_entry`.
pub record TssEntry : Type 0 where
  pub prev_tss : ℕ
  pub esp0 : ℕ
  pub ss0 : ℕ
  pub esp1 : ℕ
  pub ss1 : ℕ
  pub esp2 : ℕ
  pub ss2 : ℕ
  pub cr3 : ℕ
  pub eip : ℕ
  pub eflags : ℕ
  pub eax : ℕ
  pub ecx : ℕ
  pub edx : ℕ
  pub ebx : ℕ
  pub esp : ℕ
  pub ebp : ℕ
  pub esi : ℕ
  pub edi : ℕ
  pub es : ℕ
  pub cs : ℕ
  pub ss : ℕ
  pub ds : ℕ
  pub fs : ℕ
  pub gs : ℕ
  pub ldt : ℕ
  pub trap : ℕ
  pub iomap_base : ℕ

-- The statics of src/gdt.c; the pointer's two fields stand beside the table.
pub record Gdt : Type 0 where
  pub gdt : ℕ → GdtEntry
  pub gdtp_limit : ℕ
  pub gdtp_base : ℕ
  pub tss : TssEntry

unfoldable pub gdt_set_entry : ℕ → ℕ → ℕ → ℕ → ℕ → Gdt → Gdt
gdt_set_entry index base limit access gran g = record g {
  gdt = update g.gdt index (record {
    limit_low = bit_and limit 0xFFFF;
    base_low = bit_and base 0xFFFF;
    base_mid = bit_and (base >>> 16) 0xFF;
    access = access;
    granularity = bit_or (bit_and (limit >>> 16) 0x0F) (bit_and gran 0xF0);
    base_high = bit_and (base >>> 24) 0xFF;
  });
}

-- `memset(&tss, 0, sizeof(tss))`.
abbrev pub zero_tss : TssEntry
zero_tss = record {
  prev_tss = 0;
  esp0 = 0;
  ss0 = 0;
  esp1 = 0;
  ss1 = 0;
  esp2 = 0;
  ss2 = 0;
  cr3 = 0;
  eip = 0;
  eflags = 0;
  eax = 0;
  ecx = 0;
  edx = 0;
  ebx = 0;
  esp = 0;
  ebp = 0;
  esi = 0;
  edi = 0;
  es = 0;
  cs = 0;
  ss = 0;
  ds = 0;
  fs = 0;
  gs = 0;
  ldt = 0;
  trap = 0;
  iomap_base = 0;
}

abbrev pub sizeof_tss : ℕ
sizeof_tss = 104

-- `tss_addr` is the address of `tss`.
unfoldable pub tss_write : ℕ → ℕ → ℕ → ℕ → Gdt → Gdt
unfolding gdt_set_entry
tss_write tss_addr index ss0 esp0 g =
    record (gdt_set_entry index tss_addr (sizeof_tss - 1) 0x89 0x00 g) {
      tss = record zero_tss { ss0 = ss0; esp0 = esp0; iomap_base = sizeof_tss };
    }

-- `gdt_init` up to the two flushes, which load what it wrote; the three addresses are those of
-- `gdt`, `tss` and `tss_stack`.
unfoldable pub gdt_init : ℕ → ℕ → ℕ → Gdt → Gdt
unfolding gdt_set_entry tss_write
gdt_init gdt_addr tss_addr stack_addr g =
    let g0 = gdt_set_entry 0 0 0 0x00 0x00 (record g { gdtp_limit = 47; gdtp_base = gdt_addr }) in
    let g1 = gdt_set_entry 1 0 0xFFFF_FFFF 0x9A 0xCF g0 in
    let g2 = gdt_set_entry 2 0 0xFFFF_FFFF 0x92 0xCF g1 in
    let g3 = gdt_set_entry 3 0 0xFFFF_FFFF 0xFA 0xCF g2 in
    let g4 = gdt_set_entry 4 0 0xFFFF_FFFF 0xF2 0xCF g3 in
    tss_write tss_addr 5 0x10 (add32 stack_addr 4096) g4

unfoldable pub tss_set_kernel_stack : ℕ → Gdt → Gdt
tss_set_kernel_stack stack_top g = record g { tss = record (g.tss) { esp0 = stack_top } }
