-- ===== src/Boot/Order.antt =====
-- The order in which `kernel_main` of src/kernel.c brings memory management up.
pub mod Booted
use my_own_operating_system.Base.{
  ℕ, ◌+◌, bit_and, Option, none, some, List, [], ◌∷◌, ◌==◌, if◌then◌else◌,
}
use my_own_operating_system.Base.Memory.{Memory, read_u32}
use my_own_operating_system.Pmm.{Pmm}
use my_own_operating_system.Pmm.Init.{mbi_flags, mbi_mods_count, mbi_mods_addr}
use my_own_operating_system.Pmm.Init as Map
use my_own_operating_system.Vmm.{Vmm}
use my_own_operating_system.Vmm.Walk.{lookup}
use my_own_operating_system.Vmm.Fault.{Fault, resumed, out_of_memory, panicked, page_fault}
use my_own_operating_system.Vmm.Init.{Machine}
use my_own_operating_system.Vmm.Init as Paged
use my_own_operating_system.Boot.{
  Verdict, passed, null_block, misaligned, not_reused, leaked, self_test,
}
use my_own_operating_system.Boot.Paging.{Paging, tested, no_frame, mismatch, stopped, paging_test}

-- The read of a byte or word with paging on; `none` is a fault from which the handler does not
-- return.
abbrev pub after_read : Fault → Option Vmm
after_read (resumed v) = some v
after_read out_of_memory = none
after_read (panicked r) = none

abbrev pub touch_by : ℕ → Vmm → Option ℕ → Option Vmm
touch_by a v none = after_read (page_fault 0 a v)
touch_by a v (some pte) = some v

abbrev pub touch : ℕ → Vmm → Option Vmm
touch a v = touch_by a v (lookup v a)

abbrev pub then_touch : (Vmm → Option Vmm) → Option Vmm → Option Vmm
then_touch go none = none
then_touch go (some v) = go v

abbrev pub touch_all : List ℕ → Vmm → Option Vmm
touch_all [] v = some v
touch_all (a ∷ as') v = then_touch (touch_all as') (touch a v)

-- The addresses that the probe behind `vmm_init` reads: the flags, the number and the address of
-- the modules, and the first byte of the first module.
abbrev pub probe_reads : Memory → ℕ → List ℕ
probe_reads m mbi =
    if bit_and (mbi_flags m mbi) 8 == 0
    then mbi ∷ []
    else if mbi_mods_count m mbi == 0
    then mbi ∷ (mbi + 20) ∷ []
    else mbi ∷ (mbi + 20) ∷ (mbi + 24) ∷ mbi_mods_addr m mbi ∷ read_u32 m (mbi_mods_addr m mbi) ∷ []

unfoldable pub probe : Memory → ℕ → Vmm → Option Vmm
unfolding page_fault lookup
probe m mbi v = touch_all (probe_reads m mbi) v

-- Each part goes on with the next one, or halts, which is `none`.
abbrev pub after_paging : Paging → Option Vmm
after_paging (tested v) = some v
after_paging no_frame = none
after_paging mismatch = none
after_paging stopped = none

abbrev pub after_probe : Option Vmm → Option Vmm
after_probe none = none
after_probe (some v) = after_paging (paging_test v)

abbrev pub after_vmm_init : Memory → ℕ → Option Machine → Option Vmm
after_vmm_init m mbi none = none
after_vmm_init m mbi (some c) = after_probe (probe m mbi c.vmm)

-- `vmm_init`, with the allocator as the self-test leaves it.
abbrev pub start_paging : Memory → ℕ → ℕ → Machine → Pmm → Option Vmm
start_paging m mbi fuel c s =
    after_vmm_init m mbi (Paged.init fuel (record c { vmm = record (c.vmm) { pmm = s } }))

-- The probe before `vmm_init` reads memory without paging, so that it changes nothing.
abbrev pub after_self_test : Memory → ℕ → ℕ → Machine → Verdict × Pmm → Option Vmm
after_self_test m mbi fuel c (passed, s) = start_paging m mbi fuel c s
after_self_test m mbi fuel c (null_block, s) = none
after_self_test m mbi fuel c (misaligned, s) = none
after_self_test m mbi fuel c (not_reused, s) = none
after_self_test m mbi fuel c (leaked, s) = none

abbrev pub after_pmm_init : Memory → ℕ → ℕ → Machine → Option Pmm → Option Vmm
after_pmm_init m mbi fuel c none = none
after_pmm_init m mbi fuel c (some s) = after_self_test m mbi fuel c (self_test s)

-- From the check of the Multiboot signature to the supervisor's page; `walk` and `fuel` are fuel
-- for the walks of the memory map and for the loop of `vmm_init`. The Multiboot structures are read
-- from `m`, also once paging is on.
unfoldable pub boot : Memory → ℕ → ℕ → ℕ → ℕ → ℕ → ℕ → Machine → Option Vmm
unfolding self_test paging_test probe
boot m kernel_start kernel_end walk fuel magic mbi c =
    if magic == 0x2BAD_B002
    then after_pmm_init m mbi fuel c (Map.init m kernel_start kernel_end walk mbi c.vmm.pmm)
    else none
