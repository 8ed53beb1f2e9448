-- ===== src/Boot/Order/Booted.antt =====
-- Where `kernel_main` of src/kernel.c stands once memory management is up.
use my_own_operating_system.Base.{
  ℕ, ◌+◌, ◌*◌, ◌/◌, ◌^◌, ◌≤◌, ◌<◌, bit_and, ◌≡◌, refl, sym, ap, ◌∙◌, ◌≢◌, ◌⊎◌, inl, inr, true,
  false, Option, none, some, List, [], ◌∷◌, arith, ◌==◌, Bool-cases, eq_of_==, ne_of_==,
}
use mathlib.Core.Path.{subst}
use mathlib.Core.Option.{some-injective}
use my_own_operating_system.Base.Memory.{Memory}
use my_own_operating_system.Pmm.{Pmm, block_size}
use my_own_operating_system.Pmm.Bitmap.{mark, IsWords}
use my_own_operating_system.Pmm.Block.{IsValid}
use my_own_operating_system.Pmm.Spent.{Spent, Exhausted}
use my_own_operating_system.Pmm.Init.{
  mbi_flags, mbi_mmap_addr, mbi_mods_count, mbi_mods_addr, detect_loop,
}
use my_own_operating_system.Pmm.Init as Map
use my_own_operating_system.Pmm.Init.Map.{IsMap}
use my_own_operating_system.Pmm.Init.Total.{IsReady, init-IsReady, init-tracked, mmap_end_of}
use my_own_operating_system.Vmm.{Vmm}
use my_own_operating_system.Vmm.Walk.{lookup}
use my_own_operating_system.Vmm.Frames.{IsPaged}
use my_own_operating_system.Vmm.Map.{page_of}
use my_own_operating_system.Vmm.Init.{Machine}
use my_own_operating_system.Vmm.Init as Paged
use my_own_operating_system.Vmm.Init.Identity.{
  IsIdentity, tables, Started, starved, started, init-Started,
}
use my_own_operating_system.Boot.{self_test}
use my_own_operating_system.Boot.Passes.{self_test-passed}
use my_own_operating_system.Boot.Paging.{Paging, paging_test}
use my_own_operating_system.Boot.Paging.Tested.{
  Protected, PagingVerdict, all_passed, frame_wanted, table_wanted, paging_test-PagingVerdict,
}
use my_own_operating_system.Boot.Order.{
  touch_by, then_touch, touch_all, probe_reads, probe, after_probe, after_paging, after_vmm_init,
  after_self_test, after_pmm_init, boot,
}

-- The machine with this allocator.
abbrev with_pmm : Pmm → Machine → Machine
with_pmm s c = record c { vmm = record (c.vmm) { pmm = s } }

-- All the addresses lie below `n`.
abbrev pub AllBelow : ℕ → List ℕ → Type 0
AllBelow n [] = Unit
AllBelow n (a ∷ as') = (a < n) × AllBelow n as'

-- The first `n` frames are mapped to themselves, the supervisor's page is there, and nothing else.
pub record IsUp (n : ℕ) (w : Vmm) : Type 0 where
  pub paged : IsPaged w
  pub identity : (a : ℕ) → a < n * block_size → lookup w a ≡ some (page_of a * block_size + 7)
  pub frame : ℕ
  pub supervisor :
      (a : ℕ) → a < 2 ^ 32 → page_of a ≡ 0xD0000 → lookup w a ≡ some (frame * block_size + 3)
  pub nothing_else :
      (a : ℕ) → n * block_size ≤ a → a < 2 ^ 32 → page_of a ≢ 0xD0000 → lookup w a ≡ none

-- How the boot may go from the allocator's state `s`: memory management is up, or there were too
-- few free frames for the directory, the page tables of the identity map and the tests.
pub data Booted (s : Pmm) : Option Vmm → Type 0 where
  up : (w : Vmm) → IsUp s.total_blocks w → Booted s (some w)
  starved_at_boot : Exhausted (6 + tables s.total_blocks) s → Booted s none

module _ (s : Pmm) (gigabyte : s.total_blocks ≤ 0x40000) where
  -- The tests leave the identity map as it is.
  Protected-IsUp : (v w : Vmm) → IsIdentity s.total_blocks v → Protected v w → IsUp s.total_blocks w
  Protected-IsUp v w id p = record {
    paged = p.paged;
    frame = p.frame;
    supervisor = p.supervisor;
    identity = λ a h.
        p.elsewhere a (omega (arith, h, gigabyte)) (λ e. absurd (omega (arith, e, h, gigabyte)))
          (λ e. absurd (omega (arith, e, h, gigabyte)))
          (λ e. absurd (omega (arith, e, h, gigabyte)))
        ∙ id.below a h;
    nothing_else = λ a h lt ne.
        nothing a h lt ne (Bool-cases (page_of a == 0xA0000)) (Bool-cases (page_of a == 0x40000));
  }
    where
      nothing :
          (a : ℕ)
          → s.total_blocks * block_size ≤ a
          → a < 2 ^ 32
          → page_of a ≢ 0xD0000
          → ((page_of a == 0xA0000) ≡ true) ⊎ ((page_of a == 0xA0000) ≡ false)
          → ((page_of a == 0x40000) ≡ true) ⊎ ((page_of a == 0x40000) ≡ false)
          → lookup w a ≡ none
      nothing a h lt ne (inl first) _ = p.gone a lt (inl (eq_of_== _ _ first))
      nothing a h lt ne (inr not_first) (inl second) = p.gone a lt (inr (eq_of_== _ _ second))
      nothing a h lt ne (inr not_first) (inr not_second) =
          p.elsewhere a lt ne (ne_of_== _ _ not_first) (ne_of_== _ _ not_second) ∙ id.above a h lt

  after_paging-Booted :
      (v : Vmm) (r : Paging)
      → IsIdentity s.total_blocks v
      → Spent (1 + tables s.total_blocks) s v.pmm
      → PagingVerdict v r
      → Booted s (after_paging r)
  after_paging-Booted v _ id spent (all_passed w p) = up w (Protected-IsUp v w id p)
  after_paging-Booted v _ id spent (frame_wanted e) =
      starved_at_boot (omega (arith, e, spent.total, spent.used))
  after_paging-Booted v _ id spent (table_wanted e) =
      starved_at_boot (omega (arith, e, spent.total, spent.used))

  touch_all-some :
      (reads : List ℕ) (v : Vmm)
      → IsIdentity s.total_blocks v
      → AllBelow (s.total_blocks * block_size) reads
      → touch_all reads v ≡ some v
  touch_all-some [] v id inside = refl
  touch_all-some (a ∷ as') v id (low, rest) =
      ap (λ o. then_touch (touch_all as') (touch_by a v o)) (id.below a low)
      ∙ touch_all-some as' v id rest

  after_vmm_init-Booted :
      (m : Memory) (mbi : ℕ)
      → AllBelow (s.total_blocks * block_size) (probe_reads m mbi)
      → (c : Machine) (r : Option Machine) → Started (with_pmm s c) r
      → Booted s (after_vmm_init m mbi r)
  unfolding probe
  after_vmm_init-Booted m mbi inside c _ (starved few) = starved_at_boot (omega (arith, few))
  after_vmm_init-Booted m mbi inside c _ (started c' paged id cr3 cr0 handled spent) =
      subst (λ o. Booted s (after_probe o))
        (sym (touch_all-some (probe_reads m mbi) c'.vmm id inside))
        (after_paging-Booted c'.vmm (paging_test c'.vmm) id spent (
          paging_test-PagingVerdict c'.vmm paged
            (id.above 0x4000_0000 (omega (arith, gigabyte)) (omega arith))))

  after_self_test-Booted :
      (m : Memory) (mbi fuel : ℕ) (c : Machine)
      → AllBelow (s.total_blocks * block_size) (probe_reads m mbi)
      → IsValid s
      → mark s 0 ≡ 1
      → ((a : ℕ) → c.vmm.ram a < 2 ^ 32)
      → s.total_blocks < fuel
      → Booted s (after_self_test m mbi fuel c (self_test s))
  after_self_test-Booted m mbi fuel c inside valid zero_used words enough =
      elim (self_test-passed s valid zero_used) [
        | inl e ↦
            subst (λ r. Booted s (after_self_test m mbi fuel c r)) (sym e)
              (after_vmm_init-Booted m mbi inside c (Paged.init fuel (with_pmm s c))
                (init-Started fuel (with_pmm s c) valid zero_used words enough))
        | inr (t, e, few) ↦
            subst (λ r. Booted s (after_self_test m mbi fuel c r)) (sym e)
              (starved_at_boot (omega (arith, few)))
      ]

module _ (m : Memory) (kernel_start kernel_end mbi : ℕ) where
  boot_with-Booted :
      (walk fuel : ℕ) (c : Machine) (s : Pmm)
      → mbi ≢ 0
      → bit_and (mbi_flags m mbi) 0x40 ≢ 0
      → kernel_start ≤ kernel_end
      → kernel_end + 2 ^ 17 + 4095 < 2 ^ 32
      → IsWords c.vmm.pmm
      → ((a : ℕ) → c.vmm.ram a < 2 ^ 32)
      → IsMap m (mmap_end_of m mbi) (mbi_mmap_addr m mbi)
      → mmap_end_of m mbi < mbi_mmap_addr m mbi + walk
      → 0 < walk
      → 2 ^ 20 ≤ fuel
      → Map.init m kernel_start kernel_end walk mbi c.vmm.pmm ≡ some s
      → AllBelow (s.total_blocks * block_size) (probe_reads m mbi)
      → 0 < s.total_blocks
      → s.total_blocks ≤ 0x40000
      → Booted s (boot m kernel_start kernel_end walk fuel 0x2BAD_B002 mbi c)
  unfolding boot
  boot_with-Booted walk fuel c s given has_map ordered fits bits words map enough pos fuelled e
        inside some_ram gigabyte =
      let (t, found, ready) =
        init-IsReady m kernel_start kernel_end mbi walk c.vmm.pmm given has_map ordered fits bits
          map enough pos in
      let same : t ≡ s = some-injective t s (sym found ∙ e) in
      let ready' : IsReady m kernel_start kernel_end mbi s =
        subst (IsReady m kernel_start kernel_end mbi) same ready in
      subst (λ r. Booted s (after_pmm_init m mbi fuel c r)) (sym e)
        (after_self_test-Booted s gigabyte m mbi fuel c inside ready'.valid
          (ready'.sheltered.low 0 (omega arith) (omega arith) (omega (arith, some_ram))) words
          (omega (arith, ready'.valid.small, fuelled)))

  -- With the right magic number, a Multiboot memory map whose entries, as the walk meets them, do
  -- not lead past the address space, with usable ones on page boundaries and below 4 GB, RAM that
  -- ends between 4 KB and 1 GB, what the probe behind `vmm_init` reads within the tracked frames,
  -- fuel above the map's length and 2^20 rounds for `vmm_init`, an image that ends, with the
  -- bitmap behind it, below 4 GB, and 32-bit words in memory: `pmm_init` tracks the frames below
  -- the end of RAM, and `kernel_main` gets through the probe and both tests to a state with the
  -- paging invariant in which every tracked frame is mapped to itself, the page at 0xD0000000 is
  -- the supervisor's and no other address is mapped; or it halts, and then at most six frames more
  -- were free behind `pmm_init` than the identity map has page tables.
  pub boot-Booted :
      (walk fuel max_addr : ℕ) (c : Machine)
      → mbi ≢ 0
      → bit_and (mbi_flags m mbi) 0x40 ≢ 0
      → kernel_start ≤ kernel_end
      → kernel_end + 2 ^ 17 + 4095 < 2 ^ 32
      → IsWords c.vmm.pmm
      → ((a : ℕ) → c.vmm.ram a < 2 ^ 32)
      → IsMap m (mmap_end_of m mbi) (mbi_mmap_addr m mbi)
      → mmap_end_of m mbi < mbi_mmap_addr m mbi + walk
      → 0 < walk
      → 2 ^ 20 ≤ fuel
      → detect_loop m (mmap_end_of m mbi) walk (mbi_mmap_addr m mbi) 0 ≡ some max_addr
      → block_size ≤ max_addr
      → max_addr ≤ 2 ^ 30
      → AllBelow (max_addr / block_size * block_size) (probe_reads m mbi)
      → (s : Pmm) × (Map.init m kernel_start kernel_end walk mbi c.vmm.pmm ≡ some s)
        × (s.total_blocks ≡ max_addr / block_size)
        × Booted s (boot m kernel_start kernel_end walk fuel 0x2BAD_B002 mbi c)
  boot-Booted walk fuel max_addr c given has_map ordered fits bits words map enough pos fuelled
        found some_ram gigabyte inside =
      let (s, e, total) =
        init-tracked m kernel_start kernel_end mbi walk max_addr c.vmm.pmm given has_map ordered
          fits bits map enough pos found (omega (arith, gigabyte)) in
      (
        s,
        e,
        total,
        boot_with-Booted walk fuel c s given has_map ordered fits bits words map enough pos fuelled
            e (subst (λ n. AllBelow (n * block_size) (probe_reads m mbi)) (sym total) inside)
            (omega (arith, total, some_ram)) (omega (arith, total, gigabyte)),
      )
