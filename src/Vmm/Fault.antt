-- ===== src/Vmm/Fault.antt =====
-- `page_fault_handler` of src/vmm.c: demand paging, or a panic with a report.
use my_own_operating_system.Base.{
  ℕ, ◌+◌, ◌*◌, ◌/◌, ◌%◌, ◌^◌, ◌≤◌, ◌<◌, bit_and, ◌≡◌, refl, sym, ◌∙◌, ◌≢◌, ◌⊎◌, inl, inr, Bool,
  true, false, not, ◌&&◌, Option, none, some, arith, leb, ◌==◌, if◌then◌else◌, Bool-cases, eq_of_==,
  ne_of_==, ==-of_ne,
}
use my_own_operating_system.Base.Bits.{bit_and-pow}
use my_own_operating_system.Pmm.{Pmm, block_size, alloc_block}
use my_own_operating_system.Pmm.Block.{took, took-IsValid}
use my_own_operating_system.Pmm.Alloc.{IsFirst, Full, alloc_block-Outcome}
use my_own_operating_system.Vmm.{Vmm, map_page, flag_all}
use my_own_operating_system.Vmm.Walk.{lookup, bit_and-page_mask, bit_or-flags}
use my_own_operating_system.Vmm.Frames.{IsPaged, IsFirst-pos}
use my_own_operating_system.Vmm.Map.{
  page_of, translation_all, Mapped, MapOutcome, mapped, map_page-Mapped,
}
use my_own_operating_system.Vmm.Map as Map
use my_own_operating_system.Vmm.Map.Table.{took-kept}
use my_own_operating_system.Pmm.Spent.{Spent, Spent-took, Spent-add}
use my_own_operating_system.Vmm.Map.Kept.{KeptBy, map_page-KeptBy}
use my_own_operating_system.Pmm.Bitmap.{mark-set_self}
use my_own_operating_system.Vmm.Scratch.{
  IsScratch, IsScratch-of_free, SameOutside, scratch-IsPaged, scratch-lookup,
}

-- What the panic screen says of the access.
pub data Access : Type 0 where
  write fetch read : Access

pub record Report : Type 0 where
  pub protection : Bool
  pub access : Access
  pub user : Bool
  pub reserved : Bool

unfoldable pub report : ℕ → Report
report err = record {
  protection = not (bit_and err 0x1 == 0);
  access = if bit_and err 0x2 == 0 then (if bit_and err 0x10 == 0 then read else fetch) else write;
  user = not (bit_and err 0x4 == 0);
  reserved = not (bit_and err 0x8 == 0);
}

-- The page is not present, lies above the first one, and is not the upper quarter in kernel mode.
unfoldable pub is_demand : ℕ → ℕ → Bool
is_demand err address =
    (bit_and err 0x1 == 0)
    && (leb 0x1000 address && not ((bit_and err 0x4 == 0) && leb 0xC000_0000 address))

-- Where the handler ends: it returns to the instruction that faulted, or it halts.
pub data Fault : Type 0 where
  resumed : Vmm → Fault
  out_of_memory : Fault
  panicked : Report → Fault

abbrev pub resume : Option Vmm → Fault
resume none = out_of_memory
resume (some v) = resumed v

-- The branch of demand paging, with the frame that was allocated.
unfoldable pub demand : ℕ → ℕ × Pmm → Vmm → Fault
unfolding map_page
demand address (phys, pmm') v =
    if phys == 0
    then out_of_memory
    else resume (map_page phys (bit_and address 0xFFFF_F000) flag_all (record v { pmm = pmm' }))

-- `page_fault_handler`, with the error code and CR2.
unfoldable pub page_fault : ℕ → ℕ → Vmm → Fault
unfolding report is_demand demand alloc_block
page_fault err address v =
    if is_demand err address then demand address (alloc_block v.pmm) v else panicked (report err)

-- The state with frame `b` taken.
abbrev pub with_taken : ℕ → Vmm → Vmm
with_taken b v = record v { pmm = took b v.pmm }

module _ (v : Vmm) (paged : IsPaged v) (b : ℕ) (first : IsFirst v.pmm b) where
  taken-SameOutside : SameOutside b v (with_taken b v)
  taken-SameOutside = record { same = λ a ne. refl; words = paged.words; directory = refl }

  pub taken-IsPaged : IsPaged (with_taken b v)
  taken-IsPaged =
      scratch-IsPaged b v (with_taken b v) paged (IsScratch-of_free v b paged first.free)
        taken-SameOutside (took-IsValid paged.valid first.inside first.free)
        (λ k h. took-kept v.pmm b k h)

  pub taken-lookup : (a : ℕ) → a < 2 ^ 32 → lookup (with_taken b v) a ≡ lookup v a
  taken-lookup =
      scratch-lookup b v (with_taken b v) paged (IsScratch-of_free v b paged first.free)
        taken-SameOutside

  -- The frame taken holds no table, and mapping it somewhere keeps it so.
  taken-IsScratch : IsScratch (with_taken b v) b
  taken-IsScratch =
      let s = IsScratch-of_free v b paged first.free in
      record { not_directory = s.not_directory; not_table = s.not_table }

  pub taken-KeptBy :
      (virt flags : ℕ)
      → virt < 2 ^ 32
      → flags < block_size
      → KeptBy b (with_taken b v) (map_page (b * block_size) virt flags (with_taken b v))
  taken-KeptBy virt flags low small =
      map_page-KeptBy (b * block_size) virt flags b (with_taken b v) taken-IsPaged low
        (omega (
          arith,
          bit_or-flags (b * block_size) flags (omega arith) small,
          small,
          first.inside,
          paged.valid.small,
        ))
        (mark-set_self v.pmm b) taken-IsScratch

-- What a fault on a page to be supplied comes to: the page is backed by the frame that was the
-- first free one, and no other page changes; or at most one frame was free.
pub data Supplied (address : ℕ) (v : Vmm) : Fault → Type 0 where
  backed :
      (b : ℕ) (w : Vmm)
      → IsFirst v.pmm b
      → IsPaged w
      → IsScratch w b
      → Spent 2 v.pmm w.pmm
      → ((a : ℕ)
          → a < 2 ^ 32
          → page_of a ≡ page_of address
          → lookup w a ≡ some (b * block_size + 7))
      → ((a : ℕ) → a < 2 ^ 32 → page_of a ≢ page_of address → lookup w a ≡ lookup v a)
      → Supplied address v (resumed w)
  none_free : Full v.pmm v.pmm.total_blocks → Supplied address v out_of_memory
  no_table :
      (b : ℕ)
      → IsFirst v.pmm b
      → Full (took b v.pmm) (took b v.pmm).total_blocks
      → Supplied address v out_of_memory

demand_eq :
    (address b : ℕ) (v : Vmm)
    → b ≢ 0
    → address < 2 ^ 32
    → demand address (b * block_size, took b v.pmm) v
      ≡ resume (map_page (b * block_size) (page_of address * block_size) flag_all (with_taken b v))
unfolding demand
demand_eq address b v pos low =
    rw (==-of_ne (b * block_size) 0 (omega (arith, pos)), bit_and-page_mask address low)

demand-Supplied :
    (address b : ℕ) (v : Vmm)
    → IsPaged v
    → (first : IsFirst v.pmm b) → address < 2 ^ 32
    → (r : Option Vmm)
    → MapOutcome (b * block_size) (page_of address * block_size) flag_all (with_taken b v) r
    → KeptBy b (with_taken b v) r
    → Supplied address v (resume r)
demand-Supplied address b v paged first low _ (Map.halted absent full) k = no_table b first full
demand-Supplied address b v paged first low _ (mapped w m) k =
    backed b w first m.paged k.scratch (Spent-add (Spent-took b v.pmm) k.spent)
      (λ a h same. m.here a h (omega arith) ∙ translation_all b)
      (λ a h other. m.elsewhere a h (λ e. absurd (omega arith)) ∙ taken-lookup v paged b first a h)

pub demand_or_panic :
    (err address : ℕ) (v : Vmm)
    → IsPaged v
    → address < 2 ^ 32
    → ((is_demand err address ≡ true) × Supplied address v (page_fault err address v))
      ⊎ ((is_demand err address ≡ false) × (page_fault err address v ≡ panicked (report err)))
unfolding page_fault
demand_or_panic err address v paged low = elim (Bool-cases (is_demand err address)) [
  | inr no' ↦ rw no' (inr (refl, refl))
  | inl yes' ↦ rw yes' (
      inl (
        refl,
        (elim (alloc_block-Outcome v.pmm paged.valid) [
          | inr (full, e) ↦ rw e (none_free full)
          | inl (b, first, e) ↦
              rw (e, demand_eq address b v (IsFirst-pos v.pmm b paged.zero_used first) low)
                (demand-Supplied address b v paged first low _
                  (map_page-Mapped (b * block_size) (page_of address * block_size) flag_all
                    (with_taken b v) (taken-IsPaged v paged b first)
                    (omega (arith, first.inside, paged.valid.small)) (omega arith) (omega arith)
                    (omega arith))
                  (taken-KeptBy v paged b first (page_of address * block_size) flag_all
                    (omega arith) (omega arith)))
        ]),
      ))
]

-- What src/vmm.c supplies a page for: a page that is not present, above the first page, and for a
-- fault of the kernel below 0xC0000000. The error code has bit 0 for a present page and bit 2 for
-- user mode.
pub record IsDemand (err address : ℕ) : Type 0 where
  pub absent : err % 2 ≡ 0
  pub above_null : 0x1000 ≤ address
  pub zone : (err / 4 % 2 ≡ 1) ⊎ (address < 0xC000_0000)

le_of_leb : (a b : ℕ) → leb a b ≡ true → a ≤ b
le_of_leb a b h = ground arith

lt_of_not_leb : (a b : ℕ) → leb a b ≡ false → b < a
lt_of_not_leb a b h = ground arith

module _ (err address : ℕ) where
  bit_0 : bit_and err 0x1 ≡ err % 2
  bit_0 = bit_and-pow 0 err ∙ omega arith

  bit_2 : bit_and err 0x4 ≡ err / 4 % 2 * 4
  bit_2 = bit_and-pow 2 err ∙ omega arith

  -- The test of the handler is that of the zone.
  IsDemand-cases :
      ((is_demand err address ≡ true) × IsDemand err address)
      ⊎ ((is_demand err address ≡ false) × (¬ IsDemand err address))
  unfolding is_demand
  IsDemand-cases = elim (Bool-cases (bit_and err 0x1 == 0)) [
    | inr present ↦ rw present (inr (refl, λ d. absurd (ne_of_== _ _ present (bit_0 ∙ d.absent))))
    | inl absent ↦ elim (Bool-cases (leb 0x1000 address)) [
      | inr null ↦
          rw (absent, null)
            (inr (refl, λ d. absurd (omega (arith, d.above_null, lt_of_not_leb _ _ null))))
      | inl above ↦ elim (Bool-cases (bit_and err 0x4 == 0)) [
        | inr user ↦
            rw (absent, above, user)
              (inl (
                refl,
                record {
                  absent = sym bit_0 ∙ eq_of_== _ _ absent;
                  above_null = le_of_leb _ _ above;
                  zone = inl (omega (arith, bit_2, ne_of_== _ _ user));
                },
              ))
        | inl kernel ↦ elim (Bool-cases (leb 0xC000_0000 address)) [
          | inl high ↦
              rw (absent, above, kernel, high)
                (inr (
                  refl,
                  λ d. elim d.zone [
                    | inl user ↦ absurd (omega (arith, user, bit_2, eq_of_== _ _ kernel))
                    | inr low ↦ absurd (omega (arith, low, le_of_leb _ _ high))
                  ],
                ))
          | inr low ↦
              rw (absent, above, kernel, low)
                (inl (
                  refl,
                  record {
                    absent = sym bit_0 ∙ eq_of_== _ _ absent;
                    above_null = le_of_leb _ _ above;
                    zone = inr (lt_of_not_leb _ _ low);
                  },
                ))
        ]
      ]
    ]
  ]

-- From the paging invariant, for a 32-bit address: if the page is not present and the address is
-- at least 0x1000 and, unless the fault is one of user mode, below 0xC0000000, the handler returns
-- with the page backed by the frame that was the first free one, which holds no paging structure,
-- with at most two frames taken, the invariant, and every other translation as it was, or halts
-- with no frame free, at the outset or after the page's own frame was taken; in any other case the
-- handler panics with the report of its error code.
pub page_fault-Supplied :
    (err address : ℕ) (v : Vmm)
    → IsPaged v
    → address < 2 ^ 32
    → (IsDemand err address × Supplied address v (page_fault err address v))
      ⊎ ((¬ IsDemand err address) × (page_fault err address v ≡ panicked (report err)))
page_fault-Supplied err address v paged low = elim (IsDemand-cases err address) [
  | inl (yes', d) ↦ elim (demand_or_panic err address v paged low) [
    | inl (y, supplied) ↦ inl (d, supplied)
    | inr (no', e) ↦ cc
  ]
  | inr (no', nd) ↦ elim (demand_or_panic err address v paged low) [
    | inl (yes', supplied) ↦ cc
    | inr (n, e) ↦ inr (nd, e)
  ]
]
