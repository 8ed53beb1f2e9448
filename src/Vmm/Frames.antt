-- ===== src/Vmm/Frames.antt =====
-- The invariant of the paging structures of src/vmm.c: which frames hold them.
use my_own_operating_system.Base.{
  ℕ, ◌+◌, ◌*◌, ◌/◌, ◌%◌, ◌^◌, ◌<◌, bit_and, bit_or, ◌≡◌, sym, ap, ◌∙◌, ◌≢◌, inl, inr, Option, none,
  some, arith, ◌==◌, if◌then◌else◌, Bool-cases, eq_of_==, ne_of_==, ==-of_eq, ==-of_ne, update,
  ◌>>>◌,
}
use my_own_operating_system.Pmm.{Pmm, block_size}
use my_own_operating_system.Pmm.Bitmap.{mark}
use my_own_operating_system.Pmm.Block.{IsValid, took}
use my_own_operating_system.Pmm.Alloc.{IsFirst, Full, alloc_block-Outcome}
use my_own_operating_system.Vmm.{
  Vmm, flag_all, pd_index, pt_index, pde_address, pte_address, table_of, page_table, clear_frame,
}
use my_own_operating_system.Vmm.Walk.{lookup, bit_and-present, bit_and-page_mask, bit_and-index}

-- Entry `i` of the directory.
abbrev pub entry : Vmm → ℕ → ℕ
entry v i = v.ram (v.directory + i * 4)

-- The entry is present: its lowest bit is set.
abbrev pub IsPresent : ℕ → Type 0
IsPresent pde = pde % 2 ≡ 1

-- The directory and each page table stand in frames of their own that the allocator has handed
-- out, and frame 0 is never handed out.
pub record IsPaged (v : Vmm) : Type 0 where
  pub valid : IsValid v.pmm
  pub zero_used : mark v.pmm 0 ≡ 1
  pub words : (a : ℕ) → v.ram a < 2 ^ 32
  pub aligned : v.directory % block_size ≡ 0
  pub fits : v.directory < 2 ^ 32
  pub directory_used : mark v.pmm (v.directory / block_size) ≡ 1
  pub table_used :
      (i : ℕ) → i < 1024 → IsPresent (entry v i) → mark v.pmm (entry v i / block_size) ≡ 1
  pub table_apart :
      (i : ℕ) → i < 1024 → IsPresent (entry v i) → entry v i / block_size ≢ v.directory / block_size
  pub tables_apart :
      (i j : ℕ)
      → i < 1024
      → j < 1024
      → i ≢ j
      → IsPresent (entry v i)
      → IsPresent (entry v j)
      → entry v i / block_size ≢ entry v j / block_size

pub pd_index-lt : (virt : ℕ) → virt < 2 ^ 32 → pd_index virt < 1024
pd_index-lt virt h = omega arith

pub pt_index-lt : (virt : ℕ) → pt_index virt < 1024
pt_index-lt virt = omega (arith, bit_and-index (virt >>> 12))

-- An entry of a table lies in the table's frame, and an entry of the directory in its frame.
pub pte_address-frame :
    (table virt : ℕ)
    → table % block_size ≡ 0
    → pte_address table virt / block_size ≡ table / block_size
pte_address-frame table virt h = omega (arith, bit_and-index (virt >>> 12))

pub table_of-frame :
    (pde : ℕ)
    → pde < 2 ^ 32
    → (table_of pde % block_size ≡ 0) × (table_of pde / block_size ≡ pde / block_size)
table_of-frame pde h = omega (arith, bit_and-page_mask pde h)

pub entry-frame :
    (v : Vmm) (i : ℕ)
    → IsPaged v
    → i < 1024
    → (v.directory + i * 4) / block_size ≡ v.directory / block_size
entry-frame v i paged h = omega (arith, paged.aligned)

-- A page walk that reads the same words has the same result.
pub lookup-same :
    (v w : Vmm) (virt : ℕ)
    → w.ram (pde_address w.directory virt) ≡ v.ram (pde_address v.directory virt)
    → (IsPresent (v.ram (pde_address v.directory virt))
        → w.ram (pte_address (table_of (v.ram (pde_address v.directory virt))) virt)
          ≡ v.ram (pte_address (table_of (v.ram (pde_address v.directory virt))) virt))
    → lookup w virt ≡ lookup v virt
unfolding lookup
lookup-same v w virt e f =
    elim (Bool-cases (bit_and (v.ram (pde_address v.directory virt)) 1 == 0)) [
      | inl absent ↦ rw (e, absent)
      | inr present ↦
          let odd : IsPresent (v.ram (pde_address v.directory virt)) =
            omega (
              arith,
              ne_of_== _ _ present,
              bit_and-present (v.ram (pde_address v.directory virt)),
            ) in
          rw (e, present, f odd)
    ]

-- `lookup` of a page whose directory entry is absent.
pub lookup-absent :
    (v : Vmm) (virt : ℕ) → v.ram (pde_address v.directory virt) % 2 ≡ 0 → lookup v virt ≡ none
unfolding lookup
lookup-absent v virt h = rw (
    ==-of_eq (bit_and (v.ram (pde_address v.directory virt)) 1) 0
      (bit_and-present (v.ram (pde_address v.directory virt)) ∙ h))

-- `lookup` of a page with both entries present.
pub lookup-present :
    (v : Vmm) (virt pde pte : ℕ)
    → v.ram (pde_address v.directory virt) ≡ pde
    → v.ram (pte_address (table_of pde) virt) ≡ pte
    → IsPresent pde
    → lookup v virt ≡ (if pte % 2 == 0 then none else some pte)
unfolding lookup
lookup-present v virt pde pte e f odd = rw (e, f, bit_and-present pde, bit_and-present pte, odd)

-- The ways through the first half of `vmm_map_page`.
pub data TableOutcome (virt : ℕ) (v : Vmm) : Option (ℕ × Vmm) → Type 0 where
  exists :
      IsPresent (entry v (pd_index virt))
      → TableOutcome virt v (some (table_of (entry v (pd_index virt)), v))
  exhausted :
      entry v (pd_index virt) % 2 ≡ 0 → Full v.pmm v.pmm.total_blocks → TableOutcome virt v none
  allocated :
      (b : ℕ)
      → entry v (pd_index virt) % 2 ≡ 0
      → IsFirst v.pmm b
      → b ≢ 0
      → TableOutcome virt v (
          some (
            b * block_size,
            record v {
              pmm = took b v.pmm;
              ram =
                  update
                    (clear_frame (b * block_size) v.ram)
                    (v.directory + pd_index virt * 4)
                    (bit_or (b * block_size) flag_all);
            },
          ))

pub IsFirst-pos : (s : Pmm) (b : ℕ) → mark s 0 ≡ 1 → IsFirst s b → b ≢ 0
IsFirst-pos s b used first z = absurd (omega (arith, first.free, ap (mark s) z))

pub page_table-Outcome : (virt : ℕ) (v : Vmm) → IsPaged v → TableOutcome virt v (page_table virt v)
unfolding page_table
page_table-Outcome virt v paged = elim (Bool-cases (bit_and (entry v (pd_index virt)) 1 == 0)) [
  | inr present ↦
      rw present
        (exists (omega (arith, ne_of_== _ _ present, bit_and-present (entry v (pd_index virt)))))
  | inl absent ↦
      let even : entry v (pd_index virt) % 2 ≡ 0 =
        sym (bit_and-present (entry v (pd_index virt))) ∙ eq_of_== _ _ absent in
      elim (alloc_block-Outcome v.pmm paged.valid) [
        | inr (full, e) ↦ rw (absent, e) (exhausted even full)
        | inl (b, first, e) ↦
            let pos : b ≢ 0 = IsFirst-pos v.pmm b paged.zero_used first in
            rw (absent, e, ==-of_ne (b * block_size) 0 (omega arith)) (allocated b even first pos)
      ]
]
