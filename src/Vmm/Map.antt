-- ===== src/Vmm/Map.antt =====
-- `vmm_map_page` and `vmm_unmap_page` of src/vmm.c change one page's translation and no other.
pub mod Table
pub mod Kept
pub mod Cost
use my_own_operating_system.Base.{
  ℕ, ◌+◌, ◌*◌, ◌/◌, ◌%◌, ◌^◌, ◌<◌, bit_and, ◌≡◌, refl, sym, ap, ◌∙◌, ◌≢◌, inl, inr, Option, none,
  some, arith, ◌==◌, if◌then◌else◌, Bool-cases, eq_of_==, ne_of_==, ==-of_eq, ==-of_ne, update,
  ◌>>>◌,
}
use mathlib.Core.Path.{subst}
use my_own_operating_system.Pmm.{block_size}
use my_own_operating_system.Pmm.Alloc.{Full}
use my_own_operating_system.Vmm.{
  Vmm, pd_index, pt_index, pte_address, table_of, page_table, store_pte, map_page, unmap_page,
}
use my_own_operating_system.Vmm.Walk.{
  lookup, bit_and-index, bit_and-present, bit_and-page_mask, bit_or-flags,
}
use my_own_operating_system.Vmm.Frames.{
  IsPaged, IsPresent, entry, pd_index-lt, pte_address-frame, table_of-frame, entry-frame,
  lookup-same, lookup-absent, lookup-present, TableOutcome, exists, exhausted, allocated,
  page_table-Outcome,
}
use Table.{with_table, with_table-IsPaged, with_table-entry, with_table-lookup}

abbrev pub page_of : ℕ → ℕ
page_of virt = virt / block_size

-- What a table entry says to the processor: a translation if its lowest bit is set.
abbrev pub translation : ℕ → Option ℕ
translation pte = if pte % 2 == 0 then none else some pte

-- A frame with all flags is present.
pub translation_all : (n : ℕ) → translation (n * block_size + 7) ≡ some (n * block_size + 7)
translation_all n = rw (==-of_ne ((n * block_size + 7) % 2) 0 (λ z. absurd (omega arith)))

-- The page of `virt` translates by `pte` in `w`, and every other page as in `v`.
pub record Mapped (virt pte : ℕ) (v w : Vmm) : Type 0 where
  pub here : (a : ℕ) → a < 2 ^ 32 → page_of a ≡ page_of virt → lookup w a ≡ translation pte
  pub elsewhere : (a : ℕ) → a < 2 ^ 32 → page_of a ≢ page_of virt → lookup w a ≡ lookup v a
  pub paged : IsPaged w
  pub directory : w.directory ≡ v.directory

module _ (v : Vmm) (paged : IsPaged v) (virt value : ℕ) (low : virt < 2 ^ 32)
    (present : IsPresent (entry v (pd_index virt))) (word : value < 2 ^ 32) where
  -- The state after the table entry of `virt` was written.
  abbrev pub written : Vmm
  written = record v {
    ram = update v.ram (pte_address (table_of (entry v (pd_index virt))) virt) value;
  }

  target_frame :
      (pte_address (table_of (entry v (pd_index virt))) virt) / block_size
      ≡ entry v (pd_index virt) / block_size
  target_frame =
      let frame = table_of-frame (entry v (pd_index virt)) (paged.words _) in
      pte_address-frame (table_of (entry v (pd_index virt))) virt frame.0 ∙ frame.1

  ram_other :
      (a : ℕ) → a ≢ pte_address (table_of (entry v (pd_index virt))) virt → written.ram a ≡ v.ram a
  ram_other a ne = rw (==-of_ne a _ ne)

  -- The write misses the directory.
  pub entry_same : (j : ℕ) → j < 1024 → entry written j ≡ entry v j
  entry_same j h = ram_other (v.directory + j * 4) λ e.
      paged.table_apart (pd_index virt) (pd_index-lt virt low) present
        (sym target_frame ∙ sym (ap (λ (t : ℕ). t / block_size) e) ∙ entry-frame v j paged h)

  written-IsPaged : IsPaged written
  written-IsPaged = record {
    valid = paged.valid;
    zero_used = paged.zero_used;
    words = λ a. ground (arith, paged.words a);
    aligned = paged.aligned;
    fits = paged.fits;
    directory_used = paged.directory_used;
    table_used = λ j h. rw (entry_same j h) (paged.table_used j h);
    table_apart = λ j h. rw (entry_same j h) (paged.table_apart j h);
    tables_apart =
        λ j k hj hk. rw (entry_same j hj, entry_same k hk) (paged.tables_apart j k hj hk);
  }

  written_here :
      (a : ℕ) → a < 2 ^ 32 → page_of a ≡ page_of virt → lookup written a ≡ translation value
  written_here a h same =
      let pd : pd_index a ≡ pd_index virt = omega arith in
      let pt : pt_index a ≡ pt_index virt =
        omega (arith, bit_and-index (a >>> 12), bit_and-index (virt >>> 12)) in
      lookup-present written a (entry v (pd_index virt)) value
        (rw pd (entry_same (pd_index virt) (pd_index-lt virt low)))
        (rw (pt, ==-of_eq (pte_address (table_of (entry v (pd_index virt))) virt) _ refl)) present

  written_elsewhere :
      (a : ℕ) → a < 2 ^ 32 → page_of a ≢ page_of virt → lookup written a ≡ lookup v a
  written_elsewhere a h other =
      lookup-same v written a (entry_same (pd_index a) (pd_index-lt a h))
        λ odd. ram_other (pte_address (table_of (entry v (pd_index a))) a) (apart odd)
    where
      apart :
          IsPresent (entry v (pd_index a))
          → pte_address (table_of (entry v (pd_index a))) a
            ≢ pte_address (table_of (entry v (pd_index virt))) virt
      apart odd e = elim (Bool-cases (pd_index a == pd_index virt)) [
        | inl same ↦
            let pd : pd_index a ≡ pd_index virt = eq_of_== _ _ same in
            let t : table_of (entry v (pd_index a)) ≡ table_of (entry v (pd_index virt)) =
              ap (λ (n : ℕ). table_of (entry v n)) pd in
            other (omega (arith, t, e, pd, bit_and-index (a >>> 12), bit_and-index (virt >>> 12)))
        | inr differ ↦
            let frame = table_of-frame (entry v (pd_index a)) (paged.words _) in
            let at : pte_address (table_of (entry v (pd_index a))) a / block_size
                ≡ entry v (pd_index a) / block_size =
              pte_address-frame (table_of (entry v (pd_index a))) a frame.0 ∙ frame.1 in
            paged.tables_apart (pd_index a) (pd_index virt) (pd_index-lt a h) (pd_index-lt virt low)
              (ne_of_== _ _ differ) odd present
              (sym at ∙ ap (λ (t : ℕ). t / block_size) e ∙ target_frame)
      ]

  written-Mapped : Mapped virt value v written
  written-Mapped = record {
    here = written_here;
    elsewhere = written_elsewhere;
    paged = written-IsPaged;
    directory = refl;
  }

-- The same at a table address that is given.
store-Mapped :
    (v : Vmm) (virt value table : ℕ)
    → IsPaged v
    → virt < 2 ^ 32
    → IsPresent (entry v (pd_index virt))
    → value < 2 ^ 32
    → table_of (entry v (pd_index virt)) ≡ table
    → Mapped virt value v (record v { ram = update v.ram (pte_address table virt) value })
store-Mapped v virt value table paged low present word e =
    subst (λ t. Mapped virt value v (record v { ram = update v.ram (pte_address t virt) value })) e
      (written-Mapped v paged virt value low present word)

-- The ways `vmm_map_page` can go.
pub data MapOutcome (phys virt flags : ℕ) (v : Vmm) : Option Vmm → Type 0 where
  halted :
      entry v (pd_index virt) % 2 ≡ 0
      → Full v.pmm v.pmm.total_blocks
      → MapOutcome phys virt flags v none
  mapped : (w : Vmm) → Mapped virt (phys + flags) v w → MapOutcome phys virt flags v (some w)

store_pte-MapOutcome :
    (phys virt flags : ℕ) (v : Vmm)
    → IsPaged v
    → virt < 2 ^ 32
    → phys + flags < 2 ^ 32
    → (r : Option (ℕ × Vmm)) → TableOutcome virt v r
    → MapOutcome phys virt flags v (store_pte virt (phys + flags) r)
store_pte-MapOutcome phys virt flags v paged hv word _ (exists present) =
    mapped _ (written-Mapped v paged virt (phys + flags) hv present word)
store_pte-MapOutcome phys virt flags v paged hv word _ (exhausted absent full) = halted absent full
store_pte-MapOutcome phys virt flags v paged hv word _ (allocated b absent first pos) =
    mapped _ (record {
      here = stored.here;
      elsewhere = λ a h other.
          stored.elsewhere a h other
          ∙ with_table-lookup v paged b (pd_index virt) first pos index absent a h;
      paged = stored.paged;
      directory = refl;
    })
  where
    index : pd_index virt < 1024
    index = pd_index-lt virt hv

    w : Vmm
    w = with_table b (pd_index virt) v

    new_entry : entry (with_table b (pd_index virt) v) (pd_index virt) ≡ b * block_size + 7
    new_entry = with_table-entry v paged b (pd_index virt) first pos index absent

    stored :
        Mapped virt
          (phys + flags)
          (with_table b (pd_index virt) v)
          (record (with_table b (pd_index virt) v) {
            ram =
                update
                  (with_table b (pd_index virt) v).ram
                  (pte_address (b * block_size) virt)
                  (phys + flags);
          })
    stored =
        store-Mapped (with_table b (pd_index virt) v) virt (phys + flags) (b * block_size)
          (with_table-IsPaged v paged b (pd_index virt) first pos index absent) hv
          (omega (arith, new_entry)) word
          (omega (
            arith,
            new_entry,
            bit_and-page_mask (entry (with_table b (pd_index virt) v) (pd_index virt))
                ((with_table-IsPaged v paged b (pd_index virt) first pos index absent).words _),
          ))

-- From a state with the paging invariant, for a frame and a page of 32-bit addresses, the frame
-- aligned, and flags below the page size, `vmm_map_page` gives the page the translation `phys +
-- flags` (none if that is not present) and leaves every other page's translation alone, and keeps
-- the invariant; it halts only when the page's table is missing and no frame is free.
pub map_page-Mapped :
    (phys virt flags : ℕ) (v : Vmm)
    → IsPaged v
    → phys < 2 ^ 32
    → phys % block_size ≡ 0
    → virt < 2 ^ 32
    → flags < block_size
    → MapOutcome phys virt flags v (map_page phys virt flags v)
unfolding map_page
map_page-Mapped phys virt flags v paged hp aligned hv hf = rw (bit_or-flags phys flags aligned hf) (
    store_pte-MapOutcome phys virt flags v paged hv (omega arith) (page_table virt v)
      (page_table-Outcome virt v paged))

-- From a state with the paging invariant, `vmm_unmap_page` of a 32-bit address takes the page's
-- translation away, leaves every other page's alone, and keeps the invariant.
pub unmap_page-Mapped :
    (virt : ℕ) (v : Vmm) → IsPaged v → virt < 2 ^ 32 → Mapped virt 0 v (unmap_page virt v)
unfolding unmap_page
unmap_page-Mapped virt v paged hv = elim (Bool-cases (bit_and (entry v (pd_index virt)) 1 == 0)) [
  | inr present ↦ rw present (
      written-Mapped v paged virt 0 hv
        (omega (arith, ne_of_== _ _ present, bit_and-present (entry v (pd_index virt))))
        (omega arith))
  | inl absent ↦
      let even : entry v (pd_index virt) % 2 ≡ 0 =
        sym (bit_and-present (entry v (pd_index virt))) ∙ eq_of_== _ _ absent in
      rw absent (record {
        here = λ a h same. lookup-absent v a (
            let pd : pd_index a ≡ pd_index virt = omega arith in
            ap (λ (n : ℕ). entry v n % 2) pd ∙ even);
        elsewhere = λ a h other. refl;
        paged = paged;
        directory = refl;
      })
]
