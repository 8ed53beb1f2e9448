-- ===== src/Elf/Copy.antt =====
-- The page directory that src/elf.c makes for a program: a copy of the active one, which shares its
-- page tables.
use my_own_operating_system.Base.{
  ℕ, ◌+◌, ◌-◌, ◌*◌, ◌/◌, ◌%◌, ◌^◌, ◌<◌, bit_or, ◌≡◌, refl, sym, ap, ◌∙◌, ◌≢◌, true, ◌&&◌, some,
  arith, ltb, leb, ==-of_eq, ==-of_ne, update,
}
use my_own_operating_system.Pmm.{block_size}
use my_own_operating_system.Pmm.Bitmap.{mark, mark-set_self}
use my_own_operating_system.Pmm.Block.{took, took-IsValid}
use my_own_operating_system.Pmm.Alloc.{IsFirst}
use my_own_operating_system.Vmm.{Vmm, pd_index, pte_address, table_of, page_table, map_page}
use my_own_operating_system.Vmm.Walk.{lookup, bit_and-present, bit_or-flags}
use my_own_operating_system.Vmm.Frames.{
  IsPaged, IsPresent, entry, pd_index-lt, pte_address-frame, table_of-frame, entry-frame,
  lookup-same, lookup-present,
}
use my_own_operating_system.Vmm.Map.{translation}
use my_own_operating_system.Vmm.Map.Table.{took-kept}
use my_own_operating_system.Elf.{copy_directory}

-- The state with the copy in frame `b`, and the copy active.
abbrev pub in_copy : ℕ → Vmm → Vmm
in_copy b v = record {
  pmm = took b v.pmm;
  ram = copy_directory (b * block_size) v.directory v.ram;
  directory = b * block_size;
}

-- The state with the directory at `directory` active.
abbrev pub under : ℕ → Vmm → Vmm
under directory v = record v { directory = directory }

module _ (v : Vmm) (paged : IsPaged v) (b : ℕ) (first : IsFirst v.pmm b) where
  copied-other : (a : ℕ) → a / block_size ≢ b → (in_copy b v).ram a ≡ v.ram a
  copied-other a ne = ground (arith, ne)

  copied-entry : (i : ℕ) → i < 1024 → entry (in_copy b v) i ≡ entry v i
  copied-entry i h = rw (inside) (ap (λ (n : ℕ). v.ram (v.directory + n)) (omega arith))
    where
      inside :
          (leb (b * block_size) (b * block_size + i * 4)
            && ltb (b * block_size + i * 4) (b * block_size + block_size))
          ≡ true
      inside = ground (arith, h)

  -- A used frame is not the copy's.
  not_copy : (f : ℕ) → mark v.pmm f ≡ 1 → f ≢ b
  not_copy f used e = absurd (omega (arith, used, first.free, ap (mark v.pmm) e))

  pub in_copy-IsPaged : IsPaged (in_copy b v)
  in_copy-IsPaged = record {
    valid = took-IsValid paged.valid first.inside first.free;
    zero_used = took-kept v.pmm b 0 paged.zero_used;
    words = λ a. ground (arith, paged.words a, paged.words (v.directory + (a - b * block_size)));
    aligned = omega arith;
    fits = omega (arith, first.inside, paged.valid.small);
    directory_used =
        let q : b * block_size / block_size ≡ b = omega arith in rw q (mark-set_self v.pmm b);
    table_used = λ i h odd. rw (copied-entry i h) (
        took-kept v.pmm b (entry v i / block_size)
          (paged.table_used i h (rw (copied-entry i h) at odd)));
    table_apart = λ i h odd.
        let q : b * block_size / block_size ≡ b = omega arith in
        rw (copied-entry i h, q)
          (not_copy (entry v i / block_size) (paged.table_used i h (rw (copied-entry i h) at odd)));
    tables_apart = λ i j hi hj ne oi oj.
        rw (copied-entry i hi, copied-entry j hj)
          (paged.tables_apart i j hi hj ne (rw (copied-entry i hi) at oi)
            (rw (copied-entry j hj) at oj));
  }

  -- The words of a present table are as they were.
  copied-pte :
      (virt : ℕ)
      → virt < 2 ^ 32
      → IsPresent (entry v (pd_index virt))
      → (in_copy b v).ram (pte_address (table_of (entry v (pd_index virt))) virt)
        ≡ v.ram (pte_address (table_of (entry v (pd_index virt))) virt)
  copied-pte virt h odd =
      let frame = table_of-frame (entry v (pd_index virt)) (paged.words _) in
      copied-other (pte_address (table_of (entry v (pd_index virt))) virt) λ e.
        not_copy (entry v (pd_index virt) / block_size)
          (paged.table_used (pd_index virt) (pd_index-lt virt h) odd)
          (sym (pte_address-frame (table_of (entry v (pd_index virt))) virt frame.0 ∙ frame.1) ∙ e)

  pub in_copy-lookup : (virt : ℕ) → virt < 2 ^ 32 → lookup (in_copy b v) virt ≡ lookup v virt
  in_copy-lookup virt h =
      lookup-same v (in_copy b v) virt (copied-entry (pd_index virt) (pd_index-lt virt h))
        (copied-pte virt h)

  -- The word that `vmm_map_page` writes where there is a table.
  map_page-present :
      (phys virt flags : ℕ)
      → virt < 2 ^ 32
      → IsPresent (entry v (pd_index virt))
      → map_page phys virt flags (in_copy b v)
        ≡ some (record (in_copy b v) {
          ram =
              update
                (in_copy b v).ram
                (pte_address (table_of (entry v (pd_index virt))) virt)
                (bit_or phys flags);
        })
  unfolding map_page page_table
  map_page-present phys virt flags h odd =
      rw
        (
          copied-entry (pd_index virt) (pd_index-lt virt h),
          bit_and-present (entry v (pd_index virt)),
          odd,
        )
        refl

  -- The state after the write, whichever directory is active.
  abbrev stored : ℕ → ℕ → ℕ → Vmm
  stored directory virt value = record {
    pmm = took b v.pmm;
    ram = update (in_copy b v).ram (pte_address (table_of (entry v (pd_index virt))) virt) value;
    directory = directory;
  }

  stored-lookup :
      (directory virt value : ℕ)
      → virt < 2 ^ 32
      → IsPresent (entry v (pd_index virt))
      → (in_copy b v).ram (directory + pd_index virt * 4) ≡ entry v (pd_index virt)
      → (directory + pd_index virt * 4) / block_size ≡ directory / block_size
      → entry v (pd_index virt) / block_size ≢ directory / block_size
      → lookup (stored directory virt value) virt ≡ translation value
  stored-lookup directory virt value low odd same frame apart =
      let t = table_of-frame (entry v (pd_index virt)) (paged.words _) in
      lookup-present (stored directory virt value) virt (entry v (pd_index virt)) value
        (rw
          (==-of_ne (directory + pd_index virt * 4)
            (pte_address (table_of (entry v (pd_index virt))) virt)
            (λ e. apart (
              sym t.1
              ∙ sym (pte_address-frame (table_of (entry v (pd_index virt))) virt t.0)
              ∙ sym (ap (λ (a : ℕ). a / block_size) e)
              ∙ frame)))
          same)
        (rw
          (==-of_eq (pte_address (table_of (entry v (pd_index virt))) virt)
            (pte_address (table_of (entry v (pd_index virt))) virt) refl)
          refl)
        odd

  -- In the copy of a directory that satisfies the paging invariant, made in the first free frame,
  -- mapping an aligned frame at a page whose table is present gives the page the same translation
  -- under the copy and under the original directory.
  pub map_page-shared :
      (phys virt flags : ℕ)
      → phys % block_size ≡ 0
      → virt < 2 ^ 32
      → flags < block_size
      → IsPresent (entry v (pd_index virt))
      → (w : Vmm) × (map_page phys virt flags (in_copy b v) ≡ some w)
        × (lookup w virt ≡ translation (phys + flags))
        × (lookup (under v.directory w) virt ≡ translation (phys + flags))
  map_page-shared phys virt flags aligned low hf odd =
      let index = pd_index-lt virt low in
      let value = ap translation (bit_or-flags phys flags aligned hf) in
      let used = paged.table_used (pd_index virt) index odd in
      let q : b * block_size / block_size ≡ b = omega arith in
      let home = entry-frame v (pd_index virt) paged index in
      (
        stored (b * block_size) virt (bit_or phys flags),
        map_page-present phys virt flags low odd,
        stored-lookup (b * block_size) virt (bit_or phys flags) low odd
              (copied-entry (pd_index virt) index) (omega (arith, index))
              (λ e. not_copy (entry v (pd_index virt) / block_size) used (e ∙ q))
            ∙ value,
        stored-lookup v.directory virt (bit_or phys flags) low odd
              (copied-other (v.directory + pd_index virt * 4)
                (λ e. not_copy (v.directory / block_size) paged.directory_used (sym home ∙ e)))
              home (paged.table_apart (pd_index virt) index odd)
            ∙ value,
      )
