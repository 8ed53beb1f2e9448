-- ===== src/Vmm/Scratch.antt =====
-- A frame that the paging code of src/vmm.c does not use: taking it from the allocator, and
-- writing into it, changes no translation.
use my_own_operating_system.Base.{ℕ, ◌+◌, ◌*◌, ◌/◌, ◌^◌, ◌<◌, ◌≡◌, sym, ap, ◌∙◌, ◌≢◌, arith}
use my_own_operating_system.Pmm.{block_size}
use my_own_operating_system.Pmm.Bitmap.{mark}
use my_own_operating_system.Pmm.Block.{IsValid}
use my_own_operating_system.Vmm.{Vmm, pd_index, pte_address, table_of}
use my_own_operating_system.Vmm.Walk.{lookup}
use my_own_operating_system.Vmm.Frames.{
  IsPaged, IsPresent, entry, pd_index-lt, pte_address-frame, table_of-frame, entry-frame,
  lookup-same,
}

-- Frame `b` holds neither the directory nor a table.
pub record IsScratch (v : Vmm) (b : ℕ) : Type 0 where
  pub not_directory : v.directory / block_size ≢ b
  pub not_table : (i : ℕ) → i < 1024 → IsPresent (entry v i) → entry v i / block_size ≢ b

-- The same allocator and directory, and the same words outside frame `b`.
pub record SameOutside (b : ℕ) (v w : Vmm) : Type 0 where
  pub same : (a : ℕ) → a / block_size ≢ b → w.ram a ≡ v.ram a
  pub words : (a : ℕ) → w.ram a < 2 ^ 32
  pub directory : w.directory ≡ v.directory

-- A free frame is none of those that the paging structures stand in.
pub IsScratch-of_free : (v : Vmm) (b : ℕ) → IsPaged v → mark v.pmm b ≡ 0 → IsScratch v b
IsScratch-of_free v b paged free = record {
  not_directory = λ e. omega (arith, free, paged.directory_used, ap (mark v.pmm) e);
  not_table = λ i h odd e. omega (arith, free, paged.table_used i h odd, ap (mark v.pmm) e);
}

module _ (b : ℕ) (v w : Vmm) (paged : IsPaged v) (scratch : IsScratch v b)
    (s : SameOutside b v w) where
  entry_same : (i : ℕ) → i < 1024 → entry w i ≡ entry v i
  entry_same i h = rw (s.directory) (
      s.same (v.directory + i * 4) (λ e. scratch.not_directory (sym (entry-frame v i paged h) ∙ e)))

  -- No translation changes.
  pub scratch-lookup : (virt : ℕ) → virt < 2 ^ 32 → lookup w virt ≡ lookup v virt
  scratch-lookup virt h =
      lookup-same v w virt (entry_same (pd_index virt) (pd_index-lt virt h)) λ odd.
        s.same (pte_address (table_of (entry v (pd_index virt))) virt) (λ e.
          (let frame = table_of-frame (entry v (pd_index virt)) (paged.words _) in
            scratch.not_table (pd_index virt) (pd_index-lt virt h) odd (
              sym (pte_address-frame (table_of (entry v (pd_index virt))) virt frame.0 ∙ frame.1)
              ∙ e)))

  pub scratch-entry : (i : ℕ) → i < 1024 → entry w i ≡ entry v i
  scratch-entry = entry_same

  -- The invariant of the paging structures is kept, with the same allocator or a fuller one.
  pub scratch-IsPaged : IsValid w.pmm → ((k : ℕ) → mark v.pmm k ≡ 1 → mark w.pmm k ≡ 1) → IsPaged w
  scratch-IsPaged valid kept = record {
    valid = valid;
    zero_used = kept 0 paged.zero_used;
    words = s.words;
    aligned = rw (s.directory) paged.aligned;
    fits = rw (s.directory) paged.fits;
    directory_used = rw (s.directory) (kept (v.directory / block_size) paged.directory_used);
    table_used = λ i h odd.
        rw (entry_same i h)
          (kept (entry v i / block_size) (paged.table_used i h (rw (entry_same i h) at odd)));
    table_apart = λ i h odd.
        rw (entry_same i h, s.directory) (paged.table_apart i h (rw (entry_same i h) at odd));
    tables_apart = λ i j hi hj ne oi oj.
        rw (entry_same i hi, entry_same j hj)
          (paged.tables_apart i j hi hj ne (rw (entry_same i hi) at oi)
            (rw (entry_same j hj) at oj));
  }
