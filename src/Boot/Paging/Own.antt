-- ===== src/Boot/Paging/Own.antt =====
-- A frame of its own behind a page: what the kernel writes there it reads back, and it touches no
-- paging structure of src/vmm.c.
use my_own_operating_system.Base.{
  ℕ, ◌+◌, ◌*◌, ◌/◌, ◌%◌, ◌^◌, ◌<◌, bit_and, ◌≡◌, refl, sym, ap, ◌∙◌, ◌≢◌, inl, inr, true, some,
  arith, ◌==◌, if◌then◌else◌, Bool-cases, ne_of_==, ==-of_eq, ==-of_ne, update,
}
use my_own_operating_system.Pmm.{block_size, free_block}
use my_own_operating_system.Pmm.Bitmap.{mark}
use my_own_operating_system.Pmm.Laws.{free_block-Marked, free_block-IsValid}
use my_own_operating_system.Vmm.{Vmm, pd_index, table_of, unmap_page}
use my_own_operating_system.Vmm.Walk.{lookup, bit_and-page_mask, bit_and-present}
use my_own_operating_system.Vmm.Frames.{IsPaged, IsPresent, entry}
use my_own_operating_system.Vmm.Scratch.{
  IsScratch, SameOutside, scratch-IsPaged, scratch-lookup, scratch-entry,
}
use my_own_operating_system.Vmm.Map.{entry_same}
use my_own_operating_system.Boot.Paging.{write_by, write_word, store_by, read_word, word_by, holds}

-- The page of `virt` is backed by frame `b` with these flags, and `b` holds no paging structure.
pub record IsBacked (virt b flags : ℕ) (v : Vmm) : Type 0 where
  pub paged : IsPaged v
  pub scratch : IsScratch v b
  pub here : lookup v virt ≡ some (b * block_size + flags)
  pub small : b < 2 ^ 20
  pub flags_small : flags < block_size

module _ (virt b flags value : ℕ) (v : Vmm) (k : IsBacked virt b flags v) (word : value < 2 ^ 32)
    (low : virt < 2 ^ 32) where
  mask : table_of (b * block_size + flags) ≡ b * block_size
  mask = omega (
    arith,
    bit_and-page_mask (b * block_size + flags) (omega (arith, k.small, k.flags_small)),
    k.flags_small,
  )

  abbrev pub stored : Vmm
  stored = record v { ram = update v.ram (b * block_size + virt % block_size) value }

  pub store_by-stored : store_by virt value v (lookup v virt) ≡ some stored
  store_by-stored =
      ap (store_by virt value v) k.here
      ∙ ap (λ a. some (record v { ram = update v.ram (a + virt % block_size) value })) mask

  pub write_word-stored : write_word virt value v ≡ some stored
  unfolding write_word
  write_word-stored =
      ap (write_by virt value v) k.here ∙ ap (store_by virt value v) (sym k.here) ∙ store_by-stored

  stored-SameOutside : SameOutside b v stored
  stored-SameOutside = record {
    same = λ a ne.
        rw (==-of_ne a (b * block_size + virt % block_size) (λ e. absurd (ne (omega (arith, e)))))
          refl;
    words = λ a. ground (arith, k.paged.words a, word);
    directory = refl;
  }

  pub stored-lookup : (a : ℕ) → a < 2 ^ 32 → lookup stored a ≡ lookup v a
  stored-lookup = scratch-lookup b v stored k.paged k.scratch stored-SameOutside

  pub stored-IsBacked : IsBacked virt b flags stored
  stored-IsBacked = record {
    paged =
        scratch-IsPaged b v stored k.paged k.scratch stored-SameOutside k.paged.valid (λ j h. h);
    scratch = record {
      not_directory = k.scratch.not_directory;
      not_table = λ i h.
          rw (scratch-entry b v stored k.paged k.scratch stored-SameOutside i h)
            (k.scratch.not_table i h);
    };
    here = stored-lookup virt low ∙ k.here;
    small = k.small;
    flags_small = k.flags_small;
  }

  pub stored-read : holds value (read_word virt stored) ≡ true
  unfolding read_word
  stored-read =
      ap (λ l. holds value (word_by virt stored l)) (stored-lookup virt low ∙ k.here)
      ∙ ap
          (λ a.
            (if a + virt % block_size == b * block_size + virt % block_size
              then value
              else v.ram (a + virt % block_size))
            == value)
          mask
      ∙ rw (==-of_eq (b * block_size + virt % block_size) (b * block_size + virt % block_size) refl)
          (==-of_eq value value refl)

-- The frame goes back to the allocator.
abbrev pub given_back : ℕ → Vmm → Vmm
given_back b v = record v { pmm = free_block (b * block_size) v.pmm }

-- The allocator is no part of the page walk.
pub given_back-lookup : (b : ℕ) (v : Vmm) (a : ℕ) → lookup (given_back b v) a ≡ lookup v a
unfolding lookup
given_back-lookup b v a = refl

pub given_back-IsPaged :
    (b : ℕ) (v : Vmm)
    → IsPaged v
    → IsScratch v b
    → b ≢ 0
    → b < v.pmm.total_blocks
    → IsPaged (given_back b v)
given_back-IsPaged b v paged scratch pos inside = record {
  valid = free_block-IsValid (b * block_size) v.pmm paged.valid;
  zero_used = kept 0 pos paged.zero_used;
  words = paged.words;
  aligned = paged.aligned;
  fits = paged.fits;
  directory_used =
      kept (v.directory / block_size) (λ e. scratch.not_directory (sym e)) paged.directory_used;
  table_used = λ i h odd.
      kept (entry v i / block_size) (λ e. scratch.not_table i h odd (sym e))
        (paged.table_used i h odd);
  table_apart = paged.table_apart;
  tables_apart = paged.tables_apart;
}
  where
    kept : (j : ℕ) → b ≢ j → mark v.pmm j ≡ 1 → mark (free_block (b * block_size) v.pmm) j ≡ 1
    kept j ne used = (free_block-Marked b v.pmm paged.valid inside).elsewhere j ne ∙ used

-- Taking a page's translation away makes no table of a frame.
pub unmap_page-IsScratch :
    (virt b : ℕ) (v : Vmm)
    → IsPaged v
    → virt < 2 ^ 32
    → IsScratch v b
    → IsScratch (unmap_page virt v) b
unfolding unmap_page
unmap_page-IsScratch virt b v paged low scratch =
    elim (Bool-cases (bit_and (entry v (pd_index virt)) 1 == 0)) [
      | inl absent ↦ rw absent scratch
      | inr present ↦
          let odd : IsPresent (entry v (pd_index virt)) =
            omega (arith, ne_of_== _ _ present, bit_and-present (entry v (pd_index virt))) in
          rw present (record {
            not_directory = scratch.not_directory;
            not_table = λ i h.
                rw (entry_same v paged virt 0 low odd (omega arith) i h) (scratch.not_table i h);
          })
    ]

pub unmap_page-pmm : (virt : ℕ) (v : Vmm) → (unmap_page virt v).pmm ≡ v.pmm
unfolding unmap_page
unmap_page-pmm virt v = elim (Bool-cases (bit_and (entry v (pd_index virt)) 1 == 0)) [
  | inl absent ↦ rw absent refl
  | inr present ↦ rw present refl
]
