-- ===== src/Vmm/Map/Table.antt =====
-- A page table that `vmm_map_page` of src/vmm.c has to allocate: the walk sees no difference yet.
use my_own_operating_system.Base.{
  ℕ, ◌+◌, ◌*◌, ◌/◌, ◌%◌, ◌^◌, ◌<◌, bit_or, ◌≡◌, refl, sym, ap, ◌∙◌, ◌≢◌, ◌⊎◌, inl, inr, arith, ◌==◌,
  Bool-cases, eq_of_==, ne_of_==, ==-of_eq, ==-of_ne, update,
}
use my_own_operating_system.Pmm.{Pmm, block_size}
use my_own_operating_system.Pmm.Bitmap.{mark, mark-set_self, mark-set_ne}
use my_own_operating_system.Pmm.Block.{took, took-IsValid}
use my_own_operating_system.Pmm.Alloc.{IsFirst}
use my_own_operating_system.Vmm.{
  Vmm, flag_all, pd_index, pde_address, pte_address, table_of, clear_frame,
}
use my_own_operating_system.Vmm.Walk.{lookup, bit_or-flags}
use my_own_operating_system.Vmm.Scratch.{IsScratch}
use my_own_operating_system.Vmm.Frames.{
  IsPaged, IsPresent, entry, pd_index-lt, pte_address-frame, table_of-frame, entry-frame,
  lookup-same, lookup-absent, lookup-present,
}

pub clear_frame-other :
    (b : ℕ) (ram : ℕ → ℕ) (a : ℕ) → a / block_size ≢ b → clear_frame (b * block_size) ram a ≡ ram a
unfolding clear_frame
clear_frame-other b ram a h = ground arith

clear_frame-inside :
    (b : ℕ) (ram : ℕ → ℕ) (a : ℕ) → a / block_size ≡ b → clear_frame (b * block_size) ram a ≡ 0
unfolding clear_frame
clear_frame-inside b ram a h = ground arith

pub clear_frame-lt : (f : ℕ) (ram : ℕ → ℕ) (a : ℕ) → ram a < 2 ^ 32 → clear_frame f ram a < 2 ^ 32
unfolding clear_frame
clear_frame-lt f ram a h = ground arith

-- The state after frame `b` became the table of directory entry `i`.
abbrev pub with_table : ℕ → ℕ → Vmm → Vmm
with_table b i v = record v {
  pmm = took b v.pmm;
  ram =
      update (clear_frame (b * block_size) v.ram) (v.directory + i * 4)
        (bit_or (b * block_size) flag_all);
}

pub took-kept : (s : Pmm) (b k : ℕ) → mark s k ≡ 1 → mark (took b s) k ≡ 1
took-kept s b k h = elim (Bool-cases (b == k)) [
  | inl same ↦ rw (← eq_of_== b k same) (mark-set_self s b)
  | inr other ↦ mark-set_ne s b k (ne_of_== b k other) ∙ h
]

module _ (v : Vmm) (paged : IsPaged v) (b i : ℕ) (first : IsFirst v.pmm b) (pos : b ≢ 0)
    (index : i < 1024) (absent : entry v i % 2 ≡ 0) where
  new : Vmm
  new = with_table b i v

  b-lt : b < 2 ^ 20
  b-lt = omega (arith, first.inside, paged.valid.small)

  directory-ne : v.directory / block_size ≢ b
  directory-ne e = omega (arith, first.free, paged.directory_used, ap (mark v.pmm) e)

  -- The word that the directory entry gets.
  new_entry : bit_or (b * block_size) flag_all ≡ b * block_size + 7
  new_entry = bit_or-flags (b * block_size) 7 (omega arith) (omega arith)

  entry_self : entry new i ≡ b * block_size + 7
  unfolding new
  entry_self = rw (==-of_eq (v.directory + i * 4) (v.directory + i * 4) refl) new_entry

  entry_other : (j : ℕ) → j < 1024 → i ≢ j → entry new j ≡ entry v j
  unfolding new
  entry_other j h ne = rw (==-of_ne (v.directory + j * 4) (v.directory + i * 4) (omega arith)) (
      clear_frame-other b v.ram (v.directory + j * 4)
        (λ e. directory-ne (sym (entry-frame v j paged h) ∙ e)))

  -- A word outside the new frame and the directory entry is as before.
  ram_other :
      (a : ℕ) → a / block_size ≢ b → a / block_size ≢ v.directory / block_size → new.ram a ≡ v.ram a
  unfolding new
  ram_other a ne ne' =
      rw
        (==-of_ne a (v.directory + i * 4)
          (λ e. ne' (ap (λ (t : ℕ). t / block_size) e ∙ entry-frame v i paged index)))
        (clear_frame-other b v.ram a ne)

  -- The new table is empty.
  ram_table : (a : ℕ) → a / block_size ≡ b → new.ram a ≡ 0
  unfolding new
  ram_table a e =
      rw
        (==-of_ne a (v.directory + i * 4) (λ e'.
          directory-ne
            (sym (entry-frame v i paged index) ∙ sym (ap (λ (t : ℕ). t / block_size) e') ∙ e)))
        (clear_frame-inside b v.ram a e)

  table-ne : (j : ℕ) → j < 1024 → IsPresent (entry v j) → entry v j / block_size ≢ b
  table-ne j h odd e = omega (arith, first.free, paged.table_used j h odd, ap (mark v.pmm) e)

  i_absent : (j : ℕ) → IsPresent (entry v j) → i ≢ j
  i_absent j odd e = omega (arith, absent, ap (entry v) e)

  abbrev new_mark : ℕ → ℕ
  new_mark = mark (took b v.pmm)

  entry_self_frame : entry new i / block_size ≡ b
  entry_self_frame = omega (arith, entry_self)

  -- A present entry of the new directory is the new one, or an old one.
  IsPresent-cases :
      (j : ℕ)
      → j < 1024
      → IsPresent (entry new j)
      → (i ≡ j) ⊎ ((i ≢ j) × (entry new j ≡ entry v j) × IsPresent (entry v j))
  IsPresent-cases j h odd = elim (Bool-cases (i == j)) [
    | inl same ↦ inl (eq_of_== i j same)
    | inr other ↦
        let ne : i ≢ j = ne_of_== i j other in
        let e : entry new j ≡ entry v j = entry_other j h ne in inr (ne, e, rw e at odd)
  ]

  new_words : (a : ℕ) → new.ram a < 2 ^ 32
  unfolding new
  new_words a = elim (Bool-cases (a == v.directory + i * 4)) [
    | inl here ↦ rw (here, new_entry) (omega (arith, b-lt))
    | inr other ↦ rw other (clear_frame-lt (b * block_size) v.ram a (paged.words a))
  ]

  new_table_used :
      (j : ℕ) → j < 1024 → IsPresent (entry new j) → new_mark (entry new j / block_size) ≡ 1
  new_table_used j h odd = elim (IsPresent-cases j h odd) [
    | inl same ↦
        let f : entry new j / block_size ≡ b =
          ap (λ (n : ℕ). entry new n / block_size) (sym same) ∙ entry_self_frame in
        rw f (mark-set_self v.pmm b)
    | inr (ne, e, old) ↦
        rw e (took-kept v.pmm b (entry v j / block_size) (paged.table_used j h old))
  ]

  new_table_apart :
      (j : ℕ)
      → j < 1024
      → IsPresent (entry new j)
      → entry new j / block_size ≢ v.directory / block_size
  new_table_apart j h odd e = elim (IsPresent-cases j h odd) [
    | inl same ↦
        directory-ne
          (sym e ∙ ap (λ (n : ℕ). entry new n / block_size) (sym same) ∙ entry_self_frame)
    | inr (ne, same, old) ↦
        paged.table_apart j h old (ap (λ (t : ℕ). t / block_size) (sym same) ∙ e)
  ]

  new_tables_apart :
      (j k : ℕ)
      → j < 1024
      → k < 1024
      → j ≢ k
      → IsPresent (entry new j)
      → IsPresent (entry new k)
      → entry new j / block_size ≢ entry new k / block_size
  new_tables_apart j k hj hk ne oj ok e = elim (IsPresent-cases j hj oj) [
    | inl ij ↦ elim (IsPresent-cases k hk ok) [
      | inl ik ↦ ne (sym ij ∙ ik)
      | inr (nk, ek, old) ↦ table-ne k hk old (
          ap (λ (t : ℕ). t / block_size) (sym ek)
          ∙ sym e
          ∙ ap (λ (n : ℕ). entry new n / block_size) (sym ij)
          ∙ entry_self_frame)
    ]
    | inr (nj, ej, old) ↦ elim (IsPresent-cases k hk ok) [
      | inl ik ↦ table-ne j hj old (
          ap (λ (t : ℕ). t / block_size) (sym ej)
          ∙ e
          ∙ ap (λ (n : ℕ). entry new n / block_size) (sym ik)
          ∙ entry_self_frame)
      | inr (nk, ek, old') ↦
          paged.tables_apart j k hj hk ne old old'
            (ap (λ (t : ℕ). t / block_size) (sym ej) ∙ e ∙ ap (λ (t : ℕ). t / block_size) ek)
    ]
  ]

  pub with_table-IsPaged : IsPaged (with_table b i v)
  unfolding new
  with_table-IsPaged = record {
    valid = took-IsValid paged.valid first.inside first.free;
    zero_used = took-kept v.pmm b 0 paged.zero_used;
    words = new_words;
    aligned = paged.aligned;
    fits = paged.fits;
    directory_used = took-kept v.pmm b (v.directory / block_size) paged.directory_used;
    table_used = new_table_used;
    table_apart = new_table_apart;
    tables_apart = new_tables_apart;
  }

  pub with_table-entry : entry (with_table b i v) i ≡ b * block_size + 7
  unfolding new
  with_table-entry = entry_self

  new-lookup : (virt : ℕ) → virt < 2 ^ 32 → lookup new virt ≡ lookup v virt
  new-lookup virt h = elim (Bool-cases (i == pd_index virt)) [
    | inl same ↦
        let e : i ≡ pd_index virt = eq_of_== i (pd_index virt) same in
        let here : new.ram (pde_address new.directory virt) ≡ b * block_size + 7 =
          ap (entry new) (sym e) ∙ entry_self in
        let frame = table_of-frame (b * block_size + 7) (omega (arith, b-lt)) in
        let empty : new.ram (pte_address (table_of (b * block_size + 7)) virt) ≡ 0 =
          ram_table (pte_address (table_of (b * block_size + 7)) virt) (
            pte_address-frame (table_of (b * block_size + 7)) virt frame.0
            ∙ frame.1
            ∙ omega arith) in
        lookup-present new virt (b * block_size + 7) 0 here empty (omega arith)
        ∙ sym (lookup-absent v virt (ap (λ (n : ℕ). entry v n % 2) (sym e) ∙ absent))
    | inr other ↦
        let ne : i ≢ pd_index virt = ne_of_== i (pd_index virt) other in
        let index' : pd_index virt < 1024 = pd_index-lt virt h in
        lookup-same v new virt (entry_other (pd_index virt) index' ne) λ odd.
          (let frame = table_of-frame (entry v (pd_index virt)) (paged.words _) in
            let at : pte_address (table_of (entry v (pd_index virt))) virt / block_size
                ≡ entry v (pd_index virt) / block_size =
              pte_address-frame (table_of (entry v (pd_index virt))) virt frame.0 ∙ frame.1 in
            ram_other (pte_address (table_of (entry v (pd_index virt))) virt)
              (λ e. table-ne (pd_index virt) index' odd (sym at ∙ e))
              (λ e. paged.table_apart (pd_index virt) index' odd (sym at ∙ e)))
  ]

  -- No translation has changed: the new table is empty.
  pub with_table-lookup :
      (virt : ℕ) → virt < 2 ^ 32 → lookup (with_table b i v) virt ≡ lookup v virt
  unfolding new
  with_table-lookup virt h = new-lookup virt h

  -- A frame that held no table, and is not the new one, holds none.
  pub with_table-IsScratch : (c : ℕ) → b ≢ c → IsScratch v c → IsScratch (with_table b i v) c
  unfolding new
  with_table-IsScratch c ne scratch = record {
    not_directory = scratch.not_directory;
    not_table = λ j h odd e. elim (IsPresent-cases j h odd) [
      | inl same ↦
          ne (
            sym entry_self_frame ∙ ap (λ (n : ℕ). entry (with_table b i v) n / block_size) same ∙ e)
      | inr (ne', same, old) ↦
          scratch.not_table j h old (ap (λ (t : ℕ). t / block_size) (sym same) ∙ e)
    ];
  }
