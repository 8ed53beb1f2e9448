-- ===== src/Elf/Restore.antt =====
-- What `elf_load` of src/elf.c leaves behind: the active directory and the interrupt flag.
use my_own_operating_system.Base.{
  ℕ, zero, suc, ◌+◌, ◌≡◌, refl, ◌∙◌, inl, inr, Bool, true, false, Option, none, some, List, [], ltb,
  ◌==◌, Bool-cases, add32, mul32,
}
use my_own_operating_system.Pmm.{Pmm, alloc_block}
use my_own_operating_system.Vfs.{Driver, call_read_of, read_fs, find_node_by_path}
use my_own_operating_system.Elf.Header.{ehdr_size, phdr_size, p_type, pt_load}
use my_own_operating_system.Elf.{
  Loader, byte_at, Pages, filled, exhausted, halted, unfinished, Loaded, complete, failed, stopped,
  endless, Result, returned, no_return, finish, switch_directory, switch_back, after_pages,
  load_segment, load_header, load_headers, load_in, is_executable, load_checked, load_file,
  elf_load, map_pages,
}

-- A directory is active in the register and in `current_page_directory`, and interrupts are on if
-- they were on before.
pub record Restored {Files : Type 0} (directory : ℕ) (before : Bool) (w : Loader Files)
    : Type 0 where
  pub current : w.vmm.directory ≡ directory
  pub register : w.cr3 ≡ directory
  pub flag : before ≡ true → w.interrupts ≡ true

module _ {Files : Type 0} where
  abbrev pub LoadedRestored : ℕ → Bool → Loaded Files → Type 0
  LoadedRestored dir before (complete blocks w) = Restored dir before w
  LoadedRestored dir before (failed blocks w) = Restored dir before w
  LoadedRestored dir before stopped = Unit
  LoadedRestored dir before endless = Unit

  -- `Unit` where `elf_load` does not return.
  abbrev pub ResultRestored : ℕ → Bool → Result Files → Type 0
  ResultRestored dir before (returned r w) = Restored dir before w
  ResultRestored dir before no_return = Unit

  finish-Restored :
      (entry pd dir : ℕ) (before : Bool) (r : Loaded Files)
      → LoadedRestored dir before r
      → ResultRestored dir before (finish entry pd r)
  finish-Restored entry pd dir before (complete blocks w) h = h
  finish-Restored entry pd dir before (failed blocks w) h = record {
    current = h.current;
    register = h.register;
    flag = h.flag;
  }
  finish-Restored entry pd dir before stopped h = tt
  finish-Restored entry pd dir before endless h = tt

-- Reading a file changes neither the active directory nor the interrupt flag.
pub record IsQuiet {Files Ref Fn : Type 0} (d : Driver (Loader Files) Ref Fn) : Type 0 where
  pub current :
      (f : Fn) (r : Ref) (offset size buffer : ℕ) (w : Loader Files)
      → (d.call_read f r offset size buffer w).1.vmm.directory ≡ w.vmm.directory
  pub register :
      (f : Fn) (r : Ref) (offset size buffer : ℕ) (w : Loader Files)
      → (d.call_read f r offset size buffer w).1.cr3 ≡ w.cr3
  pub flag :
      (f : Fn) (r : Ref) (offset size buffer : ℕ) (w : Loader Files)
      → (d.call_read f r offset size buffer w).1.interrupts ≡ w.interrupts

module _ {Files Ref Fn : Type 0} (d : Driver (Loader Files) Ref Fn) (quiet : IsQuiet d) where
  read-Restored :
      (file : Option Ref) (offset size buffer dir : ℕ) (before : Bool) (w : Loader Files)
      → Restored dir before w
      → Restored dir before (read_fs d file offset size buffer w).1
  unfolding read_fs
  read-Restored none offset size buffer dir before w h = h
  read-Restored (some r) offset size buffer dir before w h = go (d.node w r).read
    where
      go : (o : Option Fn) → Restored dir before (call_read_of d o r offset size buffer w).1
      go none = h
      go (some f) = record {
        current = quiet.current f r offset size buffer w ∙ h.current;
        register = quiet.register f r offset size buffer w ∙ h.register;
        flag = λ on. quiet.flag f r offset size buffer w ∙ h.flag on;
      }

  switch_back-Restored :
      (old dir : ℕ) (before : Bool) (w : Loader Files)
      → old ≡ dir
      → Restored dir before (switch_back old w)
  switch_back-Restored old dir before w e = record { current = e; register = e; flag = λ on. refl }

  after_pages-Restored :
      (file : Option Ref) (old dir offset filesz vaddr : ℕ) (before : Bool) (w : Loader Files)
      (go : List ℕ → Loader Files → Loaded Files)
      → old ≡ dir
      → ((bs : List ℕ) (u : Loader Files)
          → Restored dir before u
          → LoadedRestored dir before (go bs u))
      → (r : Pages) → LoadedRestored dir before (after_pages d file old offset filesz vaddr w r go)
  after_pages-Restored file old dir offset filesz vaddr before w go e later (filled bs v) =
      later bs (switch_back old (read_fs d file offset filesz vaddr (record w { vmm = v })).1) (
        switch_back-Restored old dir before
          (read_fs d file offset filesz vaddr (record w { vmm = v })).1 e)
  after_pages-Restored file old dir offset filesz vaddr before w go e later (exhausted bs v) =
      switch_back-Restored old dir before (record w { vmm = v }) e
  after_pages-Restored file old dir offset filesz vaddr before w go e later halted = tt
  after_pages-Restored file old dir offset filesz vaddr before w go e later unfinished = tt

  load_segment-Restored :
      (fuel : ℕ) (file : Option Ref) (proc_pd p dir : ℕ) (before : Bool) (bs : List ℕ)
      (w : Loader Files) (go : List ℕ → Loader Files → Loaded Files)
      → Restored dir before w
      → ((bs : List ℕ) (u : Loader Files)
          → Restored dir before u
          → LoadedRestored dir before (go bs u))
      → LoadedRestored dir before (load_segment d fuel file proc_pd p bs w go)
  unfolding load_segment
  load_segment-Restored fuel file proc_pd p dir before bs w go h later =
      after_pages-Restored file w.vmm.directory dir _ _ _ before
        (switch_directory proc_pd (record w { interrupts = false })) go h.current later
        (map_pages fuel _ _ bs _)

  load_header-Restored :
      (fuel : ℕ) (file : Option Ref) (proc_pd p dir : ℕ) (before : Bool) (bs : List ℕ) (count : ℕ)
      (w : Loader Files) (go : List ℕ → Loader Files → Loaded Files)
      → Restored dir before w
      → ((bs : List ℕ) (u : Loader Files)
          → Restored dir before u
          → LoadedRestored dir before (go bs u))
      → LoadedRestored dir before (load_header d fuel file proc_pd p bs (count, w) go)
  load_header-Restored fuel file proc_pd p dir before bs count w go h later =
      elim (Bool-cases (ltb count phdr_size)) [
        | inl short ↦ rw short h
        | inr read ↦ rw read (elim (Bool-cases (p_type (byte_at w.vmm) p == pt_load)) [
          | inl load ↦
              rw load (load_segment-Restored fuel file proc_pd p dir before bs w go h later)
          | inr other ↦ rw other (later bs w h)
        ])
      ]

  load_headers-Restored :
      (fuel : ℕ) (file : Option Ref) (proc_pd phoff entsize p dir : ℕ) (before : Bool) (i left : ℕ)
      (bs : List ℕ) (w : Loader Files)
      → Restored dir before w
      → LoadedRestored dir before (load_headers d fuel file proc_pd phoff entsize p i left bs w)
  unfolding load_headers
  load_headers-Restored fuel file proc_pd phoff entsize p dir before i zero bs w h = h
  load_headers-Restored fuel file proc_pd phoff entsize p dir before i (suc left) bs w h =
      let r = read_fs d file (add32 phoff (mul32 i entsize)) phdr_size p w in
      load_header-Restored fuel file proc_pd p dir before bs r.0 r.1
        (λ bs' w'. load_headers d fuel file proc_pd phoff entsize p (i + 1) left bs' w')
        (read-Restored file (add32 phoff (mul32 i entsize)) phdr_size p dir before w h)
        (λ bs' u h'.
          load_headers-Restored fuel file proc_pd phoff entsize p dir before (i + 1) left bs' u h')

  load_in-Restored :
      (fuel : ℕ) (file : Option Ref) (ehdr p dir : ℕ) (before : Bool) (pd : ℕ) (pmm' : Pmm)
      (w : Loader Files)
      → Restored dir before w
      → ResultRestored dir before (load_in d fuel file ehdr p (pd, pmm') w)
  unfolding load_in
  load_in-Restored fuel file ehdr p dir before pd pmm' w h = elim (Bool-cases (pd == 0)) [
    | inl null ↦ rw null (record { current = h.current; register = h.register; flag = h.flag })
    | inr got ↦ rw got (
        finish-Restored _ pd dir before _ (
          load_headers-Restored fuel file pd _ _ p dir before 0 _ [] _
            (record { current = h.current; register = h.register; flag = h.flag })))
  ]

  load_checked-Restored :
      (fuel : ℕ) (file : Option Ref) (ehdr p dir : ℕ) (before : Bool) (count : ℕ) (w : Loader Files)
      → Restored dir before w
      → ResultRestored dir before (load_checked d fuel file ehdr p (count, w))
  load_checked-Restored fuel file ehdr p dir before count w h =
      elim (Bool-cases (ltb count ehdr_size)) [
        | inl short ↦ rw short h
        | inr read ↦ rw read (elim (Bool-cases (is_executable (byte_at w.vmm) ehdr)) [
          | inr not' ↦ rw not' h
          | inl is ↦ rw is (
              load_in-Restored fuel file ehdr p dir before (alloc_block w.vmm.pmm).0
                (alloc_block w.vmm.pmm).1 w h)
        ])
      ]

  -- If reading a file changes neither the active directory nor the interrupt flag, and CR3 holds
  -- `current_page_directory` at the call, then whenever `elf_load` returns, both hold the caller's
  -- directory again, and interrupts are on if they were on before; of interrupts that were off
  -- nothing is said.
  pub elf_load-Restored :
      (fuel : ℕ) (path : List ℕ) (ehdr p : ℕ) (w : Loader Files)
      → w.cr3 ≡ w.vmm.directory
      → ResultRestored w.vmm.directory w.interrupts (elf_load d fuel path ehdr p w)
  unfolding elf_load
  elf_load-Restored fuel path ehdr p w e = by_file (find_node_by_path d path w)
    where
      h : Restored w.vmm.directory w.interrupts w
      h = record { current = refl; register = e; flag = λ on. on }

      by_file :
          (o : Option Ref)
          → ResultRestored w.vmm.directory w.interrupts (load_file d fuel o ehdr p w)
      by_file none = h
      by_file (some f) =
          load_checked-Restored fuel (some f) ehdr p w.vmm.directory w.interrupts
            (read_fs d (some f) 0 ehdr_size ehdr w).0 (read_fs d (some f) 0 ehdr_size ehdr w).1
            (read-Restored (some f) 0 ehdr_size ehdr w.vmm.directory w.interrupts w h)
