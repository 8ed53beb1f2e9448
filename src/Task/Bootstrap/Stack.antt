-- ===== src/Task/Bootstrap/Stack.antt =====
-- The stack that `task_user_bootstrap` of src/task.c gives a user task.
use my_own_operating_system.Base.{
  ℕ, ◌+◌, ◌*◌, ◌^◌, ◌<◌, ◌≡◌, refl, sym, ap, ◌∙◌, ◌≢◌, inl, inr, Option, none, some, arith, ◌==◌,
  if◌then◌else◌, Bool-cases, eq_of_==,
}
use mathlib.Core.Path.{subst}
use my_own_operating_system.Pmm.{block_size, alloc_block}
use my_own_operating_system.Pmm.Alloc.{IsFirst, Full, alloc_block-Outcome}
use my_own_operating_system.Pmm.Block.{took}
use my_own_operating_system.Vmm.{Vmm, map_page, flag_all}
use my_own_operating_system.Vmm.Walk.{lookup}
use my_own_operating_system.Vmm.Frames.{IsPaged}
use my_own_operating_system.Vmm.Map.{
  page_of, translation_all, Mapped, MapOutcome, mapped, map_page-Mapped,
}
use my_own_operating_system.Vmm.Map as Map
use my_own_operating_system.Vmm.Fault.{with_taken, taken-IsPaged, taken-lookup}
use my_own_operating_system.Task.{Task, Kernel}
use my_own_operating_system.Task.Bootstrap.{
  UserEntry, own_directory, ustack_virt, enter_user, map_ustack, bootstrap_at, user_bootstrap,
}

-- The paging state with the task's own directory, if it has one, as the active one.
abbrev pub own_vmm : Task → Vmm → Vmm
own_vmm task v = record v {
  directory = if task.page_directory == 0 then v.directory else task.page_directory;
}

own_directory-vmm : (task : Task) (k : Kernel) → (own_directory task k).vmm ≡ own_vmm task k.vmm
own_directory-vmm task k = elim (Bool-cases (task.page_directory == 0)) [
  | inl shared ↦ rw shared refl
  | inr own ↦ elim (Bool-cases (task.page_directory == k.vmm.directory)) [
    | inl active ↦
        rw (own, active) (ap (λ d. record (k.vmm) { directory = d }) (sym (eq_of_== _ _ active)))
    | inr other ↦ rw (own, other) refl
  ]
]

own_directory-cr3 :
    (task : Task) (k : Kernel)
    → k.cr3 ≡ k.vmm.directory
    → (own_directory task k).cr3 ≡ (own_directory task k).vmm.directory
own_directory-cr3 task k e = elim (Bool-cases (task.page_directory == 0)) [
  | inl shared ↦ rw shared e
  | inr own ↦ elim (Bool-cases (task.page_directory == k.vmm.directory)) [
    | inl active ↦ rw (own, active) e
    | inr other ↦ rw (own, other) refl
  ]
]

-- The page of the user stack is backed by frame `b` in the active directory, and no other
-- translation changed.
pub record HasStack (b : ℕ) (v w : Vmm) : Type 0 where
  pub stack : (a : ℕ) → a < 2 ^ 32 → page_of a ≡ 0xBFFF0 → lookup w a ≡ some (b * block_size + 7)
  pub elsewhere : (a : ℕ) → a < 2 ^ 32 → page_of a ≢ 0xBFFF0 → lookup w a ≡ lookup v a
  pub paged : IsPaged w
  pub directory : w.directory ≡ v.directory

-- Ring 3 is entered at the task's entry point with the stack pointer at the end of the page, and the
-- kernel stack of the task stands ready; CR3 holds the active directory.
pub record IsEntered (task : Task) (u : UserEntry) : Type 0 where
  pub eip : u.eip ≡ task.eip
  pub esp : u.esp ≡ 0xBFFF_1000
  pub esp0 : u.kernel.esp0 ≡ task.kstack
  pub cr3 : u.kernel.cr3 ≡ u.kernel.vmm.directory

-- How the start of a user task may go from the paging state `v`.
pub data Started (task : Task) (v : Vmm) : Option UserEntry → Type 0 where
  own_stack :
      (b : ℕ) (u : UserEntry)
      → IsFirst v.pmm b
      → IsEntered task u
      → HasStack b v u.kernel.vmm
      → Started task v (some u)
  frame_zero :
      (u : UserEntry)
      → Full v.pmm v.pmm.total_blocks
      → IsEntered task u
      → HasStack 0 v u.kernel.vmm
      → Started task v (some u)
  no_table :
      (b : ℕ)
      → IsFirst v.pmm b
      → Full (took b v.pmm) (took b v.pmm).total_blocks
      → Started task v none
  no_frame : Full v.pmm v.pmm.total_blocks → Started task v none

module _ (task : Task) (k : Kernel) (paged : IsPaged k.vmm) (synced : k.cr3 ≡ k.vmm.directory) where
  entered :
      (v : Vmm)
      → v.directory ≡ k.vmm.directory
      → IsEntered task (record {
        eip = task.eip;
        esp = ustack_virt + 4096;
        kernel = record k { vmm = v; esp0 = task.kstack };
      })
  entered v d = record { eip = refl; esp = refl; esp0 = refl; cr3 = synced ∙ sym d }

  own_stack-Started :
      (b : ℕ) (first : IsFirst k.vmm.pmm b) (r : Option Vmm)
      → MapOutcome (b * block_size) ustack_virt flag_all (with_taken b k.vmm) r
      → Started task k.vmm (enter_user task k r)
  own_stack-Started b first _ (Map.halted absent full) = no_table b first full
  own_stack-Started b first _ (mapped w m) = own_stack b _ first (entered w m.directory) (record {
    stack = λ a h same. m.here a h same ∙ translation_all b;
    elsewhere = λ a h other. m.elsewhere a h other ∙ taken-lookup k.vmm paged b first a h;
    paged = m.paged;
    directory = m.directory;
  })

  frame_zero-Started :
      Full k.vmm.pmm k.vmm.pmm.total_blocks
      → (r : Option Vmm) → MapOutcome 0 ustack_virt flag_all k.vmm r
      → Started task k.vmm (enter_user task k r)
  frame_zero-Started full _ (Map.halted absent full') = no_frame full'
  frame_zero-Started full _ (mapped w m) = frame_zero _ full (entered w m.directory) (record {
    stack = λ a h same. m.here a h same ∙ translation_all 0;
    elsewhere = m.elsewhere;
    paged = m.paged;
    directory = m.directory;
  })

  map_ustack-Started : Started task k.vmm (map_ustack task k (alloc_block k.vmm.pmm))
  map_ustack-Started = elim (alloc_block-Outcome k.vmm.pmm paged.valid) [
    | inr (full, e) ↦ rw e (
        frame_zero-Started full (map_page 0 ustack_virt flag_all k.vmm) (
          map_page-Mapped 0 ustack_virt flag_all k.vmm paged (omega arith) refl (omega arith)
            (omega arith)))
    | inl (b, first, e) ↦ rw e (
        own_stack-Started b first
          (map_page (b * block_size) ustack_virt flag_all (with_taken b k.vmm))
          (map_page-Mapped (b * block_size) ustack_virt flag_all (with_taken b k.vmm)
            (taken-IsPaged k.vmm paged b first) (omega (arith, first.inside, paged.valid.small))
            (omega arith) (omega arith) (omega arith)))
  ]

-- With a current task, CR3 in step with `current_page_directory`, and the paging invariant in the
-- task's own directory, or in the active one if it has none, as the directory:
-- `task_user_bootstrap` enters ring 3 at the task's entry point with the stack pointer at the end
-- of the page at 0xBFFF0000, which is backed by the first free frame, or by frame 0 when no frame
-- was free, with no other translation changed and with that directory active and in CR3; or it
-- halts because no frame was left for a page table.
pub user_bootstrap-Started :
    (k : Kernel) (cur : ℕ)
    → k.current ≡ some cur
    → k.cr3 ≡ k.vmm.directory
    → IsPaged (own_vmm (k.table cur) k.vmm)
    → Started (k.table cur) (own_vmm (k.table cur) k.vmm) (user_bootstrap k)
unfolding user_bootstrap
user_bootstrap-Started k cur e synced paged =
    let own = own_directory (k.table cur) k in
    let same = own_directory-vmm (k.table cur) k in
    subst (λ v. Started (k.table cur) v (bootstrap_at (k.current) k)) same
      (subst (λ o. Started (k.table cur) own.vmm (bootstrap_at o k)) (sym e)
        (map_ustack-Started (k.table cur) own (subst IsPaged (sym same) paged)
          (own_directory-cr3 (k.table cur) k synced)))
