-- ===== src/Task/Bootstrap.antt =====
-- How a new task starts, `task_kernel_bootstrap` and `task_user_bootstrap` of src/task.c.
pub mod Stack
use my_own_operating_system.Base.{ℕ, ◌+◌, true, not, ◌&&◌, Option, none, some, ◌==◌, if◌then◌else◌}
use my_own_operating_system.Pmm.{Pmm, alloc_block}
use my_own_operating_system.Vmm.{Vmm, map_page, flag_all}
use my_own_operating_system.Task.{Task, Kernel, task_exit}

-- `get_current_task`.
abbrev pub get_current_task : Kernel → Option ℕ
get_current_task k = k.current

-- `task_kernel_bootstrap`, with what the entry function does to the state; `none` where it does
-- not return.
abbrev pub exit_after : ℕ → Option Kernel → Option Kernel
exit_after fuel none = none
exit_after fuel (some k) = task_exit fuel k

unfoldable pub kernel_bootstrap : ℕ → (Kernel → Option Kernel) → Kernel → Option Kernel
unfolding task_exit
kernel_bootstrap fuel entry k = exit_after fuel (entry (record k { interrupts = true }))

-- The processor in ring 3: the instruction and the stack that it starts with, and the kernel.
pub record UserEntry : Type 0 where
  pub eip : ℕ
  pub esp : ℕ
  pub kernel : Kernel

-- The task's own directory becomes the active one.
abbrev pub own_directory : Task → Kernel → Kernel
own_directory task k =
    if not (task.page_directory == 0) && not (task.page_directory == k.vmm.directory)
    then record k {
      vmm = record (k.vmm) { directory = task.page_directory };
      cr3 = task.page_directory;
    }
    else k

-- The user stack's page, at 0xBFFF0000.
abbrev pub ustack_virt : ℕ
ustack_virt = 0xBFFF_0000

abbrev pub enter_user : Task → Kernel → Option Vmm → Option UserEntry
enter_user task k none = none
enter_user task k (some v) = some (record {
  eip = task.eip;
  esp = ustack_virt + 4096;
  kernel = record k { vmm = v; esp0 = task.kstack };
})

abbrev pub map_ustack : Task → Kernel → ℕ × Pmm → Option UserEntry
map_ustack task k (phys, pmm') =
    enter_user task k (map_page phys ustack_virt flag_all (record (k.vmm) { pmm = pmm' }))

abbrev pub bootstrap_at : Option ℕ → Kernel → Option UserEntry
bootstrap_at none k = none
bootstrap_at (some cur) k =
    let task = k.table cur in
    let own = own_directory task k in map_ustack task own (alloc_block own.vmm.pmm)

-- `task_user_bootstrap`; `none` is the halt of `vmm_map_page`, or a NULL access without a current
-- task.
unfoldable pub user_bootstrap : Kernel → Option UserEntry
unfolding alloc_block map_page
user_bootstrap k = bootstrap_at (get_current_task k) k
