-- ===== src/Task/Create.antt =====
-- `task_create` of src/task.c: the slot, the kernel stack and the link into the task list.
pub mod Append
pub mod Slot
pub mod Stack
pub mod Fresh
use my_own_operating_system.Base.{
  ℕ, zero, suc, ◌+◌, ◌-◌, bit_or, Bool, false, ◌||◌, Option, none, some, ◌==◌, if◌then◌else◌,
  update, add32, sub32,
}
use my_own_operating_system.Pmm
use my_own_operating_system.Pmm.{block_size}
use my_own_operating_system.Vmm.{Vmm, map_page, clear_frame, flag_present, flag_write}
use my_own_operating_system.Task.{Task, Kernel, ready, max_tasks, set_task, is_zombie}

-- The addresses that the linker gives three functions of src/task.c.
pub record Symbols : Type 0 where
  pub user_bootstrap : ℕ
  pub kernel_bootstrap : ℕ
  pub exit : ℕ

-- The loop over the table from slot `i`: the first slot never used or left by a zombie.
unfoldable pub find_slot : Kernel → ℕ → ℕ → Option ℕ
find_slot k i zero = none
find_slot k i (suc left) =
    let rest = find_slot k (i + 1) left in
    if ((k.table i).pid == 0) || is_zombie (k.table i).state then some i else rest

-- The walk `while (curr->next)`; `none` means that the fuel ran out.
unfoldable pub last_task : (ℕ → Task) → ℕ → ℕ → Option ℕ
last_task table zero i = none
last_task table (suc fuel) i = elim ((table i).next) [
  | none ↦ some i
  | some j ↦ last_task table fuel j
]

-- `curr->next = new_task; new_task->next = NULL;`
abbrev pub link : ℕ → ℕ → Kernel → Kernel
link new last k =
    let linked = set_task last (record (k.table last) { next = some new }) k in
    set_task new (record (linked.table new) { next = none }) linked

-- The link behind the task at which the walk ended.
abbrev pub link_last : ℕ → Kernel → Option ℕ → Option Kernel
link_last new k none = none
link_last new k (some last) = some (link new last k)

-- The new task goes to the end of the list at `head`.
unfoldable pub append_at : ℕ → ℕ → Kernel → Option ℕ → Option Kernel
unfolding last_task
append_at fuel new k none =
    some (set_task new (record (k.table new) { next = none }) (record k { list = some new }))
append_at fuel new k (some head) = link_last new k (last_task k.table fuel head)

-- The tail of `task_create`.
unfoldable pub append : ℕ → ℕ → Kernel → Option Kernel
unfolding append_at
append fuel new k = append_at fuel new k k.list

-- The seven words at the top of the new stack, from the highest down.
unfoldable pub build_stack : Symbols → ℕ → ℕ → (ℕ → ℕ) → ℕ → ℕ
build_stack sym' entry top ram =
    update
      (update
        (update
          (update
            (update (update (update ram (sub32 top 4) entry) (sub32 top 8) sym'.exit) (sub32 top 12)
              sym'.kernel_bootstrap)
            (sub32 top 16) 0)
          (sub32 top 20) 0)
        (sub32 top 24) 0)
      (sub32 top 28) 0

-- The fields of the new task, with the stack frame for its first switch.
unfoldable pub fill_slot : Symbols → ℕ → ℕ → ℕ → ℕ → Bool → Kernel → Kernel
unfolding build_stack
fill_slot sym' new stack entry page_dir is_user k =
    let top = add32 stack block_size in
    let kernel_entry = if is_user then sym'.user_bootstrap else entry in
    record (set_task new
      (record (k.table new) {
        pid = k.next_pid;
        esp = sub32 top 28;
        eip = entry;
        page_directory = if page_dir == 0 then k.cr3 else page_dir;
        kstack = top;
        state = ready;
      })
      k) {
        next_pid = add32 k.next_pid 1;
        vmm = record (k.vmm) { ram = build_stack sym' kernel_entry top k.vmm.ram };
      }

-- What `task_create` returns: NULL, the new slot, or nothing, where `vmm_map_page` halts or the
-- walk to the end of the list does not end.
pub data Created : Type 0 where
  refused : Kernel → Created
  created : ℕ → Kernel → Created
  stuck : Created

abbrev pub created_in : ℕ → Option Kernel → Created
created_in new none = stuck
created_in new (some k) = created new k

-- The part of `task_create` after the stack was mapped.
unfoldable pub finish : Symbols → ℕ → ℕ → ℕ → ℕ → ℕ → Bool → Kernel → Option Vmm → Created
unfolding fill_slot append
finish sym' fuel new stack entry page_dir is_user k none = stuck
finish sym' fuel new stack entry page_dir is_user k (some vmm) =
    created_in new
      (append fuel new (fill_slot sym' new stack entry page_dir is_user (record k { vmm = vmm })))

-- The part of `task_create` after the slot was found.
unfoldable pub create_in : Symbols → ℕ → ℕ → ℕ → Bool → Kernel → Option ℕ → Created
unfolding finish
create_in sym' fuel entry page_dir is_user k none = refused k
create_in sym' fuel entry page_dir is_user k (some new) =
    let (stack, pmm) = Pmm.alloc_block k.vmm.pmm in
    let vmm = record (k.vmm) { pmm = pmm } in
    if stack == 0
    then refused (record k { vmm = vmm })
    else finish sym' fuel new stack entry page_dir is_user k (
        map_page stack stack (bit_or flag_present flag_write)
          (record vmm { ram = clear_frame stack vmm.ram }))

-- `task_create`, which leaves interrupts off.
unfoldable pub task_create : Symbols → ℕ → ℕ → ℕ → Bool → Kernel → Created
unfolding create_in find_slot
task_create sym' fuel entry page_dir is_user k =
    let masked = record k { interrupts = false } in
    create_in sym' fuel entry page_dir is_user masked (find_slot masked 1 (max_tasks - 1))
