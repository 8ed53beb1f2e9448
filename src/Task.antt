-- ===== src/Task.antt =====
-- Tasks and the round-robin scheduler, src/task.c, with the context switch of src/switch.s.
pub mod Chain
pub mod Ring
pub mod Schedule
pub mod Round
pub mod Fair
pub mod Bootstrap
pub mod Create
use my_own_operating_system.Base.{
  ℕ, zero, suc, Bool, true, false, Option, none, some, ◌==◌, if◌then◌else◌, update, add32, sub32,
}
use my_own_operating_system.Pmm
use my_own_operating_system.Vmm.{Vmm}

abbrev pub max_tasks : ℕ
max_tasks = 32

pub data TaskState : Type 0 where
  ready running blocked zombie : TaskState

-- `task_t`; `next` is an index into the table, and `none` is NULL.
pub record Task : Type 0 where
  pub pid : ℕ
  pub esp : ℕ
  pub eip : ℕ
  pub page_directory : ℕ
  pub kstack : ℕ
  pub state : TaskState
  pub next : Option ℕ

-- The static variables of src/task.c, with what they share with the rest of the kernel: memory
-- and `current_page_directory`, the registers CR3 and ESP, `tss.esp0` and the interrupt flag.
pub record Kernel : Type 0 where
  pub table : ℕ → Task
  pub list : Option ℕ
  pub current : Option ℕ
  pub next_pid : ℕ
  pub vmm : Vmm
  pub cr3 : ℕ
  pub esp : ℕ
  pub esp0 : ℕ
  pub interrupts : Bool

abbrev pub set_task : ℕ → Task → Kernel → Kernel
set_task i t k = record k { table = update k.table i t }

abbrev pub is_ready : TaskState → Bool
is_ready ready = true
is_ready running = false
is_ready blocked = false
is_ready zombie = false

abbrev pub is_running : TaskState → Bool
is_running ready = false
is_running running = true
is_running blocked = false
is_running zombie = false

abbrev pub is_zombie : TaskState → Bool
is_zombie ready = false
is_zombie running = false
is_zombie blocked = false
is_zombie zombie = true

-- What `memset` leaves in each slot: state 0 is TASK_STATE_READY.
abbrev pub empty_task : Task
empty_task = record {
  pid = 0;
  esp = 0;
  eip = 0;
  page_directory = 0;
  kstack = 0;
  state = ready;
  next = none;
}

-- `scheduler_init`.
unfoldable pub scheduler_init : Kernel → Kernel
scheduler_init k = record k {
  table =
      update (λ _. empty_task) 0
        (record empty_task { pid = 1; state = running; page_directory = k.cr3 });
  list = some 0;
  current = some 0;
  next_pid = 2;
  interrupts = false;
}

-- `curr = p; if (!curr) curr = task_list;`
unfoldable pub wrap : Kernel → Option ℕ → Option ℕ
wrap k none = k.list
wrap k (some i) = some i

-- Where the search of `schedule` stops: at a task, at NULL, or not within the fuel.
pub data Search : Type 0 where
  stop : ℕ → Search
  null : Search
  endless : Search

-- The loop `while (curr != current_task)`.
unfoldable pub seek : Kernel → ℕ → ℕ → Option ℕ → Search
unfolding wrap
seek k cur zero curr = endless
seek k cur (suc fuel) none = null
seek k cur (suc fuel) (some i) =
    let rest = seek k cur fuel (wrap k (k.table i).next) in
    if i == cur then stop i else if is_ready (k.table i).state then stop i else rest

-- CR3 and `current_page_directory` change if the directory is another one.
unfoldable pub load_directory : ℕ → Kernel → Kernel
load_directory dir k =
    if dir == k.cr3 then k else record k { cr3 = dir; vmm = record (k.vmm) { directory = dir } }

-- `switch_task`: ESP after the four pushes is saved, the next task's is loaded, and the pops and
-- the `ret` take five words. `k.esp` is ESP on entry.
unfoldable pub switch_task : ℕ → ℕ → Kernel → Kernel
unfolding load_directory
switch_task prev next k =
    let saved = set_task prev (record (k.table prev) { esp = sub32 k.esp 16 }) k in
    let task = saved.table next in
    let moved = load_directory task.page_directory (record saved { esp = task.esp }) in
    record moved { esp0 = task.kstack; esp = add32 task.esp 20 }

-- The current task, if it was running, goes back to ready.
unfoldable pub pause : ℕ → Kernel → Kernel
pause cur k =
    if is_running (k.table cur).state
    then set_task cur (record (k.table cur) { state = ready }) k
    else k

-- Task `i` becomes the current, running one.
unfoldable pub start : ℕ → Kernel → Kernel
start i k = record (set_task i (record (k.table i) { state = running }) k) { current = some i }

-- What `schedule` does once the search has stopped at `i`.
unfoldable pub switch_to : ℕ → ℕ → Kernel → Kernel
unfolding pause start switch_task
switch_to cur i k =
    if i == cur
    then k
    else if is_ready (k.table i).state
    then switch_task cur i (start i (pause cur k))
    else k

-- The search of `schedule` from the task behind the current one.
unfoldable pub search_from : ℕ → ℕ → Kernel → Search
unfolding seek
search_from fuel cur k = seek k cur fuel (wrap k (k.table cur).next)

-- The second half of `schedule`; `none` is a search that meets NULL or runs out of fuel.
unfoldable pub after_search : ℕ → Kernel → Search → Option Kernel
unfolding switch_to
after_search cur k (stop i) = some (switch_to cur i k)
after_search cur k null = none
after_search cur k endless = none

-- `schedule` with `current_task` at hand.
unfoldable pub schedule_at : ℕ → Kernel → Option ℕ → Option Kernel
unfolding search_from after_search
schedule_at fuel k none = some k
schedule_at fuel k (some cur) = after_search cur k (search_from fuel cur k)

-- `schedule`.
unfoldable pub schedule : ℕ → Kernel → Option Kernel
unfolding schedule_at
schedule fuel k = schedule_at fuel k k.current

-- The `sti` behind the call of `schedule`.
abbrev pub enable : Option Kernel → Option Kernel
enable none = none
enable (some k) = some (record k { interrupts = true })

-- `task_yield`.
unfoldable pub task_yield : ℕ → Kernel → Option Kernel
unfolding schedule
task_yield fuel k = enable (schedule fuel (record k { interrupts = false }))

-- The current task is marked as a zombie, with interrupts off.
unfoldable pub mark_zombie : ℕ → Kernel → Kernel
mark_zombie cur k = record (set_task cur (record (k.table cur) { state = zombie }) k) {
  interrupts = false;
}

-- `task_exit` up to the loop that follows `schedule`, with `current_task` at hand; a caller with
-- no current task is a NULL access.
unfoldable pub exit_at : ℕ → Kernel → Option ℕ → Option Kernel
unfolding mark_zombie schedule
exit_at fuel k none = none
exit_at fuel k (some cur) = schedule fuel (mark_zombie cur k)

-- `task_exit`.
unfoldable pub task_exit : ℕ → Kernel → Option Kernel
unfolding exit_at
task_exit fuel k = exit_at fuel k k.current
