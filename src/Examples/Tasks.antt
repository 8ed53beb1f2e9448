-- ===== src/Examples/Tasks.antt =====
-- Three tasks on which the scheduler of src/task.c is run.
use my_own_operating_system.Base.{
  ℕ, ◌+◌, ◌-◌, ◌≡◌, refl, ◌≢◌, inl, inr, true, false, none, some, [], ◌∷◌, arith, ◌==◌,
  if◌then◌else◌, Bool-cases, eq_of_==, ne_of_==,
}
use my_own_operating_system.Task.{
  Task, ready, running, zombie, Kernel, max_tasks, empty_task, schedule, task_exit,
}
use my_own_operating_system.Task.Chain.{Chain, nil, cons, Distinct}
use my_own_operating_system.Task.Schedule.{IsQueue, IsExclusive}
use my_own_operating_system.Task.Bootstrap.{user_bootstrap}
use my_own_operating_system.Task.Bootstrap.Stack.{Started, user_bootstrap-Started}
use my_own_operating_system.Task.Fair.{RunsWithin, schedule-RunsWithin}
use my_own_operating_system.Task.Round.{
  Ran, schedule-Ran, IsScheduled, schedule-IsScheduled, Exited, task_exit-Exited,
}
use my_own_operating_system.Task.Create.{Symbols, find_slot, append, created, task_create}
use my_own_operating_system.Task.Create.Append.{append-fresh, append-cuts}
use my_own_operating_system.Task.Create.Fresh.{IsNewTask, task_create-created}
use my_own_operating_system.Examples.Frames.{half_used-IsFirst}
use my_own_operating_system.Examples.Pages.{one_table, one_table-IsPaged}

-- Task 1 is running; the list is 0, 1, 2, and task 2 has exited.
abbrev three_tasks : ℕ → Task
three_tasks i =
    if i == 0
    then record empty_task { pid = 1; state = ready; next = some 1 }
    else if i == 1
    then record empty_task { pid = 2; state = running; next = some 2 }
    else if i == 2
    then record empty_task { pid = 3; state = zombie; next = none }
    else empty_task

abbrev pub three_kernel : Kernel
three_kernel = record {
  table = three_tasks;
  list = some 0;
  current = some 1;
  next_pid = 4;
  vmm = one_table;
  cr3 = 0x1000;
  esp = 0x9000;
  esp0 = 0x9000;
  interrupts = true;
}

three_kernel-Chain : Chain three_tasks (some 0) (0 ∷ 1 ∷ 2 ∷ [])
three_kernel-Chain = cons (cons (cons nil))

apart : (a b : ℕ) → (a == b) ≡ false → a ≢ b
apart a b h = ne_of_== a b h

three-Distinct : Distinct (0 ∷ 1 ∷ 2 ∷ [])
three-Distinct = ((apart 1 0 refl, (apart 2 0 refl, tt)), ((apart 2 1 refl, tt), (tt, tt)))

pub three_kernel-IsQueue : IsQueue three_kernel (0 ∷ []) 1 (2 ∷ [])
three_kernel-IsQueue = record {
  chain = three_kernel-Chain;
  distinct = three-Distinct;
  current = refl;
}

pub three_kernel-IsExclusive : IsExclusive three_kernel 1
three_kernel-IsExclusive i r = elim (Bool-cases (i == 1)) [
  | inl one ↦ eq_of_== i 1 one
  | inr other ↦ elim (Bool-cases (i == 0)) [
    | inl zeroth ↦ cc (rw zeroth at r)
    | inr later ↦ elim (Bool-cases (i == 2)) [
      | inl second ↦ cc (rw (later, other, second) at r)
      | inr none' ↦ cc (rw (later, other, none') at r)
    ]
  ]
]

schedule-Ran_example : Ran three_kernel (0 ∷ []) 1 (2 ∷ []) (schedule 3 three_kernel)
schedule-Ran_example =
    schedule-Ran 3 three_kernel (0 ∷ []) 1 (2 ∷ []) three_kernel-IsQueue (omega arith)

-- The boot task is the second in the order of the search.
schedule-RunsWithin_example : RunsWithin 3 2 0 three_kernel
schedule-RunsWithin_example =
    schedule-RunsWithin 3 0 1 three_kernel (0 ∷ []) 1 (2 ∷ []) (2 ∷ []) [] three_kernel-IsQueue
      (omega arith) refl (omega arith) refl

schedule-IsScheduled_example :
    (k' : Kernel) × (schedule 3 three_kernel ≡ some k') × IsScheduled k' (0 ∷ 1 ∷ 2 ∷ [])
schedule-IsScheduled_example =
    schedule-IsScheduled 3 three_kernel (0 ∷ []) 1 (2 ∷ []) three_kernel-IsQueue
      three_kernel-IsExclusive (omega arith)

task_exit-Exited_example :
    (k' : Kernel) × (task_exit 3 three_kernel ≡ some k') × Exited (2 ∷ 0 ∷ []) 1 three_kernel k'
task_exit-Exited_example =
    task_exit-Exited 3 three_kernel (0 ∷ []) 1 (2 ∷ []) three_kernel-IsQueue (omega arith)

abbrev symbols : Symbols
symbols = record { user_bootstrap = 0x100100; kernel_bootstrap = 0x100200; exit = 0x100300 }

-- Slot 1 left the list before its task ended; it is the one that is vacant.
abbrev two_kernel : Kernel
two_kernel = record three_kernel {
  table = λ i.
      if i == 0 then record empty_task { pid = 1; state = running; next = none } else empty_task;
  current = some 0;
}

two_kernel-slot : find_slot two_kernel 1 (max_tasks - 1) ≡ some 1
unfolding find_slot
two_kernel-slot = refl

task_create-created_example :
    (k' : Kernel) × (task_create symbols 4 0x0040_0000 0 true two_kernel ≡ created 1 k')
    × Chain k'.table k'.list (0 ∷ 1 ∷ [])
    × IsNewTask symbols 0x0040_0000 0 true 1 32 two_kernel k'
task_create-created_example =
    task_create-created symbols 4 0x0040_0000 0 true two_kernel 1 0 [] 32 one_table-IsPaged
      half_used-IsFirst refl two_kernel-slot (cons nil) (tt, tt) (apart 0 1 refl, tt) (omega arith)

append-fresh_example :
    (k' : Kernel) × (append 4 5 three_kernel ≡ some k')
    × Chain k'.table k'.list (0 ∷ 1 ∷ 2 ∷ 5 ∷ [])
    × (k'.table 5 ≡ record (three_kernel.table 5) { next = none })
    × (k'.vmm ≡ three_kernel.vmm)
append-fresh_example =
    append-fresh 4 5 0 (1 ∷ 2 ∷ []) three_kernel three_kernel-Chain three-Distinct
      (apart 0 5 refl, (apart 1 5 refl, (apart 2 5 refl, tt))) (omega arith)

-- Slot 1 is linked again while task 2 still stands behind it.
append-cuts_example :
    (k' : Kernel) × (append 4 1 three_kernel ≡ some k') × Chain k'.table k'.list (0 ∷ 1 ∷ [])
append-cuts_example =
    append-cuts 4 1 (0 ∷ []) (2 ∷ []) three_kernel three_kernel-Chain three-Distinct (omega arith)

abbrev crowded : Kernel
crowded = record three_kernel { table = λ i. record empty_task { pid = i + 1; state = ready } }

-- Task 1 shares the kernel's directory, whose frames 2 and 4 are free.
user_bootstrap-Started_example : Started (three_tasks 1) one_table (user_bootstrap three_kernel)
user_bootstrap-Started_example = user_bootstrap-Started three_kernel 1 refl refl one_table-IsPaged
