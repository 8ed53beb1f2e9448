-- ===== src/Task/Schedule.antt =====
-- `schedule`, `task_yield` and `task_exit` of src/task.c: whom they run next and what they change.
use my_own_operating_system.Base.{
  ℕ, ◌≡◌, refl, sym, ap, ◌∙◌, ◌≢◌, inl, inr, true, false, some, List, [], ◌∷◌, ◌++◌, ◌==◌,
  if◌then◌else◌, Bool-cases, eq_of_==, ==-of_eq, ==-of_ne, add32, sub32,
}
use my_own_operating_system.Vmm.{Vmm}
use my_own_operating_system.Task.{
  Task, TaskState, ready, running, blocked, zombie, Kernel, set_task, is_ready, is_running, pause,
  start, load_directory, switch_task, switch_to,
}
use my_own_operating_system.Task.Chain.{Chain, Distinct}
use my_own_operating_system.Task.Ring.{first_ready}

-- The list of tasks is `before`, the current one and `after`, and holds none twice.
pub record IsQueue (k : Kernel) (before : List ℕ) (cur : ℕ) (after : List ℕ) : Type 0 where
  pub chain : Chain k.table k.list (before ++ (cur ∷ after))
  pub distinct : Distinct (before ++ (cur ∷ after))
  pub current : k.current ≡ some cur

-- Only the current task is running.
abbrev pub IsExclusive : Kernel → ℕ → Type 0
IsExclusive k cur = (i : ℕ) → (k.table i).state ≡ running → i ≡ cur

is_ready-eq : (s : TaskState) → is_ready s ≡ true → s ≡ ready
is_ready-eq ready h = refl
is_ready-eq running h = cc
is_ready-eq blocked h = cc
is_ready-eq zombie h = cc

-- No task of the list is ready.
abbrev pub NoneReady : Kernel → List ℕ → Type 0
NoneReady k [] = Unit
NoneReady k (x ∷ xs) = (is_ready (k.table x).state ≡ false) × NoneReady k xs

-- The first ready task of a list: all before it wait, or none is ready and it is the default.
pub data FirstOf (k : Kernel) (xs : List ℕ) (other : ℕ) : ℕ → Type 0 where
  found :
      (us : List ℕ) {i : ℕ} (vs : List ℕ)
      → xs ≡ us ++ (i ∷ vs)
      → NoneReady k us
      → (k.table i).state ≡ ready
      → FirstOf k xs other i
  nobody : NoneReady k xs → FirstOf k xs other other

FirstOf-cons :
    (k : Kernel) (x : ℕ) {xs : List ℕ} {other r : ℕ}
    → is_ready (k.table x).state ≡ false
    → FirstOf k xs other r
    → FirstOf k (x ∷ xs) other r
FirstOf-cons k x h (found us vs e none' r) = found (x ∷ us) vs (ap (λ l. x ∷ l) e) (h, none') r
FirstOf-cons k x h (nobody none') = nobody (h, none')

pub first_ready-FirstOf :
    (k : Kernel) (xs : List ℕ) (other : ℕ) → FirstOf k xs other (first_ready k xs other)
unfolding first_ready
first_ready-FirstOf k [] other = nobody tt
first_ready-FirstOf k (x ∷ xs) other = elim (Bool-cases (is_ready (k.table x).state)) [
  | inl r ↦ rw r (found [] xs refl tt (is_ready-eq _ r))
  | inr w ↦ rw w (FirstOf-cons k x w (first_ready-FirstOf k xs other))
]

-- A slot after `pause`: only the state of `cur` may have changed.
pause-other : (cur : ℕ) (k : Kernel) (j : ℕ) → j ≢ cur → (pause cur k).table j ≡ k.table j
unfolding pause
pause-other cur k j ne = elim (Bool-cases (is_running (k.table cur).state)) [
  | inl r ↦ rw (r, ==-of_ne j cur ne)
  | inr n ↦ rw n
]

pause_self :
    (cur : ℕ) (k : Kernel)
    → (pause cur k).table cur ≡ record (k.table cur) {
      state = if is_running (k.table cur).state then ready else (k.table cur).state;
    }
unfolding pause
pause_self cur k = elim (Bool-cases (is_running (k.table cur).state)) [
  | inl r ↦ rw (r, ==-of_eq cur cur refl)
  | inr n ↦ rw n
]

-- What `pause` leaves alone.
pause-rest :
    (cur : ℕ) (k : Kernel)
    → ((pause cur k).list ≡ k.list)
      × ((pause cur k).vmm ≡ k.vmm)
      × ((pause cur k).esp ≡ k.esp)
      × ((pause cur k).cr3 ≡ k.cr3)
unfolding pause
pause-rest cur k = elim (Bool-cases (is_running (k.table cur).state)) [
  | inl r ↦ rw r (refl, refl, refl, refl)
  | inr n ↦ rw n (refl, refl, refl, refl)
]

-- `load_directory` ends with the directory in CR3 and touches nothing else.
load_directory-rest :
    (dir : ℕ) (k : Kernel)
    → ((load_directory dir k).table ≡ k.table)
      × ((load_directory dir k).list ≡ k.list)
      × ((load_directory dir k).current ≡ k.current)
      × ((load_directory dir k).cr3 ≡ dir)
      × ((load_directory dir k).vmm.ram ≡ k.vmm.ram)
      × ((load_directory dir k).vmm.pmm ≡ k.vmm.pmm)
unfolding load_directory
load_directory-rest dir k = elim (Bool-cases (dir == k.cr3)) [
  | inl same ↦ rw same (refl, refl, refl, sym (eq_of_== _ _ same), refl, refl)
  | inr differ ↦ rw differ (refl, refl, refl, refl, refl, refl)
]

-- What a context switch to another task does.
record Moved (cur i : ℕ) (k k' : Kernel) : Type 0 where
  saved : k'.table cur ≡ record (k.table cur) { esp = sub32 k.esp 16 }
  others : (j : ℕ) → j ≢ cur → k'.table j ≡ k.table j
  stack : k'.esp ≡ add32 (k.table i).esp 20
  kernel_stack : k'.esp0 ≡ (k.table i).kstack
  address_space : k'.cr3 ≡ (k.table i).page_directory
  list : k'.list ≡ k.list
  current : k'.current ≡ k.current
  memory : (k'.vmm.ram ≡ k.vmm.ram) × (k'.vmm.pmm ≡ k.vmm.pmm)

switch_task-Moved : (cur i : ℕ) (k : Kernel) → i ≢ cur → Moved cur i k (switch_task cur i k)
unfolding switch_task
switch_task-Moved cur i k ne =
    let saved = set_task cur (record (k.table cur) { esp = sub32 k.esp 16 }) k in
    let task = saved.table i in
    let same : task ≡ k.table i = rw (==-of_ne i cur ne) in
    let rest = load_directory-rest task.page_directory (record saved { esp = task.esp }) in
    record {
      saved = ap (λ (t : ℕ → Task). t cur) rest.0 ∙ rw (==-of_eq cur cur refl);
      others = λ j nj. ap (λ (t : ℕ → Task). t j) rest.0 ∙ rw (==-of_ne j cur nj);
      stack = ap (λ (t : Task). add32 t.esp 20) same;
      kernel_stack = ap (λ (t : Task). t.kstack) same;
      address_space = rest.3 ∙ ap (λ (t : Task). t.page_directory) same;
      list = rest.1;
      current = rest.2;
      memory = (rest.4, rest.5);
    }

-- From task `cur` the processor went over to task `i`.
pub record Switched (cur i : ℕ) (k k' : Kernel) : Type 0 where
  pub current : k'.current ≡ some i
  pub started : k'.table i ≡ record (k.table i) { state = running }
  pub paused : k'.table cur ≡ record (k.table cur) {
    state = if is_running (k.table cur).state then ready else (k.table cur).state;
    esp = sub32 k.esp 16;
  }
  pub others : (j : ℕ) → j ≢ i → j ≢ cur → k'.table j ≡ k.table j
  pub stack : k'.esp ≡ add32 (k.table i).esp 20
  pub kernel_stack : k'.esp0 ≡ (k.table i).kstack
  pub address_space : k'.cr3 ≡ (k.table i).page_directory
  pub list : k'.list ≡ k.list
  pub memory : (k'.vmm.ram ≡ k.vmm.ram) × (k'.vmm.pmm ≡ k.vmm.pmm)

module _ (k : Kernel) (cur i : ℕ) (ne : i ≢ cur) where
  begun : Kernel
  begun = start i (pause cur k)

  begun_i : begun.table i ≡ record (k.table i) { state = running }
  unfolding begun start
  begun_i =
      rw (==-of_eq i i refl)
        (ap (λ (t : Task). record t { state = running }) (pause-other cur k i ne))

  begun_other : (j : ℕ) → j ≢ i → begun.table j ≡ (pause cur k).table j
  unfolding begun start
  begun_other j nj = rw (==-of_ne j i nj)

  begun_rest :
      (begun.list ≡ k.list) × (begun.vmm ≡ k.vmm) × (begun.esp ≡ k.esp) × (begun.current ≡ some i)
  unfolding begun start
  begun_rest = let kept = pause-rest cur k in (kept.0, kept.1, kept.2, refl)

  begun-Switched : Switched cur i k (switch_task cur i begun)
  begun-Switched =
      let moved = switch_task-Moved cur i begun ne in
      let kept = begun_rest in
      record {
        current = moved.current ∙ kept.3;
        started = moved.others i ne ∙ begun_i;
        paused =
            moved.saved
            ∙ ap (λ (t : Task). record t { esp = sub32 begun.esp 16 })
                (begun_other cur (λ e. ne (sym e)) ∙ pause_self cur k)
            ∙ ap
                (λ (n : ℕ). record (k.table cur) {
                  state = if is_running (k.table cur).state then ready else (k.table cur).state;
                  esp = sub32 n 16;
                })
                kept.2;
        others = λ j ni nc. moved.others j nc ∙ begun_other j ni ∙ pause-other cur k j nc;
        stack = moved.stack ∙ ap (λ (t : Task). add32 t.esp 20) begun_i;
        kernel_stack = moved.kernel_stack ∙ ap (λ (t : Task). t.kstack) begun_i;
        address_space = moved.address_space ∙ ap (λ (t : Task). t.page_directory) begun_i;
        list = moved.list ∙ kept.0;
        memory = (
          moved.memory.0 ∙ ap (λ (v : Vmm). v.ram) kept.1,
          moved.memory.1 ∙ ap (λ (v : Vmm). v.pmm) kept.1,
        );
      }

  switch_to_lem : (k.table i).state ≡ ready → switch_to cur i k ≡ switch_task cur i begun
  unfolding switch_to begun
  switch_to_lem r = rw (==-of_ne i cur ne, r)

  -- When the search stopped at another, ready task, `schedule` switches to it.
  pub switch_to-Switched : (k.table i).state ≡ ready → Switched cur i k (switch_to cur i k)
  switch_to-Switched r = rw (switch_to_lem r) begun-Switched
