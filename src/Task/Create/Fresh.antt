-- ===== src/Task/Create/Fresh.antt =====
-- `task_create` of src/task.c as a whole, on a slot that was never in the task list.
use my_own_operating_system.Base.{
  ℕ, zero, suc, ◌+◌, ◌-◌, ◌*◌, ◌^◌, ◌<◌, ◌≡◌, refl, sym, ap, ◌∙◌, ◌≢◌, Bool, false, ◌||◌, Option,
  none, some, List, [], ◌∷◌, ◌++◌, arith, ◌==◌, if◌then◌else◌, ==-of_eq, ==-of_ne, length, add32,
  sub32,
}
use mathlib.Core.Path.{subst}
use my_own_operating_system.Pmm.{block_size, alloc_block}
use my_own_operating_system.Pmm.Block.{took, took-IsValid}
use my_own_operating_system.Pmm.Alloc.{IsFirst, alloc_block-first}
use my_own_operating_system.Vmm.{Vmm, map_page, clear_frame, pd_index}
use my_own_operating_system.Vmm.Frames.{IsPaged, IsPresent, entry as entry', IsFirst-pos}
use my_own_operating_system.Vmm.Map.{Mapped, MapOutcome, halted, mapped, map_page-Mapped}
use my_own_operating_system.Vmm.Map.Table.{took-kept}
use my_own_operating_system.Vmm.Scratch.{
  IsScratch-of_free, SameOutside, scratch-IsPaged, scratch-entry,
}
use my_own_operating_system.Task.{Task, ready, Kernel, max_tasks, is_zombie}
use my_own_operating_system.Task.Chain.{Chain, Chain-update, Avoids, Distinct}
use my_own_operating_system.Task.Create.{
  Symbols, find_slot, fill_slot, append, created, created_in, finish, create_in, task_create,
}
use my_own_operating_system.Task.Create.Append.{append-fresh}
use my_own_operating_system.Task.Create.Stack.{FirstFrame, build_stack-FirstFrame}

-- The memory with the stack's frame taken and cleared.
abbrev pub with_stack : ℕ → Vmm → Vmm
with_stack b v = record v { pmm = took b v.pmm; ram = clear_frame (b * block_size) v.ram }

clear_frame-SameOutside : (b : ℕ) (v : Vmm) → IsPaged v → SameOutside b v (with_stack b v)
unfolding clear_frame
clear_frame-SameOutside b v paged = record {
  same = λ a ne. ground arith;
  words = λ a. ground (arith, paged.words a);
  directory = refl;
}

module _ (v : Vmm) (paged : IsPaged v) (b : ℕ) (first : IsFirst v.pmm b) where
  with_stack-IsPaged : IsPaged (with_stack b v)
  with_stack-IsPaged =
      scratch-IsPaged b v (with_stack b v) paged (IsScratch-of_free v b paged first.free)
        (clear_frame-SameOutside b v paged) (took-IsValid paged.valid first.inside first.free)
        (λ k h. took-kept v.pmm b k h)

  -- With the table of the stack's address present, mapping the stack cannot halt.
  stack-Mapped :
      IsPresent (entry' v (pd_index (b * block_size)))
      → (w : Vmm) × (map_page (b * block_size) (b * block_size) 3 (with_stack b v) ≡ some w)
        × Mapped (b * block_size) (b * block_size + 3) (with_stack b v) w
  stack-Mapped present = go (map_page (b * block_size) (b * block_size) 3 (with_stack b v)) (
      map_page-Mapped (b * block_size) (b * block_size) 3 (with_stack b v) with_stack-IsPaged
        (omega (arith, first.inside, paged.valid.small)) (omega arith)
        (omega (arith, first.inside, paged.valid.small)) (omega arith))
    where
      still :
          entry' (with_stack b v) (pd_index (b * block_size)) ≡ entry' v (pd_index (b * block_size))
      still =
          scratch-entry b v (with_stack b v) paged (IsScratch-of_free v b paged first.free)
            (clear_frame-SameOutside b v paged) (pd_index (b * block_size))
            (omega (arith, first.inside, paged.valid.small))

      go :
          (r : Option Vmm)
          → MapOutcome (b * block_size) (b * block_size) 3 (with_stack b v) r
          → (w : Vmm) × (r ≡ some w)
            × Mapped (b * block_size) (b * block_size + 3) (with_stack b v) w
      go _ (halted absent full) = absurd (omega (arith, absent, present, still))
      go _ (mapped w m) = (w, refl, m)

-- The task in slot `new` is ready to be switched to for the first time.
pub record IsNewTask (sym' : Symbols) (entry page_dir : ℕ) (is_user : Bool) (new b : ℕ)
    (k k' : Kernel) : Type 0 where
  pub state : (k'.table new).state ≡ ready
  pub pid : (k'.table new).pid ≡ k.next_pid
  pub eip : (k'.table new).eip ≡ entry
  pub directory : (k'.table new).page_directory ≡ (if page_dir == 0 then k.cr3 else page_dir)
  pub kstack : (k'.table new).kstack ≡ b * block_size + block_size
  pub esp : (k'.table new).esp ≡ b * block_size + 4068
  pub frame :
      FirstFrame k'.vmm.ram
        (b * block_size + 4068)
        0
        0
        0
        0
        sym'.kernel_bootstrap
        sym'.exit
        (if is_user then sym'.user_bootstrap else entry)

-- The state once the slot `new` and the stack in frame `b` are filled in.
abbrev filled : Symbols → ℕ → ℕ → Bool → ℕ → ℕ → Kernel → Kernel
filled sym' entry page_dir is_user new b k =
    fill_slot sym' new (b * block_size) entry page_dir is_user k

module _ (sym' : Symbols) (entry page_dir : ℕ) (is_user : Bool) (new b : ℕ) (k : Kernel)
    (small : b < 2 ^ 20 - 1) where
  filled-new : (filled sym' entry page_dir is_user new b k).table new ≡ record (k.table new) {
    pid = k.next_pid;
    esp = b * block_size + 4068;
    eip = entry;
    page_directory = if page_dir == 0 then k.cr3 else page_dir;
    kstack = b * block_size + block_size;
    state = ready;
  }
  unfolding fill_slot
  filled-new =
      let low : sub32 (add32 (b * block_size) block_size) 28 ≡ b * block_size + 4068 =
        omega arith in
      let top : add32 (b * block_size) block_size ≡ b * block_size + block_size = omega arith in
      rw (==-of_eq new new refl, low, top)

  filled-FirstFrame :
      FirstFrame
        (filled sym' entry page_dir is_user new b k).vmm.ram
        (b * block_size + 4068)
        0
        0
        0
        0
        sym'.kernel_bootstrap
        sym'.exit
        (if is_user then sym'.user_bootstrap else entry)
  unfolding fill_slot
  filled-FirstFrame =
      build_stack-FirstFrame sym' (b * block_size) (if is_user then sym'.user_bootstrap else entry)
        k.vmm.ram (omega arith)

  filled-Chain :
      {xs : List ℕ}
      → Chain k.table k.list xs
      → Avoids new xs
      → Chain
          (filled sym' entry page_dir is_user new b k).table
          (filled sym' entry page_dir is_user new b k).list
          xs
  unfolding fill_slot
  filled-Chain c avoid = Chain-update k.table new _ c avoid

-- The part of `task_create` behind the search for a slot, when the stack's frame is mapped.
create_in_eq :
    (sym' : Symbols) (fuel entry page_dir : ℕ) (is_user : Bool) (k : Kernel) (new b : ℕ) (w : Vmm)
    → b ≢ 0
    → alloc_block k.vmm.pmm ≡ (b * block_size, took b k.vmm.pmm)
    → map_page (b * block_size) (b * block_size) 3 (with_stack b k.vmm) ≡ some w
    → create_in sym' fuel entry page_dir is_user k (some new)
      ≡ created_in new
          (append fuel new (filled sym' entry page_dir is_user new b (record k { vmm = w })))
unfolding create_in finish
create_in_eq sym' fuel entry page_dir is_user k new b w pos alloc map =
    rw (alloc, ==-of_ne (b * block_size) 0 (λ e. pos (omega (arith, e))), map)

find_slot-masked :
    (k : Kernel) (i left : ℕ)
    → find_slot (record k { interrupts = false }) i left ≡ find_slot k i left
unfolding find_slot
find_slot-masked k i zero = refl
find_slot-masked k i (suc left) =
    ap (λ r. if ((k.table i).pid == 0) || is_zombie (k.table i).state then some i else r)
      (find_slot-masked k (i + 1) left)

-- When a slot is vacant, it is not in the task list, the list holds each task once, a frame is
-- free, the paging invariant holds, the page table for the frame's own address is present, and the
-- fuel is above the length of the list behind its head, `task_create` returns that slot: the list
-- is the old one with the slot at its end, and the slot is a ready task whose stack, in that
-- frame, is built for its first switch.
pub task_create-created :
    (sym' : Symbols) (fuel entry page_dir : ℕ) (is_user : Bool) (k : Kernel) (new head : ℕ)
    (rest : List ℕ) (b : ℕ)
    → IsPaged k.vmm
    → IsFirst k.vmm.pmm b
    → IsPresent (entry' k.vmm (pd_index (b * block_size)))
    → find_slot k 1 (max_tasks - 1) ≡ some new
    → Chain k.table k.list (head ∷ rest)
    → Distinct (head ∷ rest)
    → Avoids new (head ∷ rest)
    → length rest < fuel
    → (k' : Kernel) × (task_create sym' fuel entry page_dir is_user k ≡ created new k')
      × Chain k'.table k'.list (head ∷ (rest ++ (new ∷ [])))
      × IsNewTask sym' entry page_dir is_user new b k k'
unfolding task_create
task_create-created sym' fuel entry page_dir is_user k new head rest b paged first present slot c d
      avoid enough =
    let small : b < 2 ^ 20 - 1 = omega (arith, first.inside, paged.valid.small) in
    let (w, map, m) = stack-Mapped k.vmm paged b first present in
    let masked : Kernel = record k { interrupts = false; vmm = w } in
    let full : Kernel = filled sym' entry page_dir is_user new b masked in
    let (k', linked, chain, slot', same) =
      append-fresh fuel new head rest full
        (filled-Chain sym' entry page_dir is_user new b masked small c avoid) d avoid enough in
    let there : k'.table new ≡ record (full.table new) { next = none } = slot' in
    let made =
      there
      ∙ ap {A = Task} (λ t. record t { next = none })
          (filled-new sym' entry page_dir is_user new b masked small) in
    (
      k',
      ap (create_in sym' fuel entry page_dir is_user (record k { interrupts = false }))
            (find_slot-masked k 1 (max_tasks - 1) ∙ slot)
          ∙ create_in_eq sym' fuel entry page_dir is_user (record k { interrupts = false }) new b w
              (IsFirst-pos k.vmm.pmm b paged.zero_used first)
              (alloc_block-first k.vmm.pmm b paged.valid first) map
          ∙ ap (created_in new) linked,
      chain,
      record {
        state = ap (λ t. t.state) made;
        pid = ap (λ t. t.pid) made;
        eip = ap (λ t. t.eip) made;
        directory = ap (λ t. t.page_directory) made;
        kstack = ap (λ t. t.kstack) made;
        esp = ap (λ t. t.esp) made;
        frame =
            subst
              (λ ram.
                FirstFrame ram (b * block_size + 4068) 0 0 0 0 sym'.kernel_bootstrap sym'.exit
                  (if is_user then sym'.user_bootstrap else entry))
              (sym (ap (λ v. v.ram) same))
              (filled-FirstFrame sym' entry page_dir is_user new b masked small);
      },
    )
