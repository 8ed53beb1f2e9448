-- ===== src/Task/Create/Slot.antt =====
-- The slot that `task_create` of src/task.c takes.
use my_own_operating_system.Base.{
  ℕ, zero, suc, ◌+◌, ◌-◌, ◌≤◌, ◌<◌, ◌≡◌, refl, ap, ◌⊎◌, inl, inr, Bool, true, false, ◌||◌, none,
  some, arith, ◌==◌, Bool-cases, eq_of_==, ne_of_==, ==-of_eq,
}
use my_own_operating_system.Task.{
  Task, Kernel, TaskState, ready, running, blocked, zombie, max_tasks, is_zombie,
}
use my_own_operating_system.Task.Create.{Symbols, find_slot, task_create, create_in, refused}

-- The slot was never used, or its task has exited.
abbrev pub IsVacant : Task → Type 0
IsVacant t = (t.pid ≡ 0) ⊎ (t.state ≡ zombie)

IsVacant-test : (t : Task) → ((t.pid == 0) || is_zombie t.state) ≡ true → IsVacant t
IsVacant-test t h = elim (Bool-cases (t.pid == 0)) [
  | inl unused ↦ inl (eq_of_== _ _ unused)
  | inr used ↦ inr (zombie-test t.state (rw used at h))
]
  where
    zombie-test : (s : TaskState) → is_zombie s ≡ true → s ≡ zombie
    zombie-test ready e = cc
    zombie-test running e = cc
    zombie-test blocked e = cc
    zombie-test zombie e = refl

occupied-test : (t : Task) → ((t.pid == 0) || is_zombie t.state) ≡ false → ¬ IsVacant t
occupied-test t h (inl unused) = let e : (t.pid == 0) ≡ true = ==-of_eq _ _ unused in cc (rw e at h)
occupied-test t h (inr gone) = elim (Bool-cases (t.pid == 0)) [
  | inl e ↦ cc (rw e at h)
  | inr e ↦ cc (rw (e, gone) at h)
]

-- The search gives the first slot, of those it looks at, that was never used or belongs to a
-- zombie, or finds that none is such.
pub find_slot-first :
    (k : Kernel) (left i : ℕ)
    → ((j : ℕ) × (find_slot k i left ≡ some j)
        × (i ≤ j)
        × (j < i + left)
        × IsVacant (k.table j)
        × ((m : ℕ) → i ≤ m → m < j → ¬ IsVacant (k.table m)))
      ⊎ ((find_slot k i left ≡ none) × ((m : ℕ) → i ≤ m → m < i + left → ¬ IsVacant (k.table m)))
unfolding find_slot
find_slot-first k zero i = inr (refl, λ m lo hi. absurd (omega arith))
find_slot-first k (suc left) i =
    elim (Bool-cases (((k.table i).pid == 0) || is_zombie (k.table i).state)) [
      | inl vacant ↦ inl (
        i,
        rw vacant,
        omega arith,
        omega arith,
        IsVacant-test (k.table i) vacant,
        λ m lo hi. absurd (omega arith),
      )
      | inr occupied ↦ rw occupied (further (find_slot-first k left (i + 1)) occupied)
    ]
  where
    skip :
        (m : ℕ)
        → i ≤ m
        → ((i + 1 ≤ m) → ¬ IsVacant (k.table m))
        → ((((k.table i).pid == 0) || is_zombie (k.table i).state) ≡ false)
        → ¬ IsVacant (k.table m)
    skip m lo rest occupied = elim (Bool-cases (i == m)) [
      | inl same ↦ rw (← eq_of_== i m same) (occupied-test (k.table i) occupied)
      | inr other ↦ rest (omega (arith, ne_of_== i m other))
    ]

    further :
        ((j : ℕ) × (find_slot k (i + 1) left ≡ some j)
            × (i + 1 ≤ j)
            × (j < i + 1 + left)
            × IsVacant (k.table j)
            × ((m : ℕ) → i + 1 ≤ m → m < j → ¬ IsVacant (k.table m)))
          ⊎ ((find_slot k (i + 1) left ≡ none)
              × ((m : ℕ) → i + 1 ≤ m → m < i + 1 + left → ¬ IsVacant (k.table m)))
        → ((((k.table i).pid == 0) || is_zombie (k.table i).state) ≡ false)
        → ((j : ℕ) × (find_slot k (i + 1) left ≡ some j)
            × (i ≤ j)
            × (j < i + suc left)
            × IsVacant (k.table j)
            × ((m : ℕ) → i ≤ m → m < j → ¬ IsVacant (k.table m)))
          ⊎ ((find_slot k (i + 1) left ≡ none)
              × ((m : ℕ) → i ≤ m → m < i + suc left → ¬ IsVacant (k.table m)))
    further (inl (j, e, lo, hi, v, before)) occupied =
        inl (j, e, omega arith, omega arith, v, λ m p q. skip m p (λ r. before m r q) occupied)
    further (inr (e, none')) occupied =
        inr (e, λ m p q. skip m p (λ r. none' m r (omega arith)) occupied)

-- When none of the 31 slots behind the boot task's is vacant, `task_create` returns NULL and
-- changes nothing but that it turns interrupts off.
pub task_create-full :
    (sym' : Symbols) (fuel entry page_dir : ℕ) (is_user : Bool) (k : Kernel)
    → ((m : ℕ) → 1 ≤ m → m < max_tasks → ¬ IsVacant (k.table m))
    → task_create sym' fuel entry page_dir is_user k ≡ refused (record k { interrupts = false })
unfolding task_create
task_create-full sym' fuel entry page_dir is_user k occupied =
    elim (find_slot-first masked (max_tasks - 1) 1) [
      | inl (j, e, lo, hi, v, before) ↦ absurd (occupied j lo hi v)
      | inr (e, all) ↦
          ap (create_in sym' fuel entry page_dir is_user (record k { interrupts = false })) e
    ]
  where
    masked : Kernel
    masked = record k { interrupts = false }
