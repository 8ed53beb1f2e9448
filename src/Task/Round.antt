-- ===== src/Task/Round.antt =====
-- One call of `schedule`, `task_yield` or `task_exit` of src/task.c on a well-formed task list.
use my_own_operating_system.Base.{
  ℕ, ◌+◌, ◌<◌, ◌≡◌, refl, sym, ap, ◌∙◌, ◌≢◌, ◌⊎◌, inl, inr, Option, some, List, ◌∷◌, ◌++◌, ◌==◌,
  if◌then◌else◌, Bool-cases, eq_of_==, ne_of_==, ==-of_eq, ==-of_ne, length,
}
use mathlib.Core.Path.{subst}
use my_own_operating_system.Task.{
  Task, TaskState, ready, running, blocked, zombie, Kernel, stop, is_running, switch_to,
  search_from, schedule, schedule_at, after_search, mark_zombie, exit_at, task_exit,
}
use my_own_operating_system.Task.Chain.{
  Chain, Chain-same, Distinct, Distinct-middle, Avoids, Avoids-append, Avoids-right,
}
use my_own_operating_system.Task.Ring.{first_ready, search_from-first_ready}
use my_own_operating_system.Task.Schedule.{
  IsQueue, IsExclusive, NoneReady, FirstOf, found, nobody, first_ready-FirstOf, Switched,
  switch_to-Switched,
}

-- What a call of `schedule` comes to: nobody else is ready and nothing changes, or the first ready
-- task behind the current one, round the list, takes over.
pub data Ran (k : Kernel) (before : List ℕ) (cur : ℕ) (after : List ℕ)
    : Option Kernel → Type 0 where
  idle : NoneReady k (after ++ before) → Ran k before cur after (some k)
  switched :
      (us : List ℕ) (i : ℕ) (vs : List ℕ) (k' : Kernel)
      → after ++ before ≡ us ++ (i ∷ vs)
      → NoneReady k us
      → (k.table i).state ≡ ready
      → i ≢ cur
      → Switched cur i k k'
      → Ran k before cur after (some k')

switch_to_self : (cur : ℕ) (k : Kernel) → switch_to cur cur k ≡ k
unfolding switch_to
switch_to_self cur k = rw (==-of_eq cur cur refl)

Avoids-subst : (c : ℕ) {xs ys : List ℕ} → xs ≡ ys → Avoids c xs → Avoids c ys
Avoids-subst c e h = subst (Avoids c) e h

Ran-of_first :
    (k : Kernel) (before after : List ℕ) (cur : ℕ)
    → Avoids cur (after ++ before)
    → {i : ℕ} → FirstOf k (after ++ before) cur i
    → Ran k before cur after (some (switch_to cur i k))
Ran-of_first k before after cur avoid (nobody none') = rw (switch_to_self cur k) (idle none')
Ran-of_first k before after cur avoid (found us {i} vs e none' r) =
    let ne : i ≢ cur = (Avoids-right cur us (i ∷ vs) (Avoids-subst cur e avoid)).0 in
    switched us i vs (switch_to cur i k) e none' r ne (switch_to-Switched k cur i ne r)

schedule_eq :
    (fuel : ℕ) (k : Kernel) (cur i : ℕ)
    → k.current ≡ some cur
    → search_from fuel cur k ≡ stop i
    → schedule fuel k ≡ some (switch_to cur i k)
unfolding schedule schedule_at after_search
schedule_eq fuel k cur i e f = ap (schedule_at fuel k) e ∙ ap (after_search cur k) f

-- When the task list runs through `before`, the current task and `after`, with no task twice, and
-- the fuel is above the number of the others, `schedule` returns: it switches to the first ready
-- task in the order of `after`, then `before`, or changes nothing if none of those is ready.
pub schedule-Ran :
    (fuel : ℕ) (k : Kernel) (before : List ℕ) (cur : ℕ) (after : List ℕ)
    → IsQueue k before cur after
    → length before + length after < fuel
    → Ran k before cur after (schedule fuel k)
schedule-Ran fuel k before cur after q enough =
    let parts = Distinct-middle before cur after q.distinct in
    subst (Ran k before cur after)
      (sym (
        schedule_eq fuel k cur (first_ready k (after ++ before) cur) q.current
          (search_from-first_ready k cur fuel before after q.chain q.distinct enough)))
      (Ran-of_first k before after cur (Avoids-append cur after before parts.1 parts.0)
        (first_ready-FirstOf k (after ++ before) cur))

module _ {cur i : ℕ} {k k' : Kernel} (ne : i ≢ cur) (s : Switched cur i k k') where
  Switched-next : (j : ℕ) → (k'.table j).next ≡ (k.table j).next
  Switched-next j = elim (Bool-cases (j == i)) [
    | inl is_i ↦ rw (eq_of_== j i is_i) (ap (λ (t : Task). t.next) s.started)
    | inr not_i ↦ elim (Bool-cases (j == cur)) [
      | inl is_cur ↦ rw (eq_of_== j cur is_cur) (ap (λ (t : Task). t.next) s.paused)
      | inr other ↦
          ap (λ (t : Task). t.next) (s.others j (ne_of_== j i not_i) (ne_of_== j cur other))
    ]
  ]

  -- The list of tasks is the same after a switch.
  pub Switched-Chain : {xs : List ℕ} → Chain k.table k.list xs → Chain k'.table k'.list xs
  Switched-Chain {xs} c =
      subst (λ l. Chain k'.table l xs) (sym s.list) (Chain-same k.table k'.table Switched-next c)

  -- After a switch only the new current task is running.
  pub Switched-IsExclusive : IsExclusive k cur → IsExclusive k' i
  Switched-IsExclusive only j r = elim (Bool-cases (j == i)) [
    | inl is_i ↦ eq_of_== j i is_i
    | inr not_i ↦ elim (Bool-cases (j == cur)) [
      | inl is_cur ↦ absurd (
          paused_not_running (k.table cur).state (
            sym (ap (λ (t : Task). t.state) s.paused)
            ∙ ap (λ (n : ℕ). (k'.table n).state) (sym (eq_of_== j cur is_cur))
            ∙ r))
      | inr other ↦ absurd (
          ne_of_== j cur other (
            only j (
              ap (λ (t : Task). t.state)
                (sym (s.others j (ne_of_== j i not_i) (ne_of_== j cur other)))
              ∙ r)))
    ]
  ]
    where
      paused_not_running : (t : TaskState) → (if is_running t then ready else t) ≡ running → ⊥
      paused_not_running ready h = cc
      paused_not_running running h = cc
      paused_not_running blocked h = cc
      paused_not_running zombie h = cc

-- The current task is the one that runs, and the list of tasks holds every task once.
pub record IsScheduled (k : Kernel) (xs : List ℕ) : Type 0 where
  pub chain : Chain k.table k.list xs
  pub distinct : Distinct xs
  pub cur : ℕ
  pub current : k.current ≡ some cur
  pub exclusive : IsExclusive k cur

-- When the task list holds each task once, only the current one is running, and the fuel is above
-- the number of the others, `schedule` returns with the same list and with no task running but the
-- one that is now current.
pub schedule-IsScheduled :
    (fuel : ℕ) (k : Kernel) (before : List ℕ) (cur : ℕ) (after : List ℕ)
    → IsQueue k before cur after
    → IsExclusive k cur
    → length before + length after < fuel
    → (k' : Kernel) × (schedule fuel k ≡ some k') × IsScheduled k' (before ++ (cur ∷ after))
schedule-IsScheduled fuel k before cur after q only enough =
    go (schedule fuel k) (schedule-Ran fuel k before cur after q enough)
  where
    go :
        (r : Option Kernel)
        → Ran k before cur after r
        → (k' : Kernel) × (r ≡ some k') × IsScheduled k' (before ++ (cur ∷ after))
    go _ (idle none') = (
      k,
      refl,
      record {
        chain = q.chain;
        distinct = q.distinct;
        cur = cur;
        current = q.current;
        exclusive = only;
      },
    )
    go _ (switched us i vs k' e none' r ne s) = (
      k',
      refl,
      record {
        chain = Switched-Chain ne s q.chain;
        distinct = q.distinct;
        cur = i;
        current = s.current;
        exclusive = Switched-IsExclusive ne s only;
      },
    )

zombie_self : (cur : ℕ) (k : Kernel) → ((mark_zombie cur k).table cur).state ≡ zombie
unfolding mark_zombie
zombie_self cur k = rw (==-of_eq cur cur refl)

zombie-next : (cur : ℕ) (k : Kernel) (i : ℕ) → ((mark_zombie cur k).table i).next ≡ (k.table i).next
unfolding mark_zombie
zombie-next cur k i = elim (Bool-cases (i == cur)) [
  | inl same ↦ rw same (ap (λ (n : ℕ). (k.table n).next) (sym (eq_of_== i cur same)))
  | inr other ↦ rw other
]

zombie-IsQueue :
    {k : Kernel} {before : List ℕ} {cur : ℕ} {after : List ℕ}
    → IsQueue k before cur after
    → IsQueue (mark_zombie cur k) before cur after
unfolding mark_zombie
zombie-IsQueue {k} {cur} q = record {
  chain = Chain-same k.table (mark_zombie cur k).table (zombie-next cur k) q.chain;
  distinct = q.distinct;
  current = q.current;
}

-- Where `task_exit` leaves the processor: the caller is a zombie, and either no task was ready and
-- it stays the current one, or a task that was ready runs.
pub record Exited (others : List ℕ) (cur : ℕ) (k k' : Kernel) : Type 0 where
  pub zombie_now : (k'.table cur).state ≡ zombie
  pub next_one :
      (NoneReady k' others × (k'.current ≡ some cur))
      ⊎ ((i : ℕ) × (i ≢ cur)
          × ((k.table i).state ≡ ready)
          × (k'.current ≡ some i)
          × ((k'.table i).state ≡ running))

Exited-of_Ran :
    (k : Kernel) (before : List ℕ) (cur : ℕ) (after : List ℕ)
    → (r : Option Kernel) → (mark_zombie cur k).current ≡ some cur
    → Ran (mark_zombie cur k) before cur after r
    → (k' : Kernel) × (r ≡ some k') × Exited (after ++ before) cur k k'
unfolding mark_zombie
Exited-of_Ran k before cur after _ e (idle none') =
    (mark_zombie cur k, refl, record { zombie_now = zombie_self cur k; next_one = inl (none', e) })
Exited-of_Ran k before cur after _ e (switched us i vs k' l none' r ne s) = (
  k',
  refl,
  record {
    zombie_now =
        ap (λ (t : Task). t.state) s.paused
        ∙ ap (λ t. if is_running t then ready else t) (zombie_self cur k);
    next_one =
        inr (i, ne, rw (==-of_ne i cur ne) at r, s.current, ap (λ (t : Task). t.state) s.started);
  },
)

-- When the task list holds each task once and the fuel is above the number of the others, the part
-- of `task_exit` before its endless loop returns: the caller is a zombie, and either no other task
-- is ready and the caller stays the current one, or a task that was ready is current and running.
pub task_exit-Exited :
    (fuel : ℕ) (k : Kernel) (before : List ℕ) (cur : ℕ) (after : List ℕ)
    → IsQueue k before cur after
    → length before + length after < fuel
    → (k' : Kernel) × (task_exit fuel k ≡ some k') × Exited (after ++ before) cur k k'
unfolding task_exit
task_exit-Exited fuel k before cur after q enough =
    let run = schedule fuel (mark_zombie cur k) in
    let (k', e, done) =
      Exited-of_Ran k before cur after run (zombie-IsQueue q).current
        (schedule-Ran fuel (mark_zombie cur k) before cur after (zombie-IsQueue q) enough) in
    (k', ap (exit_at fuel k) q.current ∙ e, done)
