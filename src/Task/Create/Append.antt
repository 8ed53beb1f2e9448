-- ===== src/Task/Create/Append.antt =====
-- The end of `task_create` in src/task.c: a slot that the list does not hold is appended; a zombie
-- slot that it holds already cuts off every task behind it.
use my_own_operating_system.Base.{
  ℕ, zero, suc, ◌+◌, ◌<◌, ◌≡◌, refl, sym, ap, ◌∙◌, ◌≢◌, Option, none, some, List, [], ◌∷◌, ◌++◌,
  arith, ==-of_eq, ==-of_ne, length, update,
}
use mathlib.Core.Path.{subst}
use my_own_operating_system.Task.{Task, Kernel}
use my_own_operating_system.Task.Chain.{
  Chain, nil, cons, Chain-head, Chain-end, Avoids, Avoids-right, Distinct, Distinct-middle,
  length-append,
}
use my_own_operating_system.Task.Create.{last_task, link, append, append_at, link_last}

-- The last member of a list, or `i` if it is empty.
abbrev pub last_of : ℕ → List ℕ → ℕ
last_of i [] = i
last_of i (x ∷ xs) = last_of x xs

last_task-Chain :
    (table : ℕ → Task) (fuel i : ℕ) (xs : List ℕ)
    → Chain table (table i).next xs
    → length xs < fuel
    → last_task table fuel i ≡ some (last_of i xs)
unfolding last_task
last_task-Chain table zero i xs c enough = absurd (omega arith)
last_task-Chain table (suc fuel) i [] c enough = rw (Chain-end c, last_task)
last_task-Chain table (suc fuel) i (x ∷ xs) c enough =
    rw ((Chain-head c).0, last_task)
      (last_task-Chain table fuel x xs (Chain-head c).1 (omega arith))

last_of-append : (i n : ℕ) (xs ys : List ℕ) → last_of i (xs ++ (n ∷ ys)) ≡ last_of n ys
last_of-append i n [] ys = refl
last_of-append i n (x ∷ xs) ys = last_of-append x n xs ys

last_of-ne : (c i : ℕ) (xs : List ℕ) → Avoids c (i ∷ xs) → last_of i xs ≢ c
last_of-ne c i [] h = h.0
last_of-ne c i (x ∷ xs) h = last_of-ne c x xs h.1

-- The table after `new` was linked behind `last`.
abbrev linked : (ℕ → Task) → ℕ → ℕ → ℕ → Task
linked table new last =
    let t = update table last (record (table last) { next = some new }) in
    update t new (record (t new) { next = none })

module _ (table : ℕ → Task) (new last : ℕ) where
  linked-new : (linked table new last new).next ≡ none
  linked-new = rw (==-of_eq new new refl)

  linked-last : last ≢ new → (linked table new last last).next ≡ some new
  linked-last ne = rw (==-of_ne last new ne, ==-of_eq last last refl)

  linked-other : (j : ℕ) → j ≢ new → j ≢ last → (linked table new last j).next ≡ (table j).next
  linked-other j nn nl = rw (==-of_ne j new nn, ==-of_ne j last nl)

  -- What stands in front of the last member keeps its pointers.
  Chain-cut :
      (before after : List ℕ) {p : Option ℕ}
      → Chain table p (before ++ (new ∷ after))
      → Avoids new before
      → Avoids last before
      → Chain (linked table new last) p (before ++ (new ∷ []))
  Chain-cut [] after c an al =
      subst (λ q. Chain (linked table new last) q (new ∷ [])) (sym (Chain-head c).0)
        (cons (subst (λ q. Chain (linked table new last) q []) (sym linked-new) nil))
  Chain-cut (x ∷ xs) after c an al =
      subst (λ q. Chain (linked table new last) q (x ∷ (xs ++ (new ∷ [])))) (sym (Chain-head c).0)
        (cons (
          subst (λ q. Chain (linked table new last) q (xs ++ (new ∷ [])))
            (sym (linked-other x an.0 al.0)) (Chain-cut xs after (Chain-head c).1 an.1 al.1)))

Chain-extend :
    (table : ℕ → Task) (new x : ℕ) (xs : List ℕ) {p : Option ℕ}
    → Chain table p (x ∷ xs)
    → Avoids new (x ∷ xs)
    → Distinct (x ∷ xs)
    → Chain (linked table new (last_of x xs)) p (x ∷ (xs ++ (new ∷ [])))
Chain-extend table new x [] c an d =
    let t = linked table new x in
    subst (λ q. Chain t q (x ∷ new ∷ [])) (sym (Chain-head c).0)
      (cons (
        subst (λ q. Chain t q (new ∷ [])) (sym (linked-last table new x an.0))
          (cons (subst (λ q. Chain t q []) (sym (linked-new table new x)) nil))))
Chain-extend table new x (y ∷ ys) c an d =
    let t = linked table new (last_of y ys) in
    subst (λ q. Chain t q (x ∷ (y ∷ ys ++ (new ∷ [])))) (sym (Chain-head c).0)
      (cons (
        subst (λ q. Chain t q (y ∷ (ys ++ (new ∷ []))))
          (sym (linked-other table new (last_of y ys) x an.0 (λ e. last_of-ne x y ys d.0 (sym e))))
          (Chain-extend table new y ys (Chain-head c).1 an.1 d.1)))

Distinct-last : (n : ℕ) (xs ys : List ℕ) → Distinct (xs ++ (n ∷ ys)) → Avoids (last_of n ys) xs
Distinct-last n [] ys d = tt
Distinct-last n (x ∷ xs) ys d =
    (λ e. last_of-ne x n ys (Avoids-right x xs (n ∷ ys) d.0) (sym e), Distinct-last n xs ys d.1)

append_eq :
    (fuel new head last : ℕ) (k : Kernel)
    → k.list ≡ some head
    → last_task k.table fuel head ≡ some last
    → append fuel new k ≡ some (link new last k)
unfolding append append_at
append_eq fuel new head last k e f = ap (append_at fuel new k) e ∙ ap (link_last new k) f

-- When the task list holds each task once and does not hold the slot, and the fuel is above its
-- length behind the head, the end of `task_create` appends the slot and keeps the order of the
-- others, the slot's other fields and memory.
pub append-fresh :
    (fuel new head : ℕ) (rest : List ℕ) (k : Kernel)
    → Chain k.table k.list (head ∷ rest)
    → Distinct (head ∷ rest)
    → Avoids new (head ∷ rest)
    → length rest < fuel
    → (k' : Kernel) × (append fuel new k ≡ some k')
      × Chain k'.table k'.list (head ∷ (rest ++ (new ∷ [])))
      × (k'.table new ≡ record (k.table new) { next = none })
      × (k'.vmm ≡ k.vmm)
append-fresh fuel new head rest k c d avoid enough =
    let walk = last_task-Chain k.table fuel head rest (Chain-head c).1 enough in
    (
      link new (last_of head rest) k,
      append_eq fuel new head (last_of head rest) k (Chain-head c).0 walk,
      Chain-extend k.table new head rest c avoid d,
      rw (
        ==-of_eq new new refl,
        ==-of_ne new (last_of head rest) (λ e. last_of-ne new head rest avoid (sym e)),
      ),
      refl,
    )

-- The walk from the head of a list that holds `new` ends at the last of those behind it.
walk-cut :
    (fuel new : ℕ) (before after : List ℕ) (k : Kernel)
    → Chain k.table k.list (before ++ (new ∷ after))
    → length before + length after < fuel
    → append fuel new k ≡ some (link new (last_of new after) k)
walk-cut fuel new [] after k c enough =
    append_eq fuel new new (last_of new after) k (Chain-head c).0
      (last_task-Chain k.table fuel new after (Chain-head c).1 (omega arith))
walk-cut fuel new (x ∷ xs) after k c enough =
    append_eq fuel new x (last_of new after) k (Chain-head c).0 (
      last_task-Chain k.table fuel x (xs ++ (new ∷ after)) (Chain-head c).1
        (omega (arith, length-append xs (new ∷ after)))
      ∙ ap some (last_of-append x new xs after))

-- When the task list holds each task once and holds the slot already, as it may hold a zombie's,
-- and the fuel is enough, the end of `task_create` returns with the slot as the end of the list:
-- every task that stood behind it is no longer reached from `task_list`.
pub append-cuts :
    (fuel new : ℕ) (before after : List ℕ) (k : Kernel)
    → Chain k.table k.list (before ++ (new ∷ after))
    → Distinct (before ++ (new ∷ after))
    → length before + length after < fuel
    → (k' : Kernel) × (append fuel new k ≡ some k') × Chain k'.table k'.list (before ++ (new ∷ []))
append-cuts fuel new before after k c d enough = (
  link new (last_of new after) k,
  walk-cut fuel new before after k c enough,
  Chain-cut k.table new (last_of new after) before after c (Distinct-middle before new after d).0
      (Distinct-last new before after d),
)
