-- ===== src/Task/Ring.antt =====
-- The search of `schedule` in src/task.c goes once round the list, from the current task on.
use my_own_operating_system.Base.{
  ℕ, zero, suc, ◌+◌, ◌-◌, ◌<◌, ◌≡◌, refl, ap, inl, inr, Option, List, [], ◌∷◌, ◌++◌, arith,
  if◌then◌else◌, Bool-cases, ==-of_eq, ==-of_ne, length,
}
use my_own_operating_system.Task.{Kernel, stop, wrap, seek, search_from, is_ready}
use my_own_operating_system.Task.Chain.{
  Chain, Chain-head, Chain-end, Chain-drop, Avoids, Distinct, Distinct-middle,
}

-- The first ready task of a list, else `other`.
unfoldable pub first_ready : Kernel → List ℕ → ℕ → ℕ
first_ready k [] other = other
first_ready k (i ∷ xs) other =
    let rest = first_ready k xs other in if is_ready (k.table i).state then i else rest

pub first_ready-append :
    (k : Kernel) (xs ys : List ℕ) (other : ℕ)
    → first_ready k (xs ++ ys) other ≡ first_ready k xs (first_ready k ys other)
unfolding first_ready
first_ready-append k [] ys other = refl
first_ready-append k (x ∷ xs) ys other =
    ap (λ r. if is_ready (k.table x).state then x else r) (first_ready-append k xs ys other)

-- A pointer into a chain that does not end here is not NULL, so that `wrap` keeps it.
wrap-Chain :
    (k : Kernel) {p : Option ℕ} (xs : List ℕ) (x : ℕ) (ys : List ℕ)
    → Chain k.table p (xs ++ (x ∷ ys))
    → wrap k p ≡ p
unfolding wrap
wrap-Chain k [] x ys c = rw ((Chain-head c).0)
wrap-Chain k (y ∷ xs) x ys c = rw ((Chain-head c).0)

module _ (k : Kernel) (cur : ℕ) where
  -- The stretch from the head of the list to the current task.
  seek-before :
      (fuel : ℕ) (xs ys : List ℕ) {p : Option ℕ}
      → Chain k.table p (xs ++ (cur ∷ ys))
      → Avoids cur xs
      → length xs < fuel
      → seek k cur fuel p ≡ stop (first_ready k xs cur)
  unfolding seek first_ready
  seek-before zero xs ys c avoid enough = absurd (omega arith)
  seek-before (suc fuel) [] ys c avoid enough = rw ((Chain-head c).0) (rw (==-of_eq cur cur refl))
  seek-before (suc fuel) (x ∷ xs) ys c avoid enough =
      rw ((Chain-head c).0, ==-of_ne x cur avoid.0)
        (elim (Bool-cases (is_ready (k.table x).state)) [
          | inl ready' ↦ rw ready'
          | inr other ↦
              rw (other, wrap-Chain k xs cur ys (Chain-head c).1)
                (seek-before fuel xs ys (Chain-head c).1 avoid.1 (omega arith))
        ])

  -- The stretch behind the current task, before the search wraps round to the head.
  seek-after :
      (fuel : ℕ) (xs : List ℕ) {p : Option ℕ}
      → Chain k.table p xs
      → Avoids cur xs
      → (other : ℕ) → seek k cur fuel k.list ≡ stop other
      → seek k cur (length xs + fuel) (wrap k p) ≡ stop (first_ready k xs other)
  unfolding seek first_ready
  seek-after fuel [] c avoid other rest =
      let z : length {A = ℕ} [] + fuel ≡ fuel = omega arith in rw (Chain-end c, z) rest
  seek-after fuel (x ∷ xs) c avoid other rest =
      let s : length (x ∷ xs) + fuel ≡ suc (length xs + fuel) = omega arith in
      rw ((Chain-head c).0, s, ==-of_ne x cur avoid.0)
        (elim (Bool-cases (is_ready (k.table x).state)) [
          | inl ready' ↦ rw ready'
          | inr waits ↦ rw waits (seek-after fuel xs (Chain-head c).1 avoid.1 other rest)
        ])

  -- The list is `before`, the current task and `after`: the search stops at the first ready task
  -- of `after` and then of `before`, and at the current task if there is none.
  pub search_from-first_ready :
      (fuel : ℕ) (before after : List ℕ)
      → Chain k.table k.list (before ++ (cur ∷ after))
      → Distinct (before ++ (cur ∷ after))
      → length before + length after < fuel
      → search_from fuel cur k ≡ stop (first_ready k (after ++ before) cur)
  unfolding search_from
  search_from-first_ready fuel before after c distinct enough =
      let parts = Distinct-middle before cur after distinct in
      let left : length after + (fuel - length after) ≡ fuel = omega arith in
      rw (first_ready-append k after before cur) (
        rw left at (
          seek-after (fuel - length after) after (Chain-drop k.table before c) parts.1
            (first_ready k before cur)
            (seek-before (fuel - length after) before after c parts.0 (omega arith))))
