-- ===== src/Task/Fair.antt =====
-- Repeated calls of `schedule` in src/task.c run every ready task.
use my_own_operating_system.Base.{
  ℕ, zero, suc, ◌+◌, ◌≤◌, ◌<◌, ◌≡◌, refl, sym, ap, ◌∙◌, ◌≢◌, ◌⊎◌, inl, inr, true, false, Option,
  none, some, List, [], ◌∷◌, ◌++◌, arith, ◌==◌, Bool-cases, eq_of_==, ne_of_==, length,
}
use mathlib.Core.Path.{subst}
use mathlib.Core.List.{append_assoc, head-eq_of_cons-eq, tail-eq_of_cons-eq}
use my_own_operating_system.Task.{Task, ready, running, Kernel, is_ready, schedule}
use my_own_operating_system.Task.Chain.{
  Chain, Distinct, Distinct-middle, Avoids, Avoids-append, Avoids-right, length-append,
}
use my_own_operating_system.Task.Schedule.{IsQueue, NoneReady, Switched}
use my_own_operating_system.Task.Round.{Ran, idle, switched, schedule-Ran, Switched-Chain}

-- Where `i` stands when it is in the middle of two lists one behind the other.
data Halves (xs ys us : List ℕ) (i : ℕ) (vs : List ℕ) : Type 0 where
  in_first : (ws : List ℕ) → xs ≡ us ++ (i ∷ ws) → vs ≡ ws ++ ys → Halves xs ys us i vs
  in_second : (ws : List ℕ) → us ≡ xs ++ ws → ys ≡ ws ++ (i ∷ vs) → Halves xs ys us i vs

Halves-cons :
    (x : ℕ) {xs ys us : List ℕ} {i : ℕ} {vs : List ℕ}
    → Halves xs ys us i vs
    → Halves (x ∷ xs) ys (x ∷ us) i vs
Halves-cons x (in_first ws e f) = in_first ws (ap (λ l. x ∷ l) e) f
Halves-cons x (in_second ws e f) = in_second ws (ap (λ l. x ∷ l) e) f

halves :
    (xs ys us : List ℕ) (i : ℕ) (vs : List ℕ) → xs ++ ys ≡ us ++ (i ∷ vs) → Halves xs ys us i vs
halves [] ys us i vs e = in_second us refl e
halves (x ∷ xs) ys [] i vs e =
    in_first xs (ap (λ h. h ∷ xs) (head-eq_of_cons-eq e)) (sym (tail-eq_of_cons-eq e))
halves (x ∷ xs) ys (u ∷ us) i vs e =
    subst (λ h. Halves (x ∷ xs) ys (h ∷ us) i vs) (head-eq_of_cons-eq e)
      (Halves-cons x (halves xs ys us i vs (tail-eq_of_cons-eq e)))

-- The queue behind the current task, as `schedule` goes through it.
record Requeued (k : Kernel) (cur i : ℕ) (us vs : List ℕ) (size : ℕ) : Type 0 where
  pub before : List ℕ
  pub after : List ℕ
  pub queue : IsQueue k before i after
  pub order : after ++ before ≡ vs ++ (cur ∷ us)
  pub size_is : length before + length after ≡ size

module _ {k k' : Kernel} (before : List ℕ) (cur : ℕ) (after : List ℕ)
    (q : IsQueue k before cur after) (us : List ℕ) (i : ℕ) (vs : List ℕ) (ne : i ≢ cur)
    (s : Switched cur i k k') where
  -- The whole list is the same, cut at the new current task.
  moved :
      (before' after' : List ℕ)
      → before ++ (cur ∷ after) ≡ before' ++ (i ∷ after')
      → IsQueue k' before' i after'
  moved before' after' e = record {
    chain = subst (Chain k'.table k'.list) e (Switched-Chain ne s q.chain);
    distinct = subst Distinct e q.distinct;
    current = s.current;
  }

  size_same :
      (before' after' : List ℕ)
      → before ++ (cur ∷ after) ≡ before' ++ (i ∷ after')
      → length before' + length after' ≡ length before + length after
  size_same before' after' e =
      omega
        (arith, ap length e, length-append before (cur ∷ after), length-append before' (i ∷ after'))

  requeue : Halves after before us i vs → Requeued k' cur i us vs (length before + length after)
  requeue (in_first ws e f) =
      let whole : before ++ (cur ∷ after) ≡ (before ++ (cur ∷ us)) ++ (i ∷ ws) =
        ap (λ l. before ++ (cur ∷ l)) e ∙ sym (append_assoc before (cur ∷ us) (i ∷ ws)) in
      record {
        before = before ++ (cur ∷ us);
        after = ws;
        queue = moved (before ++ (cur ∷ us)) ws whole;
        order = sym (append_assoc ws before (cur ∷ us)) ∙ ap (λ l. l ++ (cur ∷ us)) (sym f);
        size_is = size_same (before ++ (cur ∷ us)) ws whole;
      }
  requeue (in_second ws e f) =
      let whole : before ++ (cur ∷ after) ≡ ws ++ (i ∷ (vs ++ (cur ∷ after))) =
        ap (λ l. l ++ (cur ∷ after)) f ∙ append_assoc ws (i ∷ vs) (cur ∷ after) in
      record {
        before = ws;
        after = vs ++ (cur ∷ after);
        queue = moved ws (vs ++ (cur ∷ after)) whole;
        order = append_assoc vs (cur ∷ after) ws ∙ ap (λ l. vs ++ (cur ∷ l)) (sym e);
        size_is = size_same ws (vs ++ (cur ∷ after)) whole;
      }

-- A ready task behind `us` is not among those that are passed over.
ready_not_passed :
    (k : Kernel) (us' us : List ℕ) (i j : ℕ) (vs' vs : List ℕ)
    → us' ++ (i ∷ vs') ≡ us ++ (j ∷ vs)
    → NoneReady k us'
    → is_ready (k.table j).state ≡ true
    → (i ≡ j) ⊎ ((ws : List ℕ) × (vs' ≡ ws ++ (j ∷ vs)) × (length ws < length us))
ready_not_passed k [] [] i j vs' vs e none' r = inl (head-eq_of_cons-eq e)
ready_not_passed k [] (u ∷ us) i j vs' vs e none' r = inr (us, tail-eq_of_cons-eq e, omega arith)
ready_not_passed k (u ∷ us') [] i j vs' vs e none' r =
    absurd
      (both (sym none'.0 ∙ ap (λ (n : ℕ). is_ready (k.table n).state) (head-eq_of_cons-eq e) ∙ r))
  where
    both : false ≡ true → ⊥
    both h = cc
ready_not_passed k (u ∷ us') (w ∷ us) i j vs' vs e none' r =
    elim (ready_not_passed k us' us i j vs' vs (tail-eq_of_cons-eq e) none'.1 r) [
      | inl same ↦ inl same
      | inr (ws, f, less) ↦ inr (ws, f, omega (arith, less))
    ]

NoneReady-not :
    (k : Kernel) (us : List ℕ) (j : ℕ) (vs xs : List ℕ)
    → xs ≡ us ++ (j ∷ vs)
    → NoneReady k xs
    → is_ready (k.table j).state ≡ true
    → ⊥
NoneReady-not k us j vs xs e none' r = at us (subst (NoneReady k) e none')
  where
    at : (ws : List ℕ) → NoneReady k (ws ++ (j ∷ vs)) → ⊥
    at [] n = cc (rw r at n.0)
    at (w ∷ ws) n = at ws n.1

-- `n` calls of `schedule`, one after the other.
abbrev pub then_schedule : (Kernel → Option Kernel) → Option Kernel → Option Kernel
then_schedule go none = none
then_schedule go (some k) = go k

abbrev pub schedule_times : ℕ → ℕ → Kernel → Option Kernel
schedule_times fuel zero k = some k
schedule_times fuel (suc n) k = then_schedule (schedule_times fuel n) (schedule fuel k)

-- Task `j` runs after at most `bound` calls.
pub record RunsWithin (fuel bound j : ℕ) (k : Kernel) : Type 0 where
  pub calls : ℕ
  pub soon : calls ≤ bound
  pub last : Kernel
  pub result : schedule_times fuel calls k ≡ some last
  pub current : last.current ≡ some j
  pub state : (last.table j).state ≡ running

RunsWithin-later :
    {fuel bound j : ℕ} {k k' : Kernel}
    → schedule fuel k ≡ some k'
    → RunsWithin fuel bound j k'
    → RunsWithin fuel (suc bound) j k
RunsWithin-later {fuel} e r = record {
  calls = suc r.calls;
  soon = omega (arith, r.soon);
  last = r.last;
  result = ap (then_schedule (schedule_times fuel r.calls)) e ∙ r.result;
  current = r.current;
  state = r.state;
}

RunsWithin-now :
    {fuel j : ℕ} (bound : ℕ) {k k' : Kernel}
    → schedule fuel k ≡ some k'
    → k'.current ≡ some j
    → (k'.table j).state ≡ running
    → RunsWithin fuel (suc bound) j k
RunsWithin-now {fuel} bound {k} {k'} e c r = record {
  calls = 1;
  soon = omega arith;
  last = k';
  result = ap (then_schedule (schedule_times fuel 0)) e;
  current = c;
  state = r;
}

module _ (fuel j : ℕ) where
  -- Task `j` runs soon in each state that a call can lead to, where it stands closer.
  abbrev pub Closer : ℕ → ℕ → Type 0
  Closer bound place =
      (k : Kernel) (before : List ℕ) (cur : ℕ) (after us vs : List ℕ)
      → IsQueue k before cur after
      → length before + length after < fuel
      → after ++ before ≡ us ++ (j ∷ vs)
      → length us < place
      → (k.table j).state ≡ ready
      → RunsWithin fuel bound j k

  module _ (bound : ℕ) (k : Kernel) (before : List ℕ) (cur : ℕ) (after us vs : List ℕ)
      (q : IsQueue k before cur after) (enough : length before + length after < fuel)
      (place : after ++ before ≡ us ++ (j ∷ vs)) (r : (k.table j).state ≡ ready)
      (later : Closer bound (length us)) where
    not_current : j ≢ cur
    not_current =
        let parts = Distinct-middle before cur after q.distinct in
        (Avoids-right cur us (j ∷ vs)
          (subst (Avoids cur) place (Avoids-append cur after before parts.1 parts.0))).0

    after_switch :
        (us' : List ℕ) (i : ℕ) (vs' : List ℕ) (k' : Kernel)
        → after ++ before ≡ us' ++ (i ∷ vs')
        → i ≢ cur
        → Switched cur i k k'
        → schedule fuel k ≡ some k'
        → (j ≡ i) ⊎ (j ≢ i)
        → (i ≡ j) ⊎ ((ws : List ℕ) × (vs' ≡ ws ++ (j ∷ vs)) × (length ws < length us))
        → RunsWithin fuel (suc bound) j k
    after_switch us' i vs' k' split ne s e (inl same) at =
        RunsWithin-now bound e (s.current ∙ ap some (sym same))
          (ap (λ (n : ℕ). (k'.table n).state) same ∙ ap (λ (t : Task). t.state) s.started)
    after_switch us' i vs' k' split ne s e (inr other) (inl same) = absurd (other (sym same))
    after_switch us' i vs' k' split ne s e (inr other) (inr (ws, f, less)) =
        let n = requeue before cur after q us' i vs' ne s (halves after before us' i vs' split) in
        RunsWithin-later e (
          later k' n.before i n.after ws (vs ++ (cur ∷ us')) n.queue
            (omega (arith, n.size_is, enough))
            (n.order ∙ ap (λ l. l ++ (cur ∷ us')) f ∙ append_assoc ws (j ∷ vs) (cur ∷ us')) less
            (ap (λ (t : Task). t.state) (s.others j other not_current) ∙ r))

    after_call :
        (o : Option Kernel)
        → schedule fuel k ≡ o
        → Ran k before cur after o
        → RunsWithin fuel (suc bound) j k
    after_call _ e (idle none') =
        absurd (NoneReady-not k us j vs (after ++ before) place none' (ap is_ready r))
    after_call _ e (switched us' i vs' k' split none' ri ne s) =
        after_switch us' i vs' k' split ne s e (same_or_not (Bool-cases (j == i)))
          (ready_not_passed k us' us i j vs' vs (sym split ∙ place) none' (ap is_ready r))
      where
        same_or_not : ((j == i) ≡ true) ⊎ ((j == i) ≡ false) → (j ≡ i) ⊎ (j ≢ i)
        same_or_not (inl t) = inl (eq_of_== j i t)
        same_or_not (inr f) = inr (ne_of_== j i f)

    runs_next : RunsWithin fuel (suc bound) j k
    runs_next = after_call (schedule fuel k) refl (schedule-Ran fuel k before cur after q enough)

  -- With a task list that holds each task once and fuel above the number of tasks but the current
  -- one: a ready task with at most `bound` tasks before it in the order of the search is the
  -- current, running task after at most `bound + 1` calls of `schedule`, each of which returns, if
  -- nothing else changes the tasks in between.
  pub schedule-RunsWithin :
      (bound : ℕ) (k : Kernel) (before : List ℕ) (cur : ℕ) (after us vs : List ℕ)
      → IsQueue k before cur after
      → length before + length after < fuel
      → after ++ before ≡ us ++ (j ∷ vs)
      → length us ≤ bound
      → (k.table j).state ≡ ready
      → RunsWithin fuel (suc bound) j k
  schedule-RunsWithin zero k before cur after us vs q enough place near r =
      runs_next 0 k before cur after us vs q enough place r
        (λ k' b c a us' vs' q' en' pl' less r'. absurd (omega (arith, near, less)))
  schedule-RunsWithin (suc bound) k before cur after us vs q enough place near r =
      runs_next (suc bound) k before cur after us vs q enough place r
        (λ k' b c a us' vs' q' en' pl' less r'.
          schedule-RunsWithin bound k' b c a us' vs' q' en' pl' (omega (arith, near, less)) r')
