-- ===== src/Timer/Tick.antt =====
-- One tick of the timer of src/timer.c.
use my_own_operating_system.Base.{
  ℕ, ◌+◌, ◌%◌, ◌<◌, ◌≡◌, refl, ap, ap₂, ◌≢◌, inl, inr, Option, some, List, [], ◌∷◌, ◌++◌, arith,
  ◌==◌, Bool-cases, eq_of_==, ne_of_==, length, add32,
}
use mathlib.Core.Path.{subst}
use my_own_operating_system.Terminal.{Terminal, writestring, dec_text, write_text}
use my_own_operating_system.Terminal.Numbers.{dec_text-read, read_digits, digit_value}
use my_own_operating_system.Task.{Kernel, schedule}
use my_own_operating_system.Task.Schedule.{IsQueue, IsExclusive}
use my_own_operating_system.Task.Round.{Ran, schedule-Ran, IsScheduled, schedule-IsScheduled}
use my_own_operating_system.Timer.{Clock, tick_text, end_line, heartbeat, tick_in, callback}

-- What the heartbeat of tick `n` leaves on the terminal: at a multiple of 100 the message with the
-- decimal digits of `n` and a line feed, and nothing new at any other tick.
pub data Beat (n : ℕ) (t : Terminal) : Terminal → Type 0 where
  silent : n % 100 ≢ 0 → Beat n t t
  beaten :
      (ds : List ℕ)
      → n % 100 ≡ 0
      → read_digits digit_value 10 0 ds ≡ n
      → Beat n t (writestring (10 ∷ []) (writestring ds (writestring tick_text t)))

heartbeat-Beat :
    (digits tick : ℕ) (ds : List ℕ) (t : Terminal)
    → dec_text digits tick ≡ some ds
    → read_digits digit_value 10 0 ds ≡ tick
    → (t' : Terminal) × (heartbeat digits tick t ≡ some t') × Beat tick t t'
unfolding heartbeat
heartbeat-Beat digits tick ds t e read = elim (Bool-cases (tick % 100 == 0)) [
  | inr quiet ↦ (t, rw quiet, silent (ne_of_== _ _ quiet))
  | inl beat ↦
      let head = writestring tick_text t in
      (
        writestring (10 ∷ []) (writestring ds head),
        rw beat (ap (λ (d : Option (List ℕ)). end_line (write_text d head)) e),
        beaten ds (eq_of_== _ _ beat) read,
      )
]

callback_eq :
    (digits fuel : ℕ) (c : Clock) (t : Terminal) (k : Kernel)
    → heartbeat digits (add32 c.tick 1) c.terminal ≡ some t
    → schedule fuel c.kernel ≡ some k
    → callback digits fuel c ≡ some (record { tick = add32 c.tick 1; terminal = t; kernel = k })
unfolding callback
callback_eq digits fuel c t k e f = ap₂ (tick_in (add32 c.tick 1)) e f

-- What a tick leaves: the counter one higher, the heartbeat's text, and the tasks as one call of
-- the scheduler leaves them.
pub record Ticked (before : List ℕ) (cur : ℕ) (after : List ℕ) (c c' : Clock) : Type 0 where
  pub counted : c'.tick ≡ add32 c.tick 1
  pub beat : Beat (add32 c.tick 1) c.terminal c'.terminal
  pub ran : Ran c.kernel before cur after (some c'.kernel)
  pub scheduled : IsScheduled c'.kernel (before ++ (cur ∷ after))

-- When the task list holds each task once, only the current one is running and the fuel is above
-- the number of the other tasks, a tick ends with the counter one higher modulo 2^32; on the
-- terminal stand the message, the digits that read as the new count and a line feed if it is a
-- multiple of 100, and nothing new if not; the first ready task behind the old current one, round
-- the list, has taken over, or nobody else was ready and the tasks are as before; and the task
-- list is the same, with no task running but the current one.
pub callback-Ticked :
    (fuel : ℕ) (c : Clock) (before : List ℕ) (cur : ℕ) (after : List ℕ)
    → IsQueue c.kernel before cur after
    → IsExclusive c.kernel cur
    → length before + length after < fuel
    → (c' : Clock) × (callback 11 fuel c ≡ some c') × Ticked before cur after c c'
callback-Ticked fuel c before cur after q only enough =
    let n = add32 c.tick 1 in
    let (ds, text, read, short) = dec_text-read n (omega arith) in
    let (t, beat, printed) = heartbeat-Beat 11 n ds c.terminal text read in
    let (k, run, sched) = schedule-IsScheduled fuel c.kernel before cur after q only enough in
    (
      record { tick = n; terminal = t; kernel = k },
      callback_eq 11 fuel c t k beat run,
      record {
        counted = refl;
        beat = printed;
        ran =
            subst (Ran c.kernel before cur after) run
              (schedule-Ran fuel c.kernel before cur after q enough);
        scheduled = sched;
      },
    )
