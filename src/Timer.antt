-- ===== src/Timer.antt =====
-- The timer of src/timer.c: the tick that preempts the running task, and the set-up of the
-- interrupt controllers and of the interval timer.
pub mod Tick
use my_own_operating_system.Base.{
  ℕ, ◌/◌, ◌%◌, bit_and, Option, none, some, List, [], ◌∷◌, ◌==◌, if◌then◌else◌, u8, add32, ◌>>>◌,
}
use my_own_operating_system.Terminal.{Terminal, writestring, writedec}
use my_own_operating_system.Task.{Kernel, schedule}
use my_own_operating_system.Idt.{Idt, timer_callback, idt_register_handler}

-- What the callback works on: the counter `tick`, the terminal and the tasks.
pub record Clock : Type 0 where
  pub tick : ℕ
  pub terminal : Terminal
  pub kernel : Kernel

-- "[Timer] Tick: "
abbrev pub tick_text : List ℕ
tick_text = 91 ∷ 84 ∷ 105 ∷ 109 ∷ 101 ∷ 114 ∷ 93 ∷ 32 ∷ 84 ∷ 105 ∷ 99 ∷ 107 ∷ 58 ∷ 32 ∷ []

abbrev pub end_line : Option Terminal → Option Terminal
end_line none = none
end_line (some t) = some (writestring (10 ∷ []) t)

-- The heartbeat, at every hundredth tick.
unfoldable pub heartbeat : ℕ → ℕ → Terminal → Option Terminal
unfolding writedec
heartbeat digits tick t =
    if tick % 100 == 0 then end_line (writedec digits tick (writestring tick_text t)) else some t

-- The tick ends in whatever task `schedule` goes to.
abbrev pub tick_in : ℕ → Option Terminal → Option Kernel → Option Clock
tick_in n none k = none
tick_in n (some t) none = none
tick_in n (some t) (some k) = some (record { tick = n; terminal = t; kernel = k })

-- `timer_callback`; `none` means that the fuel of the digits or of the search ran out.
unfoldable pub callback : ℕ → ℕ → Clock → Option Clock
unfolding heartbeat schedule
callback digits fuel c =
    let n = add32 c.tick 1 in tick_in n (heartbeat digits n c.terminal) (schedule fuel c.kernel)

-- `1193182 / frequency`.
abbrev pub divisor : ℕ → ℕ
divisor frequency = 1193182 / frequency

-- The bytes that `timer_init` sends, in their order, as pairs of a port and a byte.
unfoldable pub setup_bytes : ℕ → List (ℕ × ℕ)
setup_bytes frequency =
    (0x20, 0x11)
    ∷ (0xA0, 0x11)
    ∷ (0x21, 0x20)
    ∷ (0xA1, 0x28)
    ∷ (0x21, 0x04)
    ∷ (0xA1, 0x02)
    ∷ (0x21, 0x01)
    ∷ (0xA1, 0x01)
    ∷ (0x21, 0x00)
    ∷ (0xA1, 0x00)
    ∷ (0x43, 0x36)
    ∷ (0x40, u8 (bit_and (divisor frequency) 0xFF))
    ∷ (0x40, u8 (bit_and (divisor frequency >>> 8) 0xFF))
    ∷ []

-- `timer_init` but for the message it prints; a frequency of 0 is a division fault.
unfoldable pub init : ℕ → Idt → Option (List (ℕ × ℕ) × Idt)
unfolding setup_bytes idt_register_handler
init frequency s =
    if frequency == 0
    then none
    else some (setup_bytes frequency, idt_register_handler 32 timer_callback s)
