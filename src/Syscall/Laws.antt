-- ===== src/Syscall/Laws.antt =====
-- What a caller of src/syscall.c gets back.
use my_own_operating_system.Base.{ℕ, zero, suc, ◌+◌, ◌≤◌, ◌≡◌, refl, List, [], ◌∷◌}
use my_own_operating_system.Base.Memory.{Memory, read_u8}
use my_own_operating_system.Terminal.{Terminal, putchar, writestring}
use my_own_operating_system.Task.Round.{Exited}
use my_own_operating_system.Syscall.{Caller, write_loop, exit_message, unknown_text}

-- The bytes of a buffer.
abbrev pub bytes : Memory → ℕ → ℕ → ℕ → List ℕ
bytes m buf i zero = []
bytes m buf i (suc left) = read_u8 m (buf + i) ∷ bytes m buf (i + 1) left

pub write_loop_lem :
    (m : Memory) (buf i left : ℕ) (t : Terminal)
    → write_loop m buf i left t ≡ writestring (bytes m buf i left) t
unfolding write_loop writestring
write_loop_lem m buf i zero t = refl
write_loop_lem m buf i (suc left) t =
    write_loop_lem m buf (i + 1) left (putchar (read_u8 m (buf + i)) t)

-- What a system call does to the caller: by its number, it writes, ends the task, or fails.
pub data Served (m : Memory) (c : Caller) (others : List ℕ) (cur : ℕ) : Caller → Type 0 where
  wrote :
      (c' : Caller)
      → c.regs.eax ≡ 0
      → c'.terminal ≡ writestring (bytes m c.regs.ecx 0 c.regs.edx) c.terminal
      → c'.regs ≡ record (c.regs) { eax = c.regs.edx }
      → c'.kernel ≡ c.kernel
      → Served m c others cur c'
  ended :
      (c' : Caller)
      → c.regs.eax ≡ 1
      → c'.terminal ≡ exit_message c.regs.ebx c.terminal
      → Exited others cur c.kernel c'.kernel
      → Served m c others cur c'
  failed :
      (c' : Caller)
      → 2 ≤ c.regs.eax
      → c'.terminal ≡ writestring unknown_text c.terminal
      → c'.regs ≡ record (c.regs) { eax = 0xFFFF_FFFF }
      → c'.kernel ≡ c.kernel
      → Served m c others cur c'
