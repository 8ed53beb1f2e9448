-- ===== src/Syscall.antt =====
-- The system calls of src/syscall.c.
pub mod Laws
use my_own_operating_system.Base.{
  ℕ, zero, suc, ◌+◌, ◌-◌, ◌%◌, ◌^◌, Option, none, some, List, [], ◌∷◌, ◌==◌, if◌then◌else◌, u8,
}
use my_own_operating_system.Base.Memory.{Memory, read_u8}
use my_own_operating_system.Terminal.{Terminal, putchar, writestring}
use my_own_operating_system.Task.{Kernel, task_exit}
use my_own_operating_system.Idt.{Registers, Idt, syscall_dispatch, idt_register_handler}

-- What a system call works on: the caller's registers, the terminal and the tasks.
pub record Caller : Type 0 where
  pub regs : Registers
  pub terminal : Terminal
  pub kernel : Kernel

-- The loop of `sys_write`, at byte `i` of the buffer.
unfoldable pub write_loop : Memory → ℕ → ℕ → ℕ → Terminal → Terminal
unfolding putchar read_u8
write_loop m buf i zero t = t
write_loop m buf i (suc left) t = write_loop m buf (i + 1) left (putchar (read_u8 m (buf + i)) t)

unfoldable pub sys_write : Memory → Caller → Caller
unfolding write_loop
sys_write m c = record c {
  terminal = write_loop m c.regs.ecx 0 c.regs.edx c.terminal;
  regs = record (c.regs) { eax = c.regs.edx };
}

-- "\n[Kernel] Process exited with status "
abbrev pub exit_text : List ℕ
exit_text =
    10 ∷ 91 ∷ 75 ∷ 101 ∷ 114 ∷ 110 ∷ 101 ∷ 108 ∷ 93 ∷ 32 ∷ 80 ∷ 114 ∷ 111 ∷ 99 ∷ 101 ∷ 115 ∷ 115
    ∷ 32 ∷ 101 ∷ 120 ∷ 105 ∷ 116 ∷ 101 ∷ 100 ∷ 32 ∷ 119 ∷ 105 ∷ 116 ∷ 104 ∷ 32 ∷ 115 ∷ 116 ∷ 97
    ∷ 116 ∷ 117 ∷ 115 ∷ 32 ∷ []

-- The message of `sys_exit`, with the last decimal digit of the status.
unfoldable pub exit_message : ℕ → Terminal → Terminal
unfolding writestring putchar
exit_message status t =
    writestring (46 ∷ 10 ∷ []) (putchar (u8 (48 + status % 10)) (writestring exit_text t))

abbrev pub exit_in : Registers → Terminal → Option Kernel → Option Caller
exit_in regs t none = none
exit_in regs t (some k) = some (record { regs = regs; terminal = t; kernel = k })

unfoldable pub sys_exit : ℕ → Caller → Option Caller
unfolding exit_message task_exit
sys_exit fuel c = exit_in c.regs (exit_message c.regs.ebx c.terminal) (task_exit fuel c.kernel)

-- "[Kernel] Warning: unknown syscall\n"
abbrev pub unknown_text : List ℕ
unknown_text =
    91 ∷ 75 ∷ 101 ∷ 114 ∷ 110 ∷ 101 ∷ 108 ∷ 93 ∷ 32 ∷ 87 ∷ 97 ∷ 114 ∷ 110 ∷ 105 ∷ 110 ∷ 103 ∷ 58
    ∷ 32 ∷ 117 ∷ 110 ∷ 107 ∷ 110 ∷ 111 ∷ 119 ∷ 110 ∷ 32 ∷ 115 ∷ 121 ∷ 115 ∷ 99 ∷ 97 ∷ 108 ∷ 108 ∷ 10
    ∷ []

unfoldable pub unknown : Caller → Caller
unfolding writestring
unknown c = record c {
  terminal = writestring unknown_text c.terminal;
  regs = record (c.regs) { eax = 2 ^ 32 - 1 };
}

-- `syscall_dispatch`; `none` means that the search for the next task ran out of fuel.
unfoldable pub dispatch : Memory → ℕ → Caller → Option Caller
unfolding sys_write sys_exit unknown
dispatch m fuel c =
    if c.regs.eax == 0
    then some (sys_write m c)
    else if c.regs.eax == 1
    then sys_exit fuel c
    else some (unknown c)

unfoldable pub init : Idt → Idt
unfolding idt_register_handler
init s = idt_register_handler 128 syscall_dispatch s
