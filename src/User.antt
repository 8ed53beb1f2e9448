-- ===== src/User.antt =====
-- The demonstration program of src/user_mode.c, which runs in ring 3.
pub mod Program
use my_own_operating_system.Base.{
  ℕ, zero, suc, ◌+◌, ◌%◌, bit_and, Option, none, some, ◌==◌, if◌then◌else◌, update, add32,
}
use my_own_operating_system.Base.Memory.{Memory, read_u8}
use my_own_operating_system.Pmm.{block_size}
use my_own_operating_system.Vmm.{Vmm, flag_user, table_of}
use my_own_operating_system.Vmm.Walk.{lookup}
use my_own_operating_system.Vmm.Fault.{Fault, resumed, out_of_memory, panicked, page_fault}
use my_own_operating_system.Task.{Kernel}
use my_own_operating_system.Task.Bootstrap.{UserEntry, get_current_task}
use my_own_operating_system.Idt.{Registers}
use my_own_operating_system.Syscall.{Caller, dispatch}

-- The loop of `user_strlen`; `none` means that the fuel ran out.
unfoldable pub strlen_from : ℕ → Memory → ℕ → ℕ → Option ℕ
strlen_from zero m s n = none
strlen_from (suc fuel) m s n =
    let rest = strlen_from fuel m s (add32 n 1) in if read_u8 m (s + n) == 0 then some n else rest

unfoldable pub user_strlen : ℕ → Memory → ℕ → Option ℕ
unfolding strlen_from
user_strlen fuel m s = strlen_from fuel m s 0

-- The registers of `syscall_write` and `syscall_exit` at the interrupt.
abbrev pub write_registers : ℕ → ℕ → Registers → Registers
write_registers str len regs = record regs { eax = 0; ebx = 1; ecx = str; edx = len; int_no = 128 }

abbrev pub exit_registers : ℕ → Registers → Registers
exit_registers status regs = record regs { eax = 1; ebx = status; int_no = 128 }

unfoldable pub syscall_write : ℕ → Memory → ℕ → ℕ → Caller → Option Caller
unfolding dispatch
syscall_write fuel m str len c =
    dispatch m fuel (record c { regs = write_registers str len c.regs })

unfoldable pub syscall_exit : ℕ → Memory → ℕ → Caller → Option Caller
unfolding dispatch
syscall_exit fuel m status c = dispatch m fuel (record c { regs = exit_registers status c.regs })

-- A message is measured and written.
abbrev pub write_counted : ℕ → Memory → ℕ → Option ℕ → Caller → Option Caller
write_counted fuel m str none c = none
write_counted fuel m str (some len) c = syscall_write fuel m str len c

unfoldable pub print : ℕ → Memory → ℕ → Caller → Option Caller
unfolding syscall_write user_strlen
print fuel m str c = write_counted fuel m str (user_strlen fuel m str) c

-- How the program leaves ring 3 for good: in a page fault that does not return to it, or through
-- `sys_exit`. `unfinished` is a loop or a call that ran out of fuel.
pub data UserEnd : Type 0 where
  faulted : Caller → Fault → UserEnd
  exited : Caller → UserEnd
  unfinished : UserEnd

abbrev pub exit_end : Option Caller → UserEnd
exit_end none = unfinished
exit_end (some c) = exited c

-- The write to 0xD0000000 from ring 3: the processor asks for the user flag as well.
abbrev pub write_through : ℕ → Memory → Caller → Vmm → ℕ → UserEnd
write_through fuel m c v a = exit_end (
    syscall_exit fuel m 0 (record c {
      kernel = record (c.kernel) { vmm = record v { ram = update v.ram a 0xBAD_1DEA } };
    }))

abbrev pub retried : ℕ → Memory → Caller → Vmm → Option ℕ → UserEnd
retried fuel m c v none = unfinished
retried fuel m c v (some pte) = write_through fuel m c v (table_of pte + 0xD000_0000 % block_size)

abbrev pub after_user_fault : ℕ → Memory → Caller → Fault → UserEnd
after_user_fault fuel m c (resumed v) = retried fuel m c v (lookup v 0xD000_0000)
after_user_fault fuel m c out_of_memory = faulted c out_of_memory
after_user_fault fuel m c (panicked r) = faulted c (panicked r)

abbrev pub write_protected : ℕ → Memory → Caller → Option ℕ → UserEnd
write_protected fuel m c none = after_user_fault fuel m c (page_fault 6 0xD000_0000 c.kernel.vmm)
write_protected fuel m c (some pte) =
    if bit_and pte flag_user == 0
    then after_user_fault fuel m c (page_fault 7 0xD000_0000 c.kernel.vmm)
    else write_through fuel m c c.kernel.vmm (table_of pte + 0xD000_0000 % block_size)

abbrev pub then_print : ℕ → Memory → ℕ → Option Caller → Option Caller
then_print fuel m str none = none
then_print fuel m str (some c) = print fuel m str c

abbrev pub then_write : ℕ → Memory → Option Caller → UserEnd
then_write fuel m none = unfinished
then_write fuel m (some c) = write_protected fuel m c (lookup c.kernel.vmm 0xD000_0000)

-- `user_program`, with the addresses of its three messages.
unfoldable pub user_program : ℕ → Memory → ℕ → ℕ → ℕ → Caller → UserEnd
unfolding print syscall_exit
user_program fuel m msg1 msg2 msg3 c =
    then_write fuel m (then_print fuel m msg3 (then_print fuel m msg2 (print fuel m msg1 c)))

-- `run_user_demo`, with the addresses that the linker gives to the two stacks and to the program.
abbrev pub kstack_top : ℕ → Kernel → Option ℕ → ℕ
kstack_top kernel_stack k none = add32 kernel_stack 4096
kstack_top kernel_stack k (some cur) = (k.table cur).kstack

unfoldable pub run_user_demo : ℕ → ℕ → ℕ → Kernel → UserEntry
run_user_demo kernel_stack user_stack program k = record {
  eip = program;
  esp = add32 user_stack 4096;
  kernel = record k { esp0 = kstack_top kernel_stack k (get_current_task k) };
}
