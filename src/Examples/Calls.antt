-- ===== src/Examples/Calls.antt =====
-- A system call of src/syscall.c and a tick of src/timer.c, in the middle of three tasks.
use my_own_operating_system.Base.{◌≡◌, refl, some, [], ◌∷◌, arith, ◌+◌, ◌*◌, ◌==◌, if◌then◌else◌}
use my_own_operating_system.Idt.{Registers}
use my_own_operating_system.Syscall.{Caller}
use my_own_operating_system.Timer.{Clock, callback}
use my_own_operating_system.Timer.Tick.{Ticked, callback-Ticked}
use my_own_operating_system.Base.Memory.{Memory, read_u8}
use my_own_operating_system.Pmm.{block_size}
use my_own_operating_system.Vmm.Walk.{lookup}
use my_own_operating_system.Vmm.Fault.{report, panicked}
use my_own_operating_system.Task.{Kernel}
use my_own_operating_system.User.{faulted, user_program}
use my_own_operating_system.User.Program.{IsMessage, printed, user_program-Faulted}
use my_own_operating_system.Examples.Pages.{one_table}
use my_own_operating_system.Examples.Tables.{full_screen}
use my_own_operating_system.Examples.Tasks.{
  three_kernel, three_kernel-IsQueue, three_kernel-IsExclusive,
}

-- Three bytes at 0x400000 are to be written.
abbrev writing : Registers
writing = record {
  ds = 0x23;
  edi = 0;
  esi = 0;
  ebp = 0;
  esp = 0;
  ebx = 1;
  edx = 3;
  ecx = 0x40_0000;
  eax = 0;
  int_no = 128;
  err_code = 0;
  eip = 0x40_1000;
  cs = 0x1B;
  eflags = 0x202;
  useresp = 0xBFFF_1000;
  ss = 0x23;
}

abbrev caller : Caller
caller = record { regs = writing; terminal = full_screen; kernel = three_kernel }

abbrev clock : Clock
clock = record { tick = 99; terminal = full_screen; kernel = three_kernel }

callback-Ticked_example :
    (c' : Clock) × (callback 11 3 clock ≡ some c') × Ticked (0 ∷ []) 1 (2 ∷ []) clock c'
callback-Ticked_example =
    callback-Ticked 3 clock (0 ∷ []) 1 (2 ∷ []) three_kernel-IsQueue three_kernel-IsExclusive
      (omega arith)

-- "Hi" stands at 0x400000, and the page at 0xD0000000 is the supervisor's.
abbrev text_memory : Memory
text_memory a = if a == 0x40_0000 then 72 else if a == 0x40_0001 then 105 else 0

abbrev guarded : Kernel
guarded = record three_kernel {
  vmm = record one_table {
    ram = λ a. if a == 0x1D00 then 0x3007 else if a == 0x3000 then 0x5003 else 0;
  };
}

guarded-lookup : lookup guarded.vmm 0xD000_0000 ≡ some (5 * block_size + 3)
unfolding lookup
guarded-lookup = refl

abbrev program : Caller
program = record caller { kernel = guarded }

hi-IsMessage : IsMessage 3 text_memory 0x40_0000 (72 ∷ 105 ∷ [])
unfolding read_u8
hi-IsMessage = (
  (refl, ((λ z. absurd (omega (arith, z))), (refl, ((λ z. absurd (omega (arith, z))), refl)))),
  (omega arith, omega arith),
)

empty-IsMessage : IsMessage 3 text_memory 0x50_0000 []
unfolding read_u8
empty-IsMessage = (refl, (omega arith, omega arith))

user_program-Faulted_example :
    user_program 3 text_memory 0x40_0000 0x50_0000 0x50_0000 program
    ≡ faulted
        (printed 0x50_0000 [] (printed 0x50_0000 [] (printed 0x40_0000 (72 ∷ 105 ∷ []) program)))
        (panicked (report 7))
user_program-Faulted_example =
    user_program-Faulted 3 text_memory 0x40_0000 0x50_0000 0x50_0000 (72 ∷ 105 ∷ []) [] [] program 5
      hi-IsMessage empty-IsMessage empty-IsMessage guarded-lookup
