-- ===== src/Task/Create/Stack.antt =====
-- The stack that `task_create` of src/task.c builds, and the first switch to the new task.
use my_own_operating_system.Base.{ℕ, ◌+◌, ◌^◌, ◌≤◌, ◌<◌, ◌≡◌, ◌⊎◌, arith, add32}
use my_own_operating_system.Pmm.{block_size}
use my_own_operating_system.Task.Create.{Symbols, build_stack}

-- The words that `switch_task` pops from a saved stack, and the call frame that is left.
pub record FirstFrame (ram : ℕ → ℕ) (esp edi esi ebx ebp eip return argument : ℕ) : Type 0 where
  pub edi_word : ram esp ≡ edi
  pub esi_word : ram (esp + 4) ≡ esi
  pub ebx_word : ram (esp + 8) ≡ ebx
  pub ebp_word : ram (esp + 12) ≡ ebp
  pub eip_word : ram (esp + 16) ≡ eip
  pub return_word : ram (esp + 20) ≡ return
  pub argument_word : ram (esp + 24) ≡ argument

module _ (sym' : Symbols) (stack entry : ℕ) (ram : ℕ → ℕ) (fits : stack + block_size < 2 ^ 32) where
  -- For a stack frame that ends below 4 GB, the words from 28 bytes below its top up are the zeros
  -- that `switch_task` pops into the registers, the address of `task_kernel_bootstrap` to return
  -- to, and that function's own return address, `task_exit`, and argument.
  pub build_stack-FirstFrame :
      FirstFrame
        (build_stack sym' entry (add32 stack block_size) ram)
        (stack + 4068)
        0
        0
        0
        0
        sym'.kernel_bootstrap
        sym'.exit
        entry
  unfolding build_stack
  build_stack-FirstFrame = record {
    edi_word = ground arith;
    esi_word = ground arith;
    ebx_word = ground arith;
    ebp_word = ground arith;
    eip_word = ground arith;
    return_word = ground arith;
    argument_word = ground arith;
  }

  -- The seven writes stay inside the stack's frame.
  pub build_stack-outside :
      (a : ℕ)
      → (a < stack) ⊎ (stack + block_size ≤ a)
      → build_stack sym' entry (add32 stack block_size) ram a ≡ ram a
  unfolding build_stack
  build_stack-outside a h = ground arith
