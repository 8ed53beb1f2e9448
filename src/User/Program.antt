-- ===== src/User/Program.antt =====
-- What the program of src/user_mode.c prints, and how it ends.
use mathlib.Core.Path.{subst}
use my_own_operating_system.Base.{
  ℕ, zero, suc, ◌+◌, ◌*◌, ◌^◌, ◌<◌, bit_and, ◌≡◌, refl, sym, ap, ap₂, ◌∙◌, ◌≢◌, some, List, [], ◌∷◌,
  arith, ==-of_eq, ==-of_ne, length, add32,
}
use my_own_operating_system.Base.Memory.{Memory, read_u8}
use my_own_operating_system.Base.Bits.{bit_and-pow}
use my_own_operating_system.Terminal.{writestring}
use my_own_operating_system.Pmm.{block_size}
use my_own_operating_system.Vmm.Walk.{lookup}
use my_own_operating_system.Vmm.Fault.{panicked, report, page_fault, is_demand}
use my_own_operating_system.Syscall.{Caller, dispatch, sys_write}
use my_own_operating_system.Syscall.Laws.{bytes, write_loop_lem}
use my_own_operating_system.User.{
  strlen_from, user_strlen, write_registers, syscall_write, write_counted, print, faulted,
  write_protected, then_print, then_write, user_program,
}

-- The characters `cs` stand at `a`, with a zero behind them.
abbrev pub IsString : Memory → ℕ → List ℕ → Type 0
IsString m a [] = read_u8 m a ≡ 0
IsString m a (c ∷ cs) = (read_u8 m a ≡ c) × ((c ≢ 0) × IsString m (a + 1) cs)

module _ (m : Memory) (s : ℕ) where
  strlen_from_lem :
      (fuel n : ℕ) (cs : List ℕ)
      → IsString m (s + n) cs
      → length cs < fuel
      → n + length cs < 2 ^ 32
      → strlen_from fuel m s n ≡ some (n + length cs)
  unfolding strlen_from
  strlen_from_lem zero n cs z enough small = absurd (omega (arith, enough))
  strlen_from_lem (suc fuel) n [] z enough small =
      rw (==-of_eq (read_u8 m (s + n)) 0 z) (ap some (omega arith))
  strlen_from_lem (suc fuel) n (c ∷ cs) (here, (ne, rest)) enough small =
      let e : add32 n 1 ≡ n + 1 = omega (arith, small) in
      let next : s + n + 1 ≡ s + (n + 1) = omega arith in
      rw (==-of_ne (read_u8 m (s + n)) 0 (λ z. ne (sym here ∙ z)), e)
        (strlen_from_lem fuel (n + 1) cs (subst (λ a. IsString m a cs) next rest)
            (omega (arith, enough)) (omega (arith, small))
          ∙ ap some (omega arith))

  bytes_lem : (n : ℕ) (cs : List ℕ) → IsString m (s + n) cs → bytes m s n (length cs) ≡ cs
  bytes_lem n [] z = refl
  bytes_lem n (c ∷ cs) (here, (ne, rest)) =
      let next : s + n + 1 ≡ s + (n + 1) = omega arith in
      ap₂ (λ a as'. a ∷ as') here (bytes_lem (n + 1) cs (subst (λ a. IsString m a cs) next rest))

-- The caller behind a message that was printed.
abbrev pub printed : ℕ → List ℕ → Caller → Caller
printed str cs c = record c {
  terminal = writestring cs c.terminal;
  regs = record (write_registers str (length cs) c.regs) { eax = length cs };
}

module _ (fuel : ℕ) (m : Memory) where
  -- A message that ends within memory and within the fuel.
  abbrev pub IsMessage : ℕ → List ℕ → Type 0
  IsMessage str cs = IsString m str cs × ((length cs < fuel) × (length cs < 2 ^ 32))

  print_lem :
      (str : ℕ) (cs : List ℕ) (c : Caller)
      → IsMessage str cs
      → print fuel m str c ≡ some (printed str cs c)
  unfolding print user_strlen syscall_write dispatch sys_write
  print_lem str cs c (text, (enough, small)) =
      let at : str + 0 ≡ str = omega arith in
      let text' : IsString m (str + 0) cs = subst (λ a. IsString m a cs) (sym at) text in
      ap (λ n. write_counted fuel m str n c)
        (strlen_from_lem m str fuel 0 cs text' enough (omega (arith, small))
          ∙ ap some (omega arith))
      ∙ ap
          (λ t. some (record c {
            terminal = t;
            regs = record (write_registers str (length cs) c.regs) { eax = length cs };
          }))
          (write_loop_lem m str 0 (length cs) c.terminal
            ∙ ap (λ bs. writestring bs c.terminal) (bytes_lem m str 0 cs text'))

  -- The page is the supervisor's, so that the write from ring 3 is a protection fault.
  write_protected_lem :
      (f : ℕ) (c : Caller)
      → write_protected fuel m c (some (f * block_size + 3)) ≡ faulted c (panicked (report 7))
  unfolding page_fault is_demand
  write_protected_lem f c =
      rw
        (==-of_eq (bit_and (f * block_size + 3) 4) 0
          (omega (arith, bit_and-pow 2 (f * block_size + 3))))
        refl

  -- When three strings shorter than the fuel and than 2^32 stand at the addresses of the messages,
  -- and the page at 0xD0000000 is present without the user flag, `user_program` prints the three
  -- in order, leaves the tasks and memory as they were, and ends in the panic that reports a write
  -- to a present page from user mode.
  pub user_program-Faulted :
      (msg1 msg2 msg3 : ℕ) (text1 text2 text3 : List ℕ) (c : Caller) (f : ℕ)
      → IsMessage msg1 text1
      → IsMessage msg2 text2
      → IsMessage msg3 text3
      → lookup c.kernel.vmm 0xD000_0000 ≡ some (f * block_size + 3)
      → user_program fuel m msg1 msg2 msg3 c
        ≡ faulted
            (printed msg3 text3 (printed msg2 text2 (printed msg1 text1 c)))
            (panicked (report 7))
  unfolding user_program
  user_program-Faulted msg1 msg2 msg3 text1 text2 text3 c f t1 t2 t3 guarded =
      let c1 = printed msg1 text1 c in
      let c2 = printed msg2 text2 c1 in
      let c3 = printed msg3 text3 c2 in
      ap (λ r. then_write fuel m (then_print fuel m msg3 (then_print fuel m msg2 r)))
        (print_lem msg1 text1 c t1)
      ∙ ap (λ r. then_write fuel m (then_print fuel m msg3 r)) (print_lem msg2 text2 c1 t2)
      ∙ ap (then_write fuel m) (print_lem msg3 text3 c2 t3)
      ∙ ap (write_protected fuel m c3) guarded
      ∙ write_protected_lem f c3
