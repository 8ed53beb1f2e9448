-- ===== src/Idt/Gates.antt =====
-- The table that `idt_init` of src/idt.c leaves, as the processor reads it.
use my_own_operating_system.Base.{
  ℕ, zero, suc, ◌+◌, ◌-◌, ◌*◌, ◌/◌, ◌%◌, ◌^◌, ◌≤◌, ◌<◌, ◌≡◌, refl, ap, ◌∙◌, ◌≢◌, ◌⊎◌, inl, inr,
  Option, none, arith, ◌==◌, Bool-cases, eq_of_==, ne_of_==, ==-of_eq, ==-of_ne, ◌>>>◌,
}
use my_own_operating_system.Base.Bits.{bit_and-low}
use my_own_operating_system.Idt.{
  IdtEntry, Idt, Handler, idt_set_gate, zero_entry, set_gates, idt_init,
}

-- The address that a gate leads to.
abbrev pub gate_target : IdtEntry → ℕ
gate_target e = e.base_low + e.base_high * 2 ^ 16

-- Bits 5 and 6 of the flags: the least privileged ring that may call the gate.
abbrev pub gate_ring : IdtEntry → ℕ
gate_ring e = e.flags / 2 ^ 5 % 4

-- A present 32-bit interrupt gate into the kernel's code segment.
pub record IsGate (e : IdtEntry) (target ring : ℕ) : Type 0 where
  pub target_is : gate_target e ≡ target
  pub ring_is : gate_ring e ≡ ring
  pub present : e.flags / 2 ^ 7 % 2 ≡ 1
  pub kind : e.flags % 2 ^ 5 ≡ 0xE
  pub segment : e.selector ≡ 0x08

idt_set_gate-IsGate :
    (vector target flags : ℕ) (s : Idt)
    → target < 2 ^ 32
    → flags / 2 ^ 7 % 2 ≡ 1
    → flags % 2 ^ 5 ≡ 0xE
    → IsGate ((idt_set_gate vector target 0x08 flags s).idt vector) target (flags / 2 ^ 5 % 4)
unfolding idt_set_gate
idt_set_gate-IsGate vector target flags s h present kind =
    rw (==-of_eq vector vector refl, bit_and-low 16 target, bit_and-low 16 (target >>> 16))
      (record {
        target_is = omega arith;
        ring_is = refl;
        present = present;
        kind = kind;
        segment = refl;
      })

idt_set_gate_other :
    (vector target sel flags : ℕ) (s : Idt) (v : ℕ)
    → v ≢ vector
    → (idt_set_gate vector target sel flags s).idt v ≡ s.idt v
unfolding idt_set_gate
idt_set_gate_other vector target sel flags s v ne = rw (==-of_ne v vector ne)

module _ (stub : ℕ → ℕ) (first : ℕ) where
  set_gates_other :
      (i left : ℕ) (s : Idt) (v : ℕ)
      → (v < first + i) ⊎ (first + i + left ≤ v)
      → (set_gates stub first i left s).idt v ≡ s.idt v
  unfolding set_gates
  set_gates_other i zero s v h = refl
  set_gates_other i (suc left) s v h =
      set_gates_other (i + 1) left (idt_set_gate (first + i) (stub i) 0x08 0x8E s) v (ground arith)
      ∙ idt_set_gate_other (first + i) (stub i) 0x08 0x8E s v (ground arith)

  set_gates-IsGate :
      (i left : ℕ) (s : Idt) (j : ℕ)
      → ((n : ℕ) → stub n < 2 ^ 32)
      → i ≤ j
      → j < i + left
      → IsGate ((set_gates stub first i left s).idt (first + j)) (stub j) 0
  unfolding set_gates
  set_gates-IsGate i zero s j low p q = absurd (omega arith)
  set_gates-IsGate i (suc left) s j low p q = elim (Bool-cases (i == j)) [
    | inl here ↦
        let e : i ≡ j = eq_of_== i j here in
        rw
          (
            ← e,
            set_gates_other (i + 1) left (idt_set_gate (first + i) (stub i) 0x08 0x8E s) (first + i)
                (inl (omega arith)),
          )
          (idt_set_gate-IsGate (first + i) (stub i) 0x8E s (low i) refl refl)
    | inr there ↦
        set_gates-IsGate (i + 1) left (idt_set_gate (first + i) (stub i) 0x08 0x8E s) j low
          (omega (arith, ne_of_== i j there)) (omega arith)
  ]

  set_gates-handlers :
      (i left : ℕ) (s : Idt) → (set_gates stub first i left s).handlers ≡ s.handlers
  unfolding set_gates idt_set_gate
  set_gates-handlers i zero s = refl
  set_gates-handlers i (suc left) s =
      set_gates-handlers (i + 1) left (idt_set_gate (first + i) (stub i) 0x08 0x8E s)

-- What each of the 256 vectors leads to.
pub record IsComplete (isr irq : ℕ → ℕ) (isr128 : ℕ) (s : Idt) : Type 0 where
  pub exceptions : (v : ℕ) → v < 32 → IsGate (s.idt v) (isr v) 0
  pub hardware : (v : ℕ) → v < 16 → IsGate (s.idt (32 + v)) (irq v) 0
  pub system_call : IsGate (s.idt 128) isr128 3
  pub others : (v : ℕ) → 48 ≤ v → v ≢ 128 → s.idt v ≡ zero_entry
  pub unhandled : (v : ℕ) → s.handlers v ≡ none

-- When the stubs have 32-bit addresses, after `idt_init` vectors 0 to 31 lead to the exception
-- stubs and 32 to 47 to the interrupt stubs, callable from ring 0 only, vector 128 leads to its
-- stub and is callable from ring 3, all as present interrupt gates, every other entry is zero, and
-- no handler is registered.
pub idt_init-IsComplete :
    (idt_addr : ℕ) (isr irq : ℕ → ℕ) (isr128 : ℕ)
    → ((n : ℕ) → isr n < 2 ^ 32)
    → ((n : ℕ) → irq n < 2 ^ 32)
    → isr128 < 2 ^ 32
    → IsComplete isr irq isr128 (idt_init idt_addr isr irq isr128)
unfolding idt_init idt_set_gate
idt_init-IsComplete idt_addr isr irq isr128 hi hq h = record {
  exceptions = λ v lt.
      let z : 0 + v ≡ v = omega arith in
      rw
        (
          set_gates_other irq 32 0 16 called v (inl (omega arith)),
          idt_set_gate_other 128 isr128 0x08 0xEE faults v (λ e. absurd (omega arith)),
        )
        (rw z at (set_gates-IsGate isr 0 0 32 cleared v hi (omega arith) (omega arith)));
  hardware = λ v lt. set_gates-IsGate irq 32 0 16 called v hq (omega arith) lt;
  system_call =
      rw (set_gates_other irq 32 0 16 called 128 (inr (omega arith)))
        (idt_set_gate-IsGate 128 isr128 0xEE faults h refl refl);
  others = λ v lo ne.
      set_gates_other irq 32 0 16 called v (inr (omega arith))
      ∙ idt_set_gate_other 128 isr128 0x08 0xEE faults v ne
      ∙ set_gates_other isr 0 0 32 cleared v (inr (omega arith));
  unhandled = λ v.
      ap (λ (t : ℕ → Option Handler). t v)
        (set_gates-handlers irq 32 0 16 called ∙ set_gates-handlers isr 0 0 32 cleared);
}
  where
    cleared : Idt
    cleared = record {
      idt = λ _. zero_entry;
      handlers = λ _. none;
      idtp_limit = 256 * 8 - 1;
      idtp_base = idt_addr;
    }

    faults : Idt
    faults = set_gates isr 0 0 32 cleared

    called : Idt
    called = idt_set_gate 128 isr128 0x08 0xEE faults
