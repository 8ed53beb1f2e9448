-- ===== src/Idt.antt =====
-- Interrupt gates and the two dispatchers, src/idt.c and src/idt.h.
pub mod Gates
pub mod Panic
use my_own_operating_system.Terminal.{hex_text}
use my_own_operating_system.Base.{
  ℕ, zero, suc, ◌+◌, ◌-◌, ◌*◌, ◌/◌, ◌%◌, bit_and, Option, none, some, List, [], ◌∷◌, leb,
  if◌then◌else◌, update, ◌>>>◌,
}

-- `struct idt_entry`; `reserved` is its field `zero`.
pub record IdtEntry : Type 0 where
  pub base_low : ℕ
  pub selector : ℕ
  pub reserved : ℕ
  pub flags : ℕ
  pub base_high : ℕ

-- `struct registers`.
pub record Registers : Type 0 where
  pub ds : ℕ
  pub edi : ℕ
  pub esi : ℕ
  pub ebp : ℕ
  pub esp : ℕ
  pub ebx : ℕ
  pub edx : ℕ
  pub ecx : ℕ
  pub eax : ℕ
  pub int_no : ℕ
  pub err_code : ℕ
  pub eip : ℕ
  pub cs : ℕ
  pub eflags : ℕ
  pub useresp : ℕ
  pub ss : ℕ

-- The functions that the kernel registers.
pub data Handler : Type 0 where
  page_fault_handler syscall_dispatch timer_callback : Handler

-- The statics of src/idt.c.
pub record Idt : Type 0 where
  pub idt : ℕ → IdtEntry
  pub handlers : ℕ → Option Handler
  pub idtp_limit : ℕ
  pub idtp_base : ℕ

unfoldable pub idt_set_gate : ℕ → ℕ → ℕ → ℕ → Idt → Idt
idt_set_gate vector handler sel flags s = record s {
  idt = update s.idt vector (record {
    base_low = bit_and handler 0xFFFF;
    base_high = bit_and (handler >>> 16) 0xFFFF;
    selector = sel;
    reserved = 0;
    flags = flags;
  });
}

abbrev pub zero_entry : IdtEntry
zero_entry = record { base_low = 0; selector = 0; reserved = 0; flags = 0; base_high = 0 }

-- `left` of the calls in a row that set vector `first + i` to the stub `stub i`, from `i` on.
unfoldable pub set_gates : (ℕ → ℕ) → ℕ → ℕ → ℕ → Idt → Idt
unfolding idt_set_gate
set_gates stub first i zero s = s
set_gates stub first i (suc left) s =
    set_gates stub first (i + 1) left (idt_set_gate (first + i) (stub i) 0x08 0x8E s)

-- `idt_init` up to the flush; the arguments are the addresses of `idt`, of the stubs `isr0` to
-- `isr31` and `irq0` to `irq15`, and of `isr128`.
unfoldable pub idt_init : ℕ → (ℕ → ℕ) → (ℕ → ℕ) → ℕ → Idt
unfolding idt_set_gate set_gates
idt_init idt_addr isr irq isr128 =
    let cleared : Idt = record {
      idt = λ _. zero_entry;
      handlers = λ _. none;
      idtp_limit = 256 * 8 - 1;
      idtp_base = idt_addr;
    } in
    set_gates irq 32 0 16 (idt_set_gate 128 isr128 0x08 0xEE (set_gates isr 0 0 32 cleared))

unfoldable pub idt_register_handler : ℕ → Handler → Idt → Idt
idt_register_handler vector handler s = record s {
  handlers = update s.handlers vector (some handler);
}

-- The three characters of the vector number on the panic screen.
unfoldable pub panic_number : ℕ → List ℕ
panic_number n =
    (if leb 100 n then 48 + n / 100 else 32)
    ∷ (if leb 10 n then 48 + n % 100 / 10 else 32)
    ∷ (48 + n % 10)
    ∷ []

-- What an exception comes to: a handler is called, or the kernel halts with two numbers shown.
pub data Dispatched : Type 0 where
  called : Handler → Dispatched
  panicked : List ℕ → List ℕ → Dispatched

abbrev pub dispatch_to : Registers → Option Handler → Dispatched
dispatch_to regs (some h) = called h
dispatch_to regs none = panicked (panic_number regs.int_no) (hex_text regs.err_code)

unfoldable pub isr_dispatch : Registers → Idt → Dispatched
unfolding panic_number hex_text
isr_dispatch regs s = dispatch_to regs (s.handlers regs.int_no)

-- The bytes that `outb` sends, in their order, and the handler that is called.
unfoldable pub irq_dispatch : Registers → Idt → List (ℕ × ℕ) × Option Handler
irq_dispatch regs s = (
  (if leb 40 regs.int_no then (0xA0, 0x20) ∷ (0x20, 0x20) ∷ [] else (0x20, 0x20) ∷ []),
  s.handlers regs.int_no,
)
