-- ===== src/Examples/Tables.antt =====
-- The tables of src/gdt.c and src/idt.c, and the terminal of src/kernel.c, at concrete values.
use my_own_operating_system.Base.{ℕ, ◌+◌, ◌*◌, ◌%◌, ◌≤◌, ◌≡◌, some, List, arith, length}
use my_own_operating_system.Gdt.{Gdt, gdt_init, zero_tss}
use my_own_operating_system.Gdt.Decode.{IsLoaded, gdt_init-IsLoaded}
use my_own_operating_system.Idt.{idt_init}
use my_own_operating_system.Idt.Gates.{IsComplete, idt_init-IsComplete}
use my_own_operating_system.Terminal.{Terminal, putchar, dec_text}
use my_own_operating_system.Terminal.Scroll.{IsOnScreen, Put, putchar-Put}
use my_own_operating_system.Terminal.Numbers.{read_digits, digit_value, dec_text-read}

abbrev no_segments : Gdt
no_segments = record {
  gdt = λ _. record {
    limit_low = 0;
    base_low = 0;
    base_mid = 0;
    access = 0;
    granularity = 0;
    base_high = 0;
  };
  gdtp_limit = 0;
  gdtp_base = 0;
  tss = zero_tss;
}

gdt_init-IsLoaded_example :
    IsLoaded 0x10_5000 0x10_5040
      (0x10_6000 + 4096)
      (gdt_init 0x10_5000 0x10_5040 0x10_6000 no_segments)
gdt_init-IsLoaded_example =
    gdt_init-IsLoaded 0x10_5000 0x10_5040 0x10_6000 no_segments (omega arith) (omega arith)

abbrev stubs : ℕ → ℕ → ℕ
stubs base n = base + n % 32 * 16

idt_init-IsComplete_example :
    IsComplete
      (stubs 0x10_1000)
      (stubs 0x10_2000)
      0x10_3000
      (idt_init 0x10_8000 (stubs 0x10_1000) (stubs 0x10_2000) 0x10_3000)
idt_init-IsComplete_example =
    idt_init-IsComplete 0x10_8000 (stubs 0x10_1000) (stubs 0x10_2000) 0x10_3000 (λ n. omega arith)
      (λ n. omega arith) (omega arith)

dec_text-read_example :
    (ds : List ℕ) × (dec_text 11 1_193_182 ≡ some ds)
    × (read_digits digit_value 10 0 ds ≡ 1_193_182)
    × (length ds ≤ 10)
dec_text-read_example = dec_text-read 1_193_182 (omega arith)

-- The last cell of the screen.
abbrev pub full_screen : Terminal
full_screen = record { row = 24; column = 79; color = 7; buffer = λ i. 0x720 }

pub full_screen-IsOnScreen : IsOnScreen full_screen
full_screen-IsOnScreen = record { row_fits = omega arith; column_fits = omega arith }

putchar-Put_example : Put 65 full_screen (putchar 65 full_screen)
putchar-Put_example = putchar-Put 65 full_screen full_screen-IsOnScreen
