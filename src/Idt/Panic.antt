-- ===== src/Idt/Panic.antt =====
-- The numbers that `isr_dispatch` of src/idt.c shows before it halts.
use my_own_operating_system.Base.{ℕ, ◌-◌, ◌<◌, ◌≡◌, arith, ◌==◌, if◌then◌else◌}
use my_own_operating_system.Terminal.Numbers.{read_digits}
use my_own_operating_system.Idt.{panic_number}

-- The value of a decimal character; a blank stands for no digit.
abbrev pub decimal_value : ℕ → ℕ
decimal_value c = if c == 32 then 0 else c - 48

-- The three characters that the panic screen shows for a vector number below 256, blanks among
-- them, read back as that number.
pub panic_number-read : (n : ℕ) → n < 256 → read_digits decimal_value 10 0 (panic_number n) ≡ n
unfolding panic_number
panic_number-read n h = ground arith
