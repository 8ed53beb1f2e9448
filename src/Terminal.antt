-- ===== src/Terminal.antt =====
-- The VGA text terminal of src/kernel.c.
pub mod Cells
pub mod Scroll
pub mod Numbers
use my_own_operating_system.Base.{
  ℕ, zero, suc, ◌+◌, ◌-◌, ◌*◌, ◌/◌, ◌%◌, bit_and, bit_or, Option, none, some, List, [], ◌∷◌, ltb,
  leb, ◌==◌, if◌then◌else◌, update, u8, u16, add32, ◌<<<◌, ◌>>>◌,
}

abbrev pub vga_width : ℕ
vga_width = 80

abbrev pub vga_height : ℕ
vga_height = 25

-- The variables `terminal_row`, `terminal_column` and `terminal_color`, and the cells of the buffer.
pub record Terminal : Type 0 where
  pub row : ℕ
  pub column : ℕ
  pub color : ℕ
  pub buffer : ℕ → ℕ

abbrev pub vga_entry_color : ℕ → ℕ → ℕ
vga_entry_color fg bg = u8 (bit_or fg (bg <<< 4))

abbrev pub vga_entry : ℕ → ℕ → ℕ
vga_entry uc color = bit_or (u8 uc) (u16 (color <<< 8))

-- A cell that shows nothing.
abbrev pub blank : ℕ → ℕ
blank color = vga_entry 32 color

-- The inner loop of a copy of row `y` to the row above, from column `x` on.
unfoldable pub copy_cells : ℕ → ℕ → ℕ → (ℕ → ℕ) → ℕ → ℕ
copy_cells y x zero b = b
copy_cells y x (suc left) b =
    copy_cells y (x + 1) left (update b ((y - 1) * vga_width + x) (b (y * vga_width + x)))

-- The loop over the rows, from row `y` on.
unfoldable pub copy_rows : ℕ → ℕ → (ℕ → ℕ) → ℕ → ℕ
unfolding copy_cells
copy_rows y zero b = b
copy_rows y (suc left) b = copy_rows (y + 1) left (copy_cells y 0 vga_width b)

-- The loop that blanks row `y`, from column `x` on.
unfoldable pub clear_cells : ℕ → ℕ → ℕ → ℕ → (ℕ → ℕ) → ℕ → ℕ
clear_cells color y x zero b = b
clear_cells color y x (suc left) b =
    clear_cells color y (x + 1) left (update b (y * vga_width + x) (blank color))

-- The loop of `terminal_initialize` over the rows, from row `y` on.
unfoldable pub clear_rows : ℕ → ℕ → ℕ → (ℕ → ℕ) → ℕ → ℕ
unfolding clear_cells
clear_rows color y zero b = b
clear_rows color y (suc left) b = clear_rows color (y + 1) left (clear_cells color y 0 vga_width b)

-- `terminal_initialize`, on the cells `b` that the display shows before.
unfoldable pub initialize : (ℕ → ℕ) → Terminal
initialize b =
    let color = vga_entry_color 7 0 in
    record { row = 0; column = 0; color = color; buffer = clear_rows color 0 vga_height b }

unfoldable pub setcolor : ℕ → Terminal → Terminal
setcolor color t = record t { color = color }

unfoldable pub putentryat : ℕ → ℕ → ℕ → ℕ → Terminal → Terminal
putentryat c color x y t = record t {
  buffer = update t.buffer (y * vga_width + x) (vga_entry c color);
}

-- The first half of `terminal_putchar`: a line feed, or a character and the next cell.
unfoldable pub advance : ℕ → Terminal → Terminal
unfolding putentryat
advance c t =
    if c == 10
    then record t { column = 0; row = add32 t.row 1 }
    else let put = putentryat c t.color t.column t.row t in
      if add32 t.column 1 == vga_width
      then record put { column = 0; row = add32 t.row 1 }
      else record put { column = add32 t.column 1 }

-- The second half: every row moves up when the cursor has left the screen.
unfoldable pub scroll : Terminal → Terminal
scroll t =
    if leb vga_height t.row
    then record t {
      buffer =
          clear_cells t.color (vga_height - 1) 0 vga_width (copy_rows 1 (vga_height - 1) t.buffer);
      row = vga_height - 1;
    }
    else t

unfoldable pub putchar : ℕ → Terminal → Terminal
unfolding advance scroll
putchar c t = scroll (advance c t)

-- `terminal_writestring`, of the characters before the final zero.
unfoldable pub writestring : List ℕ → Terminal → Terminal
unfolding putchar
writestring [] t = t
writestring (c ∷ cs) t = writestring cs (putchar c t)

-- The character of a hexadecimal digit.
abbrev pub hex_char : ℕ → ℕ
hex_char d = if ltb d 10 then 48 + d else 55 + d

-- The loop that fills a buffer from its end: `left` digits of `n`, before the digits `acc`.
unfoldable pub hex_digits : ℕ → ℕ → List ℕ → List ℕ
hex_digits zero n acc = acc
hex_digits (suc left) n acc = hex_digits left (n >>> 4) (hex_char (bit_and n 0xF) ∷ acc)

-- `0x` and eight digits.
unfoldable pub hex_text : ℕ → List ℕ
unfolding hex_digits
hex_text n = 48 ∷ 120 ∷ hex_digits 8 n []

unfoldable pub writehex : ℕ → Terminal → Terminal
unfolding writestring hex_text
writehex n t = writestring (hex_text n) t

-- The loop that takes digits off `n`; the buffer is read from its end, so the last digit taken is
-- the first in the list. `none` means that the fuel ran out.
unfoldable pub dec_digits : ℕ → ℕ → List ℕ → Option (List ℕ)
dec_digits zero n buf = none
dec_digits (suc fuel) n buf =
    let rest = dec_digits fuel (n / 10) ((48 + n % 10) ∷ buf) in if n == 0 then some buf else rest

unfoldable pub dec_text : ℕ → ℕ → Option (List ℕ)
unfolding dec_digits
dec_text fuel n = if n == 0 then some (48 ∷ []) else dec_digits fuel n []

abbrev pub write_text : Option (List ℕ) → Terminal → Option Terminal
write_text none t = none
write_text (some cs) t = some (writestring cs t)

unfoldable pub writedec : ℕ → ℕ → Terminal → Option Terminal
unfolding dec_text
writedec fuel n t = write_text (dec_text fuel n) t
