-- ===== src/Terminal/Scroll.antt =====
-- The cursor and the scrolling of `terminal_putchar` in src/kernel.c.
use my_own_operating_system.Base.{
  ℕ, ◌+◌, ◌*◌, ◌≤◌, ◌<◌, ◌≡◌, refl, sym, ap, ◌∙◌, fun_ext, ◌≢◌, ◌⊎◌, inl, inr, true, false, List,
  [], ◌∷◌, arith, ◌==◌, if◌then◌else◌, Bool-cases, eq_of_==, ne_of_==, ==-of_ne, update, add32,
}
use mathlib.Core.Path.{subst}
use my_own_operating_system.Terminal.{
  Terminal, vga_width, vga_height, vga_entry, blank, copy_rows, initialize, advance, scroll,
  putchar, putentryat, writestring,
}
use my_own_operating_system.Terminal.Cells.{
  copy_rows_other, copy_rows_lem, clear_cells_other, clear_cells_lem, clear_rows_other,
  clear_rows_lem,
}

-- The cursor is on the screen.
pub record IsOnScreen (t : Terminal) : Type 0 where
  pub row_fits : t.row < vga_height
  pub column_fits : t.column < vga_width

-- The number of the cell under the cursor.
abbrev pub cursor : Terminal → ℕ
cursor t = t.row * vga_width + t.column

-- The cells after a character was put at the cursor, before any scrolling.
abbrev pub typed : ℕ → Terminal → ℕ → ℕ
typed c t i =
    if c == 10 then t.buffer i else if i == cursor t then vga_entry c t.color else t.buffer i

-- The screen shows the cells `b` moved up by one row, with a blank last row.
pub record MovedUp (color : ℕ) (b : ℕ → ℕ) (t : Terminal) : Type 0 where
  pub moved : (i : ℕ) → i < 24 * vga_width → t.buffer i ≡ b (i + vga_width)
  pub last_row : (i : ℕ) → 24 * vga_width ≤ i → i < 25 * vga_width → t.buffer i ≡ blank color
  pub outside : (i : ℕ) → 25 * vga_width ≤ i → t.buffer i ≡ b i

scroll-MovedUp : (t : Terminal) → t.row ≡ 25 → MovedUp t.color t.buffer (scroll t)
unfolding scroll
scroll-MovedUp t e = rw e (record {
  moved = λ i h.
      clear_cells_other t.color 24 0 80 (copy_rows 1 24 t.buffer) i (inl (omega arith))
      ∙ copy_rows_lem 1 24 t.buffer i (omega arith) (omega arith) (omega arith);
  last_row = λ i lo hi.
      clear_cells_lem t.color 24 0 80 (copy_rows 1 24 t.buffer) i (omega arith) (omega arith);
  outside = λ i h.
      clear_cells_other t.color 24 0 80 (copy_rows 1 24 t.buffer) i (inr (omega arith))
      ∙ copy_rows_other 1 24 t.buffer i (omega arith) (inr (omega arith));
})

-- `terminal_putchar` as a whole: the cursor goes on in the same screen, or to the last row of a
-- screen that has moved up.
pub data Put (c : ℕ) (t t' : Terminal) : Type 0 where
  stays :
      ((i : ℕ) → t'.buffer i ≡ typed c t i)
      → IsOnScreen t'
      → (cursor t' ≡ cursor t + 1) ⊎ ((c ≡ 10) × (t'.column ≡ 0) × (t'.row ≡ t.row + 1))
      → Put c t t'
  scrolls : t.row ≡ 24 → t'.row ≡ 24 → t'.column ≡ 0 → MovedUp t.color (typed c t) t' → Put c t t'

scroll_still : (t : Terminal) → t.row < vga_height → scroll t ≡ t
unfolding scroll
scroll_still t h = ground arith

scroll_cursor : (t : Terminal) → t.row ≡ 25 → ((scroll t).row ≡ 24) × ((scroll t).column ≡ t.column)
unfolding scroll
scroll_cursor t e = (ground arith, ground arith)

-- The cursor went to the start of the next row.
Put-of_next_row :
    (c : ℕ) (t : Terminal) (b : ℕ → ℕ) (row : ℕ)
    → IsOnScreen t
    → b ≡ typed c t
    → row ≡ t.row + 1
    → (c ≡ 10) ⊎ (t.column ≡ 79)
    → Put c t (scroll (record t { buffer = b; row = row; column = 0 }))
Put-of_next_row c t b row on cells down why = elim (Bool-cases (t.row == 24)) [
  | inl bottom ↦
      let last : t.row ≡ 24 = eq_of_== _ _ bottom in
      let u : Terminal = record t { buffer = b; row = row; column = 0 } in
      let full : row ≡ 25 = omega arith in
      scrolls last (scroll_cursor u full).0 (scroll_cursor u full).1
        (subst (λ (x : ℕ → ℕ). MovedUp t.color x (scroll u)) cells (scroll-MovedUp u full))
  | inr higher ↦
      let still =
        scroll_still (record t { buffer = b; row = row; column = 0 })
          (omega (arith, ne_of_== _ _ higher, on.row_fits)) in
      subst (Put c t) (sym still) (
        stays (λ i. ap (λ (x : ℕ → ℕ). x i) cells)
          (record {
            row_fits = omega (arith, ne_of_== _ _ higher, on.row_fits);
            column_fits = omega arith;
          })
          (elim why [ inl feed ↦ inr (feed, refl, down) | inr edge ↦ inl (omega arith) ]))
]

advance_feed :
    (c : ℕ) (t : Terminal)
    → (c == 10) ≡ true
    → advance c t ≡ record t { column = 0; row = add32 t.row 1 }
unfolding advance
advance_feed c t e = rw e

advance_wrap :
    (c : ℕ) (t : Terminal)
    → (c == 10) ≡ false
    → add32 t.column 1 ≡ 80
    → advance c t ≡ record t {
      buffer = update t.buffer (cursor t) (vga_entry c t.color);
      row = add32 t.row 1;
      column = 0;
    }
unfolding advance putentryat
advance_wrap c t e f = rw (e, f)

advance_on :
    (c : ℕ) (t : Terminal)
    → (c == 10) ≡ false
    → add32 t.column 1 ≢ 80
    → advance c t ≡ record t {
      buffer = update t.buffer (cursor t) (vga_entry c t.color);
      column = add32 t.column 1;
    }
unfolding advance putentryat
advance_on c t e f = rw (e, ==-of_ne _ _ f)

-- With the cursor on the screen, `terminal_putchar` leaves it there and changes at most the cell
-- under it, which gets a character other than a line feed; the cursor goes on to the next cell or
-- the next row, unless the row was the last one and is left: then every row moves up by one, the
-- last row is blank, and the cursor stands at its start.
pub putchar-Put : (c : ℕ) (t : Terminal) → IsOnScreen t → Put c t (putchar c t)
unfolding putchar
putchar-Put c t on =
    let down : add32 t.row 1 ≡ t.row + 1 = omega (arith, on.row_fits) in
    elim (Bool-cases (c == 10)) [
      | inl feed ↦ rw (advance_feed c t feed) (
          Put-of_next_row c t t.buffer (add32 t.row 1) on (fun_ext λ i. rw feed) down
            (inl (eq_of_== c 10 feed)))
      | inr print ↦ elim (Bool-cases (t.column == 79)) [
        | inl edge ↦ rw (advance_wrap c t print (omega (arith, eq_of_== _ _ edge))) (
            Put-of_next_row c t (update t.buffer (cursor t) (vga_entry c t.color)) (add32 t.row 1)
              on (fun_ext λ i. rw print) down (inr (eq_of_== _ _ edge)))
        | inr inner ↦
            rw
              (
                advance_on c t print
                    (λ e. absurd (omega (arith, ne_of_== _ _ inner, on.column_fits, e))),
                scroll_still
                    (record t {
                      buffer = update t.buffer (cursor t) (vga_entry c t.color);
                      column = add32 t.column 1;
                    })
                    on.row_fits,
              )
              (stays (λ i. rw print)
                (record {
                  row_fits = on.row_fits;
                  column_fits = omega (arith, ne_of_== _ _ inner, on.column_fits);
                })
                (inl (omega (arith, on.column_fits))))
      ]
    ]

Put-IsOnScreen : {c : ℕ} {t t' : Terminal} → Put c t t' → IsOnScreen t'
Put-IsOnScreen (stays cells on how) = on
Put-IsOnScreen (scrolls was row column up) = record {
  row_fits = omega (arith, row);
  column_fits = omega (arith, column);
}

-- `terminal_writestring` of any characters keeps the cursor on the screen.
pub writestring-IsOnScreen :
    (cs : List ℕ) (t : Terminal) → IsOnScreen t → IsOnScreen (writestring cs t)
unfolding writestring
writestring-IsOnScreen [] t on = on
writestring-IsOnScreen (c ∷ cs) t on =
    writestring-IsOnScreen cs (putchar c t) (Put-IsOnScreen (putchar-Put c t on))

-- `terminal_initialize` puts the cursor on the screen and blanks its 25 rows of 80 cells, and no
-- cell behind them.
pub initialize-blank :
    (b : ℕ → ℕ)
    → IsOnScreen (initialize b)
      × ((i : ℕ) → i < 25 * vga_width → (initialize b).buffer i ≡ 0x720)
      × ((i : ℕ) → 25 * vga_width ≤ i → (initialize b).buffer i ≡ b i)
unfolding initialize
initialize-blank b = (
  record { row_fits = omega arith; column_fits = omega arith },
  λ i h. clear_rows_lem 7 0 25 b i (omega arith) h,
  λ i h. clear_rows_other 7 0 25 b i (inr h),
)
