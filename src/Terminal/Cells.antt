-- ===== src/Terminal/Cells.antt =====
-- The loops over cells and rows of the terminal in src/kernel.c: what they move and clear.
use my_own_operating_system.Base.{
  ℕ, zero, suc, ◌+◌, ◌-◌, ◌*◌, ◌≤◌, ◌<◌, ◌≡◌, refl, ◌∙◌, ◌⊎◌, inl, inr, arith, ltb, ◌==◌,
  Bool-cases, eq_of_==, ne_of_==, ==-of_ne, lt_of_ltb, le_of_ltb, update,
}
use my_own_operating_system.Terminal.{
  vga_width, blank, copy_cells, copy_rows, clear_cells, clear_rows,
}

copy_cells_other :
    (y x left : ℕ) (b : ℕ → ℕ) (i : ℕ)
    → 1 ≤ y
    → (i < (y - 1) * vga_width + x) ⊎ ((y - 1) * vga_width + x + left ≤ i)
    → copy_cells y x left b i ≡ b i
unfolding copy_cells
copy_cells_other y x zero b i pos h = refl
copy_cells_other y x (suc left) b i pos h =
    copy_cells_other y (x + 1) left (update b ((y - 1) * vga_width + x) (b (y * vga_width + x))) i
      pos (ground arith)
    ∙ rw (==-of_ne i ((y - 1) * vga_width + x) (ground arith))

copy_cells_lem :
    (y x left : ℕ) (b : ℕ → ℕ) (i : ℕ)
    → 1 ≤ y
    → x + left ≤ vga_width
    → (y - 1) * vga_width + x ≤ i
    → i < (y - 1) * vga_width + x + left
    → copy_cells y x left b i ≡ b (i + vga_width)
unfolding copy_cells
copy_cells_lem y x zero b i pos fits lo hi = absurd (omega arith)
copy_cells_lem y x (suc left) b i pos fits lo hi =
    elim (Bool-cases (i == ((y - 1) * vga_width + x))) [
      | inl here ↦
          let e : i ≡ (y - 1) * vga_width + x = eq_of_== _ _ here in
          let f : y * vga_width + x ≡ i + vga_width = omega arith in
          copy_cells_other y (x + 1) left
            (update b ((y - 1) * vga_width + x) (b (y * vga_width + x))) i pos (inl (omega arith))
          ∙ rw (here, f)
      | inr there ↦
          copy_cells_lem y (x + 1) left (update b ((y - 1) * vga_width + x) (b (y * vga_width + x)))
            i pos (omega arith) (omega (arith, ne_of_== _ _ there)) (omega arith)
          ∙ rw (==-of_ne (i + vga_width) ((y - 1) * vga_width + x) (λ e. absurd (omega arith)))
    ]

pub copy_rows_other :
    (y left : ℕ) (b : ℕ → ℕ) (i : ℕ)
    → 1 ≤ y
    → (i < (y - 1) * vga_width) ⊎ ((y - 1 + left) * vga_width ≤ i)
    → copy_rows y left b i ≡ b i
unfolding copy_rows
copy_rows_other y zero b i pos h = refl
copy_rows_other y (suc left) b i pos h =
    copy_rows_other (y + 1) left (copy_cells y 0 vga_width b) i (omega arith) (ground arith)
    ∙ copy_cells_other y 0 vga_width b i pos (ground arith)

pub copy_rows_lem :
    (y left : ℕ) (b : ℕ → ℕ) (i : ℕ)
    → 1 ≤ y
    → (y - 1) * vga_width ≤ i
    → i < (y - 1 + left) * vga_width
    → copy_rows y left b i ≡ b (i + vga_width)
unfolding copy_rows
copy_rows_lem y zero b i pos lo hi = absurd (omega arith)
copy_rows_lem y (suc left) b i pos lo hi = elim (Bool-cases (ltb i (y * vga_width))) [
  | inl here ↦
      copy_rows_other (y + 1) left (copy_cells y 0 vga_width b) i (omega arith)
        (inl (omega (arith, lt_of_ltb _ _ here)))
      ∙ copy_cells_lem y 0 vga_width b i pos (omega arith) (omega arith)
          (omega (arith, lt_of_ltb _ _ here))
  | inr there ↦
      copy_rows_lem (y + 1) left (copy_cells y 0 vga_width b) i (omega arith)
        (omega (arith, le_of_ltb _ _ there)) (omega arith)
      ∙ copy_cells_other y 0 vga_width b (i + vga_width) pos
          (inr (omega (arith, le_of_ltb _ _ there)))
]

pub clear_cells_other :
    (color y x left : ℕ) (b : ℕ → ℕ) (i : ℕ)
    → (i < y * vga_width + x) ⊎ (y * vga_width + x + left ≤ i)
    → clear_cells color y x left b i ≡ b i
unfolding clear_cells
clear_cells_other color y x zero b i h = refl
clear_cells_other color y x (suc left) b i h =
    clear_cells_other color y (x + 1) left (update b (y * vga_width + x) (blank color)) i
      (ground arith)
    ∙ rw (==-of_ne i (y * vga_width + x) (ground arith))

pub clear_cells_lem :
    (color y x left : ℕ) (b : ℕ → ℕ) (i : ℕ)
    → y * vga_width + x ≤ i
    → i < y * vga_width + x + left
    → clear_cells color y x left b i ≡ blank color
unfolding clear_cells
clear_cells_lem color y x zero b i lo hi = absurd (omega arith)
clear_cells_lem color y x (suc left) b i lo hi = elim (Bool-cases (i == (y * vga_width + x))) [
  | inl here ↦
      let e : i ≡ y * vga_width + x = eq_of_== _ _ here in
      clear_cells_other color y (x + 1) left (update b (y * vga_width + x) (blank color)) i
        (inl (omega arith))
      ∙ rw here
  | inr there ↦
      clear_cells_lem color y (x + 1) left (update b (y * vga_width + x) (blank color)) i
        (omega (arith, ne_of_== _ _ there)) (omega arith)
]

pub clear_rows_other :
    (color y left : ℕ) (b : ℕ → ℕ) (i : ℕ)
    → (i < y * vga_width) ⊎ ((y + left) * vga_width ≤ i)
    → clear_rows color y left b i ≡ b i
unfolding clear_rows
clear_rows_other color y zero b i h = refl
clear_rows_other color y (suc left) b i h =
    clear_rows_other color (y + 1) left (clear_cells color y 0 vga_width b) i (ground arith)
    ∙ clear_cells_other color y 0 vga_width b i (ground arith)

pub clear_rows_lem :
    (color y left : ℕ) (b : ℕ → ℕ) (i : ℕ)
    → y * vga_width ≤ i
    → i < (y + left) * vga_width
    → clear_rows color y left b i ≡ blank color
unfolding clear_rows
clear_rows_lem color y zero b i lo hi = absurd (omega arith)
clear_rows_lem color y (suc left) b i lo hi = elim (Bool-cases (ltb i ((y + 1) * vga_width))) [
  | inl here ↦
      let lt = lt_of_ltb i ((y + 1) * vga_width) here in
      clear_rows_other color (y + 1) left (clear_cells color y 0 vga_width b) i (inl lt)
      ∙ clear_cells_lem color y 0 vga_width b i (omega arith) (omega arith)
  | inr there ↦
      clear_rows_lem color (y + 1) left (clear_cells color y 0 vga_width b) i (le_of_ltb _ _ there)
        (omega arith)
]
