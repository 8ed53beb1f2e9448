-- ===== src/Terminal/Numbers.antt =====
-- The numbers that src/kernel.c prints, read back.
use my_own_operating_system.Base.{
  ℕ, zero, suc, ◌+◌, ◌-◌, ◌*◌, ◌/◌, ◌%◌, ◌^◌, ◌≤◌, ◌<◌, bit_and, ◌≡◌, refl, sym, ap, ◌∙◌, ◌≢◌, inl,
  inr, some, List, [], ◌∷◌, ◌++◌, arith, ltb, ◌==◌, if◌then◌else◌, Bool-cases, eq_of_==, ne_of_==,
  ==-of_eq, ==-of_ne, length,
}
use native.Mathlib.Nat.{pow-succ'}
use my_own_operating_system.Base.Bits.{bit_and-low}
use my_own_operating_system.Terminal.{hex_char, hex_digits, hex_text, dec_digits, dec_text}

-- A text read from left to right, in base `b`.
abbrev pub read_digits : (ℕ → ℕ) → ℕ → ℕ → List ℕ → ℕ
read_digits value b acc [] = acc
read_digits value b acc (c ∷ cs) = read_digits value b (acc * b + value c) cs

-- The value of a hexadecimal character.
abbrev pub hex_value : ℕ → ℕ
hex_value c = if ltb c 58 then c - 48 else c - 55

hex_value-char : (d : ℕ) → d < 16 → hex_value (hex_char d) ≡ d
hex_value-char d h = ground arith

hex_value-digit : (m : ℕ) → hex_value (hex_char (bit_and m 0xF)) ≡ m % 16
hex_value-digit m = rw (bit_and-low 4 m) (hex_value-char (m % 16) (omega arith))

-- The characters behind `0x`.
abbrev pub without_prefix : List ℕ → List ℕ
without_prefix (_ ∷ _ ∷ cs) = cs
without_prefix cs = []

-- For a 32-bit number, the characters of `terminal_writehex` behind the prefix read back as the
-- number.
pub hex_text-read :
    (n : ℕ) → n < 2 ^ 32 → read_digits hex_value 16 0 (without_prefix (hex_text n)) ≡ n
unfolding hex_text hex_digits
hex_text-read n h = simp hex_value-digit (omega arith)

read_digits-append :
    (value : ℕ → ℕ) (b acc : ℕ) (xs : List ℕ) (c : ℕ)
    → read_digits value b acc (xs ++ (c ∷ [])) ≡ read_digits value b acc xs * b + value c
read_digits-append value b acc [] c = refl
read_digits-append value b acc (x ∷ xs) c = read_digits-append value b (acc * b + value x) xs c

append_one : (xs : List ℕ) (c : ℕ) (ys : List ℕ) → (xs ++ (c ∷ [])) ++ ys ≡ xs ++ (c ∷ ys)
append_one [] c ys = refl
append_one (x ∷ xs) c ys = ap (λ l. x ∷ l) (append_one xs c ys)

length-append_one : (xs : List ℕ) (c : ℕ) → length (xs ++ (c ∷ [])) ≡ length xs + 1
length-append_one [] c = omega arith
length-append_one (x ∷ xs) c = omega (arith, length-append_one xs c)

-- The value of a decimal digit.
abbrev pub digit_value : ℕ → ℕ
digit_value c = c - 48

append-nil : (xs : List ℕ) → xs ++ [] ≡ xs
append-nil [] = refl
append-nil (x ∷ xs) = ap (λ l. x ∷ l) (append-nil xs)

-- The loop ends, and puts digits in front of the buffer that read as the number.
dec_digits-read :
    (fuel n : ℕ) (buf : List ℕ)
    → n < 10 ^ fuel
    → (ds : List ℕ) × (dec_digits (suc fuel) n buf ≡ some (ds ++ buf))
      × (read_digits digit_value 10 0 ds ≡ n)
      × (length ds ≤ fuel)
unfolding dec_digits
dec_digits-read zero n buf h =
    let e : n ≡ 0 = omega arith in ([], rw (==-of_eq n 0 e), sym e, omega arith)
dec_digits-read (suc fuel) n buf h = elim (Bool-cases (n == 0)) [
  | inl gone ↦ ([], rw gone, sym (eq_of_== n 0 gone), omega arith)
  | inr more ↦
      let c = 48 + n % 10 in
      let (ds, e, r, l) =
        dec_digits-read fuel (n / 10) (c ∷ buf) (omega (arith, pow-succ' 10 fuel)) in
      (
        ds ++ (c ∷ []),
        rw more (e ∙ ap some (sym (append_one ds c buf))),
        read_digits-append digit_value 10 0 ds c ∙ rw r (omega arith),
        omega (arith, length-append_one ds c),
      )
]

dec_text_zero : (fuel n : ℕ) → n ≡ 0 → dec_text fuel n ≡ some (48 ∷ [])
unfolding dec_text
dec_text_zero fuel n e = rw (==-of_eq n 0 e)

dec_text_more : (fuel n : ℕ) → n ≢ 0 → dec_text fuel n ≡ dec_digits fuel n []
unfolding dec_text
dec_text_more fuel n ne = rw (==-of_ne n 0 ne)

-- For a 32-bit number, the loop of `terminal_writedec` ends, and its digits read back as the
-- number and are at most ten.
pub dec_text-read :
    (n : ℕ)
    → n < 2 ^ 32
    → (ds : List ℕ) × (dec_text 11 n ≡ some ds)
      × (read_digits digit_value 10 0 ds ≡ n)
      × (length ds ≤ 10)
dec_text-read n h = elim (Bool-cases (n == 0)) [
  | inl gone ↦
      (48 ∷ [], dec_text_zero 11 n (eq_of_== n 0 gone), sym (eq_of_== n 0 gone), omega arith)
  | inr more ↦
      let (ds, e, r, l) = dec_digits-read 10 n [] (omega arith) in
      (ds, dec_text_more 11 n (ne_of_== n 0 more) ∙ e ∙ ap some (append-nil ds), r, l)
]
