-- ===== src/Tar/Octal.antt =====
-- `get_octal` of src/tar.c reads back the digits of a field.
use my_own_operating_system.Base.{
  ℕ, suc, ◌+◌, ◌-◌, ◌*◌, ◌^◌, ◌<◌, ◌≡◌, sym, ap, ◌∙◌, ◌⊎◌, inl, inr, true, false, List, [], ◌∷◌,
  arith, ◌==◌, u32, add32, mul32,
}
use my_own_operating_system.Base.Memory.{Memory, read_u8}
use my_own_operating_system.Terminal.Numbers.{read_digits, digit_value}
use my_own_operating_system.Tar.{is_octal, octal_loop, get_octal}

-- The field at `a`, of `left` characters, holds octal digits up to its end, a zero or a blank.
pub data IsField (m : Memory) : ℕ → ℕ → List ℕ → Type 0 where
  full : {a : ℕ} → IsField m a 0 []
  ended : {a left : ℕ} → (read_u8 m a ≡ 0) ⊎ (read_u8 m a ≡ 32) → IsField m a (suc left) []
  digit :
      {a left : ℕ} {c : ℕ} {cs : List ℕ}
      → read_u8 m a ≡ c
      → is_octal c ≡ true
      → IsField m (a + 1) left cs
      → IsField m a (suc left) (c ∷ cs)

-- A cut of the number so far does not change the last 32 bits.
read_digits-u32 :
    (acc : ℕ) (cs : List ℕ)
    → u32 (read_digits digit_value 8 (u32 acc) cs) ≡ u32 (read_digits digit_value 8 acc cs)
read_digits-u32 acc [] = omega arith
read_digits-u32 acc (c ∷ cs) =
    let same : u32 (u32 acc * 8 + digit_value c) ≡ u32 (acc * 8 + digit_value c) = omega arith in
    sym (read_digits-u32 (u32 acc * 8 + digit_value c) cs)
    ∙ ap (λ n. u32 (read_digits digit_value 8 n cs)) same
    ∙ read_digits-u32 (acc * 8 + digit_value c) cs

octal-ne_zero : (c : ℕ) → is_octal c ≡ true → (c == 0) ≡ false
octal-ne_zero c h = ground arith

octal_loop-read :
    (m : Memory) (a left out : ℕ) (ds : List ℕ)
    → out < 2 ^ 32
    → IsField m a left ds
    → octal_loop m a left out ≡ u32 (read_digits digit_value 8 out ds)
unfolding octal_loop
octal_loop-read m a _ out _ small full = omega arith
octal_loop-read m a _ out _ small (ended {left} (inl e)) = rw e (omega arith)
octal_loop-read m a _ out _ small (ended {left} (inr e)) = rw e (omega arith)
octal_loop-read m a _ out _ small (digit {left} {c} {cs} e d rest) =
    let step : add32 (mul32 out 8) (c - 48) ≡ u32 (out * 8 + digit_value c) = omega arith in
    rw (e, d, octal-ne_zero c d, step)
      (octal_loop-read m (a + 1) left (u32 (out * 8 + digit_value c)) cs (omega arith) rest
        ∙ read_digits-u32 (out * 8 + digit_value c) cs)

-- For a field of octal digits that ends with its length, a zero or a blank, `get_octal` returns
-- the number that they spell, modulo 2^32.
pub get_octal-read :
    (m : Memory) (a len : ℕ) (ds : List ℕ)
    → IsField m a len ds
    → get_octal m a len ≡ u32 (read_digits digit_value 8 0 ds)
unfolding get_octal
get_octal-read m a len ds field = octal_loop-read m a len 0 ds (omega arith) field
