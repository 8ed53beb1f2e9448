-- ===== src/Elf/Refuse.antt =====
-- What `elf_load` of src/elf.c refuses before it allocates anything.
use my_own_operating_system.Base.{
  ℕ, ◌+◌, ◌*◌, ◌<◌, ◌≡◌, refl, ◌∙◌, ◌↔◌, ◌⊎◌, inl, inr, Bool, true, false, ◌&&◌, Option, none, some,
  List, arith, ltb, Bool-cases, eq_of_==, ==-of_eq, ltb-of_lt,
}
use my_own_operating_system.Base.Memory.{Memory, read_u8, read_u16, read_u32}
use my_own_operating_system.Vfs.{Driver, read_fs, find_node_by_path}
use my_own_operating_system.Elf.Header.{ehdr_size, e_magic, e_class, e_type, e_machine, elf_magic}
use my_own_operating_system.Elf.{
  Loader, byte_at, returned, is_executable, load_checked, load_file, elf_load,
}

-- The header of an executable for 32-bit x86, as the format describes it: the identification is
-- 0x7F, "ELF" and class 1, the machine number is 3 and the type 2.
pub record IsExecutable (m : Memory) (a : ℕ) : Type 0 where
  pub ident_0 : read_u8 m a ≡ 0x7F
  pub ident_1 : read_u8 m (a + 1) ≡ 0x45
  pub ident_2 : read_u8 m (a + 2) ≡ 0x4C
  pub ident_3 : read_u8 m (a + 3) ≡ 0x46
  pub class : read_u8 m (a + 4) ≡ 1
  pub machine : read_u16 m (a + 18) ≡ 3
  pub type : read_u16 m (a + 16) ≡ 2

read_u8-lt : (m : Memory) (a : ℕ) → read_u8 m a < 256
unfolding read_u8
read_u8-lt m a = omega arith

read_u32-bytes :
    (m : Memory) (a : ℕ)
    → read_u32 m a
      ≡ read_u8 m a
        + read_u8 m (a + 1) * 256
        + read_u8 m (a + 2) * 65536
        + read_u8 m (a + 3) * 16777216
unfolding read_u32 read_u16
read_u32-bytes m a = let third : a + 2 + 1 ≡ a + 3 = omega arith in rw third (omega arith)

and-true : (a b : Bool) → (a && b) ≡ true → (a ≡ true) × (b ≡ true)
and-true true true h = (refl, refl)
and-true true false h = cc
and-true false b h = cc

ident_bytes :
    (m : Memory) (a : ℕ)
    → read_u32 m a ≡ elf_magic
    → (read_u8 m a ≡ 0x7F)
      × (read_u8 m (a + 1) ≡ 0x45)
      × (read_u8 m (a + 2) ≡ 0x4C)
      × (read_u8 m (a + 3) ≡ 0x46)
ident_bytes m a e = omega (
  arith,
  e,
  read_u32-bytes m a,
  read_u8-lt m a,
  read_u8-lt m (a + 1),
  read_u8-lt m (a + 2),
  read_u8-lt m (a + 3),
)

is_executable_sound : (m : Memory) (a : ℕ) → is_executable m a ≡ true → IsExecutable m a
is_executable_sound m a h =
    let (magic, h') = and-true _ _ h in
    let (class', h'') = and-true _ _ h' in
    let (machine', type') = and-true _ _ h'' in
    let ident = ident_bytes m a (eq_of_== (e_magic m a) elf_magic magic) in
    record {
      ident_0 = ident.0;
      ident_1 = ident.1;
      ident_2 = ident.2;
      ident_3 = ident.3;
      class = eq_of_== (e_class m a) 1 class';
      machine = eq_of_== (e_machine m a) 3 machine';
      type = eq_of_== (e_type m a) 2 type';
    }

is_executable_complete : (m : Memory) (a : ℕ) → IsExecutable m a → is_executable m a ≡ true
is_executable_complete m a h =
    rw
      (
        ==-of_eq (e_magic m a) elf_magic
            (read_u32-bytes m a ∙ omega (arith, h.ident_0, h.ident_1, h.ident_2, h.ident_3)),
        ==-of_eq (e_class m a) 1 h.class,
        ==-of_eq (e_machine m a) 3 h.machine,
        ==-of_eq (e_type m a) 2 h.type,
      )
      refl

-- The checks of `elf_load` accept exactly the headers of executables for 32-bit x86.
pub is_executable-IsExecutable :
    (m : Memory) (a : ℕ) → (is_executable m a ≡ true) ↔ IsExecutable m a
is_executable-IsExecutable m a = (is_executable_sound m a, is_executable_complete m a)

module _ {Files Ref Fn : Type 0} (d : Driver (Loader Files) Ref Fn) where
  -- There is no file, or it has no whole header, or the header is not one of an executable.
  abbrev pub NotLoadable : ℕ → Loader Files → Option Ref → Type 0
  NotLoadable ehdr w none = Unit
  NotLoadable ehdr w (some f) =
      let r = read_fs d (some f) 0 ehdr_size ehdr w in
      (r.0 < ehdr_size) ⊎ (¬ IsExecutable (byte_at r.1.vmm) ehdr)

  -- The state behind the read of the header.
  abbrev pub header_read : ℕ → Loader Files → Option Ref → Loader Files
  header_read ehdr w none = w
  header_read ehdr w (some f) = (read_fs d (some f) 0 ehdr_size ehdr w).1

  by_count :
      (fuel : ℕ) (f : Ref) (ehdr p count : ℕ) (u : Loader Files)
      → (count < ehdr_size) ⊎ (¬ IsExecutable (byte_at u.vmm) ehdr)
      → load_checked d fuel (some f) ehdr p (count, u) ≡ returned none u
  by_count fuel f ehdr p count u (inl short) = rw (ltb-of_lt count ehdr_size short) refl
  by_count fuel f ehdr p count u (inr foreign) = elim (Bool-cases (ltb count ehdr_size)) [
    | inl short ↦ rw short refl
    | inr whole ↦ elim (Bool-cases (is_executable (byte_at u.vmm) ehdr)) [
      | inl yes' ↦ absurd (foreign (is_executable_sound (byte_at u.vmm) ehdr yes'))
      | inr no' ↦ rw (whole, no') refl
    ]
  ]

  -- `elf_load` of a path without a node, of a file without a whole header, or of one whose header
  -- is not that of an executable for 32-bit x86, returns -1 with the state as it was, or as the
  -- read of the header left it.
  pub elf_load-refused :
      (fuel : ℕ) (path : List ℕ) (ehdr p : ℕ) (w : Loader Files)
      → NotLoadable ehdr w (find_node_by_path d path w)
      → elf_load d fuel path ehdr p w
        ≡ returned none (header_read ehdr w (find_node_by_path d path w))
  unfolding elf_load
  elf_load-refused fuel path ehdr p w h = by_file (find_node_by_path d path w) h
    where
      by_file :
          (o : Option Ref)
          → NotLoadable ehdr w o
          → load_file d fuel o ehdr p w ≡ returned none (header_read ehdr w o)
      by_file none h' = refl
      by_file (some f) h' =
          let r = read_fs d (some f) 0 ehdr_size ehdr w in by_count fuel f ehdr p r.0 r.1 h'
