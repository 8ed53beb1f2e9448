-- ===== src/Elf/Header.antt =====
-- The headers of an ELF file, src/elf.h.
use my_own_operating_system.Base.{ℕ, ◌+◌}
use my_own_operating_system.Base.Memory.{Memory, read_u8, read_u16, read_u32}

-- The fields of `Elf32_Ehdr` at address `p`.
abbrev pub ehdr_size : ℕ
ehdr_size = 52

abbrev pub e_magic : Memory → ℕ → ℕ
e_magic m p = read_u32 m p

abbrev pub e_class : Memory → ℕ → ℕ
e_class m p = read_u8 m (p + 4)

abbrev pub e_type : Memory → ℕ → ℕ
e_type m p = read_u16 m (p + 16)

abbrev pub e_machine : Memory → ℕ → ℕ
e_machine m p = read_u16 m (p + 18)

abbrev pub e_entry : Memory → ℕ → ℕ
e_entry m p = read_u32 m (p + 24)

abbrev pub e_phoff : Memory → ℕ → ℕ
e_phoff m p = read_u32 m (p + 28)

abbrev pub e_phentsize : Memory → ℕ → ℕ
e_phentsize m p = read_u16 m (p + 42)

abbrev pub e_phnum : Memory → ℕ → ℕ
e_phnum m p = read_u16 m (p + 44)

-- The fields of `Elf32_Phdr` at address `p`.
abbrev pub phdr_size : ℕ
phdr_size = 32

abbrev pub p_type : Memory → ℕ → ℕ
p_type m p = read_u32 m p

abbrev pub p_offset : Memory → ℕ → ℕ
p_offset m p = read_u32 m (p + 4)

abbrev pub p_vaddr : Memory → ℕ → ℕ
p_vaddr m p = read_u32 m (p + 8)

abbrev pub p_filesz : Memory → ℕ → ℕ
p_filesz m p = read_u32 m (p + 16)

abbrev pub p_memsz : Memory → ℕ → ℕ
p_memsz m p = read_u32 m (p + 20)

abbrev pub elf_magic : ℕ
elf_magic = 0x464C_457F

abbrev pub pt_load : ℕ
pt_load = 1
