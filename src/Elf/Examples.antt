-- ===== src/Elf/Examples.antt =====
-- The checks on an ELF file at a file of 64 bytes without tables.
use embedded_systems_runtime.Prelude.{ℕ, true, List, ◌∷◌, replicate, arith}
use embedded_systems_runtime.Elf.{Ehdr, elf_image_open}
use embedded_systems_runtime.Elf.Tables.{Known, elf_image_open-Known}

-- A layout that gives every file the header of a file without tables.
abbrev layout : List ℕ → Ehdr
layout bytes = record {
  e_machine = 62;
  e_type = 2;
  e_entry = 4096;
  e_ehsize = 64;
  e_phoff = 0;
  e_phentsize = 56;
  e_phnum = 0;
  e_shoff = 0;
  e_shentsize = 64;
  e_shnum = 0;
}

abbrev small_file : List ℕ
small_file = 0x7f ∷ 69 ∷ 76 ∷ 70 ∷ 2 ∷ 1 ∷ replicate 58 0

elf_image_open-Known_example :
    Known layout layout (elf_image_open layout layout true true true small_file)
elf_image_open-Known_example =
    elf_image_open-Known layout layout true true true small_file (omega arith) (omega arith)
      (omega arith) (omega arith)
