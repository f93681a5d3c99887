-- ===== src/Elf.antt =====
-- elf/elf_parser.c: the checks on a file before it is taken for an ELF image. The structures of elf.h
-- are parameters: how a header is laid out in the file's bytes.
pub mod Tables
pub mod Names
mod Examples
use embedded_systems_runtime.Prelude.{
  ℕ, ◌+◌, ◌-◌, ◌*◌, ◌%◌, ◌^◌, Option, none, some, Bool, true, false, not, ◌||◌, ◌&&◌, List, [], ◌∷◌,
  ◌==◌, ltb, leb, if◌then◌else◌, length, codes,
}
use embedded_systems_runtime.Protocol.Endian.{at}

-- The fields of Elf32_Ehdr and Elf64_Ehdr that are read.
pub record Ehdr : Type 0 where
  pub e_machine : ℕ
  pub e_type : ℕ
  pub e_entry : ℕ
  pub e_ehsize : ℕ
  pub e_phoff : ℕ
  pub e_phentsize : ℕ
  pub e_phnum : ℕ
  pub e_shoff : ℕ
  pub e_shentsize : ℕ
  pub e_shnum : ℕ

-- ElfImage, less its descriptor.
pub record ElfImage : Type 0 where
  pub bytes : List ℕ
  pub elf_class : ℕ
  pub machine : ℕ
  pub type : ℕ
  pub entry : ℕ

unfoldable pub range_ok : ℕ → ℕ → ℕ → Bool
range_ok size offset bytes = if ltb size offset then false else leb bytes (size - offset)

-- The names of machines; the numbers are those of elf.h.
unfoldable pub elf_machine_name : ℕ → List ℕ
elf_machine_name machine =
    if machine == 3
    then codes "Intel 80386"
    else (if machine == 62
        then codes "AMD x86-64"
        else (if machine == 40
            then codes "ARM"
            else (if machine == 183
                then codes "AArch64"
                else (if machine == 243 then codes "RISC-V" else codes "Unknown"))))

unfoldable pub elf_type_name : ℕ → List ℕ
elf_type_name type =
    if type == 0
    then codes "NONE"
    else (if type == 1
        then codes "REL (Relocatable)"
        else (if type == 2
            then codes "EXEC (Executable)"
            else (if type == 3
                then codes "DYN (Shared/PIE)"
                else (if type == 4 then codes "CORE" else codes "Unknown"))))

pub data ElfError : Type 0 where
  open_failed fstat_failed too_small mmap_failed not_elf bad_endianness truncated bad_header_size
        bad_program_headers bad_section_headers bad_class :
      ElfError

-- The image, or the error; the errors of both classes of files are the same ones.
pub data Opened : Type 0 where
  opened : ElfImage → Opened
  refused : ElfError → Opened

-- A table of `num` entries of `entsize` bytes at `off`.
unfoldable pub bad_table : ℕ → ℕ → ℕ → ℕ → Bool
unfolding range_ok
bad_table size off entsize num =
    not (num == 0) && (entsize == 0 || not (range_ok size off (entsize * num % 2 ^ 64)))

-- The checks of one class, whose header has `header_size` bytes.
unfoldable pub check_class : ℕ → ℕ → Ehdr → List ℕ → Opened
unfolding bad_table
check_class elf_class header_size h bytes =
    if not (range_ok (length bytes) 0 header_size)
    then refused truncated
    else (if ltb h.e_ehsize header_size
        then refused bad_header_size
        else (if bad_table (length bytes) h.e_phoff h.e_phentsize h.e_phnum
            then refused bad_program_headers
            else (if bad_table (length bytes) h.e_shoff h.e_shentsize h.e_shnum
                then refused bad_section_headers
                else opened (record {
                  bytes = bytes;
                  elf_class = elf_class;
                  machine = h.e_machine;
                  type = h.e_type;
                  entry = h.e_entry;
                }))))

module _ (ehdr32 ehdr64 : List ℕ → Ehdr) where
  -- From the mapping on; 0x7f 'E' 'L' 'F', then the class, then the byte order.
  unfoldable pub check_image : List ℕ → Opened
  unfolding check_class
  check_image bytes =
      if not (at bytes 0 == 0x7f && (at bytes 1 == 69 && (at bytes 2 == 76 && at bytes 3 == 70)))
      then refused not_elf
      else (if not (at bytes 5 == 1)
          then refused bad_endianness
          else (if at bytes 4 == 1
              then check_class 1 52 (ehdr32 bytes) bytes
              else (if at bytes 4 == 2
                  then check_class 2 64 (ehdr64 bytes) bytes
                  else refused bad_class)))

  -- `opens`, `stats` and `maps` tell which calls succeed, `bytes` what the file holds.
  unfoldable pub elf_image_open : Bool → Bool → Bool → List ℕ → Opened
  unfolding check_image
  elf_image_open opens stats maps bytes =
      if not opens
      then refused open_failed
      else (if not stats
          then refused fstat_failed
          else (if ltb (length bytes) 16
              then refused too_small
              else (if not maps then refused mmap_failed else check_image bytes)))
