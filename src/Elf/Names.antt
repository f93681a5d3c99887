-- ===== src/Elf/Names.antt =====
-- The names that elf/elf_parser.c prints for the types and the flags of segments and sections. The
-- numbers are those of elf.h.
use embedded_systems_runtime.Prelude.{ℕ, List, [], ◌++◌, ◌==◌, if◌then◌else◌, bit_and, codes}

unfoldable pub ph_type_name : ℕ → List ℕ
ph_type_name type =
    if type == 0
    then codes "NULL"
    else (if type == 1
        then codes "LOAD"
        else (if type == 2
            then codes "DYNAMIC"
            else (if type == 3
                then codes "INTERP"
                else (if type == 4
                    then codes "NOTE"
                    else (if type == 6
                        then codes "PHDR"
                        else (if type == 7 then codes "TLS" else codes "OTHER"))))))

-- PF_R, PF_W and PF_X are 4, 2 and 1.
unfoldable pub perm_string : ℕ → List ℕ
perm_string flags =
    (if bit_and flags 4 == 0 then codes "-" else codes "R")
    ++ ((if bit_and flags 2 == 0 then codes "-" else codes "W")
        ++ (if bit_and flags 1 == 0 then codes "-" else codes "X"))

unfoldable pub sh_type_name : ℕ → List ℕ
sh_type_name type =
    if type == 0
    then codes "NULL"
    else (if type == 1
        then codes "PROGBITS"
        else (if type == 2
            then codes "SYMTAB"
            else (if type == 3
                then codes "STRTAB"
                else (if type == 4
                    then codes "RELA"
                    else (if type == 5
                        then codes "HASH"
                        else (if type == 6
                            then codes "DYNAMIC"
                            else (if type == 7
                                then codes "NOTE"
                                else (if type == 8
                                    then codes "NOBITS"
                                    else (if type == 9
                                        then codes "REL"
                                        else (if type == 11
                                            then codes "DYNSYM"
                                            else codes "OTHER"))))))))))

-- SHF_ALLOC, SHF_WRITE and SHF_EXECINSTR are 2, 1 and 4.
unfoldable pub section_flags64 : ℕ → List ℕ
section_flags64 flags =
    (if bit_and flags 2 == 0 then [] else codes "A")
    ++ ((if bit_and flags 1 == 0 then [] else codes "W")
        ++ (if bit_and flags 4 == 0 then [] else codes "X"))
