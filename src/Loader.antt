-- ===== src/Loader.antt =====
-- loader/loader.c: how the segments of an image are put into memory, and taken out again when one
-- fails. The structures of elf.h are a parameter: the program headers are a list. What the loader does
-- to memory is a list of effects, in order; a call of mmap that succeeds maps at the address that it
-- was given, as MAP_FIXED and MAP_FIXED_NOREPLACE promise.
pub mod Memory
pub mod Segment
pub mod Image
pub mod Covers
pub mod Cleanup
pub mod Translate
mod Examples
use embedded_systems_runtime.Prelude.{
  ℕ, ◌+◌, ◌-◌, ◌%◌, ◌^◌, ◌≤◌, Option, none, some, Bool, true, false, not, ◌&&◌, ◌||◌, List, [], ◌∷◌,
  ◌++◌, ◌==◌, ltb, leb, if◌then◌else◌, min, bit_and, bit_or,
}
use embedded_systems_runtime.Elf.{ElfImage}
use embedded_systems_runtime.Allocator.{round_up}

-- GenericPhdr, less p_align, which nothing reads.
pub record GenericPhdr : Type 0 where
  pub type : ℕ
  pub offset : ℕ
  pub vaddr : ℕ
  pub filesz : ℕ
  pub memsz : ℕ
  pub flags : ℕ

-- PF_R, PF_W and PF_X are 4, 2 and 1; PROT_READ, PROT_WRITE and PROT_EXEC are 1, 2 and 4.
unfoldable pub flags_to_prot : ℕ → ℕ
flags_to_prot flags =
    let read = (if bit_and flags 4 == 0 then 0 else 1) in
    let write = (if bit_and flags 2 == 0 then read else bit_or read 2) in
    if bit_and flags 1 == 0 then write else bit_or write 4

pub data LoaderError : Type 0 where
  filesz_above_memsz beyond_file not_congruent not_aligned file_map_failed out_of_memory
        protect_failed bss_map_failed not_exec has_interp :
      LoaderError

-- A region of the file that is mapped with its offset, bytes that are set to 0, a protection, a region of
-- zeros that is mapped, and a region that is unmapped; each with its address and its length.
pub data Effect : Type 0 where
  map_file : ℕ → ℕ → ℕ → Effect
  clear : ℕ → ℕ → Effect
  protect : ℕ → ℕ → ℕ → Effect
  map_zeros : ℕ → ℕ → ℕ → Effect
  unmap : ℕ → ℕ → Effect

-- Which calls succeed while a segment is mapped.
pub record SegmentAnswers : Type 0 where
  pub file_map : Bool
  pub file_tracked : Bool
  pub protected : Bool
  pub bss_map : Bool
  pub bss_tracked : Bool

-- The error, if there is one, the effects, and the mappings that were added to the list.
pub record Mapped : Type 0 where
  pub error : Option LoaderError
  pub effects : List Effect
  pub mappings : List (ℕ × ℕ)

unfoldable pub failed_with : LoaderError → Mapped
failed_with e = record { error = some e; effects = []; mappings = [] }

-- v & ~page_mask
unfoldable pub page_start : ℕ → ℕ → ℕ
page_start page v = bit_and v (2 ^ 64 - page)

-- `part` after what was done and tracked before.
unfoldable pub behind : List Effect → List (ℕ × ℕ) → Mapped → Mapped
behind effects mappings part = record {
  error = part.error;
  effects = effects ++ part.effects;
  mappings = mappings ++ part.mappings;
}

-- The addresses of a segment.
pub record Layout : Type 0 where
  pub map_vaddr : ℕ
  pub map_offset : ℕ
  pub file_total : ℕ
  pub mem_total : ℕ

unfoldable pub layout : ℕ → GenericPhdr → Layout
unfolding page_start round_up
layout page p =
    let map_vaddr = page_start page p.vaddr in
    let delta = p.vaddr - map_vaddr in
    record {
      map_vaddr = map_vaddr;
      map_offset = page_start page p.offset;
      file_total = if p.filesz == 0 then 0 else round_up ((delta + p.filesz) % 2 ^ 64) page;
      mem_total = round_up ((delta + p.memsz) % 2 ^ 64) page;
    }

-- The memset of the bytes between the file's part and the end of its pages.
unfoldable pub clear_tail : GenericPhdr → Layout → List Effect
clear_tail p l =
    let bss_start = (p.vaddr + p.filesz) % 2 ^ 64 in
    let file_page_end = (l.map_vaddr + l.file_total) % 2 ^ 64 in
    let mem_end = (p.vaddr + p.memsz) % 2 ^ 64 in
    let zero_end = (if ltb mem_end file_page_end then mem_end else file_page_end) in
    if ltb p.filesz p.memsz && ltb bss_start zero_end
    then clear bss_start (zero_end - bss_start) ∷ []
    else []

-- The part of map_one_segment for the pages behind those of the file.
unfoldable pub map_bss : GenericPhdr → Layout → SegmentAnswers → Mapped
unfolding failed_with flags_to_prot
map_bss p l answers =
    let address = (l.map_vaddr + l.file_total) % 2 ^ 64 in
    let size = l.mem_total - l.file_total in
    if ltb l.file_total l.mem_total
    then (if answers.bss_map
        then (if answers.bss_tracked
            then record {
              error = none;
              effects = map_zeros address size (flags_to_prot p.flags) ∷ [];
              mappings = (address, size) ∷ [];
            }
            else record {
              error = some out_of_memory;
              effects = map_zeros address size (flags_to_prot p.flags) ∷ unmap address size ∷ [];
              mappings = [];
            })
        else failed_with bss_map_failed)
    else record { error = none; effects = []; mappings = [] }

-- The part for the pages of the file.
unfoldable pub map_file_part : GenericPhdr → Layout → SegmentAnswers → Mapped
unfolding failed_with behind clear_tail map_bss flags_to_prot
map_file_part p l answers =
    let mapped = map_file l.map_vaddr l.file_total l.map_offset in
    if l.file_total == 0
    then map_bss p l answers
    else (if answers.file_map
        then (if answers.file_tracked
            then behind (mapped ∷ clear_tail p l) ((l.map_vaddr, l.file_total) ∷ []) (
                if answers.protected
                then behind (protect l.map_vaddr l.file_total (flags_to_prot p.flags) ∷ []) []
                    (map_bss p l answers)
                else failed_with protect_failed)
            else record {
              error = some out_of_memory;
              effects = mapped ∷ unmap l.map_vaddr l.file_total ∷ [];
              mappings = [];
            })
        else failed_with file_map_failed)

-- `page` is the size of a page, and `size` that of the file.
unfoldable pub map_one_segment : ℕ → ℕ → GenericPhdr → SegmentAnswers → Mapped
unfolding failed_with layout page_start map_file_part
map_one_segment page size p answers =
    let l = layout page p in
    if ltb p.memsz p.filesz
    then failed_with filesz_above_memsz
    else (if ltb size ((p.offset + p.filesz) % 2 ^ 64)
        then failed_with beyond_file
        else (if not (p.offset - l.map_offset == p.vaddr - l.map_vaddr)
            then failed_with not_congruent
            else (if not (l.map_offset % page == 0)
                then failed_with not_aligned
                else map_file_part p l answers)))
