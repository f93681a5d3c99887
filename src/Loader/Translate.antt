-- ===== src/Loader/Translate.antt =====
-- elf_vaddr_to_offset of elf/elf_parser.c, and that it agrees with what loader/loader.c maps. The
-- program headers are a list; those of both classes are read in the same way.
use embedded_systems_runtime.Prelude.{
  ℕ, ◌+◌, ◌-◌, ◌%◌, ◌^◌, ◌≤◌, ◌<◌, ◌≡◌, ap, ◌∙◌, Option, none, some, Bool, ◌&&◌, List, [], ◌∷◌,
  ◌==◌, ltb, leb, if◌then◌else◌, All, Bool-cases, inl, inr, arith,
}
use embedded_systems_runtime.Loader.{GenericPhdr, SegmentAnswers, map_one_segment}
use embedded_systems_runtime.Loader.Image.{pt_load}
use embedded_systems_runtime.Loader.Memory.{Cell, from_file, cell_of}
use embedded_systems_runtime.Loader.Segment.{map_one_segment-loads, map_one_segment-in_file}

unfoldable pub holds_address : ℕ → GenericPhdr → Bool
holds_address vaddr p =
    p.type == pt_load && (leb p.vaddr vaddr && ltb vaddr ((p.vaddr + p.filesz) % 2 ^ 64))

unfoldable pub elf_vaddr_to_offset : List GenericPhdr → ℕ → Option ℕ
unfolding holds_address
elf_vaddr_to_offset [] vaddr = none
elf_vaddr_to_offset (p ∷ phdrs) vaddr =
    if holds_address vaddr p
    then some ((p.offset + (vaddr - p.vaddr)) % 2 ^ 64)
    else elf_vaddr_to_offset phdrs vaddr

-- A segment to load is mapped without an error, and neither its addresses nor its offsets run over 2^64.
pub record Loadable (page size : ℕ) (answers : SegmentAnswers) (p : GenericPhdr) : Type 0 where
  pub succeeds : p.type ≡ 1 → (map_one_segment page size p answers).error ≡ none
  pub memory : p.vaddr + p.memsz + page ≤ 2 ^ 64
  pub file : p.offset + p.filesz < 2 ^ 64

-- Some segment of the list has the byte of the file at `off` at the address.
pub data Loaded (page size : ℕ) (answers : SegmentAnswers) (vaddr off : ℕ) (c : Cell)
    : List GenericPhdr → Type 0 where
  by_first :
      (p : GenericPhdr) (phdrs : List GenericPhdr)
      → p.type ≡ 1
      → cell_of (map_one_segment page size p answers).effects vaddr c ≡ from_file off
      → Loaded page size answers vaddr off c (p ∷ phdrs)
  by_later :
      (p : GenericPhdr) (phdrs : List GenericPhdr)
      → Loaded page size answers vaddr off c phdrs
      → Loaded page size answers vaddr off c (p ∷ phdrs)

module _ (page size : ℕ) (answers : SegmentAnswers) (vaddr off : ℕ) (c : Cell)
    (pos : 0 < page) where
  loaded_first :
      (p : GenericPhdr) (i : ℕ)
      → vaddr ≡ p.vaddr + i
      → i < p.filesz
      → p.type ≡ 1
      → Loadable page size answers p
      → (p.offset + i) % 2 ^ 64 ≡ off
      → cell_of (map_one_segment page size p answers).effects vaddr c ≡ from_file off
  loaded_first p i e less t l f =
      let fits : p.filesz ≤ p.memsz = map_one_segment-in_file page size p answers (l.succeeds t) in
      let offset : p.offset + i ≡ off = omega (arith, l.file) in
      ap (λ x. cell_of (map_one_segment page size p answers).effects x c) e
      ∙ map_one_segment-loads page size p answers i c pos l.memory (l.succeeds t) (omega arith)
      ∙ ground (arith, ap from_file offset)

  -- Where elf_vaddr_to_offset finds an offset for an address, among headers whose segments to load are
  -- mapped without an error and do not run over 2^64, one of these segments puts the byte of the file at
  -- that offset at the address.
  pub elf_vaddr_to_offset-Loaded :
      (phdrs : List GenericPhdr)
      → All (Loadable page size answers) phdrs
      → elf_vaddr_to_offset phdrs vaddr ≡ some off
      → Loaded page size answers vaddr off c phdrs
  unfolding elf_vaddr_to_offset holds_address
  elf_vaddr_to_offset-Loaded [] l h = absurd (ground arith)
  elf_vaddr_to_offset-Loaded (p ∷ phdrs) (l, ls) h = elim (Bool-cases (holds_address vaddr p)) [
    | inl e ↦ by_first p phdrs (ground (arith, e)) (
        loaded_first p (vaddr - p.vaddr) (ground (arith, e)) (ground (arith, e, l.memory))
          (ground (arith, e)) l (ground (arith, rw e at h)))
    | inr e ↦ by_later p phdrs (elf_vaddr_to_offset-Loaded phdrs ls (rw e at h))
  ]
