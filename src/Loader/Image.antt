-- ===== src/Loader/Image.antt =====
-- image_has_interp, loader_map_image, loader_unmap_all and loader_can_execute of loader/loader.c. What
-- get_phdr reads is a list of program headers.
use embedded_systems_runtime.Prelude.{
  ℕ, suc, none, some, Bool, true, false, not, ◌&&◌, ◌||◌, List, [], ◌∷◌, ◌++◌, ◌==◌, if◌then◌else◌,
}
use embedded_systems_runtime.Elf.{ElfImage}
use embedded_systems_runtime.Loader.{
  GenericPhdr, not_exec, has_interp, Effect, unmap, SegmentAnswers, Mapped, failed_with, behind,
  map_one_segment,
}

-- ET_EXEC, PT_LOAD and PT_INTERP
abbrev pub et_exec : ℕ
et_exec = 2

abbrev pub pt_load : ℕ
pt_load = 1

abbrev pub pt_interp : ℕ
pt_interp = 3

unfoldable pub image_has_interp : List GenericPhdr → Bool
image_has_interp [] = false
image_has_interp (p ∷ phdrs) = if p.type == pt_interp then true else image_has_interp phdrs

-- The mappings are unmapped from the last one on.
unfoldable pub loader_unmap_all : List (ℕ × ℕ) → List Effect
loader_unmap_all [] = []
loader_unmap_all ((address, size) ∷ mappings) = loader_unmap_all mappings ++ unmap address size ∷ []

unfoldable pub after_segment : Mapped → Mapped → Mapped
unfolding behind
after_segment part rest = elim part.error [
  | none ↦ behind part.effects part.mappings rest
  | some e ↦ part
]

-- The loop over the program headers, from number `i` on, up to the first segment that fails.
unfoldable pub map_segments : ℕ → ℕ → (ℕ → SegmentAnswers) → ℕ → List GenericPhdr → Mapped
unfolding after_segment map_one_segment
map_segments page size answers i [] = record { error = none; effects = []; mappings = [] }
map_segments page size answers i (p ∷ phdrs) =
    let rest = map_segments page size answers (suc i) phdrs in
    if not (p.type == pt_load) || p.memsz == 0
    then rest
    else after_segment (map_one_segment page size p (answers i)) rest

unfoldable pub unmapped_on_error : Mapped → Mapped
unfolding loader_unmap_all
unmapped_on_error m = elim m.error [
  | none ↦ m
  | some e ↦ record {
    error = some e;
    effects = m.effects ++ loader_unmap_all m.mappings;
    mappings = [];
  }
]

unfoldable pub loader_map_image :
    ℕ → ℕ → (ℕ → SegmentAnswers) → ElfImage → List GenericPhdr → Mapped
unfolding failed_with image_has_interp map_segments unmapped_on_error
loader_map_image page size answers image phdrs =
    if not (image.type == et_exec)
    then failed_with not_exec
    else (if image_has_interp phdrs
        then failed_with has_interp
        else unmapped_on_error (map_segments page size answers 0 phdrs))

-- The choice of the preprocessor.
pub data Build : Type 0 where
  x86_64 i386 other_build : Build

unfoldable pub runs_on : Build → ElfImage → Bool
runs_on x86_64 image = image.elf_class == 2 && image.machine == 62
runs_on i386 image = image.elf_class == 1 && image.machine == 3
runs_on other_build image = false

unfoldable pub loader_can_execute : Build → ElfImage → List GenericPhdr → Bool
unfolding image_has_interp runs_on
loader_can_execute build image phdrs =
    if not (image.type == et_exec)
    then false
    else (if image_has_interp phdrs then false else runs_on build image)
