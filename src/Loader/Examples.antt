-- ===== src/Loader/Examples.antt =====
-- The theorems on the loader at one segment.
use embedded_systems_runtime.Prelude.{◌+◌, ◌≡◌, refl, true, [], ◌∷◌, ltb, if◌then◌else◌, arith}
use embedded_systems_runtime.Elf.{ElfImage}
use embedded_systems_runtime.Allocator.{round_up}
use embedded_systems_runtime.Loader.{
  GenericPhdr, SegmentAnswers, map_one_segment, map_file_part, layout, page_start, map_bss,
  failed_with, behind,
}
use embedded_systems_runtime.Loader.Memory.{unmapped, zeroed, from_file, cell_of}
use embedded_systems_runtime.Loader.Segment.{map_one_segment-loads}
use embedded_systems_runtime.Loader.Image.{loader_map_image}
use embedded_systems_runtime.Loader.Translate.{
  Loadable, Loaded, elf_vaddr_to_offset, elf_vaddr_to_offset-Loaded,
}
use embedded_systems_runtime.Loader.Cleanup.{CleansUp, loader_map_image-CleansUp}

abbrev text_segment : GenericPhdr
text_segment = record {
  type = 1;
  offset = 0x1010;
  vaddr = 0x40_1010;
  filesz = 100;
  memsz = 9000;
  flags = 6;
}

abbrev all_succeed : SegmentAnswers
all_succeed = record {
  file_map = true;
  file_tracked = true;
  protected = true;
  bss_map = true;
  bss_tracked = true;
}

abbrev some_image : ElfImage
some_image = record { bytes = []; elf_class = 2; machine = 62; type = 2; entry = 0x40_1010 }

map_one_segment-loads_example :
    cell_of
      (map_one_segment 4096 10_000 text_segment all_succeed).effects
      (0x40_1010 + 200)
      unmapped
    ≡ (if ltb 200 100 then from_file (0x1010 + 200) else zeroed)
unfolding map_one_segment map_file_part layout page_start map_bss failed_with behind round_up
map_one_segment-loads_example =
    map_one_segment-loads 4096 10_000 text_segment all_succeed 200 unmapped (omega arith)
      (omega arith) refl (omega arith)

loader_map_image-CleansUp_example :
    CleansUp 0x40_1020
      (loader_map_image 4096 10_000 (λ i. all_succeed) some_image (text_segment ∷ []))
loader_map_image-CleansUp_example =
    loader_map_image-CleansUp 4096 10_000 (λ i. all_succeed) some_image (text_segment ∷ [])
      0x40_1020

text_segment-Loadable : Loadable 4096 10_000 all_succeed text_segment
unfolding map_one_segment map_file_part layout page_start map_bss failed_with behind round_up
text_segment-Loadable = record { succeeds = λ e. refl; memory = omega arith; file = omega arith }

elf_vaddr_to_offset-Loaded_example :
    Loaded 4096 10_000 all_succeed 0x40_1018 0x1018 unmapped (text_segment ∷ [])
unfolding elf_vaddr_to_offset
elf_vaddr_to_offset-Loaded_example =
    elf_vaddr_to_offset-Loaded 4096 10_000 all_succeed 0x40_1018 0x1018 unmapped (omega arith)
      (text_segment ∷ []) (text_segment-Loadable, tt) refl
