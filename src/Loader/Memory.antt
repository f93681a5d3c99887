-- ===== src/Loader/Memory.antt =====
-- What the effects of loader/loader.c leave in memory.
use embedded_systems_runtime.Prelude.{
  ℕ, ◌+◌, ◌-◌, ◌^◌, ◌≤◌, ◌<◌, ◌≡◌, refl, Bool, ◌&&◌, List, [], ◌∷◌, ◌++◌, ltb, leb, if◌then◌else◌,
}
use embedded_systems_runtime.Loader.{
  GenericPhdr, Effect, map_file, clear, protect, map_zeros, unmap, page_start,
}

-- What stands at an address: nothing, the byte of the file at an offset, or a zero.
pub data Cell : Type 0 where
  unmapped zeroed : Cell
  from_file : ℕ → Cell

abbrev pub inside : ℕ → ℕ → ℕ → Bool
inside start size x = leb start x && ltb x (start + size)

-- A store to memory that is not mapped changes nothing: the process does not go on.
unfoldable pub cleared : Cell → Cell
cleared unmapped = unmapped
cleared zeroed = zeroed
cleared (from_file k) = zeroed

unfoldable pub cell_after : Effect → ℕ → Cell → Cell
unfolding cleared
cell_after (map_file start size offset) x c =
    if inside start size x then from_file (offset + (x - start)) else c
cell_after (clear start size) x c = if inside start size x then cleared c else c
cell_after (protect start size prot) x c = c
cell_after (map_zeros start size prot) x c = if inside start size x then zeroed else c
cell_after (unmap start size) x c = if inside start size x then unmapped else c

unfoldable pub cell_of : List Effect → ℕ → Cell → Cell
unfolding cell_after
cell_of [] x c = c
cell_of (e ∷ effects) x c = cell_of effects x (cell_after e x c)

pub cell_of-append :
    (es fs : List Effect) (x : ℕ) (c : Cell)
    → cell_of (es ++ fs) x c ≡ cell_of fs x (cell_of es x c)
unfolding cell_of
cell_of-append [] fs x c = refl
cell_of-append (e ∷ es) fs x c = cell_of-append es fs x (cell_after e x c)

-- The addresses of a segment do not run over 2^64, with a page to spare.
pub record Fits (page : ℕ) (p : GenericPhdr) : Type 0 where
  pub some_page : 0 < page
  pub memory : p.vaddr + p.memsz + page ≤ 2 ^ 64
  pub in_file : p.filesz ≤ p.memsz
  pub congruent : p.offset - page_start page p.offset ≡ p.vaddr - page_start page p.vaddr
