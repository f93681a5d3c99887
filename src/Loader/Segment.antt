-- ===== src/Loader/Segment.antt =====
-- What map_one_segment of loader/loader.c puts into memory.
use embedded_systems_runtime.Prelude.{
  ℕ, ◌+◌, ◌-◌, ◌%◌, ◌^◌, ◌≤◌, ◌<◌, ◌≡◌, ◌≢◌, refl, sym, ap, ◌∙◌, none, false, not, List, [], ◌∷◌,
  ◌++◌, ◌==◌, ltb, if◌then◌else◌, inl, inr, append_assoc, Bool-cases, ltb→lt, arith,
}
use native.Mathlib.Nat.{mod-lt}
use embedded_systems_runtime.Prelude.Bits.{bit_and-le}
use embedded_systems_runtime.Allocator.{round_up}
use embedded_systems_runtime.Loader.{
  GenericPhdr, Effect, map_file, protect, map_zeros, SegmentAnswers, Mapped, filesz_above_memsz,
  beyond_file, not_congruent, not_aligned, failed_with, flags_to_prot, page_start, behind, Layout,
  layout, clear_tail, map_bss, map_file_part, map_one_segment,
}
use embedded_systems_runtime.Loader.Memory.{
  Cell, zeroed, from_file, cleared, cell_after, cell_of, cell_of-append, Fits,
}

round_up_bounds :
    (n page : ℕ)
    → 0 < page
    → n + page ≤ 2 ^ 64
    → (n ≤ round_up (n % 2 ^ 64) page) × (round_up (n % 2 ^ 64) page < n + page)
unfolding round_up
round_up_bounds n page h b =
    let small : n % 2 ^ 64 ≡ n = omega arith in rw small (ground (arith, mod-lt n {m = page}))

-- Where the parts of a segment lie.
pub record Placed (p : GenericPhdr) (l : Layout) : Type 0 where
  pub starts : l.map_vaddr ≤ p.vaddr
  pub offsets : p.offset ≡ l.map_offset + (p.vaddr - l.map_vaddr)
  pub in_file : p.filesz ≤ p.memsz
  pub no_file : p.filesz ≡ 0 → l.file_total ≡ 0
  pub file_end : p.filesz ≢ 0 → p.vaddr + p.filesz ≤ l.map_vaddr + l.file_total
  pub file_fits : l.map_vaddr + l.file_total < 2 ^ 64
  pub mem_end : p.vaddr + p.memsz ≤ l.map_vaddr + l.mem_total
  pub mem_fits : p.vaddr + p.memsz < 2 ^ 64

layout-Placed : (page : ℕ) (p : GenericPhdr) → Fits page p → Placed p (layout page p)
unfolding layout page_start
layout-Placed page p f =
    let d = p.vaddr - page_start page p.vaddr in
    let low = bit_and-le p.vaddr (2 ^ 64 - page) in
    let low_offset = bit_and-le p.offset (2 ^ 64 - page) in
    let congruent = f.congruent in
    let file =
      round_up_bounds (d + p.filesz) page f.some_page (omega (arith, f.memory, f.in_file, low)) in
    let mem = round_up_bounds (d + p.memsz) page f.some_page (omega (arith, f.memory, low)) in
    record {
      starts = low;
      offsets = omega (arith, low, low_offset, congruent);
      in_file = f.in_file;
      no_file = ground arith;
      file_end = ground (arith, file, low);
      file_fits = ground (arith, file, low, f.memory, f.in_file, f.some_page);
      mem_end = omega (arith, mem, low);
      mem_fits = omega (arith, f.memory, f.some_page);
    }

-- The effects of a segment that is mapped.
abbrev file_effects : GenericPhdr → Layout → List Effect
file_effects p l =
    if l.file_total == 0
    then []
    else map_file l.map_vaddr l.file_total l.map_offset
      ∷ (clear_tail p l ++ protect l.map_vaddr l.file_total (flags_to_prot p.flags) ∷ [])

abbrev bss_effects : GenericPhdr → Layout → List Effect
bss_effects p l =
    if ltb l.file_total l.mem_total
    then map_zeros ((l.map_vaddr + l.file_total) % 2 ^ 64) (l.mem_total - l.file_total)
        (flags_to_prot p.flags)
      ∷ []
    else []

module _ (p : GenericPhdr) (l : Layout) (d : Placed p l) (i : ℕ) (h : i < p.memsz) where
  bss_cell :
      (c : Cell)
      → cell_of (bss_effects p l) (p.vaddr + i) c
        ≡ (if ltb (p.vaddr + i) (l.map_vaddr + l.file_total) then c else zeroed)
  unfolding cell_of cell_after
  bss_cell c = ground (arith, d.file_fits, d.mem_end, d.starts)

  file_cell :
      (c : Cell)
      → (p.vaddr + i < l.map_vaddr + l.file_total)
      → cell_of (file_effects p l) (p.vaddr + i) c
        ≡ (if ltb i p.filesz then from_file (p.offset + i) else zeroed)
  unfolding cell_of cell_after cleared clear_tail
  file_cell c low =
      ground (arith, d.starts, d.offsets, d.in_file, d.no_file, d.file_end, d.file_fits, d.mem_fits)

  segment_cell :
      (c : Cell)
      → cell_of (file_effects p l ++ bss_effects p l) (p.vaddr + i) c
        ≡ (if ltb i p.filesz then from_file (p.offset + i) else zeroed)
  segment_cell c =
      cell_of-append (file_effects p l) (bss_effects p l) (p.vaddr + i) c
      ∙ bss_cell (cell_of (file_effects p l) (p.vaddr + i) c)
      ∙ (elim (Bool-cases (ltb (p.vaddr + i) (l.map_vaddr + l.file_total))) [
        | inl e ↦ rw e (file_cell c (ltb→lt (p.vaddr + i) (l.map_vaddr + l.file_total) e))
        | inr e ↦ rw (e, behind_file e) refl
      ])
    where
      behind_file : ltb (p.vaddr + i) (l.map_vaddr + l.file_total) ≡ false → ltb i p.filesz ≡ false
      behind_file e = ground (arith, d.file_end)

map_bss-effects :
    (p : GenericPhdr) (l : Layout) (answers : SegmentAnswers)
    → (map_bss p l answers).error ≡ none
    → (map_bss p l answers).effects ≡ bss_effects p l
unfolding map_bss failed_with
map_bss-effects p l answers h = ground arith

map_file_part-effects :
    (p : GenericPhdr) (l : Layout) (answers : SegmentAnswers)
    → (map_file_part p l answers).error ≡ none
    → (map_file_part p l answers).effects ≡ file_effects p l ++ bss_effects p l
unfolding map_file_part failed_with behind
map_file_part-effects p l answers h =
    let q : Mapped = map_bss p l answers in
    ground (
      arith,
      h,
      map_bss-effects p l answers,
      append_assoc (clear_tail p l) (protect l.map_vaddr l.file_total (flags_to_prot p.flags) ∷ [])
          q.effects,
    )

-- The tests of map_one_segment, and what it does where they are passed.
record Tested (page : ℕ) (p : GenericPhdr) (answers : SegmentAnswers) (m : Mapped) : Type 0 where
  in_file : p.filesz ≤ p.memsz
  congruent : p.offset - (layout page p).map_offset ≡ p.vaddr - (layout page p).map_vaddr
  same : m ≡ map_file_part p (layout page p) answers

abbrev behind_tests : ℕ → ℕ → GenericPhdr → Layout → Mapped → Mapped
behind_tests page size p l part =
    if ltb p.memsz p.filesz
    then failed_with filesz_above_memsz
    else (if ltb size ((p.offset + p.filesz) % 2 ^ 64)
        then failed_with beyond_file
        else (if not (p.offset - l.map_offset == p.vaddr - l.map_vaddr)
            then failed_with not_congruent
            else (if not (l.map_offset % page == 0) then failed_with not_aligned else part)))

tests_passed :
    (page size : ℕ) (p : GenericPhdr) (l : Layout) (part : Mapped)
    → (behind_tests page size p l part).error ≡ none
    → (p.filesz ≤ p.memsz)
      × (p.offset - l.map_offset ≡ p.vaddr - l.map_vaddr)
      × (behind_tests page size p l part ≡ part)
unfolding failed_with
tests_passed page size p l part h = ground arith

map_one_segment-Tested :
    (page size : ℕ) (p : GenericPhdr) (answers : SegmentAnswers)
    → (map_one_segment page size p answers).error ≡ none
    → Tested page p answers (map_one_segment page size p answers)
unfolding map_one_segment
map_one_segment-Tested page size p answers h =
    let t = tests_passed page size p (layout page p) (map_file_part p (layout page p) answers) h in
    record { in_file = t.0; congruent = t.1; same = t.2 }

-- What is mapped without an error has no more bytes in the file than in memory.
pub map_one_segment-in_file :
    (page size : ℕ) (p : GenericPhdr) (answers : SegmentAnswers)
    → (map_one_segment page size p answers).error ≡ none
    → p.filesz ≤ p.memsz
map_one_segment-in_file page size p answers h =
    (map_one_segment-Tested page size p answers h).in_file

-- A segment that map_one_segment maps without an error, whose addresses fit with a page to spare, stands
-- in memory: byte i of it is byte i of its part of the file, and zero from filesz on, whatever was
-- there.
pub map_one_segment-loads :
    (page size : ℕ) (p : GenericPhdr) (answers : SegmentAnswers) (i : ℕ) (c : Cell)
    → 0 < page
    → p.vaddr + p.memsz + page ≤ 2 ^ 64
    → (map_one_segment page size p answers).error ≡ none
    → i < p.memsz
    → cell_of (map_one_segment page size p answers).effects (p.vaddr + i) c
      ≡ (if ltb i p.filesz then from_file (p.offset + i) else zeroed)
map_one_segment-loads page size p answers i c pos fits h less =
    let t = map_one_segment-Tested page size p answers h in
    let done : (map_file_part p (layout page p) answers).error ≡ none =
      ap (λ (m : Mapped). m.error) (sym t.same) ∙ h in
    let placed = layout-Placed page p (record {
      some_page = pos;
      memory = fits;
      in_file = t.in_file;
      congruent = unfold layout in t.congruent;
    }) in
    ap (λ (m : Mapped). cell_of m.effects (p.vaddr + i) c) t.same
    ∙ ap (λ (es : List Effect). cell_of es (p.vaddr + i) c)
        (map_file_part-effects p (layout page p) answers done)
    ∙ segment_cell p (layout page p) placed i less c
