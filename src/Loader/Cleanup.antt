-- ===== src/Loader/Cleanup.antt =====
-- What loader/loader.c maps is in its list of mappings, so that nothing of it is left when it is undone.
use embedded_systems_runtime.Prelude.{
  ℕ, suc, ◌+◌, ◌-◌, ◌%◌, ◌^◌, ◌≡◌, ◌≢◌, ◌⊎◌, refl, ◌∙◌, inl, inr, Option, none, some, not, ◌||◌,
  List, [], ◌∷◌, ◌++◌, ◌==◌, ltb, if◌then◌else◌, if_both, arith,
}
use embedded_systems_runtime.Elf.{ElfImage}
use embedded_systems_runtime.Loader.{
  GenericPhdr, LoaderError, protect, SegmentAnswers, Mapped, flags_to_prot, failed_with, behind,
  Layout, layout, map_bss, map_file_part, map_one_segment, bss_map_failed, protect_failed,
  file_map_failed, filesz_above_memsz, beyond_file, not_congruent, not_aligned, not_exec,
  has_interp,
}
use embedded_systems_runtime.Loader.Memory.{Cell, unmapped, cell_after, cell_of, cell_of-append}
use embedded_systems_runtime.Loader.Image.{
  et_exec, pt_load, image_has_interp, loader_unmap_all, after_segment, map_segments,
  unmapped_on_error, loader_map_image,
}
use embedded_systems_runtime.Loader.Covers.{
  Covers, in_any, cell_of-unmap_all, KeepsList, Keeps, KeepsList-none, KeepsList-append,
  failed_with-Keeps, map_file-KeepsList, map_zeros-KeepsList, undone-KeepsList,
  clear_tail-KeepsList, Covers-more,
}

map_bss-Keeps :
    (p : GenericPhdr) (l : Layout) (answers : SegmentAnswers) → Keeps (map_bss p l answers)
unfolding map_bss
map_bss-Keeps p l answers =
    let zeros =
      map_zeros-KeepsList ((l.map_vaddr + l.file_total) % 2 ^ 64) (l.mem_total - l.file_total)
        (flags_to_prot p.flags) in
    if_both Keeps (ltb l.file_total l.mem_total) _ _
      (if_both Keeps answers.bss_map _ _
        (if_both Keeps answers.bss_tracked _ _ zeros (undone-KeepsList _ _ _ zeros))
        (failed_with-Keeps bss_map_failed))
      KeepsList-none

map_file_part-Keeps :
    (p : GenericPhdr) (l : Layout) (answers : SegmentAnswers) → Keeps (map_file_part p l answers)
unfolding map_file_part behind
map_file_part-Keeps p l answers =
    let mapped = map_file-KeepsList l.map_vaddr l.file_total l.map_offset in
    let tail = KeepsList-append _ _ _ _ mapped (clear_tail-KeepsList p l) in
    if_both Keeps (l.file_total == 0) _ _ (map_bss-Keeps p l answers) (
      if_both Keeps answers.file_map _ _
        (if_both Keeps answers.file_tracked _ _
          (KeepsList-append _ _ _ _ tail (
            if_both Keeps answers.protected _ _
              (KeepsList-append _ _ [] _ protect-KeepsList (map_bss-Keeps p l answers))
              (failed_with-Keeps protect_failed)))
          (undone-KeepsList _ _ _ mapped))
        (failed_with-Keeps file_map_failed))
  where
    protect-KeepsList : KeepsList (protect l.map_vaddr l.file_total (flags_to_prot p.flags) ∷ []) []
    protect-KeepsList ms x c h = unfold cell_of cell_after in Covers-more ms [] x c h

map_one_segment-Keeps :
    (page size : ℕ) (p : GenericPhdr) (answers : SegmentAnswers)
    → Keeps (map_one_segment page size p answers)
unfolding map_one_segment
map_one_segment-Keeps page size p answers =
    let l = layout page p in
    if_both Keeps (ltb p.memsz p.filesz) _ _ (failed_with-Keeps filesz_above_memsz) (
      if_both Keeps (ltb size ((p.offset + p.filesz) % 2 ^ 64)) _ _ (failed_with-Keeps beyond_file)
        (if_both Keeps (not (p.offset - l.map_offset == p.vaddr - l.map_vaddr)) _ _
          (failed_with-Keeps not_congruent)
          (if_both Keeps (not (l.map_offset % page == 0)) _ _ (failed_with-Keeps not_aligned)
            (map_file_part-Keeps p l answers))))

after_segment-Keeps :
    (part rest : Mapped) → Keeps part → Keeps rest → Keeps (after_segment part rest)
unfolding after_segment behind
after_segment-Keeps part rest k l =
    elim part.error
      as (λ (o : Option LoaderError).
        Keeps (elim o [ none ↦ behind part.effects part.mappings rest | some e ↦ part ])) [
          | none ↦ KeepsList-append part.effects rest.effects part.mappings rest.mappings k l
          | some e ↦ k
        ]

map_segments-Keeps :
    (page size : ℕ) (answers : ℕ → SegmentAnswers) (i : ℕ) (phdrs : List GenericPhdr)
    → Keeps (map_segments page size answers i phdrs)
unfolding map_segments
map_segments-Keeps page size answers i [] = KeepsList-none
map_segments-Keeps page size answers i (p ∷ phdrs) =
    let rest = map_segments-Keeps page size answers (suc i) phdrs in
    if_both Keeps (not (p.type == pt_load) || p.memsz == 0) _ _ rest (
      after_segment-Keeps (map_one_segment page size p (answers i))
        (map_segments page size answers (suc i) phdrs)
        (map_one_segment-Keeps page size p (answers i)) rest)

-- Undoing a list that is complete leaves nothing.
undone :
    (m : Mapped) (x : ℕ)
    → Keeps m
    → cell_of (m.effects ++ loader_unmap_all m.mappings) x unmapped ≡ unmapped
undone m x k =
    cell_of-append m.effects (loader_unmap_all m.mappings) x unmapped
    ∙ cell_of-unmap_all m.mappings x (cell_of m.effects x unmapped)
    ∙ nothing_left (k [] x unmapped (inl refl))
  where
    nothing_left :
        Covers m.mappings x (cell_of m.effects x unmapped)
        → (if in_any m.mappings x then unmapped else cell_of m.effects x unmapped) ≡ unmapped
    nothing_left (inl e) =
        rw e
          (if_both (λ (c : Cell). c ≡ unmapped) (in_any m.mappings x) unmapped unmapped refl refl)
    nothing_left (inr e) = rw e refl

-- What is left at `x` of a result, in memory that was free: nothing, once the list of mappings is undone;
-- and nothing at once, with an empty list, after an error.
abbrev pub CleansUp : ℕ → Mapped → Type 0
CleansUp x m =
    ((m.error ≡ none) × (cell_of (m.effects ++ loader_unmap_all m.mappings) x unmapped ≡ unmapped))
    ⊎ ((m.error ≢ none) × (m.mappings ≡ []) × (cell_of m.effects x unmapped ≡ unmapped))

failed_with-CleansUp : (x : ℕ) (e : LoaderError) → CleansUp x (failed_with e)
unfolding failed_with cell_of
failed_with-CleansUp x e = inr (λ h. absurd (ground arith), refl, refl)

unmapped_on_error-CleansUp : (x : ℕ) (m : Mapped) → Keeps m → CleansUp x (unmapped_on_error m)
unfolding unmapped_on_error
unmapped_on_error-CleansUp x m k = by_error m.error refl
  where
    by_error :
        (o : Option LoaderError)
        → m.error ≡ o
        → CleansUp x (elim o [
          | none ↦ m
          | some e ↦ record {
            error = some e;
            effects = m.effects ++ loader_unmap_all m.mappings;
            mappings = [];
          }
        ])
    by_error none e = inl (e, undone m x k)
    by_error (some err) e = inr (λ h. absurd (ground arith), refl, undone m x k)

-- Where loader_map_image maps an image into memory that was free, and whatever calls fail: an error
-- leaves nothing mapped and an empty list of mappings, and after a success loader_unmap_all with the
-- list of mappings leaves nothing mapped.
pub loader_map_image-CleansUp :
    (page size : ℕ) (answers : ℕ → SegmentAnswers) (image : ElfImage) (phdrs : List GenericPhdr)
    (x : ℕ)
    → CleansUp x (loader_map_image page size answers image phdrs)
unfolding loader_map_image
loader_map_image-CleansUp page size answers image phdrs x =
    if_both (CleansUp x) (not (image.type == et_exec)) _ _ (failed_with-CleansUp x not_exec) (
      if_both (CleansUp x) (image_has_interp phdrs) _ _ (failed_with-CleansUp x has_interp) (
        unmapped_on_error-CleansUp x (map_segments page size answers 0 phdrs)
          (map_segments-Keeps page size answers 0 phdrs)))
