-- ===== src/Firmware/Image/Pack.antt =====
-- A packed image is verified: pack_image, then verify_image_file of firmware/image.c.
use embedded_systems_runtime.Prelude.{
  ℕ, ◌≤◌, ◌≡◌, refl, sym, ap, ◌∙◌, some, true, false, List, [], ◌∷◌, ◌++◌, ltb, length,
  length-append, take, take_self, drop, write_at, write_at-append, replicate, arith,
}
use embedded_systems_runtime.Protocol.Crc.{crc32}
use embedded_systems_runtime.Protocol.Stream.{ReadEvent, got, WriteEvent, wrote}
use embedded_systems_runtime.Protocol.Stream.Transfer.{stored}
use embedded_systems_runtime.Firmware.Header.{FwHeader, serialize_header}
use embedded_systems_runtime.Firmware.Header.RoundTrip.{length-serialize_header}
use embedded_systems_runtime.Firmware.Image.{
  PackIo, fw_max_image, pack_image, finalize, took_header, header_part, pack_sized, exited,
}
use embedded_systems_runtime.Firmware.Image.Copy.{Flowing, AllTaken, concat, copy_and_crc_copies}

-- The header that pack_image writes for the input `body`.
abbrev pub packed_header : FwHeader → List ℕ → FwHeader
packed_header meta body = record meta { image_size = length body; crc32 = crc32 body }

-- The file of an image.
abbrev pub image_file : FwHeader → List ℕ → List ℕ
image_file meta body = serialize_header (packed_header meta body) ++ body

-- Every call of pack_image succeeds, the input is read to its end, in pieces, and every piece is
-- written.
pub record Packs (io : PackIo) (es rest : List ReadEvent) (ws : List (List WriteEvent))
    : Type 0 where
  pub input_opens : io.input_opens ≡ true
  pub output_opens : io.output_opens ≡ true
  pub sized : io.st_size ≡ some (length (stored es))
  pub first : io.first ≡ wrote 40
  pub reads : io.reads ≡ es ++ (got [] ∷ rest)
  pub writes : io.writes ≡ concat ws ++ []
  pub flowing : Flowing es
  pub taken : AllTaken es ws
  pub seeks : io.seeks ≡ true
  pub last : io.last ≡ wrote 40

header_over :
    (hdr body : List ℕ) → length hdr ≡ 40 → write_at (replicate 40 0 ++ body) 0 hdr ≡ hdr ++ body
header_over hdr body e =
    write_at-append hdr [] (replicate 40 0 ++ body)
      (omega (arith, length-append (replicate 40 0) body))
    ∙ ap (λ n. hdr ++ drop n (replicate 40 0 ++ body)) e

-- pack_image of an input of at most 64 MiB, where every call succeeds, returns 0 and leaves the
-- header followed by the input.
pub pack_image_writes :
    (meta : FwHeader) (io : PackIo) (es rest : List ReadEvent) (ws : List (List WriteEvent))
    → Packs io es rest ws
    → length (stored es) ≤ fw_max_image
    → pack_image meta io ≡ some (0, some (image_file meta (stored es)))
unfolding pack_image pack_sized finalize took_header header_part
pack_image_writes meta io es rest ws p small =
    rw (p.input_opens, p.sized, within, p.output_opens, p.first, p.reads, p.writes, p.seeks, p.last)
      (ap (λ c. finalize h c true (wrote 40))
          (copy_and_crc_copies (length (stored es)) (replicate 40 0) es rest p.flowing ws [] p.taken
            refl (omega arith))
        ∙ ap (λ hdr. exited 0 (some (write_at (replicate 40 0 ++ stored es) 0 hdr)))
            (ap (λ n. take n (serialize_header (packed_header meta (stored es))))
                (sym (length-serialize_header (packed_header meta (stored es))))
              ∙ take_self (serialize_header (packed_header meta (stored es))))
        ∙ ap (λ f. exited 0 (some f))
            (header_over (serialize_header (packed_header meta (stored es))) (stored es)
              (length-serialize_header (packed_header meta (stored es)))))
  where
    h : FwHeader
    h = record meta { image_size = length (stored es) }

    within : ltb fw_max_image (length (stored es)) ≡ false
    within = ground arith
