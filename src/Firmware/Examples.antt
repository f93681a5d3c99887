-- ===== src/Firmware/Examples.antt =====
-- The theorems on firmware images at an image of three bytes.
use embedded_systems_runtime.Prelude.{
  ℕ, ◌≡◌, ◌↔◌, refl, some, Option, true, false, List, [], ◌∷◌, ◌++◌, length, codes, arith,
}
use embedded_systems_runtime.Protocol.Stream.{ReadEvent, got, wrote}
use embedded_systems_runtime.Protocol.Stream.Transfer.{stored}
use embedded_systems_runtime.Protocol.Crc.{crc32_end, crc32}
use embedded_systems_runtime.Firmware.Header.{FwHeader, IsHeader, serialize_header, parse_header}
use embedded_systems_runtime.Firmware.Header.RoundTrip.{parse_header-serialize_header}
use embedded_systems_runtime.Firmware.Image.{
  PackIo, copy_loop, copy_and_crc, pack_image, verify_image_file,
}
use embedded_systems_runtime.Firmware.Image.Pack.{packed_header}
use embedded_systems_runtime.Firmware.Image.Verify.{
  sound, verify_image_file_lem, verify_image_file-pack_image,
}
use embedded_systems_runtime.Firmware.Policy.{
  Accepted, check_update_policy, check_update_policy_lem,
}

abbrev meta : FwHeader
meta = record { major = 1; minor = 2; patch = 3; arch = 2; image_size = 0; crc32 = 0 }

meta-IsHeader : IsHeader meta
meta-IsHeader = record {
  major_fits = omega arith;
  minor_fits = omega arith;
  patch_fits = omega arith;
  arch_fits = omega arith;
  size_fits = omega arith;
  crc_fits = omega arith;
}

parse_header-serialize_header_example : parse_header (serialize_header meta) ≡ some meta
parse_header-serialize_header_example = parse_header-serialize_header meta meta-IsHeader

-- The image, read in two pieces with an interruption between them.
abbrev body : List ℕ
body = 7 ∷ 8 ∷ 9 ∷ []

abbrev body_reads : List ReadEvent
body_reads = got (7 ∷ 8 ∷ []) ∷ ReadEvent.interrupted ∷ got (9 ∷ []) ∷ []

abbrev header_read : List ReadEvent
header_read = got (serialize_header meta) ∷ []

verify_image_file_lem_example :
    verify_image_file true (header_read ++ (body_reads ++ (got [] ∷ []))) (some 43)
    ≡ some (some (sound meta 43 body))
unfolding serialize_header
verify_image_file_lem_example =
    verify_image_file_lem meta 43 header_read body_reads [] (omega arith)
      parse_header-serialize_header_example (omega arith) (omega arith)

abbrev packed_read : List ReadEvent
packed_read = got (serialize_header (packed_header meta body)) ∷ []

-- Every call succeeds, and the two pieces of the input are written in three.
abbrev some_io : PackIo
some_io = record {
  input_opens = true;
  st_size = some 3;
  output_opens = true;
  first = wrote 40;
  reads = body_reads ++ (got [] ∷ []);
  writes = wrote 1 ∷ wrote 1 ∷ wrote 1 ∷ [];
  seeks = true;
  last = wrote 40;
}

verify_image_file-pack_image_example :
    let file = stored packed_read ++ stored body_reads in
    (pack_image meta some_io ≡ some (0, some file))
    × (verify_image_file true (packed_read ++ (body_reads ++ (got [] ∷ []))) (some (length file))
        ≡ some (
            some (record {
              header = record meta { image_size = 3; crc32 = crc32 body };
              size_ok = true;
              crc_ok = true;
            })))
unfolding serialize_header pack_image copy_and_crc copy_loop crc32_end crc32
verify_image_file-pack_image_example =
    verify_image_file-pack_image meta some_io body_reads []
      ((wrote 1 ∷ wrote 1 ∷ []) ∷ (wrote 1 ∷ []) ∷ []) packed_read body_reads [] meta-IsHeader
      record {
        input_opens = refl;
        output_opens = refl;
        sized = refl;
        first = refl;
        reads = refl;
        writes = refl;
        flowing = omega arith;
        taken = omega arith;
        seeks = refl;
        last = refl;
      }
      (omega arith) (omega arith) (omega arith) (omega arith) refl

-- A scanner that reads every text as 1.2.2.
abbrev scan : List ℕ → Option (ℕ × ℕ × ℕ)
scan s = some (1, 2, 2)

check_update_policy_lem_example :
    (check_update_policy scan
        (codes "1.2.2")
        false
        true
        (packed_read ++ (body_reads ++ (got [] ∷ [])))
        (some 43)
      ≡ some 0)
    ↔ Accepted scan
        (codes "1.2.2")
        false
        (verify_image_file true (packed_read ++ (body_reads ++ (got [] ∷ []))) (some 43))
check_update_policy_lem_example =
    check_update_policy_lem scan (codes "1.2.2") false true
      (packed_read ++ (body_reads ++ (got [] ∷ []))) (some 43)
