-- ===== src/Firmware/Image/Verify.antt =====
-- What verify_image_file of firmware/image.c finds of a file, however the file is read.
use embedded_systems_runtime.Prelude.{
  ℕ, zero, suc, ◌+◌, ◌-◌, ◌%◌, ◌^◌, ◌≤◌, ◌<◌, ◌≡◌, refl, sym, ap, ap₂, ◌∙◌, inl, inr, Option, none,
  some, Bool, true, false, List, [], ◌∷◌, ◌++◌, ◌==◌, leb, ◌&&◌, if◌then◌else◌, Bool-cases, All,
  IsByte, append_assoc, append-nil, length, length-append, take, take-append, drop, drop-append,
  arith,
}
use embedded_systems_runtime.Protocol.Crc.{crc32}
use embedded_systems_runtime.Protocol.Crc.Injective.{crc32-lt}
use embedded_systems_runtime.Protocol.Stream.{ReadEvent, got, WriteEvent}
use embedded_systems_runtime.Protocol.Stream.Transfer.{Complete, stored, length-stored}
use embedded_systems_runtime.Firmware.Header.{FwHeader, IsHeader, serialize_header, parse_header}
use embedded_systems_runtime.Firmware.Header.RoundTrip.{
  parse_header-serialize_header, length-serialize_header,
}
use embedded_systems_runtime.Firmware.Image.{
  fw_max_image, header_bytes, read_image_header, parse_bytes, after_header, check_body, checked,
  same_crc, verify_image_file, copied, Checked, PackIo, pack_image,
}
use embedded_systems_runtime.Firmware.Image.Copy.{Flowing, copy_and_crc_checks}
use embedded_systems_runtime.Firmware.Image.Pack.{
  packed_header, image_file, Packs, pack_image_writes,
}

header_bytes-Complete :
    (n : ℕ) (buf : List ℕ) (es rest : List ReadEvent)
    → Complete n es
    → header_bytes n buf (es ++ rest) ≡ some (some (buf ++ stored es), rest)
unfolding header_bytes
header_bytes-Complete zero buf [] rest c = rw append-nil
header_bytes-Complete (suc n) buf [] rest c = absurd (omega arith)
header_bytes-Complete zero buf (ReadEvent.interrupted ∷ es) rest c = absurd (omega arith)
header_bytes-Complete (suc n) buf (ReadEvent.interrupted ∷ es) rest c =
    header_bytes-Complete (suc n) buf es rest c.1
header_bytes-Complete n buf (ReadEvent.failed ∷ es) rest c = absurd c
header_bytes-Complete zero buf (got bs ∷ es) rest c = absurd (omega arith)
header_bytes-Complete (suc n) buf (got [] ∷ es) rest c = absurd (omega arith)
header_bytes-Complete (suc n) buf (got (b ∷ bs) ∷ es) rest c =
    header_bytes-Complete (n - length bs) (buf ++ (b ∷ bs)) es rest (rw less at c.2)
    ∙ ap (λ l. some (some l, rest)) (append_assoc buf (b ∷ bs) (stored es))
  where
    less : suc n - suc (length bs) ≡ n - length bs
    less = omega arith

-- What the checks are meant to say of a file of `st_size` bytes that starts with the header `h` and
-- goes on with `body`.
unfoldable pub sound : FwHeader → ℕ → List ℕ → Checked
sound h st_size body =
    let size_ok = st_size == (40 + h.image_size) % 2 ^ 64 in
    record {
      header = h;
      size_ok = size_ok;
      crc_ok =
          size_ok
          && (leb h.image_size fw_max_image
              && ((length body == h.image_size) && (crc32 body == h.crc32)));
    }

-- The body's checks, where the tests before them are `s` and `m`, and the length's is `l`.
check_crc :
    (h : FwHeader) (body : List ℕ) (l : Bool)
    → same_crc (copied (if l then some (crc32 body) else none) [] []) h
      ≡ some (l && (crc32 body == h.crc32))
unfolding same_crc
check_crc h body true = refl
check_crc h body false = refl

read_image_header-Complete :
    (es rest : List ReadEvent)
    → Complete 40 es
    → read_image_header (es ++ rest) ≡ some (parse_header (stored es), rest)
unfolding read_image_header parse_bytes
read_image_header-Complete es rest c = ap parse_bytes (header_bytes-Complete 40 [] es rest c)

check_body_lem :
    (h : FwHeader) (st_size : ℕ) (es rest : List ReadEvent)
    → Flowing es
    → length (stored es) < 2 ^ 64
    → check_body h (some st_size) (es ++ (got [] ∷ rest))
      ≡ some (some (sound h st_size (stored es)))
unfolding check_body checked sound
check_body_lem h st_size es rest fl fits =
    elim (Bool-cases (st_size == (40 + h.image_size) % 2 ^ 64)) [
      | inr e ↦ rw e refl
      | inl e ↦ elim (Bool-cases (leb h.image_size fw_max_image)) [
        | inr m ↦ rw (e, m) refl
        | inl m ↦
            rw
              (
                e,
                m,
                copy_and_crc_checks h.image_size [] es rest fl [] fits,
                check_crc h (stored es) (length (stored es) == h.image_size),
              )
              refl
      ]
    ]

-- If a file starts with a header that parses and its body is read to the end in pieces of any size,
-- then verify_image_file returns 0 with the header; it reports a good size exactly if the file's size
-- is that of the header and the image (modulo 2^64), and a good checksum exactly if moreover the
-- image is at most 64 MiB, the body has the image's length and its CRC-32 is the header's.
pub verify_image_file_lem :
    (h : FwHeader) (st_size : ℕ) (es1 es2 rest : List ReadEvent)
    → Complete 40 es1
    → parse_header (stored es1) ≡ some h
    → Flowing es2
    → length (stored es2) < 2 ^ 64
    → verify_image_file true (es1 ++ (es2 ++ (got [] ∷ rest))) (some st_size)
      ≡ some (some (sound h st_size (stored es2)))
unfolding verify_image_file after_header
verify_image_file_lem h st_size es1 es2 rest c parsed fl fits =
    ap (λ r. after_header r (some st_size))
      (read_image_header-Complete es1 (es2 ++ (got [] ∷ rest)) c
        ∙ ap (λ o. some (o, es2 ++ (got [] ∷ rest))) parsed)
    ∙ check_body_lem h st_size es2 rest fl fits

sound_packed :
    (meta : FwHeader) (body : List ℕ)
    → length body ≤ fw_max_image
    → sound (packed_header meta body) (length (image_file meta body)) body
      ≡ record { header = packed_header meta body; size_ok = true; crc_ok = true }
unfolding sound
sound_packed meta body small = rw (sized, bounded, self (length body), self (crc32 body)) refl
  where
    self : (n : ℕ) → (n == n) ≡ true
    self n = ground arith

    bounded : leb (length body) fw_max_image ≡ true
    bounded = ground arith

    sized : (length (image_file meta body) == (40 + length body) % 2 ^ 64) ≡ true
    sized =
        ap (λ (n : ℕ). n == (40 + length body) % 2 ^ 64)
          (length-append (serialize_header (packed_header meta body)) body
            ∙ ap (λ n. n + length body) (length-serialize_header (packed_header meta body)))
        ∙ ap (λ n. (40 + length body) == n) {y = 40 + length body} (omega arith)
        ∙ self (40 + length body)

-- The file of an image is verified.
verify_image_file-image_file :
    (meta : FwHeader) (body : List ℕ) (es1 es2 rest : List ReadEvent)
    → IsHeader meta
    → All IsByte body
    → length body ≤ fw_max_image
    → Complete 40 es1
    → Flowing es2
    → stored es1 ++ stored es2 ≡ image_file meta body
    → verify_image_file true
        (es1 ++ (es2 ++ (got [] ∷ rest)))
        (some (length (image_file meta body)))
      ≡ some (some (record { header = packed_header meta body; size_ok = true; crc_ok = true }))
verify_image_file-image_file meta body es1 es2 rest valid bytes small c fl whole =
    verify_image_file_lem (packed_header meta body) (length (image_file meta body)) es1 es2 rest c
      (ap parse_header header
        ∙ parse_header-serialize_header (packed_header meta body) packed_valid)
      fl (rw tail (omega arith))
    ∙ ap (λ l. some (some (sound (packed_header meta body) (length (image_file meta body)) l))) tail
    ∙ ap (λ r. some (some r)) (sound_packed meta body small)
  where
    packed_valid : IsHeader (packed_header meta body)
    packed_valid = record {
      major_fits = valid.major_fits;
      minor_fits = valid.minor_fits;
      patch_fits = valid.patch_fits;
      arch_fits = valid.arch_fits;
      size_fits = omega arith;
      crc_fits = crc32-lt body bytes;
    }

    same_length : length (stored es1) ≡ length (serialize_header (packed_header meta body))
    same_length = length-stored 40 es1 c ∙ sym (length-serialize_header (packed_header meta body))

    header : stored es1 ≡ serialize_header (packed_header meta body)
    header =
        sym (take-append (stored es1) (stored es2))
        ∙ ap₂ take same_length whole
        ∙ take-append (serialize_header (packed_header meta body)) body

    tail : stored es2 ≡ body
    tail =
        sym (drop-append (stored es1) (stored es2))
        ∙ ap₂ drop same_length whole
        ∙ drop-append (serialize_header (packed_header meta body)) body

-- The file that pack_image leaves behind, if it opens one.
abbrev pub file_of : Option (ℕ × Option (List ℕ)) → List ℕ
file_of none = []
file_of (some (status, none)) = []
file_of (some (status, some file)) = file

-- What pack_image writes, verify_image_file accepts: for an input of at most 64 MiB of bytes, any
-- metadata, and calls that succeed, pack_image returns 0; and if reads, in pieces of any size, give the
-- file that it leaves, then verify_image_file returns 0 with the metadata, the input's length and its
-- CRC-32, and finds the size and the checksum good.
pub verify_image_file-pack_image :
    (meta : FwHeader) (io : PackIo) (ins rest : List ReadEvent) (ws : List (List WriteEvent))
    (es1 es2 rest' : List ReadEvent)
    → IsHeader meta
    → Packs io ins rest ws
    → All IsByte (stored ins)
    → length (stored ins) ≤ fw_max_image
    → Complete 40 es1
    → Flowing es2
    → stored es1 ++ stored es2 ≡ file_of (pack_image meta io)
    → let file = stored es1 ++ stored es2 in
      (pack_image meta io ≡ some (0, some file))
      × (verify_image_file true (es1 ++ (es2 ++ (got [] ∷ rest'))) (some (length file))
          ≡ some (
              some (record {
                header = record meta {
                  image_size = length (stored ins);
                  crc32 = crc32 (stored ins);
                };
                size_ok = true;
                crc_ok = true;
              })))
verify_image_file-pack_image meta io ins rest ws es1 es2 rest' valid p bytes small c fl read =
    let packed = pack_image_writes meta io ins rest ws p small in
    let whole : stored es1 ++ stored es2 ≡ image_file meta (stored ins) =
      read ∙ ap file_of packed in
    (
      packed ∙ ap (λ l. some (0, some l)) (sym whole),
      ap (λ l. verify_image_file true (es1 ++ (es2 ++ (got [] ∷ rest'))) (some (length l))) whole
          ∙ verify_image_file-image_file meta (stored ins) es1 es2 rest' valid bytes small c fl
              whole,
    )
