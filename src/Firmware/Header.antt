-- ===== src/Firmware/Header.antt =====
-- fw_header, the little-endian numbers, serialize_header and parse_header of firmware/image.c.
pub mod RoundTrip
use embedded_systems_runtime.Prelude.{
  ℕ, zero, suc, ◌+◌, ◌*◌, ◌/◌, ◌%◌, ◌^◌, Option, none, some, List, [], ◌∷◌, not, ◌||◌, ◌==◌,
  if◌then◌else◌, ◌<◌, replicate, write_at, get_or, bit_or, codes,
}
use embedded_systems_runtime.Protocol.Endian.{at}

abbrev pub fw_magic : ℕ
fw_magic = 0x4d4c4657

abbrev pub fw_format_version : ℕ
fw_format_version = 1

abbrev pub fw_header_size : ℕ
fw_header_size = 40

pub record FwHeader : Type 0 where
  pub major : ℕ
  pub minor : ℕ
  pub patch : ℕ
  pub arch : ℕ
  pub image_size : ℕ
  pub crc32 : ℕ

abbrev pub put_u16_le : List ℕ → ℕ → ℕ → List ℕ
put_u16_le mem p v = write_at mem p ((v % 256) ∷ (v / 2 ^ 8 % 256) ∷ [])

abbrev pub put_u32_le : List ℕ → ℕ → ℕ → List ℕ
put_u32_le mem p v =
    write_at mem p ((v % 256) ∷ (v / 2 ^ 8 % 256) ∷ (v / 2 ^ 16 % 256) ∷ (v / 2 ^ 24 % 256) ∷ [])

abbrev pub put_u64_le : List ℕ → ℕ → ℕ → List ℕ
put_u64_le mem p v = write_at mem p (
    (v % 256)
    ∷ (v / 2 ^ 8 % 256)
    ∷ (v / 2 ^ 16 % 256)
    ∷ (v / 2 ^ 24 % 256)
    ∷ (v / 2 ^ 32 % 256)
    ∷ (v / 2 ^ 40 % 256)
    ∷ (v / 2 ^ 48 % 256)
    ∷ (v / 2 ^ 56 % 256)
    ∷ [])

unfoldable pub get_u16_le : List ℕ → ℕ → ℕ
get_u16_le mem p = bit_or (at mem p) (at mem (p + 1) * 2 ^ 8 % 2 ^ 16) % 2 ^ 16

unfoldable pub get_u32_le : List ℕ → ℕ → ℕ
get_u32_le mem p =
    bit_or
      (bit_or (bit_or (at mem p) (at mem (p + 1) * 2 ^ 8 % 2 ^ 32))
        (at mem (p + 2) * 2 ^ 16 % 2 ^ 32))
      (at mem (p + 3) * 2 ^ 24 % 2 ^ 32)

-- The loop of get_u64_le, from byte `i - 1` down to byte 0.
abbrev pub le_loop : List ℕ → ℕ → ℕ → ℕ → ℕ
le_loop mem p zero v = v
le_loop mem p (suc i) v = le_loop mem p i (bit_or (v * 2 ^ 8 % 2 ^ 64) (at mem (p + i)))

unfoldable pub get_u64_le : List ℕ → ℕ → ℕ
get_u64_le mem p = le_loop mem p 8 0

-- The buffer `out` is cleared first, so its contents do not matter.
unfoldable pub serialize_header : FwHeader → List ℕ
serialize_header h =
    let out = replicate 40 0 in
    let out = put_u32_le out 0 fw_magic in
    let out = put_u16_le out 4 fw_format_version in
    let out = put_u16_le out 6 h.arch in
    let out = put_u16_le out 8 h.major in
    let out = put_u16_le out 10 h.minor in
    let out = put_u16_le out 12 h.patch in
    let out = put_u16_le out 14 fw_header_size in
    let out = put_u64_le out 16 h.image_size in
    let out = put_u32_le out 24 h.crc32 in let out = put_u32_le out 28 0 in put_u64_le out 32 0

unfoldable pub parse_header : List ℕ → Option FwHeader
parse_header buf =
    if not (get_u32_le buf 0 == fw_magic)
    then none
    else (if not (get_u16_le buf 4 == fw_format_version)
          || not (get_u16_le buf 14 == fw_header_size)
        then none
        else some (record {
          arch = get_u16_le buf 6;
          major = get_u16_le buf 8;
          minor = get_u16_le buf 10;
          patch = get_u16_le buf 12;
          image_size = get_u64_le buf 16;
          crc32 = get_u32_le buf 24;
        }))

-- The widths of the fields.
pub record IsHeader (h : FwHeader) : Type 0 where
  pub major_fits : h.major < 2 ^ 16
  pub minor_fits : h.minor < 2 ^ 16
  pub patch_fits : h.patch < 2 ^ 16
  pub arch_fits : h.arch < 2 ^ 16
  pub size_fits : h.image_size < 2 ^ 64
  pub crc_fits : h.crc32 < 2 ^ 32
