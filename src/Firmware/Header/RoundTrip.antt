-- ===== src/Firmware/Header/RoundTrip.antt =====
-- A header that serialize_header wrote is the header that parse_header reads.
use embedded_systems_runtime.Prelude.{
  ℕ, zero, suc, ◌+◌, ◌*◌, ◌/◌, ◌%◌, ◌^◌, ◌<◌, ◌≡◌, refl, ap, ◌∙◌, some, List, length, bit_or, arith,
}
use embedded_systems_runtime.Prelude.Bits.{bit_or-disjoint, bit_or_comm}
use embedded_systems_runtime.Protocol.Endian.{at}
use embedded_systems_runtime.Firmware.Header.{
  FwHeader, IsHeader, get_u16_le, get_u32_le, get_u64_le, le_loop, serialize_header, parse_header,
}

low_or : (k r q x : ℕ) → r < 2 ^ k → x ≡ q * 2 ^ k → bit_or r x ≡ x + r
low_or k r q x h e = bit_or_comm r x ∙ bit_or-disjoint k x r q e h

pub get_u16_le-put :
    (mem : List ℕ) (p v : ℕ)
    → v < 2 ^ 16
    → at mem p ≡ v % 256
    → at mem (p + 1) ≡ v / 2 ^ 8 % 256
    → get_u16_le mem p ≡ v
unfolding get_u16_le
get_u16_le-put mem p v h e0 e1 = omega (
  arith,
  low_or 8 (at mem p) (at mem (p + 1)) (at mem (p + 1) * 2 ^ 8 % 2 ^ 16) (omega arith)
      (omega arith),
)

pub get_u32_le-put :
    (mem : List ℕ) (p v : ℕ)
    → v < 2 ^ 32
    → at mem p ≡ v % 256
    → at mem (p + 1) ≡ v / 2 ^ 8 % 256
    → at mem (p + 2) ≡ v / 2 ^ 16 % 256
    → at mem (p + 3) ≡ v / 2 ^ 24 % 256
    → get_u32_le mem p ≡ v
unfolding get_u32_le
get_u32_le-put mem p v h e0 e1 e2 e3 =
    let a = at mem p in
    let b = at mem (p + 1) in
    let c = at mem (p + 2) in
    let d = at mem (p + 3) in
    let ab = low_or 8 a b (b * 2 ^ 8 % 2 ^ 32) (omega arith) (omega arith) in
    let abc =
      low_or 16 (bit_or a (b * 2 ^ 8 % 2 ^ 32)) c (c * 2 ^ 16 % 2 ^ 32) (omega (arith, ab))
        (omega arith) in
    omega (
      arith,
      ab,
      abc,
      low_or 24 (bit_or (bit_or a (b * 2 ^ 8 % 2 ^ 32)) (c * 2 ^ 16 % 2 ^ 32)) d
          (d * 2 ^ 24 % 2 ^ 32) (omega (arith, ab, abc)) (omega arith),
    )

-- One turn of the loop shifts in the next byte of `q`.
le_turn : (v b q : ℕ) → q < 2 ^ 64 → v ≡ q / 256 → b ≡ q % 256 → bit_or (v * 2 ^ 8 % 2 ^ 64) b ≡ q
le_turn v b q h ev eb =
    bit_or-disjoint 8 (v * 2 ^ 8 % 2 ^ 64) b v (omega arith) (omega arith) ∙ omega arith

-- The byte `i` of `v` in memory.
abbrev Holds : List ℕ → ℕ → ℕ → ℕ → Type 0
Holds mem p v zero = Unit
Holds mem p v (suc i) = (at mem (p + i) ≡ v / 2 ^ (8 * i) % 256) × Holds mem p v i

pub get_u64_le-put : (mem : List ℕ) (p v : ℕ) → v < 2 ^ 64 → Holds mem p v 8 → get_u64_le mem p ≡ v
unfolding get_u64_le
get_u64_le-put mem p v h (e7, (e6, (e5, (e4, (e3, (e2, (e1, (e0, _)))))))) =
    let at_byte = λ (i : ℕ). at mem (p + i) in
    ap (λ x. le_loop mem p 7 x)
      (le_turn 0 (at_byte 7) (v / 2 ^ 56) (omega arith) (omega arith) (e7 ∙ omega arith))
    ∙ ap (λ x. le_loop mem p 6 x)
        (le_turn (v / 2 ^ 56) (at_byte 6) (v / 2 ^ 48) (omega arith) (omega arith) e6)
    ∙ ap (λ x. le_loop mem p 5 x)
        (le_turn (v / 2 ^ 48) (at_byte 5) (v / 2 ^ 40) (omega arith) (omega arith) e5)
    ∙ ap (λ x. le_loop mem p 4 x)
        (le_turn (v / 2 ^ 40) (at_byte 4) (v / 2 ^ 32) (omega arith) (omega arith) e4)
    ∙ ap (λ x. le_loop mem p 3 x)
        (le_turn (v / 2 ^ 32) (at_byte 3) (v / 2 ^ 24) (omega arith) (omega arith) e3)
    ∙ ap (λ x. le_loop mem p 2 x)
        (le_turn (v / 2 ^ 24) (at_byte 2) (v / 2 ^ 16) (omega arith) (omega arith) e2)
    ∙ ap (λ x. le_loop mem p 1 x)
        (le_turn (v / 2 ^ 16) (at_byte 1) (v / 2 ^ 8) (omega arith) (omega arith) e1)
    ∙ le_turn (v / 2 ^ 8) (at_byte 0) v h (omega arith) (e0 ∙ omega arith)

module _ (h : FwHeader) (valid : IsHeader h) where
  header_arch : get_u16_le (serialize_header h) 6 ≡ h.arch
  unfolding serialize_header
  header_arch = get_u16_le-put (serialize_header h) 6 h.arch (omega arith) refl refl

  header_major : get_u16_le (serialize_header h) 8 ≡ h.major
  unfolding serialize_header
  header_major = get_u16_le-put (serialize_header h) 8 h.major (omega arith) refl refl

  header_minor : get_u16_le (serialize_header h) 10 ≡ h.minor
  unfolding serialize_header
  header_minor = get_u16_le-put (serialize_header h) 10 h.minor (omega arith) refl refl

  header_patch : get_u16_le (serialize_header h) 12 ≡ h.patch
  unfolding serialize_header
  header_patch = get_u16_le-put (serialize_header h) 12 h.patch (omega arith) refl refl

  header_image_size : get_u64_le (serialize_header h) 16 ≡ h.image_size
  unfolding serialize_header
  header_image_size =
      get_u64_le-put (serialize_header h) 16 h.image_size (omega arith)
        (refl, (refl, (refl, (refl, (refl, (refl, (refl, (omega arith, tt))))))))

  header_crc32 : get_u32_le (serialize_header h) 24 ≡ h.crc32
  unfolding serialize_header
  header_crc32 = get_u32_le-put (serialize_header h) 24 h.crc32 (omega arith) refl refl refl refl

  header_constants :
      (get_u32_le (serialize_header h) 0 ≡ 0x4d4c4657)
      × (get_u16_le (serialize_header h) 4 ≡ 1)
      × (get_u16_le (serialize_header h) 14 ≡ 40)
  unfolding serialize_header get_u32_le get_u16_le
  header_constants = (refl, refl, refl)

  -- A header whose fields have their widths is read back as it was written.
  pub parse_header-serialize_header : parse_header (serialize_header h) ≡ some h
  unfolding parse_header
  parse_header-serialize_header =
      rw
        (
          header_constants.0, header_constants.1, header_constants.2, header_arch, header_major,
          header_minor, header_patch, header_image_size, header_crc32,
        )
        refl

pub length-serialize_header : (h : FwHeader) → length (serialize_header h) ≡ 40
unfolding serialize_header
length-serialize_header h = refl
