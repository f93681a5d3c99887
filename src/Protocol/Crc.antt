-- ===== src/Protocol/Crc.antt =====
-- mlrt_crc32_begin, _update, _end and mlrt_crc32 of protocol/embedded_protocol.c.
pub mod Injective
pub mod Streaming
use embedded_systems_runtime.Prelude.{
  ℕ, zero, suc, ◌-◌, ◌/◌, ◌%◌, ◌^◌, List, [], ◌∷◌, bit_and, bit_xor,
}

abbrev pub poly : ℕ
poly = 0xEDB8_8320

-- One turn of the inner loop; the mask is (uint32_t)-(int32_t)(state & 1u).
unfoldable pub crc_bit : ℕ → ℕ
crc_bit state =
    let mask = (2 ^ 32 - bit_and state 1) % 2 ^ 32 in bit_xor (state / 2) (bit_and poly mask)

unfoldable pub crc_bits : ℕ → ℕ → ℕ
crc_bits zero state = state
crc_bits (suc n) state = crc_bits n (crc_bit state)

unfoldable pub crc_byte : ℕ → ℕ → ℕ
unfolding crc_bits crc_bit
crc_byte state b = crc_bits 8 (bit_xor state b)

unfoldable pub crc32_begin : ℕ
crc32_begin = 0xFFFF_FFFF

unfoldable pub crc32_update : ℕ → List ℕ → ℕ
unfolding crc_byte
crc32_update state [] = state
crc32_update state (b ∷ bs) = crc32_update (crc_byte state b) bs

unfoldable pub crc32_end : ℕ → ℕ
crc32_end state = bit_xor state 0xFFFF_FFFF

unfoldable pub crc32 : List ℕ → ℕ
unfolding crc32_end crc32_update crc32_begin
crc32 bs = crc32_end (crc32_update crc32_begin bs)
