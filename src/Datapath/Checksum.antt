-- ===== src/Datapath/Checksum.antt =====
-- crc32 of projects/network-verification-lab/src/datapath.cpp, and that it is the CRC of
-- protocol/embedded_protocol.c.
use embedded_systems_runtime.Prelude.{
  ℕ, zero, suc, ◌-◌, ◌/◌, ◌%◌, ◌^◌, ◌≡◌, refl, ap, ◌∙◌, List, [], ◌∷◌, ◌==◌, if◌then◌else◌, inl,
  inr, ◌⊎◌, bit_and, bit_xor, arith,
}
use embedded_systems_runtime.Prelude.Bits.{bit_and-one}
use embedded_systems_runtime.Protocol.Crc.{poly, crc_bit, crc_bits, crc_byte, crc32_update}

-- One turn of the inner loop.
unfoldable pub shift_bit : ℕ → ℕ
shift_bit value = bit_xor (value / 2) (if bit_and value 1 == 0 then 0 else poly)

unfoldable pub shift_bits : ℕ → ℕ → ℕ
unfolding shift_bit
shift_bits zero value = value
shift_bits (suc n) value = shift_bits n (shift_bit value)

-- crc32(input, length, value)
unfoldable pub crc32_from : List ℕ → ℕ → ℕ
unfolding shift_bits
crc32_from [] value = value
crc32_from (b ∷ bs) value = crc32_from bs (shift_bits 8 (bit_xor value b))

shift_bit-crc_bit : (value : ℕ) → shift_bit value ≡ crc_bit value
unfolding shift_bit crc_bit
shift_bit-crc_bit value = by_parity (omega (arith, bit_and-one value))
  where
    by_parity :
        (bit_and value 1 ≡ 0) ⊎ (bit_and value 1 ≡ 1)
        → bit_xor (value / 2) (if bit_and value 1 == 0 then 0 else poly)
          ≡ bit_xor (value / 2) (bit_and poly ((2 ^ 32 - bit_and value 1) % 2 ^ 32))
    by_parity (inl e) = rw e refl
    by_parity (inr e) = rw e refl

shift_bits-crc_bits : (n value : ℕ) → shift_bits n value ≡ crc_bits n value
unfolding shift_bits crc_bits
shift_bits-crc_bits zero value = refl
shift_bits-crc_bits (suc n) value =
    shift_bits-crc_bits n (shift_bit value) ∙ ap (crc_bits n) (shift_bit-crc_bit value)

-- The two ways to take a CRC, with the conditional and with the mask, give the same on every input from
-- every value.
pub crc32_from-crc32_update :
    (bs : List ℕ) (value : ℕ) → crc32_from bs value ≡ crc32_update value bs
unfolding crc32_from crc32_update crc_byte
crc32_from-crc32_update [] value = refl
crc32_from-crc32_update (b ∷ bs) value =
    crc32_from-crc32_update bs (shift_bits 8 (bit_xor value b))
    ∙ ap (λ v. crc32_update v bs) (shift_bits-crc_bits 8 (bit_xor value b))
