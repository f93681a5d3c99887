-- ===== src/Protocol/Crc/Injective.antt =====
-- The CRC step of protocol/embedded_protocol.c loses nothing of its 32-bit state.
use embedded_systems_runtime.Prelude.{
  ℕ, zero, suc, ◌-◌, ◌/◌, ◌%◌, ◌^◌, ◌<◌, ◌≤◌, ◌≡◌, ◌⊎◌, inl, inr, ap, sym, ◌∙◌, List, [], ◌∷◌, ◌++◌,
  bit_and, bit_xor, arith, IsByte, All,
}
use embedded_systems_runtime.Prelude.Bits.{
  bit_and-one, bit_xor-zero, bit_xor-lt, bit_xor_top, bit_xor-right_injective,
  bit_xor-left_injective,
}
use embedded_systems_runtime.Protocol.Crc.{poly, crc_bit, crc_bits, crc_byte, crc32_update, crc32}

crc_bit_even : (s : ℕ) → s % 2 ≡ 0 → crc_bit s ≡ s / 2
unfolding crc_bit
crc_bit_even s e =
    ap (λ (t : ℕ). bit_xor (s / 2) (bit_and poly ((2 ^ 32 - t) % 2 ^ 32))) (bit_and-one s ∙ e)
    ∙ bit_xor-zero (s / 2)

crc_bit_odd : (s : ℕ) → s % 2 ≡ 1 → crc_bit s ≡ bit_xor (s / 2) poly
unfolding crc_bit
crc_bit_odd s e =
    ap (λ (t : ℕ). bit_xor (s / 2) (bit_and poly ((2 ^ 32 - t) % 2 ^ 32))) (bit_and-one s ∙ e)

parity : (s : ℕ) → (s % 2 ≡ 0) ⊎ (s % 2 ≡ 1)
parity s = omega arith

pub crc_bit-lt : (s : ℕ) → s < 2 ^ 32 → crc_bit s < 2 ^ 32
crc_bit-lt s h = elim (parity s) [
  | inl e ↦ omega (arith, crc_bit_even s e)
  | inr e ↦ rw (crc_bit_odd s e) (bit_xor-lt 32 (s / 2) poly (omega arith) (omega arith))
]

odd_top : (s : ℕ) → s < 2 ^ 32 → s % 2 ≡ 1 → 2 ^ 31 ≤ crc_bit s
odd_top s h e =
    rw (crc_bit_odd s e) (bit_xor_top 31 (s / 2) poly (omega arith) (omega arith) (omega arith))

pub crc_bit_injective : (s t : ℕ) → s < 2 ^ 32 → t < 2 ^ 32 → crc_bit s ≡ crc_bit t → s ≡ t
crc_bit_injective s t hs ht e = elim (parity s) [
  | inl es ↦ elim (parity t) [
    | inl et ↦ omega (arith, crc_bit_even s es, crc_bit_even t et)
    | inr et ↦ absurd (omega (arith, crc_bit_even s es, odd_top t ht et))
  ]
  | inr es ↦ elim (parity t) [
    | inl et ↦ absurd (omega (arith, crc_bit_even t et, odd_top s hs es))
    | inr et ↦ omega (
      arith,
      bit_xor-right_injective (s / 2) (t / 2) poly (sym (crc_bit_odd s es) ∙ e ∙ crc_bit_odd t et),
    )
  ]
]

crc_bits-lt : (n s : ℕ) → s < 2 ^ 32 → crc_bits n s < 2 ^ 32
unfolding crc_bits
crc_bits-lt zero s h = h
crc_bits-lt (suc n) s h = crc_bits-lt n (crc_bit s) (crc_bit-lt s h)

crc_bits_injective : (n s t : ℕ) → s < 2 ^ 32 → t < 2 ^ 32 → crc_bits n s ≡ crc_bits n t → s ≡ t
unfolding crc_bits
crc_bits_injective zero s t hs ht e = e
crc_bits_injective (suc n) s t hs ht e =
    crc_bit_injective s t hs ht
      (crc_bits_injective n (crc_bit s) (crc_bit t) (crc_bit-lt s hs) (crc_bit-lt t ht) e)

xor_byte-lt : (s b : ℕ) → s < 2 ^ 32 → IsByte b → bit_xor s b < 2 ^ 32
xor_byte-lt s b h hb = bit_xor-lt 32 s b h (omega arith)

pub crc_byte-lt : (s b : ℕ) → s < 2 ^ 32 → IsByte b → crc_byte s b < 2 ^ 32
unfolding crc_byte
crc_byte-lt s b h hb = crc_bits-lt 8 (bit_xor s b) (xor_byte-lt s b h hb)

-- For one byte, different states stay different.
pub crc_byte-state_injective :
    (s t b : ℕ) → s < 2 ^ 32 → t < 2 ^ 32 → IsByte b → crc_byte s b ≡ crc_byte t b → s ≡ t
unfolding crc_byte
crc_byte-state_injective s t b hs ht hb e = bit_xor-right_injective s t b (
    crc_bits_injective 8 (bit_xor s b) (bit_xor t b) (xor_byte-lt s b hs hb) (xor_byte-lt t b ht hb)
      e)

-- From one state, different bytes give different states.
pub crc_byte-byte_injective :
    (s a b : ℕ) → s < 2 ^ 32 → IsByte a → IsByte b → crc_byte s a ≡ crc_byte s b → a ≡ b
unfolding crc_byte
crc_byte-byte_injective s a b hs ha hb e = bit_xor-left_injective a b s (
    crc_bits_injective 8 (bit_xor s a) (bit_xor s b) (xor_byte-lt s a hs ha) (xor_byte-lt s b hs hb)
      e)

pub crc32_update-lt :
    (s : ℕ) (bs : List ℕ) → s < 2 ^ 32 → All IsByte bs → crc32_update s bs < 2 ^ 32
unfolding crc32_update
crc32_update-lt s [] h hb = h
crc32_update-lt s (b ∷ bs) h hb = crc32_update-lt (crc_byte s b) bs (crc_byte-lt s b h hb.0) hb.1

crc32_update_injective :
    (s t : ℕ) (bs : List ℕ)
    → s < 2 ^ 32
    → t < 2 ^ 32
    → All IsByte bs
    → crc32_update s bs ≡ crc32_update t bs
    → s ≡ t
unfolding crc32_update
crc32_update_injective s t [] hs ht hb e = e
crc32_update_injective s t (b ∷ bs) hs ht hb e = crc_byte-state_injective s t b hs ht hb.0 (
    crc32_update_injective (crc_byte s b) (crc_byte t b) bs (crc_byte-lt s b hs hb.0)
      (crc_byte-lt t b ht hb.0) hb.1 e)

pub crc32-lt : (bs : List ℕ) → All IsByte bs → crc32 bs < 2 ^ 32
unfolding crc32
crc32-lt bs h =
    bit_xor-lt 32 (crc32_update 0xFFFF_FFFF bs) 0xFFFF_FFFF
      (crc32_update-lt 0xFFFF_FFFF bs (omega arith) h) (omega arith)

update_detects :
    (s : ℕ) (pre post : List ℕ) (x y : ℕ)
    → s < 2 ^ 32
    → All IsByte pre
    → All IsByte post
    → IsByte x
    → IsByte y
    → crc32_update s (pre ++ x ∷ post) ≡ crc32_update s (pre ++ y ∷ post)
    → x ≡ y
unfolding crc32_update
update_detects s [] post x y hs hp hq hx hy e = crc_byte-byte_injective s x y hs hx hy (
    crc32_update_injective (crc_byte s x) (crc_byte s y) post (crc_byte-lt s x hs hx)
      (crc_byte-lt s y hs hy) hq e)
update_detects s (p ∷ pre) post x y hs hp hq hx hy e =
    update_detects (crc_byte s p) pre post x y (crc_byte-lt s p hs hp.0) hp.1 hq hx hy e

-- Two byte strings that differ in one place have different checksums: if the checksums of
-- `pre ++ x ∷ post` and `pre ++ y ∷ post` agree, then `x` and `y` do.
pub crc32_detects :
    (pre post : List ℕ) (x y : ℕ)
    → All IsByte pre
    → All IsByte post
    → IsByte x
    → IsByte y
    → crc32 (pre ++ x ∷ post) ≡ crc32 (pre ++ y ∷ post)
    → x ≡ y
unfolding crc32
crc32_detects pre post x y hp hq hx hy e =
    update_detects 0xFFFF_FFFF pre post x y (omega arith) hp hq hx hy (
      bit_xor-right_injective (crc32_update 0xFFFF_FFFF (pre ++ x ∷ post))
        (crc32_update 0xFFFF_FFFF (pre ++ y ∷ post)) 0xFFFF_FFFF e)
