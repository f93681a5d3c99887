-- ===== src/Target/Corrupt.antt =====
-- send_corrupt_crc of target/target_client.c against mlrt_packet_decode.
use embedded_systems_runtime.Prelude.{
  ℕ, ◌+◌, ◌-◌, ◌/◌, ◌%◌, ◌^◌, ◌≤◌, ◌<◌, ◌≡◌, ◌≢◌, refl, ap, sym, ◌∙◌, List, [], ◌∷◌, ◌++◌, length,
  set, bit_xor, arith, set-append, get_or-append, length-append,
}
use embedded_systems_runtime.Prelude.Bits.{bit_xor-lt, bit_xor-zero, bit_xor-left_injective}
use embedded_systems_runtime.Protocol.Endian.{at, get_u32_be, get_u32_be-sum, u32_be}
use embedded_systems_runtime.Protocol.Crc.{crc32}
use embedded_systems_runtime.Protocol.Packet.{Packet, max_payload, ecrc, packet_decode}
use embedded_systems_runtime.Protocol.Packet.Frame.{
  IsPacket, sent_version, frame_of, body_of, length-body_of,
}
use embedded_systems_runtime.Protocol.Crc.Injective.{crc32-lt}
use embedded_systems_runtime.Protocol.Packet.RoundTrip.{body_bytes}
use embedded_systems_runtime.Protocol.Packet.Detect.{packet_decode_bad_crc}
use embedded_systems_runtime.Target.Client.{corrupt_crc}

flip : ℕ → ℕ
flip d = bit_xor d 1

flip-ne : (d : ℕ) → d < 256 → (flip d ≢ d) × (flip d < 256)
unfolding flip
flip-ne d h = (
  λ e. absurd (omega (arith, bit_xor-left_injective 1 0 d (e ∙ sym (bit_xor-zero d)))),
  bit_xor-lt 8 d 1 h (omega arith),
)

-- The checksum with its last byte changed.
flipped : ℕ → List ℕ
flipped v = (v / 2 ^ 24 % 256) ∷ (v / 2 ^ 16 % 256) ∷ (v / 2 ^ 8 % 256) ∷ flip (v % 256) ∷ []

corrupt_crc-body :
    (b : List ℕ) (v n : ℕ)
    → n ≡ length (b ++ u32_be v) - 1
    → set (b ++ u32_be v) n (bit_xor (at (b ++ u32_be v) n) 1) ≡ b ++ flipped v
unfolding flipped flip u32_be
corrupt_crc-body b v n e =
    ap (λ k. set (b ++ u32_be v) k (bit_xor (at (b ++ u32_be v) k) 1)) last
    ∙ ap (λ d. set (b ++ u32_be v) (length b + 3) (bit_xor d 1)) (get_or-append b (u32_be v) 3 0)
    ∙ set-append b (u32_be v) 3 (bit_xor (v % 256) 1)
  where
    last : n ≡ length b + 3
    last = omega (arith, length-append b (u32_be v))

get_u32_be-flipped : (b : List ℕ) (v : ℕ) → v < 2 ^ 32 → get_u32_be (b ++ flipped v) (length b) ≢ v
unfolding flipped
get_u32_be-flipped b v h e = absurd (
    omega (
      arith,
      flip-ne (v % 256) (omega arith),
      e,
      first,
      get_or-append b (flipped v) 1 0,
      get_or-append b (flipped v) 2 0,
      get_or-append b (flipped v) 3 0,
      get_u32_be-sum (b ++ flipped v) (length b) (omega (arith, first))
          (omega (arith, get_or-append b (flipped v) 1 0))
          (omega (arith, get_or-append b (flipped v) 2 0))
          (omega (arith, get_or-append b (flipped v) 3 0, flip-ne (v % 256) (omega arith))),
    ))
  where
    first : at (b ++ flipped v) (length b) ≡ v / 2 ^ 24 % 256
    first = ap (at (b ++ flipped v)) (omega arith) ∙ get_or-append b (flipped v) 0 0

length-flipped : (v : ℕ) → length (flipped v) ≡ 4
unfolding flipped
length-flipped v = refl

-- The frame that send_corrupt_crc sends is refused with ECRC, for every packet of version 1 whose
-- payload fits, and the packet of the receiver is untouched.
pub corrupt_crc-ecrc :
    (p q : Packet)
    → IsPacket p
    → p.length ≤ max_payload
    → sent_version p ≡ 1
    → packet_decode (corrupt_crc (frame_of p)) q ≡ (ecrc, q)
unfolding corrupt_crc
corrupt_crc-ecrc p q valid small one =
    let crc = crc32 (body_of p) in
    ap (λ f. packet_decode f q) (corrupt_crc-body (body_of p) crc (length (frame_of p) - 1) refl)
    ∙ packet_decode_bad_crc p q (flipped crc) valid small one (length-flipped crc) (λ e.
      get_u32_be-flipped (body_of p) crc (crc32-lt (body_of p) (body_bytes p valid))
        (ap (get_u32_be (body_of p ++ flipped crc)) (length-body_of p valid small) ∙ e))
