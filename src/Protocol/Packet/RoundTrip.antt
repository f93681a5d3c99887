-- ===== src/Protocol/Packet/RoundTrip.antt =====
-- mlrt_packet_decode on the frames of mlrt_packet_encode.
use embedded_systems_runtime.Prelude.{
  ℕ, ◌+◌, ◌-◌, ◌≤◌, ◌≡◌, refl, ap, sym, ◌∙◌, List, [], ◌++◌, ◌==◌, if◌then◌else◌, Bool-cases, inl,
  inr, ==_iff, take, drop, replicate, All, IsByte, write_at, bytes_at, All-take, All-append, arith,
  take-append, drop-replicate, write_at-append,
}
use embedded_systems_runtime.Protocol.Endian.{
  at, u32_be, get_u16_be, get_u32_be, get_u16_be-put, get_u32_be-put, get_u32_be-append,
}
use embedded_systems_runtime.Protocol.Crc.{crc32}
use embedded_systems_runtime.Protocol.Crc.Injective.{crc32-lt}
use embedded_systems_runtime.Protocol.Packet.{
  Packet, magic, max_payload, ok, eformat, read_fields, packet_decode, zero_payload,
}
use embedded_systems_runtime.Protocol.Packet.Frame.{
  IsPacket, sent_version, sent_payload, header_of, body_of, frame_of, length-sent_payload,
  length-body_of, length-frame_of,
}

-- What the receiver of a packet has: the version that was sent, and zeros behind the payload.
abbrev pub received : Packet → Packet
received p = record p {
  version = sent_version p;
  payload = sent_payload p ++ replicate (512 - p.length) 0;
}

header_bytes : (p : Packet) → IsPacket p → All IsByte (header_of p)
unfolding header_of
header_bytes p v = ground arith

pub body_bytes : (p : Packet) → IsPacket p → All IsByte (body_of p)
body_bytes p v =
    All-append IsByte (header_of p) (sent_payload p) (header_bytes p v)
      (All-take IsByte p.length p.payload v.payload_bytes)

-- Any four bytes may stand behind the body: the other fields do not depend on them.
module _ (p : Packet) (valid : IsPacket p) (small : p.length ≤ max_payload) (c : List ℕ) where
  pub frame_magic : get_u16_be (body_of p ++ c) 0 ≡ magic
  unfolding get_u16_be header_of
  frame_magic = refl

  pub frame_version : at (body_of p ++ c) 2 ≡ sent_version p
  unfolding header_of
  frame_version = refl

  pub frame_type : at (body_of p ++ c) 3 ≡ p.type
  unfolding header_of
  frame_type = refl

  pub frame_length : get_u16_be (body_of p ++ c) 4 ≡ p.length
  unfolding header_of
  frame_length = get_u16_be-put (body_of p ++ c) 4 p.length (omega arith) refl refl

  pub frame_seq : get_u32_be (body_of p ++ c) 6 ≡ p.seq
  unfolding header_of
  frame_seq = get_u32_be-put (body_of p ++ c) 6 p.seq valid.seq_fits refl refl refl refl

  pub frame_body : bytes_at (body_of p ++ c) 0 (10 + p.length) ≡ body_of p
  frame_body =
      ap (λ k. take k (body_of p ++ c)) (sym (length-body_of p valid small))
      ∙ take-append (body_of p) c

  pub frame_payload : bytes_at (body_of p ++ c) 10 p.length ≡ sent_payload p
  unfolding header_of
  frame_payload =
      ap (λ k. take k (sent_payload p ++ c)) (sym (length-sent_payload p valid small))
      ∙ take-append (sent_payload p) c

  stored_payload :
      write_at zero_payload 0 (sent_payload p) ≡ sent_payload p ++ replicate (512 - p.length) 0
  unfolding zero_payload
  stored_payload =
      write_at-append (sent_payload p) [] (replicate 512 0)
        (omega (arith, length-sent_payload p valid small))
      ∙ ap (λ k. sent_payload p ++ drop k (replicate 512 0)) (length-sent_payload p valid small)
      ∙ ap (λ l. sent_payload p ++ l) (drop-replicate p.length 512 0)

  received_payload :
      (if p.length == 0
        then zero_payload
        else write_at zero_payload 0 (bytes_at (body_of p ++ c) 10 p.length))
      ≡ sent_payload p ++ replicate (512 - p.length) 0
  unfolding zero_payload
  received_payload = elim (Bool-cases (p.length == 0)) [
    | inl e ↦ rw e (nothing ((==_iff p.length 0).0 e))
    | inr e ↦ rw e (ap (write_at zero_payload 0) frame_payload ∙ stored_payload)
  ]
    where
      nothing : p.length ≡ 0 → zero_payload ≡ sent_payload p ++ replicate (512 - p.length) 0
      nothing e = rw e refl

  pub frame_fields : read_fields (body_of p ++ c) p.length ≡ received p
  unfolding read_fields
  frame_fields = ground (arith, frame_version, frame_type, frame_seq, received_payload)

pub frame_crc :
    (p : Packet)
    → IsPacket p
    → p.length ≤ max_payload
    → get_u32_be (frame_of p) (10 + p.length) ≡ crc32 (body_of p)
frame_crc p valid small =
    ap (get_u32_be (frame_of p)) (sym (length-body_of p valid small))
    ∙ get_u32_be-append (body_of p) (crc32 (body_of p)) (crc32-lt (body_of p) (body_bytes p valid))

-- A packet that is sent with version 1 is received with the same type, length, sequence number and
-- payload, zeros behind the payload; one that is sent with another version is refused with EFORMAT,
-- and the packet of the receiver is untouched.
pub packet_decode-frame_of :
    (p q : Packet)
    → IsPacket p
    → p.length ≤ max_payload
    → packet_decode (frame_of p) q
      ≡ (if sent_version p == 1 then (ok, received p) else (eformat, q))
unfolding packet_decode
packet_decode-frame_of p q valid small = ground (
  arith,
  length-frame_of p valid small,
  frame_magic p valid small (u32_be (crc32 (body_of p))),
  frame_version p valid small (u32_be (crc32 (body_of p))),
  frame_length p valid small (u32_be (crc32 (body_of p))),
  frame_crc p valid small,
  frame_body p valid small (u32_be (crc32 (body_of p))),
  frame_fields p valid small (u32_be (crc32 (body_of p))),
)
