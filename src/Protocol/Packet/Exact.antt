-- ===== src/Protocol/Packet/Exact.antt =====
-- mlrt_packet_decode accepts nothing but the frames of mlrt_packet_encode.
use embedded_systems_runtime.Prelude.{
  ℕ, ◌+◌, ◌≤◌, ◌≡◌, refl, ap, sym, ◌∙◌, List, [], ◌∷◌, ◌++◌, ◌==◌, Bool-cases, inl, inr, ==_iff,
  length, take, drop, All, IsByte, write_at, bytes_at, arith, length-take, length-drop, take-append,
  write_at-append, take_self,
}
use embedded_systems_runtime.Protocol.Endian.{at, u32_be, get_u16_be, get_u32_be, get_u16_be-sum}
use embedded_systems_runtime.Protocol.Crc.{crc32}
use embedded_systems_runtime.Protocol.Packet.{
  Packet, magic, ok, read_fields, zero_payload, packet_decode,
}
use embedded_systems_runtime.Protocol.Packet.Frame.{sent_payload, header_of, body_of, frame_of}
use embedded_systems_runtime.Protocol.Endian.Parts.{take_at, at_byte, take_split, u32_be-get}

-- What the tests of a successful decode have established.
record Accepted (frame : List ℕ) (p : Packet) : Type 0 where
  fields : p ≡ read_fields frame (get_u16_be frame 4)
  total : length frame ≡ 14 + get_u16_be frame 4
  short : get_u16_be frame 4 ≤ 512
  starts : get_u16_be frame 0 ≡ magic
  version_one : at frame 2 ≡ 1
  checked :
      get_u32_be frame (10 + get_u16_be frame 4)
      ≡ crc32 (bytes_at frame 0 (10 + get_u16_be frame 4))

packet_decode-Accepted :
    (frame : List ℕ) (q p : Packet) → packet_decode frame q ≡ (ok, p) → Accepted frame p
unfolding packet_decode
packet_decode-Accepted frame q p h = ground arith

ten_bytes :
    (mem : List ℕ)
    → 10 ≤ length mem
    → take 10 mem
      ≡ at mem 0 ∷ at mem 1 ∷ at mem 2 ∷ at mem 3 ∷ at mem 4 ∷ at mem 5 ∷ bytes_at mem 6 4
ten_bytes mem h = ground (
  arith,
  take_at mem 0 9,
  take_at mem 1 8,
  take_at mem 2 7,
  take_at mem 3 6,
  take_at mem 4 5,
  take_at mem 5 4,
)

module _ (frame : List ℕ) (p : Packet) (b : All IsByte frame) (a : Accepted frame p) where
  length-found : length (bytes_at frame 10 (get_u16_be frame 4)) ≡ get_u16_be frame 4
  length-found =
      length-take (get_u16_be frame 4) (drop 10 frame)
        (omega (arith, a.total, length-drop 10 frame))

  found_payload :
      take (get_u16_be frame 4) (read_fields frame (get_u16_be frame 4)).payload
      ≡ bytes_at frame 10 (get_u16_be frame 4)
  unfolding read_fields zero_payload
  found_payload = elim (Bool-cases (get_u16_be frame 4 == 0)) [
    | inl e ↦ rw e (nothing (get_u16_be frame 4) ((==_iff (get_u16_be frame 4) 0).0 e))
    | inr e ↦ rw e stored
  ]
    where
      nothing : (n : ℕ) → n ≡ 0 → take n zero_payload ≡ bytes_at frame 10 n
      nothing n z = rw z refl

      stored :
          take
            (get_u16_be frame 4)
            (write_at zero_payload 0 (bytes_at frame 10 (get_u16_be frame 4)))
          ≡ bytes_at frame 10 (get_u16_be frame 4)
      stored =
          ap (take (get_u16_be frame 4)) (
            write_at-append (bytes_at frame 10 (get_u16_be frame 4)) [] zero_payload
              (omega (arith, length-found, a.short)))
          ∙ ap
              (λ k. take k (
                bytes_at frame 10 (get_u16_be frame 4)
                ++ drop (length (bytes_at frame 10 (get_u16_be frame 4))) zero_payload))
              (sym length-found)
          ∙ take-append (bytes_at frame 10 (get_u16_be frame 4)) _

  length-accepted : p.length ≡ get_u16_be frame 4
  unfolding read_fields
  length-accepted = ap (λ (r : Packet). r.length) a.fields

  accepted_payload : sent_payload p ≡ bytes_at frame 10 (get_u16_be frame 4)
  unfolding read_fields
  accepted_payload = ap (λ (r : Packet). sent_payload r) a.fields ∙ found_payload

  accepted_header : header_of p ≡ take 10 frame
  unfolding header_of read_fields
  accepted_header = ground (
    arith,
    a.fields,
    ten_bytes frame,
    u32_be-get frame 6,
    at_byte frame 0 b,
    at_byte frame 1 b,
    at_byte frame 4 b,
    at_byte frame 5 b,
    get_u16_be-sum frame 0,
    get_u16_be-sum frame 4,
  )

  accepted_body : body_of p ≡ take (10 + get_u16_be frame 4) frame
  accepted_body =
      ap (λ l. l ++ sent_payload p) accepted_header
      ∙ ap (λ l. take 10 frame ++ l) accepted_payload
      ∙ sym (take_split frame 10 (get_u16_be frame 4) (10 + get_u16_be frame 4) refl)

  accepted_frame : frame ≡ frame_of p
  accepted_frame =
      sym (take_self frame)
      ∙ take_split frame (10 + get_u16_be frame 4) 4 (length frame) (omega (arith, a.total))
      ∙ ap (λ l. l ++ bytes_at frame (10 + get_u16_be frame 4) 4) (sym accepted_body)
      ∙ ap (λ l. body_of p ++ l)
          (sym (u32_be-get frame (10 + get_u16_be frame 4) (omega (arith, a.total)) b)
            ∙ ap u32_be (a.checked ∙ ap crc32 (sym accepted_body)))

-- A frame of bytes that mlrt_packet_decode accepts is exactly the frame of the packet that it
-- returns, which has version 1 and at most 512 bytes of payload.
pub packet_decode_exact :
    (frame : List ℕ) (q p : Packet)
    → All IsByte frame
    → packet_decode frame q ≡ (ok, p)
    → (frame ≡ frame_of p) × (p.version ≡ 1) × (p.length ≤ 512)
unfolding read_fields
packet_decode_exact frame q p b h =
    let a = packet_decode-Accepted frame q p h in
    (
      accepted_frame frame p b a,
      ap (λ (r : Packet). r.version) a.fields ∙ a.version_one,
      omega (arith, length-accepted frame p b a, a.short),
    )

-- Where an accepted frame has its checksum.
pub packet_decode_split :
    (frame : List ℕ) (q p : Packet)
    → All IsByte frame
    → packet_decode frame q ≡ (ok, p)
    → (length frame ≡ 14 + p.length)
      × (frame ≡ take (10 + p.length) frame ++ u32_be (crc32 (take (10 + p.length) frame)))
packet_decode_split frame q p b h =
    let a = packet_decode-Accepted frame q p h in
    let n = length-accepted frame p b a in
    (
      omega (arith, a.total, n),
      accepted_frame frame p b a
          ∙ ap (λ l. l ++ u32_be (crc32 l))
              (accepted_body frame p b a ∙ ap (λ k. take (10 + k) frame) (sym n)),
    )
