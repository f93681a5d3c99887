-- ===== src/Protocol/Packet/Frame.antt =====
-- The frame that a packet stands for, and the stores of mlrt_packet_encode against it.
use embedded_systems_runtime.Prelude.{
  ℕ, ◌+◌, ◌≤◌, ◌<◌, ◌^◌, ◌≡◌, refl, ap, sym, ◌∙◌, List, [], ◌∷◌, ◌++◌, append_assoc, ◌==◌, leb,
  leb→le, ◌&&◌, append-nil, if◌then◌else◌, Bool-cases, inl, inr, ==_iff, length, take, drop, All,
  IsByte, write_at, bytes_at, arith, length-append, length-take, length-drop, take-append,
  drop-drop, write_at-append,
}
use embedded_systems_runtime.Protocol.Endian.{u16_be, u32_be}
use embedded_systems_runtime.Protocol.Crc.{crc32}
use embedded_systems_runtime.Protocol.Packet.{
  Packet, magic, version_number, max_payload, ok, etoobig, write_header, write_payload, write_crc,
  write_frame, packet_encode,
}

-- The ranges of the C types, and the array of 512 bytes.
pub record IsPacket (p : Packet) : Type 0 where
  pub version_fits : p.version < 256
  pub type_fits : p.type < 256
  pub seq_fits : p.seq < 2 ^ 32
  pub payload_fits : length p.payload ≡ max_payload
  pub payload_bytes : All IsByte p.payload

abbrev pub sent_version : Packet → ℕ
sent_version p = if p.version == 0 then version_number else p.version

abbrev pub sent_payload : Packet → List ℕ
sent_payload p = bytes_at p.payload 0 p.length

unfoldable pub header_of : Packet → List ℕ
unfolding u16_be u32_be
header_of p = u16_be magic ++ (sent_version p ∷ p.type ∷ (u16_be p.length ++ u32_be p.seq))

abbrev pub body_of : Packet → List ℕ
body_of p = header_of p ++ sent_payload p

-- Header, payload and the checksum of both.
abbrev pub frame_of : Packet → List ℕ
frame_of p = body_of p ++ u32_be (crc32 (body_of p))

pub length-header_of : (p : Packet) → length (header_of p) ≡ 10
unfolding header_of
length-header_of p = refl

pub length-u32_be : (v : ℕ) → length (u32_be v) ≡ 4
unfolding u32_be
length-u32_be v = refl

module _ (p : Packet) (valid : IsPacket p) (small : p.length ≤ max_payload) where
  pub length-sent_payload : length (sent_payload p) ≡ p.length
  length-sent_payload = length-take p.length p.payload (omega arith)

  pub length-body_of : length (body_of p) ≡ 10 + p.length
  length-body_of =
      omega (
        arith,
        length-append (header_of p) (sent_payload p),
        length-header_of p,
        length-sent_payload,
      )

  pub length-frame_of : length (frame_of p) ≡ 14 + p.length
  length-frame_of = omega (
    arith,
    length-append (body_of p) (u32_be (crc32 (body_of p))),
    length-body_of,
    length-u32_be (crc32 (body_of p)),
  )

module _ (p : Packet) (out : List ℕ) (valid : IsPacket p) (small : p.length ≤ max_payload)
    (room : 14 + p.length ≤ length out) where
  write_header-header_of : write_header p out ≡ header_of p ++ drop 10 out
  unfolding write_header header_of u16_be u32_be
  write_header-header_of = write_at-append (header_of p) [] out (omega arith)

  after_payload :
      write_payload p (header_of p ++ drop 10 out) ≡ body_of p ++ drop p.length (drop 10 out)
  unfolding write_payload
  after_payload = elim (Bool-cases (p.length == 0)) [
    | inl e ↦ rw e (empty ((==_iff p.length 0).0 e))
    | inr e ↦ rw e put
  ]
    where
      empty : p.length ≡ 0 → header_of p ++ drop 10 out ≡ body_of p ++ drop p.length (drop 10 out)
      empty e = rw (e, append-nil)

      put :
          write_at (header_of p ++ drop 10 out) 10 (sent_payload p)
          ≡ body_of p ++ drop p.length (drop 10 out)
      put =
          ap (λ i. write_at (header_of p ++ drop 10 out) i (sent_payload p))
            (sym (length-header_of p))
          ∙ write_at-append (sent_payload p) (header_of p) (drop 10 out)
              (omega (arith, length-sent_payload p valid small, length-drop 10 out))
          ∙ sym (
              append_assoc (header_of p) (sent_payload p)
                (drop (length (sent_payload p)) (drop 10 out)))
          ∙ ap (λ k. body_of p ++ drop k (drop 10 out)) (length-sent_payload p valid small)

  after_crc :
      (rest : List ℕ)
      → 4 ≤ length rest
      → write_crc p (body_of p ++ rest) ≡ frame_of p ++ drop 4 rest
  unfolding write_crc
  after_crc rest h =
      let n = length-body_of p valid small in
      ap (λ k. write_at (body_of p ++ rest) k (u32_be (crc32 (take k (body_of p ++ rest))))) (sym n)
      ∙ ap (λ l. write_at (body_of p ++ rest) (length (body_of p)) (u32_be (crc32 l)))
          (take-append (body_of p) rest)
      ∙ write_at-append (u32_be (crc32 (body_of p))) (body_of p) rest
          (omega (arith, length-u32_be (crc32 (body_of p))))
      ∙ sym (append_assoc (body_of p) (u32_be (crc32 (body_of p))) _)
      ∙ ap (λ k. frame_of p ++ drop k rest) (length-u32_be (crc32 (body_of p)))

  -- The stores of mlrt_packet_encode leave the frame at the start of the buffer and nothing else
  -- changed.
  pub write_frame-frame_of : write_frame p out ≡ frame_of p ++ drop (14 + p.length) out
  unfolding write_frame
  write_frame-frame_of =
      ap (λ m. write_crc p (write_payload p m)) write_header-header_of
      ∙ ap (write_crc p) after_payload
      ∙ after_crc (drop p.length (drop 10 out))
          (omega (arith, length-drop p.length (drop 10 out), length-drop 10 out))
      ∙ ap (λ l. frame_of p ++ drop 4 l) (drop-drop 10 p.length (10 + p.length) out refl)
      ∙ ap (λ l. frame_of p ++ l) (drop-drop (10 + p.length) 4 (14 + p.length) out (omega arith))

-- Every call of mlrt_packet_encode: a payload above 512 bytes or a buffer below 14 + length bytes is
-- refused with ETOOBIG and nothing is written; otherwise the frame is put at the start of the buffer,
-- the rest of the buffer is kept, and *out_len is 14 + length.
pub packet_encode_lem :
    (p : Packet) (out : List ℕ) (n : ℕ)
    → IsPacket p
    → packet_encode p out (length out) n ≡ (
        if leb p.length 512 && leb (14 + p.length) (length out)
        then record {
          status = ok;
          out = frame_of p ++ drop (14 + p.length) out;
          out_len = 14 + p.length;
        }
        else record { status = etoobig; out = out; out_len = n })
unfolding packet_encode
packet_encode_lem p out n valid = elim (Bool-cases (leb p.length 512)) [
  | inl e ↦ ground (arith, write_frame-frame_of p out valid (leb→le p.length 512 e))
  | inr e ↦ ground arith
]

pub packet_encode_fits :
    (p : Packet) (out : List ℕ) (n : ℕ)
    → IsPacket p
    → p.length ≤ max_payload
    → 14 + p.length ≤ length out
    → packet_encode p out (length out) n ≡ record {
      status = ok;
      out = frame_of p ++ drop (14 + p.length) out;
      out_len = 14 + p.length;
    }
packet_encode_fits p out n valid small room = ground (arith, packet_encode_lem p out n valid)
