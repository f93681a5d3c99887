-- ===== src/Protocol/Packet.antt =====
-- mlrt_packet, mlrt_packet_encode and mlrt_packet_decode of protocol/embedded_protocol.c, with the
-- constants of include/embedded_protocol.h. Pointers are to live objects: the NULL guards have no
-- counterpart here.
pub mod Frame
pub mod RoundTrip
pub mod Exact
pub mod Detect
use embedded_systems_runtime.Prelude.{
  ℕ, ◌+◌, Bool, List, [], ◌∷◌, not, ◌==◌, ltb, if◌then◌else◌, length, set, replicate, write_at,
  bytes_at,
}
use embedded_systems_runtime.Protocol.Endian.{at, put_u16_be, put_u32_be, get_u16_be, get_u32_be}
use embedded_systems_runtime.Protocol.Crc.{crc32}

abbrev pub magic : ℕ
magic = 0xA55A

abbrev pub version_number : ℕ
version_number = 1

abbrev pub max_payload : ℕ
max_payload = 512

abbrev pub header_size : ℕ
header_size = 10

abbrev pub crc_size : ℕ
crc_size = 4

-- mlrt_proto_status
pub data Status : Type 0 where
  ok einval etoobig eformat ecrc eio eof : Status

-- `payload` is the whole array of 512 bytes.
pub record Packet : Type 0 where
  pub version : ℕ
  pub type : ℕ
  pub length : ℕ
  pub seq : ℕ
  pub payload : List ℕ

-- The payload array when all its bytes are 0.
unfoldable pub zero_payload : List ℕ
zero_payload = replicate max_payload 0

-- memset(packet, 0, sizeof(*packet))
abbrev pub zero_packet : Packet
zero_packet = record { version = 0; type = 0; length = 0; seq = 0; payload = zero_payload }

-- What a call leaves in `*out` and `*out_len`, with its status.
pub record Encoded : Type 0 where
  pub status : Status
  pub out : List ℕ
  pub out_len : ℕ

-- The stores into `out`, in the order of the code: the header,
unfoldable pub write_header : Packet → List ℕ → List ℕ
write_header packet out =
    let out1 = put_u16_be out 0 magic in
    let out2 = set out1 2 (if packet.version == 0 then version_number else packet.version) in
    let out3 = set out2 3 packet.type in
    let out4 = put_u16_be out3 4 packet.length in put_u32_be out4 6 packet.seq

-- the payload,
unfoldable pub write_payload : Packet → List ℕ → List ℕ
write_payload packet out =
    if packet.length == 0
    then out
    else write_at out header_size (bytes_at packet.payload 0 packet.length)

-- and the checksum of what `out` then holds.
unfoldable pub write_crc : Packet → List ℕ → List ℕ
write_crc packet out =
    put_u32_be out (header_size + packet.length)
      (crc32 (bytes_at out 0 (header_size + packet.length)))

unfoldable pub write_frame : Packet → List ℕ → List ℕ
unfolding write_header write_payload write_crc
write_frame packet out = write_crc packet (write_payload packet (write_header packet out))

unfoldable pub packet_encode : Packet → List ℕ → ℕ → ℕ → Encoded
unfolding write_frame
packet_encode packet out out_cap out_len =
    if ltb max_payload packet.length
    then record { status = etoobig; out = out; out_len = out_len }
    else (let total = header_size + packet.length + crc_size in
        if ltb out_cap total
        then record { status = etoobig; out = out; out_len = out_len }
        else record { status = ok; out = write_frame packet out; out_len = total })

-- What decode stores into the zeroed packet.
unfoldable pub read_fields : List ℕ → ℕ → Packet
read_fields frame payload_len = record {
  version = at frame 2;
  type = at frame 3;
  length = payload_len;
  seq = get_u32_be frame 6;
  payload =
      if payload_len == 0
      then zero_packet.payload
      else write_at zero_packet.payload 0 (bytes_at frame header_size payload_len);
}

-- `frame` is the list of its `frame_len` bytes; `*packet` comes back as it was where decode fails.
unfoldable pub packet_decode : List ℕ → Packet → Status × Packet
unfolding read_fields
packet_decode frame packet =
    if ltb (length frame) (header_size + crc_size)
    then (einval, packet)
    else (if not (get_u16_be frame 0 == magic)
        then (eformat, packet)
        else (if not (at frame 2 == version_number)
            then (eformat, packet)
            else (let payload_len = get_u16_be frame 4 in
                if ltb max_payload payload_len
                then (etoobig, packet)
                else (if not (length frame == header_size + payload_len + crc_size)
                    then (eformat, packet)
                    else (let expected_crc = get_u32_be frame (header_size + payload_len) in
                        let actual_crc = crc32 (bytes_at frame 0 (header_size + payload_len)) in
                        if not (expected_crc == actual_crc)
                        then (ecrc, packet)
                        else (ok, read_fields frame payload_len))))))
