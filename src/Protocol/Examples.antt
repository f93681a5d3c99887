-- ===== src/Protocol/Examples.antt =====
-- The theorems on frames and streams at a request for the target's status.
use embedded_systems_runtime.Prelude.{
  ℕ, ◌≤◌, ◌≡◌, ◌==◌, refl, some, [], ◌∷◌, ◌++◌, ◌&&◌, leb, if◌then◌else◌, drop, replicate, All,
  IsByte, All-replicate, arith,
}
use embedded_systems_runtime.Protocol.Crc.{crc32}
use embedded_systems_runtime.Protocol.Crc.Injective.{crc32_detects}
use embedded_systems_runtime.Protocol.Endian.{u32_be}
use embedded_systems_runtime.Protocol.Packet.{
  Packet, zero_payload, zero_packet, ok, eformat, etoobig, packet_encode, packet_decode,
}
use embedded_systems_runtime.Protocol.Packet.Frame.{
  IsPacket, header_of, body_of, frame_of, sent_version, packet_encode_lem,
}
use embedded_systems_runtime.Protocol.Packet.RoundTrip.{received, packet_decode-frame_of}
use embedded_systems_runtime.Protocol.Packet.Exact.{packet_decode_exact}
use embedded_systems_runtime.Protocol.Packet.Detect.{packet_decode_detects}
use embedded_systems_runtime.Protocol.Stream.{
  ReadEvent, got, WriteEvent, wrote, packet_write_fd, packet_read_fd,
}
use embedded_systems_runtime.Protocol.Stream.Transfer.{
  packet_write_fd_sends, packet_read_fd_receives,
}

abbrev status_req : Packet
status_req = record zero_packet { version = 1; type = 3; seq = 7 }

status_req-IsPacket : IsPacket status_req
unfolding zero_payload
status_req-IsPacket = record {
  version_fits = omega arith;
  type_fits = omega arith;
  seq_fits = omega arith;
  payload_fits = refl;
  payload_bytes = All-replicate 512 0 (omega arith);
}

crc32_detects_example : ◌≡◌ {A = ℕ} 3 3
crc32_detects_example =
    crc32_detects (1 ∷ []) (2 ∷ []) 3 3 (omega arith) (omega arith) (omega arith) (omega arith) refl

packet_encode_lem_example : packet_encode status_req (replicate 20 9) 20 0 ≡ (
    if leb 0 512 && leb 14 20
    then record { status = ok; out = frame_of status_req ++ drop 14 (replicate 20 9); out_len = 14 }
    else record { status = etoobig; out = replicate 20 9; out_len = 0 })
packet_encode_lem_example = packet_encode_lem status_req (replicate 20 9) 0 status_req-IsPacket

packet_decode-frame_of_example :
    packet_decode (frame_of status_req) zero_packet
    ≡ (if sent_version status_req == 1 then (ok, received status_req) else (eformat, zero_packet))
packet_decode-frame_of_example =
    packet_decode-frame_of status_req zero_packet status_req-IsPacket (omega arith)

frame_bytes : All IsByte (frame_of status_req)
unfolding header_of u32_be
frame_bytes = omega arith

packet_decode-frame_of_again :
    packet_decode (frame_of status_req) zero_packet ≡ (ok, received status_req)
packet_decode-frame_of_again =
    packet_decode-frame_of status_req zero_packet status_req-IsPacket (omega arith)

packet_decode_exact_example :
    (frame_of status_req ≡ frame_of (received status_req))
    × ((received status_req).version ≡ 1)
    × (0 ≤ 512)
packet_decode_exact_example =
    packet_decode_exact (frame_of status_req) zero_packet (received status_req) frame_bytes
      packet_decode-frame_of_again

packet_decode_detects_example : ◌≡◌ {A = ℕ} 165 165
unfolding header_of
packet_decode_detects_example =
    packet_decode_detects [] (drop 1 (frame_of status_req)) 165 165 zero_packet zero_packet
      (received status_req) (received status_req) frame_bytes frame_bytes
      packet_decode-frame_of_again packet_decode-frame_of_again

packet_write_fd_sends_example :
    packet_write_fd status_req
      (replicate 526 0)
      ((wrote 9 ∷ WriteEvent.interrupted ∷ wrote 5 ∷ []) ++ [])
    ≡ some (ok, frame_of status_req, [])
packet_write_fd_sends_example =
    packet_write_fd_sends status_req (replicate 526 0)
      (wrote 9 ∷ WriteEvent.interrupted ∷ wrote 5 ∷ []) [] status_req-IsPacket (omega arith) refl
      (omega arith)

packet_read_fd_receives_example :
    packet_read_fd zero_packet (
      (got (header_of status_req) ∷ [])
      ++ ((ReadEvent.interrupted ∷ got (u32_be (crc32 (body_of status_req))) ∷ []) ++ []))
    ≡ some (ok, received status_req, [])
unfolding header_of u32_be
packet_read_fd_receives_example =
    packet_read_fd_receives status_req zero_packet status_req-IsPacket (omega arith) refl []
      (got (header_of status_req) ∷ [])
      (ReadEvent.interrupted ∷ got (u32_be (crc32 (body_of status_req))) ∷ []) (omega arith)
      (omega arith) refl
