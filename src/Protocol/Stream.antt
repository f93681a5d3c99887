-- ===== src/Protocol/Stream.antt =====
-- read_all, write_all, mlrt_packet_read_fd and mlrt_packet_write_fd of
-- protocol/embedded_protocol.c. What the kernel answers to read(2) and write(2) is a list of events,
-- one to each call; where the list ends, the call blocks, and the result is `none`.
pub mod Transfer
use embedded_systems_runtime.Prelude.{
  ℕ, zero, suc, ◌+◌, ◌-◌, Option, none, some, Bool, List, [], ◌∷◌, ◌++◌, not, ◌||◌, ◌==◌, ltb,
  if◌then◌else◌, take, drop, length,
}
use embedded_systems_runtime.Protocol.Endian.{at, get_u16_be}
use embedded_systems_runtime.Protocol.Packet.{
  Packet, Encoded, Status, ok, eformat, etoobig, eio, eof, magic, version_number, max_payload,
  header_size, crc_size, packet_encode, packet_decode,
}

-- The bytes that one read(2) stored (none at the end of the file), EINTR, or another error.
pub data ReadEvent : Type 0 where
  got : List ℕ → ReadEvent
  interrupted failed : ReadEvent

-- The count that one write(2) returned, EINTR, or another error.
pub data WriteEvent : Type 0 where
  wrote : ℕ → WriteEvent
  interrupted failed : WriteEvent

-- `len` bytes are wanted, `buf` holds those that came.
unfoldable pub read_all : ℕ → List ℕ → List ReadEvent → Option (Status × List ℕ × List ReadEvent)
read_all zero buf es = some (ok, buf, es)
read_all (suc len) buf [] = none
read_all (suc len) buf (ReadEvent.interrupted ∷ es) = read_all (suc len) buf es
read_all (suc len) buf (ReadEvent.failed ∷ es) = some (eio, buf, es)
read_all (suc len) buf (got [] ∷ es) = some (eof, buf, es)
read_all (suc len) buf (got (b ∷ bs) ∷ es) = read_all (len - length bs) (buf ++ (b ∷ bs)) es

-- `buf` is what is left to write, `sent` what the peer was given.
unfoldable pub write_all :
    List ℕ → List ℕ → List WriteEvent → Option (Status × List ℕ × List WriteEvent)
write_all sent [] es = some (ok, sent, es)
write_all sent (b ∷ buf) [] = none
write_all sent (b ∷ buf) (WriteEvent.interrupted ∷ es) = write_all sent (b ∷ buf) es
write_all sent (b ∷ buf) (WriteEvent.failed ∷ es) = some (eio, sent, es)
write_all sent (b ∷ buf) (wrote zero ∷ es) = some (eio, sent, es)
write_all sent (b ∷ buf) (wrote (suc n) ∷ es) = write_all (sent ++ (b ∷ take n buf)) (drop n buf) es

-- What follows the call of mlrt_packet_encode.
unfoldable pub send_encoded : Encoded → List WriteEvent → Option (Status × List ℕ × List WriteEvent)
unfolding write_all
send_encoded e es = elim e.status [
  | ok ↦ write_all [] (take e.out_len e.out) es
  | rc ↦ some (rc, [], es)
]

-- `frame` is the uninitialised local array of 526 bytes.
unfoldable pub packet_write_fd :
    Packet → List ℕ → List WriteEvent → Option (Status × List ℕ × List WriteEvent)
unfolding send_encoded
packet_write_fd packet frame es = send_encoded (packet_encode packet frame (length frame) 0) es

-- The second half of mlrt_packet_read_fd, once the header has come.
unfoldable pub read_tail :
    Packet → List ℕ → List ReadEvent → Option (Status × Packet × List ReadEvent)
unfolding read_all
read_tail packet header es =
    if not (get_u16_be header 0 == magic) || not (at header 2 == version_number)
    then some (eformat, packet, es)
    else (let payload_len = get_u16_be header 4 in
        if ltb max_payload payload_len
        then some (etoobig, packet, es)
        else elim (read_all (payload_len + crc_size) header es) [
          | none ↦ none
          | some (ok, frame, es') ↦ (let (rc, p) = packet_decode frame packet in some (rc, p, es'))
          | some (rc, frame, es') ↦ some (rc, packet, es')
        ])

unfoldable pub packet_read_fd : Packet → List ReadEvent → Option (Status × Packet × List ReadEvent)
unfolding read_tail
packet_read_fd packet es = elim (read_all header_size [] es) [
  | none ↦ none
  | some (ok, header, es') ↦ read_tail packet header es'
  | some (rc, header, es') ↦ some (rc, packet, es')
]
