-- ===== src/Transport.antt =====
-- The frames of projects/ai-networking-benchmark-lab/src/transport.cpp: encode, read_all, read_frame,
-- and what serve_connection sends back. recv(2) is a list of answers, as read(2) is in
-- Protocol/Stream; an exception is a value.
pub mod Corrupt
pub mod Echo
pub mod Examples
pub mod Serve
use embedded_systems_runtime.Prelude.{
  ℕ, zero, suc, ◌+◌, ◌-◌, ◌%◌, ◌^◌, Option, none, some, Bool, true, false, List, [], ◌∷◌, ◌++◌,
  length, ◌==◌, ltb, not, ◌&&◌, if◌then◌else◌, bit_xor,
}
use embedded_systems_runtime.Protocol.Endian.{u32_be, get_u32_be}
use embedded_systems_runtime.Protocol.Stream.{ReadEvent, got}
use embedded_systems_runtime.Datapath.Checksum.{crc32_from}

abbrev pub fabric_magic : ℕ
fabric_magic = 0x4641_4252

abbrev pub fabric_header : ℕ
fabric_header = 20

abbrev pub max_body : ℕ
max_body = 2 ^ 20

-- crc32; its loop is the one of datapath.cpp.
unfoldable pub payload_crc : List ℕ → ℕ
payload_crc data_bytes = bit_xor (crc32_from data_bytes 0xFFFF_FFFF) 0xFFFF_FFFF

pub record Frame : Type 0 where
  seq : ℕ
  payload : List ℕ

-- The five stores of set32.
unfoldable pub frame_head : ℕ → List ℕ → List ℕ
frame_head seq payload =
    u32_be fabric_magic
    ++ (u32_be 1 ++ (u32_be seq ++ (u32_be (length payload) ++ u32_be (payload_crc payload))))

-- encode; `none` is the exception.
unfoldable pub encode_frame : ℕ → List ℕ → Option (List ℕ)
unfolding frame_head
encode_frame seq payload =
    if ltb max_body (length payload) then none else some (frame_head seq payload ++ payload)

-- outgoing.back() ^= 0x01
unfoldable pub flip_last : List ℕ → List ℕ
flip_last [] = []
flip_last (b ∷ []) = bit_xor b 1 ∷ []
flip_last (b ∷ c ∷ bs) = b ∷ flip_last (c ∷ bs)

unfoldable pub is_empty : List ℕ → Bool
is_empty [] = true
is_empty (b ∷ bs) = false

-- The condition under which serve_connection corrupts the answer to its n-th frame.
unfoldable pub corrupted : ℕ → ℕ → Frame → Bool
unfolding is_empty
corrupted n zero incoming = false
corrupted n (suc k) incoming = (n % suc k == 0) && not (is_empty incoming.payload)

unfoldable pub spoil : Bool → Option (List ℕ) → Option (List ℕ)
unfolding flip_last
spoil c none = none
spoil c (some wire) = some (if c then flip_last wire else wire)

-- What serve_connection sends back for its n-th frame.
unfoldable pub outgoing : ℕ → ℕ → Frame → Option (List ℕ)
unfolding corrupted spoil encode_frame
outgoing n corrupt_every incoming =
    spoil (corrupted n corrupt_every incoming) (encode_frame incoming.seq incoming.payload)

-- The results true and false of read_all, and its exception.
pub data Reading : Type 0 where
  filled : List ℕ → Reading
  closed threw : Reading

unfoldable pub at_end : List ℕ → Reading
at_end [] = closed
at_end (b ∷ bs) = threw

-- read_all: `len` bytes are still wanted, `buf` holds those that came.
unfoldable pub read_bytes : ℕ → List ℕ → List ReadEvent → Option (Reading × List ReadEvent)
unfolding at_end
read_bytes zero buf es = some (filled buf, es)
read_bytes (suc len) buf [] = none
read_bytes (suc len) buf (ReadEvent.interrupted ∷ es) = read_bytes (suc len) buf es
read_bytes (suc len) buf (ReadEvent.failed ∷ es) = some (threw, es)
read_bytes (suc len) buf (got [] ∷ es) = some (at_end buf, es)
read_bytes (suc len) buf (got (b ∷ bs) ∷ es) = read_bytes (len - length bs) (buf ++ (b ∷ bs)) es

-- The results true, with the frame, and false of read_frame, and its exception.
pub data Arrival : Type 0 where
  arrived : Frame → Arrival
  ended refused : Arrival

-- No call of read_all for an empty payload.
unfoldable pub read_payload : ℕ → List ReadEvent → Option (Reading × List ReadEvent)
unfolding read_bytes
read_payload zero es = some (filled [], es)
read_payload (suc len) es = read_bytes (suc len) [] es

unfoldable pub check_payload :
    List ℕ → Option (Reading × List ReadEvent) → Option (Arrival × List ReadEvent)
unfolding payload_crc
check_payload h none = none
check_payload h (some (filled p, es)) = some (
  if payload_crc p == get_u32_be h 16
      then arrived record { seq = get_u32_be h 8; payload = p }
      else refused,
  es,
)
check_payload h (some (closed, es)) = some (refused, es)
check_payload h (some (threw, es)) = some (refused, es)

unfoldable pub read_behind : Option (Reading × List ReadEvent) → Option (Arrival × List ReadEvent)
unfolding read_payload check_payload
read_behind none = none
read_behind (some (closed, es)) = some (ended, es)
read_behind (some (threw, es)) = some (refused, es)
read_behind (some (filled h, es)) =
    if (get_u32_be h 0 == fabric_magic) && (get_u32_be h 4 == 1)
    then if ltb max_body (get_u32_be h 12)
      then some (refused, es)
      else check_payload h (read_payload (get_u32_be h 12) es)
    else some (refused, es)

unfoldable pub read_frame : List ReadEvent → Option (Arrival × List ReadEvent)
unfolding read_bytes read_behind
read_frame es = read_behind (read_bytes fabric_header [] es)
