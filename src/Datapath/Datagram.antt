-- ===== src/Datapath/Datagram.antt =====
-- The datagrams of projects/network-verification-lab/src/datapath.cpp: encode, and the fields that
-- process reads.
use embedded_systems_runtime.Prelude.{
  ℕ, ◌%◌, ◌^◌, List, ◌∷◌, ◌++◌, ◌==◌, if◌then◌else◌, length, bit_xor,
}
use embedded_systems_runtime.Protocol.Endian.{at, u16_be, u32_be, get_u16_be, get_u32_be}
use embedded_systems_runtime.Datapath.Checksum.{crc32_from}

abbrev pub magic_word : ℕ
magic_word = 0x4E56_4552

abbrev pub datagram_version : ℕ
datagram_version = 1

abbrev pub datagram_header : ℕ
datagram_header = 24

abbrev pub longest_payload : ℕ
longest_payload = 1400

abbrev pub max_sessions : ℕ
max_sessions = 64

pub data Kind : Type 0 where
  data_kind ack stats_request stats_reply reset_request reset_reply : Kind

unfoldable pub kind_code : Kind → ℕ
kind_code data_kind = 1
kind_code ack = 2
kind_code stats_request = 3
kind_code stats_reply = 4
kind_code reset_request = 5
kind_code reset_reply = 6

-- u16, u32, put16 and put32 are the readers and the writers of Protocol/Endian.
pub record Header : Type 0 where
  pub kind : ℕ
  pub flags : ℕ
  pub session : ℕ
  pub sequence : ℕ
  pub payload_length : ℕ
  pub reserved : ℕ

-- What encode writes before the checksum.
unfoldable pub encoded_head : Kind → ℕ → ℕ → List ℕ → List ℕ
unfolding kind_code u16_be u32_be
encoded_head kind session sequence payload =
    u32_be magic_word
    ++ (datagram_version
        ∷ kind_code kind
        ∷ (u16_be 0
            ++ (u32_be session
                ++ (u32_be sequence ++ (u16_be (length payload % 2 ^ 16) ++ u16_be 0)))))

-- The checksum over a head and a payload, which is left out where it is empty.
unfoldable pub check_of : List ℕ → List ℕ → ℕ
unfolding crc32_from
check_of head payload =
    let check = crc32_from head 0xFFFF_FFFF in
    bit_xor (if length payload == 0 then check else crc32_from payload check) 0xFFFF_FFFF

unfoldable pub encode : Kind → ℕ → ℕ → List ℕ → List ℕ
unfolding encoded_head check_of
encode kind session sequence payload =
    let head = encoded_head kind session sequence payload in
    head ++ (u32_be (check_of head payload) ++ payload)

unfoldable pub header_at : List ℕ → Header
header_at bytes = record {
  kind = at bytes 5;
  flags = get_u16_be bytes 6;
  session = get_u32_be bytes 8;
  sequence = get_u32_be bytes 12;
  payload_length = get_u16_be bytes 16;
  reserved = get_u16_be bytes 18;
}
