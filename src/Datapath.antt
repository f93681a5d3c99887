-- ===== src/Datapath.antt =====
-- projects/network-verification-lab/src/datapath.cpp: the datagrams of the verification lab, and the
-- class Datapath, which checks, counts and acknowledges them. Its datagrams are in Datapath/Datagram and its crc32 in
-- Datapath/Checksum. How a
-- number is written in decimal is a parameter.
pub mod Checksum
pub mod Datagram
mod Examples
pub mod Counting
pub mod Taken
pub mod Exact
pub mod Accepts
pub mod Replay
use embedded_systems_runtime.Prelude.{
  ℕ, ◌+◌, ◌-◌, ◌%◌, ◌^◌, Option, none, some, Bool, true, false, not, ◌&&◌, ◌||◌, List, [], ◌∷◌,
  ◌++◌, ◌==◌, ltb, leb, if◌then◌else◌, length, take, drop, bytes_at, bit_xor, codes,
}
use embedded_systems_runtime.Protocol.Endian.{at, u16_be, u32_be, get_u16_be, get_u32_be}
use embedded_systems_runtime.Datapath.Checksum.{crc32_from}
use embedded_systems_runtime.Datapath.Datagram.{
  magic_word, datagram_version, datagram_header, longest_payload, max_sessions, Kind, data_kind,
  ack, stats_request, stats_reply, reset_request, reset_reply, kind_code, Header, encoded_head,
  check_of, encode, header_at,
}

pub record Counters : Type 0 where
  pub datagrams : ℕ
  pub accepted : ℕ
  pub invalid : ℕ
  pub crc_errors : ℕ
  pub length_errors : ℕ
  pub replay_errors : ℕ
  pub header_errors : ℕ
  pub type_errors : ℕ
  pub session_errors : ℕ
  pub bytes_accepted : ℕ

abbrev pub no_counts : Counters
no_counts = record {
  datagrams = 0;
  accepted = 0;
  invalid = 0;
  crc_errors = 0;
  length_errors = 0;
  replay_errors = 0;
  header_errors = 0;
  type_errors = 0;
  session_errors = 0;
  bytes_accepted = 0;
}

-- The map from sessions to their last sequence numbers, as a list of pairs.
pub record Datapath : Type 0 where
  pub counts : Counters
  pub last_seq : List (ℕ × ℕ)

abbrev pub new_datapath : Datapath
new_datapath = record { counts = no_counts; last_seq = [] }

-- last_seq_.find(session)
unfoldable pub find_session : ℕ → List (ℕ × ℕ) → Option ℕ
find_session session [] = none
find_session session ((s, q) ∷ entries) =
    if s == session then some q else find_session session entries

-- last_seq_[session] = sequence
unfoldable pub store_session : ℕ → ℕ → List (ℕ × ℕ) → List (ℕ × ℕ)
store_session session sequence [] = (session, sequence) ∷ []
store_session session sequence ((s, q) ∷ entries) =
    if s == session
    then (s, sequence) ∷ entries
    else (s, q) ∷ store_session session sequence entries

-- ++ on a uint64_t
abbrev pub up : ℕ → ℕ
up n = (n + 1) % 2 ^ 64

-- The counter that a refused datagram raises, besides `invalid`.
pub data Fault : Type 0 where
  bad_length bad_header bad_crc replayed no_session bad_type : Fault

unfoldable pub raise_fault : Fault → Counters → Counters
raise_fault bad_length c = record c { length_errors = up c.length_errors }
raise_fault bad_header c = record c { header_errors = up c.header_errors }
raise_fault bad_crc c = record c { crc_errors = up c.crc_errors }
raise_fault replayed c = record c { replay_errors = up c.replay_errors }
raise_fault no_session c = record c { session_errors = up c.session_errors }
raise_fault bad_type c = record c { type_errors = up c.type_errors }

unfoldable pub refuse : Datapath → Fault → List ℕ × Datapath
unfolding raise_fault
refuse dp fault = (
  [],
  record dp { counts = raise_fault fault (record dp.counts { invalid = up dp.counts.invalid }) },
)

-- The tests on a datagram of at least 24 bytes, in the order of the code: what is wrong with it.
unfoldable pub fault_of : List ℕ → Header → Option Fault
unfolding check_of
fault_of bytes h =
    if not (get_u32_be bytes 0 == magic_word)
      || (not (at bytes 4 == datagram_version) || (not (h.flags == 0) || not (h.reserved == 0)))
    then some bad_header
    else (if ltb longest_payload h.payload_length
          || not (length bytes == datagram_header + h.payload_length)
        then some bad_length
        else (if check_of (bytes_at bytes 0 20) (bytes_at bytes datagram_header h.payload_length)
              == get_u32_be bytes 20
            then none
            else some bad_crc))

-- The step from the last sequence number of the session to this one, as a uint32_t.
unfoldable pub delta : Option ℕ → ℕ → ℕ
delta none sequence = 1
delta (some last) sequence = (sequence + 2 ^ 32 - last) % 2 ^ 32

unfoldable pub is_none : Option ℕ → Bool
is_none none = true
is_none (some n) = false

unfoldable pub accept : Datapath → Header → List ℕ → List ℕ × Datapath
unfolding store_session encode
accept dp h bytes = (
  encode ack h.session h.sequence (drop datagram_header bytes),
  record {
    counts = record dp.counts {
      accepted = up dp.counts.accepted;
      bytes_accepted = (dp.counts.bytes_accepted + h.payload_length) % 2 ^ 64;
    };
    last_seq = store_session h.session h.sequence dp.last_seq;
  },
)

unfoldable pub on_data : Datapath → Header → List ℕ → List ℕ × Datapath
unfolding find_session is_none delta accept refuse
on_data dp h bytes =
    let last = find_session h.session dp.last_seq in
    if is_none last && length dp.last_seq == max_sessions
    then refuse dp no_session
    else (if delta last h.sequence == 0 || leb (2 ^ 31) (delta last h.sequence)
        then refuse dp replayed
        else accept dp h bytes)

-- `decimal` writes a number.
module _ (decimal : ℕ → List ℕ) where
  unfoldable pub stats : Datapath → List ℕ
  stats dp =
      codes "{\"datagrams\":"
      ++ (decimal dp.counts.datagrams
          ++ (codes ",\"accepted\":"
              ++ (decimal dp.counts.accepted
                  ++ (codes ",\"invalid\":"
                      ++ (decimal dp.counts.invalid
                          ++ (codes ",\"crc_errors\":"
                              ++ (decimal dp.counts.crc_errors
                                  ++ (codes ",\"length_errors\":"
                                      ++ (decimal dp.counts.length_errors
                                          ++ (codes ",\"replay_errors\":"
                                              ++ (decimal dp.counts.replay_errors
                                                  ++ (codes ",\"header_errors\":"
                                                      ++ (decimal dp.counts.header_errors
                                                          ++ (codes ",\"type_errors\":"
                                                            ++ (decimal dp.counts.type_errors
                                                            ++ (codes ",\"session_errors\":"
                                                            ++ (decimal dp.counts.session_errors
                                                            ++ (codes ",\"bytes_accepted\":"
                                                            ++ (decimal dp.counts.bytes_accepted
                                                            ++ (codes ",\"sessions\":"
                                                            ++ (decimal (length dp.last_seq)
                                                            ++ codes "}")))))))))))))))))))))

  -- session, sequence and length are all 0.
  unfoldable pub is_plain : Header → Bool
  is_plain h = h.session == 0 && (h.sequence == 0 && h.payload_length == 0)

  unfoldable pub by_kind : Datapath → Header → List ℕ → List ℕ × Datapath
  unfolding kind_code on_data is_plain encode stats refuse
  by_kind dp h bytes =
      if h.kind == kind_code data_kind
      then on_data dp h bytes
      else (if h.kind == kind_code stats_request && is_plain h
          then (encode stats_reply 0 0 (stats dp), dp)
          else (if h.kind == kind_code reset_request && is_plain h
              then (encode reset_reply 0 0 [], new_datapath)
              else refuse dp bad_type))

  unfoldable pub checked_datagram : Datapath → List ℕ → Option Fault → List ℕ × Datapath
  unfolding refuse by_kind header_at
  checked_datagram dp bytes none = by_kind dp (header_at bytes) bytes
  checked_datagram dp bytes (some fault) = refuse dp fault

  -- The reply, which is empty where there is none, and the state.
  unfoldable pub process : Datapath → List ℕ → List ℕ × Datapath
  unfolding checked_datagram fault_of header_at refuse
  process dp bytes =
      let counted = record dp {
        counts = record dp.counts { datagrams = up dp.counts.datagrams };
      } in
      if ltb (length bytes) datagram_header
      then refuse counted bad_length
      else checked_datagram counted bytes (fault_of bytes (header_at bytes))
