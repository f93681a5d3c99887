-- ===== src/Datapath/Examples.antt =====
-- The theorems on the datapath of the verification lab at one datagram.
use embedded_systems_runtime.Prelude.{
  ℕ, ◌^◌, ◌≤◌, ◌<◌, ◌≡◌, refl, ap, List, [], ◌∷◌, length, All, IsByte, arith,
}
use embedded_systems_runtime.Protocol.Crc.{crc32_update}
use embedded_systems_runtime.Protocol.Endian.{u16_be, u32_be}
use embedded_systems_runtime.Datapath.Checksum.{crc32_from, crc32_from-crc32_update}
use embedded_systems_runtime.Datapath.Datagram.{data_kind, ack, encode, encoded_head, kind_code}
use embedded_systems_runtime.Datapath.{
  Datapath, new_datapath, refuse, replayed, find_session, delta, is_none, process,
}
use embedded_systems_runtime.Datapath.Counting.{
  IsCounted, new_datapath-IsCounted, process_all, process_all-IsCounted,
}
use embedded_systems_runtime.Datapath.Taken.{counted, IsNew}
use embedded_systems_runtime.Datapath.Accepts.{sent_header, acknowledged, process-encode}
use embedded_systems_runtime.Datapath.Exact.{process_exact}
use embedded_systems_runtime.Datapath.Replay.{process_refuses_replay}

abbrev one_digit : ℕ → List ℕ
one_digit n = 48 ∷ []

abbrev short_payload : List ℕ
short_payload = 7 ∷ 8 ∷ []

first_number : IsNew new_datapath (sent_header 3 5 short_payload)
unfolding find_session delta is_none
first_number = record { room = refl; forward = omega arith; near = omega arith }

process-encode_example :
    process one_digit new_datapath (encode data_kind 3 5 short_payload)
    ≡ acknowledged new_datapath 3 5 short_payload
process-encode_example =
    process-encode one_digit new_datapath 3 5 short_payload (omega arith) (omega arith)
      (omega arith) (omega arith) first_number

one_accepted :
    (process one_digit new_datapath (encode data_kind 3 5 short_payload)).1.counts.accepted ≡ 1
one_accepted =
    ap (λ (r : List ℕ × Datapath). r.1.counts.accepted)
      (process-encode one_digit new_datapath 3 5 short_payload (omega arith) (omega arith)
        (omega arith) (omega arith) first_number)

process_all-IsCounted_example :
    IsCounted 2 (process_all one_digit new_datapath ((1 ∷ []) ∷ encode data_kind 3 5 [] ∷ []))
process_all-IsCounted_example =
    process_all-IsCounted one_digit 0 new_datapath ((1 ∷ []) ∷ encode data_kind 3 5 [] ∷ [])
      (new_datapath-IsCounted 0) (omega arith)

crc32_from-crc32_update_example :
    crc32_from (1 ∷ 2 ∷ []) 0xFFFF_FFFF ≡ crc32_update 0xFFFF_FFFF (1 ∷ 2 ∷ [])
crc32_from-crc32_update_example = crc32_from-crc32_update (1 ∷ 2 ∷ []) 0xFFFF_FFFF

encoded_bytes : All IsByte (encode data_kind 3 5 short_payload)
unfolding encode encoded_head kind_code u16_be u32_be
encoded_bytes = omega arith

process_exact_example :
    (session : ℕ) × (sequence : ℕ) × (payload : List ℕ) × (encode data_kind 3 5 short_payload
      ≡ encode data_kind session sequence payload)
    × (length payload ≤ 1400)
    × (0 < delta (find_session session new_datapath.last_seq) sequence)
    × (delta (find_session session new_datapath.last_seq) sequence < 2 ^ 31)
    × ((process one_digit new_datapath (encode data_kind 3 5 short_payload)).0
        ≡ encode ack session sequence payload)
process_exact_example =
    process_exact one_digit new_datapath (encode data_kind 3 5 short_payload) encoded_bytes
      one_accepted

process_refuses_replay_example :
    process one_digit
      (process_all one_digit
        (process one_digit new_datapath (encode data_kind 3 5 short_payload)).1
        [])
      (encode data_kind 3 5 short_payload)
    ≡ refuse
        (counted (
          process_all one_digit
            (process one_digit new_datapath (encode data_kind 3 5 short_payload)).1
            []))
        replayed
process_refuses_replay_example =
    process_refuses_replay one_digit new_datapath (encode data_kind 3 5 short_payload) []
      one_accepted tt
