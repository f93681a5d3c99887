-- ===== src/Transport/Examples.antt =====
-- A frame that comes back corrupted.
use embedded_systems_runtime.Prelude.{◌≡◌, refl, some, List, [], ◌∷◌, ◌++◌, arith}
use embedded_systems_runtime.Protocol.Stream.{ReadEvent, got, WriteEvent, wrote}
use embedded_systems_runtime.Protocol.Endian.{u32_be}
use embedded_systems_runtime.Datapath.Checksum.{crc32_from}
use embedded_systems_runtime.Transport.{
  Frame, outgoing, encode_frame, corrupted, payload_crc, refused, read_frame,
}
use embedded_systems_runtime.Transport.Serve.{serve}
use embedded_systems_runtime.Transport.Serve.Answers.{
  Exchange, incoming_reads, outgoing_writes, answers, serve_answers,
}
use embedded_systems_runtime.Transport.Echo.{read_frame-outgoing}

abbrev third : Frame
third = record { seq = 7; payload = 1 ∷ 2 ∷ 3 ∷ [] }

abbrev head_reads : List ReadEvent
head_reads =
    got (70 ∷ 65 ∷ 66 ∷ 82 ∷ 0 ∷ 0 ∷ 0 ∷ 1 ∷ 0 ∷ 0 ∷ [])
    ∷ ReadEvent.interrupted
    ∷ got (0 ∷ 7 ∷ 0 ∷ 0 ∷ 0 ∷ 3 ∷ 85 ∷ 188 ∷ 128 ∷ 29 ∷ [])
    ∷ []

abbrev payload_reads : List ReadEvent
payload_reads = got (1 ∷ 2 ∷ []) ∷ got (2 ∷ []) ∷ []

read_frame-outgoing_example : read_frame (head_reads ++ (payload_reads ++ [])) ≡ some (refused, [])
unfolding outgoing corrupted u32_be payload_crc crc32_from
read_frame-outgoing_example =
    read_frame-outgoing 4 2 third head_reads payload_reads [] (omega arith) (omega arith)
      (omega arith) (omega arith) (omega arith) refl

-- A payload of three bytes, and an empty one.
abbrev two_requests : List Exchange
two_requests =
    record {
      frame = third;
      head_reads = head_reads;
      payload_reads = got (1 ∷ 2 ∷ 3 ∷ []) ∷ [];
      writes = wrote 5 ∷ WriteEvent.interrupted ∷ wrote 18 ∷ [];
    }
    ∷ record {
      frame = record { seq = 8; payload = [] };
      head_reads =
          got
            (70 ∷ 65 ∷ 66 ∷ 82 ∷ 0 ∷ 0 ∷ 0 ∷ 1 ∷ 0 ∷ 0 ∷ 0 ∷ 8 ∷ 0 ∷ 0 ∷ 0 ∷ 0 ∷ 0 ∷ 0 ∷ 0 ∷ 0 ∷ [])
          ∷ [];
      payload_reads = [];
      writes = wrote 20 ∷ [];
    }
    ∷ []

serve_answers_example :
    serve 3 0 1 [] (incoming_reads two_requests (got [] ∷ [])) (outgoing_writes two_requests [])
    ≡ some (answers 0 1 two_requests)
unfolding encode_frame u32_be payload_crc crc32_from
serve_answers_example =
    serve_answers two_requests 0 1 [] [] []
      (
        (omega arith, omega arith, omega arith, omega arith, omega arith, refl, omega arith),
        ((omega arith, omega arith, omega arith, omega arith, omega arith, refl, omega arith), tt),
      )
      (omega arith)
