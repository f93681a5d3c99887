-- ===== src/Target/Respond.antt =====
-- Every request is answered by a packet that can be framed.
use embedded_systems_runtime.Prelude.{
  ℕ, ◌+◌, ◌%◌, ◌^◌, ◌≤◌, ◌<◌, ◌≡◌, refl, ◌∙◌, Bool, not, ◌||◌, List, [], ◌∷◌, ◌++◌, ◌==◌, ltb,
  if_both, if◌then◌else◌, length, take, write_at, codes, All, IsByte, All-write_at, All-replicate,
  length-write_at, All-take, length-take, arith,
}
use embedded_systems_runtime.Protocol.Endian.{
  at, get_u16_be, u16_be, u32_be, u16_be_bytes, u32_be_bytes,
}
use embedded_systems_runtime.Protocol.Packet.{Packet, max_payload, zero_payload}
use embedded_systems_runtime.Protocol.Packet.Frame.{IsPacket}
use embedded_systems_runtime.Target.{
  Ctx, State, boot, init, ready, running, fault, recovery, state_code, u64,
}
use embedded_systems_runtime.Target.Handle.{
  Arch, arm64, x86_64, i386, unknown, arch_name, response, make_error, status_payload, make_status,
  make_fw_info, handle_config_set, handle_fault_inject, handle_packet, msg_status_req,
  msg_config_set, msg_fault_inject, msg_reset, msg_fw_info_req,
}

-- What a response owes to the request: it can be framed, and it carries the request's number.
pub record Answers (seq : ℕ) (rsp : Packet) : Type 0 where
  pub packet : IsPacket rsp
  pub short : rsp.length ≤ max_payload
  pub version_one : rsp.version ≡ 1
  pub same_seq : rsp.seq ≡ seq

zeros_bytes : All IsByte zero_payload
unfolding zero_payload
zeros_bytes = All-replicate 512 0 (omega arith)

length-zeros : length zero_payload ≡ 512
unfolding zero_payload
length-zeros = refl

pub response-Answers :
    (type seq : ℕ) (bytes : List ℕ)
    → type < 256
    → seq < 2 ^ 32
    → All IsByte bytes
    → length bytes ≤ 512
    → Answers seq (response type seq bytes)
response-Answers type seq bytes ht hs hb hl = record {
  packet = record {
    version_fits = omega arith;
    type_fits = ht;
    seq_fits = hs;
    payload_fits = length-write_at bytes zero_payload 0 ∙ length-zeros;
    payload_bytes = All-write_at bytes zero_payload 0 zeros_bytes hb;
  };
  short = hl;
  version_one = refl;
  same_seq = refl;
}

make_error-Answers :
    (req : Packet) (text : List ℕ)
    → req.seq < 2 ^ 32
    → All IsByte text
    → length text ≤ 512
    → Answers req.seq (make_error req text)
unfolding make_error
make_error-Answers req text hs hb hl =
    response-Answers 7 req.seq (take (if ltb 512 (length text) then 512 else length text) text)
      (omega arith) hs
      (All-take IsByte (if ltb 512 (length text) then 512 else length text) text hb)
      (ground (arith, length-take (length text) text))

length-status_payload :
    (ctx : Ctx) (uptime_ms : ℕ) → length (status_payload ctx uptime_ms zero_payload) ≡ 512
unfolding status_payload
length-status_payload ctx uptime_ms = simp (length-write_at, length-zeros)

state_code_byte : (s : State) → state_code s < 256
state_code_byte boot = omega arith
state_code_byte init = omega arith
state_code_byte ready = omega arith
state_code_byte running = omega arith
state_code_byte fault = omega arith
state_code_byte recovery = omega arith

status_payload_bytes :
    (ctx : Ctx) (uptime_ms : ℕ) → All IsByte (status_payload ctx uptime_ms zero_payload)
unfolding status_payload
status_payload_bytes ctx uptime_ms = put32 _ 23 _ (
    put32 _ 19 _ (
      put32 _ 15 _ (
        put32 _ 11 _ (
          put32 _ 7 _ (
            put32 _ 3 _ (
              All-write_at (u16_be (ctx.sample_rate_hz % 2 ^ 16)) _ 1
                (All-write_at (state_code ctx.state ∷ []) zero_payload 0 zeros_bytes
                  (state_code_byte ctx.state, tt))
                (u16_be_bytes (ctx.sample_rate_hz % 2 ^ 16))))))))
  where
    put32 : (mem : List ℕ) (i v : ℕ) → All IsByte mem → All IsByte (write_at mem i (u32_be v))
    put32 mem i v h = All-write_at (u32_be v) mem i h (u32_be_bytes v)

make_status-Answers :
    (now : ℕ → ℕ) (ctx : Ctx) (req : Packet)
    → req.seq < 2 ^ 32
    → Answers req.seq (make_status now ctx req)
unfolding make_status
make_status-Answers now ctx req hs = record {
  packet = record {
    version_fits = omega arith;
    type_fits = omega arith;
    seq_fits = hs;
    payload_fits = length-status_payload ctx _;
    payload_bytes = status_payload_bytes ctx _;
  };
  short = omega arith;
  version_one = refl;
  same_seq = refl;
}

make_fw_info-Answers :
    (arch : Arch) (req : Packet) → req.seq < 2 ^ 32 → Answers req.seq (make_fw_info arch req)
unfolding make_fw_info
make_fw_info-Answers arm64 req hs =
    response-Answers 9 req.seq (codes "target-sim/1.0 arch=" ++ arch_name arm64) (omega arith) hs
      (omega arith) (omega arith)
make_fw_info-Answers x86_64 req hs =
    response-Answers 9 req.seq (codes "target-sim/1.0 arch=" ++ arch_name x86_64) (omega arith) hs
      (omega arith) (omega arith)
make_fw_info-Answers i386 req hs =
    response-Answers 9 req.seq (codes "target-sim/1.0 arch=" ++ arch_name i386) (omega arith) hs
      (omega arith) (omega arith)
make_fw_info-Answers unknown req hs =
    response-Answers 9 req.seq (codes "target-sim/1.0 arch=" ++ arch_name unknown) (omega arith) hs
      (omega arith) (omega arith)

-- The same of the second part of a pair, as a type that inference can read.
record Replied (seq : ℕ) (r : Ctx × Packet) : Type 0 where
  answers : Answers seq r.1

refused :
    (ctx : Ctx) (req : Packet) (text : List ℕ)
    → req.seq < 2 ^ 32
    → All IsByte text
    → length text ≤ 512
    → Replied req.seq (ctx, make_error req text)
refused ctx req text hs hb hl = record { answers = make_error-Answers req text hs hb hl }

module _ (ctx : Ctx) (req : Packet) (hs : req.seq < 2 ^ 32) where
  either :
      (b : Bool) (x y : Ctx × Packet)
      → Replied req.seq x
      → Replied req.seq y
      → Replied req.seq (if b then x else y)
  either = if_both (Replied req.seq)

  handle_config_set-Replied : Replied req.seq (handle_config_set ctx req)
  unfolding handle_config_set u16_be
  handle_config_set-Replied =
      let rate = get_u16_be req.payload 0 in
      either (not (req.length == 2)) _ _
        (refused ctx req (codes "CONFIG_SET requires 2-byte rate") hs (omega arith) (omega arith))
        (either (rate == 0 || ltb 1000 rate) _
          (record ctx { sample_rate_hz = rate }, response 6 req.seq (u16_be rate))
          (refused ctx req (codes "rate must be 1..1000 Hz") hs (omega arith) (omega arith))
          (record {
            answers =
                response-Answers 6 req.seq (u16_be rate) (omega arith) hs (u16_be_bytes rate)
                  (omega arith);
          }))

  handle_fault_inject-Replied : (now : ℕ → ℕ) → Replied req.seq (handle_fault_inject now ctx req)
  unfolding handle_fault_inject
  handle_fault_inject-Replied now =
      either (not (req.length == 1) || not (at req.payload 0 == 1)) _
        (record ctx { freeze_until_ns = u64 (now 0 + 900000000) }, response 6 req.seq (1 ∷ []))
        (refused ctx req (codes "supported fault: freeze-worker") hs (omega arith) (omega arith))
        (record {
          answers =
              response-Answers 6 req.seq (1 ∷ []) (omega arith) hs (omega arith) (omega arith);
        })

  handle_packet-Replied :
      (arch : Arch) (now : ℕ → ℕ) → Replied req.seq (handle_packet arch now ctx req)
  unfolding handle_packet
  handle_packet-Replied arch now =
      either (req.type == msg_status_req) _ _
        (record { answers = make_status-Answers now ctx req hs })
        (either (req.type == msg_config_set) _ _ handle_config_set-Replied (
          either (req.type == msg_fault_inject) _ _ (handle_fault_inject-Replied now) (
            either (req.type == msg_reset) _ _
              (record {
                answers = response-Answers 12 req.seq [] (omega arith) hs tt (omega arith);
              })
              (either (req.type == msg_fw_info_req) _ _
                (record { answers = make_fw_info-Answers arch req hs })
                (refused ctx req (codes "unsupported message type") hs (omega arith)
                  (omega arith))))))

-- Every request, of every type and with every payload, is answered by a packet of version 1 with the
-- request's sequence number that fits a frame.
pub handle_packet-Answers :
    (arch : Arch) (now : ℕ → ℕ) (ctx : Ctx) (req : Packet)
    → req.seq < 2 ^ 32
    → Answers req.seq (handle_packet arch now ctx req).1
handle_packet-Answers arch now ctx req hs = (handle_packet-Replied ctx req hs arch now).answers
