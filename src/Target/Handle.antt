-- ===== src/Target/Handle.antt =====
-- make_error, make_status, reset_runtime and mlrt_target_handle_packet of target/target_core.c.
use embedded_systems_runtime.Prelude.{
  ℕ, ◌+◌, ◌-◌, ◌/◌, ◌%◌, ◌^◌, not, ◌||◌, List, [], ◌∷◌, ◌++◌, ◌==◌, ltb, if◌then◌else◌, length,
  take, write_at, codes,
}
use embedded_systems_runtime.Ring.{ring_get_stats}
use embedded_systems_runtime.Protocol.Endian.{at, get_u16_be, put_u16_be, put_u32_be, u16_be}
use embedded_systems_runtime.Protocol.Packet.{Packet, zero_packet, max_payload, version_number}
use embedded_systems_runtime.Target.{Ctx, init, running, state_code, clamp_u64_u32, u64}

-- mlrt_message_type
abbrev pub msg_status_req : ℕ
msg_status_req = 3

abbrev pub msg_status_rsp : ℕ
msg_status_rsp = 4

abbrev pub msg_config_set : ℕ
msg_config_set = 5

abbrev pub msg_config_ack : ℕ
msg_config_ack = 6

abbrev pub msg_error : ℕ
msg_error = 7

abbrev pub msg_fw_info_req : ℕ
msg_fw_info_req = 8

abbrev pub msg_fw_info_rsp : ℕ
msg_fw_info_rsp = 9

abbrev pub msg_fault_inject : ℕ
msg_fault_inject = 10

abbrev pub msg_reset : ℕ
msg_reset = 11

abbrev pub msg_reset_ack : ℕ
msg_reset_ack = 12

-- A zeroed response with its version, type and sequence number, and `length` bytes of payload.
abbrev pub response : ℕ → ℕ → List ℕ → Packet
response type seq bytes = record zero_packet {
  version = version_number;
  type = type;
  seq = seq;
  length = length bytes;
  payload = write_at zero_packet.payload 0 bytes;
}

unfoldable pub make_error : Packet → List ℕ → Packet
make_error req text =
    let n = if ltb max_payload (length text) then max_payload else length text in
    response msg_error req.seq (take n text)

-- The stores of make_status, from the byte of the state to the count of recoveries.
unfoldable pub status_payload : Ctx → ℕ → List ℕ → List ℕ
unfolding clamp_u64_u32
status_payload ctx uptime_ms payload =
    let qs = ring_get_stats ctx.queue in
    let p0 = write_at payload 0 (state_code ctx.state ∷ []) in
    let p1 = put_u16_be p0 1 (ctx.sample_rate_hz % 2 ^ 16) in
    let p2 = put_u32_be p1 3 (clamp_u64_u32 uptime_ms) in
    let p3 = put_u32_be p2 7 (clamp_u64_u32 ctx.produced) in
    let p4 = put_u32_be p3 11 (clamp_u64_u32 ctx.processed) in
    let p5 = put_u32_be p4 15 (clamp_u64_u32 qs.dropped) in
    let p6 = put_u32_be p5 19 (clamp_u64_u32 ctx.crc_errors) in
    put_u32_be p6 23 (clamp_u64_u32 ctx.watchdog_recoveries)

unfoldable pub make_status : (ℕ → ℕ) → Ctx → Packet → Packet
unfolding status_payload
make_status now ctx req =
    let uptime_ms = u64 (now 0 + 2 ^ 64 - ctx.started_ns) / 1000000 in
    record {
      version = version_number;
      type = msg_status_rsp;
      seq = req.seq;
      length = 27;
      payload = status_payload ctx uptime_ms zero_packet.payload;
    }

-- All stores of reset_runtime; the state is INIT until the last of them.
unfoldable pub reset_runtime : (ℕ → ℕ) → Ctx → Ctx
reset_runtime now ctx =
    let cleared = record ctx {
      state = init;
      produced = 0;
      processed = 0;
      watchdog_recoveries = 0;
      crc_errors = 0;
      freeze_until_ns = 0;
      started_ns = now 0;
      last_processed_ns = now 1;
      worker_heartbeat_ns = now 2;
    } in
    record cleared { state = running }

-- The architectures that the preprocessor tells apart.
pub data Arch : Type 0 where
  arm64 x86_64 i386 unknown : Arch

abbrev pub arch_name : Arch → List ℕ
arch_name arm64 = codes "arm64"
arch_name x86_64 = codes "x86_64"
arch_name i386 = codes "i386"
arch_name unknown = codes "unknown"

-- snprintf of "target-sim/1.0 arch=%s", which is shorter than the payload.
unfoldable pub make_fw_info : Arch → Packet → Packet
make_fw_info arch req =
    response msg_fw_info_rsp req.seq (codes "target-sim/1.0 arch=" ++ arch_name arch)

unfoldable pub handle_config_set : Ctx → Packet → Ctx × Packet
unfolding make_error
handle_config_set ctx req =
    if not (req.length == 2)
    then (ctx, make_error req (codes "CONFIG_SET requires 2-byte rate"))
    else (let rate = get_u16_be req.payload 0 in
        if rate == 0 || ltb 1000 rate
        then (ctx, make_error req (codes "rate must be 1..1000 Hz"))
        else (record ctx { sample_rate_hz = rate }, response msg_config_ack req.seq (u16_be rate)))

unfoldable pub handle_fault_inject : (ℕ → ℕ) → Ctx → Packet → Ctx × Packet
unfolding make_error
handle_fault_inject now ctx req =
    if not (req.length == 1) || not (at req.payload 0 == 1)
    then (ctx, make_error req (codes "supported fault: freeze-worker"))
    else (
      record ctx { freeze_until_ns = u64 (now 0 + 900000000) },
      response msg_config_ack req.seq (1 ∷ []),
    )

-- mlrt_target_handle_packet: the new context and the response.
unfoldable pub handle_packet : Arch → (ℕ → ℕ) → Ctx → Packet → Ctx × Packet
unfolding handle_config_set handle_fault_inject make_status make_fw_info reset_runtime make_error
handle_packet arch now ctx req =
    if req.type == msg_status_req
    then (ctx, make_status now ctx req)
    else if req.type == msg_config_set
    then handle_config_set ctx req
    else if req.type == msg_fault_inject
    then handle_fault_inject now ctx req
    else if req.type == msg_reset
    then (reset_runtime now ctx, response msg_reset_ack req.seq [])
    else if req.type == msg_fw_info_req
    then (ctx, make_fw_info arch req)
    else (ctx, make_error req (codes "unsupported message type"))
