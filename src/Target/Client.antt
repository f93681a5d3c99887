-- ===== src/Target/Client.antt =====
-- transact's last test, print_status and the corruption of send_corrupt_crc in
-- target/target_client.c.
use embedded_systems_runtime.Prelude.{
  ℕ, ◌+◌, ◌-◌, ◌/◌, ◌%◌, ◌^◌, ◌<◌, ◌≡◌, refl, ap, ◌∙◌, Option, none, some, not, ◌||◌, List, ◌==◌,
  if◌then◌else◌, min, length, set, bit_xor, arith,
}
use embedded_systems_runtime.Protocol.Endian.{
  at, get_u16_be, get_u32_be, get_u16_be-put, get_u32_be-put, u16_be, u32_be,
}
use embedded_systems_runtime.Protocol.Packet.{Packet, zero_payload}
use embedded_systems_runtime.Target.{Ctx, state_code, clamp_u64_u32, u64}
use embedded_systems_runtime.Target.Handle.{make_status, status_payload, msg_status_rsp}

-- The numbers that print_status prints.
pub record StatusView : Type 0 where
  pub state : ℕ
  pub rate : ℕ
  pub uptime : ℕ
  pub produced : ℕ
  pub processed : ℕ
  pub dropped : ℕ
  pub crc_errors : ℕ
  pub wd : ℕ

-- `none` is the message about a malformed response.
unfoldable pub read_status : Packet → Option StatusView
read_status rsp =
    if not (rsp.type == msg_status_rsp) || not (rsp.length == 27)
    then none
    else some (record {
      state = at rsp.payload 0;
      rate = get_u16_be rsp.payload 1;
      uptime = get_u32_be rsp.payload 3;
      produced = get_u32_be rsp.payload 7;
      processed = get_u32_be rsp.payload 11;
      dropped = get_u32_be rsp.payload 15;
      crc_errors = get_u32_be rsp.payload 19;
      wd = get_u32_be rsp.payload 23;
    })

clamp_u64_u32-min : (v : ℕ) → (clamp_u64_u32 v ≡ min v 0xffff_ffff) × (clamp_u64_u32 v < 2 ^ 32)
unfolding clamp_u64_u32
clamp_u64_u32-min v = ground arith

module _ (ctx : Ctx) (uptime : ℕ) where
  abbrev payload : List ℕ
  payload = status_payload ctx uptime zero_payload

  state_field : at payload 0 ≡ state_code ctx.state
  unfolding status_payload zero_payload u16_be u32_be
  state_field = refl

  rate_field : get_u16_be payload 1 ≡ ctx.sample_rate_hz % 2 ^ 16
  unfolding status_payload zero_payload u16_be u32_be
  rate_field = get_u16_be-put payload 1 (ctx.sample_rate_hz % 2 ^ 16) (omega arith) refl refl

  uptime_field : get_u32_be payload 3 ≡ clamp_u64_u32 uptime
  unfolding status_payload zero_payload u16_be u32_be
  uptime_field =
      get_u32_be-put payload 3 (clamp_u64_u32 uptime) (clamp_u64_u32-min uptime).1 refl refl refl
        refl

  produced_field : get_u32_be payload 7 ≡ clamp_u64_u32 (ctx.produced)
  unfolding status_payload zero_payload u16_be u32_be
  produced_field =
      get_u32_be-put payload 7 (clamp_u64_u32 (ctx.produced)) (clamp_u64_u32-min (ctx.produced)).1
        refl refl refl refl

  processed_field : get_u32_be payload 11 ≡ clamp_u64_u32 (ctx.processed)
  unfolding status_payload zero_payload u16_be u32_be
  processed_field =
      get_u32_be-put payload 11 (clamp_u64_u32 (ctx.processed))
        (clamp_u64_u32-min (ctx.processed)).1 refl refl refl refl

  dropped_field : get_u32_be payload 15 ≡ clamp_u64_u32 (ctx.queue.dropped)
  unfolding status_payload zero_payload u16_be u32_be
  dropped_field =
      get_u32_be-put payload 15 (clamp_u64_u32 (ctx.queue.dropped))
        (clamp_u64_u32-min (ctx.queue.dropped)).1 refl refl refl refl

  crc_errors_field : get_u32_be payload 19 ≡ clamp_u64_u32 (ctx.crc_errors)
  unfolding status_payload zero_payload u16_be u32_be
  crc_errors_field =
      get_u32_be-put payload 19 (clamp_u64_u32 (ctx.crc_errors))
        (clamp_u64_u32-min (ctx.crc_errors)).1 refl refl refl refl

  recoveries_field : get_u32_be payload 23 ≡ clamp_u64_u32 (ctx.watchdog_recoveries)
  unfolding status_payload zero_payload u16_be u32_be
  recoveries_field =
      get_u32_be-put payload 23 (clamp_u64_u32 (ctx.watchdog_recoveries))
        (clamp_u64_u32-min (ctx.watchdog_recoveries)).1 refl refl refl refl

-- The status that the client prints is the state of the target, with each counter cut off at
-- 2 ^ 32 - 1, and the rate exactly, if it is below 2 ^ 16.
pub read_status-make_status :
    (now : ℕ → ℕ) (ctx : Ctx) (req : Packet)
    → ctx.sample_rate_hz < 2 ^ 16
    → read_status (make_status now ctx req)
      ≡ some (record {
        state = state_code ctx.state;
        rate = ctx.sample_rate_hz;
        uptime = min (u64 (now 0 + 2 ^ 64 - ctx.started_ns) / 1000000) 0xffff_ffff;
        produced = min ctx.produced 0xffff_ffff;
        processed = min ctx.processed 0xffff_ffff;
        dropped = min ctx.queue.dropped 0xffff_ffff;
        crc_errors = min ctx.crc_errors 0xffff_ffff;
        wd = min ctx.watchdog_recoveries 0xffff_ffff;
      })
unfolding read_status make_status
read_status-make_status now ctx req small =
    let uptime = u64 (now 0 + 2 ^ 64 - ctx.started_ns) / 1000000 in
    let same : ctx.sample_rate_hz % 2 ^ 16 ≡ ctx.sample_rate_hz = omega arith in
    ap some (λ i. record {
      state = state_field ctx uptime i;
      rate = (rate_field ctx uptime ∙ same) i;
      uptime = (uptime_field ctx uptime ∙ (clamp_u64_u32-min uptime).0) i;
      produced = (produced_field ctx uptime ∙ (clamp_u64_u32-min ctx.produced).0) i;
      processed = (processed_field ctx uptime ∙ (clamp_u64_u32-min ctx.processed).0) i;
      dropped = (dropped_field ctx uptime ∙ (clamp_u64_u32-min ctx.queue.dropped).0) i;
      crc_errors = (crc_errors_field ctx uptime ∙ (clamp_u64_u32-min ctx.crc_errors).0) i;
      wd = (recoveries_field ctx uptime ∙ (clamp_u64_u32-min ctx.watchdog_recoveries).0) i;
    })

-- frame[frame_len - 1] ^= 0x01u
unfoldable pub corrupt_crc : List ℕ → List ℕ
corrupt_crc frame = set frame (length frame - 1) (bit_xor (at frame (length frame - 1)) 1)
