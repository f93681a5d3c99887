-- ===== src/Target/Watchdog.antt =====
-- watchdog_worker, processing_worker and the sampling rate of target/target_core.c.
use embedded_systems_runtime.Prelude.{ℕ, ◌+◌, ◌^◌, ◌≤◌, ◌<◌, ◌≡◌, ◌⊎◌, Option, some, List, arith}
use embedded_systems_runtime.Ring.{Ring, Pthread}
use embedded_systems_runtime.Protocol.Packet.{Packet}
use embedded_systems_runtime.Target.{
  Ctx, boot, running, recovery, u64, target_init, processing_round, watchdog_round,
}
use embedded_systems_runtime.Target.Handle.{Arch, handle_packet}

-- Where the clock that the watchdog read is not older than the heartbeat, a round moves a running
-- target whose heartbeat is more than 500 ms old to RECOVERY and releases the stall, moves a
-- recovering one whose heartbeat is less than 200 ms old to RUNNING and counts a recovery, and in all
-- other cases changes nothing.
pub watchdog_round_lem :
    (now : ℕ) (ctx : Ctx)
    → now < 2 ^ 64
    → ctx.worker_heartbeat_ns ≤ now
    → ((ctx.state ≡ running)
        × (ctx.worker_heartbeat_ns + 500000000 < now)
        × (watchdog_round now ctx ≡ record ctx { freeze_until_ns = 0; state = recovery }))
      ⊎ ((ctx.state ≡ recovery)
          × (now < ctx.worker_heartbeat_ns + 200000000)
          × (watchdog_round now ctx ≡ record ctx {
            state = running;
            watchdog_recoveries = u64 (ctx.watchdog_recoveries + 1);
          }))
      ⊎ (watchdog_round now ctx ≡ ctx)
unfolding watchdog_round
watchdog_round_lem now ctx small fresh = ground arith

-- A stalled worker is recovered: a round of the watchdog over a running target with a heartbeat more
-- than 500 ms old, then a round of the processing worker at any time, then a round of the watchdog
-- within 200 ms of it, end in RUNNING with one more recovery counted and no stall left.
pub watchdog_recovers :
    (now1 now3 : ℕ) (now2 : ℕ → ℕ) (popped : Option Ring) (ctx : Ctx)
    → ctx.state ≡ running
    → ctx.worker_heartbeat_ns + 500000000 < now1
    → now1 < 2 ^ 64
    → now2 3 ≤ now3
    → now3 < now2 3 + 200000000
    → now3 < 2 ^ 64
    → let end = watchdog_round now3 (processing_round now2 popped (watchdog_round now1 ctx)) in
      (end.state ≡ running)
      × (end.watchdog_recoveries ≡ u64 (ctx.watchdog_recoveries + 1))
      × (end.freeze_until_ns ≡ 0)
unfolding watchdog_round processing_round
watchdog_recovers now1 now3 now2 popped ctx run stale small1 late soon small3 = ground arith

-- A heartbeat that is stored after the watchdog read the clock, and before it reads the heartbeat,
-- makes a running target with a live worker look stalled: the age wraps, and the target is moved to
-- RECOVERY.
pub watchdog_round_race :
    (now : ℕ) (ctx : Ctx)
    → ctx.state ≡ running
    → now < ctx.worker_heartbeat_ns
    → ctx.worker_heartbeat_ns < 2 ^ 63
    → (watchdog_round now ctx).state ≡ recovery
unfolding watchdog_round
watchdog_round_race now ctx run late small = ground arith

abbrev pub RateOk : Ctx → Type 0
RateOk ctx = (1 ≤ ctx.sample_rate_hz) × (ctx.sample_rate_hz ≤ 1000)

-- After a successful mlrt_target_init the sampling rate is from 1 to 1000 Hz and the state is BOOT.
pub target_init-RateOk :
    (sys : Pthread) (storage : List ℕ) (rate : ℕ) (now : ℕ → ℕ) {ctx : Ctx}
    → target_init sys storage rate now ≡ some ctx
    → RateOk ctx × (ctx.state ≡ boot)
unfolding target_init
target_init-RateOk sys storage rate now h = ground arith

-- The sampling rate stays from 1 to 1000 Hz under every request.
pub handle_packet-RateOk :
    (arch : Arch) (now : ℕ → ℕ) (ctx : Ctx) (req : Packet)
    → RateOk ctx
    → RateOk (handle_packet arch now ctx req).0
unfolding handle_packet
handle_packet-RateOk arch now ctx req h = ground arith
