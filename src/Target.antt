-- ===== src/Target.antt =====
-- target/target_core.c and include/target_sim.h: the simulated target. The context is a record; each
-- function returns the new one. `now` gives the successive readings of now_ns in a call.
pub mod Handle
pub mod Threads
pub mod Watchdog
pub mod Client
pub mod Corrupt
pub mod Server
pub mod Respond
mod Examples
use embedded_systems_runtime.Prelude.{
  ℕ, ◌+◌, ◌-◌, ◌*◌, ◌/◌, ◌%◌, ◌^◌, Option, none, some, Bool, true, false, not, ◌||◌, ◌&&◌, List, [],
  ◌∷◌, ◌++◌, ◌==◌, ltb, leb, if◌then◌else◌, length, write_at, codes,
}
use embedded_systems_runtime.Ring.{Ring, Pthread, ring_init, ring_push}

-- mlrt_target_state
pub data State : Type 0 where
  boot init ready running fault recovery : State

abbrev pub state_code : State → ℕ
state_code boot = 0
state_code init = 1
state_code ready = 2
state_code running = 3
state_code fault = 4
state_code recovery = 5

-- mlrt_target_ctx, less the thread handles; the storage of the samples is in the queue.
pub record Ctx : Type 0 where
  pub queue : Ring
  pub is_running : Bool
  pub state : State
  pub sample_rate_hz : ℕ
  pub started_ns : ℕ
  pub produced : ℕ
  pub processed : ℕ
  pub last_processed_ns : ℕ
  pub worker_heartbeat_ns : ℕ
  pub watchdog_recoveries : ℕ
  pub crc_errors : ℕ
  pub freeze_until_ns : ℕ
  pub threads_started : ℕ

abbrev pub u64 : ℕ → ℕ
u64 n = n % 2 ^ 64

unfoldable pub clamp_u64_u32 : ℕ → ℕ
clamp_u64_u32 v = if ltb 0xffff_ffff v then 0xffff_ffff else v % 2 ^ 32

-- sizeof(mlrt_target_sample), and the number of samples.
abbrev pub sample_size : ℕ
sample_size = 24

abbrev pub queue_capacity : ℕ
queue_capacity = 128

-- mlrt_target_init; `none` is -1, and `storage` the array inside the context.
unfoldable pub target_init : Pthread → List ℕ → ℕ → (ℕ → ℕ) → Option Ctx
target_init sys storage rate_hz now =
    if rate_hz == 0 || ltb 1000 rate_hz
    then none
    else elim (ring_init sys storage queue_capacity sample_size) [
      | none ↦ none
      | some queue ↦ some (record {
        queue = queue;
        is_running = false;
        state = boot;
        sample_rate_hz = rate_hz;
        started_ns = now 0;
        produced = 0;
        processed = 0;
        last_processed_ns = now 1;
        worker_heartbeat_ns = now 2;
        watchdog_recoveries = 0;
        crc_errors = 0;
        freeze_until_ns = 0;
        threads_started = 0;
      })
    ]

-- mlrt_target_start, given which pthread_create calls succeed; 0, or 1 for -1.
unfoldable pub target_start : Bool → Bool → Bool → Ctx → ℕ × Ctx
target_start sensor processing watchdog ctx =
    let started = record ctx { state = ready; is_running = true } in
    if sensor && processing && watchdog
    then (0, record started { state = running; threads_started = 3 })
    else (1, record started { is_running = false; threads_started = 0 })

-- mlrt_target_stop, less the joins and the release of the queue's lock.
unfoldable pub target_stop : Ctx → Ctx
target_stop ctx = record ctx { is_running = false; threads_started = 0 }

-- The value of the sample with a sequence number, in thousandths.
unfoldable pub synth_value : ℕ → ℕ
synth_value seq = 25000 + seq % 200 * 5 - 500

-- The local variables of sensor_worker.
pub record Sensor : Type 0 where
  pub seq : ℕ
  pub next : ℕ

-- One round of sensor_worker: `alive` is the flag as it is read after the sleep, and `layout` gives the
-- bytes of a sample from its sequence number, time and value.
unfoldable pub sensor_round : (ℕ → ℕ → ℕ → List ℕ) → (ℕ → ℕ) → Bool → Sensor → Ctx → Sensor × Ctx
unfolding synth_value
sensor_round layout now alive local ctx =
    let rate = if ctx.sample_rate_hz == 0 then 1 else ctx.sample_rate_hz in
    let period = 1000000000 / rate in
    let next = u64 (local.next + period) in
    if not alive
    then (record local { next = next }, ctx)
    else (let (rc, queue) =
          ring_push ctx.queue (layout local.seq (now 0) (synth_value local.seq)) false in
        (
          record {
            seq = u64 (local.seq + 1);
            next = if ltb (u64 (next + period * 4)) (now 1) then now 2 else next;
          },
          record ctx {
            queue = queue;
            produced = if rc == 0 then u64 (ctx.produced + 1) else ctx.produced;
          },
        ))

-- One round of processing_worker. `popped` is the queue after mlrt_ring_wait_pop, if that returned 0.
unfoldable pub processing_round : (ℕ → ℕ) → Option Ring → Ctx → Ctx
processing_round now popped ctx =
    if not (ctx.freeze_until_ns == 0) && ltb (now 0) ctx.freeze_until_ns
    then ctx
    else (let woken =
          if not (ctx.freeze_until_ns == 0) && leb ctx.freeze_until_ns (now 1)
          then record ctx { freeze_until_ns = 0 }
          else ctx in
        let worked : Ctx = elim popped [
          | none ↦ woken
          | some queue ↦ record woken {
            queue = queue;
            processed = u64 (woken.processed + 1);
            last_processed_ns = now 2;
          }
        ] in
        record worked { worker_heartbeat_ns = now 3 })

abbrev pub is_state : State → State → Bool
is_state boot boot = true
is_state init init = true
is_state ready ready = true
is_state running running = true
is_state fault fault = true
is_state recovery recovery = true
is_state _ _ = false

-- One round of watchdog_worker after its sleep: `now` is the clock that it read. The subtraction is
-- that of uint64_t.
unfoldable pub watchdog_round : ℕ → Ctx → Ctx
watchdog_round now ctx =
    let age = u64 (now + 2 ^ 64 - ctx.worker_heartbeat_ns) in
    if ltb 500000000 age && is_state ctx.state running
    then record ctx { freeze_until_ns = 0; state = recovery }
    else (if ltb age 200000000 && is_state ctx.state recovery
        then record ctx { state = running; watchdog_recoveries = u64 (ctx.watchdog_recoveries + 1) }
        else ctx)
