-- ===== src/Target/Threads.antt =====
-- The loops of sensor_worker, processing_worker and watchdog_worker of target/target_core.c beside each
-- other: a sequence of their rounds, in any order and at any readings of the clock.
use embedded_systems_runtime.Prelude.{
  ℕ, Option, none, some, Bool, ◌==◌, ◌||◌, List, [], ◌∷◌, if◌then◌else◌,
}
use embedded_systems_runtime.Ring.{Ring, take_item}
use embedded_systems_runtime.Target.{Ctx, Sensor, sensor_round, processing_round, watchdog_round}

-- The context that the threads share, and the local variables of sensor_worker.
pub record Sim : Type 0 where
  pub ctx : Ctx
  pub sensor : Sensor

-- A round of a thread, with its readings of the clock, and for the processing thread whether its wait
-- of 100 ms timed out or failed.
pub data Round : Type 0 where
  sensing : (ℕ → ℕ) → Round
  processing : (ℕ → ℕ) → Bool → Round
  watching : ℕ → Round

-- The queue after mlrt_ring_wait_pop, if that returned 0.
unfoldable pub popped_by : Bool → Ring → Option Ring
unfolding take_item
popped_by gave_up queue = if gave_up || queue.count == 0 then none else some (take_item queue).1

-- While the flag is set; each thread leaves its loop after that. `layout` gives the bytes of a sample.
unfoldable pub run_round : (ℕ → ℕ → ℕ → List ℕ) → Sim → Round → Sim
unfolding sensor_round processing_round watchdog_round popped_by
run_round layout sim (sensing now) =
    let (sensor, ctx) = sensor_round layout now sim.ctx.is_running sim.sensor sim.ctx in
    if sim.ctx.is_running then record { ctx = ctx; sensor = sensor } else sim
run_round layout sim (processing now gave_up) =
    if sim.ctx.is_running
    then record sim { ctx = processing_round now (popped_by gave_up sim.ctx.queue) sim.ctx }
    else sim
run_round layout sim (watching now) =
    if sim.ctx.is_running then record sim { ctx = watchdog_round now sim.ctx } else sim

unfoldable pub run_rounds : (ℕ → ℕ → ℕ → List ℕ) → Sim → List Round → Sim
unfolding run_round
run_rounds layout sim [] = sim
run_rounds layout sim (round ∷ rounds) = run_rounds layout (run_round layout sim round) rounds

-- What happens beside serve_client in one turn of its loop: the rounds of the threads until the request
-- is handled, and the readings of the clock while it is.
pub record Meanwhile : Type 0 where
  pub rounds : List Round
  pub clock : ℕ → ℕ
