-- ===== src/Target/Examples.antt =====
-- The theorems on the target at a context just after its start.
use embedded_systems_runtime.Prelude.{
  ℕ, ◌+◌, ◌-◌, ◌/◌, ◌^◌, ◌≡◌, min, refl, some, none, true, false, ◌%◌, List, [], ◌∷◌, replicate,
  arith,
}
use embedded_systems_runtime.Ring.{Ring}
use embedded_systems_runtime.Protocol.Crc.{crc32}
use embedded_systems_runtime.Protocol.Endian.{u32_be}
use embedded_systems_runtime.Protocol.Packet.{Packet, zero_packet}
use embedded_systems_runtime.Protocol.Packet.Frame.{IsPacket, header_of, body_of}
use embedded_systems_runtime.Protocol.Stream.{ReadEvent, got, wrote}
use embedded_systems_runtime.Target.{Ctx, running, recovery, u64, watchdog_round, processing_round}
use embedded_systems_runtime.Target.Handle.{arm64, handle_packet, make_status}
use embedded_systems_runtime.Target.Respond.{Answers, response-Answers, handle_packet-Answers}
use embedded_systems_runtime.Target.Threads.{Sim, Meanwhile, sensing, processing, watching}
use embedded_systems_runtime.Target.Watchdog.{watchdog_recovers, watchdog_round_race}
use embedded_systems_runtime.Target.Client.{read_status, read_status-make_status}
use embedded_systems_runtime.Target.Server.{closed, ended, serve_client}
use embedded_systems_runtime.Target.Server.Dialogue.{
  Exchange, reads_of, writes_of, answer_all, serve_client_answers,
}

abbrev queue0 : Ring
queue0 = record {
  storage = replicate 3072 0;
  capacity = 128;
  item_size = 24;
  head = 0;
  tail = 0;
  count = 0;
  high_water = 0;
  dropped = 0;
}

abbrev ctx0 : Ctx
ctx0 = record {
  queue = queue0;
  is_running = true;
  state = running;
  sample_rate_hz = 100;
  started_ns = 5;
  produced = 0;
  processed = 0;
  last_processed_ns = 5;
  worker_heartbeat_ns = 5;
  watchdog_recoveries = 0;
  crc_errors = 0;
  freeze_until_ns = 0;
  threads_started = 3;
}

abbrev clock : ℕ → ℕ
clock n = 1000000005 + n

abbrev status_req : Packet
status_req = record zero_packet { version = 1; type = 3; seq = 7 }

status_req-IsPacket : IsPacket status_req
status_req-IsPacket = (response-Answers 3 7 [] (omega arith) (omega arith) tt (omega arith)).packet

handle_packet-Answers_example : Answers 7 (handle_packet arm64 clock ctx0 status_req).1
handle_packet-Answers_example = handle_packet-Answers arm64 clock ctx0 status_req (omega arith)

watchdog_recovers_example :
    let end =
      watchdog_round 1000000100 (processing_round clock none (watchdog_round 1000000000 ctx0)) in
    (end.state ≡ running)
    × (end.watchdog_recoveries ≡ u64 (ctx0.watchdog_recoveries + 1))
    × (end.freeze_until_ns ≡ 0)
watchdog_recovers_example =
    watchdog_recovers 1000000000 1000000100 clock none ctx0 refl (omega arith) (omega arith)
      (omega arith) (omega arith) (omega arith)

watchdog_round_race_example : (watchdog_round 4 ctx0).state ≡ recovery
watchdog_round_race_example = watchdog_round_race 4 ctx0 refl (omega arith) (omega arith)

read_status-make_status_example :
    read_status (make_status clock ctx0 status_req)
    ≡ some (record {
      state = 3;
      rate = 100;
      uptime = min (u64 (clock 0 + 2 ^ 64 - 5) / 1000000) 0xffff_ffff;
      produced = 0;
      processed = 0;
      dropped = 0;
      crc_errors = 0;
      wd = 0;
    })
read_status-make_status_example = read_status-make_status clock ctx0 status_req (omega arith)

-- Before the request is handled each thread has a round; the sample is taken at once.
abbrev some_rounds : Meanwhile
some_rounds = record {
  rounds = sensing clock ∷ processing clock false ∷ watching 1000000100 ∷ [];
  clock = λ n. 1000000200 + n;
}

abbrev idle : Meanwhile
idle = record { rounds = watching 1000000300 ∷ []; clock = clock }

abbrev layout : ℕ → ℕ → ℕ → List ℕ
layout seq now value = replicate 24 (seq % 256)

abbrev sim0 : Sim
sim0 = record { ctx = ctx0; sensor = record { seq = 0; next = 5 } }

-- The request comes in two reads, and the response goes out in one write.
abbrev status_exchange : Exchange
status_exchange = record {
  req = status_req;
  meanwhile = some_rounds;
  header_reads = got (header_of status_req) ∷ [];
  tail_reads = ReadEvent.interrupted ∷ got (u32_be (crc32 (body_of status_req))) ∷ [];
  writes = wrote 41 ∷ [];
}

serve_client_answers_example :
    serve_client arm64 layout zero_packet
      (replicate 526 0)
      (some_rounds ∷ idle ∷ [])
      sim0
      []
      (reads_of (status_exchange ∷ []))
      (writes_of (status_exchange ∷ []))
    ≡ ended closed
        (answer_all arm64 layout sim0 (status_exchange ∷ []) idle).0
        (answer_all arm64 layout sim0 (status_exchange ∷ []) idle).1
unfolding handle_packet make_status header_of u32_be
serve_client_answers_example =
    serve_client_answers arm64 layout zero_packet (replicate 526 0) [] sim0 (status_exchange ∷ [])
      idle refl
      (
        record {
          valid = status_req-IsPacket;
          small = omega arith;
          version = refl;
          header = omega arith;
          tail = omega arith;
          whole = refl;
          taken = omega arith;
        },
        tt,
      )
