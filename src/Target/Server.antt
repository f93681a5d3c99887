-- ===== src/Target/Server.antt =====
-- serve_client of target/target_server.c: the loop over the requests of one client.
pub mod Dialogue
use embedded_systems_runtime.Prelude.{
  ℕ, zero, suc, ◌+◌, ◌%◌, ◌^◌, ◌≤◌, ◌<◌, ◌≡◌, refl, ap, ap₂, sym, ◌∙◌, Option, none, some, List, [],
  ◌∷◌, ◌++◌, append_assoc, append-nil, length, arith, replicate, length-replicate,
}
use embedded_systems_runtime.Protocol.Packet.{Packet, Status, ok, ecrc, eof, max_payload}
use embedded_systems_runtime.Protocol.Packet.Frame.{IsPacket, sent_version, frame_of}
use embedded_systems_runtime.Protocol.Packet.RoundTrip.{received}
use embedded_systems_runtime.Protocol.Stream.{
  ReadEvent, got, WriteEvent, read_all, packet_read_fd, packet_write_fd,
}
use embedded_systems_runtime.Protocol.Stream.Transfer.{
  Complete, stored, Taken, packet_read_fd_receives, packet_write_fd_sends,
}
use embedded_systems_runtime.Target.{Ctx, u64}
use embedded_systems_runtime.Target.Threads.{Sim, Meanwhile, run_rounds}
use embedded_systems_runtime.Target.Handle.{Arch, handle_packet}
use embedded_systems_runtime.Target.Respond.{handle_packet-Answers}

-- How serve_client ends: 0, -1, or still in a call that blocks.
pub data Exit : Type 0 where
  closed failed blocked : Exit

-- The end, the target, and the bytes that the client was sent.
pub record Served : Type 0 where
  pub exit : Exit
  pub sim : Sim
  pub sent : List ℕ

abbrev pub ended : Exit → Sim → List ℕ → Served
ended exit sim sent = record { exit = exit; sim = sim; sent = sent }

-- After a response is written: go on if the write succeeded.
unfoldable pub after_response :
    Option (Status × List ℕ × List WriteEvent)
    → Sim
    → List ℕ
    → (List ℕ → List WriteEvent → Served)
    → Served
after_response none sim sent next = ended blocked sim sent
after_response (some (ok, bytes, writes)) sim sent next = next (sent ++ bytes) writes
after_response (some (rc, bytes, writes)) sim sent next = ended failed sim (sent ++ bytes)

-- After a request is read.
unfoldable pub after_request :
    Option (Status × Packet × List ReadEvent)
    → Sim
    → List ℕ
    → (Packet → List ReadEvent → Served)
    → Served
after_request none sim sent next = ended blocked sim sent
after_request (some (ok, req, reads)) sim sent next = next req reads
after_request (some (eof, req, reads)) sim sent next = ended closed sim sent
after_request (some (ecrc, req, reads)) sim sent next =
    ended closed (record sim { ctx = record sim.ctx { crc_errors = u64 (sim.ctx.crc_errors + 1) } })
      sent
after_request (some (rc, req, reads)) sim sent next = ended failed sim sent

-- mlrt_target_handle_packet on what the target is then.
unfoldable pub handled : Arch → Meanwhile → Sim → Packet → Sim
unfolding handle_packet
handled arch m sim req = record sim { ctx = (handle_packet arch m.clock sim.ctx req).0 }

module _ (arch : Arch) (layout : ℕ → ℕ → ℕ → List ℕ) (req0 : Packet) (frame : List ℕ) where
  -- One `Meanwhile` for each turn of the loop; where they end, the next read blocks. The other threads
  -- run while the request is awaited and read, which the first part of the turn shows, and while a
  -- response is written, which the next turn shows. `req0` and `frame` are the uninitialised locals of
  -- serve_client and mlrt_packet_write_fd.
  unfoldable pub serve_client :
      List Meanwhile → Sim → List ℕ → List ReadEvent → List WriteEvent → Served
  unfolding run_rounds after_request after_response handled
  serve_client [] sim sent reads writes = ended blocked sim sent
  serve_client (m ∷ ms) sim sent reads writes =
      let sim' = run_rounds layout sim m.rounds in
      after_request (packet_read_fd req0 reads) sim' sent (λ req reads'.
        after_response (packet_write_fd (handle_packet arch m.clock sim'.ctx req).1 frame writes)
          (handled arch m sim' req) sent
          (λ sent' writes'. serve_client ms (handled arch m sim' req) sent' reads' writes'))
