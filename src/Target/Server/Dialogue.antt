-- ===== src/Target/Server/Dialogue.antt =====
-- serve_client of target/target_server.c answers every request of a client in turn.
use embedded_systems_runtime.Prelude.{
  ℕ, ◌+◌, ◌≤◌, ◌≡◌, ap, ◌∙◌, List, [], ◌∷◌, ◌++◌, append_assoc, append-nil, length,
}
use embedded_systems_runtime.Protocol.Packet.{Packet, max_payload}
use embedded_systems_runtime.Protocol.Packet.Frame.{IsPacket, sent_version, frame_of}
use embedded_systems_runtime.Protocol.Packet.RoundTrip.{received}
use embedded_systems_runtime.Protocol.Stream.{
  ReadEvent, got, WriteEvent, packet_read_fd, packet_write_fd, read_all,
}
use embedded_systems_runtime.Protocol.Stream.Transfer.{
  Complete, stored, Taken, packet_read_fd_receives, packet_write_fd_sends,
}
use embedded_systems_runtime.Target.Threads.{Sim, Meanwhile, run_rounds}
use embedded_systems_runtime.Target.Handle.{Arch, handle_packet}
use embedded_systems_runtime.Target.Respond.{Answers, handle_packet-Answers}
use embedded_systems_runtime.Target.Server.{
  Served, closed, ended, after_response, after_request, handled, serve_client,
}

-- A request as it comes in over the stream, what happens until it is handled, and the writes that take
-- its response.
pub record Exchange : Type 0 where
  pub req : Packet
  pub meanwhile : Meanwhile
  pub header_reads : List ReadEvent
  pub tail_reads : List ReadEvent
  pub writes : List WriteEvent

-- The reads of all exchanges, and then the end of the stream.
abbrev pub reads_of : List Exchange → List ReadEvent
reads_of [] = got [] ∷ []
reads_of (e ∷ es) = e.header_reads ++ (e.tail_reads ++ reads_of es)

abbrev pub writes_of : List Exchange → List WriteEvent
writes_of [] = []
writes_of (e ∷ es) = e.writes ++ writes_of es

-- What happens beside the loop, in the last turn too, which finds the end of the stream.
abbrev pub turns_of : List Exchange → Meanwhile → List Meanwhile
turns_of [] last = last ∷ []
turns_of (e ∷ es) last = e.meanwhile ∷ turns_of es last

-- The stream carries the request's frame, cut anyhow, and takes all of a response of `n` bytes.
pub record Delivers (e : Exchange) (n : ℕ) : Type 0 where
  pub valid : IsPacket e.req
  pub small : e.req.length ≤ max_payload
  pub version : sent_version e.req ≡ 1
  pub header : Complete 10 e.header_reads
  pub tail : Complete (e.req.length + 4) e.tail_reads
  pub whole : stored e.header_reads ++ stored e.tail_reads ≡ frame_of e.req
  pub taken : Taken n e.writes

module _ (arch : Arch) (layout : ℕ → ℕ → ℕ → List ℕ) where
  -- What the handler makes of the request of an exchange: the rounds of the threads come first, and the
  -- context that they leave is the one that it answers from.
  abbrev pub answer : Sim → Exchange → Sim × Packet
  answer sim e =
      let sim' = run_rounds layout sim e.meanwhile.rounds in
      let (ctx, rsp) = handle_packet arch e.meanwhile.clock sim'.ctx (received e.req) in
      (record { ctx = ctx; sensor = sim'.sensor }, rsp)

  -- The same of every exchange of a client, whose responses depend on the target they start from.
  abbrev pub AllDeliver : Sim → List Exchange → Type 0
  AllDeliver sim [] = Unit
  AllDeliver sim (e ∷ es) =
      Delivers e (14 + (answer sim e).1.length) × AllDeliver (answer sim e).0 es

  -- What the loop is meant to do: answer each request in turn.
  unfoldable pub answer_all : Sim → List Exchange → Meanwhile → Sim × List ℕ
  answer_all sim [] last = (run_rounds layout sim last.rounds, [])
  answer_all sim (e ∷ es) last =
      let (sim', rsp) = answer sim e in
      let (final, bytes) = answer_all sim' es last in (final, frame_of rsp ++ bytes)

  -- A client whose requests arrive whole, in pieces of any size, and that then closes the connection
  -- is sent the frames of the responses, in order and nothing else, whatever rounds the threads of the
  -- target run before each of them and whatever the clock reads; each response is made from the context
  -- that the requests and the rounds before it leave, the target at the end is the one that all of them
  -- leave, and the function returns 0.
  pub serve_client_answers :
      (req0 : Packet) (frame sent : List ℕ) (sim : Sim) (es : List Exchange) (last : Meanwhile)
      → length frame ≡ 526
      → AllDeliver sim es
      → serve_client arch layout req0 frame (turns_of es last) sim sent (reads_of es) (writes_of es)
        ≡ ended closed (answer_all sim es last).0 (sent ++ (answer_all sim es last).1)
  unfolding serve_client answer_all packet_read_fd read_all after_request after_response handled
  serve_client_answers req0 frame sent sim [] last size all = rw append-nil
  serve_client_answers req0 frame sent sim (e ∷ es) last size (d, all) =
      ap (λ r. after_request r sim' sent respond)
        (packet_read_fd_receives e.req req0 d.valid d.small d.version (reads_of es) e.header_reads
          e.tail_reads d.header d.tail d.whole)
      ∙ ap (λ w. after_response w next sent go_on)
          (packet_write_fd_sends rsp frame e.writes (writes_of es) answers.packet answers.short size
            d.taken)
      ∙ serve_client_answers req0 frame (sent ++ frame_of rsp) next es last size all
      ∙ ap (λ l. ended closed (answer_all next es last).0 l)
          (append_assoc sent (frame_of rsp) (answer_all next es last).1)
    where
      sim' : Sim
      sim' = run_rounds layout sim e.meanwhile.rounds

      next : Sim
      next = (answer sim e).0

      rsp : Packet
      rsp = (answer sim e).1

      answers : Answers e.req.seq rsp
      answers =
          handle_packet-Answers arch e.meanwhile.clock sim'.ctx (received e.req) d.valid.seq_fits

      go_on : List ℕ → List WriteEvent → Served
      go_on sent' writes' =
          serve_client arch layout req0 frame (turns_of es last) next sent' (reads_of es) writes'

      respond : Packet → List ReadEvent → Served
      respond req reads' =
          after_response
            (packet_write_fd (handle_packet arch e.meanwhile.clock sim'.ctx req).1 frame
              (writes_of (e ∷ es)))
            (handled arch e.meanwhile sim' req) sent
            (λ sent' writes'.
              serve_client arch layout req0 frame (turns_of es last)
                (handled arch e.meanwhile sim' req) sent' reads' writes')
