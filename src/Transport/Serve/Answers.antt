-- ===== src/Transport/Serve/Answers.antt =====
-- What serve_connection of projects/ai-networking-benchmark-lab/src/transport.cpp answers to a client.
use embedded_systems_runtime.Prelude.{
  ℕ, zero, suc, ◌+◌, ◌-◌, ◌%◌, ◌^◌, ◌≤◌, ◌<◌, ◌≡◌, refl, ap, ◌∙◌, Option, none, some, true, List,
  [], ◌∷◌, ◌++◌, append_assoc, append-nil, length, length-append, take, drop, take-append-drop,
  length-drop, All, IsByte, arith, subst,
}
use embedded_systems_runtime.Protocol.Stream.{ReadEvent, got, WriteEvent, wrote}
use embedded_systems_runtime.Protocol.Stream.Transfer.{Complete, stored, Taken}
use embedded_systems_runtime.Transport.{
  max_body, Frame, encode_frame, corrupted, spoil, outgoing, arrived, read_frame, read_bytes,
  read_behind,
}
use embedded_systems_runtime.Transport.Echo.{head, length-head, outgoing-parts, read_frame-outgoing}
use embedded_systems_runtime.Transport.Corrupt.{sent, length-sent}
use embedded_systems_runtime.Transport.Serve.{
  write_bytes, write_answer, Turn, stopped, next, after_write, after_read, serve,
}

write_bytes-Taken :
    (out buf : List ℕ) (es rest : List WriteEvent)
    → Taken (length buf) es
    → write_bytes out buf (es ++ rest) ≡ some (true, out ++ buf, rest)
unfolding write_bytes
write_bytes-Taken out [] [] rest c = rw append-nil
write_bytes-Taken out [] (WriteEvent.interrupted ∷ es) rest c = absurd (omega arith)
write_bytes-Taken out [] (WriteEvent.failed ∷ es) rest c = absurd c
write_bytes-Taken out [] (wrote k ∷ es) rest c = absurd (omega arith)
write_bytes-Taken out (b ∷ buf) [] rest c = absurd (omega arith)
write_bytes-Taken out (b ∷ buf) (WriteEvent.interrupted ∷ es) rest c =
    write_bytes-Taken out (b ∷ buf) es rest c.1
write_bytes-Taken out (b ∷ buf) (WriteEvent.failed ∷ es) rest c = absurd c
write_bytes-Taken out (b ∷ buf) (wrote zero ∷ es) rest c = absurd (omega arith)
write_bytes-Taken out (b ∷ buf) (wrote (suc k) ∷ es) rest c =
    write_bytes-Taken (out ++ (b ∷ take k buf)) (drop k buf) es rest (rw less at c.2)
    ∙ ap (λ l. some (true, l, rest))
        (append_assoc out (b ∷ take k buf) (drop k buf)
          ∙ ap (λ l. out ++ (b ∷ l)) (take-append-drop k buf))
  where
    less : suc (length buf) - suc k ≡ length (drop k buf)
    less = omega (arith, length-drop k buf)

-- A request of the client: its frame, how recv(2) cuts it, and how send(2) takes the answer.
pub record Exchange : Type 0 where
  pub frame : Frame
  pub head_reads : List ReadEvent
  pub payload_reads : List ReadEvent
  pub writes : List WriteEvent

abbrev pub IsExchange : Exchange → Type 0
IsExchange x =
    (x.frame.seq < 2 ^ 32)
    × (length x.frame.payload ≤ max_body)
    × All IsByte x.frame.payload
    × Complete 20 x.head_reads
    × Complete (length x.frame.payload) x.payload_reads
    × (encode_frame x.frame.seq x.frame.payload
        ≡ some (stored x.head_reads ++ stored x.payload_reads))
    × Taken (20 + length x.frame.payload) x.writes

-- The reads and the writes of exchanges, one after the other, and the answers.
abbrev pub incoming_reads : List Exchange → List ReadEvent → List ReadEvent
incoming_reads [] rest = rest
incoming_reads (x ∷ xs) rest = x.head_reads ++ (x.payload_reads ++ incoming_reads xs rest)

abbrev pub outgoing_writes : List Exchange → List WriteEvent → List WriteEvent
outgoing_writes [] rest = rest
outgoing_writes (x ∷ xs) rest = x.writes ++ outgoing_writes xs rest

abbrev pub bytes_of : Option (List ℕ) → List ℕ
bytes_of none = []
bytes_of (some wire) = wire

abbrev pub answers : ℕ → ℕ → List Exchange → List ℕ
answers n k [] = []
answers n k (x ∷ xs) = bytes_of (outgoing (suc n) k x.frame) ++ answers (suc n) k xs

-- A request, as the server reads it.
read_frame-IsExchange :
    (x : Exchange) (rest : List ReadEvent)
    → IsExchange x
    → read_frame (x.head_reads ++ (x.payload_reads ++ rest)) ≡ some (arrived x.frame, rest)
unfolding corrupted outgoing spoil
read_frame-IsExchange x rest h =
    read_frame-outgoing 0 0 x.frame x.head_reads x.payload_reads rest h.0 h.1 h.2 h.3 h.4
      (rw h.5 refl)

write_answer-IsExchange :
    (x : Exchange) (n k : ℕ) (out : List ℕ) (rest : List WriteEvent)
    → IsExchange x
    → write_answer out (outgoing n k x.frame) (x.writes ++ rest)
      ≡ some (true, out ++ bytes_of (outgoing n k x.frame), rest)
unfolding write_answer
write_answer-IsExchange x n k out rest h =
    let wire = head x.frame ++ sent (corrupted n k x.frame) x.frame.payload in
    rw (outgoing-parts n k x.frame h.1)
      (write_bytes-Taken out wire x.writes rest (subst (λ m. Taken m x.writes) long h.6))
  where
    long :
        20 + length x.frame.payload
        ≡ length (head x.frame ++ sent (corrupted n k x.frame) x.frame.payload)
    long = omega (
      arith,
      length-head x.frame,
      length-sent (corrupted n k x.frame) x.frame.payload,
      length-append (head x.frame) (sent (corrupted n k x.frame) x.frame.payload),
    )

-- A turn of the loop that goes on.
serve-next :
    (fuel n k : ℕ) (out : List ℕ) (rs : List ReadEvent) (ws : List WriteEvent) {out' : List ℕ}
    {rs' : List ReadEvent} {ws' : List WriteEvent}
    → suc n < 2 ^ 64
    → after_read (suc n) k out ws (read_frame rs) ≡ next out' rs' ws'
    → serve (suc fuel) n k out rs ws ≡ serve fuel (suc n) k out' rs' ws'
unfolding serve
serve-next fuel n k out rs ws small e =
    ap (λ m. after m (after_read m k out ws (read_frame rs))) same ∙ ap (after (suc n)) e
  where
    same : suc n % 2 ^ 64 ≡ suc n
    same = omega arith

    after : ℕ → Turn → Option (List ℕ)
    after m t = elim t [
      | stopped result ↦ result
      | next sent_bytes reads writes ↦ serve fuel m k sent_bytes reads writes
    ]

answer_turn :
    (x : Exchange) (n k : ℕ) (out : List ℕ) (rs : List ReadEvent) (ws : List WriteEvent)
    → IsExchange x
    → after_read n k out (x.writes ++ ws) (read_frame (x.head_reads ++ (x.payload_reads ++ rs)))
      ≡ next (out ++ bytes_of (outgoing n k x.frame)) rs ws
unfolding after_read after_write
answer_turn x n k out rs ws h =
    ap (after_read n k out (x.writes ++ ws)) (read_frame-IsExchange x rs h)
    ∙ ap (after_write rs) (write_answer-IsExchange x n k out ws h)

-- From a state in which n frames came and `out` was sent, where n and the count of the requests
-- are below 2^64 in sum, the loop of serve_connection reads requests that encode made of a number
-- below 2^32 and at most 2^20 bytes, in pieces of any size, until the client closes the
-- connection; where its sends take the answers, in pieces of any size, it sends behind `out` the
-- answers to all of them in their order, and nothing else. One turn for each request and one for
-- the end is enough fuel.
pub serve_answers :
    (xs : List Exchange) (n corrupt_every : ℕ) (out : List ℕ) (rs : List ReadEvent)
    (ws : List WriteEvent)
    → All IsExchange xs
    → n + length xs < 2 ^ 64
    → serve
        (suc (length xs))
        n
        corrupt_every
        out
        (incoming_reads xs (got [] ∷ rs))
        (outgoing_writes xs ws)
      ≡ some (out ++ answers n corrupt_every xs)
unfolding serve read_frame read_bytes read_behind after_read
serve_answers [] n k out rs ws h small = rw append-nil
serve_answers (x ∷ xs) n k out rs ws h small =
    serve-next (suc (length xs)) n k out (incoming_reads (x ∷ xs) (got [] ∷ rs))
      (outgoing_writes (x ∷ xs) ws) (omega arith)
      (answer_turn x (suc n) k out (incoming_reads xs (got [] ∷ rs)) (outgoing_writes xs ws) h.0)
    ∙ serve_answers xs (suc n) k (out ++ bytes_of (outgoing (suc n) k x.frame)) rs ws h.1
        (omega arith)
    ∙ ap some (append_assoc out (bytes_of (outgoing (suc n) k x.frame)) (answers (suc n) k xs))
