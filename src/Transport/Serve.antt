-- ===== src/Transport/Serve.antt =====
-- The loop of serve_connection of projects/ai-networking-benchmark-lab/src/transport.cpp, and
-- write_all. send(2) is a list of answers, as write(2) is in Protocol/Stream.
pub mod Answers
use embedded_systems_runtime.Prelude.{
  ℕ, zero, suc, ◌%◌, ◌^◌, Option, none, some, Bool, true, false, List, [], ◌∷◌, ◌++◌, take, drop,
}
use embedded_systems_runtime.Protocol.Stream.{ReadEvent, WriteEvent, wrote}
use embedded_systems_runtime.Transport.{outgoing, Arrival, arrived, ended, refused, read_frame}

-- write_all: `buf` is what is left to send, `out` what the peer was given; false is the exception.
unfoldable pub write_bytes :
    List ℕ → List ℕ → List WriteEvent → Option (Bool × List ℕ × List WriteEvent)
write_bytes out [] es = some (true, out, es)
write_bytes out (b ∷ buf) [] = none
write_bytes out (b ∷ buf) (WriteEvent.interrupted ∷ es) = write_bytes out (b ∷ buf) es
write_bytes out (b ∷ buf) (WriteEvent.failed ∷ es) = some (false, out, es)
write_bytes out (b ∷ buf) (wrote zero ∷ es) = some (false, out, es)
write_bytes out (b ∷ buf) (wrote (suc n) ∷ es) =
    write_bytes (out ++ (b ∷ take n buf)) (drop n buf) es

-- The writing of an answer; `none` in the place of the answer is the exception of encode.
unfoldable pub write_answer :
    List ℕ → Option (List ℕ) → List WriteEvent → Option (Bool × List ℕ × List WriteEvent)
unfolding write_bytes
write_answer out none ws = some (false, out, ws)
write_answer out (some wire) ws = write_bytes out wire ws

-- The end of serve_connection, with what the peer was given (`none` where a call blocks), or the next
-- turn of its loop.
pub data Turn : Type 0 where
  stopped : Option (List ℕ) → Turn
  next : List ℕ → List ReadEvent → List WriteEvent → Turn

unfoldable pub after_write : List ReadEvent → Option (Bool × List ℕ × List WriteEvent) → Turn
after_write rs none = stopped none
after_write rs (some (false, out, ws)) = stopped (some out)
after_write rs (some (true, out, ws)) = next out rs ws

-- What follows the n-th call of read_frame.
unfoldable pub after_read :
    ℕ → ℕ → List ℕ → List WriteEvent → Option (Arrival × List ReadEvent) → Turn
unfolding outgoing write_answer after_write
after_read n corrupt_every out ws none = stopped none
after_read n corrupt_every out ws (some (ended, rs)) = stopped (some out)
after_read n corrupt_every out ws (some (refused, rs)) = stopped (some out)
after_read n corrupt_every out ws (some (arrived f, rs)) =
    after_write rs (write_answer out (outgoing n corrupt_every f) ws)

-- The loop: `n` frames came, the peer was given `out`. The result is what it was given in all; it is
-- `none` where a call blocks or the fuel, one unit for each turn, is used up.
unfoldable pub serve : ℕ → ℕ → ℕ → List ℕ → List ReadEvent → List WriteEvent → Option (List ℕ)
unfolding read_frame after_read
serve zero n corrupt_every out rs ws = none
serve (suc fuel) n corrupt_every out rs ws =
    let count = suc n % 2 ^ 64 in
    elim (after_read count corrupt_every out ws (read_frame rs)) [
      | stopped result ↦ result
      | next sent_bytes reads writes ↦ serve fuel count corrupt_every sent_bytes reads writes
    ]
