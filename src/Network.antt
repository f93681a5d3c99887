-- ===== src/Network.antt =====
-- network/protocol.c: frames with a length before them. send(2) and recv(2) are lists of answers, as
-- write(2) and read(2) are in Protocol/Stream.
pub mod Frames
use embedded_systems_runtime.Prelude.{
  ℕ, zero, suc, ◌+◌, ◌-◌, Option, none, some, Bool, true, false, List, [], ◌∷◌, ◌++◌, length, take,
  drop, ◌==◌, ltb, if◌then◌else◌,
}
use embedded_systems_runtime.Protocol.Endian.{u32_be, get_u32_be}
use embedded_systems_runtime.Protocol.Stream.{ReadEvent, got, WriteEvent, wrote}

-- `sent` is what the peer was given; true is 0 and false is -1.
unfoldable pub send_all :
    List ℕ → List ℕ → List WriteEvent → Option (Bool × List ℕ × List WriteEvent)
send_all sent [] es = some (true, sent, es)
send_all sent (b ∷ buf) [] = none
send_all sent (b ∷ buf) (WriteEvent.interrupted ∷ es) = send_all sent (b ∷ buf) es
send_all sent (b ∷ buf) (WriteEvent.failed ∷ es) = some (false, sent, es)
send_all sent (b ∷ buf) (wrote zero ∷ es) = some (false, sent, es)
send_all sent (b ∷ buf) (wrote (suc n) ∷ es) = send_all (sent ++ (b ∷ take n buf)) (drop n buf) es

-- The results 1, 0 and -1 of recv_all.
pub data Received : Type 0 where
  complete : List ℕ → Received
  closed broken : Received

unfoldable pub recv_all : ℕ → List ℕ → List ReadEvent → Option (Received × List ReadEvent)
recv_all zero buf es = some (complete buf, es)
recv_all (suc len) buf [] = none
recv_all (suc len) buf (ReadEvent.interrupted ∷ es) = recv_all (suc len) buf es
recv_all (suc len) buf (ReadEvent.failed ∷ es) = some (broken, es)
recv_all (suc len) buf (got [] ∷ es) = some (closed, es)
recv_all (suc len) buf (got (b ∷ bs) ∷ es) = recv_all (len - length bs) (buf ++ (b ∷ bs)) es

-- After the length was sent.
unfoldable pub send_body :
    Option (Bool × List ℕ × List WriteEvent) → List ℕ → Option (Bool × List ℕ × List WriteEvent)
unfolding send_all
send_body none body = none
send_body (some (false, sent, es)) body = some (false, sent, es)
send_body (some (true, sent, es)) body =
    if length body == 0 then some (true, sent, es) else send_all sent body es

unfoldable pub net_send_frame : List ℕ → List WriteEvent → Option (Bool × List ℕ × List WriteEvent)
unfolding send_body send_all
net_send_frame body es = send_body (send_all [] (u32_be (length body)) es) body

-- After the length was received; the zero that is put behind the data is left out.
unfoldable pub recv_body :
    Option (Received × List ReadEvent) → ℕ → Option (Received × List ReadEvent)
unfolding recv_all
recv_body none max_length = none
recv_body (some (closed, es)) max_length = some (closed, es)
recv_body (some (broken, es)) max_length = some (broken, es)
recv_body (some (complete header, es)) max_length =
    let host_length = get_u32_be header 0 in
    if ltb max_length host_length
    then some (broken, es)
    else (if host_length == 0 then some (complete [], es) else recv_all host_length [] es)

unfoldable pub net_recv_frame : List ReadEvent → ℕ → Option (Received × List ReadEvent)
unfolding recv_body recv_all
net_recv_frame es max_length = recv_body (recv_all 4 [] es) max_length
