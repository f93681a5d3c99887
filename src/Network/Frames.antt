-- ===== src/Network/Frames.antt =====
-- A frame that net_send_frame of network/protocol.c sends is the frame that net_recv_frame receives.
use embedded_systems_runtime.Prelude.{
  ℕ, zero, suc, ◌-◌, ◌^◌, ◌≤◌, ◌<◌, ◌≡◌, refl, ap, ◌∙◌, some, true, false, inl, inr, Bool-cases,
  ==_iff, List, [], ◌∷◌, ◌++◌, append_assoc, append-nil, length, take, drop, take-append-drop,
  length-drop, ◌==◌, ltb, arith,
}
use embedded_systems_runtime.Protocol.Endian.{u32_be, get_u32_be, get_u32_be-append}
use embedded_systems_runtime.Protocol.Stream.{ReadEvent, got, WriteEvent, wrote}
use embedded_systems_runtime.Protocol.Stream.Transfer.{Complete, stored, Taken}
use embedded_systems_runtime.Network.{
  send_all, recv_all, complete, send_body, net_send_frame, recv_body, net_recv_frame,
}

send_all-Taken :
    (sent buf : List ℕ) (es rest : List WriteEvent)
    → Taken (length buf) es
    → send_all sent buf (es ++ rest) ≡ some (true, sent ++ buf, rest)
unfolding send_all
send_all-Taken sent [] [] rest c = rw append-nil
send_all-Taken sent [] (WriteEvent.interrupted ∷ es) rest c = absurd (omega arith)
send_all-Taken sent [] (WriteEvent.failed ∷ es) rest c = absurd c
send_all-Taken sent [] (wrote k ∷ es) rest c = absurd (omega arith)
send_all-Taken sent (b ∷ buf) [] rest c = absurd (omega arith)
send_all-Taken sent (b ∷ buf) (WriteEvent.interrupted ∷ es) rest c =
    send_all-Taken sent (b ∷ buf) es rest c.1
send_all-Taken sent (b ∷ buf) (WriteEvent.failed ∷ es) rest c = absurd c
send_all-Taken sent (b ∷ buf) (wrote zero ∷ es) rest c = absurd (omega arith)
send_all-Taken sent (b ∷ buf) (wrote (suc k) ∷ es) rest c =
    send_all-Taken (sent ++ (b ∷ take k buf)) (drop k buf) es rest (rw less at c.2)
    ∙ ap (λ l. some (true, l, rest))
        (append_assoc sent (b ∷ take k buf) (drop k buf)
          ∙ ap (λ l. sent ++ (b ∷ l)) (take-append-drop k buf))
  where
    less : suc (length buf) - suc k ≡ length (drop k buf)
    less = omega (arith, length-drop k buf)

recv_all-Complete :
    (n : ℕ) (buf : List ℕ) (es rest : List ReadEvent)
    → Complete n es
    → recv_all n buf (es ++ rest) ≡ some (complete (buf ++ stored es), rest)
unfolding recv_all
recv_all-Complete zero buf [] rest c = rw append-nil
recv_all-Complete (suc n) buf [] rest c = absurd (omega arith)
recv_all-Complete zero buf (ReadEvent.interrupted ∷ es) rest c = absurd (omega arith)
recv_all-Complete (suc n) buf (ReadEvent.interrupted ∷ es) rest c =
    recv_all-Complete (suc n) buf es rest c.1
recv_all-Complete n buf (ReadEvent.failed ∷ es) rest c = absurd c
recv_all-Complete zero buf (got bs ∷ es) rest c = absurd (omega arith)
recv_all-Complete (suc n) buf (got [] ∷ es) rest c = absurd (omega arith)
recv_all-Complete (suc n) buf (got (b ∷ bs) ∷ es) rest c =
    recv_all-Complete (n - length bs) (buf ++ (b ∷ bs)) es rest (rw less at c.2)
    ∙ ap (λ l. some (complete l, rest)) (append_assoc buf (b ∷ bs) (stored es))
  where
    less : suc n - suc (length bs) ≡ n - length bs
    less = omega arith

four : (v : ℕ) → length (u32_be v) ≡ 4
unfolding u32_be
four v = refl

send_body-Taken :
    (sent body : List ℕ) (es rest : List WriteEvent)
    → Taken (length body) es
    → send_body (some (true, sent, es ++ rest)) body ≡ some (true, sent ++ body, rest)
unfolding send_body
send_body-Taken sent [] [] rest t = rw append-nil
send_body-Taken sent [] (WriteEvent.interrupted ∷ es) rest t = absurd (omega arith)
send_body-Taken sent [] (WriteEvent.failed ∷ es) rest t = absurd t
send_body-Taken sent [] (wrote k ∷ es) rest t = absurd (omega arith)
send_body-Taken sent (b ∷ body) es rest t = elim (Bool-cases (length (b ∷ body) == 0)) [
  | inl e ↦ absurd (omega (arith, (==_iff (length (b ∷ body)) 0).0 e))
  | inr e ↦ rw e (send_all-Taken sent (b ∷ body) es rest t)
]

recv_body-Complete :
    (header body : List ℕ) (max_length : ℕ) (es rest : List ReadEvent)
    → get_u32_be header 0 ≡ length body
    → length body ≤ max_length
    → Complete (length body) es
    → stored es ≡ body
    → recv_body (some (complete header, es ++ rest)) max_length ≡ some (complete body, rest)
unfolding recv_body
recv_body-Complete header [] max_length [] rest h room c e = rw (h, within) refl
  where
    within : ltb max_length 0 ≡ false
    within = ground arith
recv_body-Complete header [] max_length (ReadEvent.interrupted ∷ es) rest h room c e =
    absurd (omega arith)
recv_body-Complete header [] max_length (ReadEvent.failed ∷ es) rest h room c e = absurd c
recv_body-Complete header [] max_length (got bs ∷ es) rest h room c e = absurd (omega arith)
recv_body-Complete header (b ∷ body) max_length es rest h room c e =
    rw (h, within, some_body)
      (recv_all-Complete (length (b ∷ body)) [] es rest c ∙ ap (λ l. some (complete l, rest)) e)
  where
    within : ltb max_length (length (b ∷ body)) ≡ false
    within = ground arith

    some_body : (length (b ∷ body) == 0) ≡ false
    some_body = ground arith

-- net_send_frame sends the four bytes of the length and then the data, if the writes take them, in
-- pieces of any size.
pub net_send_frame_lem :
    (body : List ℕ) (es1 es2 rest : List WriteEvent)
    → Taken 4 es1
    → Taken (length body) es2
    → net_send_frame body (es1 ++ (es2 ++ rest)) ≡ some (true, u32_be (length body) ++ body, rest)
unfolding net_send_frame
net_send_frame_lem body es1 es2 rest t1 t2 =
    ap (λ r. send_body r body)
      (send_all-Taken [] (u32_be (length body)) es1 (es2 ++ rest) (rw (four (length body)) t1))
    ∙ send_body-Taken (u32_be (length body)) body es2 rest t2

-- net_recv_frame, with room for the length, receives the data behind its length, in pieces of any
-- size.
pub net_recv_frame_lem :
    (body : List ℕ) (max_length : ℕ) (es1 es2 rest : List ReadEvent)
    → length body < 2 ^ 32
    → length body ≤ max_length
    → Complete 4 es1
    → stored es1 ≡ u32_be (length body)
    → Complete (length body) es2
    → stored es2 ≡ body
    → net_recv_frame (es1 ++ (es2 ++ rest)) max_length ≡ some (complete body, rest)
unfolding net_recv_frame
net_recv_frame_lem body max_length es1 es2 rest fits room c1 e1 c2 e2 =
    ap (λ r. recv_body r max_length) (recv_all-Complete 4 [] es1 (es2 ++ rest) c1)
    ∙ recv_body-Complete (stored es1) body max_length es2 rest
        (ap (λ l. get_u32_be l 0) e1 ∙ get_u32_be-append [] (length body) fits) room c2 e2
