-- ===== src/Protocol/Stream/Transfer.antt =====
-- A packet over a byte stream that cuts it into pieces of any size and is interrupted at any place.
use embedded_systems_runtime.Prelude.{
  ℕ, zero, suc, ◌+◌, ◌-◌, ◌≤◌, ◌<◌, ◌≡◌, refl, sym, ap, ◌∙◌, some, List, [], ◌∷◌, ◌++◌,
  append_assoc, append-nil, length, take, drop, take-append, length-append, take-append-drop,
  length-drop, arith,
}
use embedded_systems_runtime.Protocol.Endian.{at, u32_be, get_u16_be, get_u16_be-put}
use embedded_systems_runtime.Protocol.Crc.{crc32}
use embedded_systems_runtime.Protocol.Packet.{Packet, ok, max_payload, magic}
use embedded_systems_runtime.Protocol.Packet.Frame.{
  IsPacket, sent_version, sent_payload, header_of, body_of, frame_of, length-header_of,
  length-frame_of, packet_encode_fits,
}
use embedded_systems_runtime.Protocol.Packet.RoundTrip.{received, packet_decode-frame_of}
use embedded_systems_runtime.Protocol.Stream.{
  ReadEvent, got, WriteEvent, wrote, read_all, write_all, send_encoded, packet_write_fd, read_tail,
  packet_read_fd,
}

-- Reads that answer a request for `n` bytes in full: each stores some bytes, and no more than are
-- still wanted.
abbrev pub Complete : ℕ → List ReadEvent → Type 0
Complete n [] = n ≡ 0
Complete n (ReadEvent.interrupted ∷ es) = (0 < n) × Complete n es
Complete n (ReadEvent.failed ∷ es) = ⊥
Complete n (got bs ∷ es) = (0 < length bs) × (length bs ≤ n) × Complete (n - length bs) es

-- The bytes that the reads stored.
abbrev pub stored : List ReadEvent → List ℕ
stored [] = []
stored (got bs ∷ es) = bs ++ stored es
stored (_ ∷ es) = stored es

-- Writes that take `n` bytes in all.
abbrev pub Taken : ℕ → List WriteEvent → Type 0
Taken n [] = n ≡ 0
Taken n (WriteEvent.interrupted ∷ es) = (0 < n) × Taken n es
Taken n (WriteEvent.failed ∷ es) = ⊥
Taken n (wrote k ∷ es) = (0 < k) × (k ≤ n) × Taken (n - k) es

pub length-stored : (n : ℕ) (es : List ReadEvent) → Complete n es → length (stored es) ≡ n
length-stored n [] c = omega arith
length-stored n (ReadEvent.interrupted ∷ es) c = length-stored n es c.1
length-stored n (ReadEvent.failed ∷ es) c = absurd c
length-stored n (got bs ∷ es) c =
    omega (arith, length-append bs (stored es), length-stored (n - length bs) es c.2)

pub read_all-Complete :
    (n : ℕ) (buf : List ℕ) (es rest : List ReadEvent)
    → Complete n es
    → read_all n buf (es ++ rest) ≡ some (ok, buf ++ stored es, rest)
unfolding read_all
read_all-Complete zero buf [] rest c = rw append-nil
read_all-Complete (suc n) buf [] rest c = absurd (omega arith)
read_all-Complete zero buf (ReadEvent.interrupted ∷ es) rest c = absurd (omega arith)
read_all-Complete (suc n) buf (ReadEvent.interrupted ∷ es) rest c =
    read_all-Complete (suc n) buf es rest c.1
read_all-Complete n buf (ReadEvent.failed ∷ es) rest c = absurd c
read_all-Complete zero buf (got bs ∷ es) rest c = absurd (omega arith)
read_all-Complete (suc n) buf (got [] ∷ es) rest c = absurd (omega arith)
read_all-Complete (suc n) buf (got (b ∷ bs) ∷ es) rest c =
    read_all-Complete (n - length bs) (buf ++ (b ∷ bs)) es rest (rw less at c.2)
    ∙ ap (λ l. some (ok, l, rest)) (append_assoc buf (b ∷ bs) (stored es))
  where
    less : suc n - suc (length bs) ≡ n - length bs
    less = omega arith

pub write_all_complete :
    (sent buf : List ℕ) (es rest : List WriteEvent)
    → Taken (length buf) es
    → write_all sent buf (es ++ rest) ≡ some (ok, sent ++ buf, rest)
unfolding write_all
write_all_complete sent [] [] rest c = rw append-nil
write_all_complete sent [] (WriteEvent.interrupted ∷ es) rest c = absurd (omega arith)
write_all_complete sent [] (WriteEvent.failed ∷ es) rest c = absurd c
write_all_complete sent [] (wrote k ∷ es) rest c = absurd (omega arith)
write_all_complete sent (b ∷ buf) [] rest c = absurd (omega arith)
write_all_complete sent (b ∷ buf) (WriteEvent.interrupted ∷ es) rest c =
    write_all_complete sent (b ∷ buf) es rest c.1
write_all_complete sent (b ∷ buf) (WriteEvent.failed ∷ es) rest c = absurd c
write_all_complete sent (b ∷ buf) (wrote zero ∷ es) rest c = absurd (omega arith)
write_all_complete sent (b ∷ buf) (wrote (suc k) ∷ es) rest c =
    write_all_complete (sent ++ (b ∷ take k buf)) (drop k buf) es rest (rw less at c.2)
    ∙ ap (λ l. some (ok, l, rest))
        (append_assoc sent (b ∷ take k buf) (drop k buf)
          ∙ ap (λ l. sent ++ (b ∷ l)) (take-append-drop k buf))
  where
    less : suc (length buf) - suc k ≡ length (drop k buf)
    less = omega (arith, length-drop k buf)

-- mlrt_packet_write_fd sends exactly the frame of a packet whose payload fits, however many bytes
-- each write takes and wherever it is interrupted.
pub packet_write_fd_sends :
    (p : Packet) (frame : List ℕ) (es rest : List WriteEvent)
    → IsPacket p
    → p.length ≤ max_payload
    → length frame ≡ 526
    → Taken (14 + p.length) es
    → packet_write_fd p frame (es ++ rest) ≡ some (ok, frame_of p, rest)
unfolding packet_write_fd
packet_write_fd_sends p frame es rest valid small size taken =
    ap (λ e. send_encoded e (es ++ rest)) (packet_encode_fits p frame 0 valid small (omega arith))
    ∙ ap (λ l. write_all [] l (es ++ rest)) frame_sent
    ∙ write_all_complete [] (frame_of p) es rest (rw (length-frame_of p valid small) taken)
  where
    frame_sent : take (14 + p.length) (frame_of p ++ drop (14 + p.length) frame) ≡ frame_of p
    frame_sent =
        ap (λ k. take k (frame_of p ++ drop (14 + p.length) frame))
          (sym (length-frame_of p valid small))
        ∙ take-append (frame_of p) (drop (14 + p.length) frame)

header_magic : (p : Packet) → get_u16_be (header_of p) 0 ≡ magic
unfolding get_u16_be header_of
header_magic p = refl

header_version : (p : Packet) → at (header_of p) 2 ≡ sent_version p
unfolding header_of
header_version p = refl

header_length : (p : Packet) → p.length ≤ max_payload → get_u16_be (header_of p) 4 ≡ p.length
unfolding header_of
header_length p small = get_u16_be-put (header_of p) 4 p.length (omega arith) refl refl

module _ (p q : Packet) (valid : IsPacket p) (small : p.length ≤ max_payload)
    (one : sent_version p ≡ 1) (rest : List ReadEvent) where
  read_tail_frame :
      (es : List ReadEvent)
      → Complete (p.length + 4) es
      → header_of p ++ stored es ≡ frame_of p
      → read_tail q (header_of p) (es ++ rest) ≡ some (ok, received p, rest)
  unfolding read_tail
  read_tail_frame es c whole = ground (
    arith,
    header_magic p,
    header_version p,
    header_length p small,
    read_all-Complete (p.length + 4) (header_of p) es rest c,
    packet_decode-frame_of p q valid small,
  )

  -- However a stream cuts the frame of a packet of version 1 into reads, mlrt_packet_read_fd returns
  -- that packet, and leaves what follows the frame unread.
  pub packet_read_fd_receives :
      (es1 es2 : List ReadEvent)
      → Complete 10 es1
      → Complete (p.length + 4) es2
      → stored es1 ++ stored es2 ≡ frame_of p
      → packet_read_fd q (es1 ++ (es2 ++ rest)) ≡ some (ok, received p, rest)
  unfolding packet_read_fd
  packet_read_fd_receives es1 es2 c1 c2 whole =
      rw (read_all-Complete 10 [] es1 (es2 ++ rest) c1, packet_read_fd)
        (ap (λ h. read_tail q h (es2 ++ rest)) header
          ∙ read_tail_frame es2 c2 (ap (λ h. h ++ stored es2) (sym header) ∙ whole))
    where
      header : stored es1 ≡ header_of p
      header =
          sym (take-append (stored es1) (stored es2))
          ∙ ap (λ l. take (length (stored es1)) l)
              (whole ∙ append_assoc (header_of p) (sent_payload p) (u32_be (crc32 (body_of p))))
          ∙ ap (λ k. take k (header_of p ++ (sent_payload p ++ u32_be (crc32 (body_of p)))))
              (length-stored 10 es1 c1 ∙ sym (length-header_of p))
          ∙ take-append (header_of p) (sent_payload p ++ u32_be (crc32 (body_of p)))
