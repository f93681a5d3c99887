-- ===== src/Transport/Echo.antt =====
-- What the client of projects/ai-networking-benchmark-lab/src/transport.cpp reads of the answer of
-- serve_connection.
use embedded_systems_runtime.Prelude.{
  ℕ, zero, suc, ◌-◌, ◌^◌, ◌≤◌, ◌<◌, ◌≡◌, refl, sym, ap, ◌∙◌, Option, some, true, false, Bool, List,
  [], ◌∷◌, ◌++◌, append_assoc, append-nil, length, take, drop, take-append, drop-append, ◌==◌, ltb,
  if◌then◌else◌, arith, All, IsByte,
}
use embedded_systems_runtime.Protocol.Endian.{u32_be, get_u32_be, get_u32_be-put}
use embedded_systems_runtime.Protocol.Stream.{ReadEvent, got}
use embedded_systems_runtime.Protocol.Stream.Transfer.{Complete, stored, length-stored}
use embedded_systems_runtime.Transport.{
  fabric_magic, max_body, payload_crc, Frame, frame_head, encode_frame, corrupted, spoil, is_empty,
  outgoing, filled, read_bytes, Arrival, arrived, refused, read_payload, check_payload, read_behind,
  read_frame,
}
use embedded_systems_runtime.Transport.Corrupt.{
  payload_crc-lt, sent, spoil-append, sent-crc, corrupted-full,
}

read_bytes-Complete :
    (n : ℕ) (buf : List ℕ) (es rest : List ReadEvent)
    → Complete n es
    → read_bytes n buf (es ++ rest) ≡ some (filled (buf ++ stored es), rest)
unfolding read_bytes
read_bytes-Complete zero buf [] rest c = rw append-nil
read_bytes-Complete (suc n) buf [] rest c = absurd (omega arith)
read_bytes-Complete zero buf (ReadEvent.interrupted ∷ es) rest c = absurd (omega arith)
read_bytes-Complete (suc n) buf (ReadEvent.interrupted ∷ es) rest c =
    read_bytes-Complete (suc n) buf es rest c.1
read_bytes-Complete n buf (ReadEvent.failed ∷ es) rest c = absurd c
read_bytes-Complete zero buf (got bs ∷ es) rest c = absurd (omega arith)
read_bytes-Complete (suc n) buf (got [] ∷ es) rest c = absurd (omega arith)
read_bytes-Complete (suc n) buf (got (b ∷ bs) ∷ es) rest c =
    read_bytes-Complete (n - length bs) (buf ++ (b ∷ bs)) es rest (rw less at c.2)
    ∙ ap (λ l. some (filled l, rest)) (append_assoc buf (b ∷ bs) (stored es))
  where
    less : suc n - suc (length bs) ≡ n - length bs
    less = omega arith

read_payload-Complete :
    (n : ℕ) (es rest : List ReadEvent)
    → Complete n es
    → read_payload n (es ++ rest) ≡ some (filled (stored es), rest)
unfolding read_payload
read_payload-Complete zero [] rest c = refl
read_payload-Complete zero (ReadEvent.interrupted ∷ es) rest c = absurd (omega arith)
read_payload-Complete zero (ReadEvent.failed ∷ es) rest c = absurd c
read_payload-Complete zero (got bs ∷ es) rest c = absurd (omega arith)
read_payload-Complete (suc n) es rest c = read_bytes-Complete (suc n) [] es rest c

-- The fields of a header are what was stored in them.
module _ (f : Frame) where
  unfoldable pub head : List ℕ
  head = frame_head f.seq f.payload

  head_magic : get_u32_be head 0 ≡ fabric_magic
  unfolding frame_head u32_be head
  head_magic = get_u32_be-put head 0 fabric_magic (omega arith) refl refl refl refl

  head_version : get_u32_be head 4 ≡ 1
  unfolding frame_head u32_be head
  head_version = get_u32_be-put head 4 1 (omega arith) refl refl refl refl

  head_seq : f.seq < 2 ^ 32 → get_u32_be head 8 ≡ f.seq
  unfolding frame_head u32_be head
  head_seq h = get_u32_be-put head 8 f.seq h refl refl refl refl

  head_length : length f.payload < 2 ^ 32 → get_u32_be head 12 ≡ length f.payload
  unfolding frame_head u32_be head
  head_length h = get_u32_be-put head 12 (length f.payload) h refl refl refl refl

  head_crc : All IsByte f.payload → get_u32_be head 16 ≡ payload_crc f.payload
  unfolding frame_head u32_be head
  head_crc h =
      get_u32_be-put head 16 (payload_crc f.payload) (payload_crc-lt f.payload h) refl refl refl
        refl

  pub length-head : length head ≡ 20
  unfolding frame_head u32_be head
  length-head = refl

-- What read_frame makes of a header and of the bytes that come behind it.
read_behind-head :
    (f : Frame) (es rest : List ReadEvent)
    → f.seq < 2 ^ 32
    → length f.payload ≤ max_body
    → All IsByte f.payload
    → Complete (length f.payload) es
    → read_behind (some (filled (head f), es ++ rest))
      ≡ some (
        if payload_crc (stored es) == payload_crc f.payload
            then arrived record { seq = f.seq; payload = stored es }
            else refused,
        rest,
      )
unfolding read_behind check_payload
read_behind-head f es rest hs fits bytes c =
    rw
      (
        head_magic f,
        head_version f,
        head_length f (omega arith),
        room,
        read_payload-Complete (length f.payload) es rest c,
        head_seq f hs,
        head_crc f bytes,
      )
      refl
  where
    room : ltb max_body (length f.payload) ≡ false
    room = ground arith

-- Two ways to cut a stream at the same place.
parts : (xs ys us vs : List ℕ) → length xs ≡ length us → xs ++ ys ≡ us ++ vs → (xs ≡ us) × (ys ≡ vs)
parts xs ys us vs l e = (
  sym (take-append xs ys)
      ∙ ap (take (length xs)) e
      ∙ ap (λ k. take k (us ++ vs)) l
      ∙ take-append us vs,
  sym (drop-append xs ys)
      ∙ ap (drop (length xs)) e
      ∙ ap (λ k. drop k (us ++ vs)) l
      ∙ drop-append us vs,
)

pub outgoing-parts :
    (n k : ℕ) (f : Frame)
    → length f.payload ≤ max_body
    → outgoing n k f ≡ some (head f ++ sent (corrupted n k f) f.payload)
unfolding outgoing encode_frame spoil head
outgoing-parts n k f fits =
    rw room (ap some (spoil-append (corrupted n k f) f.payload (head f) (corrupted-full n k f)))
  where
    room : ltb max_body (length f.payload) ≡ false
    room = ground arith

-- What serve_connection sends back for its n-th frame, of a number below 2^32 and at most 2^20 bytes
-- of payload, read_frame receives, in pieces of any size: where the n-th answer is to be corrupted
-- (`corrupt_every` is not 0 and divides n, and the payload is not empty) it is refused, and every
-- other answer is the frame itself.
pub read_frame-outgoing :
    (n corrupt_every : ℕ) (f : Frame) (es1 es2 rest : List ReadEvent)
    → f.seq < 2 ^ 32
    → length f.payload ≤ max_body
    → All IsByte f.payload
    → Complete 20 es1
    → Complete (length f.payload) es2
    → outgoing n corrupt_every f ≡ some (stored es1 ++ stored es2)
    → read_frame (es1 ++ (es2 ++ rest))
      ≡ some (if corrupted n corrupt_every f then refused else arrived f, rest)
unfolding read_frame sent
read_frame-outgoing n k f es1 es2 rest hs fits bytes c1 c2 e =
    ap read_behind (
      read_bytes-Complete 20 [] es1 (es2 ++ rest) c1 ∙ ap (λ h. some (filled h, es2 ++ rest)) cut.0)
    ∙ read_behind-head f es2 rest hs fits bytes c2
    ∙ ap answer cut.1
    ∙ taken (corrupted n k f) (corrupted-full n k f)
  where
    answer : List ℕ → Option (Arrival × List ReadEvent)
    answer p = some (
      if payload_crc p == payload_crc f.payload
          then arrived record { seq = f.seq; payload = p }
          else refused,
      rest,
    )

    cut : (stored es1 ≡ head f) × (stored es2 ≡ sent (corrupted n k f) f.payload)
    cut =
        parts (stored es1) (stored es2) (head f) (sent (corrupted n k f) f.payload)
          (length-stored 20 es1 c1 ∙ sym (length-head f))
          (ground (arith, sym e ∙ outgoing-parts n k f fits))

    taken :
        (c : Bool)
        → (c ≡ true → is_empty f.payload ≡ false)
        → answer (sent c f.payload) ≡ some (if c then refused else arrived f, rest)
    taken false full = rw (sent-crc false f.payload full bytes) refl
    taken true full = rw (sent-crc true f.payload full bytes) refl
