-- ===== src/Datapath/Accepts.antt =====
-- projects/network-verification-lab/src/datapath.cpp acknowledges what encode makes.
use embedded_systems_runtime.Prelude.{
  ℕ, ◌+◌, ◌%◌, ◌^◌, ◌≤◌, ◌<◌, ◌≡◌, refl, subst, sym, ap, ap₂, ◌∙◌, List, none, length, take, drop,
  bytes_at, arith, All, IsByte, ◌==◌, leb, ltb, ◌||◌, if_both, false, take_self,
}
use embedded_systems_runtime.Prelude.Bits.{bit_xor-lt}
use embedded_systems_runtime.Protocol.Endian.{
  at, u16_be, u32_be, get_u16_be, get_u32_be, get_u16_be-put, get_u32_be-put,
}
use embedded_systems_runtime.Protocol.Crc.Injective.{crc32_update-lt}
use embedded_systems_runtime.Datapath.Checksum.{crc32_from, crc32_from-crc32_update}
use embedded_systems_runtime.Datapath.Datagram.{
  Header, header_at, kind_code, data_kind, ack, encoded_head, check_of, encode, magic_word,
}
use embedded_systems_runtime.Datapath.{
  Datapath, find_session, store_session, delta, accept, on_data, fault_of, by_kind,
  checked_datagram, process,
}
use embedded_systems_runtime.Datapath.Taken.{counted, IsNew}

crc32_from-lt :
    (bs : List ℕ) (value : ℕ) → value < 2 ^ 32 → All IsByte bs → crc32_from bs value < 2 ^ 32
crc32_from-lt bs value h b =
    subst (λ (c : ℕ). c < 2 ^ 32) (sym (crc32_from-crc32_update bs value))
      (crc32_update-lt value bs h b)

check_of-lt :
    (head payload : List ℕ) → All IsByte head → All IsByte payload → check_of head payload < 2 ^ 32
unfolding check_of
check_of-lt head payload hb pb =
    bit_xor-lt 32 _ 0xFFFF_FFFF
      (if_both (λ (c : ℕ). c < 2 ^ 32) (length payload == 0) (crc32_from head 0xFFFF_FFFF)
        (crc32_from payload (crc32_from head 0xFFFF_FFFF)) over_head
        (crc32_from-lt payload (crc32_from head 0xFFFF_FFFF) over_head pb))
      (omega arith)
  where
    over_head : crc32_from head 0xFFFF_FFFF < 2 ^ 32
    over_head = crc32_from-lt head 0xFFFF_FFFF (omega arith) hb

-- The fields that are sent with a payload.
abbrev pub sent_header : ℕ → ℕ → List ℕ → Header
sent_header s q payload = record {
  kind = 1;
  flags = 0;
  session = s;
  sequence = q;
  payload_length = length payload;
  reserved = 0;
}

module _ (s q : ℕ) (payload : List ℕ) (s_fits : s < 2 ^ 32) (q_fits : q < 2 ^ 32)
    (short : length payload ≤ 1400) (b : All IsByte payload) where
  head_bytes : All IsByte (encoded_head data_kind s q payload)
  unfolding encoded_head kind_code u16_be u32_be
  head_bytes = omega arith

  -- What is read where encode has written it.
  module _ (frame : List ℕ) (e : frame ≡ encode data_kind s q payload) where
    starts : get_u32_be frame 0 ≡ magic_word
    unfolding encode encoded_head u32_be
    starts =
        get_u32_be-put frame 0 magic_word (omega arith) (rw e refl) (rw e refl) (rw e refl)
          (rw e refl)

    version_one : at frame 4 ≡ 1
    unfolding encode encoded_head u32_be
    version_one = rw e refl

    kind_found : at frame 5 ≡ 1
    unfolding encode encoded_head u32_be kind_code
    kind_found = rw e refl

    flags_found : get_u16_be frame 6 ≡ 0
    unfolding encode encoded_head u32_be u16_be
    flags_found = get_u16_be-put frame 6 0 (omega arith) (rw e refl) (rw e refl)

    session_found : get_u32_be frame 8 ≡ s
    unfolding encode encoded_head u32_be u16_be
    session_found = get_u32_be-put frame 8 s s_fits (rw e refl) (rw e refl) (rw e refl) (rw e refl)

    sequence_found : get_u32_be frame 12 ≡ q
    unfolding encode encoded_head u32_be u16_be
    sequence_found =
        get_u32_be-put frame 12 q q_fits (rw e refl) (rw e refl) (rw e refl) (rw e refl)

    length_found : get_u16_be frame 16 ≡ length payload
    unfolding encode encoded_head u32_be u16_be
    length_found =
        get_u16_be-put frame 16 (length payload % 2 ^ 16) (omega arith) (rw e refl) (rw e refl)
        ∙ omega arith

    reserved_found : get_u16_be frame 18 ≡ 0
    unfolding encode encoded_head u32_be u16_be
    reserved_found = get_u16_be-put frame 18 0 (omega arith) (rw e refl) (rw e refl)

    header_found : header_at frame ≡ sent_header s q payload
    unfolding header_at
    header_found = λ i. record {
      kind = kind_found i;
      flags = flags_found i;
      session = session_found i;
      sequence = sequence_found i;
      payload_length = length_found i;
      reserved = reserved_found i;
    }

    total : length frame ≡ 24 + length payload
    unfolding encode encoded_head u32_be u16_be
    total = rw e (omega arith)

    payload_found : drop 24 frame ≡ payload
    unfolding encode encoded_head u32_be u16_be
    payload_found = rw e refl

    head_sent : bytes_at frame 0 20 ≡ encoded_head data_kind s q payload
    unfolding encode encoded_head u32_be u16_be
    head_sent = rw e refl

    payload_sent : bytes_at frame 24 (length payload) ≡ payload
    payload_sent = ap (take (length payload)) payload_found ∙ take_self payload

    check_found :
        check_of (bytes_at frame 0 20) (bytes_at frame 24 (length payload)) ≡ get_u32_be frame 20
    unfolding encode encoded_head u32_be u16_be
    check_found =
        let check = check_of (encoded_head data_kind s q payload) payload in
        ap₂ check_of head_sent payload_sent
        ∙ sym (
            get_u32_be-put frame 20 check
              (check_of-lt (encoded_head data_kind s q payload) payload head_bytes b) (rw e refl)
              (rw e refl) (rw e refl) (rw e refl))

    fault_of-encode : fault_of frame (sent_header s q payload) ≡ none
    unfolding fault_of
    fault_of-encode = rw (starts, version_one, total) (ground (arith, check_found))

-- What process leaves when it acknowledges a payload.
abbrev pub acknowledged : Datapath → ℕ → ℕ → List ℕ → List ℕ × Datapath
acknowledged dp s q payload = (
  encode ack s q payload,
  record {
    counts = record dp.counts {
      datagrams = (dp.counts.datagrams + 1) % 2 ^ 64;
      accepted = (dp.counts.accepted + 1) % 2 ^ 64;
      bytes_accepted = (dp.counts.bytes_accepted + length payload) % 2 ^ 64;
    };
    last_seq = store_session s q dp.last_seq;
  },
)

on_data-new :
    (dp : Datapath) (h : Header) (bytes : List ℕ)
    → IsNew dp h
    → on_data dp h bytes ≡ accept dp h bytes
unfolding on_data
on_data-new dp h bytes new = rw (new.room, not_replayed) refl
  where
    not_replayed :
        (delta (find_session h.session dp.last_seq) h.sequence == 0
          || leb (2 ^ 31) (delta (find_session h.session dp.last_seq) h.sequence))
        ≡ false
    not_replayed = ground (arith, new.forward, new.near)

by_kind-sent :
    (decimal : ℕ → List ℕ) (dp : Datapath) (s q : ℕ) (payload frame : List ℕ) (h : Header)
    → h ≡ sent_header s q payload
    → drop 24 frame ≡ payload
    → IsNew dp (sent_header s q payload)
    → by_kind decimal (counted dp) h frame ≡ acknowledged dp s q payload
unfolding by_kind accept kind_code
by_kind-sent decimal dp s q payload frame h e f new =
    ap (λ (t : Header). by_kind decimal (counted dp) t frame) e
    ∙ on_data-new (counted dp) (sent_header s q payload) frame
        (record { room = new.room; forward = new.forward; near = new.near })
    ∙ ap (λ (p : List ℕ). (encode ack s q p, (acknowledged dp s q payload).1)) f

-- Every data datagram that encode makes, of a session and a number below 2^32 and at most 1400 bytes
-- of payload, where the number is new to the session and the session is known or finds room, is
-- acknowledged with the same session, number and payload; it is counted as one datagram, accepted,
-- with its bytes, and its number becomes the last of its session.
pub process-encode :
    (decimal : ℕ → List ℕ) (dp : Datapath) (s q : ℕ) (payload : List ℕ)
    → s < 2 ^ 32
    → q < 2 ^ 32
    → length payload ≤ 1400
    → All IsByte payload
    → IsNew dp (sent_header s q payload)
    → process decimal dp (encode data_kind s q payload) ≡ acknowledged dp s q payload
unfolding process checked_datagram
process-encode decimal dp s q payload s_fits q_fits short b new =
    let frame = encode data_kind s q payload in
    let long : ltb (length frame) 24 ≡ false =
      ground (arith, total s q payload s_fits q_fits short b frame refl) in
    let head : header_at frame ≡ sent_header s q payload =
      header_found s q payload s_fits q_fits short b frame refl in
    let faultless : fault_of frame (header_at frame) ≡ none =
      ap (fault_of frame) head ∙ fault_of-encode s q payload s_fits q_fits short b frame refl in
    rw (long, faultless)
      (by_kind-sent decimal dp s q payload frame (header_at frame) head
        (payload_found s q payload s_fits q_fits short b frame refl) new)
