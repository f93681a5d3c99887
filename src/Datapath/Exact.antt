-- ===== src/Datapath/Exact.antt =====
-- What projects/network-verification-lab/src/datapath.cpp accepts are the datagrams of encode, and no
-- others.
use embedded_systems_runtime.Prelude.{
  ℕ, suc, ◌%◌, ◌^◌, ◌≤◌, ◌<◌, ◌≡◌, refl, sym, ap, ap₂, ◌∙◌, List, ◌∷◌, ◌++◌, length, take, drop,
  bytes_at, arith, All, IsByte, take_self, length-drop,
}
use embedded_systems_runtime.Protocol.Endian.{at, u16_be, u32_be, get_u16_be, get_u32_be}
use embedded_systems_runtime.Protocol.Endian.Parts.{u32_be-rest, u16_be-rest, at-rest}
use embedded_systems_runtime.Datapath.Datagram.{
  data_kind, ack, kind_code, header_at, encoded_head, check_of, encode,
}
use embedded_systems_runtime.Datapath.{Datapath, find_session, delta, accept, process}
use embedded_systems_runtime.Datapath.Counting.{Checked}
use embedded_systems_runtime.Datapath.Taken.{process-Taken}

module _ (bytes : List ℕ) (b : All IsByte bytes) (long : 24 ≤ length bytes) where
  -- A datagram as the fields that are read in its head.
  fields_of :
      bytes
      ≡ u32_be (get_u32_be bytes 0)
        ++ (at bytes 4
            ∷ at bytes 5
            ∷ (u16_be (get_u16_be bytes 6)
                ++ (u32_be (get_u32_be bytes 8)
                    ++ (u32_be (get_u32_be bytes 12)
                        ++ (u16_be (get_u16_be bytes 16)
                            ++ (u16_be (get_u16_be bytes 18) ++ drop 20 bytes))))))
  fields_of =
      u32_be-rest bytes 0 4 (omega arith) (omega arith) b
      ∙ ap (λ l. u32_be (get_u32_be bytes 0) ++ l)
          (at-rest bytes 4 5 (omega arith) (omega arith)
            ∙ ap (λ l. at bytes 4 ∷ l)
                (at-rest bytes 5 6 (omega arith) (omega arith)
                  ∙ ap (λ l. at bytes 5 ∷ l)
                      (u16_be-rest bytes 6 8 (omega arith) (omega arith) b
                        ∙ ap (λ l. u16_be (get_u16_be bytes 6) ++ l) numbers)))
    where
      numbers :
          drop 8 bytes
          ≡ u32_be (get_u32_be bytes 8)
            ++ (u32_be (get_u32_be bytes 12)
                ++ (u16_be (get_u16_be bytes 16)
                    ++ (u16_be (get_u16_be bytes 18) ++ drop 20 bytes)))
      numbers =
          u32_be-rest bytes 8 12 (omega arith) (omega arith) b
          ∙ ap (λ l. u32_be (get_u32_be bytes 8) ++ l)
              (u32_be-rest bytes 12 16 (omega arith) (omega arith) b
                ∙ ap (λ l. u32_be (get_u32_be bytes 12) ++ l)
                    (u16_be-rest bytes 16 18 (omega arith) (omega arith) b
                      ∙ ap (λ l. u16_be (get_u16_be bytes 16) ++ l)
                          (u16_be-rest bytes 18 20 (omega arith) (omega arith) b)))

  module _ (c : Checked bytes (header_at bytes)) (k : (header_at bytes).kind ≡ 1) where
    length-rest : length (drop 24 bytes) ≡ (header_at bytes).payload_length
    length-rest = omega (arith, length-drop 24 bytes, c.total)

    head_found :
        bytes
        ≡ encoded_head data_kind
            (header_at bytes).session
            (header_at bytes).sequence
            (drop 24 bytes)
          ++ drop 20 bytes
    unfolding encoded_head kind_code header_at u32_be u16_be
    head_found =
        let flags : get_u16_be bytes 6 ≡ 0 = c.no_flags in
        let reserved : get_u16_be bytes 18 ≡ 0 = c.no_reserved in
        let kind : at bytes 5 ≡ 1 = k in
        let size : get_u16_be bytes 16 ≡ length (drop 24 bytes) % 2 ^ 16 =
          omega (arith, length-rest, c.short) in
        fields_of ∙ rw (c.starts, c.version_one, kind, flags, reserved, size) refl

    -- The datagram is the one that encode makes of its session, its number and its payload.
    pub taken_bytes :
        bytes
        ≡ encode data_kind (header_at bytes).session (header_at bytes).sequence (drop 24 bytes)
    unfolding encode
    taken_bytes =
        let h = header_at bytes in
        let head = encoded_head data_kind h.session h.sequence (drop 24 bytes) in
        head_found
        ∙ ap (λ l. head ++ l)
            (u32_be-rest bytes 20 24 (omega arith) long b
              ∙ ap (λ v. u32_be v ++ drop 24 bytes)
                  (sym c.sum ∙ ap₂ check_of head_taken payload_taken))
      where
        head_taken :
            bytes_at bytes 0 20
            ≡ encoded_head data_kind
                (header_at bytes).session
                (header_at bytes).sequence
                (drop 24 bytes)
        head_taken = ap (take 20) head_found

        payload_taken : bytes_at bytes 24 (header_at bytes).payload_length ≡ drop 24 bytes
        payload_taken =
            ap (λ n. take n (drop 24 bytes)) (sym length-rest) ∙ take_self (drop 24 bytes)

-- A datagram of bytes that raises the count of the accepted is exactly the data datagram that encode
-- makes of some session, number and payload of at most 1400 bytes, the number is a step of 1 to
-- 2^31 - 1 from the last of its session, and the reply is the acknowledgement with the same session,
-- number and payload.
pub process_exact :
    (decimal : ℕ → List ℕ) (dp : Datapath) (bytes : List ℕ)
    → All IsByte bytes
    → (process decimal dp bytes).1.counts.accepted ≡ suc dp.counts.accepted
    → (session : ℕ) × (sequence : ℕ) × (payload : List ℕ) × (bytes
        ≡ encode data_kind session sequence payload)
      × (length payload ≤ 1400)
      × (0 < delta (find_session session dp.last_seq) sequence)
      × (delta (find_session session dp.last_seq) sequence < 2 ^ 31)
      × ((process decimal dp bytes).0 ≡ encode ack session sequence payload)
unfolding accept
process_exact decimal dp bytes b h =
    let t = process-Taken decimal dp bytes h in
    let head = header_at bytes in
    (
      head.session,
      head.sequence,
      drop 24 bytes,
      taken_bytes bytes b t.long t.checked t.is_data,
      omega (arith, length-rest bytes b t.long t.checked t.is_data, t.checked.short),
      t.is_new.forward,
      t.is_new.near,
      ap (λ (r : List ℕ × Datapath). r.0) t.result,
    )
