-- ===== src/Protocol/Packet/Detect.antt =====
-- Corruption that mlrt_packet_decode finds by the checksum.
use embedded_systems_runtime.Prelude.{
  ℕ, zero, suc, ◌+◌, ◌-◌, ◌≤◌, ◌<◌, ◌^◌, ◌≡◌, ◌≢◌, refl, ap, sym, ◌∙◌, List, [], ◌∷◌, ◌++◌, length,
  take, drop, All, IsByte, All-take, arith, length-append, length-take, drop-append, All-left,
  All-right, dec_lt,
}
use embedded_systems_runtime.Protocol.Endian.{at, u32_be, get_u32_be}
use embedded_systems_runtime.Protocol.Crc.{crc32}
use embedded_systems_runtime.Protocol.Crc.Injective.{crc32_detects, crc32-lt}
use embedded_systems_runtime.Protocol.Packet.{Packet, max_payload, ok, ecrc, packet_decode}
use embedded_systems_runtime.Protocol.Packet.Frame.{IsPacket, sent_version, body_of, length-body_of}
use embedded_systems_runtime.Protocol.Packet.RoundTrip.{
  frame_magic, frame_version, frame_length, frame_body,
}
use embedded_systems_runtime.Protocol.Packet.Exact.{packet_decode_split}

-- A frame whose checksum field holds another number than the checksum of its header and payload is
-- refused with ECRC, and the packet of the receiver is untouched.
pub packet_decode_bad_crc :
    (p q : Packet) (c : List ℕ)
    → IsPacket p
    → p.length ≤ max_payload
    → sent_version p ≡ 1
    → length c ≡ 4
    → get_u32_be (body_of p ++ c) (10 + p.length) ≢ crc32 (body_of p)
    → packet_decode (body_of p ++ c) q ≡ (ecrc, q)
unfolding packet_decode
packet_decode_bad_crc p q c valid small one four bad = ground (
  arith,
  length-append (body_of p) c,
  length-body_of p valid small,
  frame_magic p valid small c,
  frame_version p valid small c,
  frame_length p valid small c,
  frame_body p valid small c,
)

append-injective_right : (xs ys zs : List ℕ) → xs ++ ys ≡ xs ++ zs → ys ≡ zs
append-injective_right [] ys zs e = e
append-injective_right (x ∷ xs) ys zs e = append-injective_right xs ys zs (ap (drop 1) e)

take_through :
    (pre post : List ℕ) (x k : ℕ)
    → length pre < k
    → take k (pre ++ x ∷ post) ≡ pre ++ x ∷ take (k - suc (length pre)) post
take_through pre post x zero h = absurd (omega arith)
take_through [] post x (suc k) h = ap (λ n. x ∷ take n post) (omega arith)
take_through (p ∷ pre) post x (suc k) h =
    ap (λ l. p ∷ l)
      (take_through pre post x k (omega arith) ∙ ap (λ n. pre ++ x ∷ take n post) (omega arith))

drop_through :
    (pre post : List ℕ) (x k : ℕ)
    → length pre < k
    → drop k (pre ++ x ∷ post) ≡ drop (k - suc (length pre)) post
drop_through pre post x zero h = absurd (omega arith)
drop_through [] post x (suc k) h = ap (λ n. drop n post) (omega arith)
drop_through (p ∷ pre) post x (suc k) h =
    drop_through pre post x k (omega arith) ∙ ap (λ n. drop n post) (omega arith)

take_within : (pre zs : List ℕ) (k : ℕ) → k ≤ length pre → take k (pre ++ zs) ≡ take k pre
take_within pre zs zero h = refl
take_within [] zs (suc k) h = absurd (omega arith)
take_within (p ∷ pre) zs (suc k) h = ap (λ l. p ∷ l) (take_within pre zs k (omega arith))

u32_be_injective : (v w : ℕ) → v < 2 ^ 32 → w < 2 ^ 32 → u32_be v ≡ u32_be w → v ≡ w
unfolding u32_be
u32_be_injective v w hv hw e =
    ground (arith, ap (λ l. at l 0) e, ap (λ l. at l 1) e, ap (λ l. at l 2) e, ap (λ l. at l 3) e)

-- A byte string that ends in the checksum of its first `k` bytes.
record Sealed (k : ℕ) (f : List ℕ) : Type 0 where
  long : k ≤ length f
  ends : f ≡ take k f ++ u32_be (crc32 (take k f))

Sealed-drop : (k : ℕ) (f : List ℕ) → Sealed k f → drop k f ≡ u32_be (crc32 (take k f))
Sealed-drop k f s =
    ap (drop k) s.ends
    ∙ ap (λ n. drop n (take k f ++ u32_be (crc32 (take k f)))) (sym (length-take k f s.long))
    ∙ drop-append (take k f) (u32_be (crc32 (take k f)))

module _ (pre post : List ℕ) (x y k : ℕ) (bx : All IsByte (pre ++ x ∷ post))
    (by : All IsByte (pre ++ y ∷ post)) (sx : Sealed k (pre ++ x ∷ post))
    (sy : Sealed k (pre ++ y ∷ post)) where
  change_in_body : length pre < k → x ≡ y
  change_in_body h =
      crc32_detects pre (take (k - suc (length pre)) post) x y (All-left IsByte pre (x ∷ post) bx)
        (All-take IsByte (k - suc (length pre)) post (All-right IsByte pre (x ∷ post) bx).1)
        (All-right IsByte pre (x ∷ post) bx).0 (All-right IsByte pre (y ∷ post) by).0
        (ap crc32 (sym (take_through pre post x k h))
          ∙ u32_be_injective _ _
              (crc32-lt (take k (pre ++ x ∷ post)) (All-take IsByte k (pre ++ x ∷ post) bx))
              (crc32-lt (take k (pre ++ y ∷ post)) (All-take IsByte k (pre ++ y ∷ post) by))
              (sym (Sealed-drop k (pre ++ x ∷ post) sx)
                ∙ drop_through pre post x k h
                ∙ sym (drop_through pre post y k h)
                ∙ Sealed-drop k (pre ++ y ∷ post) sy)
          ∙ ap crc32 (take_through pre post y k h))

  change_in_checksum : k ≤ length pre → x ≡ y
  change_in_checksum h =
      ap (λ l. at l 0)
        (append-injective_right pre (x ∷ post) (y ∷ post) (
          sx.ends
          ∙ ap (λ l. l ++ u32_be (crc32 l))
              (take_within pre (x ∷ post) k h ∙ sym (take_within pre (y ∷ post) k h))
          ∙ sym sy.ends))

  Sealed_unique : x ≡ y
  Sealed_unique = elim (dec_lt (length pre) k) [
    | yes h ↦ change_in_body h
    | no h ↦ change_in_checksum (omega arith)
  ]

-- A change of one byte of an accepted frame is never accepted: where two frames differ in one byte at
-- most and both are accepted, they are the same.
pub packet_decode_detects :
    (pre post : List ℕ) (x y : ℕ) (q r p s : Packet)
    → All IsByte (pre ++ x ∷ post)
    → All IsByte (pre ++ y ∷ post)
    → packet_decode (pre ++ x ∷ post) q ≡ (ok, p)
    → packet_decode (pre ++ y ∷ post) r ≡ (ok, s)
    → x ≡ y
packet_decode_detects pre post x y q r p s bx by hx hy =
    let fx = packet_decode_split (pre ++ x ∷ post) q p bx hx in
    let fy = packet_decode_split (pre ++ y ∷ post) r s by hy in
    let same : p.length ≡ s.length =
      omega (arith, fx.0, fy.0, length-append pre (x ∷ post), length-append pre (y ∷ post)) in
    Sealed_unique pre post x y (10 + p.length) bx by
      (record { long = omega (arith, fx.0); ends = fx.1 })
      (rw same (record { long = omega (arith, fy.0); ends = fy.1 }))
