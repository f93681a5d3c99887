-- ===== src/Transport/Corrupt.antt =====
-- The corruption that serve_connection of projects/ai-networking-benchmark-lab/src/transport.cpp makes,
-- and the checksum that shows it.
use embedded_systems_runtime.Prelude.{
  ℕ, zero, suc, ◌^◌, ◌<◌, ◌≡◌, ◌≢◌, refl, sym, ap, ◌∙◌, true, false, Bool, inl, inr, Bool-cases,
  List, [], ◌∷◌, ◌++◌, append_assoc, length, not, ◌==◌, if◌then◌else◌, arith, All, All-append,
  IsByte, bit_xor, ==_iff,
}
use embedded_systems_runtime.Prelude.Bits.{bit_xor-zero, bit_xor-lt, bit_xor-left_injective}
use embedded_systems_runtime.Protocol.Crc.{crc32}
use embedded_systems_runtime.Protocol.Crc.Injective.{crc32_detects, crc32-lt}
use embedded_systems_runtime.Datapath.Checksum.{crc32_from-crc32_update}
use embedded_systems_runtime.Transport.{payload_crc, Frame, flip_last, corrupted, is_empty}

payload_crc-crc32 : (bs : List ℕ) → payload_crc bs ≡ crc32 bs
unfolding payload_crc crc32
payload_crc-crc32 bs = ap (λ s. bit_xor s 0xFFFF_FFFF) (crc32_from-crc32_update bs 0xFFFF_FFFF)

pub payload_crc-lt : (bs : List ℕ) → All IsByte bs → payload_crc bs < 2 ^ 32
payload_crc-lt bs h = rw (payload_crc-crc32 bs) (crc32-lt bs h)

bit_xor-one : (b : ℕ) → bit_xor b 1 ≢ b
bit_xor-one b e = absurd (omega (arith, bit_xor-left_injective 1 0 b (e ∙ sym (bit_xor-zero b))))

-- The checksum changes with the last bit of the last byte.
flip_last-crc32 :
    (pre : List ℕ) (b : ℕ) (bs : List ℕ)
    → All IsByte pre
    → IsByte b
    → All IsByte bs
    → crc32 (pre ++ b ∷ bs) ≢ crc32 (pre ++ flip_last (b ∷ bs))
unfolding flip_last
flip_last-crc32 pre b [] hp hb hs e =
    bit_xor-one b
      (sym (crc32_detects pre [] b (bit_xor b 1) hp tt hb (bit_xor-lt 8 b 1 hb (omega arith)) e))
flip_last-crc32 pre b (c ∷ cs) hp hb hs e =
    flip_last-crc32 (pre ++ b ∷ []) c cs (All-append IsByte pre (b ∷ []) hp (hb, tt)) hs.0 hs.1 (
      ap crc32 (append_assoc pre (b ∷ []) (c ∷ cs))
      ∙ e
      ∙ ap crc32 (sym (append_assoc pre (b ∷ []) (flip_last (c ∷ cs)))))

flip_last-append :
    (xs : List ℕ) (b : ℕ) (bs : List ℕ) → flip_last (xs ++ b ∷ bs) ≡ xs ++ flip_last (b ∷ bs)
unfolding flip_last
flip_last-append [] b bs = refl
flip_last-append (x ∷ []) b bs = refl
flip_last-append (x ∷ y ∷ xs) b bs = ap (λ l. x ∷ l) (flip_last-append (y ∷ xs) b bs)

length-flip_last : (bs : List ℕ) → length (flip_last bs) ≡ length bs
unfolding flip_last
length-flip_last [] = refl
length-flip_last (b ∷ []) = refl
length-flip_last (b ∷ c ∷ bs) = ap suc (length-flip_last (c ∷ bs))

-- The payload as the peer gets it.
unfoldable pub sent : Bool → List ℕ → List ℕ
sent c payload = if c then flip_last payload else payload

pub spoil-append :
    (c : Bool) (xs h : List ℕ)
    → (c ≡ true → is_empty xs ≡ false)
    → (if c then flip_last (h ++ xs) else h ++ xs) ≡ h ++ sent c xs
unfolding sent is_empty
spoil-append false xs h full = refl
spoil-append true [] h full = ground (arith, full refl)
spoil-append true (b ∷ bs) h full = flip_last-append h b bs

-- The checksum of the payload differs where it was corrupted, and only there.
pub sent-crc :
    (c : Bool) (xs : List ℕ)
    → (c ≡ true → is_empty xs ≡ false)
    → All IsByte xs
    → (payload_crc (sent c xs) == payload_crc xs) ≡ not c
unfolding sent is_empty
sent-crc false xs full h = ground arith
sent-crc true [] full h = ground (arith, full refl)
sent-crc true (b ∷ bs) full h =
    elim (Bool-cases (payload_crc (flip_last (b ∷ bs)) == payload_crc (b ∷ bs))) [
      | inl e ↦ absurd (
          flip_last-crc32 [] b bs tt h.0 h.1 (
            sym (payload_crc-crc32 (b ∷ bs))
            ∙ sym ((==_iff (payload_crc (flip_last (b ∷ bs))) (payload_crc (b ∷ bs))).0 e)
            ∙ payload_crc-crc32 (flip_last (b ∷ bs))))
      | inr e ↦ e
    ]

pub corrupted-full : (n k : ℕ) (f : Frame) → corrupted n k f ≡ true → is_empty f.payload ≡ false
unfolding corrupted
corrupted-full n zero f e = ground arith
corrupted-full n (suc k) f e = ground arith

pub length-sent : (c : Bool) (xs : List ℕ) → length (sent c xs) ≡ length xs
unfolding sent
length-sent false xs = refl
length-sent true xs = length-flip_last xs
