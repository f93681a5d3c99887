-- ===== src/Protocol/Endian.antt =====
-- put_u16_be, put_u32_be, get_u16_be and get_u32_be of protocol/embedded_protocol.c, which
-- target/target_core.c and target/target_client.c repeat. A pointer is a buffer and an offset.
pub mod Parts
use embedded_systems_runtime.Prelude.{
  All, IsByte, ℕ, ◌+◌, ◌*◌, ◌/◌, ◌%◌, ◌^◌, ◌<◌, ◌≡◌, List, [], ◌∷◌, ◌++◌, ap, ◌∙◌, length,
  get_or-append, bit_or, get_or, write_at, arith,
}
use embedded_systems_runtime.Prelude.Bits.{bit_or-disjoint}

-- The bytes that the stores of put_u16_be leave at `p`.
unfoldable pub u16_be : ℕ → List ℕ
u16_be v = (v / 256 % 256) ∷ (v % 256) ∷ []

unfoldable pub u32_be : ℕ → List ℕ
u32_be v = (v / 2 ^ 24 % 256) ∷ (v / 2 ^ 16 % 256) ∷ (v / 2 ^ 8 % 256) ∷ (v % 256) ∷ []

abbrev pub put_u16_be : List ℕ → ℕ → ℕ → List ℕ
put_u16_be mem p v = write_at mem p (u16_be v)

abbrev pub put_u32_be : List ℕ → ℕ → ℕ → List ℕ
put_u32_be mem p v = write_at mem p (u32_be v)

-- p[i], for a read in range.
abbrev pub at : List ℕ → ℕ → ℕ
at mem i = get_or mem i 0

unfoldable pub get_u16_be : List ℕ → ℕ → ℕ
get_u16_be mem p = bit_or (at mem p * 2 ^ 8 % 2 ^ 16) (at mem (p + 1)) % 2 ^ 16

unfoldable pub get_u32_be : List ℕ → ℕ → ℕ
get_u32_be mem p =
    bit_or
      (bit_or (bit_or (at mem p * 2 ^ 24 % 2 ^ 32) (at mem (p + 1) * 2 ^ 16 % 2 ^ 32))
        (at mem (p + 2) * 2 ^ 8 % 2 ^ 32))
      (at mem (p + 3))

-- On bytes the `|` of the shifts is a sum.
pub get_u16_be-sum :
    (mem : List ℕ) (p : ℕ)
    → at mem p < 256
    → at mem (p + 1) < 256
    → get_u16_be mem p ≡ at mem p * 256 + at mem (p + 1)
unfolding get_u16_be
get_u16_be-sum mem p h0 h1 = omega (
  arith,
  bit_or-disjoint 8 (at mem p * 2 ^ 8 % 2 ^ 16) (at mem (p + 1)) (at mem p) (omega arith) h1,
)

pub get_u32_be-sum :
    (mem : List ℕ) (p : ℕ)
    → at mem p < 256
    → at mem (p + 1) < 256
    → at mem (p + 2) < 256
    → at mem (p + 3) < 256
    → get_u32_be mem p
      ≡ at mem p * 2 ^ 24 + at mem (p + 1) * 2 ^ 16 + at mem (p + 2) * 2 ^ 8 + at mem (p + 3)
unfolding get_u32_be
get_u32_be-sum mem p h0 h1 h2 h3 =
    let a = at mem p in
    let b = at mem (p + 1) in
    let c = at mem (p + 2) in
    let d = at mem (p + 3) in
    let ab =
      bit_or-disjoint 24 (a * 2 ^ 24 % 2 ^ 32) (b * 2 ^ 16 % 2 ^ 32) a (omega arith)
        (omega arith) in
    let abc =
      bit_or-disjoint 16 (bit_or (a * 2 ^ 24 % 2 ^ 32) (b * 2 ^ 16 % 2 ^ 32)) (c * 2 ^ 8 % 2 ^ 32)
        (a * 256 + b) (omega (arith, ab)) (omega arith) in
    omega (
      arith,
      ab,
      abc,
      bit_or-disjoint 8
          (bit_or (bit_or (a * 2 ^ 24 % 2 ^ 32) (b * 2 ^ 16 % 2 ^ 32)) (c * 2 ^ 8 % 2 ^ 32)) d
          (a * 2 ^ 16 + b * 256 + c) (omega (arith, ab, abc)) h3,
    )

pub get_u16_be-put :
    (mem : List ℕ) (p v : ℕ)
    → v < 2 ^ 16
    → at mem p ≡ v / 256 % 256
    → at mem (p + 1) ≡ v % 256
    → get_u16_be mem p ≡ v
get_u16_be-put mem p v h e0 e1 = omega (arith, get_u16_be-sum mem p (omega arith) (omega arith))

pub get_u32_be-put :
    (mem : List ℕ) (p v : ℕ)
    → v < 2 ^ 32
    → at mem p ≡ v / 2 ^ 24 % 256
    → at mem (p + 1) ≡ v / 2 ^ 16 % 256
    → at mem (p + 2) ≡ v / 2 ^ 8 % 256
    → at mem (p + 3) ≡ v % 256
    → get_u32_be mem p ≡ v
get_u32_be-put mem p v h e0 e1 e2 e3 =
    omega (arith, get_u32_be-sum mem p (omega arith) (omega arith) (omega arith) (omega arith))

-- A number that was put behind `pre` is read back there.
pub get_u32_be-append :
    (pre : List ℕ) (v : ℕ) → v < 2 ^ 32 → get_u32_be (pre ++ u32_be v) (length pre) ≡ v
unfolding u32_be
get_u32_be-append pre v h =
    get_u32_be-put (pre ++ u32_be v) (length pre) v h
      (ap (λ k. get_or (pre ++ u32_be v) k 0) (omega arith) ∙ get_or-append pre (u32_be v) 0 0)
      (get_or-append pre (u32_be v) 1 0) (get_or-append pre (u32_be v) 2 0)
      (get_or-append pre (u32_be v) 3 0)

pub u16_be_bytes : (v : ℕ) → All IsByte (u16_be v)
unfolding u16_be
u16_be_bytes v = omega arith

pub u32_be_bytes : (v : ℕ) → All IsByte (u32_be v)
unfolding u32_be
u32_be_bytes v = omega arith
