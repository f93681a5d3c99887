-- ===== src/Prelude/Bits.antt =====
-- Laws of `|` and `^` at variables, at every width, from the digit recursion that the native
-- operations stand for.
use Prim.Native.Nat.{
  ℕ, zero, suc, ◌+◌, ◌*◌, ◌/◌, ◌%◌, ◌^◌, ◌≤◌, ◌<◌, min, max, bit_and, bit_or, bit_xor, bitwise,
  digits, differ, bit_and-bitwise, bit_or-bitwise, bit_xor-bitwise,
}
use mathlib.Core.Path.{◌≡◌, refl, ap, sym, ◌∙◌}
use native.Mathlib.Nat.{pow-suc}
use native.Mathlib.Omega.{arith}

-- Any two amounts of fuel that are enough give one result.
module _ (side : ℕ → ℕ) (op : ℕ → ℕ → ℕ) where
  digits_enough : (k l x y : ℕ) → x ≤ k → x ≤ l → digits side op k x y ≡ digits side op l x y
  digits_enough zero l (suc x) y hk hl = absurd (omega arith)
  digits_enough (suc k) zero (suc x) y hk hl = absurd (omega arith)
  digits_enough (suc k) (suc l) (suc x) y hk hl =
      rw (digits_enough k l (suc x / 2) (y / 2) (omega arith) (omega arith))
  digits_enough zero zero zero y hk hl = refl
  digits_enough zero (suc l) zero y hk hl = refl
  digits_enough (suc k) zero zero y hk hl = refl
  digits_enough (suc k) (suc l) zero y hk hl = refl

  -- The lowest digit, and the rest on half the fuel.
  bitwise_step :
      (x y : ℕ)
      → bitwise side op (suc x) y ≡ bitwise side op (suc x / 2) (y / 2) * 2 + op (suc x % 2) (y % 2)
  bitwise_step x y =
      let half = suc x / 2 in
      omega (arith, digits_enough x half half (y / 2) (omega arith) (omega arith))

-- The lowest bit of `u | v`, and the rest.
bit_or_step : (u v : ℕ) → bit_or u v ≡ max (u % 2) (v % 2) + bit_or (u / 2) (v / 2) * 2
bit_or_step zero v = simp bit_or-bitwise (omega arith)
bit_or_step (suc u) v = simp bit_or-bitwise (omega (arith, bitwise_step (λ rest. rest) max u v))

-- On bits, the library's digit operation of `^` is the sum modulo 2.
differ_bit : (x y : ℕ) → x < 2 → y < 2 → differ x y ≡ (x + y) % 2
differ_bit zero y p q = omega arith
differ_bit (suc zero) zero p q = refl
differ_bit (suc zero) (suc zero) p q = refl
differ_bit (suc zero) (suc (suc y)) p q = absurd (omega arith)
differ_bit (suc (suc x)) y p q = absurd (omega arith)

bit_xor_digit : (a b : ℕ) → bit_xor a b ≡ bit_xor (a / 2) (b / 2) * 2 + differ (a % 2) (b % 2)
bit_xor_digit zero b = simp bit_xor-bitwise (omega arith)
bit_xor_digit (suc a) b = simp bit_xor-bitwise (bitwise_step (λ y. y) differ a b)

-- The lowest bit of `a ^ b`, and the rest.
pub bit_xor_step : (a b : ℕ) → bit_xor a b ≡ bit_xor (a / 2) (b / 2) * 2 + (a + b) % 2
bit_xor_step a b =
    omega (arith, bit_xor_digit a b, differ_bit (a % 2) (b % 2) (omega arith) (omega arith))

bit_or_zero_below : (n a : ℕ) → a ≤ n → bit_or a 0 ≡ a
bit_or_zero_below n zero h = refl
bit_or_zero_below zero (suc a) h = absurd (omega arith)
bit_or_zero_below (suc n) (suc a) h =
    omega (arith, bit_or_step (suc a) 0, bit_or_zero_below n (suc a / 2) (omega arith))

-- `(q << k) | r` is a sum where `r` fits below bit `k`.
pub bit_or-shifted : (k q r : ℕ) → r < 2 ^ k → bit_or (q * 2 ^ k) r ≡ q * 2 ^ k + r
bit_or-shifted zero q r h = ground (arith, bit_or_zero_below q q)
bit_or-shifted (suc k) q r h = omega (
  arith,
  pow-suc 2 k,
  ap (λ (t : ℕ). q * t) (pow-suc 2 k),
  bit_or_step (q * 2 ^ suc k) r,
  half,
  bit_or-shifted k q (r / 2) (omega (arith, pow-suc 2 k)),
)
  where
    half : bit_or (q * 2 ^ suc k / 2) (r / 2) ≡ bit_or (q * 2 ^ k) (r / 2)
    half = ap (λ t. bit_or t (r / 2)) (omega (arith, ap (λ (t : ℕ). q * t) (pow-suc 2 k)))

bit_xor_comm_below : (n a b : ℕ) → a ≤ n → b ≤ n → bit_xor a b ≡ bit_xor b a
bit_xor_comm_below zero zero zero p q = refl
bit_xor_comm_below zero zero (suc b) p q = absurd (omega arith)
bit_xor_comm_below zero (suc a) b p q = absurd (omega arith)
bit_xor_comm_below (suc n) a b p q = omega (
  arith,
  bit_xor_step a b,
  bit_xor_step b a,
  bit_xor_comm_below n (a / 2) (b / 2) (omega arith) (omega arith),
)

pub bit_xor_comm : (a b : ℕ) → bit_xor a b ≡ bit_xor b a
bit_xor_comm a b = bit_xor_comm_below (a + b) a b (omega arith) (omega arith)

bit_xor_cancel_below : (n a b : ℕ) → a ≤ n → b ≤ n → bit_xor (bit_xor a b) b ≡ a
bit_xor_cancel_below zero zero zero p q = refl
bit_xor_cancel_below zero zero (suc b) p q = absurd (omega arith)
bit_xor_cancel_below zero (suc a) b p q = absurd (omega arith)
bit_xor_cancel_below (suc n) a b p q = omega (
  arith,
  bit_xor_step a b,
  bit_xor_step (bit_xor a b) b,
  ap (λ (t : ℕ). bit_xor t (b / 2)) half,
  bit_xor_cancel_below n (a / 2) (b / 2) (omega arith) (omega arith),
)
  where
    half : bit_xor a b / 2 ≡ bit_xor (a / 2) (b / 2)
    half = omega (arith, bit_xor_step a b)

-- `^` by the same mask twice gives the value back.
pub bit_xor-bit_xor : (a b : ℕ) → bit_xor (bit_xor a b) b ≡ a
bit_xor-bit_xor a b = bit_xor_cancel_below (a + b) a b (omega arith) (omega arith)

pub bit_xor-right_injective : (a b c : ℕ) → bit_xor a c ≡ bit_xor b c → a ≡ b
bit_xor-right_injective a b c h =
    sym (bit_xor-bit_xor a c) ∙ ap (λ t. bit_xor t c) h ∙ bit_xor-bit_xor b c

pub bit_xor-left_injective : (a b c : ℕ) → bit_xor c a ≡ bit_xor c b → a ≡ b
bit_xor-left_injective a b c h =
    bit_xor-right_injective a b c (bit_xor_comm a c ∙ h ∙ bit_xor_comm c b)

-- `^` stays within the width of its operands.
pub bit_xor-lt : (k a b : ℕ) → a < 2 ^ k → b < 2 ^ k → bit_xor a b < 2 ^ k
bit_xor-lt zero zero zero p q = omega arith
bit_xor-lt zero zero (suc b) p q = absurd (omega arith)
bit_xor-lt zero (suc a) b p q = absurd (omega arith)
bit_xor-lt (suc k) a b p q = omega (
  arith,
  pow-suc 2 k,
  bit_xor_step a b,
  bit_xor-lt k (a / 2) (b / 2) (omega (arith, pow-suc 2 k)) (omega (arith, pow-suc 2 k)),
)

-- A value without bit `k`, combined with one whose highest bit is `k`, has bit `k`.
pub bit_xor_top : (k a b : ℕ) → a < 2 ^ k → 2 ^ k ≤ b → b < 2 ^ suc k → 2 ^ k ≤ bit_xor a b
bit_xor_top zero zero zero p q r = absurd (omega arith)
bit_xor_top zero zero (suc zero) p q r = omega arith
bit_xor_top zero zero (suc (suc b)) p q r = absurd (omega arith)
bit_xor_top zero (suc a) b p q r = absurd (omega arith)
bit_xor_top (suc k) a b p q r = omega (
  arith,
  pow-suc 2 k,
  bit_xor_step a b,
  bit_xor_top k (a / 2) (b / 2) (omega (arith, pow-suc 2 k)) (omega (arith, pow-suc 2 k))
      (omega (arith, pow-suc 2 k, pow-suc 2 (suc k))),
)

bit_and_step : (u v : ℕ) → bit_and u v ≡ min (u % 2) (v % 2) + bit_and (u / 2) (v / 2) * 2
bit_and_step zero v = simp bit_and-bitwise (omega arith)
bit_and_step (suc u) v = simp bit_and-bitwise (omega (arith, bitwise_step (λ rest. 0) min u v))

bit_and_zero_below : (n a : ℕ) → a ≤ n → bit_and a 0 ≡ 0
bit_and_zero_below n zero h = refl
bit_and_zero_below zero (suc a) h = absurd (omega arith)
bit_and_zero_below (suc n) (suc a) h =
    omega (arith, bit_and_step (suc a) 0, bit_and_zero_below n (suc a / 2) (omega arith))

-- `a & 1` is the lowest bit.
pub bit_and-one : (a : ℕ) → bit_and a 1 ≡ a % 2
bit_and-one a = omega (arith, bit_and_step a 1, bit_and_zero_below (a / 2) (a / 2) (omega arith))

-- The same for values that are known to fit such fields.
pub bit_or-disjoint : (k x y q : ℕ) → x ≡ q * 2 ^ k → y < 2 ^ k → bit_or x y ≡ x + y
bit_or-disjoint k x y q e h = rw e (bit_or-shifted k q y h)

bit_xor_zero_below : (n a : ℕ) → a ≤ n → bit_xor a 0 ≡ a
bit_xor_zero_below n zero h = refl
bit_xor_zero_below zero (suc a) h = absurd (omega arith)
bit_xor_zero_below (suc n) (suc a) h =
    omega (arith, bit_xor_step (suc a) 0, bit_xor_zero_below n (suc a / 2) (omega arith))

pub bit_xor-zero : (a : ℕ) → bit_xor a 0 ≡ a
bit_xor-zero a = bit_xor_zero_below a a (omega arith)

bit_or_comm_below : (n a b : ℕ) → a ≤ n → b ≤ n → bit_or a b ≡ bit_or b a
bit_or_comm_below zero zero zero p q = refl
bit_or_comm_below zero zero (suc b) p q = absurd (omega arith)
bit_or_comm_below zero (suc a) b p q = absurd (omega arith)
bit_or_comm_below (suc n) a b p q = omega (
  arith,
  bit_or_step a b,
  bit_or_step b a,
  bit_or_comm_below n (a / 2) (b / 2) (omega arith) (omega arith),
)

pub bit_or_comm : (a b : ℕ) → bit_or a b ≡ bit_or b a
bit_or_comm a b = bit_or_comm_below (a + b) a b (omega arith) (omega arith)

bit_and_none_below : (n b : ℕ) → b ≤ n → bit_and 0 b ≡ 0
bit_and_none_below n zero h = refl
bit_and_none_below zero (suc b) h = absurd (omega arith)
bit_and_none_below (suc n) (suc b) h =
    omega (arith, bit_and_step 0 (suc b), bit_and_none_below n (suc b / 2) (omega arith))

bit_and-le_below : (n a b : ℕ) → a ≤ n → bit_and a b ≤ a
bit_and-le_below n zero b h = omega (arith, bit_and_none_below b b (omega arith))
bit_and-le_below zero (suc a) b h = absurd (omega arith)
bit_and-le_below (suc n) (suc a) b h =
    omega (arith, bit_and_step (suc a) b, bit_and-le_below n (suc a / 2) (b / 2) (omega arith))

-- The bits that a mask leaves make no larger number.
pub bit_and-le : (a b : ℕ) → bit_and a b ≤ a
bit_and-le a b = bit_and-le_below a a b (omega arith)
