-- ===== src/Protocol/Endian/Parts.antt =====
-- A buffer as the numbers that the readers of Protocol/Endian find in it.
use embedded_systems_runtime.Prelude.{
  ℕ, zero, suc, ◌+◌, ◌≤◌, ◌<◌, ◌≡◌, refl, ap, sym, ◌∙◌, List, [], ◌∷◌, ◌++◌, length, take, drop,
  All, IsByte, bytes_at, arith, take-append-drop, drop-drop,
}
use embedded_systems_runtime.Protocol.Endian.{
  at, u16_be, u32_be, get_u16_be, get_u32_be, get_u16_be-sum, get_u32_be-sum,
}

pub take_at :
    (mem : List ℕ) (i n : ℕ)
    → i < length mem
    → bytes_at mem i (suc n) ≡ at mem i ∷ bytes_at mem (suc i) n
take_at [] i n h = absurd (omega arith)
take_at (x ∷ mem) zero n h = refl
take_at (x ∷ mem) (suc i) n h = take_at mem i n (omega arith)

pub at_byte : (mem : List ℕ) (i : ℕ) → All IsByte mem → at mem i < 256
at_byte [] i h = omega arith
at_byte (x ∷ mem) zero h = h.0
at_byte (x ∷ mem) (suc i) h = at_byte mem i h.1

pub take_split : (xs : List ℕ) (n m k : ℕ) → k ≡ n + m → take k xs ≡ take n xs ++ take m (drop n xs)
take_split xs zero m k e = ap (λ t. take t xs) (omega arith)
take_split [] (suc n) zero zero e = refl
take_split [] (suc n) zero (suc k) e = refl
take_split [] (suc n) (suc m) zero e = refl
take_split [] (suc n) (suc m) (suc k) e = refl
take_split (x ∷ xs) (suc n) m zero e = absurd (omega arith)
take_split (x ∷ xs) (suc n) m (suc k) e = ap (λ l. x ∷ l) (take_split xs n m k (omega arith))

four_bytes :
    (mem : List ℕ) (p : ℕ)
    → p + 4 ≤ length mem
    → bytes_at mem p 4 ≡ at mem p ∷ at mem (p + 1) ∷ at mem (p + 2) ∷ at mem (p + 3) ∷ []
four_bytes mem p h =
    next p (p + 1) 3 (omega arith) (omega arith)
    ∙ ap (λ l. at mem p ∷ l)
        (next (p + 1) (p + 2) 2 (omega arith) (omega arith)
          ∙ ap (λ l. at mem (p + 1) ∷ l)
              (next (p + 2) (p + 3) 1 (omega arith) (omega arith)
                ∙ ap (λ l. at mem (p + 2) ∷ l) (take_at mem (p + 3) 0 (omega arith))))
  where
    next :
        (i j n : ℕ)
        → i < length mem
        → j ≡ suc i
        → bytes_at mem i (suc n) ≡ at mem i ∷ bytes_at mem j n
    next i j n hi e = rw e (take_at mem i n hi)

-- Four bytes that were read as a number are the bytes of that number.
pub u32_be-get :
    (mem : List ℕ) (p : ℕ)
    → p + 4 ≤ length mem
    → All IsByte mem
    → u32_be (get_u32_be mem p) ≡ bytes_at mem p 4
unfolding u32_be
u32_be-get mem p h b = ground (
  arith,
  four_bytes mem p h,
  at_byte mem p b,
  at_byte mem (p + 1) b,
  at_byte mem (p + 2) b,
  at_byte mem (p + 3) b,
  get_u32_be-sum mem p,
)

two_bytes :
    (mem : List ℕ) (p : ℕ) → p + 2 ≤ length mem → bytes_at mem p 2 ≡ at mem p ∷ at mem (p + 1) ∷ []
two_bytes mem p h =
    take_at mem p 1 (omega arith) ∙ ap (λ l. at mem p ∷ l) (next (p + 1) (omega arith))
  where
    next : (j : ℕ) → j ≡ suc p → bytes_at mem (suc p) 1 ≡ at mem j ∷ []
    next j e = rw e (take_at mem (suc p) 0 (omega arith))

u16_be-get :
    (mem : List ℕ) (p : ℕ)
    → p + 2 ≤ length mem
    → All IsByte mem
    → u16_be (get_u16_be mem p) ≡ bytes_at mem p 2
unfolding u16_be
u16_be-get mem p h b =
    ground (arith, two_bytes mem p h, at_byte mem p b, at_byte mem (p + 1) b, get_u16_be-sum mem p)

-- What is left of a buffer from `p` on starts with the number that is read there.
module _ (mem : List ℕ) (p q : ℕ) where
  rest_at : (n : ℕ) → q ≡ p + n → drop p mem ≡ bytes_at mem p n ++ drop q mem
  rest_at n e =
      sym (take-append-drop n (drop p mem))
      ∙ ap (λ l. bytes_at mem p n ++ l) (drop-drop p n q mem e)

  pub u32_be-rest :
      q ≡ p + 4
      → q ≤ length mem
      → All IsByte mem
      → drop p mem ≡ u32_be (get_u32_be mem p) ++ drop q mem
  u32_be-rest e h b =
      rest_at 4 e ∙ ap (λ l. l ++ drop q mem) (sym (u32_be-get mem p (omega arith) b))

  pub u16_be-rest :
      q ≡ p + 2
      → q ≤ length mem
      → All IsByte mem
      → drop p mem ≡ u16_be (get_u16_be mem p) ++ drop q mem
  u16_be-rest e h b =
      rest_at 2 e ∙ ap (λ l. l ++ drop q mem) (sym (u16_be-get mem p (omega arith) b))

  pub at-rest : q ≡ p + 1 → q ≤ length mem → drop p mem ≡ at mem p ∷ drop q mem
  at-rest e h = rest_at 1 e ∙ ap (λ l. l ++ drop q mem) (take_at mem p 0 (omega arith))
