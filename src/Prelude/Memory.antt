-- ===== src/Prelude/Memory.antt =====
-- Byte buffers as lists: a write of consecutive bytes, and a read of them.
use Prim.Native.Nat.{ℕ, zero, suc, ◌+◌, ◌≤◌, ◌<◌}
use mathlib.Core.Path.{◌≡◌, refl, ap, sym, ◌∙◌}
use mathlib.Core.Logic.{◌⊎◌}
use mathlib.Core.List.{List, [], ◌∷◌, ◌++◌, append_assoc}
use native.Mathlib.Omega.{arith}
use embedded_systems_runtime.Prelude.Lists.{
  All, replicate, length, set, take, drop, length-set, length-append, set-append, length-take,
  length-drop, take-append, drop-append, take-append-drop,
}

abbrev pub IsByte : ℕ → Type 0
IsByte b = b < 256

-- memcpy(mem + i, bs, length bs)
abbrev pub write_at : List ℕ → ℕ → List ℕ → List ℕ
write_at mem i [] = mem
write_at mem i (b ∷ bs) = write_at (set mem i b) (suc i) bs

-- The `n` bytes at mem + i.
abbrev pub bytes_at : List ℕ → ℕ → ℕ → List ℕ
bytes_at mem i n = take n (drop i mem)

pub length-write_at : (bs mem : List ℕ) (i : ℕ) → length (write_at mem i bs) ≡ length mem
length-write_at [] mem i = refl
length-write_at (b ∷ bs) mem i = length-write_at bs (set mem i b) (suc i) ∙ length-set mem i b

set-append_first :
    (pre rest : List ℕ) (j b : ℕ) → set (pre ++ j ∷ rest) (length pre) b ≡ pre ++ b ∷ rest
set-append_first pre rest j b =
    ap (λ k. set (pre ++ j ∷ rest) k b) (omega arith) ∙ set-append pre (j ∷ rest) 0 b

-- A write just behind a prefix that is already in place extends the prefix.
pub write_at-append :
    (bs pre rest : List ℕ)
    → length bs ≤ length rest
    → write_at (pre ++ rest) (length pre) bs ≡ pre ++ (bs ++ drop (length bs) rest)
write_at-append [] pre rest h = refl
write_at-append (b ∷ bs) pre [] h = absurd (omega arith)
write_at-append (b ∷ bs) pre (j ∷ rest) h =
    ap (λ m. write_at m (suc (length pre)) bs) (set-append_first pre rest j b ∙ regroup)
    ∙ ap (λ i. write_at ((pre ++ (b ∷ [])) ++ rest) i bs)
        (omega (arith, length-append pre (b ∷ [])))
    ∙ write_at-append bs (pre ++ (b ∷ [])) rest (omega arith)
    ∙ append_assoc pre (b ∷ []) (bs ++ drop (length bs) rest)
  where
    regroup : pre ++ b ∷ rest ≡ (pre ++ (b ∷ [])) ++ rest
    regroup = rw append_assoc refl

-- A write is read back where it was made, and is not seen elsewhere.
pub bytes_at-write_self :
    (mem : List ℕ) (i : ℕ) (bs : List ℕ)
    → i + length bs ≤ length mem
    → bytes_at (write_at mem i bs) i (length bs) ≡ bs
bytes_at-write_self mem i bs h =
    ap (λ m. bytes_at (write_at m i bs) i (length bs)) (sym (take-append-drop i mem))
    ∙ ap (λ k. bytes_at (write_at (take i mem ++ drop i mem) k bs) k (length bs)) (sym front)
    ∙ ap (λ m. bytes_at m (length (take i mem)) (length bs))
        (write_at-append bs (take i mem) (drop i mem) (omega (arith, length-drop i mem)))
    ∙ ap (take (length bs)) (drop-append (take i mem) (bs ++ drop (length bs) (drop i mem)))
    ∙ take-append bs (drop (length bs) (drop i mem))
  where
    front : length (take i mem) ≡ i
    front = length-take i mem (omega arith)

bytes_at-set_apart :
    (mem : List ℕ) (i j n b : ℕ)
    → (i < j) ⊎ (j + n ≤ i)
    → bytes_at (set mem i b) j n ≡ bytes_at mem j n
bytes_at-set_apart [] i j n b h = refl
bytes_at-set_apart (x ∷ mem) zero zero zero b h = refl
bytes_at-set_apart (x ∷ mem) zero zero (suc n) b h = absurd (omega arith)
bytes_at-set_apart (x ∷ mem) (suc i) zero zero b h = refl
bytes_at-set_apart (x ∷ mem) (suc i) zero (suc n) b h =
    ap (λ l. x ∷ l) (bytes_at-set_apart mem i 0 n b (omega arith))
bytes_at-set_apart (x ∷ mem) zero (suc j) n b h = refl
bytes_at-set_apart (x ∷ mem) (suc i) (suc j) n b h = bytes_at-set_apart mem i j n b (omega arith)

pub bytes_at-write_apart :
    (bs mem : List ℕ) (i j n : ℕ)
    → (i + length bs ≤ j) ⊎ (j + n ≤ i)
    → bytes_at (write_at mem i bs) j n ≡ bytes_at mem j n
bytes_at-write_apart [] mem i j n h = refl
bytes_at-write_apart (b ∷ bs) mem i j n h =
    bytes_at-write_apart bs (set mem i b) (suc i) j n (omega arith)
    ∙ bytes_at-set_apart mem i j n b (omega arith)

-- Bytes written into bytes leave bytes.
pub All-set : (mem : List ℕ) (i b : ℕ) → All IsByte mem → IsByte b → All IsByte (set mem i b)
All-set [] i b h hb = tt
All-set (x ∷ mem) zero b h hb = (hb, h.1)
All-set (x ∷ mem) (suc i) b h hb = (h.0, All-set mem i b h.1 hb)

pub All-write_at :
    (bs mem : List ℕ) (i : ℕ) → All IsByte mem → All IsByte bs → All IsByte (write_at mem i bs)
All-write_at [] mem i h hb = h
All-write_at (b ∷ bs) mem i h hb =
    All-write_at bs (set mem i b) (suc i) (All-set mem i b h hb.0) hb.1

pub All-replicate : (n b : ℕ) → IsByte b → All IsByte (replicate n b)
All-replicate zero b h = tt
All-replicate (suc n) b h = (h, All-replicate n b h)
