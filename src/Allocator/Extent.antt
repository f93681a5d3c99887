-- ===== src/Allocator/Extent.antt =====
-- The blocks of allocator/allocator.c cover the same bytes before and after every call.
use embedded_systems_runtime.Prelude.{
  ℕ, ◌+◌, ◌-◌, ◌%◌, ◌^◌, ◌≤◌, ◌<◌, ◌≡◌, ◌⊎◌, refl, Option, none, some, true, List, [], ◌∷◌, arith,
}
use embedded_systems_runtime.Allocator.{
  Block, Heap, coalesce_first, free_block, my_free, take_block, aligned_size, round_up,
}

-- The bytes of the blocks, with their headers.
abbrev pub extent : List Block → ℕ
extent [] = 0
extent (b ∷ bs) = 48 + b.size + extent bs

extent-coalesce_first : (bs : List Block) → extent (coalesce_first bs) ≡ extent bs
unfolding coalesce_first
extent-coalesce_first [] = refl
extent-coalesce_first (b ∷ []) = refl
extent-coalesce_first (b ∷ next ∷ bs) = ground arith

extent-free_block : (address : ℕ) (bs : List Block) → extent (free_block address bs) ≡ extent bs
unfolding free_block
extent-free_block address [] = refl
extent-free_block address (b ∷ bs) = ground (
  arith,
  extent-coalesce_first (record b { is_free = true } ∷ bs),
  extent-coalesce_first (b ∷ free_block address bs),
  extent-free_block address bs,
)

-- my_free of any pointer keeps the number of bytes that the blocks and their headers cover: what is
-- freed or merged is neither lost nor counted twice.
pub extent-my_free :
    (ptr : Option ℕ) (heap : Heap) → extent (my_free ptr heap).blocks ≡ extent heap.blocks
unfolding my_free
extent-my_free none heap = refl
extent-my_free (some ptr) heap = extent-free_block (ptr - 48) heap.blocks

-- Splitting keeps it too.
pub extent-take_block :
    (address size : ℕ) (bs : List Block)
    → size < 2 ^ 63
    → extent (take_block address size bs) ≡ extent bs
unfolding take_block
extent-take_block address size [] h = refl
extent-take_block address size (b ∷ bs) h = ground (arith, extent-take_block address size bs h)

-- aligned_size of a size up to 2^64 - 16 is the least multiple of 16 that is no smaller; of a larger
-- size_t it wraps to 0, so that my_malloc of such a size looks for a block of 0 bytes.
pub aligned_size_lem :
    (n : ℕ)
    → n < 2 ^ 64
    → ((n ≤ 2 ^ 64 - 16)
        × (aligned_size n % 16 ≡ 0)
        × (n ≤ aligned_size n)
        × (aligned_size n < n + 16))
      ⊎ ((2 ^ 64 - 16 < n) × (aligned_size n ≡ 0))
unfolding aligned_size round_up
aligned_size_lem n h = ground arith
