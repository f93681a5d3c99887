-- ===== src/Allocator.antt =====
-- allocator/allocator.c and mlrt_round_up of common/common.c. The list of blocks is a list in the
-- order of the links; a pointer to a block is its address.
pub mod Extent
mod Examples
use embedded_systems_runtime.Prelude.{
  ℕ, ◌+◌, ◌-◌, ◌%◌, ◌^◌, Option, none, some, Bool, true, false, not, ◌||◌, ◌&&◌, List, [], ◌∷◌,
  ◌==◌, ltb, if◌then◌else◌,
}

abbrev pub size_t : ℕ → ℕ
size_t n = n % 2 ^ 64

unfoldable pub round_up : ℕ → ℕ → ℕ
round_up value alignment =
    if alignment == 0
    then value
    else (if value % alignment == 0
        then value
        else size_t (value + (alignment - value % alignment)))

unfoldable pub aligned_size : ℕ → ℕ
unfolding round_up
aligned_size n = round_up n 16

-- aligned_size(sizeof(BlockHeader)), where the header has 40 bytes.
abbrev pub header_bytes : ℕ
header_bytes = 48

pub record Block : Type 0 where
  pub address : ℕ
  pub size : ℕ
  pub is_free : Bool

pub record Heap : Type 0 where
  pub blocks : List Block
  pub mapped_bytes : ℕ

-- From the node after the one that the loop stands at.
unfoldable pub insert_after : Block → List Block → List Block
insert_after block [] = block ∷ []
insert_after block (b ∷ bs) =
    if ltb b.address block.address then b ∷ insert_after block bs else block ∷ b ∷ bs

unfoldable pub insert_sorted : Block → List Block → List Block
unfolding insert_after
insert_sorted block [] = block ∷ []
insert_sorted block (b ∷ bs) =
    if ltb block.address b.address then block ∷ b ∷ bs else b ∷ insert_after block bs

-- `page` is the size of a page, and `mem` what mmap returned.
unfoldable pub map_arena : ℕ → Option ℕ → ℕ → Heap → Option (Block × Heap)
unfolding round_up insert_sorted
map_arena page none minimum_payload heap = none
map_arena page (some mem) minimum_payload heap =
    let total = size_t (header_bytes + minimum_payload) in
    let total = round_up (if ltb total 65536 then 65536 else total) page in
    let block : Block = record {
      address = mem;
      size = size_t (total + 2 ^ 64 - header_bytes);
      is_free = true;
    } in
    some (
      block,
      record {
        blocks = insert_sorted block heap.blocks;
        mapped_bytes = size_t (heap.mapped_bytes + total);
      },
    )

unfoldable pub find_fit : ℕ → List Block → Option Block
find_fit size [] = none
find_fit size (b ∷ bs) = if b.is_free && not (ltb b.size size) then some b else find_fit size bs

-- split_block at the block of an address, and the store of free = 0 that follows it.
unfoldable pub take_block : ℕ → ℕ → List Block → List Block
take_block address size [] = []
take_block address size (b ∷ bs) =
    if b.address == address
    then (if ltb b.size (size_t (size + header_bytes + 16))
        then record b { is_free = false } ∷ bs
        else record b { size = size; is_free = false }
          ∷ record {
            address = b.address + header_bytes + size;
            size = b.size - size - header_bytes;
            is_free = true;
          }
          ∷ bs)
    else b ∷ take_block address size bs

unfoldable pub adjacent : Block → Block → Bool
adjacent a b = a.address + header_bytes + a.size == b.address

-- coalesce_with_next of the first block.
unfoldable pub coalesce_first : List Block → List Block
unfolding adjacent
coalesce_first [] = []
coalesce_first (b ∷ []) = b ∷ []
coalesce_first (b ∷ next ∷ bs) =
    if next.is_free && adjacent b next
    then record b { size = b.size + (header_bytes + next.size) } ∷ bs
    else b ∷ next ∷ bs

unfoldable pub starts_at : ℕ → List Block → Bool
starts_at address [] = false
starts_at address (b ∷ bs) = b.address == address

-- The block `b` is freed and merged with the next one, then the block before it, if free and
-- adjacent, with the result.
unfoldable pub free_block : ℕ → List Block → List Block
unfolding coalesce_first starts_at
free_block address [] = []
free_block address (b ∷ bs) =
    let rest : List Block = free_block address bs in
    if b.address == address
    then coalesce_first (record b { is_free = true } ∷ bs)
    else (if b.is_free && starts_at address bs then coalesce_first (b ∷ rest) else b ∷ rest)

-- The block that is given: the first that fits, or a new arena.
unfoldable pub choose : ℕ → Option ℕ → ℕ → Heap → Option Block → Option (Block × Heap)
unfolding map_arena
choose page mem size heap none = map_arena page mem size heap
choose page mem size heap (some block) = some (block, heap)

unfoldable pub give : ℕ → Heap → Option (Block × Heap) → Option ℕ × Heap
unfolding take_block
give size old none = (none, old)
give size old (some (block, heap)) = (
  some (block.address + header_bytes),
  record heap { blocks = take_block block.address size heap.blocks },
)

-- The pointer, and the heap afterwards.
unfoldable pub my_malloc : ℕ → Option ℕ → ℕ → Heap → Option ℕ × Heap
unfolding aligned_size find_fit choose give
my_malloc page mem size heap =
    if size == 0
    then (none, heap)
    else give (aligned_size size) heap
        (choose page mem (aligned_size size) heap (find_fit (aligned_size size) heap.blocks))

-- A pointer that is none of a block is taken to have another magic number before it.
unfoldable pub my_free : Option ℕ → Heap → Heap
unfolding free_block
my_free none heap = heap
my_free (some ptr) heap = record heap { blocks = free_block (ptr - header_bytes) heap.blocks }

pub record MyAllocatorStats : Type 0 where
  pub mapped_bytes : ℕ
  pub allocated_bytes : ℕ
  pub free_bytes : ℕ
  pub allocated_blocks : ℕ
  pub free_blocks : ℕ

unfoldable pub count_blocks : List Block → MyAllocatorStats → MyAllocatorStats
count_blocks [] stats = stats
count_blocks (b ∷ bs) stats = count_blocks bs (
    if b.is_free
    then record stats {
      free_blocks = size_t (stats.free_blocks + 1);
      free_bytes = size_t (stats.free_bytes + b.size);
    }
    else record stats {
      allocated_blocks = size_t (stats.allocated_blocks + 1);
      allocated_bytes = size_t (stats.allocated_bytes + b.size);
    })

unfoldable pub my_allocator_get_stats : Heap → MyAllocatorStats
unfolding count_blocks
my_allocator_get_stats heap = count_blocks heap.blocks (record {
  mapped_bytes = heap.mapped_bytes;
  allocated_bytes = 0;
  free_bytes = 0;
  allocated_blocks = 0;
  free_blocks = 0;
})
