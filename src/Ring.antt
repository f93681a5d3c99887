-- ===== src/Ring.antt =====
-- realtime/ring_buffer.c and include/ring_buffer.h: a bounded queue of fixed-size items over the
-- caller's storage. A function that updates `*rb` returns the new ring beside its result. Each one
-- runs under the lock, so a call is one step. Pointers are to live objects.
pub mod Invariant
pub mod Contents
pub mod Queue
pub mod Wait
mod Examples
use embedded_systems_runtime.Prelude.{
  ℕ, zero, suc, ◌+◌, ◌-◌, ◌*◌, ◌/◌, ◌%◌, ◌^◌, Option, none, some, Bool, true, false, not, ◌||◌,
  ◌&&◌, List, [], ◌∷◌, ◌==◌, ltb, leb, if◌then◌else◌, write_at, bytes_at,
}

-- mlrt_ring_buffer, less its lock and its condition variable. `storage` holds bytes.
pub record Ring : Type 0 where
  pub storage : List ℕ
  pub capacity : ℕ
  pub item_size : ℕ
  pub head : ℕ
  pub tail : ℕ
  pub count : ℕ
  pub high_water : ℕ
  pub dropped : ℕ

abbrev pub size_max : ℕ
size_max = 2 ^ 64 - 1

-- `slot`: where the item at an index begins.
abbrev pub slot : Ring → ℕ → ℕ
slot rb index = index * rb.item_size

-- Which of the pthread initialisations succeed.
pub record Pthread : Type 0 where
  pub mutex_init : Bool
  pub condattr_init : Bool
  pub condattr_setclock : Bool
  pub cond_init : Bool

-- mlrt_ring_init; `none` is -1.
unfoldable pub ring_init : Pthread → List ℕ → ℕ → ℕ → Option Ring
ring_init sys storage capacity item_size =
    if capacity == 0 || item_size == 0 || ltb (size_max / item_size) capacity
    then none
    else (if not sys.mutex_init
        then none
        else (if not sys.condattr_init
            then none
            else (if not (sys.condattr_setclock && sys.cond_init)
                then none
                else some (record {
                  storage = storage;
                  capacity = capacity;
                  item_size = item_size;
                  head = 0;
                  tail = 0;
                  count = 0;
                  high_water = 0;
                  dropped = 0;
                }))))

-- The eviction of the oldest item from a full ring.
unfoldable pub drop_oldest : Ring → Ring
drop_oldest rb = record rb {
  tail = (rb.tail + 1) % rb.capacity;
  count = rb.count - 1;
  dropped = (rb.dropped + 1) % 2 ^ 64;
}

-- The store of an item at the head.
unfoldable pub append_item : Ring → List ℕ → Ring
append_item rb item =
    let count = rb.count + 1 in
    record rb {
      storage = write_at rb.storage (slot rb rb.head) item;
      head = (rb.head + 1) % rb.capacity;
      count = count;
      high_water = if ltb rb.high_water count then count else rb.high_water;
    }

-- mlrt_ring_push: 0, or 1 where the item is refused.
unfoldable pub ring_push : Ring → List ℕ → Bool → ℕ × Ring
unfolding drop_oldest append_item
ring_push rb item overwrite_oldest =
    if rb.count == rb.capacity
    then (if not overwrite_oldest
        then (1, record rb { dropped = (rb.dropped + 1) % 2 ^ 64 })
        else (0, append_item (drop_oldest rb) item))
    else (0, append_item rb item)

-- The copy of the oldest item and its removal, shared by both ways to pop.
unfoldable pub take_item : Ring → List ℕ × Ring
take_item rb = (
  bytes_at rb.storage (slot rb rb.tail) rb.item_size,
  record rb { tail = (rb.tail + 1) % rb.capacity; count = rb.count - 1 },
)

-- mlrt_ring_pop: `none` is the result 1, for an empty ring.
unfoldable pub ring_pop : Ring → Option (List ℕ) × Ring
unfolding take_item
ring_pop rb =
    if rb.count == 0 then (none, rb) else (let (item, rb') = take_item rb in (some item, rb'))

-- mlrt_ring_stats
pub record RingStats : Type 0 where
  pub count : ℕ
  pub capacity : ℕ
  pub high_water : ℕ
  pub dropped : ℕ

-- mlrt_ring_get_stats
abbrev pub ring_get_stats : Ring → RingStats
ring_get_stats rb = record {
  count = rb.count;
  capacity = rb.capacity;
  high_water = rb.high_water;
  dropped = rb.dropped;
}
