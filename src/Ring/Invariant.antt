-- ===== src/Ring/Invariant.antt =====
-- What holds of a ring between two calls: no index leaves the storage, no arithmetic wraps.
use embedded_systems_runtime.Prelude.{
  ℕ, ◌+◌, ◌-◌, ◌*◌, ◌/◌, ◌%◌, ◌^◌, ◌≤◌, ◌<◌, ◌≡◌, ◌≢◌, ap, some, Bool, List, length,
  length-write_at, arith, dec_lt,
}
use native.Mathlib.Nat.{mod-add-mod, mod-eq_of_lt, mod-eq-sub-mod, mod-lt, div-add-mod'}
use embedded_systems_runtime.Ring.{
  Ring, Pthread, slot, size_max, ring_init, drop_oldest, append_item, ring_push, take_item,
  ring_pop,
}

pub record IsValid (rb : Ring) : Type 0 where
  pub holds : rb.capacity * rb.item_size ≡ length rb.storage
  pub addressable : rb.capacity * rb.item_size ≤ size_max
  pub room : 0 < rb.capacity
  pub sized : 0 < rb.item_size
  pub head_in : rb.head < rb.capacity
  pub tail_in : rb.tail < rb.capacity
  pub count_in : rb.count ≤ rb.capacity
  pub head_place : rb.head ≡ (rb.tail + rb.count) % rb.capacity
  pub watermark : rb.count ≤ rb.high_water
  pub watermark_in : rb.high_water ≤ rb.capacity
  pub dropped_in : rb.dropped < 2 ^ 64

-- Steps round the ring add up.
pub mod_step : (t n c : ℕ) → ((t + n) % c + 1) % c ≡ (t + (n + 1)) % c
mod_step t n c = rw mod-add-mod (ap (λ k. k % c) (omega arith))

pub mod_shift : (t n c : ℕ) → ((t + 1) % c + n) % c ≡ (t + (n + 1)) % c
mod_shift t n c = rw mod-add-mod (ap (λ k. k % c) (omega arith))

-- Fewer steps than the capacity do not come back to the start.
pub mod_apart : (t d c : ℕ) → 0 < d → d < c → (t + d) % c ≢ t % c
mod_apart t d c p q e = elim (dec_lt (t % c + d) c) [
  | yes h ↦ omega (arith, mod-add-mod t c d, mod-eq_of_lt h)
  | no h ↦ omega (
    arith,
    mod-add-mod t c d,
    mod-eq-sub-mod {n = t % c + d} {m = c} (omega arith),
    mod-eq_of_lt {n = t % c + d - c} {m = c} (omega (arith, mod-lt t {m = c} (omega arith))),
  )
]

pub drop_oldest-IsValid :
    {rb : Ring} → IsValid rb → rb.count ≡ rb.capacity → IsValid (drop_oldest rb)
unfolding drop_oldest
drop_oldest-IsValid {rb} v e =
    ground
      (arith, mod_shift rb.tail (rb.count - 1) rb.capacity, mod-lt (rb.tail + 1) {m = rb.capacity})

append_item-IsValid :
    {rb : Ring} (item : List ℕ)
    → IsValid rb
    → rb.count < rb.capacity
    → IsValid (append_item rb item)
unfolding append_item
append_item-IsValid {rb} item v h = ground (
  arith,
  length-write_at item rb.storage (slot rb rb.head),
  mod_step rb.tail rb.count rb.capacity,
  mod-lt (rb.head + 1) {m = rb.capacity},
)

mul_fits : (c s m : ℕ) → c ≤ m / s → c * s ≤ m
mul_fits c s m h = grind (arith, div-add-mod' m s)

-- A ring that mlrt_ring_init accepts is valid and empty, if the storage holds capacity * item_size
-- bytes.
pub ring_init-IsValid :
    (sys : Pthread) (storage : List ℕ) (capacity item_size : ℕ) {rb : Ring}
    → capacity * item_size ≡ length storage
    → ring_init sys storage capacity item_size ≡ some rb
    → IsValid rb × (rb.count ≡ 0)
unfolding ring_init
ring_init-IsValid sys storage capacity item_size h e =
    ground (arith, mul_fits capacity item_size size_max)

-- mlrt_ring_push keeps the invariant.
pub ring_push-IsValid :
    {rb : Ring} (item : List ℕ) (overwrite : Bool)
    → IsValid rb
    → IsValid (ring_push rb item overwrite).1
unfolding ring_push
ring_push-IsValid {rb} item overwrite v = ground (
  arith,
  drop_oldest-IsValid v,
  append_item-IsValid {rb = drop_oldest rb} item,
  append_item-IsValid {rb = rb} item,
)

pub take_item-IsValid : {rb : Ring} → IsValid rb → 0 < rb.count → IsValid (take_item rb).1
unfolding take_item
take_item-IsValid {rb} v h =
    ground
      (arith, mod_shift rb.tail (rb.count - 1) rb.capacity, mod-lt (rb.tail + 1) {m = rb.capacity})

-- mlrt_ring_pop keeps the invariant.
pub ring_pop-IsValid : {rb : Ring} → IsValid rb → IsValid (ring_pop rb).1
unfolding ring_pop take_item
ring_pop-IsValid {rb} v = ground (arith, take_item-IsValid v)
