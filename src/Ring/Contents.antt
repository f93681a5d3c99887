-- ===== src/Ring/Contents.antt =====
-- The queue that a ring holds, and each operation against that queue.
use embedded_systems_runtime.Prelude.{
  ℕ, zero, suc, ◌+◌, ◌-◌, ◌*◌, ◌%◌, ◌≤◌, ◌<◌, ◌≡◌, ◌≢◌, ◌⊎◌, inl, inr, refl, ap, ap₂, sym, ◌∙◌,
  List, [], ◌∷◌, ◌++◌, length, arith, dec_lt, write_at, bytes_at, bytes_at-write_self,
  bytes_at-write_apart,
}
use native.Mathlib.Nat.{mod-eq_of_lt}
use embedded_systems_runtime.Ring.{Ring, slot, append_item}
use embedded_systems_runtime.Ring.Invariant.{IsValid, mod_shift, mod_apart}

-- The item in the k-th place behind the oldest.
abbrev pub item_at : Ring → ℕ → List ℕ
item_at rb k = bytes_at rb.storage (slot rb ((rb.tail + k) % rb.capacity)) rb.item_size

-- The `n` items from place `k` on.
abbrev pub items_from : Ring → ℕ → ℕ → List (List ℕ)
items_from rb k zero = []
items_from rb k (suc n) = item_at rb k ∷ items_from rb (suc k) n

-- The items that wait in the ring, oldest first.
unfoldable pub contents : Ring → List (List ℕ)
contents rb = items_from rb 0 rb.count

pub length-contents : (rb : Ring) → length (contents rb) ≡ rb.count
unfolding contents
length-contents rb = length-items_from 0 rb.count
  where
    length-items_from : (k n : ℕ) → length (items_from rb k n) ≡ n
    length-items_from k zero = refl
    length-items_from k (suc n) = ap suc (length-items_from (suc k) n)

place_before : (a b s : ℕ) → a < b → a * s + s ≤ b * s
place_before a b s h = grind arith

places_apart : (a b s : ℕ) → a ≢ b → (a * s + s ≤ b * s) ⊎ (b * s + s ≤ a * s)
places_apart a b s h = elim (dec_lt a b) [
  | yes p ↦ inl (place_before a b s p)
  | no p ↦ inr (place_before b a s (omega arith))
]

module _ {rb : Ring} (v : IsValid rb) where
  slot_fits : (i : ℕ) → i < rb.capacity → slot rb i + rb.item_size ≤ length rb.storage
  slot_fits i h = omega (arith, place_before i rb.capacity rb.item_size h)

  -- The head is not the place of any item that waits.
  head_apart :
      (k : ℕ) → k < rb.count → rb.count < rb.capacity → rb.head ≢ (rb.tail + k) % rb.capacity
  head_apart k h room e =
      mod_apart (rb.tail + k) (rb.count - k) rb.capacity (omega arith) (omega arith)
        (ap (λ t. t % rb.capacity) (omega arith) ∙ sym v.head_place ∙ e)

  -- Storing an item behind the last leaves the others where they are, and makes it the last.
  append_item-old :
      (item : List ℕ) (k : ℕ)
      → length item ≡ rb.item_size
      → rb.count < rb.capacity
      → k < rb.count
      → item_at (append_item rb item) k ≡ item_at rb k
  unfolding append_item
  append_item-old item k size room h =
      bytes_at-write_apart item rb.storage (slot rb rb.head) (slot rb ((rb.tail + k) % rb.capacity))
        rb.item_size
        (rw size
          (places_apart rb.head ((rb.tail + k) % rb.capacity) rb.item_size (head_apart k h room)))

  append_item-new :
      (item : List ℕ) → length item ≡ rb.item_size → item_at (append_item rb item) rb.count ≡ item
  unfolding append_item
  append_item-new item size =
      let mem = write_at rb.storage (slot rb rb.head) item in
      ap (λ t. bytes_at mem (slot rb t) rb.item_size) (sym v.head_place)
      ∙ ap (bytes_at mem (slot rb rb.head)) (sym size)
      ∙ bytes_at-write_self rb.storage (slot rb rb.head) item
          (rw size (slot_fits rb.head v.head_in))

  items_from-append :
      (item : List ℕ) (k n : ℕ)
      → length item ≡ rb.item_size
      → rb.count < rb.capacity
      → k + n ≡ rb.count
      → items_from (append_item rb item) k (suc n) ≡ items_from rb k n ++ (item ∷ [])
  items_from-append item k zero size room e =
      ap (λ l. l ∷ [])
        (ap (item_at (append_item rb item)) (omega arith) ∙ append_item-new item size)
  items_from-append item k (suc n) size room e =
      ap₂ ◌∷◌ (append_item-old item k size room (omega arith))
        (items_from-append item (suc k) n size room (omega arith))

  pub contents-append_item :
      (item : List ℕ)
      → length item ≡ rb.item_size
      → rb.count < rb.capacity
      → contents (append_item rb item) ≡ contents rb ++ (item ∷ [])
  unfolding contents append_item
  contents-append_item item size room =
      ap (items_from (append_item rb item) 0) {y = suc rb.count} (omega arith)
      ∙ items_from-append item 0 rb.count size room (omega arith)

-- Moving the tail by one place drops the oldest item.
abbrev pub moved : Ring → ℕ → ℕ → Ring
moved rb count dropped = record rb {
  tail = (rb.tail + 1) % rb.capacity;
  count = count;
  dropped = dropped;
}

items_from-moved :
    (rb : Ring) (c d k n : ℕ) → items_from (moved rb c d) k n ≡ items_from rb (suc k) n
items_from-moved rb c d k zero = refl
items_from-moved rb c d k (suc n) =
    ap₂ ◌∷◌
      (ap (λ t. bytes_at rb.storage (t * rb.item_size) rb.item_size)
        (mod_shift rb.tail k rb.capacity ∙ ap (λ t. (rb.tail + t) % rb.capacity) (omega arith)))
      (items_from-moved rb c d (suc k) n)

-- Of a ring that is not empty the contents are the oldest item and what is left behind it.
pub contents-moved :
    (rb : Ring) (d : ℕ)
    → IsValid rb
    → 0 < rb.count
    → contents rb
      ≡ bytes_at rb.storage (slot rb rb.tail) rb.item_size ∷ contents (moved rb (rb.count - 1) d)
unfolding contents
contents-moved rb d v h =
    ap (items_from rb 0) {y = suc (rb.count - 1)} (omega arith)
    ∙ ap₂ ◌∷◌
        (ap (λ t. bytes_at rb.storage (t * rb.item_size) rb.item_size)
          (ap (λ t. t % rb.capacity) (omega arith) ∙ mod-eq_of_lt v.tail_in))
        (sym (items_from-moved rb (rb.count - 1) d 0 (rb.count - 1)))

-- A loss that is only counted changes no item.
pub contents-dropped : (rb : Ring) (d : ℕ) → contents (record rb { dropped = d }) ≡ contents rb
unfolding contents
contents-dropped rb d = same 0 rb.count
  where
    same : (k n : ℕ) → items_from (record rb { dropped = d }) k n ≡ items_from rb k n
    same k zero = refl
    same k (suc n) = ap (λ l. item_at rb k ∷ l) (same (suc k) n)
