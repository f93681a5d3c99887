-- ===== src/Ring/Queue.antt =====
-- The bounded queue that realtime/ring_buffer.c implements, and the refinement.
use embedded_systems_runtime.Prelude.{
  ℕ, ◌+◌, ◌%◌, ◌^◌, ◌≡◌, refl, ap, sym, ◌∙◌, Option, none, some, Bool, List, [], ◌∷◌, ◌++◌, length,
  drop, arith, ◌==◌, if◌then◌else◌, All,
}
use embedded_systems_runtime.Ring.{Ring, drop_oldest, append_item, ring_push, ring_pop}
use embedded_systems_runtime.Ring.Invariant.{
  IsValid, ring_push-IsValid, ring_pop-IsValid, drop_oldest-IsValid,
}
use embedded_systems_runtime.Ring.Contents.{
  contents, length-contents, contents-append_item, contents-moved, contents-dropped,
}

-- The items that wait, oldest first, and how many were lost, modulo 2 ^ 64.
pub record Queue : Type 0 where
  pub items : List (List ℕ)
  pub lost : ℕ

unfoldable pub queue_push : ℕ → Queue → List ℕ → Bool → ℕ × Queue
queue_push capacity q item overwrite =
    if length q.items == capacity
    then (if overwrite
        then (0, record { items = drop 1 q.items ++ (item ∷ []); lost = (q.lost + 1) % 2 ^ 64 })
        else (1, record q { lost = (q.lost + 1) % 2 ^ 64 }))
    else (0, record q { items = q.items ++ (item ∷ []) })

pop_items : List (List ℕ) → ℕ → Option (List ℕ) × Queue
pop_items [] lost = (none, record { items = []; lost = lost })
pop_items (x ∷ xs) lost = (some x, record { items = xs; lost = lost })

unfoldable pub queue_pop : Queue → Option (List ℕ) × Queue
unfolding pop_items
queue_pop q = pop_items q.items q.lost

-- What a ring stands for.
abbrev pub view : Ring → Queue
view rb = record { items = contents rb; lost = rb.dropped }

push_evicting :
    {rb : Ring} (item : List ℕ)
    → IsValid rb
    → length item ≡ rb.item_size
    → rb.count ≡ rb.capacity
    → contents (append_item (drop_oldest rb) item) ≡ drop 1 (contents rb) ++ (item ∷ [])
unfolding contents drop_oldest
push_evicting {rb} item v size e =
    contents-append_item (drop_oldest-IsValid v e) item size (omega (arith, v.room, e))
    ∙ ap (λ l. drop 1 l ++ (item ∷ []))
        (sym (contents-moved rb ((rb.dropped + 1) % 2 ^ 64) v (omega (arith, v.room))))

-- mlrt_ring_push does to the waiting items and the loss count what a bounded queue does: it appends;
-- at capacity it refuses with 1, or evicts the oldest if told to, and counts the loss.
pub ring_push_refines :
    {rb : Ring} (item : List ℕ) (overwrite : Bool)
    → IsValid rb
    → length item ≡ rb.item_size
    → let (rc, rb') = ring_push rb item overwrite in
      (rc, view rb') ≡ queue_push rb.capacity (view rb) item overwrite
unfolding ring_push queue_push
ring_push_refines {rb} item overwrite v size = ground (
  arith,
  length-contents rb,
  contents-dropped rb ((rb.dropped + 1) % 2 ^ 64),
  push_evicting item v size,
  contents-append_item v item size,
)

contents_empty : (rb : Ring) → rb.count ≡ 0 → contents rb ≡ []
unfolding contents
contents_empty rb e = rw e refl

-- mlrt_ring_pop takes the oldest item, and tells an empty ring from others.
pub ring_pop_refines :
    {rb : Ring} → IsValid rb → let (out, rb') = ring_pop rb in (out, view rb') ≡ queue_pop (view rb)
unfolding ring_pop queue_pop
ring_pop_refines {rb} v = ground (arith, contents-moved rb rb.dropped v, contents_empty rb)

-- The calls that threads make, in the order in which they get the lock.
pub data Op : Type 0 where
  push : List ℕ → Bool → Op
  pop : Op

pub data Reply : Type 0 where
  pushed : ℕ → Reply
  popped : Option (List ℕ) → Reply

unfoldable pub run_ring : Ring → List Op → List Reply × Ring
run_ring rb [] = ([], rb)
run_ring rb (push item overwrite ∷ ops) =
    let (rc, rb') = ring_push rb item overwrite in
    let (replies, final) = run_ring rb' ops in (pushed rc ∷ replies, final)
run_ring rb (pop ∷ ops) =
    let (out, rb') = ring_pop rb in
    let (replies, final) = run_ring rb' ops in (popped out ∷ replies, final)

unfoldable pub run_queue : ℕ → Queue → List Op → List Reply × Queue
run_queue capacity q [] = ([], q)
run_queue capacity q (push item overwrite ∷ ops) =
    let (rc, q') = queue_push capacity q item overwrite in
    let (replies, final) = run_queue capacity q' ops in (pushed rc ∷ replies, final)
run_queue capacity q (pop ∷ ops) =
    let (out, q') = queue_pop q in
    let (replies, final) = run_queue capacity q' ops in (popped out ∷ replies, final)

-- Every item that is pushed has the size of a slot.
abbrev pub SizedOp : ℕ → Op → Type 0
SizedOp size (push item overwrite) = length item ≡ size
SizedOp size pop = Unit {0}

capacity-ring_push :
    (rb : Ring) (item : List ℕ) (overwrite : Bool)
    → ((ring_push rb item overwrite).1.capacity ≡ rb.capacity)
      × ((ring_push rb item overwrite).1.item_size ≡ rb.item_size)
unfolding ring_push
capacity-ring_push rb item overwrite = ground arith

capacity-ring_pop :
    (rb : Ring)
    → ((ring_pop rb).1.capacity ≡ rb.capacity) × ((ring_pop rb).1.item_size ≡ rb.item_size)
unfolding ring_pop
capacity-ring_pop rb = ground arith

-- Whatever calls threads make in whatever order, the ring answers each as a bounded queue of the same
-- capacity does, and stands for that queue at the end.
pub run_ring_refines :
    (ops : List Op) {rb : Ring}
    → IsValid rb
    → All (SizedOp rb.item_size) ops
    → ((run_ring rb ops).0, view (run_ring rb ops).1) ≡ run_queue rb.capacity (view rb) ops
unfolding run_ring run_queue
run_ring_refines [] v sized = refl
run_ring_refines (push item overwrite ∷ ops) {rb} v sized = ground (
  arith,
  capacity-ring_push rb item overwrite,
  ring_push_refines item overwrite v sized.0,
  run_ring_refines ops (ring_push-IsValid item overwrite v)
      (rw (capacity-ring_push rb item overwrite).1 sized.1),
)
run_ring_refines (pop ∷ ops) {rb} v sized = ground (
  arith,
  capacity-ring_pop rb,
  ring_pop_refines v,
  run_ring_refines ops (ring_pop-IsValid v) (rw (capacity-ring_pop rb).1 sized.1),
)

-- Calls keep the invariant, and the shape of the ring.
pub run_ring-IsValid :
    (ops : List Op) {rb : Ring}
    → IsValid rb
    → IsValid (run_ring rb ops).1 × ((run_ring rb ops).1.item_size ≡ rb.item_size)
unfolding run_ring
run_ring-IsValid [] v = (v, refl)
run_ring-IsValid (push item overwrite ∷ ops) {rb} v =
    let (valid, same) = run_ring-IsValid ops (ring_push-IsValid item overwrite v) in
    (valid, same ∙ (capacity-ring_push rb item overwrite).1)
run_ring-IsValid (pop ∷ ops) {rb} v =
    let (valid, same) = run_ring-IsValid ops (ring_pop-IsValid v) in
    (valid, same ∙ (capacity-ring_pop rb).1)
