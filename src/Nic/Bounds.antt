-- ===== src/Nic/Bounds.antt =====
-- Every descriptor that firmware/nic_model.c touches lies in its ring.
use embedded_systems_runtime.Prelude.{
  ℕ, zero, suc, ◌+◌, ◌%◌, ◌≤◌, ◌<◌, ◌≡◌, some, inl, inr, Bool-cases, List, [], ◌∷◌, set, ltb,
  if◌then◌else◌, arith,
}
use native.Mathlib.Nat.{mod-lt}
use embedded_systems_runtime.Nic.{
  Nic, Descriptor, nobody, device, finished, is_owner, descriptor, nic_model_init, nic_tx_submit,
  deliver, device_turn, device_loop, nic_device_step, reclaim_loop, nic_tx_reclaim, nic_rx_receive,
  nic_take_interrupts, nic_inject_tx_error,
}

-- The cursors are in the part of the rings that is used.
pub record IsValid (n : Nic) : Type 0 where
  pub room : 0 < n.capacity
  pub fits : n.capacity ≤ 64
  pub submit_in : n.tx_submit_cursor < n.capacity
  pub reclaim_in : n.tx_reclaim_cursor < n.capacity
  pub device_tx_in : n.device_tx_cursor < n.capacity
  pub device_rx_in : n.device_rx_cursor < n.capacity
  pub consume_in : n.rx_consume_cursor < n.capacity

pub nic_model_init-IsValid : (capacity : ℕ) {n : Nic} → nic_model_init capacity ≡ some n → IsValid n
unfolding nic_model_init
nic_model_init-IsValid capacity h = ground (arith)

pub nic_tx_submit-IsValid :
    (n : Nic) (packet : List ℕ) → IsValid n → IsValid (nic_tx_submit n packet).1
unfolding nic_tx_submit
nic_tx_submit-IsValid n packet v = ground (arith, mod-lt (n.tx_submit_cursor + 1) {m = n.capacity})

device_turn-IsValid : (n : Nic) (tx : Descriptor) → IsValid n → IsValid (device_turn n tx)
unfolding device_turn deliver
device_turn-IsValid n tx v = ground (
  arith,
  mod-lt (n.device_tx_cursor + 1) {m = n.capacity},
  mod-lt (n.device_rx_cursor + 1) {m = n.capacity},
)

device_loop-IsValid : (budget : ℕ) (n : Nic) → IsValid n → IsValid (device_loop budget n).1
unfolding device_loop
device_loop-IsValid zero n v = v
device_loop-IsValid (suc budget) n v =
    elim (Bool-cases (is_owner (descriptor n.tx n.device_tx_cursor).owner device)) [
      | inl e ↦ rw e (
          device_loop-IsValid budget (device_turn n (descriptor n.tx n.device_tx_cursor))
            (device_turn-IsValid n (descriptor n.tx n.device_tx_cursor) v))
      | inr e ↦ rw e v
    ]

abbrev reclaimed : Nic → Nic
reclaimed n = record n {
  tx =
      set n.tx n.tx_reclaim_cursor
        (record (descriptor n.tx n.tx_reclaim_cursor) { owner = nobody });
  tx_reclaim_cursor = (n.tx_reclaim_cursor + 1) % n.capacity;
}

reclaimed-IsValid : (n : Nic) → IsValid n → IsValid (reclaimed n)
reclaimed-IsValid n v = ground (arith, mod-lt (n.tx_reclaim_cursor + 1) {m = n.capacity})

reclaim_loop-IsValid : (budget : ℕ) (n : Nic) → IsValid n → IsValid (reclaim_loop budget n).2
unfolding reclaim_loop
reclaim_loop-IsValid zero n v = v
reclaim_loop-IsValid (suc budget) n v =
    elim (Bool-cases (is_owner (descriptor n.tx n.tx_reclaim_cursor).owner finished)) [
      | inl e ↦ rw e (reclaim_loop-IsValid budget (reclaimed n) (reclaimed-IsValid n v))
      | inr e ↦ rw e v
    ]

pub nic_rx_receive-IsValid : (n : Nic) (room : ℕ) → IsValid n → IsValid (nic_rx_receive n room).2
unfolding nic_rx_receive
nic_rx_receive-IsValid n room v = ground (arith, mod-lt (n.rx_consume_cursor + 1) {m = n.capacity})

-- The calls of the driver and the device, in the order in which they are made.
pub data Call : Type 0 where
  submit : List ℕ → Call
  step : ℕ → Call
  receive : ℕ → Call
  reclaim take_interrupts inject : Call

unfoldable pub run : Nic → List Call → Nic
run n [] = n
run n (submit packet ∷ calls) = run (nic_tx_submit n packet).1 calls
run n (step budget ∷ calls) = run (nic_device_step n budget).1 calls
run n (receive room ∷ calls) = run (nic_rx_receive n room).2 calls
run n (reclaim ∷ calls) = run (nic_tx_reclaim n).2 calls
run n (take_interrupts ∷ calls) = run (nic_take_interrupts n).1 calls
run n (inject ∷ calls) = run (nic_inject_tx_error n) calls

-- Whatever calls the driver and the device make, in whatever order, every cursor stays below the
-- capacity, which is at most 64, the size of the rings.
pub run-IsValid : (n : Nic) (calls : List Call) → IsValid n → IsValid (run n calls)
unfolding run nic_device_step nic_tx_reclaim nic_take_interrupts nic_inject_tx_error
run-IsValid n [] v = v
run-IsValid n (submit packet ∷ calls) v =
    run-IsValid (nic_tx_submit n packet).1 calls (nic_tx_submit-IsValid n packet v)
run-IsValid n (step budget ∷ calls) v =
    run-IsValid (nic_device_step n budget).1 calls
      (device_loop-IsValid (if ltb n.capacity budget then n.capacity else budget) n v)
run-IsValid n (receive room ∷ calls) v =
    run-IsValid (nic_rx_receive n room).2 calls (nic_rx_receive-IsValid n room v)
run-IsValid n (reclaim ∷ calls) v =
    run-IsValid (nic_tx_reclaim n).2 calls (reclaim_loop-IsValid n.capacity n v)
run-IsValid n (take_interrupts ∷ calls) v =
    run-IsValid (nic_take_interrupts n).1 calls (ground arith)
run-IsValid n (inject ∷ calls) v = run-IsValid (nic_inject_tx_error n) calls (ground arith)
