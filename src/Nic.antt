-- ===== src/Nic.antt =====
-- firmware/nic_model.c: a network device with two rings of descriptors. Each call is one step; the
-- driver's calls and the device's calls follow one another in some order.
pub mod Bounds
pub mod Loopback
mod Examples
use embedded_systems_runtime.Prelude.{
  ℕ, zero, suc, ◌+◌, ◌*◌, ◌%◌, ◌^◌, Option, none, some, Bool, true, false, not, ◌||◌, List, [], ◌∷◌,
  ◌++◌, ◌==◌, ltb, if◌then◌else◌, bit_or, length, take, replicate, get_or, set, write_at,
}

abbrev pub nic_max_ring : ℕ
nic_max_ring = 64

abbrev pub nic_mtu : ℕ
nic_mtu = 1536

abbrev pub irq_tx : ℕ
irq_tx = 1

abbrev pub irq_rx : ℕ
irq_rx = 2

abbrev pub irq_error : ℕ
irq_error = 4

pub data Owner : Type 0 where
  nobody device finished : Owner

pub record Descriptor : Type 0 where
  pub owner : Owner
  pub length : ℕ
  pub error : ℕ
  pub buffer : List ℕ

pub record Nic : Type 0 where
  pub tx : List Descriptor
  pub rx : List Descriptor
  pub capacity : ℕ
  pub tx_submit_cursor : ℕ
  pub tx_reclaim_cursor : ℕ
  pub device_tx_cursor : ℕ
  pub device_rx_cursor : ℕ
  pub rx_consume_cursor : ℕ
  pub tx_head : ℕ
  pub tx_tail : ℕ
  pub rx_head : ℕ
  pub rx_tail : ℕ
  pub irq_status : ℕ
  pub inject_fault : ℕ
  pub tx_completed : ℕ
  pub rx_completed : ℕ
  pub rx_no_buffer : ℕ
  pub tx_errors : ℕ

abbrev pub is_owner : Owner → Owner → Bool
is_owner nobody nobody = true
is_owner device device = true
is_owner finished finished = true
is_owner _ _ = false

unfoldable pub zero_descriptor : Owner → Descriptor
zero_descriptor owner = record {
  owner = owner;
  length = 0;
  error = 0;
  buffer = replicate nic_mtu 0;
}

-- n->tx[i] and n->rx[i], for an index in range.
unfoldable pub descriptor : List Descriptor → ℕ → Descriptor
descriptor ds i = get_or ds i (zero_descriptor nobody)

unfoldable pub nic_model_init : ℕ → Option Nic
nic_model_init capacity =
    if capacity == 0 || ltb nic_max_ring capacity
    then none
    else some (record {
      tx = replicate nic_max_ring (zero_descriptor nobody);
      rx = replicate nic_max_ring (zero_descriptor device);
      capacity = capacity;
      tx_submit_cursor = 0;
      tx_reclaim_cursor = 0;
      device_tx_cursor = 0;
      device_rx_cursor = 0;
      rx_consume_cursor = 0;
      tx_head = 0;
      tx_tail = 0;
      rx_head = 0;
      rx_tail = 0;
      irq_status = 0;
      inject_fault = 0;
      tx_completed = 0;
      rx_completed = 0;
      rx_no_buffer = 0;
      tx_errors = 0;
    })

-- The results 0, 1 (full or empty) and -1.
pub data NicResult : Type 0 where
  success unavailable invalid : NicResult

unfoldable pub nic_tx_submit : Nic → List ℕ → NicResult × Nic
nic_tx_submit n packet =
    let d = descriptor n.tx n.tx_submit_cursor in
    let cursor = (n.tx_submit_cursor + 1) % n.capacity in
    if length packet == 0 || ltb nic_mtu (length packet)
    then (invalid, n)
    else (if not (is_owner d.owner nobody) then (unavailable, n) else (
      success,
      record n {
        tx = set n.tx n.tx_submit_cursor (record {
          owner = device;
          length = length packet;
          error = 0;
          buffer = write_at d.buffer 0 packet;
        });
        tx_submit_cursor = cursor;
        tx_tail = cursor;
      },
    ))

-- The transfer of one frame to the receive ring, or its loss.
unfoldable pub deliver : Nic → Descriptor → Nic
deliver n tx =
    let rx = descriptor n.rx n.device_rx_cursor in
    let cursor = (n.device_rx_cursor + 1) % n.capacity in
    if not (is_owner rx.owner device)
    then record n { rx_no_buffer = (n.rx_no_buffer + 1) % 2 ^ 64 }
    else record n {
      rx = set n.rx n.device_rx_cursor (record {
        owner = finished;
        length = tx.length;
        error = 0;
        buffer = write_at rx.buffer 0 (take tx.length tx.buffer);
      });
      device_rx_cursor = cursor;
      rx_tail = cursor;
      rx_completed = (n.rx_completed + 1) % 2 ^ 64;
      irq_status = bit_or n.irq_status irq_rx;
    }

-- One turn of nic_device_step, once the descriptor is the device's.
unfoldable pub device_turn : Nic → Descriptor → Nic
unfolding deliver
device_turn n tx =
    let bad = not (n.inject_fault == 0) || (tx.length == 0 || ltb nic_mtu tx.length) in
    let taken = record n { inject_fault = 0 } in
    let moved : Nic =
      (if bad
        then record taken {
          tx_errors = (n.tx_errors + 1) % 2 ^ 64;
          irq_status = bit_or n.irq_status irq_error;
        }
        else deliver taken tx) in
    let cursor = (n.device_tx_cursor + 1) % n.capacity in
    record moved {
      tx =
          set n.tx n.device_tx_cursor
            (record tx { owner = finished; error = if bad then 1 else tx.error });
      tx_completed = (n.tx_completed + 1) % 2 ^ 64;
      device_tx_cursor = cursor;
      tx_head = cursor;
      irq_status = bit_or moved.irq_status irq_tx;
    }

-- The loop, with `budget` turns left; the count of turns that were made.
unfoldable pub device_loop : ℕ → Nic → ℕ × Nic
unfolding device_turn
device_loop zero n = (0, n)
device_loop (suc budget) n =
    let tx = descriptor n.tx n.device_tx_cursor in
    let rest : ℕ × Nic = device_loop budget (device_turn n tx) in
    if not (is_owner tx.owner device) then (0, n) else (suc rest.0, rest.1)

unfoldable pub nic_device_step : Nic → ℕ → ℕ × Nic
unfolding device_loop
nic_device_step n budget = device_loop (if ltb n.capacity budget then n.capacity else budget) n

-- The loop of nic_tx_reclaim: the descriptors that were freed, the errors among them, and the state.
unfoldable pub reclaim_loop : ℕ → Nic → ℕ × ℕ × Nic
reclaim_loop zero n = (0, 0, n)
reclaim_loop (suc budget) n =
    let d = descriptor n.tx n.tx_reclaim_cursor in
    let rest : ℕ × ℕ × Nic = reclaim_loop budget (record n {
      tx = set n.tx n.tx_reclaim_cursor (record d { owner = nobody });
      tx_reclaim_cursor = (n.tx_reclaim_cursor + 1) % n.capacity;
    }) in
    if not (is_owner d.owner finished)
    then (0, 0, n)
    else (suc rest.0, (if d.error == 0 then rest.1 else suc rest.1), rest.2)

unfoldable pub nic_tx_reclaim : Nic → ℕ × ℕ × Nic
unfolding reclaim_loop
nic_tx_reclaim n = reclaim_loop n.capacity n

-- The frame, where one is received; `room` is the caller's capacity.
unfoldable pub nic_rx_receive : Nic → ℕ → NicResult × List ℕ × Nic
nic_rx_receive n room =
    let d = descriptor n.rx n.rx_consume_cursor in
    let cursor = (n.rx_consume_cursor + 1) % n.capacity in
    if not (is_owner d.owner finished)
    then (unavailable, [], n)
    else (if ltb room d.length then (invalid, [], n) else (
      success,
      take d.length d.buffer,
      record n {
        rx = set n.rx n.rx_consume_cursor (record d { owner = device });
        rx_consume_cursor = cursor;
        rx_head = cursor;
      },
    ))

unfoldable pub nic_take_interrupts : Nic → ℕ × Nic
nic_take_interrupts n = (n.irq_status, record n { irq_status = 0 })

unfoldable pub nic_inject_tx_error : Nic → Nic
nic_inject_tx_error n = record n { inject_fault = 1 }
