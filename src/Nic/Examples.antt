-- ===== src/Nic/Examples.antt =====
-- The theorems on the network device at a device with two descriptors in use.
use embedded_systems_runtime.Prelude.{
  ℕ, ◌≡◌, refl, List, [], ◌∷◌, replicate, length-replicate, arith,
}
use embedded_systems_runtime.Nic.{
  Nic, zero_descriptor, nobody, device, descriptor, success, nic_tx_submit, nic_device_step,
  nic_rx_receive,
}
use embedded_systems_runtime.Nic.Loopback.{IsIdle, nic_rx_receive-submitted}
use embedded_systems_runtime.Nic.Bounds.{
  IsValid, Call, submit, step, receive, reclaim, run, run-IsValid,
}

abbrev fresh_nic : Nic
fresh_nic = record {
  tx = replicate 64 (zero_descriptor nobody);
  rx = replicate 64 (zero_descriptor device);
  capacity = 2;
  tx_submit_cursor = 0;
  tx_reclaim_cursor = 0;
  device_tx_cursor = 0;
  device_rx_cursor = 0;
  rx_consume_cursor = 0;
  tx_head = 0;
  tx_tail = 0;
  rx_head = 0;
  rx_tail = 0;
  irq_status = 0;
  inject_fault = 0;
  tx_completed = 0;
  rx_completed = 0;
  rx_no_buffer = 0;
  tx_errors = 0;
}

fresh_nic-IsValid : IsValid fresh_nic
fresh_nic-IsValid = record {
  room = omega arith;
  fits = omega arith;
  submit_in = omega arith;
  reclaim_in = omega arith;
  device_tx_in = omega arith;
  device_rx_in = omega arith;
  consume_in = omega arith;
}

abbrev some_calls : List Call
some_calls = submit (7 ∷ 8 ∷ []) ∷ submit (9 ∷ []) ∷ step 5 ∷ receive 1500 ∷ reclaim ∷ []

run-IsValid_example : IsValid (run fresh_nic some_calls)
run-IsValid_example = run-IsValid fresh_nic some_calls fresh_nic-IsValid

fresh_nic-IsIdle : IsIdle fresh_nic
unfolding descriptor zero_descriptor
fresh_nic-IsIdle = record {
  room = omega arith;
  tx_in = omega arith;
  rx_in = omega arith;
  tx_next = refl;
  rx_next = refl;
  tx_free = refl;
  rx_free = refl;
  tx_buffer = length-replicate {A = ℕ} 1536 0;
  rx_buffer = length-replicate {A = ℕ} 1536 0;
  no_fault = refl;
}

nic_rx_receive-submitted_example :
    ((nic_rx_receive (nic_device_step (nic_tx_submit fresh_nic (7 ∷ 8 ∷ [])).1 1).1 1500).0
      ≡ success)
    × ((nic_rx_receive (nic_device_step (nic_tx_submit fresh_nic (7 ∷ 8 ∷ [])).1 1).1 1500).1
        ≡ 7 ∷ 8 ∷ [])
nic_rx_receive-submitted_example =
    nic_rx_receive-submitted fresh_nic (7 ∷ 8 ∷ []) fresh_nic-IsIdle (omega arith) (omega arith)
      1500 (omega arith)
