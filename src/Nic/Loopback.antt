-- ===== src/Nic/Loopback.antt =====
-- A frame that the driver submits to firmware/nic_model.c comes back as it was.
use embedded_systems_runtime.Prelude.{
  ℕ, ◌+◌, ◌%◌, ◌≤◌, ◌<◌, ◌≡◌, refl, ap, ap₂, ◌∙◌, false, not, ◌||◌, List, ◌==◌, ltb, set, take,
  write_at, length, get_or-set_self, bytes_at-write_self, arith,
}
use embedded_systems_runtime.Nic.{
  Nic, Descriptor, nobody, device, finished, is_owner, zero_descriptor, descriptor, success,
  nic_tx_submit, deliver, device_turn, device_loop, nic_device_step, nic_rx_receive,
}

-- Nothing is under way: the next descriptor to send is free and is the device's next one, the next
-- one to receive is the device's and the driver's next one, and no fault is injected.
pub record IsIdle (n : Nic) : Type 0 where
  pub room : 0 < n.capacity
  pub tx_in : n.tx_submit_cursor < length n.tx
  pub rx_in : n.device_rx_cursor < length n.rx
  pub tx_next : n.device_tx_cursor ≡ n.tx_submit_cursor
  pub rx_next : n.rx_consume_cursor ≡ n.device_rx_cursor
  pub tx_free : (descriptor n.tx n.tx_submit_cursor).owner ≡ nobody
  pub rx_free : (descriptor n.rx n.device_rx_cursor).owner ≡ device
  pub tx_buffer : length (descriptor n.tx n.tx_submit_cursor).buffer ≡ 1536
  pub rx_buffer : length (descriptor n.rx n.device_rx_cursor).buffer ≡ 1536
  pub no_fault : n.inject_fault ≡ 0

descriptor-set_self :
    (ds : List Descriptor) (i : ℕ) (d : Descriptor) → i < length ds → descriptor (set ds i d) i ≡ d
unfolding descriptor
descriptor-set_self ds i d h = get_or-set_self ds i d (zero_descriptor nobody) h

-- A turn of the device with a sound frame, when a descriptor waits for it.
device_turn-rx :
    (m : Nic) (tx : Descriptor)
    → m.inject_fault ≡ 0
    → 0 < tx.length
    → tx.length ≤ 1536
    → (descriptor m.rx m.device_rx_cursor).owner ≡ device
    → ((device_turn m tx).rx
        ≡ set m.rx m.device_rx_cursor (record {
          owner = finished;
          length = tx.length;
          error = 0;
          buffer =
              write_at (descriptor m.rx m.device_rx_cursor).buffer 0 (take tx.length tx.buffer);
        }))
      × ((device_turn m tx).rx_consume_cursor ≡ m.rx_consume_cursor)
unfolding device_turn deliver
device_turn-rx m tx f pos short o = rw (good, free) (refl, refl)
  where
    good : (not (m.inject_fault == 0) || (tx.length == 0 || ltb 1536 tx.length)) ≡ false
    good = ground arith

    free : not (is_owner (descriptor m.rx m.device_rx_cursor).owner device) ≡ false
    free = rw o refl

nic_device_step-one :
    (m : Nic)
    → 0 < m.capacity
    → (descriptor m.tx m.device_tx_cursor).owner ≡ device
    → (nic_device_step m 1).1 ≡ device_turn m (descriptor m.tx m.device_tx_cursor)
unfolding nic_device_step device_loop
nic_device_step-one m pos o = rw (whole, mine) refl
  where
    whole : ltb m.capacity 1 ≡ false
    whole = ground arith

    mine : not (is_owner (descriptor m.tx m.device_tx_cursor).owner device) ≡ false
    mine = rw o refl

nic_rx_receive-finished :
    (m : Nic) (room : ℕ) (d : Descriptor)
    → descriptor m.rx m.rx_consume_cursor ≡ d
    → d.owner ≡ finished
    → d.length ≤ room
    → ((nic_rx_receive m room).0 ≡ success) × ((nic_rx_receive m room).1 ≡ take d.length d.buffer)
unfolding nic_rx_receive
nic_rx_receive-finished m room d e o h = rw (e, done, fits) (refl, refl)
  where
    done : not (is_owner d.owner finished) ≡ false
    done = rw o refl

    fits : ltb room d.length ≡ false
    fits = ground arith

module _ (n : Nic) (packet : List ℕ) (idle : IsIdle n) (some_bytes : 0 < length packet)
    (short : length packet ≤ 1536) where
  -- The descriptor of the frame,
  abbrev sent : Descriptor
  sent = record {
    owner = device;
    length = length packet;
    error = 0;
    buffer = write_at (descriptor n.tx n.tx_submit_cursor).buffer 0 packet;
  }

  submitted : (nic_tx_submit n packet).1 ≡ record n {
    tx = set n.tx n.tx_submit_cursor sent;
    tx_submit_cursor = (n.tx_submit_cursor + 1) % n.capacity;
    tx_tail = (n.tx_submit_cursor + 1) % n.capacity;
  }
  unfolding nic_tx_submit
  submitted = rw (fits, free) refl
    where
      fits : (length packet == 0 || ltb 1536 (length packet)) ≡ false
      fits = ground arith

      free : not (is_owner (descriptor n.tx n.tx_submit_cursor).owner nobody) ≡ false
      free = rw idle.tx_free refl

  -- and what it holds.
  sent_bytes :
      take (length packet) (write_at (descriptor n.tx n.tx_submit_cursor).buffer 0 packet) ≡ packet
  sent_bytes =
      bytes_at-write_self (descriptor n.tx n.tx_submit_cursor).buffer 0 packet
        (omega (arith, idle.tx_buffer))

  abbrev waiting : Nic
  waiting = record n {
    tx = set n.tx n.tx_submit_cursor sent;
    tx_submit_cursor = (n.tx_submit_cursor + 1) % n.capacity;
    tx_tail = (n.tx_submit_cursor + 1) % n.capacity;
  }

  next_to_send : descriptor waiting.tx waiting.device_tx_cursor ≡ sent
  next_to_send =
      ap (descriptor (set n.tx n.tx_submit_cursor sent)) idle.tx_next
      ∙ descriptor-set_self n.tx n.tx_submit_cursor sent idle.tx_in

  stepped : (nic_device_step (nic_tx_submit n packet).1 1).1 ≡ device_turn waiting sent
  stepped =
      ap (λ (m : Nic). (nic_device_step m 1).1) submitted
      ∙ nic_device_step-one waiting idle.room (ap (λ (d : Descriptor). d.owner) next_to_send)
      ∙ ap (device_turn waiting) next_to_send

  -- The descriptor that the driver is to receive.
  abbrev arrived : Descriptor
  arrived = record {
    owner = finished;
    length = length packet;
    error = 0;
    buffer =
        write_at (descriptor n.rx n.device_rx_cursor).buffer 0 (take (length packet) sent.buffer);
  }

  next_to_receive :
      descriptor (device_turn waiting sent).rx (device_turn waiting sent).rx_consume_cursor
      ≡ arrived
  next_to_receive =
      let turn = device_turn-rx waiting sent idle.no_fault some_bytes short idle.rx_free in
      ap₂ descriptor turn.0 (turn.1 ∙ idle.rx_next)
      ∙ descriptor-set_self n.rx n.device_rx_cursor arrived idle.rx_in

  arrived_bytes : take (length packet) arrived.buffer ≡ packet
  arrived_bytes =
      ap (λ b. take (length packet) (write_at (descriptor n.rx n.device_rx_cursor).buffer 0 b))
        sent_bytes
      ∙ bytes_at-write_self (descriptor n.rx n.device_rx_cursor).buffer 0 packet
          (omega (arith, idle.rx_buffer))

  -- On an idle device, a frame of 1 to 1536 bytes that is submitted, and sent by one step of the device, is
  -- received with success and byte for byte, if the driver has room for it.
  pub nic_rx_receive-submitted :
      (room : ℕ)
      → length packet ≤ room
      → (let m = (nic_device_step (nic_tx_submit n packet).1 1).1 in
          ((nic_rx_receive m room).0 ≡ success) × ((nic_rx_receive m room).1 ≡ packet))
  nic_rx_receive-submitted room h =
      let got =
        nic_rx_receive-finished (device_turn waiting sent) room arrived next_to_receive refl h in
      (
        ap (λ (m : Nic). (nic_rx_receive m room).0) stepped ∙ got.0,
        ap (λ (m : Nic). (nic_rx_receive m room).1) stepped ∙ got.1 ∙ arrived_bytes,
      )
