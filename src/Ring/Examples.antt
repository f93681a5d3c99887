-- ===== src/Ring/Examples.antt =====
-- The theorems on the ring at rings of one-byte items.
use embedded_systems_runtime.Prelude.{◌≡◌, refl, true, false, List, [], ◌∷◌, arith}
use embedded_systems_runtime.Ring.{Ring}
use embedded_systems_runtime.Ring.Invariant.{IsValid}
use embedded_systems_runtime.Ring.Queue.{Op, push, pop, view, run_ring, run_queue, run_ring_refines}
use embedded_systems_runtime.Ring.Wait.{
  Wake, woken, expired, ring_wait_pop, Ends, ring_wait_pop_lem,
}

-- Room for two bytes, with one in place.
abbrev half_full : Ring
half_full = record {
  storage = 5 ∷ 0 ∷ [];
  capacity = 2;
  item_size = 1;
  head = 1;
  tail = 0;
  count = 1;
  high_water = 1;
  dropped = 0;
}

abbrev empty_ring : Ring
empty_ring = record half_full { storage = 0 ∷ 0 ∷ []; head = 0; count = 0; high_water = 0 }

half_full-IsValid : IsValid half_full
half_full-IsValid = record {
  holds = refl;
  addressable = omega arith;
  room = omega arith;
  sized = omega arith;
  head_in = omega arith;
  tail_in = omega arith;
  count_in = omega arith;
  head_place = refl;
  watermark = omega arith;
  watermark_in = omega arith;
  dropped_in = omega arith;
}

empty_ring-IsValid : IsValid empty_ring
empty_ring-IsValid = record {
  holds = refl;
  addressable = omega arith;
  room = omega arith;
  sized = omega arith;
  head_in = omega arith;
  tail_in = omega arith;
  count_in = omega arith;
  head_place = refl;
  watermark = omega arith;
  watermark_in = omega arith;
  dropped_in = omega arith;
}

abbrev some_calls : List Op
some_calls = push (6 ∷ []) false ∷ push (7 ∷ []) true ∷ push (8 ∷ []) false ∷ pop ∷ []

run_ring_refines_example :
    ((run_ring half_full some_calls).0, view (run_ring half_full some_calls).1)
    ≡ run_queue 2 (view half_full) some_calls
run_ring_refines_example =
    run_ring_refines some_calls {rb = half_full} half_full-IsValid (refl, (refl, (refl, (tt, tt))))

abbrev some_wakes : List Wake
some_wakes = woken [] ∷ woken (push (6 ∷ []) false ∷ []) ∷ expired [] ∷ []

ring_wait_pop_lem_example :
    Ends true empty_ring some_wakes (ring_wait_pop true empty_ring some_wakes)
ring_wait_pop_lem_example = ring_wait_pop_lem true some_wakes {rb = empty_ring} empty_ring-IsValid
