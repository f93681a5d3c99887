-- ===== src/Allocator/Examples.antt =====
-- The size of a block in the allocator at one request.
use embedded_systems_runtime.Prelude.{◌+◌, ◌-◌, ◌%◌, ◌^◌, ◌≤◌, ◌<◌, ◌≡◌, ◌⊎◌, arith}
use embedded_systems_runtime.Allocator.{aligned_size}
use embedded_systems_runtime.Allocator.Extent.{aligned_size_lem}

aligned_size_lem_example :
    ((2 ^ 64 - 1 ≤ 2 ^ 64 - 16)
      × (aligned_size (2 ^ 64 - 1) % 16 ≡ 0)
      × (2 ^ 64 - 1 ≤ aligned_size (2 ^ 64 - 1))
      × (aligned_size (2 ^ 64 - 1) < 2 ^ 64 - 1 + 16))
    ⊎ ((2 ^ 64 - 16 < 2 ^ 64 - 1) × (aligned_size (2 ^ 64 - 1) ≡ 0))
aligned_size_lem_example = aligned_size_lem (2 ^ 64 - 1) (omega arith)
