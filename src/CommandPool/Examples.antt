-- ===== src/CommandPool/Examples.antt =====
-- Runs of the command pool.
use soteria.Prelude.{ℕ, ◌≡◌, ◌≢◌, ◌↔◌, true, not, ◌||◌, [], ◌∷◌, if◌then◌else◌, ◌==◌}
use soteria.Result.{k_ok}
use soteria.Vulkan.Info.{allocate_command_buffers}
use soteria.Vulkan.{ran, is_success}
use soteria.Vulkan.Simulated.{driver}
use soteria.CommandPool.{CommandPool, allocate_buffers}
use soteria.CommandPool.Life.{allocate_buffers_iff}

abbrev ready : CommandPool
ready = record { pool = 8; initialised = true }

abbrev device : ℕ
device = 7

abbrev count : ℕ
count = 1

allocate_buffers_iff_example :
    let call = allocate_command_buffers 7 8 1 in
    let done = allocate_buffers driver 7 1 true ready [] in
    ((done.0.0 ≡ k_ok) ↔ (
      (device ≢ 0)
      × (count ≢ 0)
      × (true ≡ true)
      × (ready.initialised ≡ true)
      × (is_success (driver.runs [] call) ≡ true)))
    × (done.1 ≡ (
        if device == 0 || count == 0 || not true || not ready.initialised
        then []
        else ran call (driver.runs [] call) ∷ []))
allocate_buffers_iff_example = allocate_buffers_iff driver 7 1 true ready []
