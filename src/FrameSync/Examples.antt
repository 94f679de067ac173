-- ===== src/FrameSync/Examples.antt =====
-- Runs of the frame's synchronisation objects.
use soteria.Prelude.{◌+◌, ◌≡◌, ◌↔◌, refl, true, [], ◌∷◌, if◌then◌else◌}
use soteria.Result.{k_ok, k_vksc_timeout_failed}
use soteria.Vulkan.Info.{Kind, wait_for_fences, reset_fences}
use soteria.Vulkan.{is_success, ran}
use soteria.Vulkan.Live.{Object, live}
use soteria.Vulkan.Simulated.{driver}
use soteria.FrameSync.{FrameSync, fresh, init, wait_and_reset, is_timeout, fence_timeout_ns}
use soteria.FrameSync.Life.{owned, frame_sync_init-live}
use soteria.FrameSync.Wait.{wait_and_reset_outcomes}

abbrev ready : FrameSync
ready = record { image_available = 4; render_complete = 5; in_flight = 6; initialised = true }

abbrev fence : Object
fence = record { kind = Kind.vk_fence; handle = 6 }

frame_sync_init-live_example :
    live (init driver 7 fresh []).1 fence ≡ owned (init driver 7 fresh []).0.1 fence + 0
unfolding live
frame_sync_init-live_example = frame_sync_init-live driver 7 fresh [] fence 0 refl

wait_and_reset_outcomes_example :
    let wait = wait_for_fences 7 6 fence_timeout_ns in
    let reset = reset_fences 7 6 in
    let h1 = ran wait (driver.runs [] wait) ∷ [] in
    ((wait_and_reset driver 7 ready []).0 ≡ k_ok
      ↔ ((is_success (driver.runs [] wait) ≡ true) × (is_success (driver.runs h1 reset) ≡ true)))
    × ((wait_and_reset driver 7 ready []).0 ≡ k_vksc_timeout_failed
        ↔ (is_timeout (driver.runs [] wait) ≡ true))
    × ((wait_and_reset driver 7 ready []).1
        ≡ (if is_success (driver.runs [] wait) then ran reset (driver.runs h1 reset) ∷ h1 else h1))
wait_and_reset_outcomes_example = wait_and_reset_outcomes driver 7 ready []
