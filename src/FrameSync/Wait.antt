-- ===== src/FrameSync/Wait.antt =====
-- engine/rendering/frame_sync.cpp: the outcomes of `WaitAndReset`.
use soteria.Prelude.{ℕ, ◌≡◌, ◌↔◌, true, ◌∷◌, arith, if◌then◌else◌}
use soteria.Result.{k_ok, k_vksc_timeout_failed}
use soteria.Vulkan.Info.{wait_for_fences, reset_fences}
use soteria.Vulkan.{Driver, History, is_success, ran, run}
use soteria.FrameSync.{FrameSync, fence_timeout_ns, is_timeout, wait_and_reset}

module _ (d : Driver) where
  -- `WaitAndReset` returns `kOk` exactly when the driver reports success for the wait on the in-flight
  -- fence and then for its reset, and the timeout code exactly when the wait times out. The fence is
  -- reset only after a wait that succeeded: otherwise the wait is the only call made.
  pub wait_and_reset_outcomes :
      (device : ℕ) (s : FrameSync) (h : History)
      → let wait = wait_for_fences device s.in_flight fence_timeout_ns in
        let reset = reset_fences device s.in_flight in
        let waited = d.runs h wait in
        let h1 = ran wait waited ∷ h in
        ((wait_and_reset d device s h).0 ≡ k_ok
          ↔ ((is_success waited ≡ true) × (is_success (d.runs h1 reset) ≡ true)))
        × ((wait_and_reset d device s h).0 ≡ k_vksc_timeout_failed ↔ (is_timeout waited ≡ true))
        × ((wait_and_reset d device s h).1
            ≡ (if is_success waited then ran reset (d.runs h1 reset) ∷ h1 else h1))
  unfolding wait_and_reset run is_timeout is_success
  wait_and_reset_outcomes device s h =
      ((λ e. ground arith, λ e. ground arith), (λ e. ground arith, λ e. ground arith), ground arith)
