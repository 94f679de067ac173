-- ===== src/FrameSync.antt =====
-- engine/rendering/frame_sync.hpp and frame_sync.cpp: `FrameSync`, the two semaphores and the fence of a
-- frame. FrameSync/Life accounts for the objects; FrameSync/Wait is about the fence.
pub mod Life
pub mod Wait
mod Examples
use soteria.Prelude.{ℕ, Bool, true, false, not, ◌==◌, if◌then◌else◌}
use soteria.Result.{
  Result, k_ok, k_error, k_invalid_argument, k_vksc_sync_failed, k_already_initialised,
  k_vksc_timeout_failed,
}
use soteria.Vulkan.Info.{Kind, semaphore_info, fence_info, wait_for_fences, reset_fences}
use soteria.Vulkan.{
  Driver, VkResult, success, timeout, is_success, M, pure, ◌>>=◌, ◌>>◌, create, run, destroy,
  destroy_if_set,
}

pub record FrameSync : Type 0 where
  pub image_available : ℕ
  pub render_complete : ℕ
  pub in_flight : ℕ
  pub initialised : Bool

-- A new object.
abbrev pub fresh : FrameSync
fresh = record { image_available = 0; render_complete = 0; in_flight = 0; initialised = false }

-- `kFenceTimeoutNs`
abbrev pub fence_timeout_ns : ℕ
fence_timeout_ns = 5_000_000_000

-- `r == VK_TIMEOUT`
unfoldable pub is_timeout : VkResult → Bool
is_timeout timeout = true
is_timeout _ = false

-- `Shutdown`
unfoldable pub shutdown : ℕ → FrameSync → M FrameSync
shutdown device s = if not s.initialised then pure s else do
  destroy_if_set device Kind.vk_fence s.in_flight
  destroy_if_set device Kind.vk_semaphore s.render_complete
  destroy_if_set device Kind.vk_semaphore s.image_available
  pure fresh

module _ (d : Driver) where
  -- `Init`
  unfoldable pub init : ℕ → FrameSync → M (Result × FrameSync)
  init device s =
      if s.initialised
      then pure (k_already_initialised, s)
      else if device == 0
      then pure (k_invalid_argument, s)
      else do
        available ← create d device semaphore_info
        let s1 = record s { image_available = available.handle }
        if not (is_success available.result) then pure (k_vksc_sync_failed, s1) else do
          complete ← create d device semaphore_info
          let s2 = record s1 { render_complete = complete.handle }
          if not (is_success complete.result)
              then (do
                destroy device Kind.vk_semaphore s2.image_available
                pure (k_vksc_sync_failed, record s2 { image_available = 0 }))
              else do
                fence ← create d device (fence_info true)
                let s3 = record s2 { in_flight = fence.handle }
                if not (is_success fence.result)
                    then (do
                      destroy device Kind.vk_semaphore s3.render_complete
                      destroy device Kind.vk_semaphore s3.image_available
                      pure (
                        k_vksc_sync_failed,
                        record s3 { render_complete = 0; image_available = 0 },
                      ))
                    else pure (k_ok, record s3 { initialised = true })

  -- `WaitAndReset`
  unfoldable pub wait_and_reset : ℕ → FrameSync → M Result
  wait_and_reset device s = do
    r ← run d (wait_for_fences device s.in_flight fence_timeout_ns)
    if is_timeout r
        then pure k_vksc_timeout_failed
        else if not (is_success r)
        then pure k_error
        else do
          rr ← run d (reset_fences device s.in_flight)
          if not (is_success rr) then pure k_error else pure k_ok
