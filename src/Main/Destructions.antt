-- ===== src/Main/Destructions.antt =====
-- app/main.cpp: `ShutdownAll`, and the `Shutdown` operations it calls, only give commands and destroy: a
-- number of the history that neither changes stays.
use soteria.Prelude.{ℕ, zero, suc, ◌∙◌, ◌≡◌, refl, List, [], ◌∷◌, arith}
use soteria.Vulkan.Info.{Kind, device_wait_idle}
use soteria.Vulkan.{Driver, History, run, destroy_if_set}
use soteria.Vulkan.Made.{IsQuiet, IsKept}
use soteria.FrameSync
use soteria.Context
use soteria.DisplayOutput
use soteria.Swapchain
use soteria.Renderer
use soteria.Main.{Objects, wait_idle, shutdown_all}
use soteria.Renderer.Kept.{kept_if_set, destroy_all-kept}

module _ (d : Driver) (f : History → ℕ) (quiet : IsQuiet d f) (kept : IsKept f) where
  pub sync_shutdown-kept :
      (device : ℕ) (s : FrameSync.FrameSync) (h : History)
      → f (FrameSync.shutdown device s h).1 ≡ f h
  unfolding FrameSync.shutdown
  sync_shutdown-kept device s h =
      let h1 = (destroy_if_set device Kind.vk_fence s.in_flight h).1 in
      let h2 = (destroy_if_set device Kind.vk_semaphore s.render_complete h1).1 in
      ground (
        arith,
        kept_if_set d f quiet kept device Kind.vk_fence s.in_flight h,
        kept_if_set d f quiet kept device Kind.vk_semaphore s.render_complete h1,
        kept_if_set d f quiet kept device Kind.vk_semaphore s.image_available h2,
      )

  clear_views-kept :
      (device count : ℕ) (views : List ℕ) (h : History)
      → f (Swapchain.clear_views device count views h).1 ≡ f h
  unfolding Swapchain.clear_views
  clear_views-kept device zero views h = refl
  clear_views-kept device (suc count) [] h = refl
  clear_views-kept device (suc count) (view ∷ views) h =
      let h1 = (destroy_if_set device Kind.vk_image_view view h).1 in
      clear_views-kept device count views h1
      ∙ kept_if_set d f quiet kept device Kind.vk_image_view view h

  pub swapchain_shutdown-kept :
      (device : ℕ) (s : Swapchain.SwapchainSc) (h : History)
      → f (Swapchain.shutdown device s h).1 ≡ f h
  unfolding Swapchain.shutdown
  swapchain_shutdown-kept device s h =
      ground (arith, clear_views-kept device s.image_count s.image_views h)

  pub display_shutdown-kept :
      (s : DisplayOutput.DisplayOutput) (h : History) → f (DisplayOutput.shutdown s h).1 ≡ f h
  unfolding DisplayOutput.shutdown
  display_shutdown-kept s h =
      ground (arith, kept_if_set d f quiet kept s.vk_instance_handle Kind.vk_surface s.surface h)

  shutdown_device-kept :
      (c : Context.VkscContext) (h : History) → f (Context.shutdown_device d c h).1 ≡ f h
  unfolding Context.shutdown_device
  shutdown_device-kept c h =
      let h1 = (run d (device_wait_idle c.device) h).1 in
      ground (arith, quiet (device_wait_idle c.device) h, kept 0 Kind.vk_device c.device h1)

  pub context_shutdown-kept :
      (c : Context.VkscContext) (h : History) → f (Context.shutdown d c h).1 ≡ f h
  unfolding Context.shutdown
  context_shutdown-kept c h =
      let (c1, h1) = Context.shutdown_device d c h in
      ground (
        arith,
        shutdown_device-kept c h,
        kept_if_set d f quiet kept 0 Kind.vk_instance c1.vk_instance_handle h1,
      )

  wait_idle-kept : (device : ℕ) (h : History) → f (wait_idle d device h).1 ≡ f h
  unfolding wait_idle
  wait_idle-kept device h = ground (arith, quiet (device_wait_idle device) h)

  pub shutdown_all-kept : (x : Objects) (h : History) → f (shutdown_all d x h).1 ≡ f h
  unfolding shutdown_all
  shutdown_all-kept x h =
      let device = x.ctx.device in
      let h1 = (wait_idle d device h).1 in
      let h2 = (FrameSync.shutdown device x.sync h1).1 in
      let h3 = (Renderer.destroy_all d device x.renderer h2).1 in
      let h4 = (Swapchain.shutdown device x.swapchain h3).1 in
      let h5 = (DisplayOutput.shutdown x.display h4).1 in
      context_shutdown-kept x.ctx h5
      ∙ display_shutdown-kept x.display h4
      ∙ swapchain_shutdown-kept device x.swapchain h3
      ∙ destroy_all-kept d f quiet kept device x.renderer h2
      ∙ sync_shutdown-kept device x.sync h1
      ∙ wait_idle-kept device h
