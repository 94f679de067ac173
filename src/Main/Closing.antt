-- ===== src/Main/Closing.antt =====
-- app/main.cpp: `ShutdownAll` gives back all that the application holds.
use soteria.Prelude.{ℕ, ◌+◌, ◌≡◌, ◌≢◌, arith}
use soteria.Vulkan.Info.{device_wait_idle}
use soteria.Vulkan.{Driver, History}
use soteria.Vulkan.Live.{Object, live, live-run}
use soteria.Context
use soteria.Context.Life.{context_owned, context_shutdown-live}
use soteria.DisplayOutput
use soteria.DisplayOutput.Life.{display_owned, display_shutdown-live}
use soteria.Swapchain
use soteria.Swapchain.Life.{IsValid, swapchain_owned, swapchain_shutdown-live}
use soteria.FrameSync
use soteria.FrameSync.Life.{owned, frame_sync_shutdown-live}
use soteria.Renderer
use soteria.Renderer.Outcomes
use soteria.Renderer.Life.{renderer_owned, destroy_all-live}
use soteria.Main.{Objects, wait_idle, shutdown_all}

-- The objects that the application holds.
abbrev pub objects_owned : Objects → Object → ℕ
objects_owned x o =
    context_owned x.ctx o
    + display_owned x.display o
    + swapchain_owned x.swapchain o
    + renderer_owned x.renderer o
    + owned x.sync o

sync_empty :
    (device : ℕ) (s : FrameSync.FrameSync) (h : History) (o : Object)
    → owned (FrameSync.shutdown device s h).0 o ≡ 0
unfolding FrameSync.shutdown
sync_empty device s h o = ground arith

swapchain_empty :
    (device : ℕ) (s : Swapchain.SwapchainSc) (h : History) (o : Object)
    → swapchain_owned (Swapchain.shutdown device s h).0 o ≡ 0
unfolding Swapchain.shutdown
swapchain_empty device s h o = ground arith

display_empty :
    (s : DisplayOutput.DisplayOutput) (h : History) (o : Object)
    → display_owned (DisplayOutput.shutdown s h).0 o ≡ 0
unfolding DisplayOutput.shutdown
display_empty s h o = ground arith

context_empty :
    (d : Driver) (c : Context.VkscContext) (h : History) (o : Object)
    → context_owned (Context.shutdown d c h).0 o ≡ 0
unfolding Context.shutdown
context_empty d c h o = ground arith

-- While the application runs, and after the start-up: what it holds is what is alive more than `rest` times.
pub record Balanced (o : Object) (rest : ℕ) (x : Objects) (h : History) : Type 0 where
  pub alive : live h o ≡ objects_owned x o + rest
  pub has_device : x.ctx.device ≢ 0
  pub swapchain_valid : IsValid x.swapchain
  pub renderer_valid : Outcomes.IsValid x.renderer o

module _ (d : Driver) (o : Object) (rest : ℕ) where
  wait_idle-live : (device : ℕ) (h : History) → live (wait_idle d device h).1 o ≡ live h o
  unfolding wait_idle
  wait_idle-live device h = ground (arith, live-run d (device_wait_idle device) h o)

  pub shutdown_all-live :
      (x : Objects) (h : History) → Balanced o rest x h → (live (shutdown_all d x h).1 o ≡ rest)
  unfolding shutdown_all
  shutdown_all-live x h s =
      let device = x.ctx.device in
      let h1 = (wait_idle d device h).1 in
      let (sync, h2) = FrameSync.shutdown device x.sync h1 in
      let (renderer, h3) = Renderer.destroy_all d device x.renderer h2 in
      let (swapchain, h4) = Swapchain.shutdown device x.swapchain h3 in
      let (display, h5) = DisplayOutput.shutdown x.display h4 in
      let left1 = context_owned x.ctx o + rest in
      let left2 = display_owned x.display o + left1 in
      let left3 = swapchain_owned x.swapchain o + left2 in
      let left4 = renderer_owned x.renderer o + left3 in
      let e1 : live h1 o ≡ owned x.sync o + left4 =
        omega (arith, s.alive, wait_idle-live device h) in
      let e2 : live h2 o ≡ left4 = omega (
        arith,
        frame_sync_shutdown-live device x.sync h1 o left4 e1,
        sync_empty device x.sync h1 o,
      ) in
      let e3 : live h3 o ≡ left3 =
        (destroy_all-live d device x.renderer h2 o left3 s.has_device e2).0 in
      let e4 : live h4 o ≡ left2 = omega (
        arith,
        (swapchain_shutdown-live device x.swapchain h3 o left2 s.swapchain_valid e3).0,
        swapchain_empty device x.swapchain h3 o,
      ) in
      let e5 : live h5 o ≡ left1 =
        omega
          (arith, display_shutdown-live x.display h4 o left1 e4, display_empty x.display h4 o) in
      omega (arith, context_shutdown-live d x.ctx h5 o rest e5, context_empty d x.ctx h5 o)
