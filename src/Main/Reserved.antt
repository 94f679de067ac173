-- ===== src/Main/Reserved.antt =====
-- app/main.cpp: `main` creates no more objects of each kind than `BuildContextConfig` reserves.
use soteria.Prelude.{
  ℕ, ◌+◌, ◌*◌, ◌≤◌, ◌≡◌, refl, Bool, true, not, Option, none, some, List, arith, if_elim,
  option_elim,
}
use soteria.Result.{Result, is_ok}
use soteria.Float.{Float}
use soteria.Vulkan.Info.{Kind, Reservation}
use soteria.Vulkan.{Driver, History, M, pure, ◌>>=◌}
use soteria.Vulkan.Live.{kind_code}
use soteria.Vulkan.Made.{same, made, made-run, made-destroy}
use soteria.PipelineCache.{Versions}
use soteria.Context
use soteria.Swapchain
use soteria.Renderer.Create.{Embedded}
use soteria.FrameBudget
use soteria.Main.{
  Objects, fresh, resources, start, step, shutdown_all, init_context, init_display, init_swapchain,
  init_renderer, init_sync, swapchain_config, renderer_config,
}
use soteria.Main.Loop.{World, LoopState, ExitCode, exit_success, max_frames, frames, first, main}
use soteria.Main.Creations.{sync_init-made}
use soteria.Main.Destructions.{shutdown_all-kept}
use soteria.Main.Starting.{context_init-IsAtMost, display_init-IsAtMost, swapchain_init-IsAtMost}
use soteria.Main.RendererInit.{renderer_objects, renderer_init-IsAtMost}
use soteria.Main.Quiet.{frames-quiet}

-- How many objects of a kind a reservation allows. There is one instance and one device, which hold it.
abbrev pub reserved : Reservation → Kind → ℕ
reserved r Kind.vk_instance = 1
reserved r Kind.vk_device = 1
reserved r Kind.vk_surface = r.surfaces
reserved r Kind.vk_swapchain = r.swapchains
reserved r Kind.vk_image_view = r.image_views
reserved r Kind.vk_semaphore = r.semaphores
reserved r Kind.vk_fence = r.fences
reserved r Kind.vk_command_pool = r.command_pools
reserved r Kind.vk_buffer = r.buffers
reserved r Kind.vk_memory = r.device_memory_allocations
reserved r Kind.vk_pipeline_cache = r.pipeline_caches
reserved r Kind.vk_render_pass = r.render_passes
reserved r Kind.vk_pipeline_layout = r.pipeline_layouts
reserved r Kind.vk_pipeline = r.graphics_pipelines
reserved r Kind.vk_framebuffer = r.framebuffers

-- What the start-up creates, step by step.
abbrev started_objects : Kind → ℕ
started_objects k =
    same Kind.vk_instance k
    + same Kind.vk_device k
    + (same Kind.vk_surface k
        + (same Kind.vk_swapchain k
            + Swapchain.max_images * same Kind.vk_image_view k
            + (renderer_objects k + (2 * same Kind.vk_semaphore k + same Kind.vk_fence k))))

started-reserved : (k : Kind) → started_objects k ≤ reserved resources k
unfolding same kind_code
started-reserved Kind.vk_instance = omega arith
started-reserved Kind.vk_device = omega arith
started-reserved Kind.vk_surface = omega arith
started-reserved Kind.vk_swapchain = omega arith
started-reserved Kind.vk_image_view = omega arith
started-reserved Kind.vk_pipeline_cache = omega arith
started-reserved Kind.vk_pipeline_layout = omega arith
started-reserved Kind.vk_pipeline = omega arith
started-reserved Kind.vk_render_pass = omega arith
started-reserved Kind.vk_framebuffer = omega arith
started-reserved Kind.vk_command_pool = omega arith
started-reserved Kind.vk_buffer = omega arith
started-reserved Kind.vk_memory = omega arith
started-reserved Kind.vk_semaphore = omega arith
started-reserved Kind.vk_fence = omega arith

module _ (d : Driver) (k : Kind) where
  step-made :
      (m : M (Result × Objects)) (next : Objects → M (Bool × Objects)) (h : History)
      (one others : ℕ)
      → made k (m h).1 ≤ made k h + one
      → made k (next (m h).0.1 (m h).1).1 ≤ made k (m h).1 + others
      → made k (step d m next h).1 ≤ made k h + (one + others)
  unfolding step
  step-made m next h one others first_few rest_few =
      let ((r, x), h1) = m h in
      ground (
        arith,
        first_few,
        rest_few,
        shutdown_all-kept d (made k) (λ c h'. made-run d c h' k)
            (λ a b c h'. made-destroy a b c h' k) x h1,
      )

  start-made :
      (cfg : Context.VkscContextConfig) (v : Versions) (embedded : Embedded) (h : History)
      → made k (start d cfg v embedded fresh h).1 ≤ made k h + started_objects k
  unfolding start init_context init_display init_swapchain init_renderer init_sync
  start-made cfg v embedded h =
      let ((r1, x1), h1) = init_context d cfg fresh h in
      let ((r2, x2), h2) = init_display d x1 h1 in
      let ((r3, x3), h3) = init_swapchain d x2 h2 in
      let ((r4, x4), h4) = init_renderer d v embedded x3 h3 in
      let ready : Objects → M (Bool × Objects) = λ x. pure (true, x) in
      let after_renderer : Objects → M (Bool × Objects) = λ x. step d (init_sync d x) ready in
      let after_swapchain : Objects → M (Bool × Objects) =
        λ x. step d (init_renderer d v embedded x) after_renderer in
      let after_display : Objects → M (Bool × Objects) =
        λ x. step d (init_swapchain d x) after_swapchain in
      let syncs = 2 * same Kind.vk_semaphore k + same Kind.vk_fence k in
      let e4 : made k (after_renderer x4 h4).1 ≤ made k h4 + (syncs + 0) =
        step-made (init_sync d x4) ready h4 syncs 0
          (omega (arith, sync_init-made d k x4.ctx.device x4.sync h4)) (omega arith) in
      let e3 : made k (after_swapchain x3 h3).1 ≤ made k h3 + (renderer_objects k + (syncs + 0)) =
        step-made (init_renderer d v embedded x3) after_renderer h3 (renderer_objects k) (syncs + 0)
          (renderer_init-IsAtMost d k v embedded (renderer_config d x3) x3.renderer h3) e4 in
      let swaps = same Kind.vk_swapchain k + Swapchain.max_images * same Kind.vk_image_view k in
      let e2 : made k (after_display x2 h2).1
          ≤ made k h2 + (swaps + (renderer_objects k + (syncs + 0))) =
        step-made (init_swapchain d x2) after_swapchain h2 swaps (renderer_objects k + (syncs + 0))
          (swapchain_init-IsAtMost d k (swapchain_config d x2) x2.swapchain h2) e3 in
      let e1 : made k (step d (init_display d x1) after_display h1).1
          ≤ made k h1 + (same Kind.vk_surface k + (swaps + (renderer_objects k + (syncs + 0)))) =
        step-made (init_display d x1) after_display h1 (same Kind.vk_surface k)
          (swaps + (renderer_objects k + (syncs + 0)))
          (display_init-IsAtMost d k x1.ctx.vk_instance_handle x1.ctx.physical_device x1.display h1)
          e2 in
      let e0 = context_init-IsAtMost d k cfg Context.fresh h in
      if_elim (λ (m : M (Bool × Objects)). made k (m h1).1 ≤ made k h + started_objects k)
        (not (is_ok r1)) (λ failed. omega (arith, e0)) (λ done. omega (arith, e0, e1))

module _ {F : Type 0} ⦃fl : Float F⦄ (w : World F) (encode : F → List ℕ) (d : Driver) where
  -- Of each kind of object, `main` creates at most as many as `BuildContextConfig` reserves, counting those
  -- whose creation fails: for any driver that writes no more images of the swapchain than there is room
  -- for, whatever else it answers, and however the start-up and the loop end.
  pub main-reserved :
      (cfg : Context.VkscContextConfig) (v : Versions) (embedded : Embedded) (region : List ℕ)
      (budget : FrameBudget.FrameBudgetMonitor F) (h : History) (k : Kind)
      → made k (main w encode d cfg v embedded region budget h).1 ≤ made k h + reserved resources k
  unfolding main
  main-reserved cfg v embedded region budget h k =
      let ((started, x), h1) = start d cfg v embedded fresh h in
      let (looped, h2) = frames w encode d x max_frames (first region budget) h1 in
      let before = start-made d k cfg v embedded h in
      let enough = started-reserved k in
      let quiet =
        frames-quiet w encode d (made k) (λ c h'. made-run d c h' k) x max_frames
          (first region budget) h1 in
      let Outcome : Type 0 = Option (ExitCode × Objects × Option (LoopState F)) in
      let after_loop : Option (LoopState F) → M Outcome = λ r. elim r [
        | none ↦ pure none
        | some l ↦ (do ended ← shutdown_all d x; pure (some (exit_success, ended, some l)))
      ] in
      let rest : made k (after_loop looped h2).1 ≡ made k h2 =
        option_elim (λ (m : M Outcome). made k (m h2).1 ≡ made k h2) looped (λ missing. refl)
          (λ l found.
            shutdown_all-kept d (made k) (λ c h'. made-run d c h' k)
              (λ a b c h'. made-destroy a b c h' k) x h2) in
      if_elim (λ (m : M Outcome). made k (m h1).1 ≤ made k h + reserved resources k) (not started)
        (λ off. omega (arith, before, enough)) (λ on. omega (arith, before, enough, quiet, rest))
