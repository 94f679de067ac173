-- ===== src/Main/Balance.antt =====
-- app/main.cpp: the start-up accounts for every object.
use soteria.Prelude.{
  ◌≤◌, ℕ, zero, suc, ◌+◌, ◌≡◌, ◌≢◌, ◌⊎◌, refl, ◌∙◌, inl, inr, Bool, true, false, not, List, length,
  length-set, replicate, set, arith, if_elim,
}
use soteria.Result.{Result, is_ok}
use soteria.Vulkan.Info.{Kind}
use soteria.Vulkan.{Driver, History, M}
use soteria.Vulkan.Live.{Object, live, one-null}
use soteria.PipelineCache.{Versions}
use soteria.Context
use soteria.Context.Life.{context_owned, context_init-live}
use soteria.DisplayOutput.Life.{display_owned, display_init-live}
use soteria.Swapchain
use soteria.Swapchain.Life.{swapchain_owned, swapchain_init-live}
use soteria.FrameSync.Life.{owned, frame_sync_init-live}
use soteria.Renderer.Create.{Embedded}
use soteria.Renderer.Life.{renderer_owned}
use soteria.Renderer.Outcomes.{Strayed}
use soteria.Vulkan.Made.{strays, strays-run, strays-destroy}
use soteria.Main.Destructions.{shutdown_all-kept}
use soteria.Renderer.Initialise.{renderer_init-live}
use soteria.Main.{
  Objects, fresh, fill_views, image_views, renderer_config, swapchain_config, step, init_context,
  init_display, init_swapchain, init_renderer, init_sync, start,
}
use soteria.Main.Device.{IsRegular, init_context-HasDevice}
use soteria.Main.Closing.{Balanced, shutdown_all-live}

length-fill_views :
    (s : Swapchain.SwapchainSc) (i left : ℕ) (views : List ℕ)
    → length (fill_views s i left views) ≡ length views
unfolding fill_views
length-fill_views s i zero views = refl
length-fill_views s i (suc left) views =
    length-fill_views s (i + 1) left (set views i (Swapchain.image_view s i))
    ∙ length-set views i (Swapchain.image_view s i)

module _ (d : Driver) (o : Object) (rest : ℕ) where
  -- At the end of the start-up: balanced, or all given back unless a failed creation left something in its
  -- output.
  abbrev pub Started : (Bool × Objects) × History → Type 0
  Started ((started, x), h) =
      ((started ≡ true) × Balanced o rest x h)
      ⊎ ((started ≡ false) × ((1 ≤ strays h) ⊎ (live h o ≡ rest)))

  step-Started :
      (m : M (Result × Objects)) (next : Objects → M (Bool × Objects)) (h : History)
      → Strayed (m h) ⊎ Balanced o rest (m h).0.1 (m h).1
      → (Balanced o rest (m h).0.1 (m h).1 → Started (next (m h).0.1 (m h).1))
      → Started (step d m next h)
  unfolding step
  step-Started m next h (inl (off, stray)) going_on =
      let ((r, x), h1) = m h in
      if_elim (λ (k : M (Bool × Objects)). Started (k h1)) (is_ok r) (λ ok. ground (arith, ok, off))
        (λ failed. inr (
          refl,
          inl (omega (arith, stray, shutdown_all-kept d strays (strays-run d) strays-destroy x h1)),
        ))
  step-Started m next h (inr s) going_on =
      let ((r, x), h1) = m h in
      if_elim (λ (k : M (Bool × Objects)). Started (k h1)) (is_ok r) (λ ok. going_on s)
        (λ failed. inr (refl, inr (shutdown_all-live d o rest x h1 s)))

  init_display-Balanced :
      (x : Objects) (h : History)
      → Balanced o rest x h
      → Balanced o rest (init_display d x h).0.1 (init_display d x h).1
  unfolding init_display
  init_display-Balanced x h s =
      let others =
        context_owned x.ctx o
        + swapchain_owned x.swapchain o
        + renderer_owned x.renderer o
        + owned x.sync o
        + rest in
      record {
        alive = omega (
          arith,
          display_init-live d x.ctx.vk_instance_handle x.ctx.physical_device x.display h o others
              (omega (arith, s.alive)),
        );
        has_device = s.has_device;
        swapchain_valid = s.swapchain_valid;
        renderer_valid = s.renderer_valid;
      }

  init_sync-Balanced :
      (x : Objects) (h : History)
      → Balanced o rest x h
      → Balanced o rest (init_sync d x h).0.1 (init_sync d x h).1
  unfolding init_sync
  init_sync-Balanced x h s =
      let others =
        context_owned x.ctx o
        + display_owned x.display o
        + swapchain_owned x.swapchain o
        + renderer_owned x.renderer o
        + rest in
      record {
        alive =
            omega (
              arith,
              frame_sync_init-live d x.ctx.device x.sync h o others (omega (arith, s.alive)),
            );
        has_device = s.has_device;
        swapchain_valid = s.swapchain_valid;
        renderer_valid = s.renderer_valid;
      }

  module _ (regular : IsRegular d) where
    init_swapchain-Balanced :
        (x : Objects) (h : History)
        → Balanced o rest x h
        → Balanced o rest (init_swapchain d x h).0.1 (init_swapchain d x h).1
    unfolding init_swapchain
    init_swapchain-Balanced x h s =
        let cfg = swapchain_config d x in
        let others =
          context_owned x.ctx o
          + display_owned x.display o
          + renderer_owned x.renderer o
          + owned x.sync o
          + rest in
        let (alive, valid) =
          swapchain_init-live d cfg x.swapchain h o others s.swapchain_valid
            (omega (arith, s.alive)) in
        record {
          alive = omega (arith, alive);
          has_device = s.has_device;
          swapchain_valid = valid;
          renderer_valid = s.renderer_valid;
        }

    init_renderer-Stepped :
        (v : Versions) (embedded : Embedded) (x : Objects) (h : History)
        → Balanced o rest x h
        → Strayed (init_renderer d v embedded x h)
          ⊎ Balanced o rest (init_renderer d v embedded x h).0.1 (init_renderer d v embedded x h).1
    unfolding init_renderer
    init_renderer-Stepped v embedded x h s =
        let others =
          context_owned x.ctx o
          + display_owned x.display o
          + swapchain_owned x.swapchain o
          + owned x.sync o
          + rest in
        let size =
          length-fill_views x.swapchain 0 x.swapchain.image_count
            (replicate Swapchain.max_images 0) in
        elim (renderer_init-live d v embedded (renderer_config d x) (image_views d x) x.renderer h o
          others refl (λ few. omega (arith, few, size)) s.renderer_valid (omega (arith, s.alive))) [
            | inl strayed ↦ inl strayed
            | inr (alive, valid, done) ↦ inr (record {
              alive = omega (arith, alive);
              has_device = s.has_device;
              swapchain_valid = s.swapchain_valid;
              renderer_valid = valid;
            })
          ]

    -- With the context that was just initialised, all else is new.
    first-Balanced :
        (c : Context.VkscContext) (h : History)
        → c.device ≢ 0
        → live h o ≡ context_owned c o + rest
        → Balanced o rest (record fresh { ctx = c }) h
    first-Balanced c h given e = record {
      alive = omega (
        arith,
        e,
        one-null Kind.vk_pipeline o,
        one-null Kind.vk_pipeline_layout o,
        one-null Kind.vk_render_pass o,
      );
      has_device = given;
      swapchain_valid = record {
        images_room = refl;
        views_room = refl;
        count_fits = λ on. omega arith;
      };
      renderer_valid = record {
        room = refl;
        count_fits = omega arith;
        idle_count = λ new. refl;
        idle_owned = λ new. omega (
          arith,
          one-null Kind.vk_pipeline o,
          one-null Kind.vk_pipeline_layout o,
          one-null Kind.vk_render_pass o,
        );
      };
    }

    -- For a regular driver: where an object was alive `rest` times before, after a start-up that succeeds it is
    -- alive `rest` times more than the application holds it, and after one that fails at any point it is
    -- alive `rest` times, as before, unless a failed creation of the renderer left something in its output.
    pub start-Started :
        (cfg : Context.VkscContextConfig) (v : Versions) (embedded : Embedded) (h : History)
        → live h o ≡ rest
        → Started (start d cfg v embedded fresh h)
    unfolding start init_context
    start-Started cfg v embedded h e =
        let ((r, c), h1) = Context.init d cfg Context.fresh h in
        let counted = context_init-live d cfg Context.fresh h o rest (omega (arith, e)) in
        let (ready, has_device) = init_context-HasDevice d regular cfg h in
        if_elim (λ (m : M (Bool × Objects)). Started (m h1)) (not (is_ok r))
          (λ failed. inr (refl, inr (ground (arith, counted, ready, failed))))
          (λ done.
            let x1 = record fresh { ctx = c } in
            let s1 = first-Balanced c h1 (has_device (ground (arith, done))) counted in
            let ((r2, x2), h2) = init_display d x1 h1 in
            let ((r3, x3), h3) = init_swapchain d x2 h2 in
            let ((r4, x4), h4) = init_renderer d v embedded x3 h3 in
            step-Started _ _ h1 (inr (init_display-Balanced x1 h1 s1)) (λ s2.
              step-Started _ _ h2 (inr (init_swapchain-Balanced x2 h2 s2)) (λ s3.
                step-Started _ _ h3 (init_renderer-Stepped v embedded x3 h3 s3) (λ s4.
                  step-Started _ _ h4 (inr (init_sync-Balanced x4 h4 s4)) (λ s5. inl (refl, s5))))))
