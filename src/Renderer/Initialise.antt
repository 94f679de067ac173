-- ===== src/Renderer/Initialise.antt =====
-- app/rendering/horizon_renderer.cpp: `Init` accounts for the objects of the renderer on every path.
use soteria.Prelude.{
  ◌⊎◌, inl, inr, Bool-cases, ==→eq, ℕ, ◌+◌, ◌≤◌, ◌≡◌, ◌≢◌, refl, sym, ◌∙◌, false, Option, some,
  List, ◌||◌, arith, length, ltb, ◌==◌, if_elim, option_elim,
}
use soteria.Result.{Result, k_ok, k_invalid_argument, is_ok}
use soteria.Vulkan.Info.{Kind, kind_of}
use soteria.Vulkan.{Driver, History, M, pure, create}
use soteria.Vulkan.Live.{Object, one, live, one-null}
use soteria.Vulkan.Made.{is_trusted, strays}
use soteria.PipelineCache.{Versions}
use soteria.Renderer.{FrameRendererConfig, HorizonRenderer, max_framebuffers}
use soteria.Renderer.Life.{renderer_owned}
use soteria.Renderer.Create.{
  Embedded, create_render_pass, create_pipeline_layout, create_bg_pipeline, create_line_pipeline,
  create_framebuffers, init_cache, init_pool, allocate_cmd_buffer, init_vertex_buffer, init_frames,
  init_pipelines, init_render_pass, init,
}
use soteria.Renderer.Outcomes.{IsValid, Strayed, Settles, Holds, attempt-Settles}
use soteria.Renderer.Steps.{
  create_render_pass-Stepped, create_pipeline_layout-Stepped, init_cache-Holds,
  create_bg_pipeline-Stepped, create_line_pipeline-Stepped, create_framebuffers-Holds,
  init_pool-Holds, allocate_cmd_buffer-Holds, init_vertex_buffer-Holds, framebuffer_count-fits,
}

views_enough :
    {o : Option (List ℕ)} {views views' : List ℕ} {n : ℕ}
    → o ≡ some views
    → o ≡ some views'
    → n ≤ length views
    → n ≤ length views'
views_enough e e' enough = ground (arith, e, e', enough)

module _ (d : Driver) (v : Versions) (embedded : Embedded) where
  init_frames-Settles :
      (cfg : FrameRendererConfig) (views : List ℕ) (s : HorizonRenderer) (h : History) (o : Object)
      (rest : ℕ)
      → cfg.device ≢ 0
      → cfg.image_count ≤ length views
      → cfg.image_count ≤ max_framebuffers
      → s.framebuffer_count ≡ 0
      → Holds o rest ((k_ok, s), h)
      → Settles o rest (init_frames d v embedded cfg views s h)
  unfolding init_frames init_pool allocate_cmd_buffer init_vertex_buffer
  init_frames-Settles cfg views s h o rest given enough few empty held =
      let ((r1, s1), h1) = create_framebuffers d cfg.device views cfg.image_count s h in
      let ((r2, s2), h2) = init_pool d v embedded cfg s1 h1 in
      let ((r3, s3), h3) = allocate_cmd_buffer d v embedded cfg s2 h2 in
      let fits = framebuffer_count-fits d o rest cfg.device views cfg.image_count s h empty few in
      attempt-Settles d o rest cfg.device given _ _ h
        (inr (
          create_framebuffers-Holds d o rest cfg.device views cfg.image_count s h empty enough few
            held))
        (λ ok1 held1.
          attempt-Settles d o rest cfg.device given _ _ h1
            (inr (init_pool-Holds d o rest v embedded cfg s1 h1 held1))
            (λ ok2 held2.
              attempt-Settles d o rest cfg.device given _ _ h2
                (inr (allocate_cmd_buffer-Holds d o rest v embedded cfg s2 h2 held2))
                (λ ok3 held3.
                  attempt-Settles d o rest cfg.device given _ _ h3
                    (inr (init_vertex_buffer-Holds d o rest v embedded cfg s3 h3 held3))
                    (λ ok4 held4. inr (
                      held4.0,
                      record {
                        room = held4.1;
                        count_fits = fits;
                        idle_count = λ off. ground (arith, off);
                        idle_owned = λ off. ground (arith, off);
                      },
                      refl,
                    )))))

  init_pipelines-Settles :
      (cfg : FrameRendererConfig) (views : List ℕ) (s : HorizonRenderer) (h : History) (o : Object)
      (rest : ℕ)
      → cfg.device ≢ 0
      → cfg.image_count ≤ length views
      → cfg.image_count ≤ max_framebuffers
      → s.framebuffer_count ≡ 0
      → one Kind.vk_pipeline_layout s.pipeline_layout o ≡ 0
      → one Kind.vk_pipeline s.bg_pipeline o ≡ 0
      → one Kind.vk_pipeline s.line_pipeline o ≡ 0
      → Holds o rest ((k_ok, s), h)
      → Settles o rest (init_pipelines d v embedded cfg views s h)
  unfolding init_pipelines create_pipeline_layout init_cache create_bg_pipeline create_line_pipeline
  init_pipelines-Settles cfg views s h o rest given enough few empty no_layout no_bg no_line held =
      let ((r1, s1), h1) = create_pipeline_layout d cfg.device s h in
      let ((r2, s2), h2) = init_cache d v embedded cfg s1 h1 in
      let ((r3, s3), h3) = create_bg_pipeline d v embedded cfg s2 h2 in
      let ((r4, s4), h4) = create_line_pipeline d v embedded cfg s3 h3 in
      attempt-Settles d o rest cfg.device given _ _ h
        (create_pipeline_layout-Stepped d o rest cfg.device s h no_layout held)
        (λ ok1 held1.
          attempt-Settles d o rest cfg.device given _ _ h1
            (inr (init_cache-Holds d o rest v embedded cfg s1 h1 held1))
            (λ ok2 held2.
              attempt-Settles d o rest cfg.device given _ _ h2
                (create_bg_pipeline-Stepped d o rest v embedded cfg s2 h2 no_bg held2)
                (λ ok3 held3.
                  attempt-Settles d o rest cfg.device given _ _ h3
                    (create_line_pipeline-Stepped d o rest v embedded cfg s3 h3 no_line held3)
                    (λ ok4 held4.
                      init_frames-Settles cfg views s4 h4 o rest given enough few empty held4))))

  init_render_pass-Settles :
      (cfg : FrameRendererConfig) (views : List ℕ) (s : HorizonRenderer) (h : History) (o : Object)
      (rest : ℕ)
      → cfg.device ≢ 0
      → cfg.image_count ≤ length views
      → cfg.image_count ≤ max_framebuffers
      → s.initialised ≡ false
      → IsValid s o
      → live h o ≡ rest
      → Settles o rest (init_render_pass d v embedded cfg views s h)
  unfolding init_render_pass create_render_pass create strays is_trusted kind_of
  init_render_pass-Settles cfg views s h o rest given enough few new valid e =
      let s0 = record s { extent = cfg.extent } in
      let ((r1, s1), h1) = create_render_pass d cfg.device cfg.color_format s0 h in
      let empty = valid.idle_count new in
      let nothing = valid.idle_owned new in
      let held : Holds o rest ((k_ok, s0), h) = (omega (arith, e, nothing), valid.room) in
      let stepped =
        create_render_pass-Stepped d o rest cfg.device cfg.color_format s0 h
          (omega (arith, nothing)) held in
      if_elim (λ (m : M (Result × HorizonRenderer)). Settles o rest (m h1)) (is_ok r1)
        (λ ok. elim stepped [
          | inl (off, stray) ↦ ground (arith, ok, off)
          | inr (alive, room) ↦
              init_pipelines-Settles cfg views s1 h1 o rest given enough few empty
                (omega (arith, nothing)) (omega (arith, nothing)) (omega (arith, nothing))
                (alive, room)
        ])
        (λ failed. elim stepped [
          | inl strayed ↦ inl strayed
          | inr (alive, room) ↦ elim (Bool-cases (s1.render_pass == 0)) [
            | inl null ↦
                let unset : s1.render_pass ≡ 0 = ==→eq s1.render_pass 0 null in
                inr (
                  alive,
                  record {
                    room = room;
                    count_fits = omega (arith, empty);
                    idle_count = λ off. empty;
                    idle_owned =
                        λ off. ground (arith, nothing, unset, one-null Kind.vk_render_pass o);
                  },
                  failed ∙ sym new,
                )
            | inr set ↦ inl (failed, ground (arith, failed, set))
          ]
        ])

  -- For any driver, and an array with a view for each of up to `kMaxFramebuffers` images: where an object
  -- is alive as often as a valid renderer holds it, and `rest` times more, `Init` leaves it alive `rest`
  -- times more than the renderer holds it afterwards, whether `Init` succeeds or fails, and the
  -- renderer valid: when it is not initialised, it holds nothing. A renderer that was not initialised
  -- is so afterwards exactly when `Init` returns `kOk`. The only exception is a failure of `Init` where
  -- among the calls so far the creation of a render pass, a pipeline layout or a pipeline failed and left
  -- something else than the null handle in its output.
  pub renderer_init-live :
      (cfg : FrameRendererConfig) (views : List ℕ) (s : HorizonRenderer) (h : History) (o : Object)
      (rest : ℕ)
      → cfg.image_views ≡ some views
      → (cfg.image_count ≤ max_framebuffers → cfg.image_count ≤ length views)
      → IsValid s o
      → live h o ≡ renderer_owned s o + rest
      → let ((r, s1), h1) = init d v embedded cfg s h in
        ((is_ok r ≡ false) × (1 ≤ strays h1))
        ⊎ ((live h1 o ≡ renderer_owned s1 o + rest)
            × IsValid s1 o
            × (s.initialised ≡ false → is_ok r ≡ s1.initialised))
  unfolding init
  renderer_init-live cfg views s h o rest given_views enough valid e =
      let P : M (Result × HorizonRenderer) → Type 0 = λ m.
        Strayed (m h)
        ⊎ ((live (m h).1 o ≡ renderer_owned (m h).0.1 o + rest)
            × IsValid (m h).0.1 o
            × (s.initialised ≡ false → is_ok (m h).0.0 ≡ (m h).0.1.initialised)) in
      let rejected : P (pure (k_invalid_argument, s)) = inr (e, valid, λ new. sym new) in
      if_elim P s.initialised (λ on. inr (e, valid, λ new. ground (arith, on, new)))
        (λ new.
          if_elim P (cfg.device == 0 || cfg.phys_device == 0) (λ bad. rejected)
            (λ handles.
              option_elim P cfg.image_views (λ bad. rejected)
                (λ views' same.
                  if_elim P (cfg.image_count == 0) (λ bad. rejected)
                    (λ some_images.
                      if_elim P (ltb max_framebuffers cfg.image_count) (λ bad. rejected)
                        (λ few.
                          if_elim P (cfg.color_format == 0) (λ bad. rejected)
                            (λ format.
                              elim (init_render_pass-Settles cfg views' s h o rest
                                (ground (arith, handles))
                                (views_enough given_views same (enough (ground (arith, few))))
                                (ground (arith, few)) new valid
                                (ground (arith, e, valid.idle_owned new))) [
                                  | inl strayed ↦ inl strayed
                                  | inr (alive, valid', done) ↦ inr (alive, valid', λ off. done)
                                ]))))))
