-- ===== src/Main/RendererInit.antt =====
-- app/rendering/horizon_renderer.cpp: how many objects of each kind `Init` creates at most, failures and the
-- roll-back included.
use soteria.Prelude.{
  ℕ, zero, suc, false, true, length-take, ◌+◌, ◌*◌, ◌≤◌, ◌≡◌, refl, ◌∙◌, Bool, List, [], ◌∷◌, ◌++◌,
  take, length, arith, if_elim, option_elim, ltb, ◌==◌, ◌||◌,
}
use soteria.Result.{Result}
use soteria.Vulkan.Info.{
  Kind, kind_of, Extent2D, render_pass_info, pipeline_layout_info, pipeline_info, framebuffer_info,
}
use soteria.Vulkan.{Driver, History, M, is_success, create, destroy}
use soteria.Vulkan.Made.{same, made, made-run, made-destroy, made-create, IsAtMost}
use soteria.PipelineCache.{Versions}
use soteria.Renderer
use soteria.Renderer.Create.{
  Embedded, bg_uuid, line_uuid, push_constant_bytes, destroy_framebuffers, make_framebuffers,
  create_framebuffers, attempt, create_render_pass, create_pipeline_layout, create_pipeline,
  init_cache, create_bg_pipeline, create_line_pipeline, init_pool, allocate_cmd_buffer,
  init_vertex_buffer, init_frames, init_pipelines, init_render_pass, cmd_reserved_bytes, vbo_bytes,
  pool_entry_size,
}
use soteria.Renderer.Create
use soteria.Main.Creations.{buffer_init-made, pool_init-made, cache_init-made}
use soteria.Renderer.Kept.{allocate-kept, destroy_all-kept}

mul_mono_left : (c m n : ℕ) → m ≤ n → m * c ≤ n * c
mul_mono_left c zero n le = grind arith
mul_mono_left c (suc m) zero le = omega (arith, le)
mul_mono_left c (suc m) (suc n) le = grind (arith, mul_mono_left c m n (omega (arith, le)))

module _ (k : Kind) where
  -- What `Init` creates from the framebuffers on, from the pipeline layout on, and in all.
  abbrev frame_objects : ℕ
  frame_objects =
      Renderer.max_framebuffers * same Kind.vk_framebuffer k
      + (same Kind.vk_command_pool k + (0 + (same Kind.vk_buffer k + same Kind.vk_memory k + 0)))

  abbrev pipeline_objects : ℕ
  pipeline_objects =
      same Kind.vk_pipeline_layout k
      + (same Kind.vk_pipeline_cache k
          + (same Kind.vk_pipeline k + (same Kind.vk_pipeline k + frame_objects)))

  abbrev pub renderer_objects : ℕ
  renderer_objects = same Kind.vk_render_pass k + pipeline_objects

module _ (d : Driver) (k : Kind) where
  destroy_framebuffers-made :
      (device : ℕ) (slots : List ℕ) (h : History)
      → made k (destroy_framebuffers device slots h).1 ≡ made k h
  unfolding destroy_framebuffers
  destroy_framebuffers-made device [] h = refl
  destroy_framebuffers-made device (slot ∷ slots) h =
      let h1 = (destroy device Kind.vk_framebuffer slot h).1 in
      destroy_framebuffers-made device slots h1 ∙ made-destroy device Kind.vk_framebuffer slot h k

  make_framebuffers-IsAtMost :
      (device render_pass : ℕ) (extent : Extent2D) (done views slots : List ℕ)
      → IsAtMost k
          (length views * same Kind.vk_framebuffer k)
          (make_framebuffers d device render_pass extent done views slots)
  unfolding make_framebuffers kind_of
  make_framebuffers-IsAtMost device render_pass extent done [] slots h = omega arith
  make_framebuffers-IsAtMost device render_pass extent done (view ∷ views) [] h = omega arith
  make_framebuffers-IsAtMost device render_pass extent done (view ∷ views) (slot ∷ slots) h =
      let info = framebuffer_info render_pass view extent in
      let (framebuffer, h1) = create d device info h in
      let new = made-create d device info h k in
      let back = destroy_framebuffers-made device done h1 in
      let rest =
        make_framebuffers-IsAtMost device render_pass extent (done ++ framebuffer.handle ∷ []) views
          slots h1 in
      if_elim
        (λ (m : M (Bool × List ℕ)).
          made k (m h1).1 ≤ made k h + length (view ∷ views) * same Kind.vk_framebuffer k)
        (is_success framebuffer.result) (λ made_it. grind (arith, rest, new))
        (λ failed. grind (arith, back, new))

  create_framebuffers-IsAtMost :
      (device : ℕ) (views : List ℕ) (count : ℕ) (s : Renderer.HorizonRenderer)
      → count ≤ Renderer.max_framebuffers
      → IsAtMost k
          (Renderer.max_framebuffers * same Kind.vk_framebuffer k)
          (create_framebuffers d device views count s)
  unfolding create_framebuffers
  create_framebuffers-IsAtMost device views count s few h =
      let got = take count views in
      let at_most : length got * same Kind.vk_framebuffer k
          ≤ Renderer.max_framebuffers * same Kind.vk_framebuffer k =
        mul_mono_left (same Kind.vk_framebuffer k) (length got) Renderer.max_framebuffers
          (omega (arith, few, length-take count views)) in
      omega (
        arith,
        at_most,
        make_framebuffers-IsAtMost device s.render_pass s.extent [] got s.framebuffers h,
      )

  attempt-IsAtMost :
      (device first second : ℕ) (step : M (Result × Renderer.HorizonRenderer))
      (next : Renderer.HorizonRenderer → M (Result × Renderer.HorizonRenderer))
      → IsAtMost k first step
      → ((s : Renderer.HorizonRenderer) → IsAtMost k second (next s))
      → IsAtMost k (first + second) (attempt d device step next)
  unfolding attempt
  attempt-IsAtMost device first second step next one others h =
      let ((r, s), h1) = step h in
      ground (
        arith,
        one h,
        others s h1,
        destroy_all-kept d (made k) (λ c h'. made-run d c h' k)
            (λ a b c h'. made-destroy a b c h' k) device s h1,
      )

  module _ (v : Versions) (embedded : Embedded) (cfg : Renderer.FrameRendererConfig) where
    layout-IsAtMost :
        (device : ℕ) (s : Renderer.HorizonRenderer)
        → IsAtMost k (same Kind.vk_pipeline_layout k) (create_pipeline_layout d device s)
    unfolding create_pipeline_layout kind_of
    layout-IsAtMost device s h =
        omega (arith, made-create d device (pipeline_layout_info push_constant_bytes) h k)

    cache-IsAtMost :
        (s : Renderer.HorizonRenderer)
        → IsAtMost k (same Kind.vk_pipeline_cache k) (init_cache d v embedded cfg s)
    unfolding init_cache
    cache-IsAtMost s h =
        cache_init-made d k v cfg.device cfg.phys_device embedded.data_ptr embedded.data_size
          s.pipeline_cache h

    bg-IsAtMost :
        (s : Renderer.HorizonRenderer)
        → IsAtMost k (same Kind.vk_pipeline k) (create_bg_pipeline d v embedded cfg s)
    unfolding create_bg_pipeline create_pipeline kind_of
    bg-IsAtMost s h =
        let info =
          pipeline_info s.pipeline_cache.cache bg_uuid false pool_entry_size s.pipeline_layout
            s.render_pass in
        omega (arith, made-create d cfg.device info h k)

    line-IsAtMost :
        (s : Renderer.HorizonRenderer)
        → IsAtMost k (same Kind.vk_pipeline k) (create_line_pipeline d v embedded cfg s)
    unfolding create_line_pipeline create_pipeline kind_of
    line-IsAtMost s h =
        let info =
          pipeline_info s.pipeline_cache.cache line_uuid true pool_entry_size s.pipeline_layout
            s.render_pass in
        omega (arith, made-create d cfg.device info h k)

    pool-IsAtMost :
        (s : Renderer.HorizonRenderer)
        → IsAtMost k (same Kind.vk_command_pool k) (init_pool d v embedded cfg s)
    unfolding init_pool
    pool-IsAtMost s h =
        pool_init-made d k cfg.device cfg.queue_family cmd_reserved_bytes 1 s.command_pool h

    allocate-IsAtMost :
        (s : Renderer.HorizonRenderer) → IsAtMost k 0 (allocate_cmd_buffer d v embedded cfg s)
    unfolding allocate_cmd_buffer
    allocate-IsAtMost s h = omega (
      arith,
      allocate-kept d (made k) (λ c h'. made-run d c h' k) (λ a b c h'. made-destroy a b c h' k)
          cfg.device 1 true s.command_pool h,
    )

    buffer-IsAtMost :
        (s : Renderer.HorizonRenderer)
        → IsAtMost k
            (same Kind.vk_buffer k + same Kind.vk_memory k)
            (init_vertex_buffer d v embedded cfg s)
    unfolding init_vertex_buffer
    buffer-IsAtMost s h =
        omega (arith, buffer_init-made d k cfg.device cfg.phys_device vbo_bytes s.vertex_buffer h)

    init_frames-IsAtMost :
        (views : List ℕ) (s : Renderer.HorizonRenderer)
        → cfg.image_count ≤ Renderer.max_framebuffers
        → IsAtMost k (frame_objects k) (init_frames d v embedded cfg views s)
    unfolding init_frames
    init_frames-IsAtMost views s few =
        attempt-IsAtMost cfg.device _ _ _ _
          (create_framebuffers-IsAtMost cfg.device views cfg.image_count s few)
          (λ s1. attempt-IsAtMost cfg.device _ _ _ _ (pool-IsAtMost s1) (λ s2.
            attempt-IsAtMost cfg.device 0 _ _ _ (allocate-IsAtMost s2) (λ s3.
              attempt-IsAtMost cfg.device _ 0 _ _ (buffer-IsAtMost s3) (λ s4 h. omega arith))))

    init_pipelines-IsAtMost :
        (views : List ℕ) (s : Renderer.HorizonRenderer)
        → cfg.image_count ≤ Renderer.max_framebuffers
        → IsAtMost k (pipeline_objects k) (init_pipelines d v embedded cfg views s)
    unfolding init_pipelines
    init_pipelines-IsAtMost views s few =
        let one = same Kind.vk_pipeline k in
        attempt-IsAtMost cfg.device _ _ _ _ (layout-IsAtMost cfg.device s) (λ s1.
          attempt-IsAtMost cfg.device _ _ _ _ (cache-IsAtMost s1) (λ s2.
            attempt-IsAtMost cfg.device one _ _ _ (bg-IsAtMost s2) (λ s3.
              attempt-IsAtMost cfg.device one _ _ _ (line-IsAtMost s3)
                (λ s4. init_frames-IsAtMost views s4 few))))

    init_render_pass-IsAtMost :
        (views : List ℕ) (s : Renderer.HorizonRenderer)
        → cfg.image_count ≤ Renderer.max_framebuffers
        → IsAtMost k (renderer_objects k) (init_render_pass d v embedded cfg views s)
    unfolding init_render_pass create_render_pass kind_of
    init_render_pass-IsAtMost views s few h =
        let info = render_pass_info cfg.color_format in
        let (pass, h1) = create d cfg.device info h in
        let s1 = record s { extent = cfg.extent; render_pass = pass.handle } in
        ground (arith, made-create d cfg.device info h k, init_pipelines-IsAtMost views s1 few h1)

    pub renderer_init-IsAtMost :
        (s : Renderer.HorizonRenderer)
        → IsAtMost k (renderer_objects k) (Renderer.Create.init d v embedded cfg s)
    unfolding Renderer.Create.init
    renderer_init-IsAtMost s h =
        let P : M (Result × Renderer.HorizonRenderer) → Type 0 =
          λ m. made k (m h).1 ≤ made k h + renderer_objects k in
        let nothing : made k h ≤ made k h + renderer_objects k = omega arith in
        if_elim P s.initialised (λ g. nothing)
          (λ g.
            if_elim P (cfg.device == 0 || cfg.phys_device == 0) (λ g. nothing)
              (λ g.
                option_elim P cfg.image_views (λ missing. nothing)
                  (λ views found.
                    if_elim P (cfg.image_count == 0) (λ g. nothing)
                      (λ g.
                        if_elim P (ltb Renderer.max_framebuffers cfg.image_count) (λ g. nothing)
                          (λ few.
                            if_elim P (cfg.color_format == 0) (λ g. nothing)
                              (λ g. init_render_pass-IsAtMost views s (ground (arith, few)) h))))))
