-- ===== src/Renderer/Steps.antt =====
-- app/rendering/horizon_renderer.cpp: each creation of `Init` accounts for its object.
use soteria.Prelude.{
  inl, inr, ℕ, ◌+◌, ◌≤◌, ◌≡◌, true, false, List, [], arith, length, take, length-take,
}
use soteria.Result.{k_ok}
use soteria.Vulkan.Info.{Kind, kind_of, render_pass_info, pipeline_layout_info, pipeline_info}
use soteria.Vulkan.{Driver, History, create}
use soteria.Vulkan.Live.{Object, one, live, one-null}
use soteria.Vulkan.Made.{is_trusted, strays}
use soteria.PipelineCache.{Versions}
use soteria.PipelineCache.Life.{cache_owned, cache_init-live}
use soteria.CommandPool.Life.{init-live, allocate_buffers-live}
use soteria.VertexBuffer.Life.{buffer_owned, vertex_buffer_init-live}
use soteria.Renderer.{FrameRendererConfig, HorizonRenderer, max_framebuffers}
use soteria.Renderer.Life.{framebuffers_owned}
use soteria.Renderer.Create.{
  push_constant_bytes, pool_entry_size, bg_uuid, line_uuid, cmd_reserved_bytes, vbo_bytes, Embedded,
  create_render_pass, create_pipeline_layout, create_pipeline, create_bg_pipeline,
  create_line_pipeline, create_framebuffers, init_cache, init_pool, allocate_cmd_buffer,
  init_vertex_buffer,
}
use soteria.Renderer.Framebuffers.{make_framebuffers-live, length-make_framebuffers}
use soteria.Renderer.Outcomes.{Holds, Stepped, strayed_or_null}

module _ (d : Driver) (o : Object) (rest : ℕ) where
  pub create_render_pass-Stepped :
      (device color_format : ℕ) (s : HorizonRenderer) (h : History)
      → one Kind.vk_render_pass s.render_pass o ≡ 0
      → Holds o rest ((k_ok, s), h)
      → Stepped o rest (create_render_pass d device color_format s h)
  unfolding create_render_pass create kind_of live strays is_trusted
  create_render_pass-Stepped device color_format s h unset (e, room) =
      let info = render_pass_info color_format in
      elim (strayed_or_null (d.creates h device info)) [
        | inl (failed, set) ↦ inl (ground (arith, failed), ground (arith, failed, set))
        | inr null ↦ inr (ground (arith, null, one-null Kind.vk_render_pass o, unset, e), room)
      ]

  pub create_pipeline_layout-Stepped :
      (device : ℕ) (s : HorizonRenderer) (h : History)
      → one Kind.vk_pipeline_layout s.pipeline_layout o ≡ 0
      → Holds o rest ((k_ok, s), h)
      → Stepped o rest (create_pipeline_layout d device s h)
  unfolding create_pipeline_layout create kind_of live strays is_trusted
  create_pipeline_layout-Stepped device s h unset (e, room) =
      let info = pipeline_layout_info push_constant_bytes in
      elim (strayed_or_null (d.creates h device info)) [
        | inl (failed, set) ↦ inl (ground (arith, failed), ground (arith, failed, set))
        | inr null ↦ inr (ground (arith, null, one-null Kind.vk_pipeline_layout o, unset, e), room)
      ]

  pub init_cache-Holds :
      (v : Versions) (embedded : Embedded) (cfg : FrameRendererConfig) (s : HorizonRenderer)
      (h : History)
      → Holds o rest ((k_ok, s), h)
      → Holds o rest (init_cache d v embedded cfg s h)
  unfolding init_cache
  init_cache-Holds v embedded cfg s h (e, room) =
      let others =
        buffer_owned s.vertex_buffer o
        + framebuffers_owned (take s.framebuffer_count s.framebuffers) o
        + one Kind.vk_pipeline s.line_pipeline o
        + one Kind.vk_pipeline s.bg_pipeline o
        + one Kind.vk_pipeline_layout s.pipeline_layout o
        + one Kind.vk_render_pass s.render_pass o
        + rest in
      let made =
        cache_init-live d v cfg.device cfg.phys_device embedded.data_ptr embedded.data_size
          s.pipeline_cache h o others (omega (arith, e)) in
      (omega (arith, made), room)

  pub create_bg_pipeline-Stepped :
      (v : Versions) (embedded : Embedded) (cfg : FrameRendererConfig) (s : HorizonRenderer)
      (h : History)
      → one Kind.vk_pipeline s.bg_pipeline o ≡ 0
      → Holds o rest ((k_ok, s), h)
      → Stepped o rest (create_bg_pipeline d v embedded cfg s h)
  unfolding create_bg_pipeline create_pipeline create kind_of live strays is_trusted
  create_bg_pipeline-Stepped v embedded cfg s h unset (e, room) =
      let info =
        pipeline_info s.pipeline_cache.cache bg_uuid false pool_entry_size s.pipeline_layout
          s.render_pass in
      elim (strayed_or_null (d.creates h cfg.device info)) [
        | inl (failed, set) ↦ inl (ground (arith, failed), ground (arith, failed, set))
        | inr null ↦ inr (ground (arith, null, one-null Kind.vk_pipeline o, unset, e), room)
      ]

  pub create_line_pipeline-Stepped :
      (v : Versions) (embedded : Embedded) (cfg : FrameRendererConfig) (s : HorizonRenderer)
      (h : History)
      → one Kind.vk_pipeline s.line_pipeline o ≡ 0
      → Holds o rest ((k_ok, s), h)
      → Stepped o rest (create_line_pipeline d v embedded cfg s h)
  unfolding create_line_pipeline create_pipeline create kind_of live strays is_trusted
  create_line_pipeline-Stepped v embedded cfg s h unset (e, room) =
      let info =
        pipeline_info s.pipeline_cache.cache line_uuid true pool_entry_size s.pipeline_layout
          s.render_pass in
      elim (strayed_or_null (d.creates h cfg.device info)) [
        | inl (failed, set) ↦ inl (ground (arith, failed), ground (arith, failed, set))
        | inr null ↦ inr (ground (arith, null, one-null Kind.vk_pipeline o, unset, e), room)
      ]

  pub create_framebuffers-Holds :
      (device : ℕ) (views : List ℕ) (count : ℕ) (s : HorizonRenderer) (h : History)
      → s.framebuffer_count ≡ 0
      → count ≤ length views
      → count ≤ max_framebuffers
      → Holds o rest ((k_ok, s), h)
      → Holds o rest (create_framebuffers d device views count s h)
  unfolding create_framebuffers
  create_framebuffers-Holds device views count s h empty enough few (e, room) =
      let others =
        buffer_owned s.vertex_buffer o
        + one Kind.vk_pipeline s.line_pipeline o
        + one Kind.vk_pipeline s.bg_pipeline o
        + cache_owned s.pipeline_cache o
        + one Kind.vk_pipeline_layout s.pipeline_layout o
        + one Kind.vk_render_pass s.render_pass o
        + rest in
      let n : length (take count views) ≡ count = omega (arith, enough, length-take count views) in
      let fits : length (take count views) ≤ length s.framebuffers = omega (arith, n, few, room) in
      let alive : live h o ≡ framebuffers_owned [] o + others = ground (arith, e, empty) in
      let made =
        make_framebuffers-live d device s.render_pass s.extent [] (take count views) s.framebuffers
          h o others count fits (omega (arith, n)) alive in
      let size =
        length-make_framebuffers d device s.render_pass s.extent [] (take count views)
          s.framebuffers h fits in
      (ground (arith, made, empty), omega (arith, size, room))

  pub init_pool-Holds :
      (v : Versions) (embedded : Embedded) (cfg : FrameRendererConfig) (s : HorizonRenderer)
      (h : History)
      → Holds o rest ((k_ok, s), h)
      → Holds o rest (init_pool d v embedded cfg s h)
  unfolding init_pool
  init_pool-Holds v embedded cfg s h (e, room) = (
    omega
        (arith, e, init-live d cfg.device cfg.queue_family cmd_reserved_bytes 1 s.command_pool h o),
    room,
  )

  pub allocate_cmd_buffer-Holds :
      (v : Versions) (embedded : Embedded) (cfg : FrameRendererConfig) (s : HorizonRenderer)
      (h : History)
      → Holds o rest ((k_ok, s), h)
      → Holds o rest (allocate_cmd_buffer d v embedded cfg s h)
  unfolding allocate_cmd_buffer
  allocate_cmd_buffer-Holds v embedded cfg s h (e, room) =
      (omega (arith, e, allocate_buffers-live d cfg.device 1 true s.command_pool h o), room)

  pub init_vertex_buffer-Holds :
      (v : Versions) (embedded : Embedded) (cfg : FrameRendererConfig) (s : HorizonRenderer)
      (h : History)
      → Holds o rest ((k_ok, s), h)
      → Holds o rest (init_vertex_buffer d v embedded cfg s h)
  unfolding init_vertex_buffer
  init_vertex_buffer-Holds v embedded cfg s h (e, room) =
      let others =
        framebuffers_owned (take s.framebuffer_count s.framebuffers) o
        + one Kind.vk_pipeline s.line_pipeline o
        + one Kind.vk_pipeline s.bg_pipeline o
        + cache_owned s.pipeline_cache o
        + one Kind.vk_pipeline_layout s.pipeline_layout o
        + one Kind.vk_render_pass s.render_pass o
        + rest in
      let made =
        vertex_buffer_init-live d cfg.device cfg.phys_device vbo_bytes s.vertex_buffer h o others
          (omega (arith, e)) in
      (omega (arith, made), room)

  pub framebuffer_count-fits :
      (device : ℕ) (views : List ℕ) (count : ℕ) (s : HorizonRenderer) (h : History)
      → s.framebuffer_count ≡ 0
      → count ≤ max_framebuffers
      → (create_framebuffers d device views count s h).0.1.framebuffer_count ≤ max_framebuffers
  unfolding create_framebuffers
  framebuffer_count-fits device views count s h empty few = ground (arith, empty, few)
