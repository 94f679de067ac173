-- ===== src/Renderer/Create.antt =====
-- app/rendering/horizon_renderer.cpp: `Init` and the creations that it calls. The Vulkan structures that are
-- constant but for what is passed to a creation are left out.
use soteria.Prelude.{
  ℕ, ◌*◌, Bool, true, false, ◌||◌, Option, none, some, List, [], ◌∷◌, ◌++◌, map, take, get_or,
  replicate, ltb, ◌==◌, if◌then◌else◌,
}
use soteria.Result.{
  Result, k_ok, k_invalid_argument, k_already_initialised, k_vksc_render_pass_failed,
  k_vksc_pipeline_layout_failed, k_vksc_pipeline_failed, k_vksc_framebuffer_failed, is_ok,
}
use soteria.Vulkan.Info.{
  Kind, Extent2D, pipeline_layout_info, pipeline_info, render_pass_info, framebuffer_info,
}
use soteria.Vulkan.{Driver, is_success, M, pure, ◌>>=◌, ◌>>◌, create, destroy}
use soteria.PipelineCache
use soteria.CommandPool
use soteria.VertexBuffer
use soteria.Renderer.{FrameRendererConfig, HorizonRenderer, max_framebuffers, destroy_all}

-- The bytes of `HorizonPushConstants`, eight floats.
abbrev pub push_constant_bytes : ℕ
push_constant_bytes = 32

-- `kPoolEntrySize`
abbrev pub pool_entry_size : ℕ
pool_entry_size = 8192

-- `kHorizonVertexCount`
abbrev pub horizon_vertex_count : ℕ
horizon_vertex_count = 94

-- `kVBOBytes`; a `Vertex2D` is two floats.
abbrev pub vbo_bytes : ℕ
vbo_bytes = horizon_vertex_count * 8

-- `kCmdReservedBytes`
abbrev pub cmd_reserved_bytes : ℕ
cmd_reserved_bytes = 131072

-- `kBgUuid`
abbrev pub bg_uuid : List ℕ
bg_uuid = 161 ∷ 162 ∷ 163 ∷ 164 ∷ 165 ∷ 166 ∷ 167 ∷ 168 ∷ replicate 8 0

-- `kLineUuid`
abbrev pub line_uuid : List ℕ
line_uuid = 177 ∷ 178 ∷ 179 ∷ 180 ∷ 181 ∷ 182 ∷ 183 ∷ 184 ∷ replicate 8 0

-- The roll-back of `CreateFramebuffers`.
unfoldable pub destroy_framebuffers : (device : ℕ) → List ℕ → M (Unit {0})
destroy_framebuffers device [] = pure tt
destroy_framebuffers device (framebuffer ∷ made) = do
  destroy device Kind.vk_framebuffer framebuffer
  destroy_framebuffers device made

-- What one of the creations of `Init` returns.
abbrev result_of : Bool → Result → Result
result_of made failure = if made then k_ok else failure

module _ (d : Driver) where
  -- `CreateRenderPass`
  unfoldable pub create_render_pass :
      (device color_format : ℕ) → HorizonRenderer → M (Result × HorizonRenderer)
  create_render_pass device color_format s = do
    made ← create d device (render_pass_info color_format)
    pure (
      result_of (is_success made.result) k_vksc_render_pass_failed,
      record s { render_pass = made.handle },
    )

  -- `CreatePipelineLayout`
  unfoldable pub create_pipeline_layout :
      (device : ℕ) → HorizonRenderer → M (Result × HorizonRenderer)
  create_pipeline_layout device s = do
    made ← create d device (pipeline_layout_info push_constant_bytes)
    pure (
      result_of (is_success made.result) k_vksc_pipeline_layout_failed,
      record s { pipeline_layout = made.handle },
    )

  -- `CreatePipeline`: the result, and what is written to `outPipeline`.
  unfoldable pub create_pipeline :
      (device : ℕ) (uuid : List ℕ) (has_vertex_input : Bool) → HorizonRenderer → M (Result × ℕ)
  create_pipeline device uuid has_vertex_input s = do
    made ← create d device (
        pipeline_info s.pipeline_cache.cache uuid has_vertex_input pool_entry_size s.pipeline_layout
          s.render_pass)
    pure (result_of (is_success made.result) k_vksc_pipeline_failed, made.handle)

  -- The loop of `CreateFramebuffers`: `made` are the slots already written, `slots` those from the next one
  -- on. It gives whether all framebuffers were created, and the slots afterwards.
  unfoldable pub make_framebuffers :
      (device render_pass : ℕ) → Extent2D → (made views slots : List ℕ) → M (Bool × List ℕ)
  make_framebuffers device render_pass extent made [] slots = pure (true, made ++ slots)
  make_framebuffers device render_pass extent made (view ∷ views) [] = pure (true, made)
  make_framebuffers device render_pass extent made (view ∷ views) (slot ∷ slots) = do
    framebuffer ← create d device (framebuffer_info render_pass view extent)
    if is_success framebuffer.result
        then make_framebuffers device render_pass extent (made ++ framebuffer.handle ∷ []) views
            slots
        else (do
          destroy_framebuffers device made
          pure (false, map (λ v. 0) made ++ framebuffer.handle ∷ slots))

  -- `CreateFramebuffers`; the array `views` has at least `count` elements.
  unfoldable pub create_framebuffers :
      (device : ℕ) (views : List ℕ) (count : ℕ) → HorizonRenderer → M (Result × HorizonRenderer)
  create_framebuffers device views count s = do
    made ← make_framebuffers device s.render_pass s.extent [] (take count views) s.framebuffers
    pure (
      result_of made.0 k_vksc_framebuffer_failed,
      record s {
        framebuffers = made.1;
        framebuffer_count = if made.0 then count else s.framebuffer_count;
      },
    )

  -- A step of `Init`, and what follows it: where the step fails, `DestroyAll` and the step's result.
  unfoldable pub attempt :
      ℕ
      → M (Result × HorizonRenderer)
      → (HorizonRenderer → M (Result × HorizonRenderer))
      → M (Result × HorizonRenderer)
  attempt device step next = do
    done ← step
    if is_ok done.0 then next done.1 else (do s ← destroy_all d device done.1; pure (done.0, s))

-- The embedded pipeline cache, `kPipelineCacheData` with its size, which the build generates.
pub record Embedded : Type 0 where
  pub data_ptr : Option (List ℕ)
  pub data_size : ℕ

module _ (d : Driver) (v : PipelineCache.Versions) (embedded : Embedded) where
  -- `m_pipelineCache.Init`
  unfoldable pub init_cache : FrameRendererConfig → HorizonRenderer → M (Result × HorizonRenderer)
  init_cache cfg s = do
    done ←
        PipelineCache.init d v cfg.device cfg.phys_device embedded.data_ptr embedded.data_size
          s.pipeline_cache
    pure (done.0, record s { pipeline_cache = done.1 })

  -- `CreatePipeline` for `m_bgPipeline`
  unfoldable pub create_bg_pipeline :
      FrameRendererConfig → HorizonRenderer → M (Result × HorizonRenderer)
  create_bg_pipeline cfg s = do
    done ← create_pipeline d cfg.device bg_uuid false s
    pure (done.0, record s { bg_pipeline = done.1 })

  -- `CreatePipeline` for `m_linePipeline`
  unfoldable pub create_line_pipeline :
      FrameRendererConfig → HorizonRenderer → M (Result × HorizonRenderer)
  create_line_pipeline cfg s = do
    done ← create_pipeline d cfg.device line_uuid true s
    pure (done.0, record s { line_pipeline = done.1 })

  -- `m_commandPool.Init`
  unfoldable pub init_pool : FrameRendererConfig → HorizonRenderer → M (Result × HorizonRenderer)
  init_pool cfg s = do
    done ← CommandPool.init d cfg.device cfg.queue_family cmd_reserved_bytes 1 s.command_pool
    pure (done.0, record s { command_pool = done.1 })

  -- `m_commandPool.AllocateBuffers` into `m_cmdBuffer`
  unfoldable pub allocate_cmd_buffer :
      FrameRendererConfig → HorizonRenderer → M (Result × HorizonRenderer)
  allocate_cmd_buffer cfg s = do
    done ← CommandPool.allocate_buffers d cfg.device 1 true s.command_pool
    pure (done.0, record s { cmd_buffer = get_or done.1 0 s.cmd_buffer })

  -- `m_vertexBuffer.Init`
  unfoldable pub init_vertex_buffer :
      FrameRendererConfig → HorizonRenderer → M (Result × HorizonRenderer)
  init_vertex_buffer cfg s = do
    done ← VertexBuffer.init d cfg.device cfg.phys_device vbo_bytes s.vertex_buffer
    pure (done.0, record s { vertex_buffer = done.1 })

  -- `Init` from the framebuffers on.
  unfoldable pub init_frames :
      FrameRendererConfig → List ℕ → HorizonRenderer → M (Result × HorizonRenderer)
  init_frames cfg views s =
      attempt d cfg.device (create_framebuffers d cfg.device views cfg.image_count s) λ s1.
        attempt d cfg.device (init_pool cfg s1) λ s2.
          attempt d cfg.device (allocate_cmd_buffer cfg s2) λ s3.
            attempt d cfg.device (init_vertex_buffer cfg s3)
              λ s4. pure (k_ok, record s4 { initialised = true })

  -- `Init` from the pipeline layout on.
  unfoldable pub init_pipelines :
      FrameRendererConfig → List ℕ → HorizonRenderer → M (Result × HorizonRenderer)
  init_pipelines cfg views s = attempt d cfg.device (create_pipeline_layout d cfg.device s) λ s1.
      attempt d cfg.device (init_cache cfg s1) λ s2.
        attempt d cfg.device (create_bg_pipeline cfg s2)
          λ s3. attempt d cfg.device (create_line_pipeline cfg s3) λ s4. init_frames cfg views s4

  -- `Init` after its checks. A render pass that cannot be created is not followed by `DestroyAll`.
  unfoldable pub init_render_pass :
      FrameRendererConfig → List ℕ → HorizonRenderer → M (Result × HorizonRenderer)
  init_render_pass cfg views s = do
    done ← create_render_pass d cfg.device cfg.color_format (record s { extent = cfg.extent })
    if is_ok done.0 then init_pipelines cfg views done.1 else pure done

  -- `Init`. `VK_FORMAT_UNDEFINED` is 0.
  unfoldable pub init : FrameRendererConfig → HorizonRenderer → M (Result × HorizonRenderer)
  init cfg s =
      if s.initialised
      then pure (k_already_initialised, s)
      else if cfg.device == 0 || cfg.phys_device == 0
      then pure (k_invalid_argument, s)
      else elim cfg.image_views [
        | none ↦ pure (k_invalid_argument, s)
        | some views ↦
            if cfg.image_count == 0
            then pure (k_invalid_argument, s)
            else if ltb max_framebuffers cfg.image_count
            then pure (k_invalid_argument, s)
            else if cfg.color_format == 0
            then pure (k_invalid_argument, s)
            else init_render_pass cfg views s
      ]
