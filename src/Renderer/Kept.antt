-- ===== src/Renderer/Kept.antt =====
-- app/rendering/horizon_renderer.cpp: `DestroyAll`, and the `Shutdown` operations it calls, only give
-- commands and destroy: a number of the history that neither changes stays.
use soteria.Prelude.{ℕ, zero, suc, ◌∙◌, ◌≡◌, refl, Bool, List, [], ◌∷◌, arith}
use soteria.Vulkan.Info.{Kind, unmap_memory, reset_command_pool, allocate_command_buffers}
use soteria.Vulkan.{Driver, History, run, destroy_if_set}
use soteria.Vulkan.Made.{IsQuiet, IsKept}
use soteria.PipelineCache
use soteria.CommandPool
use soteria.VertexBuffer
use soteria.Renderer

module _ (d : Driver) (f : History → ℕ) (quiet : IsQuiet d f) (kept : IsKept f) where
  pub kept_if_set :
      (owner : ℕ) (kind : Kind) (handle : ℕ) (h : History)
      → f (destroy_if_set owner kind handle h).1 ≡ f h
  unfolding destroy_if_set
  kept_if_set owner kind handle h = ground (arith, kept owner kind handle h)

  pub buffer_shutdown-kept :
      (device : ℕ) (b : VertexBuffer.VertexBuffer) (h : History)
      → f (VertexBuffer.shutdown d device b h).1 ≡ f h
  unfolding VertexBuffer.shutdown
  buffer_shutdown-kept device b h =
      let unmap = unmap_memory device b.memory in
      ground (
        arith,
        quiet unmap h,
        kept_if_set device Kind.vk_buffer b.buffer h,
        kept_if_set device Kind.vk_buffer b.buffer (run d unmap h).1,
      )

  pub allocate-kept :
      (device count : ℕ) (has_out : Bool) (p : CommandPool.CommandPool) (h : History)
      → f (CommandPool.allocate_buffers d device count has_out p h).1 ≡ f h
  unfolding CommandPool.allocate_buffers
  allocate-kept device count has_out p h =
      ground (arith, quiet (allocate_command_buffers device p.pool count) h)

  pub pool_shutdown-kept :
      (device : ℕ) (p : CommandPool.CommandPool) (h : History)
      → f (CommandPool.shutdown d device p h).1 ≡ f h
  unfolding CommandPool.shutdown
  pool_shutdown-kept device p h = ground (arith, quiet (reset_command_pool device p.pool) h)

  pub cache_shutdown-kept :
      (device : ℕ) (c : PipelineCache.PipelineCacheSc) (h : History)
      → f (PipelineCache.shutdown device c h).1 ≡ f h
  unfolding PipelineCache.shutdown
  cache_shutdown-kept device c h =
      ground (arith, kept_if_set device Kind.vk_pipeline_cache c.cache h)

  pub clear_framebuffers-kept :
      (device count : ℕ) (slots : List ℕ) (h : History)
      → f (Renderer.clear_framebuffers device count slots h).1 ≡ f h
  unfolding Renderer.clear_framebuffers
  clear_framebuffers-kept device zero slots h = refl
  clear_framebuffers-kept device (suc count) [] h = refl
  clear_framebuffers-kept device (suc count) (framebuffer ∷ slots) h =
      let h1 = (destroy_if_set device Kind.vk_framebuffer framebuffer h).1 in
      clear_framebuffers-kept device count slots h1
      ∙ kept_if_set device Kind.vk_framebuffer framebuffer h

  pub destroy_objects-kept :
      (device : ℕ) (s : Renderer.HorizonRenderer) (h : History)
      → f (Renderer.destroy_objects d device s h).1 ≡ f h
  unfolding Renderer.destroy_objects
  destroy_objects-kept device s h =
      let h1 = (VertexBuffer.shutdown d device s.vertex_buffer h).1 in
      let h2 = (CommandPool.shutdown d device s.command_pool h1).1 in
      let h3 = (Renderer.clear_framebuffers device s.framebuffer_count s.framebuffers h2).1 in
      let h4 = (destroy_if_set device Kind.vk_pipeline s.line_pipeline h3).1 in
      let h5 = (destroy_if_set device Kind.vk_pipeline s.bg_pipeline h4).1 in
      let h6 = (PipelineCache.shutdown device s.pipeline_cache h5).1 in
      let h7 = (destroy_if_set device Kind.vk_pipeline_layout s.pipeline_layout h6).1 in
      kept_if_set device Kind.vk_render_pass s.render_pass h7
      ∙ kept_if_set device Kind.vk_pipeline_layout s.pipeline_layout h6
      ∙ cache_shutdown-kept device s.pipeline_cache h5
      ∙ kept_if_set device Kind.vk_pipeline s.bg_pipeline h4
      ∙ kept_if_set device Kind.vk_pipeline s.line_pipeline h3
      ∙ clear_framebuffers-kept device s.framebuffer_count s.framebuffers h2
      ∙ pool_shutdown-kept device s.command_pool h1
      ∙ buffer_shutdown-kept device s.vertex_buffer h

  pub destroy_all-kept :
      (device : ℕ) (s : Renderer.HorizonRenderer) (h : History)
      → f (Renderer.destroy_all d device s h).1 ≡ f h
  unfolding Renderer.destroy_all
  destroy_all-kept device s h = ground (arith, destroy_objects-kept device s h)
