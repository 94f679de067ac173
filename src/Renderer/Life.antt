-- ===== src/Renderer/Life.antt =====
-- app/rendering/horizon_renderer.cpp: `DestroyAll` accounts for the objects of the renderer.
use soteria.Prelude.{ℕ, zero, suc, ◌+◌, ◌≡◌, ◌≢◌, List, [], ◌∷◌, arith, take}
use soteria.Vulkan.Info.{Kind}
use soteria.Vulkan.{Driver, History, destroy_if_set}
use soteria.Vulkan.Live.{Object, one, live, live-destroy_if_set, one-null}
use soteria.PipelineCache
use soteria.PipelineCache.Life.{cache_owned, cache_shutdown-live}
use soteria.CommandPool
use soteria.CommandPool.Life.{shutdown-live}
use soteria.VertexBuffer
use soteria.VertexBuffer.Life.{buffer_owned, vertex_buffer_shutdown-live}
use soteria.Renderer.{HorizonRenderer, clear_framebuffers, destroy_objects, destroy_all}

-- How often the object is among the framebuffers.
abbrev pub framebuffers_owned : List ℕ → Object → ℕ
framebuffers_owned [] o = 0
framebuffers_owned (framebuffer ∷ slots) o =
    one Kind.vk_framebuffer framebuffer o + framebuffers_owned slots o

-- The objects that the renderer holds, initialised or not.
abbrev pub renderer_owned : HorizonRenderer → Object → ℕ
renderer_owned s o =
    buffer_owned s.vertex_buffer o
    + framebuffers_owned (take s.framebuffer_count s.framebuffers) o
    + one Kind.vk_pipeline s.line_pipeline o
    + one Kind.vk_pipeline s.bg_pipeline o
    + cache_owned s.pipeline_cache o
    + one Kind.vk_pipeline_layout s.pipeline_layout o
    + one Kind.vk_render_pass s.render_pass o

clear_framebuffers-live :
    (device count : ℕ) (slots : List ℕ) (h : History) (o : Object) (rest : ℕ)
    → live h o ≡ framebuffers_owned (take count slots) o + rest
    → live (clear_framebuffers device count slots h).1 o ≡ rest
unfolding clear_framebuffers
clear_framebuffers-live device zero slots h o rest e = omega (arith, e)
clear_framebuffers-live device (suc count) [] h o rest e = omega (arith, e)
clear_framebuffers-live device (suc count) (framebuffer ∷ slots) h o rest e =
    clear_framebuffers-live device count slots
      (destroy_if_set device Kind.vk_framebuffer framebuffer h).1 o rest
      (omega (arith, e, live-destroy_if_set device Kind.vk_framebuffer framebuffer h o))

buffer_empty :
    (d : Driver) (device : ℕ) (b : VertexBuffer.VertexBuffer) (h : History) (o : Object)
    → buffer_owned (VertexBuffer.shutdown d device b h).0 o ≡ 0
unfolding VertexBuffer.shutdown
buffer_empty d device b h o = ground arith

cache_empty :
    (device : ℕ) (c : PipelineCache.PipelineCacheSc) (h : History) (o : Object)
    → cache_owned (PipelineCache.shutdown device c h).0 o ≡ 0
unfolding PipelineCache.shutdown
cache_empty device c h o = ground arith

-- Where an object is alive as often as the renderer holds it, and `rest` times more, `DestroyAll` for a device
-- that is not null leaves it alive just `rest` times, and the renderer holding nothing. This is so in
-- every state, also after an initialisation that stopped half-way.
pub destroy_all-live :
    (d : Driver) (device : ℕ) (s : HorizonRenderer) (h : History) (o : Object) (rest : ℕ)
    → device ≢ 0
    → live h o ≡ renderer_owned s o + rest
    → (live (destroy_all d device s h).1 o ≡ rest)
      × (renderer_owned (destroy_all d device s h).0 o ≡ 0)
unfolding destroy_all destroy_objects
destroy_all-live d device s h o rest given e =
    let (b, h1) = VertexBuffer.shutdown d device s.vertex_buffer h in
    let (p, h2) = CommandPool.shutdown d device s.command_pool h1 in
    let (f, h3) = clear_framebuffers device s.framebuffer_count s.framebuffers h2 in
    let h4 = (destroy_if_set device Kind.vk_pipeline s.line_pipeline h3).1 in
    let h5 = (destroy_if_set device Kind.vk_pipeline s.bg_pipeline h4).1 in
    let (c, h6) = PipelineCache.shutdown device s.pipeline_cache h5 in
    let h7 = (destroy_if_set device Kind.vk_pipeline_layout s.pipeline_layout h6).1 in
    let objects =
      one Kind.vk_pipeline s.line_pipeline o
      + one Kind.vk_pipeline s.bg_pipeline o
      + cache_owned s.pipeline_cache o
      + one Kind.vk_pipeline_layout s.pipeline_layout o
      + one Kind.vk_render_pass s.render_pass o
      + rest in
    let e1 : live h1 o ≡ framebuffers_owned (take s.framebuffer_count s.framebuffers) o + objects =
      omega (
        arith,
        vertex_buffer_shutdown-live d device s.vertex_buffer h o
            (framebuffers_owned (take s.framebuffer_count s.framebuffers) o + objects)
            (omega (arith, e)),
        buffer_empty d device s.vertex_buffer h o,
      ) in
    let e2 : live h2 o ≡ framebuffers_owned (take s.framebuffer_count s.framebuffers) o + objects =
      omega (arith, e1, shutdown-live d device s.command_pool h1 o) in
    let e3 : live h3 o ≡ objects =
      clear_framebuffers-live device s.framebuffer_count s.framebuffers h2 o objects e2 in
    let e5 : live h5 o
        ≡ cache_owned s.pipeline_cache o
          + (one Kind.vk_pipeline_layout s.pipeline_layout o
              + one Kind.vk_render_pass s.render_pass o
              + rest) =
      omega (
        arith,
        e3,
        live-destroy_if_set device Kind.vk_pipeline s.line_pipeline h3 o,
        live-destroy_if_set device Kind.vk_pipeline s.bg_pipeline h4 o,
      ) in
    let e6 =
      cache_shutdown-live device s.pipeline_cache h5 o
        (one Kind.vk_pipeline_layout s.pipeline_layout o
          + one Kind.vk_render_pass s.render_pass o
          + rest)
        e5 in
    (
      ground (
        arith,
        given,
        e6,
        cache_empty device s.pipeline_cache h5 o,
        live-destroy_if_set device Kind.vk_pipeline_layout s.pipeline_layout h6 o,
        live-destroy_if_set device Kind.vk_render_pass s.render_pass h7 o,
      ),
      ground (
        arith,
        given,
        buffer_empty d device s.vertex_buffer h o,
        cache_empty device s.pipeline_cache h5 o,
        one-null Kind.vk_pipeline o,
        one-null Kind.vk_pipeline_layout o,
        one-null Kind.vk_render_pass o,
      ),
    )
