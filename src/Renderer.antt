-- ===== src/Renderer.antt =====
-- app/rendering/horizon_renderer.hpp and horizon_renderer.cpp: `HorizonRenderer`, the objects that the
-- horizon is drawn with, and their destruction, which Renderer/Life accounts for. Renderer/Create is `Init`;
-- Renderer/Framebuffers, Outcomes, Steps and Initialise account for what it creates. Renderer/Record is
-- `RecordFrame` and Renderer/Frame what it records; Quiet and Kept say what neither it nor the destruction
-- changes.
pub mod Create
mod Framebuffers
pub mod Outcomes
pub mod Steps
pub mod Initialise
pub mod Life
pub mod Record
pub mod Quiet
pub mod Kept
pub mod Frame
mod Examples
use soteria.Prelude.{
  ℕ, zero, suc, ◌+◌, ◌*◌, Bool, true, false, not, ◌&&◌, ◌||◌, Option, none, some, List, [], ◌∷◌,
  ◌++◌, length, map, replicate, ltb, ◌==◌, if◌then◌else◌,
}
use soteria.Result.{
  Result, k_ok, k_invalid_argument, k_already_initialised, k_vksc_render_pass_failed,
  k_vksc_pipeline_layout_failed, k_vksc_pipeline_failed, k_vksc_framebuffer_failed, is_ok,
}
use soteria.Vulkan.Info.{
  Kind, Extent2D, pipeline_layout_info, pipeline_info, render_pass_info, framebuffer_info,
}
use soteria.Vulkan.{Driver, is_success, M, pure, ◌>>=◌, ◌>>◌, create, destroy, destroy_if_set}
use soteria.PipelineCache
use soteria.CommandPool
use soteria.VertexBuffer

-- `FrameRendererConfig`; `none` is the null pointer.
pub record FrameRendererConfig : Type 0 where
  pub phys_device : ℕ
  pub device : ℕ
  pub queue_family : ℕ
  pub color_format : ℕ
  pub extent : Extent2D
  pub image_views : Option (List ℕ)
  pub image_count : ℕ

pub record HorizonRenderer : Type 0 where
  pub pipeline_cache : PipelineCache.PipelineCacheSc
  pub vertex_buffer : VertexBuffer.VertexBuffer
  pub command_pool : CommandPool.CommandPool
  pub render_pass : ℕ
  pub pipeline_layout : ℕ
  pub bg_pipeline : ℕ
  pub line_pipeline : ℕ
  pub cmd_buffer : ℕ
  pub framebuffers : List ℕ
  pub framebuffer_count : ℕ
  pub extent : Extent2D
  pub initialised : Bool

-- `kMaxFramebuffers`
abbrev pub max_framebuffers : ℕ
max_framebuffers = 3

-- A new object.
abbrev pub fresh : HorizonRenderer
fresh = record {
  pipeline_cache = PipelineCache.fresh;
  vertex_buffer = VertexBuffer.fresh;
  command_pool = CommandPool.fresh;
  render_pass = 0;
  pipeline_layout = 0;
  bg_pipeline = 0;
  line_pipeline = 0;
  cmd_buffer = 0;
  framebuffers = replicate max_framebuffers 0;
  framebuffer_count = 0;
  extent = record { width = 0; height = 0 };
  initialised = false;
}

-- The loop of `DestroyAll` over the first `count` framebuffers.
unfoldable pub clear_framebuffers : (device count : ℕ) → List ℕ → M (List ℕ)
clear_framebuffers device zero slots = pure slots
clear_framebuffers device (suc count) [] = pure []
clear_framebuffers device (suc count) (framebuffer ∷ slots) = do
  destroy_if_set device Kind.vk_framebuffer framebuffer
  rest ← clear_framebuffers device count slots
  pure (0 ∷ rest)

module _ (d : Driver) where
  -- `DestroyAll` after its check of the device.
  unfoldable pub destroy_objects : ℕ → HorizonRenderer → M HorizonRenderer
  destroy_objects device s = do
    buffer ← VertexBuffer.shutdown d device s.vertex_buffer
    pool ← CommandPool.shutdown d device s.command_pool
    slots ← clear_framebuffers device s.framebuffer_count s.framebuffers
    destroy_if_set device Kind.vk_pipeline s.line_pipeline
    destroy_if_set device Kind.vk_pipeline s.bg_pipeline
    cache ← PipelineCache.shutdown device s.pipeline_cache
    destroy_if_set device Kind.vk_pipeline_layout s.pipeline_layout
    destroy_if_set device Kind.vk_render_pass s.render_pass
    pure (record s {
      vertex_buffer = buffer;
      cmd_buffer = 0;
      command_pool = pool;
      framebuffers = slots;
      framebuffer_count = 0;
      line_pipeline = 0;
      bg_pipeline = 0;
      pipeline_cache = cache;
      pipeline_layout = 0;
      render_pass = 0;
      initialised = false;
    })

  -- `DestroyAll`, and `Shutdown`, which only calls it.
  unfoldable pub destroy_all : ℕ → HorizonRenderer → M HorizonRenderer
  destroy_all device s = if device == 0 then pure s else destroy_objects device s
