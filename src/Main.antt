-- ===== src/Main.antt =====
-- app/main.cpp: the objects of the application, the start-up in its order and `ShutdownAll`. Main/Loop is the
-- frame loop and `main`; Main/Budget, Main/Invariant and Main/Frames are about the loop, Main/Device,
-- Main/Closing, Main/Balance and Main/Whole account for all objects from the start to the end. Main/Creations,
-- Main/Starting, Main/RendererInit, Main/Destructions, Main/Quiet and Main/Reserved count creations.
pub mod Loop
pub mod Budget
mod Invariant
pub mod Frames
pub mod Device
pub mod Closing
pub mod Balance
mod Quiet
mod Creations
mod Starting
mod RendererInit
mod Destructions
pub mod Whole
pub mod Reserved
mod Examples
use soteria.Prelude.{
  ℕ, zero, suc, ◌+◌, Bool, true, false, not, Option, some, List, [], ◌∷◌, set, replicate, ◌==◌,
  if◌then◌else◌,
}
use soteria.Result.{Result, is_ok}
use soteria.Vulkan.Info.{Reservation, device_wait_idle}
use soteria.Vulkan.{Driver, M, pure, ◌>>=◌, ◌>>◌, run}
use soteria.PipelineCache
use soteria.Context
use soteria.DisplayOutput
use soteria.Swapchain
use soteria.Renderer
use soteria.Renderer.Create
use soteria.FrameSync

-- The objects that `main` declares.
pub record Objects : Type 0 where
  pub ctx : Context.VkscContext
  pub display : DisplayOutput.DisplayOutput
  pub swapchain : Swapchain.SwapchainSc
  pub renderer : Renderer.HorizonRenderer
  pub sync : FrameSync.FrameSync

-- All of them new.
abbrev pub fresh : Objects
fresh = record {
  ctx = Context.fresh;
  display = DisplayOutput.fresh;
  swapchain = Swapchain.fresh;
  renderer = Renderer.fresh;
  sync = FrameSync.fresh;
}

-- `cfg.resources` of `BuildContextConfig`; what it does not set keeps the default of `vksc_context.hpp`.
abbrev pub resources : Reservation
resources = record {
  semaphores = 2;
  command_buffers = 1;
  fences = 1;
  device_memory_allocations = 1;
  buffers = 1;
  images = 0;
  image_views = Swapchain.max_images;
  layered_image_views = 0;
  pipeline_caches = 1;
  pipeline_layouts = 1;
  render_passes = 1;
  graphics_pipelines = 2;
  compute_pipelines = 0;
  framebuffers = Swapchain.max_images;
  command_pools = 1;
  swapchains = 1;
  surfaces = 1;
  subpass_descriptions = 1;
  attachment_descriptions = 1;
  descriptor_set_layouts = 0;
  descriptor_pools = 0;
  descriptor_sets = 0;
  samplers = 0;
  max_image_view_mip_levels = 1;
  max_image_view_array_layers = 1;
}

-- `BuildContextConfig`, given the number of the emulation driver in `VkDriverId`.
abbrev pub build_context_config : (emulation_driver_id : ℕ) → Context.VkscContextConfig
build_context_config emulation_driver_id = record {
  app_name = some "soteria-horizon";
  engine_name = some "soteria";
  max_physical_devices = Context.max_physical_devices;
  instance_extensions = "VK_KHR_surface" ∷ "VK_KHR_display" ∷ [];
  instance_extension_count = 2;
  device_extensions = "VK_KHR_swapchain" ∷ [];
  device_extension_count = 1;
  resources = resources;
  pipeline_cache_info_count = 1;
  pipeline_pool_size_count = 1;
  preferred_driver_id = emulation_driver_id;
}

-- The loop that copies `left` image views from the index `i` on. A swapchain that is initialised counts no
-- more images than the array has places.
unfoldable pub fill_views : Swapchain.SwapchainSc → (i left : ℕ) → List ℕ → List ℕ
fill_views s i zero views = views
fill_views s i (suc left) views = fill_views s (i + 1) left (set views i (Swapchain.image_view s i))

module _ (d : Driver) where
  -- `vkDeviceWaitIdle`, whose result is only logged, unless the device is null.
  unfoldable pub wait_idle : (device : ℕ) → M (Unit {0})
  wait_idle device =
      if device == 0 then pure tt else do _ ← run d (device_wait_idle device); pure tt

  -- `ShutdownAll`
  unfoldable pub shutdown_all : Objects → M Objects
  shutdown_all o = do
    wait_idle o.ctx.device
    sync ← FrameSync.shutdown o.ctx.device o.sync
    renderer ← Renderer.destroy_all d o.ctx.device o.renderer
    swapchain ← Swapchain.shutdown o.ctx.device o.swapchain
    display ← DisplayOutput.shutdown o.display
    ctx ← Context.shutdown d o.ctx
    pure (record {
      ctx = ctx;
      display = display;
      swapchain = swapchain;
      renderer = renderer;
      sync = sync;
    })

  -- A step of the start-up and what follows it: where the step fails, `ShutdownAll`, and `main` returns
  -- `EXIT_FAILURE`, which is `false` here.
  unfoldable pub step : M (Result × Objects) → (Objects → M (Bool × Objects)) → M (Bool × Objects)
  step m next = do
    done ← m
    if is_ok done.0 then next done.1 else (do o ← shutdown_all done.1; pure (false, o))

  -- `ctx.Init`
  unfoldable pub init_context : Context.VkscContextConfig → Objects → M (Result × Objects)
  init_context cfg o = do done ← Context.init d cfg o.ctx; pure (done.0, record o { ctx = done.1 })

  -- `display.Init`
  unfoldable pub init_display : Objects → M (Result × Objects)
  init_display o = do
    done ← DisplayOutput.init d o.ctx.vk_instance_handle o.ctx.physical_device o.display
    pure (done.0, record o { display = done.1 })

  -- `swCfg`
  abbrev pub swapchain_config : Objects → Swapchain.Config
  swapchain_config o = record {
    device = o.ctx.device;
    phys_device = o.ctx.physical_device;
    surface = o.display.surface;
    preferred_width = o.display.extent.width;
    preferred_height = o.display.extent.height;
    required_format = DisplayOutput.color_format;
  }

  -- `swapchain.Init`
  unfoldable pub init_swapchain : Objects → M (Result × Objects)
  init_swapchain o = do
    done ← Swapchain.init d (swapchain_config o) o.swapchain
    pure (done.0, record o { swapchain = done.1 })

  -- `imageViews`
  abbrev pub image_views : Objects → List ℕ
  image_views o =
      fill_views o.swapchain 0 o.swapchain.image_count (replicate Swapchain.max_images 0)

  -- `rendCfg`
  abbrev pub renderer_config : Objects → Renderer.FrameRendererConfig
  renderer_config o = record {
    phys_device = o.ctx.physical_device;
    device = o.ctx.device;
    queue_family = o.ctx.graphics_queue_family;
    color_format = o.swapchain.format;
    extent = o.swapchain.extent;
    image_views = some (image_views o);
    image_count = o.swapchain.image_count;
  }

  -- `renderer.Init`
  unfoldable pub init_renderer :
      PipelineCache.Versions → Renderer.Create.Embedded → Objects → M (Result × Objects)
  init_renderer v embedded o = do
    done ← Renderer.Create.init d v embedded (renderer_config o) o.renderer
    pure (done.0, record o { renderer = done.1 })

  -- `sync.Init`
  unfoldable pub init_sync : Objects → M (Result × Objects)
  init_sync o = do
    done ← FrameSync.init d o.ctx.device o.sync
    pure (done.0, record o { sync = done.1 })

  -- The start-up of `main`: whether it succeeded, and the objects. A context that cannot be initialised is
  -- not followed by `ShutdownAll`.
  unfoldable pub start :
      Context.VkscContextConfig
      → PipelineCache.Versions
      → Renderer.Create.Embedded
      → Objects
      → M (Bool × Objects)
  start cfg v embedded o = do
    done ← init_context cfg o
    if not (is_ok done.0)
        then pure (false, done.1)
        else step (init_display done.1) λ o2.
          step (init_swapchain o2)
            λ o3. step (init_renderer v embedded o3) λ o4. step (init_sync o4) λ o5. pure (true, o5)
