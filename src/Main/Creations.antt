-- ===== src/Main/Creations.antt =====
-- app/main.cpp: how many objects of each kind the `Init` operations of the engine create at most.
use soteria.Prelude.{ℕ, ◌+◌, ◌*◌, ◌≤◌, true, Option, List, arith}
use soteria.Vulkan.Info.{
  Kind, kind_of, MemoryRequirements, semaphore_info, fence_info, buffer_info, memory_info,
  bind_buffer_memory, map_memory, pipeline_cache_info, command_pool_info,
}
use soteria.Vulkan.{Driver, History, create, run, destroy}
use soteria.Vulkan.Made.{same, made, made-destroy, made-run, made-create}
use soteria.PipelineCache
use soteria.CommandPool
use soteria.VertexBuffer
use soteria.FrameSync

module _ (d : Driver) (k : Kind) where
  pub sync_init-made :
      (device : ℕ) (s : FrameSync.FrameSync) (h : History)
      → made k (FrameSync.init d device s h).1
        ≤ made k h + 2 * same Kind.vk_semaphore k + same Kind.vk_fence k
  unfolding FrameSync.init kind_of
  sync_init-made device s h =
      let sem = Kind.vk_semaphore in
      let (a, h1) = create d device semaphore_info h in
      let (c, h2) = create d device semaphore_info h1 in
      let (f, h3) = create d device (fence_info true) h2 in
      ground (
        arith,
        made-create d device semaphore_info h k,
        made-create d device semaphore_info h1 k,
        made-create d device (fence_info true) h2 k,
        made-destroy device sem a.handle h2 k,
        made-destroy device sem c.handle h3 k,
        made-destroy device sem a.handle (destroy device sem c.handle h3).1 k,
      )

  init_memory-made :
      (device size_bytes : ℕ) (reqs : MemoryRequirements) (mem_type : ℕ)
      (b : VertexBuffer.VertexBuffer) (h : History)
      → made k (VertexBuffer.init_memory d device size_bytes reqs mem_type b h).1
        ≤ made k h + same Kind.vk_memory k
  unfolding VertexBuffer.init_memory kind_of
  init_memory-made device size_bytes reqs mem_type b h =
      let (m, h1) = create d device (memory_info reqs.size mem_type) h in
      let bind = bind_buffer_memory device b.buffer m.handle in
      let h2 = (run d bind h1).1 in
      let map = map_memory device m.handle size_bytes in
      let h3 = (run d map h2).1 in
      ground (
        arith,
        made-create d device (memory_info reqs.size mem_type) h k,
        made-run d bind h1 k,
        made-run d map h2 k,
        made-destroy device Kind.vk_buffer b.buffer h1 k,
        made-destroy device Kind.vk_buffer b.buffer h2 k,
        made-destroy device Kind.vk_buffer b.buffer h3 k,
      )

  pub buffer_init-made :
      (device phys_device size_bytes : ℕ) (b : VertexBuffer.VertexBuffer) (h : History)
      → made k (VertexBuffer.init d device phys_device size_bytes b h).1
        ≤ made k h + same Kind.vk_buffer k + same Kind.vk_memory k
  unfolding VertexBuffer.init VertexBuffer.init_buffer kind_of
  buffer_init-made device phys_device size_bytes b h =
      let (m, h1) = create d device (buffer_info size_bytes) h in
      let b1 = record b { buffer = m.handle } in
      let reqs = d.buffer_requirements h1 device m.handle in
      let mt =
        VertexBuffer.find_memory_type reqs.memory_type_bits (d.memory_types h1 phys_device) 0 in
      ground (
        arith,
        made-create d device (buffer_info size_bytes) h k,
        made-destroy device Kind.vk_buffer m.handle h1 k,
        init_memory-made device size_bytes reqs mt b1 h1,
      )

  pub pool_init-made :
      (device family reserved_size buffers : ℕ) (p : CommandPool.CommandPool) (h : History)
      → made k (CommandPool.init d device family reserved_size buffers p h).1
        ≤ made k h + same Kind.vk_command_pool k
  unfolding CommandPool.init kind_of
  pool_init-made device family reserved_size buffers p h =
      ground (arith, made-create d device (command_pool_info family reserved_size buffers) h k)

  pub cache_init-made :
      (v : PipelineCache.Versions) (device phys_device : ℕ) (data_ptr : Option (List ℕ))
      (data_size : ℕ) (c : PipelineCache.PipelineCacheSc) (h : History)
      → made k (PipelineCache.init d v device phys_device data_ptr data_size c h).1
        ≤ made k h + same Kind.vk_pipeline_cache k
  unfolding PipelineCache.init kind_of
  cache_init-made v device phys_device data_ptr data_size c h = ground (
    arith,
    made-create d device (pipeline_cache_info data_size (PipelineCache.bytes_of data_ptr)) h k,
  )
