-- ===== src/VertexBuffer/Life.antt =====
-- engine/rendering/vertex_buffer.cpp: `Init` and `Shutdown` account for the buffer on every path.
-- Device memory is freed by `vkDestroyDevice` only, and is not counted.
use soteria.Prelude.{ℕ, ◌+◌, ◌≡◌, refl, false, arith, if◌then◌else◌}
use soteria.Vulkan.Info.{
  Kind, kind_of, MemoryRequirements, buffer_info, memory_info, bind_buffer_memory, map_memory,
  unmap_memory,
}
use soteria.Vulkan.{Driver, History, create, run}
use soteria.Vulkan.Live.{
  Object, one, live, live-create, live-run, live-destroy, live-destroy_if_set,
}
use soteria.VertexBuffer.{VertexBuffer, find_memory_type, init, init_memory, init_buffer, shutdown}

-- The objects that an initialised `VertexBuffer` owns.
abbrev pub buffer_owned : VertexBuffer → Object → ℕ
buffer_owned b o = if b.initialised then one Kind.vk_buffer b.buffer o else 0

module _ (d : Driver) where
  -- Where an object is alive as often as the `VertexBuffer` owns it, and `rest` times more, `Shutdown` leaves
  -- it alive `rest` times more than the `VertexBuffer` owns it afterwards.
  pub vertex_buffer_shutdown-live :
      (device : ℕ) (b : VertexBuffer) (h : History) (o : Object) (rest : ℕ)
      → live h o ≡ buffer_owned b o + rest
      → live (shutdown d device b h).1 o ≡ buffer_owned (shutdown d device b h).0 o + rest
  unfolding shutdown
  vertex_buffer_shutdown-live device b h o rest e =
      let unmap = unmap_memory device b.memory in
      ground (
        arith,
        live-run d unmap h o,
        live-destroy_if_set device Kind.vk_buffer b.buffer h o,
        live-destroy_if_set device Kind.vk_buffer b.buffer (run d unmap h).1 o,
      )

  one-memory : (a : ℕ) (o : Object) → one Kind.vk_memory a o ≡ 0
  unfolding one
  one-memory a o = refl

  -- From a buffer that is just created, `Init` ends with the buffer owned or destroyed.
  init_memory-live :
      (device size_bytes : ℕ) (reqs : MemoryRequirements) (mem_type : ℕ) (b : VertexBuffer)
      (h : History) (o : Object) (rest : ℕ)
      → b.initialised ≡ false
      → live h o ≡ one Kind.vk_buffer b.buffer o + rest
      → live (init_memory d device size_bytes reqs mem_type b h).1 o
        ≡ buffer_owned (init_memory d device size_bytes reqs mem_type b h).0.1 o + rest
  unfolding init_memory kind_of
  init_memory-live device size_bytes reqs mem_type b h o rest new e =
      let (m, h1) = create d device (memory_info reqs.size mem_type) h in
      let bind = bind_buffer_memory device b.buffer m.handle in
      let h2 = (run d bind h1).1 in
      let map = map_memory device m.handle size_bytes in
      let h3 = (run d map h2).1 in
      ground (
        arith,
        live-create d device (memory_info reqs.size mem_type) h o,
        one-memory m.handle o,
        live-run d bind h1 o,
        live-run d map h2 o,
        live-destroy device Kind.vk_buffer b.buffer h1 o,
        live-destroy device Kind.vk_buffer b.buffer h2 o,
        live-destroy device Kind.vk_buffer b.buffer h3 o,
      )

  -- Where an object is alive as often as the `VertexBuffer` owns it, and `rest` times more, `Init` leaves it
  -- alive `rest` times more than the `VertexBuffer` owns it afterwards, whether `Init` succeeds or
  -- fails at any point.
  pub vertex_buffer_init-live :
      (device phys_device size_bytes : ℕ) (b : VertexBuffer) (h : History) (o : Object) (rest : ℕ)
      → live h o ≡ buffer_owned b o + rest
      → live (init d device phys_device size_bytes b h).1 o
        ≡ buffer_owned (init d device phys_device size_bytes b h).0.1 o + rest
  unfolding init init_buffer kind_of
  vertex_buffer_init-live device phys_device size_bytes b h o rest e =
      let (made, h1) = create d device (buffer_info size_bytes) h in
      let b1 = record b { buffer = made.handle } in
      let reqs = d.buffer_requirements h1 device made.handle in
      let mt = find_memory_type reqs.memory_type_bits (d.memory_types h1 phys_device) 0 in
      ground (
        arith,
        live-create d device (buffer_info size_bytes) h o,
        live-destroy device Kind.vk_buffer made.handle h1 o,
        init_memory-live device size_bytes reqs mt b1 h1 o rest,
      )
