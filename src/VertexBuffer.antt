-- ===== src/VertexBuffer.antt =====
-- engine/rendering/vertex_buffer.hpp and vertex_buffer.cpp: `VertexBuffer`, a buffer in host-visible
-- memory that stays mapped. The mapped region is a list of bytes that `Write` takes and gives back.
-- VertexBuffer/Memory is about the choice of the memory type, VertexBuffer/Copy about `Write`,
-- VertexBuffer/Life accounts for the buffer object.
pub mod Memory
pub mod Copy
pub mod Life
mod Examples
use soteria.Prelude.{
  ℕ, zero, suc, ◌+◌, ◌-◌, ◌^◌, Bool, true, false, not, ◌&&◌, ◌||◌, Option, none, some, List, [],
  ◌∷◌, ltb, ◌==◌, if◌then◌else◌,
}
use soteria.Bits.{test_bit}
use soteria.Result.{
  Result, k_ok, k_error, k_invalid_argument, k_vksc_buffer_failed, k_already_initialised,
}
use soteria.Vulkan.Info.{
  Kind, MemoryRequirements, buffer_info, memory_info, bind_buffer_memory, map_memory, unmap_memory,
}
use soteria.Vulkan.{Driver, is_success, M, pure, ◌>>=◌, ◌>>◌, create, run, destroy, destroy_if_set}

pub record VertexBuffer : Type 0 where
  pub buffer : ℕ
  pub memory : ℕ
  pub mapped : ℕ
  pub size_bytes : ℕ
  pub initialised : Bool

-- A new object.
abbrev pub fresh : VertexBuffer
fresh = record { buffer = 0; memory = 0; mapped = 0; size_bytes = 0; initialised = false }

-- `kInvalidMemoryType`
abbrev pub invalid_memory_type : ℕ
invalid_memory_type = 2 ^ 32 - 1

-- `(propertyFlags & kRequiredFlags) == kRequiredFlags`: HOST_VISIBLE is bit 1, HOST_COHERENT bit 2.
abbrev pub flags_match : ℕ → Bool
flags_match flags = test_bit flags 1 && test_bit flags 2

-- The loop over the memory types, from the type `mt` on.
unfoldable pub find_memory_type : (memory_type_bits : ℕ) → List ℕ → (mt : ℕ) → ℕ
find_memory_type bits [] mt = invalid_memory_type
find_memory_type bits (flags ∷ types) mt =
    let rest = find_memory_type bits types (mt + 1) in
    if test_bit bits mt && flags_match flags then mt else rest

-- `std::copy(src, src + bytes, dst)`; `none` is an access outside the source or the destination.
unfoldable pub copy : ℕ → (src dst : List ℕ) → Option (List ℕ)
copy zero src dst = some dst
copy (suc bytes) (x ∷ src) (y ∷ dst) = elim (copy bytes src dst) [
  | none ↦ none
  | some out ↦ some (x ∷ out)
]
copy (suc bytes) _ _ = none

-- `Write` of `bytes` bytes from `data_ptr`, which may be null, into the mapped `region`: the result and the
-- region afterwards, or `none` for an access out of bounds.
unfoldable pub write :
    VertexBuffer → Option (List ℕ) → ℕ → (region : List ℕ) → Option (Result × List ℕ)
write b none bytes region =
    if not b.initialised then some (k_error, region) else some (k_invalid_argument, region)
write b (some src) bytes region =
    if not b.initialised
    then some (k_error, region)
    else if bytes == 0 || ltb b.size_bytes bytes
    then some (k_invalid_argument, region)
    else elim (copy bytes src region) [ none ↦ none | some out ↦ some (k_ok, out) ]

module _ (d : Driver) where
  -- `Shutdown`
  unfoldable pub shutdown : ℕ → VertexBuffer → M VertexBuffer
  shutdown device b =
      if not b.initialised
      then pure b
      else if b.memory == 0 || b.mapped == 0
      then (do
        destroy_if_set device Kind.vk_buffer b.buffer
        pure (record b { memory = 0; buffer = 0; size_bytes = 0; initialised = false }))
      else do
        _ ← run d (unmap_memory device b.memory)
        destroy_if_set device Kind.vk_buffer b.buffer
        pure fresh

  -- `Init` from the allocation of the memory on, for the type `mem_type`.
  unfoldable pub init_memory :
      (device size_bytes : ℕ)
      → MemoryRequirements
      → (mem_type : ℕ) → VertexBuffer
      → M (Result × VertexBuffer)
  init_memory device size_bytes reqs mem_type b = do
    allocated ← create d device (memory_info reqs.size mem_type)
    let b1 = record b { memory = allocated.handle }
    if not (is_success allocated.result)
        then (do
          destroy device Kind.vk_buffer b1.buffer
          pure (k_vksc_buffer_failed, record b1 { buffer = 0 }))
        else do
          bound ← run d (bind_buffer_memory device b1.buffer b1.memory)
          if not (is_success bound)
              then (do
                destroy device Kind.vk_buffer b1.buffer
                pure (k_vksc_buffer_failed, record b1 { memory = 0; buffer = 0 }))
              else λ h.
                  let b2 = record b1 { mapped = d.mapped_pointer h b1.memory } in
                  (do
                    mapped ← run d (map_memory device b1.memory size_bytes)
                    if not (is_success mapped)
                        then (do
                          destroy device Kind.vk_buffer b2.buffer
                          pure (k_vksc_buffer_failed, record b2 { memory = 0; buffer = 0 }))
                        else pure (k_ok, record b2 { size_bytes = size_bytes; initialised = true }))
                    h

  -- `Init` after its checks. The queries do not change the driver.
  unfoldable pub init_buffer :
      (device phys_device size_bytes : ℕ) → VertexBuffer → M (Result × VertexBuffer)
  init_buffer device phys_device size_bytes b = do
    made ← create d device (buffer_info size_bytes)
    let b1 = record b { buffer = made.handle }
    if not (is_success made.result) then pure (k_vksc_buffer_failed, b1) else λ h.
        let reqs = d.buffer_requirements h device b1.buffer in
        let mem_type = find_memory_type reqs.memory_type_bits (d.memory_types h phys_device) 0 in
        (if mem_type == invalid_memory_type
            then (do
              destroy device Kind.vk_buffer b1.buffer
              pure (k_vksc_buffer_failed, record b1 { buffer = 0 }))
            else init_memory device size_bytes reqs mem_type b1)
          h

  -- `Init`
  unfoldable pub init :
      (device phys_device size_bytes : ℕ) → VertexBuffer → M (Result × VertexBuffer)
  init device phys_device size_bytes b =
      if b.initialised
      then pure (k_already_initialised, b)
      else if device == 0 || phys_device == 0 || size_bytes == 0
      then pure (k_invalid_argument, b)
      else init_buffer device phys_device size_bytes b
