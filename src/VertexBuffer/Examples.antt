-- ===== src/VertexBuffer/Examples.antt =====
-- Runs of the vertex buffer.
use soteria.Prelude.{
  ℕ, ◌+◌, ◌<◌, ◌≡◌, ◌⊎◌, refl, true, false, not, ◌&&◌, none, some, List, [], ◌∷◌, ◌++◌, arith, take,
  drop, leb, if◌then◌else◌,
}
use soteria.Result.{k_ok, k_error, k_invalid_argument}
use soteria.Vulkan.Info.{Kind, buffer_info}
use soteria.Vulkan.{History, created, success}
use soteria.Vulkan.Live.{Object, live}
use soteria.Vulkan.Simulated.{driver}
use soteria.VertexBuffer.{VertexBuffer, fresh, init, write, find_memory_type, invalid_memory_type}
use soteria.VertexBuffer.Life.{buffer_owned, vertex_buffer_init-live}
use soteria.VertexBuffer.Copy.{write_lem}
use soteria.VertexBuffer.Memory.{is_suitable, find_memory_type_lem}

abbrev ready : VertexBuffer
ready = record { buffer = 6; memory = 5; mapped = 900; size_bytes = 3; initialised = true }

abbrev buffer : Object
buffer = record { kind = Kind.vk_buffer; handle = 6 }

abbrev history : History
history = created 7 (buffer_info 3) (record { result = success; handle = 6 }) ∷ []

vertex_buffer_init-live_example :
    live (init driver 7 11 256 fresh []).1 buffer
    ≡ buffer_owned (init driver 7 11 256 fresh []).0.1 buffer + 0
unfolding live
vertex_buffer_init-live_example = vertex_buffer_init-live driver 7 11 256 fresh [] buffer 0 refl

abbrev source : List ℕ
source = 65 ∷ 66 ∷ []

abbrev region : List ℕ
region = 1 ∷ 2 ∷ 3 ∷ []

write_lem_example :
    (write ready (some source) 2 region ≡ (
      if not ready.initialised
      then some (k_error, region)
      else if leb 1 2 && leb 2 ready.size_bytes
      then some (k_ok, take 2 source ++ drop 2 region)
      else some (k_invalid_argument, region)))
    × (write ready none 2 region
        ≡ some ((if ready.initialised then k_invalid_argument else k_error), region))
write_lem_example = write_lem ready source 2 region (omega arith) refl

find_memory_type_lem_example :
    ((find_memory_type 6 (6 ∷ 1 ∷ 7 ∷ []) 0 < 3)
      × (is_suitable 6 (6 ∷ 1 ∷ 7 ∷ []) (find_memory_type 6 (6 ∷ 1 ∷ 7 ∷ []) 0) ≡ true)
      × ((j : ℕ)
          → j < find_memory_type 6 (6 ∷ 1 ∷ 7 ∷ []) 0
          → is_suitable 6 (6 ∷ 1 ∷ 7 ∷ []) j ≡ false))
    ⊎ ((find_memory_type 6 (6 ∷ 1 ∷ 7 ∷ []) 0 ≡ invalid_memory_type)
        × ((j : ℕ) → is_suitable 6 (6 ∷ 1 ∷ 7 ∷ []) j ≡ false))
find_memory_type_lem_example = find_memory_type_lem 6 (6 ∷ 1 ∷ 7 ∷ [])
