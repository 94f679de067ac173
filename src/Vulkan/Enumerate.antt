-- ===== src/Vulkan/Enumerate.antt =====
-- What the Vulkan specification says of an enumeration that has more elements than there is room for: it
-- answers `VK_INCOMPLETE`, which is not `VK_SUCCESS`.
use soteria.Prelude.{ℕ, ◌<◌, ◌≡◌, false}
use soteria.Vulkan.{Enumeration, is_success}

pub record IsConforming {A : Type 0} (e : Enumeration A) : Type 0 where
  pub truncated : (room : ℕ) → room < e.count → is_success (e.fetch room).0 ≡ false
