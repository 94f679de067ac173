-- ===== src/Vulkan.antt =====
-- The Vulkan SC driver as the source meets it. It is not part of the repository, so it is a parameter:
-- a driver answers each call as a function of the history of the calls made so far, in any way at all, but
-- writes no more into an array of the caller's than there is room for.
-- A call that changes the driver's state is recorded in the history; queries are not. Handles are
-- numbers and 0 is `VK_NULL_HANDLE`. What a failing creation leaves in its output is the driver's
-- choice too.
pub mod Info
pub mod Live
pub mod Made
pub mod Enumerate
pub mod Simulated
use soteria.Prelude.{ℕ, ◌≤◌, length, Bool, true, false, List, [], ◌∷◌, ◌==◌, if◌then◌else◌}
use Info.{
  CreateInfo, Kind, Command, DeviceProperties, SurfaceCapabilities, DisplayMode, MemoryRequirements,
  FaultData,
}

-- The result codes that the source tells apart; `other` stands for every other code.
pub data VkResult : Type 0 where
  success : VkResult
  incomplete : VkResult
  timeout : VkResult
  suboptimal_khr : VkResult
  error_device_lost : VkResult
  error_out_of_date_khr : VkResult
  error_surface_lost_khr : VkResult
  other : ℕ → VkResult

-- `r == VK_SUCCESS`
unfoldable pub is_success : VkResult → Bool
is_success success = true
is_success _ = false

-- What a creation returns: its code, and the value that its output parameter has afterwards.
pub record Reply : Type 0 where
  pub result : VkResult
  pub handle : ℕ

pub data Event : Type 0 where
  created : (owner : ℕ) → CreateInfo → Reply → Event
  destroyed : (owner : ℕ) → Kind → ℕ → Event
  ran : Command → VkResult → Event

-- The calls so far, the latest first.
abbrev pub History : Type 0
History = List Event

-- The two-call idiom: a call with no array gives the count; one with an array of some capacity gives
-- what was written there, whose length is the count afterwards. As the Vulkan specification has it, no
-- more is written than there is room for.
pub record Enumeration (A : Type 0) : Type 0 where
  pub count_result : VkResult
  pub count : ℕ
  pub fetch : ℕ → VkResult × List A
  pub fits : (room : ℕ) → length (fetch room).1 ≤ room

-- What `vkGetFaultData` gives, besides its code.
pub record Faults : Type 0 where
  pub unrecorded : Bool
  pub faults : List FaultData

pub record Driver : Type 0 where
  pub creates : History → ℕ → CreateInfo → Reply
  pub runs : History → Command → VkResult
  -- What a state-changing call writes to its output.
  pub mapped_pointer : History → ℕ → ℕ
  pub command_buffers : History → ℕ → List ℕ
  pub next_image : History → ℕ → ℕ
  pub fault_data : History → ℕ → Faults
  -- No more faults are written than there is room for, as the Vulkan SC specification has it.
  pub faults_fit : (h : History) (room : ℕ) → length (fault_data h room).faults ≤ room
  pub device_queue : History → ℕ → ℕ → ℕ
  -- The queries of the physical device `pd`.
  pub physical_devices : History → ℕ → Enumeration ℕ
  pub device_properties : History → ℕ → DeviceProperties
  pub queue_families : History → ℕ → Enumeration ℕ
  pub memory_types : History → ℕ → List ℕ
  pub buffer_requirements : History → ℕ → ℕ → MemoryRequirements
  pub surface_capabilities : History → ℕ → ℕ → VkResult × SurfaceCapabilities
  pub surface_formats : History → ℕ → ℕ → Enumeration ℕ
  pub swapchain_images : History → ℕ → ℕ → Enumeration ℕ
  pub displays : History → ℕ → Enumeration ℕ
  pub display_modes : History → ℕ → ℕ → Enumeration DisplayMode
  -- Of each plane, its `currentStackIndex`.
  pub display_planes : History → ℕ → Enumeration ℕ
  pub plane_displays : History → ℕ → ℕ → Enumeration ℕ

-- A function that calls the driver: its value, and the history after its calls.
abbrev pub M : Type 0 → Type 0
M A = History → A × History

abbrev pub pure : {A : Type 0} → A → M A
pure a h = (a, h)

infixl 5 ◌>>=◌ ◌>>◌
abbrev pub ◌>>=◌ : {A B : Type 0} → M A → (A → M B) → M B
◌>>=◌ m f h = f (m h).0 (m h).1

abbrev pub ◌>>◌ : {B : Type 0} → M (Unit {0}) → M B → M B
m >> k = m >>= λ _. k

-- A `vkDestroy*` call.
unfoldable pub destroy : ℕ → Kind → ℕ → M (Unit {0})
destroy owner kind handle h = (tt, destroyed owner kind handle ∷ h)

-- `if (handle != VK_NULL_HANDLE) { vkDestroy…(owner, handle, nullptr); }`
unfoldable pub destroy_if_set : ℕ → Kind → ℕ → M (Unit {0})
unfolding destroy
destroy_if_set owner kind handle h = if handle == 0 then (tt, h) else destroy owner kind handle h

module _ (d : Driver) where
  -- A `vkCreate*` call.
  unfoldable pub create : ℕ → CreateInfo → M Reply
  create owner info h = let r = d.creates h owner info in (r, created owner info r ∷ h)

  -- Any other call that changes the driver's state.
  unfoldable pub run : Command → M VkResult
  run command h = let r = d.runs h command in (r, ran command r ∷ h)
