-- ===== src/Vulkan/Info.antt =====
-- The Vulkan SC structures and enumerations that the source fills in or reads, cut down to the fields
-- that it sets from its own values or reads. Fields that are the same constant in every call (sType,
-- pNext, flags that are 0) are left out.
use Prim.Native.String.{String}
use soteria.Prelude.{ℕ, Bool, true, false, List}

-- The kinds of object that the source creates.
pub data Kind : Type 0 where
  vk_instance : Kind
  vk_device : Kind
  vk_surface : Kind
  vk_swapchain : Kind
  vk_image_view : Kind
  vk_pipeline_cache : Kind
  vk_pipeline_layout : Kind
  vk_pipeline : Kind
  vk_render_pass : Kind
  vk_framebuffer : Kind
  vk_command_pool : Kind
  vk_buffer : Kind
  vk_memory : Kind
  vk_semaphore : Kind
  vk_fence : Kind

-- Vulkan SC has no call that destroys a swapchain, a command pool or device memory alone:
-- `vkDestroyDevice` frees them.
abbrev pub has_destroy : Kind → Bool
has_destroy Kind.vk_swapchain = false
has_destroy Kind.vk_command_pool = false
has_destroy Kind.vk_memory = false
has_destroy _ = true

pub record Extent2D : Type 0 where
  pub width : ℕ
  pub height : ℕ

-- `VkSwapchainCreateInfoKHR`
pub record SwapchainInfo : Type 0 where
  pub surface : ℕ
  pub min_image_count : ℕ
  pub image_format : ℕ
  pub image_extent : Extent2D
  pub pre_transform : ℕ

-- `VkDisplaySurfaceCreateInfoKHR`
pub record SurfaceInfo : Type 0 where
  pub display_mode : ℕ
  pub plane_index : ℕ
  pub plane_stack_index : ℕ
  pub image_extent : Extent2D

-- `VkDeviceObjectReservationCreateInfo`, the counts that the source does not set to 0.
pub record Reservation : Type 0 where
  pub semaphores : ℕ
  pub command_buffers : ℕ
  pub fences : ℕ
  pub device_memory_allocations : ℕ
  pub buffers : ℕ
  pub images : ℕ
  pub image_views : ℕ
  pub layered_image_views : ℕ
  pub pipeline_caches : ℕ
  pub pipeline_layouts : ℕ
  pub render_passes : ℕ
  pub graphics_pipelines : ℕ
  pub compute_pipelines : ℕ
  pub framebuffers : ℕ
  pub command_pools : ℕ
  pub swapchains : ℕ
  pub surfaces : ℕ
  pub subpass_descriptions : ℕ
  pub attachment_descriptions : ℕ
  pub descriptor_set_layouts : ℕ
  pub descriptor_pools : ℕ
  pub descriptor_sets : ℕ
  pub samplers : ℕ
  pub max_image_view_mip_levels : ℕ
  pub max_image_view_array_layers : ℕ

-- `VkDeviceCreateInfo` with what is chained to it.
pub record DeviceInfo : Type 0 where
  pub queue_family_index : ℕ
  pub reservation : Reservation
  pub pipeline_cache_info_count : ℕ
  pub pipeline_pool_size_count : ℕ
  pub enabled_extensions : List String

-- `VkInstanceCreateInfo`
pub record InstanceInfo : Type 0 where
  pub application_name : String
  pub engine_name : String
  pub enabled_extensions : List String

-- The arguments of a creation.
pub data CreateInfo : Type 0 where
  instance_info : InstanceInfo → CreateInfo
  device_info : DeviceInfo → CreateInfo
  surface_info : SurfaceInfo → CreateInfo
  swapchain_info : SwapchainInfo → CreateInfo
  image_view_info : (image format : ℕ) → CreateInfo
  pipeline_cache_info : (size : ℕ) (bytes : List ℕ) → CreateInfo
  pipeline_layout_info : (push_constant_bytes : ℕ) → CreateInfo
  pipeline_info :
      (cache : ℕ) (uuid : List ℕ) (has_vertex_input : Bool) (pool_entry_size layout render_pass : ℕ)
      → CreateInfo
  render_pass_info : (format : ℕ) → CreateInfo
  framebuffer_info : (render_pass view : ℕ) → Extent2D → CreateInfo
  command_pool_info : (queue_family reserved_size max_command_buffers : ℕ) → CreateInfo
  buffer_info : (size : ℕ) → CreateInfo
  memory_info : (size type_index : ℕ) → CreateInfo
  semaphore_info : CreateInfo
  fence_info : (signalled : Bool) → CreateInfo

unfoldable pub kind_of : CreateInfo → Kind
kind_of (instance_info i) = Kind.vk_instance
kind_of (device_info i) = Kind.vk_device
kind_of (surface_info i) = Kind.vk_surface
kind_of (swapchain_info i) = Kind.vk_swapchain
kind_of (image_view_info i f) = Kind.vk_image_view
kind_of (pipeline_cache_info n b) = Kind.vk_pipeline_cache
kind_of (pipeline_layout_info n) = Kind.vk_pipeline_layout
kind_of (pipeline_info c u v n l r) = Kind.vk_pipeline
kind_of (render_pass_info f) = Kind.vk_render_pass
kind_of (framebuffer_info r v e) = Kind.vk_framebuffer
kind_of (command_pool_info q r m) = Kind.vk_command_pool
kind_of (buffer_info n) = Kind.vk_buffer
kind_of (memory_info n t) = Kind.vk_memory
kind_of semaphore_info = Kind.vk_semaphore
kind_of (fence_info s) = Kind.vk_fence

-- The other calls that change the driver's state. What holds floats is given by its bytes.
pub data Command : Type 0 where
  reset_command_pool : (device pool : ℕ) → Command
  allocate_command_buffers : (device pool count : ℕ) → Command
  bind_buffer_memory : (device buffer memory : ℕ) → Command
  map_memory : (device memory size : ℕ) → Command
  unmap_memory : (device memory : ℕ) → Command
  wait_for_fences : (device fence timeout_ns : ℕ) → Command
  reset_fences : (device fence : ℕ) → Command
  device_wait_idle : (device : ℕ) → Command
  get_fault_data : (device capacity : ℕ) → Command
  acquire_next_image : (device swapchain semaphore : ℕ) → Command
  begin_command_buffer : (buffer : ℕ) → Command
  end_command_buffer : (buffer : ℕ) → Command
  cmd_set_viewport : (buffer : ℕ) (viewport : List ℕ) → Command
  cmd_set_scissor : (buffer : ℕ) → Extent2D → Command
  cmd_begin_render_pass :
      (buffer render_pass framebuffer : ℕ) → Extent2D → (clear : List ℕ) → Command
  cmd_bind_pipeline : (buffer pipeline : ℕ) → Command
  cmd_bind_vertex_buffer : (buffer vertex_buffer : ℕ) → Command
  cmd_push_constants : (buffer layout : ℕ) (constants : List ℕ) → Command
  cmd_draw : (buffer vertex_count : ℕ) → Command
  cmd_end_render_pass : (buffer : ℕ) → Command
  queue_submit : (queue wait buffer signal fence : ℕ) → Command
  queue_present : (queue wait swapchain image : ℕ) → Command

-- `VkPhysicalDeviceProperties2` with the chained driver and Vulkan SC properties.
pub record DeviceProperties : Type 0 where
  pub vendor_id : ℕ
  pub device_id : ℕ
  pub driver_version : ℕ
  pub api_version : ℕ
  pub device_name : List ℕ
  pub driver_id : ℕ
  pub max_query_fault_count : ℕ

-- `VkSurfaceCapabilitiesKHR`
pub record SurfaceCapabilities : Type 0 where
  pub min_image_count : ℕ
  pub max_image_count : ℕ
  pub current_extent : Extent2D
  pub min_image_extent : Extent2D
  pub max_image_extent : Extent2D
  pub current_transform : ℕ

-- `VkDisplayModePropertiesKHR`
pub record DisplayMode : Type 0 where
  pub display_mode : ℕ
  pub visible_region : Extent2D

-- `VkMemoryRequirements`
pub record MemoryRequirements : Type 0 where
  pub size : ℕ
  pub memory_type_bits : ℕ

-- `VkFaultLevel`; `other` stands for every value that the source has no name for.
pub data VkFaultLevel : Type 0 where
  unassigned : VkFaultLevel
  critical : VkFaultLevel
  recoverable : VkFaultLevel
  warning : VkFaultLevel
  max_enum : VkFaultLevel
  other : ℕ → VkFaultLevel

-- `VkFaultType`, in the same way.
pub data VkFaultType : Type 0 where
  invalid : VkFaultType
  unassigned : VkFaultType
  implementation : VkFaultType
  system : VkFaultType
  physical_device : VkFaultType
  command_buffer_full : VkFaultType
  invalid_api_usage : VkFaultType
  max_enum : VkFaultType
  other : ℕ → VkFaultType

-- `VkFaultData`
pub record FaultData : Type 0 where
  pub fault_level : VkFaultLevel
  pub fault_type : VkFaultType
