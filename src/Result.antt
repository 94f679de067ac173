-- ===== src/Result.antt =====
-- engine/core/result.hpp: the result code of every fallible operation, its test and its name.
use Prim.Native.String.{String}
use soteria.Prelude.{Bool, true, false}

-- `enum class Result`, with the source's enumerators in its order.
pub data Result : Type 0 where
  k_ok : Result
  k_error : Result
  k_invalid_argument : Result
  k_not_found : Result
  k_vksc_instance_failed : Result
  k_vksc_device_failed : Result
  k_vksc_enumerate_failed : Result
  k_vksc_cache_failed : Result
  k_vksc_surface_failed : Result
  k_vksc_no_display : Result
  k_vksc_swapchain_failed : Result
  k_vksc_render_pass_failed : Result
  k_vksc_pipeline_layout_failed : Result
  k_vksc_pipeline_failed : Result
  k_vksc_buffer_failed : Result
  k_vksc_command_pool_failed : Result
  k_vksc_sync_failed : Result
  k_vksc_framebuffer_failed : Result
  k_vksc_acquire_failed : Result
  k_vksc_present_failed : Result
  k_vksc_surface_lost : Result
  k_already_initialised : Result
  k_vksc_timeout_failed : Result
  k_vksc_cache_invalid : Result

-- `IsOk`.
abbrev pub is_ok : Result → Bool
is_ok k_ok = true
is_ok _ = false

-- `ResultToString`; the `default` label is for values that are no enumerator, which a `Result` of
-- the model cannot be.
unfoldable pub result_to_string : Result → String
result_to_string k_ok = "Ok"
result_to_string k_error = "Error"
result_to_string k_invalid_argument = "InvalidArgument"
result_to_string k_not_found = "NotFound"
result_to_string k_vksc_instance_failed = "VkscInstanceFailed"
result_to_string k_vksc_device_failed = "VkscDeviceFailed"
result_to_string k_vksc_enumerate_failed = "VkscEnumerateFailed"
result_to_string k_vksc_cache_failed = "VkscCacheFailed"
result_to_string k_vksc_surface_failed = "VkscSurfaceFailed"
result_to_string k_vksc_no_display = "VkscNoDisplay"
result_to_string k_vksc_swapchain_failed = "VkscSwapchainFailed"
result_to_string k_vksc_render_pass_failed = "VkscRenderPassFailed"
result_to_string k_vksc_pipeline_layout_failed = "VkscPipelineLayoutFailed"
result_to_string k_vksc_pipeline_failed = "VkscPipelineFailed"
result_to_string k_vksc_buffer_failed = "VkscBufferFailed"
result_to_string k_vksc_command_pool_failed = "VkscCommandPoolFailed"
result_to_string k_vksc_sync_failed = "VkscSyncFailed"
result_to_string k_vksc_framebuffer_failed = "VkscFramebufferFailed"
result_to_string k_vksc_acquire_failed = "VkscAcquireFailed"
result_to_string k_vksc_present_failed = "VkscPresentFailed"
result_to_string k_vksc_surface_lost = "VkscSurfaceLost"
result_to_string k_already_initialised = "AlreadyInitialised"
result_to_string k_vksc_timeout_failed = "VkscTimeoutFailed"
result_to_string k_vksc_cache_invalid = "VkscCacheInvalid"
