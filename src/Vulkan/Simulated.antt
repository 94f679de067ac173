-- ===== src/Vulkan/Simulated.antt =====
-- A driver to run the models on: every call succeeds and every handle is new.
use soteria.Prelude.{
  ℕ, ◌+◌, true, List, [], ◌∷◌, length, take, length-take, arith, ltb, if◌then◌else◌,
}
use soteria.Vulkan.Info.{
  DeviceProperties, SurfaceCapabilities, DisplayMode, FaultData, VkFaultLevel, VkFaultType,
}
use soteria.Vulkan.{Driver, Enumeration, success, incomplete, is_success}
use soteria.Vulkan.Enumerate.{IsConforming}

-- The enumeration of a list, as the Vulkan specification has it.
abbrev pub listed : {A : Type 0} → List A → Enumeration A
listed xs = record {
  count_result = success;
  count = length xs;
  fetch = λ room. ((if ltb room (length xs) then incomplete else success), take room xs);
  fits = λ room. omega (arith, length-take room xs);
}

pub listed-IsConforming : {A : Type 0} (xs : List A) → IsConforming (listed xs)
unfolding is_success
listed-IsConforming xs = record { truncated = λ room more. ground (arith, more) }

abbrev pub mode : (handle width height : ℕ) → DisplayMode
mode handle width height = record {
  display_mode = handle;
  visible_region = record { width = width; height = height };
}

abbrev pub properties : DeviceProperties
properties = record {
  vendor_id = 4318;
  device_id = 9;
  driver_version = 1;
  api_version = 2;
  device_name = b'g' ∷ b'p' ∷ b'u' ∷ 0 ∷ [];
  driver_id = 5;
  max_query_fault_count = 16;
}

abbrev pub capabilities : SurfaceCapabilities
capabilities = record {
  min_image_count = 2;
  max_image_count = 8;
  current_extent = record { width = 640; height = 480 };
  min_image_extent = record { width = 1; height = 1 };
  max_image_extent = record { width = 4096; height = 4096 };
  current_transform = 1;
}

abbrev pub fault : FaultData
fault = record { fault_level = VkFaultLevel.critical; fault_type = VkFaultType.system }

abbrev pub driver : Driver
driver = record {
  creates = λ h owner info. record { result = success; handle = length h + 100 };
  runs = λ h command. success;
  mapped_pointer = λ h memory. 900;
  command_buffers = λ h count. 51 ∷ [];
  next_image = λ h swapchain. 0;
  fault_data = λ h room. record { unrecorded = true; faults = take room (fault ∷ fault ∷ []) };
  faults_fit = λ h room. omega (arith, length-take room (fault ∷ fault ∷ []));
  device_queue = λ h device family. 77;
  physical_devices = λ h inst. listed (11 ∷ 12 ∷ []);
  device_properties = λ h pd. properties;
  queue_families = λ h pd. listed (4 ∷ 3 ∷ []);
  memory_types = λ h pd. 1 ∷ 6 ∷ 7 ∷ [];
  buffer_requirements = λ h device buffer. record { size = 256; memory_type_bits = 7 };
  surface_capabilities = λ h pd surface. (success, capabilities);
  surface_formats = λ h pd surface. listed (37 ∷ 44 ∷ []);
  swapchain_images = λ h device swapchain. listed (61 ∷ 62 ∷ 63 ∷ []);
  displays = λ h pd. listed (21 ∷ []);
  display_modes =
      λ h pd display. listed (mode 31 640 480 ∷ mode 32 1280 720 ∷ mode 33 800 600 ∷ []);
  display_planes = λ h pd. listed (0 ∷ 1 ∷ []);
  plane_displays = λ h pd plane. listed (if ltb plane 1 then 20 ∷ [] else 20 ∷ 21 ∷ []);
}

-- More modes than the source has room for.
abbrev pub many_modes : List DisplayMode
many_modes =
    mode 1 8 8
    ∷ mode 2 8 8
    ∷ mode 3 8 8
    ∷ mode 4 8 8
    ∷ mode 5 8 8
    ∷ mode 6 8 8
    ∷ mode 7 8 8
    ∷ mode 8 8 8
    ∷ mode 9 8 8
    ∷ mode 10 8 8
    ∷ mode 11 8 8
    ∷ mode 12 8 8
    ∷ mode 13 8 8
    ∷ mode 14 8 8
    ∷ mode 15 8 8
    ∷ mode 16 8 8
    ∷ mode 17 8 8
    ∷ []

-- A driver with more of everything than the source has room for.
abbrev pub large_driver : Driver
large_driver = record driver {
  physical_devices = λ h inst. listed (1 ∷ 2 ∷ 3 ∷ []);
  swapchain_images = λ h device swapchain. listed (61 ∷ 62 ∷ 63 ∷ 64 ∷ []);
  display_modes = λ h pd display. listed many_modes;
}
