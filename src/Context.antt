-- ===== src/Context.antt =====
-- engine/core/vksc_context.hpp and vksc_context.cpp: `VkscContext`, the instance, the physical device that
-- is selected, and the logical device. Context/Selection is about `SelectPhysicalDevice`, Context/Life
-- about `Init` and `Shutdown`, Context/Faults about `DrainFaults` and the device's name.
mod Families
pub mod Selection
pub mod Life
mod Examples
pub mod Faults
use Prim.Native.String.{String}
use soteria.Prelude.{
  ℕ, zero, suc, ◌+◌, ◌-◌, ◌*◌, ◌%◌, ◌^◌, Bool, true, false, not, ◌&&◌, ◌||◌, Option, none, some,
  List, [], ◌∷◌, ◌++◌, take, ltb, ◌==◌, if◌then◌else◌,
}
use soteria.Bits.{test_bit}
use soteria.Result.{
  Result, k_ok, k_not_found, k_vksc_instance_failed, k_vksc_device_failed, k_vksc_enumerate_failed,
  k_already_initialised,
}
use soteria.FaultSink.{FaultLevel, FaultType, SinkCall, on_fault, on_unrecorded_faults}
use soteria.Vulkan.Info.{
  Kind, Reservation, FaultData, VkFaultLevel, VkFaultType, instance_info, device_info,
  device_wait_idle, get_fault_data,
}
use soteria.Vulkan.{
  Driver, History, VkResult, incomplete, is_success, M, pure, ◌>>=◌, ◌>>◌, create, run, destroy,
  destroy_if_set,
}

-- `VkscDeviceIdentity`; the name is the text of the array `deviceName` before its NUL.
pub record VkscDeviceIdentity : Type 0 where
  pub vendor_id : ℕ
  pub device_id : ℕ
  pub driver_version : ℕ
  pub api_version : ℕ
  pub driver_id : ℕ
  pub device_name : List ℕ

abbrev pub no_identity : VkscDeviceIdentity
no_identity = record {
  vendor_id = 0;
  device_id = 0;
  driver_version = 0;
  api_version = 0;
  driver_id = 0;
  device_name = [];
}

-- `VkscContextConfig`; of the pipeline caches and pools only the counts are kept.
pub record VkscContextConfig : Type 0 where
  pub app_name : Option String
  pub engine_name : Option String
  pub max_physical_devices : ℕ
  pub instance_extensions : List String
  pub instance_extension_count : ℕ
  pub device_extensions : List String
  pub device_extension_count : ℕ
  pub resources : Reservation
  pub pipeline_cache_info_count : ℕ
  pub pipeline_pool_size_count : ℕ
  pub preferred_driver_id : ℕ

-- The maxima of the source: `VkscContextConfig::kMaxPhysicalDevices`, `kMaxQueueFamilies`,
-- `kMaxFaultEntries` and `VK_MAX_PHYSICAL_DEVICE_NAME_SIZE`.
abbrev pub max_physical_devices : ℕ
max_physical_devices = 8

abbrev pub max_queue_families : ℕ
max_queue_families = 16

abbrev pub max_fault_entries : ℕ
max_fault_entries = 32

abbrev pub max_name_size : ℕ
max_name_size = 256

-- `kInvalidQueueFamily`
abbrev pub invalid_queue_family : ℕ
invalid_queue_family = 2 ^ 32 - 1

pub record VkscContext : Type 0 where
  pub vk_instance_handle : ℕ
  pub physical_device : ℕ
  pub device : ℕ
  pub graphics_queue : ℕ
  pub graphics_queue_family : ℕ
  pub identity : VkscDeviceIdentity
  pub max_query_fault_count : ℕ
  pub initialised : Bool

-- A new context.
abbrev pub fresh : VkscContext
fresh = record {
  vk_instance_handle = 0;
  physical_device = 0;
  device = 0;
  graphics_queue = 0;
  graphics_queue_family = invalid_queue_family;
  identity = no_identity;
  max_query_fault_count = 0;
  initialised = false;
}

-- `ToEngineFaultLevel`
unfoldable pub to_engine_fault_level : VkFaultLevel → FaultLevel
to_engine_fault_level VkFaultLevel.warning = FaultLevel.warning
to_engine_fault_level VkFaultLevel.recoverable = FaultLevel.recoverable
to_engine_fault_level VkFaultLevel.critical = FaultLevel.critical
to_engine_fault_level _ = FaultLevel.unassigned

-- `ToEngineFaultType`
unfoldable pub to_engine_fault_type : VkFaultType → FaultType
to_engine_fault_type VkFaultType.invalid = FaultType.invalid
to_engine_fault_type VkFaultType.implementation = FaultType.implementation
to_engine_fault_type VkFaultType.system = FaultType.system
to_engine_fault_type VkFaultType.physical_device = FaultType.physical_device
to_engine_fault_type VkFaultType.command_buffer_full = FaultType.command_buffer_full
to_engine_fault_type VkFaultType.invalid_api_usage = FaultType.invalid_api_usage
to_engine_fault_type _ = FaultType.unassigned

-- `r == VK_INCOMPLETE`
unfoldable pub is_incomplete : VkResult → Bool
is_incomplete incomplete = true
is_incomplete _ = false

-- The bounded copy of the device's name: at most `room` characters, up to the NUL.
unfoldable pub copy_name : (room : ℕ) → List ℕ → List ℕ
copy_name zero name = []
copy_name (suc room) [] = []
copy_name (suc room) (c ∷ name) = let rest = copy_name room name in if c == 0 then [] else c ∷ rest

-- The loop over the queue families, from the family `f` on: the first one with the graphics bit, bit 0.
unfoldable pub graphics_family : List ℕ → (f : ℕ) → Option ℕ
graphics_family [] f = none
graphics_family (flags ∷ families) f =
    let rest = graphics_family families (f + 1) in if test_bit flags 0 then some f else rest

-- The calls of the sink for the faults.
unfoldable pub report : List FaultData → List SinkCall
report [] = []
report (fault ∷ faults) =
    on_fault (to_engine_fault_level fault.fault_level) (to_engine_fault_type fault.fault_type)
    ∷ report faults

-- The room for faults that `DrainFaults` offers the driver.
unfoldable pub fault_room : VkscContext → ℕ
fault_room c =
    if ltb c.max_query_fault_count max_fault_entries
    then c.max_query_fault_count
    else max_fault_entries

-- The caller's cap, in the range from 1 to `kMaxPhysicalDevices`.
unfoldable pub device_cap : ℕ → ℕ
device_cap max_devices =
    let cap = if max_devices == 0 then 1 else max_devices in
    if ltb max_physical_devices cap then max_physical_devices else cap

module _ (d : Driver) where
  -- The body of the loop over the devices: the graphics family of the device, if the device passes the
  -- filter and has one.
  unfoldable pub try_device : History → (use_filter : Bool) → (preferred pd : ℕ) → Option ℕ
  try_device h use_filter preferred pd =
      if use_filter && not ((d.device_properties h pd).driver_id == preferred)
      then none
      else let families = d.queue_families h pd in
        if families.count == 0
        then none
        else graphics_family
            (families.fetch (
              if ltb max_queue_families families.count
              then max_queue_families
              else families.count)).1
            0

  -- One pass over the devices: the device and the family that are selected.
  unfoldable pub select_pass :
      History → (use_filter : Bool) → (preferred : ℕ) → List ℕ → Option (ℕ × ℕ)
  select_pass h use_filter preferred [] = none
  select_pass h use_filter preferred (pd ∷ devices) =
      let rest = select_pass h use_filter preferred devices in
      elim (try_device h use_filter preferred pd) [ none ↦ rest | some family ↦ some (pd, family) ]

  -- The two passes; without a preferred driver there is one, with no filter.
  unfoldable pub select_from : History → (preferred : ℕ) → List ℕ → Option (ℕ × ℕ)
  select_from h preferred devices =
      if not (preferred == 0)
      then elim (select_pass h true preferred devices) [
        | some found ↦ some found
        | none ↦ select_pass h false preferred devices
      ]
      else select_pass h false preferred devices

  -- `SelectPhysicalDevice`: the result, and the device with its family if there is one.
  unfoldable pub select_physical_device :
      History → (vk_instance_handle preferred max_devices : ℕ) → Result × Option (ℕ × ℕ)
  select_physical_device h inst preferred max_devices =
      let e = d.physical_devices h inst in
      let cap = device_cap max_devices in
      if not (is_success e.count_result) || e.count == 0
      then (k_vksc_enumerate_failed, none)
      else let (r, devices) = e.fetch (if ltb cap e.count then cap else e.count) in
        if not (is_success r)
        then (k_vksc_enumerate_failed, none)
        else elim (select_from h preferred devices) [
          | none ↦ (k_not_found, none)
          | some found ↦ (k_ok, some found)
        ]

  -- `CaptureIdentity`
  unfoldable pub capture_identity : History → VkscContext → VkscContext
  capture_identity h c =
      let p = d.device_properties h c.physical_device in
      record c {
        identity = record {
          vendor_id = p.vendor_id;
          device_id = p.device_id;
          driver_version = p.driver_version;
          api_version = p.api_version;
          driver_id = p.driver_id;
          device_name = copy_name (max_name_size - 1) p.device_name;
        };
        max_query_fault_count =
            if ltb 0 p.max_query_fault_count then p.max_query_fault_count else max_fault_entries;
      }

  -- `Init` from the creation of the logical device on.
  unfoldable pub init_device : VkscContextConfig → VkscContext → M (Result × VkscContext)
  init_device cfg c = do
    made ← create d c.physical_device (
        device_info (record {
          queue_family_index = c.graphics_queue_family;
          reservation = cfg.resources;
          pipeline_cache_info_count = cfg.pipeline_cache_info_count;
          pipeline_pool_size_count = cfg.pipeline_pool_size_count;
          enabled_extensions = take cfg.device_extension_count cfg.device_extensions;
        }))
    let c1 = record c { device = made.handle }
    if not (is_success made.result)
        then (do
          destroy 0 Kind.vk_instance c1.vk_instance_handle
          pure (
            k_vksc_device_failed,
            record c1 {
              vk_instance_handle = 0;
              physical_device = 0;
              graphics_queue_family = invalid_queue_family;
            },
          ))
        else λ h.
            pure
              (
                k_ok,
                record c1 {
                  graphics_queue = d.device_queue h c1.device c1.graphics_queue_family;
                  initialised = true;
                },
              )
              h

  -- `Init` from the selection of the physical device on.
  unfoldable pub init_selected : VkscContextConfig → VkscContext → M (Result × VkscContext)
  init_selected cfg c h =
      let (r, selected) =
        select_physical_device h c.vk_instance_handle cfg.preferred_driver_id
          cfg.max_physical_devices in
      elim selected [
        | none ↦
            (do
              destroy 0 Kind.vk_instance c.vk_instance_handle
              pure (r, record c { vk_instance_handle = 0 }))
              h
        | some (pd, family) ↦
            init_device cfg
              (capture_identity h
                (record c { physical_device = pd; graphics_queue_family = family }))
              h
      ]

  -- `Init`
  unfoldable pub init : VkscContextConfig → VkscContext → M (Result × VkscContext)
  init cfg c = if c.initialised then pure (k_already_initialised, c) else do
    made ← create d 0 (
        instance_info (record {
          application_name = elim cfg.app_name [ none ↦ "soteria-app" | some name ↦ name ];
          engine_name = elim cfg.engine_name [ none ↦ "soteria" | some name ↦ name ];
          enabled_extensions = take cfg.instance_extension_count cfg.instance_extensions;
        }))
    let c1 = record c { vk_instance_handle = made.handle }
    if not (is_success made.result) then pure (k_vksc_instance_failed, c1) else init_selected cfg c1

  -- `Shutdown`, its first half: the logical device.
  unfoldable pub shutdown_device : VkscContext → M VkscContext
  shutdown_device c = if c.device == 0 then pure c else do
    _ ← run d (device_wait_idle c.device)
    destroy 0 Kind.vk_device c.device
    pure (record c { device = 0; graphics_queue = 0 })

  -- `Shutdown`
  unfoldable pub shutdown : VkscContext → M VkscContext
  shutdown c = if not c.initialised then pure c else do
    c1 ← shutdown_device c
    destroy_if_set 0 Kind.vk_instance c1.vk_instance_handle
    pure (record c1 {
      vk_instance_handle = 0;
      physical_device = 0;
      graphics_queue_family = invalid_queue_family;
      identity = no_identity;
      max_query_fault_count = 0;
      initialised = false;
    })

  -- `DrainFaults`: the calls of the sink, in order.
  unfoldable pub drain_faults : VkscContext → M (List SinkCall)
  drain_faults c = if not c.initialised then pure [] else λ h.
      let room = fault_room c in
      let got = d.fault_data h room in
      (do
        r ← run d (get_fault_data c.device room)
        if not (is_success r) && not (is_incomplete r)
            then pure []
            else pure
                (report got.faults ++ (if got.unrecorded then on_unrecorded_faults ∷ [] else [])))
        h
