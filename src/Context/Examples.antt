-- ===== src/Context/Examples.antt =====
-- Runs of the context.
use soteria.Prelude.{
  map, ◌++◌, ℕ, ◌+◌, ◌≤◌, ◌≡◌, ◌≢◌, ◌⊎◌, ◌∷◌, refl, true, false, ◌||◌, none, some, List, [], arith,
  length, if◌then◌else◌,
}
use soteria.FaultSink.{on_unrecorded_faults}
use soteria.Result.{k_vksc_enumerate_failed}
use soteria.Vulkan.Info.{Kind, Reservation, instance_info, get_fault_data}
use soteria.Vulkan.{History, created, ran, success, is_success}
use soteria.Vulkan.Live.{Object, live}
use soteria.Vulkan.Simulated.{driver, large_driver, listed-IsConforming}
use soteria.Context.{
  VkscContext, VkscContextConfig, fresh, init, drain_faults, select_from, select_physical_device,
  is_incomplete, max_fault_entries,
}
use soteria.Context.Selection.{AllRejected, IsFirst, select_from_lem, select_rejects}
use soteria.Context.Life.{context_owned, context_init-live}
use soteria.Context.Faults.{call_of, drain_faults_lem}

abbrev reservation : Reservation
reservation = record {
  semaphores = 2;
  command_buffers = 1;
  fences = 1;
  device_memory_allocations = 1;
  buffers = 1;
  images = 0;
  image_views = 3;
  layered_image_views = 0;
  pipeline_caches = 1;
  pipeline_layouts = 1;
  render_passes = 1;
  graphics_pipelines = 2;
  compute_pipelines = 0;
  framebuffers = 3;
  command_pools = 1;
  swapchains = 1;
  surfaces = 1;
  subpass_descriptions = 1;
  attachment_descriptions = 1;
  descriptor_set_layouts = 0;
  descriptor_pools = 0;
  descriptor_sets = 0;
  samplers = 0;
  max_image_view_mip_levels = 1;
  max_image_view_array_layers = 1;
}

abbrev config : VkscContextConfig
config = record {
  app_name = none;
  engine_name = none;
  max_physical_devices = 8;
  instance_extensions = [];
  instance_extension_count = 0;
  device_extensions = [];
  device_extension_count = 0;
  resources = reservation;
  pipeline_cache_info_count = 1;
  pipeline_pool_size_count = 1;
  preferred_driver_id = 5;
}

abbrev ready : VkscContext
ready = record fresh {
  vk_instance_handle = 2;
  physical_device = 11;
  device = 7;
  max_query_fault_count = 16;
  initialised = true;
}

abbrev an_instance : Object
an_instance = record { kind = Kind.vk_instance; handle = 2 }

abbrev device : Object
device = record { kind = Kind.vk_device; handle = 7 }

context_init-live_example :
    live (init driver config fresh []).1 device
    ≡ context_owned (init driver config fresh []).0.1 device + 0
unfolding live
context_init-live_example = context_init-live driver config fresh [] device 0 refl

abbrev history : History
history =
    created 0
      (instance_info (record {
        application_name = "soteria-app";
        engine_name = "soteria";
        enabled_extensions = [];
      }))
      (record { result = success; handle = 2 })
    ∷ []

abbrev devices : List ℕ
devices = 11 ∷ 12 ∷ []

abbrev preferred : ℕ
preferred = 5

select_from_lem_example :
    ((select_from driver [] preferred devices ≡ none)
      × AllRejected driver [] preferred false devices)
    ⊎ ((pd : ℕ) × (family : ℕ) × (select_from driver [] preferred devices ≡ some (pd, family))
        × (((preferred ≢ 0) × IsFirst driver [] preferred true devices pd family)
            ⊎ (IsFirst driver [] preferred false devices pd family
                × ((preferred ≡ 0) ⊎ AllRejected driver [] preferred true devices))))
select_from_lem_example = select_from_lem driver [] preferred devices

select_rejects_example : (select_physical_device large_driver [] 2 0 2).0 ≡ k_vksc_enumerate_failed
select_rejects_example =
    select_rejects large_driver [] 2 0 2 (listed-IsConforming (1 ∷ 2 ∷ 3 ∷ [])) (omega arith)

drain_faults_lem_example :
    let r = driver.runs [] (get_fault_data 7 16) in
    let got = driver.fault_data [] 16 in
    (drain_faults driver ready [] ≡ (
      if is_success r || is_incomplete r
          then map call_of got.faults ++ (if got.unrecorded then on_unrecorded_faults ∷ [] else [])
          else [],
      ran (get_fault_data 7 16) r ∷ [],
    ))
    × (length (drain_faults driver ready []).0 ≤ max_fault_entries + 1)
drain_faults_lem_example = drain_faults_lem driver ready []
