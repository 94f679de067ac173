-- ===== src/HealthMonitor/Examples.antt =====
-- Runs of the health monitor.
use soteria.FaultSink.{FaultLevel, FaultType}
use soteria.FixedString.{text}
use soteria.FixedString.Bounds.{u64_dec_text}
use soteria.HealthMonitor.Lines.{
  health_line, fault_line, health_label, event_label, fault_label, type_label, event_name,
  level_name, type_name, log_lines_lem,
}
use soteria.Prelude.{ℕ, ◌+◌, ◌%◌, ◌^◌, ◌≡◌, refl, true, List, [], ◌∷◌, ◌++◌, arith, if◌then◌else◌}
use soteria.Vulkan.{is_success}
use soteria.Vulkan.Simulated.{driver}
use soteria.Context
use soteria.Context.{VkscContext, fault_room, drain_faults}
use soteria.HealthMonitor.{
  HealthEvent, driver_fault, gpu_hang, frame_deadline_miss, fresh, event_count,
}
use soteria.HealthMonitor.Counts.{receive_all, critical_faults, drain_faults-count}

abbrev events : List (HealthEvent × ℕ)
events = (gpu_hang, 3) ∷ (driver_fault, 2) ∷ (gpu_hang, 1) ∷ []

abbrev context : VkscContext
context = record Context.fresh {
  vk_instance_handle = 2;
  physical_device = 11;
  device = 7;
  max_query_fault_count = 16;
  initialised = true;
}

drain_faults-count_example :
    event_count driver_fault (receive_all (drain_faults driver context []).0 fresh)
    ≡ (event_count driver_fault fresh
        + critical_faults (driver.fault_data [] (fault_room context)).faults
        + (if (driver.fault_data [] (fault_room context)).unrecorded then 1 else 0))
      % 2 ^ 64
unfolding event_count is_success
drain_faults-count_example =
    drain_faults-count driver context [] fresh refl refl (refl, omega arith)

log_lines_lem_example :
    (text (health_line frame_deadline_miss 5)
      ≡ health_label ++ u64_dec_text 5 ++ event_label ++ event_name frame_deadline_miss)
    × (text (fault_line FaultLevel.critical FaultType.system)
        ≡ fault_label ++ level_name FaultLevel.critical ++ type_label ++ type_name FaultType.system)
log_lines_lem_example =
    log_lines_lem frame_deadline_miss 5 FaultLevel.critical FaultType.system (omega arith)
