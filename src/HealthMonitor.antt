-- ===== src/HealthMonitor.antt =====
-- engine/data/i_health_monitor.hpp and app/demo/console_health_monitor.hpp: the health events, and
-- `ConsoleHealthMonitor`, which counts them and limits the rate of its log. HealthMonitor/Counts is
-- about the counts, also of the faults that `VkscContext::DrainFaults` reports; HealthMonitor/Lines is
-- about the lines of the log.
pub mod Counts
pub mod Lines
mod Examples
use soteria.Prelude.{
  ℕ, ◌+◌, ◌%◌, ◌^◌, Bool, true, false, ◌||◌, List, [], ◌∷◌, get_or, set, replicate, leb, ◌==◌,
  if◌then◌else◌,
}
use soteria.FaultSink.{FaultLevel, FaultType, SinkCall, on_fault, on_unrecorded_faults}

-- `enum class HealthEvent`
pub data HealthEvent : Type 0 where
  gpu_hang : HealthEvent
  device_lost : HealthEvent
  surface_lost : HealthEvent
  acquire_failed : HealthEvent
  present_failed : HealthEvent
  submit_failed : HealthEvent
  record_failed : HealthEvent
  input_data_invalid : HealthEvent
  frame_deadline_miss : HealthEvent
  driver_fault : HealthEvent

-- `static_cast<uint32_t>(event)`
abbrev pub index : HealthEvent → ℕ
index gpu_hang = 0
index device_lost = 1
index surface_lost = 2
index acquire_failed = 3
index present_failed = 4
index submit_failed = 5
index record_failed = 6
index input_data_invalid = 7
index frame_deadline_miss = 8
index driver_fault = 9

-- `kEventCount` and `kLogIntervalFrames`
abbrev pub event_count_max : ℕ
event_count_max = 10

abbrev pub log_interval_frames : ℕ
log_interval_frames = 60

pub record ConsoleHealthMonitor : Type 0 where
  pub event_counts : List ℕ
  pub fault_frame : ℕ

-- A new monitor.
abbrev pub fresh : ConsoleHealthMonitor
fresh = record { event_counts = replicate event_count_max 0; fault_frame = 0 }

-- `OnHealthEvent`: the monitor afterwards, and whether the event is logged.
unfoldable pub on_health_event :
    HealthEvent → ℕ → ConsoleHealthMonitor → ConsoleHealthMonitor × Bool
on_health_event event frame_number m =
    let idx = index event in
    let seen = get_or m.event_counts idx 0 in
    if leb event_count_max idx then (m, false) else (
      record m { event_counts = set m.event_counts idx ((seen + 1) % 2 ^ 64) },
      seen == 0 || frame_number % log_interval_frames == 0,
    )

-- `OnHealthEvent(HealthEvent::eDriverFault, m_faultFrame++)`
unfoldable pub on_driver_fault : ConsoleHealthMonitor → ConsoleHealthMonitor
on_driver_fault m =
    (on_health_event driver_fault m.fault_frame
      (record m { fault_frame = (m.fault_frame + 1) % 2 ^ 64 })).0

-- A call of the monitor as a fault sink: `OnFault` or `OnUnrecordedFaults`.
unfoldable pub receive : SinkCall → ConsoleHealthMonitor → ConsoleHealthMonitor
receive (on_fault FaultLevel.critical type) m = on_driver_fault m
receive (on_fault FaultLevel.unassigned type) m = m
receive (on_fault FaultLevel.warning type) m = m
receive (on_fault FaultLevel.recoverable type) m = m
receive on_unrecorded_faults m = on_driver_fault m

-- `EventCount`
unfoldable pub event_count : HealthEvent → ConsoleHealthMonitor → ℕ
event_count event m =
    if leb event_count_max (index event) then 0 else get_or m.event_counts (index event) 0
