-- ===== src/HealthMonitor/Counts.antt =====
-- app/demo/console_health_monitor.hpp: the counts of the health events, and the way of a fault from the
-- driver to its count.
use soteria.Prelude.{
  ℕ, zero, suc, ◌+◌, ◌%◌, ◌^◌, ◌<◌, ◌≡◌, ◌≢◌, refl, sym, ap, ◌∙◌, inl, inr, true, List, [], ◌∷◌,
  ◌++◌, arith, length, length-set, get_or, set, ◌==◌, if◌then◌else◌, Bool-cases, ==→eq,
}
use soteria.FaultSink.{FaultLevel, SinkCall, on_fault, on_unrecorded_faults}
use soteria.Vulkan.Info.{FaultData, VkFaultLevel, get_fault_data}
use soteria.Vulkan.{Driver, History, is_success}
use soteria.Context.{
  VkscContext, drain_faults, report, to_engine_fault_level, to_engine_fault_type, fault_room,
}
use soteria.Context.Faults.{calls, drain_with}
use soteria.HealthMonitor.{
  HealthEvent, driver_fault, index, event_count_max, ConsoleHealthMonitor, fresh, on_health_event,
  on_driver_fault, receive, event_count,
}

get_or-set_self : (xs : List ℕ) (i v d : ℕ) → i < length xs → get_or (set xs i v) i d ≡ v
get_or-set_self [] i v d h = absurd (omega arith)
get_or-set_self (x ∷ xs) zero v d h = refl
get_or-set_self (x ∷ xs) (suc i) v d h = get_or-set_self xs i v d (omega arith)

get_or-set_other : (xs : List ℕ) (i j v d : ℕ) → i ≢ j → get_or (set xs i v) j d ≡ get_or xs j d
get_or-set_other [] i j v d h = refl
get_or-set_other (x ∷ xs) zero zero v d h = absurd (h refl)
get_or-set_other (x ∷ xs) zero (suc j) v d h = refl
get_or-set_other (x ∷ xs) (suc i) zero v d h = refl
get_or-set_other (x ∷ xs) (suc i) (suc j) v d h = get_or-set_other xs i j v d (λ e. h (ap suc e))

index-bound : (e : HealthEvent) → index e < event_count_max
index-bound HealthEvent.gpu_hang = omega arith
index-bound HealthEvent.device_lost = omega arith
index-bound HealthEvent.surface_lost = omega arith
index-bound HealthEvent.acquire_failed = omega arith
index-bound HealthEvent.present_failed = omega arith
index-bound HealthEvent.submit_failed = omega arith
index-bound HealthEvent.record_failed = omega arith
index-bound HealthEvent.input_data_invalid = omega arith
index-bound HealthEvent.frame_deadline_miss = omega arith
index-bound HealthEvent.driver_fault = omega arith

-- The array of counts has a slot for each event.
abbrev pub HasSlots : ConsoleHealthMonitor → Type 0
HasSlots m = length m.event_counts ≡ event_count_max

on_health_event-HasSlots :
    (e : HealthEvent) (frame : ℕ) (m : ConsoleHealthMonitor)
    → HasSlots m
    → HasSlots (on_health_event e frame m).0
unfolding on_health_event
on_health_event-HasSlots e frame m h = ground (
  arith,
  index-bound e,
  length-set m.event_counts (index e) ((get_or m.event_counts (index e) 0 + 1) % 2 ^ 64),
)

on_health_event-count :
    (e f : HealthEvent) (frame : ℕ) (m : ConsoleHealthMonitor)
    → HasSlots m
    → event_count f (on_health_event e frame m).0
      ≡ (if index e == index f then (event_count f m + 1) % 2 ^ 64 else event_count f m)
unfolding on_health_event event_count
on_health_event-count e f frame m h =
    let v = (get_or m.event_counts (index e) 0 + 1) % 2 ^ 64 in
    elim (Bool-cases (index e == index f)) [
      | inl same ↦
          let same_slot = ==→eq (index e) (index f) same in
          ground (
            arith,
            same,
            same_slot,
            index-bound e,
            index-bound f,
            ap (λ i. get_or (set m.event_counts (index e) v) i 0) (sym same_slot)
                ∙ get_or-set_self m.event_counts (index e) v 0 (omega (arith, h, index-bound e)),
            ap (λ i. get_or m.event_counts i 0) same_slot,
          )
      | inr other ↦ ground (
        arith,
        other,
        index-bound e,
        index-bound f,
        get_or-set_other m.event_counts (index e) (index f) v 0 (λ e. ground (arith, other, e)),
      )
    ]

-- The events of a list, the latest first, with their frame numbers.
pub report_all : List (HealthEvent × ℕ) → ConsoleHealthMonitor → ConsoleHealthMonitor
report_all [] m = m
report_all ((e, frame) ∷ events) m = (on_health_event e frame (report_all events m)).0

-- How often an event is in the list.
abbrev pub occurrences : HealthEvent → List (HealthEvent × ℕ) → ℕ
occurrences f [] = 0
occurrences f ((e, frame) ∷ events) =
    if index e == index f then suc (occurrences f events) else occurrences f events

report_all-HasSlots : (events : List (HealthEvent × ℕ)) → HasSlots (report_all events fresh)
unfolding report_all
report_all-HasSlots [] = refl
report_all-HasSlots ((e, frame) ∷ events) =
    on_health_event-HasSlots e frame (report_all events fresh) (report_all-HasSlots events)

event_count-fresh : (f : HealthEvent) → event_count f fresh ≡ 0
unfolding event_count
event_count-fresh HealthEvent.gpu_hang = refl
event_count-fresh HealthEvent.device_lost = refl
event_count-fresh HealthEvent.surface_lost = refl
event_count-fresh HealthEvent.acquire_failed = refl
event_count-fresh HealthEvent.present_failed = refl
event_count-fresh HealthEvent.submit_failed = refl
event_count-fresh HealthEvent.record_failed = refl
event_count-fresh HealthEvent.input_data_invalid = refl
event_count-fresh HealthEvent.frame_deadline_miss = refl
event_count-fresh HealthEvent.driver_fault = refl

-- After any sequence of health events on a new monitor the count of each event is the number of times that it
-- was reported, modulo 2^64, whatever the other events and the frame numbers.
pub report_all-count :
    (events : List (HealthEvent × ℕ)) (f : HealthEvent)
    → event_count f (report_all events fresh) ≡ occurrences f events % 2 ^ 64
unfolding report_all
report_all-count [] f = omega (arith, event_count-fresh f)
report_all-count ((e, frame) ∷ events) f = ground (
  arith,
  on_health_event-count e f frame (report_all events fresh) (report_all-HasSlots events),
  report_all-count events f,
)

-- The calls of the sink, in order.
pub receive_all : List SinkCall → ConsoleHealthMonitor → ConsoleHealthMonitor
receive_all [] m = m
receive_all (call ∷ more) m = receive_all more (receive call m)

-- How many of the calls are about a critical fault or about a loss of faults.
abbrev alarm : SinkCall → ℕ
alarm (on_fault FaultLevel.critical type) = 1
alarm (on_fault FaultLevel.unassigned type) = 0
alarm (on_fault FaultLevel.warning type) = 0
alarm (on_fault FaultLevel.recoverable type) = 0
alarm on_unrecorded_faults = 1

abbrev alarms : List SinkCall → ℕ
alarms [] = 0
alarms (call ∷ more) = alarm call + alarms more

alarms-append : (xs ys : List SinkCall) → alarms (xs ++ ys) ≡ alarms xs + alarms ys
alarms-append [] ys = omega arith
alarms-append (x ∷ xs) ys = omega (arith, alarms-append xs ys)

on_driver_fault-count :
    (m : ConsoleHealthMonitor)
    → HasSlots m
    → HasSlots (on_driver_fault m)
      × (event_count driver_fault (on_driver_fault m) ≡ (event_count driver_fault m + 1) % 2 ^ 64)
unfolding on_driver_fault event_count
on_driver_fault-count m h =
    let next = record m { fault_frame = (m.fault_frame + 1) % 2 ^ 64 } in
    (
      on_health_event-HasSlots driver_fault m.fault_frame next h,
      on_health_event-count driver_fault driver_fault m.fault_frame next h,
    )

-- A monitor whose count of driver faults is a 64-bit number.
abbrev pub IsCounting : ConsoleHealthMonitor → Type 0
IsCounting m = HasSlots m × (event_count driver_fault m < 2 ^ 64)

receive-count :
    (call : SinkCall) (m : ConsoleHealthMonitor)
    → IsCounting m
    → IsCounting (receive call m)
      × (event_count driver_fault (receive call m)
          ≡ (event_count driver_fault m + alarm call) % 2 ^ 64)
unfolding receive
receive-count (on_fault FaultLevel.critical type) m (h, small) =
    let (slots, counted) = on_driver_fault-count m h in ((slots, omega (arith, counted)), counted)
receive-count (on_fault FaultLevel.unassigned type) m (h, small) =
    ((h, small), omega (arith, small))
receive-count (on_fault FaultLevel.warning type) m (h, small) = ((h, small), omega (arith, small))
receive-count (on_fault FaultLevel.recoverable type) m (h, small) =
    ((h, small), omega (arith, small))
receive-count on_unrecorded_faults m (h, small) =
    let (slots, counted) = on_driver_fault-count m h in ((slots, omega (arith, counted)), counted)

receive_all-count :
    (cs : List SinkCall) (m : ConsoleHealthMonitor)
    → IsCounting m
    → event_count driver_fault (receive_all cs m)
      ≡ (event_count driver_fault m + alarms cs) % 2 ^ 64
unfolding receive_all
receive_all-count [] m v = omega (arith, v.1)
receive_all-count (call ∷ more) m v =
    let (next, counted) = receive-count call m v in
    omega (arith, receive_all-count more (receive call m) next, counted)

-- The critical faults among those that the driver recorded.
abbrev pub is_critical : FaultData → ℕ
is_critical fault = elim fault.fault_level [ VkFaultLevel.critical ↦ 1 | _ ↦ 0 ]

abbrev pub critical_faults : List FaultData → ℕ
critical_faults [] = 0
critical_faults (fault ∷ faults) = is_critical fault + critical_faults faults

alarm-level :
    (l : VkFaultLevel) (fault : FaultData)
    → fault.fault_level ≡ l
    → alarm
        (on_fault (to_engine_fault_level fault.fault_level) (to_engine_fault_type fault.fault_type))
      ≡ is_critical fault
unfolding to_engine_fault_level
alarm-level VkFaultLevel.critical fault e = rw e refl
alarm-level VkFaultLevel.unassigned fault e = rw e refl
alarm-level VkFaultLevel.recoverable fault e = rw e refl
alarm-level VkFaultLevel.warning fault e = rw e refl
alarm-level VkFaultLevel.max_enum fault e = rw e refl
alarm-level (VkFaultLevel.other n) fault e = rw e refl

alarms-report : (faults : List FaultData) → alarms (report faults) ≡ critical_faults faults
unfolding report
alarms-report [] = refl
alarms-report (fault ∷ faults) =
    omega (arith, alarms-report faults, alarm-level fault.fault_level fault refl)

-- If an initialised context drains its faults, with the driver's call succeeding, into a monitor
-- that has a slot for each event and a 64-bit count of driver faults, that count grows, modulo
-- 2^64, by the number of critical faults that the driver wrote, and by one more if the driver lost
-- faults.
pub drain_faults-count :
    (d : Driver) (c : VkscContext) (h : History) (m : ConsoleHealthMonitor)
    → c.initialised ≡ true
    → is_success (d.runs h (get_fault_data c.device (fault_room c))) ≡ true
    → IsCounting m
    → event_count driver_fault (receive_all (drain_faults d c h).0 m)
      ≡ (event_count driver_fault m
          + critical_faults (d.fault_data h (fault_room c)).faults
          + (if (d.fault_data h (fault_room c)).unrecorded then 1 else 0))
        % 2 ^ 64
drain_faults-count d c h m on ok v =
    let got = d.fault_data h (fault_room c) in
    let drained : (drain_faults d c h).0 ≡ calls got =
      ground (arith, on, ok, drain_with d c h (fault_room c) refl) in
    let total : alarms (calls got)
        ≡ critical_faults got.faults + (if got.unrecorded then 1 else 0) =
      ground (
        arith,
        alarms-report got.faults,
        alarms-append (report got.faults) (on_unrecorded_faults ∷ []),
        alarms-append (report got.faults) [],
      ) in
    ap (λ cs. event_count driver_fault (receive_all cs m)) drained
    ∙ receive_all-count (calls got) m v
    ∙ ap (λ n. n % 2 ^ 64) (omega (arith, total))
