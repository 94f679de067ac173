-- ===== src/FaultSink.antt =====
-- engine/core/i_fault_sink.hpp: the faults as the engine reports them, and the calls of a fault sink.
pub data FaultLevel : Type 0 where
  unassigned : FaultLevel
  warning : FaultLevel
  recoverable : FaultLevel
  critical : FaultLevel

pub data FaultType : Type 0 where
  invalid : FaultType
  unassigned : FaultType
  implementation : FaultType
  system : FaultType
  physical_device : FaultType
  command_buffer_full : FaultType
  invalid_api_usage : FaultType

-- A call of a method of `IFaultSink`.
pub data SinkCall : Type 0 where
  on_fault : FaultLevel → FaultType → SinkCall
  on_unrecorded_faults : SinkCall
