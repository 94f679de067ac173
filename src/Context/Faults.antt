-- ===== src/Context/Faults.antt =====
-- engine/core/vksc_context.cpp: the faults that `DrainFaults` reports, and the device's name that
-- `CaptureIdentity` copies.
use soteria.Prelude.{
  ℕ, zero, suc, ◌+◌, ◌≤◌, ◌≡◌, ◌≢◌, refl, ap, inl, inr, not, ◌||◌, List, [], ◌∷◌, ◌++◌, arith, map,
  subst, length, length-append, take, min, All, ◌==◌, if◌then◌else◌, Bool-cases,
}
use soteria.FaultSink.{SinkCall, on_fault, on_unrecorded_faults}
use soteria.Vulkan.Info.{FaultData, get_fault_data}
use soteria.Vulkan.{Driver, History, Faults, ran, run, is_success}
use soteria.Context.{
  to_engine_fault_level, to_engine_fault_type, VkscContext, drain_faults, report, fault_room,
  is_incomplete, max_fault_entries, copy_name,
}

length-report : (faults : List FaultData) → length (report faults) ≡ length faults
unfolding report
length-report [] = refl
length-report (fault ∷ faults) = ap suc (length-report faults)

fault_room-min : (c : VkscContext) → fault_room c ≡ min c.max_query_fault_count max_fault_entries
unfolding fault_room
fault_room-min c = ground arith

-- The call for a fault, with the engine's level and type for it.
abbrev pub call_of : FaultData → SinkCall
call_of fault =
    on_fault (to_engine_fault_level fault.fault_level) (to_engine_fault_type fault.fault_type)

report-map : (faults : List FaultData) → report faults ≡ map call_of faults
unfolding report
report-map [] = refl
report-map (fault ∷ faults) = ap (◌∷◌ (call_of fault)) (report-map faults)

-- What the sink is called with for the faults that the driver wrote.
abbrev pub calls : Faults → List SinkCall
calls got = report got.faults ++ (if got.unrecorded then on_unrecorded_faults ∷ [] else [])

length-calls : (got : Faults) → length (calls got) ≤ length got.faults + 1
length-calls got = ground (
  arith,
  length-report got.faults,
  length-append (report got.faults) [],
  length-append (report got.faults) (on_unrecorded_faults ∷ []),
)

pub drain_with :
    (d : Driver) (c : VkscContext) (h : History) (room : ℕ)
    → fault_room c ≡ room
    → let r = d.runs h (get_fault_data c.device room) in
      drain_faults d c h ≡ (
        if not c.initialised then ([], h) else (
          if is_success r || is_incomplete r then calls (d.fault_data h room) else [],
          ran (get_fault_data c.device room) r ∷ h,
        ))
unfolding drain_faults run
drain_with d c h room e = rw e (ground arith)

-- A context that is not initialised reports nothing and calls nothing. One that is calls
-- `vkGetFaultData` once, with room for the least of `kMaxFaultEntries` and the device's maximum. If the
-- call succeeds or is `VK_INCOMPLETE`, each fault that it wrote is reported once, in their order, with
-- the engine's level and type for it, and then the loss of faults if there was one; if it fails,
-- nothing is. The sink is called at most `kMaxFaultEntries + 1` times.
pub drain_faults_lem :
    (d : Driver) (c : VkscContext) (h : History)
    → let room = min c.max_query_fault_count max_fault_entries in
      let r = d.runs h (get_fault_data c.device room) in
      let got = d.fault_data h room in
      (drain_faults d c h ≡ (
        if not c.initialised then ([], h) else (
          if is_success r || is_incomplete r
              then map call_of got.faults
                ++ (if got.unrecorded then on_unrecorded_faults ∷ [] else [])
              else [],
          ran (get_fault_data c.device room) r ∷ h,
        )))
      × (length (drain_faults d c h).0 ≤ max_fault_entries + 1)
drain_faults_lem d c h =
    let room = min c.max_query_fault_count max_fault_entries in
    let e = drain_with d c h room (fault_room-min c) in
    let r = d.runs h (get_fault_data c.device room) in
    let got = d.fault_data h room in
    (
      subst
          (λ reported. drain_faults d c h ≡ (
            if not c.initialised then ([], h) else (
              if is_success r || is_incomplete r
                  then reported ++ (if got.unrecorded then on_unrecorded_faults ∷ [] else [])
                  else [],
              ran (get_fault_data c.device room) r ∷ h,
            )))
          (report-map got.faults) e,
      rw e (ground (arith, d.faults_fit h room, length-calls got)),
    )

-- The bytes of a name before its first NUL.
abbrev pub before_nul : List ℕ → List ℕ
before_nul [] = []
before_nul (c ∷ name) = if c == 0 then [] else c ∷ before_nul name

-- The name that is copied is the device's name up to its NUL, cut off where the array needs its last slot
-- for the NUL; so it never leaves the array, and it has no NUL inside.
pub copy_name_lem :
    (room : ℕ) (name : List ℕ)
    → (copy_name room name ≡ take room (before_nul name))
      × (length (copy_name room name) ≤ room)
      × All (λ c. c ≢ 0) (copy_name room name)
unfolding copy_name
copy_name_lem zero name = (refl, omega arith, tt)
copy_name_lem (suc room) [] = (refl, omega arith, tt)
copy_name_lem (suc room) (c ∷ name) =
    let (same, short, plain) = copy_name_lem room name in
    elim (Bool-cases (c == 0)) [
      | inl nul ↦ (rw nul refl, rw nul (omega arith), rw nul tt)
      | inr more ↦ (
        rw more (ap (◌∷◌ c) same),
        rw more (omega (arith, short)),
        rw more ((λ e. ground (arith, e, more)), plain),
      )
    ]
