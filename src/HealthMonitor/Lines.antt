-- ===== src/HealthMonitor/Lines.antt =====
-- app/demo/console_health_monitor.hpp: the names and the lines of the log, as character codes. A value that is
-- no enumerator, for which the source has a default name, does not exist in the model.
use soteria.Prelude.{
  ℕ, ◌^◌, ◌<◌, ◌≤◌, ◌≡◌, refl, ap, ◌∙◌, some, List, [], ◌∷◌, ◌++◌, arith, length, length-append,
  take, take-of_le,
}
use soteria.FaultSink.{FaultLevel, FaultType}
use soteria.FixedString.{FixedString, text, empty, append, append_u64_dec}
use soteria.FixedString.Buffer.{c_string}
use soteria.FixedString.Bounds.{
  Writes-trans, empty-IsValid, append-Writes, u64_dec_text, append_u64_dec-Writes,
}
use soteria.FixedString.Decimal.{u64_dec_text-IsNumeral}
use soteria.HealthMonitor.{
  HealthEvent, gpu_hang, device_lost, surface_lost, acquire_failed, present_failed, submit_failed,
  record_failed, input_data_invalid, frame_deadline_miss, driver_fault,
}

-- `EventName`
unfoldable pub event_name : HealthEvent → List ℕ
event_name gpu_hang = b'G' ∷ b'p' ∷ b'u' ∷ b'H' ∷ b'a' ∷ b'n' ∷ b'g' ∷ []
event_name device_lost = b'D' ∷ b'e' ∷ b'v' ∷ b'i' ∷ b'c' ∷ b'e' ∷ b'L' ∷ b'o' ∷ b's' ∷ b't' ∷ []
event_name surface_lost =
    b'S' ∷ b'u' ∷ b'r' ∷ b'f' ∷ b'a' ∷ b'c' ∷ b'e' ∷ b'L' ∷ b'o' ∷ b's' ∷ b't' ∷ []
event_name acquire_failed =
    b'A' ∷ b'c' ∷ b'q' ∷ b'u' ∷ b'i' ∷ b'r' ∷ b'e' ∷ b'F' ∷ b'a' ∷ b'i' ∷ b'l' ∷ b'e' ∷ b'd' ∷ []
event_name present_failed =
    b'P' ∷ b'r' ∷ b'e' ∷ b's' ∷ b'e' ∷ b'n' ∷ b't' ∷ b'F' ∷ b'a' ∷ b'i' ∷ b'l' ∷ b'e' ∷ b'd' ∷ []
event_name submit_failed =
    b'S' ∷ b'u' ∷ b'b' ∷ b'm' ∷ b'i' ∷ b't' ∷ b'F' ∷ b'a' ∷ b'i' ∷ b'l' ∷ b'e' ∷ b'd' ∷ []
event_name record_failed =
    b'R' ∷ b'e' ∷ b'c' ∷ b'o' ∷ b'r' ∷ b'd' ∷ b'F' ∷ b'a' ∷ b'i' ∷ b'l' ∷ b'e' ∷ b'd' ∷ []
event_name input_data_invalid =
    b'I' ∷ b'n' ∷ b'p' ∷ b'u' ∷ b't' ∷ b'D' ∷ b'a' ∷ b't' ∷ b'a' ∷ b'I' ∷ b'n' ∷ b'v' ∷ b'a' ∷ b'l'
    ∷ b'i' ∷ b'd' ∷ []
event_name frame_deadline_miss =
    b'F' ∷ b'r' ∷ b'a' ∷ b'm' ∷ b'e' ∷ b'D' ∷ b'e' ∷ b'a' ∷ b'd' ∷ b'l' ∷ b'i' ∷ b'n' ∷ b'e' ∷ b'M'
    ∷ b'i' ∷ b's' ∷ b's' ∷ []
event_name driver_fault =
    b'D' ∷ b'r' ∷ b'i' ∷ b'v' ∷ b'e' ∷ b'r' ∷ b'F' ∷ b'a' ∷ b'u' ∷ b'l' ∷ b't' ∷ []

-- `LevelName`
unfoldable pub level_name : FaultLevel → List ℕ
level_name FaultLevel.warning = b'W' ∷ b'A' ∷ b'R' ∷ b'N' ∷ b'I' ∷ b'N' ∷ b'G' ∷ []
level_name FaultLevel.recoverable =
    b'R' ∷ b'E' ∷ b'C' ∷ b'O' ∷ b'V' ∷ b'E' ∷ b'R' ∷ b'A' ∷ b'B' ∷ b'L' ∷ b'E' ∷ []
level_name FaultLevel.critical = b'C' ∷ b'R' ∷ b'I' ∷ b'T' ∷ b'I' ∷ b'C' ∷ b'A' ∷ b'L' ∷ []
level_name FaultLevel.unassigned =
    b'U' ∷ b'N' ∷ b'A' ∷ b'S' ∷ b'S' ∷ b'I' ∷ b'G' ∷ b'N' ∷ b'E' ∷ b'D' ∷ []

-- `TypeName`
unfoldable pub type_name : FaultType → List ℕ
type_name FaultType.invalid = b'I' ∷ b'N' ∷ b'V' ∷ b'A' ∷ b'L' ∷ b'I' ∷ b'D' ∷ []
type_name FaultType.unassigned =
    b'U' ∷ b'N' ∷ b'A' ∷ b'S' ∷ b'S' ∷ b'I' ∷ b'G' ∷ b'N' ∷ b'E' ∷ b'D' ∷ []
type_name FaultType.implementation =
    b'I' ∷ b'M' ∷ b'P' ∷ b'L' ∷ b'E' ∷ b'M' ∷ b'E' ∷ b'N' ∷ b'T' ∷ b'A' ∷ b'T' ∷ b'I' ∷ b'O' ∷ b'N'
    ∷ []
type_name FaultType.system = b'S' ∷ b'Y' ∷ b'S' ∷ b'T' ∷ b'E' ∷ b'M' ∷ []
type_name FaultType.physical_device =
    b'P' ∷ b'H' ∷ b'Y' ∷ b'S' ∷ b'I' ∷ b'C' ∷ b'A' ∷ b'L' ∷ b'_' ∷ b'D' ∷ b'E' ∷ b'V' ∷ b'I' ∷ b'C'
    ∷ b'E' ∷ []
type_name FaultType.command_buffer_full =
    b'C' ∷ b'O' ∷ b'M' ∷ b'M' ∷ b'A' ∷ b'N' ∷ b'D' ∷ b'_' ∷ b'B' ∷ b'U' ∷ b'F' ∷ b'F' ∷ b'E' ∷ b'R'
    ∷ b'_' ∷ b'F' ∷ b'U' ∷ b'L' ∷ b'L' ∷ []
type_name FaultType.invalid_api_usage =
    b'I' ∷ b'N' ∷ b'V' ∷ b'A' ∷ b'L' ∷ b'I' ∷ b'D' ∷ b'_' ∷ b'A' ∷ b'P' ∷ b'I' ∷ b'_' ∷ b'U' ∷ b'S'
    ∷ b'A' ∷ b'G' ∷ b'E' ∷ []

-- The capacity of the lines.
abbrev pub line_capacity : ℕ
line_capacity = 96

-- The texts between the names and numbers.
abbrev pub health_label : List ℕ
health_label =
    b'[' ∷ b'H' ∷ b'E' ∷ b'A' ∷ b'L' ∷ b'T' ∷ b'H' ∷ b']' ∷ b' ' ∷ b'f' ∷ b'r' ∷ b'a' ∷ b'm' ∷ b'e'
    ∷ b'=' ∷ []

abbrev pub event_label : List ℕ
event_label = b' ' ∷ b' ' ∷ b'e' ∷ b'v' ∷ b'e' ∷ b'n' ∷ b't' ∷ b'=' ∷ []

abbrev pub fault_label : List ℕ
fault_label =
    b'[' ∷ b'F' ∷ b'A' ∷ b'U' ∷ b'L' ∷ b'T' ∷ b']' ∷ b' ' ∷ b' ' ∷ b'l' ∷ b'e' ∷ b'v' ∷ b'e' ∷ b'l'
    ∷ b'=' ∷ []

abbrev pub type_label : List ℕ
type_label = b' ' ∷ b' ' ∷ b't' ∷ b'y' ∷ b'p' ∷ b'e' ∷ b'=' ∷ []

-- The line of `OnHealthEvent`.
unfoldable pub health_line : HealthEvent → (frame_number : ℕ) → FixedString
health_line event frame_number =
    let s1 = append line_capacity (some health_label) (empty line_capacity) in
    let s2 = append_u64_dec line_capacity frame_number s1 in
    let s3 = append line_capacity (some event_label) s2 in
    append line_capacity (some (event_name event)) s3

-- The line of `OnFault`.
unfoldable pub fault_line : FaultLevel → FaultType → FixedString
fault_line level type =
    let s1 = append line_capacity (some fault_label) (empty line_capacity) in
    let s2 = append line_capacity (some (level_name level)) s1 in
    let s3 = append line_capacity (some type_label) s2 in
    append line_capacity (some (type_name type)) s3

-- A name that is not cut off by a NUL, and its length.
abbrev IsName : (most : ℕ) → List ℕ → Type 0
IsName most cs = (c_string cs ≡ cs) × (length cs ≤ most)

event_name-IsName : (event : HealthEvent) → IsName 17 (event_name event)
unfolding event_name
event_name-IsName gpu_hang = (refl, omega arith)
event_name-IsName device_lost = (refl, omega arith)
event_name-IsName surface_lost = (refl, omega arith)
event_name-IsName acquire_failed = (refl, omega arith)
event_name-IsName present_failed = (refl, omega arith)
event_name-IsName submit_failed = (refl, omega arith)
event_name-IsName record_failed = (refl, omega arith)
event_name-IsName input_data_invalid = (refl, omega arith)
event_name-IsName frame_deadline_miss = (refl, omega arith)
event_name-IsName driver_fault = (refl, omega arith)

level_name-IsName : (level : FaultLevel) → IsName 11 (level_name level)
unfolding level_name
level_name-IsName FaultLevel.warning = (refl, omega arith)
level_name-IsName FaultLevel.recoverable = (refl, omega arith)
level_name-IsName FaultLevel.critical = (refl, omega arith)
level_name-IsName FaultLevel.unassigned = (refl, omega arith)

type_name-IsName : (type : FaultType) → IsName 19 (type_name type)
unfolding type_name
type_name-IsName FaultType.invalid = (refl, omega arith)
type_name-IsName FaultType.unassigned = (refl, omega arith)
type_name-IsName FaultType.implementation = (refl, omega arith)
type_name-IsName FaultType.system = (refl, omega arith)
type_name-IsName FaultType.physical_device = (refl, omega arith)
type_name-IsName FaultType.command_buffer_full = (refl, omega arith)
type_name-IsName FaultType.invalid_api_usage = (refl, omega arith)

-- The lines of the log show the number and the names in full: for a 64-bit frame number the line of an
-- event, and for every level and type the line of a fault, fit the 96 characters of their buffer.
pub log_lines_lem :
    (event : HealthEvent) (frame_number : ℕ) (level : FaultLevel) (type : FaultType)
    → frame_number < 2 ^ 64
    → (text (health_line event frame_number)
        ≡ health_label ++ u64_dec_text frame_number ++ event_label ++ event_name event)
      × (text (fault_line level type)
          ≡ fault_label ++ level_name level ++ type_label ++ type_name type)
unfolding health_line fault_line empty
log_lines_lem event frame_number level type small =
    let n = u64_dec_text frame_number in
    let (event_whole, event_short) = event_name-IsName event in
    let (level_whole, level_short) = level_name-IsName level in
    let (type_whole, type_short) = type_name-IsName type in
    let a1 = append-Writes health_label (empty-IsValid line_capacity (omega arith)) in
    let a2 = Writes-trans a1 (append_u64_dec-Writes frame_number a1.valid) in
    let a3 = Writes-trans a2 (append-Writes event_label a2.valid) in
    let a4 = Writes-trans a3 (append-Writes (event_name event) a3.valid) in
    let b1 = append-Writes fault_label (empty-IsValid line_capacity (omega arith)) in
    let b2 = Writes-trans b1 (append-Writes (level_name level) b1.valid) in
    let b3 = Writes-trans b2 (append-Writes type_label b2.valid) in
    let b4 = Writes-trans b3 (append-Writes (type_name type) b3.valid) in
    (
      a4.shows
          ∙ ap (λ c. take 95 (health_label ++ n ++ event_label ++ c)) event_whole
          ∙ take-of_le 95 (health_label ++ n ++ event_label ++ event_name event) (
              omega (
                arith,
                event_short,
                (u64_dec_text-IsNumeral frame_number small).short,
                length-append health_label n,
                length-append (health_label ++ n) event_label,
                length-append (health_label ++ n ++ event_label) (event_name event),
              )),
      b4.shows
          ∙ ap (λ c. take 95 (fault_label ++ c ++ type_label ++ c_string (type_name type)))
              level_whole
          ∙ ap (λ c. take 95 (fault_label ++ level_name level ++ type_label ++ c)) type_whole
          ∙ take-of_le 95 (fault_label ++ level_name level ++ type_label ++ type_name type) (
              omega (
                arith,
                level_short,
                type_short,
                length-append fault_label (level_name level),
                length-append (fault_label ++ level_name level) type_label,
                length-append (fault_label ++ level_name level ++ type_label) (type_name type),
              )),
    )
