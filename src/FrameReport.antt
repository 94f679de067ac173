-- ===== src/FrameReport.antt =====
-- app/demo/console_frame_report.hpp: `ConsoleFrameReport`, the line that it logs for every 60th frame.
-- FrameReport/Line shows that the line fits its buffer.
pub mod Line
mod Examples
use soteria.Prelude.{
  ℕ, ◌%◌, Bool, true, false, not, Option, none, some, List, [], ◌∷◌, ◌==◌, if◌then◌else◌,
}
use soteria.Float.{Float}
use soteria.FixedString.{FixedString, empty, append, append_u64_dec}
use soteria.FixedString.Float.{append_float}
use soteria.Main.Loop.{FrameMetrics}

-- `kLogIntervalFrames`
abbrev pub log_interval_frames : ℕ
log_interval_frames = 60

-- The capacity of the line.
abbrev pub line_capacity : ℕ
line_capacity = 128

-- The texts between the numbers.
abbrev pub frame_label : List ℕ
frame_label = b'[' ∷ b'F' ∷ b'R' ∷ b'A' ∷ b'M' ∷ b'E' ∷ b']' ∷ b' ' ∷ b'#' ∷ []

abbrev pub roll_label : List ℕ
roll_label = b' ' ∷ b' ' ∷ b'r' ∷ b'o' ∷ b'l' ∷ b'l' ∷ b'=' ∷ []

abbrev pub pitch_label : List ℕ
pitch_label = b' ' ∷ b'd' ∷ b'e' ∷ b'g' ∷ b' ' ∷ b' ' ∷ b'p' ∷ b'i' ∷ b't' ∷ b'c' ∷ b'h' ∷ b'=' ∷ []

abbrev pub render_label : List ℕ
render_label =
    b' ' ∷ b'd' ∷ b'e' ∷ b'g' ∷ b' ' ∷ b' ' ∷ b'r' ∷ b'e' ∷ b'n' ∷ b'd' ∷ b'e' ∷ b'r' ∷ b'=' ∷ []

abbrev pub present_label : List ℕ
present_label =
    b' ' ∷ b'm' ∷ b's' ∷ b' ' ∷ b' ' ∷ b'p' ∷ b'r' ∷ b'e' ∷ b's' ∷ b'e' ∷ b'n' ∷ b't' ∷ b'=' ∷ []

abbrev pub outcome_label : Bool → List ℕ
outcome_label true = b'O' ∷ b'K' ∷ []
outcome_label false = b'S' ∷ b'K' ∷ b'I' ∷ b'P' ∷ []

module _ {F : Type 0} ⦃fl : Float F⦄ where
  -- The line.
  unfoldable pub frame_line : FrameMetrics F → FixedString
  frame_line m =
      let s1 = append line_capacity (some frame_label) (empty line_capacity) in
      let s2 = append_u64_dec line_capacity m.frame_number s1 in
      let s3 = append line_capacity (some roll_label) s2 in
      let s4 = append_float line_capacity m.displayed_roll_deg 2 true s3 in
      let s5 = append line_capacity (some pitch_label) s4 in
      let s6 = append_float line_capacity m.displayed_pitch_deg 2 true s5 in
      let s7 = append line_capacity (some render_label) s6 in
      let s8 = append_float line_capacity m.render_time_ms 2 false s7 in
      let s9 = append line_capacity (some present_label) s8 in
      append line_capacity (some (outcome_label m.frame_presented)) s9

  -- `OnFrameComplete`: what is logged, where logging is enabled.
  unfoldable pub on_frame_complete : FrameMetrics F → Option FixedString
  on_frame_complete m =
      if not (m.frame_number % log_interval_frames == 0) then none else some (frame_line m)
