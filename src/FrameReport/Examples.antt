-- ===== src/FrameReport/Examples.antt =====
-- Runs of the frame report.
use soteria.Prelude.{ℕ, ◌%◌, ◌≡◌, refl, true, false, none, some, List, arith, ◌==◌, if◌then◌else◌}
use soteria.Float.Tenths.{tenths}
use soteria.FixedString.{text}
use soteria.FixedString.Float.{scale_loop, abs_val, rounded_fraction}
use soteria.Main.Loop.{FrameMetrics}
use soteria.FrameReport.{frame_line, on_frame_complete}
use soteria.FrameReport.Line.{Shows, IsShowable, line_text, frame_line_lem}

-- Frame 120, at a roll of 12.7 degrees, a pitch of 3.5 degrees, after 8.1 ms.
abbrev metrics : FrameMetrics ℕ
metrics = record {
  frame_number = 120;
  render_time_ms = 81;
  present_time_ms = 0;
  displayed_roll_deg = 127;
  displayed_pitch_deg = 35;
  frame_presented = true;
}

roll-IsShowable : IsShowable metrics.displayed_roll_deg
unfolding abs_val rounded_fraction scale_loop
roll-IsShowable = record {
  finite = refl;
  rounded = record { int_fits = omega arith; fraction_le = omega arith };
}

pitch-IsShowable : IsShowable metrics.displayed_pitch_deg
unfolding abs_val rounded_fraction scale_loop
pitch-IsShowable = record {
  finite = refl;
  rounded = record { int_fits = omega arith; fraction_le = omega arith };
}

time-IsShowable : IsShowable metrics.render_time_ms
unfolding abs_val rounded_fraction scale_loop
time-IsShowable = record {
  finite = refl;
  rounded = record { int_fits = omega arith; fraction_le = omega arith };
}

frame_line_lem_example :
    (roll : List ℕ) × (pitch : List ℕ) × (time : List ℕ) × Shows metrics.displayed_roll_deg true
      roll
    × Shows metrics.displayed_pitch_deg true pitch
    × Shows metrics.render_time_ms false time
    × (text (frame_line metrics) ≡ line_text metrics roll pitch time)
    × (on_frame_complete metrics ≡ (if 120 % 60 == 0 then some (frame_line metrics) else none))
frame_line_lem_example =
    frame_line_lem metrics (omega arith) roll-IsShowable pitch-IsShowable time-IsShowable
