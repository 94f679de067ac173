-- ===== src/FrameBudget/Examples.antt =====
-- Runs of the frame budget monitor, with times in tenths of a millisecond.
use soteria.Prelude.{ℕ, ◌≤◌, ◌<◌, ◌≡◌, ◌↔◌, true, List, [], ◌∷◌, arith, All, take}
use soteria.Float.Tenths.{tenths}
use soteria.FrameBudget.{Config, FrameBudgetMonitor, init, escalated}
use soteria.FrameBudget.Streak.{
  record_all, Reports, IsMiss, deadline_of, record_all-Reports, escalated_iff,
}

abbrev config : Config ℕ
config = record { deadline_ms = 160; max_consecutive_misses = 2 }

abbrev monitor : FrameBudgetMonitor ℕ
monitor = record {
  deadline_ms = 0;
  max_consecutive_misses = 0;
  frame_count = 9;
  total_misses = 9;
  consecutive_misses = 9;
}

abbrev times : List ℕ
times = 170 ∷ 180 ∷ 150 ∷ []

record_all-Reports_example : Reports config times (record_all times (init config monitor))
record_all-Reports_example = record_all-Reports config times monitor

escalated_iff_example : (escalated (record_all times (init config monitor)) ≡ true) ↔ (
    (0 < config.max_consecutive_misses)
    × (config.max_consecutive_misses ≤ 3)
    × All (IsMiss (deadline_of config)) (take config.max_consecutive_misses times))
escalated_iff_example = escalated_iff config times monitor (omega arith)
