-- ===== src/FrameBudget.antt =====
-- engine/core/frame_budget.hpp: `FrameBudgetMonitor`. Counters are numbers that wrap where the
-- source's do: `m_frameCount` at 2^64 and `m_totalMisses` at 2^32; `m_consecutiveMisses` stops at
-- `UINT32_MAX`. FrameBudget/Streak relates the monitor to the history of its frames.
pub mod Streak
mod Examples
use soteria.Prelude.{ℕ, ◌+◌, ◌-◌, ◌%◌, ◌^◌, Bool, ◌&&◌, ltb, leb, if◌then◌else◌}
use soteria.Float.{Float, zero_f}

-- `FrameBudgetMonitor::Config`
pub record Config (F : Type 0) : Type 0 where
  pub deadline_ms : F
  pub max_consecutive_misses : ℕ

pub record FrameBudgetMonitor (F : Type 0) : Type 0 where
  pub deadline_ms : F
  pub max_consecutive_misses : ℕ
  pub frame_count : ℕ
  pub total_misses : ℕ
  pub consecutive_misses : ℕ

abbrev pub uint32_max : ℕ
uint32_max = 2 ^ 32 - 1

module _ {F : Type 0} where
  -- `Reset`
  unfoldable pub reset : FrameBudgetMonitor F → FrameBudgetMonitor F
  reset m = record m { frame_count = 0; total_misses = 0; consecutive_misses = 0 }

  -- `Escalated`
  unfoldable pub escalated : FrameBudgetMonitor F → Bool
  escalated m = ltb 0 m.max_consecutive_misses && leb m.max_consecutive_misses m.consecutive_misses

module _ {F : Type 0} ⦃fl : Float F⦄ where
  -- `kDefaultDeadlineMs`
  abbrev pub default_deadline_ms : F
  default_deadline_ms = fl.div (fl.literal 1000 0) (fl.literal 60 0)

  -- `Init`
  unfoldable pub init : Config F → FrameBudgetMonitor F → FrameBudgetMonitor F
  unfolding reset
  init cfg m = reset (record m {
    deadline_ms = if fl.lt zero_f cfg.deadline_ms then cfg.deadline_ms else default_deadline_ms;
    max_consecutive_misses = cfg.max_consecutive_misses;
  })

  -- `std::isfinite(renderMs) && (renderMs <= m_deadlineMs)`
  abbrev pub within_budget : F → F → Bool
  within_budget deadline render_ms = fl.is_finite render_ms && fl.le render_ms deadline

  -- `RecordFrame`: the monitor afterwards, and whether the frame was within budget.
  unfoldable pub record_frame : F → FrameBudgetMonitor F → FrameBudgetMonitor F × Bool
  record_frame render_ms m =
      let counted = (m.frame_count + 1) % 2 ^ 64 in
      let within = within_budget m.deadline_ms render_ms in
      (
        if within then record m { frame_count = counted; consecutive_misses = 0 } else record m {
          frame_count = counted;
          total_misses = (m.total_misses + 1) % 2 ^ 32;
          consecutive_misses =
              if ltb m.consecutive_misses uint32_max
              then m.consecutive_misses + 1
              else m.consecutive_misses;
        },
        within,
      )
