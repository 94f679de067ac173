-- ===== src/Main/Budget.antt =====
-- app/main.cpp: what the calls of the health monitor and the frame reports say of the loop, and the events of
-- the frame budget.
use soteria.Prelude.{
  ℕ, suc, ◌≡◌, refl, ap, ◌∙◌, Bool, true, false, not, ◌&&◌, List, [], ◌∷◌, arith, ltb, ◌==◌,
  if◌then◌else◌, Bool-cases, inl, inr,
}
use soteria.Float.{Float}
use soteria.FaultSink.{SinkCall}
use soteria.HealthMonitor.{index}
use soteria.FrameBudget
use soteria.FrameBudget.Streak.{record_all}
use soteria.Main.Loop.{
  MonitorCall, sink_call, health_event, kick, FrameMetrics, World, LoopState, budget_config,
  push_sinks, check_budget,
}

-- The events that end the loop, up to `eRecordFailed`, and the event of a sustained miss.
abbrev pub is_fatal : MonitorCall → Bool
is_fatal (sink_call c) = false
is_fatal (health_event e n) = ltb (index e) 7
is_fatal (kick n) = false

abbrev pub is_miss : MonitorCall → Bool
is_miss (sink_call c) = false
is_miss (health_event e n) = index e == 8
is_miss (kick n) = false

abbrev pub is_kick : MonitorCall → Bool
is_kick (sink_call c) = false
is_kick (health_event e n) = false
is_kick (kick n) = true

-- How many calls pass the test.
abbrev pub count : (MonitorCall → Bool) → List MonitorCall → ℕ
count p [] = 0
count p (c ∷ cs) = if p c then suc (count p cs) else count p cs

pub count-push_sinks :
    (p : MonitorCall → Bool) (sinks : List SinkCall) (calls : List MonitorCall)
    → ((c : SinkCall) → p (sink_call c) ≡ false)
    → count p (push_sinks sinks calls) ≡ count p calls
unfolding push_sinks
count-push_sinks p [] calls none_passes = refl
count-push_sinks p (c ∷ cs) calls none_passes =
    count-push_sinks p cs (sink_call c ∷ calls) none_passes
    ∙ ap (λ b. if b then suc (count p calls) else count p calls) (none_passes c)

module _ {F : Type 0} where
  -- How many frames were presented, and the times of the frames.
  abbrev pub presented : List (FrameMetrics F) → ℕ
  presented [] = 0
  presented (m ∷ ms) = if m.frame_presented then suc (presented ms) else presented ms

  abbrev pub times : List (FrameMetrics F) → List F
  times [] = []
  times (m ∷ ms) = m.render_time_ms ∷ times ms

module _ {F : Type 0} ⦃fl : Float F⦄ where
  -- The monitor after frames of these times, the latest first.
  abbrev pub monitor : FrameBudget.FrameBudgetMonitor F → List F → FrameBudget.FrameBudgetMonitor F
  monitor b ts = record_all ts (FrameBudget.init budget_config b)

  -- How often the monitor becomes escalated.
  abbrev pub episodes : FrameBudget.FrameBudgetMonitor F → List F → ℕ
  episodes b [] = 0
  episodes b (t ∷ ts) =
      if FrameBudget.escalated (monitor b (t ∷ ts)) && not (FrameBudget.escalated (monitor b ts))
      then suc (episodes b ts)
      else episodes b ts

  -- The loop agrees with the times of its frames.
  pub record IsInStep (b : FrameBudget.FrameBudgetMonitor F) (ts : List F) (l : LoopState F)
      : Type 0 where
    pub budget : l.frame_budget ≡ monitor b ts
    pub flag : l.budget_escalated ≡ FrameBudget.escalated (monitor b ts)
    pub missed : count is_miss l.calls ≡ episodes b ts

  pub check_budget-IsInStep :
      (w : World F) (b : FrameBudget.FrameBudgetMonitor F) (ts : List F) (t : F) (l : LoopState F)
      → IsInStep b ts l
      → IsInStep b (t ∷ ts) (check_budget w t l)
  unfolding check_budget record_all
  check_budget-IsInStep w b ts t l s =
      let m = (FrameBudget.record_frame t (monitor b ts)).0 in
      let same : (FrameBudget.record_frame t l.frame_budget).0 ≡ m =
        ap (λ x. (FrameBudget.record_frame t x).0) s.budget in
      elim (Bool-cases (FrameBudget.escalated m)) [
        | inl up ↦ elim (Bool-cases (FrameBudget.escalated (monitor b ts))) [
          | inl was ↦ ground (arith, s.budget, s.flag, s.missed, same, up, was)
          | inr was ↦ ground (arith, s.budget, s.flag, s.missed, same, up, was)
        ]
        | inr down ↦ ground (arith, s.budget, s.flag, s.missed, same, down)
      ]
