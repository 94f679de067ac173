-- ===== src/FrameBudget/Streak.antt =====
-- engine/core/frame_budget.hpp: the counters as functions of the whole history of frame times, which
-- stands with the latest frame first.
use mathlib.Core.Bool.{false≢true}
use soteria.Prelude.{
  ℕ, zero, suc, ◌%◌, ◌^◌, ◌≤◌, ◌<◌, ◌≡◌, refl, sym, ◌↔◌, inl, inr, true, false, List, [], ◌∷◌,
  arith, if◌then◌else◌, length, take, All, min, Bool-cases,
}
use soteria.Float.{Float, zero_f}
use soteria.FrameBudget.{
  Config, FrameBudgetMonitor, uint32_max, escalated, default_deadline_ms, init, within_budget,
  record_frame,
}

module _ {F : Type 0} ⦃fl : Float F⦄ where
  unfoldable pub record_all : List F → FrameBudgetMonitor F → FrameBudgetMonitor F
  record_all [] m = m
  record_all (t ∷ ts) m = (record_frame t (record_all ts m)).0

  -- The deadline that a configuration sets.
  abbrev pub deadline_of : Config F → F
  deadline_of cfg = if fl.lt zero_f cfg.deadline_ms then cfg.deadline_ms else default_deadline_ms

  -- How many frames missed the deadline, and how many since the last one that did not.
  abbrev pub misses : F → List F → ℕ
  misses deadline [] = 0
  misses deadline (t ∷ ts) =
      if within_budget deadline t then misses deadline ts else suc (misses deadline ts)

  abbrev pub streak : F → List F → ℕ
  streak deadline [] = 0
  streak deadline (t ∷ ts) = if within_budget deadline t then 0 else suc (streak deadline ts)

  abbrev pub IsMiss : F → F → Type 0
  IsMiss deadline t = within_budget deadline t ≡ false

  -- The monitor after a history, field by field.
  pub record Reports (cfg : Config F) (ts : List F) (m : FrameBudgetMonitor F) : Type 0 where
    pub deadline : m.deadline_ms ≡ deadline_of cfg
    pub threshold : m.max_consecutive_misses ≡ cfg.max_consecutive_misses
    pub frames : m.frame_count ≡ length ts % 2 ^ 64
    pub missed : m.total_misses ≡ misses (deadline_of cfg) ts % 2 ^ 32
    pub consecutive : m.consecutive_misses ≡ min (streak (deadline_of cfg) ts) uint32_max

  record_frame-Reports :
      (cfg : Config F) (t : F) (ts : List F) (m : FrameBudgetMonitor F)
      → Reports cfg ts m
      → Reports cfg (t ∷ ts) (record_frame t m).0
  unfolding record_frame
  record_frame-Reports cfg t ts m r = ground arith

  -- After `Init` and any history of frames the counters are the numbers of frames and of misses, modulo
  -- 2^64 and 2^32, and the length of the running streak of misses, cut off at `UINT32_MAX`.
  pub record_all-Reports :
      (cfg : Config F) (ts : List F) (m : FrameBudgetMonitor F)
      → Reports cfg ts (record_all ts (init cfg m))
  unfolding record_all init
  record_all-Reports cfg [] m = ground arith
  record_all-Reports cfg (t ∷ ts) m =
      record_frame-Reports cfg t ts (record_all ts (init cfg m)) (record_all-Reports cfg ts m)

  le-streak :
      (deadline : F) (k : ℕ) (ts : List F)
      → (k ≤ streak deadline ts) ↔ ((k ≤ length ts) × All (IsMiss deadline) (take k ts))
  le-streak deadline zero ts = (λ _. (omega arith, tt), λ _. omega arith)
  le-streak deadline (suc k) [] = (λ h. absurd (omega arith), λ h. h.0)
  le-streak deadline (suc k) (t ∷ ts) = elim (Bool-cases (within_budget deadline t)) [
    | inl hit ↦ rw hit (λ h. absurd (omega arith), λ h. absurd (false≢true (sym h.1.0)))
    | inr miss ↦ rw miss (
        let rest = le-streak deadline k ts in
        (
          λ h. let r = rest.0 (omega arith) in (omega (arith, r.0), (refl, r.1)),
          λ h. omega (arith, rest.1 (omega arith, h.1.1)),
        ))
  ]

  -- For a threshold that is a 32-bit number: after `Init` and any history of frames the monitor is
  -- escalated exactly when the threshold is not 0, as many frames as the threshold have been
  -- recorded, and the last that many all missed the deadline.
  pub escalated_iff :
      (cfg : Config F) (ts : List F) (m : FrameBudgetMonitor F)
      → cfg.max_consecutive_misses ≤ uint32_max
      → (escalated (record_all ts (init cfg m)) ≡ true) ↔ (
          (0 < cfg.max_consecutive_misses)
          × (cfg.max_consecutive_misses ≤ length ts)
          × All (IsMiss (deadline_of cfg)) (take cfg.max_consecutive_misses ts))
  unfolding escalated
  escalated_iff cfg ts m h =
      let r = record_all-Reports cfg ts m in
      let k = cfg.max_consecutive_misses in
      let recent = le-streak (deadline_of cfg) k ts in
      rw (r.threshold, r.consecutive)
        (
          λ e.
              let some_misses : (0 < k) × (k ≤ streak (deadline_of cfg) ts) = ground arith in
              let last = recent.0 some_misses.1 in (some_misses.0, last.0, last.1),
          λ (on, enough, all).
              let long : k ≤ streak (deadline_of cfg) ts = recent.1 (enough, all) in ground arith,
        )
