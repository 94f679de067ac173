-- ===== src/Main/Invariant.antt =====
-- app/main.cpp: an invariant of the frame loop, and the steps of a frame that do not call the renderer.
use soteria.Prelude.{
  ℕ, suc, ◌≤◌, ◌<◌, ◌≡◌, ◌⊎◌, ap, ◌∙◌, inl, inr, Bool, true, false, not, ◌&&◌, List, ◌∷◌, length,
  arith, ltb, if◌then◌else◌, Bool-cases, if_elim,
}
use soteria.Float.{Float}
use soteria.Result.{Result}
use soteria.HealthMonitor.{HealthEvent, index}
use soteria.Attitude.{AttitudeData}
use soteria.FrameBudget
use soteria.Vulkan.Info.{queue_present}
use soteria.Vulkan.{Driver, History, VkResult, M, run, is_success}
use soteria.Main.{Objects}
use soteria.Main.Loop.{
  kick, World, LoopState, max_frames, lost_or, present_event, wait_event, is_suboptimal, raise,
  stop, render_ms, check_budget, finish, present,
}
use soteria.Main.Budget.{
  is_fatal, is_kick, count, presented, times, IsInStep, check_budget-IsInStep,
}

pub lost_or-fatal :
    (event : HealthEvent) (vr : VkResult)
    → ltb (index event) 7 ≡ true
    → ltb (index (lost_or event vr)) 7 ≡ true
unfolding lost_or
lost_or-fatal event vr fatal = ground (arith, fatal)

present_event-fatal : (vr : VkResult) → ltb (index (present_event vr)) 7 ≡ true
unfolding present_event
present_event-fatal vr = ground arith

pub wait_event-fatal : (r : Result) → ltb (index (wait_event r)) 7 ≡ true
unfolding wait_event
wait_event-fatal r = ground arith

module _ {F : Type 0} ⦃fl : Float F⦄ (b : FrameBudget.FrameBudgetMonitor F) (size : ℕ) where
  -- In the middle of frame `n`.
  pub record IsRunning (n : ℕ) (l : LoopState F) : Type 0 where
    pub current : l.frame_number ≡ n
    pub in_step : IsInStep b (times l.reports) l
    pub running : l.loop_running ≡ true
    pub numbered : l.frame_number ≡ length l.reports
    pub below : l.frame_number < max_frames
    pub kicked : count is_kick l.calls ≡ presented l.reports
    pub no_fatal : count is_fatal l.calls ≡ 0
    pub room : length l.region ≡ size

  -- Between two frames, and after the last one: the frames are numbered from 0 on, and there are at most
  -- `kMaxFrames`; the monitor was told of each frame that was presented; as long as the loop runs
  -- there was no fatal event; it stops with one fatal event, or else at the limit.
  pub record IsConsistent (l : LoopState F) : Type 0 where
    pub in_step : IsInStep b (times l.reports) l
    pub numbered : l.frame_number ≡ length l.reports
    pub at_most : l.frame_number ≤ max_frames
    pub kicked : count is_kick l.calls ≡ presented l.reports
    pub going : l.loop_running ≡ true → (l.frame_number < max_frames) × (count is_fatal l.calls ≡ 0)
    pub stopped :
        l.loop_running ≡ false
        → (count is_fatal l.calls ≡ 1)
          ⊎ ((count is_fatal l.calls ≡ 0) × (l.frame_number ≡ max_frames))
    pub room : length l.region ≡ size

  -- After frame `n`: if the loop goes on, it does so with the next frame.
  pub record IsNext (n : ℕ) (l : LoopState F) : Type 0 where
    pub consistent : IsConsistent l
    pub advanced : l.loop_running ≡ true → l.frame_number ≡ suc n

  -- What `finish` starts from.
  pub record IsPresented (n : ℕ) (fp : Bool) (l : LoopState F) : Type 0 where
    pub current : l.frame_number ≡ n
    pub in_step : IsInStep b (times l.reports) l
    pub numbered : l.frame_number ≡ length l.reports
    pub below : l.frame_number < max_frames
    pub kicked :
        count is_kick l.calls ≡ (if fp then suc (presented l.reports) else presented l.reports)
    pub fatal : count is_fatal l.calls ≡ (if l.loop_running then 0 else 1)
    pub room : length l.region ≡ size

  pub stop-IsNext :
      (event : HealthEvent) (n : ℕ) (l : LoopState F)
      → ltb (index event) 7 ≡ true
      → IsRunning n l
      → IsNext n (stop event l)
  unfolding stop
  stop-IsNext event n l fatal s = record {
    consistent = record {
      in_step = record {
        budget = s.in_step.budget;
        flag = s.in_step.flag;
        missed = ground (arith, s.in_step.missed, fatal);
      };
      numbered = s.numbered;
      at_most = omega (arith, s.below);
      kicked = s.kicked;
      going = λ on. ground (arith, on);
      stopped = λ off. inl (ground (arith, fatal, s.no_fatal));
      room = s.room;
    };
    advanced = λ on. ground (arith, on);
  }

  pub raise-IsRunning :
      (event : HealthEvent) (n : ℕ) (l : LoopState F)
      → index event ≡ 7
      → IsRunning n l
      → IsRunning n (raise event l)
  unfolding raise
  raise-IsRunning event n l other s = record {
    current = s.current;
    in_step = record {
      budget = s.in_step.budget;
      flag = s.in_step.flag;
      missed = ground (arith, s.in_step.missed, other);
    };
    running = s.running;
    numbered = s.numbered;
    below = s.below;
    kicked = s.kicked;
    no_fatal = ground (arith, other, s.no_fatal);
    room = s.room;
  }

  check_budget-rest :
      (w : World F) (t : F) (l : LoopState F)
      → let l1 = check_budget w t l in
        (l1.loop_running ≡ l.loop_running)
        × (l1.region ≡ l.region)
        × (count is_kick l1.calls ≡ count is_kick l.calls)
        × (count is_fatal l1.calls ≡ count is_fatal l.calls)
  unfolding check_budget
  check_budget-rest w t l = ground arith

  finish-IsNext :
      (w : World F) (attitude : AttitudeData F) (fp : Bool) (n : ℕ) (l : LoopState F)
      → IsPresented n fp l
      → IsNext n (finish w attitude fp l)
  unfolding finish
  finish-IsNext w attitude fp n l s =
      let t = render_ms w l.frame_number in
      let (same_running, same_region, same_kicks, same_fatal) = check_budget-rest w t l in
      let step = check_budget-IsInStep w b (times l.reports) t l s.in_step in
      record {
        consistent = record {
          in_step = record { budget = step.budget; flag = step.flag; missed = step.missed };
          numbered = omega (arith, s.numbered, s.below);
          at_most = omega (arith, s.below);
          kicked = ground (arith, same_kicks, s.kicked);
          going = λ on. ground (arith, on, s.fatal, same_running, same_fatal, s.below);
          stopped = λ off. elim (Bool-cases l.loop_running) [
            | inl on ↦ inr (
              ground (arith, on, s.fatal, same_fatal),
              ground (arith, off, on, same_running, s.below),
            )
            | inr already ↦ inl (ground (arith, already, s.fatal, same_fatal))
          ];
          room = ap length same_region ∙ s.room;
        };
        advanced = λ on. omega (arith, s.current, s.below);
      }

  pub present-IsNext :
      (w : World F) (encode : F → List ℕ) (d : Driver) (o : Objects) (attitude : AttitudeData F)
      (image n : ℕ) (l : LoopState F) (h : History)
      → IsRunning n l
      → IsNext n (present w encode d o attitude image l h).0
  unfolding present stop
  present-IsNext w encode d o attitude image n l h s =
      let (vr, h1) =
        run d
          (queue_present o.ctx.graphics_queue o.sync.render_complete o.swapchain.swapchain image)
          h in
      let fatal = present_event-fatal vr in
      if_elim (λ (m : M (LoopState F)). IsNext n (m h1).0)
        (not (is_success vr) && not (is_suboptimal vr))
        (λ failed. finish-IsNext w attitude false n (stop (present_event vr) l) (record {
          current = s.current;
          in_step = record {
            budget = s.in_step.budget;
            flag = s.in_step.flag;
            missed = ground (arith, s.in_step.missed, fatal);
          };
          numbered = s.numbered;
          below = s.below;
          kicked = s.kicked;
          fatal = ground (arith, fatal, s.no_fatal);
          room = s.room;
        }))
        (λ done.
          finish-IsNext w attitude true n (record l { calls = kick l.frame_number ∷ l.calls })
            (record {
              current = s.current;
              in_step = record {
                budget = s.in_step.budget;
                flag = s.in_step.flag;
                missed = s.in_step.missed;
              };
              numbered = s.numbered;
              below = s.below;
              kicked = ap suc s.kicked;
              fatal = ground (arith, s.running, s.no_fatal);
              room = s.room;
            }))
