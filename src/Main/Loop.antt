-- ===== src/Main/Loop.antt =====
-- app/main.cpp: the frame loop, the frame in its order, and `main`. engine/data/i_frame_report.hpp: the metrics
-- of a frame. The calls of the health monitor are recorded as data, the latest first. What Windows
-- gives is a parameter: the attitude source's answer and the performance counters, for each frame.
use soteria.Prelude.{
  ℕ, zero, suc, ◌+◌, ◌-◌, ◌%◌, ◌^◌, Bool, true, false, not, ◌&&◌, ◌||◌, Option, none, some, List,
  [], ◌∷◌, leb, ◌==◌, if◌then◌else◌,
}
use soteria.Float.{Float, zero_f}
use soteria.Result.{Result, k_vksc_timeout_failed, is_ok}
use soteria.FaultSink.{SinkCall}
use soteria.Vulkan.Info.{acquire_next_image, queue_submit, queue_present}
use soteria.Vulkan.{
  Driver, VkResult, suboptimal_khr, error_device_lost, error_out_of_date_khr,
  error_surface_lost_khr, is_success, M, pure, ◌>>=◌, run,
}
use soteria.HealthMonitor.{
  HealthEvent, gpu_hang, device_lost, surface_lost, acquire_failed, present_failed, submit_failed,
  record_failed, input_data_invalid, frame_deadline_miss,
}
use soteria.Attitude.{AttitudeData}
use soteria.PipelineCache
use soteria.Context
use soteria.FrameSync
use soteria.FrameBudget
use soteria.Renderer
use soteria.Main.{Objects, fresh, shutdown_all, start}

-- A call of the health monitor.
pub data MonitorCall : Type 0 where
  sink_call : SinkCall → MonitorCall
  health_event : HealthEvent → (frame_number : ℕ) → MonitorCall
  kick : (frame_number : ℕ) → MonitorCall

-- `FrameMetrics`
pub record FrameMetrics (F : Type 0) : Type 0 where
  pub frame_number : ℕ
  pub render_time_ms : F
  pub present_time_ms : F
  pub displayed_roll_deg : F
  pub displayed_pitch_deg : F
  pub frame_presented : Bool

-- What the loop is given from outside for the frame of a number: the attitude, and the performance
-- counter before and after the recording, which does not run backwards.
pub record World (F : Type 0) : Type 0 where
  pub attitude : ℕ → AttitudeData F
  pub record_start : ℕ → ℕ
  pub record_end : ℕ → ℕ
  pub perf_freq : ℕ
  -- The conversion of a 64-bit integer.
  pub of_i64 : ℕ → F

-- The variables of the loop, with the contents of the vertex buffer, the calls of the monitor and the
-- frame reports.
pub record LoopState (F : Type 0) : Type 0 where
  pub loop_running : Bool
  pub budget_escalated : Bool
  pub frame_number : ℕ
  pub frame_budget : FrameBudget.FrameBudgetMonitor F
  pub region : List ℕ
  pub calls : List MonitorCall
  pub reports : List (FrameMetrics F)

-- `kMaxFrames`
abbrev pub max_frames : ℕ
max_frames = 600

unfoldable pub is_suboptimal : VkResult → Bool
is_suboptimal suboptimal_khr = true
is_suboptimal _ = false

unfoldable pub is_out_of_date : VkResult → Bool
is_out_of_date error_out_of_date_khr = true
is_out_of_date _ = false

-- `(vr == VK_ERROR_DEVICE_LOST) ? eDeviceLost : event`
unfoldable pub lost_or : HealthEvent → VkResult → HealthEvent
lost_or event error_device_lost = device_lost
lost_or event _ = event

-- The event of a present that failed.
unfoldable pub present_event : VkResult → HealthEvent
present_event error_device_lost = device_lost
present_event error_surface_lost_khr = surface_lost
present_event _ = present_failed

-- The event of a wait that failed.
unfoldable pub wait_event : Result → HealthEvent
wait_event k_vksc_timeout_failed = gpu_hang
wait_event _ = device_lost

-- The calls of the sink, put before the calls so far.
unfoldable pub push_sinks : List SinkCall → List MonitorCall → List MonitorCall
push_sinks [] calls = calls
push_sinks (c ∷ cs) calls = push_sinks cs (sink_call c ∷ calls)

-- The configuration of the frame budget.
abbrev pub budget_config : {F : Type 0} ⦃fl : Float F⦄ → FrameBudget.Config F
budget_config ⦃fl⦄ = record {
  deadline_ms = fl.div (fl.literal 10000 1) (fl.literal 600 1);
  max_consecutive_misses = 3;
}

module _ {F : Type 0} where
  -- `OnHealthEvent` for the frame.
  unfoldable pub raise : HealthEvent → LoopState F → LoopState F
  raise event l = record l { calls = health_event event l.frame_number ∷ l.calls }

  -- An event, and the end of the loop.
  unfoldable pub stop : HealthEvent → LoopState F → LoopState F
  stop event l = record l {
    calls = health_event event l.frame_number ∷ l.calls;
    loop_running = false;
  }

module _ {F : Type 0} ⦃fl : Float F⦄ (w : World F) where
  -- `renderMs`; a frequency of 0 is replaced by 1.
  unfoldable pub render_ms : ℕ → F
  render_ms n =
      let freq = if w.perf_freq == 0 then 1 else w.perf_freq in
      fl.div (fl.mul (w.of_i64 (w.record_end n - w.record_start n)) (fl.literal 10000 1))
        (w.of_i64 freq)

  -- The frame budget: one event when the monitor becomes escalated.
  unfoldable pub check_budget : F → LoopState F → LoopState F
  check_budget time l =
      let budget = (FrameBudget.record_frame time l.frame_budget).0 in
      let l1 = record l { frame_budget = budget } in
      if FrameBudget.escalated budget && not l.budget_escalated
      then record l1 {
        calls = health_event frame_deadline_miss l.frame_number ∷ l.calls;
        budget_escalated = true;
      }
      else if not (FrameBudget.escalated budget)
      then record l1 { budget_escalated = false }
      else l1

  -- The frame from the telemetry on.
  unfoldable pub finish : AttitudeData F → (frame_presented : Bool) → LoopState F → LoopState F
  finish attitude frame_presented l =
      let time = render_ms l.frame_number in
      let l1 = check_budget time l in
      let metrics : FrameMetrics F = record {
        frame_number = l.frame_number;
        render_time_ms = time;
        present_time_ms = zero_f;
        displayed_roll_deg = if attitude.valid then attitude.roll_deg else zero_f;
        displayed_pitch_deg = if attitude.valid then attitude.pitch_deg else zero_f;
        frame_presented = frame_presented;
      } in
      let number = (l.frame_number + 1) % 2 ^ 64 in
      record l1 {
        reports = metrics ∷ l.reports;
        frame_number = number;
        loop_running = if leb max_frames number then false else l1.loop_running;
      }

  module _ (encode : F → List ℕ) (d : Driver) (o : Objects) where
    -- The frame from the present on.
    unfoldable pub present : AttitudeData F → (image : ℕ) → LoopState F → M (LoopState F)
    present attitude image l = do
      vr ←
          run d
            (queue_present o.ctx.graphics_queue o.sync.render_complete o.swapchain.swapchain image)
      if not (is_success vr) && not (is_suboptimal vr)
          then pure (finish attitude false (stop (present_event vr) l))
          else pure (finish attitude true (record l { calls = kick l.frame_number ∷ l.calls }))

    -- The frame from the submission on.
    unfoldable pub submit : AttitudeData F → (image cmd_buf : ℕ) → LoopState F → M (LoopState F)
    submit attitude image cmd_buf l = do
      vr ← run d (
          queue_submit o.ctx.graphics_queue o.sync.image_available cmd_buf o.sync.render_complete
            o.sync.in_flight)
      if not (is_success vr)
          then pure (stop (lost_or submit_failed vr) l)
          else present attitude image l

    -- The frame from the recording on; `none` is an access that `RecordFrame` makes out of bounds.
    unfoldable pub record_image :
        AttitudeData F → (image : ℕ) → LoopState F → M (Option (LoopState F))
    record_image attitude image l = do
      recorded ← Renderer.Record.record_frame encode d o.renderer image attitude l.region
      elim recorded [
        | none ↦ pure none
        | some (cmd_buf, region) ↦
            if cmd_buf == 0
            then pure (some (stop record_failed (record l { region = region })))
            else (do
              l1 ← submit attitude image cmd_buf (record l { region = region })
              pure (some l1))
      ]

    -- The frame from the acquisition of the image on.
    unfoldable pub acquire : AttitudeData F → LoopState F → M (Option (LoopState F))
    acquire attitude l h =
        let image = d.next_image h o.swapchain.swapchain in
        (do
          vr ← run d (acquire_next_image o.ctx.device o.swapchain.swapchain o.sync.image_available)
          if is_out_of_date vr || is_suboptimal vr
              then pure (some (stop surface_lost l))
              else if not (is_success vr)
              then pure (some (stop (lost_or acquire_failed vr) l))
              else record_image attitude image l)
          h

    -- The body of the loop.
    unfoldable pub frame : LoopState F → M (Option (LoopState F))
    frame l = do
      sinks ← Context.drain_faults d o.ctx
      let l1 = record l { calls = push_sinks sinks l.calls }
      let attitude = w.attitude l.frame_number
      r ← FrameSync.wait_and_reset d o.ctx.device o.sync
      if not (is_ok r)
          then pure (some (stop (wait_event r) l1))
          else acquire attitude (if not attitude.valid then raise input_data_invalid l1 else l1)

    -- The loop, for at most `fuel` frames.
    unfoldable pub frames : (fuel : ℕ) → LoopState F → M (Option (LoopState F))
    frames zero l = pure (some l)
    frames (suc fuel) l =
        if not l.loop_running
        then pure (some l)
        else do next ← frame l; elim next [ none ↦ pure none | some l1 ↦ frames fuel l1 ]

-- The loop's variables before the first frame, where the vertex buffer holds `region`.
abbrev pub first :
    {F : Type 0} ⦃fl : Float F⦄ → (region : List ℕ) → FrameBudget.FrameBudgetMonitor F → LoopState F
first region budget = record {
  loop_running = true;
  budget_escalated = false;
  frame_number = 0;
  frame_budget = FrameBudget.init budget_config budget;
  region = region;
  calls = [];
  reports = [];
}

-- `EXIT_SUCCESS` and `EXIT_FAILURE`.
pub data ExitCode : Type 0 where
  exit_success : ExitCode
  exit_failure : ExitCode

module _ {F : Type 0} ⦃fl : Float F⦄ (w : World F) (encode : F → List ℕ) (d : Driver) where
  -- `main`, where the vertex buffer holds `region` at first, and `budget` is the new monitor: the exit
  -- code, the objects at the end, and the loop's variables if it was entered. `none` is an access that
  -- `RecordFrame` makes out of bounds.
  unfoldable pub main :
      Context.VkscContextConfig
      → PipelineCache.Versions
      → Renderer.Create.Embedded
      → (region : List ℕ) → FrameBudget.FrameBudgetMonitor F
      → M (Option (ExitCode × Objects × Option (LoopState F)))
  main cfg v embedded region budget = do
    started ← start d cfg v embedded fresh
    if not started.0 then pure (some (exit_failure, started.1, none)) else (do
      looped ← frames w encode d started.1 max_frames (first region budget)
      elim looped [
        | none ↦ pure none
        | some l ↦ (do ended ← shutdown_all d started.1; pure (some (exit_success, ended, some l)))
      ])
