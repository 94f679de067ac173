-- ===== src/Main/Frames.antt =====
-- app/main.cpp: the frame loop ends, and what holds at its end.
use soteria.Prelude.{
  ℕ, zero, suc, ◌+◌, ◌≤◌, ◌≡◌, ◌⊎◌, refl, sym, ◌∙◌, subst, inl, inr, true, false, not, ◌||◌, Option,
  none, some, List, length, arith, ◌==◌, if◌then◌else◌, Bool-cases, if_elim,
}
use soteria.Float.{Float}
use soteria.Result.{is_ok}
use soteria.HealthMonitor.{
  acquire_failed, submit_failed, surface_lost, record_failed, input_data_invalid,
}
use soteria.Attitude.{AttitudeData}
use soteria.FrameBudget
use soteria.FrameBudget.Streak.{record_all}
use soteria.Vulkan.Info.{queue_submit, acquire_next_image}
use soteria.FrameSync.{wait_and_reset}
use soteria.Context.{drain_faults}
use soteria.Renderer.Record.{record_frame}
use soteria.Renderer.Frame.{record_frame-some}
use soteria.Vulkan.{Driver, History, M, pure, ◌>>=◌, run, is_success}
use soteria.Main.{Objects}
use soteria.Main.Loop.{
  World, LoopState, max_frames, lost_or, wait_event, is_suboptimal, push_sinks, raise, stop, first,
  submit, record_image, acquire, frame, frames, is_out_of_date,
}
use soteria.Main.Budget.{
  is_fatal, is_miss, is_kick, count, count-push_sinks, presented, times, monitor, episodes,
}
use soteria.Main.Invariant.{
  lost_or-fatal, wait_event-fatal, IsRunning, IsConsistent, IsNext, stop-IsNext, raise-IsRunning,
  present-IsNext,
}

module _ {F : Type 0} ⦃fl : Float F⦄ (b : FrameBudget.FrameBudgetMonitor F) (size : ℕ) where
  -- The value is there, and has the property.
  abbrev pub Yields : (LoopState F → Type 0) → Option (LoopState F) → Type 0
  Yields P r = (l : LoopState F) × (r ≡ some l) × P l

  module _ (w : World F) (encode : F → List ℕ) (d : Driver) (o : Objects)
      (four : (x : F) → length (encode x) ≡ 4) (sized : size ≡ o.renderer.vertex_buffer.size_bytes)
      (slots : o.renderer.framebuffer_count ≤ length o.renderer.framebuffers) where
    submit-IsNext :
        (attitude : AttitudeData F) (image cmd_buf n : ℕ) (l : LoopState F) (h : History)
        → IsRunning b size n l
        → IsNext b size n (submit w encode d o attitude image cmd_buf l h).0
    unfolding submit
    submit-IsNext attitude image cmd_buf n l h s =
        let (vr, h1) =
          run d
            (queue_submit o.ctx.graphics_queue o.sync.image_available cmd_buf o.sync.render_complete
              o.sync.in_flight)
            h in
        if_elim (λ (m : M (LoopState F)). IsNext b size n (m h1).0) (not (is_success vr))
          (λ failed.
            stop-IsNext b size (lost_or submit_failed vr) n l (lost_or-fatal submit_failed vr refl)
              s)
          (λ done. present-IsNext b size w encode d o attitude image n l h1 s)

    record_image-IsNext :
        (attitude : AttitudeData F) (image n : ℕ) (l : LoopState F) (h : History)
        → IsRunning b size n l
        → Yields (IsNext b size n) (record_image w encode d o attitude image l h).0
    unfolding record_image
    record_image-IsNext attitude image n l h s =
        let h1 = (record_frame encode d o.renderer image attitude l.region h).1 in
        let (cmd_buf, region, recorded, same_size) =
          record_frame-some encode d o.renderer image attitude l.region h four (s.room ∙ sized)
            slots in
        let l1 = record l { region = region } in
        let s1 : IsRunning b size n l1 = record {
          current = s.current;
          in_step = record {
            budget = s.in_step.budget;
            flag = s.in_step.flag;
            missed = s.in_step.missed;
          };
          running = s.running;
          numbered = s.numbered;
          below = s.below;
          kicked = s.kicked;
          no_fatal = s.no_fatal;
          room = same_size ∙ s.room;
        } in
        let continue : Option (ℕ × List ℕ) → M (Option (LoopState F)) = λ r. elim r [
          | none ↦ pure none
          | some (c, bytes) ↦
              if c == 0 then pure (some (stop record_failed (record l { region = bytes }))) else (do
                l2 ← submit w encode d o attitude image c (record l { region = bytes })
                pure (some l2))
        ] in
        subst (λ r. Yields (IsNext b size n) (continue r h1).0) (sym recorded)
          (if_elim (λ (m : M (Option (LoopState F))). Yields (IsNext b size n) (m h1).0)
            (cmd_buf == 0)
            (λ null. (stop record_failed l1, refl, stop-IsNext b size record_failed n l1 refl s1))
            (λ given. (
              (submit w encode d o attitude image cmd_buf l1 h1).0,
              refl,
              submit-IsNext attitude image cmd_buf n l1 h1 s1,
            )))

    acquire-IsNext :
        (attitude : AttitudeData F) (n : ℕ) (l : LoopState F) (h : History)
        → IsRunning b size n l
        → Yields (IsNext b size n) (acquire w encode d o attitude l h).0
    unfolding acquire
    acquire-IsNext attitude n l h s =
        let image = d.next_image h o.swapchain.swapchain in
        let (vr, h1) =
          run d (acquire_next_image o.ctx.device o.swapchain.swapchain o.sync.image_available) h in
        let P : M (Option (LoopState F)) → Type 0 = λ m. Yields (IsNext b size n) (m h1).0 in
        if_elim P (is_out_of_date vr || is_suboptimal vr)
          (λ lost. (stop surface_lost l, refl, stop-IsNext b size surface_lost n l refl s))
          (λ kept.
            if_elim P (not (is_success vr))
              (λ failed. (
                stop (lost_or acquire_failed vr) l,
                refl,
                stop-IsNext b size (lost_or acquire_failed vr) n l
                    (lost_or-fatal acquire_failed vr refl) s,
              ))
              (λ done. record_image-IsNext attitude image n l h1 s))

    frame-IsNext :
        (l : LoopState F) (h : History)
        → l.loop_running ≡ true
        → IsConsistent b size l
        → Yields (IsNext b size l.frame_number) (frame w encode d o l h).0
    unfolding frame
    frame-IsNext l h on s =
        let (sinks, h1) = drain_faults d o.ctx h in
        let l1 = record l { calls = push_sinks sinks l.calls } in
        let (r, h2) = wait_and_reset d o.ctx.device o.sync h1 in
        let attitude = w.attitude l.frame_number in
        let n = l.frame_number in
        let s1 : IsRunning b size n l1 = record {
          current = refl;
          in_step = record {
            budget = s.in_step.budget;
            flag = s.in_step.flag;
            missed = count-push_sinks is_miss sinks l.calls (λ c. refl) ∙ s.in_step.missed;
          };
          running = on;
          numbered = s.numbered;
          below = (s.going on).0;
          kicked = count-push_sinks is_kick sinks l.calls (λ c. refl) ∙ s.kicked;
          no_fatal = count-push_sinks is_fatal sinks l.calls (λ c. refl) ∙ (s.going on).1;
          room = s.room;
        } in
        if_elim (λ (m : M (Option (LoopState F))). Yields (IsNext b size n) (m h2).0)
          (not (is_ok r))
          (λ failed. (
            stop (wait_event r) l1,
            refl,
            stop-IsNext b size (wait_event r) n l1 (wait_event-fatal r) s1,
          ))
          (λ done.
            acquire-IsNext attitude n
              (if not attitude.valid then raise input_data_invalid l1 else l1) h2
              (if_elim (IsRunning b size n) (not attitude.valid)
                (λ bad. raise-IsRunning b size input_data_invalid n l1 refl s1) (λ good. s1)))

    -- From a consistent state the loop, with fuel for the frames that are left, ends, and its end is
    -- consistent.
    pub frames-IsConsistent :
        (fuel : ℕ) (l : LoopState F) (h : History)
        → IsConsistent b size l
        → (l.loop_running ≡ true → max_frames ≤ fuel + l.frame_number)
        → Yields
            (λ l1. (l1.loop_running ≡ false) × IsConsistent b size l1)
            (frames w encode d o fuel l h).0
    unfolding frames
    frames-IsConsistent zero l h s enough = elim (Bool-cases l.loop_running) [
      | inl on ↦ absurd (omega (arith, enough on, (s.going on).0))
      | inr off ↦ (l, refl, (off, s))
    ]
    frames-IsConsistent (suc fuel) l h s enough =
        if_elim
          (λ (m : M (Option (LoopState F))).
            Yields (λ l1. (l1.loop_running ≡ false) × IsConsistent b size l1) (m h).0)
          (not l.loop_running) (λ ended. (l, refl, (ground (arith, ended), s)))
          (λ going.
            let on : l.loop_running ≡ true = ground (arith, going) in
            let (l1, stepped, next) = frame-IsNext l h on s in
            let h1 = (frame w encode d o l h).1 in
            let enough1 : (l1.loop_running ≡ true → max_frames ≤ fuel + l1.frame_number) =
              λ on1. omega (arith, enough on, next.advanced on1) in
            let continue : Option (LoopState F) → M (Option (LoopState F)) =
              λ r. elim r [ none ↦ pure none | some l2 ↦ frames w encode d o fuel l2 ] in
            subst
              (λ r.
                Yields (λ l2. (l2.loop_running ≡ false) × IsConsistent b size l2) (continue r h1).0)
              (sym stepped) (frames-IsConsistent fuel l1 h1 next.consistent enough1))

  first-IsConsistent :
      (region : List ℕ) → length region ≡ size → IsConsistent b size (first region b)
  unfolding record_all FrameBudget.escalated FrameBudget.init
  first-IsConsistent region sized = record {
    in_step = record { budget = refl; flag = refl; missed = refl };
    numbered = refl;
    at_most = omega arith;
    kicked = refl;
    going = λ on. (omega arith, refl);
    stopped = λ off. ground (arith, off);
    room = sized;
  }

module _ {F : Type 0} ⦃fl : Float F⦄ (b : FrameBudget.FrameBudgetMonitor F) where
  module _ (w : World F) (encode : F → List ℕ) (d : Driver) (o : Objects) where
    -- The end of the loop.
    abbrev looped : List ℕ → History → Option (LoopState F)
    looped region h = (frames w encode d o max_frames (first region b) h).0

    loop_end :
        (region : List ℕ) (h : History)
        → ((x : F) → length (encode x) ≡ 4)
        → length region ≡ o.renderer.vertex_buffer.size_bytes
        → o.renderer.framebuffer_count ≤ length o.renderer.framebuffers
        → Yields b o.renderer.vertex_buffer.size_bytes
            (λ l. (l.loop_running ≡ false) × IsConsistent b o.renderer.vertex_buffer.size_bytes l)
            (looped region h)
    loop_end region h four sized slots =
        frames-IsConsistent b o.renderer.vertex_buffer.size_bytes w encode d o four refl slots
          max_frames (first region b) h
          (first-IsConsistent b o.renderer.vertex_buffer.size_bytes region sized)
          (λ on. omega arith)

    -- If a float has four bytes, the mapped region is as large as the vertex buffer and the renderer has a slot
    -- for each framebuffer it counts, the frame loop ends after at most `kMaxFrames` frames, whatever the
    -- driver and the attitude source answer, and no frame accesses the vertex buffer or the renderer's
    -- framebuffers out of bounds: the fuel of `kMaxFrames` frames is enough. The frames reported are those
    -- counted. The loop ends with one fatal health event, or with none and all the frames.
    pub loop-ends :
        (region : List ℕ) (h : History)
        → ((x : F) → length (encode x) ≡ 4)
        → length region ≡ o.renderer.vertex_buffer.size_bytes
        → o.renderer.framebuffer_count ≤ length o.renderer.framebuffers
        → (l : LoopState F) × (looped region h ≡ some l)
          × (l.loop_running ≡ false)
          × (l.frame_number ≡ length l.reports)
          × (l.frame_number ≤ max_frames)
          × ((count is_fatal l.calls ≡ 1)
              ⊎ ((count is_fatal l.calls ≡ 0) × (l.frame_number ≡ max_frames)))
    loop-ends region h four sized slots =
        let (l, ends, (off, s)) = loop_end region h four sized slots in
        (l, ends, off, s.numbered, s.at_most, s.stopped off)

    -- Under the same conditions, by the end of the loop the health monitor was kicked just once for each frame
    -- that was presented.
    pub loop-kicks :
        (region : List ℕ) (h : History)
        → ((x : F) → length (encode x) ≡ 4)
        → length region ≡ o.renderer.vertex_buffer.size_bytes
        → o.renderer.framebuffer_count ≤ length o.renderer.framebuffers
        → (l : LoopState F) × (looped region h ≡ some l)
          × (count is_kick l.calls ≡ presented l.reports)
    loop-kicks region h four sized slots =
        let (l, ends, (off, s)) = loop_end region h four sized slots in (l, ends, s.kicked)

    -- Under the same conditions, the budget at the end of the loop is that of a new monitor that was told the
    -- times of the frames, and there was one event of a missed deadline for each time that the monitor
    -- became escalated.
    pub loop-episodes :
        (region : List ℕ) (h : History)
        → ((x : F) → length (encode x) ≡ 4)
        → length region ≡ o.renderer.vertex_buffer.size_bytes
        → o.renderer.framebuffer_count ≤ length o.renderer.framebuffers
        → (l : LoopState F) × (looped region h ≡ some l)
          × (l.frame_budget ≡ monitor b (times l.reports))
          × (count is_miss l.calls ≡ episodes b (times l.reports))
    loop-episodes region h four sized slots =
        let (l, ends, (off, s)) = loop_end region h four sized slots in
        (l, ends, s.in_step.budget, s.in_step.missed)
