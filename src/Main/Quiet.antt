-- ===== src/Main/Quiet.antt =====
-- app/main.cpp: the frame loop only gives commands to the driver, so that what no command changes stays.
use soteria.Prelude.{
  ℕ, zero, suc, ◌≡◌, refl, ◌∙◌, not, Option, none, some, List, arith, ◌==◌, if◌then◌else◌, if_elim,
  option_elim,
}
use soteria.Float.{Float}
use soteria.Vulkan.Info.{
  acquire_next_image, queue_submit, queue_present, wait_for_fences, reset_fences, get_fault_data,
}
use soteria.Vulkan.{Driver, History, M, pure, ◌>>=◌, run}
use soteria.Vulkan.Made.{IsQuiet}
use soteria.Context.{VkscContext, drain_faults, fault_room}
use soteria.FrameSync.{FrameSync, fence_timeout_ns, wait_and_reset}
use soteria.Attitude.{AttitudeData}
use soteria.HealthMonitor.{input_data_invalid, record_failed}
use soteria.Renderer.Record.{record_frame}
use soteria.Renderer.Quiet.{record_frame-quiet}
use soteria.Main.{Objects}
use soteria.Main.Loop.{
  World, LoopState, stop, raise, push_sinks, present, submit, record_image, acquire, frame, frames,
}

drain_faults-quiet :
    (d : Driver) (f : History → ℕ) (quiet : IsQuiet d f) (c : VkscContext) (h : History)
    → f (drain_faults d c h).1 ≡ f h
unfolding drain_faults
drain_faults-quiet d f quiet c h = ground (arith, quiet (get_fault_data c.device (fault_room c)) h)

wait_and_reset-quiet :
    (d : Driver) (f : History → ℕ) (quiet : IsQuiet d f) (device : ℕ) (s : FrameSync) (h : History)
    → f (wait_and_reset d device s h).1 ≡ f h
unfolding wait_and_reset
wait_and_reset-quiet d f quiet device s h =
    let wait = wait_for_fences device s.in_flight fence_timeout_ns in
    let h1 = (run d wait h).1 in
    ground (arith, quiet wait h, quiet (reset_fences device s.in_flight) h1)

module _ {F : Type 0} ⦃fl : Float F⦄ (w : World F) (encode : F → List ℕ) (d : Driver)
    (f : History → ℕ) (quiet : IsQuiet d f) (x : Objects) where
  submit-quiet :
      (attitude : AttitudeData F) (image cmd_buf : ℕ) (l : LoopState F) (h : History)
      → f (submit w encode d x attitude image cmd_buf l h).1 ≡ f h
  unfolding submit present
  submit-quiet attitude image cmd_buf l h =
      let sent =
        queue_submit x.ctx.graphics_queue x.sync.image_available cmd_buf x.sync.render_complete
          x.sync.in_flight in
      let shown =
        queue_present x.ctx.graphics_queue x.sync.render_complete x.swapchain.swapchain image in
      let h1 = (run d sent h).1 in ground (arith, quiet sent h, quiet shown h1)

  record_image-quiet :
      (attitude : AttitudeData F) (image : ℕ) (l : LoopState F) (h : History)
      → f (record_image w encode d x attitude image l h).1 ≡ f h
  unfolding record_image
  record_image-quiet attitude image l h =
      let (recorded, h1) = record_frame encode d x.renderer image attitude l.region h in
      let continue : Option (ℕ × List ℕ) → M (Option (LoopState F)) = λ r. elim r [
        | none ↦ pure none
        | some (c, bytes) ↦
            if c == 0 then pure (some (stop record_failed (record l { region = bytes }))) else (do
              l2 ← submit w encode d x attitude image c (record l { region = bytes })
              pure (some l2))
      ] in
      let rest : f (continue recorded h1).1 ≡ f h1 =
        option_elim (λ (m : M (Option (LoopState F))). f (m h1).1 ≡ f h1) recorded (λ missing. refl)
          (λ (c, bytes) found.
            if_elim (λ (m : M (Option (LoopState F))). f (m h1).1 ≡ f h1) (c == 0) (λ null. refl)
              (λ given. submit-quiet attitude image c (record l { region = bytes }) h1)) in
      rest ∙ record_frame-quiet encode d f quiet x.renderer image attitude l.region h

  acquire-quiet :
      (attitude : AttitudeData F) (l : LoopState F) (h : History)
      → f (acquire w encode d x attitude l h).1 ≡ f h
  unfolding acquire
  acquire-quiet attitude l h =
      let call = acquire_next_image x.ctx.device x.swapchain.swapchain x.sync.image_available in
      let image = d.next_image h x.swapchain.swapchain in
      let h1 = (run d call h).1 in
      ground (arith, quiet call h, record_image-quiet attitude image l h1)

  frame-quiet : (l : LoopState F) (h : History) → f (frame w encode d x l h).1 ≡ f h
  unfolding frame
  frame-quiet l h =
      let (sinks, h1) = drain_faults d x.ctx h in
      let l1 = record l { calls = push_sinks sinks l.calls } in
      let (r, h2) = wait_and_reset d x.ctx.device x.sync h1 in
      let attitude = w.attitude l.frame_number in
      let l2 = if not attitude.valid then raise input_data_invalid l1 else l1 in
      ground (
        arith,
        drain_faults-quiet d f quiet x.ctx h,
        wait_and_reset-quiet d f quiet x.ctx.device x.sync h1,
        acquire-quiet attitude l2 h2,
      )

  -- The loop only gives commands to the driver.
  pub frames-quiet :
      (fuel : ℕ) (l : LoopState F) (h : History) → f (frames w encode d x fuel l h).1 ≡ f h
  unfolding frames
  frames-quiet zero l h = refl
  frames-quiet (suc fuel) l h =
      let (next, h1) = frame w encode d x l h in
      let continue : Option (LoopState F) → M (Option (LoopState F)) =
        λ r. elim r [ none ↦ pure none | some l2 ↦ frames w encode d x fuel l2 ] in
      if_elim (λ (m : M (Option (LoopState F))). f (m h).1 ≡ f h) (not l.loop_running)
        (λ ended. refl)
        (λ going.
          let rest : f (continue next h1).1 ≡ f h1 =
            option_elim (λ (m : M (Option (LoopState F))). f (m h1).1 ≡ f h1) next (λ missing. refl)
              (λ l1 found. frames-quiet fuel l1 h1) in
          rest ∙ frame-quiet l h)
