-- ===== src/Renderer/Quiet.antt =====
-- app/rendering/horizon_renderer.cpp: `RecordFrame` only gives commands to the driver.
use soteria.Prelude.{
  ℕ, ◌≡◌, refl, ◌∙◌, Bool, Option, none, some, List, arith, get_elem?, not, if_elim, option_elim,
}
use soteria.Float.{Float}
use soteria.Result.{Result}
use soteria.Vulkan.Info.{begin_command_buffer, end_command_buffer}
use soteria.Vulkan.{Driver, History, M, is_success, run}
use soteria.Vulkan.Made.{IsQuiet}
use soteria.VertexBuffer
use soteria.Attitude.{AttitudeData}
use soteria.Geometry.{compute_horizon_vertices}
use soteria.Renderer.{HorizonRenderer}
use soteria.Renderer.Create.{vbo_bytes}
use soteria.Renderer.Record.{
  vertex_bytes, shown, aspect_ratio, record_commands, record_buffer, record_written, record_frame,
}

module _ {F : Type 0} ⦃fl : Float F⦄ (encode : F → List ℕ) (d : Driver) (f : History → ℕ)
    (quiet : IsQuiet d f) where
  record_commands-quiet :
      (s : HorizonRenderer) (framebuffer : ℕ) (roll_deg pitch_deg : F) (valid : Bool) (h : History)
      → f (record_commands encode d s framebuffer roll_deg pitch_deg valid h).1 ≡ f h
  unfolding record_commands
  record_commands-quiet s framebuffer roll_deg pitch_deg valid h =
      quiet _ _
      ∙ quiet _ _
      ∙ quiet _ _
      ∙ quiet _ _
      ∙ quiet _ _
      ∙ quiet _ _
      ∙ quiet _ _
      ∙ quiet _ _
      ∙ quiet _ _
      ∙ quiet _ _
      ∙ quiet _ _

  record_buffer-quiet :
      (s : HorizonRenderer) (image_index : ℕ) (roll_deg pitch_deg : F) (valid : Bool) (h : History)
      → f (record_buffer encode d s image_index roll_deg pitch_deg valid h).1 ≡ f h
  unfolding record_buffer
  record_buffer-quiet s image_index roll_deg pitch_deg valid h =
      let begin = begin_command_buffer s.cmd_buffer in
      let (begun, h1) = run d begin h in
      let P : M (Option ℕ) → Type 0 = λ m. f (m h1).1 ≡ f h in
      if_elim P (not (is_success begun)) (λ failed. quiet begin h)
        (λ done.
          option_elim P (get_elem? s.framebuffers image_index) (λ missing. quiet begin h)
            (λ framebuffer found.
              let h2 = (record_commands encode d s framebuffer roll_deg pitch_deg valid h1).1 in
              ground (
                arith,
                quiet begin h,
                record_commands-quiet s framebuffer roll_deg pitch_deg valid h1,
                quiet (end_command_buffer s.cmd_buffer) h2,
              )))

  record_written-quiet :
      (s : HorizonRenderer) (image_index : ℕ) (roll_deg pitch_deg : F) (valid : Bool)
      (written : Option (Result × List ℕ)) (h : History)
      → f (record_written encode d s image_index roll_deg pitch_deg valid written h).1 ≡ f h
  unfolding record_written
  record_written-quiet s image_index roll_deg pitch_deg valid none h = refl
  record_written-quiet s image_index roll_deg pitch_deg valid (some (written, region)) h =
      ground (arith, record_buffer-quiet s image_index roll_deg pitch_deg valid h)

  pub record_frame-quiet :
      (s : HorizonRenderer) (image_index : ℕ) (attitude : AttitudeData F) (region : List ℕ)
      (h : History)
      → f (record_frame encode d s image_index attitude region h).1 ≡ f h
  unfolding record_frame
  record_frame-quiet s image_index attitude region h =
      let (roll_deg, pitch_deg) = shown encode attitude in
      let vertices = compute_horizon_vertices roll_deg pitch_deg (aspect_ratio encode s.extent) in
      let written =
        VertexBuffer.write s.vertex_buffer (some (vertex_bytes encode vertices)) vbo_bytes region in
      ground (arith, record_written-quiet s image_index roll_deg pitch_deg attitude.valid written h)
