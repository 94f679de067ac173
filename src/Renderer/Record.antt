-- ===== src/Renderer/Record.antt =====
-- app/rendering/horizon_renderer.cpp: `RecordFrame`. The `vkCmd*` calls are commands of the driver with no
-- result. `encode` gives the bytes of a float; the contents of the mapped vertex buffer are passed in and
-- given back.
use soteria.Prelude.{
  ℕ, Bool, not, Option, none, some, List, [], ◌∷◌, ◌++◌, get_elem?, leb, ltb, if◌then◌else◌,
}
use soteria.Float.{Float, zero_f}
use soteria.Result.{Result, is_ok}
use soteria.Vulkan.Info.{
  Extent2D, begin_command_buffer, end_command_buffer, cmd_set_viewport, cmd_set_scissor,
  cmd_begin_render_pass, cmd_bind_pipeline, cmd_bind_vertex_buffer, cmd_push_constants, cmd_draw,
  cmd_end_render_pass,
}
use soteria.Vulkan.{Driver, is_success, M, pure, ◌>>=◌, ◌>>◌, run}
use soteria.VertexBuffer
use soteria.Attitude.{AttitudeData}
use soteria.Geometry.{Vertex2D, compute_horizon_vertices}
use soteria.Renderer.{HorizonRenderer}
use soteria.Renderer.Create.{vbo_bytes, horizon_vertex_count}

-- `HorizonPushConstants`
pub record HorizonPushConstants (F : Type 0) : Type 0 where
  pub cos_r : F
  pub sin_r : F
  pub pitch_ndc : F
  pub pad : F
  pub r : F
  pub g : F
  pub b : F
  pub a : F

module _ {F : Type 0} ⦃fl : Float F⦄ (encode : F → List ℕ) where
  -- The bytes of the vertices.
  unfoldable pub vertex_bytes : List (Vertex2D F) → List ℕ
  vertex_bytes [] = []
  vertex_bytes (v ∷ vertices) = encode v.x ++ encode v.y ++ vertex_bytes vertices

  unfoldable pub push_bytes : HorizonPushConstants F → List ℕ
  push_bytes pc =
      encode pc.cos_r
      ++ encode pc.sin_r
      ++ encode pc.pitch_ndc
      ++ encode pc.pad
      ++ encode pc.r
      ++ encode pc.g
      ++ encode pc.b
      ++ encode pc.a

  -- `rollDeg` and `pitchDeg`: level flight for data that is not valid.
  unfoldable pub shown : AttitudeData F → F × F
  shown attitude =
      if attitude.valid then (attitude.roll_deg, attitude.pitch_deg) else (zero_f, zero_f)

  -- The push constants of the second draw: white lines, or red ones for data that is not valid.
  unfoldable pub line_constants :
      (cos_r sin_r pitch_ndc : F) (valid : Bool) → HorizonPushConstants F
  line_constants cos_r sin_r pitch_ndc valid = record {
    cos_r = cos_r;
    sin_r = sin_r;
    pitch_ndc = pitch_ndc;
    pad = zero_f;
    r = fl.literal 10 1;
    g = if valid then fl.literal 10 1 else zero_f;
    b = if valid then fl.literal 10 1 else zero_f;
    a = fl.literal 10 1;
  }

  -- The push constants of the first draw.
  unfoldable pub bg_constants : (cos_r sin_r pitch_ndc : F) → HorizonPushConstants F
  bg_constants cos_r sin_r pitch_ndc = record {
    cos_r = cos_r;
    sin_r = sin_r;
    pitch_ndc = pitch_ndc;
    pad = zero_f;
    r = zero_f;
    g = zero_f;
    b = zero_f;
    a = zero_f;
  }

  -- `aspectRatio`
  unfoldable pub aspect_ratio : Extent2D → F
  aspect_ratio extent =
      if ltb 0 extent.height
      then fl.div (fl.of_u32 extent.width) (fl.of_u32 extent.height)
      else fl.literal 10 1

  module _ (d : Driver) where
    -- The commands between `vkBeginCommandBuffer` and `vkEndCommandBuffer`.
    unfoldable pub record_commands :
        HorizonRenderer → (framebuffer : ℕ) (roll_deg pitch_deg : F) (valid : Bool) → M (Unit {0})
    record_commands s framebuffer roll_deg pitch_deg valid =
        let w = fl.of_u32 s.extent.width in
        let t = fl.of_u32 s.extent.height in
        let one_f = fl.literal 10 1 in
        let dark = fl.literal 5 2 in
        let roll_rad = fl.mul roll_deg (fl.literal 1745329251994329576 20) in
        let cos_r = fl.cos roll_rad in
        let sin_r = fl.sin roll_rad in
        let pitch_ndc = fl.div pitch_deg (fl.literal 300 1) in
        let viewport =
          encode zero_f ++ encode zero_f ++ encode w ++ encode t ++ encode zero_f ++ encode one_f in
        let clear = encode dark ++ encode dark ++ encode dark ++ encode one_f in
        let bg = push_bytes (bg_constants cos_r sin_r pitch_ndc) in
        let line = push_bytes (line_constants cos_r sin_r pitch_ndc valid) in
        (do
          _ ← run d (cmd_set_viewport s.cmd_buffer viewport)
          _ ← run d (cmd_set_scissor s.cmd_buffer s.extent)
          _ ← run d (cmd_begin_render_pass s.cmd_buffer s.render_pass framebuffer s.extent clear)
          _ ← run d (cmd_bind_pipeline s.cmd_buffer s.bg_pipeline)
          _ ← run d (cmd_push_constants s.cmd_buffer s.pipeline_layout bg)
          _ ← run d (cmd_draw s.cmd_buffer 3)
          _ ← run d (cmd_bind_pipeline s.cmd_buffer s.line_pipeline)
          _ ← run d (cmd_bind_vertex_buffer s.cmd_buffer s.vertex_buffer.buffer)
          _ ← run d (cmd_push_constants s.cmd_buffer s.pipeline_layout line)
          _ ← run d (cmd_draw s.cmd_buffer horizon_vertex_count)
          _ ← run d (cmd_end_render_pass s.cmd_buffer)
          pure tt)

    -- `RecordFrame` after the write: the command buffer, or 0; `none` is a read outside `m_framebuffers`.
    unfoldable pub record_buffer :
        HorizonRenderer → (image_index : ℕ) (roll_deg pitch_deg : F) (valid : Bool) → M (Option ℕ)
    record_buffer s image_index roll_deg pitch_deg valid = do
      begun ← run d (begin_command_buffer s.cmd_buffer)
      if not (is_success begun)
          then pure (some 0)
          else elim (get_elem? s.framebuffers image_index) [
            | none ↦ pure none
            | some framebuffer ↦ (do
              record_commands s framebuffer roll_deg pitch_deg valid
              ended ← run d (end_command_buffer s.cmd_buffer)
              if not (is_success ended) then pure (some 0) else pure (some s.cmd_buffer))
          ]

    -- `RecordFrame` from the result of the write on.
    unfoldable pub record_written :
        HorizonRenderer
        → (image_index : ℕ) (roll_deg pitch_deg : F) (valid : Bool) → Option (Result × List ℕ)
        → M (Option (ℕ × List ℕ))
    record_written s image_index roll_deg pitch_deg valid none = pure none
    record_written s image_index roll_deg pitch_deg valid (some (written, region)) =
        if not (is_ok written) then pure (some (0, region)) else (do
          recorded ← record_buffer s image_index roll_deg pitch_deg valid
          pure (elim recorded [ none ↦ none | some buffer ↦ some (buffer, region) ]))

    -- `RecordFrame`: the command buffer, or 0, and the contents of the vertex buffer afterwards; `none` is an
    -- access outside the vertex buffer or outside `m_framebuffers`.
    unfoldable pub record_frame :
        HorizonRenderer
        → (image_index : ℕ) → AttitudeData F
        → (region : List ℕ) → M (Option (ℕ × List ℕ))
    record_frame s image_index attitude region =
        let (roll_deg, pitch_deg) = shown attitude in
        let vertices = compute_horizon_vertices roll_deg pitch_deg (aspect_ratio s.extent) in
        let written =
          VertexBuffer.write s.vertex_buffer (some (vertex_bytes vertices)) vbo_bytes region in
        if not s.initialised
        then pure (some (0, region))
        else if leb s.framebuffer_count image_index
        then pure (some (0, region))
        else record_written s image_index roll_deg pitch_deg attitude.valid written
