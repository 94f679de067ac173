-- ===== src/Renderer/Frame.antt =====
-- app/rendering/horizon_renderer.cpp: when `RecordFrame` gives a command buffer, and what it depends on.
use soteria.Prelude.{
  ℕ, ◌*◌, ◌≤◌, ◌≡◌, refl, ap, ◌∙◌, Bool, true, false, not, ◌&&◌, Option, some, List, [], ◌∷◌, zero,
  suc, ◌<◌, get_elem?, ◌++◌, arith, length, length-append, take-of_le, drop, length-drop, get_or,
  leb, if◌then◌else◌,
}
use soteria.Float.{Float, zero_f}
use soteria.Result.{Result, k_ok, k_error, k_invalid_argument}
use soteria.Vulkan.Info.{begin_command_buffer, end_command_buffer}
use soteria.Vulkan.{Driver, History, M, pure, is_success, run, ran}
use soteria.VertexBuffer.Copy.{write_lem}
use soteria.Attitude.{AttitudeData}
use soteria.Geometry.{Vertex2D, compute_horizon_vertices}
use soteria.Geometry.Layout.{length-compute_horizon_vertices}
use soteria.Renderer.{HorizonRenderer}
use soteria.Renderer.Create.{vbo_bytes}
use soteria.Renderer.Record.{
  vertex_bytes, shown, aspect_ratio, record_commands, record_buffer, record_written, record_frame,
}

below_count : (count i n : ℕ) → leb count i ≡ false → count ≤ n → i < n
below_count count i n h fits = ground (arith, h, fits)

get_elem?-get_or : (xs : List ℕ) (i : ℕ) → i < length xs → get_elem? xs i ≡ some (get_or xs i 0)
get_elem?-get_or [] i h = elim h [ ]
get_elem?-get_or (x ∷ xs) zero h = refl
get_elem?-get_or (x ∷ xs) (suc i) h = get_elem?-get_or xs i (omega arith)

guards_fit : (a b c : Bool) (m n : ℕ) → (a && b && c && leb m n) ≡ true → m ≤ n
guards_fit a b c m n on = ground (arith, on)

some_either :
    (ready : Bool) (a : ℕ) (out region : List ℕ)
    → (ready ≡ true → length out ≡ length region)
    → (cmd_buf : ℕ) × (region' : List ℕ) × (if◌then◌else◌ {A = Option (ℕ × List ℕ)} ready
          (some (a, out))
          (some (0, region))
        ≡ some (cmd_buf, region'))
      × (length region' ≡ length region)
some_either true a out region same_size = (a, out, refl, same_size refl)
some_either false a out region same_size = (0, region, refl, refl)

module _ {F : Type 0} ⦃fl : Float F⦄ (encode : F → List ℕ) where
  length-vertex_bytes :
      (vertices : List (Vertex2D F))
      → ((x : F) → length (encode x) ≡ 4)
      → length (vertex_bytes encode vertices) ≡ length vertices * 8
  unfolding vertex_bytes
  length-vertex_bytes [] four = omega arith
  length-vertex_bytes (v ∷ vertices) four =
      let sum : length (encode v.x ++ encode v.y ++ vertex_bytes encode vertices)
          ≡ length (v ∷ vertices) * 8 =
        omega (
          arith,
          length-append (encode v.x ++ encode v.y) (vertex_bytes encode vertices),
          length-append (encode v.x) (encode v.y),
          four v.x,
          four v.y,
          length-vertex_bytes vertices four,
        ) in
      sum

  -- The bytes that `RecordFrame` writes.
  abbrev pub frame_bytes : HorizonRenderer → AttitudeData F → List ℕ
  frame_bytes s attitude = vertex_bytes encode (
      compute_horizon_vertices (shown encode attitude).0 (shown encode attitude).1
        (aspect_ratio encode s.extent))

  length-frame_bytes :
      (s : HorizonRenderer) (attitude : AttitudeData F)
      → ((x : F) → length (encode x) ≡ 4)
      → length (frame_bytes s attitude) ≡ vbo_bytes
  length-frame_bytes s attitude four =
      let (roll_deg, pitch_deg) = shown encode attitude in
      let ratio = aspect_ratio encode s.extent in
      omega (
        arith,
        length-vertex_bytes (compute_horizon_vertices roll_deg pitch_deg ratio) four,
        length-compute_horizon_vertices roll_deg pitch_deg ratio,
      )

  module _ (d : Driver) where
    record_buffer_lem :
        (s : HorizonRenderer) (image_index : ℕ) (roll_deg pitch_deg : F) (valid : Bool)
        (h : History)
        → image_index < length s.framebuffers
        → let begin = begin_command_buffer s.cmd_buffer in
          let recorded =
            record_commands encode d s
              (get_or s.framebuffers image_index 0)
              roll_deg
              pitch_deg
              valid
              (ran begin (d.runs h begin) ∷ h) in
          (record_buffer encode d s image_index roll_deg pitch_deg valid h).0
          ≡ some (
              if is_success (d.runs h begin)
                && is_success (d.runs recorded.1 (end_command_buffer s.cmd_buffer))
              then s.cmd_buffer
              else 0)
    unfolding record_buffer run
    record_buffer_lem s image_index roll_deg pitch_deg valid h inside =
        rw (get_elem?-get_or s.framebuffers image_index inside) (ground arith)

    frame_guards :
        (s : HorizonRenderer) (image_index : ℕ) (roll_deg pitch_deg : F) (valid : Bool)
        (region out : List ℕ) (h : History) (cmd_buf : ℕ)
        (initialised outside has_buffer fits : Bool)
        → (outside ≡ false
            → (record_buffer encode d s image_index roll_deg pitch_deg valid h).0 ≡ some cmd_buf)
        → let written : Option (Result × List ℕ) =
            if not has_buffer
            then some (k_error, region)
            else if fits
            then some (k_ok, out)
            else some (k_invalid_argument, region) in
          let m : M (Option (ℕ × List ℕ)) =
            if not initialised
            then pure (some (0, region))
            else if outside
            then pure (some (0, region))
            else record_written encode d s image_index roll_deg pitch_deg valid written in
          (m h).0 ≡ (
            if initialised && not outside && has_buffer && fits
            then some (cmd_buf, out)
            else some (0, region))
    unfolding record_written
    frame_guards s image_index roll_deg pitch_deg valid region out h buf false b c e given = refl
    frame_guards s image_index roll_deg pitch_deg valid region out h buf true true c e given = refl
    frame_guards s image_index roll_deg pitch_deg valid region out h buf true false false e given =
        refl
    frame_guards s image_index roll_deg pitch_deg valid region out h buf true false true true
          given =
        rw (given refl) refl
    frame_guards s image_index roll_deg pitch_deg valid region out h buf true false true false
          given =
        refl

    -- If a float has four bytes, the mapped region is as large as the vertex buffer and the array of
    -- framebuffers has a slot for each that is counted, `RecordFrame` accesses neither outside of its
    -- bounds. Unless the renderer is initialised, the index is that of a framebuffer and
    -- the vertex buffer has room for the 94 vertices, it gives the null handle and leaves the region as
    -- it was. Otherwise the region starts with the vertices, and the renderer's command buffer is given
    -- exactly when the driver begins it and, after the commands, ends it.
    pub record_frame_lem :
        (s : HorizonRenderer) (image_index : ℕ) (attitude : AttitudeData F) (region : List ℕ)
        (h : History)
        → ((x : F) → length (encode x) ≡ 4)
        → length region ≡ s.vertex_buffer.size_bytes
        → s.framebuffer_count ≤ length s.framebuffers
        → let begin = begin_command_buffer s.cmd_buffer in
          let recorded =
            record_commands encode d s
              (get_or s.framebuffers image_index 0)
              (shown encode attitude).0
              (shown encode attitude).1
              attitude.valid
              (ran begin (d.runs h begin) ∷ h) in
          (record_frame encode d s image_index attitude region h).0 ≡ (
            if s.initialised
              && not (leb s.framebuffer_count image_index)
              && s.vertex_buffer.initialised
              && leb vbo_bytes s.vertex_buffer.size_bytes
            then some (
              (if is_success (d.runs h begin)
                    && is_success (d.runs recorded.1 (end_command_buffer s.cmd_buffer))
                  then s.cmd_buffer
                  else 0),
              frame_bytes s attitude ++ drop vbo_bytes region,
            )
            else some (0, region))
    unfolding record_frame record_written
    record_frame_lem s image_index attitude region h four size slots =
        let (roll_deg, pitch_deg) = shown encode attitude in
        let bytes = frame_bytes s attitude in
        let n = length-frame_bytes s attitude four in
        let all = take-of_le vbo_bytes bytes (omega (arith, n)) in
        let written =
          (write_lem s.vertex_buffer bytes vbo_bytes region (omega (arith, n)) size).0 in
        let out = bytes ++ drop vbo_bytes region in
        rw (written, all)
          (frame_guards s image_index roll_deg pitch_deg attitude.valid region out h _ s.initialised
            (leb s.framebuffer_count image_index) s.vertex_buffer.initialised
            (leb vbo_bytes s.vertex_buffer.size_bytes)
            (λ inside.
              record_buffer_lem s image_index roll_deg pitch_deg attitude.valid h
                (below_count s.framebuffer_count image_index (length s.framebuffers) inside slots)))

    -- The mapped region keeps its size.
    pub record_frame-some :
        (s : HorizonRenderer) (image_index : ℕ) (attitude : AttitudeData F) (region : List ℕ)
        (h : History)
        → ((x : F) → length (encode x) ≡ 4)
        → length region ≡ s.vertex_buffer.size_bytes
        → s.framebuffer_count ≤ length s.framebuffers
        → (cmd_buf : ℕ) × (region' : List ℕ) × ((record_frame encode d s image_index attitude region
              h).0
            ≡ some (cmd_buf, region'))
          × (length region' ≡ length region)
    record_frame-some s image_index attitude region h four size slots =
        let bytes = frame_bytes s attitude in
        let same = record_frame_lem s image_index attitude region h four size slots in
        let ready =
          s.initialised
          && not (leb s.framebuffer_count image_index)
          && s.vertex_buffer.initialised
          && leb vbo_bytes s.vertex_buffer.size_bytes in
        let (cmd_buf, region', chosen, same_size) =
          some_either ready _ (bytes ++ drop vbo_bytes region) region λ on. omega (
            arith,
            guards_fit s.initialised (not (leb s.framebuffer_count image_index))
                s.vertex_buffer.initialised vbo_bytes s.vertex_buffer.size_bytes on,
            size,
            length-append bytes (drop vbo_bytes region),
            length-drop vbo_bytes region,
            length-frame_bytes s attitude four,
          ) in
        (cmd_buf, region', same ∙ chosen, same_size)

    shown-invalid :
        (attitude : AttitudeData F)
        → attitude.valid ≡ false
        → shown encode attitude ≡ (zero_f, zero_f)
    unfolding shown
    shown-invalid attitude bad =
        ap (λ v. if v then (attitude.roll_deg, attitude.pitch_deg) else (zero_f, zero_f)) bad

    -- For data that is not valid, neither the frame nor the calls depend on the numbers in the data.
    pub record_frame_invalid :
        (s : HorizonRenderer) (image_index : ℕ) (attitude other : AttitudeData F) (region : List ℕ)
        (h : History)
        → attitude.valid ≡ false
        → other.valid ≡ false
        → record_frame encode d s image_index attitude region h
          ≡ record_frame encode d s image_index other region h
    unfolding record_frame
    record_frame_invalid s image_index attitude other region h bad bad' =
        rw (shown-invalid attitude bad, shown-invalid other bad', bad, bad') refl
