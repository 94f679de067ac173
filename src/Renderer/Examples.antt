-- ===== src/Renderer/Examples.antt =====
-- Runs of the renderer.
use soteria.Prelude.{
  ◌⊎◌, ◌≤◌, ℕ, ◌+◌, ◌≡◌, refl, Bool, true, false, not, ◌&&◌, some, List, [], ◌∷◌, ◌++◌, drop, leb,
  replicate, length-replicate, arith, if◌then◌else◌,
}
use soteria.Float.Tenths.{tenths}
use soteria.Result.{Result, is_ok}
use soteria.Vulkan.Info.{Kind, kind_of, render_pass_info, begin_command_buffer, end_command_buffer}
use soteria.Vulkan.{History, created, ran, success, is_success}
use soteria.Vulkan.Made.{strays}
use soteria.Vulkan.Live.{Object, one, live, one-null, kind_code}
use soteria.Vulkan.Simulated.{driver}
use soteria.PipelineCache.{Versions}
use soteria.Attitude.{AttitudeData}
use soteria.Renderer.{FrameRendererConfig, HorizonRenderer, fresh, destroy_all}
use soteria.Renderer.Life.{renderer_owned, destroy_all-live}
use soteria.Renderer.Create.{Embedded, vbo_bytes, init}
use soteria.Renderer.Outcomes.{IsValid}
use soteria.Renderer.Initialise.{renderer_init-live}
use soteria.Renderer.Record.{record_commands, record_frame, shown}
use soteria.Renderer.Frame.{frame_bytes, record_frame_lem, record_frame_invalid}

-- A renderer that has only its render pass.
abbrev partial : HorizonRenderer
partial = record fresh { render_pass = 6 }

abbrev render_pass : Object
render_pass = record { kind = Kind.vk_render_pass; handle = 6 }

abbrev history : History
history = created 7 (render_pass_info 44) (record { result = success; handle = 6 }) ∷ []

destroy_all-live_example :
    (live (destroy_all driver 7 partial history).1 render_pass ≡ 0)
    × (renderer_owned (destroy_all driver 7 partial history).0 render_pass ≡ 0)
unfolding live one kind_of kind_code is_success
destroy_all-live_example =
    destroy_all-live driver 7 partial history render_pass 0 (λ e. absurd (omega (arith, e))) refl

abbrev versions : Versions
versions = record { header_version = 1000298001; validation_version = 1 }

abbrev embedded : Embedded
embedded = record { data_ptr = some (replicate 56 0); data_size = 56 }

abbrev config : FrameRendererConfig
config = record {
  phys_device = 11;
  device = 7;
  queue_family = 1;
  color_format = 44;
  extent = record { width = 640; height = 480 };
  image_views = some (61 ∷ 62 ∷ 63 ∷ []);
  image_count = 3;
}

fresh-IsValid : (o : Object) → IsValid fresh o
fresh-IsValid o = record {
  room = refl;
  count_fits = omega arith;
  idle_count = λ new. refl;
  idle_owned = λ new. omega (
    arith,
    one-null Kind.vk_pipeline o,
    one-null Kind.vk_pipeline_layout o,
    one-null Kind.vk_render_pass o,
  );
}

abbrev initialised : (Result × HorizonRenderer) × History
initialised = init driver versions embedded config fresh []

renderer_init-live_example :
    ((is_ok initialised.0.0 ≡ false) × (1 ≤ strays initialised.1))
    ⊎ ((live initialised.1 render_pass ≡ renderer_owned initialised.0.1 render_pass + 0)
        × IsValid initialised.0.1 render_pass
        × (fresh.initialised ≡ false → is_ok initialised.0.0 ≡ initialised.0.1.initialised))
unfolding one live
renderer_init-live_example =
    renderer_init-live driver versions embedded config (61 ∷ 62 ∷ 63 ∷ []) fresh [] render_pass 0
      refl (λ few. omega arith) (fresh-IsValid render_pass) refl

-- A renderer that is ready for its three images.
abbrev ready : HorizonRenderer
ready = record fresh {
  initialised = true;
  cmd_buffer = 51;
  framebuffers = 71 ∷ 72 ∷ 73 ∷ [];
  framebuffer_count = 3;
  extent = record { width = 640; height = 480 };
  vertex_buffer = record {
    buffer = 81;
    memory = 82;
    mapped = 900;
    size_bytes = vbo_bytes;
    initialised = true;
  };
}

-- The bytes of a float.
abbrev encode : ℕ → List ℕ
encode x = x ∷ x ∷ x ∷ x ∷ []

abbrev attitude : (roll pitch : ℕ) → Bool → AttitudeData ℕ
attitude roll pitch valid = record {
  roll_deg = roll;
  pitch_deg = pitch;
  heading_deg = 0;
  airspeed_kt = 1200;
  altitude_ft = 35000;
  valid = valid;
}

record_frame_lem_example :
    let begin = begin_command_buffer 51 in
    let banked = attitude 100 50 true in
    let recorded =
      record_commands encode driver ready 72
        (shown encode banked).0
        (shown encode banked).1
        true
        (ran begin (driver.runs [] begin) ∷ []) in
    (record_frame encode driver ready 1 banked (replicate vbo_bytes 0) []).0 ≡ (
      if true && not (leb 3 1) && true && leb vbo_bytes vbo_bytes
      then some (
        (if is_success (driver.runs [] begin)
              && is_success (driver.runs recorded.1 (end_command_buffer 51))
            then 51
            else 0),
        frame_bytes encode ready banked ++ drop vbo_bytes (replicate vbo_bytes 0),
      )
      else some (0, replicate vbo_bytes 0))
record_frame_lem_example =
    record_frame_lem encode driver ready 1 (attitude 100 50 true) (replicate vbo_bytes 0) []
      (λ x. refl) (length-replicate {A = ℕ} vbo_bytes 0) (omega arith)

record_frame_invalid_example :
    record_frame encode driver ready 1 (attitude 100 50 false) (replicate vbo_bytes 0) []
    ≡ record_frame encode driver ready 1 (attitude 70 0 false) (replicate vbo_bytes 0) []
record_frame_invalid_example =
    record_frame_invalid encode driver ready 1 (attitude 100 50 false) (attitude 70 0 false)
      (replicate vbo_bytes 0) [] refl refl
