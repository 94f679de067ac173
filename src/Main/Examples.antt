-- ===== src/Main/Examples.antt =====
-- Runs of the application.
use soteria.Prelude.{
  true, ℕ, ◌+◌, ◌*◌, ◌≤◌, ◌≡◌, ◌⊎◌, refl, false, Bool, ◌++◌, Option, some, List, [], ◌∷◌, length,
  length-replicate, replicate, arith, if◌then◌else◌,
}
use soteria.Float.Tenths.{tenths}
use soteria.Vulkan.Info.{Kind}
use soteria.Vulkan.{History}
use soteria.Vulkan.Live.{Object, live}
use soteria.Vulkan.Simulated.{driver}
use soteria.PipelineCache.{Versions}
use soteria.Attitude.{get_attitude}
use soteria.FrameBudget.{FrameBudgetMonitor}
use soteria.Context
use soteria.Swapchain
use soteria.Renderer
use soteria.Renderer.Create.{vbo_bytes, Embedded}
use soteria.Main.{Objects, fresh, resources, build_context_config, start}
use soteria.Main.Loop.{
  World, LoopState, exit_success, exit_failure, max_frames, frames, first, main,
}
use soteria.Main.Budget.{is_fatal, is_kick, is_miss, count, presented, times, monitor, episodes}
use soteria.Main.Frames.{loop-ends, loop-kicks, loop-episodes}
use soteria.Main.Device.{IsRegular}
use soteria.Main.Whole.{main-live}
use soteria.Main.Reserved.{reserved, main-reserved}
use soteria.Vulkan.Made.{made, strays}

abbrev world : World ℕ
world = record {
  attitude = λ n. get_attitude (λ k. k * 10) (1000 * n);
  record_start = λ n. 100 * n;
  record_end = λ n. 100 * n + 3;
  perf_freq = 10;
  of_i64 = λ k. k * 10;
}

-- The bytes of a float.
abbrev encode : ℕ → List ℕ
encode x = x ∷ x ∷ x ∷ x ∷ []

abbrev versions : Versions
versions = record { header_version = 1000298001; validation_version = 1 }

-- A header with no entries.
abbrev embedded : Embedded
embedded = record {
  data_ptr = some (
      56 ∷ 0 ∷ 0 ∷ 0 ∷ 17 ∷ 86 ∷ 159 ∷ 59 ∷ replicate 24 0
      ++ (1 ∷ 0 ∷ 0 ∷ 0 ∷ replicate 8 0 ++ (56 ∷ 0 ∷ 0 ∷ 0 ∷ 56 ∷ replicate 7 0)));
  data_size = 56;
}

abbrev new_monitor : FrameBudgetMonitor ℕ
new_monitor = record {
  deadline_ms = 0;
  max_consecutive_misses = 0;
  frame_count = 0;
  total_misses = 0;
  consecutive_misses = 0;
}

-- The start-up with the simulated driver.
abbrev started : (Bool × Objects) × History
started = start driver (build_context_config 5) versions embedded fresh []

abbrev region : List ℕ
region = replicate started.0.1.renderer.vertex_buffer.size_bytes 0

driver-IsRegular : IsRegular driver
driver-IsRegular = record { gives_handle = λ h owner info made e. absurd (omega (arith, e)) }

abbrev a_device : Object
a_device = record { kind = Kind.vk_device; handle = 101 }

main-live_example :
    let done =
      main world encode driver (build_context_config 5) versions embedded region new_monitor [] in
    (x : Objects) × (l : Option (LoopState ℕ)) × (done.0
      ≡ some ((if started.0.0 then exit_success else exit_failure), x, l))
    × (((started.0.0 ≡ false) × (1 ≤ strays done.1)) ⊎ (live done.1 a_device ≡ live [] a_device))
main-live_example =
    main-live world encode driver (build_context_config 5) versions embedded region new_monitor []
      a_device driver-IsRegular (λ a. refl)
      (length-replicate started.0.1.renderer.vertex_buffer.size_bytes 0)

-- The application in the loop, with three framebuffers.
abbrev running : Objects
running = record fresh {
  ctx = record Context.fresh { device = 101; graphics_queue = 77; initialised = true };
  swapchain = record Swapchain.fresh { swapchain = 103; image_count = 3; initialised = true };
  renderer = record Renderer.fresh {
    initialised = true;
    cmd_buffer = 51;
    framebuffers = 71 ∷ 72 ∷ 73 ∷ [];
    framebuffer_count = 3;
    extent = record { width = 640; height = 480 };
    vertex_buffer = record {
      buffer = 81;
      memory = 82;
      mapped = 900;
      size_bytes = vbo_bytes;
      initialised = true;
    };
  };
  sync = record { image_available = 91; render_complete = 92; in_flight = 93; initialised = true };
}

abbrev vertex_region : List ℕ
vertex_region = replicate vbo_bytes 0

abbrev ended : Option (LoopState ℕ)
ended = (frames world encode driver running max_frames (first vertex_region new_monitor) []).0

loop-ends_example :
    (l : LoopState ℕ) × (ended ≡ some l)
    × (l.loop_running ≡ false)
    × (l.frame_number ≡ length l.reports)
    × (l.frame_number ≤ max_frames)
    × ((count is_fatal l.calls ≡ 1)
        ⊎ ((count is_fatal l.calls ≡ 0) × (l.frame_number ≡ max_frames)))
loop-ends_example =
    loop-ends new_monitor world encode driver running vertex_region [] (λ a. refl)
      (length-replicate {A = ℕ} vbo_bytes 0) (omega arith)

loop-kicks_example :
    (l : LoopState ℕ) × (ended ≡ some l) × (count is_kick l.calls ≡ presented l.reports)
loop-kicks_example =
    loop-kicks new_monitor world encode driver running vertex_region [] (λ a. refl)
      (length-replicate {A = ℕ} vbo_bytes 0) (omega arith)

loop-episodes_example :
    (l : LoopState ℕ) × (ended ≡ some l)
    × (l.frame_budget ≡ monitor new_monitor (times l.reports))
    × (count is_miss l.calls ≡ episodes new_monitor (times l.reports))
loop-episodes_example =
    loop-episodes new_monitor world encode driver running vertex_region [] (λ a. refl)
      (length-replicate {A = ℕ} vbo_bytes 0) (omega arith)

main-reserved_example :
    made Kind.vk_pipeline
      (main world encode driver (build_context_config 5) versions embedded region new_monitor []).1
    ≤ made Kind.vk_pipeline [] + reserved resources Kind.vk_pipeline
main-reserved_example =
    main-reserved world encode driver (build_context_config 5) versions embedded region new_monitor
      [] Kind.vk_pipeline
