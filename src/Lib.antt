-- ===== src/Lib.antt =====
-- Soteria, a Vulkan SC rendering engine for a safety-critical horizon display: models of the engine's
-- components and theorems about them.
--
-- The engine draws through a Vulkan SC driver. `VkscContext` makes the instance and the device, and selects
-- the physical device; `DisplayOutput` makes the surface on a display; `SwapchainSc` makes the images and
-- their views; `FrameSync`, `CommandPool`, `PipelineCacheSc` and `VertexBuffer` are the objects that a
-- frame is drawn with. `ConsoleHealthMonitor` counts the health events and takes the faults that the context
-- drains from the driver. `FrameBudgetMonitor` watches the frame times, and `FixedString` builds the texts of
-- the log. `HorizonRenderer` draws the horizon, whose vertices `ComputeHorizonVertices` gives, for the attitude
-- of each frame. `main` starts these objects in their order, runs the frame loop and shuts them down. Every
-- fallible operation returns a `Result`.
--
-- Which file models what (paths from the repository's root):
--   Result        engine/core/result.hpp: the codes, `IsOk` and `ResultToString`.
--   FixedString   engine/core/fixed_string.hpp: `Append`, `AppendUDec`, `AppendU64Dec`, `AppendIDec`,
--                 `AppendHex`, and in FixedString/Float `AppendFloat`.
--   FrameBudget   engine/core/frame_budget.hpp: `Init`, `RecordFrame`, `Reset`, `Escalated`.
--   FrameSync     engine/rendering/frame_sync.cpp: `Init`, `Shutdown`, `WaitAndReset`.
--   PipelineCache engine/rendering/pipeline_cache.cpp: `ValidatePipelineCacheHeader`, `Init`, `Shutdown`.
--   CommandPool   engine/rendering/command_pool.cpp: `Init`, `Shutdown`, `AllocateBuffers`.
--   VertexBuffer  engine/rendering/vertex_buffer.cpp: `Init`, `Write`, `Shutdown`.
--   Swapchain     engine/rendering/swapchain.cpp: `Init`, `Shutdown`, `ImageView`, `Image`.
--   DisplayOutput engine/wsi/display_output.cpp: `Init`, `Shutdown`.
--   FaultSink     engine/core/i_fault_sink.hpp: the faults and the calls of the sink.
--   Context       engine/core/vksc_context.cpp: `Init`, `Shutdown`, `SelectPhysicalDevice`,
--                 `CaptureIdentity`, `DrainFaults`.
--   HealthMonitor engine/data/i_health_monitor.hpp and app/demo/console_health_monitor.hpp: the counters and
--                 the lines of the log.
--   Attitude      engine/data/i_attitude_source.hpp and app/demo/demo_attitude_source.hpp.
--   Geometry      app/rendering/horizon_geometry.cpp: `ComputeHorizonVertices`.
--   Renderer      app/rendering/horizon_renderer.cpp: `Init` (Renderer/Create), `RecordFrame`
--                 (Renderer/Record), `DestroyAll` and `Shutdown`.
--   Main          app/main.cpp: the start-up and `ShutdownAll`; in Main/Loop the frame loop and `main`.
--   FrameReport   app/demo/console_frame_report.hpp: `OnFrameComplete`.
-- Prelude has the shared names and lemmas, Bits the bits of a word, Float the interface to the floats.
-- An object's members are the fields of a record, under the same names without `m_`; an operation takes the
-- object and gives its result and the object afterwards. A long `Init` is cut where it has created
-- something, into definitions that call each other in the order of the code. Logging is left out.
--
-- The driver is not part of the repository: it is a record of functions (Vulkan), and every definition that
-- calls it takes it as an argument. Each answer may depend on all calls made before, which are kept as a
-- history, so that a driver may fail at any call, and what a failing creation leaves in its output
-- parameter is its choice. Vulkan/Live counts how often each object is alive after a history, Vulkan/Made the
-- creations. A driver writes no more elements into an array than there is room for: that is part of
-- its type (`fits`, `faults_fit`), so the arrays that the source has it fill are never overrun. That
-- an enumeration says `VK_INCOMPLETE` if it has more is `IsConforming` (Vulkan/Enumerate), a hypothesis
-- where it is needed. Vulkan/Simulated is a driver to run the models on. The floats are a parameter too
-- (Float), as are the bytes of a float, the attitude and the performance counter of each frame, and the
-- contents that the vertex buffer has at first. The accounting of `main` also asks that a creation that
-- succeeds does not give the null handle (`IsRegular`). What a failed creation of a render pass, a pipeline
-- layout or a pipeline leaves in its output is destroyed by the source unless it is null; `strays`
-- (Vulkan/Made) counts the failures after which it is not.
--
-- The accesses to arrays that can fail in the model are those of `VertexBuffer::Write` and that to
-- `m_framebuffers` in `RecordFrame`, whose index comes from the driver. The other arrays are lists of their
-- fixed length, read and written where the code's own bounds and the driver's type keep the index inside.
--
-- Numbers are natural numbers; the arithmetic of 32 and 64 bits is written with its remainder. The loops are
-- recursions over lists or over the places that are left in an array: the digit loops run over the places of
-- `tmp`, of which there are enough for every value of the type, and the padding loop of `AppendFloat` over
-- the number of decimals, which it cannot exceed since it divides a power of ten by ten in each round. The frame
-- loop runs on fuel for `kMaxFrames` frames, which is shown to be enough for every driver.
--
-- Not modelled: the output of the log, the abstract interfaces, the generated data and shaders of the
-- application, the tools and the tests. The data of the pipeline cache is a parameter. Device memory,
-- swapchains and command pools are not counted as alive, since Vulkan SC frees them with the device.
pub mod Prelude
pub mod Result
pub mod Float
pub mod Bits
pub mod FixedString
pub mod FrameBudget
pub mod Vulkan
pub mod FrameSync
pub mod PipelineCache
pub mod CommandPool
pub mod VertexBuffer
pub mod Swapchain
pub mod DisplayOutput
pub mod FaultSink
pub mod Context
pub mod Attitude
pub mod Geometry
pub mod HealthMonitor
pub mod Renderer
pub mod Main
pub mod FrameReport
