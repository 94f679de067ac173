-- ===== src/FrameSync/Life.antt =====
-- engine/rendering/frame_sync.cpp: `Init` and `Shutdown` account for the semaphores and the fence.
use soteria.Prelude.{ℕ, ◌+◌, ◌≡◌, true, arith, if◌then◌else◌}
use soteria.Vulkan.Info.{Kind, kind_of, semaphore_info, fence_info}
use soteria.Vulkan.{Driver, History, create, destroy, destroy_if_set}
use soteria.Vulkan.Live.{Object, one, live, live-create, live-destroy, live-destroy_if_set}
use soteria.FrameSync.{FrameSync, init, shutdown}

-- The objects that an initialised `FrameSync` owns; one that is not owns none.
abbrev pub owned : FrameSync → Object → ℕ
owned s o =
    if s.initialised
    then one Kind.vk_fence s.in_flight o
      + (one Kind.vk_semaphore s.render_complete o + one Kind.vk_semaphore s.image_available o)
    else 0

-- Where an object is alive as often as the `FrameSync` owns it, and `rest` times more, `Shutdown` leaves it
-- alive `rest` times more than the `FrameSync` owns it afterwards.
pub frame_sync_shutdown-live :
    (device : ℕ) (s : FrameSync) (h : History) (o : Object) (rest : ℕ)
    → live h o ≡ owned s o + rest
    → live (shutdown device s h).1 o ≡ owned (shutdown device s h).0 o + rest
unfolding shutdown
frame_sync_shutdown-live device s h o rest e = ground (
  arith,
  live-destroy_if_set device Kind.vk_fence s.in_flight h o,
  live-destroy_if_set device Kind.vk_semaphore s.render_complete
      (destroy_if_set device Kind.vk_fence s.in_flight h).1 o,
  live-destroy_if_set device Kind.vk_semaphore s.image_available
      (destroy_if_set device Kind.vk_semaphore s.render_complete
        (destroy_if_set device Kind.vk_fence s.in_flight h).1).1
      o,
)

module _ (d : Driver) where
  -- Where an object is alive as often as the `FrameSync` owns it, and `rest` times more, `Init` leaves it
  -- alive `rest` times more than the `FrameSync` owns it afterwards, whether `Init` succeeds or fails
  -- at any point.
  pub frame_sync_init-live :
      (device : ℕ) (s : FrameSync) (h : History) (o : Object) (rest : ℕ)
      → live h o ≡ owned s o + rest
      → live (init d device s h).1 o ≡ owned (init d device s h).0.1 o + rest
  unfolding init kind_of
  frame_sync_init-live device s h o rest e =
      let sem = Kind.vk_semaphore in
      let (a, h1) = create d device semaphore_info h in
      let (c, h2) = create d device semaphore_info h1 in
      let (f, h3) = create d device (fence_info true) h2 in
      ground (
        arith,
        live-create d device semaphore_info h o,
        live-create d device semaphore_info h1 o,
        live-create d device (fence_info true) h2 o,
        live-destroy device sem a.handle h2 o,
        live-destroy device sem c.handle h3 o,
        live-destroy device sem a.handle (destroy device sem c.handle h3).1 o,
      )
