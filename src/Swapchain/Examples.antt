-- ===== src/Swapchain/Examples.antt =====
-- Runs of the swapchain.
use soteria.Prelude.{◌+◌, ◌<◌, ◌≡◌, refl, true, false, [], ◌∷◌, arith}
use soteria.Result.{is_ok}
use soteria.Vulkan.Info.{Kind, SurfaceCapabilities, image_view_info}
use soteria.Vulkan.{History, created, success}
use soteria.Vulkan.Live.{Object, live}
use soteria.Vulkan.Simulated.{driver, large_driver, listed-IsConforming, capabilities}
use soteria.Swapchain.{Config, SwapchainSc, fresh, init, choose_image_count, undefined_extent}
use soteria.Swapchain.Choice.{choose_image_count_short}
use soteria.Swapchain.Life.{IsValid, swapchain_owned, swapchain_init-live, init_rejects_images}

abbrev config : Config
config = record {
  device = 7;
  phys_device = 11;
  surface = 9;
  preferred_width = 0;
  preferred_height = 480;
  required_format = 44;
}

abbrev ready : SwapchainSc
ready = record {
  swapchain = 3;
  images = 61 ∷ 0 ∷ 0 ∷ [];
  image_views = 6 ∷ 0 ∷ 0 ∷ [];
  image_count = 1;
  format = 44;
  extent = record { width = 640; height = 480 };
  initialised = true;
}

fresh-IsValid : IsValid fresh
fresh-IsValid = record { images_room = refl; views_room = refl; count_fits = λ on. omega arith }

ready-IsValid : IsValid ready
ready-IsValid = record { images_room = refl; views_room = refl; count_fits = λ on. omega arith }

abbrev view : Object
view = record { kind = Kind.vk_image_view; handle = 6 }

abbrev history : History
history = created 7 (image_view_info 61 44) (record { result = success; handle = 6 }) ∷ []

swapchain_init-live_example :
    (live (init driver config fresh []).1 view
      ≡ swapchain_owned (init driver config fresh []).0.1 view + 0)
    × IsValid (init driver config fresh []).0.1
unfolding live
swapchain_init-live_example = swapchain_init-live driver config fresh [] view 0 fresh-IsValid refl

init_rejects_images_example : is_ok (init large_driver config fresh []).0.0 ≡ false
init_rejects_images_example =
    init_rejects_images large_driver config fresh []
      (λ h swapchain. listed-IsConforming (61 ∷ 62 ∷ 63 ∷ 64 ∷ [])) (λ h swapchain. omega arith)

-- A surface that leaves the extent to the swapchain.
abbrev free : SurfaceCapabilities
free = record capabilities { current_extent = record { width = undefined_extent; height = 0 } }

choose_image_count_short_example :
    choose_image_count (record capabilities { min_image_count = 4 }) < 4
choose_image_count_short_example =
    choose_image_count_short (record capabilities { min_image_count = 4 }) (omega arith)
