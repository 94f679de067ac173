-- ===== src/Swapchain.antt =====
-- engine/rendering/swapchain.hpp and swapchain.cpp: `SwapchainSc`, the swapchain with its images and
-- image views. The arrays of `kMaxImages` slots are lists of that length. Swapchain/Choice is about the
-- extent and the image count, Swapchain/Views about the image views, Swapchain/Life about `Init` and
-- `Shutdown`.
pub mod Choice
pub mod Views
pub mod Life
mod Examples
use soteria.Prelude.{
  ℕ, zero, suc, ◌+◌, ◌-◌, ◌%◌, ◌^◌, Bool, true, false, not, ◌&&◌, ◌||◌, List, [], ◌∷◌, ◌++◌, length,
  take, get_or, replicate, ltb, leb, ◌==◌, if◌then◌else◌, map,
}
use soteria.Result.{
  Result, k_ok, k_invalid_argument, k_vksc_swapchain_failed, k_already_initialised,
}
use soteria.Vulkan.Info.{Kind, Extent2D, SurfaceCapabilities, swapchain_info, image_view_info}
use soteria.Vulkan.{Driver, is_success, M, pure, ◌>>=◌, ◌>>◌, create, destroy, destroy_if_set}

-- `SwapchainSc::Config`
pub record Config : Type 0 where
  pub device : ℕ
  pub phys_device : ℕ
  pub surface : ℕ
  pub preferred_width : ℕ
  pub preferred_height : ℕ
  pub required_format : ℕ

pub record SwapchainSc : Type 0 where
  pub swapchain : ℕ
  pub images : List ℕ
  pub image_views : List ℕ
  pub image_count : ℕ
  pub format : ℕ
  pub extent : Extent2D
  pub initialised : Bool

-- `kMaxImages`
abbrev pub max_images : ℕ
max_images = 3

-- `kMaxFormats`
abbrev pub max_formats : ℕ
max_formats = 16

-- A new object.
abbrev pub fresh : SwapchainSc
fresh = record {
  swapchain = 0;
  images = replicate max_images 0;
  image_views = replicate max_images 0;
  image_count = 0;
  format = 0;
  extent = record { width = 0; height = 0 };
  initialised = false;
}

-- `kUndefinedExtent`
abbrev pub undefined_extent : ℕ
undefined_extent = 2 ^ 32 - 1

-- `kFallbackWidth` and `kFallbackHeight`
abbrev pub fallback_width : ℕ
fallback_width = 1280

abbrev pub fallback_height : ℕ
fallback_height = 720

-- `if (n > limit) { n = limit; }`
unfoldable pub at_most : (limit n : ℕ) → ℕ
at_most limit n = if ltb limit n then limit else n

-- `if (n < limit) { n = limit; }`
unfoldable pub at_least : (limit n : ℕ) → ℕ
at_least limit n = if ltb n limit then limit else n

-- The loop that looks for the required format.
unfoldable pub format_found : ℕ → List ℕ → Bool
format_found required [] = false
format_found required (format ∷ formats) =
    let rest = format_found required formats in if format == required then true else rest

-- The extent of the swapchain.
unfoldable pub select_extent : Config → SurfaceCapabilities → Extent2D
select_extent cfg caps =
    if not (caps.current_extent.width == undefined_extent)
    then caps.current_extent
    else let w = if ltb 0 cfg.preferred_width then cfg.preferred_width else fallback_width in
      let v = if ltb 0 cfg.preferred_height then cfg.preferred_height else fallback_height in
      record {
        width = at_most caps.max_image_extent.width (at_least caps.min_image_extent.width w);
        height = at_most caps.max_image_extent.height (at_least caps.min_image_extent.height v);
      }

-- The image count that is asked for.
unfoldable pub choose_image_count : SurfaceCapabilities → ℕ
choose_image_count caps =
    let n = (caps.min_image_count + 1) % 2 ^ 32 in
    at_most max_images
      (if ltb 0 caps.max_image_count && ltb caps.max_image_count n then caps.max_image_count else n)

-- What an array holds after `written` was written to its start.
unfoldable pub overwrite : (written array : List ℕ) → List ℕ
overwrite [] array = array
overwrite (x ∷ written) [] = []
overwrite (x ∷ written) (y ∷ array) = x ∷ overwrite written array

-- The loop of `Init` that destroys the first views again, all those in `views`.
unfoldable pub destroy_views : (device : ℕ) → (views : List ℕ) → M (Unit {0})
destroy_views device [] = pure tt
destroy_views device (view ∷ views) = do
  destroy device Kind.vk_image_view view
  destroy_views device views

-- The loop of `Shutdown` over the first `count` slots.
unfoldable pub clear_views : (device count : ℕ) → (views : List ℕ) → M (List ℕ)
clear_views device zero views = pure views
clear_views device (suc count) [] = pure []
clear_views device (suc count) (view ∷ views) = do
  destroy_if_set device Kind.vk_image_view view
  rest ← clear_views device count views
  pure (0 ∷ rest)

-- `Shutdown`
unfoldable pub shutdown : ℕ → SwapchainSc → M SwapchainSc
shutdown device s = if not s.initialised then pure s else do
  views ← clear_views device s.image_count s.image_views
  pure (record s {
    swapchain = 0;
    image_views = views;
    image_count = 0;
    format = 0;
    extent = record { width = 0; height = 0 };
    initialised = false;
  })

-- `ImageView`
unfoldable pub image_view : SwapchainSc → ℕ → ℕ
image_view s index = if leb s.image_count index then 0 else get_or s.image_views index 0

-- `Image`
unfoldable pub image : SwapchainSc → ℕ → ℕ
image s index = if leb s.image_count index then 0 else get_or s.images index 0

module _ (d : Driver) where
  -- The loop over the images: `images` are those still to do, `made` are the slots of the views that are
  -- done, `slots` the slots after them. A driver gives no more images than there is room for, so neither
  -- array runs out in a swapchain whose arrays have their `kMaxImages` places. The value is whether every view was created, and the array.
  unfoldable pub create_views :
      (device format : ℕ) → (made images slots : List ℕ) → M (Bool × List ℕ)
  create_views device format made [] slots = pure (true, made ++ slots)
  create_views device format made (image ∷ images) [] = pure (false, made)
  create_views device format made (image ∷ images) (slot ∷ slots) = do
    view ← create d device (image_view_info image format)
    if not (is_success view.result)
        then (do destroy_views device made; pure (false, map (λ v. 0) made ++ view.handle ∷ slots))
        else create_views device format (made ++ view.handle ∷ []) images slots

  -- `Init` from the creation of the image views on.
  unfoldable pub init_views : Config → Extent2D → SwapchainSc → M (Result × SwapchainSc)
  init_views cfg extent s = do
    (all_made, views) ←
        create_views cfg.device cfg.required_format [] (take s.image_count s.images) s.image_views
    let s1 = record s { image_views = views }
    if not all_made
        then pure (k_vksc_swapchain_failed, record s1 { swapchain = 0; image_count = 0 })
        else pure
            (k_ok, record s1 { format = cfg.required_format; extent = extent; initialised = true })

  -- `Init` from the retrieval of the images on.
  unfoldable pub init_images : Config → Extent2D → SwapchainSc → M (Result × SwapchainSc)
  init_images cfg extent s h =
      let e = d.swapchain_images h cfg.device s.swapchain in
      if not (is_success e.count_result) || e.count == 0
      then pure (k_vksc_swapchain_failed, record s { swapchain = 0; image_count = e.count }) h
      else let (r, got) = e.fetch (at_most max_images e.count) in
        let s1 = record s { images = overwrite got s.images; image_count = length got } in
        if not (is_success r)
        then pure (k_vksc_swapchain_failed, record s1 { swapchain = 0; image_count = 0 }) h
        else init_views cfg extent s1 h

  -- `Init` from the creation of the swapchain on.
  unfoldable pub init_swapchain :
      Config → SurfaceCapabilities → SwapchainSc → M (Result × SwapchainSc)
  init_swapchain cfg caps s = do
    let extent = select_extent cfg caps
    made ← create d cfg.device (
        swapchain_info (record {
          surface = cfg.surface;
          min_image_count = choose_image_count caps;
          image_format = cfg.required_format;
          image_extent = extent;
          pre_transform = caps.current_transform;
        }))
    let s1 = record s { swapchain = made.handle }
    if not (is_success made.result)
        then pure (k_vksc_swapchain_failed, s1)
        else init_images cfg extent s1

  -- `Init`
  unfoldable pub init : Config → SwapchainSc → M (Result × SwapchainSc)
  init cfg s h =
      if s.initialised
      then pure (k_already_initialised, s) h
      else if cfg.device == 0 || cfg.phys_device == 0 || cfg.surface == 0
      then pure (k_invalid_argument, s) h
      else let (caps_result, caps) = d.surface_capabilities h cfg.phys_device cfg.surface in
        let formats = d.surface_formats h cfg.phys_device cfg.surface in
        let (formats_result, got) = formats.fetch (at_most max_formats formats.count) in
        if not (is_success caps_result)
        then pure (k_vksc_swapchain_failed, s) h
        else if not (is_success formats.count_result) || formats.count == 0
        then pure (k_vksc_swapchain_failed, s) h
        else if not (is_success formats_result)
        then pure (k_vksc_swapchain_failed, s) h
        else if not (format_found cfg.required_format got)
        then pure (k_vksc_swapchain_failed, s) h
        else init_swapchain cfg caps s h
