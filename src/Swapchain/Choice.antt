-- ===== src/Swapchain/Choice.antt =====
-- engine/rendering/swapchain.cpp: the extent and the image count that `Init` asks for.
use soteria.Prelude.{
  ℕ, ◌+◌, ◌≤◌, ◌<◌, ◌≡◌, ◌≢◌, inl, inr, ◌⊎◌, arith, ◌==◌, if◌then◌else◌, Bool-cases, min, max,
  ==→eq,
}
use soteria.Vulkan.Info.{SurfaceCapabilities}
use soteria.Swapchain.{
  Config, at_most, at_least, select_extent, choose_image_count, undefined_extent, max_images,
}

-- The size `n` is in the bounds, and it is the one nearest to the wish.
abbrev IsClosest : (low high wish n : ℕ) → Type 0
IsClosest low high wish n = (low ≤ n) × (n ≤ high) × (n ≡ min high (max low wish))

at_most-at_least :
    (low high wish : ℕ) → low ≤ high → IsClosest low high wish (at_most high (at_least low wish))
unfolding at_most at_least
at_most-at_least low high wish h = (ground arith, ground arith, ground arith)

-- The size that is wished for: the caller's, or the fallback if the caller gives none.
abbrev pub wish : (preferred fallback : ℕ) → ℕ
wish preferred fallback = if preferred == 0 then fallback else preferred

-- For a surface whose least extent is not above its greatest: the surface's own extent is taken if it has
-- one; otherwise the width and the height are in the surface's bounds, and each is nearest to the
-- preferred one, which is 1280 by 720 where there is no preference.
pub select_extent_lem :
    (cfg : Config) (caps : SurfaceCapabilities)
    → caps.min_image_extent.width ≤ caps.max_image_extent.width
    → caps.min_image_extent.height ≤ caps.max_image_extent.height
    → ((caps.current_extent.width ≢ undefined_extent)
        × (select_extent cfg caps ≡ caps.current_extent))
      ⊎ ((caps.current_extent.width ≡ undefined_extent)
          × IsClosest caps.min_image_extent.width caps.max_image_extent.width
              (wish cfg.preferred_width 1280)
              (select_extent cfg caps).width
          × IsClosest caps.min_image_extent.height caps.max_image_extent.height
              (wish cfg.preferred_height 720)
              (select_extent cfg caps).height)
unfolding select_extent
select_extent_lem cfg caps hw hh =
    let w =
      at_most-at_least caps.min_image_extent.width caps.max_image_extent.width
        (wish cfg.preferred_width 1280) hw in
    let v =
      at_most-at_least caps.min_image_extent.height caps.max_image_extent.height
        (wish cfg.preferred_height 720) hh in
    elim (Bool-cases (caps.current_extent.width == undefined_extent)) [
      | inr given ↦ inl ((λ e. ground (arith, e, given)), ground (arith, given))
      | inl free ↦ inr (
        ==→eq caps.current_extent.width undefined_extent free,
        (ground (arith, free, w), ground (arith, free, w), ground (arith, free, w)),
        (ground (arith, free, v), ground (arith, free, v), ground (arith, free, v)),
      )
    ]

-- For a surface whose minimal image count is at most `kMaxImages`, and at most its maximum where it has one:
-- the count that is asked for is between the minimum and `kMaxImages`, at most one above the minimum,
-- and at most the maximum where there is one.
pub choose_image_count_lem :
    (caps : SurfaceCapabilities)
    → caps.min_image_count ≤ max_images
    → (caps.max_image_count ≡ 0) ⊎ (caps.min_image_count ≤ caps.max_image_count)
    → (caps.min_image_count ≤ choose_image_count caps)
      × (choose_image_count caps ≤ max_images)
      × (choose_image_count caps ≤ caps.min_image_count + 1)
      × ((caps.max_image_count ≡ 0) ⊎ (choose_image_count caps ≤ caps.max_image_count))
unfolding choose_image_count at_most
choose_image_count_lem caps few (inl e) = (ground arith, ground arith, ground arith, inl e)
choose_image_count_lem caps few (inr e) = (
  ground arith,
  ground arith,
  ground arith,
  elim (Bool-cases (caps.max_image_count == 0)) [
    | inl unlimited ↦ inl (==→eq caps.max_image_count 0 unlimited)
    | inr limited ↦ inr (ground (arith, limited))
  ],
)

-- For a surface whose minimal image count is above `kMaxImages`, the count that is asked for is below that
-- minimum.
pub choose_image_count_short :
    (caps : SurfaceCapabilities)
    → max_images < caps.min_image_count
    → choose_image_count caps < caps.min_image_count
unfolding choose_image_count at_most
choose_image_count_short caps more = ground arith
