-- ===== src/DisplayOutput.antt =====
-- engine/wsi/display_output.hpp and display_output.cpp: `DisplayOutput`, the display, mode and plane that
-- the picture goes to, and the surface on it. DisplayOutput/Choice is about the mode and the plane,
-- DisplayOutput/Life about `Init` and `Shutdown`.
pub mod Choice
pub mod Life
mod Examples
use soteria.Prelude.{
  ℕ, zero, suc, ◌+◌, ◌-◌, ◌*◌, ◌%◌, ◌^◌, Bool, true, false, not, ◌&&◌, ◌||◌, Option, none, some,
  List, [], ◌∷◌, get_or, ltb, ◌==◌, if◌then◌else◌, length,
}
use soteria.Result.{
  Result, k_ok, k_invalid_argument, k_vksc_no_display, k_vksc_surface_failed, k_already_initialised,
}
use soteria.Vulkan.Info.{Kind, Extent2D, DisplayMode, surface_info}
use soteria.Vulkan.{
  Driver, Enumeration, History, is_success, M, pure, ◌>>=◌, ◌>>◌, create, destroy_if_set,
}

pub record DisplayOutput : Type 0 where
  pub surface : ℕ
  pub vk_instance_handle : ℕ
  pub extent : Extent2D
  pub initialised : Bool

-- `ColorFormat`: `VK_FORMAT_B8G8R8A8_UNORM`
abbrev pub color_format : ℕ
color_format = 44

abbrev pub no_extent : Extent2D
no_extent = record { width = 0; height = 0 }

-- A new object.
abbrev pub fresh : DisplayOutput
fresh = record { surface = 0; vk_instance_handle = 0; extent = no_extent; initialised = false }

-- `kMaxDisplays`, `kMaxModes` and `kMaxPlanes`
abbrev pub max_displays : ℕ
max_displays = 4

abbrev pub max_modes : ℕ
max_modes = 16

abbrev pub max_planes : ℕ
max_planes = 8

-- The two calls of an enumeration into an array of `limit` elements: what the array got, or `none` if a
-- call failed or there is nothing.
unfoldable pub enumerate : {A : Type 0} (limit : ℕ) → Enumeration A → Option (List A)
enumerate limit e =
    if not (is_success e.count_result) || e.count == 0
    then none
    else let (r, got) = e.fetch (if ltb limit e.count then limit else e.count) in
      if not (is_success r) then none else some got

-- `ext.width * ext.height` in 32 bits.
abbrev pub pixels : DisplayMode → ℕ
pixels mode = (mode.visible_region.width * mode.visible_region.height) % 2 ^ 32

-- The loop over the modes, from the mode `m` on: the best index.
unfoldable pub best_mode : List DisplayMode → (m best_pixels best_index : ℕ) → ℕ
best_mode [] m best_pixels best_index = best_index
best_mode (mode ∷ modes) m best_pixels best_index =
    if ltb best_pixels (pixels mode)
    then best_mode modes (m + 1) (pixels mode) m
    else best_mode modes (m + 1) best_pixels best_index

-- The loop over the displays that a plane supports.
unfoldable pub supports : (display : ℕ) → List ℕ → Bool
supports display [] = false
supports display (supported ∷ displays) =
    let rest = supports display displays in if supported == display then true else rest

-- An array slot that no mode was written to.
abbrev pub no_mode : DisplayMode
no_mode = record { display_mode = 0; visible_region = no_extent }

-- `Shutdown`
unfoldable pub shutdown : DisplayOutput → M DisplayOutput
shutdown s = if not s.initialised then pure s else do
  destroy_if_set s.vk_instance_handle Kind.vk_surface s.surface
  pure (record s { surface = 0; vk_instance_handle = 0; extent = no_extent; initialised = false })

module _ (d : Driver) where
  -- The loop over the planes, from the plane `p` on, with `left` planes to go; `none` is `kInvalidIndex`.
  unfoldable pub choose_plane : History → (pd display : ℕ) → (left p : ℕ) → Option ℕ
  choose_plane h pd display zero p = none
  choose_plane h pd display (suc left) p =
      let rest = choose_plane h pd display left (p + 1) in
      elim (enumerate max_displays (d.plane_displays h pd p)) [
        | none ↦ rest
        | some displays ↦ if supports display displays then some p else rest
      ]

  -- `Init` once the mode and the plane are chosen.
  unfoldable pub init_surface :
      (vk_instance_handle : ℕ)
      → (mode : DisplayMode) → (plane stack_index : ℕ) → DisplayOutput
      → M (Result × DisplayOutput)
  init_surface inst mode plane stack_index s = do
    made ← create d inst (
        surface_info (record {
          display_mode = mode.display_mode;
          plane_index = plane;
          plane_stack_index = stack_index;
          image_extent = mode.visible_region;
        }))
    let s1 = record s { surface = made.handle }
    if not (is_success made.result)
        then pure (k_vksc_surface_failed, s1)
        else pure (k_ok, record s1 { extent = mode.visible_region; initialised = true })

  -- `Init`. `displays[0U]` is read even if the enumeration wrote nothing: the array is filled with nulls.
  unfoldable pub init : (vk_instance_handle pd : ℕ) → DisplayOutput → M (Result × DisplayOutput)
  init inst pd s h =
      if s.initialised
      then pure (k_already_initialised, s) h
      else if inst == 0 || pd == 0
      then pure (k_invalid_argument, s) h
      else let s1 = record s { vk_instance_handle = inst } in
        elim (enumerate max_displays (d.displays h pd)) [
          | none ↦ pure (k_vksc_no_display, s1) h
          | some displays ↦
              let display = get_or displays 0 0 in
              elim (enumerate max_modes (d.display_modes h pd display)) [
                | none ↦ pure (k_vksc_no_display, s1) h
                | some modes ↦ elim (enumerate max_planes (d.display_planes h pd)) [
                  | none ↦ pure (k_vksc_no_display, s1) h
                  | some planes ↦ elim (choose_plane h pd display (length planes) 0) [
                    | none ↦ pure (k_vksc_no_display, s1) h
                    | some plane ↦
                        init_surface inst (get_or modes (best_mode modes 0 0 0) no_mode) plane
                          (get_or planes plane 0) s1 h
                  ]
                ]
              ]
        ]
