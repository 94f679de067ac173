-- ===== src/DisplayOutput/Examples.antt =====
-- Runs of the display output.
use soteria.Prelude.{ℕ, ◌<◌, ◌≡◌, ◌⊎◌, refl, true, false, none, some, List, [], ◌∷◌, arith, get_or}
use soteria.Result.{is_ok}
use soteria.Vulkan.Info.{Kind, DisplayMode}
use soteria.Vulkan.{is_success, create}
use soteria.Vulkan.Live.{Object}
use soteria.Vulkan.Simulated.{driver, large_driver, listed-IsConforming, mode, many_modes}
use soteria.DisplayOutput.{
  fresh, init, init_surface, best_mode, choose_plane, enumerate, no_mode, supports,
}
use soteria.DisplayOutput.Choice.{IsFirstLargest, plane_supports, choose_plane_lem}
use soteria.DisplayOutput.Life.{surface_call, Chosen, init_rejects_modes, init_chooses}

abbrev surface : Object
surface = record { kind = Kind.vk_surface; handle = 6 }

init_rejects_modes_example : is_ok (init large_driver 2 11 fresh []).0.0 ≡ false
init_rejects_modes_example =
    init_rejects_modes large_driver 2 11 fresh [] (λ display. listed-IsConforming many_modes)
      (λ display. omega arith)

modes_example : best_mode (mode 31 640 480 ∷ mode 32 1280 720 ∷ mode 33 800 600 ∷ []) 0 0 0 ≡ 1
unfolding best_mode
modes_example = refl

init_chooses_example :
    (c : Chosen driver 2 11 fresh [] (init driver 2 11 fresh [])) × ((init driver 2 11 fresh []).1
      ≡ surface_call driver 2 11
          (get_or c.modes (best_mode c.modes 0 0 0) no_mode)
          c.plane
          (get_or c.planes c.plane 0)
          []
        ∷ [])
    × ((init driver 2 11 fresh []).0.1.initialised ≡ true)
    × ((init driver 2 11 fresh []).0.1.extent
        ≡ (get_or c.modes (best_mode c.modes 0 0 0) no_mode).visible_region)
    × IsFirstLargest c.modes (best_mode c.modes 0 0 0)
    × (plane_supports driver [] 11 (get_or c.displays 0 0) c.plane ≡ true)
    × ((p : ℕ) → p < c.plane → plane_supports driver [] 11 (get_or c.displays 0 0) p ≡ false)
unfolding init init_surface best_mode choose_plane enumerate supports create is_success
init_chooses_example = init_chooses driver 2 11 fresh [] refl

abbrev two_modes : List DisplayMode
two_modes = mode 31 640 480 ∷ mode 32 1280 720 ∷ []

choose_plane_lem_example :
    ((p : ℕ) × (choose_plane driver [] 11 21 2 0 ≡ some p)
      × (p < 2)
      × (plane_supports driver [] 11 21 p ≡ true)
      × ((j : ℕ) → j < p → plane_supports driver [] 11 21 j ≡ false))
    ⊎ ((choose_plane driver [] 11 21 2 0 ≡ none)
        × ((j : ℕ) → j < 2 → plane_supports driver [] 11 21 j ≡ false))
choose_plane_lem_example = choose_plane_lem driver [] 11 21 2
