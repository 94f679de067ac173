-- ===== src/DisplayOutput/Life.antt =====
-- engine/wsi/display_output.cpp: `Init` and `Shutdown` account for the surface, and what a surface that
-- was created is made of.
use soteria.Prelude.{
  ◌∷◌, ℕ, ◌+◌, ◌<◌, ◌≡◌, refl, sym, ap, subst, ◌∙◌, inl, inr, ◌⊎◌, true, false, ◌||◌, none, some,
  List, arith, length, get_or, ◌==◌, if◌then◌else◌, Bool-cases, if_elim, option_elim,
}
use soteria.Result.{Result, k_invalid_argument, k_vksc_no_display, k_already_initialised, is_ok}
use soteria.Vulkan.Info.{Kind, kind_of, DisplayMode, surface_info}
use soteria.Vulkan.{Driver, History, Event, created, Enumeration, create, is_success}
use soteria.Vulkan.Live.{Object, one, live, live-create, live-destroy_if_set}
use soteria.Vulkan.Enumerate.{IsConforming}
use soteria.DisplayOutput.Choice.{
  IsFirstLargest, best_mode-IsFirstLargest, plane_supports, choose_plane-some,
}
use soteria.DisplayOutput.{
  DisplayOutput, max_displays, max_modes, max_planes, enumerate, best_mode, no_mode, choose_plane,
  init_surface, init, shutdown,
}

-- The surface that an initialised object owns.
abbrev pub display_owned : DisplayOutput → Object → ℕ
display_owned s o = if s.initialised then one Kind.vk_surface s.surface o else 0

-- Where an object is alive as often as the `DisplayOutput` owns it, and `rest` times more, `Shutdown` leaves
-- it alive `rest` times more than the `DisplayOutput` owns it afterwards.
pub display_shutdown-live :
    (s : DisplayOutput) (h : History) (o : Object) (rest : ℕ)
    → live h o ≡ display_owned s o + rest
    → live (shutdown s h).1 o ≡ display_owned (shutdown s h).0 o + rest
unfolding shutdown
display_shutdown-live s h o rest e =
    ground (arith, live-destroy_if_set s.vk_instance_handle Kind.vk_surface s.surface h o)

-- An enumeration that counts more than the array has room for gives nothing.
enumerate_rejects :
    {A : Type 0} (limit : ℕ) (e : Enumeration A)
    → IsConforming e
    → limit < e.count
    → enumerate limit e ≡ none
unfolding enumerate
enumerate_rejects limit e c more = ground (arith, more, c.truncated limit more)

module _ (d : Driver) (inst pd : ℕ) where
  -- `z`, the outcome of `Init`, comes from the creation of the surface, with what was found before.
  pub record Chosen (s : DisplayOutput) (h : History) (z : (Result × DisplayOutput) × History)
      : Type 0 where
    pub displays : List ℕ
    pub modes : List DisplayMode
    pub planes : List ℕ
    pub plane : ℕ
    pub displays_found : enumerate max_displays (d.displays h pd) ≡ some displays
    pub modes_found : enumerate max_modes (d.display_modes h pd (get_or displays 0 0)) ≡ some modes
    pub planes_found : enumerate max_planes (d.display_planes h pd) ≡ some planes
    pub plane_found : choose_plane d h pd (get_or displays 0 0) (length planes) 0 ≡ some plane
    pub rest_same :
        z
        ≡ init_surface d inst
            (get_or modes (best_mode modes 0 0 0) no_mode)
            plane
            (get_or planes plane 0)
            (record s { vk_instance_handle = inst })
            h

  -- An outcome of `Init` is a failure before it calls the driver's creation, or comes from the creation.
  abbrev pub Outcome : DisplayOutput → History → (Result × DisplayOutput) × History → Type 0
  Outcome s h z =
      ((r : Result) × (s' : DisplayOutput) × (z ≡ ((r, s'), h))
        × (is_ok r ≡ false)
        × (s'.initialised ≡ s.initialised)
        × (s'.surface ≡ s.surface))
      ⊎ ((s.initialised ≡ false) × Chosen s h z)

  pub init-Outcome : (s : DisplayOutput) (h : History) → Outcome s h (init d inst pd s h)
  unfolding init
  init-Outcome s h =
      let P = Outcome s h in
      let s1 = record s { vk_instance_handle = inst } in
      let failed : P ((k_vksc_no_display, s1), h) =
        inl (k_vksc_no_display, s1, refl, refl, refl, refl) in
      if_elim P s.initialised (λ on. inl (k_already_initialised, s, refl, refl, refl, refl))
        (λ new.
          if_elim P (inst == 0 || pd == 0)
            (λ null. inl (k_invalid_argument, s, refl, refl, refl, refl))
            (λ g.
              option_elim P (enumerate max_displays (d.displays h pd)) (λ missing. failed)
                (λ displays has_displays.
                  let display = get_or displays 0 0 in
                  option_elim P (enumerate max_modes (d.display_modes h pd display))
                    (λ missing. failed)
                    (λ modes has_modes.
                      option_elim P (enumerate max_planes (d.display_planes h pd))
                        (λ missing. failed)
                        (λ planes has_planes.
                          option_elim P (choose_plane d h pd display (length planes) 0)
                            (λ missing. failed)
                            (λ plane has_plane. inr (
                              new,
                              record {
                                displays = displays;
                                modes = modes;
                                planes = planes;
                                plane = plane;
                                displays_found = has_displays;
                                modes_found = has_modes;
                                planes_found = has_planes;
                                plane_found = has_plane;
                                rest_same = refl;
                              },
                            )))))))

  init_surface-live :
      (mode : DisplayMode) (plane stack_index : ℕ) (s : DisplayOutput) (h : History) (o : Object)
      (rest : ℕ)
      → s.initialised ≡ false
      → live h o ≡ rest
      → live (init_surface d inst mode plane stack_index s h).1 o
        ≡ display_owned (init_surface d inst mode plane stack_index s h).0.1 o + rest
  unfolding init_surface kind_of
  init_surface-live mode plane stack_index s h o rest new e =
      let info = surface_info (record {
        display_mode = mode.display_mode;
        plane_index = plane;
        plane_stack_index = stack_index;
        image_extent = mode.visible_region;
      }) in
      ground (arith, new, e, live-create d inst info h o)

  -- Where an object is alive as often as the `DisplayOutput` owns it, and `rest` times more, `Init` leaves it
  -- alive `rest` times more than the `DisplayOutput` owns it afterwards, whether `Init` succeeds or
  -- fails at any point.
  pub display_init-live :
      (s : DisplayOutput) (h : History) (o : Object) (rest : ℕ)
      → live h o ≡ display_owned s o + rest
      → live (init d inst pd s h).1 o ≡ display_owned (init d inst pd s h).0.1 o + rest
  display_init-live s h o rest e =
      let Q : (Result × DisplayOutput) × History → Type 0 =
        λ z. live z.1 o ≡ display_owned z.0.1 o + rest in
      elim (init-Outcome s h) [
        | inl (r, s', same, f, on, surface) ↦ subst Q (sym same) (ground (arith, e, on, surface))
        | inr (new, c) ↦ subst Q (sym c.rest_same) (
            init_surface-live (get_or c.modes (best_mode c.modes 0 0 0) no_mode) c.plane
              (get_or c.planes c.plane 0) (record s { vk_instance_handle = inst }) h o rest new
              (ground (arith, e, new)))
      ]

  -- A display with more than `kMaxModes` modes is of no use, if the driver's enumeration of the modes
  -- is conforming: the count is cut to the room there is, the driver's answer to the cut count is
  -- `VK_INCOMPLETE`, and `Init` takes it as a failure.
  pub init_rejects_modes :
      (s : DisplayOutput) (h : History)
      → ((display : ℕ) → IsConforming (d.display_modes h pd display))
      → ((display : ℕ) → max_modes < (d.display_modes h pd display).count)
      → is_ok (init d inst pd s h).0.0 ≡ false
  init_rejects_modes s h conforming more = elim (init-Outcome s h) [
    | inl (r, s', same, f, on, surface) ↦ ap (λ z. is_ok z.0.0) same ∙ f
    | inr (new, c) ↦
        let display = get_or c.displays 0 0 in
        let missing =
          enumerate_rejects max_modes (d.display_modes h pd display) (conforming display)
            (more display) in
        ground (arith, sym missing ∙ c.modes_found)
  ]

  -- An outcome that is a success shows the mode.
  abbrev IsShown : DisplayMode → (Result × DisplayOutput) × History → Type 0
  IsShown mode ((r, s), h) =
      is_ok r ≡ true → (s.initialised ≡ true) × (s.extent ≡ mode.visible_region)

  init_surface-IsShown :
      (mode : DisplayMode) (plane stack_index : ℕ) (s : DisplayOutput) (h : History)
      → IsShown mode (init_surface d inst mode plane stack_index s h)
  unfolding init_surface
  init_surface-IsShown mode plane stack_index s h =
      let info = surface_info (record {
        display_mode = mode.display_mode;
        plane_index = plane;
        plane_stack_index = stack_index;
        image_extent = mode.visible_region;
      }) in
      elim (Bool-cases (is_success (create d inst info h).0.result)) [
        | inl made ↦ rw made (λ ok. (refl, refl))
        | inr failed ↦ rw failed (λ ok. ground (arith, ok))
      ]

  -- The call that creates the surface for a mode, on a plane with its place in the stack.
  abbrev pub surface_call : DisplayMode → (plane stack_index : ℕ) → History → Event
  surface_call mode plane stack_index h =
      let info = surface_info (record {
        display_mode = mode.display_mode;
        plane_index = plane;
        plane_stack_index = stack_index;
        image_extent = mode.visible_region;
      }) in
      created inst info (d.creates h inst info)

  init_surface-call :
      (mode : DisplayMode) (plane stack_index : ℕ) (s : DisplayOutput) (h : History)
      → (init_surface d inst mode plane stack_index s h).1
        ≡ surface_call mode plane stack_index h ∷ h
  unfolding init_surface create
  init_surface-call mode plane stack_index s h =
      let r = surface_call mode plane stack_index h in
      elim (Bool-cases (
        is_success
          (d.creates h inst (
            surface_info (record {
              display_mode = mode.display_mode;
              plane_index = plane;
              plane_stack_index = stack_index;
              image_extent = mode.visible_region;
            }))).result)) [ inl made ↦ rw made refl | inr failed ↦ rw failed refl ]

  pub init_chooses :
      (s : DisplayOutput) (h : History)
      → is_ok (init d inst pd s h).0.0 ≡ true
      → (c : Chosen s h (init d inst pd s h)) × ((init d inst pd s h).1
          ≡ surface_call
              (get_or c.modes (best_mode c.modes 0 0 0) no_mode)
              c.plane
              (get_or c.planes c.plane 0)
              h
            ∷ h)
        × ((init d inst pd s h).0.1.initialised ≡ true)
        × ((init d inst pd s h).0.1.extent
            ≡ (get_or c.modes (best_mode c.modes 0 0 0) no_mode).visible_region)
        × IsFirstLargest c.modes (best_mode c.modes 0 0 0)
        × (plane_supports d h pd (get_or c.displays 0 0) c.plane ≡ true)
        × ((p : ℕ) → p < c.plane → plane_supports d h pd (get_or c.displays 0 0) p ≡ false)
  init_chooses s h ok = elim (init-Outcome s h) [
    | inl (r, s', same, f, on, surface) ↦ ground (arith, sym ok ∙ ap (λ z. is_ok z.0.0) same ∙ f)
    | inr (new, c) ↦
        let mode = get_or c.modes (best_mode c.modes 0 0 0) no_mode in
        let (on, size) =
          subst (IsShown mode) (sym c.rest_same)
            (init_surface-IsShown mode c.plane (get_or c.planes c.plane 0)
              (record s { vk_instance_handle = inst }) h)
            ok in
        let (good, before) =
          choose_plane-some d h pd (get_or c.displays 0 0) (length c.planes) c.plane
            c.plane_found in
        let called =
          ap (λ z. z.1) c.rest_same
          ∙ init_surface-call mode c.plane (get_or c.planes c.plane 0)
              (record s { vk_instance_handle = inst }) h in
        (c, called, on, size, best_mode-IsFirstLargest c.modes, good, before)
  ]
