-- ===== src/Main/Starting.antt =====
-- engine/core/vksc_context.cpp, engine/wsi/display_output.cpp, engine/rendering/swapchain.cpp: how many
-- objects of each kind `Init` creates at most.
use soteria.Prelude.{
  ℕ, ◌+◌, ◌*◌, ◌≤◌, ◌≡◌, refl, ◌∙◌, Bool, not, none, some, List, [], ◌∷◌, ◌++◌, take, length,
  get_or, arith, inl, inr, subst, sym, if_elim, option_elim,
}
use soteria.Result.{Result}
use soteria.Vulkan.Info.{
  Kind, kind_of, DisplayMode, SurfaceCapabilities, Extent2D, device_info, instance_info,
  surface_info, swapchain_info, image_view_info,
}
use soteria.Vulkan.{Driver, History, M, is_success, create, destroy}
use soteria.Vulkan.Made.{same, made, made-destroy, made-create, IsAtMost}
use soteria.Context
use soteria.DisplayOutput
use soteria.DisplayOutput.Life.{init-Outcome}
use soteria.Swapchain

module _ (d : Driver) (k : Kind) where
  init_device-IsAtMost :
      (cfg : Context.VkscContextConfig) (c : Context.VkscContext)
      → IsAtMost k (same Kind.vk_device k) (Context.init_device d cfg c)
  unfolding Context.init_device kind_of
  init_device-IsAtMost cfg c h =
      let info = device_info (record {
        queue_family_index = c.graphics_queue_family;
        reservation = cfg.resources;
        pipeline_cache_info_count = cfg.pipeline_cache_info_count;
        pipeline_pool_size_count = cfg.pipeline_pool_size_count;
        enabled_extensions = take cfg.device_extension_count cfg.device_extensions;
      }) in
      let h1 = (create d c.physical_device info h).1 in
      ground (
        arith,
        made-create d c.physical_device info h k,
        made-destroy 0 Kind.vk_instance c.vk_instance_handle h1 k,
      )

  init_selected-IsAtMost :
      (cfg : Context.VkscContextConfig) (c : Context.VkscContext)
      → IsAtMost k (same Kind.vk_device k) (Context.init_selected d cfg c)
  unfolding Context.init_selected
  init_selected-IsAtMost cfg c h =
      let (r, selected) =
        Context.select_physical_device d h c.vk_instance_handle cfg.preferred_driver_id
          cfg.max_physical_devices in
      option_elim
        (λ (z : (Result × Context.VkscContext) × History).
          made k z.1 ≤ made k h + same Kind.vk_device k)
        selected
        (λ missing. omega (arith, made-destroy 0 Kind.vk_instance c.vk_instance_handle h k))
        (λ (pd, family) found.
          init_device-IsAtMost cfg
            (Context.capture_identity d h
              (record c { physical_device = pd; graphics_queue_family = family }))
            h)

  pub context_init-IsAtMost :
      (cfg : Context.VkscContextConfig) (c : Context.VkscContext)
      → IsAtMost k (same Kind.vk_instance k + same Kind.vk_device k) (Context.init d cfg c)
  unfolding Context.init kind_of
  context_init-IsAtMost cfg c h =
      let info = instance_info (record {
        application_name = elim cfg.app_name [ none ↦ "soteria-app" | some name ↦ name ];
        engine_name = elim cfg.engine_name [ none ↦ "soteria" | some name ↦ name ];
        enabled_extensions = take cfg.instance_extension_count cfg.instance_extensions;
      }) in
      let (new, h1) = create d 0 info h in
      let c1 = record c { vk_instance_handle = new.handle } in
      ground (arith, made-create d 0 info h k, init_selected-IsAtMost cfg c1 h1)

  init_surface-IsAtMost :
      (inst : ℕ) (mode : DisplayMode) (plane stack_index : ℕ) (s : DisplayOutput.DisplayOutput)
      → IsAtMost k
          (same Kind.vk_surface k)
          (DisplayOutput.init_surface d inst mode plane stack_index s)
  unfolding DisplayOutput.init_surface kind_of
  init_surface-IsAtMost inst mode plane stack_index s h =
      let info = surface_info (record {
        display_mode = mode.display_mode;
        plane_index = plane;
        plane_stack_index = stack_index;
        image_extent = mode.visible_region;
      }) in
      ground (arith, made-create d inst info h k)

  pub display_init-IsAtMost :
      (inst pd : ℕ) (s : DisplayOutput.DisplayOutput)
      → IsAtMost k (same Kind.vk_surface k) (DisplayOutput.init d inst pd s)
  display_init-IsAtMost inst pd s h =
      let P : (Result × DisplayOutput.DisplayOutput) × History → Type 0 =
        λ z. made k z.1 ≤ made k h + same Kind.vk_surface k in
      elim (init-Outcome d inst pd s h) [
        | inl (r, s', e, _, _, _) ↦ subst P (sym e) (omega arith)
        | inr (new, chosen) ↦ subst P (sym chosen.rest_same) (
            init_surface-IsAtMost inst
              (get_or chosen.modes (DisplayOutput.best_mode chosen.modes 0 0 0)
                DisplayOutput.no_mode)
              chosen.plane (get_or chosen.planes chosen.plane 0)
              (record s { vk_instance_handle = inst }) h)
      ]

  destroy_views-made :
      (device : ℕ) (views : List ℕ) (h : History)
      → made k (Swapchain.destroy_views device views h).1 ≡ made k h
  unfolding Swapchain.destroy_views
  destroy_views-made device [] h = refl
  destroy_views-made device (view ∷ views) h =
      let h1 = (destroy device Kind.vk_image_view view h).1 in
      destroy_views-made device views h1 ∙ made-destroy device Kind.vk_image_view view h k

  create_views-IsAtMost :
      (device format : ℕ) (done images slots : List ℕ)
      → IsAtMost k
          (length slots * same Kind.vk_image_view k)
          (Swapchain.create_views d device format done images slots)
  unfolding Swapchain.create_views kind_of
  create_views-IsAtMost device format done [] slots h = omega arith
  create_views-IsAtMost device format done (image ∷ images) [] h = omega arith
  create_views-IsAtMost device format done (image ∷ images) (slot ∷ slots) h =
      let (view, h1) = create d device (image_view_info image format) h in
      let new = made-create d device (image_view_info image format) h k in
      let back = destroy_views-made device done h1 in
      let rest = create_views-IsAtMost device format (done ++ view.handle ∷ []) images slots h1 in
      if_elim
        (λ (m : M (Bool × List ℕ)).
          made k (m h1).1 ≤ made k h + length (slot ∷ slots) * same Kind.vk_image_view k)
        (not (is_success view.result)) (λ failed. grind (arith, back, new))
        (λ made_it. grind (arith, rest, new))

  init_views-IsAtMost :
      (cfg : Swapchain.Config) (extent : Extent2D) (s : Swapchain.SwapchainSc)
      → IsAtMost k
          (length s.image_views * same Kind.vk_image_view k)
          (Swapchain.init_views d cfg extent s)
  unfolding Swapchain.init_views
  init_views-IsAtMost cfg extent s h = ground (
    arith,
    create_views-IsAtMost cfg.device cfg.required_format [] (take s.image_count s.images)
        s.image_views h,
  )

  init_images-IsAtMost :
      (cfg : Swapchain.Config) (extent : Extent2D) (s : Swapchain.SwapchainSc)
      → IsAtMost k
          (length s.image_views * same Kind.vk_image_view k)
          (Swapchain.init_images d cfg extent s)
  unfolding Swapchain.init_images
  init_images-IsAtMost cfg extent s h =
      let e = d.swapchain_images h cfg.device s.swapchain in
      let (r, got) = e.fetch (Swapchain.at_most Swapchain.max_images e.count) in
      let s1 = record s { images = Swapchain.overwrite got s.images; image_count = length got } in
      ground (arith, init_views-IsAtMost cfg extent s1 h)

  init_swapchain-IsAtMost :
      (cfg : Swapchain.Config) (caps : SurfaceCapabilities) (s : Swapchain.SwapchainSc)
      → IsAtMost k
          (same Kind.vk_swapchain k + length s.image_views * same Kind.vk_image_view k)
          (Swapchain.init_swapchain d cfg caps s)
  unfolding Swapchain.init_swapchain kind_of
  init_swapchain-IsAtMost cfg caps s h =
      let extent = Swapchain.select_extent cfg caps in
      let info = swapchain_info (record {
        surface = cfg.surface;
        min_image_count = Swapchain.choose_image_count caps;
        image_format = cfg.required_format;
        image_extent = extent;
        pre_transform = caps.current_transform;
      }) in
      let (new, h1) = create d cfg.device info h in
      let s1 = record s { swapchain = new.handle } in
      ground (arith, made-create d cfg.device info h k, init_images-IsAtMost cfg extent s1 h1)

  pub swapchain_init-IsAtMost :
      (cfg : Swapchain.Config) (s : Swapchain.SwapchainSc)
      → IsAtMost k
          (same Kind.vk_swapchain k + length s.image_views * same Kind.vk_image_view k)
          (Swapchain.init d cfg s)
  unfolding Swapchain.init
  swapchain_init-IsAtMost cfg s h =
      let (caps_result, caps) = d.surface_capabilities h cfg.phys_device cfg.surface in
      ground (arith, init_swapchain-IsAtMost cfg caps s h)
