-- ===== src/Context/Life.antt =====
-- engine/core/vksc_context.cpp: `Init` and `Shutdown` account for the instance and the device.
use soteria.Prelude.{
  ℕ, ◌+◌, ◌≡◌, ◌≢◌, true, false, not, none, some, ◌∷◌, arith, take, if◌then◌else◌, if_elim,
  option_elim,
}
use soteria.Result.{Result}
use soteria.Vulkan.Info.{Kind, kind_of, instance_info, device_info, device_wait_idle}
use soteria.Vulkan.{
  Driver, History, M, create, run, destroy, destroy_if_set, is_success, destroyed, ran,
}
use soteria.Vulkan.Live.{
  Object, one, live, live-create, live-run, live-destroy, live-destroy_if_set, one-null,
}
use soteria.Context.{
  VkscContext, VkscContextConfig, init_device, init_selected, init, shutdown_device, shutdown,
  capture_identity, select_physical_device,
}

-- The objects that an initialised context owns: the device and the instance.
abbrev pub context_owned : VkscContext → Object → ℕ
context_owned c o =
    if c.initialised
    then one Kind.vk_device c.device o + one Kind.vk_instance c.vk_instance_handle o
    else 0

module _ (d : Driver) where
  -- Where an object is alive as often as the context owns it, and `rest` times more, `Shutdown` leaves it alive
  -- `rest` times more than the context owns it afterwards.
  pub context_shutdown-live :
      (c : VkscContext) (h : History) (o : Object) (rest : ℕ)
      → live h o ≡ context_owned c o + rest
      → live (shutdown d c h).1 o ≡ context_owned (shutdown d c h).0 o + rest
  unfolding shutdown shutdown_device
  context_shutdown-live c h o rest e =
      let h1 = (run d (device_wait_idle c.device) h).1 in
      let h2 = (destroy 0 Kind.vk_device c.device h1).1 in
      ground (
        arith,
        live-run d (device_wait_idle c.device) h o,
        live-destroy 0 Kind.vk_device c.device h1 o,
        live-destroy_if_set 0 Kind.vk_instance c.vk_instance_handle h2 o,
        live-destroy_if_set 0 Kind.vk_instance c.vk_instance_handle h o,
        one-null Kind.vk_device o,
      )

  -- `Shutdown` of an initialised context with both handles waits until the device is idle, whatever the
  -- wait answers, then destroys the device, and the instance last.
  pub shutdown_order :
      (c : VkscContext) (h : History)
      → c.initialised ≡ true
      → c.device ≢ 0
      → c.vk_instance_handle ≢ 0
      → (shutdown d c h).1
        ≡ destroyed 0 Kind.vk_instance c.vk_instance_handle
          ∷ destroyed 0 Kind.vk_device c.device
          ∷ ran (device_wait_idle c.device) (d.runs h (device_wait_idle c.device))
          ∷ h
  unfolding shutdown shutdown_device run destroy destroy_if_set
  shutdown_order c h on has_device has_instance = ground arith

  init_device-live :
      (cfg : VkscContextConfig) (c : VkscContext) (h : History) (o : Object) (rest : ℕ)
      → c.initialised ≡ false
      → live h o ≡ one Kind.vk_instance c.vk_instance_handle o + rest
      → live (init_device d cfg c h).1 o ≡ context_owned (init_device d cfg c h).0.1 o + rest
  unfolding init_device kind_of
  init_device-live cfg c h o rest new e =
      let info = device_info (record {
        queue_family_index = c.graphics_queue_family;
        reservation = cfg.resources;
        pipeline_cache_info_count = cfg.pipeline_cache_info_count;
        pipeline_pool_size_count = cfg.pipeline_pool_size_count;
        enabled_extensions = take cfg.device_extension_count cfg.device_extensions;
      }) in
      let (made, h1) = create d c.physical_device info h in
      ground (
        arith,
        new,
        e,
        live-create d c.physical_device info h o,
        live-destroy 0 Kind.vk_instance c.vk_instance_handle h1 o,
      )

  init_selected-live :
      (cfg : VkscContextConfig) (c : VkscContext) (h : History) (o : Object) (rest : ℕ)
      → c.initialised ≡ false
      → live h o ≡ one Kind.vk_instance c.vk_instance_handle o + rest
      → live (init_selected d cfg c h).1 o ≡ context_owned (init_selected d cfg c h).0.1 o + rest
  unfolding init_selected capture_identity
  init_selected-live cfg c h o rest new e =
      option_elim
        (λ (z : (Result × VkscContext) × History). live z.1 o ≡ context_owned z.0.1 o + rest)
        (select_physical_device d h c.vk_instance_handle cfg.preferred_driver_id
          cfg.max_physical_devices).1
        (λ none_found.
          ground (arith, new, e, live-destroy 0 Kind.vk_instance c.vk_instance_handle h o))
        (λ (pd, family) found.
          init_device-live cfg
            (capture_identity d h
              (record c { physical_device = pd; graphics_queue_family = family }))
            h o rest new e)

  -- Where an object is alive as often as the context owns it, and `rest` times more, `Init` leaves it alive
  -- `rest` times more than the context owns it afterwards, whether `Init` succeeds or fails at any
  -- point.
  pub context_init-live :
      (cfg : VkscContextConfig) (c : VkscContext) (h : History) (o : Object) (rest : ℕ)
      → live h o ≡ context_owned c o + rest
      → live (init d cfg c h).1 o ≡ context_owned (init d cfg c h).0.1 o + rest
  unfolding init kind_of
  context_init-live cfg c h o rest e =
      let info = instance_info (record {
        application_name = elim cfg.app_name [ none ↦ "soteria-app" | some name ↦ name ];
        engine_name = elim cfg.engine_name [ none ↦ "soteria" | some name ↦ name ];
        enabled_extensions = take cfg.instance_extension_count cfg.instance_extensions;
      }) in
      let (made, h1) = create d 0 info h in
      let c1 = record c { vk_instance_handle = made.handle } in
      let counted = live-create d 0 info h o in
      let P : (Result × VkscContext) × History → Type 0 =
        λ z. live z.1 o ≡ context_owned z.0.1 o + rest in
      if_elim (λ (m : M (Result × VkscContext)). P (m h)) c.initialised (λ on. e)
        (λ new.
          if_elim (λ (m : M (Result × VkscContext)). P (m h1)) (not (is_success made.result))
            (λ failed. ground (arith, new, failed, e, counted))
            (λ ok. init_selected-live cfg c1 h1 o rest new (ground (arith, new, ok, e, counted))))
