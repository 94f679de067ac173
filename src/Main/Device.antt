-- ===== src/Main/Device.antt =====
-- app/main.cpp and engine/core/vksc_context.cpp: a context that is initialised has a device.
use soteria.Prelude.{
  ℕ, ◌≡◌, ◌≢◌, refl, sym, ◌∙◌, true, false, not, none, some, take, arith, if_elim, option_elim,
}
use soteria.Result.{Result, is_ok}
use soteria.Vulkan.Info.{CreateInfo, device_info, instance_info}
use soteria.Vulkan.{Driver, History, M, create, is_success}
use soteria.Context

-- What the accounting asks of the driver: a creation that succeeds does not give the null handle.
pub record IsRegular (d : Driver) : Type 0 where
  pub gives_handle :
      (h : History) (owner : ℕ) (info : CreateInfo)
      → is_success (d.creates h owner info).result ≡ true
      → (d.creates h owner info).handle ≢ 0

-- A context that was initialised has a device.
abbrev pub HasDevice : (Result × Context.VkscContext) × History → Type 0
HasDevice ((r, c), h) = (is_ok r ≡ c.initialised) × (is_ok r ≡ true → c.device ≢ 0)

module _ (d : Driver) (regular : IsRegular d) where
  init_device-HasDevice :
      (cfg : Context.VkscContextConfig) (c : Context.VkscContext) (h : History)
      → c.initialised ≡ false
      → HasDevice (Context.init_device d cfg c h)
  unfolding Context.init_device create
  init_device-HasDevice cfg c h new =
      let info = device_info (record {
        queue_family_index = c.graphics_queue_family;
        reservation = cfg.resources;
        pipeline_cache_info_count = cfg.pipeline_cache_info_count;
        pipeline_pool_size_count = cfg.pipeline_pool_size_count;
        enabled_extensions = take cfg.device_extension_count cfg.device_extensions;
      }) in
      let given = regular.gives_handle h c.physical_device info in
      (ground (arith, new), λ ok. ground (arith, ok, given))

  select_none :
      (h : History) (inst preferred max_devices : ℕ)
      → (Context.select_physical_device d h inst preferred max_devices).1 ≡ none
      → is_ok (Context.select_physical_device d h inst preferred max_devices).0 ≡ false
  unfolding Context.select_physical_device
  select_none h inst preferred max_devices missing = ground (arith, missing)

  init_selected-HasDevice :
      (cfg : Context.VkscContextConfig) (c : Context.VkscContext) (h : History)
      → c.initialised ≡ false
      → HasDevice (Context.init_selected d cfg c h)
  unfolding Context.init_selected Context.capture_identity
  init_selected-HasDevice cfg c h new =
      option_elim HasDevice
        (Context.select_physical_device d h c.vk_instance_handle cfg.preferred_driver_id
          cfg.max_physical_devices).1
        (λ missing.
          let failed =
            select_none h c.vk_instance_handle cfg.preferred_driver_id cfg.max_physical_devices
              missing in
          (failed ∙ sym new, λ ok. ground (arith, ok, failed)))
        (λ (pd, family) found.
          init_device-HasDevice cfg
            (Context.capture_identity d h
              (record c { physical_device = pd; graphics_queue_family = family }))
            h new)

  pub init_context-HasDevice :
      (cfg : Context.VkscContextConfig) (h : History)
      → HasDevice (Context.init d cfg Context.fresh h)
  unfolding Context.init
  init_context-HasDevice cfg h =
      let info = instance_info (record {
        application_name = elim cfg.app_name [ none ↦ "soteria-app" | some name ↦ name ];
        engine_name = elim cfg.engine_name [ none ↦ "soteria" | some name ↦ name ];
        enabled_extensions = take cfg.instance_extension_count cfg.instance_extensions;
      }) in
      let (made, h1) = create d 0 info h in
      let c1 = record Context.fresh { vk_instance_handle = made.handle } in
      if_elim (λ (m : M (Result × Context.VkscContext)). HasDevice (m h1))
        (not (is_success made.result)) (λ failed. (refl, λ ok. ground (arith, ok)))
        (λ done. init_selected-HasDevice cfg c1 h1 refl)
