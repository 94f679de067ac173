-- ===== src/PipelineCache/Life.antt =====
-- engine/rendering/pipeline_cache.cpp: `PipelineCacheSc::Init` and `Shutdown` account for the cache
-- object, and no blob that fails the validation reaches the driver.
use soteria.Prelude.{ℕ, ◌+◌, ◌≡◌, false, Option, List, arith, if◌then◌else◌}
use soteria.Result.{is_ok}
use soteria.Vulkan.Info.{Kind, kind_of, pipeline_cache_info}
use soteria.Vulkan.{Driver, History}
use soteria.Vulkan.Live.{Object, one, live, live-create, live-destroy_if_set}
use soteria.PipelineCache.{
  PipelineCacheSc, Versions, bytes_of, init, shutdown, validate_pipeline_cache_header,
}

-- The objects that an initialised `PipelineCacheSc` owns.
abbrev pub cache_owned : PipelineCacheSc → Object → ℕ
cache_owned c o = if c.initialised then one Kind.vk_pipeline_cache c.cache o else 0

-- Where an object is alive as often as the `PipelineCacheSc` owns it, and `rest` times more, `Shutdown`
-- leaves it alive `rest` times more than the `PipelineCacheSc` owns it afterwards.
pub cache_shutdown-live :
    (device : ℕ) (c : PipelineCacheSc) (h : History) (o : Object) (rest : ℕ)
    → live h o ≡ cache_owned c o + rest
    → live (shutdown device c h).1 o ≡ cache_owned (shutdown device c h).0 o + rest
unfolding shutdown
cache_shutdown-live device c h o rest e =
    ground (arith, live-destroy_if_set device Kind.vk_pipeline_cache c.cache h o)

module _ (d : Driver) (v : Versions) where
  -- Where an object is alive as often as the `PipelineCacheSc` owns it, and `rest` times more, `Init` leaves
  -- it alive `rest` times more than the `PipelineCacheSc` owns it afterwards.
  pub cache_init-live :
      (device phys_device : ℕ) (data_ptr : Option (List ℕ)) (data_size : ℕ) (c : PipelineCacheSc)
      (h : History) (o : Object) (rest : ℕ)
      → live h o ≡ cache_owned c o + rest
      → live (init d v device phys_device data_ptr data_size c h).1 o
        ≡ cache_owned (init d v device phys_device data_ptr data_size c h).0.1 o + rest
  unfolding init kind_of
  cache_init-live device phys_device data_ptr data_size c h o rest e =
      let info = pipeline_cache_info data_size (bytes_of data_ptr) in
      ground (arith, live-create d device info h o)

  -- A blob that fails the validation never reaches the driver: `Init` returns an error, makes no call
  -- that changes the driver's state and leaves the object as it was.
  pub init_rejects :
      (device phys_device : ℕ) (data_ptr : Option (List ℕ)) (data_size : ℕ) (c : PipelineCacheSc)
      (h : History)
      → is_ok (
          validate_pipeline_cache_header v data_ptr data_size
            (d.device_properties h phys_device).vendor_id
            (d.device_properties h phys_device).device_id)
        ≡ false
      → (is_ok (init d v device phys_device data_ptr data_size c h).0.0 ≡ false)
        × ((init d v device phys_device data_ptr data_size c h).0.1 ≡ c)
        × ((init d v device phys_device data_ptr data_size c h).1 ≡ h)
  unfolding init
  init_rejects device phys_device data_ptr data_size c h bad = ground arith
