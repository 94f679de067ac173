-- ===== src/CommandPool/Life.antt =====
-- engine/rendering/command_pool.cpp: the object's states, and the calls that each operation makes.
use soteria.Prelude.{ℕ, ◌≡◌, ◌≢◌, ◌↔◌, refl, Bool, true, not, ◌||◌, ◌∷◌, arith, if◌then◌else◌, ◌==◌}
use soteria.Result.{k_ok}
use soteria.Vulkan.Info.{
  kind_of, Kind, command_pool_info, reset_command_pool, allocate_command_buffers,
}
use soteria.Vulkan.{Driver, History, ran, created, create, run, is_success}
use soteria.Vulkan.Live.{Object, one, live, live-create, live-run}
use soteria.CommandPool.{CommandPool, fresh, init, shutdown, allocate_buffers}

module _ (d : Driver) where
  one-pool : (a : ℕ) (o : Object) → one Kind.vk_command_pool a o ≡ 0
  unfolding one
  one-pool a o = refl

  -- A pool is no object that has to be destroyed: no operation changes the count of those.
  pub init-live :
      (device queue_family_index reserved_size max_command_buffers : ℕ) (p : CommandPool)
      (h : History) (o : Object)
      → live (init d device queue_family_index reserved_size max_command_buffers p h).1 o ≡ live h o
  unfolding init kind_of
  init-live device queue_family_index reserved_size max_command_buffers p h o =
      let info = command_pool_info queue_family_index reserved_size max_command_buffers in
      let (r, h1) = create d device info h in
      ground (arith, live-create d device info h o, one-pool r.handle o)

  pub shutdown-live :
      (device : ℕ) (p : CommandPool) (h : History) (o : Object)
      → live (shutdown d device p h).1 o ≡ live h o
  unfolding shutdown
  shutdown-live device p h o = ground (arith, live-run d (reset_command_pool device p.pool) h o)

  pub allocate_buffers-live :
      (device count : ℕ) (has_out : Bool) (p : CommandPool) (h : History) (o : Object)
      → live (allocate_buffers d device count has_out p h).1 o ≡ live h o
  unfolding allocate_buffers
  allocate_buffers-live device count has_out p h o =
      ground (arith, live-run d (allocate_command_buffers device p.pool count) h o)

  -- `AllocateBuffers` succeeds exactly when its arguments are given, the pool is initialised and the
  -- driver allocates; without arguments or without `Init` no call reaches the driver.
  pub allocate_buffers_iff :
      (device count : ℕ) (has_out : Bool) (p : CommandPool) (h : History)
      → let call = allocate_command_buffers device p.pool count in
        let done = allocate_buffers d device count has_out p h in
        ((done.0.0 ≡ k_ok) ↔ (
          (device ≢ 0)
          × (count ≢ 0)
          × (has_out ≡ true)
          × (p.initialised ≡ true)
          × (is_success (d.runs h call) ≡ true)))
        × (done.1 ≡ (
            if device == 0 || count == 0 || not has_out || not p.initialised
            then h
            else ran call (d.runs h call) ∷ h))
  unfolding allocate_buffers run
  allocate_buffers_iff device count has_out p h =
      ((λ e. ground arith, λ e. ground arith), ground arith)

  -- After an `Init` that succeeds and gives a pool, the pool was made with the family and the sizes asked
  -- for, and that was the only call; `Shutdown` then resets it once, and a second `Shutdown` calls
  -- nothing and leaves a new object.
  pub init-shutdown :
      (device queue_family_index reserved_size max_command_buffers : ℕ) (p : CommandPool)
      (h : History)
      → (init d device queue_family_index reserved_size max_command_buffers p h).0.0 ≡ k_ok
      → (init d device queue_family_index reserved_size max_command_buffers p h).0.1.pool ≢ 0
      → let made = init d device queue_family_index reserved_size max_command_buffers p h in
        let ended = shutdown d device made.0.1 made.1 in
        let reset = reset_command_pool device made.0.1.pool in
        let info = command_pool_info queue_family_index reserved_size max_command_buffers in
        (made.1 ≡ created device info (d.creates h device info) ∷ h)
        × (ended.1 ≡ ran reset (d.runs made.1 reset) ∷ made.1)
        × (shutdown d device ended.0 ended.1 ≡ (fresh, ended.1))
  unfolding init shutdown create run
  init-shutdown device queue_family_index reserved_size max_command_buffers p h ok set =
      ground arith
