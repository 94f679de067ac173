-- ===== src/CommandPool.antt =====
-- engine/rendering/command_pool.hpp and command_pool.cpp: `CommandPool`. Vulkan SC cannot destroy a
-- command pool, so `Shutdown` resets it and drops the handle. CommandPool/Life says which calls reach
-- the driver.
pub mod Life
mod Examples
use soteria.Prelude.{
  ℕ, Bool, true, false, not, ◌||◌, Option, none, some, List, [], ◌==◌, if◌then◌else◌,
}
use soteria.Result.{
  Result, k_ok, k_error, k_invalid_argument, k_vksc_command_pool_failed, k_already_initialised,
}
use soteria.Vulkan.Info.{command_pool_info, reset_command_pool, allocate_command_buffers}
use soteria.Vulkan.{Driver, is_success, M, pure, ◌>>=◌, ◌>>◌, create, run}

pub record CommandPool : Type 0 where
  pub pool : ℕ
  pub initialised : Bool

-- A new object.
abbrev pub fresh : CommandPool
fresh = record { pool = 0; initialised = false }

module _ (d : Driver) where
  -- `Init`
  unfoldable pub init :
      (device queue_family_index reserved_size max_command_buffers : ℕ)
      → CommandPool
      → M (Result × CommandPool)
  init device queue_family_index reserved_size max_command_buffers p =
      if p.initialised
      then pure (k_already_initialised, p)
      else if device == 0
      then pure (k_invalid_argument, p)
      else do
        r ← create d device (command_pool_info queue_family_index reserved_size max_command_buffers)
        if not (is_success r.result)
            then pure (k_vksc_command_pool_failed, record p { pool = r.handle })
            else pure (k_ok, record { pool = r.handle; initialised = true })

  -- `Shutdown`; the result of the reset is discarded.
  unfoldable pub shutdown : ℕ → CommandPool → M CommandPool
  shutdown device p =
      if not p.initialised
      then pure p
      else if p.pool == 0
      then pure fresh
      else do _ ← run d (reset_command_pool device p.pool); pure fresh

  -- `AllocateBuffers`: the result, and what the call writes to `outBuffers`, of which only whether it is
  -- null counts. Nothing is written where the driver is not called.
  unfoldable pub allocate_buffers :
      (device count : ℕ) (has_out : Bool) → CommandPool → M (Result × List ℕ)
  allocate_buffers device count has_out p h =
      let call = allocate_command_buffers device p.pool count in
      let written = d.command_buffers h count in
      (if device == 0 || count == 0 || not has_out
          then pure (k_invalid_argument, [])
          else if not p.initialised
          then pure (k_error, [])
          else do
            r ← run d call
            if not (is_success r)
                then pure (k_vksc_command_pool_failed, written)
                else pure (k_ok, written))
        h
