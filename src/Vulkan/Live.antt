-- ===== src/Vulkan/Live.antt =====
-- The objects that a history leaves alive, as a count for each object: a creation that succeeds adds
-- one, a destruction takes one away. The null handle is no object, and an object of a kind that
-- Vulkan SC cannot destroy alone is not counted.
use soteria.Prelude.{ℕ, ◌+◌, ◌-◌, ◌≡◌, refl, ◌&&◌, [], ◌∷◌, arith, ◌==◌, if◌then◌else◌}
use soteria.Vulkan.Info.{Kind, CreateInfo, Command, has_destroy, kind_of}
use soteria.Vulkan.{
  is_success, created, destroyed, ran, History, Driver, destroy, destroy_if_set, create, run,
}

pub record Object : Type 0 where
  pub kind : Kind
  pub handle : ℕ

-- A number for each kind, to compare kinds by.
unfoldable pub kind_code : Kind → ℕ
kind_code Kind.vk_instance = 0
kind_code Kind.vk_device = 1
kind_code Kind.vk_surface = 2
kind_code Kind.vk_swapchain = 3
kind_code Kind.vk_image_view = 4
kind_code Kind.vk_pipeline_cache = 5
kind_code Kind.vk_pipeline_layout = 6
kind_code Kind.vk_pipeline = 7
kind_code Kind.vk_render_pass = 8
kind_code Kind.vk_framebuffer = 9
kind_code Kind.vk_command_pool = 10
kind_code Kind.vk_buffer = 11
kind_code Kind.vk_memory = 12
kind_code Kind.vk_semaphore = 13
kind_code Kind.vk_fence = 14

-- 1 for the object itself, unless its handle is null or its kind is not counted.
unfoldable pub one : Kind → ℕ → Object → ℕ
unfolding kind_code
one kind handle o =
    if has_destroy kind
    then if handle == 0
      then 0
      else if kind_code kind == kind_code o.kind && handle == o.handle
      then 1
      else 0
    else 0

unfoldable pub live : History → Object → ℕ
live [] o = 0
live (created owner info r ∷ h) o =
    if is_success r.result then one (kind_of info) r.handle o + live h o else live h o
live (destroyed owner kind handle ∷ h) o = live h o - one kind handle o
live (ran command r ∷ h) o = live h o

pub one-null : (kind : Kind) (o : Object) → one kind 0 o ≡ 0
unfolding one
one-null kind o = ground arith

pub live-destroy :
    (owner : ℕ) (kind : Kind) (handle : ℕ) (h : History) (o : Object)
    → live (destroy owner kind handle h).1 o ≡ live h o - one kind handle o
unfolding live destroy
live-destroy owner kind handle h o = refl

pub live-destroy_if_set :
    (owner : ℕ) (kind : Kind) (handle : ℕ) (h : History) (o : Object)
    → live (destroy_if_set owner kind handle h).1 o ≡ live h o - one kind handle o
unfolding live destroy_if_set one
live-destroy_if_set owner kind handle h o = ground arith

module _ (d : Driver) where
  pub live-run :
      (command : Command) (h : History) (o : Object) → live (run d command h).1 o ≡ live h o
  unfolding live run
  live-run command h o = refl

  pub live-create :
      (owner : ℕ) (info : CreateInfo) (h : History) (o : Object)
      → live (create d owner info h).1 o ≡ (
          if is_success (create d owner info h).0.result
          then one (kind_of info) (create d owner info h).0.handle o + live h o
          else live h o)
  unfolding live create
  live-create owner info h o = refl
