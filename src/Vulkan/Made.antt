-- ===== src/Vulkan/Made.antt =====
-- How many creations of each kind of object a history has, those that failed included, and after how many
-- failures the output was not null; and what leaves such numbers as they are.
use soteria.Prelude.{
  Bool, true, false, not, ◌&&◌, ℕ, ◌+◌, ◌≤◌, ◌≡◌, refl, [], ◌∷◌, arith, ◌==◌, if◌then◌else◌,
}
use soteria.Vulkan.Info.{Kind, CreateInfo, Command, kind_of}
use soteria.Vulkan.{
  is_success, created, destroyed, ran, History, M, Driver, destroy, destroy_if_set, create, run,
}
use soteria.Vulkan.Live.{kind_code}

-- 1 for a kind and itself.
unfoldable pub same : Kind → Kind → ℕ
unfolding kind_code
same a k = if kind_code a == kind_code k then 1 else 0

unfoldable pub made : Kind → History → ℕ
made k [] = 0
made k (created owner info r ∷ h) = same (kind_of info) k + made k h
made k (destroyed owner kind handle ∷ h) = made k h
made k (ran command r ∷ h) = made k h

pub made-destroy :
    (owner : ℕ) (kind : Kind) (handle : ℕ) (h : History) (k : Kind)
    → made k (destroy owner kind handle h).1 ≡ made k h
unfolding made destroy
made-destroy owner kind handle h k = refl

pub made-destroy_if_set :
    (owner : ℕ) (kind : Kind) (handle : ℕ) (h : History) (k : Kind)
    → made k (destroy_if_set owner kind handle h).1 ≡ made k h
unfolding made destroy_if_set
made-destroy_if_set owner kind handle h k = ground arith

module _ (d : Driver) where
  pub made-run :
      (command : Command) (h : History) (k : Kind) → made k (run d command h).1 ≡ made k h
  unfolding made run
  made-run command h k = refl

  pub made-create :
      (owner : ℕ) (info : CreateInfo) (h : History) (k : Kind)
      → made k (create d owner info h).1 ≡ same (kind_of info) k + made k h
  unfolding made create
  made-create owner info h k = refl

-- A number of the history that no command changes.
abbrev pub IsQuiet : Driver → (History → ℕ) → Type 0
IsQuiet d f = (command : Command) (h : History) → f (run d command h).1 ≡ f h

-- A number of the history that no destruction changes.
abbrev pub IsKept : (History → ℕ) → Type 0
IsKept f =
    (owner : ℕ) (kind : Kind) (handle : ℕ) (h : History) → f (destroy owner kind handle h).1 ≡ f h

-- An operation creates at most `n` objects of a kind.
abbrev pub IsAtMost : {A : Type 0} → Kind → ℕ → M A → Type 0
IsAtMost k n m = (h : History) → made k (m h).1 ≤ made k h + n

-- The kinds of which the renderer destroys what a failed creation left in its output.
unfoldable pub is_trusted : Kind → Bool
is_trusted Kind.vk_render_pass = true
is_trusted Kind.vk_pipeline_layout = true
is_trusted Kind.vk_pipeline = true
is_trusted _ = false

-- How many creations of those kinds failed and left something else than the null handle in their output.
unfoldable pub strays : History → ℕ
strays [] = 0
strays (created owner info r ∷ h) =
    (if is_trusted (kind_of info) && not (is_success r.result) && not (r.handle == 0) then 1 else 0)
    + strays h
strays (destroyed owner kind handle ∷ h) = strays h
strays (ran command r ∷ h) = strays h

pub strays-destroy : IsKept strays
unfolding strays destroy
strays-destroy owner kind handle h = refl

pub strays-run : (d : Driver) → IsQuiet d strays
unfolding strays run
strays-run d command h = refl
