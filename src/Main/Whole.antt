-- ===== src/Main/Whole.antt =====
-- app/main.cpp: `main` from the start to the end.
use soteria.Prelude.{
  arith, false, ◌⊎◌, ◌≤◌, ℕ, ◌≡◌, refl, sym, ◌∙◌, subst, inl, inr, Bool, true, not, Option, none,
  some, List, length, if◌then◌else◌,
}
use soteria.Float.{Float}
use soteria.Vulkan.{Driver, History, M, pure, ◌>>=◌}
use soteria.Vulkan.Made.{strays}
use soteria.Vulkan.Live.{Object, live, live-run}
use soteria.PipelineCache.{Versions}
use soteria.Context.{VkscContextConfig}
use soteria.FrameBudget
use soteria.Renderer.Create.{Embedded}
use soteria.Main.{Objects, fresh, start, shutdown_all}
use soteria.Main.Loop.{
  World, LoopState, ExitCode, exit_success, exit_failure, max_frames, frames, first, main,
}
use soteria.Main.Frames.{loop-ends}
use soteria.Main.Quiet.{frames-quiet}
use soteria.Main.Device.{IsRegular}
use soteria.Main.Closing.{Balanced, shutdown_all-live}
use soteria.Main.Balance.{start-Started}

module _ {F : Type 0} ⦃fl : Float F⦄ (w : World F) (encode : F → List ℕ) (d : Driver) where
  -- If a creation that succeeds does not give the null handle, a float has four bytes and the mapped
  -- region is as large as the vertex buffer that the start-up made, `main` returns; no frame accesses
  -- the vertex buffer or the renderer's framebuffers out of bounds; and each object is then alive as
  -- often as before: whatever fails, all that was created is destroyed, and nothing is destroyed twice.
  -- The only exception to the last is a start-up that fails where among the calls so far the creation
  -- of a render pass, a pipeline layout or a pipeline failed and left something else than the null
  -- handle in its output. `main` returns `EXIT_SUCCESS` exactly when the start-up succeeds.
  pub main-live :
      (cfg : VkscContextConfig) (v : Versions) (embedded : Embedded) (region : List ℕ)
      (budget : FrameBudget.FrameBudgetMonitor F) (h : History) (o : Object)
      → IsRegular d
      → ((a : F) → length (encode a) ≡ 4)
      → length region ≡ (start d cfg v embedded fresh h).0.1.renderer.vertex_buffer.size_bytes
      → let done = main w encode d cfg v embedded region budget h in
        (x : Objects) × (l : Option (LoopState F)) × (done.0
          ≡ some
              ((if (start d cfg v embedded fresh h).0.0 then exit_success else exit_failure), x, l))
        × (((start d cfg v embedded fresh h).0.0 ≡ false) × (1 ≤ strays done.1)
            ⊎ (live done.1 o ≡ live h o))
  unfolding main
  main-live cfg v embedded region budget h o regular four sized =
      let ((started, x), h1) = start d cfg v embedded fresh h in
      let (looped, h2) = frames w encode d x max_frames (first region budget) h1 in
      let Outcome : Type 0 = Option (ExitCode × Objects × Option (LoopState F)) in
      let after_loop : Option (LoopState F) → M Outcome = λ r. elim r [
        | none ↦ pure none
        | some l ↦ (do ended ← shutdown_all d x; pure (some (exit_success, ended, some l)))
      ] in
      let after_start : Bool → M Outcome = λ b.
        if not b
        then pure (some (exit_failure, x, none))
        else (do r ← frames w encode d x max_frames (first region budget); after_loop r) in
      let Ends : Bool → Outcome × History → Type 0 = λ b z.
        (x' : Objects) × (l : Option (LoopState F)) × (z.0
          ≡ some ((if b then exit_success else exit_failure), x', l))
        × ((b ≡ false) × (1 ≤ strays z.1) ⊎ (live z.1 o ≡ live h o)) in
      elim (start-Started d o (live h o) regular cfg v embedded h refl) [
        | inl (on, balanced) ↦
            let slots : x.renderer.framebuffer_count ≤ length x.renderer.framebuffers =
              omega (arith, balanced.renderer_valid.room, balanced.renderer_valid.count_fits) in
            let (l, ends, _, _, _, _) = loop-ends budget w encode d x region h1 four sized slots in
            let held : Balanced o (live h o) x h2 = record {
              alive =
                  frames-quiet w encode d (λ h'. live h' o) (λ c h'. live-run d c h' o) x max_frames
                    (first region budget) h1
                  ∙ balanced.alive;
              has_device = balanced.has_device;
              swapchain_valid = balanced.swapchain_valid;
              renderer_valid = balanced.renderer_valid;
            } in
            let done : Ends true (after_loop (some l) h2) = (
              (shutdown_all d x h2).0,
              some l,
              refl,
              inr (shutdown_all-live d o (live h o) x h2 held),
            ) in
            subst (λ b. Ends b (after_start b h1)) (sym on)
              (subst (λ r. Ends true (after_loop r h2)) (sym ends) done)
        | inr (off, given_back) ↦
            let kept : (false ≡ false) × (1 ≤ strays h1) ⊎ (live h1 o ≡ live h o) =
              elim given_back [ inl stray ↦ inl (refl, stray) | inr same ↦ inr same ] in
            subst (λ b. Ends b (after_start b h1)) (sym off) (x, none, refl, kept)
      ]
