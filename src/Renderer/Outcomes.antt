-- ===== src/Renderer/Outcomes.antt =====
-- app/rendering/horizon_renderer.cpp: the ways in which a step of `Init`, and `Init` itself, can end.
use soteria.Prelude.{
  ◌⊎◌, inl, inr, ◌==◌, ==→eq, Bool-cases, ℕ, zero, suc, ◌+◌, ◌≤◌, ◌≡◌, ◌≢◌, refl, ap, true, false,
  List, [], ◌∷◌, arith, length, if_elim,
}
use soteria.Result.{Result, is_ok}
use soteria.Vulkan.Info.{Kind}
use soteria.Vulkan.{Driver, Reply, History, M, destroy_if_set, is_success}
use soteria.Vulkan.Live.{Object, live}
use soteria.Vulkan.Made.{strays, strays-run, strays-destroy}
use soteria.CommandPool
use soteria.VertexBuffer
use soteria.Renderer.{
  HorizonRenderer, max_framebuffers, clear_framebuffers, destroy_objects, destroy_all,
}
use soteria.Renderer.Life.{renderer_owned, destroy_all-live}
use soteria.Renderer.Kept.{destroy_all-kept}
use soteria.Renderer.Create.{attempt}

-- A creation gave the null handle if it failed, or it left something else in its output.
pub strayed_or_null :
    (r : Reply)
    → ((is_success r.result ≡ false) × ((r.handle == 0) ≡ false))
      ⊎ (is_success r.result ≡ false → r.handle ≡ 0)
strayed_or_null r = elim (Bool-cases (r.handle == 0)) [
  | inl null ↦ inr (λ failed. ==→eq r.handle 0 null)
  | inr set ↦ elim (Bool-cases (is_success r.result)) [
    | inl made ↦ inr (λ failed. ground (arith, made, failed))
    | inr failed ↦ inl (failed, set)
  ]
]

-- The array of framebuffers has its fixed length, the count stays in it, and a renderer that is not
-- initialised holds nothing.
pub record IsValid (s : HorizonRenderer) (o : Object) : Type 0 where
  pub room : length s.framebuffers ≡ max_framebuffers
  pub count_fits : s.framebuffer_count ≤ max_framebuffers
  pub idle_count : s.initialised ≡ false → s.framebuffer_count ≡ 0
  pub idle_owned : s.initialised ≡ false → renderer_owned s o ≡ 0

-- In the middle of `Init`: what the renderer holds is what is alive more than `rest` times.
abbrev pub Holds : (o : Object) (rest : ℕ) → (Result × HorizonRenderer) × History → Type 0
Holds o rest ((r, s), h) =
    (live h o ≡ renderer_owned s o + rest) × (length s.framebuffers ≡ max_framebuffers)

-- At the end of `Init`.
abbrev pub Leaves : (o : Object) (rest : ℕ) → (Result × HorizonRenderer) × History → Type 0
Leaves o rest ((r, s), h) =
    (live h o ≡ renderer_owned s o + rest) × IsValid s o × (is_ok r ≡ s.initialised)

-- A failure after a creation that failed and left something else than the null handle in its output.
abbrev pub Strayed : {A : Type 0} → (Result × A) × History → Type 0
Strayed ((r, s), h) = (is_ok r ≡ false) × (1 ≤ strays h)

-- A step of `Init`, and its end.
abbrev pub Stepped : (o : Object) (rest : ℕ) → (Result × HorizonRenderer) × History → Type 0
Stepped o rest z = Strayed z ⊎ Holds o rest z

abbrev pub Settles : (o : Object) (rest : ℕ) → (Result × HorizonRenderer) × History → Type 0
Settles o rest z = Strayed z ⊎ Leaves o rest z

length-clear_framebuffers :
    (device count : ℕ) (slots : List ℕ) (h : History)
    → length (clear_framebuffers device count slots h).0 ≡ length slots
unfolding clear_framebuffers
length-clear_framebuffers device zero slots h = refl
length-clear_framebuffers device (suc count) [] h = refl
length-clear_framebuffers device (suc count) (framebuffer ∷ slots) h = ap suc (
    length-clear_framebuffers device count slots
      (destroy_if_set device Kind.vk_framebuffer framebuffer h).1)

-- What `DestroyAll` leaves of the renderer's own state.
destroy_all-idle :
    (d : Driver) (device : ℕ) (s : HorizonRenderer) (h : History)
    → device ≢ 0
    → ((destroy_all d device s h).0.initialised ≡ false)
      × ((destroy_all d device s h).0.framebuffer_count ≡ 0)
      × (length (destroy_all d device s h).0.framebuffers ≡ length s.framebuffers)
unfolding destroy_all destroy_objects
destroy_all-idle d device s h given =
    let h1 = (VertexBuffer.shutdown d device s.vertex_buffer h).1 in
    let h2 = (CommandPool.shutdown d device s.command_pool h1).1 in
    let same_room = length-clear_framebuffers device s.framebuffer_count s.framebuffers h2 in
    (ground (arith, given), ground (arith, given), ground (arith, given, same_room))

module _ (d : Driver) (o : Object) (rest : ℕ) where
  pub attempt-Settles :
      (device : ℕ)
      → device ≢ 0
      → (step : M (Result × HorizonRenderer))
      → (next : HorizonRenderer → M (Result × HorizonRenderer)) → (h : History)
      → Stepped o rest (step h)
      → (is_ok (step h).0.0 ≡ true
          → Holds o rest (step h)
          → Settles o rest (next (step h).0.1 (step h).1))
      → Settles o rest (attempt d device step next h)
  unfolding attempt
  attempt-Settles device given step next h (inl (off, stray)) going_on =
      let ((r, s), h1) = step h in
      if_elim (λ (m : M (Result × HorizonRenderer)). Settles o rest (m h1)) (is_ok r)
        (λ ok. ground (arith, ok, off))
        (λ failed. inl (
          off,
          omega (arith, stray, destroy_all-kept d strays (strays-run d) strays-destroy device s h1),
        ))
  attempt-Settles device given step next h (inr (e, room)) going_on =
      let ((r, s), h1) = step h in
      let (alive, empty) = destroy_all-live d device s h1 o rest given e in
      let (off, none_counted, same_room) = destroy_all-idle d device s h1 given in
      if_elim (λ (m : M (Result × HorizonRenderer)). Settles o rest (m h1)) (is_ok r)
        (λ ok. going_on ok (e, room))
        (λ failed. inr (
          omega (arith, alive, empty),
          record {
            room = omega (arith, same_room, room);
            count_fits = omega (arith, none_counted);
            idle_count = λ x. none_counted;
            idle_owned = λ x. empty;
          },
          ground (arith, failed, off),
        ))
