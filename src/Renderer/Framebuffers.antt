-- ===== src/Renderer/Framebuffers.antt =====
-- app/rendering/horizon_renderer.cpp: the loop of `CreateFramebuffers` accounts for every framebuffer.
use soteria.Prelude.{
  ℕ, suc, ◌+◌, ◌≤◌, ◌≡◌, refl, sym, ap, ◌∙◌, inl, inr, List, [], ◌∷◌, ◌++◌, arith, length, take,
  map, length-append, if◌then◌else◌, Bool-cases,
}
use soteria.Vulkan.Info.{Kind, Extent2D, kind_of, framebuffer_info}
use soteria.Vulkan.{Driver, History, create, destroy, is_success}
use soteria.Vulkan.Live.{Object, live, live-create, live-destroy}
use soteria.Renderer.Create.{make_framebuffers, destroy_framebuffers}
use soteria.Renderer.Life.{framebuffers_owned}

framebuffers_owned-append :
    (xs ys : List ℕ) (o : Object)
    → framebuffers_owned (xs ++ ys) o ≡ framebuffers_owned xs o + framebuffers_owned ys o
framebuffers_owned-append [] ys o = omega arith
framebuffers_owned-append (x ∷ xs) ys o = omega (arith, framebuffers_owned-append xs ys o)

take-length_append : (xs ys : List ℕ) → take (length xs) (xs ++ ys) ≡ xs
take-length_append [] ys = refl
take-length_append (x ∷ xs) ys = ap (◌∷◌ x) (take-length_append xs ys)

-- The roll-back destroys each framebuffer of the list once.
destroy_framebuffers-live :
    (device : ℕ) (made : List ℕ) (h : History) (o : Object) (rest : ℕ)
    → live h o ≡ framebuffers_owned made o + rest
    → live (destroy_framebuffers device made h).1 o ≡ rest
unfolding destroy_framebuffers
destroy_framebuffers-live device [] h o rest e = omega (arith, e)
destroy_framebuffers-live device (framebuffer ∷ made) h o rest e =
    destroy_framebuffers-live device made (destroy device Kind.vk_framebuffer framebuffer h).1 o
      rest (omega (arith, e, live-destroy device Kind.vk_framebuffer framebuffer h o))

length-cleared : (made : List ℕ) → length {A = ℕ} (map (λ v. 0) made) ≡ length made
length-cleared [] = refl
length-cleared (v ∷ made) = ap suc (length-cleared made)

module _ (d : Driver) (device render_pass : ℕ) (extent : Extent2D) where
  -- If every framebuffer was created, the first slots own just them; if not, none of them is alive any more.
  pub make_framebuffers-live :
      (made views slots : List ℕ) (h : History) (o : Object) (rest total : ℕ)
      → length views ≤ length slots
      → total ≡ length made + length views
      → live h o ≡ framebuffers_owned made o + rest
      → let ((all_made, all), h') =
          make_framebuffers d device render_pass extent made views slots h in
        live h' o ≡ (if all_made then framebuffers_owned (take total all) o + rest else rest)
  unfolding make_framebuffers kind_of
  make_framebuffers-live made [] slots h o rest total room n e =
      let n1 : total ≡ length made = omega (arith, n) in
      let first : take total (made ++ slots) ≡ made =
        ap (λ k. take k (made ++ slots)) n1 ∙ take-length_append made slots in
      e ∙ sym (ap (λ l. framebuffers_owned l o + rest) first)
  make_framebuffers-live made (view ∷ views) [] h o rest total room n e = absurd (omega arith)
  make_framebuffers-live made (view ∷ views) (slot ∷ slots) h o rest total room n e =
      let (framebuffer, h1) = create d device (framebuffer_info render_pass view extent) h in
      let made1 = made ++ framebuffer.handle ∷ [] in
      let c = live-create d device (framebuffer_info render_pass view extent) h o in
      elim (Bool-cases (is_success framebuffer.result)) [
        | inl ok ↦
            let more : live h1 o ≡ framebuffers_owned made1 o + rest =
              ground
                (arith, c, e, ok, framebuffers_owned-append made (framebuffer.handle ∷ []) o) in
            let total1 : total ≡ length made1 + length views =
              omega (arith, n, length-append made (framebuffer.handle ∷ [])) in
            rw ok
              (make_framebuffers-live made1 views slots h1 o rest total (omega arith) total1 more)
        | inr failed ↦
            let same : live h1 o ≡ framebuffers_owned made o + rest =
              ground (arith, c, e, failed) in
            rw failed (destroy_framebuffers-live device made h1 o rest same)
      ]

  pub length-make_framebuffers :
      (made views slots : List ℕ) (h : History)
      → length views ≤ length slots
      → length (make_framebuffers d device render_pass extent made views slots h).0.1
        ≡ length made + length slots
  unfolding make_framebuffers
  length-make_framebuffers made [] slots h room = length-append made slots
  length-make_framebuffers made (view ∷ views) [] h room = absurd (omega arith)
  length-make_framebuffers made (view ∷ views) (slot ∷ slots) h room =
      let (framebuffer, h1) = create d device (framebuffer_info render_pass view extent) h in
      ground (
        arith,
        length-make_framebuffers (made ++ framebuffer.handle ∷ []) views slots h1 (omega arith),
        length-append made (framebuffer.handle ∷ []),
        length-append (map (λ v. 0) made) (framebuffer.handle ∷ slots),
        length-cleared made,
      )
