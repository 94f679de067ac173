-- ===== src/Swapchain/Views.antt =====
-- engine/rendering/swapchain.cpp: the loops over the image views account for every view.
use soteria.Prelude.{
  ℕ, zero, suc, ◌+◌, ◌≤◌, ◌≡◌, refl, sym, ap, ◌∙◌, inl, inr, List, [], ◌∷◌, ◌++◌, arith, length,
  take, map, length-append, if◌then◌else◌, Bool-cases,
}
use soteria.Vulkan.Info.{Kind, kind_of, image_view_info}
use soteria.Vulkan.{Driver, History, create, destroy, destroy_if_set, is_success}
use soteria.Vulkan.Live.{Object, one, live, live-create, live-destroy, live-destroy_if_set}
use soteria.Swapchain.{create_views, destroy_views, clear_views}

-- How often the object is among the views.
abbrev pub views_owned : List ℕ → Object → ℕ
views_owned [] o = 0
views_owned (view ∷ views) o = one Kind.vk_image_view view o + views_owned views o

views_owned-append :
    (xs ys : List ℕ) (o : Object) → views_owned (xs ++ ys) o ≡ views_owned xs o + views_owned ys o
views_owned-append [] ys o = omega arith
views_owned-append (x ∷ xs) ys o = omega (arith, views_owned-append xs ys o)

take-length_append : (xs ys : List ℕ) → take (length xs) (xs ++ ys) ≡ xs
take-length_append [] ys = refl
take-length_append (x ∷ xs) ys = ap (◌∷◌ x) (take-length_append xs ys)

-- The roll-back destroys each view of the list once.
pub destroy_views-live :
    (device : ℕ) (views : List ℕ) (h : History) (o : Object) (rest : ℕ)
    → live h o ≡ views_owned views o + rest
    → live (destroy_views device views h).1 o ≡ rest
unfolding destroy_views
destroy_views-live device [] h o rest e = omega (arith, e)
destroy_views-live device (view ∷ views) h o rest e =
    destroy_views-live device views (destroy device Kind.vk_image_view view h).1 o rest
      (omega (arith, e, live-destroy device Kind.vk_image_view view h o))

-- The loop of `Shutdown` destroys each view of the first slots once.
pub clear_views-live :
    (device count : ℕ) (views : List ℕ) (h : History) (o : Object) (rest : ℕ)
    → live h o ≡ views_owned (take count views) o + rest
    → live (clear_views device count views h).1 o ≡ rest
unfolding clear_views
clear_views-live device zero views h o rest e = omega (arith, e)
clear_views-live device (suc count) [] h o rest e = omega (arith, e)
clear_views-live device (suc count) (view ∷ views) h o rest e =
    clear_views-live device count views (destroy_if_set device Kind.vk_image_view view h).1 o rest
      (omega (arith, e, live-destroy_if_set device Kind.vk_image_view view h o))

pub length-clear_views :
    (device count : ℕ) (views : List ℕ) (h : History)
    → length (clear_views device count views h).0 ≡ length views
unfolding clear_views
length-clear_views device zero views h = refl
length-clear_views device (suc count) [] h = refl
length-clear_views device (suc count) (view ∷ views) h =
    ap suc
      (length-clear_views device count views (destroy_if_set device Kind.vk_image_view view h).1)

length-cleared : (views : List ℕ) → length {A = ℕ} (map (λ v. 0) views) ≡ length views
length-cleared [] = refl
length-cleared (v ∷ views) = ap suc (length-cleared views)

module _ (d : Driver) (device format : ℕ) where
  -- If every view was created, the first slots own just them; if not, none of them is alive any more.
  pub create_views-live :
      (made images slots : List ℕ) (h : History) (o : Object) (rest total : ℕ)
      → length images ≤ length slots
      → total ≡ length made + length images
      → live h o ≡ views_owned made o + rest
      → let ((all_made, views), h') = create_views d device format made images slots h in
        live h' o ≡ (if all_made then views_owned (take total views) o + rest else rest)
  unfolding create_views kind_of
  create_views-live made [] slots h o rest total room n e =
      let n1 : total ≡ length made = omega (arith, n) in
      let first : take total (made ++ slots) ≡ made =
        ap (λ k. take k (made ++ slots)) n1 ∙ take-length_append made slots in
      e ∙ sym (ap (λ l. views_owned l o + rest) first)
  create_views-live made (image ∷ images) [] h o rest total room n e = absurd (omega arith)
  create_views-live made (image ∷ images) (slot ∷ slots) h o rest total room n e =
      let (view, h1) = create d device (image_view_info image format) h in
      let made1 = made ++ view.handle ∷ [] in
      let c = live-create d device (image_view_info image format) h o in
      elim (Bool-cases (is_success view.result)) [
        | inl ok ↦
            let more : live h1 o ≡ views_owned made1 o + rest =
              ground (arith, c, e, ok, views_owned-append made (view.handle ∷ []) o) in
            let total1 : total ≡ length made1 + length images =
              omega (arith, n, length-append made (view.handle ∷ [])) in
            rw ok (create_views-live made1 images slots h1 o rest total (omega arith) total1 more)
        | inr failed ↦
            let same : live h1 o ≡ views_owned made o + rest = ground (arith, c, e, failed) in
            rw failed (destroy_views-live device made h1 o rest same)
      ]

  pub length-create_views :
      (made images slots : List ℕ) (h : History)
      → length images ≤ length slots
      → length (create_views d device format made images slots h).0.1 ≡ length made + length slots
  unfolding create_views
  length-create_views made [] slots h room = length-append made slots
  length-create_views made (image ∷ images) [] h room = absurd (omega arith)
  length-create_views made (image ∷ images) (slot ∷ slots) h room =
      let (view, h1) = create d device (image_view_info image format) h in
      ground (
        arith,
        length-create_views (made ++ view.handle ∷ []) images slots h1 (omega arith),
        length-append made (view.handle ∷ []),
        length-append (map (λ v. 0) made) (view.handle ∷ slots),
        length-cleared made,
      )
