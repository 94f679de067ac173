-- ===== src/Swapchain/Life.antt =====
-- engine/rendering/swapchain.cpp: `Init` and `Shutdown` account for the image views and keep the arrays
-- within their bounds.
use soteria.Prelude.{
  ℕ, suc, ◌+◌, ◌≤◌, ◌<◌, ◌≡◌, refl, inl, inr, ◌⊎◌, true, false, not, ◌||◌, List, [], ◌∷◌, arith,
  length, take, length-take, ◌==◌, if◌then◌else◌, Bool-cases, if_elim, ap, subst, sym, ◌∙◌,
}
use soteria.Result.{
  Result, k_vksc_swapchain_failed, k_already_initialised, k_invalid_argument, is_ok,
}
use soteria.Vulkan.Info.{kind_of, Extent2D, swapchain_info, SurfaceCapabilities}
use soteria.Vulkan.{Driver, History, create, is_success}
use soteria.Vulkan.Live.{Object, one, live}
use soteria.Vulkan.Enumerate.{IsConforming}
use soteria.Swapchain.{
  Config, SwapchainSc, max_images, max_formats, at_most, overwrite, format_found, shutdown,
  init_views, init_images, init_swapchain, init, select_extent, choose_image_count,
}
use soteria.Swapchain.Views.{
  views_owned, clear_views-live, length-clear_views, create_views-live, length-create_views,
}

-- The image views that an initialised swapchain owns; one that is not owns none.
abbrev pub swapchain_owned : SwapchainSc → Object → ℕ
swapchain_owned s o = if s.initialised then views_owned (take s.image_count s.image_views) o else 0

-- The arrays have their fixed length, and an initialised swapchain has at most `kMaxImages` images.
pub record IsValid (s : SwapchainSc) : Type 0 where
  pub images_room : length s.images ≡ max_images
  pub views_room : length s.image_views ≡ max_images
  pub count_fits : s.initialised ≡ true → s.image_count ≤ max_images

length-overwrite : (written array : List ℕ) → length (overwrite written array) ≡ length array
unfolding overwrite
length-overwrite [] array = refl
length-overwrite (x ∷ written) [] = refl
length-overwrite (x ∷ written) (y ∷ array) = ap suc (length-overwrite written array)

at_most-bound : (limit n : ℕ) → at_most limit n ≤ limit
unfolding at_most
at_most-bound limit n = ground arith

-- Where an object is alive as often as a valid swapchain owns it, and `rest` times more, `Shutdown` leaves it
-- alive `rest` times more than the swapchain owns it afterwards, and the swapchain valid.
pub swapchain_shutdown-live :
    (device : ℕ) (s : SwapchainSc) (h : History) (o : Object) (rest : ℕ)
    → IsValid s
    → live h o ≡ swapchain_owned s o + rest
    → (live (shutdown device s h).1 o ≡ swapchain_owned (shutdown device s h).0 o + rest)
      × IsValid (shutdown device s h).0
unfolding shutdown
swapchain_shutdown-live device s h o rest v e = (
  elim (Bool-cases s.initialised) [
    | inl on ↦ ground (
      arith,
      on,
      clear_views-live device s.image_count s.image_views h o rest (ground (arith, e, on)),
    )
    | inr off ↦ ground (arith, off, e)
  ],
  record {
    images_room = ground (arith, v.images_room);
    views_room =
        ground (arith, v.views_room, length-clear_views device s.image_count s.image_views h);
    count_fits = λ on. ground arith;
  },
)

-- What an attempt of an object that is not initialised leaves: `rest` was alive before.
abbrev Leaves : (o : Object) (rest : ℕ) → (Result × SwapchainSc) × History → Type 0
Leaves o rest ((result, s), h) = (live h o ≡ swapchain_owned s o + rest) × IsValid s

-- A failing branch changes no array and leaves the object uninitialised.
leaves_failed :
    (o : Object) (rest : ℕ) (s s' : SwapchainSc) (h : History)
    → IsValid s
    → s'.initialised ≡ false
    → s'.images ≡ s.images
    → s'.image_views ≡ s.image_views
    → live h o ≡ rest
    → (live h o ≡ swapchain_owned s' o + rest) × IsValid s'
leaves_failed o rest s s' h v new same_images same_views e = (
  ground (arith, new, e),
  record {
    images_room = ground (arith, v.images_room, same_images);
    views_room = ground (arith, v.views_room, same_views);
    count_fits = λ on. ground (arith, on, new);
  },
)

module _ (d : Driver) (cfg : Config) where
  init_views-live :
      (extent : Extent2D) (s : SwapchainSc) (h : History) (o : Object) (rest : ℕ)
      → s.initialised ≡ false
      → IsValid s
      → s.image_count ≤ max_images
      → live h o ≡ rest
      → Leaves o rest (init_views d cfg extent s h)
  unfolding init_views
  init_views-live extent s h o rest new v few e =
      let images = take s.image_count s.images in
      let n : s.image_count ≡ length images =
        omega (arith, v.images_room, few, length-take s.image_count s.images) in
      let room : length images ≤ length s.image_views = omega (arith, v.views_room) in
      let done =
        create_views-live d cfg.device cfg.required_format [] images s.image_views h o rest
          s.image_count room (omega (arith, n)) (omega (arith, e)) in
      let size =
        length-create_views d cfg.device cfg.required_format [] images s.image_views h room in
      (
        ground (arith, done, new),
        record {
          images_room = ground (arith, v.images_room);
          views_room = ground (arith, v.views_room, size);
          count_fits = λ on. ground (arith, few);
        },
      )

  init_images-live :
      (extent : Extent2D) (s : SwapchainSc) (h : History) (o : Object) (rest : ℕ)
      → s.initialised ≡ false
      → IsValid s
      → live h o ≡ rest
      → Leaves o rest (init_images d cfg extent s h)
  unfolding init_images
  init_images-live extent s h o rest new v e =
      let found = d.swapchain_images h cfg.device s.swapchain in
      let (r, got) = found.fetch (at_most max_images found.count) in
      let few : length got ≤ max_images = omega (
        arith,
        found.fits (at_most max_images found.count),
        at_most-bound max_images found.count,
      ) in
      let s1 = record s { images = overwrite got s.images; image_count = length got } in
      let v1 : IsValid s1 = record {
        images_room = omega (arith, v.images_room, length-overwrite got s.images);
        views_room = v.views_room;
        count_fits = λ on. few;
      } in
      elim (Bool-cases (not (is_success found.count_result) || found.count == 0)) [
        | inl none_found ↦ rw none_found (
            leaves_failed o rest s (record s { swapchain = 0; image_count = found.count }) h v new
              refl refl e)
        | inr some_found ↦ elim (Bool-cases (is_success r)) [
          | inl ok ↦ rw (some_found, ok) (init_views-live extent s1 h o rest new v1 few e)
          | inr failed ↦
              rw (some_found, failed)
                (leaves_failed o rest s1 (record s1 { swapchain = 0; image_count = 0 }) h v1 new
                  refl refl e)
        ]
      ]

  create_swapchain-live :
      (caps : SurfaceCapabilities) (h : History) (o : Object)
      → live
          (create d cfg.device
            (swapchain_info (record {
              surface = cfg.surface;
              min_image_count = choose_image_count caps;
              image_format = cfg.required_format;
              image_extent = select_extent cfg caps;
              pre_transform = caps.current_transform;
            }))
            h).1
          o
        ≡ live h o
  unfolding one kind_of live create
  create_swapchain-live caps h o = ground arith

  init_swapchain-live :
      (caps : SurfaceCapabilities) (s : SwapchainSc) (h : History) (o : Object) (rest : ℕ)
      → s.initialised ≡ false
      → IsValid s
      → live h o ≡ rest
      → Leaves o rest (init_swapchain d cfg caps s h)
  unfolding init_swapchain
  init_swapchain-live caps s h o rest new v e =
      let extent = select_extent cfg caps in
      let (made, h1) =
        create d cfg.device
          (swapchain_info (record {
            surface = cfg.surface;
            min_image_count = choose_image_count caps;
            image_format = cfg.required_format;
            image_extent = extent;
            pre_transform = caps.current_transform;
          }))
          h in
      let s1 = record s { swapchain = made.handle } in
      let v1 : IsValid s1 = record {
        images_room = v.images_room;
        views_room = v.views_room;
        count_fits = v.count_fits;
      } in
      let e1 : live h1 o ≡ rest = omega (arith, e, create_swapchain-live caps h o) in
      elim (Bool-cases (is_success made.result)) [
        | inl ok ↦ rw ok (init_images-live extent s1 h1 o rest new v1 e1)
        | inr failed ↦ rw failed (leaves_failed o rest s s1 h1 v new refl refl e1)
      ]

  -- `Init` either fails before it calls the driver's creation, or goes on with the creation.
  init_cases :
      (s : SwapchainSc) (h : History)
      → ((r : Result) × (init d cfg s h ≡ ((r, s), h)) × (is_ok r ≡ false))
        ⊎ ((s.initialised ≡ false)
            × (init d cfg s h
                ≡ init_swapchain d cfg
                    (d.surface_capabilities h cfg.phys_device cfg.surface).1
                    s
                    h))
  unfolding init
  init_cases s h =
      let caps = (d.surface_capabilities h cfg.phys_device cfg.surface).1 in
      let P : (Result × SwapchainSc) × History → Type 0 = λ z.
        ((r : Result) × (z ≡ ((r, s), h)) × (is_ok r ≡ false))
        ⊎ ((s.initialised ≡ false) × (z ≡ init_swapchain d cfg caps s h)) in
      let failed : P ((k_vksc_swapchain_failed, s), h) =
        inl (k_vksc_swapchain_failed, refl, refl) in
      let caps_failed = not (is_success (d.surface_capabilities h cfg.phys_device cfg.surface).0) in
      let formats = d.surface_formats h cfg.phys_device cfg.surface in
      let no_formats = not (is_success formats.count_result) || formats.count == 0 in
      let (fetched, got) = formats.fetch (at_most max_formats formats.count) in
      if_elim P s.initialised (λ on. inl (k_already_initialised, refl, refl))
        (λ new.
          if_elim P (cfg.device == 0 || cfg.phys_device == 0 || cfg.surface == 0)
            (λ g. inl (k_invalid_argument, refl, refl))
            (λ g.
              if_elim P caps_failed (λ g. failed)
                (λ g.
                  if_elim P no_formats (λ g. failed)
                    (λ g.
                      if_elim P (not (is_success fetched)) (λ g. failed)
                        (λ g.
                          if_elim P (not (format_found cfg.required_format got)) (λ g. failed)
                            (λ g. inr (new, refl)))))))

  -- Where an object is alive as often as a valid
  -- swapchain owns it, and `rest` times more, `Init` leaves it alive `rest` times more than the
  -- swapchain owns it afterwards, whether `Init` succeeds or fails at any point. The swapchain stays
  -- valid, so that it has at most `kMaxImages` images when it is initialised.
  pub swapchain_init-live :
      (s : SwapchainSc) (h : History) (o : Object) (rest : ℕ)
      → IsValid s
      → live h o ≡ swapchain_owned s o + rest
      → (live (init d cfg s h).1 o ≡ swapchain_owned (init d cfg s h).0.1 o + rest)
        × IsValid (init d cfg s h).0.1
  swapchain_init-live s h o rest v e =
      let Q : (Result × SwapchainSc) × History → Type 0 =
        λ z. (live z.1 o ≡ swapchain_owned z.0.1 o + rest) × IsValid z.0.1 in
      elim (init_cases s h) [
        | inl (r, same, f) ↦ subst Q (sym same) (e, v)
        | inr (new, going_on) ↦
            let caps = (d.surface_capabilities h cfg.phys_device cfg.surface).1 in
            subst Q (sym going_on)
              (init_swapchain-live caps s h o rest new v (ground (arith, e, new)))
      ]

  init_swapchain_rejects :
      (caps : SurfaceCapabilities) (s : SwapchainSc) (h : History)
      → ((h' : History) (swapchain : ℕ) → IsConforming (d.swapchain_images h' cfg.device swapchain))
      → ((h' : History) (swapchain : ℕ)
          → max_images < (d.swapchain_images h' cfg.device swapchain).count)
      → is_ok (init_swapchain d cfg caps s h).0.0 ≡ false
  unfolding init_swapchain init_images at_most
  init_swapchain_rejects caps s h conforming more =
      let (made, h1) =
        create d cfg.device
          (swapchain_info (record {
            surface = cfg.surface;
            min_image_count = choose_image_count caps;
            image_format = cfg.required_format;
            image_extent = select_extent cfg caps;
            pre_transform = caps.current_transform;
          }))
          h in
      let many = more h1 made.handle in
      ground (arith, many, (conforming h1 made.handle).truncated max_images many)

  -- If the driver's enumeration of the images is conforming and always counts more than `kMaxImages`
  -- images, no attempt succeeds: the count is cut to the room there is, and the driver's answer to the
  -- cut count, `VK_INCOMPLETE`, is taken as a failure.
  pub init_rejects_images :
      (s : SwapchainSc) (h : History)
      → ((h' : History) (swapchain : ℕ) → IsConforming (d.swapchain_images h' cfg.device swapchain))
      → ((h' : History) (swapchain : ℕ)
          → max_images < (d.swapchain_images h' cfg.device swapchain).count)
      → is_ok (init d cfg s h).0.0 ≡ false
  init_rejects_images s h conforming more = elim (init_cases s h) [
    | inl (r, same, failed) ↦ ap (λ z. is_ok z.0.0) same ∙ failed
    | inr (new, going_on) ↦
        let caps = (d.surface_capabilities h cfg.phys_device cfg.surface).1 in
        ap (λ z. is_ok z.0.0) going_on ∙ init_swapchain_rejects caps s h conforming more
  ]
