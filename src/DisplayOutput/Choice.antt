-- ===== src/DisplayOutput/Choice.antt =====
-- engine/wsi/display_output.cpp: the mode with the most pixels, and the first plane that supports the
-- display.
use soteria.Prelude.{
  ℕ, zero, suc, ◌+◌, ◌≤◌, ◌<◌, ◌≡◌, ◌≢◌, refl, sym, ap, subst, ◌∙◌, inl, inr, ◌⊎◌, Bool, true,
  false, Option, none, some, List, [], ◌∷◌, arith, length, ltb, if◌then◌else◌, Bool-cases,
}
use soteria.Vulkan.Info.{DisplayMode}
use soteria.Vulkan.{Driver, History}
use soteria.DisplayOutput.{best_mode, pixels, choose_plane, enumerate, supports, max_displays}

-- The pixel count of a mode of the list, 0 outside it.
abbrev pub pixels_at : List DisplayMode → ℕ → ℕ
pixels_at [] i = 0
pixels_at (mode ∷ modes) zero = pixels mode
pixels_at (mode ∷ modes) (suc i) = pixels_at modes i

-- The mode `i` has more pixels than every mode before it, and at least as many as every mode.
pub record IsFirstLargest (modes : List DisplayMode) (i : ℕ) : Type 0 where
  pub largest : (j : ℕ) → pixels_at modes j ≤ pixels_at modes i
  pub first : (j : ℕ) → j < i → pixels_at modes j < pixels_at modes i

-- What the loop finds from the mode `m` on: a better mode, or that there is none.
record IsBetter (modes : List DisplayMode) (m best_pixels found i : ℕ) : Type 0 where
  place : found ≡ m + i
  inside : i < length modes
  better : best_pixels < pixels_at modes i
  best : IsFirstLargest modes i

best_mode_from :
    (modes : List DisplayMode) (m best_pixels best_index : ℕ)
    → let found = best_mode modes m best_pixels best_index in
      ((found ≡ best_index) × ((j : ℕ) → pixels_at modes j ≤ best_pixels))
      ⊎ ((i : ℕ) × IsBetter modes m best_pixels found i)
unfolding best_mode
best_mode_from [] m best_pixels best_index = inl (refl, λ j. omega arith)
best_mode_from (mode ∷ modes) m best_pixels best_index =
    elim (Bool-cases (ltb best_pixels (pixels mode))) [
      | inl more ↦ elim (best_mode_from modes (m + 1) (pixels mode) m) [
        | inl (e, bound) ↦ inr (
          0,
          record {
            place = rw more (omega (arith, e));
            inside = omega arith;
            better = ground (arith, more);
            best = record {
              largest = head_or_tail (λ n. n ≤ pixels mode) (omega arith) bound;
              first = λ j h. absurd (omega arith);
            };
          },
        )
        | inr (i, b) ↦ inr (
          suc i,
          record {
            place = rw more (omega (arith, b.place));
            inside = omega (arith, b.inside);
            better = ground (arith, more, b.better);
            best = later i b.best b.better;
          },
        )
      ]
      | inr less ↦ elim (best_mode_from modes (m + 1) best_pixels best_index) [
        | inl (e, bound) ↦
            inl (rw less e, head_or_tail (λ n. n ≤ best_pixels) (ground (arith, less)) bound)
        | inr (i, b) ↦ inr (
          suc i,
          record {
            place = rw less (omega (arith, b.place));
            inside = omega (arith, b.inside);
            better = b.better;
            best = later i b.best (ground (arith, less, b.better));
          },
        )
      ]
    ]
  where
    head_or_tail :
        (P : ℕ → Type 0)
        → P (pixels mode)
        → ((j : ℕ) → P (pixels_at modes j))
        → (j : ℕ) → P (pixels_at (mode ∷ modes) j)
    head_or_tail P a f zero = a
    head_or_tail P a f (suc j) = f j

    earlier :
        (i : ℕ)
        → IsFirstLargest modes i
        → pixels mode < pixels_at modes i
        → (j : ℕ) → j < suc i
        → pixels_at (mode ∷ modes) j < pixels_at modes i
    earlier i b h zero k = h
    earlier i b h (suc j) k = b.first j (omega (arith, k))

    later :
        (i : ℕ)
        → IsFirstLargest modes i
        → pixels mode < pixels_at modes i
        → IsFirstLargest (mode ∷ modes) (suc i)
    later i b h = record {
      largest = head_or_tail (λ n. n ≤ pixels_at modes i) (omega (arith, h)) b.largest;
      first = earlier i b h;
    }

-- Of a list that is not empty, the mode that `Init` takes is one of the list; its pixel count, as
-- computed in 32 bits, is the largest of all, and larger than that of every mode before it.
pub best_mode_lem :
    (modes : List DisplayMode)
    → modes ≢ []
    → (best_mode modes 0 0 0 < length modes) × IsFirstLargest modes (best_mode modes 0 0 0)
best_mode_lem [] h = absurd (h refl)
best_mode_lem (mode ∷ modes) h = elim (best_mode_from (mode ∷ modes) 0 0 0) [
  | inl (e, bound) ↦
      subst (λ k. (k < length (mode ∷ modes)) × IsFirstLargest (mode ∷ modes) k) (sym e)
        (
          omega arith,
          record {
            largest = λ j. omega (arith, bound j);
            first = λ j k. absurd (omega (arith, k));
          },
        )
  | inr (i, b) ↦
      let e : i ≡ best_mode (mode ∷ modes) 0 0 0 = omega (arith, b.place) in
      subst (λ k. (k < length (mode ∷ modes)) × IsFirstLargest (mode ∷ modes) k) e
        (b.inside, b.best)
]

-- The same of a list that may be empty.
pub best_mode-IsFirstLargest :
    (modes : List DisplayMode) → IsFirstLargest modes (best_mode modes 0 0 0)
unfolding best_mode
best_mode-IsFirstLargest [] = record {
  largest = λ j. omega arith;
  first = λ j k. absurd (omega (arith, k));
}
best_mode-IsFirstLargest (mode ∷ modes) = (best_mode_lem (mode ∷ modes) (λ e. cons≢nil e)).1
  where
    is_cons : List DisplayMode → Bool
    is_cons [] = false
    is_cons (m ∷ ms) = true

    cons≢nil : mode ∷ modes ≢ []
    cons≢nil e = ground (arith, ap is_cons e)

module _ (d : Driver) (h : History) (pd display : ℕ) where
  -- The plane `p` supports the display: both calls succeed, and the display is among those written.
  unfoldable pub plane_supports : ℕ → Bool
  plane_supports p = elim (enumerate max_displays (d.plane_displays h pd p)) [
    | none ↦ false
    | some displays ↦ supports display displays
  ]

  supports_cases :
      (o : Option (List ℕ)) (p : ℕ) (rest : Option ℕ)
      → (elim o [
        | none ↦ rest
        | some displays ↦ if supports display displays then some p else rest
      ])
        ≡ (if elim o [ none ↦ false | some displays ↦ supports display displays ]
            then some p
            else rest)
  supports_cases none p rest = refl
  supports_cases (some displays) p rest = refl

  choose_plane-suc :
      (left p : ℕ)
      → choose_plane d h pd display (suc left) p
        ≡ (if plane_supports p then some p else choose_plane d h pd display left (p + 1))
  unfolding choose_plane plane_supports
  choose_plane-suc left p =
      supports_cases (enumerate max_displays (d.plane_displays h pd p)) p
        (choose_plane d h pd display left (p + 1))

  -- From the plane `p` on, `found` is the first of the next planes that supports the display.
  abbrev IsFirstFrom : (left p : ℕ) → Option ℕ → Type 0
  IsFirstFrom left p found =
      ((i : ℕ) × (found ≡ some (p + i))
        × (i < left)
        × (plane_supports (p + i) ≡ true)
        × ((j : ℕ) → j < i → plane_supports (p + j) ≡ false))
      ⊎ ((found ≡ none) × ((j : ℕ) → j < left → plane_supports (p + j) ≡ false))

  shift : (p j : ℕ) → p + 1 + j ≡ p + suc j
  shift p j = omega arith

  after_bad :
      (p n : ℕ)
      → plane_supports p ≡ false
      → ((j : ℕ) → j < n → plane_supports (p + 1 + j) ≡ false)
      → (j : ℕ) → j < suc n
      → plane_supports (p + j) ≡ false
  after_bad p n bad f zero k = let e : p + 0 ≡ p = omega arith in ap plane_supports e ∙ bad
  after_bad p n bad f (suc j) k = ap plane_supports (sym (shift p j)) ∙ f j (omega (arith, k))

  choose_plane_from : (left p : ℕ) → IsFirstFrom left p (choose_plane d h pd display left p)
  unfolding choose_plane
  choose_plane_from zero p = inr (refl, λ j k. absurd (omega arith))
  choose_plane_from (suc left) p =
      subst (IsFirstFrom (suc left) p) (sym (choose_plane-suc left p))
        (elim (Bool-cases (plane_supports p)) [
          | inl good ↦
              let e : p ≡ p + 0 = omega arith in
              inl (
                0,
                rw good (ap some e),
                omega arith,
                ap plane_supports (sym e) ∙ good,
                λ j k. absurd (omega arith),
              )
          | inr bad ↦ elim (choose_plane_from left (p + 1)) [
            | inl (i, found, inside, good, before) ↦ inl (
              suc i,
              rw bad (found ∙ ap some (shift p i)),
              omega (arith, inside),
              ap plane_supports (sym (shift p i)) ∙ good,
              after_bad p i bad before,
            )
            | inr (missing, nowhere) ↦ inr (rw bad missing, after_bad p left bad nowhere)
          ]
        ])

  -- The plane that `Init` takes is the first of the planes that supports the display; there is none
  -- exactly if none of them supports it.
  pub choose_plane_lem :
      (count : ℕ)
      → ((p : ℕ) × (choose_plane d h pd display count 0 ≡ some p)
          × (p < count)
          × (plane_supports p ≡ true)
          × ((j : ℕ) → j < p → plane_supports j ≡ false))
        ⊎ ((choose_plane d h pd display count 0 ≡ none)
            × ((j : ℕ) → j < count → plane_supports j ≡ false))
  choose_plane_lem count =
      let z : (n : ℕ) → 0 + n ≡ n = λ n. omega arith in
      let back : (n : ℕ)
          → ((j : ℕ) → j < n → plane_supports (0 + j) ≡ false)
          → (j : ℕ) → j < n
          → plane_supports j ≡ false =
        λ n f j k. ap plane_supports (sym (z j)) ∙ f j k in
      elim (choose_plane_from count 0) [
        | inl (i, found, inside, good, before) ↦
            inl (
              i,
              found ∙ ap some (z i),
              inside,
              ap plane_supports (sym (z i)) ∙ good,
              back i before,
            )
        | inr (missing, nowhere) ↦ inr (missing, back count nowhere)
      ]

  -- A plane that the loop gives supports the display, and no plane before it does.
  pub choose_plane-some :
      (count plane : ℕ)
      → choose_plane d h pd display count 0 ≡ some plane
      → (plane_supports plane ≡ true) × ((p : ℕ) → p < plane → plane_supports p ≡ false)
  choose_plane-some count plane e = elim (choose_plane_lem count) [
    | inl (p, found, inside, good, before) ↦
        let same : p ≡ plane = ap (or_zero) (sym found ∙ e) in
        subst (λ q. (plane_supports q ≡ true) × ((j : ℕ) → j < q → plane_supports j ≡ false)) same
          (good, before)
    | inr (missing, nowhere) ↦ ground (arith, sym missing ∙ e)
  ]
    where
      or_zero : Option ℕ → ℕ
      or_zero none = 0
      or_zero (some n) = n
