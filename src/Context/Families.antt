-- ===== src/Context/Families.antt =====
-- engine/core/vksc_context.cpp: the queue family that the loop over the families finds.
use soteria.Prelude.{
  ℕ, ◌≡◌, refl, ap, inl, inr, ◌⊎◌, Option, none, some, List, [], ◌∷◌, arith, All, Bool-cases, ==→eq,
  suc, ◌+◌, ◌%◌, ◌/◌, ◌^◌, ◌∙◌, take, get_elem?,
}
use soteria.Bits.{test_bit}
use soteria.Context.{graphics_family}

-- `VK_QUEUE_GRAPHICS_BIT`
abbrev pub HasGraphics : ℕ → Type 0
HasGraphics flags = flags % 2 ≡ 1

-- `family` is the first of the families with a graphics queue.
abbrev pub IsFirstFamily : (families : List ℕ) → (family : ℕ) → Type 0
IsFirstFamily families family =
    ((flags : ℕ) × (get_elem? families family ≡ some flags) × HasGraphics flags)
    × All (λ flags. ¬ HasGraphics flags) (take family families)

-- What `graphics_family` finds, counting from `f`.
abbrev pub FamilyOutcome : List ℕ → ℕ → Option ℕ → Type 0
FamilyOutcome families f o =
    ((o ≡ none) × All (λ flags. ¬ HasGraphics flags) families)
    ⊎ ((family : ℕ) × (o ≡ some (f + family)) × IsFirstFamily families family)

pub graphics_family-outcome :
    (families : List ℕ) (f : ℕ) → FamilyOutcome families f (graphics_family families f)
unfolding graphics_family
graphics_family-outcome [] f = inl (refl, tt)
graphics_family-outcome (flags ∷ families) f = elim (Bool-cases (test_bit flags 0)) [
  | inl on ↦ inr (
    0,
    rw on (ap some (omega arith)),
    ((flags, refl, omega (arith, ==→eq (flags / 2 ^ 0 % 2) 1 on)), tt),
  )
  | inr off ↦
      let no : ¬ HasGraphics flags = λ odd. ground (arith, off, odd) in
      elim (graphics_family-outcome families (f + 1)) [
        | inl (missing, rejected) ↦ inl (rw off missing, (no, rejected))
        | inr (family, same, (has, before)) ↦
            inr (suc family, rw off (same ∙ ap some (omega arith)), (has, (no, before)))
      ]
]
