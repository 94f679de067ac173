-- ===== src/VertexBuffer/Memory.antt =====
-- engine/rendering/vertex_buffer.cpp: the memory type that `Init` chooses.
use soteria.Prelude.{
  ℕ, zero, suc, ◌+◌, ◌<◌, ◌≡◌, refl, sym, ap, ◌∙◌, inl, inr, ◌⊎◌, Bool, true, false, ◌&&◌, Option,
  none, some, List, [], ◌∷◌, arith, length, get_elem?, Bool-cases,
}
use soteria.Bits.{test_bit}
use soteria.VertexBuffer.{flags_match, find_memory_type, invalid_memory_type}

-- Flags at position `mt` may be used: the type is allowed by the bits and has the required flags.
abbrev suits_at : (bits mt : ℕ) → Option ℕ → Bool
suits_at bits mt none = false
suits_at bits mt (some flags) = test_bit bits mt && flags_match flags

-- The same of the type `mt` of the list.
abbrev pub is_suitable : ℕ → List ℕ → ℕ → Bool
is_suitable bits types mt = suits_at bits mt (get_elem? types mt)

-- The same of the types from the type `mt` on.
abbrev suits_from : ℕ → List ℕ → (mt i : ℕ) → Bool
suits_from bits [] mt i = false
suits_from bits (flags ∷ types) mt zero = test_bit bits mt && flags_match flags
suits_from bits (flags ∷ types) mt (suc i) = suits_from bits types (mt + 1) i

record IsFirst (bits : ℕ) (types : List ℕ) (mt i found : ℕ) : Type 0 where
  place : found ≡ mt + i
  inside : i < length types
  suits : suits_from bits types mt i ≡ true
  first : (j : ℕ) → j < i → suits_from bits types mt j ≡ false

find_from :
    (bits : ℕ) (types : List ℕ) (mt : ℕ)
    → ((i : ℕ) × IsFirst bits types mt i (find_memory_type bits types mt))
      ⊎ ((find_memory_type bits types mt ≡ invalid_memory_type)
          × ((j : ℕ) → suits_from bits types mt j ≡ false))
unfolding find_memory_type
find_from bits [] mt = inr (refl, λ j. refl)
find_from bits (flags ∷ types) mt = elim (Bool-cases (test_bit bits mt && flags_match flags)) [
  | inl good ↦ inl (
    0,
    record {
      place = rw good (omega arith);
      inside = omega arith;
      suits = good;
      first = λ j h. absurd (omega arith);
    },
  )
  | inr bad ↦ elim (find_from bits types (mt + 1)) [
    | inl (i, f) ↦ inl (
      suc i,
      record {
        place = rw bad (omega (arith, f.place));
        inside = omega (arith, f.inside);
        suits = f.suits;
        first = first_suc bad f.first;
      },
    )
    | inr (missing, nowhere) ↦ inr (rw bad missing, nowhere_suc bad nowhere)
  ]
]
  where
    first_suc :
        {i : ℕ}
        → (test_bit bits mt && flags_match flags) ≡ false
        → ((j : ℕ) → j < i → suits_from bits types (mt + 1) j ≡ false)
        → (j : ℕ) → j < suc i
        → suits_from bits (flags ∷ types) mt j ≡ false
    first_suc bad f zero h = bad
    first_suc bad f (suc j) h = f j (omega arith)

    nowhere_suc :
        (test_bit bits mt && flags_match flags) ≡ false
        → ((j : ℕ) → suits_from bits types (mt + 1) j ≡ false)
        → (j : ℕ) → suits_from bits (flags ∷ types) mt j ≡ false
    nowhere_suc bad f zero = bad
    nowhere_suc bad f (suc j) = f j

suits_from-is_suitable :
    (bits : ℕ) (types : List ℕ) (mt i : ℕ)
    → suits_from bits types mt i ≡ suits_at bits (mt + i) (get_elem? types i)
suits_from-is_suitable bits [] mt i = refl
suits_from-is_suitable bits (flags ∷ types) mt zero =
    let e : mt ≡ mt + 0 = omega arith in ap (λ k. suits_at bits k (some flags)) e
suits_from-is_suitable bits (flags ∷ types) mt (suc i) =
    let e : mt + 1 + i ≡ mt + suc i = omega arith in
    suits_from-is_suitable bits types (mt + 1) i ∙ ap (λ k. suits_at bits k (get_elem? types i)) e

from_zero :
    (bits : ℕ) (types : List ℕ) (i : ℕ) → suits_from bits types 0 i ≡ is_suitable bits types i
from_zero bits types i =
    let e : 0 + i ≡ i = omega arith in
    suits_from-is_suitable bits types 0 i ∙ ap (λ k. suits_at bits k (get_elem? types i)) e

-- The search gives the first type of the list that may be used, or `kInvalidMemoryType` if there is none.
pub find_memory_type_lem :
    (bits : ℕ) (types : List ℕ)
    → let found = find_memory_type bits types 0 in
      ((found < length types)
        × (is_suitable bits types found ≡ true)
        × ((j : ℕ) → j < found → is_suitable bits types j ≡ false))
      ⊎ ((found ≡ invalid_memory_type) × ((j : ℕ) → is_suitable bits types j ≡ false))
find_memory_type_lem bits types = elim (find_from bits types 0) [
  | inl (i, f) ↦
      let e : find_memory_type bits types 0 ≡ i = omega (arith, f.place) in
      inl (
        rw e f.inside,
        rw e (sym (from_zero bits types i) ∙ f.suits),
        rw e (λ j h. sym (from_zero bits types j) ∙ f.first j h),
      )
  | inr (missing, nowhere) ↦ inr (missing, λ j. sym (from_zero bits types j) ∙ nowhere j)
]
