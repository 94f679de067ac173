-- ===== src/Float.antt =====
-- The C++ type `float` and the operations on it that the source uses. The model does not define them:
-- every definition that computes with a float takes this record, and a theorem that needs a fact
-- about floats names it as a hypothesis.
pub mod Tenths
use soteria.Prelude.{ℕ, Bool}

pub record Float (F : Type 0) : Type 0 where
  -- `std::isfinite`
  pub is_finite : F → Bool
  pub lt : F → F → Bool
  pub le : F → F → Bool
  pub neg : F → F
  pub add : F → F → F
  pub sub : F → F → F
  pub mul : F → F → F
  pub div : F → F → F
  -- The literal `n * 10^-k`, as in `literal 92 2` for `0.92F`.
  pub literal : ℕ → ℕ → F
  -- `static_cast<uint32_t>`, where the C++ standard defines it, and back.
  pub to_u32 : F → ℕ
  pub of_u32 : ℕ → F
  -- `std::sin` and `std::cos`
  pub sin : F → F
  pub cos : F → F

-- `0.0F`
abbrev pub zero_f : {F : Type 0} ⦃fl : Float F⦄ → F
zero_f ⦃fl⦄ = fl.literal 0 0
