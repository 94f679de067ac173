-- ===== src/FixedString/Float.antt =====
-- engine/core/fixed_string.hpp: `AppendFloat`, over an abstract float.
-- The padding loop divides `padScale`, a power of ten below `scale`, by ten in each round, so the number
-- of decimals is enough fuel; FixedString/Padding shows that the loop ends by its test.
use soteria.Prelude.{
  ℕ, zero, suc, ◌+◌, ◌-◌, ◌*◌, ◌/◌, ◌%◌, ◌^◌, Bool, not, ◌&&◌, some, [], ◌∷◌, ltb, leb,
  if◌then◌else◌,
}
use soteria.Float.{Float, zero_f}
use soteria.FixedString.{FixedString, append, append_u_dec}

-- `for (i = 0; i < clampedDec; ++i) { scale *= 10U; }`
unfoldable pub scale_loop : ℕ → ℕ → ℕ
scale_loop zero scale = scale
scale_loop (suc rounds) scale = scale_loop rounds (scale * 10 % 2 ^ 32)

-- `(decimals > 4U) ? 4U : decimals`
unfoldable pub clamped_dec : ℕ → ℕ
clamped_dec decimals = if ltb 4 decimals then 4 else decimals

-- `while ((padScale > 1U) && (fracPart < padScale))`
unfoldable pub pad_loop : ℕ → ℕ → ℕ → ℕ → FixedString → FixedString
pad_loop zero cap frac pad_scale s = s
pad_loop (suc fuel) cap frac pad_scale s =
    let rest = pad_loop fuel cap frac (pad_scale / 10) (append cap (some (b'0' ∷ [])) s) in
    if ltb 1 pad_scale && ltb frac pad_scale then rest else s

-- The integer and fractional parts after the carry.
pub record Parts : Type 0 where
  pub int_part : ℕ
  pub frac_part : ℕ

unfoldable pub carry : ℕ → ℕ → ℕ → Parts
carry scale int frac =
    if leb scale frac
    then record { int_part = (int + 1) % 2 ^ 32; frac_part = frac - scale }
    else record { int_part = int; frac_part = frac }

-- What follows the sign: the integer part, and the point with the padded fraction.
unfoldable pub append_parts : ℕ → ℕ → ℕ → Parts → FixedString → FixedString
append_parts cap dec scale p s =
    let whole = append_u_dec cap p.int_part s in
    if ltb 0 dec
    then append_u_dec cap p.frac_part
        (pad_loop dec cap p.frac_part (scale / 10) (append cap (some (b'.' ∷ [])) whole))
    else whole

-- The prefix that the sign of `val` asks for.
unfoldable pub append_sign : ℕ → Bool → Bool → FixedString → FixedString
append_sign cap negative show_sign s =
    if negative
    then append cap (some (b'-' ∷ [])) s
    else if show_sign
    then append cap (some (b'+' ∷ [])) s
    else s

module _ {F : Type 0} ⦃fl : Float F⦄ where
  unfoldable pub abs_val : F → F
  abs_val val = if fl.lt val zero_f then fl.neg val else val

  -- `(absVal - static_cast<float>(intPart)) * static_cast<float>(scale) + 0.5F`, as a `uint32_t`.
  unfoldable pub rounded_fraction : F → ℕ → ℕ
  rounded_fraction val scale =
      fl.to_u32 (
        fl.add (fl.mul (fl.sub val (fl.of_u32 (fl.to_u32 val))) (fl.of_u32 scale)) (fl.literal 5 1))

  -- `AppendFloat`
  unfoldable pub append_float : ℕ → F → ℕ → Bool → FixedString → FixedString
  append_float cap val decimals show_sign s =
      let dec = clamped_dec decimals in
      let scale = scale_loop dec 1 in
      let absolute = abs_val val in
      if not (fl.is_finite val)
      then append cap (some (b'?' ∷ [])) s
      else append_parts cap dec scale
          (carry scale (fl.to_u32 absolute) (rounded_fraction absolute scale))
          (append_sign cap (fl.lt val zero_f) show_sign s)
