-- ===== src/FixedString/Rounding.antt =====
-- engine/core/fixed_string.hpp: the text of `AppendFloat` is the fixed-point numeral of its rounded
-- value, carry and padding included.
use soteria.Prelude.{
  ℕ, zero, suc, ◌+◌, ◌*◌, ◌/◌, ◌%◌, ◌^◌, ◌≤◌, ◌<◌, ◌≡◌, refl, ◌∙◌, subst, Bool, true, false, List,
  [], ◌∷◌, ◌++◌, arith, length, append-nil, lt→ltb, All, All-append,
}
use soteria.Float.{Float, zero_f}
use soteria.FixedString.{FixedString}
use soteria.FixedString.Bounds.{
  IsValid, Writes, Writes-trans, Writes-nil, append-Writes, u_dec_text, append_u_dec-Writes,
}
use soteria.FixedString.Decimal.{IsDigit, read_dec, IsNumeral, u_dec_text-IsNumeral}
use soteria.FixedString.Float.{
  scale_loop, clamped_dec, Parts, carry, append_parts, append_sign, abs_val, rounded_fraction,
  append_float,
}
use soteria.FixedString.Padding.{
  All-pad_text, pad_text, pad_loop-Writes, length-pad_text, read_from-pad_text,
}

-- The carry splits the fixed-point number `int * scale + frac` into its parts.
record IsSplit (dec int frac : ℕ) (p : Parts) : Type 0 where
  whole : p.int_part ≡ (int * 10 ^ dec + frac) / 10 ^ dec
  rest : p.frac_part ≡ (int * 10 ^ dec + frac) % 10 ^ dec
  below : p.frac_part < 10 ^ dec
  fits : p.int_part < 2 ^ 32

carry-IsSplit :
    (dec int frac : ℕ)
    → dec ≤ 4
    → frac ≤ 10 ^ dec
    → int + 1 < 2 ^ 32
    → IsSplit dec int frac (carry (scale_loop dec 1) int frac)
unfolding carry scale_loop
carry-IsSplit zero int frac h f i = ground arith
carry-IsSplit (suc zero) int frac h f i = ground arith
carry-IsSplit (suc (suc zero)) int frac h f i = ground arith
carry-IsSplit (suc (suc (suc zero))) int frac h f i = ground arith
carry-IsSplit (suc (suc (suc (suc zero)))) int frac h f i = ground arith
carry-IsSplit (suc (suc (suc (suc (suc dec))))) int frac h f i = absurd (omega arith)

scale_tenth : (dec : ℕ) → dec < 4 → scale_loop (suc dec) 1 / 10 ≡ 10 ^ dec
unfolding scale_loop
scale_tenth zero h = refl
scale_tenth (suc zero) h = refl
scale_tenth (suc (suc zero)) h = refl
scale_tenth (suc (suc (suc zero))) h = refl
scale_tenth (suc (suc (suc (suc dec)))) h = absurd (omega arith)

-- The digits behind the point.
abbrev pub decimals_text : ℕ → ℕ → List ℕ
decimals_text zero frac = []
decimals_text (suc dec) frac = pad_text (suc dec) frac (10 ^ dec) ++ u_dec_text frac

-- The point stands only before digits.
abbrev pub behind_point : List ℕ → List ℕ
behind_point [] = []
behind_point (c ∷ cs) = b'.' ∷ c ∷ cs

-- The prefix for the sign.
abbrev pub sign_text : Bool → Bool → List ℕ
sign_text true show_sign = b'-' ∷ []
sign_text false true = b'+' ∷ []
sign_text false false = []

-- The fixed-point numeral of `total`, with `dec` decimals, all of them digits.
pub record IsFixedPoint (dec total : ℕ) (whole decimals : List ℕ) : Type 0 where
  pub numeral : IsNumeral 10 (total / 10 ^ dec) whole
  pub width : length decimals ≡ dec
  pub digits : All IsDigit decimals
  pub value : read_dec decimals ≡ total % 10 ^ dec

behind_point-decimals :
    (dec frac : ℕ)
    → dec < 4
    → frac < 10 ^ suc dec
    → behind_point (decimals_text (suc dec) frac) ≡ b'.' ∷ decimals_text (suc dec) frac
behind_point-decimals dec frac h low =
    nonempty (decimals_text (suc dec) frac)
      (omega (arith, length-pad_text dec frac (omega arith) low))
  where
    nonempty : (cs : List ℕ) → 0 < length cs → behind_point cs ≡ b'.' ∷ cs
    nonempty [] p = elim p [ ]
    nonempty (c ∷ cs) p = refl

-- What follows the sign.
abbrev pub parts_text : ℕ → Parts → List ℕ
parts_text zero p = u_dec_text p.int_part
parts_text (suc dec) p = u_dec_text p.int_part ++ (b'.' ∷ decimals_text (suc dec) p.frac_part)

pub append_parts-Writes :
    {cap : ℕ} (dec : ℕ) (p : Parts) {s : FixedString}
    → dec ≤ 4
    → IsValid cap s
    → Writes cap (parts_text dec p) s (append_parts cap dec (scale_loop dec 1) p s)
unfolding append_parts
append_parts-Writes zero p {s} h v = append_u_dec-Writes p.int_part v
append_parts-Writes {cap} (suc dec) p {s} h v =
    rw (lt→ltb 0 (suc dec) (omega arith), scale_tenth dec (omega arith))
      (let whole = append_u_dec-Writes p.int_part v in
        let point = append-Writes (b'.' ∷ []) whole.valid in
        let zeros = pad_loop-Writes (suc dec) p.frac_part (10 ^ dec) point.valid in
        Writes-trans whole
          (Writes-trans point (Writes-trans zeros (append_u_dec-Writes p.frac_part zeros.valid))))

parts_text-behind_point :
    (dec : ℕ) (p : Parts)
    → dec ≤ 4
    → p.frac_part < 10 ^ dec
    → parts_text dec p ≡ u_dec_text p.int_part ++ behind_point (decimals_text dec p.frac_part)
parts_text-behind_point zero p h low = rw append-nil refl
parts_text-behind_point (suc dec) p h low =
    rw (behind_point-decimals dec p.frac_part (omega arith) low) refl

pub append_sign-Writes :
    {cap : ℕ} (negative show_sign : Bool) {s : FixedString}
    → IsValid cap s
    → Writes cap (sign_text negative show_sign) s (append_sign cap negative show_sign s)
unfolding append_sign
append_sign-Writes true show_sign v = append-Writes (b'-' ∷ []) v
append_sign-Writes false true v = append-Writes (b'+' ∷ []) v
append_sign-Writes false false v = Writes-nil v

small_scale : (dec : ℕ) → dec ≤ 4 → 10 ^ dec < 2 ^ 32
small_scale zero h = omega arith
small_scale (suc zero) h = omega arith
small_scale (suc (suc zero)) h = omega arith
small_scale (suc (suc (suc zero))) h = omega arith
small_scale (suc (suc (suc (suc zero)))) h = omega arith
small_scale (suc (suc (suc (suc (suc dec))))) h = absurd (omega arith)

pub clamped_dec_le : (decimals : ℕ) → clamped_dec decimals ≤ 4
unfolding clamped_dec
clamped_dec_le decimals = ground arith

decimals-IsFixedPoint :
    (dec int frac : ℕ) {p : Parts}
    → dec ≤ 4
    → IsSplit dec int frac p
    → IsFixedPoint dec
        (int * 10 ^ dec + frac)
        (u_dec_text p.int_part)
        (decimals_text dec p.frac_part)
decimals-IsFixedPoint dec int frac {p} h e = record {
  numeral =
      subst (λ n. IsNumeral 10 n (u_dec_text p.int_part)) e.whole
        (u_dec_text-IsNumeral p.int_part e.fits);
  width = width_lem dec p.frac_part h e.below;
  digits = digits_lem dec p.frac_part h e.below;
  value = value_lem dec p.frac_part e.below h ∙ e.rest;
}
  where
    width_lem : (d f : ℕ) → d ≤ 4 → f < 10 ^ d → length (decimals_text d f) ≡ d
    width_lem zero f l b = refl
    width_lem (suc d) f l b = length-pad_text d f (omega arith) b

    digits_lem : (d f : ℕ) → d ≤ 4 → f < 10 ^ d → All IsDigit (decimals_text d f)
    digits_lem zero f l b = tt
    digits_lem (suc d) f l b =
        let n = u_dec_text-IsNumeral f (omega (arith, small_scale (suc d) l)) in
        All-append IsDigit (pad_text (suc d) f (10 ^ d)) (u_dec_text f)
          (All-pad_text (suc d) f (10 ^ d)) n.digits

    value_lem : (d f : ℕ) → f < 10 ^ d → d ≤ 4 → read_dec (decimals_text d f) ≡ f
    value_lem zero f b l = omega arith
    value_lem (suc d) f b l =
        let n = u_dec_text-IsNumeral f (omega (arith, small_scale (suc d) l)) in
        read_from-pad_text (suc d) f (10 ^ d) (u_dec_text f) ∙ n.value

module _ {F : Type 0} ⦃fl : Float F⦄ where
  -- What the theorem takes of the float `val`: the integer part of its absolute value is below
  -- `UINT32_MAX`, where the conversions to `uint32_t` are defined, and the rest of it, scaled and
  -- rounded, is at most the scale, since a fraction is below one.
  pub record IsRounded (dec : ℕ) (val : F) : Type 0 where
    pub int_fits : fl.to_u32 (abs_val val) + 1 < 2 ^ 32
    pub fraction_le : rounded_fraction (abs_val val) (scale_loop dec 1) ≤ 10 ^ dec

  -- The fixed-point value of the float, in units of `10 ^ -dec`.
  abbrev pub scaled_value : ℕ → F → ℕ
  scaled_value dec val =
      fl.to_u32 (abs_val val) * 10 ^ dec + rounded_fraction (abs_val val) (scale_loop dec 1)

  pub append_float_lem :
      (cap : ℕ) (val : F) (decimals : ℕ) (show_sign : Bool) (s : FixedString)
      → IsValid cap s
      → fl.is_finite val ≡ true
      → IsRounded (clamped_dec decimals) val
      → (whole : List ℕ) × (fraction : List ℕ) × IsFixedPoint
          (clamped_dec decimals)
          (scaled_value (clamped_dec decimals) val)
          whole
          fraction
        × Writes cap
            (sign_text (fl.lt val zero_f) show_sign ++ (whole ++ behind_point fraction))
            s
            (append_float cap val decimals show_sign s)
  unfolding append_float
  append_float_lem cap val decimals show_sign s v finite r =
      let dec = clamped_dec decimals in
      let int = fl.to_u32 (abs_val val) in
      let frac = rounded_fraction (abs_val val) (scale_loop dec 1) in
      let p = carry (scale_loop dec 1) int frac in
      let split : IsSplit dec int frac p =
        carry-IsSplit dec int frac (clamped_dec_le decimals) r.fraction_le r.int_fits in
      let sign = append_sign-Writes (fl.lt val zero_f) show_sign v in
      let t =
        append_parts cap dec (scale_loop dec 1) p
          (append_sign cap (fl.lt val zero_f) show_sign s) in
      (
        u_dec_text p.int_part,
        decimals_text dec p.frac_part,
        decimals-IsFixedPoint dec int frac (clamped_dec_le decimals) split,
        rw finite (
            subst (λ cs. Writes cap (sign_text (fl.lt val zero_f) show_sign ++ cs) s t)
              (parts_text-behind_point dec p (clamped_dec_le decimals) split.below)
              (Writes-trans sign (append_parts-Writes dec p (clamped_dec_le decimals) sign.valid))),
      )
