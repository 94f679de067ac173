-- ===== src/FixedString/Examples.antt =====
-- Runs of the string builder.
use soteria.Prelude.{
  All, ℕ, ◌*◌, ◌%◌, ◌^◌, ◌≡◌, refl, true, some, List, [], ◌∷◌, ◌++◌, arith, length, take, max, min,
  negsuc,
}
use soteria.Float.{zero_f}
use soteria.Float.Tenths.{tenths}
use soteria.FixedString.{empty, text, append_u_dec, append_i_dec, append_hex}
use soteria.FixedString.Float.{append_float, clamped_dec, abs_val, rounded_fraction, scale_loop}
use soteria.FixedString.Bounds.{IsValid, Writes, empty-IsValid}
use soteria.FixedString.Decimal.{IsNumeral}
use soteria.FixedString.Messages.{Piece, str, u_dec, hex, float, build, message, build_refines}
use soteria.FixedString.Hex.{IsHexDigit, read_hex_from}
use soteria.FixedString.Numerals.{append_u_dec_lem, append_i_dec_negative, append_hex_lem}
use soteria.FixedString.Rounding.{
  IsFixedPoint, IsRounded, scaled_value, sign_text, behind_point, append_float_lem,
}

-- 2.7, as the last piece.
abbrev pieces : List (Piece ℕ)
pieces = str (some (b'n' ∷ b'=' ∷ [])) ∷ u_dec 42 ∷ hex 255 4 ∷ float 27 1 true ∷ []

build_refines_example :
    IsValid 8 (build 8 pieces (empty 8))
    × (text (build 8 pieces (empty 8)) ≡ take 7 (message pieces))
build_refines_example = build_refines 8 pieces (omega arith)

append_u_dec_lem_example :
    (cs : List ℕ) × IsNumeral 10 4096 cs × Writes 4 cs (empty 4) (append_u_dec 4 4096 (empty 4))
append_u_dec_lem_example =
    append_u_dec_lem 4 4096 (empty 4) (empty-IsValid 4 (omega arith)) (omega arith)

append_i_dec_negative_example :
    (cs : List ℕ) × IsNumeral 10 2147483648 cs
    × Writes 16 (b'-' ∷ cs) (empty 16) (append_i_dec 16 (negsuc 2147483647) (empty 16))
append_i_dec_negative_example =
    append_i_dec_negative 16 2147483647 (empty 16) (empty-IsValid 16 (omega arith)) (omega arith)

abbrev value : ℕ
value = 48879

abbrev width : ℕ
width = 6

append_hex_lem_example :
    (cs : List ℕ) × (length cs ≡ max 1 (min 8 width))
    × All IsHexDigit cs
    × (read_hex_from 0 cs ≡ value % 2 ^ (length cs * 4))
    × Writes 16 cs (empty 16) (append_hex 16 value width (empty 16))
append_hex_lem_example = append_hex_lem 16 value width (empty 16) (empty-IsValid 16 (omega arith))

-- 2.7 with one decimal.
abbrev amount : ℕ
amount = 27

amount-IsRounded : IsRounded (clamped_dec 1) amount
unfolding clamped_dec abs_val rounded_fraction scale_loop
amount-IsRounded = record { int_fits = omega arith; fraction_le = omega arith }

append_float_lem_example :
    (whole : List ℕ) × (fraction : List ℕ) × IsFixedPoint
      (clamped_dec 1)
      (scaled_value (clamped_dec 1) amount)
      whole
      fraction
    × Writes 16
        (sign_text (tenths.lt amount zero_f) true ++ (whole ++ behind_point fraction))
        (empty 16)
        (append_float 16 amount 1 true (empty 16))
append_float_lem_example =
    append_float_lem 16 amount 1 true (empty 16) (empty-IsValid 16 (omega arith)) refl
      amount-IsRounded
