-- ===== src/FixedString/Hex.antt =====
-- engine/core/fixed_string.hpp: the text of `AppendHex` is the hexadecimal numeral of the low digits of
-- its value, padded with zeros to the width asked for.
use native.Mathlib.Nat.{pow-suc, mod-eq_of_lt, div-add-mod, add-mul-mod_self_left}
use soteria.Prelude.{
  All, Bool, ◌&&◌, ◌||◌, ◌⊎◌, ◌≤◌, leb, ℕ, zero, suc, ◌+◌, ◌-◌, ◌*◌, ◌/◌, ◌%◌, ◌^◌, ◌<◌, ◌≡◌, refl,
  ap, ◌∙◌, true, List, [], ◌∷◌, arith, ltb, ◌==◌, if◌then◌else◌, length, get_or, all_below,
  all_below_sound, ==→eq, min, max,
}
use soteria.FixedString.{hex_chars, nibble, hex_digits}
use soteria.FixedString.Buffer.{hex_text}

-- The value of an uppercase hexadecimal digit.
abbrev pub hex_value : ℕ → ℕ
hex_value c = if ltb c b'A' then c - b'0' else c - b'A' + 10

-- `0` to `9` or `A` to `F`.
abbrev pub IsHexDigit : ℕ → Type 0
IsHexDigit c = ((b'0' ≤ c) × (c ≤ b'9')) ⊎ ((b'A' ≤ c) × (c ≤ b'F'))

is_hex_digit : ℕ → Bool
is_hex_digit c = (leb b'0' c && leb c b'9') || (leb b'A' c && leb c b'F')

is_hex_digit_sound : (c : ℕ) → is_hex_digit c ≡ true → IsHexDigit c
unfolding is_hex_digit
is_hex_digit_sound c h = grind (arith, h)

hex_digit_table : all_below 16 (λ d. is_hex_digit (get_or hex_chars d 0)) ≡ true
unfolding is_hex_digit
hex_digit_table = refl

All-hex_text : (val place : ℕ) → All IsHexDigit (hex_text val place)
All-hex_text val zero = tt
All-hex_text val (suc place) = (
  is_hex_digit_sound _ (
      all_below_sound 16 (λ d. is_hex_digit (get_or hex_chars d 0)) (nibble val place)
        hex_digit_table (omega arith)),
  All-hex_text val place,
)

abbrev pub read_hex_from : ℕ → List ℕ → ℕ
read_hex_from acc [] = acc
read_hex_from acc (c ∷ cs) = read_hex_from (acc * 16 + hex_value c) cs

hex_table : all_below 16 (λ d. hex_value (get_or hex_chars d 0) == d) ≡ true
hex_table = refl

hex_chars-get : (d : ℕ) → d < 16 → hex_value (get_or hex_chars d 0) ≡ d
hex_chars-get d h =
    ==→eq _ _ (all_below_sound 16 (λ x. hex_value (get_or hex_chars x 0) == x) d hex_table h)

place_value : (place : ℕ) → 2 ^ (suc place * 4) ≡ 16 * 2 ^ (place * 4)
place_value place =
    let e : suc place * 4 ≡ suc (suc (suc (suc (place * 4)))) = omega arith in
    rw e (
      omega (
        arith,
        pow-suc 2 (suc (suc (suc (place * 4)))),
        pow-suc 2 (suc (suc (place * 4))),
        pow-suc 2 (suc (place * 4)),
        pow-suc 2 (place * 4),
      ))

pow-pos : (place : ℕ) → 0 < 2 ^ (place * 4)
pow-pos zero = omega arith
pow-pos (suc place) = omega (arith, place_value place, pow-pos place)

hex_digits-clamp : (digits : ℕ) → hex_digits digits ≡ max 1 (min 8 digits)
unfolding hex_digits
hex_digits-clamp digits = ground arith

mod_split : (val d : ℕ) → 0 < d → val % (16 * d) ≡ val / d % 16 * d + val % d
mod_split val d h =
    let q = val / d in
    let low = q % 16 * d + val % d in
    let small : low < 16 * d = grind arith in
    let whole : val ≡ low + 16 * d * (q / 16) =
      let parts : q ≡ 16 * (q / 16) + q % 16 = omega arith in
      omega (arith, div-add-mod val d, ap (λ t. t * d) parts) in
    ap (λ x. x % (16 * d)) whole ∙ add-mul-mod_self_left low (16 * d) (q / 16) ∙ mod-eq_of_lt small

pub length-hex_text : (val place : ℕ) → length (hex_text val place) ≡ place
length-hex_text val zero = refl
length-hex_text val (suc place) = ap suc (length-hex_text val place)

read_hex_from_lem :
    (acc val place : ℕ)
    → read_hex_from acc (hex_text val place) ≡ acc * 2 ^ (place * 4) + val % 2 ^ (place * 4)
read_hex_from_lem acc val zero = omega arith
read_hex_from_lem acc val (suc place) =
    let d = 2 ^ (place * 4) in
    let digit = hex_value (get_or hex_chars (nibble val place) 0) in
    let shown : digit ≡ nibble val place = hex_chars-get (nibble val place) (omega arith) in
    read_hex_from_lem (acc * 16 + digit) val place
    ∙ rw (place_value place, mod_split val d (pow-pos place)) (omega (arith, ap (λ t. t * d) shown))

-- The text has as many characters, all hexadecimal digits, as the width asked for, brought into 1..8, and denotes the value modulo 16 to
-- the power of the width.
pub hex_text_lem :
    (val digits : ℕ)
    → let width = hex_digits digits in
      (read_hex_from 0 (hex_text val width) ≡ val % 2 ^ (width * 4))
      × (length (hex_text val width) ≡ width)
      × All IsHexDigit (hex_text val width)
      × (width ≡ max 1 (min 8 digits))
hex_text_lem val digits = (
  read_hex_from_lem 0 val (hex_digits digits) ∙ omega arith,
  length-hex_text val (hex_digits digits),
  All-hex_text val (hex_digits digits),
  hex_digits-clamp digits,
)
