-- ===== src/FixedString/Numerals.antt =====
-- engine/core/fixed_string.hpp: what the numeric operations append to a valid string.
use soteria.Prelude.{
  All, ℕ, ◌+◌, ◌*◌, ◌%◌, ◌^◌, ◌<◌, ◌≡◌, sym, ap, ◌∙◌, subst, List, ◌∷◌, arith, length, min, max,
  negsuc,
}
use soteria.FixedString.{
  FixedString, append_u_dec, append_u64_dec, append_i_dec, append_hex, hex_digits,
}
use soteria.FixedString.Buffer.{hex_text}
use soteria.FixedString.Bounds.{
  IsValid, Writes, u_dec_text, u64_dec_text, append_u_dec-Writes, append_u64_dec-Writes,
  append_i_dec-Writes, append_hex-Writes,
}
use soteria.FixedString.Decimal.{IsNumeral, u_dec_text-IsNumeral, u64_dec_text-IsNumeral}
use soteria.FixedString.Hex.{IsHexDigit, read_hex_from, hex_text_lem}

-- On a valid string, for a value below 2^32, `AppendUDec` appends the value's decimal numeral, of at most 10
-- digits, cut off where the buffer ends, and leaves the string valid.
pub append_u_dec_lem :
    (cap val : ℕ) (s : FixedString)
    → IsValid cap s
    → val < 2 ^ 32
    → (cs : List ℕ) × IsNumeral 10 val cs × Writes cap cs s (append_u_dec cap val s)
append_u_dec_lem cap val s v small =
    (u_dec_text val, u_dec_text-IsNumeral val small, append_u_dec-Writes val v)

-- On a valid string, for a value below 2^64, `AppendU64Dec` appends the value's decimal numeral, of at most 20
-- digits, cut off where the buffer ends, and leaves the string valid.
pub append_u64_dec_lem :
    (cap val : ℕ) (s : FixedString)
    → IsValid cap s
    → val < 2 ^ 64
    → (cs : List ℕ) × IsNumeral 20 val cs × Writes cap cs s (append_u64_dec cap val s)
append_u64_dec_lem cap val s v small =
    (u64_dec_text val, u64_dec_text-IsNumeral val small, append_u64_dec-Writes val v)

-- On a valid string, for a negative value -(n + 1) of at least -2^31, the least one included, `AppendIDec`
-- appends a minus sign and the decimal numeral of n + 1, cut off where the buffer ends, and leaves the
-- string valid.
pub append_i_dec_negative :
    (cap n : ℕ) (s : FixedString)
    → IsValid cap s
    → n < 2 ^ 31
    → (cs : List ℕ) × IsNumeral 10 (n + 1) cs
      × Writes cap (b'-' ∷ cs) s (append_i_dec cap (negsuc n) s)
append_i_dec_negative cap n s v small =
    let fits : (n + 1) % 2 ^ 32 ≡ n + 1 = omega (arith, small) in
    let numeral = u_dec_text-IsNumeral ((n + 1) % 2 ^ 32) (omega (arith, small)) in
    (
      u_dec_text ((n + 1) % 2 ^ 32),
      subst (λ k. IsNumeral 10 k (u_dec_text ((n + 1) % 2 ^ 32))) fits numeral,
      append_i_dec-Writes (negsuc n) v,
    )

-- On a valid string `AppendHex` appends exactly as many digits, `0` to `9` or `A` to `F`, as asked for,
-- brought into 1..8, which as a hexadecimal numeral denote the value modulo 16 to the power of their
-- number; the text is cut off where the buffer ends, and the string stays valid.
pub append_hex_lem :
    (cap val digits : ℕ) (s : FixedString)
    → IsValid cap s
    → (cs : List ℕ) × (length cs ≡ max 1 (min 8 digits))
      × All IsHexDigit cs
      × (read_hex_from 0 cs ≡ val % 2 ^ (length cs * 4))
      × Writes cap cs s (append_hex cap val digits s)
append_hex_lem cap val digits s v =
    let (value, size, hexadecimal, width) = hex_text_lem val digits in
    let shown = value ∙ ap (λ n. val % 2 ^ (n * 4)) (sym size) in
    (
      hex_text val (hex_digits digits),
      omega (arith, size, width),
      hexadecimal,
      shown,
      append_hex-Writes val digits v,
    )
