-- ===== src/FixedString.antt =====
-- engine/core/fixed_string.hpp: `FixedString<kCapacity>`, a bounded builder of C strings.
-- The buffer is the array `m_buf` of `kCapacity` characters, written in place; `cap` is the template
-- argument. A character is its code. `while (pos < tmp.size())` bounds each digit loop, so the
-- free places of `tmp` are the model's recursion argument and no fuel is needed.
-- The children prove: Buffer (what a write does to the text), Bounds (the invariant and the
-- truncation law of each operation), Decimal and Hex (the digits stand for the number), Padding and
-- Rounding (the text of a float), Messages (a chain of operations). Float models `AppendFloat`.
pub mod Buffer
pub mod Bounds
pub mod Decimal
pub mod Hex
pub mod Float
pub mod Padding
pub mod Rounding
pub mod Messages
pub mod Numerals
mod Examples
use soteria.Prelude.{
  ℕ, zero, suc, ◌+◌, ◌-◌, ◌*◌, ◌/◌, ◌%◌, ◌^◌, Bool, true, false, not, ◌&&◌, Option, none, some,
  List, [], ◌∷◌, ◌++◌, ltb, leb, ◌==◌, if◌then◌else◌, length, get_or, set, take, replicate, ℤ, pos,
  negsuc,
}

pub record FixedString : Type 0 where
  pub buf : List ℕ
  pub len : ℕ

-- A new object: the buffer is zeroed.
unfoldable pub empty : ℕ → FixedString
empty cap = record { buf = replicate cap 0; len = 0 }

-- The characters that `CStr()` shows: those before the terminator at `m_len`.
abbrev pub text : FixedString → List ℕ
text s = take s.len s.buf

-- `m_buf[m_len++] = c`
unfoldable pub put : ℕ → FixedString → FixedString
put c s = record { buf = set s.buf s.len c; len = s.len + 1 }

-- `if (m_len < (kCapacity - 1U)) { m_buf[m_len++] = c; }`
unfoldable pub put_if_room : ℕ → ℕ → FixedString → FixedString
unfolding put
put_if_room cap c s = if ltb s.len (cap - 1) then put c s else s

-- `m_buf[m_len] = '\0'`
unfoldable pub terminate : FixedString → FixedString
terminate s = record s { buf = set s.buf s.len 0 }

-- The loop of `Append`. A C string is the list of its characters; the first 0 in it ends it.
unfoldable pub append_loop : ℕ → List ℕ → FixedString → FixedString
unfolding put
append_loop cap [] s = s
append_loop cap (c ∷ cs) s =
    let rest = append_loop cap cs (put c s) in
    if not (c == 0) && ltb s.len (cap - 1) then rest else s

-- `Append`: `none` is the null pointer.
unfoldable pub append : ℕ → Option (List ℕ) → FixedString → FixedString
unfolding append_loop terminate
append cap none s = s
append cap (some cs) s = terminate (append_loop cap cs s)

-- `kDecChars`
abbrev pub dec_chars : List ℕ
dec_chars = b'0' ∷ b'1' ∷ b'2' ∷ b'3' ∷ b'4' ∷ b'5' ∷ b'6' ∷ b'7' ∷ b'8' ∷ b'9' ∷ []

-- `while ((val != 0U) && (pos < tmp.size()))`, with `room` places of `tmp` left: what it stores.
unfoldable pub digit_loop : ℕ → ℕ → List ℕ
digit_loop zero val = []
digit_loop (suc room) val =
    let rest = digit_loop room (val / 10) in
    if val == 0 then [] else get_or dec_chars (val % 10) 0 ∷ rest

-- The part of `tmp` that is filled, in reverse order of the digits.
unfoldable pub reversed_digits : ℕ → ℕ → List ℕ
reversed_digits size val = if val == 0 then b'0' ∷ [] else digit_loop size val

-- `for (i = pos; i > 0; --i)` copies `tmp[i - 1]` where there is room.
unfoldable pub copy_back : ℕ → List ℕ → ℕ → FixedString → FixedString
unfolding put_if_room
copy_back cap tmp zero s = s
copy_back cap tmp (suc i) s = copy_back cap tmp i (put_if_room cap (get_or tmp i 0) s)

-- `AppendUDec`, for a `val` below 2^32.
unfoldable pub append_u_dec : ℕ → ℕ → FixedString → FixedString
unfolding reversed_digits copy_back terminate
append_u_dec cap val s =
    let tmp = reversed_digits 10 val in terminate (copy_back cap tmp (length tmp) s)

-- `AppendU64Dec`, for a `val` below 2^64.
unfoldable pub append_u64_dec : ℕ → ℕ → FixedString → FixedString
unfolding reversed_digits copy_back terminate
append_u64_dec cap val s =
    let tmp = reversed_digits 20 val in terminate (copy_back cap tmp (length tmp) s)

-- `AppendIDec`. For a negative `val = -(n + 1)` the source computes `-(val + 1)`, which is `n`, as an
-- `int32_t` and adds 1 as a `uint32_t`.
unfoldable pub append_i_dec : ℕ → ℤ → FixedString → FixedString
unfolding append append_u_dec
append_i_dec cap (pos n) s = append_u_dec cap n s
append_i_dec cap (negsuc n) s =
    append_u_dec cap ((n + 1) % 2 ^ 32) (append cap (some (b'-' ∷ [])) s)

-- `kHexChars`
abbrev pub hex_chars : List ℕ
hex_chars =
    b'0' ∷ b'1' ∷ b'2' ∷ b'3' ∷ b'4' ∷ b'5' ∷ b'6' ∷ b'7' ∷ b'8' ∷ b'9' ∷ b'A' ∷ b'B' ∷ b'C' ∷ b'D'
    ∷ b'E' ∷ b'F' ∷ []

-- `(val >> (place * 4U)) & 0xFU`
abbrev pub nibble : ℕ → ℕ → ℕ
nibble val place = val / 2 ^ (place * 4) % 16

-- `for (shift = d; shift > 0; --shift)`
unfoldable pub hex_loop : ℕ → ℕ → ℕ → FixedString → FixedString
unfolding put_if_room
hex_loop cap val zero s = s
hex_loop cap val (suc place) s =
    hex_loop cap val place (put_if_room cap (get_or hex_chars (nibble val place) 0) s)

-- The clamp of `digits` to 1..8.
unfoldable pub hex_digits : ℕ → ℕ
hex_digits digits = if ltb 8 digits then 8 else if digits == 0 then 1 else digits

-- `AppendHex`, for a `val` below 2^32.
unfoldable pub append_hex : ℕ → ℕ → ℕ → FixedString → FixedString
unfolding hex_loop hex_digits terminate
append_hex cap val digits s = terminate (hex_loop cap val (hex_digits digits) s)
