-- ===== src/FixedString/Decimal.antt =====
-- engine/core/fixed_string.hpp: the decimal text of `AppendUDec` and `AppendU64Dec` is the numeral of
-- its value, and the 10 and 20 places of `tmp` are enough for every 32-bit and 64-bit value.
use native.Mathlib.Nat.{pow-suc}
use soteria.Prelude.{
  ℕ, zero, suc, ◌+◌, ◌-◌, ◌*◌, ◌/◌, ◌%◌, ◌^◌, ◌≤◌, ◌<◌, ◌≡◌, refl, sym, ap, subst, ◌∙◌, ◌⊎◌, inl,
  inr, ◌≢◌, true, List, [], ◌∷◌, ◌++◌, arith, ◌==◌, length, get_or, All, all_below, all_below_sound,
  Bool-cases, ==→eq, All-append,
}
use soteria.FixedString.{dec_chars, digit_loop, reversed_digits}
use soteria.FixedString.Buffer.{backwards}
use soteria.FixedString.Bounds.{u_dec_text, u64_dec_text}

abbrev pub IsDigit : ℕ → Type 0
IsDigit c = (b'0' ≤ c) × (c ≤ b'9')

-- The number that a text of decimal digits denotes, read from the left.
abbrev pub read_from : ℕ → List ℕ → ℕ
read_from acc [] = acc
read_from acc (c ∷ cs) = read_from (acc * 10 + (c - b'0')) cs

abbrev pub read_dec : List ℕ → ℕ
read_dec cs = read_from 0 cs

-- The same, of a text with its last digit first.
abbrev rev_value : List ℕ → ℕ
rev_value [] = 0
rev_value (c ∷ cs) = (c - b'0') + 10 * rev_value cs

dec_table : all_below 10 (λ d. get_or dec_chars d 0 == b'0' + d) ≡ true
dec_table = refl

dec_chars-get : (d : ℕ) → d < 10 → get_or dec_chars d 0 ≡ b'0' + d
dec_chars-get d h =
    ==→eq _ _ (all_below_sound 10 (λ x. get_or dec_chars x 0 == b'0' + x) d dec_table h)

digit_loop-value : (room val : ℕ) → val < 10 ^ room → rev_value (digit_loop room val) ≡ val
unfolding digit_loop
digit_loop-value zero val h = omega arith
digit_loop-value (suc room) val h = elim (Bool-cases (val == 0)) [
  | inl nought ↦ rw nought (ground arith)
  | inr more ↦ rw more (
      omega (
        arith,
        dec_chars-get (val % 10) (omega arith),
        digit_loop-value room (val / 10) (omega (arith, pow-suc 10 room)),
      ))
]

backwards-cons :
    (c : ℕ) (tmp : List ℕ) (i : ℕ) → backwards (c ∷ tmp) (suc i) ≡ backwards tmp i ++ (c ∷ [])
backwards-cons c tmp zero = refl
backwards-cons c tmp (suc i) = ap (◌∷◌ (get_or tmp i 0)) (backwards-cons c tmp i)

read_from-snoc :
    (acc : ℕ) (cs : List ℕ) (c : ℕ)
    → read_from acc (cs ++ (c ∷ [])) ≡ read_from acc cs * 10 + (c - b'0')
read_from-snoc acc [] c = refl
read_from-snoc acc (d ∷ cs) c = read_from-snoc (acc * 10 + (d - b'0')) cs c

read_dec-backwards : (tmp : List ℕ) → read_dec (backwards tmp (length tmp)) ≡ rev_value tmp
read_dec-backwards [] = refl
read_dec-backwards (c ∷ tmp) =
    rw (backwards-cons c tmp (length tmp))
      (omega (arith, read_from-snoc 0 (backwards tmp (length tmp)) c, read_dec-backwards tmp))

All-backwards : (tmp : List ℕ) → All IsDigit tmp → All IsDigit (backwards tmp (length tmp))
All-backwards [] h = tt
All-backwards (c ∷ tmp) h =
    subst (All IsDigit) (sym (backwards-cons c tmp (length tmp)))
      (All-append IsDigit _ (c ∷ []) (All-backwards tmp h.1) (h.0, tt))

pub length-backwards : (tmp : List ℕ) (i : ℕ) → length (backwards tmp i) ≡ i
length-backwards tmp zero = refl
length-backwards tmp (suc i) = ap suc (length-backwards tmp i)

digit_loop-digits : (room val : ℕ) → All IsDigit (digit_loop room val)
unfolding digit_loop
digit_loop-digits zero val = tt
digit_loop-digits (suc room) val = elim (Bool-cases (val == 0)) [
  | inl nought ↦ rw (nought, digit_loop) tt
  | inr more ↦
      rw (more, digit_loop)
        (
          (
            omega (arith, dec_chars-get (val % 10) (omega arith)),
            omega (arith, dec_chars-get (val % 10) (omega arith)),
          ),
          digit_loop-digits room (val / 10),
        )
]

length-digit_loop : (room val : ℕ) → length (digit_loop room val) ≤ room
unfolding digit_loop
length-digit_loop zero val = omega arith
length-digit_loop (suc room) val = ground (arith, length-digit_loop room (val / 10))

-- The text is not empty and its first character is not '0'.
abbrev pub StartsNonzero : List ℕ → Type 0
StartsNonzero [] = ⊥
StartsNonzero (c ∷ cs) = c ≢ b'0'

StartsNonzero-append : (xs ys : List ℕ) → StartsNonzero xs → StartsNonzero (xs ++ ys)
StartsNonzero-append [] ys h = absurd h
StartsNonzero-append (x ∷ xs) ys h = h

pub digit_loop-zero : (room : ℕ) → digit_loop room 0 ≡ []
unfolding digit_loop
digit_loop-zero zero = refl
digit_loop-zero (suc room) = refl

pub digit_loop-suc :
    (room val : ℕ)
    → 0 < val
    → digit_loop (suc room) val ≡ (b'0' + val % 10) ∷ digit_loop room (val / 10)
unfolding digit_loop
digit_loop-suc room val p = elim (Bool-cases (val == 0)) [
  | inl nought ↦ absurd (omega (arith, ==→eq _ _ nought))
  | inr more ↦ rw (more, dec_chars-get (val % 10) (omega arith))
]

digit_loop-StartsNonzero :
    (room val : ℕ)
    → val < 10 ^ room
    → 0 < val
    → StartsNonzero (backwards (digit_loop room val) (length (digit_loop room val)))
digit_loop-StartsNonzero zero val h p = absurd (omega arith)
digit_loop-StartsNonzero (suc room) val h p =
    let rest = digit_loop room (val / 10) in
    rw (digit_loop-suc room val p) (
      subst StartsNonzero (sym (backwards-cons (b'0' + val % 10) rest (length rest)))
        (elim (Bool-cases (val / 10 == 0)) [
          | inl last ↦
              rw (==→eq _ _ last, digit_loop-zero room)
                (let e : val % 10 ≢ 0 = omega (arith, ==→eq _ _ last) in omega arith)
          | inr more ↦ StartsNonzero-append _ _ (
              digit_loop-StartsNonzero room (val / 10) (omega (arith, pow-suc 10 room))
                (ground arith))
        ]))

-- A text is the decimal numeral of `val`: digits only, at most `size` of them, with the value `val`,
-- and no leading zero but in "0".
pub record IsNumeral (size val : ℕ) (cs : List ℕ) : Type 0 where
  pub digits : All IsDigit cs
  pub short : length cs ≤ size
  pub value : read_dec cs ≡ val
  pub canonical : (cs ≡ b'0' ∷ []) ⊎ StartsNonzero cs

reversed_digits-IsNumeral :
    (room val : ℕ)
    → val < 10 ^ suc room
    → IsNumeral
        (suc room)
        val
        (backwards (reversed_digits (suc room) val) (length (reversed_digits (suc room) val)))
unfolding reversed_digits
reversed_digits-IsNumeral room val h = elim (Bool-cases (val == 0)) [
  | inl nought ↦ rw nought (record {
    digits = omega arith;
    short = omega arith;
    value = sym (==→eq _ _ nought);
    canonical = inl refl;
  })
  | inr more ↦ rw more (
      let tmp = digit_loop (suc room) val in
      record {
        digits = All-backwards tmp (digit_loop-digits (suc room) val);
        short = omega (arith, length-backwards tmp (length tmp), length-digit_loop (suc room) val);
        value = read_dec-backwards tmp ∙ digit_loop-value (suc room) val h;
        canonical = inr (digit_loop-StartsNonzero (suc room) val h (ground arith));
      })
]

-- For every 32-bit value the text that `AppendUDec` adds is its decimal numeral, of at most 10 digits.
pub u_dec_text-IsNumeral : (val : ℕ) → val < 2 ^ 32 → IsNumeral 10 val (u_dec_text val)
u_dec_text-IsNumeral val h = reversed_digits-IsNumeral 9 val (omega arith)

-- For every 64-bit value the text that `AppendU64Dec` adds is its numeral, of at most 20 digits.
pub u64_dec_text-IsNumeral : (val : ℕ) → val < 2 ^ 64 → IsNumeral 20 val (u64_dec_text val)
u64_dec_text-IsNumeral val h = reversed_digits-IsNumeral 19 val (omega arith)
