-- ===== src/FixedString/Padding.antt =====
-- engine/core/fixed_string.hpp: the fraction that `AppendFloat` shows has exactly as many digits as
-- decimals are asked for.
use native.Mathlib.Nat.{pow-suc}
use soteria.Prelude.{
  ℕ, zero, suc, ◌/◌, ◌^◌, ◌≤◌, ◌<◌, ◌≡◌, refl, ap, ◌∙◌, inl, inr, ◌&&◌, List, [], ◌∷◌, ◌++◌, arith,
  ltb, if◌then◌else◌, length, Bool-cases, ltb→lt, ltb→le, lt→ltb, le→ltb, All,
}
use soteria.FixedString.{FixedString, digit_loop, reversed_digits}
use soteria.FixedString.Bounds.{
  IsValid, Writes, Writes-nil, Writes-trans, append-Writes, u_dec_text,
}
use soteria.FixedString.Decimal.{
  IsDigit, read_dec, length-backwards, digit_loop-suc, digit_loop-zero,
}
use soteria.FixedString.Float.{pad_loop}

-- The zeros that the padding loop adds.
unfoldable pub pad_text : ℕ → ℕ → ℕ → List ℕ
pad_text zero frac pad_scale = []
pad_text (suc fuel) frac pad_scale =
    let rest = pad_text fuel frac (pad_scale / 10) in
    if ltb 1 pad_scale && ltb frac pad_scale then b'0' ∷ rest else []

pub pad_loop-Writes :
    {cap : ℕ} (fuel frac pad_scale : ℕ) {s : FixedString}
    → IsValid cap s
    → Writes cap (pad_text fuel frac pad_scale) s (pad_loop fuel cap frac pad_scale s)
unfolding pad_loop pad_text
pad_loop-Writes zero frac pad_scale v = Writes-nil v
pad_loop-Writes (suc fuel) frac pad_scale v =
    elim (Bool-cases (ltb 1 pad_scale && ltb frac pad_scale)) [
      | inl more ↦
          rw (more, pad_loop, pad_text)
            (let first = append-Writes (b'0' ∷ []) v in
              Writes-trans first (pad_loop-Writes fuel frac (pad_scale / 10) first.valid))
      | inr done ↦ rw (done, pad_loop, pad_text) (Writes-nil v)
    ]

ten-pow-pos : (k : ℕ) → 0 < 10 ^ k
ten-pow-pos zero = omega arith
ten-pow-pos (suc k) = omega (arith, pow-suc 10 k, ten-pow-pos k)

-- A number of `k + 1` digits fills `k + 1` places.
length-digit_loop_exact :
    (k room val : ℕ)
    → 10 ^ k ≤ val
    → val < 10 ^ suc k
    → k < room
    → length (digit_loop room val) ≡ suc k
length-digit_loop_exact k zero val low high h = absurd (omega arith)
length-digit_loop_exact zero (suc room) val low high h =
    rw (digit_loop-suc room val low)
      (let e : val / 10 ≡ 0 = omega arith in rw (e, digit_loop-zero room) refl)
length-digit_loop_exact (suc k) (suc room) val low high h =
    rw (digit_loop-suc room val (omega (arith, pow-suc 10 k, ten-pow-pos k))) (
      ap suc (
        length-digit_loop_exact k room (val / 10) (omega (arith, pow-suc 10 k))
          (omega (arith, pow-suc 10 (suc k))) (omega arith)))

reversed_digits-pos : (size val : ℕ) → 0 < val → reversed_digits size val ≡ digit_loop size val
unfolding reversed_digits
reversed_digits-pos size val h = ground arith

length-u_dec_text_exact :
    (k val : ℕ) → 10 ^ k ≤ val → val < 10 ^ suc k → k < 10 → length (u_dec_text val) ≡ suc k
length-u_dec_text_exact k val low high h =
    let some_digit : 0 < val = omega (arith, ten-pow-pos k) in
    length-backwards (reversed_digits 10 val) (length (reversed_digits 10 val))
    ∙ rw (reversed_digits-pos 10 val some_digit) (length-digit_loop_exact k 10 val low high h)

length-u_dec_text_one : (val : ℕ) → val < 10 → length (u_dec_text val) ≡ 1
unfolding reversed_digits
length-u_dec_text_one zero h =
    length-backwards (reversed_digits 10 0) (length (reversed_digits 10 0)) ∙ refl
length-u_dec_text_one (suc val) h =
    length-u_dec_text_exact 0 (suc val) (omega arith) h (omega arith)

pad_text-more :
    (fuel frac pad_scale : ℕ)
    → 1 < pad_scale
    → frac < pad_scale
    → pad_text (suc fuel) frac pad_scale ≡ b'0' ∷ pad_text fuel frac (pad_scale / 10)
unfolding pad_text
pad_text-more fuel frac pad_scale h low = rw (lt→ltb _ _ h, lt→ltb _ _ low)

pad_text-one : (fuel frac : ℕ) → pad_text fuel frac 1 ≡ []
unfolding pad_text
pad_text-one zero frac = refl
pad_text-one (suc fuel) frac = refl

pad_text-done : (fuel frac pad_scale : ℕ) → pad_scale ≤ frac → pad_text fuel frac pad_scale ≡ []
unfolding pad_text
pad_text-done zero frac pad_scale h = refl
pad_text-done (suc fuel) frac pad_scale h = rw (le→ltb frac pad_scale h) (ground arith)

-- With the padding the fraction fills its places: after `k + 1` decimals the loop starts at `10 ^ k`.
pub length-pad_text :
    (k frac : ℕ)
    → k < 10
    → frac < 10 ^ suc k
    → length (pad_text (suc k) frac (10 ^ k) ++ u_dec_text frac) ≡ suc k
length-pad_text zero frac h low = rw (pad_text-one 1 frac) (length-u_dec_text_one frac low)
length-pad_text (suc k) frac h low = elim (Bool-cases (ltb frac (10 ^ suc k))) [
  | inl short ↦
      rw
        (pad_text-more (suc k) frac (10 ^ suc k) (omega (arith, pow-suc 10 k, ten-pow-pos k))
          (ltb→lt _ _ short))
        (let e : 10 ^ suc k / 10 ≡ 10 ^ k = omega (arith, pow-suc 10 k) in
          rw e (ap suc (length-pad_text k frac (omega arith) (ltb→lt _ _ short))))
  | inr long ↦
      rw (pad_text-done (suc (suc k)) frac (10 ^ suc k) (ltb→le _ _ long))
        (length-u_dec_text_exact (suc k) frac (ltb→le _ _ long) low h)
]

pub read_from-pad_text :
    (fuel frac pad_scale : ℕ) (cs : List ℕ)
    → read_dec (pad_text fuel frac pad_scale ++ cs) ≡ read_dec cs
unfolding pad_text
read_from-pad_text zero frac pad_scale cs = refl
read_from-pad_text (suc fuel) frac pad_scale cs =
    elim (Bool-cases (ltb 1 pad_scale && ltb frac pad_scale)) [
      | inl more ↦ rw more (read_from-pad_text fuel frac (pad_scale / 10) cs)
      | inr done ↦ rw done
    ]

pub All-pad_text : (fuel frac pad_scale : ℕ) → All IsDigit (pad_text fuel frac pad_scale)
unfolding pad_text
All-pad_text zero frac pad_scale = tt
All-pad_text (suc fuel) frac pad_scale = elim (Bool-cases (ltb 1 pad_scale && ltb frac pad_scale)) [
  | inl more ↦ rw more (omega arith, All-pad_text fuel frac (pad_scale / 10))
  | inr done ↦ rw done tt
]
