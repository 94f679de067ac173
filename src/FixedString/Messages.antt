-- ===== src/FixedString/Messages.antt =====
-- engine/core/fixed_string.hpp: a message that is built by any of the append operations.
use soteria.Prelude.{
  ℕ, ◌-◌, ◌≤◌, ◌≡◌, Bool, not, inl, inr, Option, none, some, List, [], ◌∷◌, ◌++◌, take, ℤ,
  if◌then◌else◌, Bool-cases,
}
use soteria.Float.{Float, zero_f}
use soteria.FixedString.{
  FixedString, text, empty, append, append_u_dec, append_u64_dec, append_i_dec, append_hex,
  hex_digits,
}
use soteria.FixedString.Buffer.{c_string, hex_text}
use soteria.FixedString.Bounds.{
  IsValid, Writes, Writes-nil, Writes-trans, empty-IsValid, u_dec_text, u64_dec_text, i_dec_text,
  append-Writes, append_u_dec-Writes, append_u64_dec-Writes, append_i_dec-Writes, append_hex-Writes,
}
use soteria.FixedString.Float.{
  scale_loop, clamped_dec, carry, abs_val, rounded_fraction, append_float,
}
use soteria.FixedString.Rounding.{
  sign_text, parts_text, append_parts-Writes, append_sign-Writes, clamped_dec_le,
}

-- The calls that build a message, one after another.
pub data Piece (F : Type 0) : Type 0 where
  str : Option (List ℕ) → Piece F
  u_dec : ℕ → Piece F
  u64_dec : ℕ → Piece F
  i_dec : ℤ → Piece F
  hex : ℕ → ℕ → Piece F
  float : F → (decimals : ℕ) → (show_sign : Bool) → Piece F

module _ {F : Type 0} ⦃fl : Float F⦄ where
  pub apply : ℕ → Piece F → FixedString → FixedString
  apply cap (str cs) s = append cap cs s
  apply cap (u_dec n) s = append_u_dec cap n s
  apply cap (u64_dec n) s = append_u64_dec cap n s
  apply cap (i_dec z) s = append_i_dec cap z s
  apply cap (hex val digits) s = append_hex cap val digits s
  apply cap (float val decimals show_sign) s = append_float cap val decimals show_sign s

  pub build : ℕ → List (Piece F) → FixedString → FixedString
  build cap [] s = s
  build cap (p ∷ ps) s = build cap ps (apply cap p s)

  -- The text of a call and of a chain of calls, with no bound on its length.
  abbrev pub float_text : F → ℕ → Bool → List ℕ
  float_text val decimals show_sign =
      let dec = clamped_dec decimals in
      let absolute = abs_val val in
      if not (fl.is_finite val)
      then b'?' ∷ []
      else sign_text (fl.lt val zero_f) show_sign
        ++ parts_text dec (
            carry (scale_loop dec 1) (fl.to_u32 absolute)
              (rounded_fraction absolute (scale_loop dec 1)))

  abbrev pub piece_text : Piece F → List ℕ
  piece_text (str none) = []
  piece_text (str (some cs)) = c_string cs
  piece_text (u_dec n) = u_dec_text n
  piece_text (u64_dec n) = u64_dec_text n
  piece_text (i_dec z) = i_dec_text z
  piece_text (hex val digits) = hex_text val (hex_digits digits)
  piece_text (float val decimals show_sign) = float_text val decimals show_sign

  abbrev pub message : List (Piece F) → List ℕ
  message [] = []
  message (p ∷ ps) = piece_text p ++ message ps

  append_float-Writes :
      {cap : ℕ} (val : F) (decimals : ℕ) (show_sign : Bool) {s : FixedString}
      → IsValid cap s
      → Writes cap (float_text val decimals show_sign) s (append_float cap val decimals show_sign s)
  unfolding append_float
  append_float-Writes val decimals show_sign v = elim (Bool-cases (fl.is_finite val)) [
    | inl finite ↦
        let sign = append_sign-Writes (fl.lt val zero_f) show_sign v in
        rw finite (
          Writes-trans sign
            (append_parts-Writes (clamped_dec decimals) _ (clamped_dec_le decimals) sign.valid))
    | inr infinite ↦ rw infinite (append-Writes (b'?' ∷ []) v)
  ]

  apply-Writes :
      {cap : ℕ} (p : Piece F) {s : FixedString}
      → IsValid cap s
      → Writes cap (piece_text p) s (apply cap p s)
  unfolding apply append
  apply-Writes (str none) v = Writes-nil v
  apply-Writes (str (some cs)) v = append-Writes cs v
  apply-Writes (u_dec n) v = append_u_dec-Writes n v
  apply-Writes (u64_dec n) v = append_u64_dec-Writes n v
  apply-Writes (i_dec z) v = append_i_dec-Writes z v
  apply-Writes (hex val digits) v = append_hex-Writes val digits v
  apply-Writes (float val decimals show_sign) v = append_float-Writes val decimals show_sign v

  build-Writes :
      {cap : ℕ} (ps : List (Piece F)) {s : FixedString}
      → IsValid cap s
      → Writes cap (message ps) s (build cap ps s)
  unfolding build
  build-Writes [] v = Writes-nil v
  build-Writes (p ∷ ps) v =
      let first = apply-Writes p v in Writes-trans first (build-Writes ps first.valid)

  -- Any chain of append calls, `AppendFloat` included, on a new string of a capacity of at least 2
  -- leaves a buffer of the full size whose length is below the capacity and which is terminated there,
  -- and the text is the whole message cut off after `cap - 1` characters.
  pub build_refines :
      (cap : ℕ) (ps : List (Piece F))
      → 2 ≤ cap
      → IsValid cap (build cap ps (empty cap))
        × (text (build cap ps (empty cap)) ≡ take (cap - 1) (message ps))
  unfolding empty
  build_refines cap ps h =
      let whole = build-Writes ps (empty-IsValid cap h) in (whole.valid, whole.shows)
