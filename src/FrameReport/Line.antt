-- ===== src/FrameReport/Line.antt =====
-- app/demo/console_frame_report.hpp: the line of a frame is logged whole.
use soteria.Prelude.{
  ℕ, ◌+◌, ◌%◌, ◌^◌, ◌≤◌, ◌<◌, ◌≡◌, refl, ap, ◌∙◌, Bool, true, false, none, some, List, [], ◌∷◌,
  ◌++◌, arith, length, length-append, take, take-of_le, ◌==◌, if◌then◌else◌,
}
use soteria.Float.{Float, zero_f}
use soteria.FixedString.{FixedString, text, empty}
use soteria.FixedString.Buffer.{c_string}
use soteria.FixedString.Bounds.{
  IsValid, Writes, Writes-trans, empty-IsValid, append-Writes, u64_dec_text, append_u64_dec-Writes,
}
use soteria.FixedString.Decimal.{u64_dec_text-IsNumeral}
use soteria.FixedString.Rounding.{
  IsRounded, IsFixedPoint, scaled_value, sign_text, behind_point, append_float_lem,
}
use soteria.FixedString.Float.{clamped_dec, append_float}
use soteria.Main.Loop.{FrameMetrics}
use soteria.FrameReport.{
  line_capacity, frame_label, roll_label, pitch_label, render_label, present_label, outcome_label,
  frame_line, on_frame_complete,
}

length-sign_text : (negative show_sign : Bool) → length (sign_text negative show_sign) ≤ 1
length-sign_text true true = omega arith
length-sign_text true false = omega arith
length-sign_text false true = omega arith
length-sign_text false false = omega arith

length-behind_point : (cs : List ℕ) → length (behind_point cs) ≤ length cs + 1
length-behind_point [] = omega arith
length-behind_point (c ∷ cs) = omega arith

length-outcome_label : (presented : Bool) → length (outcome_label presented) ≤ 4
length-outcome_label true = omega arith
length-outcome_label false = omega arith

c_string-outcome_label :
    (presented : Bool) → c_string (outcome_label presented) ≡ outcome_label presented
c_string-outcome_label true = refl
c_string-outcome_label false = refl

module _ {F : Type 0} ⦃fl : Float F⦄ where
  -- A text that shows the float with two decimals.
  pub record Shows (val : F) (show_sign : Bool) (cs : List ℕ) : Type 0 where
    pub whole : List ℕ
    pub fraction : List ℕ
    pub fixed_point : IsFixedPoint 2 (scaled_value 2 val) whole fraction
    pub written : cs ≡ sign_text (fl.lt val zero_f) show_sign ++ (whole ++ behind_point fraction)

  length-Shows :
      {val : F} {show_sign : Bool} {cs : List ℕ} → Shows val show_sign cs → length cs ≤ 14
  length-Shows {val} {show_sign} {cs} s =
      let sign = sign_text (fl.lt val zero_f) show_sign in
      omega (
        arith,
        ap length s.written,
        length-append sign (s.whole ++ behind_point s.fraction),
        length-append s.whole (behind_point s.fraction),
        length-sign_text (fl.lt val zero_f) show_sign,
        length-behind_point s.fraction,
        s.fixed_point.numeral.short,
        s.fixed_point.width,
      )

  -- What the theorem takes of a float: it is finite, and its value with two decimals can be computed.
  pub record IsShowable (val : F) : Type 0 where
    pub finite : fl.is_finite val ≡ true
    pub rounded : IsRounded 2 val

  append_float-Shows :
      {cap : ℕ} (val : F) (show_sign : Bool) {s : FixedString}
      → IsShowable val
      → IsValid cap s
      → (cs : List ℕ) × Shows val show_sign cs
        × Writes cap cs s (append_float cap val 2 show_sign s)
  unfolding clamped_dec
  append_float-Shows {cap} val show_sign {s} ok v =
      let (whole, fraction, fixed_point, writes) =
        append_float_lem cap val 2 show_sign s v ok.finite ok.rounded in
      (
        sign_text (fl.lt val zero_f) show_sign ++ (whole ++ behind_point fraction),
        record { whole = whole; fraction = fraction; fixed_point = fixed_point; written = refl },
        writes,
      )

  -- The line that `roll`, `pitch` and `time` show the floats in.
  abbrev pub line_text : FrameMetrics F → (roll pitch time : List ℕ) → List ℕ
  line_text m roll pitch time =
      frame_label
      ++ u64_dec_text m.frame_number
      ++ roll_label
      ++ roll
      ++ pitch_label
      ++ pitch
      ++ render_label
      ++ time
      ++ present_label
      ++ outcome_label m.frame_presented

  length-line_text :
      (m : FrameMetrics F) (roll pitch time : List ℕ)
      → m.frame_number < 2 ^ 64
      → length roll ≤ 14
      → length pitch ≤ 14
      → length time ≤ 14
      → length (line_text m roll pitch time) < line_capacity
  length-line_text m roll pitch time small r p t =
      let n = u64_dec_text m.frame_number in
      let t1 = frame_label ++ n in
      let t2 = t1 ++ roll_label in
      let t3 = t2 ++ roll in
      let t4 = t3 ++ pitch_label in
      let t5 = t4 ++ pitch in
      let t6 = t5 ++ render_label in
      let t7 = t6 ++ time in
      let t8 = t7 ++ present_label in
      omega (
        arith,
        (u64_dec_text-IsNumeral m.frame_number small).short,
        length-outcome_label m.frame_presented,
        length-append frame_label n,
        length-append t1 roll_label,
        length-append t2 roll,
        length-append t3 pitch_label,
        length-append t4 pitch,
        length-append t5 render_label,
        length-append t6 time,
        length-append t7 present_label,
        length-append t8 (outcome_label m.frame_presented),
        r,
        p,
        t,
      )

  -- For a 64-bit frame number and floats that are finite and whose value with two decimals can be computed: the
  -- line of the frame is logged exactly for every 60th frame number, and it shows the number, the roll,
  -- the pitch and the time in full, with nothing cut off: it fits the 128 characters of its buffer.
  pub frame_line_lem :
      (m : FrameMetrics F)
      → m.frame_number < 2 ^ 64
      → IsShowable m.displayed_roll_deg
      → IsShowable m.displayed_pitch_deg
      → IsShowable m.render_time_ms
      → (roll : List ℕ) × (pitch : List ℕ) × (time : List ℕ) × Shows m.displayed_roll_deg true roll
        × Shows m.displayed_pitch_deg true pitch
        × Shows m.render_time_ms false time
        × (text (frame_line m) ≡ line_text m roll pitch time)
        × (on_frame_complete m ≡ (if m.frame_number % 60 == 0 then some (frame_line m) else none))
  unfolding frame_line on_frame_complete empty
  frame_line_lem m small roll_ok pitch_ok time_ok =
      let w1 = append-Writes frame_label (empty-IsValid line_capacity (omega arith)) in
      let w2 = Writes-trans w1 (append_u64_dec-Writes m.frame_number w1.valid) in
      let w3 = Writes-trans w2 (append-Writes roll_label w2.valid) in
      let (roll, roll_shown, r) = append_float-Shows m.displayed_roll_deg true roll_ok w3.valid in
      let w4 = Writes-trans w3 r in
      let w5 = Writes-trans w4 (append-Writes pitch_label w4.valid) in
      let (pitch, pitch_shown, p) =
        append_float-Shows m.displayed_pitch_deg true pitch_ok w5.valid in
      let w6 = Writes-trans w5 p in
      let w7 = Writes-trans w6 (append-Writes render_label w6.valid) in
      let (time, time_shown, t) = append_float-Shows m.render_time_ms false time_ok w7.valid in
      let w8 = Writes-trans w7 t in
      let w9 = Writes-trans w8 (append-Writes present_label w8.valid) in
      let w10 = Writes-trans w9 (append-Writes (outcome_label m.frame_presented) w9.valid) in
      let before =
        frame_label
        ++ u64_dec_text m.frame_number
        ++ roll_label
        ++ roll
        ++ pitch_label
        ++ pitch
        ++ render_label
        ++ time
        ++ present_label in
      let fits =
        length-line_text m roll pitch time small (length-Shows roll_shown)
          (length-Shows pitch_shown) (length-Shows time_shown) in
      (
        roll,
        pitch,
        time,
        roll_shown,
        pitch_shown,
        time_shown,
        w10.shows
            ∙ ap (λ c. take 127 (before ++ c)) (c_string-outcome_label m.frame_presented)
            ∙ take-of_le 127 (line_text m roll pitch time) (omega (arith, fits)),
        ground arith,
      )
