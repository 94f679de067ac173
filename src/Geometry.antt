-- ===== src/Geometry.antt =====
-- app/rendering/horizon_geometry.hpp and horizon_geometry.cpp: `ComputeHorizonVertices`, as the list of the
-- vertices in the order in which it writes them, from index 0 on. Geometry/Layout says where they are.
pub mod Layout
mod Examples
use soteria.Prelude.{ℕ, zero, suc, ◌+◌, List, [], ◌∷◌, ◌++◌, if◌then◌else◌}
use soteria.Float.{Float, zero_f}

pub record Vertex2D (F : Type 0) : Type 0 where
  pub x : F
  pub y : F

-- `kArcSegs`
abbrev pub arc_segs : ℕ
arc_segs = 24

module _ {F : Type 0} ⦃fl : Float F⦄ where
  -- `kDegToRad`, from `kPi`
  abbrev pub deg_to_rad : F
  deg_to_rad = fl.div (fl.literal 314159265358979323846 20) (fl.literal 1800 1)

  -- `AttToNdc`
  unfoldable pub att_to_ndc : (x_att y_att cos_r sin_r pitch_ndc : F) → Vertex2D F
  att_to_ndc x_att y_att cos_r sin_r pitch_ndc =
      let y_screen = fl.sub pitch_ndc y_att in
      record {
        x = fl.sub (fl.mul cos_r x_att) (fl.mul sin_r y_screen);
        y = fl.add (fl.mul sin_r x_att) (fl.mul cos_r y_screen);
      }

  -- The guard against an invalid aspect ratio.
  unfoldable pub safe_ar : F → F
  safe_ar aspect_ratio =
      if fl.lt (fl.literal 1 1) aspect_ratio
      then aspect_ratio
      else fl.div (fl.literal 160 1) (fl.literal 90 1)

  -- The horizon line.
  unfoldable pub horizon_line : (cos_r sin_r pitch_ndc : F) → List (Vertex2D F)
  horizon_line cos_r sin_r pitch_ndc =
      att_to_ndc (fl.neg (fl.literal 92 2)) zero_f cos_r sin_r pitch_ndc
      ∷ att_to_ndc (fl.literal 92 2) zero_f cos_r sin_r pitch_ndc
      ∷ []

  -- `kPitchAngles` and `kPitchWidths`
  abbrev pub pitch_rungs : List (F × F)
  pitch_rungs =
      (fl.literal 50 1, fl.literal 22 2)
      ∷ (fl.literal 100 1, fl.literal 30 2)
      ∷ (fl.literal 150 1, fl.literal 38 2)
      ∷ []

  -- The loop over the pitch ladder.
  unfoldable pub pitch_ladder : List (F × F) → (ar cos_r sin_r pitch_ndc : F) → List (Vertex2D F)
  pitch_ladder [] ar cos_r sin_r pitch_ndc = []
  pitch_ladder ((angle, width) ∷ rungs) ar cos_r sin_r pitch_ndc =
      let y_p = fl.div angle (fl.literal 300 1) in
      let w = fl.div width ar in
      att_to_ndc (fl.neg w) y_p cos_r sin_r pitch_ndc
      ∷ att_to_ndc w y_p cos_r sin_r pitch_ndc
      ∷ att_to_ndc (fl.neg w) (fl.neg y_p) cos_r sin_r pitch_ndc
      ∷ att_to_ndc w (fl.neg y_p) cos_r sin_r pitch_ndc
      ∷ pitch_ladder rungs ar cos_r sin_r pitch_ndc

  -- `kArcR`, `kArcStart` and `kArcStep`
  abbrev pub arc_r : F
  arc_r = fl.literal 62 2

  abbrev pub arc_start : F
  arc_start = fl.mul (fl.neg (fl.literal 600 1)) deg_to_rad

  abbrev pub arc_step : F
  arc_step = fl.div (fl.mul (fl.literal 1200 1) deg_to_rad) (fl.of_u32 arc_segs)

  -- The point at radius `r` and angle `a`.
  unfoldable pub on_arc : (r a ar : F) → Vertex2D F
  on_arc r a ar = record { x = fl.div (fl.mul r (fl.sin a)) ar; y = fl.mul (fl.neg r) (fl.cos a) }

  -- The angle at the start of segment `s` of the roll arc.
  unfoldable pub arc_angle : ℕ → F
  arc_angle s = fl.add arc_start (fl.mul (fl.of_u32 s) arc_step)

  -- The loop over the roll arc: `count` segments from the segment `s` on.
  unfoldable pub roll_arc : (s count : ℕ) → F → List (Vertex2D F)
  roll_arc s zero ar = []
  roll_arc s (suc count) ar =
      on_arc arc_r (arc_angle s) ar
      ∷ on_arc arc_r (arc_angle (s + 1)) ar
      ∷ roll_arc (s + 1) count ar

  -- The roll reference triangle; its half-base does not depend on the aspect ratio.
  unfoldable pub roll_triangle : List (Vertex2D F)
  roll_triangle =
      let apex_y = fl.neg arc_r in
      let base_y = fl.add apex_y (fl.literal 55 3) in
      let w = fl.div (fl.literal 35 3) (fl.div (fl.literal 160 1) (fl.literal 90 1)) in
      record { x = fl.neg w; y = base_y }
      ∷ record { x = zero_f; y = apex_y }
      ∷ record { x = zero_f; y = apex_y }
      ∷ record { x = w; y = base_y }
      ∷ record { x = fl.neg w; y = base_y }
      ∷ record { x = w; y = base_y }
      ∷ []

  -- `kTickAngles` and `kTickInner`
  abbrev pub tick_angles : List F
  tick_angles =
      fl.literal 100 1
      ∷ fl.literal 200 1
      ∷ fl.literal 300 1
      ∷ fl.literal 450 1
      ∷ fl.literal 600 1
      ∷ []

  abbrev pub tick_inner : F
  tick_inner = fl.sub arc_r (fl.literal 5 2)

  -- The loop over the roll ticks, right and left.
  unfoldable pub roll_ticks : List F → F → List (Vertex2D F)
  roll_ticks [] ar = []
  roll_ticks (angle ∷ angles) ar =
      let right = fl.mul angle deg_to_rad in
      let left = fl.mul (fl.neg angle) deg_to_rad in
      on_arc arc_r right ar
      ∷ on_arc tick_inner right ar
      ∷ on_arc arc_r left ar
      ∷ on_arc tick_inner left ar
      ∷ roll_ticks angles ar

  -- The aircraft symbol.
  unfoldable pub aircraft_symbol : F → List (Vertex2D F)
  aircraft_symbol ar =
      let wing_w = fl.div (fl.literal 20 2) ar in
      let wing_gap = fl.div (fl.literal 7 2) ar in
      record { x = fl.neg wing_w; y = zero_f }
      ∷ record { x = fl.neg wing_gap; y = zero_f }
      ∷ record { x = wing_gap; y = zero_f }
      ∷ record { x = wing_w; y = zero_f }
      ∷ record { x = zero_f; y = fl.neg (fl.literal 4 2) }
      ∷ record { x = zero_f; y = fl.literal 4 2 }
      ∷ []

  -- `ComputeHorizonVertices`
  unfoldable pub compute_horizon_vertices :
      (roll_deg pitch_deg aspect_ratio : F) → List (Vertex2D F)
  compute_horizon_vertices roll_deg pitch_deg aspect_ratio =
      let roll_rad = fl.mul roll_deg deg_to_rad in
      let cos_r = fl.cos roll_rad in
      let sin_r = fl.sin roll_rad in
      let pitch_ndc = fl.div pitch_deg (fl.literal 300 1) in
      let ar = safe_ar aspect_ratio in
      horizon_line cos_r sin_r pitch_ndc
      ++ pitch_ladder pitch_rungs ar cos_r sin_r pitch_ndc
      ++ roll_arc 0 arc_segs ar
      ++ roll_triangle
      ++ roll_ticks tick_angles ar
      ++ aircraft_symbol ar
