-- ===== src/Geometry/Layout.antt =====
-- app/rendering/horizon_geometry.hpp: the table of the index ranges of the vertices.
use soteria.Prelude.{
  ℕ, zero, suc, ◌+◌, ◌*◌, ◌<◌, ◌≡◌, refl, ap, ◌∙◌, sym, List, [], ◌∷◌, ◌++◌, Option, some, arith,
  length, get_elem?, drop,
}
use soteria.Float.{Float}
use soteria.Geometry.{
  Vertex2D, safe_ar, horizon_line, pitch_ladder, pitch_rungs, arc_r, arc_segs, arc_angle, on_arc,
  roll_arc, roll_triangle, roll_ticks, tick_angles, aircraft_symbol, compute_horizon_vertices,
}

get_elem?-drop :
    {A : Type 0} (xs : List A) (n i : ℕ) → get_elem? (drop n xs) i ≡ get_elem? xs (n + i)
get_elem?-drop xs zero i = ap (get_elem? xs) (omega arith)
get_elem?-drop [] (suc n) i = refl
get_elem?-drop (x ∷ xs) (suc n) i =
    let next : suc (n + i) ≡ suc n + i = omega arith in
    get_elem?-drop xs n i ∙ ap (get_elem? (x ∷ xs)) next

get_elem?-append_left :
    {A : Type 0} (xs ys : List A) (i : ℕ) → i < length xs → get_elem? (xs ++ ys) i ≡ get_elem? xs i
get_elem?-append_left [] ys i h = elim h [ ]
get_elem?-append_left (x ∷ xs) ys zero h = refl
get_elem?-append_left (x ∷ xs) ys (suc i) h = get_elem?-append_left xs ys i (omega arith)

module _ {F : Type 0} ⦃fl : Float F⦄ where
  length-pitch_ladder :
      (ar cos_r sin_r pitch_ndc : F)
      → length (pitch_ladder pitch_rungs ar cos_r sin_r pitch_ndc) ≡ 12
  unfolding pitch_ladder
  length-pitch_ladder ar cos_r sin_r pitch_ndc = refl

  length-roll_arc : (s count : ℕ) (ar : F) → length (roll_arc s count ar) ≡ 2 * count
  unfolding roll_arc
  length-roll_arc s zero ar = refl
  length-roll_arc s (suc count) ar = omega (arith, length-roll_arc (s + 1) count ar)

  -- For every input, the function writes just `kHorizonVertexCount` vertices, 94: no write is outside the
  -- array, and every element of it is written.
  pub length-compute_horizon_vertices :
      (roll_deg pitch_deg aspect_ratio : F)
      → length (compute_horizon_vertices roll_deg pitch_deg aspect_ratio) ≡ 94
  unfolding compute_horizon_vertices horizon_line pitch_ladder roll_arc roll_triangle roll_ticks
      aircraft_symbol
  length-compute_horizon_vertices roll_deg pitch_deg aspect_ratio = refl

  -- The first 14 vertices alone, the horizon line and the pitch ladder, depend on the roll and the pitch: the
  -- roll arc, its reference triangle, the ticks and the aircraft symbol stay fixed on the screen.
  pub compute_horizon_vertices-fixed :
      (roll_deg pitch_deg roll_deg' pitch_deg' aspect_ratio : F)
      → drop 14 (compute_horizon_vertices roll_deg pitch_deg aspect_ratio)
        ≡ drop 14 (compute_horizon_vertices roll_deg' pitch_deg' aspect_ratio)
  unfolding compute_horizon_vertices horizon_line pitch_ladder
  compute_horizon_vertices-fixed roll_deg pitch_deg roll_deg' pitch_deg' aspect_ratio = refl

  arc_start_of :
      (s count i : ℕ) (ar : F)
      → i < count
      → get_elem? (roll_arc s count ar) (2 * i) ≡ some (on_arc arc_r (arc_angle (s + i)) ar)
  unfolding roll_arc
  arc_start_of s zero i ar h = elim h [ ]
  arc_start_of s (suc count) zero ar h =
      ap (λ k. some (on_arc arc_r (arc_angle k) ar)) (omega arith)
  arc_start_of s (suc count) (suc i) ar h =
      let later : 2 * suc i ≡ suc (suc (2 * i)) = omega arith in
      ap (get_elem? (roll_arc s (suc count) ar)) later
      ∙ arc_start_of (s + 1) count i ar (omega (arith, h))
      ∙ ap (λ k. some (on_arc arc_r (arc_angle k) ar)) (omega arith)

  arc_end_of :
      (s count i : ℕ) (ar : F)
      → i < count
      → get_elem? (roll_arc s count ar) (2 * i + 1) ≡ some (on_arc arc_r (arc_angle (s + suc i)) ar)
  unfolding roll_arc
  arc_end_of s zero i ar h = elim h [ ]
  arc_end_of s (suc count) zero ar h = ap (λ k. some (on_arc arc_r (arc_angle k) ar)) (omega arith)
  arc_end_of s (suc count) (suc i) ar h =
      let later : 2 * suc i + 1 ≡ suc (suc (2 * i + 1)) = omega arith in
      ap (get_elem? (roll_arc s (suc count) ar)) later
      ∙ arc_end_of (s + 1) count i ar (omega (arith, h))
      ∙ ap (λ k. some (on_arc arc_r (arc_angle k) ar)) (omega arith)

  -- The vertex at an index of the roll arc.
  arc_vertex :
      (roll_deg pitch_deg aspect_ratio : F) (i : ℕ)
      → i < 48
      → get_elem? (compute_horizon_vertices roll_deg pitch_deg aspect_ratio) (14 + i)
        ≡ get_elem? (roll_arc 0 arc_segs (safe_ar aspect_ratio)) i
  unfolding compute_horizon_vertices horizon_line pitch_ladder roll_arc
  arc_vertex roll_deg pitch_deg aspect_ratio i h =
      let ar = safe_ar aspect_ratio in
      sym (get_elem?-drop (compute_horizon_vertices roll_deg pitch_deg aspect_ratio) 14 i)
      ∙ get_elem?-append_left (roll_arc 0 arc_segs ar)
          (roll_triangle ++ roll_ticks tick_angles ar ++ aircraft_symbol ar) i
          (omega (arith, h, length-roll_arc 0 arc_segs ar))

  -- The roll arc is one unbroken line from index 14 on: its segment `s` goes from point `s` of the arc to
  -- point `s + 1`, where the next one starts.
  pub roll_arc-contiguous :
      (roll_deg pitch_deg aspect_ratio : F) (s : ℕ)
      → s < arc_segs
      → let vertices = compute_horizon_vertices roll_deg pitch_deg aspect_ratio in
        let ar = safe_ar aspect_ratio in
        (get_elem? vertices (14 + 2 * s) ≡ some (on_arc arc_r (arc_angle s) ar))
        × (get_elem? vertices (14 + (2 * s + 1)) ≡ some (on_arc arc_r (arc_angle (s + 1)) ar))
  roll_arc-contiguous roll_deg pitch_deg aspect_ratio s h =
      let point : ℕ → Option (Vertex2D F) =
        λ k. some (on_arc arc_r (arc_angle k) (safe_ar aspect_ratio)) in
      (
        arc_vertex roll_deg pitch_deg aspect_ratio (2 * s) (omega (arith, h))
            ∙ arc_start_of 0 arc_segs s (safe_ar aspect_ratio) h
            ∙ ap point (omega arith),
        arc_vertex roll_deg pitch_deg aspect_ratio (2 * s + 1) (omega (arith, h))
            ∙ arc_end_of 0 arc_segs s (safe_ar aspect_ratio) h
            ∙ ap point (omega arith),
      )
