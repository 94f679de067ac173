-- ===== src/Geometry/Examples.antt =====
-- Runs of the geometry.
use soteria.Prelude.{ℕ, ◌+◌, ◌*◌, ◌≡◌, List, some, drop, length, get_elem?, arith}
use soteria.Float.Tenths.{tenths}
use soteria.Geometry.{Vertex2D, arc_r, arc_angle, on_arc, safe_ar, compute_horizon_vertices}
use soteria.Geometry.Layout.{
  length-compute_horizon_vertices, compute_horizon_vertices-fixed, roll_arc-contiguous,
}

-- A roll of 10 degrees, a pitch of 5 degrees, and an aspect ratio of 1.3.
abbrev banked : List (Vertex2D ℕ)
banked = compute_horizon_vertices 100 50 13

abbrev level : List (Vertex2D ℕ)
level = compute_horizon_vertices 0 0 13

abbrev arc_point : ℕ → Vertex2D ℕ
arc_point s = on_arc arc_r (arc_angle s) (safe_ar 13)

length-compute_horizon_vertices_example : length banked ≡ 94
length-compute_horizon_vertices_example = length-compute_horizon_vertices 100 50 13

compute_horizon_vertices-fixed_example : drop 14 banked ≡ drop 14 level
compute_horizon_vertices-fixed_example = compute_horizon_vertices-fixed 100 50 0 0 13

roll_arc-contiguous_example :
    (get_elem? banked (14 + 2 * 23) ≡ some (arc_point 23))
    × (get_elem? banked (14 + (2 * 23 + 1)) ≡ some (arc_point (23 + 1)))
roll_arc-contiguous_example = roll_arc-contiguous 100 50 13 23 (omega arith)
