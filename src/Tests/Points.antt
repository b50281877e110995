-- ===== src/Tests/Points.antt =====
-- A small voxel map and its points.
use Prim.Native.Nat.{◌*◌, ◌+◌}
use unitree_webrtc_rs.Base.{
  ℕ, ◌≡◌, ◌≤◌, ◌<◌, refl, true, List, [], ◌∷◌, Bytes, ok, length, All, arith,
}
use unitree_webrtc_rs.Lidar.Metadata.{Floats, validate_geometry}
use unitree_webrtc_rs.Lidar.Points.{bits_to_points_optimized, push_points, max_points}
use unitree_webrtc_rs.Lidar.Scalar.{scalar_voxels, ones, bits_to_points_optimized-scalar}

abbrev floats : Floats
floats = record {
  F64 = ℕ;
  F32 = ℕ;
  of_number = λ n. 0;
  is_finite_64 = λ x. true;
  is_positive_64 = λ x. true;
  to_f32 = λ x. x;
  is_finite_32 = λ x. true;
  is_positive_32 = λ x. true;
  of_index = λ n. n;
  add = λ x y. x + y;
  mul = λ x y. x * y;
}

-- Bits 0 and 7 of the first byte, and bit 2 of the third.
abbrev bitmap : Bytes
bitmap = 129 ∷ 0 ∷ 32 ∷ []

abbrev coordinates : List ℕ
coordinates = 0 ∷ 0 ∷ 0 ∷ 7 ∷ 0 ∷ 0 ∷ 18 ∷ 0 ∷ 0 ∷ []

bitmap-points : bits_to_points_optimized floats bitmap 0 0 0 1 ≡ ok coordinates
unfolding bits_to_points_optimized validate_geometry
bitmap-points = refl

bitmap-bytes : All (λ b. b < 256) bitmap
bitmap-bytes = (omega arith, (omega arith, (omega arith, tt)))

bits_to_points_optimized-scalar_example :
    (coordinates ≡ push_points floats 0 0 0 1 (scalar_voxels 0 bitmap))
    × (length coordinates ≡ 3 * ones bitmap)
    × (ones bitmap ≤ max_points)
bits_to_points_optimized-scalar_example =
    bits_to_points_optimized-scalar floats bitmap 0 0 0 1 coordinates bitmap-bytes bitmap-points
