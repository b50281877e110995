-- ===== src/Lidar/Metadata.antt =====
-- `LidarMetadata::from_json` and `validate_geometry`. The floating-point operations are a parameter.
use Prim.Native.Nat.{◌+◌, ◌-◌, ◌*◌, ◌/◌}
use unitree_webrtc_rs.Base.{
  ℕ, Bool, not, ◌||◌, Option, none, some, Result, ok, err, ltb, if◌then◌else◌,
}
use unitree_webrtc_rs.Json.{Value, Number, number, array, nil, cons, get, as_u64, ◌then?◌}

-- `f64` and `f32` with the operations that the code uses; `of_number` is `Number::as_f64`.
pub record Floats : Type 1 where
  pub F64 : Type 0
  pub F32 : Type 0
  pub of_number : Number → F64
  pub is_finite_64 : F64 → Bool
  pub is_positive_64 : F64 → Bool
  pub to_f32 : F64 → F32
  pub is_finite_32 : F32 → Bool
  pub is_positive_32 : F32 → Bool
  pub of_index : ℕ → F32
  pub add : F32 → F32 → F32
  pub mul : F32 → F32 → F32

abbrev pub max_bitmap_bytes : ℕ
max_bitmap_bytes = 1024 * 1024

abbrev pub max_compressed_bytes : ℕ
max_compressed_bytes = max_bitmap_bytes + max_bitmap_bytes / 255 + 16

abbrev pub bytes_per_row : ℕ
bytes_per_row = 16

abbrev pub bytes_per_slice : ℕ
bytes_per_slice = 2048

module _ (F : Floats) where
  open F use {
    F64, F32, of_number, is_finite_64, is_positive_64, to_f32, is_finite_32, is_positive_32,
    of_index, add, mul,
  }

  pub record LidarMetadata : Type 0 where
    pub origin_x : F64
    pub origin_y : F64
    pub origin_z : F64
    pub resolution : F64
    pub src_size : ℕ

  as_f64 : Value → Option F64
  as_f64 (number n) = some (of_number n)
  as_f64 _ = none

  -- One axis: the origin and the farthest point are finite.
  axis_invalid : F64 → ℕ → F32 → Bool
  axis_invalid value index resolution =
      not (is_finite_64 value)
      || not (is_finite_32 (to_f32 value))
      || not (is_finite_32 (add (to_f32 value) (mul (of_index index) resolution)))

  unfoldable pub validate_geometry : ℕ → F64 → F64 → F64 → F64 → Result (Unit {0})
  unfolding axis_invalid
  validate_geometry size x y z resolution =
      let r = to_f32 resolution in
      if ltb max_bitmap_bytes size
        || not (is_finite_64 resolution)
        || not (is_positive_64 resolution)
      then err "Invalid LiDAR size or resolution"
      else if not (is_finite_32 r)
          || not (is_positive_32 r)
          || axis_invalid x (bytes_per_row * 8 - 1) r
          || axis_invalid y (bytes_per_slice / bytes_per_row - 1) r
          || axis_invalid z ((size - 1) / bytes_per_slice) r
      then err "LiDAR coordinates exceed finite f32 range"
      else ok tt

  -- `origin` must be an array of exactly three.
  three_of : Value → Option (F64 × F64 × F64)
  unfolding as_f64
  three_of (array (cons a (cons b (cons c nil)))) =
      as_f64 a then? λ x. as_f64 b then? λ y. as_f64 c then? λ z. some (x, y, z)
  three_of _ = none

  accept : F64 × F64 × F64 → F64 → ℕ → Option LidarMetadata
  accept o resolution src_size = elim (validate_geometry src_size o.0 o.1 o.2 resolution) [
    | err e ↦ none
    | ok _ ↦ some (record {
      origin_x = o.0;
      origin_y = o.1;
      origin_z = o.2;
      resolution = resolution;
      src_size = src_size;
    })
  ]

  pub from_json : Value → Option LidarMetadata
  unfolding three_of accept as_f64
  from_json payload = get "origin" payload then? λ o. three_of o then? λ origin.
      get "resolution" payload then? λ r. as_f64 r then? λ resolution.
      get "src_size" payload then? λ n. as_u64 n then? λ src_size. accept origin resolution src_size
