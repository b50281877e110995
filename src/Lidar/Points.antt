-- ===== src/Lidar/Points.antt =====
-- src/datachannel/lidar/codec.rs: the bits of a voxel map become points.
use Prim.Native.Nat.{◌+◌, ◌*◌, ◌/◌, ◌%◌, ◌^◌, bit_and}
use unitree_webrtc_rs.Base.{
  ℕ, zero, suc, not, ◌||◌, ◌>>=◌, Option, none, some, List, [], ◌∷◌, ◌++◌, Bytes, Result, ok, err,
  ok_or, ltb, ◌==◌, length, if◌then◌else◌,
}
use unitree_webrtc_rs.Json.{◌then?◌}
use unitree_webrtc_rs.Lidar.Metadata.{
  Floats, validate_geometry, max_bitmap_bytes, max_compressed_bytes, bytes_per_row, bytes_per_slice,
}

abbrev pub max_points : ℕ
max_points = 1000000

-- The LZ4 block decoder is a dependency: a parameter, with the size that it may write.
unfoldable pub decompress_lz4 : (Bytes → ℕ → Option Bytes) → Bytes → ℕ → Result Bytes
decompress_lz4 decompress compressed size =
    if ltb max_bitmap_bytes size || ltb max_compressed_bytes (length compressed)
    then err "LiDAR compressed/decompressed size exceeds resource budget"
    else ok_or (decompress compressed size) "lz4 decompress failed"

-- `count_ones` of a byte.
abbrev pub bit : ℕ → ℕ → ℕ
bit byte k = byte / 2 ^ k % 2

abbrev pub count_ones : ℕ → ℕ
count_ones byte =
    bit byte 0
    + bit byte 1
    + bit byte 2
    + bit byte 3
    + bit byte 4
    + bit byte 5
    + bit byte 6
    + bit byte 7

abbrev pub checked_add : ℕ → ℕ → Option ℕ
checked_add a b = if ltb (a + b) (2 ^ 64) then some (a + b) else none

abbrev pub checked_mul : ℕ → ℕ → Option ℕ
checked_mul a b = if ltb (a * b) (2 ^ 64) then some (a * b) else none

-- `try_fold`
unfoldable pub count_points : ℕ → Bytes → Option ℕ
count_points count [] = some count
count_points count (byte ∷ bytes) =
    checked_add count (count_ones byte) then? λ count'. count_points count' bytes

-- `while bits != 0`: the offsets at which a point is pushed. The loop shifts out one bit in each pass,
-- so it needs no more passes than a byte has bits.
unfoldable pub shift_loop : ℕ → ℕ → ℕ → List ℕ
shift_loop zero bits bit_offset = []
shift_loop (suc passes) bits bit_offset =
    let rest = shift_loop passes (bits * 2 % 256) (bit_offset + 1) in
    if bits == 0 then [] else if not (bit_and bits 0x80 == 0) then bit_offset ∷ rest else rest

abbrev pub Voxel : Type 0
Voxel = ℕ × ℕ × ℕ

-- A voxel of the byte at an index, at an offset in it.
abbrev pub voxel : ℕ → ℕ → Voxel
voxel byte_index bit_offset =
    let n_slice = byte_index % bytes_per_slice in
    (
      (n_slice % bytes_per_row) * 8 + bit_offset,
      n_slice / bytes_per_row,
      byte_index / bytes_per_slice,
    )

abbrev pub at_offsets : ℕ → List ℕ → List Voxel
at_offsets byte_index [] = []
at_offsets byte_index (offset ∷ offsets) = voxel byte_index offset ∷ at_offsets byte_index offsets

-- The loop over the bytes, from an index on.
unfoldable pub shifted_voxels : ℕ → Bytes → List Voxel
unfolding shift_loop
shifted_voxels byte_index [] = []
shifted_voxels byte_index (byte ∷ bytes) =
    let rest = shifted_voxels (byte_index + 1) bytes in
    if byte == 0 then rest else at_offsets byte_index (shift_loop 8 byte 0) ++ rest

module _ (F : Floats) where
  open F use {F64, F32, to_f32, of_index, add, mul}

  -- The three pushes of each voxel.
  unfoldable pub push_points : F32 → F32 → F32 → F32 → List Voxel → List F32
  push_points ox oy oz resolution [] = []
  push_points ox oy oz resolution ((x, y, z) ∷ voxels) =
      add (mul (of_index x) resolution) ox
      ∷ add (mul (of_index y) resolution) oy
      ∷ add (mul (of_index z) resolution) oz
      ∷ push_points ox oy oz resolution voxels

  unfoldable pub bits_to_points_optimized : Bytes → F64 → F64 → F64 → F64 → Result (List F32)
  unfolding count_points shifted_voxels push_points
  bits_to_points_optimized buffer x y z resolution =
      validate_geometry F (length buffer) x y z resolution >>= λ u.
      ok_or (count_points 0 buffer) "LiDAR point count overflow" >>= λ point_count.
      if ltb max_points point_count
      then err "LiDAR point count exceeds resource budget"
      else ok_or (checked_mul point_count 3) "LiDAR output size overflow" >>= λ capacity. ok (
          push_points (to_f32 x) (to_f32 y) (to_f32 z) (to_f32 resolution)
            (shifted_voxels 0 buffer))
