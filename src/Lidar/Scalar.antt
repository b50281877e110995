-- ===== src/Lidar/Scalar.antt =====
-- The shift loop of the decoder against the scalar reference of codec.rs.
use Prim.Native.Nat.{◌+◌, ◌-◌, ◌*◌, ◌^◌, ◌≤◌, ◌<◌, bit_and}
use unitree_webrtc_rs.Base.{
  ℕ, zero, suc, ◌≡◌, refl, ap, ◌∙◌, Bool, true, false, not, ◌&&◌, some, List, [], ◌∷◌, ◌++◌, Bytes,
  ok, ltb, ◌==◌, length, length-append, All, holds_below, holds_below_sound, and_both, bind-ok,
  guard-ok, ok_or, ok_or-ok, if_elim, ==_iff, if◌then◌else◌, arith,
}
use unitree_webrtc_rs.Json.{then-some}
use unitree_webrtc_rs.Lidar.Metadata.{Floats, validate_geometry}
use unitree_webrtc_rs.Lidar.Points.{
  max_points, count_ones, checked_add, checked_mul, count_points, shift_loop, Voxel, at_offsets,
  shifted_voxels, push_points, bits_to_points_optimized,
}

-- `for bit_offset in 0..8`: those from an offset on.
unfoldable pub scan : ℕ → ℕ → ℕ → List ℕ
scan zero byte bit_offset = []
scan (suc left) byte bit_offset =
    let rest = scan left byte (bit_offset + 1) in
    if not (bit_and byte (2 ^ (7 - bit_offset)) == 0) then bit_offset ∷ rest else rest

-- The voxels that `bits_to_points` makes points of.
unfoldable pub scalar_voxels : ℕ → Bytes → List Voxel
unfolding scan
scalar_voxels byte_index [] = []
scalar_voxels byte_index (byte ∷ bytes) =
    let rest = scalar_voxels (byte_index + 1) bytes in
    if byte == 0 then rest else at_offsets byte_index (scan 8 byte 0) ++ rest

unfoldable list_eq : List ℕ → List ℕ → Bool
list_eq [] [] = true
list_eq [] (y ∷ ys) = false
list_eq (x ∷ xs) [] = false
list_eq (x ∷ xs) (y ∷ ys) = x == y && list_eq xs ys

list_eq_sound : (xs ys : List ℕ) → list_eq xs ys ≡ true → xs ≡ ys
unfolding list_eq
list_eq_sound [] [] h = refl
list_eq_sound [] (y ∷ ys) h = cc
list_eq_sound (x ∷ xs) [] h = cc
list_eq_sound (x ∷ xs) (y ∷ ys) h =
    let (p, q) = and_both (x == y) (list_eq xs ys) h in ground (arith, p, list_eq_sound xs ys q)

table :
    holds_below 256
      (λ b. list_eq (shift_loop 8 b 0) (scan 8 b 0) && length (shift_loop 8 b 0) == count_ones b)
    ≡ true
unfolding holds_below list_eq shift_loop scan
table = refl

-- A byte, by the two loops and by its ones.
byte_lem :
    (b : ℕ) → b < 256 → (shift_loop 8 b 0 ≡ scan 8 b 0) × (length (shift_loop 8 b 0) ≡ count_ones b)
byte_lem b small =
    let test : ℕ → Bool =
      λ b. list_eq (shift_loop 8 b 0) (scan 8 b 0) && length (shift_loop 8 b 0) == count_ones b in
    let (p, q) =
      and_both (list_eq (shift_loop 8 b 0) (scan 8 b 0)) (length (shift_loop 8 b 0) == count_ones b)
        (holds_below_sound test 256 b small table) in
    (
      list_eq_sound (shift_loop 8 b 0) (scan 8 b 0) p,
      (==_iff (length (shift_loop 8 b 0)) (count_ones b)).0 q,
    )

same_if {ℓ} :
    {A : Type ℓ} (b : Bool) (x x' y y' : A)
    → x ≡ x'
    → y ≡ y'
    → (if b then x else y) ≡ (if b then x' else y')
same_if true x x' y y' p q = p
same_if false x x' y y' p q = q

-- The optimized decoder and the scalar reference visit the same voxels in the same order.
pub shifted_voxels-scalar :
    (byte_index : ℕ) (bytes : Bytes)
    → All (λ b. b < 256) bytes
    → shifted_voxels byte_index bytes ≡ scalar_voxels byte_index bytes
unfolding shifted_voxels scalar_voxels
shifted_voxels-scalar i [] all = refl
shifted_voxels-scalar i (b ∷ bytes) (small, all) =
    let next = shifted_voxels-scalar (i + 1) bytes all in
    let (p, q) = byte_lem b small in
    same_if (b == 0) _ _ _ _ next (
      ap (λ o. at_offsets i o ++ shifted_voxels (i + 1) bytes) p
      ∙ ap (λ r. at_offsets i (scan 8 b 0) ++ r) next)

-- The ones of a bitmap.
unfoldable pub ones : Bytes → ℕ
ones [] = 0
ones (b ∷ bytes) = count_ones b + ones bytes

length-at_offsets : (i : ℕ) (o : List ℕ) → length (at_offsets i o) ≡ length o
length-at_offsets i [] = refl
length-at_offsets i (x ∷ o) = ap suc (length-at_offsets i o)

length-shifted_voxels :
    (i : ℕ) (bytes : Bytes)
    → All (λ b. b < 256) bytes
    → length (shifted_voxels i bytes) ≡ ones bytes
unfolding shifted_voxels ones
length-shifted_voxels i [] all = refl
length-shifted_voxels i (b ∷ bytes) (small, all) =
    let next = length-shifted_voxels (i + 1) bytes all in
    let (p, q) = byte_lem b small in
    let tail = shifted_voxels (i + 1) bytes in
    if_elim (λ r. length r ≡ count_ones b + ones bytes) (b == 0) tail
      (at_offsets i (shift_loop 8 b 0) ++ tail)
      (λ e.
        let none_set : count_ones b ≡ 0 = ap count_ones ((==_iff b 0).0 e) in
        omega (arith, next, none_set))
      λ e. omega (
        arith,
        next,
        q,
        length-at_offsets i (shift_loop 8 b 0),
        length-append (at_offsets i (shift_loop 8 b 0)) tail,
      )

count_points-some :
    (count n : ℕ) (bytes : Bytes) → count_points count bytes ≡ some n → n ≡ count + ones bytes
unfolding count_points ones
count_points-some count n [] h = ground (arith, h)
count_points-some count n (b ∷ bytes) h =
    let (c, p, q) =
      then-some (checked_add count (count_ones b)) (λ count'. count_points count' bytes) n h in
    ground (arith, p, count_points-some c n bytes q)

module _ (F : Floats) where
  length-push_points :
      (ox oy oz r : F.F32) (voxels : List Voxel)
      → length (push_points F ox oy oz r voxels) ≡ 3 * length voxels
  unfolding push_points
  length-push_points ox oy oz r [] = omega arith
  length-push_points ox oy oz r (v ∷ voxels) = omega (arith, length-push_points ox oy oz r voxels)

  -- The output of the decoder: three coordinates for each bit that is set, of a million points at most,
  -- which are those of the scalar reference's voxels in its order. The buffer consists of bytes.
  pub bits_to_points_optimized-scalar :
      (buffer : Bytes) (x y z resolution : F.F64) (points : List F.F32)
      → All (λ b. b < 256) buffer
      → bits_to_points_optimized F buffer x y z resolution ≡ ok points
      → (points
          ≡ push_points F
              (F.to_f32 x)
              (F.to_f32 y)
              (F.to_f32 z)
              (F.to_f32 resolution)
              (scalar_voxels 0 buffer))
        × (length points ≡ 3 * ones buffer)
        × (ones buffer ≤ max_points)
  unfolding bits_to_points_optimized
  bits_to_points_optimized-scalar buffer x y z resolution points all h =
      let (u, h0, h1) = bind-ok (validate_geometry F (length buffer) x y z resolution) _ points h in
      let (n, h2, h3) =
        bind-ok (ok_or (count_points 0 buffer) "LiDAR point count overflow") _ points h1 in
      let counted =
        count_points-some 0 n buffer
          (ok_or-ok (count_points 0 buffer) "LiDAR point count overflow" n h2) in
      let voxels = shifted_voxels 0 buffer in
      let out = push_points F (F.to_f32 x) (F.to_f32 y) (F.to_f32 z) (F.to_f32 resolution) voxels in
      let (few, h4) =
        guard-ok (ltb max_points n) "LiDAR point count exceeds resource budget" _ points h3 in
      let (c, h5, h6) =
        bind-ok (ok_or (checked_mul n 3) "LiDAR output size overflow") _ points h4 in
      let same : points ≡ out = ground (arith, h6) in
      (
        same
            ∙ ap (push_points F (F.to_f32 x) (F.to_f32 y) (F.to_f32 z) (F.to_f32 resolution))
                (shifted_voxels-scalar 0 buffer all),
        ap length same
            ∙ omega (
              arith,
              length-push_points (F.to_f32 x) (F.to_f32 y) (F.to_f32 z) (F.to_f32 resolution)
                  voxels,
              length-shifted_voxels 0 buffer all,
            ),
        ground (arith, few, counted),
      )
