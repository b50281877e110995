-- ===== src/Framing.antt =====
-- src/datachannel/core/framing.rs: a binary frame, an envelope with the length of a JSON header, the
-- header and the payload behind it.
pub mod RoundTrip
use Prim.Native.Nat.{◌+◌, ◌-◌, ◌*◌, ◌^◌}
use unitree_webrtc_rs.Base.{
  ℕ, not, ◌&&◌, Option, none, some, List, [], ◌∷◌, Bytes, String, Result, ok, err, ◌>>=◌, ◌>>◌,
  ok_or, refuse_if, ltb, leb, ◌==◌, if◌then◌else◌, length, take, drop,
}
use unitree_webrtc_rs.Ingress.{parse_json, max_binary_header_bytes}
use unitree_webrtc_rs.Json.{Value, is_object}

pub data BinaryFrame : Type 0 where
  normal lidar : BinaryFrame

-- `<[u8]>::get(first..last)`
unfoldable pub slice? : Bytes → ℕ → ℕ → Option Bytes
slice? bytes first last =
    if leb first last && leb last (length bytes)
    then some (take (last - first) (drop first bytes))
    else none

abbrev pub from_le : Bytes → ℕ
from_le [] = 0
from_le (b ∷ bs) = b + 256 * from_le bs

-- `match prefix { [2, 0, 0, 0] => .. }`
unfoldable pub frame_of : Bytes → BinaryFrame
frame_of (a ∷ b ∷ c ∷ d ∷ []) = if a == 2 && b == 0 && c == 0 && d == 0 then lidar else normal
frame_of _ = normal

-- Where the header starts, and its length.
unfoldable pub extent : BinaryFrame → Bytes → Bytes → Result (ℕ × ℕ)
unfolding slice?
extent normal prefix buffer = ok (4, from_le (take 2 prefix))
extent lidar prefix buffer = do
  bytes ← ok_or (slice? buffer 4 8) "Missing LiDAR frame length"
  ok (12, from_le bytes)

abbrev pub not_an_object : BinaryFrame → String
not_an_object normal = "Normal binary JSON header must be an object"
not_an_object lidar = "Lidar binary JSON header must be an object"

-- `usize::checked_add`
abbrev pub checked_add : ℕ → ℕ → Option ℕ
checked_add a b = if ltb (a + b) (2 ^ 64) then some (a + b) else none

-- From the header's length on.
unfoldable pub rest_of :
    (Bytes → Option Value) → Bytes → BinaryFrame → ℕ × ℕ → Result (BinaryFrame × Value × Bytes)
rest_of read buffer frame e = do
  refuse_if (ltb max_binary_header_bytes e.1) "Binary JSON header exceeds 64 KiB"
  last ← ok_or (checked_add e.0 e.1) "Binary frame length overflow"
  json ← ok_or (slice? buffer e.0 last) "Binary JSON header exceeds frame length"
  header ← parse_json read json
  refuse_if (not (is_object header)) (not_an_object frame)
  ok (frame, header, drop last buffer)

unfoldable pub parse : (Bytes → Option Value) → Bytes → Result (BinaryFrame × Value × Bytes)
parse read buffer = do
  prefix ← ok_or (slice? buffer 0 4) "Binary frame is too short"
  let frame = frame_of prefix
  e ← extent frame prefix buffer
  rest_of read buffer frame e
