-- ===== src/Signaling/Wrapper.antt =====
-- The wrapper around the robot's public key in signaling_http.rs, and the path that it encodes.
use Prim.Native.Nat.{◌-◌}
use Prim.Native.String.{◌++◌ as append}
use unitree_webrtc_rs.Base.{
  ℕ, Bool, true, not, ◌&&◌, List, [], ◌∷◌, String, Bytes, Result, ok, err, ltb, leb, length, take,
  drop, if◌then◌else◌,
}
use unitree_webrtc_rs.Models.{show_nat}

-- The bytes of UTF-8 that continue a character.
abbrev pub is_continuation : ℕ → Bool
is_continuation byte = leb 128 byte && ltb byte 192

abbrev pub starts_character : Bytes → Bool
starts_character [] = true
starts_character (byte ∷ bytes) = not (is_continuation byte)

-- `is_char_boundary`, of an index within the text.
abbrev pub is_boundary : ℕ → Bytes → Bool
is_boundary index bytes = starts_character (drop index bytes)

unfoldable pub con_notify_public_key : Bytes → Result Bytes
con_notify_public_key data1 =
    let n = length data1 in
    if ltb n 20
    then err "con_notify data1 is too short"
    else if is_boundary 10 data1 && is_boundary (n - 10) data1
    then ok (take (n - 20) (drop 10 data1))
    else err "con_notify data1 wrapper has invalid UTF-8 boundaries"

-- The characters of a text, each by its first byte: the symbols are of one byte, which begins no other.
unfoldable pub chars : Bytes → List ℕ
chars [] = []
chars (byte ∷ bytes) = let rest = chars bytes in if is_continuation byte then rest else byte ∷ rest

-- The position of a symbol from A to J.
abbrev pub push_index : ℕ → String → String
push_index symbol output =
    if leb 65 symbol && leb symbol 74 then append (show_nat 20 (symbol - 65)) output else output

unfoldable pub pairs : List ℕ → String
pairs [] = ""
pairs (first ∷ []) = ""
pairs (first ∷ second ∷ rest) = push_index second (pairs rest)

unfoldable pub calc_local_path_ending : Bytes → String
unfolding chars pairs
calc_local_path_ending data1 =
    let cs = chars data1 in if ltb (length cs) 10 then "" else pairs (drop (length cs - 10) cs)
