-- ===== src/Tests/Formats.antt =====
-- The payload formats, JSON admission, frames and the ready state.
use unitree_webrtc_rs.Base.{◌≡◌, ◌↔◌, refl, Option, some, [], ◌∷◌, ◌++◌, Bytes, ok, arith}
use unitree_webrtc_rs.Framing
use unitree_webrtc_rs.Framing.RoundTrip.{parse-Envelope}
use unitree_webrtc_rs.Framing.{normal, lidar}
use unitree_webrtc_rs.Ingress.{parse_json, admit}
use unitree_webrtc_rs.Ingress.Admission.{parse_json_iff, IsAdmitted, tree}
use unitree_webrtc_rs.Json.{Value, object, member, end, string, put}
use unitree_webrtc_rs.RtcState
use unitree_webrtc_rs.RtcState.Isolation.{get-reset, callbacks}
use unitree_webrtc_rs.RtcState.Lifecycle.{apply_events_lem}
use unitree_webrtc_rs.RtcState.{
  channel_opened, peer_connected, peer_disconnected, peer_closed, closed, opened, connecting,
}

-- A reader that knows one document, with a repeated key.
abbrev document : Value
document = object (member "a" (string "x") (member "a" (string "y") end))

abbrev read : Bytes → Option Value
read bytes = some document

parse_json_iff_example :
    (parse_json read (1 ∷ []) ≡ ok (object (member "a" (string "y") end)))
    ↔ ((d : Value) × IsAdmitted read (1 ∷ []) d × (object (member "a" (string "y") end) ≡ tree d))
parse_json_iff_example = parse_json_iff read (1 ∷ []) (object (member "a" (string "y") end))

-- A normal frame with a header of one byte and a payload of two.
parse-Envelope_example :
    Framing.parse read ((1 ∷ 0 ∷ 9 ∷ 9 ∷ []) ++ ((5 ∷ []) ++ (6 ∷ 7 ∷ [])))
    ≡ ok (normal, object (member "a" (string "y") end), 6 ∷ 7 ∷ [])
unfolding parse_json admit put Framing.frame_of
parse-Envelope_example =
    parse-Envelope read (5 ∷ []) (6 ∷ 7 ∷ []) (object (member "a" (string "y") end)) (omega arith)
      refl refl normal (1 ∷ 0 ∷ 9 ∷ 9 ∷ []) (1, 0, 9, 9, refl, refl, refl)

apply_events_lem_example :
    RtcState.from_u8 (
      RtcState.apply_events
        (RtcState.to_u8 connecting)
        (peer_disconnected ∷ channel_opened ∷ peer_disconnected ∷ peer_connected ∷ []))
    ≡ opened
apply_events_lem_example =
    apply_events_lem (peer_disconnected ∷ channel_opened ∷ peer_disconnected ∷ peer_connected ∷ [])

get-reset_example :
    RtcState.get
      (callbacks (RtcState.set (RtcState.reset RtcState.new) connecting) ((0, peer_closed) ∷ []))
    ≡ connecting
unfolding RtcState.new
get-reset_example = get-reset RtcState.new connecting ((0, peer_closed) ∷ []) (omega arith, tt)
