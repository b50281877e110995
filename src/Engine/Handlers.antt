-- ===== src/Engine/Handlers.antt =====
-- src/infrastructure/rtc_engine/handlers.rs: the callbacks of a peer and of its data channel. Each is
-- bound to the generation and to the ready state of the session that made the peer.
use unitree_webrtc_rs.Base.{
  ℕ, Bool, true, false, not, Option, none, some, Bytes, ◌==◌, leb, length, if◌then◌else◌,
}
use unitree_webrtc_rs.Engine.{RtcEngine, try_send}
use unitree_webrtc_rs.Ingress.{max_text_bytes, max_binary_bytes}
use unitree_webrtc_rs.Models.{DcMessage, text, binary}
use unitree_webrtc_rs.RtcState.{
  RtcReadyState, RtcStateEvent, closed, connecting, opened, disconnected, failed, from_u8,
  read_cell, callback, channel_opened, channel_closed, peer_connected, peer_disconnected,
  peer_failed, peer_closed,
}

abbrev pub message_size_allowed : Bool → ℕ → Bool
message_size_allowed true size = leb size max_text_bytes
message_size_allowed false size = leb size max_binary_bytes

abbrev pub is_over : RtcReadyState → Bool
is_over closed = true
is_over failed = true
is_over connecting = false
is_over opened = false
is_over disconnected = false

-- `RTCPeerConnectionState` of the dependency.
pub data PeerState : Type 0 where
  unspecified new_peer connecting_peer connected disconnected_peer failed_peer closed_peer :
      PeerState

abbrev pub event_of : PeerState → Option RtcStateEvent
event_of connected = some peer_connected
event_of disconnected_peer = some peer_disconnected
event_of failed_peer = some peer_failed
event_of closed_peer = some peer_closed
event_of unspecified = none
event_of new_peer = none
event_of connecting_peer = none

-- A log of a drop is not part of the state.
unfoldable pub enqueue_current : ℕ → DcMessage → RtcEngine → RtcEngine
unfolding try_send
enqueue_current generation payload e =
    if not (generation == e.ingress_generation)
    then e
    else (try_send e (record { generation = generation; payload = payload })).0

-- A callback applies an event to the byte that it captured.
abbrev pub apply_to : ℕ → RtcStateEvent → RtcEngine → RtcEngine
apply_to cell event e = record e { ready_state = callback e.ready_state cell event }

-- `if let Some(payload)`.
abbrev pub if_some : Option DcMessage → (DcMessage → RtcEngine → RtcEngine) → RtcEngine → RtcEngine
if_some none next e = e
if_some (some payload) next e = next payload e

module _ (utf8 : Bytes → Bool) where
  unfoldable pub on_open : ℕ → ℕ → RtcEngine → RtcEngine
  on_open generation cell e =
      if not (generation == e.ingress_generation) then e else apply_to cell channel_opened e

  unfoldable pub on_close : ℕ → ℕ → RtcEngine → RtcEngine
  on_close generation cell e =
      if not (generation == e.ingress_generation) then e else apply_to cell channel_closed e

  unfoldable pub decode_text_message : Bytes → Option DcMessage
  decode_text_message bytes =
      if not (leb (length bytes) max_text_bytes)
      then none
      else if utf8 bytes
      then some (text bytes)
      else none

  abbrev pub message_of : Bool → Bytes → Option DcMessage
  unfolding decode_text_message
  message_of true bytes = decode_text_message bytes
  message_of false bytes = some (binary bytes)

  unfoldable pub on_message : ℕ → ℕ → Bool → Bytes → RtcEngine → RtcEngine
  unfolding enqueue_current message_of from_u8
  on_message generation cell is_string bytes e =
      if is_over (from_u8 (read_cell e.ready_state.cells cell))
      then e
      else if not (generation == e.ingress_generation)
      then e
      else if not (message_size_allowed is_string (length bytes))
      then e
      else if_some (message_of is_string bytes) (enqueue_current generation) e

  unfoldable pub on_peer_state : ℕ → ℕ → PeerState → RtcEngine → RtcEngine
  on_peer_state generation cell state e =
      if not (generation == e.ingress_generation)
      then e
      else elim (event_of state) [ none ↦ e | some event ↦ apply_to cell event e ]
