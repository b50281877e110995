-- ===== src/RtcState/Lifecycle.antt =====
-- What a sequence of events can do to one peer's state.
use unitree_webrtc_rs.Base.{
  ◌≡◌, refl, ap, ◌∙◌, Option, none, some, Bool, true, false, ◌||◌, List, [], ◌∷◌, arith,
}
use unitree_webrtc_rs.RtcState.{
  RtcReadyState, closed, connecting, opened, disconnected, failed, RtcStateEvent, channel_opened,
  channel_closed, peer_connected, peer_disconnected, peer_failed, peer_closed, to_u8, from_u8,
  apply_event, apply_events,
}

-- The byte stands for the state that was written.
pub from_u8-to_u8 : (s : RtcReadyState) → from_u8 (to_u8 s) ≡ s
unfolding from_u8 to_u8
from_u8-to_u8 closed = refl
from_u8-to_u8 connecting = refl
from_u8-to_u8 opened = refl
from_u8-to_u8 disconnected = refl
from_u8-to_u8 failed = refl

abbrev pub ends_session : RtcStateEvent → Bool
ends_session channel_closed = true
ends_session peer_failed = true
ends_session peer_closed = true
ends_session _ = false

abbrev pub has_event : (RtcStateEvent → Bool) → List RtcStateEvent → Bool
has_event p [] = false
has_event p (e ∷ es) = p e || has_event p es

abbrev pub is_channel_opened : RtcStateEvent → Bool
is_channel_opened channel_opened = true
is_channel_opened _ = false

-- What the state before the events must be, for the state after them to be open.
abbrev CanOpen : RtcReadyState → List RtcStateEvent → Type 0
CanOpen connecting events = has_event is_channel_opened events ≡ true
CanOpen opened events = Unit {0}
CanOpen disconnected events = Unit {0}
CanOpen closed events = ⊥
CanOpen failed events = ⊥

abbrev Opens : RtcReadyState → List RtcStateEvent → Type 0
Opens s events = CanOpen s events × (has_event ends_session events ≡ false)

step-Opens :
    (s : RtcReadyState) (e : RtcStateEvent) (es : List RtcStateEvent)
    → Opens (from_u8 (apply_event (to_u8 s) e)) es
    → Opens s (e ∷ es)
unfolding apply_event
step-Opens closed channel_opened es h = ground arith
step-Opens _ _ es h = ground arith

byte_of_state :
    (s : RtcReadyState) (e : RtcStateEvent)
    → apply_event (to_u8 s) e ≡ to_u8 (from_u8 (apply_event (to_u8 s) e))
unfolding apply_event
byte_of_state closed e = refl
byte_of_state failed e = refl
byte_of_state connecting e = ground arith
byte_of_state _ e = ground arith

run-Opens :
    (s : RtcReadyState) (events : List RtcStateEvent)
    → from_u8 (apply_events (to_u8 s) events) ≡ opened
    → Opens s events
unfolding apply_events from_u8 to_u8
run-Opens closed [] h = ground arith
run-Opens _ [] h = ground arith
run-Opens s (e ∷ es) h =
    step-Opens s e es (run-Opens (from_u8 (apply_event (to_u8 s) e)) es (rw byte_of_state at h))

-- A peer that is open now got there by an opened channel, and nothing has ended its session: a
-- connected peer connection alone never makes the state open.
pub apply_events-opened :
    (events : List RtcStateEvent)
    → from_u8 (apply_events (to_u8 connecting) events) ≡ opened
    → (has_event is_channel_opened events ≡ true) × (has_event ends_session events ≡ false)
apply_events-opened events h = run-Opens connecting events h

-- The first event that ends the session decides how it ended.
abbrev pub first_end : List RtcStateEvent → Option RtcReadyState
first_end [] = none
first_end (channel_closed ∷ es) = some closed
first_end (peer_closed ∷ es) = some closed
first_end (peer_failed ∷ es) = some failed
first_end (e ∷ es) = first_end es

-- What the peer connection's last change says of an open channel, if it changed.
abbrev pub link : RtcReadyState → List RtcStateEvent → RtcReadyState
link last [] = last
link last (peer_connected ∷ es) = link opened es
link last (peer_disconnected ∷ es) = link disconnected es
link last (e ∷ es) = link last es

-- The events behind the first opening of the channel, which is what counts of the peer connection.
abbrev pub since_opening : List RtcStateEvent → RtcReadyState
since_opening [] = connecting
since_opening (channel_opened ∷ es) = link opened es
since_opening (e ∷ es) = since_opening es

abbrev pub unless_ended : RtcReadyState → Option RtcReadyState → RtcReadyState
unless_ended s none = s
unless_ended s (some e) = e

run_closed : (es : List RtcStateEvent) → apply_events (to_u8 closed) es ≡ to_u8 closed
unfolding apply_events apply_event
run_closed [] = refl
run_closed (e ∷ es) = run_closed es

run_failed : (es : List RtcStateEvent) → apply_events (to_u8 failed) es ≡ to_u8 failed
unfolding apply_events apply_event
run_failed [] = refl
run_failed (e ∷ es) = run_failed es

abbrev RunsTo : RtcReadyState → List RtcStateEvent → RtcReadyState → Type 0
RunsTo s es t = apply_events (to_u8 s) es ≡ to_u8 t

-- A channel that is open, by whether the peer connection is up.
abbrev of_link : Bool → RtcReadyState
of_link true = opened
of_link false = disconnected

run_open :
    (up : Bool) (es : List RtcStateEvent)
    → RunsTo (of_link up) es (unless_ended (link (of_link up) es) (first_end es))
unfolding apply_events apply_event
run_open true [] = refl
run_open true (channel_opened ∷ es) = run_open true es
run_open true (channel_closed ∷ es) = run_closed es
run_open true (peer_connected ∷ es) = run_open true es
run_open true (peer_disconnected ∷ es) = run_open false es
run_open true (peer_failed ∷ es) = run_failed es
run_open true (peer_closed ∷ es) = run_closed es
run_open false [] = refl
run_open false (channel_opened ∷ es) = run_open false es
run_open false (channel_closed ∷ es) = run_closed es
run_open false (peer_connected ∷ es) = run_open true es
run_open false (peer_disconnected ∷ es) = run_open false es
run_open false (peer_failed ∷ es) = run_failed es
run_open false (peer_closed ∷ es) = run_closed es

run_connecting :
    (es : List RtcStateEvent)
    → RunsTo connecting es (unless_ended (since_opening es) (first_end es))
unfolding apply_events apply_event
run_connecting [] = refl
run_connecting (channel_opened ∷ es) = run_open true es
run_connecting (channel_closed ∷ es) = run_closed es
run_connecting (peer_connected ∷ es) = run_connecting es
run_connecting (peer_disconnected ∷ es) = run_connecting es
run_connecting (peer_failed ∷ es) = run_failed es
run_connecting (peer_closed ∷ es) = run_closed es

-- The state of a new peer after any events of its callbacks. If some event ended the session, the first
-- of those decides, whatever came before or behind it: a failure of the peer leaves it failed, and a
-- closing of the channel or the peer leaves it closed. Or else it is connecting until the channel opens,
-- and from then on it is disconnected or open as the last change of the peer connection since then says,
-- and open if there was none.
pub apply_events_lem :
    (events : List RtcStateEvent)
    → from_u8 (apply_events (to_u8 connecting) events)
      ≡ unless_ended (since_opening events) (first_end events)
apply_events_lem events = ap from_u8 (run_connecting events) ∙ from_u8-to_u8 _
