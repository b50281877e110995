-- ===== src/RtcState.antt =====
-- src/infrastructure/rtc_engine/state.rs: the ready state of a peer, a byte that the callbacks of the
-- peer and of its data channel update atomically, and the holder that swaps the byte for a new session.
pub mod Lifecycle
pub mod Isolation
use Prim.Native.Nat.{◌+◌}
use unitree_webrtc_rs.Base.{
  ℕ, zero, suc, Bool, true, false, Option, none, some, List, [], ◌∷◌, ◌++◌, length, if◌then◌else◌,
}

pub data RtcReadyState : Type 0 where
  closed connecting opened disconnected failed : RtcReadyState

pub data RtcStateEvent : Type 0 where
  channel_opened channel_closed peer_connected peer_disconnected peer_failed peer_closed :
      RtcStateEvent

-- `state as u8`
unfoldable pub to_u8 : RtcReadyState → ℕ
to_u8 closed = 0
to_u8 connecting = 1
to_u8 opened = 2
to_u8 disconnected = 3
to_u8 failed = 4

unfoldable pub from_u8 : ℕ → RtcReadyState
from_u8 (suc zero) = connecting
from_u8 (suc (suc zero)) = opened
from_u8 (suc (suc (suc zero))) = disconnected
from_u8 (suc (suc (suc (suc zero)))) = failed
from_u8 _ = closed

-- The inner match, for a state that is neither closed nor failed.
next : RtcReadyState → RtcStateEvent → RtcReadyState
next current channel_closed = closed
next current peer_closed = closed
next current peer_failed = failed
next connecting channel_opened = opened
next opened peer_disconnected = disconnected
next disconnected peer_connected = opened
next current _ = current

-- The closure of `fetch_update`: the early return on a terminal state keeps the byte itself.
update : RtcReadyState → ℕ → RtcStateEvent → ℕ
unfolding next to_u8
update closed value event = value
update failed value event = value
update current value event = to_u8 (next current event)

unfoldable pub apply_event : ℕ → RtcStateEvent → ℕ
unfolding update from_u8
apply_event value event = update (from_u8 value) value event

-- Each update is atomic, so any interleaving of the callbacks is one sequence of events.
unfoldable pub apply_events : ℕ → List RtcStateEvent → ℕ
apply_events value [] = value
apply_events value (event ∷ events) = apply_events (apply_event value event) events

-- The shared bytes that were ever made, and which of them the holder refers to. An `Arc` is an index.
pub record ReadyStateHolder : Type 0 where
  pub cells : List ℕ
  pub inner : ℕ

abbrev pub read_cell : List ℕ → ℕ → ℕ
read_cell [] i = 0
read_cell (c ∷ cs) zero = c
read_cell (c ∷ cs) (suc i) = read_cell cs i

abbrev pub write_cell : List ℕ → ℕ → ℕ → List ℕ
write_cell [] i v = []
write_cell (c ∷ cs) zero v = v ∷ cs
write_cell (c ∷ cs) (suc i) v = c ∷ write_cell cs i v

unfoldable pub new : ReadyStateHolder
unfolding to_u8
new = record { cells = to_u8 closed ∷ []; inner = 0 }

abbrev pub arc : ReadyStateHolder → ℕ
arc h = h.inner

unfoldable pub get : ReadyStateHolder → RtcReadyState
get h = from_u8 (read_cell h.cells (arc h))

-- `none` while another thread holds the owner's lock.
pub try_get : Bool → ReadyStateHolder → Option RtcReadyState
try_get locked h = if locked then none else some (from_u8 (read_cell h.cells h.inner))

unfoldable pub set : ReadyStateHolder → RtcReadyState → ReadyStateHolder
set h state = record h { cells = write_cell h.cells (arc h) (to_u8 state) }

unfoldable pub reset : ReadyStateHolder → ReadyStateHolder
unfolding to_u8
reset h = record h { cells = h.cells ++ to_u8 closed ∷ []; inner = length h.cells }

-- A callback that captured an `Arc` applies an event to it.
unfoldable pub callback : ReadyStateHolder → ℕ → RtcStateEvent → ReadyStateHolder
callback h captured event = record h {
  cells = write_cell h.cells captured (apply_event (read_cell h.cells captured) event);
}
