-- ===== src/Engine.antt =====
-- src/infrastructure/rtc_engine/engine.rs: the engine's queues, its retained fault and its generation.
-- The peer, its data channel and the ICE and DTLS transports are a dependency's.
pub mod Handlers
pub mod Inert
pub mod Commands
use Prim.Native.Nat.{◌*◌, ◌+◌}
use unitree_webrtc_rs.Base.{
  ℕ, zero, suc, Bool, true, false, not, Option, none, some, List, [], ◌∷◌, ◌++◌, String, Bytes,
  Result, ok, err, ◌==◌, ltb, leb, length, if◌then◌else◌,
}
use unitree_webrtc_rs.Models.{
  DcMessage, IngressMessage, text, binary, transport_fault, for_generation,
}
use unitree_webrtc_rs.RtcState
use unitree_webrtc_rs.RtcState.{
  RtcReadyState, ReadyStateHolder, closed, connecting, opened, disconnected, failed, from_u8, to_u8,
  read_cell, write_cell, arc,
}

abbrev pub command_queue_capacity : ℕ
command_queue_capacity = 128

abbrev pub max_command_bytes : ℕ
max_command_bytes = 1024 * 1024

pub data EngineCommand : Type 0 where
  text_command : Bytes → EngineCommand
  binary_command : Bytes → EngineCommand

-- The refusals of the bounded queues, whose texts are a dependency's.
pub data QueueError : Type 0 where
  full hung_up : QueueError

-- The task that sends the commands of one peer: its generation and its ready state.
pub record CommandTask : Type 0 where
  pub generation : ℕ
  pub state : ℕ

-- `incoming_alive` holds while the router keeps its receiver.
pub record RtcEngine : Type 0 where
  pub incoming : List IngressMessage
  pub incoming_capacity : ℕ
  pub incoming_alive : Bool
  pub ingress_generation : ℕ
  pub ready_state : ReadyStateHolder
  pub command_tx : Option (List EngineCommand)
  pub command_task : Option CommandTask
  pub transport_error : Option IngressMessage

unfoldable pub new : ℕ → RtcEngine
unfolding RtcState.new
new capacity = record {
  incoming = [];
  incoming_capacity = capacity;
  incoming_alive = true;
  ingress_generation = 0;
  ready_state = RtcState.new;
  command_tx = none;
  command_task = none;
  transport_error = none;
}

-- `try_send` of the incoming queue.
unfoldable pub try_send : RtcEngine → IngressMessage → RtcEngine × Option QueueError
try_send e m =
    if not e.incoming_alive
    then (e, some hung_up)
    else if leb e.incoming_capacity (length e.incoming)
    then (e, some full)
    else (record e { incoming = e.incoming ++ m ∷ [] }, none)

-- A store into the byte of a peer's ready state.
abbrev pub store : ℕ → RtcReadyState → RtcEngine → RtcEngine
store cell state e = record e {
  ready_state = record e.ready_state {
    cells = write_cell e.ready_state.cells cell (RtcState.to_u8 state);
  };
}

abbrev pub fault_of : ℕ → IngressMessage
fault_of generation = record {
  generation = generation;
  payload = transport_fault "DataChannel send failed";
}

-- By the task of a generation and a ready state; a full queue cannot drop the retained fault.
unfoldable pub record_transport_fault : ℕ → ℕ → RtcEngine → RtcEngine
unfolding try_send
record_transport_fault generation state e =
    if not (generation == e.ingress_generation)
    then e
    else (try_send (record (store state closed e) { transport_error = some (fault_of generation) })
        (fault_of generation)).0

unfoldable pub set_ingress_generation : ℕ → RtcEngine → RtcEngine
unfolding RtcState.set
set_ingress_generation generation e =
    let e' = record e { transport_error = none; ingress_generation = generation } in
    if e.ingress_generation == generation
    then e'
    else record e' { ready_state = RtcState.set e.ready_state closed }

unfoldable pub take_transport_error : RtcEngine → RtcEngine × Option IngressMessage
take_transport_error e = (record e { transport_error = none }, e.transport_error)

unfoldable pub route_text_message : Bytes → RtcEngine → RtcEngine × Option QueueError
unfolding try_send
route_text_message payload e =
    try_send e (record { generation = e.ingress_generation; payload = text payload })

unfoldable pub route_binary_message : Bytes → RtcEngine → RtcEngine × Option QueueError
unfolding try_send
route_binary_message payload e =
    try_send e (record { generation = e.ingress_generation; payload = binary payload })

abbrev pub is_open : RtcReadyState → Bool
is_open opened = true
is_open closed = false
is_open connecting = false
is_open disconnected = false
is_open failed = false

module _ (print : QueueError → String) where
  -- The queue of commands of the current peer; its receiver lives while the task does.
  unfoldable pub push_onto :
      Option (List EngineCommand)
      → Option CommandTask
      → EngineCommand
      → RtcEngine
      → RtcEngine × Result (Unit {0})
  push_onto none task command e = (e, err "DataChannel command sender is not initialized")
  push_onto (some queue) none command e = (e, err (print hung_up))
  push_onto (some queue) (some task) command e =
      if leb command_queue_capacity (length queue)
      then (e, err (print full))
      else (record e { command_tx = some (queue ++ command ∷ []) }, ok tt)

  abbrev pub push_command : EngineCommand → RtcEngine → RtcEngine × Result (Unit {0})
  push_command command e = push_onto e.command_tx e.command_task command e

  unfoldable pub send_command : Bytes → EngineCommand → RtcEngine → RtcEngine × Result (Unit {0})
  unfolding push_onto RtcState.get
  send_command bytes command e =
      if ltb max_command_bytes (length bytes)
      then (e, err "DataChannel command exceeds byte limit")
      else if not (is_open (RtcState.get e.ready_state))
      then (e, err "DataChannel is not open")
      else push_command command e

  unfoldable pub send_text : Bytes → RtcEngine → RtcEngine × Result (Unit {0})
  unfolding send_command
  send_text message e = send_command message (text_command message) e

  unfoldable pub send_binary : Bytes → RtcEngine → RtcEngine × Result (Unit {0})
  unfolding send_command
  send_binary bytes e = send_command bytes (binary_command bytes) e

-- `send(command).await?`
abbrev pub after_send :
    EngineCommand
    → Result (Unit {0})
    → List EngineCommand × Result (Unit {0})
    → List EngineCommand × Result (Unit {0})
after_send command (err e) rest = (command ∷ [], err e)
after_send command (ok u) (sent, r) = (command ∷ sent, r)

-- `send_commands`: each command with the generation and the ready state when it is received. It
-- returns what was handed to the channel, in order, and how it ended.
unfoldable pub send_commands :
    ℕ
    → (EngineCommand → Result (Unit {0}))
    → List (ℕ × ℕ × EngineCommand)
    → List EngineCommand × Result (Unit {0})
unfolding from_u8
send_commands generation send [] = ([], ok tt)
send_commands generation send ((current, state, command) ∷ commands) =
    let rest = send_commands generation send commands in
    if not (generation == current)
    then ([], ok tt)
    else if not (is_open (from_u8 state))
    then ([], err "DataChannel closed before queued command was sent")
    else after_send command (send command) rest

-- What `prepare_offer` and its inner function do to the engine's own state, once the old peer is closed
-- and the new one was created.
unfoldable pub start_peer : RtcEngine → RtcEngine
unfolding RtcState.reset RtcState.set
start_peer e =
    let h = RtcState.set (RtcState.reset e.ready_state) connecting in
    record e {
      ready_state = h;
      command_tx = some [];
      command_task = some (record { generation = e.ingress_generation; state = arc h });
    }

-- `close_inner`, for the same.
unfoldable pub close_inner : RtcEngine → RtcEngine
unfolding RtcState.set
close_inner e = record e {
  ready_state = RtcState.set e.ready_state closed;
  command_tx = none;
  command_task = none;
}

-- The match on the ready state, before the timeout is looked at.
abbrev pub polled : RtcReadyState → Option (Result (Unit {0})) → Option (Result (Unit {0}))
polled opened next = some (ok tt)
polled closed next = some (err "Data channel closed or failed before opening")
polled failed next = some (err "Data channel closed or failed before opening")
polled connecting next = next
polled disconnected next = next

-- The loop of `apply_answer`: the ready state at each poll and the milliseconds passed by then. `none` is
-- out of fuel, which stands for the polls.
unfoldable pub wait_open :
    String → (ℕ → RtcReadyState) → (ℕ → ℕ) → ℕ → ℕ → Option (Result (Unit {0}))
wait_open diagnostic state elapsed zero poll = none
wait_open diagnostic state elapsed (suc fuel) poll =
    let later = wait_open diagnostic state elapsed fuel (poll + 1) in
    polled (state poll) (if ltb 30000 (elapsed poll) then some (err diagnostic) else later)

-- A poll follows the last by 50 ms at least.
abbrev pub max_polls : ℕ
max_polls = 602
