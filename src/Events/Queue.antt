-- ===== src/Events/Queue.antt =====
-- Admission and delivery: `EventSender` and `EventReceiver` of protocol/events.rs. Each operation runs
-- under the lock of the usage or on one queue, so a history is a sequence of operations.
use Prim.Native.Nat.{◌+◌, ◌-◌, min}
use unitree_webrtc_rs.Base.{
  ℕ, zero, suc, Bool, true, false, not, ◌||◌, List, [], ◌∷◌, ◌++◌, Result, ok, err, ltb, leb, ◌==◌,
  length, if◌then◌else◌,
}
use unitree_webrtc_rs.Events.Size.{Sizes, event_size}
use unitree_webrtc_rs.Events.{CallbackEvent, Class, control, media, control_bytes, media_bytes}

-- An envelope with its permit, which knows its class and its bytes.
pub record EventDelivery : Type 0 where
  pub event : CallbackEvent
  pub generation : ℕ
  pub class : Class
  pub bytes : ℕ

-- What there is of each class: `usage.bytes[class]`, `usage.count[class]` and the bounded queue.
pub record Lane : Type 0 where
  pub bytes : ℕ
  pub count : ℕ
  pub queue : List EventDelivery

-- The shared state. `connected` holds while a producer is alive.
pub record Hub : Type 0 where
  pub capacity : ℕ
  pub current : ℕ
  pub closed : Bool
  pub connected : Bool
  pub control_lane : Lane
  pub media_lane : Lane

abbrev pub lane : Class → Hub → Lane
lane control hub = hub.control_lane
lane media hub = hub.media_lane

abbrev pub put_lane : Class → Lane → Hub → Hub
put_lane control l hub = record hub { control_lane = l }
put_lane media l hub = record hub { media_lane = l }

abbrev pub byte_limit : Class → ℕ
byte_limit control = control_bytes
byte_limit media = media_bytes

-- Also the capacities of the two channels.
abbrev pub count_limit : Class → ℕ → ℕ
count_limit control capacity = capacity
count_limit media capacity = min capacity 4

abbrev pub empty_lane : Lane
empty_lane = record { bytes = 0; count = 0; queue = [] }

unfoldable pub event_channel : ℕ → Result Hub
event_channel capacity =
    if ltb capacity 1 || ltb 256 capacity
    then err "event capacity must be between 1 and 256"
    else ok (record {
      capacity = capacity;
      current = 0;
      closed = false;
      connected = true;
      control_lane = empty_lane;
      media_lane = empty_lane;
    })

abbrev pub set_generation : ℕ → Hub → Hub
set_generation generation hub = record hub { current = generation }

abbrev pub is_current : ℕ → EventDelivery → Bool
is_current current d = current == d.generation

-- The drop of a permit.
unfoldable pub release : EventDelivery → Hub → Hub
release d hub =
    let l = lane d.class hub in
    put_lane d.class (record l { bytes = l.bytes - d.bytes; count = l.count - 1 }) hub

pub data SendResult : Type 0 where
  sent : SendResult
  full : CallbackEvent → SendResult
  disconnected : CallbackEvent → SendResult

-- `Sender::try_send` of the bounded channel; what it refuses is dropped, and its permit released.
unfoldable pub channel_try_send : EventDelivery → Hub → Hub × SendResult
unfolding release
channel_try_send d hub =
    let l = lane d.class hub in
    if hub.closed
    then (release d hub, disconnected d.event)
    else if leb (count_limit d.class hub.capacity) (length l.queue)
    then (release d hub, full d.event)
    else (put_lane d.class (record l { queue = l.queue ++ d ∷ [] }) hub, sent)

-- The bytes and the count are charged before the channel is tried.
unfoldable pub admit : EventDelivery → Hub → Hub × SendResult
unfolding channel_try_send
admit d hub =
    let l = lane d.class hub in
    if ltb (byte_limit d.class - l.bytes) d.bytes || leb (count_limit d.class hub.capacity) l.count
    then (hub, full d.event)
    else channel_try_send d
        (put_lane d.class (record l { bytes = l.bytes + d.bytes; count = l.count + 1 }) hub)

-- `observed` is the generation that was current before the lock was taken.
unfoldable pub try_send : Sizes → ℕ → ℕ → CallbackEvent → Hub → Hub × SendResult
unfolding admit event_size
try_send z observed generation event hub =
    let (class, bytes) = event_size z event in
    let d : EventDelivery = record {
      event = event;
      generation = generation;
      class = class;
      bytes = bytes;
    } in
    if not (observed == generation)
    then (hub, full event)
    else if hub.closed
    then (hub, disconnected event)
    else if not (hub.current == generation)
    then (hub, full event)
    else admit d hub

pub data Popped : Type 0 where
  popped : EventDelivery → Popped
  nothing : Popped
  hung_up : Popped

-- An empty channel, by whether a producer is alive.
abbrev pub end_of : Bool → Popped
end_of true = nothing
end_of false = hung_up

-- The hub once the head of a class's queue is taken.
abbrev pub taken : Class → List EventDelivery → Hub → Hub
taken c rest hub = put_lane c (record (lane c hub) { queue = rest }) hub

-- `try_recv` of one channel, by its queue.
abbrev pub pop_from : Class → Hub → List EventDelivery → Hub × Popped
pop_from c hub [] = (hub, end_of hub.connected)
pop_from c hub (d ∷ rest) = (taken c rest hub, popped d)

unfoldable pub pop : Class → Hub → Hub × Popped
pop c hub = pop_from c hub (lane c hub).queue

abbrev pub still_there : Hub × Popped → Hub × Popped
still_there (hub, hung_up) = (hub, nothing)
still_there (hub, popped d) = (hub, popped d)
still_there (hub, nothing) = (hub, nothing)

-- What the first channel gave, or else what the second gives; the producers' end counts as gone if
-- both say so.
unfoldable pub or_then : Hub × Popped → (Hub → Hub × Popped) → Hub × Popped
or_then (hub, popped d) second = (hub, popped d)
or_then (hub, hung_up) second = second hub
or_then (hub, nothing) second = still_there (second hub)

-- One pass of the receiver: the control channel, and the media channel if that gives nothing.
unfoldable pub pop_any : Hub → Hub × Popped
unfolding pop or_then
pop_any hub = or_then (pop control hub) (pop media)

pub data Received : Type 0 where
  delivered : EventDelivery → Received
  empty : Received
  disconnected : Received
  out_of_fuel : Received

-- An envelope that a pass took and that is stale is dropped, and its permit released.
unfoldable pub skip : Hub × Popped → Hub
unfolding release
skip (hub, popped d) = release d hub
skip (hub, nothing) = hub
skip (hub, hung_up) = hub

-- What a pass returns, or else what the passes after it do.
unfoldable pub settle : Hub × Popped → Hub × Received → Hub × Received
settle (hub, popped d) rest = if is_current hub.current d then (hub, delivered d) else rest
settle (hub, nothing) rest = (hub, empty)
settle (hub, hung_up) rest = (hub, disconnected)

-- The loop of `try_delivery`.
unfoldable pub try_delivery : ℕ → Hub → Hub × Received
unfolding pop_any skip settle
try_delivery zero hub = (hub, out_of_fuel)
try_delivery (suc fuel) hub = settle (pop_any hub) (try_delivery fuel (skip (pop_any hub)))

-- Each pass takes one envelope, so this many passes are enough.
abbrev pub passes : Hub → ℕ
passes hub = suc (length hub.control_lane.queue + length hub.media_lane.queue)

-- `while self.control.try_recv().is_ok() {}`, by the queue: each envelope is dropped.
unfoldable pub drain : List EventDelivery → Hub → Hub
unfolding release
drain [] hub = hub
drain (d ∷ ds) hub = drain ds (release d hub)

abbrev pub emptied : Class → Hub → Hub
emptied c hub = put_lane c (record (lane c hub) { queue = [] }) hub

-- The drop of the receiver.
unfoldable pub close : Hub → Hub
unfolding drain
close hub =
    let shut = record hub { closed = true } in
    let half = drain shut.control_lane.queue (emptied control shut) in
    drain half.media_lane.queue (emptied media half)
