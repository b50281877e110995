-- ===== src/Connection/Session.antt =====
-- src/connection/session.rs: the owner of one session, its options and its retries.
use Prim.Native.Nat.{◌+◌, ◌*◌, ◌^◌, min}
use Prim.Native.String.{◌++◌ as append}
use unitree_webrtc_rs.Base.{
  ℕ, zero, suc, Bool, true, false, ◌&&◌, ◌||◌, Option, none, some, List, [], ◌∷◌, String, Result,
  ok, err, ◌>>◌, refuse_if, ltb, ◌==◌, if◌then◌else◌,
}
use unitree_webrtc_rs.Connection.Lifecycle.{
  SessionConnect, retry, connect_validated_session, disconnect_session, stop_audio_sender,
}
use unitree_webrtc_rs.Connection.Service.{arrive, begin_attempt}
use unitree_webrtc_rs.Connection.{Ports, State, WebRtcConnectionMethod, local_ap, local_sta, remote}
use unitree_webrtc_rs.Models.{show_nat}

abbrev pub max_incoming_capacity : ℕ
max_incoming_capacity = 4096

abbrev pub max_event_capacity : ℕ
max_event_capacity = 256

abbrev pub max_lidar_workers : ℕ
max_lidar_workers = 32

-- The timeout is in nanoseconds.
pub record SessionOptions : Type 0 where
  pub connection_method : WebRtcConnectionMethod
  pub ip : Option String
  pub validation_timeout : ℕ
  pub incoming_capacity : ℕ
  pub event_capacity : ℕ
  pub lidar_workers : ℕ

abbrev capacities : WebRtcConnectionMethod → ℕ × ℕ
capacities remote = (512, 128)
capacities local_ap = (256, 64)
capacities local_sta = (256, 64)

-- `clamp(2, 4)` of the machine's parallelism, if that is known.
abbrev worker_count : Option ℕ → ℕ
worker_count none = 2
worker_count (some n) = if ltb n 2 then 2 else min n 4

unfoldable pub options : Option ℕ → WebRtcConnectionMethod → Option String → SessionOptions
options parallelism method ip = record {
  connection_method = method;
  ip = ip;
  validation_timeout = 5 * 10 ^ 9;
  incoming_capacity = (capacities method).0;
  event_capacity = (capacities method).1;
  lidar_workers = worker_count parallelism;
}

abbrev in_range : String → ℕ → ℕ → Result (Unit {0})
in_range name value maximum =
    refuse_if (value == 0 || ltb maximum value)
      (append name (append " must be between 1 and " (show_nat 20 maximum)))

-- `representable` tells whether the clock can be advanced by a duration.
unfoldable pub validate : (ℕ → Bool) → SessionOptions → Result (Unit {0})
validate representable o =
    in_range "incoming_capacity" o.incoming_capacity max_incoming_capacity
    >> in_range "event_capacity" o.event_capacity max_event_capacity
    >> in_range "lidar_workers" o.lidar_workers max_lidar_workers
    >> refuse_if
        (o.validation_timeout == 0 || (if representable o.validation_timeout then false else true))
        "validation_timeout must be positive and within the monotonic clock range"

module _ (P : Ports) (method : WebRtcConnectionMethod) (ip : Option String) where
  -- The session's operations: the attempt captures its version, waits for the gate, and runs.
  unfoldable pub attempt : SessionConnect → State P → State P × Result (Unit {0})
  unfolding begin_attempt connect_validated_session
  attempt mode s =
      let (s', version) = begin_attempt P s in connect_validated_session P method ip mode version s'

  -- `disconnect`: the request is made first, so that the attempt that holds the gate sees it.
  unfoldable pub disconnect : State P → State P
  unfolding disconnect_session
  disconnect s = disconnect_session P s

  unfoldable pub session_is_connected : State P → Bool
  session_is_connected s = s.is_connected && P.is_open s.world

  -- 200 ms, doubled with each attempt up to the ninth.
  abbrev pub backoff_millis : ℕ → ℕ
  backoff_millis attempt = 200 * 2 ^ min attempt 8

  -- Others act while the task sleeps.
  unfoldable pub sleep : State P → State P
  unfolding arrive
  sleep s = (arrive P s).0

  -- What the loop returns: the state, whether it connected, and the lengths of its sleeps.
  abbrev pub Retried : Type 0
  Retried = State P × Bool × List ℕ

  -- No sleep follows the last attempt.
  abbrev pub pause : ℕ → State P → State P
  pause zero s = s
  pause (suc left) s = sleep s

  abbrev pub paused : ℕ → ℕ → Retried → Retried
  paused zero n r = r
  paused (suc left) n (s, won, sleeps) = (s, won, backoff_millis n ∷ sleeps)

  -- The match on the result of an attempt.
  abbrev pub or_retry : State P × Result (Unit {0}) → Retried → Retried
  or_retry (s, ok u) rest = (s, true, [])
  or_retry (s, err e) rest = rest

  -- The loop of `auto_reconnect` from attempt `n` on, with as many left as the first argument says.
  unfoldable pub retry_loop : ℕ → ℕ → State P → Retried
  unfolding attempt sleep
  retry_loop zero n s = (s, false, [])
  retry_loop (suc left) n s =
      let tried = attempt retry s in
      let rest = retry_loop left (n + 1) (pause left tried.0) in
      if s.intentional_disconnect then (s, false, []) else or_retry tried (paused left n rest)

  unfoldable pub auto_reconnect : ℕ → State P → Retried
  unfolding retry_loop
  auto_reconnect max_retries s = retry_loop max_retries 0 s

  unfoldable pub stop_audio : State P → State P × Result (Unit {0})
  unfolding stop_audio_sender
  stop_audio s = stop_audio_sender P s

  abbrev no_track : String
  no_track = "Audio track not initialized. Call connect() first."

  -- `AudioPlayback::play`: the sender is owned before it is started.
  unfoldable pub play : P.AudioSender → State P → State P × Result (Unit {0})
  play sender s = (record s { audio = record s.audio { sender = some sender } }, P.play sender)

  -- A sender that does not start is stopped.
  unfoldable pub play_or_stop : P.AudioSender → State P → State P × Result (Unit {0})
  unfolding play stop_audio_sender
  play_or_stop sender s =
      let (s', r) = play sender s in
      elim r [ ok u ↦ (s', ok u) | err e ↦ ((stop_audio_sender P s').0, err e) ]

  unfoldable pub start_audio : State P → State P × Result (Unit {0})
  unfolding play_or_stop
  start_audio s =
      let (w, track) = P.get_audio_track s.world in
      let s' = record s { world = w } in
      elim track [
        | none ↦ (s', err no_track)
        | some t ↦ elim (P.new_sender w) [
          | err e ↦ (s', err e)
          | ok sender ↦ play_or_stop sender s'
        ]
      ]

  -- Under the gate of the attempts.
  unfoldable pub play_audio : State P → State P × Result (Unit {0})
  unfolding stop_audio_sender session_is_connected start_audio
  play_audio s =
      let (s', r) = stop_audio_sender P s in
      elim r [
        | err e ↦ (s', err e)
        | ok u ↦ if session_is_connected s' then start_audio s' else (s', err no_track)
      ]
