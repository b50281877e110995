-- ===== src/Connection/Lifecycle.antt =====
-- src/connection/lifecycle.rs: the audio playback of a session, and the attempts to connect a
-- validated session.
use unitree_webrtc_rs.Base.{
  ℕ, Bool, true, false, Option, none, some, String, Result, ok, err, ◌&&◌, if◌then◌else◌,
}
use unitree_webrtc_rs.Connection.Service.{
  Gate, begin_attempt, await, run, request_disconnect, rollback_connection, drop_connection_attempt,
  connect_in_attempt,
}
use unitree_webrtc_rs.Connection.{
  Ports, State, WebRtcConnectionMethod, Ending, done, of_result, ◌and_then◌,
}

pub data SessionConnect : Type 0 where
  connect reconnect retry : SessionConnect

abbrev pub is_connect : SessionConnect → Bool
is_connect connect = true
is_connect reconnect = false
is_connect retry = false

abbrev pub is_retry : SessionConnect → Bool
is_retry retry = true
is_retry connect = false
is_retry reconnect = false

module _ (P : Ports) where
  -- The first half of `stop_audio_sender`: the sender's shutdown becomes the cleanup task.
  unfoldable pub start_cleanup : State P → State P
  start_cleanup s = elim s.audio.cleanup [
    | some r ↦ s
    | none ↦ elim s.audio.sender [
      | none ↦ s
      | some sender ↦ record s {
        audio = record { sender = none; cleanup = some (P.shutdown sender) };
      }
    ]
  ]

  abbrev pub cleanup_result : Option (Result (Unit {0})) → Result (Unit {0})
  cleanup_result none = ok tt
  cleanup_result (some r) = r

  -- The second half, once the task has ended.
  unfoldable pub take_cleanup : State P → State P
  take_cleanup s = record s { audio = record s.audio { cleanup = none } }

  -- `stop_audio_sender` outside an attempt.
  unfoldable pub stop_audio_sender : State P → State P × Result (Unit {0})
  unfolding start_cleanup take_cleanup
  stop_audio_sender s =
      let s' = start_cleanup s in (take_cleanup s', cleanup_result s'.audio.cleanup)

  -- In an attempt: a disconnect at the await leaves the task to the next caller.
  unfoldable pub stop_audio_in_attempt : State P → State P × Ending (Unit {0})
  unfolding start_cleanup take_cleanup await
  stop_audio_in_attempt s =
      let s' = start_cleanup s in
      let joined : State P × Ending (Unit {0}) = await P (λ w. (w, ok tt)) s' in
      elim s'.audio.cleanup [
        | none ↦ (take_cleanup s', done tt)
        | some r ↦ joined and_then λ u s3. (take_cleanup s3, of_result r)
      ]

  unfoldable pub stop_data_channel : State P → State P
  stop_data_channel s = record s { world = P.stop_background_tasks s.world }

  unfoldable pub prepare_ingress : State P → State P × Ending (Unit {0})
  prepare_ingress s =
      let (w, r) = P.prepare_ingress s.world in (record s { world = w }, of_result r)

  -- The body that `connect_validated_session` gives to `run`.
  unfoldable pub session_body :
      WebRtcConnectionMethod
      → Option String
      → SessionConnect
      → State P
      → State P × Ending (Unit {0})
  unfolding stop_audio_in_attempt stop_data_channel prepare_ingress await connect_in_attempt
  session_body method ip mode s = stop_audio_in_attempt s and_then λ u s1.
      prepare_ingress (stop_data_channel s1) and_then λ u s2.
      connect_in_attempt P method ip (if is_connect mode then false else true) s2 and_then λ u s3.
      await P P.wait_datachannel_open s3

  -- What follows an error.
  unfoldable pub undo : State P → State P
  unfolding stop_audio_sender stop_data_channel rollback_connection
  undo s = rollback_connection P (stop_data_channel (stop_audio_sender s).0)

  abbrev pub undone_on_error : State P × Result (Unit {0}) → State P × Result (Unit {0})
  undone_on_error (s, ok u) = (s, ok u)
  undone_on_error (s, err e) = (undo s, err e)

  -- `version` is what the attempt captured before it was queued for the gate.
  unfoldable pub connect_validated_session :
      WebRtcConnectionMethod
      → Option String
      → SessionConnect
      → ℕ
      → State P
      → State P × Result (Unit {0})
  unfolding session_body run undo
  connect_validated_session method ip mode version s =
      if is_retry mode && s.intentional_disconnect
      then (s, err "Reconnect cancelled by intentional disconnect")
      else undone_on_error (run P version (session_body method ip mode) s)

  -- Others act while it waits for the gate; what it captured is not run.
  unfoldable pub disconnect_session : State P → State P
  unfolding request_disconnect begin_attempt undo
  disconnect_session s = undo (begin_attempt P (request_disconnect P s)).0

  -- `SessionAttempt::finish`, by whether there is a connection attempt: it lets go of the gate.
  abbrev pub finish_session_attempt : Option Gate → Option Gate
  finish_session_attempt connection = none

  -- The drop of a `SessionAttempt`, which undoes what was not finished: the caller gave up at an await.
  -- The task that it spawns owns the gate until its end.
  unfoldable pub drop_session_attempt : Option Gate → State P → State P
  unfolding stop_data_channel stop_audio_sender drop_connection_attempt
  drop_session_attempt none s = s
  drop_session_attempt (some gate) s =
      drop_connection_attempt P gate (stop_audio_sender (stop_data_channel s)).0
