-- ===== src/Connection/Ended.antt =====
-- The ends of a session of src/connection that are not those of an attempt, and its options.
use Prim.Native.Nat.{◌≤◌, ◌<◌}
use unitree_webrtc_rs.Base.{
  ℕ, ◌≡◌, ◌≢◌, ◌↔◌, ◌∙◌, inl, inr, some, Bool, true, Option, String, ok, arith,
}
use unitree_webrtc_rs.Connection.Laws.{Laws, IsOwned, IsClean, undo-IsClean}
use unitree_webrtc_rs.Connection.Lifecycle.{
  SessionConnect, connect_validated_session, disconnect_session, drop_session_attempt, undo,
  stop_audio_sender, stop_data_channel, start_cleanup, take_cleanup,
}
use unitree_webrtc_rs.Connection.Service.{
  held, begin_attempt, arrive, request_disconnect, rollback_connection, drop_connection_attempt,
}
use unitree_webrtc_rs.Connection.Session.{SessionOptions, validate}
use unitree_webrtc_rs.Connection.Settled.{SettledAs, connect_validated_session-Settled}
use unitree_webrtc_rs.Connection.{Ports, State, WebRtcConnectionMethod}

module _ (P : Ports) where
  -- The drop of an attempt that holds the gate makes the state that a failed attempt's rollback does.
  drop_session_attempt-undo : (s : State P) → drop_session_attempt P (some held) s ≡ undo P s
  unfolding drop_session_attempt undo drop_connection_attempt stop_audio_sender stop_data_channel
      rollback_connection start_cleanup take_cleanup
  drop_session_attempt-undo s = ground arith

  undo-intentional : (s : State P) → (undo P s).intentional_disconnect ≡ s.intentional_disconnect
  unfolding undo stop_audio_sender stop_data_channel rollback_connection start_cleanup take_cleanup
  undo-intentional s = ground arith

  undo-version : (s : State P) → (undo P s).version ≡ s.version
  unfolding undo stop_audio_sender stop_data_channel rollback_connection start_cleanup take_cleanup
  undo-version s = ground arith

  -- The request, and whatever others do until the gate is free.
  requested :
      (s : State P)
      → IsOwned P s
      → let t = (begin_attempt P (request_disconnect P s)).0 in
        (t.intentional_disconnect ≡ true) × (s.version < t.version) × IsOwned P t
  unfolding begin_attempt arrive request_disconnect
  requested s o = (ground arith, ground arith, ground (arith, o))

  -- A disconnect leaves nothing of a session, marks it as intended, and invalidates every attempt that
  -- was queued before it. Before, there is an audio sender or a cleanup at most.
  pub disconnect_session-IsClean :
      Laws P
      → (s : State P) → IsOwned P s
      → IsClean P (disconnect_session P s)
        × ((disconnect_session P s).intentional_disconnect ≡ true)
        × (s.version < (disconnect_session P s).version)
  unfolding disconnect_session begin_attempt
  disconnect_session-IsClean L s o =
      let t = (begin_attempt P (request_disconnect P s)).0 in
      let (i, v, o') = requested s o in
      (undo-IsClean P L t o', undo-intentional t ∙ i, omega (arith, v, undo-version t))

  -- Whatever attempt was queued before a session was disconnected, it does not connect afterwards.
  -- Before, there is an audio sender or a cleanup at most.
  pub disconnect_session-cancels :
      Laws P
      → (method : WebRtcConnectionMethod) (ip : Option String) (mode : SessionConnect) (s : State P)
      → IsOwned P s
      → (connect_validated_session P method ip mode s.version (disconnect_session P s)).1 ≢ ok tt
  unfolding SettledAs
  disconnect_session-cancels L method ip mode s o won =
      let (c, i, v) = disconnect_session-IsClean L s o in
      elim (connect_validated_session-Settled P method ip L mode s.version (disconnect_session P s)
        (inr c.sender)) [
          | inl (p, (x, y, z, same, rest, own)) ↦ absurd (omega (arith, v, same))
          | inr (e, p, k) ↦ absurd (ground (arith, p, won))
        ]

-- The options are accepted if and only if each capacity and the number of workers is from 1 to its
-- ceiling, and the validation timeout is positive and can be added to the clock.
pub validate_iff :
    (representable : ℕ → Bool) (o : SessionOptions)
    → (validate representable o ≡ ok tt) ↔ (
        (1 ≤ o.incoming_capacity)
        × (o.incoming_capacity ≤ 4096)
        × (1 ≤ o.event_capacity)
        × (o.event_capacity ≤ 256)
        × (1 ≤ o.lidar_workers)
        × (o.lidar_workers ≤ 32)
        × (1 ≤ o.validation_timeout)
        × (representable o.validation_timeout ≡ true))
unfolding validate
validate_iff representable o = ground arith
