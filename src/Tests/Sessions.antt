-- ===== src/Tests/Sessions.antt =====
-- A session with a peer that answers, and its attempts.
use Prim.Native.Nat.{◌<◌}
use unitree_webrtc_rs.Base.{
  ℕ, ◌≡◌, ◌≢◌, refl, inl, Bool, true, false, none, some, List, [], ◌∷◌, ok, err,
}
use unitree_webrtc_rs.Connection.Ended.{disconnect_session-IsClean, disconnect_session-cancels}
use unitree_webrtc_rs.Connection.Laws.{Laws, IsClean}
use unitree_webrtc_rs.Connection.Lifecycle.{connect, connect_validated_session, disconnect_session}
use unitree_webrtc_rs.Connection.Session.{auto_reconnect}
use unitree_webrtc_rs.Connection.Settled.{SettledAs, connect_validated_session-Settled}
use unitree_webrtc_rs.Connection.{Ports, State, local_sta, Arrival, nothing, disconnects, elapses}

-- The world is whether the data channel is open.
abbrev ports : Ports
ports = record {
  World = Bool;
  AudioSender = ℕ;
  prepare_offer = λ w. (w, ok "offer");
  exchange_sdp = λ ip offer w. (w, ok "answer");
  apply_answer = λ answer w. (w, ok tt);
  close = λ w. false;
  interrupted = λ w. w;
  timeout_diagnostic = λ w. none;
  stop_background_tasks = λ w. false;
  prepare_ingress = λ w. (w, ok tt);
  wait_datachannel_open = λ w. (true, ok tt);
  is_open = λ w. w;
  get_audio_track = λ w. (w, some tt);
  new_sender = λ w. ok 7;
  play = λ s. ok tt;
  shutdown = λ s. ok tt;
  print_json = λ v. "{}";
}

laws : Laws ports
laws = record { stop-closed = λ w. refl; close-closed = λ w h. refl; wait-opened = λ w h. refl }

abbrev state_with : List Arrival → State ports
state_with arrivals = record {
  is_connected = false;
  intentional_disconnect = false;
  generation = 0;
  version = 0;
  audio = record { sender = some 7; cleanup = none };
  world = false;
  arrivals = arrivals;
}

abbrev quiet : State ports
quiet = state_with []

-- A disconnect comes while the second port is awaited.
abbrev disturbed : State ports
disturbed = state_with (nothing ∷ disconnects ∷ [])

quiet-connects :
    (connect_validated_session ports local_sta (some "10.0.0.2") connect 0 quiet).1 ≡ ok tt
unfolding connect_validated_session
quiet-connects = refl

disturbed-fails :
    (connect_validated_session ports local_sta (some "10.0.0.2") connect 0 disturbed).1
    ≡ err "Connection attempt cancelled by disconnect"
unfolding connect_validated_session
disturbed-fails = refl

late-fails :
    (connect_validated_session ports local_sta
      (some "10.0.0.2")
      connect
      0
      (state_with (nothing ∷ nothing ∷ elapses ∷ []))).1
    ≡ err "Connection attempt timed out"
unfolding connect_validated_session
late-fails = refl

connect_validated_session-Settled_example :
    SettledAs ports local_sta
      (some "10.0.0.2")
      connect
      0
      disturbed
      (connect_validated_session ports local_sta (some "10.0.0.2") connect 0 disturbed)
connect_validated_session-Settled_example =
    connect_validated_session-Settled ports local_sta (some "10.0.0.2") laws connect 0 disturbed
      (inl refl)

auto_reconnect-quiet :
    (auto_reconnect ports local_sta
      (some "10.0.0.2")
      3
      (state_with (nothing ∷ nothing ∷ nothing ∷ elapses ∷ []))).2
    ≡ 200 ∷ []
unfolding auto_reconnect
auto_reconnect-quiet = refl

disconnect_session-IsClean_example :
    IsClean ports (disconnect_session ports quiet)
    × ((disconnect_session ports quiet).intentional_disconnect ≡ true)
    × (0 < (disconnect_session ports quiet).version)
disconnect_session-IsClean_example = disconnect_session-IsClean ports laws quiet (inl refl)

disconnect_session-cancels_example :
    (connect_validated_session ports local_sta
      (some "10.0.0.2")
      connect
      0
      (disconnect_session ports quiet)).1
    ≢ ok tt
disconnect_session-cancels_example =
    disconnect_session-cancels ports laws local_sta (some "10.0.0.2") connect quiet (inl refl)
