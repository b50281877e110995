-- ===== src/Connection/Service.antt =====
-- src/connection/service.rs: attempts to connect the transport, their cancellation and their rollback.
use Prim.Native.Nat.{◌+◌, ◌%◌, ◌^◌}
use Prim.Native.String.{◌++◌ as append}
use unitree_webrtc_rs.Base.{
  ℕ, Bool, true, false, not, Option, none, some, [], ◌∷◌, String, Result, ok, err, ◌==◌, ok_or,
  if◌then◌else◌,
}
use unitree_webrtc_rs.Connection.{
  Ports, State, WebRtcConnectionMethod, local_ap, local_sta, remote, Arrival, nothing, disconnects,
  elapses, Ending, done, failed, dropped, elapsed, of_result, ◌and_then◌,
}
use unitree_webrtc_rs.Json.{Value, object, member, end, string}

-- The gate of a `ConnectionAttempt`, until `finish` takes it.
pub data Gate : Type 0 where
  held released : Gate

module _ (P : Ports) where
  -- Under the lock of the watch channel.
  unfoldable pub request_disconnect : State P → State P
  request_disconnect s = record s {
    intentional_disconnect = true;
    generation = (s.generation + 1) % 2 ^ 64;
    version = s.version + 1;
  }

  -- What others do while the attempt waits.
  unfoldable pub arrive : State P → State P × Arrival
  unfolding request_disconnect
  arrive s = elim s.arrivals [
    | [] ↦ (s, nothing)
    | a ∷ rest ↦ elim a [
      | nothing ↦ (record s { arrivals = rest }, nothing)
      | disconnects ↦ (request_disconnect (record s { arrivals = rest }), disconnects)
      | elapses ↦ (record s { arrivals = rest }, elapses)
    ]
  ]

  -- An `await` of a port's operation inside `run`: a disconnect drops the operation before it is
  -- polled again.
  unfoldable pub await {ℓ} :
      {A : Type ℓ} → (P.World → P.World × Result A) → State P → State P × Ending A
  unfolding arrive
  await operation s =
      let (s', a) = arrive s in
      let (w, r) = operation s'.world in
      elim a [
        | nothing ↦ (record s' { world = w }, of_result r)
        | disconnects ↦ (record s' { world = P.interrupted s'.world }, dropped)
        | elapses ↦ (record s' { world = w }, of_result r)
      ]

  -- An `await` under `tokio::time::timeout` as well.
  unfoldable pub await_in_time {ℓ} :
      {A : Type ℓ} → (P.World → P.World × Result A) → State P → State P × Ending A
  unfolding arrive
  await_in_time operation s =
      let (s', a) = arrive s in
      let (w, r) = operation s'.world in
      elim a [
        | nothing ↦ (record s' { world = w }, of_result r)
        | disconnects ↦ (record s' { world = P.interrupted s'.world }, dropped)
        | elapses ↦ (record s' { world = P.interrupted s'.world }, elapsed)
      ]

  -- `begin_attempt`: the version is captured before the attempt queues for the gate.
  unfoldable pub begin_attempt : State P → State P × ℕ
  unfolding arrive
  begin_attempt s = ((arrive s).0, s.version)

  abbrev pub cancelled_text : String
  cancelled_text = "Connection attempt cancelled by disconnect"

  -- What `run` returns for an operation; none is left as `elapsed` outside its timeout.
  unfoldable pub finished : State P × Ending (Unit {0}) → State P × Result (Unit {0})
  finished (s, done u) = (s, ok u)
  finished (s, failed text) = (s, err text)
  finished (s, dropped) = (s, err cancelled_text)
  finished (s, elapsed) = (s, err "Connection attempt timed out")

  -- `ConnectionAttempt::run` of an attempt that captured `version` before it was queued.
  unfoldable pub run :
      ℕ → (State P → State P × Ending (Unit {0})) → State P → State P × Result (Unit {0})
  unfolding finished
  run version operation s =
      if not (s.version == version)
      then (s, err cancelled_text)
      else finished (operation (record s { intentional_disconnect = false }))

  unfoldable pub rollback_connection : State P → State P
  rollback_connection s = record s { is_connected = false; world = P.close s.world }

  -- The drop of a `ConnectionAttempt` that was not finished; its task holds the gate to the end.
  unfoldable pub drop_connection_attempt : Gate → State P → State P
  drop_connection_attempt released s = s
  drop_connection_attempt held s = record s { is_connected = false; world = P.close s.world }

  unfoldable pub target_ip : WebRtcConnectionMethod → Option String → Result String
  target_ip local_sta ip = ok_or ip "LocalSTA connection requires ip"
  target_ip local_ap ip = ok "192.168.12.1"
  target_ip remote ip = err "Remote connection is not implemented in phase 1"

  abbrev pub offer_id : WebRtcConnectionMethod → String
  offer_id local_sta = "STA_localNetwork"
  offer_id local_ap = ""
  offer_id remote = ""

  unfoldable pub offer_payload : WebRtcConnectionMethod → String → Value
  offer_payload method sdp = object (
      member "id" (string (offer_id method)) (
        member "sdp" (string sdp)
          (member "type" (string "offer") (member "token" (string "") end))))

  unfoldable pub connect_inner :
      WebRtcConnectionMethod → Option String → State P → State P × Ending (Unit {0})
  unfolding await_in_time target_ip offer_payload
  connect_inner method ip s = (s, of_result (target_ip method ip)) and_then λ target s1.
      await_in_time P.prepare_offer s1 and_then λ offer s2.
      await_in_time (P.exchange_sdp target (P.print_json (offer_payload method offer))) s2
      and_then λ answer s3. await_in_time (P.apply_answer answer) s3 and_then λ u s4.
          (record s4 { is_connected = true }, done u)

  abbrev pub timeout_text : Option String → String
  timeout_text none = "Connection attempt timed out"
  timeout_text (some detail) = append "Connection attempt timed out: " detail

  -- `tokio::time::timeout`: only here does the time end an operation.
  unfoldable pub in_time : State P × Ending (Unit {0}) → State P × Ending (Unit {0})
  in_time (s, done u) = (s, done u)
  in_time (s, failed e) = (s, failed e)
  in_time (s, dropped) = (s, dropped)
  in_time (s, elapsed) = (s, failed (timeout_text (P.timeout_diagnostic s.world)))

  -- The close of the engine before a reconnection is an await too.
  unfoldable pub rollback_in_attempt : State P → State P × Ending (Unit {0})
  unfolding await
  rollback_in_attempt s = await (λ w. (P.close w, ok tt)) (record s { is_connected = false })

  unfoldable pub connect_in_attempt :
      WebRtcConnectionMethod → Option String → Bool → State P → State P × Ending (Unit {0})
  unfolding connect_inner rollback_in_attempt in_time
  connect_in_attempt method ip reconnect s =
      let start = record s { is_connected = false } in
      (if reconnect then rollback_in_attempt start else (start, done tt)) and_then λ u s1.
      in_time (connect_inner method ip s1)

  -- `connect` and `reconnect` of the transport alone.
  unfoldable pub connect_transport :
      WebRtcConnectionMethod → Option String → Bool → State P → State P × Result (Unit {0})
  unfolding begin_attempt run connect_in_attempt rollback_connection
  connect_transport method ip reconnect s =
      let (s', version) = begin_attempt s in
      let (s'', r) = run version (connect_in_attempt method ip reconnect) s' in
      elim r [ ok u ↦ (s'', ok u) | err e ↦ (rollback_connection s'', err e) ]

  unfoldable pub disconnect : State P → State P
  unfolding request_disconnect begin_attempt rollback_connection
  disconnect s = rollback_connection (begin_attempt (request_disconnect s)).0
