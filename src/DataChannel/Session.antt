-- ===== src/DataChannel/Session.antt =====
-- Sessions, the heartbeat and the validation of the channel.
use Prim.Native.Nat.{◌+◌, ◌-◌, ◌%◌, ◌^◌}
use text.Mathlib.Text.{◌==◌ as str_eq}
use unitree_webrtc_rs.Base.{
  ℕ, Bool, true, false, not, ◌&&◌, ◌||◌, Option, none, some, [], String, ok, err, ltb, ◌==◌,
  if◌then◌else◌,
}
use unitree_webrtc_rs.Chunks.{clear, empty}
use unitree_webrtc_rs.DataChannel.Pending.{fail_all_pending}
use unitree_webrtc_rs.DataChannel.State.{Service, Port, send_message_locked, is_open_state}
use unitree_webrtc_rs.Json.{
  Value, number, string, object, member, end, pos_int, get, as_str, ◌then?◌,
}
use unitree_webrtc_rs.Models.{or_default, is_empty}

-- `try_new`; the session id and the first request number are drawn outside.
abbrev pub new : ℕ → ℕ → Service
new session_id request_sequence = record {
  pending_callbacks = [];
  subscriptions = [];
  chunk_data_storage = empty;
  validation_key = "";
  data_channel_opened = false;
  heartbeat_last_response = 0;
  heartbeat_running = false;
  heartbeat_stop_tx = none;
  network_probe_running = false;
  decoder_type = "native";
  last_process_time = [];
  session_id = session_id;
  request_sequence = request_sequence;
  next_token = 0;
  resolved = [];
  sent = [];
  events = [];
  lidar_requests = [];
}

-- The disconnection of the stop channel ends the worker.
abbrev pub stop_heartbeat : Service → Service
stop_heartbeat s = record s { heartbeat_running = false; heartbeat_stop_tx = none }

-- `fetch_add(1).wrapping_add(1)` on a `u64`.
abbrev pub next_session : ℕ → ℕ
next_session id = (id + 1) % 2 ^ 64

unfoldable pub start_new_session : Service → Service
start_new_session s =
    fail_all_pending
      (record s {
        session_id = next_session s.session_id;
        heartbeat_running = false;
        heartbeat_stop_tx = none;
        network_probe_running = false;
        data_channel_opened = false;
        heartbeat_last_response = 0;
        chunk_data_storage = clear s.chunk_data_storage;
      })
      "DataChannel session reset"

unfoldable pub stop_background_tasks : Service → Service
stop_background_tasks s = start_new_session (record s {
  heartbeat_running = false;
  heartbeat_stop_tx = none;
  network_probe_running = false;
  data_channel_opened = false;
})

-- The arm of `DcMessage::TransportFault`.
unfoldable pub transport_failed : Service → String → Service
transport_failed s error =
    fail_all_pending
      (record s {
        session_id = next_session s.session_id;
        data_channel_opened = false;
        heartbeat_running = false;
        heartbeat_stop_tx = none;
        network_probe_running = false;
        chunk_data_storage = clear s.chunk_data_storage;
      })
      error

-- The new worker is named by its stop channel; its rounds are `heartbeat_round`.
unfoldable pub start_heartbeat_in_session : Service → Service
start_heartbeat_in_session s = if s.heartbeat_running then s else record s {
  heartbeat_running = true;
  heartbeat_stop_tx = some s.next_token;
  next_token = s.next_token + 1;
}

abbrev pub heartbeat_data : Port → Value
heartbeat_data port = object (
    member "timeInStr" (string port.local_time)
      (member "timeInNum" (number (pos_int port.now_secs)) end))

-- One round of the worker's loop in the session `epoch`, with the result of its tests: `true` if it
-- waits for the next round.
unfoldable pub heartbeat_round : Port → ℕ → Service → Service × Bool
heartbeat_round port epoch s =
    if not s.heartbeat_running || not (s.session_id == epoch)
    then (s, false)
    else if ltb 0 s.heartbeat_last_response && ltb 6 (port.now_secs - s.heartbeat_last_response)
    then (let failed =
          fail_all_pending
            (record s {
              heartbeat_running = false;
              heartbeat_stop_tx = none;
              data_channel_opened = false;
            })
            "Heartbeat timeout" in
        (record failed { chunk_data_storage = clear failed.chunk_data_storage }, false))
    else if is_open_state port
    then ((send_message_locked port s "" (some (heartbeat_data port)) "heartbeat").0, true)
    else (s, true)

-- The wait behind a round ends by its timeout only while the worker's own stop channel is held.
abbrev pub waits_on : ℕ → Service → Bool
waits_on channel s = elim s.heartbeat_stop_tx [ none ↦ false | some c ↦ c == channel ]

unfoldable pub request_network_status_once : Port → Service → Service
request_network_status_once port s =
    if s.network_probe_running
    then s
    else (send_message_locked port (record s { network_probe_running = true }) ""
        (some (
          object (
            member "req_type" (string "public_network_status")
              (member "uuid" (string port.uuid) end))))
        "rtc_inner_req").0

-- `if let Ok(encrypted) = encrypt_key(key) { let _ = send .. }`
unfoldable pub send_validation : Port → Service → String → Service
send_validation port s key = elim (port.encrypt_key key) [
  | ok encrypted ↦ (send_message_locked port s "" (some (string encrypted)) "validation").0
  | err e ↦ s
]

unfoldable pub handle_validation : Port → Service → Value → Service
unfolding start_heartbeat_in_session request_network_status_once send_validation
handle_validation port s message = elim (get "data" message then? as_str) [
  | none ↦ s
  | some key ↦
      if str_eq key "Validation Ok."
      then request_network_status_once port (
          start_heartbeat_in_session
            (record s { data_channel_opened = true; heartbeat_last_response = port.now_secs }))
      else send_validation port (record s { validation_key = key }) key
]

unfoldable pub handle_validation_err : Port → Service → Value → Service
unfolding send_validation
handle_validation_err port s message =
    if str_eq (or_default (get "info" message then? as_str)) "Validation Needed."
      && not (is_empty s.validation_key)
    then send_validation port s s.validation_key
    else s

abbrev pub stop_probe : Service → Option String → Service
stop_probe s none = s
stop_probe s (some status) =
    if str_eq status "NetworkStatus.ON_4G_CONNECTED"
      || str_eq status "NetworkStatus.ON_WIFI_CONNECTED"
    then record s { network_probe_running = false }
    else s

unfoldable pub handle_rtc_inner_req : Port → Service → Value → Service
handle_rtc_inner_req port s message = elim (get "info" message) [
  | none ↦ s
  | some info ↦
      let probed =
        if str_eq (or_default (get "req_type" info then? as_str)) "rtt_probe_send_from_mechine"
        then (send_message_locked port s "" (some info) "rtc_inner_req").0
        else s in
      stop_probe probed (get "status" info then? as_str)
]

-- The error messages are only logged.
unfoldable pub handle_text_response : Port → Service → Value → Service
unfolding handle_validation handle_validation_err handle_rtc_inner_req
handle_text_response port s message =
    let msg_type = or_default (get "type" message then? as_str) in
    if str_eq msg_type "validation"
    then handle_validation port s message
    else if str_eq msg_type "rtc_inner_req"
    then handle_rtc_inner_req port s message
    else if str_eq msg_type "heartbeat"
    then record s { heartbeat_last_response = port.now_secs }
    else if str_eq msg_type "err"
    then handle_validation_err port s message
    else s
