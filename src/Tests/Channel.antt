-- ===== src/Tests/Channel.antt =====
-- A service with one waiting request, and what its messages do.
use unitree_webrtc_rs.Base.Dict.{lookup}
use unitree_webrtc_rs.Base.{
  ℕ, ◌≡◌, ◌⊎◌, refl, true, none, some, [], ◌∷◌, ok, if◌then◌else◌, ◌==◌, arith,
}
use unitree_webrtc_rs.DataChannel.Epochs.{Ends, transport_fault-Ends, stop_background_tasks-Ends}
use unitree_webrtc_rs.DataChannel.Front.{process_ingress-Queued}
use unitree_webrtc_rs.DataChannel.History.{
  Reachable, starts, goes, message, publish_starts, subscribes, Reachable-IsSound,
}
use unitree_webrtc_rs.DataChannel.Ingress.{run_resolve, incoming_key, chunk_source}
use unitree_webrtc_rs.DataChannel.NoneLost.{process_ingress-Progress}
use unitree_webrtc_rs.DataChannel.Opening.{process_ingress-opened}
use unitree_webrtc_rs.DataChannel.Pending.{any_topic, contains, validate}
use unitree_webrtc_rs.DataChannel.Publish.{begin_publish-Begun, publish-answered, Begun, Registered}
use unitree_webrtc_rs.DataChannel.Requests.{
  begin_publish, end_publish, subscribe, register, sent_or_dropped,
}
use unitree_webrtc_rs.DataChannel.Router.{process_ingress, process_payload}
use unitree_webrtc_rs.DataChannel.Session.{new, start_new_session, stop_background_tasks}
use unitree_webrtc_rs.DataChannel.Sound.{IsSound}
use unitree_webrtc_rs.DataChannel.State.{
  Service, Port, TopicCallback, wire_message, send_message_locked,
}
use unitree_webrtc_rs.DataChannel.Waiters.{Progress}
use unitree_webrtc_rs.Ingress.{parse_json, admit}
use unitree_webrtc_rs.Json.{Value, string, object, member, end, get, put, find}
use unitree_webrtc_rs.Lidar.Metadata.{Floats}
use unitree_webrtc_rs.Models.{IngressMessage, text, transport_fault, descend}

abbrev floats : Floats
floats = record {
  F64 = ℕ;
  F32 = ℕ;
  of_number = λ n. 0;
  is_finite_64 = λ x. true;
  is_positive_64 = λ x. true;
  to_f32 = λ x. x;
  is_finite_32 = λ x. true;
  is_positive_32 = λ x. true;
  of_index = λ n. n;
  add = λ x y. x;
  mul = λ x y. x;
}

abbrev accepted_message : Value
accepted_message =
    object (member "type" (string "validation") (member "data" (string "Validation Ok.") end))

abbrev topic_message : Value
topic_message = object (member "type" (string "msg") (member "topic" (string "rt/state") end))

abbrev port : Port
port = record {
  ready_state = "open";
  send_text = λ m. ok tt;
  try_send_event = λ e. true;
  now = 5;
  now_secs = 100;
  now_throttle = 9;
  local_time = "2026-01-01 00:00:00";
  throttle_limit = λ t. none;
  encrypt_key = λ k. ok k;
  uuid = "u";
  read_json = λ b. elim b [
    | [] ↦ none
    | ◌∷◌ x xs ↦ if x == 1 then some accepted_message else some topic_message
  ];
  show_float = λ n. "0.0";
  as_bytes = λ s. [];
  submit_lidar = λ r. ok tt;
}

-- A service that waits for a message on "rt/state" and has subscribed to that topic.
abbrev waiting : Service
waiting =
    (begin_publish port (subscribe port (new 7 0) "rt/state").0 "rt/state" none "msg" any_topic).0

abbrev text_of : ℕ → IngressMessage
text_of b = record { generation = 7; payload = text (b ∷ []) }

process_ingress-Progress_example :
    Progress waiting (process_ingress floats port waiting (text_of 2))
process_ingress-Progress_example = process_ingress-Progress floats port waiting (text_of 2)

reached : Reachable floats (process_ingress floats port waiting (text_of 1))
reached =
    goes waiting _
      (goes _ waiting (goes _ _ (starts 7 0) (subscribes port (new 7 0) "rt/state")) (
        publish_starts port (subscribe port (new 7 0) "rt/state").0 "rt/state" none "msg"
          any_topic))
      (message port waiting (text_of 1))

Reachable-IsSound_example : IsSound (process_ingress floats port waiting (text_of 1))
Reachable-IsSound_example =
    Reachable-IsSound floats (process_ingress floats port waiting (text_of 1)) reached

abbrev fresh_service : Service
fresh_service = new 7 0

abbrev registered : Service
registered = (begin_publish port fresh_service "rt/state" none "msg" any_topic).0

registered_lem :
    Registered fresh_service registered "msg $ rt/state" any_topic
      (wire_message "rt/state" "msg" none)
      (record { key = "msg $ rt/state"; token = 0 })
unfolding begin_publish lookup sent_or_dropped send_message_locked
registered_lem = begin_publish-Begun port fresh_service "rt/state" none "msg" any_topic

publish-answered_example :
    ((end_publish
        (run_resolve port registered topic_message)
        (record { key = "msg $ rt/state"; token = 0 })).1
      ≡ validate any_topic topic_message)
    × ((end_publish
          (run_resolve port registered topic_message)
          (record { key = "msg $ rt/state"; token = 0 })).0.pending_callbacks
        ≡ [])
unfolding get find chunk_source descend incoming_key begin_publish lookup sent_or_dropped
    send_message_locked
publish-answered_example =
    publish-answered port fresh_service registered "msg $ rt/state" any_topic
      (wire_message "rt/state" "msg" none) topic_message
      (record { key = "msg $ rt/state"; token = 0 })
      (Reachable-IsSound floats fresh_service (starts 7 0)) registered_lem (λ e. cc) refl refl

begin_publish-Begun_example :
    Begun waiting "msg $ rt/other" any_topic
      (wire_message "rt/other" "msg" none)
      (begin_publish port waiting "rt/other" none "msg" any_topic)
begin_publish-Begun_example = begin_publish-Begun port waiting "rt/other" none "msg" any_topic

process_ingress-opened_example :
    (process_ingress floats port waiting (text_of 1)).data_channel_opened ≡ true
unfolding begin_publish lookup subscribe send_message_locked sent_or_dropped register parse_json
    admit get put
process_ingress-opened_example = process_ingress-opened floats port waiting (text_of 1)

process_ingress-Queued_example :
    ((process_ingress floats port waiting (text_of 2)).events ≡ waiting.events)
    ⊎ ((e : TopicCallback) × ((process_ingress floats port waiting (text_of 2)).events
          ≡ e ∷ waiting.events)
        × (contains e.topic waiting.subscriptions ≡ true)
        × (e.generation ≡ waiting.session_id)
        × ((text_of 2).generation ≡ waiting.session_id))
process_ingress-Queued_example = process_ingress-Queued floats port waiting (text_of 2)

transport_fault-Ends_example :
    Ends floats waiting (process_payload floats port waiting (transport_fault "lost"))
unfolding begin_publish lookup subscribe send_message_locked sent_or_dropped register
transport_fault-Ends_example = transport_fault-Ends floats port waiting "lost" (omega arith)

stop_background_tasks-Ends_example :
    Ends floats waiting (start_new_session waiting)
    × Ends floats waiting (stop_background_tasks waiting)
unfolding begin_publish lookup subscribe send_message_locked sent_or_dropped register
stop_background_tasks-Ends_example = stop_background_tasks-Ends floats waiting (omega arith)
