-- ===== src/DataChannel/State.antt =====
-- The service's shared state, what it asks of its surroundings, and what it has done to them. Each
-- operation runs under `lifecycle_lock`, so a history is a sequence of operations.
use text.Mathlib.Text.{◌==◌ as str_eq}
use unitree_webrtc_rs.Base.Dict.{Dict}
use unitree_webrtc_rs.Base.{
  ℕ, Bool, not, Option, none, some, List, ◌∷◌, String, Bytes, Result, ok, err, if◌then◌else◌,
}
use unitree_webrtc_rs.Chunks.{ChunkAssembler}
use unitree_webrtc_rs.Json.{Value, Number, string, object, member, end}

-- `ResponseExpectation`: an API id is an `i64`, a whole JSON number.
pub record ResponseExpectation : Type 0 where
  pub topics : Option (List String)
  pub api_id : Option Number

-- `PendingCallback`: `token` names the `Arc` of the request and its one-shot sender.
pub record PendingCallback : Type 0 where
  pub token : ℕ
  pub expectation : ResponseExpectation
  pub session_id : ℕ

-- `LidarDecodeRequest`, less the metadata, which are read from the payload.
pub record LidarRequest : Type 0 where
  pub generation : ℕ
  pub topic : String
  pub payload : Value
  pub compressed : Bytes

-- `CallbackEvent::TopicCallback`, with the generation that it was sent for.
pub record TopicCallback : Type 0 where
  pub topic : String
  pub payload : Value
  pub generation : ℕ

pub record Service : Type 0 where
  pub pending_callbacks : Dict PendingCallback
  pub subscriptions : List String
  pub chunk_data_storage : ChunkAssembler
  pub validation_key : String
  pub data_channel_opened : Bool
  pub heartbeat_last_response : ℕ
  pub heartbeat_running : Bool
  -- The stop channel of the running heartbeat, named by a number.
  pub heartbeat_stop_tx : Option ℕ
  pub network_probe_running : Bool
  pub decoder_type : String
  pub last_process_time : Dict ℕ
  pub session_id : ℕ
  pub request_sequence : ℕ
  -- The next unused token or channel name.
  pub next_token : ℕ
  -- What was sent on the one-shot channels, to the transport and to the callback queue, newest first.
  pub resolved : List (ℕ × Result Value)
  pub sent : List Value
  pub events : List TopicCallback
  pub lidar_requests : List LidarRequest

-- The transport, the clocks and the third-party functions, as they answer during one operation.
-- Instants are nanoseconds; `f64` seconds of the throttle are taken as numbers of one fine unit.
pub record Port : Type 0 where
  pub ready_state : String
  pub send_text : Value → Result (Unit {0})
  pub try_send_event : TopicCallback → Bool
  pub now : ℕ
  pub now_secs : ℕ
  pub now_throttle : ℕ
  pub local_time : String
  pub throttle_limit : String → Option ℕ
  pub encrypt_key : String → Result String
  pub uuid : String
  pub read_json : Bytes → Option Value
  pub show_float : ℕ → String
  pub as_bytes : String → Bytes
  pub submit_lidar : LidarRequest → Result (Unit {0})

abbrev pub is_open_state : Port → Bool
is_open_state port = str_eq port.ready_state "open"

-- `json!({"type": .., "topic": ..})`, and the data if there are any.
abbrev pub wire_message : String → String → Option Value → Value
wire_message topic msg_type none =
    object (member "type" (string msg_type) (member "topic" (string topic) end))
wire_message topic msg_type (some payload) =
    object
      (member "type" (string msg_type) (member "topic" (string topic) (member "data" payload end)))

-- The caller holds the lock. A message that is not accepted is not sent.
unfoldable pub send_message_locked :
    Port → Service → String → Option Value → String → Service × Result (Unit {0})
send_message_locked port s topic payload msg_type =
    if not (is_open_state port)
    then (s, err "Data channel is not open")
    else let message = wire_message topic msg_type payload in
      elim (port.send_text message) [
        | ok _ ↦ (record s { sent = message ∷ s.sent }, ok tt)
        | err e ↦ (s, err e)
      ]
