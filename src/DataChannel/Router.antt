-- ===== src/DataChannel/Router.antt =====
-- The binary frames, and `process_ingress`, which takes the messages of the current session only.
use package.text.Mathlib.Text.{◌==◌ as str_eq, starts_with}
use unitree_webrtc_rs.Base.{
  Bool, true, false, not, ◌&&◌, ◌||◌, Option, none, some, ◌∷◌, String, Bytes, ok, err, ltb, ◌==◌,
  if◌then◌else◌, length,
}
use unitree_webrtc_rs.Chunks
use unitree_webrtc_rs.DataChannel.Ingress.{
  incoming_key, bytes_to_json_array, run_resolve, should_process, dispatch_subscription,
  expire_chunks,
}
use unitree_webrtc_rs.DataChannel.Pending.{fail_pending}
use unitree_webrtc_rs.DataChannel.Session.{handle_text_response, transport_failed}
use unitree_webrtc_rs.DataChannel.State.{Service, Port, LidarRequest}
use unitree_webrtc_rs.Framing
use unitree_webrtc_rs.Framing.{BinaryFrame, normal, lidar}
use unitree_webrtc_rs.Ingress.{parse_json, max_binary_bytes, max_binary_expansion_bytes}
use unitree_webrtc_rs.Json.{Value, Members, object, end, get, put, as_str, ◌then?◌}
use unitree_webrtc_rs.Lidar.Metadata.{Floats, from_json, max_compressed_bytes}
use unitree_webrtc_rs.Models.{
  IngressMessage, DcMessage, text, binary, transport_fault, or_default, or_else,
}

unfoldable pub reject_binary_response : Port → Service → Value → String → Service
reject_binary_response port s message reason =
    let key = incoming_key port message in
    fail_pending (record s { chunk_data_storage = Chunks.remove s.chunk_data_storage key }) key
      reason

abbrev pub members_or_new : Option Value → Members
members_or_new (some (object ms)) = ms
members_or_new _ = end

-- The payload becomes `data.data`; `data` becomes an object if it is none. The header is an object.
unfoldable pub inject_binary_data : Value → Bytes → Value
inject_binary_data (object ms) bytes = object (
    put "data"
      (object (put "data" (bytes_to_json_array bytes) (members_or_new (get "data" (object ms)))))
      ms)
inject_binary_data v bytes = v

abbrev pub is_some {ℓ} : {A : Type ℓ} → Option A → Bool
is_some none = false
is_some (some a) = true

-- The header has the marks of a voxel map.
unfoldable pub has_lidar_marks : Option Value → Bool
has_lidar_marks none = false
has_lidar_marks (some payload) =
    is_some (get "src_size" payload)
    || (is_some (get "origin" payload) && is_some (get "resolution" payload))

abbrev pub is_lidar_frame : BinaryFrame → Bool
is_lidar_frame normal = false
is_lidar_frame lidar = true

abbrev pub Routed : Type 0
Routed = Service × Option Value

-- The result of `submit` in the LiDAR branch.
unfoldable pub submit_lidar : Port → Service → Value → LidarRequest → Routed
submit_lidar port s header request = elim (port.submit_lidar request) [
  | ok _ ↦ (record s { lidar_requests = request ∷ s.lidar_requests }, none)
  | err e ↦ (fail_pending s (incoming_key port header) e, none)
]

-- The branch with metadata, and the branch without; each asks the throttle last.
unfoldable pub lidar_payload : Port → Service → String → Value → Bytes → Routed
lidar_payload port s topic header bytes =
    if ltb max_compressed_bytes (length bytes)
    then (
      reject_binary_response port s header "LiDAR compressed size exceeds resource budget",
      none,
    )
    else if not (str_eq s.decoder_type "native")
    then (reject_binary_response port s header "Unsupported LiDAR decoder", none)
    else let (s', process) = should_process port s topic in
      if not process
      then (s', none)
      else submit_lidar port s' header (record {
        generation = s'.session_id;
        topic = topic;
        payload = header;
        compressed = bytes;
      })

unfoldable pub plain_payload : Port → Service → String → Value → Bytes → Routed
plain_payload port s topic header bytes =
    if ltb max_binary_expansion_bytes (length bytes)
    then (reject_binary_response port s header "Binary JSON expansion exceeds 1 MiB", none)
    else let (s', process) = should_process port s topic in
      if not process then (s', none) else (s', some (inject_binary_data header bytes))

abbrev pub topic_or_type_of : Value → String
topic_or_type_of header =
    or_default (or_else (get "topic" header then? as_str) (get "type" header then? as_str))

unfoldable pub has_lidar_intent : BinaryFrame → Value → Bool
unfolding has_lidar_marks
has_lidar_intent frame header =
    is_lidar_frame frame
    || starts_with (topic_or_type_of header) "rt/utlidar/"
    || has_lidar_marks (get "data" header)

module _ (F : Floats) where
  unfoldable pub process_binary_payload : Port → Service → BinaryFrame → Value → Bytes → Routed
  unfolding has_lidar_intent lidar_payload plain_payload
  process_binary_payload port s frame header bytes =
      let topic_or_type = topic_or_type_of header in
      elim (get "data" header then? from_json F) [
        | none ↦
            if has_lidar_intent frame header
            then (reject_binary_response port s header "Invalid LiDAR metadata", none)
            else plain_payload port s topic_or_type header bytes
        | some _ ↦ lidar_payload port s topic_or_type header bytes
      ]

  unfoldable pub deal_array_buffer : Port → Service → Bytes → Routed
  deal_array_buffer port s buffer =
      if ltb max_binary_bytes (length buffer)
      then (s, none)
      else elim (Framing.parse port.read_json buffer) [
        | err e ↦ (s, none)
        | ok (frame, header, payload) ↦ process_binary_payload port s frame header payload
      ]

  unfoldable pub process_text : Port → Service → Bytes → Service
  process_text port s bytes = elim (parse_json port.read_json bytes) [
    | err e ↦ s
    | ok parsed ↦
        dispatch_subscription port (handle_text_response port (run_resolve port s parsed) parsed)
          parsed
  ]

  unfoldable pub process_binary : Port → Service → Bytes → Service
  process_binary port s bytes =
      let (s', routed) = deal_array_buffer port s bytes in
      elim routed [
        | none ↦ s'
        | some parsed ↦ dispatch_subscription port (run_resolve port s' parsed) parsed
      ]

  unfoldable pub process_payload : Port → Service → DcMessage → Service
  process_payload port s (transport_fault error) = transport_failed s error
  process_payload port s (text bytes) = process_text port s bytes
  process_payload port s (binary bytes) = process_binary port s bytes

  unfoldable pub process_ingress : Port → Service → IngressMessage → Service
  process_ingress port s message =
      if not (message.generation == s.session_id) then s else process_payload port s message.payload

  abbrev pub process_any : Port → Service → Option IngressMessage → Service
  process_any port s none = s
  process_any port s (some message) = process_ingress port s message

  -- One round of `run_message_loop`: the transport's fault, the sweep, and the message, if there are any.
  unfoldable pub message_round :
      Port → Service → Option IngressMessage → Option IngressMessage → Service
  message_round port s fault message =
      process_any port (expire_chunks port (process_any port s fault)) message
