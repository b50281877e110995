-- ===== src/DataChannel/NoneLost.antt =====
-- `process_ingress` loses no waiting request and makes none.
use unitree_webrtc_rs.Base.{
  inl, inr, String, Bytes, Option-cases, Result-cases, Bool-cases, ltb, ◌==◌, length, refl,
}
use package.text.Mathlib.Text.{◌==◌ as str_eq}
use unitree_webrtc_rs.Chunks
use unitree_webrtc_rs.DataChannel.Delivery.{
  unchanged, handle_text_response-Same, should_process-Same, dispatch_subscription-Same,
  run_resolve-Progress, transport_failed-Progress,
}
use unitree_webrtc_rs.DataChannel.Ingress.{incoming_key, run_resolve, should_process}
use unitree_webrtc_rs.DataChannel.Pending.{fail_pending}
use unitree_webrtc_rs.DataChannel.Router.{
  reject_binary_response, submit_lidar, lidar_payload, plain_payload, process_binary_payload,
  deal_array_buffer, process_text, process_binary, process_payload, process_ingress,
  topic_or_type_of, has_lidar_intent,
}
use unitree_webrtc_rs.DataChannel.Session.{handle_text_response}
use unitree_webrtc_rs.DataChannel.State.{Service, Port, LidarRequest}
use unitree_webrtc_rs.DataChannel.Waiters.{
  Progress, Progress-trans, Same-Progress, fail_pending-Progress,
}
use unitree_webrtc_rs.Framing
use unitree_webrtc_rs.Framing.{BinaryFrame}
use unitree_webrtc_rs.Ingress.{parse_json, max_binary_bytes, max_binary_expansion_bytes}
use unitree_webrtc_rs.Json.{Value, get, ◌then?◌}
use unitree_webrtc_rs.Lidar.Metadata.{Floats, from_json, max_compressed_bytes}
use unitree_webrtc_rs.Models.{IngressMessage, DcMessage, text, binary, transport_fault}

still : (s : Service) → Progress s s
still s = Same-Progress s s (unchanged s)

reject-Progress :
    (port : Port) (s : Service) (m : Value) (reason : String)
    → Progress s (reject_binary_response port s m reason)
unfolding reject_binary_response
reject-Progress port s m reason =
    let key = incoming_key port m in
    let t = record s { chunk_data_storage = Chunks.remove s.chunk_data_storage key } in
    Progress-trans s t (fail_pending t key reason)
      (Same-Progress s t (record { same_pending = refl; same_resolved = refl }))
      (fail_pending-Progress t key reason)

submit_lidar-Progress :
    (port : Port) (s : Service) (header : Value) (request : LidarRequest)
    → Progress s (submit_lidar port s header request).0
unfolding submit_lidar
submit_lidar-Progress port s header request = elim (Result-cases (port.submit_lidar request)) [
  | inl (u, e) ↦
      rw (e, submit_lidar)
        (Same-Progress s _ (record { same_pending = refl; same_resolved = refl }))
  | inr (reason, e) ↦
      rw (e, submit_lidar) (fail_pending-Progress s (incoming_key port header) reason)
]

lidar_payload-Progress :
    (port : Port) (s : Service) (topic : String) (header : Value) (bytes : Bytes)
    → Progress s (lidar_payload port s topic header bytes).0
unfolding lidar_payload
lidar_payload-Progress port s topic header bytes =
    elim (Bool-cases (ltb max_compressed_bytes (length bytes))) [
      | inl e ↦
          rw (e, lidar_payload)
            (reject-Progress port s header "LiDAR compressed size exceeds resource budget")
      | inr e ↦ elim (Bool-cases (str_eq s.decoder_type "native")) [
        | inr f ↦
            rw (e, f, lidar_payload) (reject-Progress port s header "Unsupported LiDAR decoder")
        | inl f ↦ elim (Bool-cases (should_process port s topic).1) [
          | inr g ↦
              rw (e, f, g, lidar_payload) (Same-Progress s _ (should_process-Same port s topic))
          | inl g ↦
              rw (e, f, g, lidar_payload)
                (Progress-trans s _ _ (Same-Progress s _ (should_process-Same port s topic))
                  (submit_lidar-Progress port (should_process port s topic).0 header _))
        ]
      ]
    ]

plain_payload-Progress :
    (port : Port) (s : Service) (topic : String) (header : Value) (bytes : Bytes)
    → Progress s (plain_payload port s topic header bytes).0
unfolding plain_payload
plain_payload-Progress port s topic header bytes =
    elim (Bool-cases (ltb max_binary_expansion_bytes (length bytes))) [
      | inl e ↦
          rw (e, plain_payload)
            (reject-Progress port s header "Binary JSON expansion exceeds 1 MiB")
      | inr e ↦ elim (Bool-cases (should_process port s topic).1) [
        | inr g ↦ rw (e, g, plain_payload) (Same-Progress s _ (should_process-Same port s topic))
        | inl g ↦ rw (e, g, plain_payload) (Same-Progress s _ (should_process-Same port s topic))
      ]
    ]

module _ (F : Floats) where
  process_binary_payload-Progress :
      (port : Port) (s : Service) (frame : BinaryFrame) (header : Value) (bytes : Bytes)
      → Progress s (process_binary_payload F port s frame header bytes).0
  unfolding process_binary_payload
  process_binary_payload-Progress port s frame header bytes =
      elim (Option-cases (get "data" header then? from_json F)) [
        | inr (metadata, e) ↦
            rw (e, process_binary_payload)
              (lidar_payload-Progress port s (topic_or_type_of header) header bytes)
        | inl e ↦ elim (Bool-cases (has_lidar_intent frame header)) [
          | inl f ↦
              rw (e, f, process_binary_payload)
                (reject-Progress port s header "Invalid LiDAR metadata")
          | inr f ↦
              rw (e, f, process_binary_payload)
                (plain_payload-Progress port s (topic_or_type_of header) header bytes)
        ]
      ]

  deal_array_buffer-Progress :
      (port : Port) (s : Service) (buffer : Bytes)
      → Progress s (deal_array_buffer F port s buffer).0
  unfolding deal_array_buffer
  deal_array_buffer-Progress port s buffer =
      elim (Bool-cases (ltb max_binary_bytes (length buffer))) [
        | inl e ↦ rw (e, deal_array_buffer) (still s)
        | inr e ↦ elim (Result-cases (Framing.parse port.read_json buffer)) [
          | inr (reason, f) ↦ rw (e, f, deal_array_buffer) (still s)
          | inl ((frame, header, payload), f) ↦
              rw (e, f, deal_array_buffer)
                (process_binary_payload-Progress port s frame header payload)
        ]
      ]

  process_text-Progress :
      (port : Port) (s : Service) (bytes : Bytes) → Progress s (process_text F port s bytes)
  unfolding process_text
  process_text-Progress port s bytes = elim (Result-cases (parse_json port.read_json bytes)) [
    | inr (reason, e) ↦ rw (e, process_text) (still s)
    | inl (m, e) ↦
        rw (e, process_text)
          (Progress-trans s (run_resolve port s m) _ (run_resolve-Progress port s m) (
            Progress-trans _ (handle_text_response port (run_resolve port s m) m) _
              (Same-Progress _ _ (handle_text_response-Same port (run_resolve port s m) m))
              (Same-Progress _ _ (
                dispatch_subscription-Same port (handle_text_response port (run_resolve port s m) m)
                  m))))
  ]

  process_binary-Progress :
      (port : Port) (s : Service) (bytes : Bytes) → Progress s (process_binary F port s bytes)
  unfolding process_binary
  process_binary-Progress port s bytes = elim (Option-cases (deal_array_buffer F port s bytes).1) [
    | inl e ↦ rw (e, process_binary) (deal_array_buffer-Progress port s bytes)
    | inr (m, e) ↦
        let t = (deal_array_buffer F port s bytes).0 in
        rw (e, process_binary)
          (Progress-trans s t _ (deal_array_buffer-Progress port s bytes) (
            Progress-trans t (run_resolve port t m) _ (run_resolve-Progress port t m)
              (Same-Progress _ _ (dispatch_subscription-Same port (run_resolve port t m) m))))
  ]

  process_payload-Progress :
      (port : Port) (s : Service) (m : DcMessage) → Progress s (process_payload F port s m)
  unfolding process_payload
  process_payload-Progress port s (transport_fault error) = transport_failed-Progress s error
  process_payload-Progress port s (text bytes) = process_text-Progress port s bytes
  process_payload-Progress port s (binary bytes) = process_binary-Progress port s bytes

  -- Whatever message arrives, each waiting request still waits under its key, with the same token
  -- and expectation, or a result was sent on its channel; results sent earlier stay; and no key that
  -- nothing waited under has a waiting request afterwards.
  pub process_ingress-Progress :
      (port : Port) (s : Service) (m : IngressMessage) → Progress s (process_ingress F port s m)
  unfolding process_ingress
  process_ingress-Progress port s m = elim (Bool-cases (m.generation == s.session_id)) [
    | inl e ↦ rw (e, process_ingress) (process_payload-Progress port s m.payload)
    | inr e ↦ rw (e, process_ingress) (still s)
  ]
