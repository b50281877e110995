-- ===== src/DataChannel/Reach.antt =====
-- Histories of the service: every operation keeps it sound.
use package.text.Mathlib.Text.{◌==◌ as str_eq}
use unitree_webrtc_rs.Base.{
  refl, inl, inr, String, Bytes, Bool-cases, Option-cases, Result-cases, ◌==◌, ltb, length,
}
use unitree_webrtc_rs.Chunks
use unitree_webrtc_rs.Chunks.Invariant.{empty-IsValid}
use unitree_webrtc_rs.DataChannel.Ingress.{run_resolve, should_process, dispatch_subscription}
use unitree_webrtc_rs.DataChannel.Pending.{fail_all_pending}
use unitree_webrtc_rs.DataChannel.Router.{
  lidar_payload, plain_payload, process_binary_payload, deal_array_buffer, process_text,
  process_binary, process_payload, process_ingress, has_lidar_intent, topic_or_type_of,
}
use unitree_webrtc_rs.DataChannel.Session.{handle_text_response, transport_failed}
use unitree_webrtc_rs.DataChannel.Sound.{IsSound, Beside-IsSound, failed-IsSound}
use unitree_webrtc_rs.DataChannel.State.{Service, Port}
use unitree_webrtc_rs.DataChannel.Steady.{
  text_response-Beside, should_process-Beside, dispatch-Beside, run_resolve-IsSound, reject-IsSound,
  submit_lidar-IsSound,
}
use unitree_webrtc_rs.Framing
use unitree_webrtc_rs.Framing.{BinaryFrame}
use unitree_webrtc_rs.Ingress.{parse_json, max_binary_bytes, max_binary_expansion_bytes}
use unitree_webrtc_rs.Json.{Value, get, ◌then?◌}
use unitree_webrtc_rs.Lidar.Metadata.{Floats, from_json, max_compressed_bytes}
use unitree_webrtc_rs.Models.{IngressMessage, DcMessage, text, binary, transport_fault}

lidar_payload-IsSound :
    (port : Port) (s : Service) (topic : String) (header : Value) (bytes : Bytes)
    → IsSound s
    → IsSound (lidar_payload port s topic header bytes).0
unfolding lidar_payload
lidar_payload-IsSound port s topic header bytes v =
    elim (Bool-cases (ltb max_compressed_bytes (length bytes))) [
      | inl e ↦
          rw (e, lidar_payload)
            (reject-IsSound port s header "LiDAR compressed size exceeds resource budget" v)
      | inr e ↦ elim (Bool-cases (str_eq s.decoder_type "native")) [
        | inr f ↦
            rw (e, f, lidar_payload) (reject-IsSound port s header "Unsupported LiDAR decoder" v)
        | inl f ↦
            let t = (should_process port s topic).0 in
            let w = Beside-IsSound s t (should_process-Beside port s topic) v in
            elim (Bool-cases (should_process port s topic).1) [
              | inr g ↦ rw (e, f, g, lidar_payload) w
              | inl g ↦ rw (e, f, g, lidar_payload) (submit_lidar-IsSound port t header _ w)
            ]
      ]
    ]

plain_payload-IsSound :
    (port : Port) (s : Service) (topic : String) (header : Value) (bytes : Bytes)
    → IsSound s
    → IsSound (plain_payload port s topic header bytes).0
unfolding plain_payload
plain_payload-IsSound port s topic header bytes v =
    elim (Bool-cases (ltb max_binary_expansion_bytes (length bytes))) [
      | inl e ↦
          rw (e, plain_payload)
            (reject-IsSound port s header "Binary JSON expansion exceeds 1 MiB" v)
      | inr e ↦
          let w =
            Beside-IsSound s (should_process port s topic).0 (should_process-Beside port s topic)
              v in
          elim (Bool-cases (should_process port s topic).1) [
            | inr g ↦ rw (e, g, plain_payload) w
            | inl g ↦ rw (e, g, plain_payload) w
          ]
    ]

module _ (F : Floats) where
  binary_payload-IsSound :
      (port : Port) (s : Service) (frame : BinaryFrame) (header : Value) (bytes : Bytes)
      → IsSound s
      → IsSound (process_binary_payload F port s frame header bytes).0
  unfolding process_binary_payload
  binary_payload-IsSound port s frame header bytes v =
      elim (Option-cases (get "data" header then? from_json F)) [
        | inr (metadata, e) ↦
            rw (e, process_binary_payload)
              (lidar_payload-IsSound port s (topic_or_type_of header) header bytes v)
        | inl e ↦ elim (Bool-cases (has_lidar_intent frame header)) [
          | inl f ↦
              rw (e, f, process_binary_payload)
                (reject-IsSound port s header "Invalid LiDAR metadata" v)
          | inr f ↦
              rw (e, f, process_binary_payload)
                (plain_payload-IsSound port s (topic_or_type_of header) header bytes v)
        ]
      ]

  deal_array_buffer-IsSound :
      (port : Port) (s : Service) (buffer : Bytes)
      → IsSound s
      → IsSound (deal_array_buffer F port s buffer).0
  unfolding deal_array_buffer
  deal_array_buffer-IsSound port s buffer v =
      elim (Bool-cases (ltb max_binary_bytes (length buffer))) [
        | inl e ↦ rw (e, deal_array_buffer) v
        | inr e ↦ elim (Result-cases (Framing.parse port.read_json buffer)) [
          | inr (reason, f) ↦ rw (e, f, deal_array_buffer) v
          | inl ((frame, header, payload), f) ↦
              rw (e, f, deal_array_buffer) (binary_payload-IsSound port s frame header payload v)
        ]
      ]

  process_payload-IsSound :
      (port : Port) (s : Service) (m : DcMessage) → IsSound s → IsSound (process_payload F port s m)
  unfolding process_payload process_text process_binary transport_failed fail_all_pending
      Chunks.clear
  process_payload-IsSound port s (transport_fault error) v =
      failed-IsSound s _ error refl refl refl empty-IsValid v
  process_payload-IsSound port s (text bytes) v =
      elim (Result-cases (parse_json port.read_json bytes)) [
        | inr (reason, e) ↦ rw (e, process_text) v
        | inl (m, e) ↦
            let t = run_resolve port s m in
            let u = handle_text_response port t m in
            rw (e, process_text)
              (Beside-IsSound u (dispatch_subscription port u m) (dispatch-Beside port u m) (
                Beside-IsSound t u (text_response-Beside port t m)
                  (run_resolve-IsSound port s m v)))
      ]
  process_payload-IsSound port s (binary bytes) v =
      let t = (deal_array_buffer F port s bytes).0 in
      let w = deal_array_buffer-IsSound port s bytes v in
      elim (Option-cases (deal_array_buffer F port s bytes).1) [
        | inl e ↦ rw (e, process_binary) w
        | inr (m, e) ↦
            rw (e, process_binary)
              (Beside-IsSound (run_resolve port t m)
                (dispatch_subscription port (run_resolve port t m) m)
                (dispatch-Beside port (run_resolve port t m) m) (run_resolve-IsSound port t m w))
      ]

  pub process_ingress-IsSound :
      (port : Port) (s : Service) (m : IngressMessage)
      → IsSound s
      → IsSound (process_ingress F port s m)
  unfolding process_ingress
  process_ingress-IsSound port s m v = elim (Bool-cases (m.generation == s.session_id)) [
    | inl e ↦ rw (e, process_ingress) (process_payload-IsSound port s m.payload v)
    | inr e ↦ rw (e, process_ingress) v
  ]
