-- ===== src/DataChannel/Opening.antt =====
-- When the channel counts as open.
use package.text.Mathlib.Text.{◌==◌ as str_eq}
use unitree_webrtc_rs.Base.{
  ◌≡◌, refl, inl, inr, Bool, false, ◌&&◌, ◌||◌, Bytes, Result, ok, err, Bool-cases, Option-cases,
  Result-cases, ◌==◌, if◌then◌else◌, arith,
}
use unitree_webrtc_rs.DataChannel.Inert.{run_resolve-Inert, deal_array_buffer-Inert}
use unitree_webrtc_rs.DataChannel.Ingress.{should_process, dispatch_topic, dispatch_subscription}
use unitree_webrtc_rs.DataChannel.Pending.{fail_all_pending}
use unitree_webrtc_rs.DataChannel.Router.{
  deal_array_buffer, process_text, process_binary, process_payload, process_ingress,
}
use unitree_webrtc_rs.DataChannel.Session.{
  handle_text_response, handle_validation, handle_validation_err, handle_rtc_inner_req,
  start_heartbeat_in_session, request_network_status_once, send_validation, transport_failed,
}
use unitree_webrtc_rs.DataChannel.State.{Service, Port, send_message_locked}
use unitree_webrtc_rs.Ingress.{parse_json}
use unitree_webrtc_rs.Json.{Value, get, as_str, ◌then?◌}
use unitree_webrtc_rs.Lidar.Metadata.{Floats}
use unitree_webrtc_rs.Models.{IngressMessage, DcMessage, text, binary, transport_fault, or_default}

-- The peer's word that the validation succeeded: a "validation" message with the data "Validation Ok.".
abbrev pub is_accepted : Value → Bool
is_accepted m =
    str_eq (or_default (get "type" m then? as_str)) "validation"
    && str_eq (or_default (get "data" m then? as_str)) "Validation Ok."

abbrev pub accepted_by : Result Value → Bool
accepted_by (ok m) = is_accepted m
accepted_by (err e) = false

validation-opened :
    (port : Port) (s : Service) (m : Value)
    → (handle_validation port s m).data_channel_opened
      ≡ (s.data_channel_opened || str_eq (or_default (get "data" m then? as_str)) "Validation Ok.")
unfolding handle_validation start_heartbeat_in_session request_network_status_once send_validation
    send_message_locked
validation-opened port s m = elim (Option-cases (get "data" m then? as_str)) [
  | inl e ↦ rw (e, handle_validation) (ground arith)
  | inr (key, e) ↦ rw (e, handle_validation) (ground arith)
]

validation_err-opened :
    (port : Port) (s : Service) (m : Value)
    → (handle_validation_err port s m).data_channel_opened ≡ s.data_channel_opened
unfolding handle_validation_err send_validation send_message_locked
validation_err-opened port s m = ground arith

rtc_inner_req-opened :
    (port : Port) (s : Service) (m : Value)
    → (handle_rtc_inner_req port s m).data_channel_opened ≡ s.data_channel_opened
unfolding handle_rtc_inner_req send_message_locked
rtc_inner_req-opened port s m = ground arith

text_response-opened :
    (port : Port) (s : Service) (m : Value)
    → (handle_text_response port s m).data_channel_opened ≡ (s.data_channel_opened || is_accepted m)
unfolding handle_text_response
text_response-opened port s m =
    elim (Bool-cases (str_eq (or_default (get "type" m then? as_str)) "validation")) [
      | inl e ↦ rw (e, handle_text_response) (validation-opened port s m)
      | inr e ↦
          rw (e, handle_text_response)
            (ground (arith, validation_err-opened port s m, rtc_inner_req-opened port s m))
    ]

dispatch-opened :
    (port : Port) (s : Service) (m : Value)
    → (dispatch_subscription port s m).data_channel_opened ≡ s.data_channel_opened
unfolding dispatch_subscription dispatch_topic should_process
dispatch-opened port s m = ground arith

module _ (F : Floats) where
  text-opened :
      (port : Port) (s : Service) (bytes : Bytes)
      → (process_text F port s bytes).data_channel_opened
        ≡ (s.data_channel_opened || accepted_by (parse_json port.read_json bytes))
  unfolding process_text
  text-opened port s bytes = elim (Result-cases (parse_json port.read_json bytes)) [
    | inr (reason, e) ↦ rw (e, process_text) (ground arith)
    | inl (m, e) ↦
        rw
          (
            e,
            process_text,
            dispatch-opened,
            text_response-opened,
            (run_resolve-Inert port s m).same_opened,
          )
          refl
  ]

  binary-opened :
      (port : Port) (s : Service) (bytes : Bytes)
      → (process_binary F port s bytes).data_channel_opened ≡ s.data_channel_opened
  unfolding process_binary
  binary-opened port s bytes =
      let t = (deal_array_buffer F port s bytes).0 in
      elim (Option-cases (deal_array_buffer F port s bytes).1) [
        | inl e ↦ rw (e, process_binary) (deal_array_buffer-Inert F port s bytes).same_opened
        | inr (m, e) ↦
            rw (e, process_binary, dispatch-opened, (run_resolve-Inert port t m).same_opened)
              (deal_array_buffer-Inert F port s bytes).same_opened
      ]

  -- Whether a message leaves the channel open.
  abbrev pub opened_by : Port → Bool → DcMessage → Bool
  opened_by port opened (transport_fault error) = false
  opened_by port opened (binary bytes) = opened
  opened_by port opened (text bytes) = opened || accepted_by (parse_json port.read_json bytes)

  -- A message opens the channel if and only if it is a text of the current session that parses to a
  -- "validation" message with the data "Validation Ok."; of the current session's messages a transport
  -- fault, and no other, closes it; a message of another session changes nothing here.
  pub process_ingress-opened :
      (port : Port) (s : Service) (m : IngressMessage)
      → (process_ingress F port s m).data_channel_opened ≡ (
          if m.generation == s.session_id
          then opened_by port s.data_channel_opened m.payload
          else s.data_channel_opened)
  unfolding process_ingress process_payload transport_failed fail_all_pending
  process_ingress-opened port s m = elim (Bool-cases (m.generation == s.session_id)) [
    | inr e ↦ rw (e, process_ingress) refl
    | inl e ↦ rw (e, process_ingress) (taken m.payload)
  ]
    where
      taken :
          (p : DcMessage)
          → (process_payload F port s p).data_channel_opened
            ≡ opened_by port s.data_channel_opened p
      taken (transport_fault error) = refl
      taken (text bytes) = text-opened port s bytes
      taken (binary bytes) = binary-opened port s bytes
