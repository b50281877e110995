-- ===== src/DataChannel/Inert.antt =====
-- What the steps of an incoming message leave alone: the callback queue, the subscriptions, the
-- session and the mark of an open channel.
use unitree_webrtc_rs.Base.{
  ◌≡◌, refl, ◌∙◌, inl, inr, Option, String, Bytes, Result, Bool-cases, Option-cases, Result-cases,
  ltb, length, arith,
}
use unitree_webrtc_rs.DataChannel.Ingress.{
  ChunkSource, incoming_key, finish_chunk, handle_chunk, run_resolve, should_process, parse_chunk,
  with_chunks, chunk_source,
}
use unitree_webrtc_rs.DataChannel.Pending.{fail_pending, resolve_pending_response}
use unitree_webrtc_rs.DataChannel.Router.{
  reject_binary_response, submit_lidar, lidar_payload, plain_payload, process_binary_payload,
  deal_array_buffer, has_lidar_intent, topic_or_type_of,
}
use unitree_webrtc_rs.DataChannel.State.{Service, Port}
use unitree_webrtc_rs.Framing
use unitree_webrtc_rs.Framing.{BinaryFrame}
use unitree_webrtc_rs.Ingress.{max_binary_bytes}
use unitree_webrtc_rs.Json.{Value, get, ◌then?◌}
use unitree_webrtc_rs.Lidar.Metadata.{Floats, from_json}

pub record Inert (s s' : Service) : Type 0 where
  pub same_events : s'.events ≡ s.events
  pub same_subscriptions : s'.subscriptions ≡ s.subscriptions
  pub same_session : s'.session_id ≡ s.session_id
  pub same_opened : s'.data_channel_opened ≡ s.data_channel_opened

pub Inert-trans : (s s' s'' : Service) → Inert s s' → Inert s' s'' → Inert s s''
Inert-trans s s' s'' p q = record {
  same_events = q.same_events ∙ p.same_events;
  same_subscriptions = q.same_subscriptions ∙ p.same_subscriptions;
  same_session = q.same_session ∙ p.same_session;
  same_opened = q.same_opened ∙ p.same_opened;
}

abbrev pub inert : {s : Service} → Inert s s
inert = record {
  same_events = refl;
  same_subscriptions = refl;
  same_session = refl;
  same_opened = refl;
}

fail_pending-Inert : (s : Service) (key error : String) → Inert s (fail_pending s key error)
unfolding fail_pending
fail_pending-Inert s key error = record {
  same_events = ground arith;
  same_subscriptions = ground arith;
  same_session = ground arith;
  same_opened = ground arith;
}

resolve-Inert :
    (s : Service) (key : String) (m : Value) → Inert s (resolve_pending_response s key m)
unfolding resolve_pending_response
resolve-Inert s key m = record {
  same_events = ground arith;
  same_subscriptions = ground arith;
  same_session = ground arith;
  same_opened = ground arith;
}

finish_chunk-Inert :
    (s : Service) (key : String) (source : ChunkSource) (m : Value) (r : Result (Option Bytes))
    → Inert s (finish_chunk s key source m r)
unfolding finish_chunk fail_pending resolve_pending_response
finish_chunk-Inert s key source m r = record {
  same_events = ground arith;
  same_subscriptions = ground arith;
  same_session = ground arith;
  same_opened = ground arith;
}

handle_chunk-Inert :
    (port : Port) (s : Service) (source : ChunkSource) (m : Value)
    → Inert s (handle_chunk port s source m)
unfolding handle_chunk
handle_chunk-Inert port s source m =
    let parsed = parse_chunk port s.chunk_data_storage (incoming_key port m) source in
    let stored = with_chunks s parsed.0 in
    Inert-trans s stored _
      (record {
        same_events = refl;
        same_subscriptions = refl;
        same_session = refl;
        same_opened = refl;
      })
      (finish_chunk-Inert stored (incoming_key port m) source m parsed.1)

pub run_resolve-Inert : (port : Port) (s : Service) (m : Value) → Inert s (run_resolve port s m)
unfolding run_resolve
run_resolve-Inert port s m = elim (Option-cases (get "type" m)) [
  | inl e ↦ rw (e, run_resolve) inert
  | inr (v, e) ↦ elim (Option-cases (chunk_source m)) [
    | inl f ↦ rw (e, f, run_resolve) (resolve-Inert s (incoming_key port m) m)
    | inr (source, f) ↦ rw (e, f, run_resolve) (handle_chunk-Inert port s source m)
  ]
]

pub should_process-Inert :
    (port : Port) (s : Service) (topic : String) → Inert s (should_process port s topic).0
unfolding should_process
should_process-Inert port s topic = record {
  same_events = ground arith;
  same_subscriptions = ground arith;
  same_session = ground arith;
  same_opened = ground arith;
}

lidar_payload-Inert :
    (port : Port) (s : Service) (topic : String) (header : Value) (bytes : Bytes)
    → Inert s (lidar_payload port s topic header bytes).0
unfolding lidar_payload reject_binary_response submit_lidar fail_pending should_process
lidar_payload-Inert port s topic header bytes = record {
  same_events = ground arith;
  same_subscriptions = ground arith;
  same_session = ground arith;
  same_opened = ground arith;
}

plain_payload-Inert :
    (port : Port) (s : Service) (topic : String) (header : Value) (bytes : Bytes)
    → Inert s (plain_payload port s topic header bytes).0
unfolding plain_payload reject_binary_response fail_pending should_process
plain_payload-Inert port s topic header bytes = record {
  same_events = ground arith;
  same_subscriptions = ground arith;
  same_session = ground arith;
  same_opened = ground arith;
}

reject-Inert :
    (port : Port) (s : Service) (header : Value) (reason : String)
    → Inert s (reject_binary_response port s header reason)
unfolding reject_binary_response fail_pending
reject-Inert port s header reason = record {
  same_events = ground arith;
  same_subscriptions = ground arith;
  same_session = ground arith;
  same_opened = ground arith;
}

module _ (F : Floats) where
  binary_payload-Inert :
      (port : Port) (s : Service) (frame : BinaryFrame) (header : Value) (bytes : Bytes)
      → Inert s (process_binary_payload F port s frame header bytes).0
  unfolding process_binary_payload
  binary_payload-Inert port s frame header bytes =
      elim (Option-cases (get "data" header then? from_json F)) [
        | inr (metadata, e) ↦
            rw (e, process_binary_payload)
              (lidar_payload-Inert port s (topic_or_type_of header) header bytes)
        | inl e ↦ elim (Bool-cases (has_lidar_intent frame header)) [
          | inl f ↦
              rw (e, f, process_binary_payload)
                (reject-Inert port s header "Invalid LiDAR metadata")
          | inr f ↦
              rw (e, f, process_binary_payload)
                (plain_payload-Inert port s (topic_or_type_of header) header bytes)
        ]
      ]

  pub deal_array_buffer-Inert :
      (port : Port) (s : Service) (buffer : Bytes) → Inert s (deal_array_buffer F port s buffer).0
  unfolding deal_array_buffer
  deal_array_buffer-Inert port s buffer = elim (Bool-cases (ltb max_binary_bytes (length buffer))) [
    | inl e ↦ rw (e, deal_array_buffer) inert
    | inr e ↦ elim (Result-cases (Framing.parse port.read_json buffer)) [
      | inr (reason, f) ↦ rw (e, f, deal_array_buffer) inert
      | inl ((frame, header, payload), f) ↦
          rw (e, f, deal_array_buffer) (binary_payload-Inert port s frame header payload)
    ]
  ]
