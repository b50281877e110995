-- ===== src/DataChannel/Front.antt =====
-- What is seen of the channel: when it is open, and what reaches the callback queue.
use unitree_webrtc_rs.Base.{
  ◌≡◌, refl, ◌∙◌, ◌⊎◌, inl, inr, Bool, true, false, ◌∷◌, String, Bytes, Bool-cases, Option-cases,
  Result-cases, ◌==◌, arith,
}
use unitree_webrtc_rs.DataChannel.Inert.{
  Inert, run_resolve-Inert, should_process-Inert, deal_array_buffer-Inert,
}
use unitree_webrtc_rs.DataChannel.Ingress.{
  run_resolve, should_process, dispatch_topic, dispatch_subscription,
}
use unitree_webrtc_rs.DataChannel.Pending.{contains, fail_all_pending}
use unitree_webrtc_rs.DataChannel.Router.{
  deal_array_buffer, process_text, process_binary, process_payload, process_ingress,
}
use unitree_webrtc_rs.DataChannel.Session.{
  handle_text_response, handle_validation, handle_validation_err, handle_rtc_inner_req,
  start_heartbeat_in_session, request_network_status_once, send_validation, transport_failed,
}
use unitree_webrtc_rs.DataChannel.State.{Service, Port, TopicCallback, send_message_locked}
use unitree_webrtc_rs.Ingress.{parse_json}
use unitree_webrtc_rs.Json.{Value, get, as_str, ◌then?◌}
use unitree_webrtc_rs.Lidar.Metadata.{Floats}
use unitree_webrtc_rs.Models.{
  IngressMessage, DcMessage, text, binary, transport_fault, or_default, is_empty,
}

-- The queue, the subscriptions and the session of a step that may open the channel.
record SameFront (s s' : Service) : Type 0 where
  same_events : s'.events ≡ s.events
  same_subscriptions : s'.subscriptions ≡ s.subscriptions
  same_session : s'.session_id ≡ s.session_id

validation-SameFront :
    (port : Port) (s : Service) (m : Value) → SameFront s (handle_validation port s m)
unfolding handle_validation start_heartbeat_in_session request_network_status_once send_validation
    send_message_locked
validation-SameFront port s m = record {
  same_events = ground arith;
  same_subscriptions = ground arith;
  same_session = ground arith;
}

validation_err-SameFront :
    (port : Port) (s : Service) (m : Value) → SameFront s (handle_validation_err port s m)
unfolding handle_validation_err send_validation send_message_locked
validation_err-SameFront port s m = record {
  same_events = ground arith;
  same_subscriptions = ground arith;
  same_session = ground arith;
}

rtc_inner_req-SameFront :
    (port : Port) (s : Service) (m : Value) → SameFront s (handle_rtc_inner_req port s m)
unfolding handle_rtc_inner_req send_message_locked
rtc_inner_req-SameFront port s m = record {
  same_events = ground arith;
  same_subscriptions = ground arith;
  same_session = ground arith;
}

text_response-SameFront :
    (port : Port) (s : Service) (m : Value) → SameFront s (handle_text_response port s m)
unfolding handle_text_response
text_response-SameFront port s m =
    let v = validation-SameFront port s m in
    let e = validation_err-SameFront port s m in
    let r = rtc_inner_req-SameFront port s m in
    record {
      same_events = ground (arith, v.same_events, e.same_events, r.same_events);
      same_subscriptions =
          ground (arith, v.same_subscriptions, e.same_subscriptions, r.same_subscriptions);
      same_session = ground (arith, v.same_session, e.same_session, r.same_session);
    }

-- One subscribed message at most went to the queue, under the session that was current.
abbrev pub Queued : Service → Service → Type 0
Queued s s' =
    (s'.events ≡ s.events)
    ⊎ ((e : TopicCallback) × (s'.events ≡ e ∷ s.events)
        × (contains e.topic s.subscriptions ≡ true)
        × (e.generation ≡ s.session_id))

topic-Queued :
    (port : Port) (topic : String) (m : Value) (s : Service) (process : Bool)
    → Queued s (dispatch_topic port topic m (s, process))
unfolding dispatch_topic
topic-Queued port topic m s false = inl refl
topic-Queued port topic m s true = elim (Bool-cases (contains topic s.subscriptions)) [
  | inr e ↦ rw (e, dispatch_topic) (inl refl)
  | inl e ↦
      let event : TopicCallback = record {
        topic = topic;
        payload = m;
        generation = s.session_id;
      } in
      elim (Bool-cases (port.try_send_event event)) [
        | inr f ↦ rw (e, f, dispatch_topic) (inl refl)
        | inl f ↦ rw (e, f, dispatch_topic) (inr (event, refl, e, refl))
      ]
]

-- `Queued` looks at the queue, the subscriptions and the session only.
Queued-from :
    (s t s' : Service)
    → t.events ≡ s.events
    → t.subscriptions ≡ s.subscriptions
    → t.session_id ≡ s.session_id
    → Queued t s'
    → Queued s s'
Queued-from s t s' e f g (inl h) = inl (h ∙ e)
Queued-from s t s' e f g (inr (event, h, i, j)) =
    inr (event, ground (arith, h, e), ground (arith, i, f), j ∙ g)

Inert-Queued : (s t s' : Service) → Inert s t → Queued t s' → Queued s s'
Inert-Queued s t s' p q = Queued-from s t s' p.same_events p.same_subscriptions p.same_session q

dispatch-Queued :
    (port : Port) (s : Service) (m : Value) → Queued s (dispatch_subscription port s m)
unfolding dispatch_subscription
dispatch-Queued port s m =
    let topic = or_default (get "topic" m then? as_str) in
    elim (Bool-cases (is_empty topic)) [
      | inl e ↦ rw (e, dispatch_subscription) (inl refl)
      | inr e ↦
          rw (e, dispatch_subscription)
            (Inert-Queued s (should_process port s topic).0
              (dispatch_topic port topic m (should_process port s topic))
              (should_process-Inert port s topic)
              (topic-Queued port topic m (should_process port s topic).0
                (should_process port s topic).1))
    ]

module _ (F : Floats) where
  text-Queued : (port : Port) (s : Service) (bytes : Bytes) → Queued s (process_text F port s bytes)
  unfolding process_text
  text-Queued port s bytes = elim (Result-cases (parse_json port.read_json bytes)) [
    | inr (reason, e) ↦ rw (e, process_text) (inl refl)
    | inl (m, e) ↦
        let t = run_resolve port s m in
        let r = text_response-SameFront port t m in
        rw (e, process_text)
          (Inert-Queued s t (dispatch_subscription port (handle_text_response port t m) m)
            (run_resolve-Inert port s m)
            (Queued-from t (handle_text_response port t m)
              (dispatch_subscription port (handle_text_response port t m) m) r.same_events
              r.same_subscriptions r.same_session
              (dispatch-Queued port (handle_text_response port t m) m)))
  ]

  binary-Queued :
      (port : Port) (s : Service) (bytes : Bytes) → Queued s (process_binary F port s bytes)
  unfolding process_binary
  binary-Queued port s bytes =
      let t = (deal_array_buffer F port s bytes).0 in
      elim (Option-cases (deal_array_buffer F port s bytes).1) [
        | inl e ↦ rw (e, process_binary) (inl (deal_array_buffer-Inert F port s bytes).same_events)
        | inr (m, e) ↦
            rw (e, process_binary)
              (Inert-Queued s t (dispatch_subscription port (run_resolve port t m) m)
                (deal_array_buffer-Inert F port s bytes)
                (Inert-Queued t (run_resolve port t m)
                  (dispatch_subscription port (run_resolve port t m) m) (run_resolve-Inert port t m)
                  (dispatch-Queued port (run_resolve port t m) m)))
      ]

  -- A message puts at most one event into the callback queue: its topic is subscribed, and it carries
  -- the session that is current, which is the one the message was sent in.
  pub process_ingress-Queued :
      (port : Port) (s : Service) (m : IngressMessage)
      → ((process_ingress F port s m).events ≡ s.events)
        ⊎ ((e : TopicCallback) × ((process_ingress F port s m).events ≡ e ∷ s.events)
            × (contains e.topic s.subscriptions ≡ true)
            × (e.generation ≡ s.session_id)
            × (m.generation ≡ s.session_id))
  unfolding process_ingress process_payload transport_failed fail_all_pending
  process_ingress-Queued port s m = elim (Bool-cases (m.generation == s.session_id)) [
    | inr e ↦ rw (e, process_ingress) (inl refl)
    | inl e ↦
        rw (e, process_ingress)
          (elim (taken m.payload) [
            | inl h ↦ inl h
            | inr (event, h, i, j) ↦ inr (event, h, i, j, ground (arith, e))
          ])
  ]
    where
      taken : (p : DcMessage) → Queued s (process_payload F port s p)
      taken (transport_fault error) = inl refl
      taken (text bytes) = text-Queued port s bytes
      taken (binary bytes) = binary-Queued port s bytes
