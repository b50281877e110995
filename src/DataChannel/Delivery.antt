-- ===== src/DataChannel/Delivery.antt =====
-- Progress of each step of an incoming message, up to `process_ingress`.
use unitree_webrtc_rs.Base.{
  refl, inl, inr, Bool, true, false, Option, none, some, List, [], ◌∷◌, String, Bytes, Result, ok,
  err, Option-cases, Bool-cases, arith, ltb, length,
}
use unitree_webrtc_rs.Chunks
use unitree_webrtc_rs.DataChannel.Ingress.{
  ChunkSource, incoming_key, finish_chunk, handle_chunk, run_resolve, chunk_source, should_process,
  dispatch_topic, dispatch_subscription, with_chunks, fail_keys, expire_chunks, set_at,
  bytes_to_json_array, parse_chunk,
}
use unitree_webrtc_rs.DataChannel.Pending.{fail_pending}
use unitree_webrtc_rs.DataChannel.Session.{
  transport_failed, handle_text_response, handle_validation, handle_validation_err,
  handle_rtc_inner_req, send_validation, start_heartbeat_in_session, request_network_status_once,
  stop_probe,
}
use unitree_webrtc_rs.DataChannel.State.{Service, Port, send_message_locked}
use unitree_webrtc_rs.DataChannel.Waiters.{
  Progress, Progress-trans, SameRequests, Same-Progress, fail_pending-Progress, resolve-Progress,
  fail_all-Progress,
}
use unitree_webrtc_rs.Ingress.{max_binary_expansion_bytes}
use unitree_webrtc_rs.Json.{Value, get}

pub unchanged : (s : Service) → SameRequests s s
unchanged s = record { same_pending = refl; same_resolved = refl }

pub send_message_locked-Same :
    (port : Port) (s : Service) (topic : String) (payload : Option Value) (msg_type : String)
    → SameRequests s (send_message_locked port s topic payload msg_type).0
unfolding send_message_locked
send_message_locked-Same port s topic payload msg_type = record {
  same_pending = ground arith;
  same_resolved = ground arith;
}

send_validation-Same :
    (port : Port) (s : Service) (key : String) → SameRequests s (send_validation port s key)
unfolding send_validation send_message_locked
send_validation-Same port s key = record {
  same_pending = ground arith;
  same_resolved = ground arith;
}

handle_validation-Same :
    (port : Port) (s : Service) (m : Value) → SameRequests s (handle_validation port s m)
unfolding handle_validation start_heartbeat_in_session request_network_status_once send_validation
    send_message_locked
handle_validation-Same port s m = record {
  same_pending = ground arith;
  same_resolved = ground arith;
}

handle_validation_err-Same :
    (port : Port) (s : Service) (m : Value) → SameRequests s (handle_validation_err port s m)
unfolding handle_validation_err send_validation send_message_locked
handle_validation_err-Same port s m = record {
  same_pending = ground arith;
  same_resolved = ground arith;
}

stop_probe-Same : (s : Service) (status : Option String) → SameRequests s (stop_probe s status)
stop_probe-Same s status = record { same_pending = ground arith; same_resolved = ground arith }

handle_rtc_inner_req-Same :
    (port : Port) (s : Service) (m : Value) → SameRequests s (handle_rtc_inner_req port s m)
unfolding handle_rtc_inner_req send_message_locked
handle_rtc_inner_req-Same port s m = record {
  same_pending = ground arith;
  same_resolved = ground arith;
}

pub handle_text_response-Same :
    (port : Port) (s : Service) (m : Value) → SameRequests s (handle_text_response port s m)
unfolding handle_text_response
handle_text_response-Same port s m = record {
  same_pending = ground (
    arith,
    handle_validation-Same port s m,
    handle_validation_err-Same port s m,
    handle_rtc_inner_req-Same port s m,
  );
  same_resolved = ground (
    arith,
    handle_validation-Same port s m,
    handle_validation_err-Same port s m,
    handle_rtc_inner_req-Same port s m,
  );
}

pub should_process-Same :
    (port : Port) (s : Service) (t : String) → SameRequests s (should_process port s t).0
unfolding should_process
should_process-Same port s t = record { same_pending = ground arith; same_resolved = ground arith }

dispatch_topic-Same :
    (port : Port) (topic : String) (m : Value) (r : Service × Bool)
    → SameRequests r.0 (dispatch_topic port topic m r)
unfolding dispatch_topic
dispatch_topic-Same port topic m (s, true) = record {
  same_pending = ground arith;
  same_resolved = ground arith;
}
dispatch_topic-Same port topic m (s, false) = unchanged s

pub dispatch_subscription-Same :
    (port : Port) (s : Service) (m : Value) → SameRequests s (dispatch_subscription port s m)
unfolding dispatch_subscription should_process dispatch_topic
dispatch_subscription-Same port s m = record {
  same_pending = ground arith;
  same_resolved = ground arith;
}

fail_keys-Progress : (s : Service) (keys : List String) → Progress s (fail_keys s keys)
unfolding fail_keys
fail_keys-Progress s [] = Same-Progress s s (unchanged s)
fail_keys-Progress s (key ∷ keys) =
    let t = fail_pending s key "Chunk assembly deadline expired" in
    Progress-trans s t (fail_keys t keys)
      (fail_pending-Progress s key "Chunk assembly deadline expired") (fail_keys-Progress t keys)

-- A sweep of the chunks answers the requests that it ends, and loses no other and no answer.
pub expire_chunks-Progress : (port : Port) (s : Service) → Progress s (expire_chunks port s)
unfolding expire_chunks
expire_chunks-Progress port s =
    let t = with_chunks s (Chunks.expire s.chunk_data_storage port.now).0 in
    let keys = (Chunks.expire s.chunk_data_storage port.now).1 in
    Progress-trans s t (fail_keys t keys)
      (Same-Progress s t (record { same_pending = refl; same_resolved = refl }))
      (fail_keys-Progress t keys)

-- Both are about a state that differs from `s` in the chunks only.
moved_chunks-Progress :
    (s t : Service) (a : Chunks.ChunkAssembler) → Progress (with_chunks s a) t → Progress s t
moved_chunks-Progress s t a p =
    Progress-trans s (with_chunks s a) t
      (Same-Progress s (with_chunks s a) (record { same_pending = refl; same_resolved = refl })) p

finish_chunk-Progress :
    (s : Service) (key : String) (source : ChunkSource) (m : Value) (r : Result (Option Bytes))
    → Progress s (finish_chunk s key source m r)
unfolding finish_chunk
finish_chunk-Progress s key source m (ok none) = Same-Progress s s (unchanged s)
finish_chunk-Progress s key source m (ok (some bytes)) =
    elim (Bool-cases (ltb max_binary_expansion_bytes (length bytes))) [
      | inl e ↦
          rw (e, finish_chunk) (fail_pending-Progress s key "Binary JSON expansion exceeds 1 MiB")
      | inr e ↦
          rw (e, finish_chunk)
            (resolve-Progress s key (set_at source.keys (bytes_to_json_array bytes) m))
    ]
finish_chunk-Progress s key source m (err e) =
    moved_chunks-Progress s _ (Chunks.remove s.chunk_data_storage key)
      (fail_pending-Progress (with_chunks s (Chunks.remove s.chunk_data_storage key)) key e)

handle_chunk-Progress :
    (port : Port) (s : Service) (source : ChunkSource) (m : Value)
    → Progress s (handle_chunk port s source m)
unfolding handle_chunk
handle_chunk-Progress port s source m =
    let parsed = parse_chunk port s.chunk_data_storage (incoming_key port m) source in
    moved_chunks-Progress s _ parsed.0
      (finish_chunk-Progress (with_chunks s parsed.0) (incoming_key port m) source m parsed.1)

pub run_resolve-Progress :
    (port : Port) (s : Service) (m : Value) → Progress s (run_resolve port s m)
unfolding run_resolve
run_resolve-Progress port s m = elim (Option-cases (get "type" m)) [
  | inl e ↦ rw (e, run_resolve) (Same-Progress s s (unchanged s))
  | inr (v, e) ↦ elim (Option-cases (chunk_source m)) [
    | inl f ↦ rw (e, f, run_resolve) (resolve-Progress s (incoming_key port m) m)
    | inr (source, f) ↦ rw (e, f, run_resolve) (handle_chunk-Progress port s source m)
  ]
]

pub transport_failed-Progress :
    (s : Service) (error : String) → Progress s (transport_failed s error)
unfolding transport_failed
transport_failed-Progress s error =
    Progress-trans s _ (transport_failed s error)
      (Same-Progress s _ (record { same_pending = refl; same_resolved = refl }))
      (fail_all-Progress _ error)
