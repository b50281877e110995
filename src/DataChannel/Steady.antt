-- ===== src/DataChannel/Steady.antt =====
-- Each step of an incoming message keeps the service sound.
use unitree_webrtc_rs.Base.{
  refl, inl, inr, Option, none, some, String, Bytes, Result, ok, err, Bool-cases, Option-cases,
  Result-cases, ltb, length, arith,
}
use unitree_webrtc_rs.Chunks
use unitree_webrtc_rs.Chunks.Invariant.{IsValid, insert-IsValid, remove-IsValid}
use unitree_webrtc_rs.DataChannel.Ingress.{
  ChunkSource, incoming_key, read_chunk, parse_chunk, finish_chunk, handle_chunk, run_resolve,
  chunk_source, should_process, dispatch_topic, dispatch_subscription, with_chunks, set_at,
  bytes_to_json_array,
}
use unitree_webrtc_rs.DataChannel.Router.{reject_binary_response, submit_lidar}
use unitree_webrtc_rs.DataChannel.Session.{
  handle_text_response, handle_validation, handle_validation_err, handle_rtc_inner_req,
  start_heartbeat_in_session, request_network_status_once, send_validation,
}
use unitree_webrtc_rs.DataChannel.Sound.{
  IsSound, Beside, Beside-IsSound, with_chunks-IsSound, fail_pending-IsSound, resolve-IsSound,
}
use unitree_webrtc_rs.DataChannel.State.{Service, Port, LidarRequest, send_message_locked}
use unitree_webrtc_rs.Ingress.{max_binary_expansion_bytes}
use unitree_webrtc_rs.Json.{Value, get}

pub send-Beside :
    (port : Port) (s : Service) (topic : String) (payload : Option Value) (msg_type : String)
    → Beside s (send_message_locked port s topic payload msg_type).0
unfolding send_message_locked
send-Beside port s topic payload msg_type = record {
  same_pending = ground arith;
  same_resolved = ground arith;
  same_session = ground arith;
  next_le = ground arith;
  same_chunks = ground arith;
}

validation-Beside : (port : Port) (s : Service) (m : Value) → Beside s (handle_validation port s m)
unfolding handle_validation start_heartbeat_in_session request_network_status_once send_validation
    send_message_locked
validation-Beside port s m = record {
  same_pending = ground arith;
  same_resolved = ground arith;
  same_session = ground arith;
  next_le = ground arith;
  same_chunks = ground arith;
}

validation_err-Beside :
    (port : Port) (s : Service) (m : Value) → Beside s (handle_validation_err port s m)
unfolding handle_validation_err send_validation send_message_locked
validation_err-Beside port s m = record {
  same_pending = ground arith;
  same_resolved = ground arith;
  same_session = ground arith;
  next_le = ground arith;
  same_chunks = ground arith;
}

rtc_inner_req-Beside :
    (port : Port) (s : Service) (m : Value) → Beside s (handle_rtc_inner_req port s m)
unfolding handle_rtc_inner_req send_message_locked
rtc_inner_req-Beside port s m = record {
  same_pending = ground arith;
  same_resolved = ground arith;
  same_session = ground arith;
  next_le = ground arith;
  same_chunks = ground arith;
}

pub text_response-Beside :
    (port : Port) (s : Service) (m : Value) → Beside s (handle_text_response port s m)
unfolding handle_text_response
text_response-Beside port s m =
    let v = validation-Beside port s m in
    let e = validation_err-Beside port s m in
    let r = rtc_inner_req-Beside port s m in
    record {
      same_pending = ground (arith, v.same_pending, e.same_pending, r.same_pending);
      same_resolved = ground (arith, v.same_resolved, e.same_resolved, r.same_resolved);
      same_session = ground (arith, v.same_session, e.same_session, r.same_session);
      next_le = ground (arith, v.next_le, e.next_le, r.next_le);
      same_chunks = ground (arith, v.same_chunks, e.same_chunks, r.same_chunks);
    }

pub should_process-Beside :
    (port : Port) (s : Service) (topic : String) → Beside s (should_process port s topic).0
unfolding should_process
should_process-Beside port s topic = record {
  same_pending = ground arith;
  same_resolved = ground arith;
  same_session = ground arith;
  next_le = ground arith;
  same_chunks = ground arith;
}

pub dispatch-Beside :
    (port : Port) (s : Service) (m : Value) → Beside s (dispatch_subscription port s m)
unfolding dispatch_subscription dispatch_topic should_process
dispatch-Beside port s m = record {
  same_pending = ground arith;
  same_resolved = ground arith;
  same_session = ground arith;
  next_le = ground arith;
  same_chunks = ground arith;
}

parse_chunk-IsValid :
    (port : Port) (a : Chunks.ChunkAssembler) (key : String) (source : ChunkSource)
    → IsValid a
    → IsValid (parse_chunk port a key source).0
unfolding parse_chunk
parse_chunk-IsValid port a key source v = elim (Result-cases (read_chunk port source)) [
  | inr (reason, e) ↦ rw (e, parse_chunk) v
  | inl ((index, total, bytes), e) ↦
      rw (e, parse_chunk) (insert-IsValid a key source.path index total bytes port.now v)
]

finish_chunk-IsSound :
    (s : Service) (key : String) (source : ChunkSource) (m : Value) (r : Result (Option Bytes))
    → IsSound s
    → IsSound (finish_chunk s key source m r)
unfolding finish_chunk
finish_chunk-IsSound s key source m (ok none) v = v
finish_chunk-IsSound s key source m (ok (some bytes)) v =
    elim (Bool-cases (ltb max_binary_expansion_bytes (length bytes))) [
      | inl e ↦
          rw (e, finish_chunk) (fail_pending-IsSound s key "Binary JSON expansion exceeds 1 MiB" v)
      | inr e ↦
          rw (e, finish_chunk)
            (resolve-IsSound s key (set_at source.keys (bytes_to_json_array bytes) m) v)
    ]
finish_chunk-IsSound s key source m (err e) v =
    let a = Chunks.remove s.chunk_data_storage key in
    fail_pending-IsSound (with_chunks s a) key e
      (with_chunks-IsSound s a (remove-IsValid s.chunk_data_storage key v.chunks) v)

handle_chunk-IsSound :
    (port : Port) (s : Service) (source : ChunkSource) (m : Value)
    → IsSound s
    → IsSound (handle_chunk port s source m)
unfolding handle_chunk
handle_chunk-IsSound port s source m v =
    let key = incoming_key port m in
    let parsed = parse_chunk port s.chunk_data_storage key source in
    finish_chunk-IsSound (with_chunks s parsed.0) key source m parsed.1 (
      with_chunks-IsSound s parsed.0
        (parse_chunk-IsValid port s.chunk_data_storage key source v.chunks) v)

pub run_resolve-IsSound :
    (port : Port) (s : Service) (m : Value) → IsSound s → IsSound (run_resolve port s m)
unfolding run_resolve
run_resolve-IsSound port s m v = elim (Option-cases (get "type" m)) [
  | inl e ↦ rw (e, run_resolve) v
  | inr (t, e) ↦ elim (Option-cases (chunk_source m)) [
    | inl f ↦ rw (e, f, run_resolve) (resolve-IsSound s (incoming_key port m) m v)
    | inr (source, f) ↦ rw (e, f, run_resolve) (handle_chunk-IsSound port s source m v)
  ]
]

pub reject-IsSound :
    (port : Port) (s : Service) (m : Value) (reason : String)
    → IsSound s
    → IsSound (reject_binary_response port s m reason)
unfolding reject_binary_response
reject-IsSound port s m reason v =
    let a = Chunks.remove s.chunk_data_storage (incoming_key port m) in
    fail_pending-IsSound (with_chunks s a) (incoming_key port m) reason (
      with_chunks-IsSound s a (remove-IsValid s.chunk_data_storage (incoming_key port m) v.chunks)
        v)

pub submit_lidar-IsSound :
    (port : Port) (s : Service) (header : Value) (request : LidarRequest)
    → IsSound s
    → IsSound (submit_lidar port s header request).0
unfolding submit_lidar
submit_lidar-IsSound port s header request v = elim (Result-cases (port.submit_lidar request)) [
  | inl (u, e) ↦
      rw (e, submit_lidar)
        (Beside-IsSound s _
          (record {
            same_pending = refl;
            same_resolved = refl;
            same_session = refl;
            next_le = omega arith;
            same_chunks = refl;
          })
          v)
  | inr (reason, e) ↦
      rw (e, submit_lidar) (fail_pending-IsSound s (incoming_key port header) reason v)
]
