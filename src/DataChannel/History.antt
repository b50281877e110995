-- ===== src/DataChannel/History.antt =====
-- Histories: sequences of the service's operations, each under its lock.
use Prim.Native.Nat.{◌-◌}
use unitree_webrtc_rs.Base.Dict.{
  lookup, remove, length-remove-le, remove-HasDistinctKeys, remove-Every,
}
use unitree_webrtc_rs.Base.{
  ℕ, ◌≡◌, ◌<◌, refl, inl, inr, not, ◌&&◌, ◌||◌, Option, List, [], ◌∷◌, String, Result, ok, err,
  Bool-cases, Option-cases, ◌==◌, ltb, leb, length, arith,
}
use unitree_webrtc_rs.Chunks
use unitree_webrtc_rs.Chunks.Invariant.{remove-IsValid, expire-IsValid, empty-IsValid}
use unitree_webrtc_rs.DataChannel.Ingress.{
  with_chunks, fail_keys, expire_chunks, generate_message_key,
}
use unitree_webrtc_rs.DataChannel.Once.{remove-TokensDistinct, Unanswered}
use unitree_webrtc_rs.DataChannel.Pending.{fail_pending, fail_all_pending}
use unitree_webrtc_rs.DataChannel.Reach.{process_ingress-IsSound}
use unitree_webrtc_rs.DataChannel.Requests.{
  Waiting, drop_guard, register, sent_or_dropped, begin_publish, end_publish, answer_of, subscribe,
  unsubscribe, max_pending_requests, publish_without_callback,
}
use unitree_webrtc_rs.DataChannel.Router.{process_ingress}
use unitree_webrtc_rs.DataChannel.Session.{
  new, start_new_session, stop_background_tasks, heartbeat_round,
}
use unitree_webrtc_rs.DataChannel.Sound.{
  IsSound, Beside-IsSound, with_chunks-IsSound, fail_pending-IsSound, failed-IsSound,
  registered-IsSound,
}
use unitree_webrtc_rs.DataChannel.State.{
  Service, Port, ResponseExpectation, send_message_locked, is_open_state,
}
use unitree_webrtc_rs.DataChannel.Steady.{send-Beside}
use unitree_webrtc_rs.Json.{Value, ◌then?◌}
use unitree_webrtc_rs.Lidar.Metadata.{Floats}
use unitree_webrtc_rs.Models.{IngressMessage, extract_key}

new-IsSound : (session sequence : ℕ) → IsSound (new session sequence)
new-IsSound session sequence = record {
  few = omega arith;
  keys = tt;
  tokens = tt;
  waits = tt;
  once = tt;
  chunks = empty-IsValid;
}

dropped-IsSound :
    (s : Service) (key : String)
    → IsSound s
    → IsSound (record s {
      pending_callbacks = remove key s.pending_callbacks;
      chunk_data_storage = Chunks.remove s.chunk_data_storage key;
    })
dropped-IsSound s key v = record {
  few = omega (arith, length-remove-le key s.pending_callbacks, v.few);
  keys = remove-HasDistinctKeys key s.pending_callbacks v.keys;
  tokens = remove-TokensDistinct key s.pending_callbacks v.tokens;
  waits =
      remove-Every
        (λ _ d.
          (d.token < s.next_token) × (d.session_id ≡ s.session_id) × Unanswered d.token s.resolved)
        key s.pending_callbacks v.waits;
  once = v.once;
  chunks = remove-IsValid s.chunk_data_storage key v.chunks;
}

drop_guard-IsSound : (s : Service) (w : Waiting) → IsSound s → IsSound (drop_guard s w)
unfolding drop_guard
drop_guard-IsSound s w v = elim (Option-cases (lookup w.key s.pending_callbacks)) [
  | inl e ↦ rw (e, drop_guard) v
  | inr (c, e) ↦ elim (Bool-cases (c.token == w.token)) [
    | inl f ↦ rw (e, f, drop_guard) (dropped-IsSound s w.key v)
    | inr f ↦ rw (e, f, drop_guard) v
  ]
]

end_publish-IsSound : (s : Service) (w : Waiting) → IsSound s → IsSound (end_publish s w).0
unfolding end_publish
end_publish-IsSound s w v = elim (Option-cases (answer_of w.token s.resolved)) [
  | inl e ↦ rw (e, end_publish) (drop_guard-IsSound s w v)
  | inr (r, e) ↦ rw (e, end_publish) (drop_guard-IsSound s w v)
]

sent_or_dropped-IsSound :
    (s : Service) (r : Result (Unit {0})) (w : Waiting)
    → IsSound s
    → IsSound (sent_or_dropped (s, r) w).0
unfolding sent_or_dropped
sent_or_dropped-IsSound s (ok u) w v = v
sent_or_dropped-IsSound s (err e) w v = drop_guard-IsSound s w v

begin_publish-IsSound :
    (port : Port) (s : Service) (topic : String) (payload : Option Value) (ty : String)
    (x : ResponseExpectation)
    → IsSound s
    → IsSound (begin_publish port s topic payload ty x).0
unfolding begin_publish register
begin_publish-IsSound port s topic payload ty x v =
    let key = generate_message_key ty topic (payload then? extract_key port.show_float) in
    let t = register s key x in
    elim (Bool-cases (is_open_state port)) [
      | inr e ↦ rw (e, begin_publish) v
      | inl e ↦ elim (Option-cases (lookup key s.pending_callbacks)) [
        | inr (c, f) ↦ rw (e, f, begin_publish) v
        | inl f ↦ elim (Bool-cases (leb max_pending_requests (length s.pending_callbacks))) [
          | inl g ↦ rw (e, f, g, begin_publish) v
          | inr g ↦
              rw (e, f, g, begin_publish)
                (sent_or_dropped-IsSound (send_message_locked port t topic payload ty).0
                  (send_message_locked port t topic payload ty).1 _
                  (Beside-IsSound t (send_message_locked port t topic payload ty).0
                    (send-Beside port t topic payload ty)
                    (registered-IsSound s key _ f (ground (arith, g)) refl refl v)))
        ]
      ]
    ]

fail_keys-IsSound : (s : Service) (keys : List String) → IsSound s → IsSound (fail_keys s keys)
unfolding fail_keys
fail_keys-IsSound s [] v = v
fail_keys-IsSound s (key ∷ keys) v =
    fail_keys-IsSound (fail_pending s key "Chunk assembly deadline expired") keys
      (fail_pending-IsSound s key "Chunk assembly deadline expired" v)

expire_chunks-IsSound : (port : Port) (s : Service) → IsSound s → IsSound (expire_chunks port s)
unfolding expire_chunks
expire_chunks-IsSound port s v =
    let (a, keys) = Chunks.expire s.chunk_data_storage port.now in
    fail_keys-IsSound (with_chunks s a) keys
      (with_chunks-IsSound s a (expire-IsValid s.chunk_data_storage port.now v.chunks) v)

subscribe-IsSound :
    (port : Port) (s : Service) (topic : String)
    → IsSound s
    → IsSound (subscribe port s topic).0 × IsSound (unsubscribe port s topic).0
unfolding subscribe unsubscribe send_message_locked
subscribe-IsSound port s topic v = (
  Beside-IsSound s _
      (record {
        same_pending = ground arith;
        same_resolved = ground arith;
        same_session = ground arith;
        next_le = ground arith;
        same_chunks = ground arith;
      })
      v,
  Beside-IsSound s _
      (record {
        same_pending = ground arith;
        same_resolved = ground arith;
        same_session = ground arith;
        next_le = ground arith;
        same_chunks = ground arith;
      })
      v,
)

new_session-IsSound :
    (s : Service) → IsSound s → IsSound (start_new_session s) × IsSound (stop_background_tasks s)
unfolding start_new_session stop_background_tasks fail_all_pending Chunks.clear
new_session-IsSound s v = (
  failed-IsSound s _ "DataChannel session reset" refl refl refl empty-IsValid v,
  failed-IsSound s _ "DataChannel session reset" refl refl refl empty-IsValid v,
)

heartbeat_round-IsSound :
    (port : Port) (epoch : ℕ) (s : Service) → IsSound s → IsSound (heartbeat_round port epoch s).0
unfolding heartbeat_round fail_all_pending Chunks.clear
heartbeat_round-IsSound port epoch s v =
    elim (Bool-cases (not s.heartbeat_running || not (s.session_id == epoch))) [
      | inl e ↦ rw (e, heartbeat_round) v
      | inr e ↦
          elim (Bool-cases (
            ltb 0 s.heartbeat_last_response && ltb 6 (port.now_secs - s.heartbeat_last_response))) [
              | inl f ↦
                  rw (e, f, heartbeat_round)
                    (failed-IsSound s _ "Heartbeat timeout" refl refl refl empty-IsValid v)
              | inr f ↦ elim (Bool-cases (is_open_state port)) [
                | inl g ↦
                    rw (e, f, g, heartbeat_round)
                      (Beside-IsSound s _ (send-Beside port s "" _ "heartbeat") v)
                | inr g ↦ rw (e, f, g, heartbeat_round) v
              ]
            ]
    ]

-- One operation of the service, with the answers of its surroundings.
pub data Step (F : Floats) : Service → Service → Type 0 where
  message : (port : Port) (s : Service) (m : IngressMessage) → Step F s (process_ingress F port s m)
  sweep : (port : Port) (s : Service) → Step F s (expire_chunks port s)
  publish_starts :
      (port : Port) (s : Service) (topic : String) (payload : Option Value) (ty : String)
      (x : ResponseExpectation)
      → Step F s (begin_publish port s topic payload ty x).0
  publish_ends : (s : Service) (w : Waiting) → Step F s (end_publish s w).0
  sends :
      (port : Port) (s : Service) (topic : String) (payload : Option Value) (ty : String)
      → Step F s (publish_without_callback port s topic payload ty).0
  subscribes : (port : Port) (s : Service) (topic : String) → Step F s (subscribe port s topic).0
  unsubscribes :
      (port : Port) (s : Service) (topic : String) → Step F s (unsubscribe port s topic).0
  session_starts : (s : Service) → Step F s (start_new_session s)
  session_stops : (s : Service) → Step F s (stop_background_tasks s)
  beats : (port : Port) (epoch : ℕ) (s : Service) → Step F s (heartbeat_round port epoch s).0

-- What a new service can become.
pub data Reachable (F : Floats) : Service → Type 0 where
  starts : (session sequence : ℕ) → Reachable F (new session sequence)
  goes : (s s' : Service) → Reachable F s → Step F s s' → Reachable F s'

Step-IsSound : (F : Floats) (s s' : Service) → Step F s s' → IsSound s → IsSound s'
unfolding publish_without_callback
Step-IsSound F s s' (message port _ m) v = process_ingress-IsSound F port s m v
Step-IsSound F s s' (sweep port _) v = expire_chunks-IsSound port s v
Step-IsSound F s s' (publish_starts port _ topic payload ty x) v =
    begin_publish-IsSound port s topic payload ty x v
Step-IsSound F s s' (publish_ends _ w) v = end_publish-IsSound s w v
Step-IsSound F s s' (sends port _ topic payload ty) v =
    Beside-IsSound s _ (send-Beside port s topic payload ty) v
Step-IsSound F s s' (subscribes port _ topic) v = (subscribe-IsSound port s topic v).0
Step-IsSound F s s' (unsubscribes port _ topic) v = (subscribe-IsSound port s topic v).1
Step-IsSound F s s' (session_starts _) v = (new_session-IsSound s v).0
Step-IsSound F s s' (session_stops _) v = (new_session-IsSound s v).1
Step-IsSound F s s' (beats port epoch _) v = heartbeat_round-IsSound port epoch s v

-- In every state that a service comes to, by messages, sweeps, requests and their ends, messages
-- sent, subscriptions, new sessions, stops and heartbeat rounds in any order, at most 128 requests
-- wait, under distinct keys, for the current session; none of them was answered and no request was
-- answered twice; and the half assembled chunks are within their budgets.
pub Reachable-IsSound : (F : Floats) (s : Service) → Reachable F s → IsSound s
Reachable-IsSound F s (starts session sequence) = new-IsSound session sequence
Reachable-IsSound F s (goes s0 _ r step) = Step-IsSound F s0 s step (Reachable-IsSound F s0 r)
