-- ===== src/DataChannel/Requests.antt =====
-- Outgoing requests: registration, the guard that takes a request back, and subscriptions.
use Prim.Native.Nat.{◌+◌, ◌%◌, ◌^◌, ◌-◌}
use package.text.Mathlib.Text.{◌==◌ as str_eq}
use unitree_webrtc_rs.Base.Dict.{lookup, insert, remove}
use unitree_webrtc_rs.Base.{
  ℕ, Bool, true, false, not, ◌&&◌, Option, none, some, List, [], ◌∷◌, String, Result, ok, err, leb,
  ◌==◌, if◌then◌else◌, length,
}
use unitree_webrtc_rs.Chunks
use unitree_webrtc_rs.DataChannel.Ingress.{generate_message_key}
use unitree_webrtc_rs.DataChannel.Pending.{contains}
use unitree_webrtc_rs.DataChannel.State.{
  Service, Port, PendingCallback, ResponseExpectation, send_message_locked, is_open_state,
}
use unitree_webrtc_rs.Json.{Value, ◌then?◌}
use unitree_webrtc_rs.Models.{extract_key}

abbrev pub max_pending_requests : ℕ
max_pending_requests = 128

abbrev pub has_key : Option PendingCallback → Bool
has_key none = false
has_key (some c) = true

-- A request that waits: what its `PendingRequestGuard` and its receiver hold.
pub record Waiting : Type 0 where
  pub key : String
  pub token : ℕ

-- `Drop for PendingRequestGuard`: the entry goes only if it is still this request's own.
unfoldable pub drop_guard : Service → Waiting → Service
drop_guard s w = elim (lookup w.key s.pending_callbacks) [
  | none ↦ s
  | some c ↦
      if c.token == w.token
      then record s {
        pending_callbacks = remove w.key s.pending_callbacks;
        chunk_data_storage = Chunks.remove s.chunk_data_storage w.key;
      }
      else s
]

-- The entry is made before the message is sent.
unfoldable pub register : Service → String → ResponseExpectation → Service
register s key expectation = record s {
  pending_callbacks =
      insert key
        (record { token = s.next_token; expectation = expectation; session_id = s.session_id })
        s.pending_callbacks;
  next_token = s.next_token + 1;
}

-- `?` behind the send: an error drops the guard.
unfoldable pub sent_or_dropped : Service × Result (Unit {0}) → Waiting → Service × Result Waiting
sent_or_dropped (s, ok _) w = (s, ok w)
sent_or_dropped (s, err e) w = (drop_guard s w, err e)

-- `publish_with_expectation` up to the wait for the answer, which is `answer_of` later on.
unfoldable pub begin_publish :
    Port → Service → String → Option Value → String → ResponseExpectation → Service × Result Waiting
begin_publish port s topic payload effective_type expectation =
    let key =
      generate_message_key effective_type topic (payload then? extract_key port.show_float) in
    if not (is_open_state port)
    then (s, err "Data channel is not open")
    else if has_key (lookup key s.pending_callbacks)
    then (s, err "Duplicate in-flight request key")
    else if leb max_pending_requests (length s.pending_callbacks)
    then (s, err "DataChannel in-flight request limit reached")
    else sent_or_dropped
        (send_message_locked port (register s key expectation) topic payload effective_type)
        (record { key = key; token = s.next_token })

-- What the receiver of a request gets: the first value sent to its token.
unfoldable pub answer_of : ℕ → List (ℕ × Result Value) → Option (Result Value)
answer_of token [] = none
answer_of token ((t, r) ∷ log) = elim (answer_of token log) [
  | some earlier ↦ some earlier
  | none ↦ if t == token then some r else none
]

-- The end of `publish_with_expectation`: the answer or the timeout, and the guard is dropped.
unfoldable pub end_publish : Service → Waiting → Service × Result Value
end_publish s w = elim (answer_of w.token s.resolved) [
  | some r ↦ (drop_guard s w, r)
  | none ↦ (drop_guard s w, err "Publish timeout")
]

-- `generated_identity_id`: the sequence wraps at 64 bits, the ids run from 1 to `i32::MAX`.
unfoldable pub generated_identity_id : Service → Service × ℕ
generated_identity_id s = (
  record s { request_sequence = (s.request_sequence + 1) % 2 ^ 64 },
  s.request_sequence % (2 ^ 31 - 1) + 1,
)

abbrev pub add_topic : String → List String → List String
add_topic topic topics = if contains topic topics then topics else topic ∷ topics

unfoldable pub remove_topic : String → List String → List String
remove_topic topic [] = []
remove_topic topic (t ∷ ts) =
    let rest = remove_topic topic ts in if str_eq t topic then rest else t ∷ rest

unfoldable pub subscribe : Port → Service → String → Service × Result (Unit {0})
subscribe port s topic =
    let (s', sent) = send_message_locked port s topic none "subscribe" in
    elim sent [
      | ok u ↦ (record s' { subscriptions = add_topic topic s'.subscriptions }, ok u)
      | err e ↦ (s', err e)
    ]

unfoldable pub unsubscribe : Port → Service → String → Service × Result (Unit {0})
unsubscribe port s topic =
    let (s', sent) = send_message_locked port s topic none "unsubscribe" in
    elim sent [
      | ok u ↦ (record s' { subscriptions = remove_topic topic s'.subscriptions }, ok u)
      | err e ↦ (s', err e)
    ]

unfoldable pub publish_without_callback :
    Port → Service → String → Option Value → String → Service × Result (Unit {0})
publish_without_callback port s topic payload effective_type =
    send_message_locked port s topic payload effective_type

unfoldable pub set_decoder : Service → String → Service × Result (Unit {0})
set_decoder s decoder_type =
    if str_eq decoder_type "libvoxel"
    then (s, err "The 'libvoxel' decoder is not supported in the Rust backend. Use 'native'.")
    else if not (str_eq decoder_type "native")
    then (s, err "Invalid decoder type. Choose 'native'.")
    else (record s { decoder_type = decoder_type }, ok tt)

abbrev pub is_open : Port → Service → Bool
is_open port s = is_open_state port && s.data_channel_opened
