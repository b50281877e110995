-- ===== src/DataChannel/Pending.antt =====
-- The waiting requests: how each is answered, once.
use Prim.Native.String.{◌++◌ as append}
use Prim.Native.String.{String}
use text.Mathlib.Text.{◌==◌ as str_eq}
use unitree_webrtc_rs.Base.Dict.{Dict, lookup, remove}
use unitree_webrtc_rs.Base.{
  ℕ, Bool, false, not, ◌||◌, Option, none, some, List, [], ◌∷◌, Result, ok, err, ◌>>◌, refuse_if,
  if◌then◌else◌, ◌==◌,
}
use unitree_webrtc_rs.DataChannel.State.{Service, PendingCallback, ResponseExpectation}
use unitree_webrtc_rs.Json.{Value, Number, get, as_str, as_i64, number_eq, ◌then?◌}
use unitree_webrtc_rs.Models.{or_default, descend}

-- `str::strip_suffix`
unfoldable pub strip_suffix : String → String → Option String
strip_suffix suffix String.[] = if str_eq String.[] suffix then some String.[] else none
strip_suffix suffix (String.◌∷◌ c s) =
    let rest = strip_suffix suffix s in
    if str_eq (String.◌∷◌ c s) suffix
    then some String.[]
    else (rest then? λ front. some (String.◌∷◌ c front))

abbrev pub or_self : Option String → String → String
or_self none s = s
or_self (some t) s = t

pub expected_response_topic : String → String
unfolding strip_suffix
expected_response_topic request_topic =
    or_self (strip_suffix "/request" request_topic then? λ front. some (append front "/response"))
      request_topic

abbrev pub any_topic : ResponseExpectation
any_topic = record { topics = none; api_id = none }

pub for_api_request : String → Number → ResponseExpectation
unfolding expected_response_topic
for_api_request request_topic api_id =
    let response_topic = expected_response_topic request_topic in
    record {
      topics = some (
          request_topic
          ∷ (if not (str_eq response_topic request_topic) then response_topic ∷ [] else []));
      api_id = some api_id;
    }

abbrev pub contains : String → List String → Bool
contains t [] = false
contains t (u ∷ us) = str_eq u t || contains t us

abbrev pub topic_mismatch : Option (List String) → Value → Bool
topic_mismatch none message = false
topic_mismatch (some expected) message =
    not (contains (or_default (get "topic" message then? as_str)) expected)

abbrev pub is_number : Option Number → Number → Bool
is_number none n = false
is_number (some m) n = number_eq m n

pub actual_api_id : Value → Option Number
unfolding descend
actual_api_id message =
    descend message ("data" ∷ "header" ∷ "identity" ∷ "api_id" ∷ []) then? as_i64

abbrev pub api_mismatch : Option Number → Value → Bool
api_mismatch none message = false
api_mismatch (some expected) message = not (is_number (actual_api_id message) expected)

-- The message, or the error: of the second error's text only the fixed part is kept.
unfoldable pub validate : ResponseExpectation → Value → Result Value
validate e message = do
  refuse_if (topic_mismatch e.topics message) "Response topic mismatch"
  refuse_if (api_mismatch e.api_id message) "Response api_id mismatch"
  ok message

-- A value on the one-shot channel of a request.
abbrev pub answer : Service → ℕ → Result Value → Service
answer s token r = record s { resolved = (token, r) ∷ s.resolved }

unfoldable pub fail_pending : Service → String → String → Service
fail_pending s key error = elim (lookup key s.pending_callbacks) [
  | none ↦ s
  | some c ↦ record s {
    pending_callbacks = remove key s.pending_callbacks;
    resolved = (c.token, err error) ∷ s.resolved;
  }
]

-- What is sent to a request that waits under the key of a message.
unfoldable pub outcome : ℕ → PendingCallback → Value → Result Value
unfolding validate
outcome current c message =
    if not (c.session_id == current)
    then err "Response belongs to a stale DataChannel session"
    else validate c.expectation message

unfoldable pub resolve_pending_response : Service → String → Value → Service
resolve_pending_response s key message = elim (lookup key s.pending_callbacks) [
  | none ↦ s
  | some c ↦ record s {
    pending_callbacks = remove key s.pending_callbacks;
    resolved = (c.token, outcome s.session_id c message) ∷ s.resolved;
  }
]

unfoldable pub fail_each :
    String → Dict PendingCallback → List (ℕ × Result Value) → List (ℕ × Result Value)
fail_each reason [] log = log
fail_each reason ((k, c) ∷ m) log = (c.token, err reason) ∷ fail_each reason m log

unfoldable pub fail_all_pending : Service → String → Service
unfolding fail_each
fail_all_pending s reason = record s {
  pending_callbacks = [];
  resolved = fail_each reason s.pending_callbacks s.resolved;
}
