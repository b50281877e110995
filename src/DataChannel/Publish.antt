-- ===== src/DataChannel/Publish.antt =====
-- A request from its registration to its answer.
use unitree_webrtc_rs.Base.Dict.{Dict, lookup, insert, remove, lookup-insert_self, remove-insert}
use unitree_webrtc_rs.Base.{
  ℕ, ◌≡◌, ◌≢◌, ◌<◌, refl, sym, subst, ap, ◌∙◌, inl, inr, true, Option, none, some, List, [], ◌∷◌,
  String, Result, ok, err, Bool-cases, Option-cases, Result-cases, ◌==◌, leb, length, arith,
}
use unitree_webrtc_rs.DataChannel.Ingress.{
  generate_message_key, run_resolve, incoming_key, chunk_source,
}
use unitree_webrtc_rs.DataChannel.Pending.{resolve_pending_response, outcome, validate}
use unitree_webrtc_rs.DataChannel.Requests.{
  Waiting, drop_guard, register, sent_or_dropped, begin_publish, end_publish, answer_of,
  max_pending_requests,
}
use unitree_webrtc_rs.DataChannel.Once.{Unanswered, Unanswered-above}
use unitree_webrtc_rs.DataChannel.Sound.{IsSound}
use unitree_webrtc_rs.DataChannel.State.{
  Service, Port, PendingCallback, ResponseExpectation, send_message_locked, is_open_state,
  wire_message,
}
use unitree_webrtc_rs.Json.{Value, get, ◌then?◌}
use unitree_webrtc_rs.Models.{extract_key}

pub remove-absent : (k : String) (m : Dict PendingCallback) → lookup k m ≡ none → remove k m ≡ m
unfolding lookup remove
remove-absent k [] e = refl
remove-absent k ((j, c) ∷ m) e = ground (arith, e, remove-absent k m)

-- The waiting requests of `s'` are those of `s` and the new one, whose message was sent.
pub record Registered (s s' : Service) (key : String) (x : ResponseExpectation) (message : Value)
    (w : Waiting) : Type 0 where
  pub waiting : w ≡ (record { key = key; token = s.next_token })
  pub was_free : lookup key s.pending_callbacks ≡ none
  pub had_room : length s.pending_callbacks < max_pending_requests
  pub entered :
      s'.pending_callbacks
      ≡ insert key
          (record { token = s.next_token; expectation = x; session_id = s.session_id })
          s.pending_callbacks
  pub answers : s'.resolved ≡ s.resolved
  pub session : s'.session_id ≡ s.session_id
  pub message_sent : s'.sent ≡ message ∷ s.sent

-- Nothing waits that did not, and nothing was sent.
pub record Refused (s s' : Service) : Type 0 where
  pub same_pending : s'.pending_callbacks ≡ s.pending_callbacks
  pub same_resolved : s'.resolved ≡ s.resolved
  pub same_sent : s'.sent ≡ s.sent

abbrev pub key_of : Port → String → Option Value → String → String
key_of port topic payload ty =
    generate_message_key ty topic (payload then? extract_key port.show_float)

-- The guard of a request that was just registered takes it back.
drop_guard-register :
    (s : Service) (key : String) (x : ResponseExpectation)
    → lookup key s.pending_callbacks ≡ none
    → Refused s (drop_guard (register s key x) (record { key = key; token = s.next_token }))
unfolding drop_guard register
drop_guard-register s key x e =
    let c : PendingCallback = record {
      token = s.next_token;
      expectation = x;
      session_id = s.session_id;
    } in
    let own : (s.next_token == s.next_token) ≡ true = ground arith in
    rw (lookup-insert_self key c s.pending_callbacks, own, drop_guard)
      (record {
        same_pending =
            remove-insert key c s.pending_callbacks ∙ remove-absent key s.pending_callbacks e;
        same_resolved = refl;
        same_sent = refl;
      })

abbrev pub Begun :
    Service → String → ResponseExpectation → Value → Service × Result Waiting → Type 0
Begun s key x message (s', ok w) = Registered s s' key x message w
Begun s key x message (s', err e) = Refused s s'

send_accepted :
    (port : Port) (s : Service) (topic : String) (payload : Option Value) (ty : String)
    (u : Unit {0})
    → is_open_state port ≡ true
    → port.send_text (wire_message topic ty payload) ≡ ok u
    → send_message_locked port s topic payload ty
      ≡ (record s { sent = wire_message topic ty payload ∷ s.sent }, ok tt)
unfolding send_message_locked
send_accepted port s topic payload ty u e h = rw (e, h, send_message_locked) refl

send_refused :
    (port : Port) (s : Service) (topic : String) (payload : Option Value) (ty reason : String)
    → is_open_state port ≡ true
    → port.send_text (wire_message topic ty payload) ≡ err reason
    → send_message_locked port s topic payload ty ≡ (s, err reason)
unfolding send_message_locked
send_refused port s topic payload ty reason e h = rw (e, h, send_message_locked) refl

sends-Begun :
    (port : Port) (s : Service) (topic : String) (payload : Option Value) (ty : String)
    (x : ResponseExpectation) (key : String)
    → is_open_state port ≡ true
    → lookup key s.pending_callbacks ≡ none
    → length s.pending_callbacks < max_pending_requests
    → Begun s key x (wire_message topic ty payload) (
        sent_or_dropped
          (send_message_locked port (register s key x) topic payload ty)
          (record { key = key; token = s.next_token }))
unfolding sent_or_dropped register
sends-Begun port s topic payload ty x key e f g =
    let t = register s key x in
    let w : Waiting = record { key = key; token = s.next_token } in
    let message = wire_message topic ty payload in
    elim (Result-cases (port.send_text message)) [
      | inl (u, h) ↦
          subst (λ (r : Service × Result (Unit {0})). Begun s key x message (sent_or_dropped r w))
            (sym (send_accepted port t topic payload ty u e h))
            (record {
              waiting = refl;
              was_free = f;
              had_room = g;
              entered = refl;
              answers = refl;
              session = refl;
              message_sent = refl;
            })
      | inr (reason, h) ↦
          subst (λ (r : Service × Result (Unit {0})). Begun s key x message (sent_or_dropped r w))
            (sym (send_refused port t topic payload ty reason e h)) (drop_guard-register s key x f)
    ]

-- A request either registers exactly one entry, under a free key and below the limit of 128, and its
-- message is sent; or it fails, and then the waiting requests, the answers and what was sent are as
-- they were, also when the entry had been made and the transport refused the message.
pub begin_publish-Begun :
    (port : Port) (s : Service) (topic : String) (payload : Option Value) (ty : String)
    (x : ResponseExpectation)
    → Begun s
        (key_of port topic payload ty)
        x
        (wire_message topic ty payload)
        (begin_publish port s topic payload ty x)
unfolding begin_publish
begin_publish-Begun port s topic payload ty x =
    let key = key_of port topic payload ty in
    let same : Refused s s = record {
      same_pending = refl;
      same_resolved = refl;
      same_sent = refl;
    } in
    elim (Bool-cases (is_open_state port)) [
      | inr e ↦ rw (e, begin_publish) same
      | inl e ↦ elim (Option-cases (lookup key s.pending_callbacks)) [
        | inr (c, f) ↦ rw (e, f, begin_publish) same
        | inl f ↦ elim (Bool-cases (leb max_pending_requests (length s.pending_callbacks))) [
          | inl g ↦ rw (e, f, g, begin_publish) same
          | inr g ↦
              rw (e, f, g, begin_publish)
                (sends-Begun port s topic payload ty x key e f (ground (arith, g)))
        ]
      ]
    ]

-- The first answer of a token is the one that counts; a token with none takes the new one.
answer_of-first :
    (t : ℕ) (r : Result Value) (log : List (ℕ × Result Value))
    → Unanswered t log
    → answer_of t ((t, r) ∷ log) ≡ some r
unfolding answer_of
answer_of-first t r log u = ground (arith, answer_of-none t log u)
  where
    answer_of-none :
        (t : ℕ) (log : List (ℕ × Result Value)) → Unanswered t log → answer_of t log ≡ none
    answer_of-none t [] u = refl
    answer_of-none t ((v, r) ∷ log) u = ground (arith, u, answer_of-none t log)

end_publish-answered :
    (s : Service) (w : Waiting) (r : Result Value)
    → answer_of w.token s.resolved ≡ some r
    → lookup w.key s.pending_callbacks ≡ none
    → end_publish s w ≡ (s, r)
unfolding end_publish drop_guard
end_publish-answered s w r e f = rw (e, f, end_publish, drop_guard) refl

run_resolve-whole :
    (port : Port) (s : Service) (m : Value)
    → (get "type" m) ≢ none
    → chunk_source m ≡ none
    → run_resolve port s m ≡ resolve_pending_response s (incoming_key port m) m
unfolding run_resolve
run_resolve-whole port s m typed whole = elim (Option-cases (get "type" m)) [
  | inl e ↦ absurd (typed e)
  | inr (v, e) ↦ rw (e, whole, run_resolve) refl
]

-- The response to a request that waits: a message with a type and no chunk marks, under the request's
-- key. If the state before the request was sound, the request ends with what its expectation says of
-- the message, and the waiting requests are then those from before it.
pub publish-answered :
    (port : Port) (s s' : Service) (key : String) (x : ResponseExpectation) (sent m : Value)
    (w : Waiting)
    → IsSound s
    → Registered s s' key x sent w
    → (get "type" m) ≢ none
    → chunk_source m ≡ none
    → incoming_key port m ≡ key
    → ((end_publish (run_resolve port s' m) w).1 ≡ validate x m)
      × ((end_publish (run_resolve port s' m) w).0.pending_callbacks ≡ s.pending_callbacks)
unfolding resolve_pending_response outcome
publish-answered port s s' key x sent m w v r typed whole named =
    let c : PendingCallback = record {
      token = s.next_token;
      expectation = x;
      session_id = s.session_id;
    } in
    let t : Service = record s' {
      pending_callbacks = remove key s'.pending_callbacks;
      resolved = (s.next_token, validate x m) ∷ s'.resolved;
    } in
    let found : lookup key s'.pending_callbacks ≡ some c =
      ap (lookup key) r.entered ∙ lookup-insert_self key c s.pending_callbacks in
    let current : (s.session_id == s'.session_id) ≡ true = ground (arith, r.session) in
    let resolved : run_resolve port s' m ≡ t =
      run_resolve-whole port s' m typed whole
      ∙ (ap (λ k. resolve_pending_response s' k m) named
          ∙ rw (found, current, resolve_pending_response, outcome) refl) in
    let back : t.pending_callbacks ≡ s.pending_callbacks =
      ap (remove key) r.entered
      ∙ (remove-insert key c s.pending_callbacks
          ∙ remove-absent key s.pending_callbacks r.was_free) in
    let unanswered : Unanswered s.next_token s'.resolved =
      subst (Unanswered s.next_token) (sym r.answers)
        (Unanswered-above s.next_token s.next_token s.resolved v.once (omega arith)) in
    let ended : end_publish t w ≡ (t, validate x m) =
      end_publish-answered t w (validate x m)
        (ap (λ (u : Waiting). answer_of u.token t.resolved) r.waiting
          ∙ answer_of-first s.next_token (validate x m) s'.resolved unanswered)
        (ap (λ (u : Waiting). lookup u.key t.pending_callbacks) r.waiting
          ∙ (ap (lookup key) back ∙ r.was_free)) in
    rw (resolved, ended) (refl, back)
