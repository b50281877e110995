-- ===== src/DataChannel/Sound.antt =====
-- The invariant of the service, and the steps on the waiting requests that keep it.
use Prim.Native.Nat.{◌+◌}
use unitree_webrtc_rs.Base.Dict.{
  lookup, insert, remove, HasDistinctKeys, length-insert, length-remove-le, insert-HasDistinctKeys,
  remove-HasDistinctKeys, insert-Every, remove-Every, lookup-Every,
}
use unitree_webrtc_rs.Base.{
  ◌≡◌, ◌<◌, ◌≤◌, inl, inr, none, some, [], ◌∷◌, String, Result, err, Option-cases, length, arith,
}
use unitree_webrtc_rs.Chunks
use unitree_webrtc_rs.Chunks.Invariant
use unitree_webrtc_rs.DataChannel.Once.{
  Once, Waits, TokensDistinct, Unanswered, Once-le, Waits-le, Waits-answer, NoToken-remove,
  NoToken-above, Unanswered-above, remove-TokensDistinct, insert-TokensDistinct, Once-fail_each,
}
use unitree_webrtc_rs.DataChannel.Pending.{
  fail_pending, resolve_pending_response, fail_each, outcome,
}
use unitree_webrtc_rs.DataChannel.Requests.{max_pending_requests}
use unitree_webrtc_rs.DataChannel.State.{Service, PendingCallback}
use unitree_webrtc_rs.Json.{Value}

-- At most 128 requests wait, under distinct keys and tokens; none of them was answered; each belongs to
-- the current session; no token was answered twice; and the chunks are within their budgets.
pub record IsSound (s : Service) : Type 0 where
  pub few : length s.pending_callbacks ≤ max_pending_requests
  pub keys : HasDistinctKeys s.pending_callbacks
  pub tokens : TokensDistinct s.pending_callbacks
  pub waits : Waits s.next_token s.session_id s.resolved s.pending_callbacks
  pub once : Once s.next_token s.resolved
  pub chunks : Chunks.Invariant.IsValid s.chunk_data_storage

-- A step beside the requests.
pub record Beside (s s' : Service) : Type 0 where
  pub same_pending : s'.pending_callbacks ≡ s.pending_callbacks
  pub same_resolved : s'.resolved ≡ s.resolved
  pub same_session : s'.session_id ≡ s.session_id
  pub next_le : s.next_token ≤ s'.next_token
  pub same_chunks : s'.chunk_data_storage ≡ s.chunk_data_storage

pub Beside-IsSound : (s s' : Service) → Beside s s' → IsSound s → IsSound s'
Beside-IsSound s s' b v =
    let waits =
      Waits-le s.next_token s'.next_token s.session_id s.resolved s.pending_callbacks b.next_le
        v.waits in
    let once = Once-le s.next_token s'.next_token s.resolved b.next_le v.once in
    record {
      few = rw b.same_pending v.few;
      keys = rw b.same_pending v.keys;
      tokens = rw b.same_pending v.tokens;
      waits = rw (b.same_pending, b.same_resolved, b.same_session) waits;
      once = rw b.same_resolved once;
      chunks = rw b.same_chunks v.chunks;
    }

pub with_chunks-IsSound :
    (s : Service) (a : Chunks.ChunkAssembler)
    → Chunks.Invariant.IsValid a
    → IsSound s
    → IsSound (record s { chunk_data_storage = a })
with_chunks-IsSound s a h v = record {
  few = v.few;
  keys = v.keys;
  tokens = v.tokens;
  waits = v.waits;
  once = v.once;
  chunks = h;
}

-- One entry is taken out and answered.
answered-IsSound :
    (s : Service) (key : String) (c : PendingCallback) (r : Result Value)
    → lookup key s.pending_callbacks ≡ some c
    → IsSound s
    → IsSound (record s {
      pending_callbacks = remove key s.pending_callbacks;
      resolved = (c.token, r) ∷ s.resolved;
    })
answered-IsSound s key c r e v =
    let own =
      lookup-Every
        (λ _ d.
          (d.token < s.next_token) × (d.session_id ≡ s.session_id) × Unanswered d.token s.resolved)
        key s.pending_callbacks c v.waits e in
    record {
      few = omega (arith, length-remove-le key s.pending_callbacks, v.few);
      keys = remove-HasDistinctKeys key s.pending_callbacks v.keys;
      tokens = remove-TokensDistinct key s.pending_callbacks v.tokens;
      waits =
          Waits-answer s.next_token s.session_id s.resolved c.token r
            (remove key s.pending_callbacks)
            (remove-Every
              (λ _ d.
                (d.token < s.next_token)
                × (d.session_id ≡ s.session_id)
                × Unanswered d.token s.resolved)
              key s.pending_callbacks v.waits)
            (NoToken-remove key c s.pending_callbacks v.tokens e);
      once = (own.0, own.2, v.once);
      chunks = v.chunks;
    }

pub fail_pending-IsSound :
    (s : Service) (key error : String) → IsSound s → IsSound (fail_pending s key error)
unfolding fail_pending
fail_pending-IsSound s key error v = elim (Option-cases (lookup key s.pending_callbacks)) [
  | inl e ↦ rw (e, fail_pending) v
  | inr (c, e) ↦ rw (e, fail_pending) (answered-IsSound s key c (err error) e v)
]

pub resolve-IsSound :
    (s : Service) (key : String) (m : Value)
    → IsSound s
    → IsSound (resolve_pending_response s key m)
unfolding resolve_pending_response
resolve-IsSound s key m v = elim (Option-cases (lookup key s.pending_callbacks)) [
  | inl e ↦ rw (e, resolve_pending_response) v
  | inr (c, e) ↦
      rw (e, resolve_pending_response) (answered-IsSound s key c (outcome s.session_id c m) e v)
]

-- All entries are failed; the session may change then.
pub failed-IsSound :
    (s s' : Service) (reason : String)
    → s'.pending_callbacks ≡ []
    → s'.resolved ≡ fail_each reason s.pending_callbacks s.resolved
    → s'.next_token ≡ s.next_token
    → Chunks.Invariant.IsValid s'.chunk_data_storage
    → IsSound s
    → IsSound s'
failed-IsSound s s' reason e f g h v =
    let once =
      Once-fail_each reason s.next_token s.session_id s.pending_callbacks s.resolved v.waits
        v.tokens v.once in
    record {
      few = rw e (omega arith);
      keys = rw e tt;
      tokens = rw e tt;
      waits = rw e tt;
      once = rw (f, g) once;
      chunks = h;
    }

-- A request is taken in under a free key, with the next token.
pub registered-IsSound :
    (s : Service) (key : String) (c : PendingCallback)
    → lookup key s.pending_callbacks ≡ none
    → length s.pending_callbacks < max_pending_requests
    → c.token ≡ s.next_token
    → c.session_id ≡ s.session_id
    → IsSound s
    → IsSound (record s {
      pending_callbacks = insert key c s.pending_callbacks;
      next_token = s.next_token + 1;
    })
registered-IsSound s key c e h t g v =
    let le : s.next_token ≤ c.token = omega (arith, t) in
    record {
      few = ground (arith, length-insert key c s.pending_callbacks, e, h);
      keys = insert-HasDistinctKeys key c s.pending_callbacks v.keys;
      tokens =
          insert-TokensDistinct key c s.pending_callbacks e
            (NoToken-above s.next_token s.session_id c.token s.resolved s.pending_callbacks v.waits
              le)
            v.tokens;
      waits =
          insert-Every
            (λ _ d.
              (d.token < s.next_token + 1)
              × (d.session_id ≡ s.session_id)
              × Unanswered d.token s.resolved)
            key c s.pending_callbacks
            (omega (arith, t), g, Unanswered-above s.next_token c.token s.resolved v.once le)
            (Waits-le s.next_token (s.next_token + 1) s.session_id s.resolved s.pending_callbacks
              (omega arith) v.waits);
      once = Once-le s.next_token (s.next_token + 1) s.resolved (omega arith) v.once;
      chunks = v.chunks;
    }
