-- ===== src/DataChannel/Waiters.antt =====
-- No waiting request is lost: each stays registered until it is answered.
use unitree_webrtc_rs.Base.Dict.{Dict, lookup, remove, lookup-remove}
use package.text.Mathlib.Text.{◌==◌ as str_eq}
use package.text.Mathlib.TextEquality.{eq_iff}
use unitree_webrtc_rs.Base.{
  ℕ, ◌≡◌, refl, sym, ap, subst, ◌∙◌, ◌⊎◌, inl, inr, none, some, List, [], ◌∷◌, String, Result, err,
  Option-cases, Bool-cases, arith,
}
use unitree_webrtc_rs.DataChannel.Pending.{
  fail_pending, fail_each, fail_all_pending, resolve_pending_response, outcome,
}
use unitree_webrtc_rs.DataChannel.State.{Service, PendingCallback}
use unitree_webrtc_rs.Json.{Value}

-- Some value was sent on the channel of the token.
abbrev pub IsAnswered : ℕ → List (ℕ × Result Value) → Type 0
IsAnswered t [] = ⊥
IsAnswered t ((u, r) ∷ log) = (u ≡ t) ⊎ IsAnswered t log

pub record Progress (s s' : Service) : Type 0 where
  pub answered : (t : ℕ) → IsAnswered t s.resolved → IsAnswered t s'.resolved
  pub waiting :
      (k : String) (c : PendingCallback)
      → lookup k s.pending_callbacks ≡ some c
      → (lookup k s'.pending_callbacks ≡ some c) ⊎ IsAnswered c.token s'.resolved
  pub no_new :
      (k : String) → lookup k s.pending_callbacks ≡ none → lookup k s'.pending_callbacks ≡ none

pub Progress-trans : (s s' s'' : Service) → Progress s s' → Progress s' s'' → Progress s s''
Progress-trans s s' s'' p q = record {
  answered = λ t h. q.answered t (p.answered t h);
  waiting = λ k c e. elim (p.waiting k c e) [
    | inl e' ↦ q.waiting k c e'
    | inr a ↦ inr (q.answered c.token a)
  ];
  no_new = λ k e. q.no_new k (p.no_new k e);
}

-- The requests and the answers are left alone.
pub record SameRequests (s s' : Service) : Type 0 where
  pub same_pending : s'.pending_callbacks ≡ s.pending_callbacks
  pub same_resolved : s'.resolved ≡ s.resolved

pub Same-Progress : (s s' : Service) → SameRequests s s' → Progress s s'
Same-Progress s s' e = record {
  answered = λ t h. subst (IsAnswered t) (sym e.same_resolved) h;
  waiting = λ k c h. inl (ap (lookup k) e.same_pending ∙ h);
  no_new = λ k h. ap (lookup k) e.same_pending ∙ h;
}

-- One entry is taken out and answered.
removed-Progress :
    (s s' : Service) (key : String) (c : PendingCallback) (r : Result Value)
    → lookup key s.pending_callbacks ≡ some c
    → s'.pending_callbacks ≡ remove key s.pending_callbacks
    → s'.resolved ≡ (c.token, r) ∷ s.resolved
    → Progress s s'
removed-Progress s s' key c r found e f = record {
  answered = λ t h. subst (IsAnswered t) (sym f) (inr h);
  waiting = λ k d h. elim (Bool-cases (str_eq key k)) [
    | inl same ↦
        inr (
          subst (IsAnswered d.token) (sym f)
            (inl (ground (arith, found, h, (eq_iff key k).0 same))))
    | inr other ↦
        inl (ground (arith, ap (lookup k) e, lookup-remove key k s.pending_callbacks, h, other))
  ];
  no_new = λ k h. ground (arith, ap (lookup k) e, lookup-remove key k s.pending_callbacks, h);
}

pub fail_pending-Progress :
    (s : Service) (key error : String) → Progress s (fail_pending s key error)
unfolding fail_pending
fail_pending-Progress s key error = elim (Option-cases (lookup key s.pending_callbacks)) [
  | inl e ↦
      rw (e, fail_pending)
        (Same-Progress s s (record { same_pending = refl; same_resolved = refl }))
  | inr (c, e) ↦ rw (e, fail_pending) (removed-Progress s _ key c (err error) e refl refl)
]

pub resolve-Progress :
    (s : Service) (key : String) (message : Value)
    → Progress s (resolve_pending_response s key message)
unfolding resolve_pending_response
resolve-Progress s key message = elim (Option-cases (lookup key s.pending_callbacks)) [
  | inl e ↦
      rw (e, resolve_pending_response)
        (Same-Progress s s (record { same_pending = refl; same_resolved = refl }))
  | inr (c, e) ↦
      rw (e, resolve_pending_response)
        (removed-Progress s _ key c (outcome s.session_id c message) e refl refl)
]

fail_each_old :
    (reason : String) (m : Dict PendingCallback) (log : List (ℕ × Result Value)) (t : ℕ)
    → IsAnswered t log
    → IsAnswered t (fail_each reason m log)
unfolding fail_each
fail_each_old reason [] log t h = h
fail_each_old reason ((k, c) ∷ m) log t h = inr (fail_each_old reason m log t h)

pub fail_each_all :
    (reason : String) (m : Dict PendingCallback) (log : List (ℕ × Result Value)) (k : String)
    (c : PendingCallback)
    → lookup k m ≡ some c
    → IsAnswered c.token (fail_each reason m log)
unfolding fail_each lookup
fail_each_all reason [] log k c h = cc
fail_each_all reason ((j, d) ∷ m) log k c h = ground (arith, h, fail_each_all reason m log k c)

pub fail_all-Progress : (s : Service) (reason : String) → Progress s (fail_all_pending s reason)
unfolding fail_all_pending lookup
fail_all-Progress s reason = record {
  answered = λ t h. fail_each_old reason s.pending_callbacks s.resolved t h;
  waiting = λ k c h. inr (fail_each_all reason s.pending_callbacks s.resolved k c h);
  no_new = λ k h. refl;
}
