-- ===== src/DataChannel/Once.antt =====
-- Tokens: each request is answered at most once, and a waiting one not yet.
use package.text.Mathlib.Text.{◌==◌ as str_eq}
use unitree_webrtc_rs.Base.Dict.{
  Dict, lookup, insert, remove, Every, insert-Every, remove-Every, lookup-Every,
}
use unitree_webrtc_rs.Base.{
  ℕ, ◌≡◌, ◌≢◌, ◌<◌, ◌≤◌, sym, subst, inl, inr, Bool-cases, none, some, List, [], ◌∷◌, String,
  Result, arith,
}
use unitree_webrtc_rs.DataChannel.Pending.{fail_each}
use unitree_webrtc_rs.DataChannel.State.{PendingCallback}
use unitree_webrtc_rs.Json.{Value}

abbrev pub Log : Type 0
Log = List (ℕ × Result Value)

abbrev pub Unanswered : ℕ → Log → Type 0
Unanswered t [] = Unit
Unanswered t ((u, r) ∷ log) = (u ≢ t) × Unanswered t log

-- No token stands twice, and each is below `n`.
abbrev pub Once : ℕ → Log → Type 0
Once n [] = Unit
Once n ((u, r) ∷ log) = (u < n) × Unanswered u log × Once n log

abbrev pub NoToken : ℕ → Dict PendingCallback → Type 0
NoToken t = Every (λ _ c. c.token ≢ t)

abbrev pub TokensDistinct : Dict PendingCallback → Type 0
TokensDistinct [] = Unit
TokensDistinct ((k, c) ∷ m) = NoToken c.token m × TokensDistinct m

-- The waiting requests of a session: their tokens are given out, distinct and unanswered.
abbrev pub Waits : ℕ → ℕ → Log → Dict PendingCallback → Type 0
Waits n session log =
    Every (λ _ c. (c.token < n) × (c.session_id ≡ session) × Unanswered c.token log)

pub Once-le : (n n' : ℕ) (log : Log) → n ≤ n' → Once n log → Once n' log
Once-le n n' [] h o = tt
Once-le n n' ((u, r) ∷ log) h o = (omega (arith, o.0), o.1, Once-le n n' log h o.2)

pub Waits-le :
    (n n' session : ℕ) (log : Log) (m : Dict PendingCallback)
    → n ≤ n'
    → Waits n session log m
    → Waits n' session log m
Waits-le n n' session log [] h w = tt
Waits-le n n' session log ((k, c) ∷ m) h w =
    ((omega (arith, w.0.0), w.0.1, w.0.2), Waits-le n n' session log m h w.1)

pub Unanswered-above : (n t : ℕ) (log : Log) → Once n log → n ≤ t → Unanswered t log
Unanswered-above n t [] o h = tt
Unanswered-above n t ((u, r) ∷ log) o h = (omega (arith, o.0), Unanswered-above n t log o.2 h)

pub NoToken-above :
    (n session t : ℕ) (log : Log) (m : Dict PendingCallback)
    → Waits n session log m
    → n ≤ t
    → NoToken t m
NoToken-above n session t log [] w h = tt
NoToken-above n session t log ((k, c) ∷ m) w h =
    (omega (arith, w.0.0), NoToken-above n session t log m w.1 h)

pub remove-TokensDistinct :
    (key : String) (m : Dict PendingCallback) → TokensDistinct m → TokensDistinct (remove key m)
unfolding remove
remove-TokensDistinct key [] d = tt
remove-TokensDistinct key ((k, c) ∷ m) d =
    ground
      (arith, remove-Every (λ _ e. e.token ≢ c.token) key m d.0, remove-TokensDistinct key m d.1)

-- The token of the entry that goes stands at no other entry.
pub NoToken-remove :
    (key : String) (c : PendingCallback) (m : Dict PendingCallback)
    → TokensDistinct m
    → lookup key m ≡ some c
    → NoToken c.token (remove key m)
unfolding lookup remove
NoToken-remove key c [] d e = tt
NoToken-remove key c ((k, c0) ∷ m) d e = elim (Bool-cases (str_eq k key)) [
  | inl f ↦
      let same : c0.token ≡ c.token = ground (arith, e, f) in
      rw f (
        subst (λ t. NoToken t (remove key m)) same
          (remove-Every (λ _ x. x.token ≢ c0.token) key m d.0))
  | inr f ↦
      let found : lookup key m ≡ some c = ground (arith, e, f) in
      rw f (
        λ g. lookup-Every (λ _ x. x.token ≢ c0.token) key m c d.0 found (sym g),
        NoToken-remove key c m d.1 found,
      )
]

-- The other entries still wait when one is answered.
pub Waits-answer :
    (n session : ℕ) (log : Log) (t : ℕ) (r : Result Value) (m : Dict PendingCallback)
    → Waits n session log m
    → NoToken t m
    → Waits n session ((t, r) ∷ log) m
Waits-answer n session log t r [] w h = tt
Waits-answer n session log t r ((k, c) ∷ m) w h =
    ((w.0.0, w.0.1, (λ e. h.0 (sym e), w.0.2)), Waits-answer n session log t r m w.1 h.1)

pub insert-TokensDistinct :
    (key : String) (c : PendingCallback) (m : Dict PendingCallback)
    → lookup key m ≡ none
    → NoToken c.token m
    → TokensDistinct m
    → TokensDistinct (insert key c m)
unfolding lookup insert
insert-TokensDistinct key c [] e h d = (tt, tt)
insert-TokensDistinct key c ((k, c0) ∷ m) e h d = ground (
  arith,
  e,
  h,
  d,
  insert-Every (λ _ x. x.token ≢ c0.token) key c m,
  insert-TokensDistinct key c m,
)

Unanswered-fail_each :
    (reason : String) (t : ℕ) (m : Dict PendingCallback) (log : Log)
    → NoToken t m
    → Unanswered t log
    → Unanswered t (fail_each reason m log)
unfolding fail_each
Unanswered-fail_each reason t [] log h u = u
Unanswered-fail_each reason t ((k, c) ∷ m) log h u =
    (h.0, Unanswered-fail_each reason t m log h.1 u)

pub Once-fail_each :
    (reason : String) (n session : ℕ) (m : Dict PendingCallback) (log : Log)
    → Waits n session log m
    → TokensDistinct m
    → Once n log
    → Once n (fail_each reason m log)
unfolding fail_each
Once-fail_each reason n session [] log w d o = o
Once-fail_each reason n session ((k, c) ∷ m) log w d o = (
  w.0.0,
  Unanswered-fail_each reason c.token m log d.0 w.0.2,
  Once-fail_each reason n session m log w.1 d.1 o,
)
