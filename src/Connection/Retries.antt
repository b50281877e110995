-- ===== src/Connection/Retries.antt =====
-- The retries of `auto_reconnect` in src/connection/session.rs.
use Prim.Native.Nat.{◌-◌, ◌*◌, ◌^◌, ◌≤◌}
use unitree_webrtc_rs.Base.{
  ℕ, ◌≡◌, ◌⊎◌, Bool, true, false, Option, String, Result, ok, err, All, length, ltb,
}
use unitree_webrtc_rs.Connection.Laws.{Laws, IsOwned, IsClean}
use unitree_webrtc_rs.Connection.Session.{session_is_connected, Retried}
use unitree_webrtc_rs.Connection.{Ports, State, WebRtcConnectionMethod}

module _ (P : Ports) where
  module _ (method : WebRtcConnectionMethod) (ip : Option String) where
    -- A retry, from its call to its end.
    abbrev RetryEnds : State P × Result (Unit {0}) → Type 0
    RetryEnds (s', r) =
        ((r ≡ ok tt) × (session_is_connected P method ip s' ≡ true) × IsOwned P s')
        ⊎ ((e : String) × (r ≡ err e)
            × IsOwned P s'
            × ((s'.intentional_disconnect ≡ true) ⊎ IsClean P s'))

    -- How the loop ends. Without an intended disconnect it is lost only when no attempt is left: it has
    -- slept between all of them.
    unfoldable pub LoopEnds : ℕ → State P → Retried P method ip → Type 0
    LoopEnds left s (t, won, sleeps) =
        ((won ≡ true) × (session_is_connected P method ip t ≡ true))
        ⊎ ((won ≡ false)
            × ((t.intentional_disconnect ≡ true)
                ⊎ ((length sleeps ≡ left - 1) × (IsClean P t ⊎ ((left ≡ 0) × (t ≡ s))))))

    -- A sleep is at most 51,200 ms.
    abbrev pub IsShort : ℕ → Type 0
    IsShort millis = millis ≤ 51200

    abbrev short_below_nine : ℕ → Bool
    short_below_nine k = ltb (200 * 2 ^ k) 51201

    unfoldable pub SleepsWithin : ℕ → Retried P method ip → Type 0
    SleepsWithin left (s, won, sleeps) = (length sleeps ≤ left - 1) × All IsShort sleeps
