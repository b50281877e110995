-- ===== src/Connection.antt =====
-- src/connection/: what the attempts to connect share, and the ports they use. An asynchronous
-- operation runs under the session's gate; what others do at its await points is a list that the
-- state carries, so that every interleaving is one such list.
pub mod Service
pub mod Lifecycle
pub mod Session
pub mod Laws
pub mod Done
pub mod Settled
pub mod Retries
pub mod Ended
use Prim.Native.Nat.{◌+◌, ◌%◌, ◌^◌}
use unitree_webrtc_rs.Base.{
  ℕ, Bool, true, false, Option, none, some, List, [], ◌∷◌, String, Result, ok, err, if◌then◌else◌,
}
use unitree_webrtc_rs.Json.{Value}

pub data WebRtcConnectionMethod : Type 0 where
  local_ap local_sta remote : WebRtcConnectionMethod

-- What a peer, the signaling client, the RTC engine, the data channel service and the audio senders do.
-- `World` is the state of all of them, and `interrupted` what an operation has done when it is dropped.
pub record Ports : Type 1 where
  pub World : Type 0
  pub AudioSender : Type 0
  pub prepare_offer : World → World × Result String
  pub exchange_sdp : String → String → World → World × Result String
  pub apply_answer : String → World → World × Result (Unit {0})
  pub close : World → World
  pub interrupted : World → World
  pub timeout_diagnostic : World → Option String
  pub stop_background_tasks : World → World
  pub prepare_ingress : World → World × Result (Unit {0})
  pub wait_datachannel_open : World → World × Result (Unit {0})
  pub is_open : World → Bool
  pub get_audio_track : World → World × Option (Unit {0})
  pub new_sender : World → Result AudioSender
  pub play : AudioSender → Result (Unit {0})
  pub shutdown : AudioSender → Result (Unit {0})
  pub print_json : Value → String

-- What happens at an await point of an attempt: a disconnect is requested, or the 15 seconds are over.
pub data Arrival : Type 0 where
  nothing disconnects elapses : Arrival

-- `AudioPlayback`: a cleanup task is kept as the result that it ends with.
pub record AudioPlayback (Sender : Type 0) : Type 0 where
  pub sender : Option Sender
  pub cleanup : Option (Result (Unit {0}))

module _ (P : Ports) where
  -- `version` counts the changes of the watch channel whose value is `generation`.
  pub record State : Type 0 where
    pub is_connected : Bool
    pub intentional_disconnect : Bool
    pub generation : ℕ
    pub version : ℕ
    pub audio : AudioPlayback P.AudioSender
    pub world : P.World
    pub arrivals : List Arrival

-- How an operation ends: with its value, an error, dropped as a disconnect came, or out of time.
pub data Ending {ℓ} (A : Type ℓ) : Type ℓ where
  done : A → Ending A
  failed : String → Ending A
  dropped : Ending A
  elapsed : Ending A

abbrev pub of_result {ℓ} : {A : Type ℓ} → Result A → Ending A
of_result (ok a) = done a
of_result (err e) = failed e

-- `?` after an `await`.
infixl 5 ◌and_then◌
abbrev pub ◌and_then◌ {ℓ κ λ'} :
    {S : Type ℓ} {A : Type κ} {B : Type λ'} → S × Ending A → (A → S → S × Ending B) → S × Ending B
(s, done a) and_then next = next a s
(s, failed e) and_then next = (s, failed e)
(s, dropped) and_then next = (s, dropped)
(s, elapsed) and_then next = (s, elapsed)
