-- ===== src/Events.antt =====
-- src/protocol/events.rs: the queue of callback events between the producers of a session and the
-- dispatcher of callbacks, with its two classes of events and their budgets.
pub mod Size
pub mod SizeBound
pub mod Queue
pub mod Budget
pub mod Delivery
pub mod Admission
pub mod History
pub mod View
use Prim.Native.Nat.{◌*◌}
use unitree_webrtc_rs.Base.{ℕ, List, String, Bytes}
use unitree_webrtc_rs.Json.{Value}

-- The samples of `points` are the 32 bits of an `f32`.
pub data CallbackEvent : Type 0 where
  topic_callback : String → Value → CallbackEvent
  lidar_callback : String → Value → List ℕ → CallbackEvent
  video_frame : Bytes → ℕ → ℕ → CallbackEvent
  audio_frame : List ℕ → ℕ → ℕ → CallbackEvent
  future_resolve : String → Value → CallbackEvent

-- The classes 0 and 1, which index the source's `bytes` and `count`.
pub data Class : Type 0 where
  control media : Class

abbrev pub media_bytes : ℕ
media_bytes = 32 * 1024 * 1024

abbrev pub control_bytes : ℕ
control_bytes = 2 * 1024 * 1024
