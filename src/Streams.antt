-- ===== src/Streams.antt =====
-- video/service.rs and audio/receive/service.rs: the tasks that read the RTP packets of a track, decode
-- them and send the frames to the callback queue. What a task did is its state, with the hub of the queue,
-- and how it ended, if it did. The count of dropped frames is that of the calls of the task's repeat log.
pub mod Video
pub mod Audio
pub mod Staged
pub mod Open
pub mod Terminal
pub mod Ending
use Prim.Native.Nat.{◌+◌, ◌%◌, ◌^◌}
use unitree_webrtc_rs.Base.{ℕ, Option, none, some, List, [], ◌∷◌}
use unitree_webrtc_rs.Events.Queue.{Hub, SendResult, sent, full, disconnected, try_send}
use unitree_webrtc_rs.Events.Size.{Sizes}
use unitree_webrtc_rs.Events.{CallbackEvent}

pub data End : Type 0 where
  read_failed : End
  decode_failed : End
  callback_closed : End

-- What a task keeps besides its decoder. The generation is that of its `EventSender`.
pub record Sink : Type 0 where
  pub generation : ℕ
  pub frame_count : ℕ
  pub frame_drops : ℕ
  pub hub : Hub

abbrev pub Delivered : Type 0
Delivered = Sink × Option End

unfoldable pub after_try_send : Sink → Hub × SendResult → Delivered
after_try_send s (hub, sent) = (record s { hub = hub }, none)
after_try_send s (hub, full event) = (record s { hub = hub; frame_drops = s.frame_drops + 1 }, none)
after_try_send s (hub, disconnected event) = (record s { hub = hub }, some callback_closed)

-- The match on `callback_tx.try_send(event)`, behind the frame's count.
unfoldable pub send_frame : Sizes → CallbackEvent → Sink → Delivered
unfolding after_try_send try_send
send_frame z event s =
    after_try_send (record s { frame_count = s.frame_count + 1 })
      (try_send z s.hub.current s.generation event s.hub)
