-- ===== src/Streams/Video.antt =====
-- video/service.rs: the loop of `spawn_video_handler`, and video/codec.rs: what `H264Decoder` adds to the
-- GStreamer pipeline, which is a parameter.
use Prim.Native.Nat.{◌+◌, ◌-◌, ◌*◌}
use unitree_webrtc_rs.Base.{
  ℕ, Bool, true, false, ◌||◌, Option, none, some, List, [], ◌∷◌, Bytes, ltb, leb, length,
  if◌then◌else◌,
}
use unitree_webrtc_rs.Events.Size.{Sizes}
use unitree_webrtc_rs.Events.{video_frame}
use unitree_webrtc_rs.H264Rtp.{H264RtpReassembler, Packet, process_rtp_packet}
use unitree_webrtc_rs.Streams.{End, read_failed, decode_failed, Sink, Delivered, send_frame}

pub data H264DecodeError : Type 0 where
  encoded_queue_overflow : H264DecodeError
  pipeline_failed : H264DecodeError
  end_of_stream : H264DecodeError
  buffer_allocation_failed : H264DecodeError
  buffer_mapping_failed : H264DecodeError
  push_failed : H264DecodeError
  frame_channel_closed : H264DecodeError

pub record DecodedFrame : Type 0 where
  pub bytes : Bytes
  pub width : ℕ
  pub height : ℕ

-- A value, or the error.
pub data Decoded (A : Type 0) : Type 0 where
  decoded : A → Decoded A
  failed : H264DecodeError → Decoded A

abbrev pub max_encoded_buffers : ℕ
max_encoded_buffers = 64

abbrev pub max_encoded_bytes : ℕ
max_encoded_bytes = 8 * 1024 * 1024

-- The pipeline and its two queues. `pop_bus` is the next error or end of stream on the bus; `fill` is a
-- buffer's allocation and mapping; `push` counts the buffer and pushes it; `try_recv` is the next frame,
-- none yet, or a closed channel.
pub record Pipeline : Type 1 where
  pub G : Type 0
  pub pop_bus : G → G × Option H264DecodeError
  pub queued_buffers : G → ℕ
  pub level_bytes : G → ℕ
  pub fill : G → ℕ → Option H264DecodeError
  pub push : G → Bytes → G × Bool
  pub try_recv : G → G × Option (Option DecodedFrame)

module _ (P : Pipeline) where
  pub record H264Decoder : Type 0 where
    pub pipeline : P.G
    pub terminal_error : Option H264DecodeError

  abbrev pub Checked : Type 0
  Checked = H264Decoder × Option H264DecodeError

  abbrev Frame : Type 0
  Frame = H264Decoder × Decoded (Option DecodedFrame)

  unfoldable pub polled : H264Decoder → P.G × Option H264DecodeError → Checked
  polled d (g, none) = (record d { pipeline = g }, none)
  polled d (g, some e) = (record { pipeline = g; terminal_error = some e }, some e)

  unfoldable pub check_health : H264Decoder → Checked
  unfolding polled
  check_health d = elim d.terminal_error [
    | some e ↦ (d, some e)
    | none ↦ polled d (P.pop_bus d.pipeline)
  ]

  unfoldable pub received : H264Decoder → P.G × Option (Option DecodedFrame) → Frame
  received d (g, none) = (record d { pipeline = g }, failed frame_channel_closed)
  received d (g, some frame) = (record d { pipeline = g }, decoded frame)

  -- The check behind the push, and the frame that is ready.
  unfoldable pub take_frame : Checked → Frame
  unfolding received
  take_frame (d, some e) = (d, failed e)
  take_frame (d, none) = received d (P.try_recv d.pipeline)

  unfoldable pub after_push : H264Decoder → P.G × Bool → Frame
  unfolding take_frame check_health
  after_push d (g, false) = (record d { pipeline = g }, failed push_failed)
  after_push d (g, true) = take_frame (check_health (record d { pipeline = g }))

  -- The limits of the queue of encoded buffers; a unit has a start code of four bytes.
  unfoldable pub is_overfull : P.G → ℕ → Bool
  is_overfull g size =
      ltb max_encoded_bytes size
      || leb max_encoded_buffers (P.queued_buffers g)
      || ltb (max_encoded_bytes - size) (P.level_bytes g)

  unfoldable pub enqueue : H264Decoder → Bytes → Frame
  unfolding is_overfull after_push
  enqueue d nal =
      let size = length nal + 4 in
      if is_overfull d.pipeline size
      then (d, failed encoded_queue_overflow)
      else elim (P.fill d.pipeline size) [
        | some e ↦ (d, failed e)
        | none ↦ after_push d (P.push d.pipeline (0 ∷ 0 ∷ 0 ∷ 1 ∷ nal))
      ]

  unfoldable pub decode_healthy : Checked → Bytes → Frame
  unfolding enqueue
  decode_healthy (d, some e) nal = (d, failed e)
  decode_healthy (d, none) [] = (d, decoded none)
  decode_healthy (d, none) (b ∷ nal) = enqueue d (b ∷ nal)

  -- `decode`, which keeps the error of `decode_inner`.
  unfoldable pub keep_error : Frame → Frame
  keep_error (d, failed e) = (record d { terminal_error = some e }, failed e)
  keep_error (d, decoded frame) = (d, decoded frame)

  unfoldable pub decode : H264Decoder → Bytes → Frame
  unfolding keep_error decode_healthy check_health
  decode d nal = keep_error (decode_healthy (check_health d) nal)

  -- The decoder and the frames' way out.
  pub record Player : Type 0 where
    pub decoder : H264Decoder
    pub sink : Sink

  abbrev pub Played : Type 0
  Played = Player × Option End

  abbrev delivered : H264Decoder → Delivered → Played
  delivered d (s, end) = (record { decoder = d; sink = s }, end)

  unfoldable pub show_decoded : Sizes → Sink → Frame → Played
  unfolding send_frame
  show_decoded z s (d, decoded none) = (record { decoder = d; sink = s }, none)
  show_decoded z s (d, decoded (some frame)) =
      delivered d (send_frame z (video_frame frame.bytes frame.width frame.height) s)
  show_decoded z s (d, failed e) = (record { decoder = d; sink = s }, some decode_failed)

  unfoldable pub show_nal : Sizes → Bytes → Player → Played
  unfolding show_decoded decode
  show_nal z nal p = show_decoded z p.sink (decode p.decoder nal)

  unfoldable pub show_if_any : Sizes → Option Bytes → Player → Played
  unfolding show_nal
  show_if_any z none p = (p, none)
  show_if_any z (some nal) p = show_nal z nal p

  unfoldable pub on_poll : Sink → Checked → Played
  on_poll s (d, none) = (record { decoder = d; sink = s }, none)
  on_poll s (d, some e) = (record { decoder = d; sink = s }, some decode_failed)

  -- What the select of the loop yields: a tick of the poll, or the end of the read.
  pub data Arrival : Type 0 where
    health_poll : Arrival
    packet : Packet → Arrival
    read_error : Arrival

  abbrev pub Video : Type 0
  Video = H264RtpReassembler × Player

  abbrev with_reassembler : H264RtpReassembler → Played → Video × Option End
  with_reassembler r (p, end) = ((r, p), end)

  unfoldable pub on_arrival : Sizes → Arrival → Video → Video × Option End
  unfolding on_poll check_health show_if_any process_rtp_packet
  on_arrival z health_poll (r, p) = with_reassembler r (on_poll p.sink (check_health p.decoder))
  on_arrival z read_error (r, p) = ((r, p), some read_failed)
  on_arrival z (packet q) (r, p) =
      let (s, nal) = process_rtp_packet r q.payload q.sequence q.timestamp in
      with_reassembler s (show_if_any z nal p)

  -- The loop, over all that arrives until it ends.
  unfoldable pub stream : Sizes → List Arrival → Video → Video × Option End
  unfolding on_arrival
  stream z [] v = (v, none)
  stream z (a ∷ later) v =
      let next = on_arrival z a v in elim next.1 [ some end ↦ next | none ↦ stream z later next.0 ]
