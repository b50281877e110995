-- ===== src/Streams/Ending.antt =====
-- What ends the video task.
use unitree_webrtc_rs.Base.{
  ◌≡◌, refl, inl, inr, Bool, true, false, Option, none, some, List, [], ◌∷◌, Bytes, Bool-cases,
  Option-cases, length, ◌+◌, arith,
}
use unitree_webrtc_rs.Events.Size.{Sizes}
use unitree_webrtc_rs.Events.{video_frame}
use unitree_webrtc_rs.H264Rtp.{process_rtp_packet, H264RtpReassembler}
use unitree_webrtc_rs.Streams.Open.{GoesOn, send_frame-GoesOn}
use unitree_webrtc_rs.Streams.Staged.{played}
use unitree_webrtc_rs.Streams.Video.{
  Pipeline, H264Decoder, H264DecodeError, DecodedFrame, Decoded, decoded, failed, Checked, polled,
  check_health, received, take_frame, after_push, is_overfull, enqueue, decode_healthy, keep_error,
  decode, Player, Played, show_decoded, show_nal, show_if_any, on_poll, Arrival, health_poll,
  packet, read_error, on_arrival, stream,
}
use unitree_webrtc_rs.Streams.{
  read_failed, decode_failed, callback_closed, Sink, Delivered, send_frame,
}

module _ (P : Pipeline) where
  abbrev Frame : Type 0
  Frame = H264Decoder P × Decoded (Option DecodedFrame)

  -- A check that found nothing, or the error that the decoder keeps.
  unfoldable IsChecked : Checked P → Type 0
  IsChecked (d, none) = d.terminal_error ≡ none
  IsChecked (d, some e) = d.terminal_error ≡ some e

  polled-IsChecked :
      (d : H264Decoder P) (x : P.G × Option H264DecodeError)
      → d.terminal_error ≡ none
      → IsChecked (polled P d x)
  unfolding IsChecked polled
  polled-IsChecked d (g, none) h = h
  polled-IsChecked d (g, some e) h = refl

  check_health-IsChecked :
      (d : H264Decoder P) → d.terminal_error ≡ none → IsChecked (check_health P d)
  unfolding check_health
  check_health-IsChecked d h = rw (h, check_health) (polled-IsChecked d (P.pop_bus d.pipeline) h)

  -- A frame, or that there is none yet, comes from a decoder that goes on.
  unfoldable IsHealthy : Frame → Type 0
  IsHealthy (d, decoded frame) = d.terminal_error ≡ none
  IsHealthy (d, failed e) = Unit {0}

  received-IsHealthy :
      (d : H264Decoder P) (x : P.G × Option (Option DecodedFrame))
      → d.terminal_error ≡ none
      → IsHealthy (received P d x)
  unfolding IsHealthy received
  received-IsHealthy d (g, none) h = tt
  received-IsHealthy d (g, some frame) h = h

  take_frame-IsHealthy : (x : Checked P) → IsChecked x → IsHealthy (take_frame P x)
  unfolding IsHealthy take_frame IsChecked
  take_frame-IsHealthy (d, some e) h = tt
  take_frame-IsHealthy (d, none) h = received-IsHealthy d (P.try_recv d.pipeline) h

  after_push-IsHealthy :
      (d : H264Decoder P) (x : P.G × Bool) → d.terminal_error ≡ none → IsHealthy (after_push P d x)
  unfolding IsHealthy after_push
  after_push-IsHealthy d (g, false) h = tt
  after_push-IsHealthy d (g, true) h =
      take_frame-IsHealthy (check_health P (record d { pipeline = g }))
        (check_health-IsChecked (record d { pipeline = g }) h)

  enqueue-IsHealthy :
      (d : H264Decoder P) (nal : Bytes) → d.terminal_error ≡ none → IsHealthy (enqueue P d nal)
  unfolding IsHealthy enqueue
  enqueue-IsHealthy d nal h =
      let size = length nal + 4 in
      elim (Bool-cases (is_overfull P d.pipeline size)) [
        | inl o ↦ rw (o, enqueue) tt
        | inr o ↦ elim (Option-cases (P.fill d.pipeline size)) [
          | inr (e, f) ↦ rw (o, f, enqueue) tt
          | inl f ↦ rw (o, f, enqueue) (after_push-IsHealthy d _ h)
        ]
      ]

  decode_healthy-IsHealthy :
      (x : Checked P) (nal : Bytes) → IsChecked x → IsHealthy (decode_healthy P x nal)
  unfolding IsHealthy decode_healthy IsChecked
  decode_healthy-IsHealthy (d, some e) nal h = tt
  decode_healthy-IsHealthy (d, none) [] h = h
  decode_healthy-IsHealthy (d, none) (b ∷ nal) h = enqueue-IsHealthy d (b ∷ nal) h

  -- What `decode` leaves: a decoder that goes on, or one that keeps its error.
  unfoldable IsKept : Frame → Type 0
  IsKept (d, decoded frame) = d.terminal_error ≡ none
  IsKept (d, failed e) = d.terminal_error ≡ some e

  keep_error-IsKept : (x : Frame) → IsHealthy x → IsKept (keep_error P x)
  unfolding IsHealthy IsKept keep_error
  keep_error-IsKept (d, decoded frame) h = h
  keep_error-IsKept (d, failed e) h = refl

  decode-IsKept :
      (d : H264Decoder P) (nal : Bytes) → d.terminal_error ≡ none → IsKept (decode P d nal)
  unfolding decode
  decode-IsKept d nal h =
      keep_error-IsKept (decode_healthy P (check_health P d) nal)
        (decode_healthy-IsHealthy (check_health P d) nal (check_health-IsChecked d h))

  -- The decoder works, and the receiver of the callback queue lives.
  abbrev pub IsAlive : Player P → Type 0
  IsAlive p = (p.decoder.terminal_error ≡ none) × (p.sink.hub.closed ≡ false)

  -- Why the task ended: a read that failed, and then both were alive; or the decoder's error.
  unfoldable pub Ended : Bool → Played P → Type 0
  Ended all_arrived (p, none) = IsAlive p × (all_arrived ≡ true)
  Ended all_arrived (p, some read_failed) = IsAlive p × (all_arrived ≡ false)
  Ended all_arrived (p, some decode_failed) =
      (e : H264DecodeError) × (p.decoder.terminal_error ≡ some e) × (p.sink.hub.closed ≡ false)
  Ended all_arrived (p, some callback_closed) = ⊥

  delivered-Ended :
      (d : H264Decoder P) (x : Delivered)
      → d.terminal_error ≡ none
      → GoesOn x
      → Ended true (record { decoder = d; sink = x.0 }, x.1)
  unfolding Ended GoesOn
  delivered-Ended d (s, none) h (p, e) = ((h, e), refl)
  delivered-Ended d (s, some end) h (p, e) = ground (arith, p)

  show_decoded-Ended :
      (z : Sizes) (s : Sink) (x : Frame)
      → s.hub.closed ≡ false
      → IsKept x
      → Ended true (show_decoded P z s x)
  unfolding Ended IsKept show_decoded
  show_decoded-Ended z s (d, decoded none) c h = ((h, c), refl)
  show_decoded-Ended z s (d, decoded (some frame)) c h =
      let event = video_frame frame.bytes frame.width frame.height in
      delivered-Ended d (send_frame z event s) h (send_frame-GoesOn z event s c)
  show_decoded-Ended z s (d, failed e) c h = (e, h, c)

  show_if_any-Ended :
      (z : Sizes) (nal : Option Bytes) (p : Player P)
      → IsAlive p
      → Ended true (show_if_any P z nal p)
  unfolding Ended show_if_any show_nal
  show_if_any-Ended z none p alive = (alive, refl)
  show_if_any-Ended z (some nal) p (h, c) =
      show_decoded-Ended z p.sink (decode P p.decoder nal) c (decode-IsKept p.decoder nal h)

  on_poll-Ended :
      (s : Sink) (x : Checked P) → s.hub.closed ≡ false → IsChecked x → Ended true (on_poll P s x)
  unfolding Ended on_poll IsChecked
  on_poll-Ended s (d, none) c h = ((h, c), refl)
  on_poll-Ended s (d, some e) c h = (e, h, c)

  abbrev pub all_arrived : List (Arrival P) → Bool
  all_arrived [] = true
  all_arrived (read_error ∷ later) = false
  all_arrived (health_poll ∷ later) = all_arrived later
  all_arrived (packet q ∷ later) = all_arrived later

  -- One arrival and the later ones.
  later-Ended :
      (z : Sizes) (r : H264RtpReassembler) (later : List (Arrival P)) (x : Played P)
      → Ended true x
      → ((p : Player P)
          → IsAlive p
          → Ended (all_arrived later) (played P (stream P z later (r, p))))
      → Ended
          (all_arrived later)
          (played P (elim x.1 [ some end ↦ ((r, x.0), x.1) | none ↦ stream P z later (r, x.0) ]))
  unfolding Ended
  later-Ended z r later (p, none) (alive, _) rest = rest p alive
  later-Ended z r later (p, some read_failed) (alive, q) rest = absurd (ground (arith, q))
  later-Ended z r later (p, some decode_failed) end rest = end
  later-Ended z r later (p, some callback_closed) end rest = elim end [ ]

  -- As long as the receiver of the callback queue lives, the video task ends with a failed read of its
  -- track or with an error of its decoder, and with nothing else: no full queue and no packet ends it. At
  -- such an error, by a NAL unit or by a poll of its health, it does end: while it runs, and when a read
  -- ends it, its decoder has no error.
  pub stream-Ended :
      (z : Sizes) (arrivals : List (Arrival P)) (r : H264RtpReassembler) (p : Player P)
      → IsAlive p
      → Ended (all_arrived arrivals) (played P (stream P z arrivals (r, p)))
  unfolding stream on_arrival Ended
  stream-Ended z [] r p alive = (alive, refl)
  stream-Ended z (read_error ∷ later) r p alive = (alive, refl)
  stream-Ended z (health_poll ∷ later) r p (h, c) =
      later-Ended z r later (on_poll P p.sink (check_health P p.decoder))
        (on_poll-Ended p.sink (check_health P p.decoder) c (check_health-IsChecked p.decoder h))
        (λ t. stream-Ended z later r t)
  stream-Ended z (packet q ∷ later) r p alive =
      let step = process_rtp_packet r q.payload q.sequence q.timestamp in
      later-Ended z step.0 later (show_if_any P z step.1 p) (show_if_any-Ended z step.1 p alive)
        (λ t. stream-Ended z later step.0 t)
