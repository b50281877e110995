-- ===== src/Streams/Open.antt =====
-- What ends the audio task, and what a send does to either task.
use unitree_webrtc_rs.Base.{
  ◌≡◌, refl, Bool, true, false, Option, none, some, List, [], ◌∷◌, Bytes, Result, ok, err, arith, ℕ,
  ◌+◌, if◌then◌else◌,
}
use unitree_webrtc_rs.Events.Queue.{
  Hub, EventDelivery, release, channel_try_send, admit, try_send, SendResult, sent, full,
  disconnected,
}
use unitree_webrtc_rs.Events.Size.{Sizes}
use unitree_webrtc_rs.Events.{CallbackEvent}
use unitree_webrtc_rs.Streams.Audio.{
  Audio, Heard, DecodedAudio, OpusDecoder, decode, play_samples, on_decoded, on_read, listen,
}
use unitree_webrtc_rs.Streams.{Sink, read_failed, after_try_send, send_frame, Delivered}

-- The send found the receiver alive, and left it so.
unfoldable pub IsOpen : Hub × SendResult → Type 0
IsOpen (hub, sent) = hub.closed ≡ false
IsOpen (hub, full event) = hub.closed ≡ false
IsOpen (hub, disconnected event) = true ≡ false

admit-IsOpen : (d : EventDelivery) (hub : Hub) → hub.closed ≡ false → IsOpen (admit d hub)
unfolding IsOpen admit channel_try_send release
admit-IsOpen d hub e = ground arith

try_send-IsOpen :
    (z : Sizes) (observed generation : ℕ) (event : CallbackEvent) (hub : Hub)
    → hub.closed ≡ false
    → IsOpen (try_send z observed generation event hub)
unfolding IsOpen try_send
try_send-IsOpen z observed generation event hub e = let opened = admit-IsOpen in ground arith

-- What a send leaves of the task.
unfoldable pub GoesOn : Delivered → Type 0
GoesOn (s, end) = (end ≡ none) × (s.hub.closed ≡ false)

after_try_send-GoesOn : (s : Sink) (x : Hub × SendResult) → IsOpen x → GoesOn (after_try_send s x)
unfolding IsOpen GoesOn after_try_send
after_try_send-GoesOn s (hub, sent) e = (refl, e)
after_try_send-GoesOn s (hub, full event) e = (refl, e)
after_try_send-GoesOn s (hub, disconnected event) e = ground arith

pub send_frame-GoesOn :
    (z : Sizes) (event : CallbackEvent) (s : Sink)
    → s.hub.closed ≡ false
    → GoesOn (send_frame z event s)
unfolding send_frame
send_frame-GoesOn z event s e =
    after_try_send-GoesOn (record s { frame_count = s.frame_count + 1 })
      (try_send z s.hub.current s.generation event s.hub)
      (try_send-IsOpen z s.hub.current s.generation event s.hub e)

abbrev pub all_read : List (Option Bytes) → Bool
all_read [] = true
all_read (none ∷ later) = false
all_read (some payload ∷ later) = all_read later

module _ (D : Type 0) (opus : D → Bytes → List ℕ → D × List ℕ × Result ℕ) where
  play_samples-GoesOn :
      (z : Sizes) (a : Audio D opus) (pcm : DecodedAudio) (xs : List ℕ)
      → a.sink.hub.closed ≡ false
      → let x = play_samples D opus z a pcm xs in GoesOn (x.0.sink, x.1)
  unfolding play_samples GoesOn
  play_samples-GoesOn z a pcm [] e = (refl, e)
  play_samples-GoesOn z a pcm (x ∷ xs) e = send_frame-GoesOn z _ a.sink e

  on_decoded-GoesOn :
      (z : Sizes) (a : Audio D opus) (x : OpusDecoder D opus × Result DecodedAudio)
      → a.sink.hub.closed ≡ false
      → let y = on_decoded D opus z a x in GoesOn (y.0.sink, y.1)
  unfolding on_decoded GoesOn
  on_decoded-GoesOn z a (d, err _) e = (refl, e)
  on_decoded-GoesOn z a (d, ok pcm) e =
      play_samples-GoesOn z (record a { decoder = d }) pcm pcm.samples e

  -- The reads end as they should, and leave the receiver alive.
  unfoldable pub EndsBy : List (Option Bytes) → Heard D opus → Type 0
  EndsBy reads x =
      (x.1 ≡ (if all_read reads then none else some read_failed)) × (x.0.sink.hub.closed ≡ false)

  heard_later :
      (z : Sizes) (later : List (Option Bytes)) (x : Heard D opus)
      → GoesOn (x.0.sink, x.1)
      → ((a : Audio D opus) → a.sink.hub.closed ≡ false → EndsBy later (listen D opus z later a))
      → EndsBy later (elim x.1 [ some end ↦ x | none ↦ listen D opus z later x.0 ])
  unfolding GoesOn
  heard_later z later (a, none) (p, e) ih = ih a e
  heard_later z later (a, some end) (p, e) ih = ground arith

  -- As long as the receiver of the callback queue lives, the audio task ends with a failed read of its
  -- track and with nothing else: no packet that Opus refuses, no packet without samples and no full queue
  -- ends it.
  pub listen-EndsBy :
      (z : Sizes) (reads : List (Option Bytes)) (a : Audio D opus)
      → a.sink.hub.closed ≡ false
      → EndsBy reads (listen D opus z reads a)
  unfolding listen on_read EndsBy
  listen-EndsBy z [] a e = (refl, e)
  listen-EndsBy z (none ∷ later) a e = (refl, e)
  listen-EndsBy z (some payload ∷ later) a e =
      heard_later z later (on_read D opus z (some payload) a)
        (on_decoded-GoesOn z a (decode D opus a.decoder payload) e) (λ b. listen-EndsBy z later b)
