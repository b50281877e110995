-- ===== src/Tests/Media.antt =====
-- A pipeline that shows each NAL unit as a frame of one pixel, an Opus decoder that refuses a packet, and
-- the tasks of their tracks.
use unitree_webrtc_rs.Base.{
  ℕ, zero, suc, ◌≡◌, refl, Bool, true, false, Option, none, some, List, [], ◌∷◌, Bytes, Result, ok,
  err, length, map, ◌==◌, if◌then◌else◌,
}
use unitree_webrtc_rs.Events.Queue.{Hub, empty_lane}
use unitree_webrtc_rs.Events.Size.{Sizes}
use unitree_webrtc_rs.H264Rtp.{Packet, fresh}
use unitree_webrtc_rs.Streams.Audio.{Audio, listen}
use unitree_webrtc_rs.Streams.Ending.{Ended, all_arrived, stream-Ended}
use unitree_webrtc_rs.Streams.Open.{EndsBy, listen-EndsBy}
use unitree_webrtc_rs.Streams.Staged.{played}
use unitree_webrtc_rs.Streams.Terminal.{IsTerminal, decode-IsTerminal}
use unitree_webrtc_rs.Streams.Video.{
  Pipeline, H264Decoder, push_failed, DecodedFrame, failed, Player, health_poll, packet, decode,
  stream,
}
use unitree_webrtc_rs.Streams.{Sink}

abbrev sizes : Sizes
sizes = record {
  text_capacity = λ s. 8;
  array_capacity = λ vs. 4;
  bytes_capacity = λ bs. length bs;
  samples_capacity = λ xs. length xs;
  size_of_value = 32;
  size_of_event = 96;
}

abbrev hub : Hub
hub = record {
  capacity = 64;
  current = 1;
  closed = false;
  connected = true;
  control_lane = empty_lane;
  media_lane = empty_lane;
}

abbrev sink : Sink
sink = record { generation = 1; frame_count = 0; frame_drops = 0; hub = hub }

-- The pipeline takes two units, and then no more. Its state is how many it took.
abbrev takes_two : ℕ → Bool
takes_two zero = true
takes_two (suc zero) = true
takes_two n = false

abbrev pixel : DecodedFrame
pixel = record { bytes = 7 ∷ []; width = 1; height = 1 }

abbrev pipeline : Pipeline
pipeline = record {
  G = ℕ;
  pop_bus = λ g. (g, none);
  queued_buffers = λ g. 0;
  level_bytes = λ g. 0;
  fill = λ g size. none;
  push = λ g bytes. (suc g, takes_two g);
  try_recv = λ g. (g, some (some pixel));
}

abbrev player : Player pipeline
player = record { decoder = record { pipeline = 0; terminal_error = none }; sink = sink }

abbrev unit_at : ℕ → Packet
unit_at seq = record { payload = 0x65 ∷ seq ∷ []; sequence = seq; timestamp = 9 }

abbrev units : List Packet
units = unit_at 1 ∷ unit_at 2 ∷ unit_at 3 ∷ unit_at 4 ∷ []

stream-units :
    (played pipeline (stream pipeline sizes (map packet units) (fresh, player))).0.sink.frame_count
    ≡ 2
unfolding stream
stream-units = refl

-- The third unit ends the decoder, and the task with it.
stream-Ended_example :
    Ended pipeline
      (all_arrived pipeline (health_poll ∷ map packet units))
      (played pipeline (stream pipeline sizes (health_poll ∷ map packet units) (fresh, player)))
stream-Ended_example =
    stream-Ended pipeline sizes (health_poll ∷ map packet units) fresh player (refl, refl)

abbrev full_pipeline : H264Decoder pipeline
full_pipeline = record { pipeline = 2; terminal_error = none }

abbrev broken : H264Decoder pipeline
broken = record { pipeline = 3; terminal_error = some push_failed }

full_pipeline-failed : decode pipeline full_pipeline (1 ∷ []) ≡ (broken, failed push_failed)
unfolding decode
full_pipeline-failed = refl

decode-IsTerminal_example : IsTerminal pipeline broken push_failed
decode-IsTerminal_example =
    decode-IsTerminal pipeline full_pipeline broken (1 ∷ []) push_failed full_pipeline-failed

abbrev opus : ℕ → Bytes → List ℕ → ℕ × List ℕ × Result ℕ
opus d [] pcm = (d, pcm, ok 0)
opus d (b ∷ data_) pcm = (suc d, 5 ∷ 6 ∷ [], if b == 0 then err "invalid packet" else ok 1)

abbrev audio : Audio ℕ opus
audio = record {
  decoder = record { decoder = 0; pcm_buffer = 0 ∷ 0 ∷ []; sample_rate = 48000; channels = 2 };
  sink = sink;
  decode_errors = 0;
}

-- A packet that is refused, an empty one, five frames, the last of them dropped, and a failed read.
abbrev reads : List (Option Bytes)
reads =
    some (0 ∷ [])
    ∷ some []
    ∷ some (1 ∷ [])
    ∷ some (1 ∷ [])
    ∷ some (1 ∷ [])
    ∷ some (1 ∷ [])
    ∷ some (1 ∷ [])
    ∷ none
    ∷ []

listen-reads : (listen ℕ opus sizes reads audio).0.sink.frame_drops ≡ 1
unfolding listen
listen-reads = refl

listen-EndsBy_example : EndsBy ℕ opus reads (listen ℕ opus sizes reads audio)
listen-EndsBy_example = listen-EndsBy ℕ opus sizes reads audio refl
