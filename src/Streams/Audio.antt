-- ===== src/Streams/Audio.antt =====
-- audio/receive/service.rs: the loop of `spawn_audio_handler`, and audio/receive/codec.rs: what
-- `OpusDecoder` adds to the Opus library's decoder, which is a parameter.
use Prim.Native.Nat.{◌+◌, ◌*◌, ◌/◌}
use unitree_webrtc_rs.Base.{
  ℕ, zero, suc, Option, none, some, List, [], ◌∷◌, Bytes, Result, ok, err, ◌==◌, ◌||◌, take,
  if◌then◌else◌,
}
use unitree_webrtc_rs.Events.Size.{Sizes}
use unitree_webrtc_rs.Events.{audio_frame}
use unitree_webrtc_rs.Streams.{End, read_failed, Sink, Delivered, send_frame}

pub record DecodedAudio : Type 0 where
  pub samples : List ℕ
  pub sample_rate : ℕ
  pub channels : ℕ

-- The library's decoder writes into the buffer that it is given, and answers how many samples of each
-- channel it wrote, which the buffer holds.
module _ (D : Type 0) (opus : D → Bytes → List ℕ → D × List ℕ × Result ℕ) where
  pub record OpusDecoder : Type 0 where
    pub decoder : D
    pub pcm_buffer : List ℕ
    pub sample_rate : ℕ
    pub channels : ℕ

  abbrev zeros : ℕ → List ℕ
  zeros zero = []
  zeros (suc n) = 0 ∷ zeros n

  -- `create` is the library's constructor.
  unfoldable pub new : (ℕ → ℕ → Result D) → ℕ → ℕ → Result OpusDecoder
  new create sample_rate channels =
      if channels == 1 || channels == 2
      then elim (create sample_rate channels) [
        | err e ↦ err "Failed to create Opus decoder"
        | ok d ↦ ok (record {
          decoder = d;
          pcm_buffer = zeros (sample_rate * 120 / 1000 * channels);
          sample_rate = sample_rate;
          channels = channels;
        })
      ]
      else err "Unsupported channels"

  abbrev Decoding : Type 0
  Decoding = OpusDecoder × Result DecodedAudio

  unfoldable pub sliced : OpusDecoder → D × List ℕ × Result ℕ → Decoding
  sliced s (d, pcm, err e) = (record s { decoder = d; pcm_buffer = pcm }, err "Opus decode error")
  sliced s (d, pcm, ok n) = (
    record s { decoder = d; pcm_buffer = pcm },
    ok (record {
      samples = take (n * s.channels) pcm;
      sample_rate = s.sample_rate;
      channels = s.channels;
    }),
  )

  unfoldable pub decode : OpusDecoder → Bytes → Decoding
  unfolding sliced
  decode s [] =
      (s, ok (record { samples = []; sample_rate = s.sample_rate; channels = s.channels }))
  decode s (b ∷ data_) = sliced s (opus s.decoder (b ∷ data_) s.pcm_buffer)

  pub record Audio : Type 0 where
    pub decoder : OpusDecoder
    pub sink : Sink
    pub decode_errors : ℕ

  abbrev pub Heard : Type 0
  Heard = Audio × Option End

  abbrev with_sink : Audio → Delivered → Heard
  with_sink a (s, end) = (record a { sink = s }, end)

  -- The match on the decoder's result; a failure is counted by a repeat log.
  unfoldable pub play_samples : Sizes → Audio → DecodedAudio → List ℕ → Heard
  unfolding send_frame
  play_samples z a pcm [] = (a, none)
  play_samples z a pcm (x ∷ xs) =
      with_sink a (send_frame z (audio_frame (x ∷ xs) pcm.sample_rate pcm.channels) a.sink)

  unfoldable pub on_decoded : Sizes → Audio → Decoding → Heard
  unfolding play_samples
  on_decoded z a (d, err e) = (record a { decoder = d; decode_errors = a.decode_errors + 1 }, none)
  on_decoded z a (d, ok pcm) = play_samples z (record a { decoder = d }) pcm pcm.samples

  -- A read of the track: the payload of a packet, or nothing if it failed.
  unfoldable pub on_read : Sizes → Option Bytes → Audio → Heard
  unfolding on_decoded decode
  on_read z none a = (a, some read_failed)
  on_read z (some payload) a = on_decoded z a (decode a.decoder payload)

  unfoldable pub listen : Sizes → List (Option Bytes) → Audio → Heard
  unfolding on_read
  listen z [] a = (a, none)
  listen z (r ∷ later) a =
      let next = on_read z r a in elim next.1 [ some end ↦ next | none ↦ listen z later next.0 ]
