-- ===== src/Streams/Staged.antt =====
-- The video task as two stages: the reassembly of all packets, then the decoding of the NAL units.
use unitree_webrtc_rs.Base.{◌≡◌, refl, Option, none, some, List, [], ◌∷◌, map, Bytes}
use unitree_webrtc_rs.Events.Size.{Sizes}
use unitree_webrtc_rs.H264Rtp.{H264RtpReassembler, Packet, process_rtp_packet, collect, option_cons}
use unitree_webrtc_rs.Streams.Video.{
  Pipeline, Player, Played, Video, packet, show_nal, show_if_any, on_arrival, stream,
}
use unitree_webrtc_rs.Streams.{End}

module _ (P : Pipeline) where
  -- The second stage: NAL units, shown until the task ends.
  unfoldable pub show_nals : Sizes → List Bytes → Player P → Played P
  unfolding show_nal
  show_nals z [] p = (p, none)
  show_nals z (n ∷ later) p =
      let next = show_nal P z n p in
      elim next.1 [ some end ↦ next | none ↦ show_nals z later next.0 ]

  abbrev pub played : Video P × Option End → Played P
  played (v, end) = (v.1, end)

  -- One packet of both, from what holds of the later ones.
  resumed :
      (z : Sizes) (r : H264RtpReassembler) (qs : List Packet)
      → ((p : Player P)
          → played (stream P z (map packet qs) (r, p)) ≡ show_nals z (collect r qs).1 p)
      → (x : Played P)
      → played
          (elim x.1 [ some end ↦ ((r, x.0), x.1) | none ↦ stream P z (map packet qs) (r, x.0) ])
        ≡ elim x.1 [ some end ↦ x | none ↦ show_nals z (collect r qs).1 x.0 ]
  resumed z r qs later (p, none) = later p
  resumed z r qs later (p, some end) = refl

  after_packet :
      (z : Sizes) (r : H264RtpReassembler) (qs : List Packet) (nal : Option Bytes) (p : Player P)
      → ((p : Player P)
          → played (stream P z (map packet qs) (r, p)) ≡ show_nals z (collect r qs).1 p)
      → played (
          let next = show_if_any P z nal p in
          elim next.1 [
            | some end ↦ ((r, next.0), next.1)
            | none ↦ stream P z (map packet qs) (r, next.0)
          ])
        ≡ show_nals z (option_cons nal (collect r qs).1) p
  unfolding show_if_any show_nals
  after_packet z r qs none p later = later p
  after_packet z r qs (some nal) p later = resumed z r qs later (show_nal P z nal p)

  -- Whatever packets arrive, the loop shows what the two stages show, and ends as they do: what it does
  -- packet by packet is the decoding of the NAL units that the reassembler makes of all of them.
  stream-collect :
      (z : Sizes) (r : H264RtpReassembler) (p : Player P) (ps : List Packet)
      → played (stream P z (map packet ps) (r, p)) ≡ show_nals z (collect r ps).1 p
  unfolding stream on_arrival show_nals collect
  stream-collect z r p [] = refl
  stream-collect z r p (q ∷ qs) =
      let step = process_rtp_packet r q.payload q.sequence q.timestamp in
      after_packet z step.0 qs step.1 p (λ x. stream-collect z step.0 x qs)
