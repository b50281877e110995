-- ===== src/Tests/Chunking.antt =====
-- Chunks and RTP fragments.
use unitree_webrtc_rs.Base.Dict.{lookup}
use unitree_webrtc_rs.Base.{
  ◌≡◌, ◌⊎◌, refl, true, none, some, List, [], ◌∷◌, Bytes, ok, if◌then◌else◌, arith,
}
use unitree_webrtc_rs.Chunks
use unitree_webrtc_rs.Chunks.Expiry
use unitree_webrtc_rs.Chunks.Expiry.{expire_lem, is_over}
use unitree_webrtc_rs.Chunks.Invariant.{insert-IsValid, empty-IsValid, expire-IsValid}
use unitree_webrtc_rs.Chunks.Invariant
use unitree_webrtc_rs.Chunks.Isolation.{insert-SameElsewhere}
use unitree_webrtc_rs.Chunks.Reassembly.{feed_whole, feed}
use unitree_webrtc_rs.H264Rtp
use unitree_webrtc_rs.H264Rtp.Bounds
use unitree_webrtc_rs.H264Rtp.Bounds.{
  process_payload-IsValid, process_payload-length-le, fresh-IsValid,
}
use unitree_webrtc_rs.H264Rtp.RoundTrip.{collect-packets, packets}
use unitree_webrtc_rs.H264Rtp.Trace.{process_rtp_packet-Assembled, Assembled, is_whole}

abbrev two_parts : List Bytes
two_parts = (1 ∷ 2 ∷ []) ∷ (3 ∷ []) ∷ []

-- The second chunk comes first.
feed_whole_example :
    ((feed "k" "/data/data" two_parts Chunks.empty ((2, 10) ∷ (1, 30_000_000_009) ∷ [])).1
      ≡ ok none ∷ ok (some (1 ∷ 2 ∷ 3 ∷ [])) ∷ [])
    × (lookup "k"
          (feed "k" "/data/data" two_parts Chunks.empty
            ((2, 10) ∷ (1, 30_000_000_009) ∷ [])).0.transfers
        ≡ none)
unfolding lookup
feed_whole_example =
    feed_whole "k" "/data/data" two_parts 10 Chunks.empty 2 ((1, 30_000_000_009) ∷ []) refl
      (omega arith) (omega arith) (omega arith) (omega arith)
      ((omega arith, omega arith), ((omega arith, omega arith), tt))
      (((λ e. omega arith), tt), (tt, tt)) (omega arith, tt) refl

-- One chunk of two, under the key "k".
abbrev begun : Chunks.ChunkAssembler
begun = (Chunks.insert Chunks.empty "k" "/data/data" 1 2 (7 ∷ []) 10).0

begun-IsValid : Chunks.Invariant.IsValid begun
begun-IsValid = insert-IsValid Chunks.empty "k" "/data/data" 1 2 (7 ∷ []) 10 empty-IsValid

insert-IsValid_example :
    Chunks.Invariant.IsValid (Chunks.insert begun "k" "/data/data" 2 2 (8 ∷ []) 11).0
insert-IsValid_example = insert-IsValid begun "k" "/data/data" 2 2 (8 ∷ []) 11 begun-IsValid

insert-SameElsewhere_example :
    lookup "k" (Chunks.insert begun "j" "/data/data" 1 1 (8 ∷ []) 11).0.transfers
    ≡ lookup "k" begun.transfers
insert-SameElsewhere_example = insert-SameElsewhere begun "j" "/data/data" 1 1 (8 ∷ []) 11 "k" refl

expire_lem_example :
    (Chunks.Expiry.contains "k" (Chunks.expire begun 40000000000).1
      ≡ is_over 40000000000 (lookup "k" begun.transfers))
    × (lookup "k" (Chunks.expire begun 40000000000).0.transfers ≡ (
        if is_over 40000000000 (lookup "k" begun.transfers)
        then none
        else lookup "k" begun.transfers))
expire_lem_example = expire_lem begun 40000000000 "k" begun-IsValid

-- A start fragment and an end fragment of a NAL unit with the header 0x65.
abbrev start_packet : H264Rtp.Packet
start_packet = record { payload = 0x7c ∷ 0x85 ∷ 1 ∷ []; sequence = 65535; timestamp = 9 }

abbrev end_packet : H264Rtp.Packet
end_packet = record { payload = 0x7c ∷ 0x45 ∷ 2 ∷ []; sequence = 0; timestamp = 9 }

process_rtp_packet-Assembled_example :
    ((0x65 ∷ 1 ∷ 2 ∷ [] ≡ end_packet.payload) × (is_whole end_packet.payload ≡ true))
    ⊎ Assembled end_packet (start_packet ∷ []) (0x65 ∷ 1 ∷ 2 ∷ [])
unfolding H264Rtp.process_rtp_packet H264Rtp.replay
process_rtp_packet-Assembled_example =
    process_rtp_packet-Assembled end_packet (start_packet ∷ []) (0x65 ∷ 1 ∷ 2 ∷ []) refl

collect-packets_example :
    H264Rtp.collect H264Rtp.fresh (packets 0x65 65535 9 (1 ∷ []) ((2 ∷ []) ∷ []) (3 ∷ []))
    ≡ (H264Rtp.fresh, (0x65 ∷ 1 ∷ 2 ∷ 3 ∷ []) ∷ [])
unfolding H264Rtp.has_bits
collect-packets_example =
    collect-packets 0x65 9 (omega arith) refl H264Rtp.fresh 65535 (1 ∷ []) ((2 ∷ []) ∷ []) (3 ∷ [])
      refl (omega arith)

process_payload-IsValid_example :
    H264Rtp.Bounds.IsValid
      (H264Rtp.process_payload H264Rtp.fresh start_packet.payload (some (65535, 9))).0
process_payload-IsValid_example =
    process_payload-IsValid H264Rtp.fresh start_packet.payload (some (65535, 9)) fresh-IsValid
