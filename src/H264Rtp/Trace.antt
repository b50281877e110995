-- ===== src/H264Rtp/Trace.antt =====
-- What a completed NAL unit was made of, over any history of packets.
use Prim.Native.Nat.{bit_and, bit_or}
use unitree_webrtc_rs.Base.{
  ℕ, ◌≡◌, refl, ap, ◌∙◌, ◌⊎◌, inl, inr, Bool, true, false, not, ◌&&◌, Option, none, some, List, [],
  ◌∷◌, ◌++◌, Bytes, ◌==◌, if◌then◌else◌, drop, arith,
}
use unitree_webrtc_rs.H264Rtp.{
  H264RtpReassembler, Packet, process_rtp_packet, replay, has_bits, is_single, fu_a_type,
  wrapping_inc,
}

-- The NAL header that the two header bytes of a fragment stand for.
abbrev pub header_of : Bytes → Option ℕ
header_of (p0 ∷ fu ∷ body) =
    if bit_and p0 0x1f == fu_a_type then some (bit_or (bit_and p0 0x60) (bit_and fu 0x1f)) else none
header_of _ = none

abbrev pub is_start : Bytes → Bool
is_start (p0 ∷ fu ∷ body) = has_bits fu 0x80
is_start _ = false

abbrev pub is_end : Bytes → Bool
is_end (p0 ∷ fu ∷ body) = has_bits fu 0x40
is_end _ = false

-- A payload that is a NAL unit of its own, by its first byte.
abbrev pub is_whole : Bytes → Bool
is_whole [] = false
is_whole (p0 ∷ _) = is_single (bit_and p0 0x1f) && not (has_bits p0 0x80)

-- Fragments of one NAL, the newest first: one start, at the oldest end, then consecutive sequence
-- numbers at one timestamp, all with the header `h`, and no end but possibly the newest.
pub data Contiguous (h : ℕ) : List Packet → Type 0 where
  first :
      (p : Packet)
      → header_of p.payload ≡ some h
      → is_start p.payload ≡ true
      → Contiguous h (p ∷ [])
  then_next :
      (p q : Packet) (older : List Packet)
      → header_of p.payload ≡ some h
      → is_start p.payload ≡ false
      → is_end q.payload ≡ false
      → p.sequence ≡ wrapping_inc q.sequence
      → p.timestamp ≡ q.timestamp
      → Contiguous h (q ∷ older)
      → Contiguous h (p ∷ q ∷ older)

-- The fragments' bytes in the order of sending.
abbrev pub joined : List Packet → Bytes
joined [] = []
joined (p ∷ older) = joined older ++ drop 2 p.payload

-- A NAL in progress is what the newest packets of the history carried.
record Tracks (s : H264RtpReassembler) (history : List Packet) : Type 0 where
  header : ℕ
  newest : Packet
  older : List Packet
  before : List Packet
  splits : history ≡ (newest ∷ older) ++ before
  run : Contiguous header (newest ∷ older)
  unfinished : is_end newest.payload ≡ false
  holds : s.buffer ≡ header ∷ joined (newest ∷ older)
  expects : s.next_rtp ≡ some (wrapping_inc newest.sequence, newest.timestamp)

abbrev first_of : Bytes → ℕ
first_of [] = 0
first_of (b ∷ _) = b

-- The packet was taken as the next fragment of the NAL in progress.
record Continues (s : H264RtpReassembler) (p : Packet) : Type 0 where
  active : s.in_progress ≡ true
  expected : s.next_rtp ≡ some (p.sequence, p.timestamp)
  same_header : (h : ℕ) (t : Bytes) → s.buffer ≡ h ∷ t → header_of p.payload ≡ some h
  not_start : is_start p.payload ≡ false

-- The packet was taken as a start.
record Starts (p : Packet) (r : H264RtpReassembler) : Type 0 where
  has_header : header_of p.payload ≡ some (first_of r.buffer)
  starts : is_start p.payload ≡ true
  only : r.buffer ≡ first_of r.buffer ∷ drop 2 p.payload

-- After a packet that leaves a NAL in progress.
record Pending (p : Packet) (r : H264RtpReassembler) : Type 0 where
  not_end : is_end p.payload ≡ false
  next : r.next_rtp ≡ some (wrapping_inc p.sequence, p.timestamp)

module _ (s : H264RtpReassembler) (seq ts : ℕ) where
  abbrev packet : Bytes → Packet
  packet payload = record { payload = payload; sequence = seq; timestamp = ts }

  abbrev result : Bytes → H264RtpReassembler × Option Bytes
  result payload = process_rtp_packet s payload seq ts

  step-Pending :
      (payload : Bytes)
      → (result payload).0.in_progress ≡ true
      → Pending (packet payload) (result payload).0
  unfolding process_rtp_packet
  step-Pending [] h = cc
  step-Pending (p0 ∷ []) h = ground arith
  step-Pending (p0 ∷ fu ∷ body) h = ground arith

  step_pending_from :
      (payload : Bytes)
      → (result payload).0.in_progress ≡ true
      → Starts (packet payload) (result payload).0
        ⊎ (Continues s (packet payload) × ((result payload).0.buffer ≡ s.buffer ++ drop 2 payload))
  unfolding process_rtp_packet
  step_pending_from [] h = cc
  step_pending_from (p0 ∷ []) h = ground arith
  step_pending_from (p0 ∷ fu ∷ body) h = ground arith

  step_output_from :
      (payload nal : Bytes)
      → (result payload).1 ≡ some nal
      → ((nal ≡ payload) × (is_whole payload ≡ true))
        ⊎ (Continues s (packet payload)
            × (is_end payload ≡ true)
            × (nal ≡ s.buffer ++ drop 2 payload))
  unfolding process_rtp_packet
  step_output_from [] nal h = cc
  step_output_from (p0 ∷ []) nal h = ground arith
  step_output_from (p0 ∷ fu ∷ body) nal h = ground arith

replay-Tracks :
    (history : List Packet) → (replay history).in_progress ≡ true → Tracks (replay history) history
unfolding replay
replay-Tracks [] h = cc
replay-Tracks (p ∷ past) h =
    let pending = step-Pending (replay past) p.sequence p.timestamp p.payload h in
    elim (step_pending_from (replay past) p.sequence p.timestamp p.payload h) [
      | inl s ↦ record {
        header = first_of (replay (p ∷ past)).buffer;
        newest = p;
        older = [];
        before = past;
        splits = refl;
        run = first p s.has_header s.starts;
        unfinished = pending.not_end;
        holds = s.only;
        expects = pending.next;
      }
      | inr (c, e) ↦
          let t = replay-Tracks past c.active in
          record {
            header = t.header;
            newest = p;
            older = t.newest ∷ t.older;
            before = t.before;
            splits = ap (◌∷◌ p) t.splits;
            run =
                then_next p t.newest t.older (c.same_header _ _ t.holds) c.not_start t.unfinished
                  (ground (arith, t.expects, c.expected)) (ground (arith, t.expects, c.expected))
                  t.run;
            unfinished = pending.not_end;
            holds = e ∙ ap (λ b. b ++ drop 2 p.payload) t.holds;
            expects = pending.next;
          }
    ]

-- A NAL unit put together from `p` and the packets before it.
pub record Assembled (p : Packet) (past : List Packet) (nal : Bytes) : Type 0 where
  pub header : ℕ
  pub fragments : List Packet
  pub before : List Packet
  pub splits : past ≡ fragments ++ before
  pub run : Contiguous header (p ∷ fragments)
  pub finished : is_end p.payload ≡ true
  pub content : nal ≡ header ∷ joined (p ∷ fragments)

-- Whatever packets arrived, a NAL unit that the reassembler hands out is either the payload of the
-- packet just read, or the header and the bodies, in order, of the start fragment and the fragments
-- right behind it, with no packet lost, repeated, reordered or of another timestamp among them.
pub process_rtp_packet-Assembled :
    (p : Packet) (past : List Packet) (nal : Bytes)
    → (process_rtp_packet (replay past) p.payload p.sequence p.timestamp).1 ≡ some nal
    → ((nal ≡ p.payload) × (is_whole p.payload ≡ true)) ⊎ Assembled p past nal
process_rtp_packet-Assembled p past nal h =
    elim (step_output_from (replay past) p.sequence p.timestamp p.payload nal h) [
      | inl whole ↦ inl whole
      | inr (c, e, content) ↦
          let t = replay-Tracks past c.active in
          inr (record {
            header = t.header;
            fragments = t.newest ∷ t.older;
            before = t.before;
            splits = t.splits;
            run =
                then_next p t.newest t.older (c.same_header _ _ t.holds) c.not_start t.unfinished
                  (ground (arith, t.expects, c.expected)) (ground (arith, t.expects, c.expected))
                  t.run;
            finished = e;
            content = content ∙ ap (λ b. b ++ drop 2 p.payload) t.holds;
          })
    ]
