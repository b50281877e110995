-- ===== src/H264Rtp/RoundTrip.antt =====
-- Sending a NAL unit in FU-A fragments and joining them again.
use Prim.Native.Nat.{bit_and, bit_or}
use mathlib.Core.List.{append_assoc}
use unitree_webrtc_rs.Base.{
  ℕ, ◌+◌, ◌≤◌, ◌<◌, ◌≡◌, refl, ap, ◌∙◌, Bool, true, false, not, ◌&&◌, Option, none, some, List, [],
  ◌∷◌, ◌++◌, Bytes, ◌==◌, if◌then◌else◌, length, length-append, holds_below, holds_below_sound,
  arith,
}
use unitree_webrtc_rs.H264Rtp.{
  H264RtpReassembler, Packet, fresh, process_rtp_packet, has_bits, is_single, is_stale, collect,
  option_cons, fu_a_type, wrapping_inc, max_nal_bytes,
}

-- A sender: the indicator byte and the FU header of RFC 6184 for a NAL header `h`.
abbrev pub indicator : ℕ → ℕ
indicator h = bit_or (bit_and h 0x60) fu_a_type

abbrev pub fragment_of : ℕ → ℕ → Bytes → Bytes
fragment_of h flags body = indicator h ∷ bit_or flags (bit_and h 0x1f) ∷ body

-- A header of a single NAL unit: the forbidden bit is clear and the type is from 1 to 23.
abbrev pub is_nal_header : ℕ → Bool
is_nal_header h = not (has_bits h 0x80) && is_single (bit_and h 0x1f)

-- What the reassembler reads from the two header bytes, for all headers and flags that are used.
abbrev reads_back : ℕ → ℕ → Bool → Bool → Bool
reads_back flags h start end =
    let fu = bit_or flags (bit_and h 0x1f) in
    not (has_bits (indicator h) 0x80)
    && bit_and (indicator h) 0x1f == fu_a_type
    && bit_or (bit_and (indicator h) 0x60) (bit_and fu 0x1f) == h
    && is_single (bit_and fu 0x1f)
    && not (has_bits fu 0x20)
    && (if start then has_bits fu 0x80 else not (has_bits fu 0x80))
    && (if end then has_bits fu 0x40 else not (has_bits fu 0x40))

abbrev implies : Bool → Bool → Bool
implies a b = if a then b else true

all_three : (a b c : Bool) → (a && (b && c)) ≡ true → (a ≡ true) × (b ≡ true) × (c ≡ true)
all_three true true true h = (refl, refl, refl)
all_three true true false h = cc
all_three true false c h = cc
all_three false b c h = cc

table :
    holds_below 256 (λ h. implies (is_nal_header h) (
      reads_back 0x80 h true false && (reads_back 0 h false false && reads_back 0x40 h false true)))
    ≡ true
unfolding holds_below has_bits
table = refl

reads_back_all :
    (h : ℕ)
    → h < 256
    → is_nal_header h ≡ true
    → (reads_back 0x80 h true false ≡ true)
      × (reads_back 0 h false false ≡ true)
      × (reads_back 0x40 h false true ≡ true)
reads_back_all h lt e = split (
    holds_below_sound
      (λ h. implies (is_nal_header h) (
        reads_back 0x80 h true false
        && (reads_back 0 h false false && reads_back 0x40 h false true)))
      256 h lt table)
  where
    split :
        implies (is_nal_header h) (
            reads_back 0x80 h true false
            && (reads_back 0 h false false && reads_back 0x40 h false true))
          ≡ true
        → (reads_back 0x80 h true false ≡ true)
          × (reads_back 0 h false false ≡ true)
          × (reads_back 0x40 h false true ≡ true)
    split f =
        all_three (reads_back 0x80 h true false) (reads_back 0 h false false)
          (reads_back 0x40 h false true) (rw e at f)

module _ (h seq ts : ℕ) (lt : h < 256) (is : is_nal_header h ≡ true) where
  abbrev pending : Bytes → H264RtpReassembler
  pending t = record { buffer = h ∷ t; in_progress = true; next_rtp = some (seq, ts) }

  process_start :
      (s : H264RtpReassembler) (body : Bytes)
      → is_stale (some (seq, ts)) s.next_rtp ≡ false
      → length body + 2 ≤ max_nal_bytes
      → process_rtp_packet s (fragment_of h 0x80 body) seq ts ≡ (
        record { buffer = h ∷ body; in_progress = true; next_rtp = some (wrapping_inc seq, ts) },
        none,
      )
  unfolding process_rtp_packet
  process_start s body fresh_start fits = ground (arith, (reads_back_all h lt is).0)

  process_middle :
      (t body : Bytes)
      → length t + length body + 2 ≤ max_nal_bytes
      → process_rtp_packet (pending t) (fragment_of h 0 body) seq ts ≡ (
        record {
          buffer = h ∷ (t ++ body);
          in_progress = true;
          next_rtp = some (wrapping_inc seq, ts);
        },
        none,
      )
  unfolding process_rtp_packet
  process_middle t body fits = ground (arith, (reads_back_all h lt is).1)

  process_end :
      (t body : Bytes)
      → length t + length body + 2 ≤ max_nal_bytes
      → process_rtp_packet (pending t) (fragment_of h 0x40 body) seq ts
        ≡ (fresh, some (h ∷ (t ++ body)))
  unfolding process_rtp_packet
  process_end t body fits = ground (arith, (reads_back_all h lt is).2)

abbrev pub packet : ℕ → ℕ → Bytes → Packet
packet seq ts payload = record { payload = payload; sequence = seq; timestamp = ts }

abbrev pub bodies : List Bytes → Bytes → Bytes
bodies [] last = last
bodies (m ∷ ms) last = m ++ bodies ms last

-- The fragments behind the first: any number of middle ones, then the last.
abbrev pub later_packets : ℕ → ℕ → ℕ → List Bytes → Bytes → List Packet
later_packets h seq ts [] last = packet seq ts (fragment_of h 0x40 last) ∷ []
later_packets h seq ts (m ∷ ms) last =
    packet seq ts (fragment_of h 0 m) ∷ later_packets h (wrapping_inc seq) ts ms last

abbrev pub packets : ℕ → ℕ → ℕ → Bytes → List Bytes → Bytes → List Packet
packets h seq ts body ms last =
    packet seq ts (fragment_of h 0x80 body) ∷ later_packets h (wrapping_inc seq) ts ms last

collect-cons :
    (s s' : H264RtpReassembler) (p : Packet) (ps : List Packet) (nal : Option Bytes)
    → process_rtp_packet s p.payload p.sequence p.timestamp ≡ (s', nal)
    → collect s (p ∷ ps) ≡ ((collect s' ps).0, option_cons nal (collect s' ps).1)
unfolding collect
collect-cons s s' p ps nal e = rw e

module _ (h ts : ℕ) (lt : h < 256) (is : is_nal_header h ≡ true) where
  collect_later :
      (ms : List Bytes) (seq : ℕ) (t last : Bytes)
      → length t + length (bodies ms last) + 2 ≤ max_nal_bytes
      → collect
          (record { buffer = h ∷ t; in_progress = true; next_rtp = some (seq, ts) })
          (later_packets h seq ts ms last)
        ≡ (fresh, (h ∷ (t ++ bodies ms last)) ∷ [])
  unfolding collect
  collect_later [] seq t last fits = rw (process_end h seq ts lt is t last fits)
  collect_later (m ∷ ms) seq t last fits =
      collect-cons _ _ (packet seq ts (fragment_of h 0 m))
        (later_packets h (wrapping_inc seq) ts ms last) none
        (process_middle h seq ts lt is t m (omega (arith, length-append m (bodies ms last))))
      ∙ collect_later ms (wrapping_inc seq) (t ++ m) last
          (omega (arith, length-append m (bodies ms last), length-append t m))
      ∙ ap (λ b. (fresh, (h ∷ b) ∷ [])) (append_assoc t m (bodies ms last))

  -- A NAL unit of at least two fragments, sent with consecutive sequence numbers from `seq` at one
  -- timestamp and shorter than the budget, is handed out whole, and once, whatever the reassembler
  -- held before, unless the start is not ahead of the fragment that it expects. It then holds nothing.
  pub collect-packets :
      (s : H264RtpReassembler) (seq : ℕ) (body : Bytes) (ms : List Bytes) (last : Bytes)
      → is_stale (some (seq, ts)) s.next_rtp ≡ false
      → length (body ++ bodies ms last) + 2 ≤ max_nal_bytes
      → collect s (packets h seq ts body ms last) ≡ (fresh, (h ∷ (body ++ bodies ms last)) ∷ [])
  collect-packets s seq body ms last ahead fits =
      collect-cons _ _ (packet seq ts (fragment_of h 0x80 body))
        (later_packets h (wrapping_inc seq) ts ms last) none
        (process_start h seq ts lt is s body ahead
          (omega (arith, length-append body (bodies ms last))))
      ∙ collect_later ms (wrapping_inc seq) body last
          (omega (arith, length-append body (bodies ms last)))
