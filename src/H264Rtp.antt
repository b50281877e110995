-- ===== src/H264Rtp.antt =====
-- src/video/h264_rtp.rs: `H264RtpReassembler`, which joins the FU-A fragments (RFC 6184) of an H.264
-- NAL unit. A packet is its payload with the sequence number and timestamp of its RTP header.
pub mod Bounds
pub mod Trace
pub mod RoundTrip
use Prim.Native.Nat.{bit_and, bit_or}
use unitree_webrtc_rs.Base.{
  ℕ, ◌+◌, ◌-◌, ◌%◌, ◌^◌, ◌*◌, Bool, true, false, not, ◌&&◌, ◌||◌, Option, none, some, List, [], ◌∷◌,
  ◌++◌, Bytes, ltb, leb, ◌==◌, if◌then◌else◌, length, drop,
}

abbrev pub fu_a_type : ℕ
fu_a_type = 28

abbrev pub max_nal_bytes : ℕ
max_nal_bytes = 8 * 1024 * 1024

pub record H264RtpReassembler : Type 0 where
  pub buffer : Bytes
  pub in_progress : Bool
  pub next_rtp : Option (ℕ × ℕ)

abbrev pub fresh : H264RtpReassembler
fresh = record { buffer = []; in_progress = false; next_rtp = none }

-- `reset` leaves nothing of the state.
abbrev pub reset : H264RtpReassembler → H264RtpReassembler
reset s = record s { buffer = []; in_progress = false; next_rtp = none }

-- `x & mask != 0`
unfoldable pub has_bits : ℕ → ℕ → Bool
has_bits x mask = not (bit_and x mask == 0)

-- `(1..=23).contains(&t)`
abbrev pub is_single : ℕ → Bool
is_single t = leb 1 t && leb t 23

-- `u16::wrapping_sub`
abbrev pub wrapping_sub : ℕ → ℕ → ℕ
wrapping_sub a b = (a + 2 ^ 16 - b) % 2 ^ 16

abbrev pub wrapping_inc : ℕ → ℕ
wrapping_inc a = (a + 1) % 2 ^ 16

abbrev pub rtp_eq : Option (ℕ × ℕ) → Option (ℕ × ℕ) → Bool
rtp_eq none none = true
rtp_eq (some (s, t)) (some (s', t')) = s == s' && t == t'
rtp_eq _ _ = false

-- The test on a start fragment that its sequence number is not ahead of the one expected.
abbrev pub is_stale : Option (ℕ × ℕ) → Option (ℕ × ℕ) → Bool
is_stale (some (s, t)) (some (s', t')) = leb 0x8000 (wrapping_sub s s')
is_stale _ _ = false

abbrev pub next_of : Option (ℕ × ℕ) → Option (ℕ × ℕ)
next_of none = none
next_of (some (s, t)) = some (wrapping_inc s, t)

-- `buffer.first() != Some(&header)`
abbrev pub first_is : Bytes → ℕ → Bool
first_is [] h = false
first_is (b ∷ _) h = b == h

abbrev pub Step : Type 0
Step = H264RtpReassembler × Option Bytes

-- From the byte budget on: the fragment is appended, and the last one completes the NAL.
unfoldable pub append_body : H264RtpReassembler → Bytes → Option (ℕ × ℕ) → Bool → Step
append_body s body rtp end =
    if ltb (max_nal_bytes - length s.buffer) (length body)
    then (reset s, none)
    else if not end
    then (record s { buffer = s.buffer ++ body; next_rtp = next_of rtp }, none)
    else (record s { buffer = []; in_progress = false; next_rtp = none }, some (s.buffer ++ body))

-- The two branches on `start`, for a fragment whose header and continuity were accepted.
unfoldable pub admit : H264RtpReassembler → ℕ → Bytes → Option (ℕ × ℕ) → Bool → Bool → Step
unfolding append_body
admit s header body rtp start end =
    if start
    then append_body (record s { buffer = header ∷ []; in_progress = true; next_rtp = none }) body
        rtp end
    else if not s.in_progress || not (first_is s.buffer header)
    then (reset s, none)
    else append_body s body rtp end

-- From the tests on the fragment header on, with the two header bytes read.
unfoldable pub fragment : H264RtpReassembler → ℕ → ℕ → Bytes → Option (ℕ × ℕ) → Step
unfolding admit has_bits
fragment s p0 fu body rtp =
    let start = has_bits fu 0x80 in
    let end = has_bits fu 0x40 in
    let unit_type = bit_and fu 0x1f in
    let header = bit_or (bit_and p0 0x60) unit_type in
    if (start && end) || has_bits fu 0x20 || not (is_single unit_type)
    then (reset s, none)
    else if not start && not (rtp_eq s.next_rtp rtp)
    then (reset s, none)
    else if start && is_stale rtp s.next_rtp
    then (reset s, none)
    else admit s header body rtp start end

-- From the NAL type on; `rest` is the payload behind its first byte.
unfoldable pub nal_unit : H264RtpReassembler → ℕ → Bytes → Option (ℕ × ℕ) → Step
unfolding fragment
nal_unit s p0 rest rtp =
    let nal_type = bit_and p0 0x1f in
    if not (nal_type == fu_a_type)
    then (reset s, if is_single nal_type then some (p0 ∷ rest) else none)
    else elim rest [ [] ↦ (reset s, none) | fu ∷ body ↦ fragment s p0 fu body rtp ]

unfoldable pub process_payload : H264RtpReassembler → Bytes → Option (ℕ × ℕ) → Step
unfolding nal_unit
process_payload s [] rtp = (reset s, none)
process_payload s (p0 ∷ rest) rtp =
    if ltb max_nal_bytes (length (p0 ∷ rest)) || has_bits p0 0x80
    then (reset s, none)
    else nal_unit s p0 rest rtp

unfoldable pub process_rtp_packet : H264RtpReassembler → Bytes → ℕ → ℕ → Step
unfolding process_payload
process_rtp_packet s payload sequence timestamp =
    process_payload s payload (some (sequence, timestamp))

-- The legacy call with no RTP header.
unfoldable pub process_packet : H264RtpReassembler → Bytes → Step
unfolding process_payload
process_packet s payload = process_payload s payload none

-- A packet as it arrives.
pub record Packet : Type 0 where
  pub payload : Bytes
  pub sequence : ℕ
  pub timestamp : ℕ

-- The state after a history of packets, the newest first.
unfoldable pub replay : List Packet → H264RtpReassembler
replay [] = fresh
replay (p ∷ older) = (process_rtp_packet (replay older) p.payload p.sequence p.timestamp).0

abbrev pub option_cons {ℓ} : {A : Type ℓ} → Option A → List A → List A
option_cons none xs = xs
option_cons (some x) xs = x ∷ xs

-- The NAL units that a sequence of packets completes, in order, and the state behind them.
unfoldable pub collect : H264RtpReassembler → List Packet → H264RtpReassembler × List Bytes
collect s [] = (s, [])
collect s (p ∷ ps) =
    let (s', nal) = process_rtp_packet s p.payload p.sequence p.timestamp in
    let (t, nals) = collect s' ps in (t, option_cons nal nals)
