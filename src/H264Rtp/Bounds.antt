-- ===== src/H264Rtp/Bounds.antt =====
-- The byte budget of the reassembler.
use unitree_webrtc_rs.Base.{
  ℕ, ◌≤◌, ◌<◌, ◌≡◌, refl, true, false, Option, none, some, [], ◌∷◌, Bytes, length, length-append,
  arith,
}
use unitree_webrtc_rs.H264Rtp.{H264RtpReassembler, fresh, max_nal_bytes, process_payload}

-- Nothing is kept between NAL units, and the pending one is within the budget.
pub record IsValid (s : H264RtpReassembler) : Type 0 where
  pub bounded : length s.buffer ≤ max_nal_bytes
  pub idle : s.in_progress ≡ false → (s.buffer ≡ []) × (s.next_rtp ≡ none)
  pub active : s.in_progress ≡ true → 0 < length s.buffer

pub fresh-IsValid : IsValid fresh
fresh-IsValid = record { bounded = omega arith; idle = λ h. (refl, refl); active = λ h. cc }

-- Every call keeps the state valid.
pub process_payload-IsValid :
    (s : H264RtpReassembler) (payload : Bytes) (rtp : Option (ℕ × ℕ))
    → IsValid s
    → IsValid (process_payload s payload rtp).0
unfolding process_payload
process_payload-IsValid s [] rtp v = ground arith
process_payload-IsValid s (p0 ∷ []) rtp v = ground arith
process_payload-IsValid s (p0 ∷ fu ∷ body) rtp v = ground (arith, length-append s.buffer body)

-- No NAL unit that is handed out is over the budget of 8 MiB.
pub process_payload-length-le :
    (s : H264RtpReassembler) (payload : Bytes) (rtp : Option (ℕ × ℕ)) (nal : Bytes)
    → IsValid s
    → (process_payload s payload rtp).1 ≡ some nal
    → length nal ≤ max_nal_bytes
unfolding process_payload
process_payload-length-le s [] rtp nal v h = cc
process_payload-length-le s (p0 ∷ []) rtp nal v h = ground arith
process_payload-length-le s (p0 ∷ fu ∷ body) rtp nal v h =
    ground (arith, length-append s.buffer body)
