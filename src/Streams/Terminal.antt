-- ===== src/Streams/Terminal.antt =====
-- The error that ends an H.264 decoder.
use unitree_webrtc_rs.Base.{
  ◌≡◌, ◌⊎◌, inl, inr, refl, sym, ap, subst, ◌∙◌, arith, Option, none, some, Bytes,
}
use unitree_webrtc_rs.Streams.Video.{
  Pipeline, H264Decoder, H264DecodeError, DecodedFrame, Decoded, decoded, failed, check_health,
  decode_healthy, keep_error, decode,
}

abbrev error_of : {A : Type 0} → Decoded A → Option H264DecodeError
error_of (decoded x) = none
error_of (failed e) = some e

module _ (P : Pipeline) where
  keep_error_lem :
      (x : H264Decoder P × Decoded (Option DecodedFrame))
      → error_of (keep_error P x).1 ≡ none
        ⊎ (keep_error P x).0.terminal_error ≡ error_of (keep_error P x).1
  unfolding keep_error
  keep_error_lem (d, failed e) = inr refl
  keep_error_lem (d, decoded frame) = inl refl

  -- The decoder does nothing any more, but to answer with the error.
  unfoldable pub IsTerminal : H264Decoder P → H264DecodeError → Type 0
  IsTerminal d e =
      ((nal : Bytes) → decode P d nal ≡ (d, failed e)) × (check_health P d ≡ (d, some e))

  ended-IsTerminal :
      (d : H264Decoder P) (e : H264DecodeError) → d.terminal_error ≡ some e → IsTerminal d e
  unfolding IsTerminal decode check_health decode_healthy keep_error
  ended-IsTerminal d e p =
      subst (λ t. IsTerminal (record { pipeline = d.pipeline; terminal_error = t }) e) (sym p)
        ((λ nal. refl), refl)

  -- A NAL unit that cannot be decoded is the decoder's last: whatever comes behind it, and each poll of its
  -- health, is answered with the same error, and changes nothing.
  pub decode-IsTerminal :
      (d d' : H264Decoder P) (nal : Bytes) (e : H264DecodeError)
      → decode P d nal ≡ (d', failed e)
      → IsTerminal d' e
  unfolding decode
  decode-IsTerminal d d' nal e p =
      ended-IsTerminal d' e (elim (keep_error_lem (decode_healthy P (check_health P d) nal)) [
        | inl q ↦ let r = sym (ap (λ x. error_of x.1) p) ∙ q in ground arith
        | inr q ↦ sym (ap (λ x. x.0.terminal_error) p) ∙ q ∙ ap (λ x. error_of x.1) p
      ])
