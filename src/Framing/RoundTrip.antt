-- ===== src/Framing/RoundTrip.antt =====
-- What a frame is made of.
use mathlib.Core.List.{append_assoc}
use unitree_webrtc_rs.Base.{
  ℕ, ◌+◌, ◌-◌, ◌*◌, ◌≤◌, ◌≡◌, refl, sym, ap, ◌∙◌, true, ◌&&◌, Option, some, [], ◌∷◌, ◌++◌, Bytes,
  ok, leb, length, drop, length-append, take-append, drop-append, arith,
}
use unitree_webrtc_rs.Framing.{
  BinaryFrame, normal, lidar, slice?, from_le, frame_of, extent, rest_of, parse,
}
use unitree_webrtc_rs.Ingress.{parse_json, max_binary_header_bytes}
use unitree_webrtc_rs.Json.{Value, is_object}

-- A sender's envelope: the frame's mark, and the length of the header in little-endian bytes.
abbrev pub Envelope : BinaryFrame → ℕ → Bytes → Type 0
Envelope normal n bytes =
    (a : ℕ) × (b : ℕ) × (c : ℕ) × (d : ℕ) × (bytes ≡ a ∷ b ∷ c ∷ d ∷ [])
    × (n ≡ a + 256 * b)
    × (frame_of (a ∷ b ∷ c ∷ d ∷ []) ≡ normal)
Envelope lidar n bytes =
    (size : Bytes) × (reserved : Bytes) × (bytes ≡ (2 ∷ 0 ∷ 0 ∷ 0 ∷ []) ++ (size ++ reserved))
    × (length size ≡ 4)
    × (length reserved ≡ 4)
    × (n ≡ from_le size)

slice?-append :
    (xs ys zs : Bytes) (first last : ℕ)
    → first ≡ length xs
    → last ≡ length xs + length ys
    → slice? (xs ++ (ys ++ zs)) first last ≡ some ys
unfolding slice?
slice?-append xs ys zs first last e f =
    let fits : (leb first last && leb last (length (xs ++ (ys ++ zs)))) ≡ true =
      ground (arith, length-append xs (ys ++ zs), length-append ys zs) in
    rw (fits, drop-append xs (ys ++ zs) first e, take-append ys zs (last - first) (omega arith))

module _ (read : Bytes → Option Value) (json body : Bytes) (header : Value)
    (small : length json ≤ max_binary_header_bytes) (parsed : parse_json read json ≡ ok header)
    (object : is_object header ≡ true) where
  rest_of-append :
      (frame : BinaryFrame) (envelope : Bytes) (start : ℕ)
      → start ≡ length envelope
      → start ≤ 12
      → rest_of read (envelope ++ (json ++ body)) frame (start, length json)
        ≡ ok (frame, header, body)
  unfolding rest_of
  rest_of-append frame envelope start e h =
      let last = start + length json in
      let body_is : drop last (envelope ++ (json ++ body)) ≡ body =
        ap (drop last) (sym (append_assoc envelope json body))
        ∙ drop-append (envelope ++ json) body last (omega (arith, length-append envelope json)) in
      ground (arith, slice?-append envelope json body start last e (omega arith), body_is)

  abbrev frame_bytes : Bytes → Bytes
  frame_bytes envelope = envelope ++ (json ++ body)

  parse_parts :
      (frame : BinaryFrame) (prefix envelope : Bytes) (start : ℕ)
      → slice? (frame_bytes envelope) 0 4 ≡ some prefix
      → frame_of prefix ≡ frame
      → extent frame prefix (frame_bytes envelope) ≡ ok (start, length json)
      → start ≡ length envelope
      → start ≤ 12
      → parse read (frame_bytes envelope) ≡ ok (frame, header, body)
  unfolding parse
  parse_parts frame prefix envelope start p f x e h =
      rw (p, f, x) (rest_of-append frame envelope start e h)

  parse_normal :
      (a b c d : ℕ)
      → length json ≡ a + 256 * b
      → frame_of (a ∷ b ∷ c ∷ d ∷ []) ≡ normal
      → parse read (frame_bytes (a ∷ b ∷ c ∷ d ∷ [])) ≡ ok (normal, header, body)
  unfolding extent
  parse_normal a b c d n f =
      let prefix : Bytes = a ∷ b ∷ c ∷ d ∷ [] in
      parse_parts normal prefix prefix 4 (slice?-append [] prefix (json ++ body) 0 4 refl refl) f
        (ap (λ (k : ℕ). ok (4, k)) (omega arith)) refl (omega arith)

  parse_lidar :
      (size reserved : Bytes)
      → length size ≡ 4
      → length reserved ≡ 4
      → length json ≡ from_le size
      → parse read (frame_bytes ((2 ∷ 0 ∷ 0 ∷ 0 ∷ []) ++ (size ++ reserved)))
        ≡ ok (lidar, header, body)
  unfolding extent frame_of
  parse_lidar size reserved four four' n =
      let mark : Bytes = 2 ∷ 0 ∷ 0 ∷ 0 ∷ [] in
      let behind = (size ++ reserved) ++ (json ++ body) in
      let size_at : slice? (mark ++ behind) 4 8 ≡ some size =
        ap (λ b. slice? (mark ++ b) 4 8) (append_assoc size reserved (json ++ body))
        ∙ slice?-append mark size (reserved ++ (json ++ body)) 4 8 refl (omega arith) in
      parse_parts lidar mark (mark ++ (size ++ reserved)) 12
        (slice?-append [] mark behind 0 4 refl refl) refl
        (rw size_at (ap (λ (k : ℕ). ok (12, k)) (sym n)))
        (omega (arith, length-append size reserved)) (omega arith)

  -- A frame is read as it was put together: its kind, its header and its payload, whatever the
  -- payload holds, for a header of at most 64 KiB that is a JSON object.
  pub parse-Envelope :
      (frame : BinaryFrame) (envelope : Bytes)
      → Envelope frame (length json) envelope
      → parse read (envelope ++ (json ++ body)) ≡ ok (frame, header, body)
  parse-Envelope normal envelope (a, b, c, d, e, n, f) = rw e (parse_normal a b c d n f)
  parse-Envelope lidar envelope (size, reserved, e, four, four', n) =
      rw e (parse_lidar size reserved four four' n)
