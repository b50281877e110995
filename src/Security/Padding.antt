-- ===== src/Security/Padding.antt =====
-- `pkcs7_pad` and `pkcs7_unpad`, and that they undo one another.
use unitree_webrtc_rs.Base.{
  ℕ, zero, suc, ◌+◌, ◌-◌, ◌%◌, ◌≤◌, ◌<◌, ◌≡◌, refl, ap, ◌∙◌, Bool, false, not, ◌||◌, Option, none,
  some, [], ◌∷◌, ◌++◌, Bytes, Result, ok, err, ltb, ◌==◌, if◌then◌else◌, length, take, drop,
  replicate, length-append, length-replicate, length-drop, take-append, drop-append,
  take-append-drop, Option-cases, inl, inr, arith,
}

unfoldable pub pkcs7_pad : Bytes → Bytes
pkcs7_pad bytes = let padding = 16 - length bytes % 16 in bytes ++ replicate padding padding

-- `<[u8]>::last`
abbrev pub last : Bytes → Option ℕ
last [] = none
last (b ∷ []) = some b
last (b ∷ c ∷ cs) = last (c ∷ cs)

-- `iter().any(|byte| *byte as usize != padding)`
abbrev pub any_ne : ℕ → Bytes → Bool
any_ne padding [] = false
any_ne padding (b ∷ bs) = not (b == padding) || any_ne padding bs

-- The tests on the number of padding bytes, which the last byte gives.
unfoldable pub strip : ℕ → Bytes → Result Bytes
strip padding bytes =
    if padding == 0 || ltb 16 padding || ltb (length bytes) padding
    then err "Invalid PKCS7 padding length"
    else if any_ne padding (drop (length bytes - padding) bytes)
    then err "Invalid PKCS7 padding bytes"
    else ok (take (length bytes - padding) bytes)

unfoldable pub pkcs7_unpad : Bytes → Result Bytes
unfolding strip
pkcs7_unpad bytes = elim (last bytes) [
  | none ↦ err "Encrypted payload is empty"
  | some padding ↦ strip padding bytes
]

last-append : (xs : Bytes) (y : ℕ) (ys : Bytes) → last (xs ++ (y ∷ ys)) ≡ last (y ∷ ys)
last-append [] y ys = refl
last-append (x ∷ []) y ys = refl
last-append (x ∷ z ∷ xs) y ys = last-append (z ∷ xs) y ys

last-replicate : (n k : ℕ) → last (replicate (suc n) k) ≡ some k
last-replicate zero k = refl
last-replicate (suc n) k = last-replicate n k

any_ne-replicate : (n k : ℕ) → any_ne k (replicate n k) ≡ false
any_ne-replicate zero k = refl
any_ne-replicate (suc n) k = ground (arith, any_ne-replicate n k)

strip-append :
    (xs : Bytes) (n : ℕ) → suc n ≤ 16 → strip (suc n) (xs ++ replicate (suc n) (suc n)) ≡ ok xs
unfolding strip
strip-append xs n h =
    let padded = replicate (suc n) (suc n) in
    let size : length (xs ++ padded) ≡ length xs + suc n =
      length-append xs padded ∙ ap (λ k. length xs + k) (length-replicate (suc n) (suc n)) in
    let cut : length (xs ++ padded) - suc n ≡ length xs = omega arith in
    ground (
      arith,
      size,
      drop-append xs padded (length (xs ++ padded) - suc n) cut,
      take-append xs padded (length (xs ++ padded) - suc n) cut,
      any_ne-replicate (suc n) (suc n),
    )

unpad-append :
    (xs : Bytes) (n : ℕ) → suc n ≤ 16 → pkcs7_unpad (xs ++ replicate (suc n) (suc n)) ≡ ok xs
unfolding pkcs7_unpad
unpad-append xs n h =
    rw (last-append xs (suc n) (replicate n (suc n)) ∙ last-replicate n (suc n), pkcs7_unpad)
      (strip-append xs n h)

-- Any payload comes back from its padding.
pub pkcs7_unpad-pad : (bytes : Bytes) → pkcs7_unpad (pkcs7_pad bytes) ≡ ok bytes
unfolding pkcs7_pad
pkcs7_unpad-pad bytes =
    let e : 16 - length bytes % 16 ≡ suc (15 - length bytes % 16) = omega arith in
    rw e (unpad-append bytes (15 - length bytes % 16) (omega arith))

pub length-pkcs7_pad : (bytes : Bytes) → length (pkcs7_pad bytes) % 16 ≡ 0
unfolding pkcs7_pad
length-pkcs7_pad bytes = omega (
  arith,
  length-append bytes (replicate (16 - length bytes % 16) (16 - length bytes % 16)),
  length-replicate (16 - length bytes % 16) (16 - length bytes % 16),
)

any_ne-eq-replicate : (k : ℕ) (bs : Bytes) → any_ne k bs ≡ false → bs ≡ replicate (length bs) k
any_ne-eq-replicate k [] h = refl
any_ne-eq-replicate k (b ∷ bs) h = ground (arith, any_ne-eq-replicate k bs)

strip_ok :
    (k : ℕ) (bytes plain : Bytes)
    → strip k bytes ≡ ok plain
    → (0 < k) × (k ≤ 16) × (bytes ≡ plain ++ replicate k k)
unfolding strip
strip_ok k bytes plain h =
    let tail = drop (length bytes - k) bytes in
    let same = any_ne-eq-replicate k tail in
    ground
      (arith, same, length-drop (length bytes - k) bytes, take-append-drop (length bytes - k) bytes)

-- Only padded payloads are accepted: what `pkcs7_unpad` strips is from 1 to 16 bytes, each of which
-- is their number.
pub pkcs7_unpad_ok :
    (bytes plain : Bytes)
    → pkcs7_unpad bytes ≡ ok plain
    → (k : ℕ) × (0 < k) × (k ≤ 16) × (bytes ≡ plain ++ replicate k k)
unfolding pkcs7_unpad
pkcs7_unpad_ok bytes plain h = elim (Option-cases (last bytes)) [
  | inl e ↦ cc (rw (e, pkcs7_unpad) at h)
  | inr (k, e) ↦ let s = strip_ok k bytes plain (rw (e, pkcs7_unpad) at h) in (k, s.0, s.1, s.2)
]
