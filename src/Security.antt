-- ===== src/Security.antt =====
-- src/infrastructure/security.rs: the payload formats around the ciphers. The ciphers, base64 and the
-- conversion of texts are third-party or standard code, and parameters here.
pub mod Padding
pub mod Blocks
pub mod RoundTrip
use Padding.{pkcs7_pad, pkcs7_unpad}
use Blocks.{map_blocks, aes_block_size}
use Prim.Native.Nat.{◌+◌, ◌-◌, ◌%◌}
use Prim.Native.String.{◌++◌ as append}
use package.text.Mathlib.Text.{◌==◌ as str_eq, starts_with}
use unitree_webrtc_rs.Base.{
  ℕ, [], ◌∷◌, not, Option, String, Bytes, Result, ok, err, ◌>>=◌, ◌>>◌, refuse_if, ltb, ◌==◌,
  length, take, drop, ◌++◌, if◌then◌else◌,
}

-- The crates' functions that this file calls, and `String`'s conversions. The cipher is generic in
-- its key.
pub record Crates : Type 1 where
  pub Aes256 : Type 0
  pub new_from_slice : Bytes → Result Aes256
  pub encrypt_block : Aes256 → Bytes → Bytes
  pub decrypt_block : Aes256 → Bytes → Bytes
  pub gcm_decrypt : Bytes → Bytes → Bytes → Result Bytes
  pub encode : Bytes → String
  pub decode : String → Result Bytes
  pub as_bytes : String → Bytes
  pub from_utf8 : Bytes → Result String
  pub md5 : Bytes → Bytes
  pub hex_encode : Bytes → String
  pub hex_decode : String → Result Bytes
  pub trim : String → String

abbrev pub con_notify_key : Bytes
con_notify_key =
    232 ∷ 86 ∷ 130 ∷ 189 ∷ 22 ∷ 84 ∷ 155 ∷ 0 ∷ 142 ∷ 4 ∷ 166 ∷ 104 ∷ 43 ∷ 179 ∷ 235 ∷ 227 ∷ []

-- `map_err`
abbrev pub map_err {ℓ} : {A : Type ℓ} → (String → String) → Result A → Result A
map_err f (ok a) = ok a
map_err f (err e) = err (f e)

module _ (c : Crates) where
  open c use {
    new_from_slice, encrypt_block, decrypt_block, gcm_decrypt, encode, decode, as_bytes, from_utf8,
    md5, hex_encode, hex_decode, trim,
  }

  pub validate_aes256_key : String → Result Bytes
  validate_aes256_key key =
      if length (as_bytes key) == 32 then ok (as_bytes key) else err "AES-256 key must be 32 bytes"

  pub aes_ecb_encrypt : String → String → Result String
  unfolding validate_aes256_key
  aes_ecb_encrypt plain_text key = do
    key_bytes ← validate_aes256_key key
    cipher ← new_from_slice key_bytes
    let padded = pkcs7_pad (as_bytes plain_text)
    ok (encode (map_blocks (length padded) (encrypt_block cipher) padded))

  pub aes_ecb_decrypt : String → String → Result String
  unfolding validate_aes256_key
  aes_ecb_decrypt encoded_cipher_text key = do
    key_bytes ← validate_aes256_key key
    cipher ← new_from_slice key_bytes
    encrypted_bytes ← decode encoded_cipher_text
    refuse_if (not (length encrypted_bytes % aes_block_size == 0))
        "AES ECB payload length must be multiple of 16"
    plain_bytes ←
        pkcs7_unpad (map_blocks (length encrypted_bytes) (decrypt_block cipher) encrypted_bytes)
    from_utf8 plain_bytes

  -- The payload is the ciphertext, 12 bytes of nonce and 16 bytes of tag.
  pub aes_gcm_decrypt_with_key : String → Bytes → Result String
  aes_gcm_decrypt_with_key encoded_cipher_text key = do
    payload ← decode encoded_cipher_text
    refuse_if (ltb (length payload) 28) "Decryption failed: input data too short"
    let ciphertext = take (length payload - 28) payload
    let nonce = take 12 (drop (length payload - 28) payload)
    let tag = drop (length payload - 16) payload
    plain_bytes ← gcm_decrypt key nonce (ciphertext ++ tag)
    from_utf8 plain_bytes

  pub md5_hex : String → String
  md5_hex input = hex_encode (md5 (as_bytes input))

  pub hex_to_base64 : String → Result String
  hex_to_base64 hex_str = do bytes ← hex_decode hex_str; ok (encode bytes)

  pub encrypt_key : String → Result String
  unfolding md5_hex hex_to_base64
  encrypt_key key = hex_to_base64 (md5_hex (append "UnitreeGo2_" key))

  -- The lengths in the texts of the errors are left out.
  pub validate_aes128_hex_key : String → Result Bytes
  validate_aes128_hex_key key = do
    refuse_if (not (length (as_bytes (trim key)) == 32)) "AES-128 key must be 32 hex characters"
    decoded ← map_err (append "AES-128 key must be valid hex: ") (hex_decode (trim key))
    refuse_if (not (length decoded == 16)) "AES-128 key must decode to 16 bytes"
    ok decoded

  pub aes_gcm_decrypt_with_hex_key : String → String → Result String
  unfolding validate_aes128_hex_key aes_gcm_decrypt_with_key
  aes_gcm_decrypt_with_hex_key encoded_cipher_text aes_128_key = do
    key ← validate_aes128_hex_key aes_128_key
    aes_gcm_decrypt_with_key encoded_cipher_text key

  pub decrypt_con_notify_data : String → Result String
  unfolding aes_gcm_decrypt_with_key
  decrypt_con_notify_data encoded_cipher_text =
      aes_gcm_decrypt_with_key encoded_cipher_text con_notify_key

  pub explain_rejection : String → String
  explain_rejection error =
      if starts_with error "AES-128 key"
      then error
      else append
          "AES-GCM decrypt failed for con_notify data2=3; per-device aes_128_key was rejected or payload is corrupt: "
          error

  pub decrypt_con_notify_data_with_aes_128_key : String → String → Result String
  unfolding aes_gcm_decrypt_with_hex_key explain_rejection
  decrypt_con_notify_data_with_aes_128_key encoded_cipher_text aes_128_key =
      if str_eq (trim aes_128_key) ""
      then err "con_notify data2=3 requires aes_128_key or GO2_DORA_UNITREE_AES_128_KEY"
      else map_err explain_rejection (aes_gcm_decrypt_with_hex_key encoded_cipher_text aes_128_key)
