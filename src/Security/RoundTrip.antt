-- ===== src/Security/RoundTrip.antt =====
-- `aes_ecb_decrypt` undoes `aes_ecb_encrypt`, and how a con_notify payload is taken apart.
use mathlib.Core.List.{append_assoc}
use unitree_webrtc_rs.Base.{
  ℕ, ◌+◌, ◌-◌, ◌%◌, ◌≡◌, refl, inl, inr, Bool-cases, sym, ◌++◌, false, not, String, Bytes, ok, err,
  ◌>>=◌, ◌>>◌, refuse_if, ltb, ◌==◌, length, drop, length-append, take-append, drop-append, arith,
}
use unitree_webrtc_rs.Security.Blocks.{
  map_blocks, aes_block_size, length-map_blocks, map_blocks_inverse,
}
use unitree_webrtc_rs.Security.Padding.{pkcs7_pad, pkcs7_unpad, pkcs7_unpad-pad, length-pkcs7_pad}
use unitree_webrtc_rs.Security.{
  Crates, aes_ecb_encrypt, aes_ecb_decrypt, aes_gcm_decrypt_with_key, encrypt_key, md5_hex,
  hex_to_base64, decrypt_con_notify_data_with_aes_128_key, aes_gcm_decrypt_with_hex_key,
  validate_aes128_hex_key,
}
use Prim.Native.String.{◌++◌ as append}
use package.text.Mathlib.Text.{◌==◌ as str_eq}

-- What is documented of the crates: AES-256 takes any key of 32 bytes, and decryption undoes
-- encryption on a block and keeps its size; base64 decodes what it encodes.
pub record IsLawful (c : Crates) : Type 0 where
  pub key_ok : (key : Bytes) → length key ≡ 32 → (k : c.Aes256) × (c.new_from_slice key ≡ ok k)
  pub block_size : (k : c.Aes256) (b : Bytes) → length b ≡ 16 → length (c.encrypt_block k b) ≡ 16
  pub block_inverse :
      (k : c.Aes256) (b : Bytes) → length b ≡ 16 → c.decrypt_block k (c.encrypt_block k b) ≡ b
  pub decode-encode : (b : Bytes) → c.decode (c.encode b) ≡ ok b

-- The peer's validation key comes back as the base64 of the MD5 digest of its prefixed text; the detour
-- through hexadecimal loses nothing, since the hex crate decodes what it encodes.
pub encrypt_key_lem :
    (c : Crates) (key : String)
    → ((b : Bytes) → c.hex_decode (c.hex_encode b) ≡ ok b)
    → encrypt_key c key ≡ ok (c.encode (c.md5 (c.as_bytes (append "UnitreeGo2_" key))))
unfolding encrypt_key md5_hex hex_to_base64
encrypt_key_lem c key h = rw h refl

-- A per-device key is refused unless it has 32 bytes without the spaces around it.
pub decrypt_con_notify_data_with_aes_128_key_err :
    (c : Crates) (encoded key : String)
    → (length (c.as_bytes (c.trim key)) ≡ 32 → ⊥)
    → (e : String) × (decrypt_con_notify_data_with_aes_128_key c encoded key ≡ err e)
unfolding decrypt_con_notify_data_with_aes_128_key aes_gcm_decrypt_with_hex_key
    validate_aes128_hex_key
decrypt_con_notify_data_with_aes_128_key_err c encoded key h =
    elim (Bool-cases (str_eq (c.trim key) "")) [
      | inl e ↦ rw e (_, refl)
      | inr e ↦
          let short : (length (c.as_bytes (c.trim key)) == 32) ≡ false = ground (arith, h) in
          rw (e, short) (_, refl)
    ]

drop_tag :
    (ciphertext nonce tag : Bytes) (n : ℕ)
    → n ≡ length (ciphertext ++ nonce)
    → drop n (ciphertext ++ (nonce ++ tag)) ≡ tag
drop_tag ciphertext nonce tag n e =
    rw (← append_assoc ciphertext nonce tag) (drop-append (ciphertext ++ nonce) tag n e)

module _ (c : Crates) (lawful : IsLawful c) where
  decrypt_blocks :
      (k : c.Aes256) (plain_text : String)
      → c.from_utf8 (c.as_bytes plain_text) ≡ ok plain_text
      → (do
        encrypted_bytes ← c.decode (
            c.encode (
              map_blocks
                (length (pkcs7_pad (c.as_bytes plain_text)))
                (c.encrypt_block k)
                (pkcs7_pad (c.as_bytes plain_text))))
        refuse_if
            (not (length encrypted_bytes % aes_block_size == 0))
            "AES ECB payload length must be multiple of 16"
        plain_bytes ←
            pkcs7_unpad (map_blocks (length encrypted_bytes) (c.decrypt_block k) encrypted_bytes)
        c.from_utf8 plain_bytes)
        ≡ ok plain_text
  decrypt_blocks k plain_text utf8 =
      let padded = pkcs7_pad (c.as_bytes plain_text) in
      let size =
        length-map_blocks (c.encrypt_block k) (c.decrypt_block k) (lawful.block_size k)
          (length padded) padded in
      rw (lawful.decode-encode (map_blocks (length padded) (c.encrypt_block k) padded), size)
        (rw
          (
            length-pkcs7_pad (c.as_bytes plain_text),
            map_blocks_inverse (c.encrypt_block k) (c.decrypt_block k) (lawful.block_size k)
                (lawful.block_inverse k) (length padded) padded
                (length-pkcs7_pad (c.as_bytes plain_text)),
            pkcs7_unpad-pad (c.as_bytes plain_text),
          )
          utf8)

  -- With a key of 32 bytes, a text comes back from its encryption, if it comes back from its UTF-8.
  pub aes_ecb_decrypt-encrypt :
      (plain_text key : String)
      → length (c.as_bytes key) ≡ 32
      → c.from_utf8 (c.as_bytes plain_text) ≡ ok plain_text
      → (aes_ecb_encrypt c plain_text key >>= λ encoded. aes_ecb_decrypt c encoded key)
        ≡ ok plain_text
  unfolding aes_ecb_encrypt aes_ecb_decrypt
  aes_ecb_decrypt-encrypt plain_text key h utf8 =
      let (k, e) = lawful.key_ok (c.as_bytes key) h in rw (h, e) (decrypt_blocks k plain_text utf8)

  -- A con_notify payload is read as its ciphertext, the 12 bytes of its nonce and the 16 bytes of
  -- its tag, in this order, whatever their contents, and the cipher gets all three.
  pub aes_gcm_decrypt_parts :
      (key ciphertext nonce tag : Bytes)
      → length nonce ≡ 12
      → length tag ≡ 16
      → aes_gcm_decrypt_with_key c (c.encode (ciphertext ++ (nonce ++ tag))) key
        ≡ (c.gcm_decrypt key nonce (ciphertext ++ tag) >>= c.from_utf8)
  unfolding aes_gcm_decrypt_with_key
  aes_gcm_decrypt_parts key ciphertext nonce tag hn ht =
      let payload = ciphertext ++ (nonce ++ tag) in
      let size : length payload ≡ length ciphertext + 28 =
        omega (arith, length-append ciphertext (nonce ++ tag), length-append nonce tag) in
      let cut : length payload - 28 ≡ length ciphertext = omega arith in
      let cut_tag : length payload - 16 ≡ length (ciphertext ++ nonce) =
        omega (arith, length-append ciphertext nonce) in
      let long : ltb (length payload) 28 ≡ false = ground (arith, size) in
      rw (lawful.decode-encode payload, long)
        (rw (
          take-append ciphertext (nonce ++ tag) (length payload - 28) cut,
          drop-append ciphertext (nonce ++ tag) (length payload - 28) cut,
          take-append nonce tag 12 (sym hn),
          drop_tag ciphertext nonce tag (length payload - 16) cut_tag,
        ))
