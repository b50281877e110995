-- ===== src/Signaling.antt =====
-- src/infrastructure/signaling_http.rs: the exchange of session descriptions with the robot over HTTP,
-- by its old method and, if that fails, by the encrypted one. HTTP, URLs, RSA and the random key are
-- dependencies: parameters.
pub mod Url
pub mod Wrapper
pub mod Bodies
use Prim.Native.Nat.{◌+◌, ◌-◌, ◌*◌}
use Prim.Native.String.{◌++◌ as append}
use unitree_webrtc_rs.Base.{
  ℕ, zero, suc, Bool, true, false, not, ◌&&◌, ◌||◌, Option, none, some, List, [], ◌∷◌, ◌++◌, String,
  Bytes, Result, ok, err, ◌>>=◌, ok_or, ltb, leb, ◌==◌, length, if◌then◌else◌,
}
use unitree_webrtc_rs.Json.{
  Value, Number, string, number, object, member, end, pos_int, neg_int, get, put, as_str, as_i64,
  ◌then?◌,
}
use unitree_webrtc_rs.Models.{is_empty, show_number}
use unitree_webrtc_rs.Security.{
  Crates, aes_ecb_encrypt, aes_ecb_decrypt, decrypt_con_notify_data,
  decrypt_con_notify_data_with_aes_128_key, map_err,
}
use unitree_webrtc_rs.Signaling.Url.{Endpoint, Hosts, signaling_url}
use unitree_webrtc_rs.Signaling.Wrapper.{con_notify_public_key, calc_local_path_ending}

abbrev pub body_limit : ℕ
body_limit = 1024 * 1024

-- A response: its chunks as they come, each of which may fail.
pub record Response : Type 0 where
  pub is_success : Bool
  pub status : String
  pub content_length : Option ℕ
  pub chunks : List (Result Bytes)

-- `while let Some(chunk)`, from the bytes that were read.
unfoldable pub read_chunks : Bytes → List (Result Bytes) → Result Bytes
read_chunks bytes [] = ok bytes
read_chunks bytes (err e ∷ chunks) = err (append "Signaling response read failed: " e)
read_chunks bytes (ok chunk ∷ chunks) =
    let rest = read_chunks (bytes ++ chunk) chunks in
    if ltb (body_limit - length bytes) (length chunk)
    then err "Signaling response body exceeds 1 MiB"
    else rest

abbrev pub is_too_long : Option ℕ → Bool
is_too_long none = false
is_too_long (some size) = ltb body_limit size

module _ (c : Crates) (hosts : Hosts) where
  unfoldable pub read_response : Response → Result String
  unfolding read_chunks
  read_response response =
      if is_too_long response.content_length
      then err "Signaling response body exceeds 1 MiB"
      else read_chunks [] response.chunks >>= λ bytes.
          map_err (λ e. "Signaling response is not UTF-8") (c.from_utf8 bytes)

  -- The network, JSON and RSA. A request that fails has the reason of `signaling_error`.
  pub record Net : Type 1 where
    pub World : Type 0
    pub PublicKey : Type 0
    pub post : Endpoint → Option String → World → World × Result Response
    pub generate_aes_key : World → World × String
    pub rsa_load_public_key : String → Result PublicKey
    pub rsa_encrypt : String → PublicKey → Result String
    pub read_json : String → Result Value
    pub print_json : Value → String
    pub show_float : ℕ → String

  unfoldable pub normalize_optional_key : Option String → Option String
  normalize_optional_key key =
      key then? λ value. if is_empty (c.trim value) then none else some (c.trim value)

  -- `data2`: an integer, zero if it is missing.
  abbrev pub mode_of : Value → Result Number
  mode_of payload = elim (get "data2" payload) [
    | none ↦ ok (pos_int 0)
    | some value ↦ ok_or (as_i64 value) "con_notify data2 must be an integer"
  ]

  abbrev pub key_text : String
  key_text = "con_notify data2=3 requires aes_128_key or GO2_DORA_UNITREE_AES_128_KEY"

  unfoldable pub decode_mode : (ℕ → String) → Number → String → Option String → Result String
  unfolding normalize_optional_key
  decode_mode show_float (pos_int zero) data1 key = ok data1
  decode_mode show_float (pos_int (suc (suc zero))) data1 key = decrypt_con_notify_data c data1
  decode_mode show_float (pos_int (suc (suc (suc zero)))) data1 key =
      ok_or (normalize_optional_key key) key_text >>= λ k.
      decrypt_con_notify_data_with_aes_128_key c data1 k
  decode_mode show_float mode data1 key =
      err (append "unsupported con_notify data2 auth mode: " (show_number show_float mode))

  unfoldable pub decode_con_notify_data1 : (ℕ → String) → Value → Option String → Result String
  unfolding decode_mode
  decode_con_notify_data1 show_float payload key =
      ok_or (get "data1" payload then? as_str) "con_notify data1 field missing" >>= λ data1.
      mode_of payload >>= λ mode. decode_mode show_float mode data1 key

  module _ (net : Net) where
    -- A post that is answered with success, and its body.
    unfoldable pub exchange :
        String → Endpoint → Option String → net.World → net.World × Result String
    unfolding read_response
    exchange refused url body w =
        let (w', r) = net.post url body w in
        (
          w',
          map_err (append "Signaling request failed: ") r >>= λ response.
              if not response.is_success
              then err (append refused response.status)
              else read_response response,
        )

    unfoldable pub send_sdp_local_old : String → String → net.World → net.World × Result String
    unfolding exchange signaling_url
    send_sdp_local_old ip sdp_json w = elim (signaling_url hosts (c.as_bytes ip) 8081 "/offer") [
      | err e ↦ (w, err e)
      | ok url ↦ exchange "Failed to receive SDP answer from old method: " url (some sdp_json) w
    ]

    -- The decoded answer of `con_notify`, as its `data1` is then.
    unfoldable pub decode_notify : String → Option String → Result String
    unfolding decode_con_notify_data1
    decode_notify encoded key =
        map_err (λ e. "Invalid con_notify base64") (c.decode encoded) >>= λ bytes.
        map_err (λ e. "Invalid con_notify UTF-8") (c.from_utf8 bytes) >>= λ decoded.
        map_err (λ e. "Invalid con_notify JSON") (net.read_json decoded) >>= λ payload.
        decode_con_notify_data1 net.show_float payload key

    unfoldable pub public_key_of : String → Result String
    unfolding con_notify_public_key
    public_key_of data1 = con_notify_public_key (c.as_bytes data1) >>= c.from_utf8

    -- What is sent for an answer: the endpoint and the body.
    unfoldable pub ingest_request :
        String → String → String → String → String → Result (Endpoint × String)
    unfolding signaling_url calc_local_path_ending
    ingest_request ip sdp_json data1 public_key_pem aes_key =
        net.rsa_load_public_key public_key_pem >>= λ public_key.
        aes_ecb_encrypt c sdp_json aes_key >>= λ encrypted.
        net.rsa_encrypt aes_key public_key >>= λ wrapped_key.
        signaling_url hosts (c.as_bytes ip) 9991
          (append "/con_ing_" (calc_local_path_ending (c.as_bytes data1)))
        >>= λ url. ok (
          url,
          net.print_json (
              object (member "data1" (string encrypted) (member "data2" (string wrapped_key) end))),
        )

    unfoldable pub finish_exchange :
        String → String → Option String → net.World × Result String → net.World × Result String
    unfolding decode_notify ingest_request exchange public_key_of
    finish_exchange ip sdp_json key (w, err e) = (w, err e)
    finish_exchange ip sdp_json key (w, ok encoded) = elim (decode_notify encoded key) [
      | err e ↦ (w, err e)
      | ok data1 ↦ elim (public_key_of data1) [
        | err e ↦ (w, err e)
        | ok pem ↦
            let (w1, aes_key) = net.generate_aes_key w in
            elim (ingest_request ip sdp_json data1 pem aes_key) [
              | err e ↦ (w1, err e)
              | ok (url, body) ↦
                  let (w2, answer) =
                    exchange "Failed to receive con_ing response: " url (some body) w1 in
                  (w2, answer >>= λ encrypted. aes_ecb_decrypt c encrypted aes_key)
            ]
      ]
    ]

    unfoldable pub send_sdp_local_new_with_aes_key :
        String → String → Option String → net.World → net.World × Result String
    unfolding finish_exchange exchange signaling_url
    send_sdp_local_new_with_aes_key ip sdp_json key w =
        elim (signaling_url hosts (c.as_bytes ip) 9991 "/con_notify") [
          | err e ↦ (w, err e)
          | ok url ↦
              finish_exchange ip sdp_json key
                (exchange "Failed to receive con_notify response: " url none w)
        ]

    abbrev pub both_failed : String → String → String
    both_failed legacy_error new_error =
        append "legacy offer failed ("
          (append legacy_error (append "); con_notify offer failed (" (append new_error ")")))

    unfoldable pub send_sdp_local_with_aes_key :
        String → String → Option String → net.World → net.World × Result String
    unfolding send_sdp_local_old send_sdp_local_new_with_aes_key
    send_sdp_local_with_aes_key ip sdp_json key w =
        let (w1, r) = send_sdp_local_old ip sdp_json w in
        elim r [
          | ok answer ↦ (w1, ok answer)
          | err legacy_error ↦
              let (w2, r2) = send_sdp_local_new_with_aes_key ip sdp_json key w1 in
              (w2, map_err (both_failed legacy_error) r2)
        ]
