-- ===== src/Tests/Crypto.antt =====
-- The ciphers' callers, with ciphers that change nothing and encodings that count.
use Prim.Native.Char.{char, code}
use unitree_webrtc_rs.Base.{
  ℕ, zero, suc, ◌≡◌, refl, ap, [], ◌∷◌, String, Bytes, Result, ok, err, ◌>>=◌, ◌==◌, if◌then◌else◌,
}
use unitree_webrtc_rs.Security.RoundTrip.{IsLawful, aes_ecb_decrypt-encrypt}
use unitree_webrtc_rs.Security.{Crates, aes_ecb_encrypt, aes_ecb_decrypt}

abbrev tally : ℕ → String → String
tally zero s = s
tally (suc n) s = String.◌∷◌ (char 97 tt) (tally n s)

-- A byte is that many "a" and one "b".
abbrev count_out : Bytes → String
count_out [] = ""
count_out (b ∷ bs) = tally b (String.◌∷◌ (char 98 tt) (count_out bs))

abbrev bump : Result Bytes → Result Bytes
bump (ok (b ∷ bs)) = ok (suc b ∷ bs)
bump r = r

abbrev next_byte : Result Bytes → Result Bytes
next_byte (ok bs) = ok (0 ∷ bs)
next_byte (err e) = err e

abbrev count_in : String → Result Bytes
count_in String.[] = ok []
count_in (String.◌∷◌ c s) =
    let rest = count_in s in if code c == 97 then bump rest else next_byte rest

count_in-tally :
    (n b : ℕ) (s : String) (bs : Bytes)
    → count_in s ≡ ok (0 ∷ bs)
    → count_in (tally n s) ≡ ok (n ∷ bs)
count_in-tally zero b s bs h = h
count_in-tally (suc n) b s bs h = ap bump (count_in-tally n b s bs h)

count_in-count_out : (bs : Bytes) → count_in (count_out bs) ≡ ok bs
count_in-count_out [] = refl
count_in-count_out (b ∷ bs) = count_in-tally b b _ bs (ap next_byte (count_in-count_out bs))

-- A text as the list of its code points.
abbrev codes : String → Bytes
codes String.[] = []
codes (String.◌∷◌ c s) = code c ∷ codes s

abbrev text_of_codes : Bytes → Result String
text_of_codes [] = ok ""
text_of_codes (b ∷ bs) =
    text_of_codes bs >>= λ s. ok (String.◌∷◌ (if b == 104 then char 104 tt else char 105 tt) s)

abbrev crates : Crates
crates = record {
  Aes256 = Bytes;
  new_from_slice = λ k. ok k;
  encrypt_block = λ k b. b;
  decrypt_block = λ k b. b;
  gcm_decrypt = λ k n b. ok b;
  encode = count_out;
  decode = count_in;
  as_bytes = codes;
  from_utf8 = text_of_codes;
  md5 = λ b. b;
  hex_encode = count_out;
  hex_decode = count_in;
  trim = λ s. s;
}

crates-IsLawful : IsLawful crates
crates-IsLawful = record {
  key_ok = λ key h. (key, refl);
  block_size = λ k b h. h;
  block_inverse = λ k b h. refl;
  decode-encode = count_in-count_out;
}

abbrev key_of_32 : String
key_of_32 = "01234567890123456789012345678901"

aes_ecb_decrypt-encrypt_example :
    (aes_ecb_encrypt crates "hi" key_of_32 >>= λ encoded. aes_ecb_decrypt crates encoded key_of_32)
    ≡ ok "hi"
aes_ecb_decrypt-encrypt_example =
    aes_ecb_decrypt-encrypt crates crates-IsLawful "hi" key_of_32 refl refl

abbrev nonce : Bytes
nonce = 1 ∷ 2 ∷ 3 ∷ 4 ∷ 5 ∷ 6 ∷ 7 ∷ 8 ∷ 9 ∷ 10 ∷ 11 ∷ 12 ∷ []

abbrev tag : Bytes
tag = 0 ∷ 0 ∷ 0 ∷ 0 ∷ 0 ∷ 0 ∷ 0 ∷ 0 ∷ 0 ∷ 0 ∷ 0 ∷ 0 ∷ 0 ∷ 0 ∷ 0 ∷ 0 ∷ []
