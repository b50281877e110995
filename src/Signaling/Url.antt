-- ===== src/Signaling/Url.antt =====
-- `signaling_url` of signaling_http.rs: only an IP address or a host name makes an endpoint.
use unitree_webrtc_rs.Base.{
  ℕ, Bool, true, false, not, ◌&&◌, ◌||◌, Option, none, some, [], ◌∷◌, String, Bytes, Result, ok,
  err, ltb, leb, ◌==◌, length, if◌then◌else◌,
}
use unitree_webrtc_rs.Json.{◌then?◌}

pub record Endpoint : Type 0 where
  pub host : Bytes
  pub port : ℕ
  pub path : String

-- The parsers of the standard library, and what the `url` crate says of a host name: whether the URL
-- that it makes keeps the name as it is, but for case.
pub record Hosts : Type 0 where
  pub is_ip : Bytes → Bool
  pub is_ipv6 : Bytes → Bool
  pub keeps_host : Bytes → Bool

abbrev pub dot : ℕ
dot = 46

abbrev pub in_range : ℕ → ℕ → ℕ → Bool
in_range low high byte = leb low byte && leb byte high

abbrev pub is_ascii_digit : ℕ → Bool
is_ascii_digit = in_range 48 57

abbrev pub is_ascii_alphanumeric : ℕ → Bool
is_ascii_alphanumeric byte = is_ascii_digit byte || (in_range 65 90 byte || in_range 97 122 byte)

abbrev pub is_label_byte : ℕ → Bool
is_label_byte byte = is_ascii_alphanumeric byte || byte == 45

unfoldable pub all_bytes : (ℕ → Bool) → Bytes → Bool
all_bytes test [] = true
all_bytes test (byte ∷ bytes) = test byte && all_bytes test bytes

-- The last byte of a label, if there is one.
unfoldable pub last : ℕ → Bytes → ℕ
last byte [] = byte
last byte (next ∷ bytes) = last next bytes

unfoldable pub is_label : Bytes → Bool
unfolding all_bytes last
is_label [] = false
is_label (first ∷ bytes) =
    leb (length (first ∷ bytes)) 63
    && (is_ascii_alphanumeric first
        && (is_ascii_alphanumeric (last first bytes) && all_bytes is_label_byte (first ∷ bytes)))

-- `split('.')` and the test of each label: the label so far, reversed, and what is left.
abbrev pub reversed_onto : Bytes → Bytes → Bytes
reversed_onto [] bytes = bytes
reversed_onto (byte ∷ seen) bytes = reversed_onto seen (byte ∷ bytes)

unfoldable pub all_labels : Bytes → Bytes → Bool
unfolding is_label
all_labels seen [] = is_label (reversed_onto seen [])
all_labels seen (byte ∷ bytes) =
    let next = all_labels [] bytes in
    let same = all_labels (byte ∷ seen) bytes in
    if byte == dot then is_label (reversed_onto seen []) && next else same

-- `strip_suffix`
unfoldable pub strip_suffix : ℕ → Bytes → Option Bytes
strip_suffix end [] = none
strip_suffix end (byte ∷ []) = if byte == end then some [] else none
strip_suffix end (byte ∷ next ∷ bytes) =
    strip_suffix end (next ∷ bytes) then? λ front. some (byte ∷ front)

abbrev pub or_whole : Bytes → Option Bytes → Bytes
or_whole bytes none = bytes
or_whole bytes (some front) = front

abbrev pub is_dot_or_digit : ℕ → Bool
is_dot_or_digit byte = is_ascii_digit byte || byte == dot

unfoldable pub is_name : Bytes → Bool
unfolding all_labels all_bytes strip_suffix
is_name host =
    let name = or_whole host (strip_suffix dot host) in
    not (length name == 0)
    && (leb (length name) 253 && (not (all_bytes is_dot_or_digit name) && all_labels [] name))

-- `[` and an IPv6 address and `]`.
unfoldable pub is_bracketed : Hosts → Bytes → Bool
unfolding strip_suffix
is_bracketed hosts inner = elim (strip_suffix 93 inner) [
  | none ↦ false
  | some address ↦ hosts.is_ipv6 address
]

abbrev pub accepts : Hosts → Bytes → Bool
accepts hosts [] = false
accepts hosts (first ∷ rest) =
    let host = first ∷ rest in
    if first == 91
    then is_bracketed hosts rest
    else if hosts.is_ip host
    then true
    else is_name host && hosts.keeps_host host

unfoldable pub signaling_url : Hosts → Bytes → ℕ → String → Result Endpoint
unfolding is_bracketed is_name
signaling_url hosts host port path =
    if ltb 254 (length host) || not (accepts hosts host)
    then err "Invalid signaling host: expected only an IP address or hostname"
    else ok (record { host = host; port = port; path = path })
