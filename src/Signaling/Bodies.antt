-- ===== src/Signaling/Bodies.antt =====
-- What signaling_http.rs accepts: bodies within their limit, wrapped keys, and hosts that are names.
use Prim.Native.Nat.{◌+◌, ◌-◌, ◌≤◌, ◌<◌}
use Prim.Native.String.{◌++◌ as append}
use mathlib.Core.List.{append_assoc, append-nil}
use unitree_webrtc_rs.Base.{
  ℕ, ◌≡◌, ◌≢◌, ◌⊎◌, refl, ap, sym, ◌∙◌, subst, inl, inr, Bool, true, false, not, ◌&&◌, ◌||◌, none,
  some, List, [], ◌∷◌, ◌++◌, String, Bytes, Result, ok, err, ltb, leb, ◌==◌, length, length-append,
  take, drop, take-append, drop-append, flatten, All, Bool-cases, Option-cases, and_both, guard-ok,
  if_elim, if◌then◌else◌, ==_iff, arith,
}
use unitree_webrtc_rs.Json.{then-some}
use unitree_webrtc_rs.Signaling.Url.{
  Hosts, Endpoint, signaling_url, accepts, is_name, is_label, is_label_byte, all_bytes, all_labels,
  strip_suffix, reversed_onto, or_whole, dot, is_dot_or_digit, is_bracketed,
}
use unitree_webrtc_rs.Signaling.Wrapper.{
  con_notify_public_key, calc_local_path_ending, chars, pairs, is_boundary, starts_character,
  is_continuation,
}
use unitree_webrtc_rs.Signaling.{read_chunks, body_limit}

abbrev pub oks : List Bytes → List (Result Bytes)
oks [] = []
oks (chunk ∷ chunks) = ok chunk ∷ oks chunks

-- How the reading ends: with all chunks, at one that could not be read, or at one for which there is no
-- room, whatever comes behind it.
abbrev pub EndsWith : Bytes → List (Result Bytes) → Result Bytes → Type 0
EndsWith body rest r =
    ((rest ≡ []) × (r ≡ ok body))
    ⊎ (((e : String) × (later : List (Result Bytes)) × (rest ≡ err e ∷ later)
          × (r ≡ err (append "Signaling response read failed: " e)))
        ⊎ ((chunk : Bytes) × (later : List (Result Bytes)) × (rest ≡ ok chunk ∷ later)
            × (body_limit < length body + length chunk)
            × (r ≡ err "Signaling response body exceeds 1 MiB")))

-- What was taken of the chunks, and how the reading ended behind them.
unfoldable pub IsRead : Bytes → List (Result Bytes) → Result Bytes → Type 0
IsRead bytes chunks r =
    (parts : List Bytes) × (rest : List (Result Bytes)) × (chunks ≡ oks parts ++ rest)
    × (length (bytes ++ flatten parts) ≤ body_limit)
    × EndsWith (bytes ++ flatten parts) rest r

stopped-IsRead :
    (bytes : Bytes) (rest : List (Result Bytes)) (r : Result Bytes)
    → length bytes ≤ body_limit
    → EndsWith bytes rest r
    → IsRead bytes rest r
unfolding IsRead
stopped-IsRead bytes rest r small ends =
    let same : bytes ++ flatten [] ≡ bytes = append-nil bytes in
    (
      [],
      rest,
      refl,
      subst (λ b. length b ≤ body_limit) (sym same) small,
      subst (λ b. EndsWith b rest r) (sym same) ends,
    )

more-IsRead :
    (bytes chunk : Bytes) (chunks : List (Result Bytes)) (r : Result Bytes)
    → IsRead (bytes ++ chunk) chunks r
    → IsRead bytes (ok chunk ∷ chunks) r
unfolding IsRead
more-IsRead bytes chunk chunks r (parts, rest, p, small, ends) =
    let same : (bytes ++ chunk) ++ flatten parts ≡ bytes ++ flatten (chunk ∷ parts) =
      append_assoc bytes chunk (flatten parts) in
    (
      chunk ∷ parts,
      rest,
      ap (λ cs. ok chunk ∷ cs) p,
      subst (λ b. length b ≤ body_limit) same small,
      subst (λ b. EndsWith b rest r) same ends,
    )

-- The reading of a body takes the chunks in order, and what it holds of them is never more than 1 MiB. It
-- ends with the whole of the chunks, if none failed and they are of 1 MiB at most together; or at the
-- first that failed; or at the first that would go beyond 1 MiB, which is not taken, and behind which
-- nothing is read.
pub read_chunks-IsRead :
    (bytes : Bytes) (chunks : List (Result Bytes))
    → length bytes ≤ body_limit
    → IsRead bytes chunks (read_chunks bytes chunks)
unfolding read_chunks
read_chunks-IsRead bytes [] small = stopped-IsRead bytes [] _ small (inl (refl, refl))
read_chunks-IsRead bytes (err e ∷ chunks) small =
    stopped-IsRead bytes (err e ∷ chunks) _ small (inr (inl (e, chunks, refl, refl)))
read_chunks-IsRead bytes (ok chunk ∷ chunks) small =
    if_elim (IsRead bytes (ok chunk ∷ chunks)) (ltb (body_limit - length bytes) (length chunk)) _ _
      (λ a.
        stopped-IsRead bytes (ok chunk ∷ chunks) _ small
          (inr (inr (chunk, chunks, refl, ground (arith, a, small), refl))))
      λ a. more-IsRead bytes chunk chunks _ (
        read_chunks-IsRead (bytes ++ chunk) chunks
          (ground (arith, a, small, length-append bytes chunk)))

no_and : (a b : Bool) → a ≡ true → b ≡ true → (a && b) ≢ false
no_and true true p q i = cc
no_and true false p q i = cc
no_and false b p q i = cc

-- The key of a wrapped text is what stands between its ten first and ten last bytes, if characters begin
-- where it begins and where it ends.
pub con_notify_public_key-wrapped :
    (front key back : Bytes)
    → length front ≡ 10
    → length back ≡ 10
    → starts_character (key ++ back) ≡ true
    → starts_character back ≡ true
    → con_notify_public_key (front ++ (key ++ back)) ≡ ok key
unfolding con_notify_public_key
con_notify_public_key-wrapped front key back f b s t =
    let data1 = front ++ (key ++ back) in
    let n = length data1 in
    let size : n ≡ 20 + length key =
      omega (arith, length-append front (key ++ back), length-append key back, f, b) in
    let p : drop 10 data1 ≡ key ++ back = drop-append front (key ++ back) 10 (sym f) in
    let q : drop (n - 10) data1 ≡ back =
      ap (drop (n - 10)) (sym (append_assoc front key back))
      ∙ drop-append (front ++ key) back (n - 10)
          (omega (arith, size, length-append front key, f)) in
    let cut : take (n - 20) (drop 10 data1) ≡ key =
      ap (take (n - 20)) p ∙ take-append key back (n - 20) (omega (arith, size)) in
    let at_front : is_boundary 10 data1 ≡ true = ap starts_character p ∙ s in
    let at_back : is_boundary (n - 10) data1 ≡ true = ap starts_character q ∙ t in
    if_elim (λ r. r ≡ ok key) (ltb n 20) (err "con_notify data1 is too short")
      (if is_boundary 10 data1 && is_boundary (n - 10) data1
        then ok (take (n - 20) (drop 10 data1))
        else err "con_notify data1 wrapper has invalid UTF-8 boundaries")
      (λ e. absurd (ground (arith, e, size)))
      λ e.
        if_elim (λ r. r ≡ ok key) (is_boundary 10 data1 && is_boundary (n - 10) data1)
          (ok (take (n - 20) (drop 10 data1)))
          (err "con_notify data1 wrapper has invalid UTF-8 boundaries") (λ i. ap ok cut)
          λ i.
            absurd (no_and (is_boundary 10 data1) (is_boundary (n - 10) data1) at_front at_back i)

chars-append : (xs ys : Bytes) → chars (xs ++ ys) ≡ chars xs ++ chars ys
unfolding chars
chars-append [] ys = refl
chars-append (x ∷ xs) ys = elim (Bool-cases (is_continuation x)) [
  | inl e ↦ rw (e, chars) (chars-append xs ys)
  | inr e ↦ rw (e, chars) (ap (λ cs. x ∷ cs) (chars-append xs ys))
]

-- The path depends on the last ten characters only: it is that of their five pairs.
pub calc_local_path_ending-last :
    (front back : Bytes)
    → length (chars back) ≡ 10
    → calc_local_path_ending (front ++ back) ≡ pairs (chars back)
unfolding calc_local_path_ending
calc_local_path_ending-last front back ten =
    let cs = chars (front ++ back) in
    let p : cs ≡ chars front ++ chars back = chars-append front back in
    let size : length cs ≡ length (chars front) + 10 =
      ap length p ∙ omega (arith, length-append (chars front) (chars back), ten) in
    let q : drop (length cs - 10) cs ≡ chars back =
      ap (drop (length cs - 10)) p
      ∙ drop-append (chars front) (chars back) (length cs - 10) (omega (arith, size)) in
    if_elim (λ r. r ≡ pairs (chars back)) (ltb (length cs) 10) "" (pairs (drop (length cs - 10) cs))
      (λ e. absurd (ground (arith, e, size))) λ e. ap pairs q

-- A byte of a host name.
abbrev pub IsNameByte : ℕ → Type 0
IsNameByte byte = (is_label_byte byte ≡ true) ⊎ (byte ≡ dot)

label-names : (label : Bytes) → all_bytes is_label_byte label ≡ true → All IsNameByte label
unfolding all_bytes
label-names [] h = tt
label-names (byte ∷ label) h =
    let (p, q) = and_both (is_label_byte byte) (all_bytes is_label_byte label) h in
    (inl p, label-names label q)

is_label-names : (label : Bytes) → is_label label ≡ true → All IsNameByte label
unfolding is_label all_bytes
is_label-names [] h = tt
is_label-names (first ∷ bytes) h = label-names (first ∷ bytes) (ground (arith, h))

reversed-names :
    (seen bytes : Bytes)
    → All IsNameByte (reversed_onto seen bytes)
    → All IsNameByte seen × All IsNameByte bytes
reversed-names [] bytes all = (tt, all)
reversed-names (byte ∷ seen) bytes all =
    let (p, (q, r)) = reversed-names seen (byte ∷ bytes) all in ((q, p), r)

all_labels-names :
    (seen bytes : Bytes) → all_labels seen bytes ≡ true → All IsNameByte seen × All IsNameByte bytes
unfolding all_labels
all_labels-names seen [] h = reversed-names seen [] (is_label-names (reversed_onto seen []) h)
all_labels-names seen (byte ∷ bytes) h =
    if_elim (λ r. r ≡ true → All IsNameByte seen × All IsNameByte (byte ∷ bytes)) (byte == dot)
      (is_label (reversed_onto seen []) && all_labels [] bytes) (all_labels (byte ∷ seen) bytes)
      (λ e k.
        let (p, q) = and_both (is_label (reversed_onto seen [])) (all_labels [] bytes) k in
        let front = reversed-names seen [] (is_label-names (reversed_onto seen []) p) in
        let rest = all_labels-names [] bytes q in (front.0, (inr ((==_iff byte dot).0 e), rest.1)))
      (λ e k. let ((p, ps), qs) = all_labels-names (byte ∷ seen) bytes k in (ps, (p, qs))) h

-- A name with its last dot cut off.
stripped-names :
    (bytes name : Bytes)
    → strip_suffix dot bytes ≡ some name
    → All IsNameByte name
    → All IsNameByte bytes
unfolding strip_suffix
stripped-names [] name h all = tt
stripped-names (byte ∷ []) name h all =
    if_elim (λ o. o ≡ some name → All IsNameByte (byte ∷ [])) (byte == dot) (some []) none
      (λ e k. (inr ((==_iff byte dot).0 e), tt)) (λ e k. absurd (ground (arith, k))) h
stripped-names (byte ∷ next ∷ bytes) name h all =
    let (front, p, q) =
      then-some (strip_suffix dot (next ∷ bytes)) (λ front. some (byte ∷ front)) name h in
    let same : name ≡ byte ∷ front = ground (arith, q) in
    let (a, rest) : All IsNameByte (byte ∷ front) = subst (All IsNameByte) same all in
    (a, stripped-names (next ∷ bytes) front p rest)

name-names : (host : Bytes) → is_name host ≡ true → All IsNameByte host
unfolding is_name
name-names host h =
    let name = or_whole host (strip_suffix dot host) in
    let (a, h1) =
      and_both (not (length name == 0))
        (leb (length name) 253 && (not (all_bytes is_dot_or_digit name) && all_labels [] name)) h in
    let (b, h2) =
      and_both (leb (length name) 253) (not (all_bytes is_dot_or_digit name) && all_labels [] name)
        h1 in
    let (c, h3) = and_both (not (all_bytes is_dot_or_digit name)) (all_labels [] name) h2 in
    let (_, names) = all_labels-names [] name h3 in
    elim (Option-cases (strip_suffix dot host)) [
      | inl e ↦ subst (λ o. All IsNameByte (or_whole host o)) e names
      | inr (front, e) ↦
          stripped-names host front e (subst (λ o. All IsNameByte (or_whole host o)) e names)
    ]

which :
    (hosts : Hosts) (first : ℕ) (host : Bytes)
    → accepts hosts (first ∷ host) ≡ true
    → (first ≡ 91) ⊎ ((hosts.is_ip (first ∷ host) ≡ true) ⊎ All IsNameByte (first ∷ host))
which hosts first host accepted =
    let whole = first ∷ host in
    let Goal = (first ≡ 91) ⊎ ((hosts.is_ip whole ≡ true) ⊎ All IsNameByte whole) in
    if_elim (λ r. r ≡ true → Goal) (first == 91) (is_bracketed hosts host)
      (if hosts.is_ip whole then true else is_name whole && hosts.keeps_host whole)
      (λ a k. inl ((==_iff first 91).0 a))
      (λ a.
        if_elim (λ r. r ≡ true → Goal) (hosts.is_ip whole) true
          (is_name whole && hosts.keeps_host whole) (λ b k. inr (inl b))
          λ b k.
            let (n, o) = and_both (is_name whole) (hosts.keeps_host whole) k in
            inr (inr (name-names whole n)))
      accepted

-- A host that is accepted makes an endpoint of itself, the port and the path that the code names. If it
-- is neither an address nor bracketed, all of its bytes are letters, digits, dashes and dots, so that it
-- names no other port, path, query or user.
pub signaling_url-names :
    (hosts : Hosts) (first : ℕ) (host : Bytes) (port : ℕ) (path : String) (url : Endpoint)
    → signaling_url hosts (first ∷ host) port path ≡ ok url
    → (url ≡ record { host = first ∷ host; port = port; path = path })
      × ((first ≡ 91) ⊎ ((hosts.is_ip (first ∷ host) ≡ true) ⊎ All IsNameByte (first ∷ host)))
unfolding signaling_url
signaling_url-names hosts first host port path url h =
    let whole = first ∷ host in
    let (e, h1) = guard-ok (ltb 254 (length whole) || not (accepts hosts whole)) _ _ url h in
    let accepted : accepts hosts whole ≡ true = ground (arith, e) in
    (ground (arith, h1), which hosts first host accepted)
