-- ===== src/DataChannel/Ingress.antt =====
-- Incoming messages: from `process_ingress` on.
use Prim.Native.Nat.{◌+◌, ◌-◌}
use unitree_webrtc_rs.Base.Dict.{lookup, insert}
use unitree_webrtc_rs.Base.{
  ℕ, Bool, true, false, not, Option, none, some, List, [], ◌∷◌, String, Bytes, Result, ok, err,
  ◌>>=◌, ok_or, ltb, leb, if◌then◌else◌, length,
}
use unitree_webrtc_rs.Chunks
use unitree_webrtc_rs.Chunks.{ChunkAssembler, max_transfer_bytes}
use unitree_webrtc_rs.DataChannel.Pending.{fail_pending, resolve_pending_response, contains}
use unitree_webrtc_rs.DataChannel.State.{Service, Port, TopicCallback}
use unitree_webrtc_rs.Ingress.{max_binary_expansion_bytes}
use unitree_webrtc_rs.Json.{
  Value, Values, number, string, array, object, nil, cons, pos_int, get, find, put, as_str, as_bool,
  as_u64, ◌then?◌,
}
use unitree_webrtc_rs.Models.{extract_key, or_default, or_else, is_empty, descend, joined_key}

-- `generate_message_key`
abbrev pub generate_message_key : String → String → Option String → String
generate_message_key msg_type topic none = joined_key msg_type topic
generate_message_key msg_type topic (some identifier) = identifier

unfoldable pub incoming_key : Port → Value → String
unfolding descend
incoming_key port message =
    generate_message_key (or_default (get "type" message then? as_str))
      (or_default (get "topic" message then? as_str))
      (or_else (get "data" message then? extract_key port.show_float) (
        or_else (descend message ("info" ∷ "uuid" ∷ []) then? as_str)
          (descend message ("info" ∷ "req_uuid" ∷ []) then? as_str)))

-- `u8::try_from(element.as_u64()?)` for each element.
unfoldable pub bytes_of_values : Values → Option Bytes
bytes_of_values nil = some []
bytes_of_values (cons v vs) =
    let rest = bytes_of_values vs in
    as_u64 v then? λ b. if ltb b 256 then (rest then? λ bs. some (b ∷ bs)) else none

abbrev pub count_values : Values → ℕ
count_values nil = 0
count_values (cons v vs) = count_values vs + 1

unfoldable pub value_to_chunk_bytes : Port → Value → Option Bytes
unfolding bytes_of_values
value_to_chunk_bytes port (string s) =
    if leb (length (port.as_bytes s)) max_transfer_bytes then some (port.as_bytes s) else none
value_to_chunk_bytes port (array vs) =
    if ltb max_transfer_bytes (count_values vs) then none else bytes_of_values vs
value_to_chunk_bytes port _ = none

unfoldable pub values_of_bytes : Bytes → Values
values_of_bytes [] = nil
values_of_bytes (b ∷ bs) = cons (number (pos_int b)) (values_of_bytes bs)

abbrev pub bytes_to_json_array : Bytes → Value
bytes_to_json_array bytes = array (values_of_bytes bytes)

-- A chunk's metadata, its payload, and the JSON path of the payload, which is also the schema.
pub record ChunkSource : Type 0 where
  pub metadata : Value
  pub payload : Option Value
  pub path : String
  pub keys : List String

abbrev pub is_chunked : Value → Bool
is_chunked info = elim (get "enable_chunking" info then? as_bool) [ none ↦ false | some b ↦ b ]

abbrev pub only_chunked : Option Value → Option Value
only_chunked none = none
only_chunked (some info) = if is_chunked info then some info else none

unfoldable pub chunk_source : Value → Option ChunkSource
unfolding descend
chunk_source message =
    or_else
      (only_chunked (descend message ("data" ∷ "content_info" ∷ [])) then? λ info. some (record {
        metadata = info;
        payload = descend message ("data" ∷ "data" ∷ []);
        path = "/data/data";
        keys = "data" ∷ "data" ∷ [];
      }))
      (only_chunked (descend message ("info" ∷ "file" ∷ [])) then? λ info. some (record {
        metadata = info;
        payload = get "data" info;
        path = "/info/file/data";
        keys = "info" ∷ "file" ∷ "data" ∷ [];
      }))

-- The write through `pointer_mut`.
unfoldable pub set_at : List String → Value → Value → Value
set_at [] new v = new
set_at (k ∷ ks) new (object ms) = elim (find k ms) [
  | none ↦ object ms
  | some inner ↦ object (put k (set_at ks new inner) ms)
]
set_at (k ∷ ks) new v = v

abbrev pub Parsed : Type 0
Parsed = ChunkAssembler × Result (Option Bytes)

-- What the closure `parse` reads before it calls the assembler.
unfoldable pub read_chunk : Port → ChunkSource → Result (ℕ × ℕ × Bytes)
unfolding value_to_chunk_bytes
read_chunk port source = do
  index ← ok_or (get "chunk_index" source.metadata then? as_u64) "Invalid chunk index"
  total ← ok_or (get "total_chunk_num" source.metadata then? as_u64) "Invalid chunk count"
  bytes ← ok_or (source.payload then? value_to_chunk_bytes port) "Invalid chunk bytes"
  ok (index, total, bytes)

unfoldable pub parse_chunk : Port → ChunkAssembler → String → ChunkSource → Parsed
parse_chunk port a key source = elim (read_chunk port source) [
  | err e ↦ (a, err e)
  | ok c ↦ Chunks.insert a key source.path c.0 c.1 c.2 port.now
]

abbrev pub with_chunks : Service → ChunkAssembler → Service
with_chunks s a = record s { chunk_data_storage = a }

-- The three results of `parse()`.
unfoldable pub finish_chunk :
    Service → String → ChunkSource → Value → Result (Option Bytes) → Service
finish_chunk s key source message (ok none) = s
finish_chunk s key source message (ok (some bytes)) =
    if ltb max_binary_expansion_bytes (length bytes)
    then fail_pending s key "Binary JSON expansion exceeds 1 MiB"
    else resolve_pending_response s key (set_at source.keys (bytes_to_json_array bytes) message)
finish_chunk s key source message (err e) =
    fail_pending (with_chunks s (Chunks.remove s.chunk_data_storage key)) key e

unfoldable pub handle_chunk : Port → Service → ChunkSource → Value → Service
unfolding finish_chunk
handle_chunk port s source message =
    let key = incoming_key port message in
    let parsed = parse_chunk port s.chunk_data_storage key source in
    finish_chunk (with_chunks s parsed.0) key source message parsed.1

-- `run_resolve` with `handle_chunked_response`: a message with no type is no response.
unfoldable pub run_resolve : Port → Service → Value → Service
run_resolve port s message = elim (get "type" message) [
  | none ↦ s
  | some _ ↦ elim (chunk_source message) [
    | some source ↦ handle_chunk port s source message
    | none ↦ resolve_pending_response s (incoming_key port message) message
  ]
]

unfoldable pub should_process : Port → Service → String → Service × Bool
should_process port s topic_or_type = elim (port.throttle_limit topic_or_type) [
  | none ↦ (s, true)
  | some limit ↦
      let last : ℕ = elim (lookup topic_or_type s.last_process_time) [ none ↦ 0 | some t ↦ t ] in
      if leb limit (port.now_throttle - last)
      then (
        record s { last_process_time = insert topic_or_type port.now_throttle s.last_process_time },
        true,
      )
      else (s, false)
]

-- From `should_process` on, with its result.
unfoldable pub dispatch_topic : Port → String → Value → Service × Bool → Service
dispatch_topic port topic message (s, false) = s
dispatch_topic port topic message (s, true) =
    let event : TopicCallback = record {
      topic = topic;
      payload = message;
      generation = s.session_id;
    } in
    if not (contains topic s.subscriptions)
    then s
    else if port.try_send_event event
    then record s { events = event ∷ s.events }
    else s

unfoldable pub dispatch_subscription : Port → Service → Value → Service
unfolding dispatch_topic should_process
dispatch_subscription port s message =
    let topic = or_default (get "topic" message then? as_str) in
    if is_empty topic then s else dispatch_topic port topic message (should_process port s topic)

unfoldable pub fail_keys : Service → List String → Service
fail_keys s [] = s
fail_keys s (key ∷ keys) = fail_keys (fail_pending s key "Chunk assembly deadline expired") keys

unfoldable pub expire_chunks : Port → Service → Service
expire_chunks port s =
    let (a, expired) = Chunks.expire s.chunk_data_storage port.now in
    fail_keys (with_chunks s a) expired
