-- ===== src/Events/Size.antt =====
-- The bytes that an event is charged for: `json_size` and `event_size` of protocol/events.rs.
use Prim.Native.Nat.{◌+◌, ◌*◌, ◌^◌, ◌-◌, min}
use unitree_webrtc_rs.Base.{
  ℕ, zero, suc, Option, none, some, List, [], ◌∷◌, String, Bytes, ltb, if◌then◌else◌,
}
use unitree_webrtc_rs.Events.{
  CallbackEvent, Class, control, media, topic_callback, lidar_callback, video_frame, audio_frame,
  future_resolve, control_bytes,
}
use unitree_webrtc_rs.Json.{
  Value, Values, Members, null, bool, number, string, array, object, nil, cons, end, member,
}

-- What the allocator and the compiler chose: the capacities of texts and vectors, and two sizes.
pub record Sizes : Type 0 where
  pub text_capacity : String → ℕ
  pub array_capacity : Values → ℕ
  pub bytes_capacity : Bytes → ℕ
  pub samples_capacity : List ℕ → ℕ
  pub size_of_value : ℕ
  pub size_of_event : ℕ

abbrev pub usize_max : ℕ
usize_max = 2 ^ 64 - 1

abbrev pub saturating_add : ℕ → ℕ → ℕ
saturating_add a b = min (a + b) usize_max

abbrev pub saturating_mul : ℕ → ℕ → ℕ
saturating_mul a b = min (a * b) usize_max

-- `pending.extend(values)`: the end of the vector is the head of the list.
unfoldable pub extend : Values → List Value → List Value
extend nil pending = pending
extend (cons v vs) pending = extend vs (v ∷ pending)

-- The loop over an object's entries; `none` is the early return.
unfoldable pub add_members : Sizes → Members → ℕ → List Value → Option (ℕ × List Value)
add_members z end size pending = some (size, pending)
add_members z (member key v ms) size pending =
    let size' = saturating_add (saturating_add size (z.text_capacity key)) 128 in
    let rest = add_members z ms size' (v ∷ pending) in
    if ltb control_bytes size' then none else rest

abbrev pub array_size : Sizes → Values → ℕ → ℕ
array_size z vs size = saturating_add size (saturating_mul (z.array_capacity vs) z.size_of_value)

-- One pass over the value that was popped; `none` is a return of `usize::MAX`.
unfoldable pub visit : Sizes → Value → ℕ → List Value → Option (ℕ × List Value)
unfolding add_members extend
visit z (string s) size pending = some (saturating_add size (z.text_capacity s), pending)
visit z (array vs) size pending =
    if ltb control_bytes (array_size z vs size)
    then none
    else some (array_size z vs size, extend vs pending)
visit z (object ms) size pending = add_members z ms size pending
visit z null size pending = some (size, pending)
visit z (bool b) size pending = some (size, pending)
visit z (number n) size pending = some (size, pending)

-- `while let Some(value) = pending.pop()`, with fuel for its passes; `none` is out of fuel.
unfoldable pub size_loop : Sizes → ℕ → ℕ → List Value → Option ℕ
unfolding visit
size_loop z zero size pending = none
size_loop z (suc fuel) size [] = some size
size_loop z (suc fuel) size (v ∷ pending) = elim (visit z v (saturating_add size 128) pending) [
  | none ↦ some usize_max
  | some (size', pending') ↦
      let rest = size_loop z fuel size' pending' in
      if ltb control_bytes size' then some usize_max else rest
]

-- Each pass adds 128 bytes at least, and the loop ends above 2 MiB.
abbrev pub size_passes : ℕ
size_passes = 16385

unfoldable pub json_size : Sizes → Value → Option ℕ
unfolding size_loop
json_size z v = size_loop z size_passes 0 (v ∷ [])

-- `(class, bytes)` before the size of the event itself is added.
unfoldable pub payload_size : Sizes → (Value → ℕ) → CallbackEvent → Class × ℕ
payload_size z json (topic_callback topic payload) =
    (control, saturating_add (z.text_capacity topic) (json payload))
payload_size z json (future_resolve key result) =
    (control, saturating_add (z.text_capacity key) (json result))
payload_size z json (lidar_callback topic payload points) = (
  media,
  saturating_add (saturating_add (z.text_capacity topic) (json payload))
      (saturating_mul (z.samples_capacity points) 4),
)
payload_size z json (video_frame data_ width height) = (media, z.bytes_capacity data_)
payload_size z json (audio_frame data_ rate channels) =
    (media, saturating_mul (z.samples_capacity data_) 2)

-- The loop of `json_size` always returns, so the default is never taken.
abbrev pub size_or_max : Option ℕ → ℕ
size_or_max none = usize_max
size_or_max (some n) = n

unfoldable pub event_size : Sizes → CallbackEvent → Class × ℕ
unfolding json_size payload_size
event_size z event =
    let (class, bytes) = payload_size z (λ v. size_or_max (json_size z v)) event in
    (class, saturating_add bytes z.size_of_event)
