-- ===== src/Models.antt =====
-- src/protocol/models.rs: the identity of a request, by which a response is matched to its waiter,
-- and the messages of the transport.
use package.text.Mathlib.Text.{◌==◌ as str_eq}
use Prim.Native.String.{◌++◌ as append}
use Prim.Native.Nat.{◌+◌, ◌/◌, ◌%◌}
use unitree_webrtc_rs.Base.{
  ℕ, zero, suc, Bool, true, false, ◌&&◌, Option, none, some, List, [], ◌∷◌, String, Bytes, ltb,
  if◌then◌else◌,
}
use unitree_webrtc_rs.Json.{
  Value, Number, null, bool, number, string, array, object, pos_int, neg_int, float, get, ◌then?◌,
}

-- `SessionState` is declared by the source and used by none of its code.
pub data DcMessage : Type 0 where
  text : Bytes → DcMessage
  binary : Bytes → DcMessage
  transport_fault : String → DcMessage

pub record IngressMessage : Type 0 where
  pub generation : ℕ
  pub payload : DcMessage

pub for_generation : DcMessage → ℕ → IngressMessage
for_generation m g = record { generation = g; payload = m }

abbrev digit : ℕ → String
digit zero = "0"
digit (suc zero) = "1"
digit (suc (suc zero)) = "2"
digit (suc (suc (suc zero))) = "3"
digit (suc (suc (suc (suc zero)))) = "4"
digit (suc (suc (suc (suc (suc zero))))) = "5"
digit (suc (suc (suc (suc (suc (suc zero)))))) = "6"
digit (suc (suc (suc (suc (suc (suc (suc zero))))))) = "7"
digit (suc (suc (suc (suc (suc (suc (suc (suc zero)))))))) = "8"
digit _ = "9"

-- `to_string` of an unsigned number; 20 digits hold every `u64`.
unfoldable pub show_nat : ℕ → ℕ → String
show_nat zero n = ""
show_nat (suc fuel) n =
    let front = show_nat fuel (n / 10) in
    if ltb n 10 then digit n else append front (digit (n % 10))

-- `to_string` of an `f64` is the standard library's: a parameter.
pub show_number : (ℕ → String) → Number → String
unfolding show_nat
show_number show_float (pos_int n) = show_nat 20 n
show_number show_float (neg_int n) = append "-" (show_nat 20 (n + 1))
show_number show_float (float bits) = show_float bits

pub scalar_to_string : (ℕ → String) → Value → Option String
unfolding show_number
scalar_to_string show_float (string s) = some s
scalar_to_string show_float (number n) = some (show_number show_float n)
scalar_to_string show_float (bool true) = some "true"
scalar_to_string show_float (bool false) = some "false"
scalar_to_string show_float null = none
scalar_to_string show_float (array vs) = none
scalar_to_string show_float (object ms) = none

-- The loop `for key in keys { current = current.get(key)?; }`.
unfoldable pub descend : Value → List String → Option Value
descend current [] = some current
descend current (key ∷ keys) = get key current then? λ inner. descend inner keys

pub nested_scalar_to_string : (ℕ → String) → Value → List String → Option String
unfolding descend scalar_to_string
nested_scalar_to_string show_float payload keys =
    descend payload keys then? λ inner. scalar_to_string show_float inner

abbrev pub or_default : Option String → String
or_default none = ""
or_default (some s) = s

abbrev pub or_else {ℓ} : {A : Type ℓ} → Option A → Option A → Option A
or_else none o = o
or_else (some a) o = some a

abbrev pub is_empty : String → Bool
is_empty s = str_eq s ""

-- `format!("{a} $ {b}")`
abbrev pub joined_key : String → String → String
joined_key a b = append a (append " $ " b)

pub extract_key : (ℕ → String) → Value → Option String
unfolding nested_scalar_to_string
extract_key show_float payload =
    let nested = nested_scalar_to_string show_float payload in
    let type_ = or_default (nested ("type" ∷ [])) in
    let topic = or_default (nested ("topic" ∷ [])) in
    or_else (nested ("uuid" ∷ [])) (
      or_else (nested ("header" ∷ "identity" ∷ "id" ∷ [])) (
        or_else (nested ("req_uuid" ∷ []))
          (if is_empty type_ && is_empty topic then none else some (joined_key type_ topic))))
