-- ===== src/Json.antt =====
-- `serde_json::Value`, the JSON trees that the code passes about, and the accessors that it uses.
use Prim.Native.Nat.{◌/◌, ◌%◌, ◌^◌}
use text.Mathlib.Text.{◌==◌ as str_eq}
use unitree_webrtc_rs.Base.{
  ℕ, ◌≡◌, refl, arith, Bool, true, false, not, Option, none, some, String, ltb, ◌==◌, if◌then◌else◌,
}

-- `neg_int n` is -(n + 1), and `float` holds the 64 bits of an `f64`.
pub data Number : Type 0 where
  pos_int : ℕ → Number
  neg_int : ℕ → Number
  float : ℕ → Number

mutual
  pub data Value : Type 0 where
    null : Value
    bool : Bool → Value
    number : Number → Value
    string : String → Value
    array : Values → Value
    object : Members → Value

  pub data Values : Type 0 where
    nil : Values
    cons : Value → Values → Values

  pub data Members : Type 0 where
    end : Members
    member : String → Value → Members → Members

-- A finite `f64`: the 11 bits of its exponent are not all set.
abbrev pub is_finite : ℕ → Bool
is_finite bits = not (bits / 2 ^ 52 % 2 ^ 11 == 2047)

unfoldable pub find : String → Members → Option Value
find k end = none
find k (member j v ms) = if str_eq j k then some v else find k ms

-- `Map::insert`.
unfoldable pub put : String → Value → Members → Members
put k v end = member k v end
put k v (member j w ms) = if str_eq j k then member k v ms else member j w (put k v ms)

-- `Value::get` with a text.
unfoldable pub get : String → Value → Option Value
unfolding find
get k (object ms) = find k ms
get k null = none
get k (bool b) = none
get k (number n) = none
get k (string s) = none
get k (array vs) = none

abbrev pub as_str : Value → Option String
as_str (string s) = some s
as_str _ = none

abbrev pub as_bool : Value → Option Bool
as_bool (bool b) = some b
as_bool _ = none

abbrev pub as_array : Value → Option Values
as_array (array vs) = some vs
as_array _ = none

abbrev pub as_u64 : Value → Option ℕ
as_u64 (number (pos_int n)) = some n
as_u64 _ = none

-- `as_i64`: a whole number in the range of `i64`.
abbrev pub as_i64 : Value → Option Number
as_i64 (number (pos_int n)) = if ltb n (2 ^ 63) then some (pos_int n) else none
as_i64 (number (neg_int n)) = if ltb n (2 ^ 63) then some (neg_int n) else none
as_i64 _ = none

abbrev pub number_eq : Number → Number → Bool
number_eq (pos_int a) (pos_int b) = a == b
number_eq (neg_int a) (neg_int b) = a == b
number_eq (float a) (float b) = a == b
number_eq _ _ = false

abbrev pub is_object : Value → Bool
is_object (object ms) = true
is_object _ = false

-- `and_then`, for chains of accessors.
infixl 5 ◌then?◌
abbrev pub ◌then?◌ {ℓ κ} : {A : Type ℓ} {B : Type κ} → Option A → (A → Option B) → Option B
none then? f = none
some a then? f = f a

pub then-some {ℓ κ} :
    {A : Type ℓ} {B : Type κ} (o : Option A) (f : A → Option B) (b : B)
    → (o then? f) ≡ some b
    → (a : A) × (o ≡ some a) × (f a ≡ some b)
then-some none f b h = absurd (ground arith)
then-some (some a) f b h = (a, refl, h)
