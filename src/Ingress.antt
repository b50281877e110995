-- ===== src/Ingress.antt =====
-- src/protocol/ingress.rs: `parse_json`, which builds a tree under budgets of nodes and depth. The
-- JSON reader is serde_json's: a parameter that gives the document as it hands it to the visitor,
-- with its members in their order and with repeated keys.
pub mod Admission
use Prim.Native.Nat.{◌+◌, ◌*◌}
use unitree_webrtc_rs.Base.{
  ℕ, zero, suc, Option, none, some, Bytes, String, Result, ok, err, ltb, leb, if◌then◌else◌, length,
}
use unitree_webrtc_rs.Json.{
  Value, Values, Members, Number, null, bool, number, string, array, object, nil, cons, end, member,
  pos_int, neg_int, float, is_finite, put, ◌then?◌,
}

abbrev pub max_text_bytes : ℕ
max_text_bytes = 1024 * 1024

abbrev pub max_binary_bytes : ℕ
max_binary_bytes = 1152 * 1024

abbrev pub max_binary_header_bytes : ℕ
max_binary_header_bytes = 64 * 1024

abbrev pub max_binary_expansion_bytes : ℕ
max_binary_expansion_bytes = 1024 * 1024

abbrev pub max_json_nodes : ℕ
max_json_nodes = 65_536

abbrev pub max_json_depth : ℕ
max_json_depth = 64

-- Each value and each key takes one node of the budget first.
abbrev pub charge {ℓ} : {A : Type ℓ} → ℕ → (ℕ → Option A) → Option A
charge zero k = none
charge (suc remaining) k = k remaining

-- The visitor's scalars.
abbrev pub visit_number : Number → Option Value
visit_number (pos_int n) = some (number (pos_int n))
visit_number (neg_int n) = some (number (neg_int n))
visit_number (float bits) = if is_finite bits then some (number (float bits)) else none

-- The remaining budget is threaded through; `depth` is that of the value.
unfoldable mutual
  pub admit : Value → ℕ → ℕ → Option (Value × ℕ)
  admit null depth remaining = charge remaining (λ r. some (null, r))
  admit (bool b) depth remaining = charge remaining (λ r. some (bool b, r))
  admit (number n) depth remaining = charge remaining (λ r. visit_number n then? λ v. some (v, r))
  admit (string s) depth remaining = charge remaining (λ r. some (string s, r))
  admit (array vs) depth remaining = charge remaining λ r.
      let inner = admit_values vs (depth + 1) r in
      if leb max_json_depth depth then none else (inner then? λ p. some (array p.0, p.1))
  admit (object ms) depth remaining = charge remaining λ r.
      let inner = admit_members ms end (depth + 1) r in
      if leb max_json_depth depth then none else (inner then? λ p. some (object p.0, p.1))

  pub admit_values : Values → ℕ → ℕ → Option (Values × ℕ)
  admit_values nil depth remaining = some (nil, remaining)
  admit_values (cons v vs) depth remaining = admit v depth remaining then? λ p.
      admit_values vs depth p.1 then? λ q. some (cons p.0 q.0, q.1)

  pub admit_members : Members → Members → ℕ → ℕ → Option (Members × ℕ)
  admit_members end acc depth remaining = some (acc, remaining)
  admit_members (member k v ms) acc depth remaining =
      charge remaining λ r. admit v depth r then? λ p. admit_members ms (put k p.0 acc) depth p.1

unfoldable pub parse_json : (Bytes → Option Value) → Bytes → Result Value
parse_json read bytes =
    if ltb max_text_bytes (length bytes)
    then err "Ingress JSON exceeds 1 MiB"
    else elim (read bytes) [
      | none ↦ err "Invalid ingress JSON or resource budget exceeded"
      | some document ↦ elim (admit document 0 max_json_nodes) [
        | none ↦ err "Invalid ingress JSON or resource budget exceeded"
        | some p ↦ ok p.0
      ]
    ]
